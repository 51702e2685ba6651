-- ===== src/Controller/Serving.antt =====
-- What a connect call of openwrt/opensocks/src/controller.go may leave: the engine and the routing that serve,
-- as they were, or removed.
use open_socks.Prelude.{
  ◌≡◌, refl, sym, ap, ◌∙◌, subst, ◌⊎◌, inl, inr, true, false, Option, none, some, List, [],
  Bool-cases, if◌then◌else◌, length, Bytes, Result, ok, err, ℤ, is_pos, eq_ℤ,
}
use open_socks.Session.Engine.{Engine, System, is_running}
use open_socks.Netfilter.{
  Table, build_table, Plan, Kernel, RedirectError, setup_redirect, routes_of, with_routes,
  replace_table, setup_tproxy_route, teardown_redirect, teardown_tproxy_route, load_table,
}
use open_socks.Netfilter.Replace.{Applied, Removed, Outcome, replace_table_lem}
use open_socks.Settings.{Settings}
use open_socks.Controller.{World, Outside, plan_for}
use open_socks.Controller.Connecting.{Done, target}
use open_socks.Controller.Connect.{Parts}

-- The routing is that of an earlier world, or removed.
unfoldable pub KeptOrRemoved : Kernel → Kernel → Type 0
KeptOrRemoved base k = (k ≡ base) ⊎ Removed k

pub kept_trans :
    (base k k' : Kernel) → KeptOrRemoved base k → KeptOrRemoved k k' → KeptOrRemoved base k'
unfolding KeptOrRemoved
kept_trans base k k' (inl a) (inl b) = inl (b ∙ a)
kept_trans base k k' (inr a) (inl b) = inr (subst Removed (sym b) a)
kept_trans base k k' a (inr b) = inr b

unfoldable pub RedirectFact : Plan → Kernel → Result RedirectError (Unit {0}) × Kernel → Type 0
RedirectFact plan base (ok _, k) =
    (cidrs : List Bytes) × (routes_of plan k ≡ some cidrs) × Applied (build_table plan cidrs) k
RedirectFact plan base (err e, k) = KeptOrRemoved base k

-- Replacing the table does not change the list of Chinese addresses.
replaced-routes : (t : Table) (k : Kernel) → (replace_table t k).1.china_routes ≡ k.china_routes
unfolding replace_table setup_tproxy_route teardown_redirect teardown_tproxy_route load_table
replaced-routes t k = elim (Bool-cases k.rule_works) [
  | inr e ↦ rw e refl
  | inl e ↦ elim (Bool-cases k.route_works) [
    | inr e' ↦ rw (e, e') refl
    | inl e' ↦ elim (Bool-cases k.nft_works) [
      | inr e'' ↦ rw (e, e', e'') refl
      | inl e'' ↦ rw (e, e', e'') refl
    ]
  ]
]

routes_of-same :
    (plan : Plan) (k k' : Kernel)
    → k'.china_routes ≡ k.china_routes
    → routes_of plan k' ≡ routes_of plan k
unfolding routes_of
routes_of-same plan k k' e = ap (λ r. if plan.is_global then some [] else r) e

Outcome-fact :
    (plan : Plan) (base : Kernel) (cidrs : List Bytes)
    (r : Result RedirectError (Unit {0}) × Kernel)
    → routes_of plan r.1 ≡ some cidrs
    → Outcome (build_table plan cidrs) r
    → RedirectFact plan base r
unfolding Outcome RedirectFact KeptOrRemoved
Outcome-fact plan base cidrs (ok _, k) e h = (cidrs, e, h)
Outcome-fact plan base cidrs (err x, k) e h = inr h

with_routes-fact :
    (plan : Plan) (k : Kernel) (found : Option (List Bytes))
    → routes_of plan k ≡ found
    → RedirectFact plan k (with_routes plan k found)
unfolding with_routes RedirectFact KeptOrRemoved
with_routes-fact plan k none e = inl refl
with_routes-fact plan k (some cidrs) e =
    let t = build_table plan cidrs in
    Outcome-fact plan k cidrs (replace_table t k)
      (routes_of-same plan k (replace_table t k).1 (replaced-routes t k) ∙ e)
      (replace_table_lem t k)

pub setup_redirect_fact : (plan : Plan) (k : Kernel) → RedirectFact plan k (setup_redirect plan k)
unfolding setup_redirect
setup_redirect_fact plan k = with_routes-fact plan k (routes_of plan k) refl

-- The plan of the routing for an engine in some settings: its servers, and one session for each of its lines.
abbrev pub engine_plan : Outside → Settings → Engine → Plan
engine_plan o cfg e = plan_for o cfg cfg.mode e.servers (length e.session_lines)

-- The engine is connected, and the table in place is the one for its servers and its number of sessions in these settings, with the loaded list of Chinese addresses.
unfoldable pub Serving : Outside → Settings → Engine × System × Kernel → Type 0
Serving o cfg (e, s, k) =
    (e.connected ≡ true)
    × ((cidrs : List Bytes) × (routes_of (engine_plan o cfg e) k ≡ some cidrs)
        × Applied (build_table (engine_plan o cfg e) cidrs) k)

-- What a call may leave, from a world: a success leaves them serving, or changes nothing of engine and routing where `IsKept` holds; an error leaves the routing as it was or removed.
unfoldable pub Served : {N : Type 0} → Outside → Settings → Type 0 → World N → Done N → Type 0
unfolding Serving KeptOrRemoved
Served o cfg IsKept w (ok _, w') = (IsKept × (Parts w' ≡ Parts w)) ⊎ Serving o cfg (Parts w')
Served o cfg IsKept w (err f, w') = KeptOrRemoved w.kernel w'.kernel

-- The server that a call goes for is in use: the engine runs, and no line is asked for or it is the engine's.
unfoldable pub InUse : Outside → ℤ → Settings → Engine → Type 0
InUse o want cfg e =
    (is_running o.answers e ≡ true)
    × ((is_pos (target want cfg) ≡ false) ⊎ (eq_ℤ (target want cfg) e.line_id ≡ true))
