-- ===== src/Netfilter/Replace.antt =====
-- How `setupRedirect` of openwrt/opensocks/src/netfilter.go replaces the table.
use open_socks.Prelude.{
  ◌≡◌, refl, inl, inr, true, false, Option, none, some, List, Bool-cases, Bytes, Result, ok, err,
}
use open_socks.Netfilter.{
  Table, Kernel, Plan, RedirectError, no_china_routes, build_table, teardown_tproxy_route,
  setup_tproxy_route, teardown_redirect, load_table, replace_table, setup_redirect, routes_of,
  with_routes,
}

-- The table is in place, with the policy rule and the policy route that its marks need.
unfoldable pub Applied : Table → Kernel → Type 0
Applied t k = (k.table ≡ some t) × (k.policy_rule ≡ true) × (k.policy_route ≡ true)

-- Neither a table nor a policy rule or route of the daemon.
unfoldable pub Removed : Kernel → Type 0
Removed k = (k.table ≡ none) × (k.policy_rule ≡ false) × (k.policy_route ≡ false)

unfoldable pub Outcome : Table → Result RedirectError (Unit {0}) × Kernel → Type 0
Outcome t (ok _, k) = Applied t k
Outcome t (err e, k) = Removed k

pub replace_table_lem : (t : Table) (k : Kernel) → Outcome t (replace_table t k)
unfolding replace_table setup_tproxy_route teardown_redirect teardown_tproxy_route load_table
    Outcome Applied Removed
replace_table_lem t k = elim (Bool-cases k.rule_works) [
  | inr e ↦ rw e (refl, refl, refl)
  | inl e ↦ elim (Bool-cases k.route_works) [
    | inr e' ↦ rw (e, e') (refl, refl, refl)
    | inl e' ↦ elim (Bool-cases k.nft_works) [
      | inr e'' ↦ rw (e, e', e'') (refl, refl, refl)
      | inl e'' ↦ rw (e, e', e'') (refl, refl, refl)
    ]
  ]
]

-- What a run of setupRedirect leaves behind.
unfoldable pub Replaced :
    Plan → Kernel → Option (List Bytes) → Result RedirectError (Unit {0}) × Kernel → Type 0
Replaced plan k none r = r ≡ (err no_china_routes, k)
Replaced plan k (some cidrs) r = Outcome (build_table plan cidrs) r

with_routes_lem :
    (plan : Plan) (k : Kernel) (r : Option (List Bytes)) → Replaced plan k r (with_routes plan k r)
unfolding with_routes Replaced
with_routes_lem plan k none = refl
with_routes_lem plan k (some cidrs) = replace_table_lem (build_table plan cidrs) k

-- setupRedirect is all or nothing: without China routes in smart mode it fails and changes nothing; otherwise it either succeeds, with exactly the table of the plan and both parts of the policy routing in place, or fails with all three removed, whatever was there before.
pub setup_redirect-Replaced :
    (plan : Plan) (k : Kernel) → Replaced plan k (routes_of plan k) (setup_redirect plan k)
unfolding setup_redirect
setup_redirect-Replaced plan k = with_routes_lem plan k (routes_of plan k)
