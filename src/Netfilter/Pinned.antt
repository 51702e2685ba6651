-- ===== src/Netfilter/Pinned.antt =====
-- setupRedirect of openwrt/opensocks/src/netfilter.go with what it reads: the list of Chinese addresses and
-- the cache of resolved addresses, in front of the replacement of the table.
use open_socks.Prelude.{
  ℕ, ◌≤◌, ◌≡◌, refl, sym, subst, inl, inr, ◌⊎◌, Bool, true, false, Option, none, some, List, [],
  ◌∷◌, if◌then◌else◌, length, filter, Bytes, bytes_eq, Result, ok, err,
}
use open_socks.Settings.{Settings}
use open_socks.Netfilter.{
  Smart, Table, Plan, Kernel, RedirectError, no_china_routes, smart_part, build_table, routes_of,
  setup_redirect,
}
use open_socks.Netfilter.Replace.{Applied, Removed, Outcome, Replaced, setup_redirect-Replaced}
use open_socks.Netfilter.China.{
  ChinaError, Download, words, load_china_routes, Verified, load_china_routes-Verified,
}
use open_socks.Netfilter.Resolved.{Services, IpCache, cached_routing_ips}

-- The kernel, the file of the list and the cache of resolved addresses.
pub record Routing : Type 0 where
  pub kernel : Kernel
  pub china_file : Option Bytes
  pub cache : IpCache

-- The resolver, the clock and the answer to a download.
pub record Sources : Type 0 where
  pub lookup : Bytes → List Bytes
  pub now : ℕ
  pub download : Download

-- An entry of a map, the empty list for a missing name.
unfoldable pub addresses_of : Services → Bytes → List Bytes
unfolding bytes_eq
addresses_of [] name = []
addresses_of ((n, ips) ∷ rest) name =
    let others = addresses_of rest name in if bytes_eq n name then ips else others

abbrev pub resolved_plan : Plan → IpCache → Plan
resolved_plan plan c = record plan { domain_ips = c.domains; service_ips = addresses_of c.services }

abbrev pub replaced :
    Option Bytes
    → IpCache
    → Result RedirectError (Unit {0}) × Kernel
    → Result RedirectError (Unit {0}) × Routing
replaced f c (result, k) = (result, record { kernel = k; china_file = f; cache = c })

-- The smart mode, behind loadChinaRoutes.
unfoldable pub smart_redirect :
    Plan
    → Sources
    → Settings
    → Routing
    → Result ChinaError (List Bytes) × Option Bytes
    → Result RedirectError (Unit {0}) × Routing
unfolding cached_routing_ips addresses_of
smart_redirect plan s cfg r (err e, f) =
    replaced f r.cache (setup_redirect plan (record r.kernel { china_routes = none }))
smart_redirect plan s cfg r (ok cidrs, f) =
    let c = cached_routing_ips s.lookup s.now cfg r.cache in
    replaced f c
      (setup_redirect (resolved_plan plan c) (record r.kernel { china_routes = some cidrs }))

module _ (digest : Bytes → Bytes) (expected : Bytes) (is_cidr : Bytes → Bool) where
  unfoldable pub redirect_from :
      Plan → Sources → Settings → Routing → Result RedirectError (Unit {0}) × Routing
  unfolding smart_redirect load_china_routes
  redirect_from plan s cfg r =
      if plan.is_global
      then replaced r.china_file r.cache (setup_redirect plan r.kernel)
      else smart_redirect plan s cfg r
          (load_china_routes digest expected is_cidr s.download r.china_file)

  -- The sets of a table: none in global mode; in smart mode the ranges of a file with the pinned digest and
  -- the addresses of the cache.
  unfoldable pub HasSets : Bool → Option Smart → Routing → Type 0
  HasSets true smart r = smart ≡ none
  HasSets false smart r =
      (b : Bytes) × (t : Smart) × (smart ≡ some t)
      × (r.china_file ≡ some b)
      × (digest b ≡ expected)
      × (t.cn4 ≡ filter is_cidr (words b))
      × (1 ≤ length t.cn4)
      × (t.domain4 ≡ r.cache.domains)

  abbrev pub IsUntouched : Kernel → Kernel → Type 0
  IsUntouched k k' =
      (k'.table ≡ k.table) × (k'.policy_rule ≡ k.policy_rule) × (k'.policy_route ≡ k.policy_route)

  unfoldable pub Pinned : Bool → Kernel → Result RedirectError (Unit {0}) × Routing → Type 0
  Pinned is_global k (ok _, r) = (t : Table) × Applied t r.kernel × HasSets is_global t.smart r
  Pinned is_global k (err e, r) = Removed r.kernel ⊎ IsUntouched k r.kernel

  Outcome-of :
      (plan : Plan) (k : Kernel) (cidrs : List Bytes)
      → routes_of plan k ≡ some cidrs
      → Outcome (build_table plan cidrs) (setup_redirect plan k)
  unfolding Replaced
  Outcome-of plan k cidrs e =
      subst (λ o. Replaced plan k o (setup_redirect plan k)) e (setup_redirect-Replaced plan k)

  replaced-Pinned :
      (g : Bool) (k : Kernel) (t : Table) (f : Option Bytes) (c : IpCache)
      → ((k' : Kernel) → HasSets g t.smart (record { kernel = k'; china_file = f; cache = c }))
      → (x : Result RedirectError (Unit {0}) × Kernel) → Outcome t x
      → Pinned g k (replaced f c x)
  unfolding Outcome Pinned
  replaced-Pinned g k t f c sets (ok _, k') o = (t, o, sets k')
  replaced-Pinned g k t f c sets (err e, k') o = inl o

  smart-Pinned :
      (plan : Plan) (s : Sources) (cfg : Settings) (r : Routing)
      → plan.is_global ≡ false
      → (x : Result ChinaError (List Bytes) × Option Bytes) → Verified digest expected is_cidr x
      → Pinned false r.kernel (smart_redirect plan s cfg r x)
  unfolding smart_redirect Verified Pinned HasSets Replaced routes_of build_table smart_part
  smart-Pinned plan s cfg r g (err e, f) v =
      let k : Kernel = record r.kernel { china_routes = none } in
      let nothing : routes_of plan k ≡ none = rw g refl in
      let failed : setup_redirect plan k ≡ (err no_china_routes, k) =
        subst (λ o. Replaced plan k o (setup_redirect plan k)) nothing
          (setup_redirect-Replaced plan k) in
      subst (λ x. Pinned false r.kernel (replaced f r.cache x)) (sym failed)
        (inr (refl, refl, refl))
  smart-Pinned plan s cfg r g (ok cidrs, f) (b, here, pinned, ranges, some_range) =
      let c = cached_routing_ips s.lookup s.now cfg r.cache in
      let k : Kernel = record r.kernel { china_routes = some cidrs } in
      replaced-Pinned false r.kernel (build_table (resolved_plan plan c) cidrs) f c
        (λ k'. (
          b,
          smart_part (resolved_plan plan c) cidrs,
          rw g refl,
          here,
          pinned,
          ranges,
          some_range,
          refl,
        ))
        (setup_redirect (resolved_plan plan c) k)
        (Outcome-of (resolved_plan plan c) k cidrs (rw g refl))

  global-Pinned :
      (plan : Plan) (r : Routing)
      → plan.is_global ≡ true
      → Pinned true r.kernel (replaced r.china_file r.cache (setup_redirect plan r.kernel))
  unfolding HasSets routes_of build_table
  global-Pinned plan r g =
      replaced-Pinned true r.kernel (build_table plan []) r.china_file r.cache (λ k'. rw g refl)
        (setup_redirect plan r.kernel) (Outcome-of plan r.kernel [] (rw g refl))

  by_mode-Pinned :
      (g : Bool) (k : Kernel) (x y : Result RedirectError (Unit {0}) × Routing)
      → (g ≡ true → Pinned true k x)
      → (g ≡ false → Pinned false k y)
      → Pinned g k (if g then x else y)
  by_mode-Pinned true k x y h h' = h refl
  by_mode-Pinned false k x y h h' = h' refl

  -- Whatever file, cache and table were there and whatever the download and the tools answer: after a setupRedirect that succeeds the table and both parts of the policy routing are in place, and in smart mode the table's set of Chinese addresses is exactly the ranges of the file that is then in place, at least one, its digest is the pinned one, and the domain set is that of the cache; in global mode there are no such sets. A failing one leaves none of the three, or all as they were.
  pub redirect_from-Pinned :
      (plan : Plan) (s : Sources) (cfg : Settings) (r : Routing)
      → Pinned plan.is_global r.kernel (redirect_from plan s cfg r)
  unfolding redirect_from
  redirect_from-Pinned plan s cfg r =
      by_mode-Pinned plan.is_global r.kernel _ _ (global-Pinned plan r) (λ g.
        smart-Pinned plan s cfg r g
          (load_china_routes digest expected is_cidr s.download r.china_file)
          (load_china_routes-Verified digest expected is_cidr s.download r.china_file))
