-- ===== src/Dns/Domains/Matching.antt =====
-- What the suffix tests decide, and what they make of the names of a reply.
use open_socks.Prelude.{
  ℕ, zero, suc, ◌-◌, ◌≤◌, ◌≡◌, refl, sym, ap, ◌∙◌, subst, ◌↔◌, ◌⊎◌, inl, inr, Bool, true, false,
  ◌||◌, List, [], ◌∷◌, ◌++◌, arith, if◌then◌else◌, Bool-cases, length, take, drop, length-append,
  length-drop, drop_append, any, Bytes, codes, bytes_eq, bytes_eq_iff, bytes_eq_refl,
}
use mathlib.Core.List.{Memᴰ}
use mathlib.Core.List.Memᴰ
use open_socks.Dns.Tables.{cn_domain_suffixes, china_service_groups, ServiceGroup}
use open_socks.Dns.Domains.{
  lower, has_suffix, trim_dot, trim_lead, under, covers, china_route_for_dns_names, group_found,
  matched_groups, service_groups_for_dns_names,
}

-- A member of the list at which the test passes.
abbrev pub Passes {ℓ} : {A : Type ℓ} → (A → Bool) → List A → Type ℓ
Passes {A} p xs = (x : A) × Memᴰ x xs × (p x ≡ true)

Passes-of_any {ℓ} : {A : Type ℓ} (p : A → Bool) (xs : List A) → any p xs ≡ true → Passes p xs
Passes-of_any p [] h = cc
Passes-of_any p (x ∷ xs) h = elim (Bool-cases (p x)) [
  | inl here ↦ (x, Memᴰ.head refl, here)
  | inr there ↦ let (y, m, e) = Passes-of_any p xs (ground arith) in (y, Memᴰ.tail m, e)
]

any-of_mem {ℓ} :
    {A : Type ℓ} (p : A → Bool) (y : A) {xs : List A} → Memᴰ y xs → p y ≡ true → any p xs ≡ true
any-of_mem p y (Memᴰ.head q) e = rw (← q) (rw e)
any-of_mem p y (Memᴰ.tail m) e = ground (arith, any-of_mem p y m e)

pub any_iff {ℓ} : {A : Type ℓ} (p : A → Bool) (xs : List A) → (any p xs ≡ true) ↔ Passes p xs
any_iff p xs = (Passes-of_any p xs, λ (y, m, e). any-of_mem p y m e)

drop_all_but :
    (n s : Bytes) → length s ≤ length n → length (drop (length n - length s) n) ≡ length s
drop_all_but n s h = omega (arith, length-drop (length n - length s) n)

take-append-drop : (k : ℕ) (xs : Bytes) → take k xs ++ drop k xs ≡ xs
take-append-drop zero xs = refl
take-append-drop (suc k) [] = refl
take-append-drop (suc k) (x ∷ xs) = ap (λ t. x ∷ t) (take-append-drop k xs)

has_suffix_iff : (n s : Bytes) → (has_suffix n s ≡ true) ↔ ((p : Bytes) × (n ≡ p ++ s))
unfolding has_suffix
has_suffix_iff n s = (
  λ h. (
    take (length n - length s) n,
    sym (take-append-drop (length n - length s) n)
        ∙ ap (λ t. take (length n - length s) n ++ t) ((bytes_eq_iff _ _).0 (ground arith)),
  ),
  λ (p, e). rw e (back p),
)
  where
    back : (p : Bytes) → has_suffix (p ++ s) s ≡ true
    back p =
        let k : length (p ++ s) - length s ≡ length p = omega (arith, length-append p s) in
        rw k (rw (drop_append p s) (rw (bytes_eq_refl s) (ground (arith, length-append p s))))

-- `n` is the domain `s` or lies below it.
abbrev pub Under : Bytes → Bytes → Type 0
Under n s = (n ≡ s) ⊎ ((p : Bytes) × (n ≡ p ++ (b'.' ∷ s)))

under_iff : (n s : Bytes) → (under n s ≡ true) ↔ Under n s
unfolding under
under_iff n s = (
  λ h. elim (Bool-cases (bytes_eq n s)) [
    | inl e ↦ inl ((bytes_eq_iff n s).0 e)
    | inr e ↦ inr ((has_suffix_iff n (b'.' ∷ s)).0 (ground arith))
  ],
  λ u. elim u [
    | inl e ↦ ground (arith, bytes_eq_iff n s)
    | inr q ↦ ground (arith, (has_suffix_iff n (b'.' ∷ s)).1 q)
  ],
)

-- A name of a reply as both loops compare it, and a suffix of a table.
abbrev pub host : Bytes → Bytes
host name = trim_dot (lower name)

abbrev pub zone : Bytes → Bytes
zone suffix = trim_lead (lower suffix)

-- Some suffix of the list has the name at or below it.
abbrev pub Listed : Bytes → List Bytes → Type 0
Listed name suffixes = (s : Bytes) × Memᴰ s suffixes × Under (host name) (zone s)

Listed-iff :
    (name : Bytes) (suffixes : List Bytes)
    → (any (covers name) suffixes ≡ true) ↔ Listed name suffixes
unfolding covers
Listed-iff name suffixes = (
  λ h.
      let (s, m, e) = (any_iff (covers name) suffixes).0 h in
      (s, m, (under_iff (host name) (zone s)).0 e),
  λ (s, m, u). (any_iff (covers name) suffixes).1 (s, m, (under_iff (host name) (zone s)).1 u),
)

abbrev in_china : Bytes → Bool
in_china name = under (host name) (codes "cn") || any (covers name) cn_domain_suffixes

route_bools :
    (a b c r : Bool) → (if a || b then true else if c then true else r) ≡ ((a || b) || c) || r
route_bools a b c r = ground arith

china_route-any : (names : List Bytes) → china_route_for_dns_names names ≡ any in_china names
unfolding china_route_for_dns_names under
china_route-any [] = refl
china_route-any (name ∷ names) =
    route_bools (bytes_eq (host name) (codes "cn")) (has_suffix (host name) (codes ".cn"))
      (any (covers name) cn_domain_suffixes) (china_route_for_dns_names names)
    ∙ ap (λ r. in_china name || r) (china_route-any names)

in_china_iff :
    (name : Bytes)
    → (in_china name ≡ true) ↔ (Under (host name) (codes "cn") ⊎ Listed name cn_domain_suffixes)
in_china_iff name = (
  λ h. elim (Bool-cases (under (host name) (codes "cn"))) [
    | inl e ↦ inl ((under_iff (host name) (codes "cn")).0 e)
    | inr e ↦ inr ((Listed-iff name cn_domain_suffixes).0 (ground arith))
  ],
  λ u. elim u [
    | inl e ↦ ground (arith, (under_iff (host name) (codes "cn")).1 e)
    | inr l ↦ ground (arith, (Listed-iff name cn_domain_suffixes).1 l)
  ],
)

-- chinaRouteForDNSNames holds exactly when some name of the reply, in lower case and without its final dot, is "cn", lies below "cn", or is or lies below a built-in suffix.
pub china_route_iff :
    (names : List Bytes)
    → (china_route_for_dns_names names ≡ true) ↔ (
        (name : Bytes) × Memᴰ name names
        × (Under (host name) (codes "cn") ⊎ Listed name cn_domain_suffixes))
china_route_iff names = (
  λ h.
      let (name, m, e) = (any_iff in_china names).0 (sym (china_route-any names) ∙ h) in
      (name, m, (in_china_iff name).0 e),
  λ (name, m, u).
      china_route-any names ∙ (any_iff in_china names).1 (name, m, (in_china_iff name).1 u),
)

group_found_iff :
    (names : List Bytes) (g : ServiceGroup)
    → (group_found names g ≡ true) ↔ ((name : Bytes) × Memᴰ name names × Listed name g.domains)
unfolding group_found
group_found_iff names g = (
  λ h.
      let (name, m, e) = (any_iff (λ name. any (covers name) g.domains) names).0 h in
      (name, m, (Listed-iff name g.domains).0 e),
  λ (name, m, l).
      (any_iff (λ name. any (covers name) g.domains) names).1
        (name, m, (Listed-iff name g.domains).1 l),
)

kept :
    (b : Bool) (y x : Bytes) (rest : List Bytes)
    → Memᴰ y rest
    → Memᴰ y (if b then x ∷ rest else rest)
kept true y x rest m = Memᴰ.tail m
kept false y x rest m = m

taken :
    (b : Bool) (x : Bytes) (rest : List Bytes) → b ≡ true → Memᴰ x (if b then x ∷ rest else rest)
taken true x rest e = Memᴰ.head refl
taken false x rest e = cc

split_if :
    (b : Bool) (y x : Bytes) (rest : List Bytes)
    → Memᴰ y (if b then x ∷ rest else rest)
    → ((x ≡ y) × (b ≡ true)) ⊎ Memᴰ y rest
split_if true y x rest (Memᴰ.head e) = inl (sym e, refl)
split_if true y x rest (Memᴰ.tail m) = inr m
split_if false y x rest m = inr m

in_matched :
    (names : List Bytes) (g : ServiceGroup) {gs : List ServiceGroup}
    → Memᴰ g gs
    → group_found names g ≡ true
    → Memᴰ g.name (matched_groups names gs)
unfolding matched_groups
in_matched names g (Memᴰ.head {x = x} {xs = gs} q) e =
    subst (λ (h : ServiceGroup). Memᴰ h.name (matched_groups names (x ∷ gs))) (sym q)
      (taken (group_found names x) x.name (matched_groups names gs) (rw (← q) e))
in_matched names g (Memᴰ.tail {x = x} {xs = gs} m) e =
    kept (group_found names x) g.name x.name (matched_groups names gs) (in_matched names g m e)

of_matched :
    (names : List Bytes) (gs : List ServiceGroup) (n : Bytes)
    → Memᴰ n (matched_groups names gs)
    → (g : ServiceGroup) × Memᴰ g gs × (g.name ≡ n) × (group_found names g ≡ true)
unfolding matched_groups
of_matched names [] n m = absurd (Memᴰ.not-nil m)
of_matched names (g ∷ gs) n m =
    elim (split_if (group_found names g) n g.name (matched_groups names gs) m) [
      | inl (e, found) ↦ (g, Memᴰ.head refl, e, found)
      | inr there ↦ let (h, k, e, found) = of_matched names gs n there in (h, Memᴰ.tail k, e, found)
    ]

-- serviceGroupsForDNSNames returns the name of a built-in group exactly when some name of the reply is, or lies below, a domain of that group: no association of a shared CDN reply is lost.
pub service_groups_iff :
    (names : List Bytes) (n : Bytes)
    → Memᴰ n (service_groups_for_dns_names names) ↔ (
        (g : ServiceGroup) × Memᴰ g china_service_groups
        × (g.name ≡ n)
        × ((name : Bytes) × Memᴰ name names × Listed name g.domains))
unfolding service_groups_for_dns_names
service_groups_iff names n = (
  λ m.
      let (g, k, e, found) = of_matched names china_service_groups n m in
      (g, k, e, (group_found_iff names g).0 found),
  λ (g, k, e, some_name).
      subst (λ n. Memᴰ n (matched_groups names china_service_groups)) e
        (in_matched names g k ((group_found_iff names g).1 some_name)),
)
