-- ===== src/Dns/Domains.antt =====
-- `chinaRouteForDNSNames`, `serviceGroupsForDNSNames` and `serviceForDNSNames` of
-- openwrt/opensocks/src/dns_observer.go. `strings.ToLower` is modelled on ASCII names, the only
-- ones that the built-in suffixes but one can match.
pub mod Matching
use open_socks.Prelude.{
  ◌+◌, ◌-◌, ◌≡◌, refl, Bool, true, false, ◌&&◌, ◌||◌, List, [], ◌∷◌, map, leb, ◌==◌, if◌then◌else◌,
  length, take, drop, any, Bytes, codes, bytes_eq,
}
use open_socks.Dns.Tables.{cn_domain_suffixes, china_service_groups, ServiceGroup}

-- strings.ToLower
unfoldable pub lower : Bytes → Bytes
lower = map (λ c. if leb b'A' c && leb c b'Z' then c + 32 else c)

-- strings.HasSuffix
unfoldable pub has_suffix : Bytes → Bytes → Bool
unfolding bytes_eq
has_suffix n s = leb (length s) (length n) && bytes_eq (drop (length n - length s) n) s

-- strings.TrimSuffix(n, ".") and strings.TrimPrefix(s, ".")
unfoldable pub trim_dot : Bytes → Bytes
unfolding has_suffix
trim_dot n = if has_suffix n (b'.' ∷ []) then take (length n - 1) n else n

unfoldable pub trim_lead : Bytes → Bytes
trim_lead [] = []
trim_lead (c ∷ s) = if c == b'.' then s else c ∷ s

-- `n == s || strings.HasSuffix(n, "."+s)`
unfoldable pub under : Bytes → Bytes → Bool
unfolding bytes_eq has_suffix
under n s = bytes_eq n s || has_suffix n (b'.' ∷ s)

-- The test of both loops on a name of the reply and a suffix of a table.
unfoldable pub covers : Bytes → Bytes → Bool
unfolding lower trim_dot trim_lead under
covers name suffix = under (trim_dot (lower name)) (trim_lead (lower suffix))

unfoldable pub china_route_for_dns_names : List Bytes → Bool
unfolding covers
china_route_for_dns_names [] = false
china_route_for_dns_names (name ∷ names) =
    let n = trim_dot (lower name) in
    let rest = china_route_for_dns_names names in
    if bytes_eq n (codes "cn") || has_suffix n (codes ".cn")
    then true
    else if any (covers name) cn_domain_suffixes
    then true
    else rest

-- The two inner loops: some name lies under some domain of the group.
unfoldable pub group_found : List Bytes → ServiceGroup → Bool
unfolding covers
group_found names g = any (λ name. any (covers name) g.domains) names

unfoldable pub matched_groups : List Bytes → List ServiceGroup → List Bytes
unfolding group_found
matched_groups names [] = []
matched_groups names (g ∷ gs) =
    let rest = matched_groups names gs in if group_found names g then g.name ∷ rest else rest

unfoldable pub service_groups_for_dns_names : List Bytes → List Bytes
unfolding matched_groups china_service_groups
service_groups_for_dns_names names = matched_groups names china_service_groups

unfoldable pub service_for_dns_names : List Bytes → Bytes
unfolding service_groups_for_dns_names
service_for_dns_names names = elim (service_groups_for_dns_names names) [ [] ↦ [] | g ∷ _ ↦ g ]

honor_subdomain :
    service_for_dns_names (codes "receiver.MSDK.qq.com." ∷ []) ≡ codes "honor_of_kings"
unfolding service_for_dns_names
honor_subdomain = refl

china_names :
    (china_route_for_dns_names (codes "www.google.com" ∷ codes "assets.example.cn" ∷ []) ≡ true)
    × (china_route_for_dns_names (codes "www.google.com" ∷ []) ≡ false)
unfolding china_route_for_dns_names cn_domain_suffixes
china_names = (refl, refl)
