-- ===== src/Netfilter/Resolved.antt =====
-- The addresses of the domains that are routed, openwrt/opensocks/src/netfilter.go, and the flush of the
-- learned ones, openwrt/opensocks/src/dns_observer.go. `lookup` is the resolver's answer for a host; the workers
-- run in the order of the hosts. Times are seconds.
use open_socks.Prelude.{
  ℕ, ◌-◌, Bool, not, ◌&&◌, List, [], ◌∷◌, ◌++◌, map, ltb, if◌then◌else◌, length, any, filter, Bytes,
  codes, bytes_eq,
}
use open_socks.Dns.Tables.{cn_domain_suffixes, china_service_groups, ServiceGroup}
use open_socks.Dns.Domains.{lower}
use open_socks.Lines.{split_config_values}
use open_socks.Settings.{Settings}
use open_socks.Server.{bytes_lt}
use open_socks.Netfilter.Learned.{Seen, add_dynamic_elements}

unfoldable pub legacy_proxy_domain_hosts : List Bytes
legacy_proxy_domain_hosts = map codes (
    "bilibili.com" ∷ "www.bilibili.com" ∷ "api.bilibili.com" ∷ "passport.bilibili.com"
    ∷ "space.bilibili.com" ∷ "live.bilibili.com" ∷ "api.live.bilibili.com" ∷ "bangumi.bilibili.com"
    ∷ "app.bilibili.com" ∷ "i.w.bilicdn1.com" ∷ "a.w.bilicdn1.com"
    ∷ "upos-sz-mirrorali.bilivideo.com" ∷ "iqiyi.com" ∷ "www.iqiyi.com" ∷ "api.iqiyi.com"
    ∷ "youku.com" ∷ "www.youku.com" ∷ "v.qq.com" ∷ "video.qq.com" ∷ "music.163.com" ∷ "y.qq.com"
    ∷ "mgtv.com" ∷ "douyin.com" ∷ "weibo.com" ∷ "www.weibo.com" ∷ "zhihu.com" ∷ "www.zhihu.com"
    ∷ "xiaohongshu.com" ∷ "taobao.com" ∷ "www.taobao.com" ∷ "tmall.com" ∷ "jd.com" ∷ "baidu.com"
    ∷ "www.baidu.com" ∷ [])

-- The sorted list of a set of texts.
unfoldable pub insert_text : Bytes → List Bytes → List Bytes
unfolding bytes_eq bytes_lt
insert_text s [] = s ∷ []
insert_text s (x ∷ xs) =
    let rest = insert_text s xs in
    if bytes_eq s x then x ∷ xs else if bytes_lt s x then s ∷ x ∷ xs else x ∷ rest

unfoldable pub insert_texts : List Bytes → List Bytes → List Bytes
unfolding insert_text
insert_texts [] out = out
insert_texts (s ∷ ss) out = insert_text s (insert_texts ss out)

unfoldable pub resolve_hosts : (Bytes → List Bytes) → List Bytes → List Bytes
unfolding insert_texts
resolve_hosts lookup [] = []
resolve_hosts lookup (h ∷ hs) = insert_texts (lookup h) (resolve_hosts lookup hs)

abbrev pub excluded : List Bytes → Bytes → Bool
excluded domains host = any (λ d. bytes_eq (lower d) (lower host)) domains

unfoldable pub proxy_hosts : Bytes → Bytes → List Bytes
unfolding legacy_proxy_domain_hosts split_config_values cn_domain_suffixes
proxy_hosts include exclude =
    filter (λ h. not (excluded (split_config_values exclude) h))
      ((cn_domain_suffixes ++ legacy_proxy_domain_hosts) ++ split_config_values include)

unfoldable pub resolve_proxy_domains : (Bytes → List Bytes) → Settings → List Bytes
unfolding resolve_hosts proxy_hosts
resolve_proxy_domains lookup cfg =
    resolve_hosts lookup (proxy_hosts cfg.include_domains cfg.exclude_domains)

-- The addresses of a service, by its name.
abbrev pub Services : Type 0
Services = List (Bytes × List Bytes)

abbrev pub services_of : (Bytes → List Bytes) → List ServiceGroup → Services
services_of lookup groups =
    map (λ (g : ServiceGroup). (g.name, resolve_hosts lookup g.domains)) groups

pub record IpCache : Type 0 where
  pub at : ℕ
  pub key : Bytes
  pub domains : List Bytes
  pub services : Services

abbrev pub cache_key : Settings → Bytes
cache_key cfg = cfg.include_domains ++ 0 ∷ cfg.exclude_domains

abbrev pub is_current : ℕ → Settings → IpCache → Bool
is_current now cfg c =
    bytes_eq c.key (cache_key cfg) && (ltb 0 (length c.domains) && ltb (now - c.at) 600)

abbrev pub resolved : (Bytes → List Bytes) → ℕ → Settings → IpCache
resolved lookup now cfg = record {
  at = now;
  key = cache_key cfg;
  domains = resolve_proxy_domains lookup cfg;
  services = services_of lookup china_service_groups;
}

-- cachedRoutingIPs; the answer is the domains and services of the cache afterwards.
unfoldable pub cached_routing_ips : (Bytes → List Bytes) → ℕ → Settings → IpCache → IpCache
unfolding bytes_eq resolve_proxy_domains resolve_hosts china_service_groups
cached_routing_ips lookup now cfg c = if is_current now cfg c then c else resolved lookup now cfg

abbrev pub service_set : Bytes → Bytes
service_set name = (codes "svc_" ++ name) ++ codes "4"

-- The sets of the services that have addresses.
unfoldable pub service_sets : Services → List (Bytes × List Bytes)
service_sets [] = []
service_sets ((name, []) ∷ rest) = service_sets rest
service_sets ((name, ip ∷ ips) ∷ rest) = (service_set name, ip ∷ ips) ∷ service_sets rest

abbrev pub refresh_with : ℕ → Bool → Seen → List Bytes → Services → Seen
refresh_with now nft_works seen [] services = seen
refresh_with now nft_works seen (ip ∷ ips) services =
    (add_dynamic_elements now ((codes "domain4", ip ∷ ips) ∷ service_sets services) nft_works
      seen).1

-- refreshDomainRoutes; the state is the cache and the record of learned elements.
unfoldable pub refresh_domain_routes :
    (Bytes → List Bytes) → ℕ → Bool → Settings → IpCache × Seen → IpCache × Seen
unfolding cached_routing_ips service_sets add_dynamic_elements
refresh_domain_routes lookup now nft_works cfg (c, seen) =
    let c' = cached_routing_ips lookup now cfg c in
    (c', refresh_with now nft_works seen c'.domains c'.services)

-- The addresses of every group together, and those of each named group; an empty name stands for the
-- answers of no service. A group stands once in the list, as in the map.
unfoldable pub all_learned : Services → List Bytes
all_learned [] = []
all_learned ((name, ips) ∷ rest) = ips ++ all_learned rest

unfoldable pub named_sets : Services → List (Bytes × List Bytes)
named_sets [] = []
named_sets (([], ips) ∷ rest) = named_sets rest
named_sets ((c ∷ name, []) ∷ rest) = named_sets rest
named_sets ((c ∷ name, ip ∷ ips) ∷ rest) = (service_set (c ∷ name), ip ∷ ips) ∷ named_sets rest

abbrev pub domain_set : List Bytes → List (Bytes × List Bytes)
domain_set [] = []
domain_set (ip ∷ ips) = (codes "domain4", ip ∷ ips) ∷ []

unfoldable pub flush_learned_dns : ℕ → Bool → Services → Seen → Seen
unfolding all_learned named_sets add_dynamic_elements
flush_learned_dns now nft_works learned seen =
    (add_dynamic_elements now (domain_set (all_learned learned) ++ named_sets learned) nft_works
      seen).1
