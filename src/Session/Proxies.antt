-- ===== src/Session/Proxies.antt =====
-- `generateConfig`, `buildProxies`, `ssProxy`, `trojanProxy`, `buildGroups` and `buildRules` of
-- openwrt/opensocks/src/mihomo.go. The JSON maps are records; the constant entries of the
-- configuration are left out.
pub mod Usable
use open_socks.Prelude.{
  ◌+◌, ◌-◌, Bool, false, not, Option, none, some, List, [], ◌∷◌, ◌++◌, map, if◌then◌else◌, find?,
  Bytes, codes, bytes_eq, ℤ,
}
use open_socks.Decimal.{itoa}
use open_socks.Dns.Tables.{cn_domain_suffixes}
use open_socks.Session.Boots.{
  BootsInfo, Websocket, Ssl, ConnectConfig, ConnectResponse, ordered_boots, usable, all_configs,
}

-- The options of a websocket transport: the path, and the Host header if there is one.
pub record WsOpts : Type 0 where
  pub path : Bytes
  pub host_header : Option Bytes

pub data Proxy : Type 0 where
  shadowsocks : (name server : Bytes) → ℤ → (cipher password : Bytes) → Proxy
  trojan :
      (name server : Bytes)
      → ℤ
      → (password : Bytes) → Option WsOpts
      → (sni : Option Bytes) → (skip_cert_verify : Bool) → Proxy

unfoldable pub default_str : Bytes → Bytes → Bytes
unfolding bytes_eq
default_str s d = if bytes_eq s [] then d else s

unfoldable pub proxy_name : BootsInfo → Bytes
unfolding itoa
proxy_name b = b.server ++ (b':' ∷ itoa b.port)

unfoldable pub ss_proxy : BootsInfo → Proxy
unfolding proxy_name default_str
ss_proxy b =
    shadowsocks (proxy_name b) b.server b.port
      (default_str b.method (codes "chacha20-ietf-poly1305")) b.password

unfoldable pub ws_opts : Option Websocket → Option WsOpts
unfolding bytes_eq
ws_opts none = none
ws_opts (some w) =
    if w.enabled
    then some
        (record { path = w.path; host_header = if bytes_eq w.host [] then none else some w.host })
    else none

unfoldable pub sni_of : Option Ssl → Option Bytes
unfolding bytes_eq
sni_of none = none
sni_of (some t) = if bytes_eq t.sni [] then none else some t.sni

unfoldable pub skips_verify : Option Ssl → Bool
skips_verify none = false
skips_verify (some t) = elim t.verify [ none ↦ false | some v ↦ not v ]

unfoldable pub trojan_proxy : BootsInfo → Proxy
unfolding proxy_name ws_opts sni_of skips_verify
trojan_proxy b =
    trojan (proxy_name b) b.server b.port b.password (ws_opts b.websocket) (sni_of b.ssl)
      (skips_verify b.ssl)

unfoldable pub proxy_of : BootsInfo → Proxy
unfolding ss_proxy trojan_proxy bytes_eq
proxy_of b = if bytes_eq b.proto (codes "Trojan") then trojan_proxy b else ss_proxy b

-- The closure `add`, for each configuration in turn: the first usable block becomes a proxy.
unfoldable pub add_proxies : List (Option ConnectConfig) → List Proxy
unfolding ordered_boots proxy_of
add_proxies [] = []
add_proxies (none ∷ cs) = add_proxies cs
add_proxies (some c ∷ cs) =
    let rest = add_proxies cs in
    elim (find? usable (ordered_boots c)) [ none ↦ rest | some b ↦ proxy_of b ∷ rest ]

unfoldable pub build_proxies : ConnectResponse → List Proxy
unfolding add_proxies
build_proxies r = add_proxies (all_configs r)

unfoldable pub name_of : Proxy → Bytes
name_of (shadowsocks name _ _ _ _) = name
name_of (trojan name _ _ _ _ _ _) = name

abbrev pub is_global : Bytes → Bool
is_global mode = bytes_eq mode (codes "global")

-- `for _, d := range cnDomainSuffixes`
unfoldable pub domain_rules : List Bytes → List Bytes
domain_rules [] = []
domain_rules (d ∷ ds) = (codes "DOMAIN-SUFFIX," ++ (d ++ codes ",PROXY")) ∷ domain_rules ds

unfoldable pub build_rules : Bytes → List Bytes
unfolding bytes_eq domain_rules
build_rules mode =
    if is_global mode
    then codes "MATCH,PROXY" ∷ []
    else (domain_rules cn_domain_suffixes ++ codes "GEOIP,CN,PROXY" ∷ [])
      ++ codes "MATCH,DIRECT" ∷ []

pub record Config : Type 0 where
  pub proxies : List Proxy
  pub group : List Bytes
  pub rules : List Bytes
  pub tun : Bool

unfoldable pub config_of : List Proxy → Bytes → Bool → Option Config
unfolding build_rules name_of
config_of [] mode tun = none
config_of (p ∷ ps) mode tun =
    some (record {
      proxies = p ∷ ps;
      group = map name_of (p ∷ ps);
      rules = build_rules mode;
      tun = tun;
    })

-- `none` is the error "no usable proxy config from server".
unfoldable pub generate_config : ConnectResponse → Bytes → Bool → Option Config
unfolding build_proxies config_of
generate_config r mode tun = config_of (build_proxies r) mode tun
