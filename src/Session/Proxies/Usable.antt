-- ===== src/Session/Proxies/Usable.antt =====
-- The proxies that are generated against the block that the light engine runs.
use open_socks.Prelude.{
  ◌≡◌, refl, ap, ◌⊎◌, inl, inr, Bool, Option, none, some, List, [], ◌∷◌, ◌++◌, map, if◌then◌else◌,
  Bool-cases, Option-cases, find?, Bytes, codes,
}
use open_socks.Dns.Tables.{cn_domain_suffixes}
use open_socks.Session.Boots.{
  BootsInfo, ConnectConfig, ConnectResponse, ordered_boots, usable, all_configs, first_usable,
  selected_boot,
}
use open_socks.Session.Proxies.{
  Proxy, proxy_of, add_proxies, Config, config_of, generate_config, build_rules, name_of, is_global,
  domain_rules,
}

-- The first proxy, if there is one, is made of `o`.
abbrev pub Heads : Option BootsInfo → List Proxy → Type 0
Heads o [] = o ≡ none
Heads o (p ∷ ps) = (b : BootsInfo) × (o ≡ some b) × (p ≡ proxy_of b)

Heads-of : (cs : List (Option ConnectConfig)) → Heads (first_usable cs) (add_proxies cs)
unfolding add_proxies first_usable
Heads-of [] = refl
Heads-of (none ∷ cs) = Heads-of cs
Heads-of (some c ∷ cs) = elim (Option-cases (find? usable (ordered_boots c))) [
  | inl e ↦ rw (e, add_proxies, first_usable) (Heads-of cs)
  | inr (b, e) ↦ rw (e, add_proxies, first_usable) (b, refl, refl)
]

-- The last rule of a mode, for the traffic that no other rule takes.
abbrev pub last_rule : Bytes → Bytes
last_rule mode = if is_global mode then codes "MATCH,PROXY" else codes "MATCH,DIRECT"

rules_end : (mode : Bytes) → (rs : List Bytes) × (build_rules mode ≡ rs ++ last_rule mode ∷ [])
unfolding build_rules
rules_end mode = elim (Bool-cases (is_global mode)) [
  | inl e ↦ ([], rw e)
  | inr e ↦ (domain_rules cn_domain_suffixes ++ codes "GEOIP,CN,PROXY" ∷ [], rw e)
]

-- A configuration made of the proxies, the first of which is made of the block.
abbrev pub Generated : Bytes → Option Config → BootsInfo → Type 0
Generated mode o b =
    (c : Config) × (ps : List Proxy) × (o ≡ some c)
    × (c.proxies ≡ proxy_of b ∷ ps)
    × (c.group ≡ map name_of c.proxies)
    × ((rs : List Bytes) × (c.rules ≡ rs ++ last_rule mode ∷ []))

config_cases :
    (o : Option BootsInfo) (ps : List Proxy) (mode : Bytes) (tun : Bool)
    → Heads o ps
    → ((config_of ps mode tun ≡ none) × (o ≡ none))
      ⊎ ((b : BootsInfo) × (o ≡ some b) × Generated mode (config_of ps mode tun) b)
unfolding config_of
config_cases o [] mode tun h = inl (refl, h)
config_cases o (p ∷ ps) mode tun (b, e, e') =
    inr (b, e, (_, ps, refl, ap (λ q. q ∷ ps) e', refl, rules_end mode))

-- generateConfig fails exactly when selectedBoot finds no block; otherwise its first proxy is made of that block, the url-test group names all its proxies, and its last rule sends the remaining traffic through the proxy in global mode and past it in the others.
pub generate_config_cases :
    (r : ConnectResponse) (mode : Bytes) (tun : Bool)
    → ((generate_config r mode tun ≡ none) × (selected_boot r ≡ none))
      ⊎ ((b : BootsInfo) × (selected_boot r ≡ some b)
          × Generated mode (generate_config r mode tun) b)
unfolding generate_config selected_boot
generate_config_cases r mode tun =
    config_cases (first_usable (all_configs r)) (add_proxies (all_configs r)) mode tun
      (Heads-of (all_configs r))
