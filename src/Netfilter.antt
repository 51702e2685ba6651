-- ===== src/Netfilter.antt =====
-- The nftables table of openwrt/opensocks/src/netfilter.go: what `setupRedirect` writes, as data, and
-- how it is put in place and torn down. nft, ip and the name resolver are not part of the program:
-- their answers are the fields of `Kernel` and `Plan`.
pub mod Packets
pub mod Routing
pub mod Replace
pub mod Learned
pub mod China
pub mod Resolved
pub mod Pinned
use open_socks.Prelude.{
  ℕ, Bool, true, false, not, Option, none, some, List, [], ◌∷◌, ◌++◌, map, leb, ◌==◌, if◌then◌else◌,
  Bytes, codes, Result, ok, err,
}
use open_socks.Dns.Tables.{ServiceGroup, china_service_groups}

pub data Proto : Type 0 where
  tcp udp : Proto

pub data Dest : Type 0 where
  lan not_lan private proxy_servers4 exclude4 svc_honor_direct4 domain4 include4 cn4 anywhere : Dest

pub data Slot : Type 0 where
  slot1 slot2 slot3 : Slot

-- A verdict: leave the chain, go to a local port (53 is the router's own resolver), or jump to the chain of the slot that a random
-- number or the hash of the flow picks.
pub data Verdict : Type 0 where
  leave : Verdict
  to_port : ℕ → Verdict
  spread : List Slot → Verdict

-- `port` is the destination port, where the rule tests it.
pub record Rule : Type 0 where
  pub dest : Dest
  pub proto : Option Proto
  pub port : Option ℕ
  pub verdict : Verdict

-- A counter rule of the service chains: the set and the counter's service.
pub record CountRule : Type 0 where
  pub set : Bytes
  pub counter : Bytes
  pub returns : Bool

pub record Smart : Type 0 where
  pub cn4 : List Bytes
  pub domain4 : List Bytes
  pub include4 : List Bytes
  pub exclude4 : List Bytes
  pub honor4 : List Bytes
  pub encrypted_dns4 : List Bytes
  pub services : List (Bytes × List Bytes)
  pub count_rules : List CountRule

-- The table. `smart` holds the sets and the service counters, which only the smart mode has; a slot
-- chain of each protocol goes to the slot's port. `dns_capture` stands in front of the other chains of
-- nat. The leak guard, the QUIC rejection and the two traffic chains are left out.
pub record Table : Type 0 where
  pub proxies : List Bytes
  pub tcp_slots : List (Slot × ℕ)
  pub udp_slots : List (Slot × ℕ)
  pub smart : Option Smart
  pub dns_capture : List Rule
  pub prerouting : List Rule
  pub prerouting_udp : List Rule

abbrev pub mixed_port : ℕ
mixed_port = 7890

abbrev pub dual_port : ℕ
dual_port = 7892

abbrev pub triple_port : ℕ
triple_port = 7894

abbrev pub honor_of_kings_direct : List Bytes
honor_of_kings_direct = codes "43.129.0.0/16" ∷ codes "43.154.0.0/16" ∷ []

abbrev pub public_encrypted_dns4 : List Bytes
public_encrypted_dns4 = map codes (
    "1.0.0.1/32" ∷ "1.1.1.1/32" ∷ "8.8.4.4/32" ∷ "8.8.8.8/32" ∷ "9.9.9.9/32" ∷ "149.112.112.112/32"
    ∷ "45.90.28.0/24" ∷ "45.90.30.0/24" ∷ "76.76.2.0/24" ∷ "76.76.10.0/24" ∷ "77.88.8.0/24"
    ∷ "94.140.14.0/24" ∷ "94.140.15.0/24" ∷ "185.228.168.0/24" ∷ "185.228.169.0/24"
    ∷ "208.67.220.0/24" ∷ "208.67.222.0/24" ∷ [])

-- tcpRedirect and udpRedirect, which differ in the words only.
unfoldable pub redirect : ℕ → Verdict
redirect count =
    if count == 2
    then spread (slot1 ∷ slot2 ∷ [])
    else if leb 3 count
    then spread (slot1 ∷ slot2 ∷ slot3 ∷ [])
    else to_port mixed_port

-- The chains tcp_slotN, and equally udp_slotN.
unfoldable pub slot_chains : ℕ → List (Slot × ℕ)
slot_chains count =
    if leb 2 count
    then (slot1, mixed_port)
      ∷ (slot2, dual_port)
      ∷ (if leb 3 count then (slot3, triple_port) ∷ [] else [])
    else []

abbrev pub some_proxies : List Bytes → Bool
some_proxies [] = false
some_proxies (_ ∷ _) = true

-- The rules for one set with the redirect of a protocol.
abbrev pub send : Proto → ℕ → Dest → Rule
send p count d = record { dest = d; proto = some p; port = none; verdict = redirect count }

abbrev pub skip : Dest → Rule
skip d = record { dest = d; proto = none; port = none; verdict = leave }

abbrev pub capture : Proto → Rule
capture p = record { dest = lan; proto = some p; port = some 53; verdict = to_port 53 }

-- The chain `dns_capture`, which only the smart mode has.
unfoldable pub dns_capture_rules : Bool → List Rule
dns_capture_rules is_global = if is_global then [] else capture udp ∷ capture tcp ∷ []

-- The chains `prerouting` and `prerouting_udp`.
unfoldable pub prerouting_rules : Bool → List Bytes → Proto → ℕ → List Rule
prerouting_rules is_global proxies p count =
    skip not_lan ∷ skip private ∷ (if some_proxies proxies then skip proxy_servers4 ∷ [] else [])
    ++ (if is_global
        then send p count anywhere ∷ []
        else skip exclude4
          ∷ send p count svc_honor_direct4
          ∷ send p count domain4
          ∷ send p count include4
          ∷ send p count cn4
          ∷ [])

abbrev pub service_rule : ServiceGroup → CountRule
service_rule g = record {
  set = codes "svc_" ++ g.name ++ codes "4";
  counter = codes "svc_" ++ g.name;
  returns = true;
}

abbrev pub other_rule : Bytes → Bool → CountRule
other_rule set returns = record { set = set; counter = codes "svc_other_china"; returns = returns }

-- The rules of `service_up`, and with the counters of the other direction of `service_down`.
unfoldable pub service_rules : List CountRule
service_rules =
    record { set = codes "svc_honor_direct4"; counter = codes "svc_honor_of_kings"; returns = true }
      ∷ map service_rule china_service_groups
    ++ (other_rule (codes "domain4") true
        ∷ other_rule (codes "include4") true
        ∷ other_rule (codes "cn4") false
        ∷ [])

-- What the program reads before it writes the table: the mode, the addresses of the proxy servers,
-- the parsed lists of the settings, and the cached routes of the domains and the services.
pub record Plan : Type 0 where
  pub is_global : Bool
  pub proxies : List Bytes
  pub session_count : ℕ
  pub include_cidrs : List Bytes
  pub exclude_cidrs : List Bytes
  pub domain_ips : List Bytes
  pub service_ips : Bytes → List Bytes

unfoldable pub smart_part : Plan → List Bytes → Smart
unfolding service_rules
smart_part plan cidrs = record {
  cn4 = cidrs;
  domain4 = plan.domain_ips;
  include4 = plan.include_cidrs;
  exclude4 = plan.exclude_cidrs;
  honor4 = honor_of_kings_direct;
  encrypted_dns4 = public_encrypted_dns4;
  services = map (λ g. (g.name, plan.service_ips g.name)) china_service_groups;
  count_rules = service_rules;
}

unfoldable pub build_table : Plan → List Bytes → Table
unfolding slot_chains prerouting_rules dns_capture_rules smart_part
build_table plan cidrs = record {
  proxies = plan.proxies;
  tcp_slots = slot_chains plan.session_count;
  udp_slots = slot_chains plan.session_count;
  smart = if plan.is_global then none else some (smart_part plan cidrs);
  dns_capture = dns_capture_rules plan.is_global;
  prerouting = prerouting_rules plan.is_global plan.proxies tcp plan.session_count;
  prerouting_udp = prerouting_rules plan.is_global plan.proxies udp plan.session_count;
}

-- The kernel's tables, and what the tools answer: the China routes if they load, and whether the
-- policy rule, the policy route and the table are accepted.
pub record Kernel : Type 0 where
  pub table : Option Table
  pub policy_rule : Bool
  pub policy_route : Bool
  pub china_routes : Option (List Bytes)
  pub rule_works : Bool
  pub route_works : Bool
  pub nft_works : Bool

pub data RedirectError : Type 0 where
  no_china_routes no_policy_rule no_policy_route nft_failed : RedirectError

unfoldable pub teardown_tproxy_route : Kernel → Kernel
teardown_tproxy_route k = record k { policy_rule = false; policy_route = false }

unfoldable pub setup_tproxy_route : Kernel → Result RedirectError (Unit {0}) × Kernel
unfolding teardown_tproxy_route
setup_tproxy_route k =
    let k1 = teardown_tproxy_route k in
    if not k.rule_works
    then (err no_policy_rule, k1)
    else if not k.route_works
    then (err no_policy_route, teardown_tproxy_route (record k1 { policy_rule = true }))
    else (ok tt, record k1 { policy_rule = true; policy_route = true })

unfoldable pub teardown_redirect : Kernel → Kernel
unfolding teardown_tproxy_route
teardown_redirect k = teardown_tproxy_route (record k { table = none })

-- `nft -f -` with the script of the table; the old table is gone by then.
unfoldable pub load_table : Table → Kernel → Result RedirectError (Unit {0}) × Kernel
unfolding teardown_tproxy_route
load_table t k =
    if k.nft_works
    then (ok tt, record k { table = some t })
    else (err nft_failed, teardown_tproxy_route k)

abbrev pub then_load :
    Table → Result RedirectError (Unit {0}) × Kernel → Result RedirectError (Unit {0}) × Kernel
then_load t (err e, k) = (err e, k)
then_load t (ok _, k) = load_table t k

unfoldable pub replace_table : Table → Kernel → Result RedirectError (Unit {0}) × Kernel
unfolding teardown_redirect setup_tproxy_route load_table
replace_table t k = then_load t (setup_tproxy_route (teardown_redirect k))

-- The ranges of the set cn4: `loadChinaRoutes` in smart mode; global mode writes no such set.
unfoldable pub routes_of : Plan → Kernel → Option (List Bytes)
routes_of plan k = if plan.is_global then some [] else k.china_routes

unfoldable pub with_routes :
    Plan → Kernel → Option (List Bytes) → Result RedirectError (Unit {0}) × Kernel
unfolding build_table replace_table
with_routes plan k none = (err no_china_routes, k)
with_routes plan k (some cidrs) = replace_table (build_table plan cidrs) k

unfoldable pub setup_redirect : Plan → Kernel → Result RedirectError (Unit {0}) × Kernel
unfolding routes_of with_routes
setup_redirect plan k = with_routes plan k (routes_of plan k)
