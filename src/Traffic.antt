-- ===== src/Traffic.antt =====
-- The traffic totals of openwrt/opensocks/src/traffic.go: what a sample of the kernel's counters adds.
-- Totals are uint64 and wrap; the rates, which are floating-point, and the file are left out. The
-- services are an association list in place of the Go map.
pub mod Counting
use open_socks.Prelude.{
  ℕ, ◌+◌, ◌-◌, ◌%◌, ◌^◌, ◌&&◌, Option, none, some, List, [], ◌∷◌, ◌++◌, map, ltb, leb, ◌==◌,
  if◌then◌else◌, Bytes, codes, bytes_eq,
}
use open_socks.Dns.Tables.{china_service_groups}

pub record ServiceTraffic : Type 0 where
  pub up : ℕ
  pub down : ℕ
  pub total : ℕ

pub record PersistedTraffic : Type 0 where
  pub up : ℕ
  pub down : ℕ
  pub total : ℕ
  pub services : List (Bytes × ServiceTraffic)
  pub service_schema : ℕ

abbrev pub wrap : ℕ → ℕ
wrap n = n % 2 ^ 64

unfoldable pub delta : ℕ → ℕ → ℕ
delta current previous = if leb previous current then current - previous else current

-- A total after the next reading of its counter.
unfoldable pub add_delta : ℕ → ℕ → ℕ → ℕ
unfolding delta
add_delta total current previous = wrap (total + delta current previous)

-- The counters of a reading by name; a missing one reads as 0.
abbrev pub Counters : Type 0
Counters = Bytes → ℕ

abbrev pub no_traffic : ServiceTraffic
no_traffic = record { up = 0; down = 0; total = 0 }

unfoldable pub add_service : Bytes → Counters → Counters → ServiceTraffic → ServiceTraffic
unfolding add_delta
add_service name current previous s =
    let up_name = codes "svc_" ++ name ++ codes "_up" in
    let down_name = codes "svc_" ++ name ++ codes "_down" in
    let up = add_delta s.up (current up_name) (previous up_name) in
    let down = add_delta s.down (current down_name) (previous down_name) in
    record { up = up; down = down; total = wrap (up + down) }

-- The entry of a service, made where it is missing.
unfoldable pub update_service :
    Bytes
    → (ServiceTraffic → ServiceTraffic)
    → List (Bytes × ServiceTraffic)
    → List (Bytes × ServiceTraffic)
unfolding bytes_eq
update_service name f [] = (name, f no_traffic) ∷ []
update_service name f ((k, s) ∷ rest) =
    let rest' = update_service name f rest in
    if bytes_eq k name then (k, f s) ∷ rest else (k, s) ∷ rest'

abbrev pub service_names : List Bytes
service_names = map (λ g. g.name) china_service_groups ++ codes "other_china" ∷ []

unfoldable pub add_services :
    List Bytes → Counters → Counters → List (Bytes × ServiceTraffic) → List (Bytes × ServiceTraffic)
unfolding add_service update_service
add_services [] current previous services = services
add_services (name ∷ names) current previous services =
    add_services names current previous
      (update_service name (add_service name current previous) services)

-- A round of the sampler but the first, which only keeps its reading.
unfoldable pub sample : Counters → Counters → PersistedTraffic → PersistedTraffic
unfolding add_delta add_services
sample current previous d = record d {
  up = add_delta d.up (current (codes "proxy_up")) (previous (codes "proxy_up"));
  down = add_delta d.down (current (codes "proxy_down")) (previous (codes "proxy_down"));
  services = add_services service_names current previous d.services;
}

-- The successive readings of the proxy's upload counter and what they make of the total.
unfoldable pub sample_up : List ℕ → ℕ → ℕ → ℕ
sample_up [] previous total = total
sample_up (current ∷ readings) previous total =
    sample_up readings current (add_delta total current previous)

-- Totals of older releases, which stored only the sum.
abbrev pub restore_down : ℕ → ℕ → ℕ → ℕ
restore_down up down total = if (wrap (up + down) == 0) && ltb 0 total then total else down

abbrev pub restore_service : Bytes × ServiceTraffic → Bytes × ServiceTraffic
restore_service (name, s) = (name, record s { down = restore_down s.up s.down s.total })

-- The stored totals; `none` is a file that cannot be read. The services of an old schema are dropped.
unfoldable pub load_traffic_totals : Option PersistedTraffic → PersistedTraffic
load_traffic_totals none = record { up = 0; down = 0; total = 0; services = []; service_schema = 2 }
load_traffic_totals (some d) = record d {
  down = restore_down d.up d.down d.total;
  services = map restore_service (if ltb d.service_schema 2 then [] else d.services);
  service_schema = if ltb d.service_schema 2 then 2 else d.service_schema;
}
