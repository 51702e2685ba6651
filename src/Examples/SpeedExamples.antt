-- ===== src/Examples/SpeedExamples.antt =====
-- Helpers, answers and lists for the properties of the speed test and the list of addresses.
use open_socks.Prelude.{
  ◌≡◌, refl, true, false, none, some, [], ◌∷◌, ◌++◌, arith, ltb, Bytes, codes, ok, pos,
}
use open_socks.SpeedTest.Padding.{decrypt_speed_test_cn, Decrypted, decrypt_speed_test_cn-Decrypted}
use open_socks.SpeedTest.Socks.{
  connect_request, socks_dial_port, read_request, ipv4, reply, socks_dial_port-Exact,
}
use open_socks.SpeedTest.Pool.{Host, cleanup_stale, start_pool}
use open_socks.SpeedTest.Pool.Clean.{Older, Clean, start_pool-Clean}
use open_socks.Netfilter.China.{Download}
use open_socks.Netfilter.Pinned.{Routing, Sources, redirect_from, Pinned, redirect_from-Pinned}
use open_socks.Settings.{read_settings}
use open_socks.Examples.SettingsExamples.{stored_disk}
use open_socks.Examples.RoutingExamples.{some_plan, some_kernel}

-- Twelve bytes and a padding of four.
abbrev padded_block : Bytes
padded_block = 1 ∷ 2 ∷ 3 ∷ 4 ∷ 5 ∷ 6 ∷ 7 ∷ 8 ∷ 9 ∷ 10 ∷ 11 ∷ 12 ∷ 4 ∷ 4 ∷ 4 ∷ 4 ∷ []

decrypt_speed_test_cn-Decrypted_example :
    Decrypted (λ b. b) (some padded_block) (decrypt_speed_test_cn some (λ b. b) padded_block)
decrypt_speed_test_cn-Decrypted_example =
    decrypt_speed_test_cn-Decrypted some (λ b. b) (λ raw. refl) padded_block

abbrev helper_reply : Bytes
helper_reply = reply (ipv4 (127 ∷ 0 ∷ 0 ∷ 1 ∷ [])) (31 ∷ 144 ∷ [])

socks_dial_port-Exact_example :
    (socks_dial_port (some (codes "speed.cn", 8080)) (5 ∷ 0 ∷ (helper_reply ++ codes "HTTP"))
      ≡ ok (connect_request (codes "speed.cn") 8080, codes "HTTP"))
    × (read_request (connect_request (codes "speed.cn") 8080) ≡ some (codes "speed.cn", 8080))
socks_dial_port-Exact_example =
    socks_dial_port-Exact (codes "speed.cn") 8080 (ipv4 (127 ∷ 0 ∷ 0 ∷ 1 ∷ [])) (31 ∷ 144 ∷ [])
      (codes "HTTP") (omega arith) (omega arith) refl refl

-- Process 7 is a stale helper, and the second helper of the test does not start.
abbrev stale_host : Host
stale_host = record {
  procs = 7 ∷ 3 ∷ [];
  next = 9;
  pid_files = λ i. some (codes "7");
  installed = true;
  start_works = λ i. ltb i 1;
  write_works = λ i. true;
  is_helper = λ p. ltb 5 p;
  alive = λ p. true;
}

few_processes : Older (cleanup_stale stale_host).next (cleanup_stale stale_host).procs
unfolding Older cleanup_stale
few_processes = (omega arith, tt)

start_pool-Clean_example :
    Clean (cleanup_stale stale_host).procs (start_pool (pos 2) true false stale_host)
start_pool-Clean_example = start_pool-Clean (pos 2) true false stale_host refl few_processes

abbrev list_answer : Download
list_answer = record { answer = some (codes "1.0.1.0/24"); writable = true }

-- Before the first connect: no file of the list, and an empty cache.
abbrev first_routing : Routing
first_routing = record {
  kernel = some_kernel;
  china_file = none;
  cache = record { at = 0; key = []; domains = []; services = [] };
}

abbrev some_sources : Sources
some_sources = record { lookup = λ h. codes "1.2.3.4" ∷ []; now = 60; download = list_answer }

redirect_from-Pinned_example :
    Pinned
      (λ b. b)
      (codes "1.0.1.0/24")
      (λ w. true)
      false
      some_kernel
      (redirect_from
        (λ b. b)
        (codes "1.0.1.0/24")
        (λ w. true)
        some_plan
        some_sources
        (read_settings stored_disk).0
        first_routing)
redirect_from-Pinned_example =
    redirect_from-Pinned (λ b. b) (codes "1.0.1.0/24") (λ w. true) some_plan some_sources
      (read_settings stored_disk).0 first_routing
