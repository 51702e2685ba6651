-- ===== src/Examples/DnsExamples.antt =====
-- Replies and names for the properties of the DNS observer.
use open_socks.Prelude.{
  ◌+◌, ◌≡◌, refl, ◌↔◌, some, List, [], ◌∷◌, ◌++◌, arith, length, take, Bytes, codes, done,
}
use mathlib.Core.List.{Memᴰ}
use open_socks.Dns.Name.{dns_name, labels, join}
use open_socks.Dns.Name.Safety.{Forward, dns_name-Forward}
use open_socks.Dns.Name.RoundTrip.{encode, dns_name-encode}
use open_socks.Dns.Answers.{dns_ipv4_answers}
use open_socks.Dns.Answers.Safety.{Returns, dns_ipv4_answers-Returns}
use open_socks.Dns.Answers.Trust.{FromRouter, dns_ipv4_answers-FromRouter}
use open_socks.Dns.Domains.{service_groups_for_dns_names}
use open_socks.Dns.Domains.Matching.{Listed, service_groups_iff}
use open_socks.Dns.Tables.{ServiceGroup, china_service_groups}

-- A reply from the router 02:00:00:00:00:01 to a question for "a": 1.2.3.4, its name a pointer.
abbrev router_mac : Bytes
router_mac = 2 ∷ 0 ∷ 0 ∷ 0 ∷ 0 ∷ 1 ∷ []

abbrev dns_message : Bytes
dns_message =
    0 ∷ 2 ∷ 0x81 ∷ 0x80 ∷ 0 ∷ 1 ∷ 0 ∷ 1 ∷ 0 ∷ 0 ∷ 0 ∷ 0 ∷ 1 ∷ 97 ∷ 0 ∷ 0 ∷ 1 ∷ 0 ∷ 1 ∷ 0xc0 ∷ 12 ∷ 0
    ∷ 1 ∷ 0 ∷ 1 ∷ 0 ∷ 0 ∷ 0 ∷ 60 ∷ 0 ∷ 4 ∷ 1 ∷ 2 ∷ 3 ∷ 4 ∷ []

abbrev reply_frame : Bytes
reply_frame =
    0 ∷ 0 ∷ 0 ∷ 0 ∷ 0 ∷ 0 ∷ 2 ∷ 0 ∷ 0 ∷ 0 ∷ 0 ∷ 1 ∷ 8 ∷ 0 ∷ 0x45 ∷ 0 ∷ 0 ∷ 0 ∷ 0 ∷ 0 ∷ 0 ∷ 0 ∷ 64
    ∷ 17 ∷ 0 ∷ 0 ∷ 0 ∷ 0 ∷ 0 ∷ 0 ∷ 0 ∷ 0 ∷ 0 ∷ 0 ∷ 0 ∷ 53 ∷ 0 ∷ 0 ∷ 0 ∷ 0 ∷ 0 ∷ 0 ∷ dns_message

-- The name of the answer, read through its pointer.
dns_name-Forward_example : Forward (length dns_message) 19 (dns_name 8 dns_message 19)
dns_name-Forward_example = dns_name-Forward 8 dns_message 19

dns_name-encode_example :
    dns_name 9 ([] ++ (encode (codes "qq" ∷ codes "com" ∷ []) ++ codes "tail")) 0
    ≡ done (
        some (
          join (codes "qq" ∷ codes "com" ∷ []),
          0 + length (encode (codes "qq" ∷ codes "com" ∷ [])),
        ))
dns_name-encode_example =
    dns_name-encode 8 (codes "qq" ∷ codes "com" ∷ []) [] (codes "tail")
      ((ground arith, ground arith), ((ground arith, ground arith), tt))

dns_ipv4_answers-Returns_example : Returns (dns_ipv4_answers (take 50 reply_frame) router_mac)
dns_ipv4_answers-Returns_example = dns_ipv4_answers-Returns (take 50 reply_frame) router_mac

reply_learned :
    dns_ipv4_answers reply_frame router_mac
    ≡ done (codes "a" ∷ codes "a" ∷ [], codes "1.2.3.4" ∷ [])
unfolding dns_ipv4_answers dns_name labels
reply_learned = refl

dns_ipv4_answers-FromRouter_example : FromRouter reply_frame router_mac
dns_ipv4_answers-FromRouter_example =
    dns_ipv4_answers-FromRouter reply_frame router_mac reply_learned (λ e. ground arith)

abbrev reply_names : List Bytes
reply_names = codes "v.QQ.com." ∷ codes "cdn.example.net" ∷ []

service_groups_iff_example : Memᴰ (codes "qq_wechat") (service_groups_for_dns_names reply_names) ↔ (
    (g : ServiceGroup) × Memᴰ g china_service_groups
    × (g.name ≡ codes "qq_wechat")
    × ((name : Bytes) × Memᴰ name reply_names × Listed name g.domains))
service_groups_iff_example = service_groups_iff reply_names (codes "qq_wechat")
