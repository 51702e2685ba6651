-- ===== src/Dns/Answers/Trust.antt =====
-- Addresses are learned only from IPv4 UDP packets from port 53 with the MAC address of the router.
use open_socks.Prelude.{
  ℕ, ◌+◌, ◌*◌, ◌≤◌, bit_and, ◌≡◌, refl, ◌≢◌, Bool, true, false, not, ◌||◌, List, [], arith, ltb,
  ◌==◌, if◌then◌else◌, length, take, drop, Bytes, bytes_eq, bytes_eq_iff, Run, done, crash, ◌>>=◌,
}
use open_socks.Dns.Name.{at, slice}
use open_socks.Dns.Name.Safety.{slice-of_le}
use open_socks.Dns.Answers.{be16, Learned, packet, dns_ipv4_answers}

pub >>=-eq-done {ℓ κ} :
    {A : Type ℓ} {B : Type κ} (m : Run A) (f : A → Run B) {b : B}
    → (m >>= f) ≡ done b
    → (a : A) × (m ≡ done a) × (f a ≡ done b)
>>=-eq-done (done a) f h = (a, refl, h)
>>=-eq-done crash f h = cc

-- What is checked of a frame before it is read as a DNS message.
pub record FromRouter (frame mac : Bytes) : Type 0 where
  pub six : length mac ≡ 6
  pub source : take 6 (drop 6 frame) ≡ mac
  pub ipv4 : be16 frame 12 ≡ done 0x0800
  pub udp : at frame 23 ≡ done 17
  pub first : ℕ
  pub header : at frame 14 ≡ done first
  pub options : 20 ≤ bit_and first 0x0f * 4
  pub from_dns : be16 frame (14 + bit_and first 0x0f * 4) ≡ done 53

if_quiet :
    (b : Bool) (r : Run Learned) {names ips : List Bytes}
    → (if b then done ([], []) else r) ≡ done (names, ips)
    → ips ≢ []
    → (b ≡ false) × (r ≡ done (names, ips))
if_quiet true r e h = absurd (h (cc))
if_quiet false r e h = (refl, e)

packet_guards :
    (frame : Bytes) {names ips : List Bytes}
    → packet frame ≡ done (names, ips)
    → ips ≢ []
    → (first : ℕ) × (at frame 14 ≡ done first)
      × (at frame 23 ≡ done 17)
      × (20 ≤ bit_and first 0x0f * 4)
      × (be16 frame (14 + bit_and first 0x0f * 4) ≡ done 53)
unfolding packet
packet_guards frame e h =
    let (first, e1, r1) = >>=-eq-done (at frame 14) _ e in
    let (protocol, e2, r2) = >>=-eq-done (at frame 23) _ r1 in
    let (ok3, r3) =
      if_quiet
        (ltb (bit_and first 0x0f * 4) 20
          || ltb (length frame) (14 + bit_and first 0x0f * 4 + 8)
          || not (protocol == 17))
        _ r2 h in
    let (port, e4, r4) = >>=-eq-done (be16 frame (14 + bit_and first 0x0f * 4)) _ r3 in
    let (ok5, r5) = if_quiet (not (port == 53)) _ r4 h in
    (first, e1, ground arith, ground arith, ground arith)

-- If dnsIPv4Answers returns an address, the frame is an IPv4 UDP packet from port 53 whose source MAC is the six bytes of the trusted one.
pub dns_ipv4_answers-FromRouter :
    (frame mac : Bytes) {names ips : List Bytes}
    → dns_ipv4_answers frame mac ≡ done (names, ips)
    → ips ≢ []
    → FromRouter frame mac
unfolding dns_ipv4_answers
dns_ipv4_answers-FromRouter frame mac e h =
    let (ok1, r1) = if_quiet (ltb (length frame) 34) _ e h in
    let (ether, e2, r2) = >>=-eq-done (be16 frame 12) _ r1 in
    let (ok3, r3) = if_quiet (not (ether == 0x0800)) _ r2 h in
    let (source, e4, r4) = >>=-eq-done (slice frame 6 6) _ r3 in
    let (ok5, r5) = if_quiet (not (length mac == 6) || not (bytes_eq source mac)) _ r4 h in
    let (first, p1, p2, p3, p4) = packet_guards frame r5 h in
    let cut : slice frame 6 6 ≡ done (take 6 (drop 6 frame)) =
      slice-of_le frame 6 6 (ground arith) in
    record {
      six = ground arith;
      source = ground (arith, bytes_eq_iff source mac);
      ipv4 = ground arith;
      udp = p2;
      first = first;
      header = p1;
      options = p3;
      from_dns = p4;
    }
