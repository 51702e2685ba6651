-- ===== src/Dns/Answers.antt =====
-- `dnsIPv4Answers`, `netIPv4String` and `itoaByte` of openwrt/opensocks/src/dns_observer.go: the
-- names and addresses of a captured Ethernet frame. Bytes are numbers below 256.
pub mod Safety
pub mod Trust
use open_socks.Prelude.{
  ◌>>=◌, ℕ, zero, suc, ◌+◌, ◌*◌, ◌/◌, ◌%◌, bit_and, not, ◌&&◌, ◌||◌, none, some, List, [], ◌∷◌,
  ◌++◌, ltb, leb, ◌==◌, if◌then◌else◌, length, drop, Bytes, bytes_eq, Result, ok, err, Run, done,
}
use open_socks.Dns.Name.{at, slice, join, dns_name, top}

-- binary.BigEndian.Uint16(b[i : i+2])
unfoldable pub be16 : Bytes → ℕ → Run ℕ
unfolding at
be16 b i = do high ← at b i; low ← at b (i + 1); done (high * 256 + low)

unfoldable pub itoa_byte : ℕ → Bytes
itoa_byte v =
    if leb 100 v
    then (b'0' + v / 100) ∷ (b'0' + v / 10 % 10) ∷ (b'0' + v % 10) ∷ []
    else if leb 10 v
    then (b'0' + v / 10) ∷ (b'0' + v % 10) ∷ []
    else (b'0' + v) ∷ []

unfoldable pub net_ipv4_string : Bytes → Run Bytes
unfolding at itoa_byte join
net_ipv4_string b = do
  b0 ← at b 0
  b1 ← at b 1
  b2 ← at b 2
  b3 ← at b 3
  done (join (itoa_byte b0 ∷ itoa_byte b1 ∷ itoa_byte b2 ∷ itoa_byte b3 ∷ []))

-- The names and the addresses read so far.
abbrev pub Learned : Type 0
Learned = List Bytes × List Bytes

-- The loop over the questions; `err` is its early return of the names alone.
unfoldable pub questions : ℕ → Bytes → ℕ → List Bytes → Run (Result (List Bytes) (List Bytes × ℕ))
questions zero dns off names = done (ok (names, off))
questions (suc left) dns off names = do
  found ← dns_name top dns off
  elim found [
    | none ↦ done (err names)
    | some (name, next) ↦
        let rest = questions left dns (next + 4) (names ++ name ∷ []) in
        if ltb (length dns) (next + 4) then done (err names) else rest
  ]

-- The body of a record: an address is learned, and the name behind a CNAME.
unfoldable pub record_body : ℕ → ℕ → ℕ → Bytes → Learned → Run Learned
unfolding slice net_ipv4_string
record_body typ rdlen rdata dns (names, ips) =
    if (typ == 1) && (rdlen == 4)
    then (do quad ← slice dns rdata 4; text ← net_ipv4_string quad; done (names, ips ++ text ∷ []))
    else if typ == 5
    then (do
      found ← dns_name top dns rdata
      done (elim found [ none ↦ (names, ips) | some (cname, _) ↦ (names ++ cname ∷ [], ips) ]))
    else done (names, ips)

-- One record behind its name, and then the records behind it.
unfoldable pub one_answer : (ℕ → Learned → Run Learned) → Bytes → Bytes → ℕ → Learned → Run Learned
unfolding be16 record_body
one_answer rest dns name next (names, ips) =
    if ltb (length dns) (next + 10) then done (names, ips) else do
      typ ← be16 dns next
      rdlen ← be16 dns (next + 8)
      if ltb (length dns) (next + 10 + rdlen) then done (names, ips) else do
        learned ← record_body typ rdlen (next + 10) dns (names ++ name ∷ [], ips)
        rest (next + 10 + rdlen) learned

-- The loop over the answers; each `break` returns what has been read.
unfoldable pub answers : ℕ → Bytes → ℕ → Learned → Run Learned
unfolding one_answer
answers zero dns off learned = done learned
answers (suc left) dns off learned = if leb (length dns) off then done learned else do
  found ← dns_name top dns off
  elim found [
    | none ↦ done learned
    | some (name, next) ↦ one_answer (answers left dns) dns name next learned
  ]

-- The DNS message behind the UDP header.
unfoldable pub message : Bytes → Run Learned
unfolding be16 questions answers
message dns = if ltb (length dns) 12 then done ([], []) else do
  flags ← at dns 2
  if bit_and flags 0x80 == 0 then done ([], []) else do
    qd ← be16 dns 4
    an ← be16 dns 6
    opened ← questions qd dns 12 []
    elim opened [ err names ↦ done (names, []) | ok (names, off) ↦ answers an dns off (names, []) ]

-- The IP and UDP headers: UDP from port 53.
unfoldable pub packet : Bytes → Run Learned
unfolding be16 message
packet frame = do
  first ← at frame 14
  protocol ← at frame 23
  if ltb (bit_and first 0x0f * 4) 20
        || ltb (length frame) (14 + bit_and first 0x0f * 4 + 8)
        || not (protocol == 17)
      then done ([], [])
      else (do
        port ← be16 frame (14 + bit_and first 0x0f * 4)
        if not (port == 53)
            then done ([], [])
            else message (drop (14 + bit_and first 0x0f * 4 + 8) frame))

unfoldable pub dns_ipv4_answers : Bytes → Bytes → Run Learned
unfolding be16 slice packet bytes_eq
dns_ipv4_answers frame trusted_mac = if ltb (length frame) 34 then done ([], []) else do
  ether ← be16 frame 12
  if not (ether == 0x0800) then done ([], []) else do
    source ← slice frame 6 6
    if not (length trusted_mac == 6) || not (bytes_eq source trusted_mac)
        then done ([], [])
        else packet frame
