-- ===== src/Dns/Answers/Safety.antt =====
-- A captured frame cannot crash the observer, and only DNS replies of the router teach it.
use open_socks.Prelude.{
  ℕ, zero, suc, ◌+◌, ◌*◌, ◌≤◌, ◌<◌, bit_and, ◌≡◌, refl, ◌≢◌, inl, inr, Bool, true, false, not, ◌&&◌,
  ◌||◌, Option, none, some, List, [], ◌∷◌, ◌++◌, arith, ltb, leb, ◌==◌, if◌then◌else◌, Bool-cases,
  length, take, drop, length-take, length-drop, Bytes, bytes_eq, Result, ok, err, Run, done, crash,
  ◌>>=◌,
}
use open_socks.Dns.Name.{at, slice, dns_name, top}
use open_socks.Dns.Name.Safety.{Forward-not_crash, at-of_lt, slice-of_le, dns_name-Forward}
use open_socks.Dns.Answers.{
  be16, net_ipv4_string, Learned, questions, record_body, one_answer, answers, message, packet,
  dns_ipv4_answers,
}

-- The run returns.
abbrev pub Returns {ℓ} : {A : Type ℓ} → Run A → Type 0
Returns (done x) = Unit
Returns crash = ⊥

Returns-bind {ℓ κ} :
    {A : Type ℓ} {B : Type κ} (m : Run A) (f : A → Run B)
    → Returns m
    → ((a : A) → Returns (f a))
    → Returns (m >>= f)
Returns-bind (done a) f h k = k a
Returns-bind crash f h k = h

Returns-if {ℓ} :
    {A : Type ℓ} (b : Bool) (m n : Run A)
    → Returns m
    → (b ≡ false → Returns n)
    → Returns (if b then m else n)
Returns-if true m n h k = h
Returns-if false m n h k = k refl

Returns-of_ne_crash {ℓ} : {A : Type ℓ} (r : Run A) → r ≢ crash → Returns r
Returns-of_ne_crash (done x) h = tt
Returns-of_ne_crash crash h = absurd (h refl)

dns_name-Returns : (levels : ℕ) (msg : Bytes) (off : ℕ) → Returns (dns_name levels msg off)
dns_name-Returns levels msg off =
    Returns-of_ne_crash _ (Forward-not_crash (length msg) off _ (dns_name-Forward levels msg off))

at-Returns : (b : Bytes) (i : ℕ) → i < length b → Returns (at b i)
at-Returns b i h = let (v, e) = at-of_lt b i h in rw e tt

slice-Returns : (b : Bytes) (i n : ℕ) → i + n ≤ length b → Returns (slice b i n)
slice-Returns b i n h = rw (slice-of_le b i n h) tt

be16-Returns : (b : Bytes) (i : ℕ) → i + 1 < length b → Returns (be16 b i)
unfolding be16
be16-Returns b i h =
    Returns-bind (at b i) _ (at-Returns b i (omega arith))
      (λ v. Returns-bind (at b (i + 1)) _ (at-Returns b (i + 1) h) (λ w. tt))

net_ipv4_string-Returns : (b : Bytes) → 3 < length b → Returns (net_ipv4_string b)
unfolding net_ipv4_string
net_ipv4_string-Returns b h = Returns-bind (at b 0) _ (at-Returns b 0 (omega arith)) (λ v.
    Returns-bind (at b 1) _ (at-Returns b 1 (omega arith)) (λ w.
      Returns-bind (at b 2) _ (at-Returns b 2 (omega arith))
        (λ x. Returns-bind (at b 3) _ (at-Returns b 3 h) (λ y. tt))))

Returns-option {ℓ κ} :
    {A : Type ℓ} {B : Type κ} (o : Option A) (m : Run B) (f : A → Run B)
    → Returns m
    → ((a : A) → Returns (f a))
    → Returns (elim o [ none ↦ m | some a ↦ f a ])
Returns-option none m f h k = h
Returns-option (some a) m f h k = k a

questions-Returns :
    (left : ℕ) (dns : Bytes) (off : ℕ) (names : List Bytes) → Returns (questions left dns off names)
unfolding questions
questions-Returns zero dns off names = tt
questions-Returns (suc left) dns off names =
    Returns-bind (dns_name top dns off) _ (dns_name-Returns top dns off) (λ found.
      Returns-option found _ _ tt (λ p.
        Returns-if (ltb (length dns) (p.1 + 4)) _ _ tt
          (λ _. questions-Returns left dns (p.1 + 4) (names ++ p.0 ∷ []))))

record_body-Returns :
    (typ rdlen rdata : ℕ) (dns : Bytes) (learned : Learned)
    → rdata + rdlen ≤ length dns
    → Returns (record_body typ rdlen rdata dns learned)
unfolding record_body
record_body-Returns typ rdlen rdata dns (names, ips) h =
    elim (Bool-cases ((typ == 1) && (rdlen == 4))) [
      | inl address ↦ rw address (
          let fits : rdata + 4 ≤ length dns = ground arith in
          rw (slice-of_le dns rdata 4 fits) (
            Returns-bind (net_ipv4_string (take 4 (drop rdata dns))) _
              (net_ipv4_string-Returns (take 4 (drop rdata dns))
                (omega (arith, length-take 4 (drop rdata dns), length-drop rdata dns)))
              (λ text. tt)))
      | inr other ↦ rw other (
          Returns-if' (typ == 5) _ _
            (Returns-bind (dns_name top dns rdata) _ (dns_name-Returns top dns rdata) (λ found. tt))
            tt)
    ]
  where
    Returns-if' :
        (b : Bool) (m n : Run Learned) → Returns m → Returns n → Returns (if b then m else n)
    Returns-if' b m n h k = Returns-if b m n h (λ _. k)

one_answer-Returns :
    (rest : ℕ → Learned → Run Learned) (dns name : Bytes) (next : ℕ) (learned : Learned)
    → ((off : ℕ) (l : Learned) → Returns (rest off l))
    → Returns (one_answer rest dns name next learned)
unfolding one_answer
one_answer-Returns rest dns name next (names, ips) k =
    Returns-if (ltb (length dns) (next + 10)) _ _ tt (λ fits.
      Returns-bind (be16 dns next) _ (be16-Returns dns next (ground arith)) (λ typ.
        Returns-bind (be16 dns (next + 8)) _ (be16-Returns dns (next + 8) (ground arith)) (λ rdlen.
          Returns-if (ltb (length dns) (next + 10 + rdlen)) _ _ tt (λ fits'.
            Returns-bind (record_body typ rdlen (next + 10) dns (names ++ name ∷ [], ips)) _
              (record_body-Returns typ rdlen (next + 10) dns (names ++ name ∷ [], ips)
                (ground arith))
              (λ learned. k _ learned)))))

answers-Returns :
    (left : ℕ) (dns : Bytes) (off : ℕ) (learned : Learned) → Returns (answers left dns off learned)
unfolding answers
answers-Returns zero dns off learned = tt
answers-Returns (suc left) dns off learned = Returns-if (leb (length dns) off) _ _ tt (λ _.
    Returns-bind (dns_name top dns off) _ (dns_name-Returns top dns off) (λ found.
      Returns-option found _ _ tt (λ p.
        one_answer-Returns (answers left dns) dns p.0 p.1 learned (answers-Returns left dns))))

message-Returns : (dns : Bytes) → Returns (message dns)
unfolding message
message-Returns dns = Returns-if (ltb (length dns) 12) _ _ tt (λ long.
    Returns-bind (at dns 2) _ (at-Returns dns 2 (ground arith)) (λ flags.
      Returns-if (bit_and flags 0x80 == 0) _ _ tt (λ _.
        Returns-bind (be16 dns 4) _ (be16-Returns dns 4 (ground arith)) (λ qd.
          Returns-bind (be16 dns 6) _ (be16-Returns dns 6 (ground arith)) (λ an.
            Returns-bind (questions qd dns 12 []) _ (questions-Returns qd dns 12 [])
              (λ opened. opened_case an opened))))))
  where
    opened_case :
        (an : ℕ) (opened : Result (List Bytes) (List Bytes × ℕ))
        → Returns (elim opened [
          | err names ↦ done (names, [])
          | ok (names, off) ↦ answers an dns off (names, [])
        ])
    opened_case an (err names) = tt
    opened_case an (ok (names, off)) = answers-Returns an dns off (names, [])

packet-Returns : (frame : Bytes) → 33 < length frame → Returns (packet frame)
unfolding packet
packet-Returns frame long =
    Returns-bind (at frame 14) _ (at-Returns frame 14 (omega arith)) (λ first.
      Returns-bind (at frame 23) _ (at-Returns frame 23 (omega arith)) (λ protocol.
        Returns-if
          (ltb (bit_and first 0x0f * 4) 20
            || ltb (length frame) (14 + bit_and first 0x0f * 4 + 8)
            || not (protocol == 17))
          _ _ tt
          (λ fits.
            Returns-bind (be16 frame (14 + bit_and first 0x0f * 4)) _
              (be16-Returns frame (14 + bit_and first 0x0f * 4) (ground arith))
              (λ port.
                Returns-if (not (port == 53)) _ _ tt
                  (λ _. message-Returns (drop (14 + bit_and first 0x0f * 4 + 8) frame))))))

-- For every captured frame and every trusted address dnsIPv4Answers returns: no index or slice is out of range and every loop ends.
pub dns_ipv4_answers-Returns : (frame mac : Bytes) → Returns (dns_ipv4_answers frame mac)
unfolding dns_ipv4_answers
dns_ipv4_answers-Returns frame mac = Returns-if (ltb (length frame) 34) _ _ tt (λ long.
    Returns-bind (be16 frame 12) _ (be16-Returns frame 12 (ground arith)) (λ ether.
      Returns-if (not (ether == 0x0800)) _ _ tt (λ _.
        Returns-bind (slice frame 6 6) _ (slice-Returns frame 6 6 (ground arith)) (λ source.
          Returns-if (not (length mac == 6) || not (bytes_eq source mac)) _ _ tt
            (λ _. packet-Returns frame (ground arith))))))
