-- ===== src/Dns/Name/Safety.antt =====
-- `dnsName` stays in range, ends, and moves forward.
use open_socks.Prelude.{
  ◌>>=◌, ℕ, zero, suc, ◌+◌, ◌*◌, ◌≤◌, ◌<◌, bit_and, bit_or, ◌≡◌, refl, ◌≢◌, inl, inr, ◌||◌, none,
  some, List, [], ◌∷◌, ◌++◌, arith, ltb, leb, ◌==◌, Bool-cases, length, get_elem?, take, drop,
  Bytes, Run, done, crash,
}
use open_socks.Dns.Name.{at, slice, follow, round, labels, dns_name, Parsed, join}

-- A run that returns, and whose result lies behind `off` and inside the message of `n` bytes.
abbrev pub Forward : ℕ → ℕ → Run Parsed → Type 0
Forward n off crash = ⊥
Forward n off (done none) = Unit
Forward n off (done (some (s, next))) = (off < next) × (next ≤ n)

pub get_elem?-of_lt {ℓ} :
    {A : Type ℓ} (b : List A) (i : ℕ) → i < length b → (v : A) × (get_elem? b i ≡ some v)
get_elem?-of_lt [] i h = elim h [ ]
get_elem?-of_lt (x ∷ xs) zero h = (x, refl)
get_elem?-of_lt (x ∷ xs) (suc i) h = get_elem?-of_lt xs i (omega arith)

pub at-of_lt : (b : Bytes) (i : ℕ) → i < length b → (v : ℕ) × (at b i ≡ done v)
unfolding at
at-of_lt b i h = let (v, e) = get_elem?-of_lt b i h in (v, rw (e, at))

pub slice-of_le : (b : Bytes) (i n : ℕ) → i + n ≤ length b → slice b i n ≡ done (take n (drop i b))
unfolding slice
slice-of_le b i n h = ground arith

Forward-of_not_crash : (jump : Run Parsed) → jump ≢ crash → (found : Parsed) × (jump ≡ done found)
Forward-of_not_crash (done x) h = (x, refl)
Forward-of_not_crash crash h = absurd (h refl)

pub Forward-not_crash : (n off : ℕ) (r : Run Parsed) → Forward n off r → r ≢ crash
Forward-not_crash n off (done x) f e = cc
Forward-not_crash n off crash f e = f

follow-Forward :
    (jump : ℕ → Run Parsed) (msg : Bytes) (l off : ℕ) (parts : List Bytes)
    → ((p : ℕ) → jump p ≢ crash)
    → Forward (length msg) off (follow jump msg l off parts)
unfolding follow
follow-Forward jump msg l off parts h = elim (Bool-cases (leb (length msg) (off + 1))) [
  | inl past ↦ rw past tt
  | inr inside ↦
      let (b, e) = at-of_lt msg (off + 1) (ground arith) in
      let (found, e') = Forward-of_not_crash (jump (bit_or (bit_and l 0x3f * 256) b)) (h _) in
      rw inside (rw e (rw e' (ends found (ground arith))))
]
  where
    ends :
        (found : Parsed)
        → off + 1 < length msg
        → Forward (length msg) off (
            done
              (elim found [ none ↦ none | some (s, _) ↦ some (join (parts ++ s ∷ []), off + 2) ]))
    ends none _ = tt
    ends (some (s, _)) lt = (omega arith, omega arith)

Forward-weaken : (n off off' : ℕ) (r : Run Parsed) → off ≤ off' → Forward n off' r → Forward n off r
Forward-weaken n off off' (done none) h f = tt
Forward-weaken n off off' (done (some (s, next))) h f = (omega arith, f.1)
Forward-weaken n off off' crash h f = f

round-Forward :
    (jump next : ℕ → Run Parsed) (msg : Bytes) (l off : ℕ) (parts : List Bytes)
    → ((p : ℕ) → jump p ≢ crash)
    → off < length msg
    → (off + 1 + l ≤ length msg → Forward (length msg) off (next l))
    → Forward (length msg) off (round jump next msg l off parts)
unfolding round
round-Forward jump next msg l off parts h inside rest = elim (Bool-cases (bit_and l 0xc0 == 0xc0)) [
  | inl p ↦ rw p (follow-Forward jump msg l off parts h)
  | inr p ↦ rw p (elim (Bool-cases (l == 0)) [
    | inl z ↦ rw z (omega arith, omega arith)
    | inr z ↦ rw z (elim (Bool-cases (ltb 63 l || ltb (length msg) (off + 1 + l))) [
      | inl bad ↦ rw bad tt
      | inr fits ↦ rw fits (rest (ground arith))
    ])
  ])
]

pub labels-Forward :
    (jump : ℕ → Run Parsed) (msg : Bytes) (fuel off : ℕ) (parts : List Bytes)
    → ((p : ℕ) → jump p ≢ crash)
    → off ≤ length msg
    → length msg < off + fuel
    → Forward (length msg) off (labels jump msg fuel off parts)
unfolding labels
labels-Forward jump msg zero off parts h within room = absurd (omega arith)
labels-Forward jump msg (suc fuel) off parts h within room =
    let next : ℕ → Run Parsed = λ l. (do
      part ← slice msg (off + 1) l
      labels jump msg fuel (off + 1 + l) (parts ++ part ∷ [])) in
    elim (Bool-cases (leb (length msg) off)) [
      | inl past ↦ rw past tt
      | inr inside ↦
          let (l, e) = at-of_lt msg off (ground arith) in
          rw inside (
            rw e (
              round-Forward jump next msg l off parts h (ground arith) (λ fits.
                rw (slice-of_le msg (off + 1) l fits) (
                  Forward-weaken (length msg) off (off + 1 + l)
                    (labels jump msg fuel (off + 1 + l) (parts ++ take l (drop (off + 1) msg) ∷ []))
                    (omega arith)
                    (labels-Forward jump msg fuel (off + 1 + l)
                      (parts ++ take l (drop (off + 1) msg) ∷ []) h fits (omega arith))))))
    ]

-- Whatever the message holds: no read is out of range, the loops end, and a name ends behind its start and inside the message.
pub dns_name-Forward :
    (levels : ℕ) (msg : Bytes) (off : ℕ) → Forward (length msg) off (dns_name levels msg off)
unfolding dns_name
dns_name-Forward zero msg off = tt
dns_name-Forward (suc levels) msg off = elim (Bool-cases (leb (length msg) off)) [
  | inl past ↦ rw past tt
  | inr inside ↦ rw inside (
      labels-Forward (dns_name levels msg) msg (suc (length msg)) off []
        (λ p. Forward-not_crash _ p _ (dns_name-Forward levels msg p)) (ground arith) (omega arith))
]
