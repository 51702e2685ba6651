-- ===== src/Decimal.antt =====
-- `strconv.Atoi` and `strconv.Itoa`, by which the settings keep numbers as text.
use open_socks.Prelude.{
  ℕ, zero, suc, ◌+◌, ◌-◌, ◌*◌, ◌/◌, ◌%◌, ◌^◌, ◌≤◌, ◌<◌, ◌≡◌, refl, sym, ap, ◌∙◌, inl, inr, Bool,
  true, false, ◌&&◌, Option, none, some, [], ◌∷◌, arith, ltb, leb, ◌==◌, if◌then◌else◌, Bool-cases,
  Bytes, codes, ℤ, pos, negsuc, All,
}

abbrev is_digit : ℕ → Bool
is_digit c = leb b'0' c && leb c b'9'

-- The value of the digits, behind those whose value is `n`.
scan : ℕ → Bytes → Option ℕ
scan n [] = some n
scan n (c ∷ s) = let rest = scan (n * 10 + (c - b'0')) s in if is_digit c then rest else none

abbrev pub max_int : ℕ
max_int = 2 ^ 63 - 1

-- The value and whether there was no error. A number out of range comes with an error and the
-- nearest bound, a syntax error with 0.
abbrev pub Parsed : Type 0
Parsed = ℤ × Bool

positive : Option ℕ → Parsed
positive none = (pos 0, false)
positive (some n) = if leb n max_int then (pos n, true) else (pos max_int, false)

negate : ℕ → ℤ
negate zero = pos 0
negate (suc n) = negsuc n

negative : Option ℕ → Parsed
negative none = (pos 0, false)
negative (some n) = if leb n (max_int + 1) then (negate n, true) else (negsuc max_int, false)

-- At least one digit.
scan_digits : Bytes → Option ℕ
unfolding scan
scan_digits [] = none
scan_digits (c ∷ s) = scan 0 (c ∷ s)

unfoldable pub atoi : Bytes → Parsed
unfolding scan_digits positive negative negate
atoi [] = (pos 0, false)
atoi (c ∷ s) =
    if c == b'-'
    then negative (scan_digits s)
    else if c == b'+'
    then positive (scan_digits s)
    else positive (scan_digits (c ∷ s))

-- The digits of `n`, before those already written. Each round divides by ten, so `n + 1` rounds do.
emit : ℕ → ℕ → Bytes → Bytes
emit zero n out = out
emit (suc fuel) n out =
    let rest = emit fuel (n / 10) ((b'0' + n % 10) ∷ out) in
    if ltb n 10 then (b'0' + n) ∷ out else rest

unfoldable pub itoa : ℤ → Bytes
unfolding emit
itoa (pos n) = emit (suc n) n []
itoa (negsuc n) = b'-' ∷ emit (suc (suc n)) (suc n) []

-- Text without a line end.
abbrev pub IsOneLine : Bytes → Type 0
IsOneLine = All (λ c. (c == b'\n') ≡ false)

emit-IsOneLine : (fuel n : ℕ) (out : Bytes) → IsOneLine out → IsOneLine (emit fuel n out)
unfolding emit
emit-IsOneLine zero n out h = h
emit-IsOneLine (suc fuel) n out h = elim (Bool-cases (ltb n 10)) [
  | inl small ↦ rw small (ground arith, h)
  | inr large ↦ rw large (emit-IsOneLine fuel (n / 10) ((b'0' + n % 10) ∷ out) (ground arith, h))
]

pub itoa-IsOneLine : (n : ℤ) → IsOneLine (itoa n)
unfolding itoa
itoa-IsOneLine (pos n) = emit-IsOneLine (suc n) n [] tt
itoa-IsOneLine (negsuc n) = (refl, emit-IsOneLine (suc (suc n)) (suc n) [] tt)

scan-emit : (fuel n : ℕ) (out : Bytes) → n < fuel → scan 0 (emit fuel n out) ≡ scan n out
unfolding scan emit
scan-emit zero n out h = absurd (omega arith)
scan-emit (suc fuel) n out h = elim (Bool-cases (ltb n 10)) [
  | inl small ↦ rw small (ground arith)
  | inr large ↦
      rw large (scan-emit fuel (n / 10) ((b'0' + n % 10) ∷ out) (ground arith) ∙ ground arith)
]

-- The first byte of a number is a digit, and none is missing.
emit_head :
    (fuel n : ℕ) (out : Bytes)
    → n < fuel
    → (c : ℕ) × (s : Bytes) × (emit fuel n out ≡ c ∷ s) × (b'0' ≤ c)
unfolding emit
emit_head zero n out h = absurd (omega arith)
emit_head (suc fuel) n out h = elim (Bool-cases (ltb n 10)) [
  | inl small ↦ (b'0' + n, out, rw small, omega arith)
  | inr large ↦ rw large (emit_head fuel (n / 10) ((b'0' + n % 10) ∷ out) (ground arith))
]

of_digits :
    (t : Bytes) (c n : ℕ) (s : Bytes)
    → t ≡ c ∷ s
    → b'0' ≤ c
    → scan 0 t ≡ some n
    → n ≤ max_int
    → atoi t ≡ (pos n, true)
unfolding atoi
of_digits t c n s e low back fits =
    let back' : scan 0 (c ∷ s) ≡ some n = ap (scan 0) (sym e) ∙ back in
    let minus : (c == b'-') ≡ false = ground arith in
    let plus : (c == b'+') ≡ false = ground arith in
    let small : leb n max_int ≡ true = ground arith in
    rw e (rw minus (rw plus (ap positive back' ∙ rw small)))

-- What Itoa writes of a number from 0 up to the largest int Atoi reads back.
pub atoi-itoa : (n : ℕ) → n ≤ max_int → atoi (itoa (pos n)) ≡ (pos n, true)
unfolding itoa scan
atoi-itoa n h =
    let (c, s, e, low) = emit_head (suc n) n [] (omega arith) in
    of_digits (emit (suc n) n []) c n s e low (scan-emit (suc n) n [] (omega arith)) h

reads :
    (atoi (codes "12") ≡ (pos 12, true))
    × (atoi (codes "-3") ≡ (negsuc 2, true))
    × (atoi (codes "1x") ≡ (pos 0, false))
    × (itoa (pos 120) ≡ codes "120")
unfolding atoi itoa scan
reads = (refl, refl, refl, refl)
