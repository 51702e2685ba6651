-- ===== src/SpeedTest/Padding.antt =====
-- decryptSpeedTestCN of openwrt/opensocks/src/speedtest.go: base64 and AES-CBC on whole blocks are `decode` and
-- `decrypt`, and `none` is an error.
use open_socks.Prelude.{
  ℕ, zero, suc, ◌-◌, ◌%◌, ◌≤◌, ◌<◌, ◌≡◌, ◌≢◌, refl, sym, ap, ◌∙◌, ◌⊎◌, subst, inl, inr, true, not,
  ◌||◌, Option, none, some, [], ◌∷◌, arith, ltb, leb, ◌==◌, if◌then◌else◌, Bool-cases, length, take,
  get_elem?, Bytes, Run, done, crash,
}

-- raw[i] and raw[:n]
abbrev pub or_crash : Option ℕ → Run ℕ
or_crash none = crash
or_crash (some x) = done x

abbrev pub byte_at : Bytes → ℕ → Run ℕ
byte_at b i = or_crash (get_elem? b i)

abbrev pub prefix : Bytes → ℕ → Run Bytes
prefix b n = if leb n (length b) then done (take n b) else crash

abbrev pub result_of : Run Bytes → Run (Option Bytes)
result_of (done b) = done (some b)
result_of crash = crash

-- raw[len(raw)-1], with the index -1 for no bytes.
abbrev pub last_byte : Bytes → ℕ → Run ℕ
last_byte b zero = crash
last_byte b (suc i) = byte_at b i

-- The text without its padding, of the last byte.
abbrev pub unpad : Bytes → Run ℕ → Run (Option Bytes)
unpad raw crash = crash
unpad raw (done pad) =
    if ltb pad 1 || (ltb 16 pad || ltb (length raw) pad)
    then done none
    else result_of (prefix raw (length raw - pad))

-- CryptBlocks, which panics where the text does not end with a block.
abbrev pub crypt_blocks : (Bytes → Bytes) → Bytes → Run Bytes
crypt_blocks decrypt raw = if length raw % 16 == 0 then done (decrypt raw) else crash

abbrev pub unpad_all : Run Bytes → Run (Option Bytes)
unpad_all crash = crash
unpad_all (done raw) = unpad raw (last_byte raw (length raw))

abbrev pub decrypted : (Bytes → Bytes) → Option Bytes → Run (Option Bytes)
decrypted decrypt none = done none
decrypted decrypt (some raw) =
    if (length raw == 0) || not (length raw % 16 == 0)
    then done none
    else unpad_all (crypt_blocks decrypt raw)

unfoldable pub decrypt_speed_test_cn :
    (Bytes → Option Bytes) → (Bytes → Bytes) → Bytes → Run (Option Bytes)
decrypt_speed_test_cn decode decrypt value = decrypted decrypt (decode value)

elem_below : (b : Bytes) (i : ℕ) → i < length b → (x : ℕ) × (get_elem? b i ≡ some x)
elem_below [] i h = absurd (omega (arith, h))
elem_below (x ∷ b) zero h = (x, refl)
elem_below (x ∷ b) (suc i) h = elem_below b i (omega (arith, h))

-- No crash, and a text is the bytes without as many at their end as their last byte says, one to sixteen.
unfoldable pub Unpadded : Bytes → Run (Option Bytes) → Type 0
Unpadded raw crash = ⊥
Unpadded raw (done none) = Unit {0}
Unpadded raw (done (some text)) =
    (pad : ℕ) × (get_elem? raw (length raw - 1) ≡ some pad)
    × (1 ≤ pad)
    × (pad ≤ 16)
    × (pad ≤ length raw)
    × (text ≡ take (length raw - pad) raw)

fits : (n pad : ℕ) → leb (n - pad) n ≡ true
fits n pad = ground arith

unpad-Unpadded :
    (raw : Bytes) (pad : ℕ)
    → get_elem? raw (length raw - 1) ≡ some pad
    → Unpadded raw (unpad raw (done pad))
unfolding Unpadded
unpad-Unpadded raw pad h = elim (Bool-cases (ltb pad 1 || (ltb 16 pad || ltb (length raw) pad))) [
  | inl bad ↦ rw bad tt
  | inr good ↦
      rw (good, fits (length raw) pad)
        (pad, h, ground (arith, good), ground (arith, good), ground (arith, good), refl)
]

read-Unpadded :
    (raw : Bytes) (n : ℕ) → length raw ≡ suc n → Unpadded raw (unpad raw (last_byte raw (suc n)))
read-Unpadded raw n h =
    let (x, e) = elem_below raw n (omega (arith, h)) in
    let last : length raw - 1 ≡ n = omega (arith, h) in
    subst (λ o. Unpadded raw (unpad raw (or_crash o))) (sym e)
      (unpad-Unpadded raw x (ap (get_elem? raw) last ∙ e))

whole-Unpadded :
    (raw : Bytes) (n : ℕ) → length raw ≡ n → 1 ≤ n → Unpadded raw (unpad raw (last_byte raw n))
whole-Unpadded raw zero e h = absurd (omega (arith, h))
whole-Unpadded raw (suc n) e h = read-Unpadded raw n e

-- The answer: an error where the decoded bytes are none or not whole blocks, and otherwise the decrypted bytes without their padding.
unfoldable pub Decrypted : (Bytes → Bytes) → Option Bytes → Run (Option Bytes) → Type 0
Decrypted decrypt none r = r ≡ done none
Decrypted decrypt (some raw) r =
    (((length raw ≡ 0) ⊎ (length raw % 16 ≢ 0)) × (r ≡ done none))
    ⊎ ((1 ≤ length raw) × (length raw % 16 ≡ 0) × Unpadded (decrypt raw) r)

not_whole : (n : ℕ) → ((n == 0) || not (n % 16 == 0)) ≡ true → (n ≡ 0) ⊎ (n % 16 ≢ 0)
not_whole n h = elim (Bool-cases (n == 0)) [
  | inl e ↦ inl (ground (arith, e))
  | inr e ↦ inr (λ z. ground (arith, h, e, z))
]

decrypted-Decrypted :
    (decrypt : Bytes → Bytes)
    → ((raw : Bytes) → length (decrypt raw) ≡ length raw)
    → (raw : Option Bytes) → Decrypted decrypt raw (decrypted decrypt raw)
unfolding Decrypted
decrypted-Decrypted decrypt same none = refl
decrypted-Decrypted decrypt same (some raw) =
    elim (Bool-cases ((length raw == 0) || not (length raw % 16 == 0))) [
      | inl bad ↦ rw bad (inl (not_whole (length raw) bad, refl))
      | inr good ↦
          let some_bytes : 1 ≤ length raw = ground (arith, good) in
          let blocks : length raw % 16 ≡ 0 = ground (arith, good) in
          let test : (length raw % 16 == 0) ≡ true = ground (arith, good) in
          rw (good, test)
            (inr (
              some_bytes,
              blocks,
              whole-Unpadded (decrypt raw) (length (decrypt raw)) refl
                  (omega (arith, same raw, some_bytes)),
            ))
    ]

-- Where decryption keeps the length: decryptSpeedTestCN never crashes, neither in CryptBlocks nor at an index or slice. It fails for bytes that are none or not whole blocks, and a text that it gives is the decrypted bytes without as many at their end as their last byte says, which is one to sixteen.
pub decrypt_speed_test_cn-Decrypted :
    (decode : Bytes → Option Bytes) (decrypt : Bytes → Bytes)
    → ((raw : Bytes) → length (decrypt raw) ≡ length raw)
    → (value : Bytes)
    → Decrypted decrypt (decode value) (decrypt_speed_test_cn decode decrypt value)
unfolding decrypt_speed_test_cn
decrypt_speed_test_cn-Decrypted decode decrypt same value =
    decrypted-Decrypted decrypt same (decode value)
