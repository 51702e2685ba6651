-- ===== src/Server/Token.antt =====
-- The pairing token of openwrt/opensocks/src/mobile.go, and the check of it on the mobile listener.
use open_socks.Prelude.{
  ℕ, ◌*◌, ◌/◌, ◌%◌, ◌≤◌, ◌<◌, ◌≡◌, refl, ap, ◌∙◌, inl, inr, ◌⊎◌, not, Bool, true, false, Option,
  none, some, [], ◌∷◌, ◌++◌, arith, leb, if◌then◌else◌, Bool-cases, length, Bytes, codes, bytes_eq,
  All,
}
use open_socks.Device.{hex_digit, hex_string}
use open_socks.Settings.{trim_space, trim_left, trim_right, is_space}

-- The token file, `none` where it cannot be read; whether its directory can be made, the file written,
-- and its mode set; and what a write that fails leaves of the file. `random` is what the source of
-- randomness gives, 32 bytes or nothing.
pub record TokenFile : Type 0 where
  pub content : Option Bytes
  pub dir_works : Bool
  pub writable : Bool
  pub left : Option Bytes
  pub chmod_works : Bool
  pub random : Option Bytes

-- The token of a file, if it is long enough.
abbrev pub usable_token : Option Bytes → Option Bytes
usable_token none = none
usable_token (some data') =
    let token = trim_space data' in if leb 64 (length token) then some token else none

abbrev pub with_content : Option Bytes → TokenFile → TokenFile
with_content c f = record f { content = c }

abbrev pub write_token : TokenFile → Bytes → Option Bytes × TokenFile
write_token f token =
    if not f.writable
    then (none, with_content f.left f)
    else if not f.chmod_works
    then (none, with_content (some (token ++ 10 ∷ [])) f)
    else (some token, with_content (some (token ++ 10 ∷ [])) f)

abbrev pub create_token : TokenFile → Option Bytes → Option Bytes × TokenFile
create_token f none = (none, f)
create_token f (some bytes) =
    if not f.dir_works then (none, f) else write_token f (hex_string bytes)

abbrev pub token_or_create : TokenFile → Option Bytes → Option Bytes × TokenFile
token_or_create f (some token) = (some token, f)
token_or_create f none = create_token f f.random

-- loadOrCreateMobileToken; `none` is an error.
unfoldable pub load_or_create_mobile_token : TokenFile → Option Bytes × TokenFile
unfolding trim_space hex_string
load_or_create_mobile_token f = token_or_create f (usable_token f.content)

abbrev pub bearer : Bytes → Bytes
bearer token = codes "Bearer " ++ token

-- The comparison of the Authorization header.
unfoldable pub is_authorized : Bytes → Bytes → Bool
unfolding bytes_eq
is_authorized token provided = bytes_eq provided (bearer token)

abbrev Printable : Bytes → Type 0
Printable s = All (λ c. is_space c ≡ false) s

hex_digit-Printable : (n : ℕ) → is_space (hex_digit n) ≡ false
hex_digit-Printable n = ground arith

hex_string-Printable : (bs : Bytes) → Printable (hex_string bs)
unfolding hex_string
hex_string-Printable [] = tt
hex_string-Printable (b ∷ bs) =
    (hex_digit-Printable (b / 16), (hex_digit-Printable (b % 16), hex_string-Printable bs))

length-hex_string : (bs : Bytes) → length (hex_string bs) ≡ 2 * length bs
unfolding hex_string
length-hex_string [] = refl
length-hex_string (b ∷ bs) = omega (arith, length-hex_string bs)

trim_left-Printable : (c : ℕ) (s : Bytes) → is_space c ≡ false → trim_left (c ∷ s) ≡ c ∷ s
unfolding trim_left
trim_left-Printable c s h = rw h refl

trim_right-Printable : (s : Bytes) → Printable s → trim_right (s ++ 10 ∷ []) ≡ s
unfolding trim_right
trim_right-Printable [] h = refl
trim_right-Printable (c ∷ s) (p, h) = rw (p, trim_right-Printable s h) refl

trim_space-Printable : (s : Bytes) → Printable s → 0 < length s → trim_space (s ++ 10 ∷ []) ≡ s
unfolding trim_space
trim_space-Printable [] h n = absurd (omega (arith, n))
trim_space-Printable (c ∷ s) (p, h) n =
    ap trim_right (trim_left-Printable c (s ++ 10 ∷ []) p) ∙ trim_right-Printable (c ∷ s) (p, h)

-- The bytes of the source of randomness are 32, where it gives any.
unfoldable pub Random : Option Bytes → Type 0
Random none = Unit {0}
Random (some bytes) = length bytes ≡ 32

-- A token of at least 64 characters that the next call gives again, without another change. Or an error, which comes only without a usable token: the file is as before, or what a failing write leaves, or holds a new token, which the next call gives, where its mode cannot be set.
unfoldable pub Stable : TokenFile → Option Bytes × TokenFile → Type 0
Stable f (none, f') =
    (usable_token f.content ≡ none)
    × ((f' ≡ f)
        ⊎ (((f.writable ≡ false) × (f' ≡ with_content f.left f))
            ⊎ ((f.chmod_works ≡ false)
                × ((token : Bytes) × (64 ≤ length token)
                    × (load_or_create_mobile_token f' ≡ (some token, f'))))))
Stable f (some token, f') =
    (64 ≤ length token) × (load_or_create_mobile_token f' ≡ (some token, f'))

long : (s : Bytes) → 64 ≤ length s → (if leb 64 (length s) then some s else none) ≡ some s
long s h = ground (arith, h)

usable_token-hex_string :
    (bytes : Bytes)
    → length bytes ≡ 32
    → usable_token (some (hex_string bytes ++ 10 ∷ [])) ≡ some (hex_string bytes)
usable_token-hex_string bytes n =
    let size = length-hex_string bytes in
    let trimmed =
      trim_space-Printable (hex_string bytes) (hex_string-Printable bytes)
        (omega (arith, n, size)) in
    rw trimmed (long (hex_string bytes) (omega (arith, n, size)))

-- A file that holds a written token gives it.
written_again :
    (f : TokenFile) (bytes : Bytes)
    → length bytes ≡ 32
    → (64 ≤ length (hex_string bytes))
      × (load_or_create_mobile_token (with_content (some (hex_string bytes ++ 10 ∷ [])) f)
          ≡ (some (hex_string bytes), with_content (some (hex_string bytes ++ 10 ∷ [])) f))
unfolding load_or_create_mobile_token
written_again f bytes h =
    let after = with_content (some (hex_string bytes ++ 10 ∷ [])) f in
    (
      omega (arith, h, length-hex_string bytes),
      ap (token_or_create after) (usable_token-hex_string bytes h),
    )

Stable-when :
    (b : Bool) (f : TokenFile) (x y : Option Bytes × TokenFile)
    → (b ≡ false → Stable f x)
    → Stable f y
    → Stable f (if not b then x else y)
Stable-when true f x y h k = k
Stable-when false f x y h k = h refl

create_token-Stable :
    (f : TokenFile) (r : Option Bytes)
    → usable_token f.content ≡ none
    → Random r
    → Stable f (create_token f r)
unfolding Random Stable
create_token-Stable f none e h = (e, inl refl)
create_token-Stable f (some bytes) e h =
    Stable-when f.dir_works f _ _ (λ _. (e, inl refl))
      (Stable-when f.writable f _ _ (λ w. (e, inr (inl (w, refl))))
        (Stable-when f.chmod_works f _ _
          (λ c.
            let (long_enough, again) = written_again f bytes h in
            (e, inr (inr (c, (hex_string bytes, long_enough, again)))))
          (written_again f bytes h)))

Long : Option Bytes → Type 0
Long none = Unit {0}
Long (some token) = 64 ≤ length token

usable_token-Long : (c : Option Bytes) → Long (usable_token c)
unfolding Long
usable_token-Long none = tt
usable_token-Long (some data') = elim (Bool-cases (leb 64 (length (trim_space data')))) [
  | inl l ↦ rw l (ground (arith, l))
  | inr l ↦ rw l tt
]

found-Stable :
    (f : TokenFile) (u : Option Bytes)
    → usable_token f.content ≡ u
    → Long u
    → Random f.random
    → Stable f (token_or_create f u)
unfolding Stable load_or_create_mobile_token Long
found-Stable f none e l r = create_token-Stable f f.random e r
found-Stable f (some token) e l r = (l, ap (token_or_create f) e)

-- Where the source of randomness gives 32 bytes or fails: loadOrCreateMobileToken gives a token of at least 64 characters, and the next call gives the same one and changes nothing; or it fails, only where the file held no usable token, and the file is then as before, or what a failing write left of it, or, where its mode could not be set, holds a new token that the next call gives.
pub load_or_create_mobile_token-Stable :
    (f : TokenFile) → Random f.random → Stable f (load_or_create_mobile_token f)
unfolding load_or_create_mobile_token
load_or_create_mobile_token-Stable f r =
    found-Stable f (usable_token f.content) refl (usable_token-Long f.content) r
