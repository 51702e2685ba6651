-- ===== src/Device/Profiles.antt =====
-- The profiles that openwrt/opensocks/src/device_profile.go draws for the three slots.
use open_socks.Prelude.{
  ℕ, zero, suc, ◌≤◌, ◌<◌, ◌≡◌, refl, sym, ap, ◌∙◌, ◌⊎◌, inl, inr, Bool, true, false, not, Option,
  none, some, List, [], ◌∷◌, ◌++◌, arith, Bool-cases, length, length-append, any, filter, All,
  Bytes, bytes_eq, bytes_eq_iff, Run, done, ℤ, pos, negsuc,
}
use open_socks.Device.{
  DeviceProfile, profile, device_profiles, same_profile, Slots, slot_profile, used_profiles,
  profile_list, unused, or_all, candidates, draw, draw_index, at_index, keep_drawn, keep_profile,
  profile_or_draw, persistent_device_profile_for_slot, clamp_slot,
}

at_index_lem :
    {A : Type 0} (P : A → Type 0) (xs : List A) (i : ℕ)
    → i < length xs
    → All P xs
    → (x : A) × (at_index xs i ≡ done x) × P x
at_index_lem P [] i h a = ground arith
at_index_lem P (x ∷ xs) zero h a = (x, refl, a.0)
at_index_lem P (x ∷ xs) (suc i) h a = at_index_lem P xs i (omega arith) a.1

draw_index_lem : (random : Option ℕ) (n : ℕ) → 1 ≤ n → draw_index random n < n
draw_index_lem none n h = h
draw_index_lem (some b) n h = ground arith

All-filter : {A : Type 0} (p : A → Bool) (xs : List A) → All (λ x. p x ≡ true) (filter p xs)
All-filter p [] = tt
All-filter p (x ∷ xs) = elim (Bool-cases (p x)) [
  | inl e ↦ rw e (e, All-filter p xs)
  | inr e ↦ rw e (All-filter p xs)
]

-- Two profiles that one profile equals have the same model.
model_of : (a b : DeviceProfile) → same_profile a b ≡ true → a.model ≡ b.model
unfolding same_profile
model_of a b h = (bytes_eq_iff a.model b.model).0 (ground (arith, h))

-- Of three profiles with different models, one equals neither of two given ones.
abbrev is_free : List DeviceProfile → DeviceProfile → Bool
is_free used p = not (any (same_profile p) used)

abbrev HasFree : List DeviceProfile → Type 0
HasFree used = any (is_free used) device_profiles ≡ true

-- A profile that is in use has the model of one of the two in use.
taken :
    (x y p : DeviceProfile)
    → is_free (x ∷ y ∷ []) p ≡ false
    → (p.model ≡ x.model) ⊎ (p.model ≡ y.model)
taken x y p h = elim (Bool-cases (same_profile p x)) [
  | inl e ↦ inl (model_of p x e)
  | inr e ↦ elim (Bool-cases (same_profile p y)) [
    | inl e' ↦ inr (model_of p y e')
    | inr e' ↦ ground (arith, e, e', h)
  ]
]

-- Three models in two places: two of them agree.
pigeons :
    (a b c x y : Bytes)
    → (a ≡ x) ⊎ (a ≡ y)
    → (b ≡ x) ⊎ (b ≡ y)
    → (c ≡ x) ⊎ (c ≡ y)
    → (bytes_eq a b ≡ true) ⊎ ((bytes_eq a c ≡ true) ⊎ (bytes_eq b c ≡ true))
pigeons a b c x y (inl p) (inl q) r = inl ((bytes_eq_iff a b).1 (p ∙ sym q))
pigeons a b c x y (inr p) (inr q) r = inl ((bytes_eq_iff a b).1 (p ∙ sym q))
pigeons a b c x y (inl p) (inr q) (inl r) = inr (inl ((bytes_eq_iff a c).1 (p ∙ sym r)))
pigeons a b c x y (inl p) (inr q) (inr r) = inr (inr ((bytes_eq_iff b c).1 (q ∙ sym r)))
pigeons a b c x y (inr p) (inl q) (inl r) = inr (inr ((bytes_eq_iff b c).1 (q ∙ sym r)))
pigeons a b c x y (inr p) (inl q) (inr r) = inr (inl ((bytes_eq_iff a c).1 (p ∙ sym r)))

free_lem :
    (x y : DeviceProfile) (ps : List DeviceProfile) (p q r : DeviceProfile)
    → bytes_eq p.model q.model ≡ false
    → bytes_eq p.model r.model ≡ false
    → bytes_eq q.model r.model ≡ false
    → any (is_free (x ∷ y ∷ [])) (p ∷ q ∷ r ∷ ps) ≡ true
free_lem x y ps p q r pq pr qr = elim (Bool-cases (is_free (x ∷ y ∷ []) p)) [
  | inl e ↦ rw e refl
  | inr e ↦ elim (Bool-cases (is_free (x ∷ y ∷ []) q)) [
    | inl e' ↦ rw (e, e') refl
    | inr e' ↦ elim (Bool-cases (is_free (x ∷ y ∷ []) r)) [
      | inl e'' ↦ rw (e, e', e'') refl
      | inr e'' ↦
          elim (pigeons p.model q.model r.model x.model y.model (taken x y p e) (taken x y q e')
            (taken x y r e'')) [
              | inl s ↦ ground (arith, s, pq)
              | inr (inl s) ↦ ground (arith, s, pr)
              | inr (inr s) ↦ ground (arith, s, qr)
            ]
    ]
  ]
]

any-cong :
    {A : Type 0} (p q : A → Bool) → ((x : A) → p x ≡ q x) → (xs : List A) → any p xs ≡ any q xs
any-cong p q h [] = refl
any-cong p q h (x ∷ xs) = rw (h x, any-cong p q h xs) refl

twice_lem : (x p : DeviceProfile) → is_free (x ∷ x ∷ []) p ≡ is_free (x ∷ []) p
twice_lem x p = ground arith

pair_free : (x y : DeviceProfile) → HasFree (x ∷ y ∷ [])
unfolding device_profiles bytes_eq
pair_free x y =
    free_lem x y
      (profile "Pixel 9a" "1080x2424"
        ∷ profile "Pixel 9 Pro" "1280x2856"
        ∷ profile "Pixel 9 Pro XL" "1344x2992"
        ∷ [])
      (profile "Pixel 10" "1080x2424") (profile "Pixel 10 Pro" "1280x2856")
      (profile "Pixel 10 Pro XL" "1344x2992") refl refl refl

used_free : (used : List DeviceProfile) → length used ≤ 2 → HasFree used
unfolding device_profiles
used_free [] h = refl
used_free (x ∷ []) h =
    sym (any-cong (is_free (x ∷ x ∷ [])) (is_free (x ∷ [])) (twice_lem x) device_profiles)
    ∙ pair_free x x
used_free (x ∷ (y ∷ [])) h = pair_free x y
used_free (x ∷ (y ∷ (z ∷ zs))) h = ground arith

length-profile_list : (p : Option DeviceProfile) → length (profile_list p) ≤ 1
length-profile_list none = omega arith
length-profile_list (some p) = omega arith

used_length : (s : Slots) (slot : ℕ) → slot ≤ 2 → length (used_profiles s slot) ≤ 2
unfolding used_profiles
used_length s zero h = omega (
  arith,
  length-append (profile_list (slot_profile s 1)) (profile_list (slot_profile s 2)),
  length-profile_list (slot_profile s 1),
  length-profile_list (slot_profile s 2),
)
used_length s (suc zero) h = omega (
  arith,
  length-append (profile_list (slot_profile s 0) ++ []) (profile_list (slot_profile s 2)),
  length-append (profile_list (slot_profile s 0)) [],
  length-profile_list (slot_profile s 0),
  length-profile_list (slot_profile s 2),
)
used_length s (suc (suc zero)) h = omega (
  arith,
  length-append (profile_list (slot_profile s 0) ++ profile_list (slot_profile s 1)) [],
  length-append (profile_list (slot_profile s 0)) (profile_list (slot_profile s 1)),
  length-profile_list (slot_profile s 0),
  length-profile_list (slot_profile s 1),
)
used_length s (suc (suc (suc n))) h = omega arith

any-filter : {A : Type 0} (p : A → Bool) (xs : List A) → any p xs ≡ true → 1 ≤ length (filter p xs)
any-filter p [] h = ground arith
any-filter p (x ∷ xs) h = elim (Bool-cases (p x)) [
  | inl e ↦ rw e (omega arith)
  | inr e ↦ rw e (any-filter p xs (ground (arith, h, e)))
]

or_all_lem : (xs : List DeviceProfile) → 1 ≤ length xs → or_all xs ≡ xs
unfolding or_all
or_all_lem [] h = ground arith
or_all_lem (x ∷ xs) h = refl

drawn_lem :
    (random : Option ℕ) (used : List DeviceProfile)
    → length used ≤ 2
    → (p : DeviceProfile) × (draw random (candidates used) ≡ done p) × (is_free used p ≡ true)
unfolding draw unused candidates
drawn_lem random used h =
    let free = filter (is_free used) device_profiles in
    let some_free = any-filter (is_free used) device_profiles (used_free used h) in
    rw (or_all_lem free some_free) (
      at_index_lem (λ p. is_free used p ≡ true) free (draw_index random (length free))
        (draw_index_lem random (length free) some_free) (All-filter (is_free used) device_profiles))

clamp_slot_lem : (n : ℤ) → clamp_slot n ≤ 2
clamp_slot_lem (pos n) = ground arith
clamp_slot_lem (negsuc n) = omega arith

not-true : (b : Bool) → not b ≡ true → b ≡ false
not-true true h = ground arith
not-true false h = refl

-- What a request for a slot gives: the profile that the slot has, kept; or a new one, kept too, that neither other slot has.
unfoldable pub Given : ℕ → Slots → Option DeviceProfile → Run (DeviceProfile × Slots) → Type 0
Given slot s (some p) r = r ≡ done (p, keep_profile slot p false s)
Given slot s none r =
    (p : DeviceProfile) × (r ≡ done (p, keep_profile slot p s.writable s))
    × (any (same_profile p) (used_profiles s slot) ≡ false)

given_lem :
    (slot : ℕ) (random : Option ℕ) (s : Slots)
    → slot ≤ 2
    → (found : Option DeviceProfile) → Given slot s found (profile_or_draw slot random s found)
unfolding profile_or_draw Given
given_lem slot random s h (some p) = refl
given_lem slot random s h none =
    let (p, e, free) = drawn_lem random (used_profiles s slot) (used_length s slot h) in
    (p, ap (keep_drawn slot s) e, not-true _ free)

-- For every slot number, every random byte and a random source that fails, and whatever the memory and the files hold: a request never crashes, a slot that has a profile keeps it, and a slot without one gets one that differs from those of both other slots.
pub persistent_device_profile_for_slot-Given :
    (n : ℤ) (random : Option ℕ) (s : Slots)
    → Given
        (clamp_slot n)
        s
        (slot_profile s (clamp_slot n))
        (persistent_device_profile_for_slot n random s)
unfolding persistent_device_profile_for_slot
persistent_device_profile_for_slot-Given n random s =
    given_lem (clamp_slot n) random s (clamp_slot_lem n) (slot_profile s (clamp_slot n))
