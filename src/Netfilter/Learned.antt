-- ===== src/Netfilter/Learned.antt =====
-- The destinations learned from DNS answers, openwrt/opensocks/src/netfilter.go: which elements
-- `addDynamicElements` hands to nft, and its record of when each was last handed over. Times are
-- seconds; the record is an association list in place of the Go map, whose order is not used.
use open_socks.Prelude.{
  ℕ, ◌-◌, ◌≤◌, ◌≡◌, refl, inl, inr, Bool, true, false, Option, none, some, List, [], ◌∷◌, ◌++◌,
  arith, ltb, if◌then◌else◌, Bool-cases, All, Bytes, bytes_eq,
}

-- set + "\x00" + value
abbrev pub element_key : Bytes → Bytes → Bytes
element_key set value = set ++ 0 ∷ value

abbrev pub Seen : Type 0
Seen = List (Bytes × ℕ)

-- The lookup in the map.
unfoldable pub last_seen : Bytes → Seen → Option ℕ
unfolding bytes_eq
last_seen key [] = none
last_seen key ((k, t) ∷ s) = let rest = last_seen key s in if bytes_eq k key then some t else rest

-- An assignment to the map.
unfoldable pub set_seen : Bytes → ℕ → Seen → Seen
unfolding bytes_eq
set_seen key now [] = (key, now) ∷ []
set_seen key now ((k, t) ∷ s) =
    let rest = set_seen key now s in if bytes_eq k key then (k, now) ∷ s else (k, t) ∷ rest

unfoldable pub remember_dynamic_elements : ℕ → Bytes → List Bytes → Seen → Seen
unfolding set_seen
remember_dynamic_elements now set [] s = s
remember_dynamic_elements now set (v ∷ vs) s =
    remember_dynamic_elements now set vs (set_seen (element_key set v) now s)

-- The entries of the last two hours.
unfoldable pub expire : ℕ → Seen → Seen
expire now [] = []
expire now ((k, t) ∷ s) =
    let rest = expire now s in if ltb 7200 (now - t) then rest else (k, t) ∷ rest

-- Not handed to nft within 31 minutes.
abbrev pub is_due : ℕ → Option ℕ → Bool
is_due now none = true
is_due now (some t) = ltb 1860 (now - t)

unfoldable pub pending_values : ℕ → Bytes → List Bytes → Seen → List Bytes
unfolding last_seen
pending_values now set [] s = []
pending_values now set (v ∷ vs) s =
    let rest = pending_values now set vs s in
    if is_due now (last_seen (element_key set v) s) then v ∷ rest else rest

unfoldable pub pending : ℕ → List (Bytes × List Bytes) → Seen → List (Bytes × List Bytes)
unfolding pending_values
pending now [] s = []
pending now ((set, vs) ∷ sets) s =
    let rest = pending now sets s in
    elim (pending_values now set vs s) [ [] ↦ rest | w ∷ ws ↦ (set, w ∷ ws) ∷ rest ]

unfoldable pub remember_all : ℕ → List (Bytes × List Bytes) → Seen → Seen
unfolding remember_dynamic_elements
remember_all now [] s = s
remember_all now ((set, vs) ∷ sets) s =
    remember_all now sets (remember_dynamic_elements now set vs s)

-- The batch for nft and the record afterwards; `nft_works` is whether nft accepts the batch, which
-- is not sent when it is empty.
unfoldable pub add_dynamic_elements :
    ℕ → List (Bytes × List Bytes) → Bool → Seen → List (Bytes × List Bytes) × Seen
unfolding expire pending remember_all
add_dynamic_elements now sets nft_works s =
    let kept = expire now s in
    let batch = pending now sets kept in
    (batch, if nft_works then remember_all now batch kept else kept)

-- Every entry is at most two hours old.
unfoldable pub Bounded : ℕ → Seen → Type 0
Bounded now s = All (λ (e : Bytes × ℕ). now - e.1 ≤ 7200) s

expire-Bounded : (now : ℕ) (s : Seen) → Bounded now (expire now s)
unfolding expire Bounded
expire-Bounded now [] = tt
expire-Bounded now ((k, t) ∷ s) = elim (Bool-cases (ltb 7200 (now - t))) [
  | inl e ↦ rw e (expire-Bounded now s)
  | inr e ↦ rw e (ground arith, expire-Bounded now s)
]

set_seen-Bounded :
    (key : Bytes) (now : ℕ) (s : Seen) → Bounded now s → Bounded now (set_seen key now s)
unfolding set_seen Bounded
set_seen-Bounded key now [] h = (ground arith, tt)
set_seen-Bounded key now ((k, t) ∷ s) h = elim (Bool-cases (bytes_eq k key)) [
  | inl e ↦ rw e (ground arith, h.1)
  | inr e ↦ rw e (h.0, set_seen-Bounded key now s h.1)
]

remember-Bounded :
    (now : ℕ) (set : Bytes) (vs : List Bytes) (s : Seen)
    → Bounded now s
    → Bounded now (remember_dynamic_elements now set vs s)
unfolding remember_dynamic_elements
remember-Bounded now set [] s h = h
remember-Bounded now set (v ∷ vs) s h =
    remember-Bounded now set vs _ (set_seen-Bounded (element_key set v) now s h)

remember_all-Bounded :
    (now : ℕ) (sets : List (Bytes × List Bytes)) (s : Seen)
    → Bounded now s
    → Bounded now (remember_all now sets s)
unfolding remember_all
remember_all-Bounded now [] s h = h
remember_all-Bounded now ((set, vs) ∷ sets) s h =
    remember_all-Bounded now sets _ (remember-Bounded now set vs s h)

-- After every call, whether nft accepts the batch or not and however many elements are learned, every entry of the record is at most two hours old; and when nft refuses the batch, none of it is recorded.
pub add_dynamic_elements-Bounded :
    (now : ℕ) (sets : List (Bytes × List Bytes)) (nft_works : Bool) (s : Seen)
    → Bounded now (add_dynamic_elements now sets nft_works s).1
      × ((add_dynamic_elements now sets false s).1 ≡ expire now s)
unfolding add_dynamic_elements
add_dynamic_elements-Bounded now sets true s = (
  remember_all-Bounded now (pending now sets (expire now s)) (expire now s) (expire-Bounded now s),
  refl,
)
add_dynamic_elements-Bounded now sets false s = (expire-Bounded now s, refl)
