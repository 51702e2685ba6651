-- ===== src/Lines/Listing.antt =====
-- The lines that the picker shows, and their order.
use open_socks.Prelude.{
  ◌≡◌, refl, ap, ◌⊎◌, ◌↔◌, inl, inr, Bool, true, false, not, ◌&&◌, ◌||◌, Option, List, [], ◌∷◌,
  arith, if◌then◌else◌, Bool-cases, filter, All, Bytes, ℤ, pos, negsuc, is_pos, lt_ℤ,
}
use mathlib.Core.List.{Perm}
use mathlib.Core.List.Perm
use open_socks.Lines.{
  Line, Account, PickerSettings, active_vip, listed, before, insert_line, sort_lines, list_lines,
  not_empty, line_matches_region, matches_any_region,
}

-- No line is before one that stands in front of it.
abbrev IsSorted : List Line → Type 0
IsSorted [] = Unit
IsSorted (l ∷ ls) = All (λ m. before m l ≡ false) ls × IsSorted ls

-- A free line in front of a paid one, or two lines of one kind by their ids.
abbrev pub InOrder : Line → Line → Type 0
InOrder l m =
    ((l.is_free ≡ true) × (m.is_free ≡ false))
    ⊎ ((l.is_free ≡ m.is_free) × (lt_ℤ m.id l.id ≡ false))

-- Each line is in order with all behind it.
abbrev pub AreOrdered : List Line → Type 0
AreOrdered [] = Unit
AreOrdered (l ∷ ls) = All (InOrder l) ls × AreOrdered ls

kinds_cases :
    (p q lt : Bool)
    → (if (p && not q) || (not p && q) then p else lt) ≡ false
    → ((q ≡ true) × (p ≡ false)) ⊎ ((q ≡ p) × (lt ≡ false))
kinds_cases true true lt h = inr (refl, h)
kinds_cases true false lt h = absurd (ground (arith, h))
kinds_cases false true lt h = inl (refl, refl)
kinds_cases false false lt h = inr (refl, h)

All-InOrder : (l : Line) (ms : List Line) → All (λ m. before m l ≡ false) ms → All (InOrder l) ms
All-InOrder l [] h = tt
All-InOrder l (m ∷ ms) (h, k) =
    (kinds_cases m.is_free l.is_free (lt_ℤ m.id l.id) h, All-InOrder l ms k)

IsSorted-AreOrdered : (ls : List Line) → IsSorted ls → AreOrdered ls
IsSorted-AreOrdered [] h = tt
IsSorted-AreOrdered (l ∷ ls) (h, k) = (All-InOrder l ls h, IsSorted-AreOrdered ls k)

lt_trans' : (a b c : ℤ) → lt_ℤ b a ≡ false → lt_ℤ c b ≡ false → lt_ℤ c a ≡ false
lt_trans' (pos a) (pos b) (pos c) h k = ground arith
lt_trans' (pos a) (pos b) (negsuc c) h k = ground arith
lt_trans' (pos a) (negsuc b) c h k = ground arith
lt_trans' (negsuc a) (pos b) (pos c) h k = ground arith
lt_trans' (negsuc a) (pos b) (negsuc c) h k = ground arith
lt_trans' (negsuc a) (negsuc b) (pos c) h k = ground arith
lt_trans' (negsuc a) (negsuc b) (negsuc c) h k = ground arith

lt_asym : (a b : ℤ) → lt_ℤ a b ≡ true → lt_ℤ b a ≡ false
lt_asym (pos a) (pos b) h = ground arith
lt_asym (pos a) (negsuc b) h = ground arith
lt_asym (negsuc a) (pos b) h = ground arith
lt_asym (negsuc a) (negsuc b) h = ground arith

before_trans : (a b c : Line) → before b a ≡ false → before c b ≡ false → before c a ≡ false
before_trans a b c h k = ground (arith, lt_trans' a.id b.id c.id)

before_asym : (a b : Line) → before a b ≡ true → before b a ≡ false
before_asym a b h = ground (arith, lt_asym a.id b.id)

All-trans :
    (l m : Line) (ms : List Line)
    → before m l ≡ false
    → All (λ x. before x m ≡ false) ms
    → All (λ x. before x l ≡ false) ms
All-trans l m [] h k = tt
All-trans l m (x ∷ ms) h k = (before_trans l m x h k.0, All-trans l m ms h k.1)

All-insert :
    (a l : Line) (ms : List Line)
    → before l a ≡ false
    → All (λ x. before x a ≡ false) ms
    → All (λ x. before x a ≡ false) (insert_line l ms)
unfolding insert_line
All-insert a l [] h k = (h, tt)
All-insert a l (m ∷ ms) h k = elim (Bool-cases (before m l)) [
  | inl e ↦ rw e (k.0, All-insert a l ms h k.1)
  | inr e ↦ rw e (h, k)
]

insert_line-IsSorted : (l : Line) (ms : List Line) → IsSorted ms → IsSorted (insert_line l ms)
unfolding insert_line
insert_line-IsSorted l [] h = (tt, tt)
insert_line-IsSorted l (m ∷ ms) h = elim (Bool-cases (before m l)) [
  | inl e ↦ rw e (All-insert m l ms (before_asym m l e) h.0, insert_line-IsSorted l ms h.1)
  | inr e ↦ rw e ((e, All-trans l m ms e h.0), h)
]

insert_line-perm : (l : Line) (ms : List Line) → Perm (insert_line l ms) (l ∷ ms)
unfolding insert_line
insert_line-perm l [] = Perm.refl _
insert_line-perm l (m ∷ ms) = elim (Bool-cases (before m l)) [
  | inl e ↦ rw e (Perm.trans (Perm.cons m (insert_line-perm l ms)) (Perm.swap l m ms))
  | inr e ↦ rw e (Perm.refl _)
]

sort_lines_lem : (ls : List Line) → IsSorted (sort_lines ls) × Perm (sort_lines ls) ls
unfolding sort_lines
sort_lines_lem [] = (tt, Perm.refl _)
sort_lines_lem (l ∷ ls) =
    let (s, p) = sort_lines_lem ls in
    (
      insert_line-IsSorted l (sort_lines ls) s,
      Perm.trans (insert_line-perm l (sort_lines ls)) (Perm.cons l p),
    )

-- What a line must be to be shown.
abbrev pub Shown : Bool → PickerSettings → Line → Type 0
Shown vip cfg l =
    (is_pos l.id ≡ true)
    × ((vip ≡ false) ⊎ (l.is_free ≡ false))
    × ((vip ≡ true) ⊎ ((cfg.free_only ≡ false) ⊎ (l.is_free ≡ true)))
    × ((cfg.region ≡ []) ⊎ (line_matches_region l cfg.region ≡ true))
    × (matches_any_region l cfg.exclude_regions ≡ false)

-- The chain of tests over any answers.
gates_iff :
    (p v f o n m x : Bool)
    → ((if not p
          then false
          else if v && f
          then false
          else if not v && o && not f
          then false
          else if n && not m
          then false
          else not x)
        ≡ true)
      ↔ ((p ≡ true)
          × ((v ≡ false) ⊎ (f ≡ false))
          × ((v ≡ true) ⊎ ((o ≡ false) ⊎ (f ≡ true)))
          × ((n ≡ false) ⊎ (m ≡ true))
          × (x ≡ false))
gates_iff p v f o n m x = (
  λ h. (ground arith, ground arith, ground arith, ground arith, ground arith),
  λ (a, b, c, d, e). ground arith,
)

empty_region : (s : Bytes) {P : Type 0} → (not_empty s ≡ false) ⊎ P → (s ≡ []) ⊎ P
empty_region [] h = inl refl
empty_region (c ∷ s) (inl e) = absurd (ground (arith, e))
empty_region (c ∷ s) (inr p) = inr p

region_empty : (s : Bytes) {P : Type 0} → (s ≡ []) ⊎ P → (not_empty s ≡ false) ⊎ P
region_empty s (inl e) = inl (ap not_empty e)
region_empty s (inr p) = inr p

listed_iff :
    (vip : Bool) (cfg : PickerSettings) (l : Line) → (listed vip cfg l ≡ true) ↔ Shown vip cfg l
unfolding listed
listed_iff vip cfg l =
    let g =
      gates_iff (is_pos l.id) vip l.is_free cfg.free_only (not_empty cfg.region)
        (line_matches_region l cfg.region) (matches_any_region l cfg.exclude_regions) in
    (
      λ h. let (a, b, c, d, e) = g.0 h in (a, b, c, empty_region cfg.region d, e),
      λ (a, b, c, d, e). g.1 (a, b, c, region_empty cfg.region d, e),
    )

-- The picker's list holds the lines of the directory that pass its tests, each as often as the directory has it, free lines first and by id within each kind. A line passes the tests exactly when its id is positive, it is not a free line shown to a subscriber nor a paid one to a guest in free-only mode, it lies in the region if one is set, and it lies in no excluded region.
pub list_lines-AreOrdered :
    (acc : Option Account) (cfg : PickerSettings) (lines : List Line) (l : Line)
    → AreOrdered (list_lines acc cfg lines)
      × Perm (list_lines acc cfg lines) (filter (listed (active_vip acc) cfg) lines)
      × ((listed (active_vip acc) cfg l ≡ true) ↔ Shown (active_vip acc) cfg l)
unfolding list_lines
list_lines-AreOrdered acc cfg lines l =
    let (s, p) = sort_lines_lem (filter (listed (active_vip acc) cfg) lines) in
    (
      IsSorted-AreOrdered (sort_lines (filter (listed (active_vip acc) cfg) lines)) s,
      p,
      listed_iff (active_vip acc) cfg l,
    )
