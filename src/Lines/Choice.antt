-- ===== src/Lines/Choice.antt =====
-- What `pickLine` chooses.
use open_socks.Prelude.{
  ◌≡◌, refl, ◌⊎◌, inl, inr, Bool, true, false, Option, none, some, List, [], ◌∷◌, Bool-cases, find?,
  All,
}
use mathlib.Core.List.{Memᴰ}
use open_socks.Lines.{Line}

pub find_cases {ℓ} :
    {A : Type ℓ} (p : A → Bool) (xs : List A)
    → ((find? p xs ≡ none) × All (λ x. p x ≡ false) xs)
      ⊎ ((x : A) × (find? p xs ≡ some x) × (p x ≡ true) × Memᴰ x xs)
find_cases p [] = inl (refl, tt)
find_cases p (x ∷ xs) = elim (Bool-cases (p x)) [
  | inl yes' ↦ inr (x, rw yes', yes', Memᴰ.head refl)
  | inr no' ↦ elim (find_cases p xs) [
    | inl (e, none_there) ↦ inl (rw no' e, (no', none_there))
    | inr (y, e, good, m) ↦ inr (y, rw no' e, good, Memᴰ.tail m)
  ]
]

-- Some listed line, or none on an empty directory.
abbrev pub AnyOf : List Line → Option Line → Type 0
AnyOf lines o = ((l : Line) × (o ≡ some l) × Memᴰ l lines) ⊎ ((lines ≡ []) × (o ≡ none))
