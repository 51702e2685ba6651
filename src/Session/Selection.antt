-- ===== src/Session/Selection.antt =====
-- The order of the server blocks and the choice among them.
use open_socks.Prelude.{
  ◌≡◌, refl, ap, ◌∙◌, ◌≢◌, ◌⊎◌, inl, inr, true, false, Option, none, some, List, [], ◌∷◌, arith,
  Bool-cases, find?, All, bytes_eq_iff, is_pos,
}
use mathlib.Core.List.{Memᴰ}
use open_socks.Session.Boots.{
  BootsInfo, ConnectConfig, ConnectResponse, Field, ss, ssw, gts, trojan, block, declared,
  rest_fields, add_boot, add_rest, order_from, ordered_boots, usable, all_configs, first_usable,
  selected_boot,
}

-- The same blocks in another order.
pub data Rearranged : List BootsInfo → List BootsInfo → Type 0 where
  kept : (l : List BootsInfo) → Rearranged l l
  under : (b : BootsInfo) {l m : List BootsInfo} → Rearranged l m → Rearranged (b ∷ l) (b ∷ m)
  exchanged : (a b : BootsInfo) (l : List BootsInfo) → Rearranged (a ∷ b ∷ l) (b ∷ a ∷ l)
  chained : {l m n : List BootsInfo} → Rearranged l m → Rearranged m n → Rearranged l n

under_boot :
    (o : Option BootsInfo) {l m : List BootsInfo}
    → Rearranged l m
    → Rearranged (add_boot o l) (add_boot o m)
under_boot none p = p
under_boot (some b) p = under b p

exchanged_boots :
    (a b : Option BootsInfo) (l : List BootsInfo)
    → Rearranged (add_boot a (add_boot b l)) (add_boot b (add_boot a l))
exchanged_boots none b l = kept _
exchanged_boots (some x) none l = kept _
exchanged_boots (some x) (some y) l = exchanged x y l

-- The blocks that the configuration holds, in the fixed order.
abbrev pub blocks : ConnectConfig → List BootsInfo
blocks c =
    add_boot c.ss_conf (add_boot c.ssw_conf (add_boot c.gts_conf (add_boot c.trojan_conf [])))

moved :
    (c : ConnectConfig) (f : Field)
    → Rearranged (add_boot (block c f) (add_rest c (some f) rest_fields)) (blocks c)
unfolding add_rest
moved c ss = kept _
moved c ssw = exchanged_boots c.ssw_conf c.ss_conf _
moved c gts =
    chained (exchanged_boots c.gts_conf c.ss_conf _)
      (under_boot c.ss_conf (exchanged_boots c.gts_conf c.ssw_conf _))
moved c trojan = chained (exchanged_boots c.trojan_conf c.ss_conf _) (
    under_boot c.ss_conf (
      chained (exchanged_boots c.trojan_conf c.ssw_conf _)
        (under_boot c.ssw_conf (exchanged_boots c.trojan_conf c.gts_conf _))))

fixed : (c : ConnectConfig) → add_rest c none rest_fields ≡ blocks c
unfolding add_rest
fixed c = refl

order_from-Rearranged :
    (c : ConnectConfig) (o : Option Field) → Rearranged (order_from c o) (blocks c)
unfolding order_from
order_from-Rearranged c none = rw (fixed c) (kept _)
order_from-Rearranged c (some f) = moved c f

order_from_first :
    (c : ConnectConfig) (f : Field) (b : BootsInfo)
    → block c f ≡ some b
    → order_from c (some f) ≡ b ∷ add_rest c (some f) rest_fields
unfolding order_from
order_from_first c f b e = rw e

-- orderedBoots lists every block that the configuration holds, each once, and puts the block of the declared protocol, if it is there, in front.
pub ordered_boots-Rearranged :
    (c : ConnectConfig)
    → Rearranged (ordered_boots c) (blocks c)
      × ((f : Field) (b : BootsInfo)
          → declared c.proto ≡ some f
          → block c f ≡ some b
          → (rest : List BootsInfo) × (ordered_boots c ≡ b ∷ rest))
unfolding ordered_boots
ordered_boots-Rearranged c = (
  order_from-Rearranged c (declared c.proto),
  λ f b e e'. (add_rest c (some f) rest_fields, ap (order_from c) e ∙ order_from_first c f b e'),
)

-- No block of the list is usable.
abbrev pub Unusable : List BootsInfo → Type 0
Unusable = All (λ b. usable b ≡ false)

abbrev pub NoneUsable : List (Option ConnectConfig) → Type 0
NoneUsable [] = Unit
NoneUsable (none ∷ cs) = NoneUsable cs
NoneUsable (some c ∷ cs) = Unusable (blocks c) × NoneUsable cs

-- The block is in one of the configurations.
abbrev pub Offered : BootsInfo → List (Option ConnectConfig) → Type 0
Offered b cs = (c : ConnectConfig) × Memᴰ (some c) cs × Memᴰ b (blocks c)

Rearranged-Unusable : {xs ys : List BootsInfo} → Rearranged xs ys → Unusable xs → Unusable ys
Rearranged-Unusable (kept l) h = h
Rearranged-Unusable (under b p) (h, t) = (h, Rearranged-Unusable p t)
Rearranged-Unusable (exchanged a b l) (h, (k, t)) = (k, (h, t))
Rearranged-Unusable (chained p q) h = Rearranged-Unusable q (Rearranged-Unusable p h)

Rearranged-Mem : {b : BootsInfo} {xs ys : List BootsInfo} → Rearranged xs ys → Memᴰ b xs → Memᴰ b ys
Rearranged-Mem (kept l) m = m
Rearranged-Mem (under x p) (Memᴰ.head h) = Memᴰ.head h
Rearranged-Mem (under x p) (Memᴰ.tail m) = Memᴰ.tail (Rearranged-Mem p m)
Rearranged-Mem (exchanged x y l) (Memᴰ.head h) = Memᴰ.tail (Memᴰ.head h)
Rearranged-Mem (exchanged x y l) (Memᴰ.tail (Memᴰ.head h)) = Memᴰ.head h
Rearranged-Mem (exchanged x y l) (Memᴰ.tail (Memᴰ.tail m)) = Memᴰ.tail (Memᴰ.tail m)
Rearranged-Mem (chained p q) m = Rearranged-Mem q (Rearranged-Mem p m)

found_or_none :
    (bs : List BootsInfo)
    → ((find? usable bs ≡ none) × Unusable bs)
      ⊎ ((b : BootsInfo) × (find? usable bs ≡ some b) × (usable b ≡ true) × Memᴰ b bs)
found_or_none [] = inl (refl, tt)
found_or_none (b ∷ bs) = elim (Bool-cases (usable b)) [
  | inl good ↦ inr (b, rw good, good, Memᴰ.head refl)
  | inr bad ↦ elim (found_or_none bs) [
    | inl (e, all) ↦ inl (rw bad e, (bad, all))
    | inr (x, e, good, m) ↦ inr (x, rw bad e, good, Memᴰ.tail m)
  ]
]

first_cases :
    (cs : List (Option ConnectConfig))
    → ((first_usable cs ≡ none) × NoneUsable cs)
      ⊎ ((b : BootsInfo) × (first_usable cs ≡ some b) × (usable b ≡ true) × Offered b cs)
unfolding first_usable
first_cases [] = inl (refl, tt)
first_cases (none ∷ cs) = elim (first_cases cs) [
  | inl q ↦ inl q
  | inr (b, e, good, (c, m, k)) ↦ inr (b, e, good, (c, Memᴰ.tail m, k))
]
first_cases (some c ∷ cs) = elim (found_or_none (ordered_boots c)) [
  | inr (b, e, good, m) ↦ inr (
    b,
    rw (e, first_usable),
    good,
    (c, Memᴰ.head refl, Rearranged-Mem (ordered_boots-Rearranged c).0 m),
  )
  | inl (e, none_here) ↦ elim (first_cases cs) [
    | inl (e', q) ↦
        inl (
          rw (e, first_usable) e',
          (Rearranged-Unusable (ordered_boots-Rearranged c).0 none_here, q),
        )
    | inr (b, e', good, (d, m, k)) ↦ inr (b, rw (e, first_usable) e', good, (d, Memᴰ.tail m, k))
  ]
]

-- selectedBoot gives no block exactly when no configuration of the response holds one with a server and a positive port; a block that it gives is such a one, and is one of the four blocks of a configuration of the response.
pub selected_boot_cases :
    (r : ConnectResponse)
    → ((selected_boot r ≡ none) × NoneUsable (all_configs r))
      ⊎ ((b : BootsInfo) × (selected_boot r ≡ some b)
          × (b.server ≢ [])
          × (is_pos b.port ≡ true)
          × Offered b (all_configs r))
unfolding selected_boot
selected_boot_cases r = elim (first_cases (all_configs r)) [
  | inl q ↦ inl q
  | inr (b, e, good, offered) ↦
      inr (b, e, (λ empty. ground (arith, bytes_eq_iff b.server [])), ground arith, offered)
]
