-- ===== src/Dns/Name.antt =====
-- `dnsName` of openwrt/opensocks/src/dns_observer.go: a name in a DNS message, with compression.
pub mod Safety
pub mod RoundTrip
use open_socks.Prelude.{
  ◌>>=◌, ℕ, zero, suc, ◌+◌, ◌*◌, bit_and, bit_or, ◌≡◌, refl, ◌||◌, Option, none, some, List, [],
  ◌∷◌, ◌++◌, ltb, leb, ◌==◌, if◌then◌else◌, length, take, drop, get_elem?, Bytes, Run, done, crash,
}

-- `b[i]`, which panics out of range.
unfoldable pub at : Bytes → ℕ → Run ℕ
at b i = elim (get_elem? b i) [ none ↦ crash | some v ↦ done v ]

-- `b[i:j]` for `i ≤ j`, which panics when `j` is out of range.
unfoldable pub slice : Bytes → ℕ → ℕ → Run Bytes
slice b i n = if ltb (length b) (i + n) then crash else done (take n (drop i b))

-- strings.Join(parts, ".")
unfoldable pub join : List Bytes → Bytes
join [] = []
join (p ∷ []) = p
join (p ∷ q ∷ ps) = p ++ (b'.' ∷ join (q ∷ ps))

abbrev pub Parsed : Type 0
Parsed = Option (Bytes × ℕ)

-- The branch on a compression pointer: the rest of the name stands where it points.
unfoldable pub follow : (ℕ → Run Parsed) → Bytes → ℕ → ℕ → List Bytes → Run Parsed
follow jump msg l off parts = if leb (length msg) (off + 1) then done none else do
  b ← at msg (off + 1)
  found ← jump (bit_or (bit_and l 0x3f * 256) b)
  done (elim found [ none ↦ none | some (s, _) ↦ some (join (parts ++ s ∷ []), off + 2) ])

-- One round of the loop on the length byte `l`; `next` goes on behind a label of length `l`.
unfoldable pub round : (ℕ → Run Parsed) → (ℕ → Run Parsed) → Bytes → ℕ → ℕ → List Bytes → Run Parsed
unfolding follow
round jump next msg l off parts =
    if bit_and l 0xc0 == 0xc0
    then follow jump msg l off parts
    else if l == 0
    then done (some (join parts, off + 1))
    else if ltb 63 l || ltb (length msg) (off + 1 + l)
    then done none
    else next l

-- The loop over the labels. `jump` is the recursive call one level deeper.
unfoldable pub labels : (ℕ → Run Parsed) → Bytes → ℕ → ℕ → List Bytes → Run Parsed
unfolding at slice round
labels jump msg zero off parts = crash
labels jump msg (suc fuel) off parts =
    let next = λ (l : ℕ). (do
      part ← slice msg (off + 1) l
      labels jump msg fuel (off + 1 + l) (parts ++ part ∷ [])) in
    if leb (length msg) off then done none else do l ← at msg off; round jump next msg l off parts

-- `levels` is 9 less the depth: a name deeper than 8 pointers is refused. `none` is `ok == false`,
-- whose other results every caller ignores. Each round of the loop reads at least one byte.
unfoldable pub dns_name : ℕ → Bytes → ℕ → Run Parsed
dns_name zero msg off = done none
dns_name (suc levels) msg off =
    if leb (length msg) off
    then done none
    else labels (dns_name levels msg) msg (suc (length msg)) off []

abbrev pub top : ℕ
top = 9

plain :
    dns_name top (3 ∷ 119 ∷ 119 ∷ 119 ∷ 2 ∷ 99 ∷ 110 ∷ 0 ∷ 7 ∷ []) 0
    ≡ done (some (119 ∷ 119 ∷ 119 ∷ 46 ∷ 99 ∷ 110 ∷ [], 8))
unfolding dns_name labels join
plain = refl

loops : dns_name top (0xc0 ∷ 0 ∷ []) 0 ≡ done none
unfolding dns_name labels
loops = refl
