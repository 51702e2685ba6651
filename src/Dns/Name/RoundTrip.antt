-- ===== src/Dns/Name/RoundTrip.antt =====
-- `dnsName` against the wire format of a name without compression.
use open_socks.Prelude.{
  ◌>>=◌, ℕ, zero, suc, ◌+◌, ◌≤◌, ◌<◌, bit_and, ◌≡◌, refl, sym, ap, ◌∙◌, true, false, not, some,
  List, [], ◌∷◌, ◌++◌, append-nil, append_assoc, arith, leb, ◌==◌, every_below, every_below_sound,
  length, drop, length-append, take_append, All, Bytes, Run, done,
}
use mathlib.Core.Path.{ap₂}
use open_socks.Dns.Name.{at, slice, round, labels, dns_name, Parsed, join}
use open_socks.Dns.Name.Safety.{slice-of_le}

-- A name on the wire: each label behind its length, and a zero byte at the end.
unfoldable pub encode : List Bytes → Bytes
encode [] = 0 ∷ []
encode (l ∷ ls) = length l ∷ (l ++ encode ls)

abbrev pub IsLabel : Bytes → Type 0
IsLabel l = (0 < length l) × (length l < 64)

no_pointer_table : every_below (λ l. not (bit_and l 0xc0 == 0xc0)) 64 ≡ true
unfolding every_below
no_pointer_table = refl

no_pointer : (l : ℕ) → l < 64 → (bit_and l 0xc0 == 0xc0) ≡ false
no_pointer l h =
    ground (arith, every_below_sound (λ l. not (bit_and l 0xc0 == 0xc0)) 64 no_pointer_table l h)

at_append : (pre : Bytes) (x : ℕ) (ys : Bytes) → at (pre ++ (x ∷ ys)) (length pre) ≡ done x
unfolding at
at_append [] x ys = refl
at_append (p ∷ pre) x ys = at_append pre x ys

drop_behind : (pre : Bytes) (x : ℕ) (ys : Bytes) → drop (length pre + 1) (pre ++ (x ∷ ys)) ≡ ys
drop_behind pre x ys = let e : length pre + 1 ≡ suc (length pre) = omega arith in rw e (go pre)
  where
    go : (pre : Bytes) → drop (suc (length pre)) (pre ++ (x ∷ ys)) ≡ ys
    go [] = refl
    go (p ∷ pre) = go pre

slice_behind :
    (pre : Bytes) (x : ℕ) (l rest : Bytes)
    → slice (pre ++ (x ∷ (l ++ rest))) (length pre + 1) (length l) ≡ done l
slice_behind pre x l rest =
    rw
      (slice-of_le (pre ++ (x ∷ (l ++ rest))) (length pre + 1) (length l)
        (omega (arith, length-append pre (x ∷ (l ++ rest)), length-append l rest)))
      (rw drop_behind (rw take_append))

inside : (pre : Bytes) (x : ℕ) (ys : Bytes) → leb (length (pre ++ (x ∷ ys))) (length pre) ≡ false
inside pre x ys = ground (arith, length-append pre (x ∷ ys))

round_label :
    (jump next : ℕ → Run Parsed) (msg : Bytes) (l off : ℕ) (parts : List Bytes)
    → 0 < l
    → l < 64
    → off + 1 + l ≤ length msg
    → round jump next msg l off parts ≡ next l
unfolding round
round_label jump next msg l off parts p q r = rw (no_pointer l q) (ground arith)

regroup : (pre l rest : Bytes) (x : ℕ) → pre ++ (x ∷ (l ++ rest)) ≡ (pre ++ (x ∷ l)) ++ rest
regroup [] l rest x = refl
regroup (p ∷ pre) l rest x = ap (λ t. p ∷ t) (regroup pre l rest x)

parts_behind : (parts ls : List Bytes) (l : Bytes) → parts ++ (l ∷ ls) ≡ (parts ++ (l ∷ [])) ++ ls
parts_behind [] ls l = refl
parts_behind (p ∷ parts) ls l = ap (λ t. p ∷ t) (parts_behind parts ls l)

labels_label :
    (jump : ℕ → Run Parsed) (msg : Bytes) (fuel off : ℕ) (parts : List Bytes) (part : Bytes)
    → leb (length msg) off ≡ false
    → at msg off ≡ done (length part)
    → IsLabel part
    → off + 1 + length part ≤ length msg
    → slice msg (off + 1) (length part) ≡ done part
    → labels jump msg (suc fuel) off parts
      ≡ labels jump msg fuel (off + 1 + length part) (parts ++ part ∷ [])
unfolding labels
labels_label jump msg fuel off parts part here read good fits cut =
    let next : ℕ → Run Parsed =
      λ n. (do p ← slice msg (off + 1) n; labels jump msg fuel (off + 1 + n) (parts ++ p ∷ [])) in
    rw here
      (rw read (round_label jump next msg (length part) off parts good.0 good.1 fits ∙ rw cut))

labels_end :
    (jump : ℕ → Run Parsed) (msg : Bytes) (fuel off : ℕ) (parts : List Bytes)
    → leb (length msg) off ≡ false
    → at msg off ≡ done 0
    → labels jump msg (suc fuel) off parts ≡ done (some (join parts, off + 1))
unfolding labels round
labels_end jump msg fuel off parts here read = rw here (rw read)

pub labels-encode :
    (jump : ℕ → Run Parsed) (ls : List Bytes) (msg pre post : Bytes) (fuel off : ℕ)
    (parts : List Bytes)
    → msg ≡ pre ++ (encode ls ++ post)
    → off ≡ length pre
    → All IsLabel ls
    → length ls < fuel
    → labels jump msg fuel off parts ≡ done (some (join (parts ++ ls), off + length (encode ls)))
unfolding encode
labels-encode jump ls msg pre post zero off parts e e' good room = absurd (omega arith)
labels-encode jump [] msg pre post (suc fuel) off parts e e' good room =
    rw
      (labels_end jump msg fuel off parts (rw (e, e') (inside pre 0 post))
        (rw (e, e') (at_append pre 0 post)))
      (rw append-nil)
labels-encode jump (l ∷ ls) msg pre post (suc fuel) off parts e e' good room =
    let whole : msg ≡ pre ++ (length l ∷ (l ++ (encode ls ++ post))) =
      e ∙ ap (λ t. pre ++ (length l ∷ t)) (append_assoc l (encode ls) post) in
    let fits : off + 1 + length l ≤ length msg =
      rw (whole, e')
        (omega (
          arith,
          length-append pre (length l ∷ (l ++ (encode ls ++ post))),
          length-append l (encode ls ++ post),
        )) in
    let first : labels jump msg (suc fuel) off parts
        ≡ labels jump msg fuel (off + 1 + length l) (parts ++ l ∷ []) =
      labels_label jump msg fuel off parts l (rw (whole, e') (inside pre (length l) _))
        (rw (whole, e') (at_append pre (length l) _)) good.0 fits
        (rw (whole, e') (slice_behind pre (length l) l (encode ls ++ post))) in
    let rest : labels jump msg fuel (off + 1 + length l) (parts ++ l ∷ [])
        ≡ done (some (join ((parts ++ l ∷ []) ++ ls), off + 1 + length l + length (encode ls))) =
      labels-encode jump ls msg (pre ++ (length l ∷ l)) post fuel (off + 1 + length l)
        (parts ++ l ∷ []) (whole ∙ regroup pre l (encode ls ++ post) (length l))
        (omega (arith, length-append pre (length l ∷ l))) good.1 (omega arith) in
    first
    ∙ rest
    ∙ ap₂ (λ (ps : List Bytes) (n : ℕ). done (some (join ps, n))) (sym (parts_behind parts ls l))
        (omega (arith, length-append l (encode ls)))

length-encode-le : (ls : List Bytes) → length ls < length (encode ls)
unfolding encode
length-encode-le [] = omega arith
length-encode-le (l ∷ ls) = omega (arith, length-encode-le ls, length-append l (encode ls))

-- Wherever a name of labels of 1 to 63 bytes stands on the wire, at any depth of pointers up to 8, dnsName gives its labels joined by dots and the offset right behind it.
pub dns_name-encode :
    (depth : ℕ) (ls : List Bytes) (pre post : Bytes)
    → All IsLabel ls
    → dns_name (suc depth) (pre ++ (encode ls ++ post)) (length pre)
      ≡ done (some (join ls, length pre + length (encode ls)))
unfolding dns_name
dns_name-encode depth ls pre post good =
    let total : length (pre ++ (encode ls ++ post))
        ≡ length pre + (length (encode ls) + length post) =
      length-append pre (encode ls ++ post)
      ∙ ap (λ n. length pre + n) (length-append (encode ls) post) in
    let here : leb (length (pre ++ (encode ls ++ post))) (length pre) ≡ false =
      ground (arith, total, length-encode-le ls) in
    rw here (
      labels-encode (dns_name depth (pre ++ (encode ls ++ post))) ls _ pre post
        (suc (length (pre ++ (encode ls ++ post)))) (length pre) [] refl refl good
        (omega (arith, total, length-encode-le ls)))
