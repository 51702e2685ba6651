-- ===== src/Settings/Snapshot.antt =====
-- `uciSnapshot` of openwrt/opensocks/src/uci.go: the options in the output of `uci show`, and what
-- `uci` writes of an option: its value in single quotes, each quote inside as '\''.
use open_socks.Prelude.{
  ℕ, suc, ◌-◌, ◌≡◌, refl, sym, ap, ◌∙◌, inl, inr, Bool, true, false, ◌&&◌, Option, none, some, List,
  [], ◌∷◌, ◌++◌, arith, leb, ◌==◌, if◌then◌else◌, ==_iff, Bool-cases, length, get_elem?, take, drop,
  length-append, take_append, any, All, Bytes, codes, bytes_eq,
}
use open_socks.Decimal.{IsOneLine}
use open_socks.Settings.{Values}

-- strings.ReplaceAll(value, "'\\''", "'"): an escaped quote is four bytes.
unfoldable pub unescape : Bytes → Bytes
unescape (a ∷ b ∷ c ∷ d ∷ s) = elim ((a == b'\'') && (b == b'\\') && (c == b'\'') && (d == b'\'')) [
  | true ↦ b'\'' ∷ unescape s
  | false ↦ a ∷ unescape (b ∷ c ∷ d ∷ s)
]
unescape s = s

-- The byte at an index is a quote.
quote_at : Bytes → ℕ → Bool
quote_at b i = elim (get_elem? b i) [ none ↦ false | some c ↦ c == b'\'' ]

unfoldable pub unquote : Bytes → Bytes
unfolding unescape quote_at
unquote value =
    if leb 2 (length value) && quote_at value 0 && quote_at value (length value - 1)
    then unescape (take (length value - 2) (drop 1 value))
    else value

-- bytes.SplitN(line, "=", 2), when it gives two parts.
unfoldable pub cut_equals : Bytes → Option (Bytes × Bytes)
cut_equals [] = none
cut_equals (c ∷ s) =
    let rest = cut_equals s in
    if c == b'=' then some ([], s) else elim rest [ none ↦ none | some (k, v) ↦ some (c ∷ k, v) ]

-- bytes.HasPrefix and strings.TrimPrefix in one.
unfoldable pub strip_prefix : Bytes → Bytes → Option Bytes
strip_prefix [] s = some s
strip_prefix (p ∷ ps) [] = none
strip_prefix (p ∷ ps) (c ∷ s) = let rest = strip_prefix ps s in if p == c then rest else none

abbrev pub uci_prefix : Bytes
uci_prefix = codes "opensocks.settings."

-- The option of a line, if it names one of the section.
unfoldable pub read_line : Bytes → Option (Bytes × Bytes)
unfolding cut_equals strip_prefix
read_line line = elim (cut_equals line) [
  | none ↦ none
  | some (name, value) ↦ elim (strip_prefix uci_prefix name) [
    | none ↦ none
    | some key ↦ some (key, unquote value)
  ]
]

-- bytes.Split(out, "\n")
unfoldable pub split_lines : Bytes → List Bytes
split_lines [] = [] ∷ []
split_lines (c ∷ s) = elim (split_lines s) [
  | [] ↦ []
  | l ∷ ls ↦ if c == b'\n' then [] ∷ (l ∷ ls) else (c ∷ l) ∷ ls
]

unfoldable pub insert_line : Values → Option (Bytes × Bytes) → Values
insert_line values none = values
insert_line values (some (key, value)) = λ k. if bytes_eq k key then value else values k

-- The loop; a later line of the same option wins.
unfoldable pub read_lines : Values → List Bytes → Values
unfolding read_line insert_line
read_lines values [] = values
read_lines values (l ∷ ls) = read_lines (insert_line values (read_line l)) ls

unfoldable pub uci_snapshot : Bytes → Values
unfolding read_lines split_lines
uci_snapshot out = read_lines (λ _. []) (split_lines out)

-- What `uci show` prints.
unfoldable pub escape : Bytes → Bytes
escape [] = []
escape (c ∷ s) = if c == b'\'' then b'\'' ∷ b'\\' ∷ b'\'' ∷ b'\'' ∷ escape s else c ∷ escape s

unfoldable pub show_line : Bytes → Bytes → Bytes
unfolding escape
show_line key value = uci_prefix ++ (key ++ (b'=' ∷ (b'\'' ∷ (escape value ++ (b'\'' ∷ [])))))

unescape_plain : (c : ℕ) (s : Bytes) → (c == b'\'') ≡ false → unescape (c ∷ s) ≡ c ∷ unescape s
unfolding unescape
unescape_plain c [] h = refl
unescape_plain c (x ∷ []) h = refl
unescape_plain c (x ∷ y ∷ []) h = refl
unescape_plain c (x ∷ y ∷ z ∷ s) h = ground arith

unescape_quote : (s : Bytes) → unescape (b'\'' ∷ b'\\' ∷ b'\'' ∷ b'\'' ∷ s) ≡ b'\'' ∷ unescape s
unfolding unescape
unescape_quote s = refl

unescape-escape : (v : Bytes) → unescape (escape v) ≡ v
unfolding escape
unescape-escape [] = empty
  where
    empty : unescape [] ≡ []
    empty = unfold unescape in refl
unescape-escape (c ∷ v) = elim (Bool-cases (c == b'\'')) [
  | inl e ↦ rw e (
      rw (unescape_quote (escape v))
        (rw (unescape-escape v) (ap (λ x. x ∷ v) (sym ((==_iff c b'\'').0 e)))))
  | inr e ↦ rw e (unescape_plain c (escape v) e ∙ ap (λ t. c ∷ t) (unescape-escape v))
]

quote_end : (v : Bytes) → quote_at (v ++ (b'\'' ∷ [])) (length v) ≡ true
unfolding quote_at
quote_end [] = refl
quote_end (c ∷ v) = quote_end v

unquote-quoted : (v : Bytes) → unquote (b'\'' ∷ (v ++ (b'\'' ∷ []))) ≡ unescape v
unfolding unquote
unquote-quoted v =
    let size : length (v ++ (b'\'' ∷ [])) ≡ suc (length v) =
      omega (arith, length-append v (b'\'' ∷ [])) in
    let last : suc (length (v ++ (b'\'' ∷ []))) - 1 ≡ suc (length v) = omega (arith, size) in
    let inner : suc (length (v ++ (b'\'' ∷ []))) - 2 ≡ length v = omega (arith, size) in
    let long : leb 2 (suc (length (v ++ (b'\'' ∷ [])))) ≡ true = ground (arith, size) in
    rw long (rw last (rw (quote_end v) (rw inner (rw take_append))))

abbrev pub NoEquals : Bytes → Type 0
NoEquals = All (λ c. (c == b'=') ≡ false)

cut_name : (k v : Bytes) → NoEquals k → cut_equals (k ++ (b'=' ∷ v)) ≡ some (k, v)
unfolding cut_equals
cut_name [] v h = refl
cut_name (c ∷ k) v h = rw (h.0, cut_name k v h.1)

strip_own : (p s : Bytes) → strip_prefix p (p ++ s) ≡ some s
unfolding strip_prefix
strip_own [] s = refl
strip_own (c ∷ p) s = ground (arith, strip_own p s)

cut_line :
    (p key value : Bytes)
    → NoEquals p
    → NoEquals key
    → cut_equals (p ++ (key ++ (b'=' ∷ value))) ≡ some (p ++ key, value)
unfolding cut_equals
cut_line [] key value hp hk = cut_name key value hk
cut_line (c ∷ p) key value hp hk = rw (hp.0, cut_line p key value hp.1 hk)

no_equals : (p : Bytes) → any (λ c. c == b'=') p ≡ false → NoEquals p
no_equals [] h = tt
no_equals (c ∷ p) h = (ground arith, no_equals p (ground arith))

prefix_plain : NoEquals uci_prefix
prefix_plain = no_equals uci_prefix refl

of_cut :
    (line name value key : Bytes)
    → cut_equals line ≡ some (name, value)
    → strip_prefix uci_prefix name ≡ some key
    → read_line line ≡ some (key, unquote value)
unfolding read_line
of_cut line name value key e e' = ground arith

read_line-show_line :
    (key value : Bytes) → NoEquals key → read_line (show_line key value) ≡ some (key, value)
unfolding show_line
read_line-show_line key value h =
    let quoted : Bytes = b'\'' ∷ (escape value ++ (b'\'' ∷ [])) in
    of_cut (show_line key value) (uci_prefix ++ key) quoted key
      (cut_line uci_prefix key quoted prefix_plain h) (strip_own uci_prefix key)
    ∙ ap (λ v. some (key, v)) (unquote-quoted (escape value) ∙ unescape-escape value)

-- What `uci show` prints of the section: a line for each option.
unfoldable pub uci_show : List (Bytes × Bytes) → Bytes
unfolding show_line
uci_show [] = []
uci_show ((key, value) ∷ es) = show_line key value ++ (b'\n' ∷ uci_show es)

-- The value of a key: that of the last option of this name, and `default` where there is none.
unfoldable pub value_of : Bytes → List (Bytes × Bytes) → Bytes → Bytes
unfolding bytes_eq
value_of default [] k = default
value_of default ((key, value) ∷ es) k = value_of (if bytes_eq k key then value else default) es k

-- A key that uci takes, and a value of one line.
abbrev pub IsPlain : Bytes × Bytes → Type 0
IsPlain (key, value) = NoEquals key × IsOneLine key × IsOneLine value

IsOneLine-append : (s t : Bytes) → IsOneLine s → IsOneLine t → IsOneLine (s ++ t)
IsOneLine-append [] t h k = k
IsOneLine-append (c ∷ s) t (h, hs) k = (h, IsOneLine-append s t hs k)

escape-IsOneLine : (s : Bytes) → IsOneLine s → IsOneLine (escape s)
unfolding escape
escape-IsOneLine [] h = tt
escape-IsOneLine (c ∷ s) (h, hs) = elim (Bool-cases (c == b'\'')) [
  | inl e ↦ rw e (refl, (refl, (refl, (refl, escape-IsOneLine s hs))))
  | inr e ↦ rw e (h, escape-IsOneLine s hs)
]

prefix-IsOneLine : IsOneLine uci_prefix
prefix-IsOneLine = (
  refl,
  (
    refl,
    (
      refl,
      (
        refl,
        (
          refl,
          (
            refl,
            (
              refl,
              (
                refl,
                (
                  refl,
                  (
                    refl,
                    (refl, (refl, (refl, (refl, (refl, (refl, (refl, (refl, (refl, tt))))))))),
                  ),
                ),
              ),
            ),
          ),
        ),
      ),
    ),
  ),
)

show_line-IsOneLine :
    (key value : Bytes) → IsOneLine key → IsOneLine value → IsOneLine (show_line key value)
unfolding show_line
show_line-IsOneLine key value h k = IsOneLine-append uci_prefix _ prefix-IsOneLine (
    IsOneLine-append key _ h
      (refl, (refl, IsOneLine-append (escape value) _ (escape-IsOneLine value k) (refl, tt))))

split-line :
    (l rest : Bytes)
    → IsOneLine l
    → (ls : Bytes × List Bytes) → split_lines rest ≡ ls.0 ∷ ls.1
    → split_lines (l ++ (b'\n' ∷ rest)) ≡ l ∷ split_lines rest
unfolding split_lines
split-line [] rest h (r, rs) e = rw e refl
split-line (c ∷ l) rest (h, hs) ls e = rw (split-line l rest hs ls e) (rw h refl)

split_some : (s : Bytes) → (l : Bytes) × (ls : List Bytes) × (split_lines s ≡ l ∷ ls)
unfolding split_lines
split_some [] = ([], [], refl)
split_some (c ∷ s) =
    let (l, ls, e) = split_some s in
    elim (Bool-cases (c == b'\n')) [
      | inl t ↦ ([], l ∷ ls, rw (e, t) refl)
      | inr t ↦ (c ∷ l, ls, rw (e, t) refl)
    ]

read_lines-show :
    (values : Values) (es : List (Bytes × Bytes)) (k : Bytes)
    → All IsPlain es
    → read_lines values (split_lines (uci_show es)) k ≡ value_of (values k) es k
unfolding read_lines uci_show value_of insert_line split_lines
read_lines-show values [] k h = refl
read_lines-show values ((key, value) ∷ es) k ((a, b, d), h) =
    let (l, ls, e) = split_some (uci_show es) in
    let line = show_line key value in
    let next = insert_line values (some (key, value)) in
    ap (λ x. read_lines values x k)
      (split-line line (uci_show es) (show_line-IsOneLine key value b d) (l, ls) e)
    ∙ ap (λ o. read_lines (insert_line values o) (split_lines (uci_show es)) k)
        (read_line-show_line key value a)
    ∙ read_lines-show next es k h

-- For options whose names hold no '=' and no line end and whose values hold no line end: uciSnapshot gives for every key the value of the last option of that name in what `uci show` prints, quotes and all other bytes included, and "" for a key that is not there.
pub uci_snapshot-uci_show :
    (es : List (Bytes × Bytes)) (k : Bytes)
    → All IsPlain es
    → uci_snapshot (uci_show es) k ≡ value_of [] es k
unfolding uci_snapshot
uci_snapshot-uci_show es k h = read_lines-show (λ _. []) es k h
