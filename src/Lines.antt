-- ===== src/Lines.antt =====
-- The server lines of openwrt/opensocks/src/controller.go: the picker's list (`listLines` in its
-- default order) and the choice for a connect call (`pickLine`). Regions are compared as ASCII text.
pub mod Choice
pub mod Listing
use open_socks.Prelude.{
  ℕ, ◌+◌, ◌≡◌, refl, Bool, true, false, not, ◌&&◌, ◌||◌, Option, none, some, List, [], ◌∷◌, ◌++◌,
  ◌==◌, if◌then◌else◌, length, any, filter, find?, Bytes, codes, ℤ, is_pos, eq_ℤ, lt_ℤ,
}
use open_socks.Decimal.{itoa}
use open_socks.Dns.Domains.{lower}

pub record Line : Type 0 where
  pub id : ℤ
  pub name : Bytes
  pub location : Bytes
  pub category : Bytes
  pub is_free : Bool

pub record Account : Type 0 where
  pub expired : Bool
  pub remaining_days : ℤ

unfoldable pub active_vip : Option Account → Bool
active_vip none = false
active_vip (some a) = not a.expired && is_pos a.remaining_days

abbrev pub is_separator : ℕ → Bool
is_separator c =
    (c == b',') || (c == b';') || (c == b'\n') || (c == b'\r') || (c == b' ') || (c == b'\t')

-- Puts a byte in front of the field that a list begins with.
abbrev pub extend : ℕ → List Bytes → List Bytes
extend c [] = (c ∷ []) ∷ []
extend c (f ∷ fs) = (c ∷ f) ∷ fs

-- The fields of the text; the first may still grow to the left, and is empty at a separator.
unfoldable pub raw_fields : Bytes → List Bytes
raw_fields [] = [] ∷ []
raw_fields (c ∷ s) = let rest = raw_fields s in if is_separator c then [] ∷ rest else extend c rest

abbrev pub not_empty : Bytes → Bool
not_empty [] = false
not_empty (_ ∷ _) = true

-- strings.FieldsFunc with the separators of the settings: the maximal runs of other bytes.
unfoldable pub split_config_values : Bytes → List Bytes
unfolding raw_fields
split_config_values value = filter not_empty (raw_fields value)

unfoldable pub starts : Bytes → Bytes → Bool
starts [] s = true
starts (p ∷ ps) [] = false
starts (p ∷ ps) (c ∷ s) = (p == c) && starts ps s

-- strings.Contains
unfoldable pub contains : Bytes → Bytes → Bool
unfolding starts
contains [] sub = starts sub []
contains (c ∷ s) sub = starts sub (c ∷ s) || contains s sub

unfoldable pub contains_fold : Bytes → Bytes → Bool
unfolding contains lower
contains_fold s sub = (length sub == 0) || contains (lower s) (lower sub)

unfoldable pub line_matches_region : Line → Bytes → Bool
unfolding contains_fold
line_matches_region l region =
    (contains_fold l.location region || contains_fold l.category region)
    || contains_fold l.name region

unfoldable pub matches_any_region : Line → Bytes → Bool
unfolding line_matches_region split_config_values
matches_any_region l values = any (line_matches_region l) (split_config_values values)

-- The settings that the picker reads.
pub record PickerSettings : Type 0 where
  pub free_only : Bool
  pub region : Bytes
  pub exclude_regions : Bytes

-- The `continue` tests of the loop, in their order; true keeps the line.
unfoldable pub listed : Bool → PickerSettings → Line → Bool
unfolding matches_any_region
listed vip cfg l =
    if not (is_pos l.id)
    then false
    else if vip && l.is_free
    then false
    else if not vip && cfg.free_only && not l.is_free
    then false
    else if not_empty cfg.region && not (line_matches_region l cfg.region)
    then false
    else not (matches_any_region l cfg.exclude_regions)

-- The order of the default sort.
abbrev pub before : Line → Line → Bool
before a b =
    if (a.is_free && not b.is_free) || (not a.is_free && b.is_free)
    then a.is_free
    else lt_ℤ a.id b.id

-- sort.SliceStable: an insertion in front of the first element that is not smaller.
unfoldable pub insert_line : Line → List Line → List Line
insert_line l [] = l ∷ []
insert_line l (m ∷ ms) =
    let rest = insert_line l ms in if before m l then m ∷ rest else l ∷ (m ∷ ms)

unfoldable pub sort_lines : List Line → List Line
unfolding insert_line
sort_lines [] = []
sort_lines (l ∷ ls) = insert_line l (sort_lines ls)

unfoldable pub list_lines : Option Account → PickerSettings → List Line → List Line
unfolding active_vip listed sort_lines
list_lines acc cfg lines = sort_lines (filter (listed (active_vip acc) cfg) lines)

abbrev pub named_line : ℤ → Line
named_line want = record {
  id = want;
  name = codes "Line " ++ itoa want;
  location = [];
  category = [];
  is_free = false;
}

-- `(preferVIP && !l.IsFree) || (!preferVIP && l.IsFree)`
abbrev pub preferred : Bool → Line → Bool
preferred vip l = (vip && not l.is_free) || (not vip && l.is_free)

-- `none` is the error "no server is currently available".
unfoldable pub pick_line : Option Account → List Line → ℤ → Option Line
unfolding active_vip
pick_line acc lines want =
    if is_pos want
    then elim (find? (λ l. eq_ℤ l.id want) lines) [
      | none ↦ some (named_line want)
      | some l ↦ some l
    ]
    else elim (find? (preferred (active_vip acc)) lines) [
      | some l ↦ some l
      | none ↦ elim lines [ [] ↦ none | l ∷ _ ↦ some l ]
    ]

fields : split_config_values (codes " a.com,; b.com ") ≡ codes "a.com" ∷ codes "b.com" ∷ []
unfolding split_config_values
fields = refl
