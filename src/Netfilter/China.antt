-- ===== src/Netfilter/China.antt =====
-- The list of Chinese addresses, loadChinaRoutes of openwrt/opensocks/src/netfilter.go. The digest and the
-- parser of ranges are `digest` and `is_cidr`; a file is its bytes, `none` where it cannot be read.
use open_socks.Prelude.{
  ℕ, ◌*◌, ◌^◌, ◌≤◌, ◌≡◌, refl, inl, inr, Bool, false, not, Option, none, some, List, [], ◌∷◌, arith,
  ltb, if◌then◌else◌, Bool-cases, length, filter, Bytes, bytes_eq, bytes_eq_iff, Result, ok, err,
}
use open_socks.Lines.{extend, not_empty}
use open_socks.Settings.{is_space}

pub data ChinaError : Type 0 where
  download_failed digest_mismatch list_empty : ChinaError

-- What the request gives, `none` for an error or another status than 200, and whether the file can be
-- written.
pub record Download : Type 0 where
  pub answer : Option Bytes
  pub writable : Bool

-- strings.Fields on ASCII.
unfoldable pub raw_words : Bytes → List Bytes
raw_words [] = [] ∷ []
raw_words (c ∷ s) = let rest = raw_words s in if is_space c then [] ∷ rest else extend c rest

unfoldable pub words : Bytes → List Bytes
unfolding raw_words
words s = filter not_empty (raw_words s)

abbrev pub max_download_size : ℕ
max_download_size = 16 * 2 ^ 20

-- download, to a path where no file is; the result is the file.
abbrev pub saved : Bytes → Bool → Option Bytes
saved body writable =
    if not writable then none else if ltb max_download_size (length body) then none else some body

unfoldable pub download : Download → Option Bytes
download d = elim d.answer [ none ↦ none | some body ↦ saved body d.writable ]

module _ (digest : Bytes → Bytes) (expected : Bytes) (is_cidr : Bytes → Bool) where
  -- verifiedFile
  unfoldable pub verified : Option Bytes → Bool
  unfolding bytes_eq
  verified none = false
  verified (some b) = bytes_eq (digest b) expected

  -- The file that the call goes on with.
  unfoldable pub fetched : Download → Option Bytes → Option Bytes
  unfolding verified download
  fetched d f = if verified f then f else download d

  abbrev pub with_ranges : Bytes → List Bytes → Result ChinaError (List Bytes) × Option Bytes
  with_ranges b [] = (err list_empty, some b)
  with_ranges b (c ∷ cs) = (ok (c ∷ cs), some b)

  unfoldable pub check_file : Option Bytes → Result ChinaError (List Bytes) × Option Bytes
  unfolding words bytes_eq
  check_file none = (err download_failed, none)
  check_file (some b) =
      if bytes_eq (digest b) expected
      then with_ranges b (filter is_cidr (words b))
      else (err digest_mismatch, none)

  -- The result and the file afterwards.
  unfoldable pub load_china_routes :
      Download → Option Bytes → Result ChinaError (List Bytes) × Option Bytes
  unfolding fetched check_file
  load_china_routes d f = check_file (fetched d f)

  -- The ranges of a file with the pinned digest, at least one; or an error and no other file than such a one.
  unfoldable pub Verified : Result ChinaError (List Bytes) × Option Bytes → Type 0
  Verified (ok cidrs, f) =
      (b : Bytes) × (f ≡ some b)
      × (digest b ≡ expected)
      × (cidrs ≡ filter is_cidr (words b))
      × (1 ≤ length cidrs)
  Verified (err e, none) = Unit {0}
  Verified (err e, some b) = digest b ≡ expected

  ranges-Verified :
      (b : Bytes) (cs : List Bytes)
      → cs ≡ filter is_cidr (words b)
      → digest b ≡ expected
      → Verified (with_ranges b cs)
  unfolding Verified
  ranges-Verified b [] e h = h
  ranges-Verified b (c ∷ cs) e h = (b, refl, h, e, omega arith)

  check_file-Verified : (f : Option Bytes) → Verified (check_file f)
  unfolding check_file Verified
  check_file-Verified none = tt
  check_file-Verified (some b) = elim (Bool-cases (bytes_eq (digest b) expected)) [
    | inl e ↦
        rw e (
          ranges-Verified b (filter is_cidr (words b)) refl
            ((bytes_eq_iff (digest b) expected).0 e))
    | inr e ↦ rw e tt
  ]

  -- Whatever file was there and whatever the download gives: the routes that loadChinaRoutes gives are the ranges of a file with the pinned digest, at least one, and that file is in place; after an error no file with another digest is in place.
  pub load_china_routes-Verified :
      (d : Download) (f : Option Bytes) → Verified (load_china_routes d f)
  unfolding load_china_routes
  load_china_routes-Verified d f = check_file-Verified (fetched d f)
