-- ===== src/History/Order.antt =====
-- What the history of openwrt/opensocks/src/history.go holds after a connection.
use open_socks.Prelude.{
  ℕ, zero, suc, ◌≤◌, ◌<◌, ◌≡◌, refl, ap, true, Option, none, some, List, [], ◌∷◌, arith,
  if◌then◌else◌, length, get_elem?, take, length-take, find?, Bytes, bytes_eq, bytes_eq_refl,
}
use open_socks.Lines.{Line}
use open_socks.Session.Boots.{ConnectResponse}
use open_socks.History.{ConnectionHistory, history_record, append_history, find_history}

get_elem?-take :
    (n i : ℕ) (rs : List ConnectionHistory) → i < n → get_elem? (take n rs) i ≡ get_elem? rs i
get_elem?-take zero i rs h = ground arith
get_elem?-take (suc n) i [] h = refl
get_elem?-take (suc n) zero (r ∷ rs) h = refl
get_elem?-take (suc n) (suc i) (r ∷ rs) h = get_elem?-take n i rs (omega arith)

-- The list of a readable file.
abbrev pub listed_or_none : Option (List ConnectionHistory) → List ConnectionHistory
listed_or_none none = []
listed_or_none (some rs) = rs

short : (rs : List ConnectionHistory) → suc (length (take 99 rs)) ≤ 100
short rs = omega (arith, length-take 99 rs)

-- With a file that can be read and written: the new entry is the newest, is what an empty id and its own id find, the 99 entries behind it are the newest ones from before in their order, and there are never more than a hundred.
pub find_history-append_history :
    (id now : Bytes) (ln : Line) (resp : ConnectResponse) (records : List ConnectionHistory)
    → let r = history_record id now ln resp in
      let (saved, after) = append_history id now ln resp true (some records) in
      (saved ≡ true)
      × (find_history [] after ≡ some r)
      × (find_history id after ≡ some r)
      × ((i : ℕ) → i < 99 → get_elem? (listed_or_none after) (suc i) ≡ get_elem? records i)
      × (length (listed_or_none after) ≤ 100)
unfolding append_history find_history history_record
find_history-append_history [] now ln resp records =
    (refl, refl, refl, λ i h. get_elem?-take 99 i records h, short records)
find_history-append_history (x ∷ id) now ln resp records = (
  refl,
  refl,
  ap
      (λ b.
        if b
        then some (history_record (x ∷ id) now ln resp)
        else find? (λ r. bytes_eq r.id (x ∷ id)) (take 99 records))
      (bytes_eq_refl (x ∷ id)),
  λ i h. get_elem?-take 99 i records h,
  short records,
)
