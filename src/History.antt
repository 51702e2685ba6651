-- ===== src/History.antt =====
-- The connection history of openwrt/opensocks/src/history.go, newest first. The entry's id and
-- time come from the clock and are arguments; `none` in place of the list is a file that cannot
-- be read, and `writable` is whether the new file can be put in place.
pub mod Order
use open_socks.Prelude.{
  Bool, true, false, Option, none, some, List, [], ◌∷◌, if◌then◌else◌, take, find?, Bytes, codes,
  bytes_eq, ℤ, pos,
}
use open_socks.Lines.{Line}
use open_socks.Session.Boots.{ConnectResponse, selected_boot}
use open_socks.Settings.Snapshot.{strip_prefix}

pub record ConnectionHistory : Type 0 where
  pub id : Bytes
  pub connected_at : Bytes
  pub line_id : ℤ
  pub line_name : Bytes
  pub location : Bytes
  pub category : Bytes
  pub protocol : Bytes
  pub server : Bytes
  pub port : ℤ

unfoldable pub first_nonempty : List Bytes → Bytes
first_nonempty [] = []
first_nonempty ([] ∷ vs) = first_nonempty vs
first_nonempty ((c ∷ v) ∷ vs) = c ∷ v

unfoldable pub trim_prefix : Bytes → Bytes → Bytes
trim_prefix prefix s = elim (strip_prefix prefix s) [ none ↦ s | some rest ↦ rest ]

unfoldable pub history_record : Bytes → Bytes → Line → ConnectResponse → ConnectionHistory
unfolding first_nonempty trim_prefix
history_record id now ln resp = record {
  id = id;
  connected_at = now;
  line_id = ln.id;
  line_name = first_nonempty (resp.line_name ∷ ln.name ∷ []);
  location = ln.location;
  category = ln.category;
  protocol = elim (selected_boot resp) [
    | none ↦ []
    | some b ↦
        first_nonempty (b.proto ∷ trim_prefix (codes "PROTO_") resp.proto_name ∷ codes "SS" ∷ [])
  ];
  server = elim (selected_boot resp) [ none ↦ [] | some b ↦ b.server ];
  port = elim (selected_boot resp) [ none ↦ pos 0 | some b ↦ b.port ];
}

-- The answer is whether the entry was recorded.
unfoldable pub append_history :
    Bytes
    → Bytes
    → Line
    → ConnectResponse
    → Bool
    → Option (List ConnectionHistory)
    → Bool × Option (List ConnectionHistory)
unfolding history_record
append_history id now ln resp writable none = (false, none)
append_history id now ln resp writable (some records) =
    if writable
    then (true, some (take 100 (history_record id now ln resp ∷ records)))
    else (false, some records)

-- An empty id asks for the newest entry.
unfoldable pub find_history : Bytes → Option (List ConnectionHistory) → Option ConnectionHistory
unfolding bytes_eq
find_history id none = none
find_history [] (some (r ∷ _)) = some r
find_history id (some records) = find? (λ r. bytes_eq r.id id) records
