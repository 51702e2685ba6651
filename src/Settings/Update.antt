-- ===== src/Settings/Update.antt =====
-- The POST branch of `handleSettings` in openwrt/opensocks/src/server.go, with `saveSettings` of
-- openwrt/opensocks/src/uci.go: what the request writes. A Go map is
-- a function into options. An absent JSON pointer is `none`; `uci set` is taken to work.
pub mod OneLine
pub mod RoundTrip
use open_socks.Prelude.{
  Bool, true, false, not, ◌&&◌, ◌||◌, Option, none, some, if◌then◌else◌, Bytes, codes, bytes_eq, ℤ,
  pos, lt_ℤ,
}
use open_socks.Decimal.{itoa}
use open_socks.Settings.{Disk}

pub record SettingsInput : Type 0 where
  pub mode : Bytes
  pub tun : Option Bool
  pub free_only : Option Bool
  pub auto_connect : Option Bool
  pub auto_route : Option Bool
  pub dual_session_experimental : Option Bool
  pub session_count : ℤ
  pub slot2_line_id : Option ℤ
  pub slot3_line_id : Option ℤ
  pub region : Bytes
  pub exclude_regions : Bytes
  pub include_domains : Bytes
  pub exclude_domains : Bytes
  pub include_cidrs : Bytes
  pub exclude_cidrs : Bytes

unfoldable pub bool_str : Bool → Bytes
bool_str true = codes "1"
bool_str false = codes "0"

unfoldable pub mode_update : Bytes → Option Bytes
unfolding bytes_eq
mode_update mode =
    if bytes_eq mode (codes "smart") || bytes_eq mode (codes "global") then some mode else none

-- `if in.F != nil { updates[key] = boolStr(*in.F) }`
unfoldable pub flag_update : Option Bool → Option Bytes
unfolding bool_str
flag_update none = none
flag_update (some b) = some (bool_str b)

unfoldable pub dual_update : Option Bool → Option Bytes
dual_update none = none
dual_update (some b) = if b then some (codes "2") else some (codes "1")

unfoldable pub count_update : ℤ → Option Bool → Option Bytes
unfolding dual_update
count_update n dual =
    if not (lt_ℤ n (pos 1)) && not (lt_ℤ (pos 3) n) then some (itoa n) else dual_update dual

-- `if in.F != nil && *in.F >= 0 { updates[key] = strconv.Itoa(*in.F) }`
unfoldable pub slot_update : Option ℤ → Option Bytes
slot_update none = none
slot_update (some n) = if lt_ℤ n (pos 0) then none else some (itoa n)

unfoldable pub updates : SettingsInput → Bytes → Option Bytes
unfolding bytes_eq mode_update flag_update count_update slot_update
updates in' key =
    if bytes_eq key (codes "mode")
    then mode_update in'.mode
    else if bytes_eq key (codes "tun")
    then flag_update in'.tun
    else if bytes_eq key (codes "free_only")
    then flag_update in'.free_only
    else if bytes_eq key (codes "auto_connect")
    then flag_update in'.auto_connect
    else if bytes_eq key (codes "auto_route")
    then flag_update in'.auto_route
    else if bytes_eq key (codes "session_count")
    then count_update in'.session_count in'.dual_session_experimental
    else if bytes_eq key (codes "slot2_line_id")
    then slot_update in'.slot2_line_id
    else if bytes_eq key (codes "slot3_line_id")
    then slot_update in'.slot3_line_id
    else if bytes_eq key (codes "region")
    then some in'.region
    else if bytes_eq key (codes "exclude_regions")
    then some in'.exclude_regions
    else if bytes_eq key (codes "include_domains")
    then some in'.include_domains
    else if bytes_eq key (codes "exclude_domains")
    then some in'.exclude_domains
    else if bytes_eq key (codes "include_cidrs")
    then some in'.include_cidrs
    else if bytes_eq key (codes "exclude_cidrs")
    then some in'.exclude_cidrs
    else none

unfoldable pub save_settings : Disk → (Bytes → Option Bytes) → Disk
save_settings d values = record d {
  options = λ k. elim (values k) [ none ↦ d.options k | some v ↦ v ];
}
