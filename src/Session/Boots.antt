-- ===== src/Session/Boots.antt =====
-- The response to a connect call (openwrt/opensocks/src/api.go), the order in which its server
-- blocks are tried (openwrt/opensocks/src/mihomo.go) and the one that is used
-- (openwrt/opensocks/src/history.go). Each block is decoded into an object of its own, so the
-- pointer test `b != first` compares the fields that the blocks stand in.
use open_socks.Prelude.{
  Bool, true, false, not, ◌&&◌, Option, none, some, List, [], ◌∷◌, if◌then◌else◌, find?, Bytes,
  bytes_eq, ℤ, pos, is_pos, eq_ℤ,
}

pub record Websocket : Type 0 where
  pub enabled : Bool
  pub path : Bytes
  pub host : Bytes

pub record Ssl : Type 0 where
  pub sni : Bytes
  pub verify : Option Bool

pub record BootsInfo : Type 0 where
  pub proto : Bytes
  pub server : Bytes
  pub port : ℤ
  pub password : Bytes
  pub method : Bytes
  pub websocket : Option Websocket
  pub ssl : Option Ssl

pub record ConnectConfig : Type 0 where
  pub proto : ℤ
  pub ss_conf : Option BootsInfo
  pub ssw_conf : Option BootsInfo
  pub gts_conf : Option BootsInfo
  pub trojan_conf : Option BootsInfo

pub record ConnectResponse : Type 0 where
  pub line_id : ℤ
  pub line_name : Bytes
  pub proto_name : Bytes
  pub config : Option ConnectConfig
  pub configs : List (Option ConnectConfig)

-- The fields that hold a block, in the order of `rest`.
pub data Field : Type 0 where
  ss ssw gts trojan : Field

abbrev pub block : ConnectConfig → Field → Option BootsInfo
block c ss = c.ss_conf
block c ssw = c.ssw_conf
block c gts = c.gts_conf
block c trojan = c.trojan_conf

-- The keys of the map of `first`.
abbrev pub declared : ℤ → Option Field
declared n =
    if eq_ℤ n (pos 0)
    then some ss
    else if eq_ℤ n (pos 1)
    then some gts
    else if eq_ℤ n (pos 3)
    then some ssw
    else if eq_ℤ n (pos 5)
    then some trojan
    else none

abbrev pub same_field : Field → Field → Bool
same_field ss ss = true
same_field ssw ssw = true
same_field gts gts = true
same_field trojan trojan = true
same_field _ _ = false

abbrev pub rest_fields : List Field
rest_fields = ss ∷ ssw ∷ gts ∷ trojan ∷ []

-- `if b != nil { out = append(out, b) }`, in front of what follows.
abbrev pub add_boot : Option BootsInfo → List BootsInfo → List BootsInfo
add_boot none bs = bs
add_boot (some b) bs = b ∷ bs

unfoldable pub add_rest : ConnectConfig → Option Field → List Field → List BootsInfo
add_rest c first [] = []
add_rest c first (f ∷ fs) =
    let others = add_rest c first fs in
    elim first [
      | none ↦ add_boot (block c f) others
      | some g ↦ if same_field f g then others else add_boot (block c f) others
    ]

unfoldable pub order_from : ConnectConfig → Option Field → List BootsInfo
unfolding add_rest
order_from c none = add_rest c none rest_fields
order_from c (some f) = add_boot (block c f) (add_rest c (some f) rest_fields)

unfoldable pub ordered_boots : ConnectConfig → List BootsInfo
unfolding order_from
ordered_boots c = order_from c (declared c.proto)

-- `boot.Server != "" && boot.Port > 0`
abbrev pub usable : BootsInfo → Bool
usable b = not (bytes_eq b.server []) && is_pos b.port

abbrev pub all_configs : ConnectResponse → List (Option ConnectConfig)
all_configs r = r.config ∷ r.configs

unfoldable pub first_usable : List (Option ConnectConfig) → Option BootsInfo
unfolding ordered_boots bytes_eq
first_usable [] = none
first_usable (none ∷ cs) = first_usable cs
first_usable (some c ∷ cs) =
    let rest = first_usable cs in
    elim (find? usable (ordered_boots c)) [ none ↦ rest | some b ↦ some b ]

unfoldable pub selected_boot : ConnectResponse → Option BootsInfo
unfolding first_usable
selected_boot r = first_usable (all_configs r)
