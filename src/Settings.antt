-- ===== src/Settings.antt =====
-- openwrt/opensocks/src/uci.go: the settings, and how the daemon reads them from UCI.
pub mod Ports
pub mod Snapshot
pub mod Update
use open_socks.Prelude.{
  ℕ, leb, ◌==◌, ◌-◌, ◌/◌, Bool, true, false, not, ◌&&◌, ◌||◌, [], ◌∷◌, if◌then◌else◌, Bytes, codes,
  bytes_eq, ℤ, pos, is_pos, eq_ℤ, lt_ℤ,
}
use open_socks.Decimal.{atoi}

pub record Settings : Type 0 where
  pub token : Bytes
  pub mode : Bytes
  pub tun : Bool
  pub free_only : Bool
  pub auto_connect : Bool
  pub auto_route : Bool
  pub session_count : ℤ
  pub slot2_line_id : ℤ
  pub slot3_line_id : ℤ
  pub region : Bytes
  pub exclude_regions : Bytes
  pub include_domains : Bytes
  pub exclude_domains : Bytes
  pub include_cidrs : Bytes
  pub exclude_cidrs : Bytes
  pub selected_line_id : ℤ
  pub api_domain : Bytes
  pub control_port : ℤ
  pub mobile_enabled : Bool
  pub mobile_port : ℤ
  pub geoip_url : Bytes
  pub engine_binary : Bytes

-- The options of the section, as a Go map reads them: "" for a missing key. Values hold no line end;
-- for these uciSnapshot gives each option as it is, and a value with one is not read back.
abbrev pub Values : Type 0
Values = Bytes → Bytes

-- The UCI options and the session file; `save_works` is whether saveSession succeeds.
pub record Disk : Type 0 where
  pub options : Values
  pub session : Bytes
  pub save_works : Bool

abbrev pub is_empty : Bytes → Bool
is_empty [] = true
is_empty (_ ∷ _) = false

-- strings.TrimSpace on ASCII.
abbrev pub is_space : ℕ → Bool
is_space c = (c == 32) || ((leb 9 c) && (leb c 13))

unfoldable pub trim_left : Bytes → Bytes
trim_left [] = []
trim_left (c ∷ s) = let rest = trim_left s in if is_space c then rest else c ∷ s

unfoldable pub trim_right : Bytes → Bytes
trim_right [] = []
trim_right (c ∷ s) = let rest = trim_right s in if is_space c && is_empty rest then [] else c ∷ rest

unfoldable pub trim_space : Bytes → Bytes
unfolding trim_left trim_right
trim_space s = trim_right (trim_left s)

unfoldable pub value_bool : Bytes → Bool → Bool
unfolding bytes_eq
value_bool v def =
    if is_empty v
    then def
    else (bytes_eq v (codes "1") || bytes_eq v (codes "true")) || bytes_eq v (codes "yes")

-- `if v != "" { s.F = v }`
unfoldable pub or_default : Bytes → Bytes → Bytes
or_default v def = if is_empty v then def else v

-- `if v != "" { s.F, _ = strconv.Atoi(v) }`
unfoldable pub line_id : Bytes → ℤ
line_id v = if is_empty v then pos 0 else (atoi v).0

unfoldable pub read_session_count : Values → ℤ
unfolding value_bool
read_session_count values =
    let (n, valid) = atoi (values (codes "session_count")) in
    if valid && not (lt_ℤ n (pos 1)) && not (lt_ℤ (pos 3) n)
    then n
    else if value_bool (values (codes "dual_session_experimental")) false
    then pos 2
    else pos 1

unfoldable pub read_control_port : Values → ℤ
read_control_port values =
    let v = values (codes "control_port") in
    let (n, valid) = atoi v in
    if is_empty v then pos 9091 else if valid && is_pos n then n else pos 9091

unfoldable pub read_mobile_port : Values → ℤ → ℤ
read_mobile_port values control_port =
    let v = values (codes "mobile_port") in
    let (n, valid) = atoi v in
    if is_empty v
    then pos 9092
    else if valid && is_pos n && lt_ℤ n (pos 65536) && not (eq_ℤ n control_port)
    then n
    else pos 9092

unfoldable pub delete_option : Disk → Bytes → Disk
delete_option d key = record d { options = λ k. if bytes_eq k key then [] else d.options k }

-- loadSession
unfoldable pub load_session : Disk → Bytes
unfolding trim_space
load_session d = trim_space d.session

-- The session, and the migration of one that an older release kept in UCI. A failed migration
-- leaves both the option and the empty session.
unfoldable pub migrate : Disk → Bytes × Disk
unfolding delete_option load_session
migrate d =
    let legacy = d.options (codes "token") in
    let saved = load_session d in
    if is_empty legacy
    then (saved, d)
    else if not (is_empty saved)
    then (saved, delete_option d (codes "token"))
    else if d.save_works
    then (legacy, delete_option (record d { session = legacy }) (codes "token"))
    else (saved, d)

unfoldable pub read_settings : Disk → Settings × Disk
unfolding migrate value_bool or_default line_id read_session_count read_control_port
    read_mobile_port
read_settings d =
    let values = d.options in
    let control = read_control_port values in
    (
      record {
        token = (migrate d).0;
        mode = or_default (values (codes "mode")) (codes "smart");
        tun = value_bool (values (codes "tun")) true;
        free_only = value_bool (values (codes "free_only")) true;
        auto_connect = value_bool (values (codes "auto_connect")) true;
        auto_route = value_bool (values (codes "auto_route")) true;
        session_count = read_session_count values;
        slot2_line_id = line_id (values (codes "slot2_line_id"));
        slot3_line_id = line_id (values (codes "slot3_line_id"));
        region = values (codes "region");
        exclude_regions = values (codes "exclude_regions");
        include_domains = values (codes "include_domains");
        exclude_domains = values (codes "exclude_domains");
        include_cidrs = values (codes "include_cidrs");
        exclude_cidrs = values (codes "exclude_cidrs");
        selected_line_id = line_id (values (codes "selected_line_id"));
        api_domain = or_default (values (codes "api_domain")) (codes "https://abscf2.fobwifi.com");
        control_port = control;
        mobile_enabled = value_bool (values (codes "mobile_enabled")) true;
        mobile_port = read_mobile_port values control;
        geoip_url = or_default (values (codes "geoip_url")) (
            codes
              "https://github.com/MetaCubeX/meta-rules-dat/releases/download/latest/country.mmdb");
        engine_binary = or_default (values (codes "engine_binary")) (codes "/usr/bin/ss-redir");
      },
      (migrate d).1,
    )
