-- ===== src/Examples/SettingsExamples.antt =====
-- Stored settings and requests for the properties of the settings.
use open_socks.Prelude.{
  List, ◌∷◌, Bool, ◌≡◌, refl, ◌↔◌, true, false, ◌||◌, none, some, [], arith, if◌then◌else◌, Bytes,
  codes, bytes_eq, pos, negsuc,
}
use open_socks.Settings.{Disk, read_settings}
use open_socks.Settings.Ports.{Usable, ports_clash}
use open_socks.Settings.Snapshot.{uci_show, uci_snapshot, value_of, uci_snapshot-uci_show}
use open_socks.Settings.Update.OneLine.{AreOneLine}
use open_socks.Decimal.{IsOneLine}
use open_socks.Settings.Update.{SettingsInput, updates, save_settings}
use open_socks.Settings.Update.RoundTrip.{read-update, chosen_id, chosen_count}
use mathlib.Core.Option.{get_or}

-- A section with the control port on the default of the mobile port, an old session, and three sessions.
abbrev pub stored : Bytes → Bytes
stored key =
    if bytes_eq key (codes "control_port")
    then codes "9092"
    else if bytes_eq key (codes "token")
    then codes "old"
    else if bytes_eq key (codes "session_count")
    then codes "3"
    else []

abbrev pub stored_disk : Disk
stored_disk = record { options = stored; session = []; save_works = true }

ports_clash_example :
    let s = (read_settings stored_disk).0 in
    (s.mobile_port ≡ s.control_port) ↔ (
      (s.control_port ≡ pos 9092)
      × ¬ (Usable (stored_disk.options (codes "mobile_port")) s.control_port))
ports_clash_example = ports_clash stored_disk

abbrev mode_option : List (Bytes × Bytes)
mode_option = (codes "mode", codes "it's") ∷ []

uci_snapshot-uci_show_example :
    uci_snapshot (uci_show mode_option) (codes "mode") ≡ value_of [] mode_option (codes "mode")
uci_snapshot-uci_show_example = uci_snapshot-uci_show mode_option (codes "mode") (
  (
    (refl, (refl, (refl, (refl, tt)))),
    (refl, (refl, (refl, (refl, tt)))),
    (refl, (refl, (refl, (refl, tt)))),
  ),
  tt,
)

abbrev request : SettingsInput
request = record {
  mode = codes "global";
  tun = none;
  free_only = some false;
  auto_connect = none;
  auto_route = some true;
  dual_session_experimental = none;
  session_count = pos 2;
  slot2_line_id = some (pos 12);
  slot3_line_id = some (negsuc 0);
  region = codes "Shanghai";
  exclude_regions = [];
  include_domains = [];
  exclude_domains = [];
  include_cidrs = [];
  exclude_cidrs = [];
}

if-IsOneLine : (b : Bool) (x y : Bytes) → IsOneLine x → IsOneLine y → IsOneLine (if b then x else y)
if-IsOneLine true x y h k = h
if-IsOneLine false x y h k = k

stored-AreOneLine : AreOneLine stored
stored-AreOneLine k =
    if-IsOneLine (bytes_eq k (codes "control_port")) (codes "9092") _
      (refl, (refl, (refl, (refl, tt))))
      (if-IsOneLine (bytes_eq k (codes "token")) (codes "old") _ (refl, (refl, (refl, tt)))
        (if-IsOneLine (bytes_eq k (codes "session_count")) (codes "3") [] (refl, tt) tt))

read-update_example :
    let old = (read_settings stored_disk).0 in
    AreOneLine (save_settings stored_disk (updates request)).options
    × ((read_settings (save_settings stored_disk (updates request))).0 ≡ record old {
      mode =
          if bytes_eq request.mode (codes "smart") || bytes_eq request.mode (codes "global")
          then request.mode
          else old.mode;
      tun = get_or request.tun old.tun;
      free_only = get_or request.free_only old.free_only;
      auto_connect = get_or request.auto_connect old.auto_connect;
      auto_route = get_or request.auto_route old.auto_route;
      session_count =
          chosen_count request.session_count request.dual_session_experimental old.session_count;
      slot2_line_id = chosen_id request.slot2_line_id old.slot2_line_id;
      slot3_line_id = chosen_id request.slot3_line_id old.slot3_line_id;
      region = request.region;
      exclude_regions = request.exclude_regions;
      include_domains = request.include_domains;
      exclude_domains = request.exclude_domains;
      include_cidrs = request.include_cidrs;
      exclude_cidrs = request.exclude_cidrs;
    })
read-update_example =
    read-update stored_disk request (omega arith) tt stored-AreOneLine
      ((refl, (refl, (refl, (refl, (refl, (refl, (refl, (refl, tt)))))))), tt, tt, tt, tt, tt)
