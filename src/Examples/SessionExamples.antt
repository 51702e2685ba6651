-- ===== src/Examples/SessionExamples.antt =====
-- Responses and processes for the properties of the session, the lines and the history.
use open_socks.Prelude.{
  ℕ, suc, ◌≤◌, ◌<◌, ◌≡◌, ◌≢◌, ◌↔◌, ◌⊎◌, true, false, none, some, List, [], ◌∷◌, arith, length,
  get_elem?, filter, codes, pos, is_pos,
}
use mathlib.Core.List.{Perm}
use open_socks.Session.Boots.{BootsInfo, ConnectConfig, ConnectResponse, all_configs, selected_boot}
use open_socks.Session.Selection.{NoneUsable, Offered, selected_boot_cases}
use open_socks.Session.Proxies.{generate_config}
use open_socks.Session.Proxies.Usable.{Generated, generate_config_cases}
use open_socks.Session.Engine.{System, new_engine, start_connections}
use open_socks.Session.Engine.Lifecycle.{Clean, start_connections-Clean}
use open_socks.Lines.{Line, PickerSettings, active_vip, listed, list_lines}
use open_socks.Lines.Listing.{AreOrdered, Shown, list_lines-AreOrdered}
use open_socks.History.{history_record, append_history, find_history}
use open_socks.History.Order.{listed_or_none, find_history-append_history}

abbrev pub ss_block : BootsInfo
ss_block = record {
  proto = codes "SS";
  server = codes "10.1.1.1";
  port = pos 8388;
  password = codes "p";
  method = codes "aes-256-gcm";
  websocket = none;
  ssl = none;
}

abbrev pub trojan_block : BootsInfo
trojan_block = record {
  proto = codes "trojan";
  server = codes "t.example";
  port = pos 443;
  password = codes "q";
  method = [];
  websocket = none;
  ssl = some (record { sni = codes "t.example"; verify = some false });
}

-- A configuration with the blocks of two protocols, the second one declared.
abbrev pub two_blocks : ConnectConfig
two_blocks = record {
  proto = pos 5;
  ss_conf = some ss_block;
  ssw_conf = none;
  gts_conf = none;
  trojan_conf = some trojan_block;
}

abbrev pub ss_config : ConnectConfig
ss_config = record two_blocks { proto = pos 0 }

abbrev pub ss_response : ConnectResponse
ss_response = record {
  line_id = pos 7;
  line_name = codes "Shanghai 1";
  proto_name = codes "PROTO_SS";
  config = none;
  configs = none ∷ some ss_config ∷ [];
}

selected_boot_cases_example :
    ((selected_boot ss_response ≡ none) × NoneUsable (all_configs ss_response))
    ⊎ ((b : BootsInfo) × (selected_boot ss_response ≡ some b)
        × (b.server ≢ [])
        × (is_pos b.port ≡ true)
        × Offered b (all_configs ss_response))
selected_boot_cases_example = selected_boot_cases ss_response

generate_config_cases_example :
    ((generate_config ss_response (codes "smart") false ≡ none)
      × (selected_boot ss_response ≡ none))
    ⊎ ((b : BootsInfo) × (selected_boot ss_response ≡ some b)
        × Generated (codes "smart") (generate_config ss_response (codes "smart") false) b)
generate_config_cases_example = generate_config_cases ss_response (codes "smart") false

-- Two foreign processes, and a system that refuses the second session.
abbrev pub some_system : System
some_system = record {
  procs = 1 ∷ 2 ∷ [];
  next = 3;
  config2 = false;
  config3 = false;
  installed = true;
  dir_works = true;
  start1 = true;
  start2 = false;
  start3 = true;
}

start_connections-Clean_example :
    Clean
      (1 ∷ 2 ∷ [])
      (start_connections (λ _. true) (ss_response ∷ ss_response ∷ []) new_engine some_system)
start_connections-Clean_example =
    start_connections-Clean (λ _. true) (ss_response ∷ ss_response ∷ []) some_system
      (omega arith, (omega arith, tt))

abbrev pub paid_line : Line
paid_line = record {
  id = pos 7;
  name = codes "Shanghai 1";
  location = codes "Shanghai";
  category = codes "game";
  is_free = false;
}

abbrev pub free_line : Line
free_line = record paid_line { id = pos 3; is_free = true }

abbrev pub directory : List Line
directory = paid_line ∷ free_line ∷ []

abbrev picker : PickerSettings
picker = record { free_only = false; region = codes "shang"; exclude_regions = codes "movie" }

list_lines-AreOrdered_example :
    AreOrdered (list_lines none picker directory)
    × Perm (list_lines none picker directory) (filter (listed (active_vip none) picker) directory)
    × ((listed (active_vip none) picker free_line ≡ true)
        ↔ Shown (active_vip none) picker free_line)
list_lines-AreOrdered_example = list_lines-AreOrdered none picker directory free_line

find_history-append_history_example :
    let r = history_record (codes "17") (codes "now") paid_line ss_response in
    let (saved, after) =
      append_history (codes "17") (codes "now") paid_line ss_response true (some []) in
    (saved ≡ true)
    × (find_history [] after ≡ some r)
    × (find_history (codes "17") after ≡ some r)
    × ((i : ℕ) → i < 99 → get_elem? (listed_or_none after) (suc i) ≡ get_elem? [] i)
    × (length (listed_or_none after) ≤ 100)
find_history-append_history_example =
    find_history-append_history (codes "17") (codes "now") paid_line ss_response []
