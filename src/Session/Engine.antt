-- ===== src/Session/Engine.antt =====
-- The engine of openwrt/opensocks/src/mihomo.go: one, two or three ss-redir processes. `procs` are
-- the processes that the daemon started and has not terminated; a process is named by a number.
-- What signal 0 answers of a process is an argument, `answers`.
pub mod Lifecycle
use open_socks.Prelude.{
  ℕ, ◌+◌, Bool, true, false, not, ◌&&◌, ◌||◌, Option, none, some, List, [], ◌∷◌, ltb, ◌==◌,
  if◌then◌else◌, length, filter, Bytes, codes, bytes_eq, Result, ok, err, ℤ, pos,
}
use open_socks.Dns.Domains.{lower}
use open_socks.Session.Boots.{ConnectResponse, selected_boot}

pub record SessionLine : Type 0 where
  pub slot : ℕ
  pub line_id : ℤ
  pub line_name : Bytes

pub record Engine : Type 0 where
  pub cmd : Option ℕ
  pub cmd2 : Option ℕ
  pub cmd3 : Option ℕ
  pub connected : Bool
  pub line_name : Bytes
  pub line_id : ℤ
  pub server : Bytes
  pub servers : List Bytes
  pub session_lines : List SessionLine

abbrev pub new_engine : Engine
new_engine = record {
  cmd = none;
  cmd2 = none;
  cmd3 = none;
  connected = false;
  line_name = [];
  line_id = pos 0;
  server = [];
  servers = [];
  session_lines = [];
}

-- The operating system: the processes, the number of the next one, the configuration files of the
-- second and third session, whether the engine binary is installed and the directory can be
-- made, and which of the three starts the system allows.
pub record System : Type 0 where
  pub procs : List ℕ
  pub next : ℕ
  pub config2 : Bool
  pub config3 : Bool
  pub installed : Bool
  pub dir_works : Bool
  pub start1 : Bool
  pub start2 : Bool
  pub start3 : Bool

pub data StartError : Type 0 where
  bad_count already_running not_shadowsocks not_installed no_directory : StartError
  first_failed second_failed third_failed : StartError

abbrev pub no_handle : Option ℕ → Bool
no_handle none = true
no_handle (some p) = false

-- A handle is missing or answers signal 0.
abbrev pub quiet_or_answers : (ℕ → Bool) → Option ℕ → Bool
quiet_or_answers answers none = true
quiet_or_answers answers (some p) = answers p

unfoldable pub is_running : (ℕ → Bool) → Engine → Bool
is_running answers e = elim e.cmd [
  | none ↦ false
  | some p ↦ answers p && quiet_or_answers answers e.cmd2 && quiet_or_answers answers e.cmd3
]

abbrev pub count_answers : (ℕ → Bool) → Option ℕ → ℕ
count_answers answers none = 0
count_answers answers (some p) = if answers p then 1 else 0

unfoldable pub active_session_count : (ℕ → Bool) → Engine → ℕ
active_session_count answers e =
    count_answers answers e.cmd + count_answers answers e.cmd2 + count_answers answers e.cmd3

unfoldable pub is_dual_running : (ℕ → Bool) → Engine → Bool
is_dual_running answers e = elim e.cmd [
  | none ↦ false
  | some p ↦ answers p && elim e.cmd2 [ none ↦ false | some q ↦ answers q ]
]

-- The response offers a block, and not one of Trojan.
unfoldable pub is_shadowsocks : ConnectResponse → Bool
unfolding lower bytes_eq
is_shadowsocks r = elim (selected_boot r) [
  | none ↦ false
  | some b ↦ not (bytes_eq (lower b.proto) (codes "trojan"))
]

-- startOne: a new process, unless the block is missing or the system refuses. Its configuration
-- file is written before the process is started.
unfoldable pub start_one : Bool → ConnectResponse → System → Option (ℕ × System)
start_one allowed r s =
    if is_shadowsocks r && allowed
    then some (s.next, record s { procs = s.next ∷ s.procs; next = s.next + 1 })
    else none

-- SIGTERM and Wait.
unfoldable pub terminate : Option ℕ → System → System
terminate none s = s
terminate (some p) s = record s { procs = filter (λ q. not (q == p)) s.procs }

abbrev pub server_of : ConnectResponse → Bytes
server_of r = elim (selected_boot r) [ none ↦ [] | some b ↦ b.server ]

abbrev pub servers_of : List ConnectResponse → List Bytes
servers_of [] = []
servers_of (r ∷ rs) = elim (selected_boot r) [
  | none ↦ servers_of rs
  | some b ↦ b.server ∷ servers_of rs
]

abbrev pub lines_from : ℕ → List ConnectResponse → List SessionLine
lines_from slot [] = []
lines_from slot (r ∷ rs) =
    record { slot = slot; line_id = r.line_id; line_name = r.line_name } ∷ lines_from (slot + 1) rs

abbrev pub Started : Type 0
Started = Result StartError (Unit {0}) × Engine × System

-- The fields that a complete start sets.
unfoldable pub record_start : List ConnectResponse → ConnectResponse → Engine → Engine
record_start all first e = record e {
  connected = true;
  line_name = first.line_name;
  line_id = first.line_id;
  server = server_of first;
  servers = servers_of all;
  session_lines = lines_from 1 all;
}

-- The third process, behind the first and the second.
unfoldable pub start_third :
    List ConnectResponse → ConnectResponse → List ConnectResponse → Engine → System → Started
unfolding record_start start_one terminate
start_third all first [] e s = (ok tt, record_start all first e, record s { config3 = false })
start_third all first (r ∷ _) e s = elim (start_one s.start3 r s) [
  | none ↦ (
    err third_failed,
    record e { cmd = none; cmd2 = none; cmd3 = none },
    terminate e.cmd (terminate e.cmd2 (record s { config3 = is_shadowsocks r || s.config3 })),
  )
  | some (p, s') ↦
      (ok tt, record_start all first (record e { cmd3 = some p }), record s' { config3 = true })
]

unfoldable pub start_second :
    List ConnectResponse → ConnectResponse → List ConnectResponse → Engine → System → Started
unfolding start_third
start_second all first [] e s = start_third all first [] e (record s { config2 = false })
start_second all first (r ∷ rs) e s = elim (start_one s.start2 r s) [
  | none ↦ (
    err second_failed,
    record e { cmd = none; cmd2 = none },
    terminate e.cmd (record s { config2 = is_shadowsocks r || s.config2 }),
  )
  | some (p, s') ↦
      start_third all first rs (record e { cmd2 = some p }) (record s' { config2 = true })
]

unfoldable pub start_first :
    List ConnectResponse → ConnectResponse → List ConnectResponse → Engine → System → Started
unfolding start_second
start_first all first rs e s = elim (start_one s.start1 first s) [
  | none ↦ (err first_failed, e, s)
  | some (p, s') ↦ start_second all first rs (record e { cmd = some p }) s'
]

unfoldable pub start_connections : (ℕ → Bool) → List ConnectResponse → Engine → System → Started
unfolding start_first is_running
start_connections answers [] e s = (err bad_count, e, s)
start_connections answers (first ∷ rs) e s =
    if ltb 2 (length rs)
    then (err bad_count, e, s)
    else if is_running answers e
    then (err already_running, e, s)
    else if not (is_shadowsocks first)
    then (err not_shadowsocks, e, s)
    else if not s.installed
    then (err not_installed, e, s)
    else if not s.dir_works
    then (err no_directory, e, s)
    else start_first (first ∷ rs) first rs e s

unfoldable pub stop : Engine → System → Engine × System
unfolding terminate
stop e s = (new_engine, terminate e.cmd3 (terminate e.cmd2 (terminate e.cmd s)))

-- One tick of the supervisor: whether it asks for a restart.
unfoldable pub wants_restart : (ℕ → Bool) → Engine → Bool
unfolding is_running
wants_restart answers e = (e.connected && not (is_running answers e)) && not (no_handle e.cmd)
