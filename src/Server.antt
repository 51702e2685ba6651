-- ===== src/Server.antt =====
-- The control API of openwrt/opensocks/src/server.go and mobile.go: the routes, their handlers and the
-- bearer token of the mobile listener. A request comes with its body as the handlers decode it; the
-- network measurements of the speed and region tests are `Measures`.
pub mod Handlers
pub mod Guard
pub mod Token
use open_socks.Prelude.{
  ℕ, String, Bool, true, false, ◌&&◌, Option, none, some, List, [], ◌∷◌, ltb, leb, ◌==◌,
  if◌then◌else◌, Bytes, codes, bytes_eq, ℤ, pos,
}
use open_socks.Decimal.{atoi}
use open_socks.Lines.{Line}
use open_socks.History.{ConnectionHistory}
use open_socks.SpeedJob.{SpeedJob, SpeedError}
use open_socks.Settings.{is_empty}
use open_socks.Settings.Update.{SettingsInput}
use open_socks.Controller.{Failure, LoginInput, login, logout}
use open_socks.Controller.Connecting.{connect, disconnect, reconnect}
use open_socks.Controller.Setup.{SetupError, ListError}

pub data Method : Type 0 where
  get post other : Method

pub data Route : Type 0 where
  status register login_route logout_route lines_route connect_route disconnect_route history_route
        reconnect_route :
      Route
  settings_route setup logs traffic region_test speed_servers speed_run cn_servers cn_run job_start
        job_status pairing :
      Route

abbrev pub route_table : List (String × Route)
route_table =
    ("/status", status)
    ∷ ("/register", register)
    ∷ ("/login", login_route)
    ∷ ("/logout", logout_route)
    ∷ ("/lines", lines_route)
    ∷ ("/connect", connect_route)
    ∷ ("/disconnect", disconnect_route)
    ∷ ("/history", history_route)
    ∷ ("/reconnect", reconnect_route)
    ∷ ("/settings", settings_route)
    ∷ ("/setup", setup)
    ∷ ("/logs", logs)
    ∷ ("/traffic", traffic)
    ∷ ("/regiontest", region_test)
    ∷ ("/speedtest/servers", speed_servers)
    ∷ ("/speedtest/run", speed_run)
    ∷ ("/speedtestcn/servers", cn_servers)
    ∷ ("/speedtestcn/run", cn_run)
    ∷ ("/speedtest/job/start", job_start)
    ∷ ("/speedtest/job/status", job_status)
    ∷ ("/mobile/pairing", pairing)
    ∷ []

unfoldable pub lookup : Bytes → List (String × Route) → Option Route
unfolding bytes_eq
lookup path [] = none
lookup path ((p, r) ∷ rest) =
    let found = lookup path rest in if bytes_eq path (codes p) then some r else found

-- The handler of a path.
unfoldable pub route_of : Bytes → Option Route
unfolding lookup
route_of path = lookup path route_table

pub record JobInput : Type 0 where
  pub provider : Bytes
  pub id : Bytes

-- The body as each handler decodes it, `none` where decoding fails; the handlers that ignore a
-- failure read the values that it leaves.
pub record Payload : Type 0 where
  pub login_input : Option LoginInput
  pub line_id : ℤ
  pub mode : Bytes
  pub history_id : Bytes
  pub settings_input : Option SettingsInput
  pub job_input : Option JobInput
  pub server_id : Option Bytes

pub record HttpRequest : Type 0 where
  pub method : Method
  pub path : Bytes
  pub authorization : Bytes
  pub log_lines : Bytes
  pub payload : Payload

-- What an error reply says; `text` is the error of a network measurement.
pub data ServerError : Type 0 where
  controller_error : Failure → ServerError
  list_error : ListError → ServerError
  setup_error : SetupError → ServerError
  bad_request invalid_job history_unreadable server_not_found token_error : ServerError
  job_error : SpeedError → ServerError
  text : Bytes → ServerError

pub data Shown : Type 0 where
  accepted status_shown : Shown
  connected_to : ℤ → Bytes → Shown
  lines_shown : List Line → Shown
  history_shown : List ConnectionHistory → Shown
  setup_shown : Bytes → Shown
  job_shown : SpeedJob → Shown
  log_shown : ℕ → Shown
  pairing_shown : Bytes → Shown
  test_shown : Bytes → Bytes → Bool → Shown
  measured : Shown

pub data Reply : Type 0 where
  json : Shown → Reply
  error_reply : ServerError → Reply
  method_not_allowed unauthorized not_found busy : Reply

-- sortHistory: later times first, equal times in their order.
unfoldable pub bytes_lt : Bytes → Bytes → Bool
bytes_lt s [] = false
bytes_lt [] (y ∷ ys) = true
bytes_lt (x ∷ xs) (y ∷ ys) = let rest = bytes_lt xs ys in if ltb x y then true else (x == y) && rest

unfoldable pub insert_history : ConnectionHistory → List ConnectionHistory → List ConnectionHistory
unfolding bytes_lt
insert_history r [] = r ∷ []
insert_history r (x ∷ xs) =
    let rest = insert_history r xs in
    if bytes_lt r.connected_at x.connected_at then x ∷ rest else r ∷ x ∷ xs

unfoldable pub sort_history : List ConnectionHistory → List ConnectionHistory
unfolding insert_history
sort_history [] = []
sort_history (r ∷ rs) = insert_history r (sort_history rs)

-- The number of log lines that a request asks for.
abbrev pub allowed_lines : ℤ × Bool → ℕ
allowed_lines (pos n, true) = if ltb 0 n && leb n 1000 then n else 100
allowed_lines (_, _) = 100

unfoldable pub log_lines_of : Bytes → ℕ
unfolding atoi
log_lines_of v = if is_empty v then 100 else allowed_lines (atoi v)
