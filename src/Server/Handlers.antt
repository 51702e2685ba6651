-- ===== src/Server/Handlers.antt =====
-- The handlers of openwrt/opensocks/src/server.go and the listener of the mobile API.
use open_socks.Prelude.{
  ℕ, zero, suc, Bool, true, false, not, ◌||◌, Option, none, some, List, [], ◌∷◌, if◌then◌else◌,
  find?, filter, Bytes, codes, bytes_eq, Result, ok, err, pos, negsuc,
}
use open_socks.SpeedJob.{
  SpeedState, SpeedError, start_speed_job, set_speed_dual, set_speed_sessions,
}
use open_socks.SpeedJob.Lifetime.{Report, reports}
use open_socks.Session.Engine.{is_running}
use open_socks.History.{ConnectionHistory}
use open_socks.Lines.{Line}
use open_socks.Settings.{is_empty}
use open_socks.Settings.Update.{SettingsInput, updates, save_settings}
use open_socks.Controller.{
  Failure, Client, World, Outside, LoginInput, refresh_settings, login, logout,
}
use open_socks.Controller.Connecting.{Done, connect, disconnect, reconnect}
use open_socks.Controller.Setup.{
  Tools, SetupError, ListError, setup_network, register_by_device, list_for_picker,
}
use open_socks.Server.{
  Method, get, post, other, Route, status, register, login_route, logout_route, lines_route,
  connect_route, disconnect_route, history_route, reconnect_route, settings_route, setup, logs,
  traffic, region_test, speed_servers, speed_run, cn_servers, cn_run, job_start, job_status,
  pairing, route_of, JobInput, Payload, HttpRequest, controller_error, list_error, setup_error,
  bad_request, invalid_job, history_unreadable, server_not_found, token_error, job_error, text,
  accepted, status_shown, connected_to, lines_shown, history_shown, setup_shown, job_shown,
  log_shown, pairing_shown, test_shown, measured, Reply, json, error_reply, method_not_allowed,
  unauthorized, not_found, sort_history, log_lines_of,
}
use open_socks.Server.Token.{TokenFile, load_or_create_mobile_token, is_authorized}

-- The results of the network measurements: the region test, the ids of the servers of each provider
-- and the outcome of a test of one; how often the measurement of a route starts a helper process,
-- and the calls to the speed-test job that the tests of a route make.
pub record Measures : Type 0 where
  pub region : Result Bytes (Unit {0})
  pub servers : Result Bytes (List Bytes)
  pub test : Bytes → Result Bytes (Unit {0})
  pub cn_servers : Result Bytes (List Bytes)
  pub cn_test : Bytes → Result Bytes (Unit {0})
  pub helper_starts : Route → ℕ
  pub run_reports : Route → List Report

pub record Daemon (N : Type 0) : Type 0 where
  pub world : World N
  pub speed : SpeedState
  pub token_file : TokenFile

-- What startSpeedSOCKS tells the job: one path, each time.
unfoldable pub helper_started : ℕ → ℕ → SpeedState → SpeedState
unfolding set_speed_dual set_speed_sessions
helper_started zero now s = s
helper_started (suc n) now s =
    helper_started n now (set_speed_sessions 1 now (set_speed_dual false now s))

-- The job behind the tests of a request, which a bad request does not run.
unfoldable pub reported : {N : Type 0} → List Report → Option Bytes → Daemon N → Daemon N
unfolding reports
reported rs none d = d
reported rs (some id) d = record d { speed = reports rs d.speed }

abbrev pub measured_reply : {A : Type 0} → Result Bytes A → Reply
measured_reply (err m) = error_reply (text m)
measured_reply (ok _) = json measured

-- The servers in the order in which they are tried: the one asked for, then the others.
unfoldable pub fallback_order : Bytes → List Bytes → Option (List Bytes)
unfolding bytes_eq
fallback_order id ids = elim (find? (bytes_eq id) ids) [
  | none ↦ none
  | some x ↦ some (x ∷ filter (λ y. not (bytes_eq y id)) ids)
]

-- The tests one after the other, up to the first that succeeds; `last` is the last error.
unfoldable pub first_success :
    (Bytes → Result Bytes (Unit {0})) → Bytes → Bytes → List Bytes → Reply
unfolding bytes_eq
first_success test asked last [] = error_reply (text last)
first_success test asked last (x ∷ xs) = elim (test x) [
  | ok _ ↦ json (test_shown x asked (not (bytes_eq x asked)))
  | err m ↦ first_success test asked m xs
]

abbrev pub run_order : (Bytes → Result Bytes (Unit {0})) → Bytes → Option (List Bytes) → Reply
run_order test id none = error_reply server_not_found
run_order test id (some order) = first_success test id [] order

abbrev pub run_listed :
    (Bytes → Result Bytes (Unit {0})) → Bytes → Result Bytes (List Bytes) → Reply
run_listed test id (err m) = error_reply (text m)
run_listed test id (ok ids) = run_order test id (fallback_order id ids)

unfoldable pub handle_speed_run : Measures → Option Bytes → Reply
unfolding fallback_order first_success
handle_speed_run ms none = error_reply bad_request
handle_speed_run ms (some id) = run_listed ms.test id ms.servers

abbrev pub run_cn : (Bytes → Result Bytes (Unit {0})) → Option Bytes → Reply
run_cn test none = error_reply server_not_found
run_cn test (some id) = measured_reply (test id)

abbrev pub run_cn_listed : Measures → Bytes → Result Bytes (List Bytes) → Reply
run_cn_listed ms id (err m) = error_reply (text m)
run_cn_listed ms id (ok ids) = run_cn ms.cn_test (find? (λ x. bytes_eq x id) ids)

unfoldable pub handle_speed_test_cn_run : Measures → Option Bytes → Reply
unfolding bytes_eq
handle_speed_test_cn_run ms none = error_reply bad_request
handle_speed_test_cn_run ms (some id) = run_cn_listed ms id ms.cn_servers

abbrev pub known_provider : Bytes → Bool
known_provider p =
    bytes_eq p (codes "ookla")
    || (bytes_eq p (codes "ookla-external") || bytes_eq p (codes "speedtestcn"))

abbrev pub after_job :
    {N : Type 0} → Daemon N → Result SpeedError (Unit {0}) × SpeedState → Reply × Daemon N
after_job d (err e, s) = (error_reply (job_error e), record d { speed = s })
after_job d (ok _, s) = (json (job_shown s.job), record d { speed = s })

unfoldable pub handle_speed_job_start :
    {N : Type 0} → ℕ → Option JobInput → Daemon N → Reply × Daemon N
unfolding start_speed_job bytes_eq
handle_speed_job_start now none d = (error_reply invalid_job, d)
handle_speed_job_start now (some i) d =
    if not (known_provider i.provider) || is_empty i.id
    then (error_reply invalid_job, d)
    else after_job d (start_speed_job d.world.cfg.session_count i.provider i.id (pos 0) now d.speed)

abbrev pub after_pairing : {N : Type 0} → Daemon N → Option Bytes × TokenFile → Reply × Daemon N
after_pairing d (none, f) = (error_reply token_error, record d { token_file = f })
after_pairing d (some token, f) = (json (pairing_shown token), record d { token_file = f })

abbrev pub shown_history : Option (List ConnectionHistory) → Reply
shown_history none = error_reply history_unreadable
shown_history (some rs) = json (history_shown (sort_history rs))

module _ {N : Type 0} (c : Client N) (o : Outside) (t : Tools) (ms : Measures) (now : ℕ) where
  abbrev pub in_world : Daemon N → World N → Daemon N
  in_world d w = record d { world = w }

  abbrev pub accept : {A : Type 0} → Daemon N → Result Failure A × World N → Reply × Daemon N
  accept d (err f, w) = (error_reply (controller_error f), in_world d w)
  accept d (ok _, w) = (json accepted, in_world d w)

  abbrev pub connected : Daemon N → Done N → Reply × Daemon N
  connected d (err f, w) = (error_reply (controller_error f), in_world d w)
  connected d (ok _, w) = (json (connected_to w.engine.line_id w.engine.line_name), in_world d w)

  abbrev pub listed_lines : Daemon N → Result ListError (List Line) × World N → Reply × Daemon N
  listed_lines d (err e, w) = (error_reply (list_error e), in_world d w)
  listed_lines d (ok ls, w) = (json (lines_shown ls), in_world d w)

  abbrev pub set_up : Daemon N → Result SetupError Bytes × World N → Reply × Daemon N
  set_up d (err e, w) = (error_reply (setup_error e), in_world d w)
  set_up d (ok mode, w) = (json (setup_shown mode), in_world d w)

  abbrev pub handle_login : Option LoginInput → Daemon N → Reply × Daemon N
  handle_login none d = (error_reply bad_request, d)
  handle_login (some i) d = accept d (login c i d.world)

  abbrev pub reconnected : Bool → Daemon N → World N → Reply × Daemon N
  reconnected true d w = accept d (connect c o (negsuc 0) (disconnect c o w))
  reconnected false d w = (json accepted, in_world d w)

  -- The POST branch of handleSettings.
  unfoldable pub handle_settings : Option SettingsInput → Daemon N → Reply × Daemon N
  unfolding updates save_settings refresh_settings connect disconnect is_running
  handle_settings none d = (error_reply bad_request, d)
  handle_settings (some i) d =
      let w = d.world in
      reconnected (is_running o.answers w.engine) d (
        refresh_settings c
          (record w { store = record w.store { disk = save_settings w.store.disk (updates i) } }))

  -- The handlers of the routes for a POST, and of those that take any method.
  unfoldable pub handle_post : Payload → Route → Daemon N → Reply × Daemon N
  handle_post p register d = accept d (register_by_device c o d.world)
  handle_post p login_route d = handle_login p.login_input d
  handle_post p logout_route d = (json accepted, in_world d (logout c (disconnect c o d.world)))
  handle_post p connect_route d = connected d (connect c o p.line_id d.world)
  handle_post p disconnect_route d = (json accepted, in_world d (disconnect c o d.world))
  handle_post p reconnect_route d = connected d (reconnect c o p.history_id d.world)
  handle_post p settings_route d = handle_settings p.settings_input d
  handle_post p setup d = set_up d (setup_network c o t p.mode d.world)
  handle_post p speed_run d =
      (handle_speed_run ms p.server_id, reported (ms.run_reports speed_run) p.server_id d)
  handle_post p cn_run d =
      (handle_speed_test_cn_run ms p.server_id, reported (ms.run_reports cn_run) p.server_id d)
  handle_post p job_start d = handle_speed_job_start now p.job_input d
  handle_post p _ d = (not_found, d)

  abbrev pub with_helpers : Route → Reply → Daemon N → Reply × Daemon N
  with_helpers route r d =
      (r, record d { speed = helper_started (ms.helper_starts route) now d.speed })

  unfoldable pub handle_read : Bytes → Route → Daemon N → Reply × Daemon N
  unfolding helper_started refresh_settings list_for_picker sort_history log_lines_of
      load_or_create_mobile_token
  handle_read v status d = (json status_shown, in_world d (refresh_settings c d.world))
  handle_read v settings_route d = (json status_shown, in_world d (refresh_settings c d.world))
  handle_read v lines_route d = listed_lines d (list_for_picker c o d.world)
  handle_read v history_route d = (shown_history d.world.store.history, d)
  handle_read v logs d = (json (log_shown (log_lines_of v)), d)
  handle_read v traffic d = (json measured, d)
  handle_read v region_test d = with_helpers region_test (measured_reply ms.region) d
  handle_read v speed_servers d = with_helpers speed_servers (measured_reply ms.servers) d
  handle_read v cn_servers d = with_helpers cn_servers (measured_reply ms.cn_servers) d
  handle_read v job_status d = (json (job_shown d.speed.job), d)
  handle_read v pairing d = after_pairing d (load_or_create_mobile_token d.token_file)
  handle_read v _ d = (not_found, d)

  -- requirePost, and the switch of handleSettings.
  abbrev pub is_read : Route → Bool
  is_read status = true
  is_read lines_route = true
  is_read history_route = true
  is_read logs = true
  is_read traffic = true
  is_read region_test = true
  is_read speed_servers = true
  is_read cn_servers = true
  is_read job_status = true
  is_read pairing = true
  is_read _ = false

  abbrev pub is_settings : Route → Bool
  is_settings settings_route = true
  is_settings _ = false

  unfoldable pub handle : Method → HttpRequest → Route → Daemon N → Reply × Daemon N
  unfolding handle_read handle_post
  handle post r route d =
      if is_read route then handle_read r.log_lines route d else handle_post r.payload route d
  handle get r route d =
      if is_read route || is_settings route
      then handle_read r.log_lines route d
      else (method_not_allowed, d)
  handle other r route d =
      if is_read route then handle_read r.log_lines route d else (method_not_allowed, d)

  abbrev pub handle_found : HttpRequest → Daemon N → Option Route → Reply × Daemon N
  handle_found r d none = (not_found, d)
  handle_found r d (some route) = handle r.method r route d

  -- The handler that `routes` gives.
  unfoldable pub serve : HttpRequest → Daemon N → Reply × Daemon N
  unfolding handle route_of
  serve r d = handle_found r d (route_of r.path)

  -- The handler of listenAndServeMobile.
  unfoldable pub serve_mobile : Bytes → HttpRequest → Daemon N → Reply × Daemon N
  unfolding serve is_authorized
  serve_mobile token r d =
      if is_authorized token r.authorization then serve r d else (unauthorized, d)
