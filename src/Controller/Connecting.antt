-- ===== src/Controller/Connecting.antt =====
-- `connect`, `connectMultiLine`, `disconnect`, `reconnect` and the watchdog of
-- openwrt/opensocks/src/controller.go and dual_experiment.go. `cfg` is the copy of the settings that
-- the call works with; a step takes the outcome of the one before, and ends the call on an error.
use open_socks.Prelude.{
  ℕ, Bool, true, false, not, ◌&&◌, ◌||◌, Option, none, some, List, [], ◌∷◌, ltb, ◌==◌,
  if◌then◌else◌, length, take, find?, Bytes, codes, bytes_eq, Result, ok, err, ℤ, pos, negsuc,
  is_pos, eq_ℤ, lt_ℤ,
}
use open_socks.Decimal.{itoa}
use open_socks.Lines.{Line, pick_line}
use open_socks.Session.Boots.{ConnectResponse}
use open_socks.Session.Engine.{Started, is_running, start_connections, stop}
use open_socks.Netfilter.{Kernel, RedirectError, setup_redirect, teardown_redirect}
use open_socks.History.{append_history, find_history}
use open_socks.Settings.{Settings, Disk}
use open_socks.Controller.{
  ApiError, transport, Failure, not_logged_in, no_server, history_missing, api, start, redirect,
  Client, World, Outside, parse_region_id, plan_for, refresh_settings, keep_session, with_account,
  logged_in, cycles, get_lines_authenticated,
}

-- The number of sessions that the list of ids is cut to.
unfoldable pub clamp_count : ℤ → ℕ
clamp_count (negsuc _) = 1
clamp_count (pos n) = if n == 0 then 1 else if ltb 3 n then 3 else n

abbrev pub id_or : ℤ → ℤ → ℤ
id_or primary id = if is_pos id then id else primary

unfoldable pub session_line_ids : ℤ → Settings → ℤ → List ℤ
unfolding clamp_count
session_line_ids primary cfg count =
    take (clamp_count count)
      (primary ∷ id_or primary cfg.slot2_line_id ∷ id_or primary cfg.slot3_line_id ∷ [])

-- saveSetting
unfoldable pub set_option : Bytes → Bytes → Disk → Disk
unfolding bytes_eq
set_option key v d = record d { options = λ k. if bytes_eq k key then v else d.options k }

-- The line id that a call goes for.
abbrev pub target : ℤ → Settings → ℤ
target want cfg =
    if not (is_pos want) && is_pos cfg.selected_line_id then cfg.selected_line_id else want

-- The line of the answer, where the directory has it.
abbrev pub connected_line : Line → ConnectResponse → List Line → Line
connected_line ln resp lines =
    if is_pos resp.line_id && not (eq_ℤ resp.line_id ln.id)
    then elim (find? (λ l. eq_ℤ l.id resp.line_id) lines) [ none ↦ ln | some l ↦ l ]
    else ln

abbrev pub Done : Type 0 → Type 0
Done N = Result Failure (Unit {0}) × World N

module _ {N : Type 0} (c : Client N) (o : Outside) where
  unfoldable pub stop_engine : World N → World N
  unfolding stop
  stop_engine w = let (e, s) = stop w.engine w.system in record w { engine = e; system = s }

  unfoldable pub remove_redirect : World N → World N
  remove_redirect w = record w { kernel = teardown_redirect w.kernel }

  -- What precedes the start of the engine when another server is in use.
  unfoldable pub leave_server : Bool → World N → World N
  unfolding stop_engine remove_redirect
  leave_server switching w = if switching then remove_redirect (stop_engine w) else w

  unfoldable pub record_connection : Line → ConnectResponse → World N → World N
  record_connection ln resp w =
      let (_, h) = append_history o.now_id o.now_text ln resp w.store.files_work w.store.history in
      record w { store = record w.store { history = h } }

  unfoldable pub save_selection : Bool → Settings → Line → World N → World N
  unfolding set_option
  save_selection manual cfg ln w =
      if manual || not (is_pos cfg.selected_line_id)
      then refresh_settings c (record w {
        store = record w.store {
          disk = set_option (codes "selected_line_id") (itoa ln.id) w.store.disk;
        };
      })
      else w

  -- The client and the session of the first slot become those of the controller.
  abbrev pub adopt : Option Bytes → World N → World N
  adopt none w = w
  adopt (some session) w = keep_session c session (record w { net = c.use_first w.net })

  unfoldable pub after_redirect :
      Option Bytes
      → Bool
      → Settings
      → Line
      → ConnectResponse
      → World N
      → Result RedirectError (Unit {0}) × Kernel
      → Done N
  unfolding stop_engine record_connection save_selection
  after_redirect session manual cfg ln resp w (err e, k) =
      (err (redirect e), stop_engine (record w { kernel = k }))
  after_redirect session manual cfg ln resp w (ok _, k) = (
    ok tt,
    save_selection manual cfg ln
        (record_connection ln resp (adopt session (record w { kernel = k }))),
  )

  unfoldable pub after_start :
      Option Bytes → Bool → Settings → ℕ → Line → ConnectResponse → World N → Started → Done N
  unfolding after_redirect
  after_start session manual cfg count ln resp w (err e, eng, sys) =
      (err (start e), record w { engine = eng; system = sys })
  after_start session manual cfg count ln resp w (ok _, eng, sys) =
      after_redirect session manual cfg ln resp (record w { engine = eng; system = sys })
        (setup_redirect (plan_for o cfg cfg.mode eng.servers count) w.kernel)

  -- The last part of a connect call: the server in use is left, the engine is started with the
  -- responses, and the routing is put in place.
  unfoldable pub establish :
      Option Bytes
      → Bool
      → Bool
      → Settings
      → List ConnectResponse
      → Line
      → ConnectResponse
      → World N
      → Done N
  unfolding leave_server after_start
  establish session switching manual cfg responses ln resp w =
      let w' = leave_server switching w in
      after_start session manual cfg (length responses) ln resp w'
        (start_connections o.answers responses w'.engine w'.system)

  abbrev pub clean_up : List ConnectResponse → Done N → Done N
  clean_up responses (ok u, w) = (ok u, w)
  clean_up responses (err f, w) = (err f, record w { net = c.disconnect_all responses w.net })

  unfoldable pub after_issue :
      Bool
      → Bool
      → Settings
      → Line
      → World N
      → Result ApiError (List ConnectResponse × Bytes) × N
      → Done N
  unfolding establish
  after_issue switching manual cfg ln w (err e, net) =
      (err (api e), record w { net = net; store = with_account c net w.store })
  after_issue switching manual cfg ln w (ok ([], session), net) =
      (err (api transport), record w { net = net; store = with_account c net w.store })
  after_issue switching manual cfg ln w (ok (resp ∷ rs, session), net) = clean_up (resp ∷ rs) (
      establish (some session) switching manual cfg (resp ∷ rs) ln resp
        (record w { net = net; store = with_account c net w.store }))

  unfoldable pub connect_multi_line : Bool → Bool → Bool → Settings → Line → World N → Done N
  unfolding session_line_ids after_issue
  connect_multi_line switching manual recommend cfg ln w = after_issue switching manual cfg ln w (
      c.issue_connections cfg.api_domain (session_line_ids ln.id cfg cfg.session_count)
        (parse_region_id cfg.region) recommend w.store.credentials w.net)

  abbrev pub after_response :
      Bool → Bool → Settings → List Line → Line → Result Failure ConnectResponse × World N → Done N
  after_response switching manual cfg lines ln (err f, w) = (err f, w)
  after_response switching manual cfg lines ln (ok resp, w) =
      establish none switching manual cfg (resp ∷ []) (connected_line ln resp lines) resp w

  unfoldable pub connect_line : Bool → Bool → ℤ → Settings → List Line → Line → World N → Done N
  unfolding connect_multi_line establish
  connect_line switching manual want cfg lines ln w =
      let recommend = not (is_pos want) in
      let region = parse_region_id cfg.region in
      if lt_ℤ (pos 1) cfg.session_count
      then connect_multi_line switching manual recommend cfg ln w
      else after_response switching manual cfg lines ln
          (cycles c (c.connect ln.id region recommend) 3 transport w)

  unfoldable pub with_line : Bool → Bool → ℤ → Settings → List Line → World N → Option Line → Done N
  unfolding connect_line
  with_line switching manual want cfg lines w none = (err no_server, w)
  with_line switching manual want cfg lines w (some ln) =
      connect_line switching manual want cfg lines ln w

  unfoldable pub after_lines :
      Bool → Bool → ℤ → Settings → Result Failure (List Line) × World N → Done N
  unfolding with_line
  after_lines switching manual want cfg (err f, w) = (err f, w)
  after_lines switching manual want cfg (ok lines, w) =
      with_line switching manual want cfg lines w (pick_line w.store.account lines want)

  unfoldable pub choose : Bool → Bool → ℤ → World N → Done N
  unfolding after_lines
  choose switching manual want w =
      if is_pos want
      then after_lines switching manual want w.cfg (ok w.lines, w)
      else after_lines switching manual want w.cfg (get_lines_authenticated c w)

  unfoldable pub connect : ℤ → World N → Done N
  unfolding choose
  connect want w0 =
      let w = refresh_settings c w0 in
      let id = target want w.cfg in
      if not (logged_in c w)
      then (err not_logged_in, w)
      else if is_running o.answers w.engine
      then if not (is_pos id) || eq_ℤ id w.engine.line_id
        then (ok tt, w)
        else choose true (is_pos want) id w
      else choose false (is_pos want) id w

  unfoldable pub disconnect : World N → World N
  unfolding stop_engine remove_redirect
  disconnect w = remove_redirect (stop_engine (refresh_settings c w))

  unfoldable pub reconnect : Bytes → World N → Done N
  unfolding connect
  reconnect history_id w = elim (find_history history_id w.store.history) [
    | none ↦ (err history_missing, w)
    | some r ↦ connect r.line_id w
  ]
