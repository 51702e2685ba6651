-- ===== src/Api/Probe.antt =====
-- The other commands of openwrt/opensocks/src/dual_experiment.go: recoverPrimarySession,
-- prepareTripleSpeedSession and runDualSessionProbe. What they print is left out.
use open_socks.Prelude.{
  false, not, ◌&&◌, Option, none, some, List, [], ◌∷◌, map, if◌then◌else◌, filter, Bytes, codes,
  bytes_eq, Result, ok, err, ℤ, pos, is_pos, lt_ℤ,
}
use open_socks.Dns.Domains.{lower}
use open_socks.Lines.{Line, Account, active_vip}
use open_socks.Session.Boots.{BootsInfo, ConnectResponse, selected_boot}
use open_socks.Settings.{Settings, Disk}
use open_socks.Controller.{Credentials, parse_region_id}
use open_socks.Api.{Error, failure, ApiClient, ConnectRequest, Service, new_api_client_for_slot}
use open_socks.Api.Calls.{Answer, attempts, is_expired, login, get_lines, connect, disconnect}
use open_socks.Api.Slots.{
  Files, save_slot_session, slot_login, or_jwt, login_thrice, sign_in_all, all_ok, clients_from,
  with_boot,
}
use open_socks.Api.Cleanup.{recovery_login}

-- saveSession, of a session that is not empty.
abbrev pub save_session : Bytes → Disk → Result Error (Unit {0}) × Disk
save_session session d =
    if d.save_works
    then (ok tt, record d { session = session })
    else (err (failure (codes "write session")), d)

-- The configuration file of the third process.
pub record ThirdConfig : Type 0 where
  pub server : Bytes
  pub server_port : ℤ
  pub password : Bytes
  pub method : Bytes

abbrev pub third_config : BootsInfo → ThirdConfig
third_config b = record {
  server = b.server;
  server_port = b.port;
  password = b.password;
  method = b.method;
}

-- The block of the third session, which has to be one of Shadowsocks.
abbrev pub third_boot : Option BootsInfo → Result Error ThirdConfig
third_boot none = err (failure (codes "third session returned no Shadowsocks configuration"))
third_boot (some b) =
    if bytes_eq (lower b.proto) (codes "trojan")
    then err (failure (codes "third session returned no Shadowsocks configuration"))
    else ok (third_config b)

-- The lines that distinctProbeLines looks at, and the first two of them.
unfoldable pub distinct_probe_lines : Option Account → List Line → Result Error (Line × Line)
unfolding active_vip
distinct_probe_lines a ls = elim (filter (λ l. not (active_vip a && l.is_free)) ls) [
  | [] ↦ err (failure (codes "two distinct eligible lines are required"))
  | x ∷ xs ↦ elim xs [
    | [] ↦ err (failure (codes "two distinct eligible lines are required"))
    | y ∷ ys ↦ ok (x, y)
  ]
]

module _ {S : Type 0} (v : Service S) where
  abbrev pub keep_recovered : Disk → Answer S Bytes → Result Error (Unit {0}) × (Disk × S)
  keep_recovered d (err e, (c, s)) = (err e, (d, s))
  keep_recovered d (ok session, (c, s)) = let (r, d') = save_session session d in (r, (d', s))

  unfoldable pub recover_primary_session :
      Settings → Option Credentials → Disk × S → Result Error (Unit {0}) × (Disk × S)
  unfolding login new_api_client_for_slot
  recover_primary_session cfg none (d, s) = (err (failure (codes "no saved credentials")), (d, s))
  recover_primary_session cfg (some k) (d, s) =
      keep_recovered d
        (login v (recovery_login k) (new_api_client_for_slot v cfg.api_domain (pos 0), s))

  abbrev pub third_request : Settings → ConnectRequest
  third_request cfg = record {
    proto = codes "SS";
    recommend_line = some false;
    available_proto = codes "SS" ∷ codes "Trojan" ∷ codes "GTS" ∷ [];
    region_id = parse_region_id cfg.region;
  }

  abbrev pub after_third_connect :
      Files → Answer S ConnectResponse → Result Error ThirdConfig × (Files × S)
  after_third_connect f (err e, (c, s)) = (err e, (f, s))
  after_third_connect f (ok r, (c, s)) = (third_boot (selected_boot r), (f, s))

  abbrev pub after_third_save :
      Settings
      → ApiClient × S
      → Result Error (Unit {0}) × Files
      → Result Error ThirdConfig × (Files × S)
  after_third_save cfg (c, s) (err e, f) = (err e, (f, s))
  after_third_save cfg w (ok _, f) =
      after_third_connect f (connect v cfg.selected_line_id (third_request cfg) w)

  abbrev pub after_third_login :
      Settings → Files → Answer S Bytes → Result Error ThirdConfig × (Files × S)
  after_third_login cfg f (err e, (c, s)) = (err e, (f, s))
  after_third_login cfg f (ok session, w) = after_third_save cfg w (save_slot_session 2 session f)

  abbrev pub third_session :
      Settings → Credentials → Files × S → Result Error ThirdConfig × (Files × S)
  third_session cfg k (f, s) = after_third_login cfg f (
      login_thrice v (slot_login k.auth_type k)
        (new_api_client_for_slot v cfg.api_domain (pos 2), s))

  -- The result is the content of the file that is written last.
  unfoldable pub prepare_triple_speed_session :
      Settings → Option Credentials → Files × S → Result Error ThirdConfig × (Files × S)
  unfolding selected_boot connect save_slot_session login_thrice new_api_client_for_slot
  prepare_triple_speed_session cfg none w = (err (failure (codes "no saved credentials")), w)
  prepare_triple_speed_session cfg (some k) w =
      if not (is_pos cfg.selected_line_id)
      then (err (failure (codes "no selected line is available")), w)
      else third_session cfg k w

  -- The directory as a probe asks for it, five times while the session is not known.
  unfoldable pub validate_probe_session : ApiClient × S → Answer S (List Line)
  unfolding attempts get_lines
  validate_probe_session = attempts is_expired 4 (get_lines v)

  unfoldable pub validate_all : List ApiClient → S → List (Result Error (List Line) × ApiClient) × S
  unfolding validate_probe_session
  validate_all [] s = ([], s)
  validate_all (c ∷ cs) s =
      let (r, (c', s1)) = validate_probe_session (c, s) in
      let (xs, s2) = validate_all cs s1 in ((r, c') ∷ xs, s2)

  abbrev pub probe_request : ConnectRequest
  probe_request = record {
    proto = codes "SS";
    recommend_line = some false;
    available_proto = codes "SS" ∷ [];
    region_id = none;
  }

  unfoldable pub connect_each :
      ℤ → List ApiClient → S → List (Result Error ConnectResponse × ApiClient) × S
  unfolding connect
  connect_each id [] s = ([], s)
  connect_each id (c ∷ cs) s =
      let (r, (c', s1)) = connect v id probe_request (c, s) in
      let (xs, s2) = connect_each id cs s1 in ((r, c') ∷ xs, s2)

  -- The deferred disconnects of the connections before the first error, the last one first.
  unfoldable pub disconnect_leading : List (Result Error ConnectResponse × ApiClient) → S → S
  unfolding disconnect
  disconnect_leading [] s = s
  disconnect_leading ((err e, c) ∷ xs) s = s
  disconnect_leading ((ok r, c) ∷ xs) s = (disconnect v r.line_id (c, disconnect_leading xs s)).1.1

  abbrev pub checked :
      Result Error ConnectResponse × ApiClient → Result Error ConnectResponse × ApiClient
  checked (err e, c) = (err e, c)
  checked (ok r, c) = (with_boot v r (selected_boot r), c)

  abbrev pub verdict :
      Result Error (List ConnectResponse × List ApiClient)
      → Result Error (List ConnectResponse × List ApiClient)
      → Result Error (Unit {0})
  verdict (err e) b = err e
  verdict (ok a) (err e) = err e
  verdict (ok a) (ok b) = ok tt

  -- All connects are looked at before any block.
  abbrev pub after_probe_connects :
      Files
      → List (Result Error ConnectResponse × ApiClient) × S
      → Result Error (Unit {0}) × (Files × S)
  after_probe_connects f (xs, s) =
      (verdict (all_ok xs) (all_ok (map checked xs)), (f, disconnect_leading xs s))

  abbrev pub with_probe_lines :
      Files
      → List ApiClient
      → S
      → Result Error (Line × Line)
      → Result Error (Unit {0}) × (Files × S)
  with_probe_lines f cs s (err e) = (err e, (f, s))
  with_probe_lines f cs s (ok (first, _)) = after_probe_connects f (connect_each first.id cs s)

  abbrev pub first_set : List (List Line) → List Line
  first_set [] = []
  first_set (ls ∷ rest) = ls

  abbrev pub after_validation :
      Option Account
      → Files
      → S
      → Result Error (List (List Line) × List ApiClient)
      → Result Error (Unit {0}) × (Files × S)
  after_validation a f s (err e) = (err e, (f, s))
  after_validation a f s (ok (sets, cs)) =
      with_probe_lines f cs s (distinct_probe_lines a (first_set sets))

  abbrev pub after_probe_logins :
      Option Account
      → Files × S
      → Result Error (List Bytes × List ApiClient)
      → Result Error (Unit {0}) × (Files × S)
  after_probe_logins a w (err e) = (err e, w)
  after_probe_logins a (f, s) (ok (_, cs)) =
      let (sets, s1) = validate_all cs s in after_validation a f s1 (all_ok sets)

  abbrev pub probe_with :
      Option Account → Settings → Credentials → Files × S → Result Error (Unit {0}) × (Files × S)
  probe_with a cfg k w =
      let (slots, w1) =
        sign_in_all v (slot_login (or_jwt k.auth_type) k) 0 (clients_from v cfg.api_domain 0 2) w in
      after_probe_logins a w1 (all_ok slots)

  -- The account summary is read when the lines are looked at, and is an argument.
  unfoldable pub run_dual_session_probe :
      Option Account
      → Settings
      → Option Credentials
      → Files × S
      → Result Error (Unit {0}) × (Files × S)
  unfolding connect_each disconnect_leading distinct_probe_lines validate_all sign_in_all all_ok
      clients_from
  run_dual_session_probe a cfg none w = (err (failure (codes "no saved credentials")), w)
  run_dual_session_probe a cfg (some k) w =
      if lt_ℤ cfg.session_count (pos 2)
      then (err (failure (codes "multi-session mode is disabled")), w)
      else probe_with a cfg k w
