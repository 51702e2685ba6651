-- ===== src/Examples/ApiExamples.antt =====
-- A service whose answers carry a cookie, a client of it, and the stores of the daemon.
use open_socks.Prelude.{
  ℕ, zero, ◌+◌, ◌≤◌, ◌<◌, ◌≡◌, refl, ◌⊎◌, true, false, Option, none, some, [], ◌∷◌, length, codes,
  ok, err, ℤ, pos,
}
use open_socks.Device.{DeviceIdentity}
use open_socks.Controller.{Credentials, LoginInput, World, login}
use open_socks.Controller.SignIn.{Laws, LoggedIn, login-LoggedIn}
use open_socks.Api.{
  Error, ApiClient, LoginRequest, AccountSession, Summary, device_only, get_method, Envelope,
  Service, clear_auth,
}
use open_socks.Api.Calls
use open_socks.Api.Calls.{is_expired, do_request, do_authenticated, dev}
use open_socks.Api.Session.{login_sent, Fresh, login-Fresh}
use open_socks.Api.Attempts.{recorded, Sent, failed_with, log_of, do_authenticated-Sent}
use open_socks.Api.Slots.{Files, login_thrice, issue_connections, slot_login}
use open_socks.Api.Issue.{Complete, issue_connections-Complete}
use open_socks.Api.Interface.{Net, api_client, api_client-Laws, connect_request}
use open_socks.Api.Limit.{has_quote, login_thrice-once}
use open_socks.Api.Cleanup.{delete_external_device_sessions}
use open_socks.Api.Cleanup.Safety.{
  Holding, Foreign, listed_sessions, delete_external_device_sessions-Foreign,
}
use open_socks.Examples.SessionExamples.{ss_response, directory}
use open_socks.Examples.RoutingExamples.{some_world}

abbrev identity_of : ℤ → DeviceIdentity
identity_of (pos zero) = record { mac = codes "02:00:00:00:00:01"; uuid = codes "u1" }
identity_of _ = record { mac = codes "02:00:00:00:00:02"; uuid = codes "u2" }

abbrev foreign_session : AccountSession
foreign_session = record {
  active_at = pos 17;
  device = codes "iOS";
  model = codes "iPhone";
  package_name = codes "com.fobwifi.fobwifi";
  session = codes "theirs";
  mac = codes "02:00:00:00:00:09";
}

abbrev some_summary : Summary
some_summary = record {
  email = codes "a@b";
  phone = [];
  nick = [];
  expired = false;
  expire_at = [];
  remaining_days = pos 3;
}

-- The service counts its requests; every answer is of the given status part.
abbrev service_with : Option Envelope → Service ℕ
service_with e = record {
  send = λ r n. (
    ok (record { status = 200; set_cookie = codes "ABS_FOBWIFISS=abc; Path=/"; raw = codes "{}" }),
    n + 1,
  );
  parse_url = λ _. some (record { scheme = codes "https"; host = codes "h"; hostname = codes "h" });
  slot_profile = λ _ _. record {
    model = codes "Pixel 9a";
    sys_version = codes "16";
    width_height = codes "1080x2424";
  };
  slot_identity = λ i _. identity_of i;
  host_identity = λ _. identity_of (pos 1);
  envelope = λ _. e;
  register_response = λ _. err (codes "json");
  login_response = λ _. ok (record { token = none; summary = some_summary });
  lines_response = λ _. ok directory;
  sessions_response = λ _. ok (foreign_session ∷ []);
  connect_response = λ _. ok ss_response;
  save_account = λ _ n. n;
  load_account = λ _. none;
}

abbrev some_service : Service ℕ
some_service = service_with none

-- A service that refuses every request with the code 20013.
abbrev full_service : Service ℕ
full_service = service_with (
    some (record {
      status = codes "fail";
      code = pos 20013;
      error = codes "too many sessions";
      state = none;
    }))

abbrev pub some_credentials : Credentials
some_credentials = record {
  auth_by = codes "email";
  auth_type = codes "password";
  username = [];
  password = codes "p";
  email = codes "a@b";
  phone = [];
  cc = [];
}

abbrev some_login : LoginRequest
some_login = slot_login (codes "password") some_credentials

abbrev some_api : ApiClient
some_api = record {
  domain = codes "https://h";
  token = [];
  cookie = [];
  device_slot = pos 0;
  legacy_device = false;
}

abbrev some_files : Files
some_files = record { sessions = λ _. none; files_work = true }

login-Fresh_example :
    Fresh some_service
      (some_service.send (login_sent some_service some_login (clear_auth some_api, 0)) 0)
      (Calls.login some_service some_login (clear_auth some_api, 0))
login-Fresh_example = login-Fresh some_service some_login some_api 0

do_authenticated-Sent_example :
    let d = dev (recorded some_service) (some_api, ([], 0)) in
    let whole =
      do_authenticated
        (recorded some_service)
        get_method
        (codes "api/2/line")
        d
        device_only
        (some_api, ([], 0)) in
    let first =
      do_request
        (recorded some_service)
        get_method
        (codes "api/2/line")
        d
        device_only
        (some_api, ([], 0)) in
    Sent is_expired 2 0 whole × ((failed_with is_expired first ≡ true) ⊎ (whole ≡ first))
do_authenticated-Sent_example =
    do_authenticated-Sent some_service get_method (codes "api/2/line")
      (dev (recorded some_service) (some_api, ([], 0))) device_only (some_api, ([], 0))

api_client-Laws_example : Laws (api_client some_service)
api_client-Laws_example = api_client-Laws some_service

abbrev some_net : Net ℕ
some_net = record { api = some_api; issued = []; files = some_files; service = 0 }

abbrev signed_out : World (Net ℕ)
signed_out = record {
  net = some_net;
  cfg = some_world.cfg;
  store = some_world.store;
  lines = [];
  engine = some_world.engine;
  system = some_world.system;
  kernel = some_world.kernel;
}

abbrev some_input : LoginInput
some_input = record { credentials = some_credentials; sms_code = [] }

login-LoggedIn_example :
    LoggedIn
      (api_client some_service)
      (api_client-Laws some_service)
      signed_out
      (login (api_client some_service) some_input signed_out).1
      (login (api_client some_service) some_input signed_out).0
login-LoggedIn_example =
    login-LoggedIn (api_client some_service) (api_client-Laws some_service) some_input signed_out
      refl

issue_connections-Complete_example :
    let ids = pos 7 ∷ pos 8 ∷ [] in
    let r = connect_request none false in
    let issue =
      issue_connections some_service
        (codes "https://h")
        ids
        r
        (some some_credentials)
        (some_files, 0) in
    (((length ids < 2) ⊎ (3 < length ids)) × ((e : Error) × (issue ≡ (err e, (some_files, 0)))))
    ⊎ ((2 ≤ length ids) × (length ids ≤ 3) × Complete some_service (length ids) issue)
issue_connections-Complete_example =
    issue_connections-Complete some_service (codes "https://h") (pos 7 ∷ pos 8 ∷ [])
      (connect_request none false) (some some_credentials) (some_files, 0)

login_thrice-once_example :
    login_thrice full_service some_login (some_api, 0)
    ≡ Calls.login full_service some_login (some_api, 0)
unfolding has_quote Calls.login
login_thrice-once_example =
    login_thrice-once full_service some_login (some_api, 0) (codes "too many sessions") refl refl

delete_external_device_sessions-Foreign_example :
    Holding
      (Foreign (λ i. (identity_of i).mac) (listed_sessions some_service some_world.cfg 0))
      (log_of (delete_external_device_sessions (recorded some_service) some_world.cfg ([], 0)))
delete_external_device_sessions-Foreign_example =
    delete_external_device_sessions-Foreign some_service (λ i. (identity_of i).mac) (λ i s. refl)
      some_world.cfg 0
