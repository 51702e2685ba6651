-- ===== src/Controller.antt =====
-- The controller of openwrt/opensocks/src/controller.go: sign-in, the line directory and the
-- connection of the engine and the routing. The API client is an interface of operations
-- on a state `N` of the caller's choice; the engine, the routing and the settings are those of the
-- modules below. A `World` is everything that the daemon's handlers change.
pub mod Connecting
pub mod Retry
pub mod Connect
pub mod Serving
pub mod Outcome
pub mod Backoff
pub mod SignIn
pub mod Setup
use open_socks.Prelude.{
  ℕ, zero, suc, ◌+◌, ◌-◌, ◌*◌, ◌%◌, ◌^◌, Bool, false, not, ◌||◌, Option, none, some, List, [], ◌∷◌,
  ltb, ◌==◌, if◌then◌else◌, any, Bytes, codes, bytes_eq, Result, ok, err, ℤ,
}
use open_socks.Lines.{Line, Account}
use open_socks.Session.Boots.{ConnectResponse}
use open_socks.Session.Engine.{Engine, System, StartError}
use open_socks.Netfilter.{Plan, Kernel, RedirectError}
use open_socks.History.{ConnectionHistory}
use open_socks.Settings.{is_empty, Settings, Disk, read_settings}

-- An error of the API client: a code of the service's envelope, or any other failure.
pub data ApiError : Type 0 where
  api_code : ℕ → ApiError
  transport : ApiError

abbrev pub is_api_error_code : ApiError → ℕ → Bool
is_api_error_code (api_code c) code = c == code
is_api_error_code transport code = false

pub record Credentials : Type 0 where
  pub auth_by : Bytes
  pub auth_type : Bytes
  pub username : Bytes
  pub password : Bytes
  pub email : Bytes
  pub phone : Bytes
  pub cc : Bytes

pub record LoginInput : Type 0 where
  pub credentials : Credentials
  pub sms_code : Bytes

-- The operations of the API client that the controller calls.
pub record Client (N : Type 0) : Type 0 where
  pub configure : Bytes → Bytes → N → N
  pub has_auth : N → Bool
  pub clear_auth : N → N
  pub register : N → Result ApiError Bytes × N
  pub login : LoginInput → N → Result ApiError Bytes × N
  pub get_lines : N → Result ApiError (List Line) × N
  pub connect : ℤ → Option ℕ → Bool → N → Result ApiError ConnectResponse × N
  pub issue_connections :
      Bytes
      → List ℤ
      → Option ℕ
      → Bool
      → Option Credentials
      → N
      → Result ApiError (List ConnectResponse × Bytes) × N
  -- loadAccount, of the file that a sign-in of the client saves.
  pub account : N → Option Account
  -- The client of the first slot becomes the one that the other operations use.
  pub use_first : N → N
  pub disconnect_all : List ConnectResponse → N → N

-- What the routing asks the outside for: the address of a host, the parsed ranges of a setting, the
-- routes of the domains and services that are cached, and the clock for the history.
pub record Outside : Type 0 where
  pub answers : ℕ → Bool
  pub resolve_ipv4 : Bytes → Bytes
  pub valid_cidrs : Bytes → List Bytes
  pub domain_ips : List Bytes
  pub service_ips : Bytes → List Bytes
  pub now_id : Bytes
  pub now_text : Bytes

-- The files of the state directory that the controller keeps, with whether they can be written.
pub record Store : Type 0 where
  pub disk : Disk
  pub credentials : Option Credentials
  pub account : Option Account
  pub history : Option (List ConnectionHistory)
  pub files_work : Bool

pub record World (N : Type 0) : Type 0 where
  pub net : N
  pub cfg : Settings
  pub store : Store
  pub lines : List Line
  pub engine : Engine
  pub system : System
  pub kernel : Kernel

pub data Failure : Type 0 where
  not_logged_in no_server no_credentials history_missing : Failure
  automatic_login : ApiError → Failure
  api : ApiError → Failure
  start : StartError → Failure
  redirect : RedirectError → Failure

-- parseRegionID: the number of a text of digits, as a Go int.
unfoldable pub region_digits : ℕ → Bytes → Option ℕ
region_digits n [] = some n
region_digits n (c ∷ s) =
    let rest = region_digits ((n * 10 + (c - b'0')) % 2 ^ 64) s in
    if ltb c b'0' || ltb b'9' c then none else rest

unfoldable pub parse_region_id : Bytes → Option ℕ
unfolding region_digits
parse_region_id region = if is_empty region then none else region_digits 0 region

-- The addresses of the servers, each once and in their order; `seen` holds those listed before.
unfoldable pub proxy_ips : (Bytes → Bytes) → List Bytes → List Bytes → List Bytes
unfolding bytes_eq
proxy_ips resolve seen [] = []
proxy_ips resolve seen (s ∷ ss) =
    let ip = resolve s in
    let with_ip = proxy_ips resolve (ip ∷ seen) ss in
    let without = proxy_ips resolve seen ss in
    if is_empty ip || any (bytes_eq ip) seen then without else ip ∷ with_ip

unfoldable pub plan_for : Outside → Settings → Bytes → List Bytes → ℕ → Plan
unfolding bytes_eq proxy_ips
plan_for o cfg mode servers count = record {
  is_global = bytes_eq mode (codes "global");
  proxies = proxy_ips o.resolve_ipv4 [] servers;
  session_count = count;
  include_cidrs = o.valid_cidrs cfg.include_cidrs;
  exclude_cidrs = o.valid_cidrs cfg.exclude_cidrs;
  domain_ips = o.domain_ips;
  service_ips = o.service_ips;
}

module _ {N : Type 0} (c : Client N) where
  unfoldable pub refresh_settings : World N → World N
  unfolding read_settings
  refresh_settings w =
      let (s, d) = read_settings w.store.disk in
      record w {
        net = c.configure s.api_domain s.token w.net;
        cfg = s;
        store = record w.store { disk = d };
      }

  -- saveToken and setSessionToken.
  unfoldable pub keep_session : Bytes → World N → World N
  keep_session session w =
      let d = w.store.disk in
      record w {
        cfg = record w.cfg { token = session };
        store = record w.store {
          disk = if d.save_works then record d { session = session } else d;
        };
      }

  unfoldable pub logged_in : World N → Bool
  logged_in w = c.has_auth w.net || not (is_empty w.cfg.token)

  abbrev pub in_use : LoginInput → Bytes
  in_use i =
      let k = i.credentials in
      if not (is_empty k.auth_by)
      then k.auth_by
      else if not (is_empty k.email)
      then codes "email"
      else if not (is_empty k.phone)
      then codes "phone"
      else codes "username"

  -- The defaults of a login request.
  unfoldable pub complete_input : LoginInput → LoginInput
  complete_input i =
      let k = i.credentials in
      record i {
        credentials = record k {
          auth_by = in_use i;
          auth_type = if is_empty k.auth_type then codes "password" else k.auth_type;
        };
      }

  -- The account file behind calls of the client.
  abbrev pub with_account : N → Store → Store
  with_account net s = record s { account = c.account net }

  abbrev pub keep_credentials : Credentials → Store → Store
  keep_credentials k s = if s.files_work then record s { credentials = some k } else s

  unfoldable pub after_login :
      Credentials → World N → Result ApiError Bytes × N → Result Failure Bytes × World N
  unfolding keep_session
  after_login k w (err e, net) = (err (api e), record w { net = net })
  after_login k w (ok session, net) = (
    ok session,
    keep_session session
        (record w { net = net; store = with_account net (keep_credentials k w.store) }),
  )

  unfoldable pub login : LoginInput → World N → Result Failure Bytes × World N
  unfolding complete_input after_login
  login i w =
      let full = complete_input i in
      after_login full.credentials w (c.login full (c.clear_auth w.net))

  unfoldable pub logout : World N → World N
  unfolding keep_session
  logout w =
      let s = w.store in
      keep_session [] (record w {
        net = c.clear_auth w.net;
        store = record s {
          account = none;
          credentials = if s.files_work then none else s.credentials;
        };
      })

  unfoldable pub after_renewal : World N → Result ApiError Bytes × N → Option Failure × World N
  unfolding keep_session
  after_renewal w (err e, net) = (some (automatic_login e), record w { net = net })
  after_renewal w (ok session, net) =
      (none, keep_session session (record w { net = net; store = with_account net w.store }))

  unfoldable pub renew : World N → Option Credentials → Option Failure × World N
  unfolding after_renewal
  renew w none = (some no_credentials, w)
  renew w (some k) =
      after_renewal w (c.login (record { credentials = k; sms_code = [] }) (c.clear_auth w.net))

  unfoldable pub reauthenticate : World N → Option Failure × World N
  unfolding renew
  reauthenticate w = renew w w.store.credentials

  abbrev pub after_reauth :
      {A : Type 0}
      → (World N → Result Failure A × World N)
      → Option Failure × World N
      → Result Failure A × World N
  after_reauth next (some f, w) = (err f, w)
  after_reauth next (none, w) = next w

  unfoldable pub after_call :
      {A : Type 0}
      → (ApiError → World N → Result Failure A × World N)
      → World N
      → Result ApiError A × N
      → Result Failure A × World N
  unfolding reauthenticate
  after_call next w (ok a, net) = (ok a, record w { net = net })
  after_call next w (err e, net) =
      if is_api_error_code e 20001
      then after_reauth (next e) (reauthenticate (record w { net = net }))
      else (err (api e), record w { net = net })

  -- The loop of a request that renews the session after the code 20001, for a number of cycles;
  -- `last` is the error that the loop ends with.
  unfoldable pub cycles :
      {A : Type 0}
      → (N → Result ApiError A × N)
      → ℕ
      → ApiError
      → World N
      → Result Failure A × World N
  unfolding after_call
  cycles call zero last w = (err (api last), w)
  cycles call (suc n) last w = after_call (λ e w'. cycles call n e w') w (call w.net)

  abbrev pub keep_lines :
      Result Failure (List Line) × World N → Result Failure (List Line) × World N
  keep_lines (ok ls, w) = (ok ls, record w { lines = ls })
  keep_lines (err f, w) = (err f, w)

  unfoldable pub get_lines_authenticated : World N → Result Failure (List Line) × World N
  unfolding cycles
  get_lines_authenticated w = keep_lines (cycles c.get_lines 3 transport w)
