-- ===== src/Api/Calls.antt =====
-- The requests of openwrt/opensocks/src/api.go. A call takes the client and the state of the service and
-- gives both back with its result; the query of a GET is the request's parameters.
use open_socks.Prelude.{
  ℕ, zero, suc, Bool, not, ◌&&◌, ◌||◌, Option, none, some, List, [], ◌∷◌, ◌++◌, ltb, leb,
  if◌then◌else◌, Bytes, codes, Result, ok, err, ℤ, pos,
}
use open_socks.Decimal.{itoa}
use open_socks.Lines.{Line}
use open_socks.Session.Boots.{ConnectResponse}
use open_socks.Device.{DeviceProfile, DeviceIdentity}
use open_socks.Settings.{is_empty}
use open_socks.Api.{
  Error, http_error, failure, is_api_error_code, ApiClient, DeviceParams, LoginRequest,
  ConnectRequest, AccountSession, RegisterResponse, LoginResponse, Summary, Body, lines_query,
  sessions_query, device_only, register_body, login_body, connect_body, session_body, Method,
  get_method, post_method, delete_method, Request, Response, Service, session_cookie, set_token,
  extract_cookie, truncate, check_envelope,
}

abbrev pub Answer : Type 0 → Type 0 → Type 0
Answer S A = Result Error A × (ApiClient × S)

-- `dev`, of the profile and the identity.
abbrev pub device_params : DeviceProfile → DeviceIdentity → DeviceParams
device_params p d = record {
  device = codes "Android";
  mac = d.mac;
  uuid = d.uuid;
  langue = codes "en";
  package_name = codes "com.fobwifi.normal";
  app_version = codes "4.4.4";
  org = codes "transocks_mix";
  channel = codes "google";
  width_height = p.width_height;
  sys_version = p.sys_version;
  model = p.model;
}

abbrev pub with_cookie : Bytes → ApiClient → ApiClient
with_cookie k c = if is_empty k then c else record c { cookie = k }

-- A cookie in the answer replaces the client's; it is taken before the status is looked at.
unfoldable pub take_cookie : Response → ApiClient → ApiClient
unfolding extract_cookie
take_cookie r c = with_cookie (extract_cookie r.set_cookie session_cookie) c

abbrev pub body_or_error : Bytes → Option Error → Result Error Bytes
body_or_error raw none = ok raw
body_or_error raw (some e) = err e

-- What follows an attempt that is not the last: another one after the errors of `again`.
abbrev pub after_attempt :
    {S A : Type 0} → (Error → Bool) → (ApiClient × S → Answer S A) → Answer S A → Answer S A
after_attempt again next (ok a, w) = (ok a, w)
after_attempt again next (err e, w) = if again e then next w else (err e, w)

-- The loops over attempts, with the number of those behind the next one.
unfoldable pub attempts :
    {S A : Type 0} → (Error → Bool) → ℕ → (ApiClient × S → Answer S A) → ApiClient × S → Answer S A
attempts again zero call w = call w
attempts again (suc n) call w = after_attempt again (attempts again n call) (call w)

abbrev pub is_expired : Error → Bool
is_expired e = is_api_error_code e (pos 20001)

-- decode, of an answer.
abbrev pub parsed : {S A : Type 0} → ApiClient × S → Result Bytes A → Answer S A
parsed w (err m) = (err (failure m), w)
parsed w (ok a) = (ok a, w)

abbrev pub decoded : {S A : Type 0} → (Bytes → Result Bytes A) → Answer S Bytes → Answer S A
decoded parse (err e, w) = (err e, w)
decoded parse (ok raw, w) = parsed w (parse raw)

-- The token of the answer, where no cookie was issued.
abbrev pub with_token : Option Bytes → ApiClient → ApiClient
with_token none c = c
with_token (some t) c = if is_empty c.cookie && not (is_empty t) then set_token t c else c

abbrev pub session_of : ApiClient → Bytes
session_of c = if is_empty c.cookie then c.token else c.cookie

abbrev pub autokick_of : LoginRequest → ℤ
autokick_of r = elim r.autokick [ none ↦ pos 1 | some n ↦ n ]

abbrev pub password_login : Bytes → Bytes → LoginRequest
password_login username password = record {
  credentials = record {
    auth_by = codes "username";
    auth_type = [];
    username = username;
    password = password;
    email = [];
    phone = [];
    cc = [];
  };
  sms_code = [];
  ticket = [];
  autokick = none;
}

abbrev pub no_answer : {S : Type 0} → Answer S Bytes → Answer S (Unit {0})
no_answer (err e, w) = (err e, w)
no_answer (ok _, w) = (ok tt, w)

abbrev pub request : Method → Bytes → DeviceParams → Body → ApiClient → Request
request method path params body c = record {
  method = method;
  url = c.domain ++ b'/' ∷ path;
  authorization = c.token;
  cookie = if is_empty c.cookie then [] else session_cookie ++ b'=' ∷ c.cookie;
  params = params;
  body = body;
}

module _ {S : Type 0} (v : Service S) where
  unfoldable pub dev : ApiClient × S → DeviceParams
  dev (c, s) =
      device_params (v.slot_profile c.device_slot s)
        (if c.legacy_device then v.host_identity s else v.slot_identity c.device_slot s)

  unfoldable pub judge : Response → Result Error Bytes
  unfolding truncate check_envelope
  judge r =
      if ltb r.status 200 || leb 300 r.status
      then err (http_error r.status (truncate r.raw 300))
      else body_or_error r.raw (check_envelope (v.envelope r.raw))

  unfoldable pub after_send : ApiClient → Result Bytes Response × S → Answer S Bytes
  unfolding take_cookie judge
  after_send c (err m, s) = (err (failure m), (c, s))
  after_send c (ok r, s) = (judge r, (take_cookie r c, s))

  -- `do`, which is a keyword here.
  unfoldable pub do_request : Method → Bytes → DeviceParams → Body → ApiClient × S → Answer S Bytes
  unfolding after_send
  do_request method path params body (c, s) =
      after_send c (v.send (request method path params body c) s)

  unfoldable pub do_authenticated :
      Method → Bytes → DeviceParams → Body → ApiClient × S → Answer S Bytes
  unfolding attempts do_request is_api_error_code
  do_authenticated method path params body =
      attempts is_expired 1 (do_request method path params body)

  -- The last part of a login, with the account summary and the token of the answer.
  unfoldable pub keep_login : Summary → Option Bytes → ApiClient × S → Answer S Bytes
  unfolding set_token
  keep_login summary token (c, s) =
      let c' = with_token token c in
      if is_empty c'.cookie && is_empty c'.token
      then (err (failure (codes "login: no session cookie issued (check credentials)")), (c', s))
      else (ok (session_of c'), (c', v.save_account summary s))

  unfoldable pub finish_login : Answer S LoginResponse → Answer S Bytes
  unfolding keep_login
  finish_login (err e, w) = (err e, w)
  finish_login (ok r, w) = keep_login r.summary r.token w

  unfoldable pub login : LoginRequest → ApiClient × S → Answer S Bytes
  unfolding dev do_request finish_login
  login r w = finish_login (
      decoded v.login_response
        (do_request post_method (codes "api/1/login") (dev w) (login_body r (autokick_of r)) w))

  -- The account of a device that has no token.
  unfoldable pub register_login : RegisterResponse → ApiClient × S → Answer S Bytes
  unfolding login
  register_login r w =
      if is_empty r.username
      then (err (failure (codes "register: no credentials in response")), w)
      else login (password_login r.username r.password) w

  unfoldable pub finish_register : RegisterResponse → Option Bytes → ApiClient × S → Answer S Bytes
  unfolding set_token register_login
  finish_register r none w = register_login r w
  finish_register r (some t) (c, s) =
      if is_empty t then register_login r (c, s) else (ok t, (set_token t c, s))

  abbrev pub after_register : Answer S RegisterResponse → Answer S Bytes
  after_register (err e, w) = (err e, w)
  after_register (ok r, w) = finish_register r r.token w

  unfoldable pub register_by_device : ApiClient × S → Answer S Bytes
  unfolding dev do_request finish_register
  register_by_device w = after_register (
      decoded v.register_response
        (do_request post_method (codes "api/1/app/user/register") (dev w) register_body w))

  unfoldable pub get_lines : ApiClient × S → Answer S (List Line)
  unfolding dev do_authenticated
  get_lines w =
      decoded v.lines_response
        (do_authenticated get_method (codes "api/2/line") (dev w) lines_query w)

  unfoldable pub get_sessions : ApiClient × S → Answer S (List AccountSession)
  unfolding dev do_authenticated
  get_sessions w =
      decoded v.sessions_response
        (do_authenticated get_method (codes "api/1/user/sessions") (dev w) sessions_query w)

  unfoldable pub delete_session : Bytes → ApiClient × S → Answer S (Unit {0})
  unfolding dev do_authenticated
  delete_session id w =
      no_answer
        (do_authenticated delete_method (codes "api/1/user/sessions") (dev w) (session_body id) w)

  unfoldable pub connect : ℤ → ConnectRequest → ApiClient × S → Answer S ConnectResponse
  unfolding dev do_authenticated
  connect id r w = decoded v.connect_response (
      do_authenticated post_method (codes "api/2/line/connect/" ++ itoa id) (dev w) (connect_body r)
        w)

  unfoldable pub disconnect : ℤ → ApiClient × S → Answer S (Unit {0})
  unfolding dev do_authenticated
  disconnect id w = no_answer (
      do_authenticated post_method (codes "api/2/line/disconnect/" ++ itoa id) (dev w) device_only
        w)
