-- ===== src/Api.antt =====
-- The API client of openwrt/opensocks/src/api.go: the session that it holds, the requests that it
-- sends, and what it makes of the answers. The transport, the parser of URLs and the JSON decoder are
-- not part of the program: they are the operations of `Service`, on a state `S` of its own.
pub mod Calls
pub mod Session
pub mod Attempts
pub mod Slots
pub mod Interface
pub mod SignIns
pub mod Issue
pub mod Limit
pub mod Cleanup
pub mod Probe
use open_socks.Prelude.{
  ℕ, ◌+◌, ◌/◌, Bool, false, not, ◌&&◌, ◌||◌, Option, none, some, List, [], ◌∷◌, ◌++◌, leb, ◌==◌,
  if◌then◌else◌, length, take, drop, Bytes, codes, bytes_eq, Result, ◌>>=◌, ℤ, pos, eq_ℤ,
}
use open_socks.Decimal.{itoa}
use open_socks.Lines.{Line, Account, starts}
use open_socks.Session.Boots.{ConnectResponse}
use open_socks.Device.{DeviceProfile, DeviceIdentity}
use open_socks.Settings.{trim_space, is_empty}
use open_socks.Controller.{Credentials}

-- apiError, the error of a status outside 200 to 299, and every other error, with its text.
pub data Error : Type 0 where
  api_error : ℤ → Bytes → Error
  http_error : ℕ → Bytes → Error
  failure : Bytes → Error

-- The text of an error.
unfoldable pub error_text : Error → Bytes
error_text (api_error c m) = (codes "api error: code " ++ itoa c) ++ codes ": " ++ m
error_text (http_error s m) = (codes "api error: HTTP " ++ itoa (pos s)) ++ codes ": " ++ m
error_text (failure m) = m

unfoldable pub is_api_error_code : Error → ℤ → Bool
is_api_error_code (api_error c m) code = eq_ℤ c code
is_api_error_code (http_error s m) code = false
is_api_error_code (failure m) code = false

pub record ApiClient : Type 0 where
  pub domain : Bytes
  pub token : Bytes
  pub cookie : Bytes
  pub device_slot : ℤ
  pub legacy_device : Bool

pub record Url : Type 0 where
  pub scheme : Bytes
  pub host : Bytes
  pub hostname : Bytes

pub record DeviceParams : Type 0 where
  pub device : Bytes
  pub mac : Bytes
  pub uuid : Bytes
  pub langue : Bytes
  pub package_name : Bytes
  pub app_version : Bytes
  pub org : Bytes
  pub channel : Bytes
  pub width_height : Bytes
  pub sys_version : Bytes
  pub model : Bytes

pub record LoginRequest : Type 0 where
  pub credentials : Credentials
  pub sms_code : Bytes
  pub ticket : Bytes
  pub autokick : Option ℤ

pub record ConnectRequest : Type 0 where
  pub proto : Bytes
  pub recommend_line : Option Bool
  pub available_proto : List Bytes
  pub region_id : Option ℕ

pub record AccountSession : Type 0 where
  pub active_at : ℤ
  pub device : Bytes
  pub model : Bytes
  pub package_name : Bytes
  pub session : Bytes
  pub mac : Bytes

-- tokenPayload, of which the access token is read; `none` for the missing object.
pub record RegisterResponse : Type 0 where
  pub token : Option Bytes
  pub username : Bytes
  pub password : Bytes

pub record Summary : Type 0 where
  pub email : Bytes
  pub phone : Bytes
  pub nick : Bytes
  pub expired : Bool
  pub expire_at : Bytes
  pub remaining_days : ℤ

pub record LoginResponse : Type 0 where
  pub token : Option Bytes
  pub summary : Summary

-- What a request carries beside the device parameters.
pub data Body : Type 0 where
  lines_query sessions_query device_only : Body
  register_body : Body
  login_body : LoginRequest → ℤ → Body
  connect_body : ConnectRequest → Body
  session_body : Bytes → Body

pub data Method : Type 0 where
  get_method post_method delete_method : Method

pub record Request : Type 0 where
  pub method : Method
  pub url : Bytes
  pub authorization : Bytes
  pub cookie : Bytes
  pub params : DeviceParams
  pub body : Body

pub record Response : Type 0 where
  pub status : ℕ
  pub set_cookie : Bytes
  pub raw : Bytes

-- The error part of an answer: the newer `state`, and the older `status` with its code.
pub record State : Type 0 where
  pub success : Bool
  pub code : ℤ
  pub error : Bytes

pub record Envelope : Type 0 where
  pub status : Bytes
  pub code : ℤ
  pub error : Bytes
  pub state : Option State

-- What the client takes from outside: the transport, the parsers, which give a value or the text of
-- their error, the device of a slot as the module Device draws it, and the account file.
pub record Service (S : Type 0) : Type 0 where
  pub send : Request → S → Result Bytes Response × S
  pub parse_url : Bytes → Option Url
  pub slot_profile : ℤ → S → DeviceProfile
  pub slot_identity : ℤ → S → DeviceIdentity
  pub host_identity : S → DeviceIdentity
  pub envelope : Bytes → Option Envelope
  pub register_response : Bytes → Result Bytes RegisterResponse
  pub login_response : Bytes → Result Bytes LoginResponse
  pub lines_response : Bytes → Result Bytes (List Line)
  pub sessions_response : Bytes → Result Bytes (List AccountSession)
  pub connect_response : Bytes → Result Bytes ConnectResponse
  pub save_account : Summary → S → S
  pub load_account : S → Option Account

abbrev pub session_cookie : Bytes
session_cookie = codes "ABS_FOBWIFISS"

unfoldable pub is_loopback_host : Bytes → Bool
unfolding bytes_eq
is_loopback_host h =
    bytes_eq h (codes "localhost") || (bytes_eq h (codes "127.0.0.1") || bytes_eq h (codes "::1"))

abbrev pub acceptable : Option Url → Bool
acceptable none = false
acceptable (some u) =
    not (is_empty u.host) && (bytes_eq u.scheme (codes "https") || is_loopback_host u.hostname)

-- strings.TrimRight(s, "/")
unfoldable pub trim_slashes : Bytes → Bytes
trim_slashes [] = []
trim_slashes (c ∷ s) =
    let rest = trim_slashes s in if (c == b'/') && is_empty rest then [] else c ∷ rest

abbrev pub default_domain : Bytes
default_domain = codes "https://abscf2.fobwifi.com"

module _ {S : Type 0} (v : Service S) where
  unfoldable pub usable_domain : Bytes → Bytes
  unfolding trim_slashes is_loopback_host
  usable_domain domain =
      trim_slashes (if acceptable (v.parse_url domain) then domain else default_domain)

  unfoldable pub new_api_client_for_slot : Bytes → ℤ → ApiClient
  unfolding usable_domain
  new_api_client_for_slot domain slot = record {
    domain = usable_domain domain;
    token = [];
    cookie = [];
    device_slot = slot;
    legacy_device = false;
  }

  unfoldable pub configure : Bytes → Bytes → ApiClient → ApiClient
  unfolding usable_domain
  configure domain fallback c =
      let d = usable_domain domain in
      if is_empty fallback then record c { domain = d } else record c {
        domain = d;
        token = fallback;
        cookie = if is_empty c.cookie then fallback else c.cookie;
      }

unfoldable pub set_token : Bytes → ApiClient → ApiClient
set_token t c = record c { token = t }

unfoldable pub clear_auth : ApiClient → ApiClient
clear_auth c = record c { token = []; cookie = [] }

unfoldable pub has_auth : ApiClient → Bool
has_auth c = not (is_empty c.cookie) || not (is_empty c.token)

-- strings.Split(s, ","): the parts between the commas; the first may still grow to the left.
unfoldable pub split_commas : Bytes → List Bytes
split_commas [] = [] ∷ []
split_commas (c ∷ s) =
    let rest = split_commas s in
    if c == b',' then [] ∷ rest else elim rest [ [] ↦ (c ∷ []) ∷ [] | p ∷ ps ↦ (c ∷ p) ∷ ps ]

-- strings.TrimSpace on ASCII.
-- The bytes before the first semicolon.
unfoldable pub before_semicolon : Bytes → Bytes
before_semicolon [] = []
before_semicolon (c ∷ s) = let rest = before_semicolon s in if c == b';' then [] else c ∷ rest

unfoldable pub find_cookie : Bytes → List Bytes → Bytes
unfolding trim_space before_semicolon starts
find_cookie name [] = []
find_cookie name (part ∷ parts) =
    let p = trim_space part in
    let rest = find_cookie name parts in
    if starts (name ++ b'=' ∷ []) p then before_semicolon (drop (length name + 1) p) else rest

unfoldable pub extract_cookie : Bytes → Bytes → Bytes
unfolding split_commas find_cookie
extract_cookie header name = find_cookie name (split_commas header)

unfoldable pub truncate : Bytes → ℕ → Bytes
truncate s n = if leb (length s) n then s else take n s ++ codes "..."

abbrev pub legacy_error : Envelope → Option Error
legacy_error e = if bytes_eq e.status (codes "fail") then some (api_error e.code e.error) else none

abbrev pub envelope_error : Envelope → Option State → Option Error
envelope_error e none = legacy_error e
envelope_error e (some s) =
    if not s.success then some (api_error s.code s.error) else legacy_error e

-- checkEnvelope, of the decoded answer; one that is no JSON object passes.
unfoldable pub check_envelope : Option Envelope → Option Error
unfolding bytes_eq
check_envelope none = none
check_envelope (some e) = envelope_error e e.state
