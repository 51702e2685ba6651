-- ===== src/Api/Slots.antt =====
-- The sessions of several slots, issueConnections of openwrt/opensocks/src/dual_experiment.go, and the
-- API client as the controller sees it. The goroutines of the slots run one after the other; the
-- credentials are those that loadCredentials read, `none` where it failed.
use open_socks.Prelude.{
  ℕ, zero, suc, Bool, false, ◌||◌, Option, none, some, List, [], ◌∷◌, ◌++◌, ltb, ◌==◌,
  if◌then◌else◌, length, Bytes, codes, Result, ok, err, ℤ, pos, is_pos,
}
use open_socks.Lines.{contains}
use open_socks.Session.Boots.{BootsInfo, ConnectResponse, selected_boot}
use open_socks.Settings.{is_empty}
use open_socks.Controller.{Credentials}
use open_socks.Api.{
  Error, failure, error_text, ApiClient, LoginRequest, ConnectRequest, Service,
  new_api_client_for_slot,
}
use open_socks.Api.Calls.{Answer, attempts, login, connect, disconnect}

-- The session files of the slots, and whether they can be written.
pub record Files : Type 0 where
  pub sessions : ℕ → Option Bytes
  pub files_work : Bool

-- saveSlotSession
unfoldable pub save_slot_session : ℕ → Bytes → Files → Result Error (Unit {0}) × Files
save_slot_session slot session f =
    if is_empty session
    then (err (failure (codes "empty issued session")), f)
    else if f.files_work
    then (ok tt, record f { sessions = λ i. if i == slot then some session else f.sessions i })
    else (err (failure (codes "write session")), f)

-- The code of the service that a login is repeated for, as the loops look for it in the text.
abbrev pub session_limit : Bytes
session_limit = codes "code" ++ b'"' ∷ codes ":20013"

unfoldable pub is_session_limit : Error → Bool
unfolding error_text contains
is_session_limit e = contains (error_text e) session_limit

abbrev pub or_jwt : Bytes → Bytes
or_jwt t = if is_empty t then codes "jwt" else t

abbrev pub slot_login : Bytes → Credentials → LoginRequest
slot_login auth_type k = record {
  credentials = record k { auth_type = auth_type };
  sms_code = [];
  ticket = [];
  autokick = some (pos 0);
}

module _ {S : Type 0} (v : Service S) where
  -- The loop of three logins.
  unfoldable pub login_thrice : LoginRequest → ApiClient × S → Answer S Bytes
  unfolding attempts is_session_limit login
  login_thrice r = attempts is_session_limit 2 (login v r)

  -- The session of a slot, with its client; the state is the files and the service.
  abbrev pub Slot : Type 0
  Slot = Result Error Bytes × ApiClient

  abbrev pub after_save :
      Bytes → ApiClient → S → Result Error (Unit {0}) × Files → Slot × (Files × S)
  after_save session c s (ok _, f) = ((ok session, c), (f, s))
  after_save session c s (err e, f) = ((err e, c), (f, s))

  abbrev pub after_slot_login : ℕ → Files → Answer S Bytes → Slot × (Files × S)
  after_slot_login slot f (err e, (c, s)) = ((err e, c), (f, s))
  after_slot_login slot f (ok session, (c, s)) =
      after_save session c s (save_slot_session slot session f)

  unfoldable pub sign_in_slot : LoginRequest → ℕ → ApiClient → Files × S → Slot × (Files × S)
  unfolding login_thrice save_slot_session
  sign_in_slot r slot c (f, s) = after_slot_login slot f (login_thrice r (c, s))

  unfoldable pub sign_in_all :
      LoginRequest → ℕ → List ApiClient → Files × S → List Slot × (Files × S)
  unfolding sign_in_slot
  sign_in_all r slot [] w = ([], w)
  sign_in_all r slot (c ∷ cs) w =
      let (x, w1) = sign_in_slot r slot c w in
      let (xs, w2) = sign_in_all r (suc slot) cs w1 in (x ∷ xs, w2)

  -- The client of slot i is the i-th of the list.
  unfoldable pub clients_from : Bytes → ℕ → ℕ → List ApiClient
  unfolding new_api_client_for_slot
  clients_from domain slot zero = []
  clients_from domain slot (suc n) =
      new_api_client_for_slot v domain (pos slot) ∷ clients_from domain (suc slot) n

  abbrev pub slot_request : ℤ → ConnectRequest → ConnectRequest
  slot_request id r = if is_pos id then record r { recommend_line = some false } else r

  -- The connection of a slot, which has to give a usable block.
  abbrev pub with_boot : ConnectResponse → Option BootsInfo → Result Error ConnectResponse
  with_boot r none = err (failure (codes "no Shadowsocks config"))
  with_boot r (some b) = ok r

  abbrev pub usable_answer :
      Answer S ConnectResponse → (Result Error ConnectResponse × ApiClient) × S
  usable_answer (err e, (c, s)) = ((err e, c), s)
  usable_answer (ok r, (c, s)) = ((with_boot r (selected_boot r), c), s)

  unfoldable pub connect_all :
      ConnectRequest
      → List ℤ
      → List ApiClient
      → S
      → List (Result Error ConnectResponse × ApiClient) × S
  unfolding connect selected_boot
  connect_all r [] cs s = ([], s)
  connect_all r (id ∷ ids) [] s = ([], s)
  connect_all r (id ∷ ids) (c ∷ cs) s =
      let (x, s1) = usable_answer (connect v id (slot_request id r) (c, s)) in
      let (xs, s2) = connect_all r ids cs s1 in (x ∷ xs, s2)

-- The first error in the order of the slots, or every value with its client.
abbrev pub cons_ok :
    {A : Type 0}
    → A
    → ApiClient
    → Result Error (List A × List ApiClient)
    → Result Error (List A × List ApiClient)
cons_ok a c (err e) = err e
cons_ok a c (ok (as', cs)) = ok (a ∷ as', c ∷ cs)

unfoldable pub all_ok :
    {A : Type 0} → List (Result Error A × ApiClient) → Result Error (List A × List ApiClient)
all_ok [] = ok ([], [])
all_ok ((err e, c) ∷ xs) = err e
all_ok ((ok a, c) ∷ xs) = cons_ok a c (all_ok xs)

pub record Issue : Type 0 where
  pub clients : List ApiClient
  pub responses : List ConnectResponse
  pub tokens : List Bytes

abbrev pub issue_of :
    List Bytes → Result Error (List ConnectResponse × List ApiClient) → Result Error Issue
issue_of tokens (err e) = err e
issue_of tokens (ok (rs, cs)) = ok (record { clients = cs; responses = rs; tokens = tokens })

module _ {S : Type 0} (v : Service S) where
  abbrev pub after_connect_all :
      List Bytes
      → Files
      → List (Result Error ConnectResponse × ApiClient) × S
      → Result Error Issue × (Files × S)
  after_connect_all tokens f (rs, s) = (issue_of tokens (all_ok rs), (f, s))

  unfoldable pub after_sign_in :
      List ℤ
      → ConnectRequest
      → Files × S
      → Result Error (List Bytes × List ApiClient)
      → Result Error Issue × (Files × S)
  unfolding connect_all all_ok
  after_sign_in ids r w (err e) = (err e, w)
  after_sign_in ids r (f, s) (ok (tokens, cs)) =
      after_connect_all tokens f (connect_all v r ids cs s)

  abbrev pub with_slots :
      List ℤ
      → ConnectRequest
      → List (Result Error Bytes × ApiClient) × (Files × S)
      → Result Error Issue × (Files × S)
  with_slots ids r (slots, w) = after_sign_in ids r w (all_ok slots)

  unfoldable pub issue_with :
      Bytes
      → List ℤ
      → ConnectRequest
      → Option Credentials
      → Files × S
      → Result Error Issue × (Files × S)
  unfolding after_sign_in sign_in_all clients_from all_ok
  issue_with domain ids r none w = (err (failure (codes "no saved credentials")), w)
  issue_with domain ids r (some k) w =
      with_slots ids r (
        sign_in_all v (slot_login (or_jwt k.auth_type) k) 0 (clients_from v domain 0 (length ids))
          w)

  unfoldable pub issue_connections :
      Bytes
      → List ℤ
      → ConnectRequest
      → Option Credentials
      → Files × S
      → Result Error Issue × (Files × S)
  unfolding issue_with
  issue_connections domain ids r k w =
      if ltb (length ids) 2 || ltb 3 (length ids)
      then (err (failure (codes "session count must be 2 or 3")), w)
      else issue_with domain ids r k w

  -- The disconnects of `cleanup` in connectMultiLine; their errors are ignored.
  unfoldable pub disconnect_all : List ApiClient → List ConnectResponse → S → S
  unfolding disconnect
  disconnect_all [] rs s = s
  disconnect_all (c ∷ cs) [] s = s
  disconnect_all (c ∷ cs) (r ∷ rs) s = disconnect_all cs rs (disconnect v r.line_id (c, s)).1.1
