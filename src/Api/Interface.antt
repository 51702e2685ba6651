-- ===== src/Api/Interface.antt =====
-- The API client of openwrt/opensocks/src/api.go and dual_experiment.go in the place of the interface
-- that openwrt/opensocks/src/controller.go works with, and the laws that it obeys there.
use open_socks.Prelude.{
  ℕ, ◌≡◌, refl, Bool, true, false, Option, none, some, List, [], ◌∷◌, arith, Bytes, codes, Result,
  ok, err, pos, negsuc,
}
use open_socks.Session.Boots.{ConnectResponse}
use open_socks.Settings.{is_empty}
use open_socks.Controller.{ApiError, api_code, transport, LoginInput, Client}
use open_socks.Controller.SignIn.{Issued, Laws}
use open_socks.Api.{
  Error, api_error, http_error, failure, ApiClient, LoginRequest, ConnectRequest, Service,
  configure, has_auth, clear_auth,
}
use open_socks.Api.Calls.{Answer, login, register_by_device, get_lines, connect}
use open_socks.Api.Session.{Held, login-Held}
use open_socks.Api.Slots.{Files, Issue, issue_connections, disconnect_all}

-- What the controller's calls work on: its client, the clients of the last issue, the files and the
-- service.
pub record Net (S : Type 0) : Type 0 where
  pub api : ApiClient
  pub issued : List ApiClient
  pub files : Files
  pub service : S

-- What the controller tells apart of an error.
abbrev pub seen : Error → ApiError
seen (api_error (pos n) m) = api_code n
seen (api_error (negsuc n) m) = transport
seen (http_error s m) = transport
seen (failure m) = transport

abbrev pub login_request : LoginInput → LoginRequest
login_request i = record {
  credentials = i.credentials;
  sms_code = i.sms_code;
  ticket = [];
  autokick = none;
}

abbrev pub connect_request : Option ℕ → Bool → ConnectRequest
connect_request region recommend = record {
  proto = codes "SS";
  recommend_line = some recommend;
  available_proto = codes "SS" ∷ codes "Trojan" ∷ codes "GTS" ∷ [];
  region_id = region;
}

abbrev first_of : ApiClient → List ApiClient → ApiClient
first_of c [] = c
first_of c (x ∷ xs) = x

abbrev first_token : List Bytes → Bytes
first_token [] = []
first_token (t ∷ ts) = t

module _ {S : Type 0} where
  abbrev pub back : {A : Type 0} → Net S → Answer S A → Result ApiError A × Net S
  back n (ok a, (c, s)) = (ok a, record n { api = c; service = s })
  back n (err e, (c, s)) = (err (seen e), record n { api = c; service = s })

  abbrev pub back_issue :
      Net S
      → Result Error Issue × (Files × S)
      → Result ApiError (List ConnectResponse × Bytes) × Net S
  back_issue n (err e, (f, s)) = (err (seen e), record n { files = f; service = s })
  back_issue n (ok i, (f, s)) = (
    ok (i.responses, first_token i.tokens),
    record n { issued = i.clients; files = f; service = s },
  )

  unfoldable pub api_client : Service S → Client (Net S)
  unfolding configure has_auth clear_auth login register_by_device get_lines connect
      issue_connections disconnect_all
  api_client v = record {
    configure = λ domain session n. record n { api = configure v domain session n.api };
    has_auth = λ n. has_auth n.api;
    clear_auth = λ n. record n { api = clear_auth n.api };
    register = λ n. back n (register_by_device v (n.api, n.service));
    login = λ i n. back n (login v (login_request i) (n.api, n.service));
    get_lines = λ n. back n (get_lines v (n.api, n.service));
    connect = λ id region recommend n.
        back n (connect v id (connect_request region recommend) (n.api, n.service));
    issue_connections = λ domain ids region recommend k n.
        back_issue n (
          issue_connections v domain ids (connect_request region recommend) k (n.files, n.service));
    account = λ n. v.load_account n.service;
    use_first = λ n. record n { api = first_of n.api n.issued };
    disconnect_all = λ rs n. record n { service = disconnect_all v n.issued rs n.service };
  }

  back-Issued : (n : Net S) (r : Answer S Bytes) → Held r → Issued (λ m. has_auth m.api) (back n r)
  unfolding Held Issued
  back-Issued n (ok s, (c, w)) (full, held, same) = (full, held)
  back-Issued n (err e, (c, w)) h = tt

  configured :
      (v : Service S) (d s k : Bytes) (c : ApiClient)
      → is_empty s ≡ false
      → has_auth (configure v d s (record c { cookie = k })) ≡ true
  unfolding configure has_auth
  configured v d [] k c full = absurd (ground (arith, full))
  configured v d (x ∷ s) [] c full = refl
  configured v d (x ∷ s) (y ∷ k) c full = refl

  -- The API client obeys the laws that the controller's sign-in rests on: a login that succeeds gives a session that is not empty and leaves the client with a sign-in, clearing leaves none, and configuring keeps it, and sets one where a session is given.
  pub api_client-Laws : (v : Service S) → Laws (api_client v)
  unfolding api_client has_auth clear_auth configure
  api_client-Laws v = record {
    login-Issued = λ i n.
        back-Issued n (login v (login_request i) (n.api, n.service))
          (login-Held v (login_request i) (n.api, n.service));
    clear_auth-none = λ n. refl;
    configure-same = λ d n. refl;
    configure-session = λ d s n full. configured v d s n.api.cookie n.api full;
  }
