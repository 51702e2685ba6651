-- ===== src/Api/Session.antt =====
-- The session that a login of openwrt/opensocks/src/api.go gives.
use open_socks.Prelude.{
  ◌≡◌, refl, ◌⊎◌, inl, inr, true, false, ◌||◌, Option, none, some, [], ◌∷◌, ltb, leb, Bool-cases,
  Option-cases, Bytes, codes, Result, ok, err,
}
use open_socks.Settings.{is_empty}
use open_socks.Api.{
  Error, ApiClient, LoginRequest, LoginResponse, Summary, login_body, post_method, Request,
  Response, Service, session_cookie, set_token, clear_auth, has_auth, extract_cookie,
  check_envelope,
}
use open_socks.Api.Calls.{
  Answer, dev, take_cookie, with_cookie, request, judge, after_send, do_request, parsed, decoded,
  with_token, session_of, keep_login, finish_login, autokick_of, login,
}

Result-cases : {E A : Type 0} (r : Result E A) → ((a : A) × (r ≡ ok a)) ⊎ ((e : E) × (r ≡ err e))
Result-cases (ok a) = inl (a, refl)
Result-cases (err e) = inr (e, refl)

-- The session that an answer issues: its cookie, else its token.
abbrev cookie_or_token : Bytes → Option Bytes → Bytes
cookie_or_token (x ∷ k) t = x ∷ k
cookie_or_token [] (some t) = t
cookie_or_token [] none = []

unfoldable pub issued : Response → LoginResponse → Bytes
unfolding extract_cookie
issued r l = cookie_or_token (extract_cookie r.set_cookie session_cookie) l.token

-- The answer of a login: a session that is not empty, with a client that holds it.
unfoldable pub Held : {S : Type 0} → Answer S Bytes → Type 0
Held (ok session, (c, s)) =
    (is_empty session ≡ false) × (has_auth c ≡ true) × (session_of c ≡ session)
Held (err e, w) = Unit {0}

module _ {S : Type 0} (v : Service S) where
  kept-Held :
      (a : Summary) (s : S) (d t k : Bytes) (c : ApiClient)
      → Held (keep_login v a none (record c { domain = d; token = t; cookie = k }, s))
  unfolding keep_login Held has_auth
  kept-Held a s d [] [] c = tt
  kept-Held a s d (x ∷ t) [] c = (refl, refl, refl)
  kept-Held a s d t (x ∷ k) c = (refl, refl, refl)

  keep_login-Held :
      (a : Summary) (t : Option Bytes) (c : ApiClient) (s : S) → Held (keep_login v a t (c, s))
  unfolding keep_login
  keep_login-Held a t c s = let c' = with_token t c in kept-Held a s c'.domain c'.token c'.cookie c'

  finish_login-Held : (r : Answer S LoginResponse) → Held (finish_login v r)
  unfolding finish_login Held
  finish_login-Held (err e, w) = tt
  finish_login-Held (ok r, (c, s)) = keep_login-Held r.summary r.token c s

  pub login-Held : (r : LoginRequest) (w : ApiClient × S) → Held (login v r w)
  unfolding login
  login-Held r w = finish_login-Held (
      decoded v.login_response
        (do_request v post_method (codes "api/1/login") (dev v w) (login_body r (autokick_of r)) w))

  -- A login on a client without a session either fails, or gives what its answer issued.
  keep-cases :
      (P : Answer S Bytes → Type 0) (k : Bytes) (t : Option Bytes) (a : Summary) (c : ApiClient)
      (s : S)
      → ((e : Error) (c' : ApiClient) → P (err e, (c', s)))
      → ((c' : ApiClient)
          → is_empty (cookie_or_token k t) ≡ false
          → session_of c' ≡ cookie_or_token k t
          → P (ok (cookie_or_token k t), (c', v.save_account a s)))
      → P (keep_login v a t (with_cookie k (clear_auth c), s))
  unfolding keep_login clear_auth set_token
  keep-cases P [] none a c s bad good = bad _ _
  keep-cases P [] (some []) a c s bad good = bad _ _
  keep-cases P [] (some (x ∷ t)) a c s bad good = good _ refl refl
  keep-cases P (x ∷ k) none a c s bad good = good _ refl refl
  keep-cases P (x ∷ k) (some t) a c s bad good = good _ refl refl

  -- What a login on a client without a session gives, from the answer to its request: the session of an answer with a good status and no error, and the summary of the account is saved; or an error, and nothing is saved.
  unfoldable pub Fresh : Result Bytes Response × S → Answer S Bytes → Type 0
  Fresh sent (err e, (c, s)) = s ≡ sent.1
  Fresh sent (ok session, (c, s)) =
      (r : Response) × (l : LoginResponse) × (sent.0 ≡ ok r)
      × (judge v r ≡ ok r.raw)
      × (v.login_response r.raw ≡ ok l)
      × (session ≡ issued r l)
      × (is_empty session ≡ false)
      × (session_of c ≡ session)
      × (s ≡ v.save_account l.summary sent.1)

  failed-Fresh :
      (r : Response) (s : S) (e : Error) (c' : ApiClient) → Fresh (ok r, s) (err e, (c', s))
  unfolding Fresh
  failed-Fresh r s e c' = refl

  issued-Fresh :
      (r : Response) (l : LoginResponse) (s : S)
      → judge v r ≡ ok r.raw
      → v.login_response r.raw ≡ ok l
      → (c' : ApiClient) → is_empty (issued r l) ≡ false
      → session_of c' ≡ issued r l
      → Fresh (ok r, s) (ok (issued r l), (c', v.save_account l.summary s))
  unfolding Fresh
  issued-Fresh r l s good read c' full held = (r, l, refl, good, read, refl, full, held, refl)

  keep-Fresh :
      (r : Response) (l : LoginResponse) (c : ApiClient) (s : S)
      → judge v r ≡ ok r.raw
      → v.login_response r.raw ≡ ok l
      → Fresh (ok r, s) (keep_login v l.summary l.token (take_cookie r (clear_auth c), s))
  unfolding take_cookie issued
  keep-Fresh r l c s good read =
      keep-cases (Fresh (ok r, s)) (extract_cookie r.set_cookie session_cookie) l.token l.summary c
        s (failed-Fresh r s) (issued-Fresh r l s good read)

  decoded-Fresh :
      (r : Response) (c : ApiClient) (s : S)
      → judge v r ≡ ok r.raw
      → Fresh
          (ok r, s)
          (finish_login v (parsed (take_cookie r (clear_auth c), s) (v.login_response r.raw)))
  unfolding finish_login Fresh
  decoded-Fresh r c s good = elim (Result-cases (v.login_response r.raw)) [
    | inl (l, read) ↦ rw read (keep-Fresh r l c s good read)
    | inr (e, read) ↦ rw read refl
  ]

  judge-cases : (r : Response) → (judge v r ≡ ok r.raw) ⊎ ((e : Error) × (judge v r ≡ err e))
  unfolding judge
  judge-cases r = elim (Bool-cases (ltb r.status 200 || leb 300 r.status)) [
    | inl bad ↦ rw bad (inr (_, refl))
    | inr good ↦ elim (Option-cases (check_envelope (v.envelope r.raw))) [
      | inl none' ↦ rw (good, none') (inl refl)
      | inr (e, some') ↦ rw (good, some') (inr (e, refl))
    ]
  ]

  answer-Fresh :
      (c : ApiClient) (sent : Result Bytes Response × S)
      → Fresh sent (finish_login v (decoded v.login_response (after_send v (clear_auth c) sent)))
  unfolding after_send finish_login Fresh
  answer-Fresh c (err m, s) = refl
  answer-Fresh c (ok r, s) = elim (judge-cases r) [
    | inl good ↦ rw good (decoded-Fresh r c s good)
    | inr (e, bad) ↦ rw bad refl
  ]

  -- The request of a login.
  unfoldable pub login_sent : LoginRequest → ApiClient × S → Request
  login_sent r w =
      request post_method (codes "api/1/login") (dev v w) (login_body r (autokick_of r)) w.0

  -- A login on a client whose sign-in was cleared succeeds only by an answer with a status from 200 to 299, no error in its envelope and a readable body, and gives the cookie of that answer or else its token, which is not empty and which the client then holds; the account summary of the answer is saved. A login that fails saves nothing.
  pub login-Fresh :
      (r : LoginRequest) (c : ApiClient) (s : S)
      → Fresh (v.send (login_sent r (clear_auth c, s)) s) (login v r (clear_auth c, s))
  unfolding login do_request login_sent
  login-Fresh r c s = answer-Fresh c (v.send (login_sent r (clear_auth c, s)) s)
