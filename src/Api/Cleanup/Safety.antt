-- ===== src/Api/Cleanup/Safety.antt =====
-- Which sessions the maintenance commands of openwrt/opensocks/src/dual_experiment.go delete.
use open_socks.Prelude.{
  ℕ, ◌+◌, ◌≡◌, refl, sym, subst, ◌∙◌, ◌≢◌, inl, inr, Bool, true, false, List, [], ◌∷◌, arith,
  Bool-cases, Bytes, codes, bytes_eq_iff, Result, ok, err, All, ℤ, pos,
}
use mathlib.Core.List.{Memᴰ}
use open_socks.Settings.{Settings, is_empty}
use open_socks.Api.{
  ApiClient, DeviceParams, AccountSession, Body, sessions_query, session_body, Method, get_method,
  post_method, delete_method, Request, Response, Service, new_api_client_for_slot, configure,
}
use open_socks.Api.Calls.{
  Answer, request, after_send, after_attempt, attempts, is_expired, do_request, do_authenticated,
  parsed, decoded, no_answer, dev, get_sessions, delete_session,
}
use open_socks.Api.Attempts.{recorded, with_request, log_of}
use open_socks.Api.Cleanup.{
  is_external, is_foreign, after_delete, delete_all, own_macs, delete_foreign, external_sessions,
  delete_external_device_sessions,
}

-- Requests for which a property of their method and body holds.
unfoldable pub Holding : (Method → Body → Type 0) → List Request → Type 0
Holding P log = All (λ r. P r.method r.body) log

module _ {S : Type 0} (v : Service S) (P : Method → Body → Type 0) where
  abbrev Log : {A : Type 0} → Answer (List Request × S) A → Type 0
  Log r = Holding P (log_of r)

  sent-Holding :
      (c : ApiClient) (log : List Request) (r : Request) (a : Result Bytes Response × S)
      → P r.method r.body
      → Holding P log
      → Log (after_send (recorded v) c (with_request r log a))
  unfolding after_send Holding
  sent-Holding c log r (ok a, s) p h = (p, h)
  sent-Holding c log r (err m, s) p h = (p, h)

  module _ (method : Method) (body : Body) (p : P method body) where
    do_request-Holding :
        (path : Bytes) (d : DeviceParams) (w : ApiClient × (List Request × S))
        → Holding P w.1.0
        → Log (do_request (recorded v) method path d body w)
    unfolding do_request recorded
    do_request-Holding path d (c, (log, s)) h =
        sent-Holding c log (request method path d body c) (v.send (request method path d body c) s)
          p h

    again-Holding :
        (next : ApiClient × (List Request × S) → Answer (List Request × S) Bytes)
        → ((w : ApiClient × (List Request × S)) → Holding P w.1.0 → Log (next w))
        → (r : Answer (List Request × S) Bytes) → Log r
        → Log (after_attempt is_expired next r)
    again-Holding next h (ok a, w) l = l
    again-Holding next h (err e, w) l = elim (Bool-cases (is_expired e)) [
      | inl more ↦ rw more (h w l)
      | inr last ↦ rw last l
    ]

    do_authenticated-Holding :
        (path : Bytes) (d : DeviceParams) (w : ApiClient × (List Request × S))
        → Holding P w.1.0
        → Log (do_authenticated (recorded v) method path d body w)
    unfolding do_authenticated attempts
    do_authenticated-Holding path d w h =
        again-Holding (do_request (recorded v) method path d body) (do_request-Holding path d)
          (do_request (recorded v) method path d body w) (do_request-Holding path d w h)

  parsed-Holding :
      {A : Type 0} (r : Result Bytes A) (w : ApiClient × (List Request × S))
      → Holding P w.1.0
      → Log (parsed w r)
  parsed-Holding (ok a) w h = h
  parsed-Holding (err m) w h = h

  decoded-Holding :
      {A : Type 0} (parse : Bytes → Result Bytes A) (r : Answer (List Request × S) Bytes)
      → Log r
      → Log (decoded parse r)
  decoded-Holding parse (ok raw, w) h = parsed-Holding (parse raw) w h
  decoded-Holding parse (err e, w) h = h

  get_sessions-Holding :
      P get_method sessions_query
      → (w : ApiClient × (List Request × S)) → Holding P w.1.0
      → Log (get_sessions (recorded v) w)
  unfolding get_sessions
  get_sessions-Holding p w h =
      decoded-Holding (recorded v).sessions_response
        (do_authenticated (recorded v) get_method (codes "api/1/user/sessions") (dev (recorded v) w)
          sessions_query w)
        (do_authenticated-Holding get_method sessions_query p (codes "api/1/user/sessions")
          (dev (recorded v) w) w h)

  no_answer-Holding : (r : Answer (List Request × S) Bytes) → Log r → Log (no_answer r)
  no_answer-Holding (ok a, w) h = h
  no_answer-Holding (err e, w) h = h

  delete_session-Holding :
      (id : Bytes)
      → P delete_method (session_body id)
      → (w : ApiClient × (List Request × S)) → Holding P w.1.0
      → Log (delete_session (recorded v) id w)
  unfolding delete_session
  delete_session-Holding id p w h =
      no_answer-Holding
        (do_authenticated (recorded v) delete_method (codes "api/1/user/sessions")
          (dev (recorded v) w) (session_body id) w)
        (do_authenticated-Holding delete_method (session_body id) p (codes "api/1/user/sessions")
          (dev (recorded v) w) w h)

  next-Holding :
      (next : ApiClient × (List Request × S) → Answer (List Request × S) ℕ)
      → ((w : ApiClient × (List Request × S)) → Holding P w.1.0 → Log (next w))
      → (r : Answer (List Request × S) (Unit {0})) → Log r
      → Log (after_delete (recorded v) next r)
  next-Holding next h (ok u, w) l = h w l
  next-Holding next h (err e, w) l = l

  delete_all-Holding :
      (wanted : AccountSession → Bool) (n : ℕ) (xs : List AccountSession)
      → ((x : AccountSession)
          → Memᴰ x xs
          → wanted x ≡ true
          → P delete_method (session_body x.session))
      → (w : ApiClient × (List Request × S)) → Holding P w.1.0
      → Log (delete_all (recorded v) wanted n xs w)
  unfolding delete_all
  delete_all-Holding wanted n [] p w h = h
  delete_all-Holding wanted n (x ∷ xs) p w h = elim (Bool-cases (wanted x)) [
    | inl yes' ↦ rw yes' (
        next-Holding (delete_all (recorded v) wanted (n + 1) xs)
          (delete_all-Holding wanted (n + 1) xs (λ y m. p y (Memᴰ.tail m)))
          (delete_session (recorded v) x.session w)
          (delete_session-Holding x.session (p x (Memᴰ.head refl) yes') w h))
    | inr no' ↦ rw no' (delete_all-Holding wanted n xs (λ y m. p y (Memᴰ.tail m)) w h)
  ]

-- A request that deletes nothing but a listed session of a device of someone else.
unfoldable pub Foreign : (ℤ → Bytes) → List AccountSession → Method → Body → Type 0
Foreign macs listed get_method b = Unit {0}
Foreign macs listed post_method b = Unit {0}
Foreign macs listed delete_method b =
    (x : AccountSession) × Memᴰ x listed
    × (b ≡ session_body x.session)
    × (is_empty x.session ≡ false)
    × (x.mac ≢ macs (pos 0))
    × (x.mac ≢ macs (pos 1))
    × (x.mac ≢ macs (pos 2))
    × (is_external x ≡ true)

foreign_parts :
    (a b c : Bytes) (x : AccountSession)
    → is_foreign (a ∷ b ∷ c ∷ []) x ≡ true
    → (is_empty x.session ≡ false)
      × (x.mac ≢ a)
      × (x.mac ≢ b)
      × (x.mac ≢ c)
      × (is_external x ≡ true)
unfolding is_foreign
foreign_parts a b c x h = (
  ground (arith, h),
  λ e. ground (arith, h, (bytes_eq_iff x.mac a).1 e),
  λ e. ground (arith, h, (bytes_eq_iff x.mac b).1 e),
  λ e. ground (arith, h, (bytes_eq_iff x.mac c).1 e),
  ground (arith, h),
)

module _ {S : Type 0} (v : Service S) where
  abbrev pub listed_in : Answer (List Request × S) (List AccountSession) → List AccountSession
  listed_in (err e, w) = []
  listed_in (ok xs, w) = xs

  -- The client that the command works with, and the sessions that the service lists to it.
  abbrev pub command_client : Settings → S → ApiClient × (List Request × S)
  command_client cfg s = (
    configure (recorded v) cfg.api_domain cfg.token
        (new_api_client_for_slot (recorded v) cfg.api_domain (pos 0)),
    ([], s),
  )

  abbrev pub listed_sessions : Settings → S → List AccountSession
  listed_sessions cfg s = listed_in (get_sessions (recorded v) (command_client cfg s))

module _ {S : Type 0} (v : Service S) (macs : ℤ → Bytes)
    (same : (i : ℤ) (s : S) → (v.slot_identity i s).mac ≡ macs i) where
  wanted-Foreign :
      (s : List Request × S) (listed : List AccountSession) (x : AccountSession)
      → Memᴰ x listed
      → is_foreign (own_macs (recorded v) s) x ≡ true
      → Foreign macs listed delete_method (session_body x.session)
  unfolding Foreign recorded
  wanted-Foreign (log, s) listed x m h =
      let (full, a, b, c, out) =
        foreign_parts (v.slot_identity (pos 0) s).mac (v.slot_identity (pos 1) s).mac
          (v.slot_identity (pos 2) s).mac x h in
      (
        x,
        m,
        refl,
        full,
        λ e. a (e ∙ sym (same (pos 0) s)),
        λ e. b (e ∙ sym (same (pos 1) s)),
        λ e. c (e ∙ sym (same (pos 2) s)),
        out,
      )

  delete_foreign-Holding :
      (listed : List AccountSession) (r : Answer (List Request × S) (List AccountSession))
      → listed_in v r ≡ listed
      → Holding (Foreign macs listed) (log_of r)
      → Holding (Foreign macs listed) (log_of (delete_foreign (recorded v) r))
  delete_foreign-Holding listed (err e, w) same' h = h
  delete_foreign-Holding listed (ok xs, (c, s)) same' h =
      delete_all-Holding v (Foreign macs listed) (is_foreign (own_macs (recorded v) s)) 0 xs
        (λ x m. wanted-Foreign s listed x (subst (Memᴰ x) same' m)) (c, s) h

  external_sessions-Foreign :
      (b : Bool) (cfg : Settings) (s : S)
      → Holding
          (Foreign macs (listed_sessions v cfg s))
          (log_of (external_sessions (recorded v) b cfg ([], s)))
  unfolding external_sessions Holding Foreign
  external_sessions-Foreign true cfg s = tt
  external_sessions-Foreign false cfg s =
      delete_foreign-Holding (listed_sessions v cfg s)
        (get_sessions (recorded v) (command_client v cfg s)) refl
        (get_sessions-Holding v (Foreign macs (listed_sessions v cfg s)) tt (command_client v cfg s)
          tt)

  -- Where each slot of the router has a fixed address: every session that deleteExternalDeviceSessions asks the service to delete is one that the service lists to the saved session, has an identifier, is listed with none of the addresses of the three slots, and is of an Android or iOS device.
  pub delete_external_device_sessions-Foreign :
      (cfg : Settings) (s : S)
      → Holding
          (Foreign macs (listed_sessions v cfg s))
          (log_of (delete_external_device_sessions (recorded v) cfg ([], s)))
  unfolding delete_external_device_sessions
  delete_external_device_sessions-Foreign cfg s =
      external_sessions-Foreign (is_empty cfg.token) cfg s
