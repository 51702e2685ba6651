-- ===== src/Api/Attempts.antt =====
-- The requests that the calls of openwrt/opensocks/src/api.go send, by a service that keeps them.
use open_socks.Prelude.{
  ℕ, zero, suc, ◌+◌, ◌≤◌, ◌≡◌, refl, inl, inr, Bool, true, false, ◌⊎◌, List, ◌∷◌, arith, Bool-cases,
  length, Bytes, Result, ok, err,
}
use open_socks.Api.{Error, ApiClient, DeviceParams, Body, Method, Request, Response, Service}
use open_socks.Api.Calls.{
  Answer, do_request, after_send, attempts, after_attempt, is_expired, do_authenticated,
}

abbrev pub with_request :
    {S : Type 0}
    → Request
    → List Request
    → Result Bytes Response × S
    → Result Bytes Response × (List Request × S)
with_request r log (a, s) = (a, (r ∷ log, s))

-- The same service with a log of the requests, the newest first.
unfoldable pub recorded : {S : Type 0} → Service S → Service (List Request × S)
recorded v = record {
  send = λ r w. with_request r w.0 (v.send r w.1);
  parse_url = v.parse_url;
  slot_profile = λ i w. v.slot_profile i w.1;
  slot_identity = λ i w. v.slot_identity i w.1;
  host_identity = λ w. v.host_identity w.1;
  envelope = v.envelope;
  register_response = v.register_response;
  login_response = v.login_response;
  lines_response = v.lines_response;
  sessions_response = v.sessions_response;
  connect_response = v.connect_response;
  save_account = λ a w. (w.0, v.save_account a w.1);
  load_account = λ w. v.load_account w.1;
}

abbrev pub log_of : {S A : Type 0} → Answer (List Request × S) A → List Request
log_of r = r.1.1.0

abbrev pub failed_with : {S A : Type 0} → (Error → Bool) → Answer (List Request × S) A → Bool
failed_with again (ok a, w) = false
failed_with again (err e, w) = again e

-- The number of requests lies above m and up to m + n, and is m + n where the last error asks for another attempt.
unfoldable pub Sent : {S A : Type 0} → (Error → Bool) → ℕ → ℕ → Answer (List Request × S) A → Type 0
Sent again n m r =
    (m + 1 ≤ length (log_of r))
    × (length (log_of r) ≤ m + n)
    × ((failed_with again r ≡ false) ⊎ (length (log_of r) ≡ m + n))

shifted : {P : Type 0} (n m k l : ℕ) → k ≡ m + 1 → P ⊎ (l ≡ k + n) → P ⊎ (l ≡ m + suc n)
shifted n m k l e (inl p) = inl p
shifted n m k l e (inr q) = inr (omega (arith, e, q))

module _ {S A : Type 0} (again : Error → Bool) where
  first-Sent :
      (n m : ℕ) (next : ApiClient × (List Request × S) → Answer (List Request × S) A)
      → ((w : ApiClient × (List Request × S)) → Sent again n (length w.1.0) (next w))
      → (r : Answer (List Request × S) A) → length (log_of r) ≡ m + 1
      → Sent again (suc n) m (after_attempt again next r)
  unfolding Sent
  first-Sent n m next h (ok a, w) e = (omega (arith, e), omega (arith, e), inl refl)
  first-Sent n m next h (err x, w) e = elim (Bool-cases (again x)) [
    | inr other ↦ rw other (omega (arith, e), omega (arith, e), inl other)
    | inl more ↦
        rw more
          (let (a, b, d) = h w in (omega (arith, a, e), omega (arith, b, e), shifted n m _ _ e d))
  ]

  -- A loop over attempts of one request each.
  pub attempts-Sent :
      (call : ApiClient × (List Request × S) → Answer (List Request × S) A)
      → ((w : ApiClient × (List Request × S)) → length (log_of (call w)) ≡ length w.1.0 + 1)
      → (n : ℕ) (w : ApiClient × (List Request × S))
      → Sent again (suc n) (length w.1.0) (attempts again n call w)
  unfolding attempts Sent
  attempts-Sent call one zero w =
      let e = one w in (omega (arith, e), omega (arith, e), inr (omega (arith, e)))
  attempts-Sent call one (suc n) w =
      first-Sent (suc n) (length w.1.0) (attempts again n call) (attempts-Sent call one n) (call w)
        (one w)

module _ {S : Type 0} (v : Service S) (method : Method) (path : Bytes) (params : DeviceParams)
    (body : Body) where
  one_send :
      (c : ApiClient) (log : List Request) (r : Request) (a : Result Bytes Response × S)
      → length (log_of (after_send (recorded v) c (with_request r log a))) ≡ length log + 1
  unfolding after_send
  one_send c log r (ok a, s) = omega arith
  one_send c log r (err m, s) = omega arith

  do_request-one :
      (w : ApiClient × (List Request × S))
      → length (log_of (do_request (recorded v) method path params body w)) ≡ length w.1.0 + 1
  unfolding do_request recorded
  do_request-one (c, (log, s)) = one_send c log _ (v.send _ s)

  settled :
      {A : Type 0} (next : ApiClient × (List Request × S) → Answer (List Request × S) A)
      (r : Answer (List Request × S) A)
      → (failed_with is_expired r ≡ true) ⊎ (after_attempt is_expired next r ≡ r)
  settled next (ok a, w) = inr refl
  settled next (err e, w) = elim (Bool-cases (is_expired e)) [
    | inl more ↦ inl more
    | inr other ↦ inr (rw other refl)
  ]

  -- A call that needs a session sends one request or two. The answer to the first is the result unless it is the code 20001, and where the result is the code 20001 two requests were sent.
  pub do_authenticated-Sent :
      (w : ApiClient × (List Request × S))
      → Sent is_expired 2 (length w.1.0) (do_authenticated (recorded v) method path params body w)
        × ((failed_with is_expired (do_request (recorded v) method path params body w) ≡ true)
            ⊎ (do_authenticated (recorded v) method path params body w
                ≡ do_request (recorded v) method path params body w))
  unfolding do_authenticated attempts
  do_authenticated-Sent w = (
    attempts-Sent is_expired (do_request (recorded v) method path params body) do_request-one 1 w,
    settled (do_request (recorded v) method path params body)
        (do_request (recorded v) method path params body w),
  )
