-- ===== src/Controller/Retry.antt =====
-- The requests that a call of openwrt/opensocks/src/controller.go makes before it gives up.
use open_socks.Prelude.{
  ℕ, zero, suc, ◌+◌, ◌≤◌, ◌≡◌, refl, ◌∙◌, subst, inl, inr, Bool, true, false, Option, none, some,
  List, [], arith, Bool-cases, Bytes, Result, ok, err,
}
use open_socks.Lines.{Line}
use open_socks.Controller.{
  ApiError, transport, Failure, api, Client, World, keep_session, cycles, get_lines_authenticated,
  after_call, after_reauth, renew, Credentials, reauthenticate, after_renewal, LoginInput,
  is_api_error_code, keep_lines,
}

-- The service's code 20001 in the error of a call itself: the session has expired. The error of a sign-in in between is another.
unfoldable pub expired : Failure → Bool
expired (api e) = is_api_error_code e 20001
expired _ = false

unfoldable pub is_expired : {A : Type 0} → Result Failure A → Bool
unfolding expired
is_expired (err f) = expired f
is_expired (ok _) = false

module _ {N : Type 0} (c : Client N) (calls : N → ℕ) where
  -- At most n more calls than m, and n more where an expired session is the result.
  unfoldable pub Tried : {A : Type 0} → ℕ → ℕ → Result Failure A × World N → Type 0
  Tried n m (r, w) = (calls w.net ≤ m + n) × (is_expired r ≡ true → calls w.net ≡ m + n)

  -- Signing in is not one of the counted calls.
  unfoldable pub SignInFree : Type 0
  SignInFree =
      ((x : N) → calls (c.clear_auth x) ≡ calls x)
      × ((i : LoginInput) (x : N) → calls (c.login i x).1 ≡ calls x)

  -- The outcome of a renewal: no call was made, and the failure is not that of a request.
  Renewed : ℕ → Option Failure × World N → Type 0
  Renewed m (none, w) = calls w.net ≡ m
  Renewed m (some f, w) = (calls w.net ≡ m) × (expired f ≡ false)

  after_renewal-calls :
      (w : World N) (m : ℕ) (r : Result ApiError Bytes × N)
      → calls r.1 ≡ m
      → Renewed m (after_renewal c w r)
  unfolding after_renewal keep_session Renewed expired
  after_renewal-calls w m (ok s, net) h = h
  after_renewal-calls w m (err e, net) h = (h, refl)

  renew-calls :
      SignInFree → (w : World N) (k : Option Credentials) → Renewed (calls w.net) (renew c w k)
  unfolding renew Renewed expired SignInFree
  renew-calls free w none = (refl, refl)
  renew-calls free w (some k) =
      after_renewal-calls w (calls w.net)
        (c.login (record { credentials = k; sms_code = [] }) (c.clear_auth w.net))
        (free.1 (record { credentials = k; sms_code = [] }) (c.clear_auth w.net) ∙ free.0 w.net)

  reauth-Tried :
      {A : Type 0} (n m : ℕ) (next : World N → Result Failure A × World N)
      → ((w : World N) → Tried n (calls w.net) (next w))
      → (r : Option Failure × World N) → Renewed (m + 1) r
      → Tried (suc n) m (after_reauth c next r)
  unfolding Tried Renewed is_expired
  reauth-Tried n m next h (none, w) e =
      let (a, b) = h w in (omega (arith, a, e), λ t. omega (arith, b t, e))
  reauth-Tried n m next h (some f, w) (e, other) = (omega (arith, e), λ t. ground (arith, other, t))

  renewed : SignInFree → (w : World N) → Renewed (calls w.net) (reauthenticate c w)
  unfolding reauthenticate
  renewed free w = renew-calls free w w.store.credentials

  call-Tried :
      {A : Type 0} (n m : ℕ) (next : ApiError → World N → Result Failure A × World N)
      → ((e : ApiError) (w : World N) → Tried n (calls w.net) (next e w))
      → SignInFree
      → (w : World N) (r : Result ApiError A × N) → calls r.1 ≡ m + 1
      → Tried (suc n) m (after_call c next w r)
  unfolding after_call Tried is_expired expired
  call-Tried n m next h free w (ok a, net) e = (omega (arith, e), λ t. ground (arith, t))
  call-Tried n m next h free w (err x, net) e = elim (Bool-cases (is_api_error_code x 20001)) [
    | inr other ↦ rw other (omega (arith, e), λ t. ground (arith, other, t))
    | inl yes' ↦ rw yes' (
        reauth-Tried n m (next x) (h x) (reauthenticate c (record w { net = net })) (
          subst (λ k. Renewed k (reauthenticate c (record w { net = net }))) e
            (renewed free (record w { net = net }))))
  ]

  none-Tried :
      (A : Type 0) (last : ApiError) (w : World N)
      → Tried {A = A} 0 (calls w.net) (err (api last), w)
  unfolding Tried
  none-Tried A last w = (omega arith, λ t. omega arith)

  keep-Tried :
      (n m : ℕ) (r : Result Failure (List Line) × World N)
      → Tried n m r
      → Tried n m (keep_lines c r)
  unfolding Tried
  keep-Tried n m (ok ls, w) h = h
  keep-Tried n m (err f, w) h = h

  cycles-Tried :
      {A : Type 0} (call : N → Result ApiError A × N)
      → ((x : N) → calls (call x).1 ≡ calls x + 1)
      → SignInFree
      → (n : ℕ) (last : ApiError) (w : World N) → Tried n (calls w.net) (cycles c call n last w)
  unfolding cycles
  cycles-Tried call one free zero last w = none-Tried _ last w
  cycles-Tried call one free (suc n) last w =
      call-Tried n (calls w.net) (λ e w'. cycles c call n e w')
        (λ e w'. cycles-Tried call one free n e w') free w (call w.net) (one w.net)

  -- Where the calls of getLines are counted, and signing in makes none: a fetch of the directory makes at most three calls of getLines, whatever the service answers, and it reports that a call itself found the session expired only after all three.
  pub get_lines-Tried :
      ((x : N) → calls (c.get_lines x).1 ≡ calls x + 1)
      → SignInFree
      → (w : World N) → Tried 3 (calls w.net) (get_lines_authenticated c w)
  unfolding get_lines_authenticated
  get_lines-Tried one free w =
      keep-Tried 3 (calls w.net) (cycles c c.get_lines 3 transport w)
        (cycles-Tried c.get_lines one free 3 transport w)
