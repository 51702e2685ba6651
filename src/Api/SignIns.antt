-- ===== src/Api/SignIns.antt =====
-- The sign-ins of the slots in issueConnections of openwrt/opensocks/src/dual_experiment.go, and their files.
use open_socks.Prelude.{
  ℕ, suc, ◌<◌, ◌≡◌, refl, ◌∙◌, ap, inl, inr, false, some, List, [], ◌∷◌, arith, Bool-cases, length,
  Bytes, Result, ok, err,
}
use open_socks.Settings.{is_empty}
use open_socks.Api.{Error, ApiClient, LoginRequest, Service}
use open_socks.Api.Calls.{Answer}
use open_socks.Api.Slots.{
  Files, save_slot_session, Slot, after_save, after_slot_login, login_thrice, sign_in_slot,
  sign_in_all,
}

-- The files of the slots before one are the same.
unfoldable pub Below : ℕ → Files → Files → Type 0
Below slot f f' = (j : ℕ) → j < slot → f'.sessions j ≡ f.sessions j

-- The file of a slot after its sign-in.
abbrev pub Own : ℕ → Result Error Bytes → Files → Type 0
Own slot (ok t) f = (is_empty t ≡ false) × (f.sessions slot ≡ some t)
Own slot (err e) f = Unit {0}

unfoldable pub Saved : ℕ → List (Result Error Bytes × ApiClient) → Files → Type 0
Saved slot [] f = Unit {0}
Saved slot ((r, c) ∷ xs) f = Own slot r f × Saved (suc slot) xs f

abbrev pub Written : ℕ → Bytes → Files → Result Error (Unit {0}) × Files → Type 0
Written slot t f (ok _, f') = (is_empty t ≡ false) × (f'.sessions slot ≡ some t) × Below slot f f'
Written slot t f (err e, f') = Below slot f f'

save-Written : (slot : ℕ) (t : Bytes) (f : Files) → Written slot t f (save_slot_session slot t f)
unfolding save_slot_session Below
save-Written slot t f = elim (Bool-cases (is_empty t)) [
  | inl e ↦ rw e (λ j h. refl)
  | inr e ↦ elim (Bool-cases f.files_work) [
    | inl w ↦ rw (e, w) (e, ground arith, λ j h. ground (arith, h))
    | inr w ↦ rw (e, w) (λ j h. refl)
  ]
]

module _ {S : Type 0} (v : Service S) where
  abbrev pub Step : ℕ → Files → Slot v × (Files × S) → Type 0
  Step slot f ((r, c), (f', s)) = Own slot r f' × Below slot f f'

  after_save-Step :
      (slot : ℕ) (t : Bytes) (c : ApiClient) (s : S) (f : Files)
      (r : Result Error (Unit {0}) × Files)
      → Written slot t f r
      → Step slot f (after_save v t c s r)
  after_save-Step slot t c s f (ok _, f') (full, own, below) = ((full, own), below)
  after_save-Step slot t c s f (err e, f') below = (tt, below)

  after_slot_login-Step :
      (slot : ℕ) (f : Files) (r : Answer S Bytes) → Step slot f (after_slot_login v slot f r)
  unfolding Below
  after_slot_login-Step slot f (err e, (c, s)) = (tt, λ j h. refl)
  after_slot_login-Step slot f (ok t, (c, s)) =
      after_save-Step slot t c s f (save_slot_session slot t f) (save-Written slot t f)

  abbrev pub Steps : ℕ → ℕ → Files → List (Slot v) × (Files × S) → Type 0
  Steps n slot f (xs, (f', s)) = (length xs ≡ n) × Saved slot xs f' × Below slot f f'

  Own-kept :
      (slot : ℕ) (x : Result Error Bytes) (f f' : Files)
      → Below (suc slot) f f'
      → Own slot x f
      → Own slot x f'
  unfolding Below
  Own-kept slot (ok t) f f' h (full, own) = (full, h slot (omega arith) ∙ own)
  Own-kept slot (err e) f f' h u = tt

  join :
      (n slot : ℕ) (f : Files) (x : Slot v × (Files × S)) (xs : List (Slot v) × (Files × S))
      → Step slot f x
      → Steps n (suc slot) x.1.0 xs
      → Steps (suc n) slot f (x.0 ∷ xs.0, xs.1)
  unfolding Below Saved
  join n slot f ((r, c), (f1, s1)) (xs, (f2, s2)) (own, below) (count, saved, kept) = (
    ap suc count,
    (Own-kept slot r f1 f2 kept own, saved),
    λ j h. kept j (omega (arith, h)) ∙ below j h,
  )

  sign_in_slot-Step :
      (r : LoginRequest) (slot : ℕ) (c : ApiClient) (w : Files × S)
      → Step slot w.0 (sign_in_slot v r slot c w)
  unfolding sign_in_slot
  sign_in_slot-Step r slot c (f, s) = after_slot_login-Step slot f (login_thrice v r (c, s))

  pub sign_in_all-Steps :
      (r : LoginRequest) (slot : ℕ) (cs : List ApiClient) (w : Files × S)
      → Steps (length cs) slot w.0 (sign_in_all v r slot cs w)
  unfolding sign_in_all Saved Below
  sign_in_all-Steps r slot [] w = (refl, tt, λ j h. refl)
  sign_in_all-Steps r slot (c ∷ cs) w =
      let x = sign_in_slot v r slot c w in
      join (length cs) slot w.0 x (sign_in_all v r (suc slot) cs x.1) (sign_in_slot-Step r slot c w)
        (sign_in_all-Steps r (suc slot) cs x.1)
