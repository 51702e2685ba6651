-- ===== src/Api/Issue.antt =====
-- What issueConnections of openwrt/opensocks/src/dual_experiment.go gives when it succeeds.
use open_socks.Prelude.{
  ℕ, zero, suc, ◌≤◌, ◌<◌, ◌≡◌, refl, ◌∙◌, ap, inl, inr, ◌⊎◌, false, ◌||◌, Option, none, some, List,
  [], ◌∷◌, arith, ltb, Bool-cases, length, Bytes, Result, ok, err, ℤ, All,
}
use open_socks.Session.Boots.{BootsInfo, ConnectResponse, selected_boot}
use open_socks.Settings.{is_empty}
use open_socks.Controller.{Credentials}
use open_socks.Api.{Error, ApiClient, ConnectRequest, Service}
use open_socks.Api.Calls.{Answer, connect}
use open_socks.Api.Slots.{
  Files, Slot, sign_in_all, or_jwt, slot_login, clients_from, slot_request, with_boot,
  usable_answer, connect_all, all_ok, cons_ok, Issue, issue_of, after_sign_in, with_slots,
  issue_with, issue_connections,
}
use open_socks.Api.SignIns.{Own, Saved, Steps, sign_in_all-Steps}

module _ {S : Type 0} (v : Service S) where
  unfoldable pub HasBoot : ConnectResponse → Type 0
  HasBoot r = (b : BootsInfo) × (selected_boot r ≡ some b)

  -- The files of the slots from one on hold the sessions of a list, none of which is empty.
  unfoldable pub Holds : ℕ → List Bytes → Files → Type 0
  Holds slot [] f = Unit {0}
  Holds slot (t ∷ ts) f = (is_empty t ≡ false) × (f.sessions slot ≡ some t) × Holds (suc slot) ts f

  abbrev Good :
      ℕ
      → List (Result Error Bytes × ApiClient)
      → Files
      → Result Error (List Bytes × List ApiClient)
      → Type 0
  Good slot xs f (err e) = Unit {0}
  Good slot xs f (ok (ts, cs)) = (length ts ≡ length xs) × (length cs ≡ length xs) × Holds slot ts f

  cons-Good :
      (slot : ℕ) (t : Bytes) (c : ApiClient) (xs : List (Result Error Bytes × ApiClient))
      (f : Files) (r : Result Error (List Bytes × List ApiClient))
      → Own slot (ok t) f
      → Good (suc slot) xs f r
      → Good slot ((ok t, c) ∷ xs) f (cons_ok t c r)
  unfolding Holds
  cons-Good slot t c xs f (err e) own h = tt
  cons-Good slot t c xs f (ok (ts, cs)) (full, own) (a, b, h) = (ap suc a, ap suc b, (full, own, h))

  all_ok-Good :
      (slot : ℕ) (xs : List (Result Error Bytes × ApiClient)) (f : Files)
      → Saved slot xs f
      → Good slot xs f (all_ok xs)
  unfolding all_ok Saved Holds
  all_ok-Good slot [] f h = (refl, refl, tt)
  all_ok-Good slot ((err e, c) ∷ xs) f h = tt
  all_ok-Good slot ((ok t, c) ∷ xs) f (own, h) =
      cons-Good slot t c xs f (all_ok xs) own (all_ok-Good (suc slot) xs f h)

  -- The responses of the slots.
  abbrev Connected : Result Error ConnectResponse → Type 0
  Connected (ok r) = HasBoot r
  Connected (err e) = Unit {0}

  with_boot-Connected :
      (r : ConnectResponse) (b : Option BootsInfo)
      → selected_boot r ≡ b
      → Connected (with_boot v r b)
  unfolding HasBoot
  with_boot-Connected r none e = tt
  with_boot-Connected r (some b) e = (b, e)

  usable-Connected : (a : Answer S ConnectResponse) → Connected (usable_answer v a).0.0
  usable-Connected (err e, (c, s)) = tt
  usable-Connected (ok r, (c, s)) = with_boot-Connected r (selected_boot r) refl

  connect_all-Connected :
      (r : ConnectRequest) (ids : List ℤ) (cs : List ApiClient) (s : S)
      → length cs ≡ length ids
      → let xs = (connect_all v r ids cs s).0 in
        (length xs ≡ length ids) × All (λ x. Connected x.0) xs
  unfolding connect_all
  connect_all-Connected r [] cs s h = (refl, tt)
  connect_all-Connected r (id ∷ ids) [] s h = absurd (omega (arith, h))
  connect_all-Connected r (id ∷ ids) (c ∷ cs) s h =
      let a = connect v id (slot_request v id r) (c, s) in
      let (count, rest) = connect_all-Connected r ids cs (usable_answer v a).1 (omega (arith, h)) in
      (ap suc count, (usable-Connected a, rest))

  abbrev Usable :
      List (Result Error ConnectResponse × ApiClient)
      → Result Error (List ConnectResponse × List ApiClient)
      → Type 0
  Usable xs (err e) = Unit {0}
  Usable xs (ok (rs, cs)) = (length rs ≡ length xs) × (length cs ≡ length xs) × All HasBoot rs

  cons-Usable :
      (r : ConnectResponse) (c : ApiClient) (xs : List (Result Error ConnectResponse × ApiClient))
      (a : Result Error (List ConnectResponse × List ApiClient))
      → HasBoot r
      → Usable xs a
      → Usable ((ok r, c) ∷ xs) (cons_ok r c a)
  cons-Usable r c xs (err e) h u = tt
  cons-Usable r c xs (ok (rs, cs)) h (a, b, u) = (ap suc a, ap suc b, (h, u))

  all_ok-Usable :
      (xs : List (Result Error ConnectResponse × ApiClient))
      → All (λ x. Connected x.0) xs
      → Usable xs (all_ok xs)
  unfolding all_ok
  all_ok-Usable [] h = (refl, refl, tt)
  all_ok-Usable ((err e, c) ∷ xs) h = tt
  all_ok-Usable ((ok r, c) ∷ xs) (u, h) = cons-Usable r c xs (all_ok xs) u (all_ok-Usable xs h)

  -- A complete issue for n slots.
  unfoldable pub Complete : ℕ → Result Error Issue × (Files × S) → Type 0
  Complete n (err e, w) = Unit {0}
  Complete n (ok i, (f, s)) =
      (length i.responses ≡ n)
      × (length i.clients ≡ n)
      × (length i.tokens ≡ n)
      × All HasBoot i.responses
      × Holds 0 i.tokens f

  issue_of-Complete :
      (n : ℕ) (tokens : List Bytes) (f : Files) (s : S)
      (xs : List (Result Error ConnectResponse × ApiClient))
      (a : Result Error (List ConnectResponse × List ApiClient))
      → length tokens ≡ n
      → length xs ≡ n
      → Holds 0 tokens f
      → Usable xs a
      → Complete n (issue_of tokens a, (f, s))
  unfolding Complete
  issue_of-Complete n tokens f s xs (err e) t x h u = tt
  issue_of-Complete n tokens f s xs (ok (rs, cs)) t x h (a, b, u) = (a ∙ x, b ∙ x, t, u, h)

  after_sign_in-Complete :
      (ids : List ℤ) (r : ConnectRequest) (xs : List (Slot v)) (w : Files × S)
      (a : Result Error (List Bytes × List ApiClient))
      → length xs ≡ length ids
      → Good 0 xs w.0 a
      → Complete (length ids) (after_sign_in v ids r w a)
  unfolding after_sign_in Complete
  after_sign_in-Complete ids r xs w (err e) n h = tt
  after_sign_in-Complete ids r xs (f, s) (ok (ts, cs)) n (a, b, h) =
      let ys = (connect_all v r ids cs s).0 in
      let (count, all) = connect_all-Connected r ids cs s (b ∙ n) in
      issue_of-Complete (length ids) ts f (connect_all v r ids cs s).1 ys (all_ok ys) (a ∙ n) count
        h (all_ok-Usable ys all)

  length-clients_from : (d : Bytes) (slot n : ℕ) → length (clients_from v d slot n) ≡ n
  unfolding clients_from
  length-clients_from d slot zero = refl
  length-clients_from d slot (suc n) = ap suc (length-clients_from d (suc slot) n)

  with_slots-Complete :
      (ids : List ℤ) (r : ConnectRequest) (n : ℕ) (f : Files) (x : List (Slot v) × (Files × S))
      → n ≡ length ids
      → Steps v n 0 f x
      → Complete (length ids) (with_slots v ids r x)
  with_slots-Complete ids r n f (xs, w) e (count, saved, below) =
      after_sign_in-Complete ids r xs w (all_ok xs) (count ∙ e) (all_ok-Good 0 xs w.0 saved)

  issue_with-Complete :
      (d : Bytes) (ids : List ℤ) (r : ConnectRequest) (k : Option Credentials) (w : Files × S)
      → Complete (length ids) (issue_with v d ids r k w)
  unfolding issue_with Complete
  issue_with-Complete d ids r none w = tt
  issue_with-Complete d ids r (some k) w =
      let cs = clients_from v d 0 (length ids) in
      with_slots-Complete ids r (length cs) w.0
        (sign_in_all v (slot_login (or_jwt k.auth_type) k) 0 cs w)
        (length-clients_from d 0 (length ids))
        (sign_in_all-Steps v (slot_login (or_jwt k.auth_type) k) 0 cs w)

  -- For fewer than two lines or more than three nothing is issued and nothing changes. Otherwise, when the issue succeeds, there is for each line a client, a session that is not empty and stands in the file of its slot, and a response with a usable block.
  pub issue_connections-Complete :
      (d : Bytes) (ids : List ℤ) (r : ConnectRequest) (k : Option Credentials) (w : Files × S)
      → (((length ids < 2) ⊎ (3 < length ids))
          × ((e : Error) × (issue_connections v d ids r k w ≡ (err e, w))))
        ⊎ ((2 ≤ length ids)
            × (length ids ≤ 3)
            × Complete (length ids) (issue_connections v d ids r k w))
  unfolding issue_connections
  issue_connections-Complete d ids r k w =
      elim (Bool-cases (ltb (length ids) 2 || ltb 3 (length ids))) [
        | inl bad ↦ rw bad (inl (ground (arith, bad), (_, refl)))
        | inr good ↦
            rw good
              (inr (ground (arith, good), ground (arith, good), issue_with-Complete d ids r k w))
      ]
