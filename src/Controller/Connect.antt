-- ===== src/Controller/Connect.antt =====
-- What a connect call of openwrt/opensocks/src/controller.go leaves of the engine and the routing.
use open_socks.Prelude.{
  ℕ, zero, suc, ◌+◌, ◌≡◌, refl, ap, ◌∙◌, inl, inr, Bool, true, false, not, ◌&&◌, Option, none, some,
  List, [], ◌∷◌, ltb, if◌then◌else◌, Bool-cases, length, Bytes, Result, ok, err,
}
use open_socks.Lines.{Line}
use open_socks.Session.Boots.{ConnectResponse}
use open_socks.Session.Engine.{
  Engine, System, Started, is_running, is_shadowsocks, start_connections, start_first, start_second,
  start_third, record_start, lines_from,
}
use open_socks.Netfilter.{Kernel}
use open_socks.Controller.{
  ApiError, transport, Failure, Client, World, Outside, refresh_settings, keep_session, cycles,
  get_lines_authenticated, after_call, after_reauth, renew, Credentials, reauthenticate,
  after_renewal, is_api_error_code, keep_lines,
}

-- A start that succeeds marks the engine as connected, with one line for each session.
abbrev pub Connected : ℕ → Started → Type 0
Connected n (ok _, e, s) = (e.connected ≡ true) × (length e.session_lines ≡ n)
Connected n (err _, e, s) = Unit {0}

Connected-if :
    (b : Bool) (k : ℕ) (m n : Started)
    → Connected k m
    → Connected k n
    → Connected k (if b then m else n)
Connected-if true k m n h h' = h
Connected-if false k m n h h' = h'

length-lines_from : (slot : ℕ) (rs : List ConnectResponse) → length (lines_from slot rs) ≡ length rs
length-lines_from slot [] = refl
length-lines_from slot (r ∷ rs) = ap suc (length-lines_from (slot + 1) rs)

third-Connected :
    (all : List ConnectResponse) (first : ConnectResponse) (rs : List ConnectResponse) (e : Engine)
    (s : System)
    → Connected (length all) (start_third all first rs e s)
unfolding start_third record_start
third-Connected all first [] e s = (refl, length-lines_from 1 all)
third-Connected all first (r ∷ rs) e s = elim (Bool-cases (is_shadowsocks r && s.start3)) [
  | inl good ↦ rw (good, start_third) (refl, length-lines_from 1 all)
  | inr bad ↦ rw (bad, start_third) tt
]

second-Connected :
    (all : List ConnectResponse) (first : ConnectResponse) (rs : List ConnectResponse) (e : Engine)
    (s : System)
    → Connected (length all) (start_second all first rs e s)
unfolding start_second
second-Connected all first [] e s = third-Connected all first [] e (record s { config2 = false })
second-Connected all first (r ∷ rs) e s = elim (Bool-cases (is_shadowsocks r && s.start2)) [
  | inl good ↦
      rw (good, start_second)
        (third-Connected all first rs (record e { cmd2 = some s.next })
          (record s { procs = s.next ∷ s.procs; next = s.next + 1; config2 = true }))
  | inr bad ↦ rw (bad, start_second) tt
]

first-Connected :
    (all : List ConnectResponse) (first : ConnectResponse) (rs : List ConnectResponse) (e : Engine)
    (s : System)
    → Connected (length all) (start_first all first rs e s)
unfolding start_first
first-Connected all first rs e s = elim (Bool-cases (is_shadowsocks first && s.start1)) [
  | inl good ↦
      rw (good, start_first)
        (second-Connected all first rs (record e { cmd = some s.next })
          (record s { procs = s.next ∷ s.procs; next = s.next + 1 }))
  | inr bad ↦ rw (bad, start_first) tt
]

pub start_connections-Connected :
    (answers : ℕ → Bool) (rs : List ConnectResponse) (e : Engine) (s : System)
    → Connected (length rs) (start_connections answers rs e s)
unfolding start_connections
start_connections-Connected answers [] e s = tt
start_connections-Connected answers (first ∷ rs) e s =
    let n = suc (length rs) in
    Connected-if (ltb 2 (length rs)) n _ _ tt (
      Connected-if (is_running answers e) n _ _ tt (
        Connected-if (not (is_shadowsocks first)) n _ _ tt (
          Connected-if (not s.installed) n _ _ tt
            (Connected-if (not s.dir_works) n _ _ tt (first-Connected (first ∷ rs) first rs e s)))))

-- The engine, its processes and the routing of a world.
abbrev pub Parts : {N : Type 0} → World N → Engine × System × Kernel
Parts w = (w.engine, w.system, w.kernel)

module _ {N : Type 0} (c : Client N) (o : Outside) where
  pub refresh_settings-Parts : (w : World N) → Parts (refresh_settings c w) ≡ Parts w
  unfolding refresh_settings
  refresh_settings-Parts w = refl

  after_renewal-Parts :
      (w : World N) (r : Result ApiError Bytes × N) → Parts (after_renewal c w r).1 ≡ Parts w
  unfolding after_renewal keep_session
  after_renewal-Parts w (ok s, net) = refl
  after_renewal-Parts w (err e, net) = refl

  renew-Parts : (w : World N) (k : Option Credentials) → Parts (renew c w k).1 ≡ Parts w
  unfolding renew
  renew-Parts w none = refl
  renew-Parts w (some k) =
      after_renewal-Parts w
        (c.login (record { credentials = k; sms_code = [] }) (c.clear_auth w.net))

  reauthenticate-Parts : (w : World N) → Parts (reauthenticate c w).1 ≡ Parts w
  unfolding reauthenticate
  reauthenticate-Parts w = renew-Parts w w.store.credentials

  after_reauth-Parts :
      {A : Type 0} (next : World N → Result Failure A × World N)
      → ((w : World N) → Parts (next w).1 ≡ Parts w)
      → (r : Option Failure × World N) → Parts (after_reauth c next r).1 ≡ Parts r.1
  after_reauth-Parts next h (some f, w) = refl
  after_reauth-Parts next h (none, w) = h w

  after_call-Parts :
      {A : Type 0} (next : ApiError → World N → Result Failure A × World N)
      → ((e : ApiError) (w : World N) → Parts (next e w).1 ≡ Parts w)
      → (w : World N) (r : Result ApiError A × N) → Parts (after_call c next w r).1 ≡ Parts w
  unfolding after_call
  after_call-Parts next h w (ok a, net) = refl
  after_call-Parts next h w (err e, net) = elim (Bool-cases (is_api_error_code e 20001)) [
    | inl t ↦ rw t (
        after_reauth-Parts (next e) (h e) (reauthenticate c (record w { net = net }))
        ∙ reauthenticate-Parts (record w { net = net }))
    | inr f ↦ rw f refl
  ]

  pub cycles-Parts :
      {A : Type 0} (call : N → Result ApiError A × N) (n : ℕ) (last : ApiError) (w : World N)
      → Parts (cycles c call n last w).1 ≡ Parts w
  unfolding cycles
  cycles-Parts call zero last w = refl
  cycles-Parts call (suc n) last w =
      after_call-Parts (λ e w'. cycles c call n e w') (λ e w'. cycles-Parts call n e w') w
        (call w.net)

  keep_lines-Parts :
      (r : Result Failure (List Line) × World N) → Parts (keep_lines c r).1 ≡ Parts r.1
  keep_lines-Parts (ok ls, w) = refl
  keep_lines-Parts (err f, w) = refl

  pub get_lines-Parts : (w : World N) → Parts (get_lines_authenticated c w).1 ≡ Parts w
  unfolding get_lines_authenticated
  get_lines-Parts w =
      keep_lines-Parts (cycles c c.get_lines 3 transport w) ∙ cycles-Parts c.get_lines 3 transport w
