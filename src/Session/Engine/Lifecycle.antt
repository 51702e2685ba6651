-- ===== src/Session/Engine/Lifecycle.antt =====
-- Starting and stopping the engine leaves no process of its own behind.
use open_socks.Prelude.{
  ℕ, suc, ◌+◌, ◌≤◌, ◌<◌, ◌≡◌, refl, ap, ◌∙◌, inl, inr, Bool, true, false, not, ◌&&◌, ◌||◌, Option,
  none, some, List, [], ◌∷◌, arith, ltb, ◌==◌, if◌then◌else◌, Bool-cases, length, filter, All, ok,
  err,
}
use open_socks.Session.Boots.{ConnectResponse}
use open_socks.Session.Engine.{
  Engine, System, Started, new_engine, terminate, record_start, start_third, start_second,
  start_first, start_connections, stop, is_shadowsocks,
}

-- Every process has a number below the next one.
abbrev pub IsValid : System → Type 0
IsValid s = All (λ p. p < s.next) s.procs

filter_fresh : (n : ℕ) (ps : List ℕ) → All (λ p. p < n) ps → filter (λ q. not (q == n)) ps ≡ ps
filter_fresh n [] h = refl
filter_fresh n (p ∷ ps) h = ground (arith, filter_fresh n ps h.1)

All-weaken : (n m : ℕ) (ps : List ℕ) → n ≤ m → All (λ p. p < n) ps → All (λ p. p < m) ps
All-weaken n m [] le h = tt
All-weaken n m (p ∷ ps) le h = (omega arith, All-weaken n m ps le h.1)

-- After an error the processes are `base`; after a success they are once the engine is stopped.
abbrev pub Clean : List ℕ → Started → Type 0
Clean base (err x, e, s) = s.procs ≡ base
Clean base (ok u, e, s) = (stop e s).1.procs ≡ base

-- The processes but the one of the handle.
abbrev pub without : Option ℕ → List ℕ → List ℕ
without none ps = ps
without (some p) ps = filter (λ q. not (q == p)) ps

pub procs-terminate : (o : Option ℕ) (s : System) → (terminate o s).procs ≡ without o s.procs
unfolding terminate
procs-terminate none s = refl
procs-terminate (some p) s = refl

pub procs-stop :
    (e : Engine) (s : System)
    → (stop e s).1.procs ≡ without e.cmd3 (without e.cmd2 (without e.cmd s.procs))
unfolding stop
procs-stop e s =
    procs-terminate e.cmd3 (terminate e.cmd2 (terminate e.cmd s))
    ∙ ap (without e.cmd3)
        (procs-terminate e.cmd2 (terminate e.cmd s) ∙ ap (without e.cmd2) (procs-terminate e.cmd s))

Clean-if :
    (b : Bool) (base : List ℕ) (m n : Started)
    → Clean base m
    → Clean base n
    → Clean base (if b then m else n)
Clean-if true base m n c d = c
Clean-if false base m n c d = d

module _ (base : List ℕ) (a : ℕ) (below : All (λ p. p < a) base) where
  drop1 : without (some a) (a ∷ base) ≡ base
  drop1 = ground (arith, filter_fresh a base below)

  drop2 : without (some (suc a)) (without (some a) (suc a ∷ a ∷ base)) ≡ base
  drop2 = ground (
    arith,
    filter_fresh a base below,
    filter_fresh (suc a) base (All-weaken a (suc a) base (omega arith) below),
  )

  drop2_back : without (some a) (without (some (suc a)) (suc a ∷ a ∷ base)) ≡ base
  drop2_back = ground (
    arith,
    filter_fresh a base below,
    filter_fresh (suc a) base (All-weaken a (suc a) base (omega arith) below),
  )

  drop3 :
      without
        (some (suc (suc a)))
        (without (some (suc a)) (without (some a) (suc (suc a) ∷ suc a ∷ a ∷ base)))
      ≡ base
  drop3 = ground (
    arith,
    filter_fresh a base below,
    filter_fresh (suc a) base (All-weaken a (suc a) base (omega arith) below),
    filter_fresh (suc (suc a)) base (All-weaken a (suc (suc a)) base (omega arith) below),
  )

  third-Clean :
      (all : List ConnectResponse) (first : ConnectResponse) (rs : List ConnectResponse)
      (e : Engine) (s : System)
      → e.cmd ≡ some a
      → e.cmd2 ≡ some (suc a)
      → e.cmd3 ≡ none
      → s.procs ≡ suc a ∷ a ∷ base
      → s.next ≡ suc (suc a)
      → Clean base (start_third all first rs e s)
  unfolding start_third
  third-Clean all first [] e s c1 c2 c3 ps n =
      procs-stop (record_start all first e) (record s { config3 = false })
      ∙ rw (c1, c2, c3, ps) drop2
  third-Clean all first (r ∷ rs) e s c1 c2 c3 ps n =
      elim (Bool-cases (is_shadowsocks r && s.start3)) [
        | inl good ↦
            rw (good, start_third)
              (procs-stop (record_start all first (record e { cmd3 = some s.next }))
                  (record s { procs = s.next ∷ s.procs; next = s.next + 1; config3 = true })
                ∙ rw (c1, c2, n, ps) drop3)
        | inr bad ↦
            rw (bad, start_third)
              (let s' = record s { config3 = is_shadowsocks r || s.config3 } in
                procs-terminate e.cmd (terminate e.cmd2 s')
                ∙ ap (without e.cmd) (procs-terminate e.cmd2 s')
                ∙ rw (c1, c2, ps) drop2_back)
      ]

  second-Clean :
      (all : List ConnectResponse) (first : ConnectResponse) (rs : List ConnectResponse)
      (e : Engine) (s : System)
      → e.cmd ≡ some a
      → e.cmd2 ≡ none
      → e.cmd3 ≡ none
      → s.procs ≡ a ∷ base
      → s.next ≡ suc a
      → Clean base (start_second all first rs e s)
  unfolding start_second start_third
  second-Clean all first [] e s c1 c2 c3 ps n =
      procs-stop (record_start all first e) (record s { config2 = false; config3 = false })
      ∙ rw (c1, c2, c3, ps) drop1
  second-Clean all first (r ∷ rs) e s c1 c2 c3 ps n =
      elim (Bool-cases (is_shadowsocks r && s.start2)) [
        | inl good ↦
            rw (good, start_second)
              (third-Clean all first rs (record e { cmd2 = some s.next })
                (record s { procs = s.next ∷ s.procs; next = s.next + 1; config2 = true }) c1
                (ap some n) c3 (rw (n, ps)) (omega (arith, n)))
        | inr bad ↦
            rw (bad, start_second)
              (procs-terminate e.cmd (record s { config2 = is_shadowsocks r || s.config2 })
                ∙ rw (c1, ps) drop1)
      ]

first-Clean :
    (all : List ConnectResponse) (first : ConnectResponse) (rs : List ConnectResponse) (s : System)
    → IsValid s
    → Clean s.procs (start_first all first rs new_engine s)
unfolding start_first
first-Clean all first rs s valid = elim (Bool-cases (is_shadowsocks first && s.start1)) [
  | inl good ↦
      rw (good, start_first)
        (second-Clean s.procs s.next valid all first rs (record new_engine { cmd = some s.next })
          (record s { procs = s.next ∷ s.procs; next = s.next + 1 }) refl refl refl refl
          (omega arith))
  | inr bad ↦ rw (bad, start_first)
]

-- From a stopped engine, whichever of its processes the system refuses to start: a start that fails leaves the processes as they were, and after one that succeeds a stop gives them back.
pub start_connections-Clean :
    (answers : ℕ → Bool) (rs : List ConnectResponse) (s : System)
    → IsValid s
    → Clean s.procs (start_connections answers rs new_engine s)
unfolding start_connections
start_connections-Clean answers [] s valid = refl
start_connections-Clean answers (first ∷ rs) s valid = Clean-if (ltb 2 (length rs)) _ _ _ refl (
    Clean-if (not (is_shadowsocks first)) _ _ _ refl (
      Clean-if (not s.installed) _ _ _ refl
        (Clean-if (not s.dir_works) _ _ _ refl (first-Clean (first ∷ rs) first rs s valid))))
