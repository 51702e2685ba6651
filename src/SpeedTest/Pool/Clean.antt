-- ===== src/SpeedTest/Pool/Clean.antt =====
-- The processes that a speed test of openwrt/opensocks/src/speedtest.go leaves.
use open_socks.Prelude.{
  ℕ, ◌+◌, ◌<◌, ◌≡◌, refl, ap, ◌∙◌, Bool, true, false, not, ◌&&◌, List, [], ◌∷◌, arith, ◌==◌, ==_iff,
  if◌then◌else◌, any, filter, All, Result, ok, err, ℤ, pos, lt_ℤ,
}
use open_socks.SpeedTest.Pool.{
  Host, PoolError, not_installed, cleanup_stale, stop_pool, paths_for, spawned, with_pid_file,
  start_paths, all_alive, after_start, start_pool_with_paths, start_pool,
}

-- The processes that are left when those of a list are stopped.
abbrev without : List ℕ → List ℕ → List ℕ
without pids procs = filter (λ q. not (any (λ p. p == q) pids)) procs

unfoldable pub Older : ℕ → List ℕ → Type 0
Older n procs = All (λ q. q < n) procs

without_new :
    (p : ℕ) (pids procs : List ℕ) → Older p procs → without (p ∷ pids) procs ≡ without pids procs
unfolding Older
without_new p pids [] h = refl
without_new p pids (q ∷ qs) (l, h) = ground (arith, l, without_new p pids qs h)

Older-later : (n : ℕ) (procs : List ℕ) → Older n procs → Older (n + 1) procs
unfolding Older
Older-later n [] h = tt
Older-later n (q ∷ qs) (l, h) = (omega (arith, l), Older-later n qs h)

-- The processes of a start stand beside the earlier ones: stopping them leaves those.
Beside : List ℕ → List ℕ → Host → Type 0
Beside base pids h = (without pids h.procs ≡ base) × Older h.next h.procs

-- After a failure only the earlier processes run; after a success they are what a stop leaves.
unfoldable pub Clean : List ℕ → Result PoolError (List ℕ) × Host → Type 0
Clean base (err e, h) = h.procs ≡ base
Clean base (ok pids, h) = (stop_pool pids h).procs ≡ base

newest : (p : ℕ) (pids procs : List ℕ) → without (p ∷ pids) (p ∷ procs) ≡ without (p ∷ pids) procs
newest p pids procs = rw ((==_iff p p).1 refl) refl

stopped : (base pids : List ℕ) (h : Host) → Beside base pids h → (stop_pool pids h).procs ≡ base
unfolding stop_pool Beside
stopped base pids h (e, old) = e

if-Clean :
    (base : List ℕ) (b : Bool) (x y : Result PoolError (List ℕ) × Host)
    → Clean base x
    → Clean base y
    → Clean base (if b then x else y)
if-Clean base true x y h k = h
if-Clean base false x y h k = k

Beside-spawned :
    (base pids : List ℕ) (h : Host) → Beside base pids h → Beside base (h.next ∷ pids) (spawned h)
unfolding Beside Older
Beside-spawned base pids h (e, old) = (
  newest h.next pids h.procs ∙ without_new h.next pids h.procs old ∙ e,
  (omega arith, Older-later h.next h.procs old),
)

start_paths-Clean :
    (base is pids : List ℕ) (h : Host) → Beside base pids h → Clean base (start_paths is pids h)
unfolding start_paths Clean Beside
start_paths-Clean base [] pids h b = stopped base pids h b
start_paths-Clean base (i ∷ is) pids h b =
    if-Clean base (not (h.start_works i)) _ _ (stopped base pids h b) (
      if-Clean base (not (h.write_works i)) _ _
        (stopped base (h.next ∷ pids) (spawned h) (Beside-spawned base pids h b))
        (start_paths-Clean base is (h.next ∷ pids) (with_pid_file i h.next (spawned h))
          (Beside-spawned base pids h b)))

started-Clean :
    (base : List ℕ) (r : Result PoolError (List ℕ) × Host)
    → Clean base r
    → Clean base (after_start r)
unfolding Clean
started-Clean base (err e, h) c = c
started-Clean base (ok pids, h) c = if-Clean base (all_alive h pids) (ok pids, h) _ c c

without_none : (procs : List ℕ) → without [] procs ≡ procs
without_none [] = refl
without_none (q ∷ qs) = ap (λ l. q ∷ l) (without_none qs)

first-Beside : (h : Host) → Older h.next h.procs → Beside h.procs [] h
unfolding Beside
first-Beside h old = (without_none h.procs, old)

there-Clean :
    (base : List ℕ) (b : Bool) (x y : Result PoolError (List ℕ) × Host)
    → b ≡ true
    → Clean base y
    → Clean base (if not b then x else y)
there-Clean base true x y e h = h
there-Clean base false x y e h = absurd (ground (arith, e))

-- Where ss-local is installed and the number of the next process is above those of all that run: a start of the helpers that fails leaves exactly the processes that were left after the clean-up of stale ones, and stopping the helpers of one that succeeds leaves exactly those too.
pub start_pool-Clean :
    (count : ℤ) (second third : Bool) (h : Host)
    → h.installed ≡ true
    → Older (cleanup_stale h).next (cleanup_stale h).procs
    → Clean (cleanup_stale h).procs (start_pool count second third h)
unfolding start_pool start_pool_with_paths
start_pool-Clean count second third h there old =
    let base = (cleanup_stale h).procs in
    let paths =
      paths_for (not (lt_ℤ count (pos 2)) && second) (not (lt_ℤ count (pos 3)) && third) in
    there-Clean base h.installed (err not_installed, h)
      (after_start (start_paths paths [] (cleanup_stale h))) there
      (started-Clean base (start_paths paths [] (cleanup_stale h))
        (start_paths-Clean base paths [] (cleanup_stale h) (first-Beside (cleanup_stale h) old)))
