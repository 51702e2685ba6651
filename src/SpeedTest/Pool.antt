-- ===== src/SpeedTest/Pool.antt =====
-- The helper processes of a speed test, startSpeedSOCKSPoolWithPaths and its clean-up in
-- openwrt/opensocks/src/speedtest.go. A process is its number; a path is 0, 1 or 2, with its configuration, port
-- and process file. The numbers of paths that the speed-test job is told are left out.
pub mod Clean
use open_socks.Prelude.{
  ℕ, zero, suc, ◌+◌, ◌%◌, ◌^◌, Bool, true, not, ◌&&◌, Option, none, some, List, [], ◌∷◌, ◌++◌, ltb,
  ◌==◌, if◌then◌else◌, length, get_elem?, any, filter, Bytes, Result, ok, err, Run, done, crash, ℤ,
  pos, lt_ℤ,
}
use open_socks.Decimal.{atoi, itoa}
use open_socks.Settings.{trim_space}

-- What the processes and files of the host answer: `is_helper` is whether the command line of a process
-- has ss-local in it, and `alive` whether a process takes a signal.
pub record Host : Type 0 where
  pub procs : List ℕ
  pub next : ℕ
  pub pid_files : ℕ → Option Bytes
  pub installed : Bool
  pub start_works : ℕ → Bool
  pub write_works : ℕ → Bool
  pub is_helper : ℕ → Bool
  pub alive : ℕ → Bool

pub data PoolError : Type 0 where
  not_installed start_failed write_failed stopped_early : PoolError

abbrev pub kill : List ℕ → Host → Host
kill pids h = record h { procs = filter (λ q. not (any (λ p. p == q) pids)) h.procs }

abbrev pub remove_file : ℕ → Host → Host
remove_file i h = record h { pid_files = λ j. if j == i then none else h.pid_files j }

abbrev pub kill_stale : ℤ × Bool → Host → Host
kill_stale (pos n, true) h = if ltb 1 n && h.is_helper n then kill (n ∷ []) h else h
kill_stale (_, _) h = h

abbrev pub cleanup_found : ℕ → Option Bytes → Host → Host
cleanup_found i none h = h
cleanup_found i (some raw) h = remove_file i (kill_stale (atoi (trim_space raw)) h)

-- cleanupSpeedSOCKSPID
unfoldable pub cleanup_pid : ℕ → Host → Host
unfolding atoi trim_space
cleanup_pid i h = cleanup_found i (h.pid_files i) h

unfoldable pub cleanup_stale : Host → Host
unfolding cleanup_pid
cleanup_stale h = cleanup_pid 2 (cleanup_pid 1 (cleanup_pid 0 h))

unfoldable pub stop_pool : List ℕ → Host → Host
stop_pool pids h = remove_file 2 (remove_file 1 (remove_file 0 (kill pids h)))

abbrev pub paths_for : Bool → Bool → List ℕ
paths_for dual triple = 0 ∷ ((if dual then 1 ∷ [] else []) ++ (if triple then 2 ∷ [] else []))

abbrev pub port_of : ℕ → ℕ
port_of zero = 7891
port_of (suc zero) = 7893
port_of (suc (suc _)) = 7895

abbrev pub spawned : Host → Host
spawned h = record h { procs = h.next ∷ h.procs; next = h.next + 1 }

abbrev pub with_pid_file : ℕ → ℕ → Host → Host
with_pid_file i pid h = record h {
  pid_files = λ j. if j == i then some (itoa (pos pid)) else h.pid_files j;
}

-- The processes that were started are listed with the newest first.
unfoldable pub start_paths : List ℕ → List ℕ → Host → Result PoolError (List ℕ) × Host
unfolding stop_pool
start_paths [] pids h = (ok pids, h)
start_paths (i ∷ is) pids h =
    let rest = start_paths is (h.next ∷ pids) (with_pid_file i h.next (spawned h)) in
    if not (h.start_works i)
    then (err start_failed, stop_pool pids h)
    else if not (h.write_works i)
    then (err write_failed, stop_pool (h.next ∷ pids) (spawned h))
    else rest

abbrev pub all_alive : Host → List ℕ → Bool
all_alive h pids = not (any (λ p. not (h.alive p)) pids)

abbrev pub after_start : Result PoolError (List ℕ) × Host → Result PoolError (List ℕ) × Host
after_start (err e, h) = (err e, h)
after_start (ok pids, h) =
    if all_alive h pids then (ok pids, h) else (err stopped_early, stop_pool pids h)

unfoldable pub start_pool_with_paths : Bool → Bool → Host → Result PoolError (List ℕ) × Host
unfolding start_paths cleanup_stale
start_pool_with_paths dual triple h =
    if not h.installed
    then (err not_installed, h)
    else after_start (start_paths (paths_for dual triple) [] (cleanup_stale h))

-- startSpeedSOCKSPool, by the session count and whether the second and third configurations exist.
unfoldable pub start_pool : ℤ → Bool → Bool → Host → Result PoolError (List ℕ) × Host
unfolding start_pool_with_paths
start_pool count second third h =
    start_pool_with_paths (not (lt_ℤ count (pos 2)) && second) (not (lt_ℤ count (pos 3)) && third) h

abbrev pub port_or_crash : Option ℕ → Run ℕ
port_or_crash none = crash
port_or_crash (some i) = done (port_of i)

-- The port of the k-th dial, for the counter of 32 bits and an int of 64; the paths are those that were started.
unfoldable pub dial_port : List ℕ → ℕ → Run ℕ
dial_port paths k = port_or_crash (get_elem? paths (k % 2 ^ 32 % length paths))
