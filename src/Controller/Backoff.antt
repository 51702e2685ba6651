-- ===== src/Controller/Backoff.antt =====
-- The routing watchdog and the start of the daemon, openwrt/opensocks/src/controller.go. Times are seconds,
-- zero for Go's zero time; `speed_running` is whether a speed test is running.
use open_socks.Prelude.{
  ℕ, ◌+◌, ◌*◌, ◌≤◌, ◌≡◌, ◌⊎◌, Bool, true, false, not, ◌&&◌, ◌||◌, Option, none, some, ltb,
  if◌then◌else◌, ok, err, negsuc,
}
use open_socks.Session.Engine.{is_running}
use open_socks.Netfilter.{setup_redirect}
use open_socks.Controller.{Client, World, Outside, plan_for, refresh_settings, logged_in}
use open_socks.Controller.Connecting.{Done, connect}
use open_socks.Session.Engine.{active_session_count}

-- The delay after the next failure, and the time before which nothing is tried.
pub record Watch : Type 0 where
  pub backoff : ℕ
  pub next_attempt : ℕ

unfoldable pub first_watch : Watch
first_watch = record { backoff = 10; next_attempt = 0 }

-- `backoff *= 2`, at most five minutes.
unfoldable pub doubled : ℕ → ℕ
doubled n = if ltb 300 (n * 2) then 300 else n * 2

abbrev pub is_missing : {A : Type 0} → Option A → Bool
is_missing none = true
is_missing (some _) = false

module _ {N : Type 0} (c : Client N) (o : Outside) where
  unfoldable pub after_attempt : ℕ → Watch → Done N → Watch × World N
  unfolding doubled first_watch
  after_attempt now watch (ok _, w) = (first_watch, w)
  after_attempt now watch (err f, w) =
      (record { backoff = doubled watch.backoff; next_attempt = now + watch.backoff }, w)

  -- The routing of an engine that runs without it is set up again; an error is only logged.
  unfoldable pub repair_routing : World N → World N
  repair_routing w =
      let (_, k) =
        setup_redirect
          (plan_for o w.cfg w.cfg.mode w.engine.servers (active_session_count o.answers w.engine))
          w.kernel in
      record w { kernel = k }

  -- A tick of autoRouteWatchdog.
  unfoldable pub tick : Bool → ℕ → Watch × World N → Watch × World N
  unfolding after_attempt repair_routing
  tick speed_running now (watch, w0) =
      let w = refresh_settings c w0 in
      if speed_running
      then (watch, w0)
      else if not w.cfg.auto_route
      then (watch, w)
      else if not (is_running o.answers w.engine)
      then if ltb now watch.next_attempt
        then (watch, w)
        else if logged_in c w
        then after_attempt now watch (connect c o (negsuc 0) w)
        else (watch, w)
      else if is_missing w.kernel.table
      then (watch, repair_routing w)
      else (watch, w)

  -- autoConnect
  unfoldable pub auto_connect : World N → World N
  auto_connect w0 =
      let w = refresh_settings c w0 in
      let (_, w') = connect c o (negsuc 0) w in
      if (not w.cfg.auto_connect && not w.cfg.auto_route) || not (logged_in c w) then w else w'

  -- The delay lies between ten seconds and five minutes.
  unfoldable pub IsPaced : Watch → Type 0
  IsPaced watch = (10 ≤ watch.backoff) × (watch.backoff ≤ 300)

  -- The watch behind a call: back at the start after a success; after a failure not to try again for the delay that the call found, with the next delay no shorter.
  unfoldable pub Follows : ℕ → Watch → Done N → Watch → Type 0
  Follows now before (ok _, w) after = after ≡ first_watch
  Follows now before (err f, w) after =
      (after.next_attempt ≡ now + before.backoff) × (before.backoff ≤ after.backoff)

  -- The watch after a tick, with a connect call whose outcome is the second argument: paced, and as before or what follows from that outcome, with the world that the call left.
  unfoldable pub Paced : ℕ → Watch → Done N → Watch × World N → Type 0
  unfolding IsPaced
  Paced now before r (after, w) =
      IsPaced after × ((after ≡ before) ⊎ ((w ≡ r.1) × Follows now before r after))
