-- ===== src/SpeedJob.antt =====
-- The speed-test job of openwrt/opensocks/src/speedjob.go. Times are milliseconds; a speed is what the
-- caller measured, in bytes for an interval, and the division to megabits is left out. `result` is
-- what the test of the chosen provider gave, which is the code of speedtest.go.
pub mod Lifetime
use open_socks.Prelude.{
  ℕ, ◌+◌, ◌-◌, Bool, true, false, ◌&&◌, ◌||◌, [], ltb, if◌then◌else◌, Bytes, Result, ok, err, ℤ,
  pos, eq_ℤ, lt_ℤ,
}

pub data Stage : Type 0 where
  idle preparing ping download upload complete failed : Stage

-- A rate: bytes over milliseconds.
pub record Rate : Type 0 where
  pub bytes : ℕ
  pub millis : ℕ

pub record SpeedJob : Type 0 where
  pub running : Bool
  pub provider : Bytes
  pub server_id : Bytes
  pub stage : Stage
  pub ping_ms : ℕ
  pub current : Rate
  pub download : Rate
  pub upload : Rate
  pub dual_session : Bool
  pub streams : ℤ
  pub sessions : ℕ
  pub bytes : ℕ
  pub failure : Bytes
  pub started_at : ℕ
  pub updated_at : ℕ
  pub stage_start : ℕ
  pub stage_bytes : ℕ

-- The job, and the counters that the readers update without its lock.
pub record SpeedState : Type 0 where
  pub job : SpeedJob
  pub stream_limit : ℤ
  pub progress_bytes : ℕ
  pub progress_updated : ℕ

pub data SpeedError : Type 0 where
  already_running bad_streams : SpeedError

abbrev pub no_rate : Rate
no_rate = record { bytes = 0; millis = 0 }

abbrev pub fresh_job : Bytes → Bytes → ℤ → ℕ → SpeedJob
fresh_job provider id streams now = record {
  running = true;
  provider = provider;
  server_id = id;
  stage = preparing;
  ping_ms = 0;
  current = no_rate;
  download = no_rate;
  upload = no_rate;
  dual_session = false;
  streams = streams;
  sessions = 0;
  bytes = 0;
  failure = [];
  started_at = now;
  updated_at = now;
  stage_start = now;
  stage_bytes = 0;
}

-- The default number of streams follows the session count of the settings.
abbrev pub default_streams : ℤ → ℤ → ℤ
default_streams session_count streams =
    if eq_ℤ streams (pos 0) then (if eq_ℤ session_count (pos 3) then pos 6 else pos 4) else streams

abbrev pub bad_range : ℤ → Bool
bad_range n = lt_ℤ n (pos 1) || lt_ℤ (pos 8) n

unfoldable pub start_speed_job :
    ℤ → Bytes → Bytes → ℤ → ℕ → SpeedState → Result SpeedError (Unit {0}) × SpeedState
start_speed_job session_count provider id streams now s =
    let n = default_streams session_count streams in
    if s.job.running
    then (err already_running, s)
    else if bad_range n
    then (err bad_streams, s)
    else (ok tt, record s { job = fresh_job provider id n now; stream_limit = n })

unfoldable pub active_speed_streams : SpeedState → ℤ
active_speed_streams s = if lt_ℤ s.stream_limit (pos 1) then pos 4 else s.stream_limit

-- A change that only a running job takes.
abbrev pub while_running : (SpeedJob → SpeedJob) → SpeedState → SpeedState
while_running f s = if s.job.running then record s { job = f s.job } else s

abbrev pub is_upload : Stage → Bool
is_upload upload = true
is_upload _ = false

abbrev pub is_download : Stage → Bool
is_download download = true
is_download _ = false

unfoldable pub enter_stage : Stage → ℕ → SpeedJob → SpeedJob
enter_stage stage now j = record j {
  download = if is_upload stage && is_download j.stage then j.current else j.download;
  stage = stage;
  current = no_rate;
  bytes = 0;
  stage_start = now;
  stage_bytes = 0;
  updated_at = now;
}

unfoldable pub set_speed_stage : Stage → ℕ → SpeedState → SpeedState
unfolding enter_stage
set_speed_stage stage now s =
    while_running (enter_stage stage now) (record s { progress_bytes = 0; progress_updated = 0 })

unfoldable pub set_speed_ping : ℕ → ℕ → SpeedState → SpeedState
set_speed_ping ms now s = while_running (λ j. record j { ping_ms = ms; updated_at = now }) s

unfoldable pub set_speed_dual : Bool → ℕ → SpeedState → SpeedState
set_speed_dual active now s =
    while_running (λ j. record j { dual_session = active; updated_at = now }) s

unfoldable pub set_speed_sessions : ℕ → ℕ → SpeedState → SpeedState
set_speed_sessions count now s =
    while_running (λ j. record j { sessions = count; dual_session = ltb 1 count; updated_at = now })
      s

-- The update of the shown progress; `0 < d` keeps the rate where no time has passed.
unfoldable pub show_progress : ℕ → ℕ → SpeedJob → SpeedJob
show_progress total now j =
    if is_download j.stage || is_upload j.stage
    then record j {
      stage_bytes = total;
      current =
          if ltb 0 (now - j.stage_start)
          then record { bytes = total; millis = now - j.stage_start }
          else j.current;
      bytes = total;
      updated_at = now;
    }
    else j

-- addSpeedBytes, when no other reader wins the exchange of the time in between.
unfoldable pub add_speed_bytes : ℕ → ℕ → SpeedState → SpeedState
unfolding show_progress
add_speed_bytes n now s =
    let total = s.progress_bytes + n in
    let counted = record s { progress_bytes = total } in
    if ltb (now - s.progress_updated) 50
    then counted
    else while_running (show_progress total now) (record counted { progress_updated = now })

-- The results of a test.
pub record SpeedResult : Type 0 where
  pub ping_ms : ℕ
  pub download : Rate
  pub upload : Rate

-- The end of runSpeedJob.
unfoldable pub finish_speed_job : Result Bytes SpeedResult → ℕ → SpeedState → SpeedState
finish_speed_job (err message) now s = record s {
  job = record s.job { running = false; stage = failed; failure = message; updated_at = now };
}
finish_speed_job (ok r) now s = record s {
  job = record s.job {
    running = false;
    stage = complete;
    updated_at = now;
    ping_ms = r.ping_ms;
    download = r.download;
    upload = r.upload;
  };
}
