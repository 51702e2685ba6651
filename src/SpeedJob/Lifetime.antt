-- ===== src/SpeedJob/Lifetime.antt =====
-- The life of a speed-test job of openwrt/opensocks/src/speedjob.go, over any sequence of calls.
use open_socks.Prelude.{
  ℕ, ◌+◌, ◌-◌, ◌≤◌, ◌≡◌, refl, ap, ◌∙◌, inl, inr, Bool, true, false, ◌||◌, List, [], ◌∷◌, arith,
  ltb, if◌then◌else◌, Bool-cases, Bytes, Result, ok, err, ℤ,
}
use open_socks.SpeedJob.{
  Stage, SpeedJob, SpeedState, SpeedError, already_running, bad_streams, fresh_job, SpeedResult,
  default_streams, bad_range, start_speed_job, while_running, enter_stage, set_speed_stage,
  set_speed_ping, set_speed_dual, set_speed_sessions, show_progress, add_speed_bytes,
  finish_speed_job, is_download, is_upload,
}

-- The calls of a running test.
pub data Report : Type 0 where
  stage_report : Stage → ℕ → Report
  ping_report : ℕ → ℕ → Report
  dual_report : Bool → ℕ → Report
  sessions_report : ℕ → ℕ → Report
  bytes_report : ℕ → ℕ → Report

unfoldable pub report : Report → SpeedState → SpeedState
unfolding set_speed_stage set_speed_ping set_speed_dual set_speed_sessions add_speed_bytes
report (stage_report st now) s = set_speed_stage st now s
report (ping_report ms now) s = set_speed_ping ms now s
report (dual_report b now) s = set_speed_dual b now s
report (sessions_report n now) s = set_speed_sessions n now s
report (bytes_report n now) s = add_speed_bytes n now s

-- All calls on the job.
pub data Call : Type 0 where
  start_call : ℤ → Bytes → Bytes → ℤ → ℕ → Call
  report_call : Report → Call
  finish_call : Result Bytes SpeedResult → ℕ → Call

unfoldable pub call : Call → SpeedState → SpeedState
unfolding start_speed_job report finish_speed_job
call (start_call session_count provider id streams now) s =
    (start_speed_job session_count provider id streams now s).1
call (report_call r) s = report r s
call (finish_call result now) s = finish_speed_job result now s

unfoldable pub calls : List Call → SpeedState → SpeedState
unfolding call
calls [] s = s
calls (c ∷ cs) s = calls cs (call c s)

unfoldable pub reports : List Report → SpeedState → SpeedState
unfolding report
reports [] s = s
reports (r ∷ rs) s = reports rs (report r s)

-- Between one and eight streams while running; the shown bytes are those of the stage, and while running no more than were counted.
unfoldable pub IsValid : SpeedState → Type 0
IsValid s =
    (s.job.running ≡ true → bad_range s.job.streams ≡ false)
    × (s.job.bytes ≡ s.job.stage_bytes)
    × (s.job.running ≡ true → s.job.stage_bytes ≤ s.progress_bytes)

job_if : (b : Bool) (x y : SpeedState) → b ≡ false → (if b then x else y).job ≡ y.job
job_if true x y h = ground arith
job_if false x y h = refl

idle_job :
    (f : SpeedJob → SpeedJob) (s : SpeedState)
    → s.job.running ≡ false
    → (while_running f s).job ≡ s.job
idle_job f s h = job_if s.job.running (record s { job = f s.job }) s h

idle_bytes :
    (b : Bool) (n now : ℕ) (s : SpeedState)
    → s.job.running ≡ false
    → (if b
        then record s { progress_bytes = n }
        else while_running
            (show_progress n now)
            (record s { progress_bytes = n; progress_updated = now })).job
      ≡ s.job
idle_bytes true n now s h = refl
idle_bytes false n now s h =
    idle_job (show_progress n now) (record s { progress_bytes = n; progress_updated = now }) h

report_idle : (r : Report) (s : SpeedState) → s.job.running ≡ false → (report r s).job ≡ s.job
unfolding report set_speed_stage set_speed_ping set_speed_dual set_speed_sessions add_speed_bytes
report_idle (stage_report st now) s h =
    idle_job (enter_stage st now) (record s { progress_bytes = 0; progress_updated = 0 }) h
report_idle (ping_report ms now) s h =
    idle_job (λ j. record j { ping_ms = ms; updated_at = now }) s h
report_idle (dual_report b now) s h =
    idle_job (λ j. record j { dual_session = b; updated_at = now }) s h
report_idle (sessions_report n now) s h =
    idle_job (λ j. record j { sessions = n; dual_session = ltb 1 n; updated_at = now }) s h
report_idle (bytes_report n now) s h =
    idle_bytes (ltb (now - s.progress_updated) 50) (s.progress_bytes + n) now s h

reports_idle :
    (rs : List Report) (s : SpeedState) → s.job.running ≡ false → (reports rs s).job ≡ s.job
unfolding reports
reports_idle [] s h = refl
reports_idle (r ∷ rs) s h =
    let e = report_idle r s h in
    reports_idle rs (report r s) (ap (λ (j : SpeedJob). j.running) e ∙ h) ∙ e

-- Once a test is finished, whatever its readers and writers still report, in any number and order, the shown job stays exactly as the test left it.
pub reports-finish_speed_job :
    (result : Result Bytes SpeedResult) (now : ℕ) (rs : List Report) (s : SpeedState)
    → (reports rs (finish_speed_job result now s)).job ≡ (finish_speed_job result now s).job
unfolding finish_speed_job
reports-finish_speed_job (ok r) now rs s = reports_idle rs (finish_speed_job (ok r) now s) refl
reports-finish_speed_job (err m) now rs s = reports_idle rs (finish_speed_job (err m) now s) refl

IsValid-if :
    (b : Bool) (x y : SpeedState)
    → (b ≡ true → IsValid x)
    → (b ≡ false → IsValid y)
    → IsValid (if b then x else y)
IsValid-if true x y h k = h refl
IsValid-if false x y h k = k refl

grown-IsValid :
    (total : ℕ) (s : SpeedState)
    → IsValid s
    → s.progress_bytes ≤ total
    → IsValid (record s { progress_bytes = total })
unfolding IsValid
grown-IsValid total s h le = (h.0, h.1, λ r. omega (arith, h.2 r))

shown-IsValid :
    (total now : ℕ) (s : SpeedState)
    → IsValid s
    → s.progress_bytes ≤ total
    → IsValid (record s {
      job = show_progress total now s.job;
      progress_bytes = total;
      progress_updated = now;
    })
unfolding show_progress IsValid
shown-IsValid total now s h le =
    elim (Bool-cases (is_download s.job.stage || is_upload s.job.stage)) [
      | inl e ↦ rw e (h.0, refl, λ r. omega arith)
      | inr e ↦ rw e (h.0, h.1, λ r. omega (arith, h.2 r, le))
    ]

report-IsValid : (r : Report) (s : SpeedState) → IsValid s → IsValid (report r s)
unfolding report set_speed_stage set_speed_ping set_speed_dual set_speed_sessions add_speed_bytes
    IsValid enter_stage
report-IsValid (stage_report st now) s h =
    IsValid-if s.job.running _ (record s { progress_bytes = 0; progress_updated = 0 })
      (λ r. (h.0, refl, λ r'. omega arith)) (λ r. (h.0, h.1, λ r'. ground (arith, r, r')))
report-IsValid (ping_report ms now) s h = IsValid-if s.job.running _ s (λ r. h) (λ r. h)
report-IsValid (dual_report b now) s h = IsValid-if s.job.running _ s (λ r. h) (λ r. h)
report-IsValid (sessions_report n now) s h = IsValid-if s.job.running _ s (λ r. h) (λ r. h)
report-IsValid (bytes_report n now) s h =
    let total = s.progress_bytes + n in
    IsValid-if (ltb (now - s.progress_updated) 50) (record s { progress_bytes = total }) _
      (λ e. grown-IsValid total s h (omega arith))
      (λ e.
        IsValid-if s.job.running _ (record s { progress_bytes = total; progress_updated = now })
          (λ r. shown-IsValid total now s h (omega arith))
          (λ r. (h.0, h.1, λ r'. omega (arith, h.2 r'))))

fresh-IsValid :
    (provider id : Bytes) (n : ℤ) (now : ℕ) (s : SpeedState)
    → bad_range n ≡ false
    → IsValid (record s { job = fresh_job provider id n now; stream_limit = n })
unfolding IsValid
fresh-IsValid provider id n now s good = (λ r. good, refl, λ r. omega arith)

start_if :
    (b bad : Bool) (x y z : Result SpeedError (Unit {0}) × SpeedState)
    → IsValid x.1
    → IsValid y.1
    → (bad ≡ false → IsValid z.1)
    → IsValid (if b then x else if bad then y else z).1
start_if true bad x y z hx hy hz = hx
start_if false true x y z hx hy hz = hy
start_if false false x y z hx hy hz = hz refl

start-IsValid :
    (session_count : ℤ) (provider id : Bytes) (streams : ℤ) (now : ℕ) (s : SpeedState)
    → IsValid s
    → IsValid (start_speed_job session_count provider id streams now s).1
unfolding start_speed_job
start-IsValid session_count provider id streams now s h =
    let n = default_streams session_count streams in
    start_if s.job.running (bad_range n) (err already_running, s) (err bad_streams, s)
      (ok tt, record s { job = fresh_job provider id n now; stream_limit = n }) h h
      (λ good. fresh-IsValid provider id n now s good)

finish-IsValid :
    (result : Result Bytes SpeedResult) (now : ℕ) (s : SpeedState)
    → IsValid s
    → IsValid (finish_speed_job result now s)
unfolding finish_speed_job IsValid
finish-IsValid (ok r) now s h = (λ r'. ground (arith, r'), h.1, λ r'. ground (arith, r'))
finish-IsValid (err m) now s h = (λ r'. ground (arith, r'), h.1, λ r'. ground (arith, r'))

call-IsValid : (c : Call) (s : SpeedState) → IsValid s → IsValid (call c s)
unfolding call
call-IsValid (start_call session_count provider id streams now) s h =
    start-IsValid session_count provider id streams now s h
call-IsValid (report_call r) s h = report-IsValid r s h
call-IsValid (finish_call result now) s h = finish-IsValid result now s h

-- From a valid state, every sequence of starts, reports and ends of tests keeps the job valid: a running job has between one and eight streams, the shown bytes are those of the stage, and a running job shows no more than were counted.
pub calls-IsValid : (cs : List Call) (s : SpeedState) → IsValid s → IsValid (calls cs s)
unfolding calls
calls-IsValid [] s h = h
calls-IsValid (c ∷ cs) s h = calls-IsValid cs (call c s) (call-IsValid c s h)
