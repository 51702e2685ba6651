-- ===== src/SpeedTest/Runs.antt =====
-- The test of openwrt/opensocks/src/speedtest.go: the stages of runChinaSpeedTest, and the number of streams
-- of a download. What the network answers is an argument: the time of each ping, `none`
-- for one that fails, and the bytes of the transfers. Times are natural numbers, so an average is rounded
-- down where the code's is a floating-point number; the rates of the result are left out.
use open_socks.Prelude.{
  ℕ, zero, suc, ◌+◌, ◌/◌, ◌≤◌, inl, inr, ◌&&◌, Option, none, some, ◌++◌, arith, ltb, ◌==◌,
  if◌then◌else◌, Bool-cases, Bytes, codes, Result, ok, err, ℤ, pos, lt_ℤ,
}
use open_socks.Decimal.{itoa}
use open_socks.SpeedJob.{
  ping, download, upload, SpeedState, set_speed_stage, set_speed_ping, active_speed_streams,
}

pub record Outcomes : Type 0 where
  pub pings : ℕ → Option ℕ
  pub downloaded : ℕ
  pub download_error : Option Bytes
  pub status : ℕ
  pub uploaded : ℕ

pub record SpeedResult : Type 0 where
  pub ping_sum : ℕ
  pub ping_count : ℕ
  pub bytes_downloaded : ℕ
  pub bytes_uploaded : ℕ

-- The sum and the number of the pings that came back, and the job that shows them.
pub record Pings : Type 0 where
  pub sum : ℕ
  pub count : ℕ
  pub state : SpeedState

abbrev pub after_ping : ℕ → Option ℕ → Pings → Pings
after_ping now none p = p
after_ping now (some t) p = record {
  sum = p.sum + t;
  count = p.count + 1;
  state = set_speed_ping ((p.sum + t) / (p.count + 1)) now p.state;
}

-- The loop over at most `n` further attempts, which ends with the third answer.
unfoldable pub ping_loop : ℕ → (ℕ → Option ℕ) → ℕ → ℕ → Pings → Pings
unfolding set_speed_ping
ping_loop now answers zero attempt p = p
ping_loop now answers (suc n) attempt p =
    let next = ping_loop now answers n (suc attempt) (after_ping now (answers attempt) p) in
    if ltb p.count 3 then next else p

abbrev pub after_upload : Outcomes → Pings → SpeedState → Result Bytes SpeedResult × SpeedState
after_upload o p s =
    if o.uploaded == 0 then (err (codes "Ookla upload test was rejected by server"), s) else (
      ok (record {
        ping_sum = p.sum;
        ping_count = p.count;
        bytes_downloaded = o.downloaded;
        bytes_uploaded = o.uploaded;
      }),
      s,
    )

abbrev pub no_download : ℕ → Option Bytes → Bytes
no_download status none =
    (codes "Ookla download test returned HTTP " ++ itoa (pos status))
    ++ codes " with no data; choose another China server"
no_download status (some m) = m

abbrev pub after_download :
    ℕ → Outcomes → Pings → SpeedState → Result Bytes SpeedResult × SpeedState
after_download now o p s =
    if o.downloaded == 0
    then (err (no_download o.status o.download_error), s)
    else after_upload o p (set_speed_stage upload now s)

abbrev pub after_pings : ℕ → Outcomes → Pings → Result Bytes SpeedResult × SpeedState
after_pings now o p =
    if p.count == 0
    then (err (codes "Ookla server did not answer through any active session"), p.state)
    else after_download now o p (set_speed_stage download now p.state)

-- The test behind a start of the helpers, which gives the text of its error or nothing.
unfoldable pub run_china_speed_test :
    ℕ → Option Bytes → Outcomes → SpeedState → Result Bytes SpeedResult × SpeedState
unfolding set_speed_stage ping_loop
run_china_speed_test now (some m) o s = (err m, s)
run_china_speed_test now none o s =
    after_pings now o (
      ping_loop now o.pings 6 0 (record { sum = 0; count = 0; state = set_speed_stage ping now s }))

-- The workers of parallelDownload, for the number of paths in use.
unfoldable pub download_workers : ℕ → SpeedState → ℤ
unfolding active_speed_streams
download_workers paths s =
    if ltb 1 paths && lt_ℤ (pos paths) (active_speed_streams s)
    then pos paths
    else active_speed_streams s

-- The pings after a loop: no fewer than before, at most three, and at most as many more as there were attempts.
Counted : ℕ → Pings → Pings → Type 0
Counted n p q = (p.count ≤ q.count) × (q.count ≤ 3) × (q.count ≤ p.count + n)

after_ping-count :
    (now : ℕ) (a : Option ℕ) (p : Pings)
    → (p.count ≤ (after_ping now a p).count) × ((after_ping now a p).count ≤ p.count + 1)
after_ping-count now none p = (omega arith, omega arith)
after_ping-count now (some t) p = (omega arith, omega arith)

ping_loop-Counted :
    (now : ℕ) (answers : ℕ → Option ℕ) (n attempt : ℕ) (p : Pings)
    → p.count ≤ 3
    → Counted n p (ping_loop now answers n attempt p)
unfolding ping_loop Counted
ping_loop-Counted now answers zero attempt p h = (omega arith, h, omega arith)
ping_loop-Counted now answers (suc n) attempt p h = elim (Bool-cases (ltb p.count 3)) [
  | inr e ↦ rw e (omega arith, h, omega arith)
  | inl e ↦
      let (a, b) = after_ping-count now (answers attempt) p in
      let (x, y, z) =
        ping_loop-Counted now answers n (suc attempt) (after_ping now (answers attempt) p)
          (ground (arith, e, b)) in
      rw e (omega (arith, a, x), y, omega (arith, z, b))
]

-- A result rests on one to three pings and on bytes that were transferred both ways.
unfoldable pub Measured : Result Bytes SpeedResult × SpeedState → Type 0
Measured (err m, s) = Unit {0}
Measured (ok r, s) =
    (1 ≤ r.ping_count) × (r.ping_count ≤ 3) × (1 ≤ r.bytes_downloaded) × (1 ≤ r.bytes_uploaded)

pings-Measured : (now : ℕ) (o : Outcomes) (p : Pings) → p.count ≤ 3 → Measured (after_pings now o p)
unfolding Measured
pings-Measured now o p h = elim (Bool-cases (p.count == 0)) [
  | inl e ↦ rw e tt
  | inr e ↦ elim (Bool-cases (o.downloaded == 0)) [
    | inl f ↦ rw (e, f) tt
    | inr f ↦ elim (Bool-cases (o.uploaded == 0)) [
      | inl g ↦ rw (e, f, g) tt
      | inr g ↦ rw (e, f, g) (ground (arith, e), h, ground (arith, f), ground (arith, g))
    ]
  ]
]

-- Whatever the helpers and the network answer: a test that gives a result has one to three answered pings and at least one byte in each direction.
pub run_china_speed_test-Measured :
    (now : ℕ) (start : Option Bytes) (o : Outcomes) (s : SpeedState)
    → Measured (run_china_speed_test now start o s)
unfolding run_china_speed_test Measured Counted
run_china_speed_test-Measured now (some m) o s = tt
run_china_speed_test-Measured now none o s =
    let begin : Pings = record { sum = 0; count = 0; state = set_speed_stage ping now s } in
    let (a, b, c) = ping_loop-Counted now o.pings 6 0 begin (omega arith) in
    pings-Measured now o (ping_loop now o.pings 6 0 begin) b
