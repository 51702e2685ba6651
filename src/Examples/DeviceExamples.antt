-- ===== src/Examples/DeviceExamples.antt =====
-- Random bytes, slots and test runs for the properties of the device, the speed test and the traffic.
use open_socks.Prelude.{
  ◌+◌, ◌^◌, ◌≤◌, ◌<◌, ◌≡◌, refl, true, false, none, some, List, [], ◌∷◌, arith, Bytes, codes, err,
  pos,
}
use open_socks.Device.{profile, Slots, slot_profile, clamp_slot, persistent_device_profile_for_slot}
use open_socks.Device.Profiles.{Given, persistent_device_profile_for_slot-Given}
use open_socks.SpeedJob.{download, idle, fresh_job, SpeedState}
use open_socks.SpeedJob.Lifetime.{
  bytes_report, stage_report, Call, start_call, report_call, finish_call, calls, IsValid,
  calls-IsValid,
}
use open_socks.Traffic.{sample_up}
use open_socks.Traffic.Counting.{
  Interval, steady, renewed, readings, traffic, all_read, all_steady, sample_up-readings,
}

abbrev random_bytes : Bytes
random_bytes = codes "abcdefghijklmnopqrstuv"

-- The first slot is in memory, the second one in its file, and the third one has no profile.
abbrev two_slots : Slots
two_slots = record {
  cached = some (profile "Pixel 10" "1080x2424") ∷ none ∷ none ∷ [];
  files = none ∷ some (profile "Pixel 9a" "1080x2424") ∷ none ∷ [];
  writable = true;
}

persistent_device_profile_for_slot-Given_example :
    Given
      (clamp_slot (pos 2))
      two_slots
      (slot_profile two_slots (clamp_slot (pos 2)))
      (persistent_device_profile_for_slot (pos 2) (some 200) two_slots)
persistent_device_profile_for_slot-Given_example =
    persistent_device_profile_for_slot-Given (pos 2) (some 200) two_slots

abbrev idle_state : SpeedState
idle_state = record {
  job = record (fresh_job [] [] (pos 0) 0) { running = false; stage = idle };
  stream_limit = pos 0;
  progress_bytes = 0;
  progress_updated = 0;
}

idle-IsValid : IsValid idle_state
unfolding IsValid
idle-IsValid = (λ r. ground (arith, r), refl, λ r. omega arith)

abbrev one_test : List Call
one_test =
    start_call (pos 3) (codes "ookla") (codes "1") (pos 0) 1000
    ∷ report_call (stage_report download 1010)
    ∷ report_call (bytes_report 4096 1200)
    ∷ finish_call (err (codes "timeout")) 2000
    ∷ []

calls-IsValid_example : IsValid (calls one_test idle_state)
calls-IsValid_example = calls-IsValid one_test idle_state idle-IsValid

-- A counter that grows, is made anew below its last reading, and grows again.
abbrev intervals : List Interval
intervals = steady 100 ∷ renewed 50 80 ∷ steady 7 ∷ []

intervals_fit : 1000 + traffic intervals < 2 ^ 64
unfolding traffic
intervals_fit = omega arith

all_are_read : all_read intervals ≡ true
unfolding all_read
all_are_read = refl

sample_up-readings_example :
    (sample_up (readings 20 intervals) 20 1000 ≤ 1000 + traffic intervals)
    × (all_steady intervals ≡ true
        → sample_up (readings 20 intervals) 20 1000 ≡ 1000 + traffic intervals)
sample_up-readings_example = sample_up-readings intervals 20 1000 intervals_fit all_are_read
