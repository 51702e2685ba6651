-- ===== src/Latency.antt =====
-- The cache of measured latencies in openwrt/opensocks/src/latency.go. Times are seconds; what a connection or
-- ping gives is an argument, the time of the answer or `none`.
use open_socks.Prelude.{
  ℕ, ◌-◌, ◌≤◌, ◌≡◌, refl, inl, inr, false, not, Option, none, some, List, [], ◌∷◌, arith, ltb, leb,
  if◌then◌else◌, Bool-cases, filter, Bytes, bytes_eq, bytes_eq_refl,
}
use open_socks.Settings.{is_empty}
use open_socks.Settings.{trim_space}

pub record LatencyResult : Type 0 where
  pub answer : Option ℕ
  pub measured_at : ℕ

abbrev pub LatencyCache : Type 0
LatencyCache = List (Bytes × LatencyResult)

-- lineTarget, of the address and the domain of a line.
unfoldable pub line_target : Bytes → Bytes → Bytes
unfolding trim_space
line_target ip_addr domain =
    if is_empty (trim_space ip_addr) then trim_space domain else trim_space ip_addr

-- The entries that are at most ten minutes old.
unfoldable pub evict : ℕ → LatencyCache → LatencyCache
evict now c = filter (λ e. leb (now - e.1.measured_at) 600) c

unfoldable pub cached : Bytes → LatencyCache → Option LatencyResult
unfolding bytes_eq
cached target [] = none
cached target ((k, r) ∷ c) =
    let rest = cached target c in if bytes_eq k target then some r else rest

-- The entry of a target, which replaces an earlier one.
unfoldable pub store : Bytes → LatencyResult → LatencyCache → LatencyCache
unfolding bytes_eq
store target r c = (target, r) ∷ filter (λ e. not (bytes_eq e.0 target)) c

abbrev pub measure : ℕ → Bytes → Option ℕ → LatencyCache → LatencyResult × LatencyCache
measure now target answer c =
    let r : LatencyResult = record { answer = answer; measured_at = now } in (r, store target r c)

abbrev pub hit_or_measure :
    ℕ → Bytes → Option ℕ → LatencyCache → Option LatencyResult → LatencyResult × LatencyCache
hit_or_measure now target answer c none = measure now target answer c
hit_or_measure now target answer c (some r) =
    if ltb (now - r.measured_at) 60 then (r, c) else measure now target answer c

-- pingTarget
unfoldable pub ping_target : ℕ → Bytes → Option ℕ → LatencyCache → LatencyResult × LatencyCache
unfolding evict cached store
ping_target now target answer c =
    if is_empty target
    then (record { answer = none; measured_at = now }, c)
    else hit_or_measure now target answer (evict now c) (cached target (evict now c))

-- The entry of a target, less than a minute old.
unfoldable pub Recent : ℕ → Bytes → LatencyResult × LatencyCache → Type 0
Recent now target (r, c) = (cached target c ≡ some r) × (now - r.measured_at ≤ 59)

stored-Recent :
    (now : ℕ) (target : Bytes) (answer : Option ℕ) (c : LatencyCache)
    → Recent now target (measure now target answer c)
unfolding Recent cached store
stored-Recent now target answer c = (rw (bytes_eq_refl target) refl, omega arith)

hit-Recent :
    (now : ℕ) (target : Bytes) (answer : Option ℕ) (c : LatencyCache) (f : Option LatencyResult)
    → cached target c ≡ f
    → Recent now target (hit_or_measure now target answer c f)
unfolding Recent
hit-Recent now target answer c none e = stored-Recent now target answer c
hit-Recent now target answer c (some r) e = elim (Bool-cases (ltb (now - r.measured_at) 60)) [
  | inl b ↦ rw b (e, ground (arith, b))
  | inr b ↦ rw b (stored-Recent now target answer c)
]

-- A target that is not empty gets a result that is less than a minute old and that the cache then holds for it.
pub ping_target-Recent :
    (now : ℕ) (target : Bytes) (answer : Option ℕ) (c : LatencyCache)
    → is_empty target ≡ false
    → Recent now target (ping_target now target answer c)
unfolding ping_target
ping_target-Recent now target answer c h =
    rw h (hit-Recent now target answer (evict now c) (cached target (evict now c)) refl)
