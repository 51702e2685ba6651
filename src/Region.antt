-- ===== src/Region.antt =====
-- The reputation of the exit address, populateIPHealth of openwrt/opensocks/src/regiontest.go. What the service
-- answers is an argument. The risk is a fraction with a denominator that is not zero, where the code has
-- a floating-point number.
use open_socks.Prelude.{
  ℕ, ◌+◌, ◌-◌, ◌*◌, ◌/◌, ◌≤◌, ◌<◌, ◌≡◌, refl, inl, inr, ◌⊎◌, Bool, true, false, ◌||◌, Option, none,
  some, arith, ltb, if◌then◌else◌, Bool-cases, Bytes, codes, bytes_eq, Result, ok, err, ℤ, pos,
  negsuc,
}
use native.Mathlib.Nat.{div-lt_iff_lt-mul}
use open_socks.Dns.Domains.{lower}

pub data Health : Type 0 where
  unknown good warning poor : Health

pub record Entry : Type 0 where
  pub asn : Bytes
  pub provider : Bytes
  pub organization : Bytes
  pub proxy : Bytes
  pub ip_type : Bytes
  pub risk : Option (ℤ × ℕ)

pub record HealthResult : Type 0 where
  pub health : Health
  pub health_score : ℕ
  pub risk_score : ℕ
  pub entry : Option Entry

-- What the request gave: an error, another status than "ok", no entry for the address, or the entry.
pub data Reputation : Type 0 where
  request_failed lookup_failed entry_missing entry_invalid : Reputation
  entry_found : Entry → Reputation

pub data HealthError : Type 0 where
  invalid_address reputation_failed status_not_ok result_missing invalid_entry : HealthError

-- int(risk + 0.5), of the risk between 0 and 100.
abbrev pub rounded : ℕ → ℕ → ℕ
rounded n d = (2 * n + d) / (2 * d)

abbrev pub capped : ℕ → ℕ → ℕ
capped n d = if ltb (100 * d) n then 100 else rounded n d

unfoldable pub risk_score_of : Option (ℤ × ℕ) → ℕ
risk_score_of none = 0
risk_score_of (some (negsuc _, d)) = 0
risk_score_of (some (pos n, d)) = capped n d

unfoldable pub health_of : ℕ → Bytes → Health
unfolding bytes_eq
health_of risk proxy =
    if ltb 66 risk || bytes_eq (lower proxy) (codes "yes")
    then poor
    else if ltb 25 risk
    then warning
    else good

abbrev pub found : Entry → HealthResult
found e = record {
  health = health_of (risk_score_of e.risk) e.proxy;
  health_score = 100 - risk_score_of e.risk;
  risk_score = risk_score_of e.risk;
  entry = some e;
}

abbrev pub looked_up : Reputation → HealthResult → Result HealthError (Unit {0}) × HealthResult
looked_up request_failed r = (err reputation_failed, r)
looked_up lookup_failed r = (err status_not_ok, r)
looked_up entry_missing r = (err result_missing, r)
looked_up entry_invalid r = (err invalid_entry, r)
looked_up (entry_found e) r = (ok tt, found e)

-- The result is the one of the test, changed in place.
unfoldable pub populate_ip_health :
    Bool → Reputation → HealthResult → Result HealthError (Unit {0}) × HealthResult
unfolding risk_score_of health_of
populate_ip_health valid_address a r =
    if valid_address then looked_up a r else (err invalid_address, r)

-- A denominator.
abbrev pub IsFraction : Option (ℤ × ℕ) → Type 0
IsFraction none = Unit {0}
IsFraction (some (n, d)) = 1 ≤ d

rounded_bound : (n d : ℕ) → 1 ≤ d → n ≤ 100 * d → rounded n d ≤ 100
rounded_bound n d h k =
    let below : rounded n d < 101 =
      (div-lt_iff_lt-mul {k = 2 * d} {x = 2 * n + d} {y = 101} (omega (arith, h))).1
        (omega (arith, h, k)) in
    omega (arith, below)

risk_bound : (r : Option (ℤ × ℕ)) → IsFraction r → risk_score_of r ≤ 100
unfolding risk_score_of
risk_bound none h = omega arith
risk_bound (some (negsuc n, d)) h = omega arith
risk_bound (some (pos n, d)) h = elim (Bool-cases (ltb (100 * d) n)) [
  | inl e ↦ rw e (omega arith)
  | inr e ↦ rw e (rounded_bound n d h (ground (arith, e)))
]

unfoldable pub IsScored : Reputation → Type 0
IsScored (entry_found e) = IsFraction e.risk
IsScored _ = Unit {0}

-- After an error the result is as before; after a success the two scores add up to 100, and the health is poor above a risk of 66 and for a proxy, never good above 25, and good up to 25 without a proxy.
unfoldable pub Scored : HealthResult → Result HealthError (Unit {0}) × HealthResult → Type 0
Scored r (err e, r') = r' ≡ r
Scored r (ok _, r') =
    (r'.health_score + r'.risk_score ≡ 100)
    × ((e : Entry) × (r'.entry ≡ some e)
        × (((r'.health ≡ poor)
              × ((66 < r'.risk_score) ⊎ (bytes_eq (lower e.proxy) (codes "yes") ≡ true)))
            ⊎ ((r'.health ≡ warning) × (25 < r'.risk_score) × (r'.risk_score ≤ 66))
            ⊎ ((r'.health ≡ good)
                × (r'.risk_score ≤ 25)
                × (bytes_eq (lower e.proxy) (codes "yes") ≡ false))))

health_cases :
    (n : ℕ) (proxy : Bytes)
    → ((health_of n proxy ≡ poor) × ((66 < n) ⊎ (bytes_eq (lower proxy) (codes "yes") ≡ true)))
      ⊎ ((health_of n proxy ≡ warning) × (25 < n) × (n ≤ 66))
      ⊎ ((health_of n proxy ≡ good) × (n ≤ 25) × (bytes_eq (lower proxy) (codes "yes") ≡ false))
unfolding health_of
health_cases n proxy = elim (Bool-cases (ltb 66 n)) [
  | inl a ↦ rw a (inl (refl, inl (ground (arith, a))))
  | inr a ↦ elim (Bool-cases (bytes_eq (lower proxy) (codes "yes"))) [
    | inl b ↦ rw (a, b) (inl (refl, inr refl))
    | inr b ↦ elim (Bool-cases (ltb 25 n)) [
      | inl d ↦ rw (a, b, d) (inr (inl (refl, ground (arith, d), ground (arith, a))))
      | inr d ↦ rw (a, b, d) (inr (inr (refl, ground (arith, d), refl)))
    ]
  ]
]

found-Scored : (r : HealthResult) (e : Entry) → IsFraction e.risk → Scored r (ok tt, found e)
unfolding Scored
found-Scored r e h =
    (omega (arith, risk_bound e.risk h), (e, refl, health_cases (risk_score_of e.risk) e.proxy))

looked_up-Scored : (a : Reputation) (r : HealthResult) → IsScored a → Scored r (looked_up a r)
unfolding Scored IsScored
looked_up-Scored request_failed r h = refl
looked_up-Scored lookup_failed r h = refl
looked_up-Scored entry_missing r h = refl
looked_up-Scored entry_invalid r h = refl
looked_up-Scored (entry_found e) r h = found-Scored r e h

-- Whatever the service answers, with a risk that is a fraction: the scores and the health of the result fit together, and an error changes nothing.
pub populate_ip_health-Scored :
    (valid : Bool) (a : Reputation) (r : HealthResult)
    → IsScored a
    → Scored r (populate_ip_health valid a r)
unfolding populate_ip_health Scored
populate_ip_health-Scored true a r h = looked_up-Scored a r h
populate_ip_health-Scored false a r h = refl
