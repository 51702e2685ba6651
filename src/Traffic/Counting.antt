-- ===== src/Traffic/Counting.antt =====
-- The totals of openwrt/opensocks/src/traffic.go against the traffic that the kernel counted.
use open_socks.Prelude.{
  ℕ, ◌+◌, ◌^◌, ◌≤◌, ◌<◌, ◌≡◌, sym, ap, ◌∙◌, subst, Bool, true, false, List, [], ◌∷◌, arith,
}
use open_socks.Traffic.{delta, add_delta, sample_up}

-- What happens to a counter between two readings: it grows, or it grows, is made anew with the table, and grows again, or it grows and the reading at the end fails.
pub data Interval : Type 0 where
  steady : ℕ → Interval
  renewed : ℕ → ℕ → Interval
  unread : ℕ → Interval

-- The readings at the end of each interval; one that fails is zero, as for a name that a map does not have.
unfoldable pub readings : ℕ → List Interval → List ℕ
readings previous [] = []
readings previous (steady n ∷ is) = (previous + n) ∷ readings (previous + n) is
readings previous (renewed a b ∷ is) = b ∷ readings b is
readings previous (unread n ∷ is) = 0 ∷ readings (previous + n) is

-- The traffic of the intervals.
unfoldable pub traffic : List Interval → ℕ
traffic [] = 0
traffic (steady n ∷ is) = n + traffic is
traffic (renewed a b ∷ is) = a + b + traffic is
traffic (unread n ∷ is) = n + traffic is

-- No reading failed.
unfoldable pub all_read : List Interval → Bool
all_read [] = true
all_read (steady _ ∷ is) = all_read is
all_read (renewed _ _ ∷ is) = all_read is
all_read (unread _ ∷ is) = false

unfoldable pub all_steady : List Interval → Bool
all_steady [] = true
all_steady (steady _ ∷ is) = all_steady is
all_steady (renewed _ _ ∷ is) = false
all_steady (unread _ ∷ is) = false

delta-steady : (previous n : ℕ) → delta (previous + n) previous ≡ n
unfolding delta
delta-steady previous n = ground arith

delta_le : (b previous : ℕ) → delta b previous ≤ b
unfolding delta
delta_le b previous = ground arith

add_delta_lem :
    (total current previous : ℕ)
    → total + delta current previous < 2 ^ 64
    → add_delta total current previous ≡ total + delta current previous
unfolding add_delta
add_delta_lem total current previous h = ground (arith, h)

-- As long as the total fits 64 bits and every reading works, sampling never counts more than the traffic there was, however often the table is made anew, and counts exactly that traffic when it is not.
pub sample_up-readings :
    (is : List Interval) (previous total : ℕ)
    → total + traffic is < 2 ^ 64
    → all_read is ≡ true
    → (sample_up (readings previous is) previous total ≤ total + traffic is)
      × (all_steady is ≡ true
          → sample_up (readings previous is) previous total ≡ total + traffic is)
unfolding sample_up readings traffic all_steady all_read
sample_up-readings [] previous total h g = (omega arith, λ t. omega arith)
sample_up-readings (unread n ∷ is) previous total h g = absurd (ground (arith, g))
sample_up-readings (steady n ∷ is) previous total h g =
    let d = delta-steady previous n in
    let e = add_delta_lem total (previous + n) previous (omega (arith, d, h)) in
    let (a, b) = sample_up-readings is (previous + n) (total + n) (omega (arith, h)) g in
    subst
      (λ t.
        (sample_up (readings (previous + n) is) (previous + n) t ≤ total + (n + traffic is))
        × (all_steady is ≡ true
            → sample_up (readings (previous + n) is) (previous + n) t ≡ total + (n + traffic is)))
      (sym (e ∙ ap (λ k. total + k) d)) (omega (arith, a), λ t. omega (arith, b t))
sample_up-readings (renewed x y ∷ is) previous total h g =
    let d = delta_le y previous in
    let e = add_delta_lem total y previous (omega (arith, d, h)) in
    let (a, b) = sample_up-readings is y (total + delta y previous) (omega (arith, d, h)) g in
    subst
      (λ t.
        (sample_up (readings y is) y t ≤ total + (x + y + traffic is))
        × (false ≡ true → sample_up (readings y is) y t ≡ total + (x + y + traffic is)))
      (sym e) (omega (arith, a, d), λ t. ground (arith, t))
