-- ===== src/Settings/Ports.antt =====
-- Numbers that reading the settings keeps in range, and the migration of the session.
use open_socks.Prelude.{
  ℕ, zero, suc, ◌<◌, ◌≡◌, refl, sym, ap, ◌∙◌, ◌≢◌, ◌↔◌, ◌⊎◌, inl, inr, Bool, true, false, not, ◌&&◌,
  [], ◌∷◌, arith, if◌then◌else◌, Bool-cases, Bytes, codes, ℤ, pos, negsuc, is_pos, eq_ℤ, lt_ℤ,
  eq_ℤ_iff,
}
use open_socks.Decimal.{atoi}
use open_socks.Settings.{
  Values, Disk, is_empty, value_bool, read_session_count, read_control_port, read_mobile_port,
  read_settings,
}

atoi_empty : atoi [] ≡ (pos 0, false)
unfolding atoi
atoi_empty = refl

in_range :
    (n : ℤ)
    → (not (lt_ℤ n (pos 1)) && not (lt_ℤ (pos 3) n)) ≡ true
    → (n ≡ pos 1) ⊎ (n ≡ pos 2) ⊎ (n ≡ pos 3)
in_range (pos n) h = ground arith
in_range (negsuc n) h = ground arith

count_cases :
    (n : ℤ) (valid dual : Bool)
    → let c =
        if valid && not (lt_ℤ n (pos 1)) && not (lt_ℤ (pos 3) n)
        then n
        else if dual
        then pos 2
        else pos 1 in
      (c ≡ pos 1) ⊎ (c ≡ pos 2) ⊎ (c ≡ pos 3)
count_cases n valid dual =
    elim (Bool-cases (valid && not (lt_ℤ n (pos 1)) && not (lt_ℤ (pos 3) n))) [
      | inl h ↦ rw h (in_range n (ground arith))
      | inr h ↦ rw h (by_dual dual)
    ]
  where
    by_dual :
        (b : Bool) → let c = (if b then pos 2 else pos 1) in (c ≡ pos 1) ⊎ (c ≡ pos 2) ⊎ (c ≡ pos 3)
    by_dual true = inr (inl refl)
    by_dual false = inl refl

-- Whatever UCI holds, the number of sessions is 1, 2 or 3.
pub session_count_range :
    (d : Disk)
    → let n = (read_settings d).0.session_count in (n ≡ pos 1) ⊎ (n ≡ pos 2) ⊎ (n ≡ pos 3)
unfolding read_settings read_session_count
session_count_range d =
    count_cases (atoi (d.options (codes "session_count"))).0
      (atoi (d.options (codes "session_count"))).1
      (value_bool (d.options (codes "dual_session_experimental")) false)

-- The option names a port of its own: a number from 1 to 65535 other than the control port.
abbrev pub Usable : Bytes → ℤ → Type 0
Usable v control = (p : ℕ) × (atoi v ≡ (pos p, true)) × (0 < p) × (p < 65536) × (control ≢ pos p)

port_taken :
    (n c : ℤ) (valid : Bool)
    → ((valid && is_pos n && lt_ℤ n (pos 65536) && not (eq_ℤ n c)) ≡ true)
    → (p : ℕ) × (n ≡ pos p) × (valid ≡ true) × (0 < p) × (p < 65536) × (c ≢ pos p)
port_taken (pos n) c valid h = (
  n,
  refl,
  ground arith,
  ground arith,
  ground arith,
  λ e. ground (arith, (eq_ℤ_iff (pos n) c).1 (sym e)),
)
port_taken (negsuc n) c valid h = ground arith

port_free :
    (n c : ℤ) (p : ℕ)
    → n ≡ pos p
    → 0 < p
    → p < 65536
    → c ≢ pos p
    → (is_pos n && lt_ℤ n (pos 65536) && not (eq_ℤ n c)) ≡ true
port_free (pos zero) c p e low high other = ground arith
port_free (pos (suc n)) c p e low high other = elim (Bool-cases (eq_ℤ (pos (suc n)) c)) [
  | inl same ↦ absurd (other (sym ((eq_ℤ_iff (pos (suc n)) c).0 same) ∙ e))
  | inr differ ↦ rw differ (ground arith)
]
port_free (negsuc n) c p e low high other = cc

-- What the mobile port is, by the two cases.
mobile_cases :
    (values : Values) (c : ℤ)
    → ((p : ℕ) × (read_mobile_port values c ≡ pos p)
        × (c ≢ pos p)
        × Usable (values (codes "mobile_port")) c)
      ⊎ ((read_mobile_port values c ≡ pos 9092) × ¬ (Usable (values (codes "mobile_port")) c))
unfolding read_mobile_port
mobile_cases values c = go (values (codes "mobile_port"))
  where
    go :
        (v : Bytes)
        → let port =
            (if is_empty v
              then pos 9092
              else if (atoi v).1
                  && is_pos (atoi v).0
                  && lt_ℤ (atoi v).0 (pos 65536)
                  && not (eq_ℤ (atoi v).0 c)
              then (atoi v).0
              else pos 9092) in
          ((p : ℕ) × (port ≡ pos p) × (c ≢ pos p) × Usable v c)
          ⊎ ((port ≡ pos 9092) × ¬ (Usable v c))
    go [] = inr (refl, λ (p, e, _, _, _). ground (arith, atoi_empty))
    go (x ∷ v) =
        elim (Bool-cases (
          (atoi (x ∷ v)).1
          && is_pos (atoi (x ∷ v)).0
          && lt_ℤ (atoi (x ∷ v)).0 (pos 65536)
          && not (eq_ℤ (atoi (x ∷ v)).0 c))) [
            | inl good ↦
                let (p, e, valid, low, high, ne) =
                  port_taken (atoi (x ∷ v)).0 c (atoi (x ∷ v)).1 good in
                inl (p, rw good e, ne, (p, ground arith, low, high, ne))
            | inr bad ↦ inr (
              rw bad,
              λ (p, e, low, high, other). ground (
                arith,
                port_free (atoi (x ∷ v)).0 c p (ap (λ (q : ℤ × Bool). q.0) e) low high other,
                ap (λ (q : ℤ × Bool). q.1) e,
              ),
            )
          ]

-- The mobile port is the control port exactly when the control port is 9092, which is the default of the mobile port, and the mobile_port option names no usable port.
pub ports_clash :
    (d : Disk)
    → let s = (read_settings d).0 in
      (s.mobile_port ≡ s.control_port)
      ↔ ((s.control_port ≡ pos 9092) × ¬ (Usable (d.options (codes "mobile_port")) s.control_port))
unfolding read_settings
ports_clash d = elim (mobile_cases d.options (read_control_port d.options)) [
  | inl (p, e, ne, usable) ↦ (λ same. absurd (ne (sym same ∙ e)), λ (_, free). absurd (free usable))
  | inr (e, free) ↦ (λ same. (sym same ∙ e, free), λ (e', _). e ∙ sym e')
]
