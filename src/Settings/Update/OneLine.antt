-- ===== src/Settings/Update/OneLine.antt =====
-- The options stay text of one line behind a settings update of openwrt/opensocks/src/server.go.
use open_socks.Prelude.{
  refl, inl, inr, Bool, true, false, not, ◌&&◌, ◌||◌, Option, none, some, arith, if◌then◌else◌,
  Bool-cases, Bytes, codes, bytes_eq, bytes_eq_iff, sym, subst, ℤ, pos, lt_ℤ,
}
use open_socks.Decimal.{itoa, IsOneLine, itoa-IsOneLine}
use open_socks.Settings.{Values, Disk}
use open_socks.Settings.Update.{
  SettingsInput, bool_str, mode_update, flag_update, dual_update, count_update, slot_update,
  updates, save_settings,
}

-- All options are text of one line, which uciSnapshot reads back.
abbrev pub AreOneLine : Values → Type 0
AreOneLine values = (k : Bytes) → IsOneLine (values k)

-- The texts of a request are of one line.
abbrev pub IsPlainInput : SettingsInput → Type 0
IsPlainInput in' =
    IsOneLine in'.region
    × IsOneLine in'.exclude_regions
    × IsOneLine in'.include_domains
    × IsOneLine in'.exclude_domains
    × IsOneLine in'.include_cidrs
    × IsOneLine in'.exclude_cidrs

abbrev IsPlainUpdate : Option Bytes → Type 0
IsPlainUpdate none = Unit
IsPlainUpdate (some v) = IsOneLine v

IsPlainUpdate-if :
    (b : Bool) (x y : Option Bytes)
    → IsPlainUpdate x
    → IsPlainUpdate y
    → IsPlainUpdate (if b then x else y)
IsPlainUpdate-if true x y h k = h
IsPlainUpdate-if false x y h k = k

mode-IsPlainUpdate : (mode : Bytes) → IsPlainUpdate (mode_update mode)
unfolding mode_update
mode-IsPlainUpdate mode =
    elim (Bool-cases (bytes_eq mode (codes "smart") || bytes_eq mode (codes "global"))) [
      | inr e ↦ rw e tt
      | inl e ↦ rw e (elim (Bool-cases (bytes_eq mode (codes "smart"))) [
        | inl s ↦ subst IsOneLine (sym ((bytes_eq_iff mode (codes "smart")).0 s)) smart_line
        | inr s ↦
            subst IsOneLine (sym ((bytes_eq_iff mode (codes "global")).0 (ground (arith, e, s))))
              global_line
      ])
    ]
  where
    smart_line : IsOneLine (codes "smart")
    smart_line = (refl, (refl, (refl, (refl, (refl, tt)))))

    global_line : IsOneLine (codes "global")
    global_line = (refl, (refl, (refl, (refl, (refl, (refl, tt))))))

flag-IsPlainUpdate : (o : Option Bool) → IsPlainUpdate (flag_update o)
unfolding flag_update bool_str
flag-IsPlainUpdate none = tt
flag-IsPlainUpdate (some true) = (refl, tt)
flag-IsPlainUpdate (some false) = (refl, tt)

dual-IsPlainUpdate : (o : Option Bool) → IsPlainUpdate (dual_update o)
unfolding dual_update
dual-IsPlainUpdate none = tt
dual-IsPlainUpdate (some true) = (refl, tt)
dual-IsPlainUpdate (some false) = (refl, tt)

count-IsPlainUpdate : (n : ℤ) (o : Option Bool) → IsPlainUpdate (count_update n o)
unfolding count_update
count-IsPlainUpdate n o =
    IsPlainUpdate-if (not (lt_ℤ n (pos 1)) && not (lt_ℤ (pos 3) n)) (some (itoa n)) (dual_update o)
      (itoa-IsOneLine n) (dual-IsPlainUpdate o)

slot-IsPlainUpdate : (o : Option ℤ) → IsPlainUpdate (slot_update o)
unfolding slot_update
slot-IsPlainUpdate none = tt
slot-IsPlainUpdate (some n) =
    IsPlainUpdate-if (lt_ℤ n (pos 0)) none (some (itoa n)) tt (itoa-IsOneLine n)

updates-IsPlainUpdate :
    (in' : SettingsInput) (k : Bytes) → IsPlainInput in' → IsPlainUpdate (updates in' k)
unfolding updates
updates-IsPlainUpdate in' k (a, b, c, d, e, f) =
    IsPlainUpdate-if (bytes_eq k (codes "mode")) _ _ (mode-IsPlainUpdate in'.mode) (
      IsPlainUpdate-if (bytes_eq k (codes "tun")) _ _ (flag-IsPlainUpdate in'.tun) (
        IsPlainUpdate-if (bytes_eq k (codes "free_only")) _ _ (flag-IsPlainUpdate in'.free_only) (
          IsPlainUpdate-if (bytes_eq k (codes "auto_connect")) _ _
            (flag-IsPlainUpdate in'.auto_connect)
            (IsPlainUpdate-if (bytes_eq k (codes "auto_route")) _ _
              (flag-IsPlainUpdate in'.auto_route)
              (IsPlainUpdate-if (bytes_eq k (codes "session_count")) _ _
                (count-IsPlainUpdate in'.session_count in'.dual_session_experimental)
                (IsPlainUpdate-if (bytes_eq k (codes "slot2_line_id")) _ _
                  (slot-IsPlainUpdate in'.slot2_line_id)
                  (IsPlainUpdate-if (bytes_eq k (codes "slot3_line_id")) _ _
                    (slot-IsPlainUpdate in'.slot3_line_id)
                    (IsPlainUpdate-if (bytes_eq k (codes "region")) (some in'.region) _ a (
                      IsPlainUpdate-if (bytes_eq k (codes "exclude_regions"))
                        (some in'.exclude_regions) _ b
                        (IsPlainUpdate-if (bytes_eq k (codes "include_domains"))
                          (some in'.include_domains) _ c
                          (IsPlainUpdate-if (bytes_eq k (codes "exclude_domains"))
                            (some in'.exclude_domains) _ d
                            (IsPlainUpdate-if (bytes_eq k (codes "include_cidrs"))
                              (some in'.include_cidrs) _ e
                              (IsPlainUpdate-if (bytes_eq k (codes "exclude_cidrs"))
                                (some in'.exclude_cidrs) none f tt)))))))))))))

or_old-IsOneLine :
    (o : Option Bytes) (old : Bytes)
    → IsPlainUpdate o
    → IsOneLine old
    → IsOneLine (elim o [ none ↦ old | some v ↦ v ])
or_old-IsOneLine none old h k = k
or_old-IsOneLine (some v) old h k = h

pub saved-AreOneLine :
    (d : Disk) (in' : SettingsInput)
    → AreOneLine d.options
    → IsPlainInput in'
    → AreOneLine (save_settings d (updates in')).options
unfolding save_settings
saved-AreOneLine d in' h p k =
    or_old-IsOneLine (updates in' k) (d.options k) (updates-IsPlainUpdate in' k p) (h k)
