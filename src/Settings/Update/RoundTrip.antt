-- ===== src/Settings/Update/RoundTrip.antt =====
-- What readSettings of openwrt/opensocks/src/uci.go sees behind a settings update of
-- openwrt/opensocks/src/server.go.
use open_socks.Prelude.{
  ℕ, ◌≤◌, ◌≡◌, refl, ap, ◌∙◌, inl, inr, Bool, true, false, not, ◌&&◌, ◌||◌, Option, none, some, [],
  ◌∷◌, arith, ltb, if◌then◌else◌, Bool-cases, Bytes, codes, bytes_eq, ℤ, pos, negsuc, lt_ℤ,
}
use mathlib.Core.Option.{get_or}
use open_socks.Decimal.{atoi, itoa, max_int, atoi-itoa}
use open_socks.Settings.{
  Disk, is_empty, value_bool, or_default, line_id, read_control_port, read_mobile_port, migrate,
  read_settings,
}
use open_socks.Settings.Update.OneLine.{AreOneLine, IsPlainInput, saved-AreOneLine}
use open_socks.Settings.Update.{
  SettingsInput, mode_update, flag_update, dual_update, count_update, slot_update, updates,
  save_settings,
}

-- What an integer setting becomes: the number of the request if it is there and not negative.
abbrev pub chosen_id : Option ℤ → ℤ → ℤ
chosen_id none old = old
chosen_id (some (pos n)) old = pos n
chosen_id (some (negsuc n)) old = old

-- What the number of sessions becomes.
abbrev pub chosen_count : ℤ → Option Bool → ℤ → ℤ
chosen_count n dual old =
    if not (lt_ℤ n (pos 1)) && not (lt_ℤ (pos 3) n)
    then n
    else elim dual [ none ↦ old | some b ↦ if b then pos 2 else pos 1 ]

abbrev pub IsInt : Option ℤ → Type 0
IsInt none = Unit
IsInt (some (pos n)) = n ≤ max_int
IsInt (some (negsuc n)) = Unit

flag_back :
    (o : Option Bool) (old : Bytes) (def : Bool)
    → value_bool (elim (flag_update o) [ none ↦ old | some v ↦ v ]) def
      ≡ get_or o (value_bool old def)
unfolding flag_update value_bool
flag_back none old def = refl
flag_back (some true) old def = refl
flag_back (some false) old def = refl

empty_of : (s : Bytes) → is_empty s ≡ true → s ≡ []
empty_of [] h = refl
empty_of (c ∷ s) h = cc

atoi_empty : atoi [] ≡ (pos 0, false)
unfolding atoi
atoi_empty = refl

emit_not_empty : (n : ℕ) → n ≤ max_int → line_id (itoa (pos n)) ≡ pos n
unfolding line_id
emit_not_empty n h = elim (Bool-cases (is_empty (itoa (pos n)))) [
  | inl e ↦ cc ((ap atoi (empty_of (itoa (pos n)) e) ∙ atoi_empty), atoi-itoa n h)
  | inr e ↦ rw e (ap (λ (q : ℤ × Bool). q.0) (atoi-itoa n h))
]

slot_back :
    (o : Option ℤ) (old : Bytes)
    → IsInt o
    → line_id (elim (slot_update o) [ none ↦ old | some v ↦ v ]) ≡ chosen_id o (line_id old)
unfolding slot_update
slot_back none old h = refl
slot_back (some (pos n)) old h = let e : ltb n 0 ≡ false = ground arith in rw e (emit_not_empty n h)
slot_back (some (negsuc n)) old h = refl

mode_back :
    (mode old : Bytes)
    → or_default (elim (mode_update mode) [ none ↦ old | some v ↦ v ]) (codes "smart") ≡ (
        if bytes_eq mode (codes "smart") || bytes_eq mode (codes "global")
        then mode
        else or_default old (codes "smart"))
unfolding mode_update or_default
mode_back [] old = refl
mode_back (c ∷ mode) old =
    elim (Bool-cases
      (bytes_eq (c ∷ mode) (codes "smart") || bytes_eq (c ∷ mode) (codes "global"))) [
        | inl e ↦ rw e
        | inr e ↦ rw e
      ]

-- How the number of sessions is read, from the two options.
count_of : Bytes → Bytes → ℤ
count_of v old =
    if (atoi v).1 && not (lt_ℤ (atoi v).0 (pos 1)) && not (lt_ℤ (pos 3) (atoi v).0)
    then (atoi v).0
    else if value_bool old false
    then pos 2
    else pos 1

count_of-itoa :
    (n : ℤ) (old : Bytes)
    → (not (lt_ℤ n (pos 1)) && not (lt_ℤ (pos 3) n)) ≡ true
    → count_of (itoa n) old ≡ n
unfolding count_of
count_of-itoa (pos n) old h = ground (arith, atoi-itoa n (ground arith))
count_of-itoa (negsuc n) old h = ground arith

two : (old : Bytes) → count_of (codes "2") old ≡ pos 2
unfolding count_of atoi
two old = refl

one : (old : Bytes) → count_of (codes "1") old ≡ pos 1
unfolding count_of atoi
one old = refl

count_back :
    (n : ℤ) (dual : Option Bool) (v old : Bytes)
    → count_of (elim (count_update n dual) [ none ↦ v | some w ↦ w ]) old
      ≡ chosen_count n dual (count_of v old)
unfolding count_update
count_back n dual v old = elim (Bool-cases (not (lt_ℤ n (pos 1)) && not (lt_ℤ (pos 3) n))) [
  | inl h ↦ rw h (count_of-itoa n old h)
  | inr h ↦ rw h (by_dual dual)
]
  where
    by_dual :
        (dual : Option Bool)
        → count_of (elim (dual_update dual) [ none ↦ v | some w ↦ w ]) old
          ≡ elim dual [ none ↦ count_of v old | some b ↦ if b then pos 2 else pos 1 ]
    by_dual none = refl
    by_dual (some true) = two old
    by_dual (some false) = one old

token_same :
    (d : Disk) (in' : SettingsInput) → (migrate (save_settings d (updates in'))).0 ≡ (migrate d).0
unfolding migrate save_settings updates
token_same d in' = ground arith

-- What a read sees behind a POST to /settings whose texts are of one line, with options of one line and line ids that fit an int, option by option: what the request set, and the old value where it is silent or out of range; the session, the ports, the API and the engine are as before. The options are then still of one line.
pub read-update :
    (d : Disk) (in' : SettingsInput)
    → IsInt in'.slot2_line_id
    → IsInt in'.slot3_line_id
    → AreOneLine d.options
    → IsPlainInput in'
    → let old = (read_settings d).0 in
      AreOneLine (save_settings d (updates in')).options
      × ((read_settings (save_settings d (updates in'))).0 ≡ record old {
        mode =
            if bytes_eq in'.mode (codes "smart") || bytes_eq in'.mode (codes "global")
            then in'.mode
            else old.mode;
        tun = get_or in'.tun old.tun;
        free_only = get_or in'.free_only old.free_only;
        auto_connect = get_or in'.auto_connect old.auto_connect;
        auto_route = get_or in'.auto_route old.auto_route;
        session_count =
            chosen_count in'.session_count in'.dual_session_experimental old.session_count;
        slot2_line_id = chosen_id in'.slot2_line_id old.slot2_line_id;
        slot3_line_id = chosen_id in'.slot3_line_id old.slot3_line_id;
        region = in'.region;
        exclude_regions = in'.exclude_regions;
        include_domains = in'.include_domains;
        exclude_domains = in'.exclude_domains;
        include_cidrs = in'.include_cidrs;
        exclude_cidrs = in'.exclude_cidrs;
      })
unfolding read_settings save_settings updates count_of
read-update d in' h2 h3 lines plain =
    let v = d.options in
    (
      saved-AreOneLine d in' lines plain,
      λ i. record {
        token = token_same d in' i;
        mode = mode_back in'.mode (v (codes "mode")) i;
        tun = flag_back in'.tun (v (codes "tun")) true i;
        free_only = flag_back in'.free_only (v (codes "free_only")) true i;
        auto_connect = flag_back in'.auto_connect (v (codes "auto_connect")) true i;
        auto_route = flag_back in'.auto_route (v (codes "auto_route")) true i;
        session_count =
            count_back in'.session_count in'.dual_session_experimental (v (codes "session_count"))
              (v (codes "dual_session_experimental")) i;
        slot2_line_id = slot_back in'.slot2_line_id (v (codes "slot2_line_id")) h2 i;
        slot3_line_id = slot_back in'.slot3_line_id (v (codes "slot3_line_id")) h3 i;
        region = in'.region;
        exclude_regions = in'.exclude_regions;
        include_domains = in'.include_domains;
        exclude_domains = in'.exclude_domains;
        include_cidrs = in'.include_cidrs;
        exclude_cidrs = in'.exclude_cidrs;
        selected_line_id = line_id (v (codes "selected_line_id"));
        api_domain = or_default (v (codes "api_domain")) (codes "https://abscf2.fobwifi.com");
        control_port = read_control_port v;
        mobile_enabled = value_bool (v (codes "mobile_enabled")) true;
        mobile_port = read_mobile_port v (read_control_port v);
        geoip_url = or_default (v (codes "geoip_url")) (
            codes
              "https://github.com/MetaCubeX/meta-rules-dat/releases/download/latest/country.mmdb");
        engine_binary = or_default (v (codes "engine_binary")) (codes "/usr/bin/ss-redir");
      },
    )
