-- ===== src/Device.antt =====
-- The device that the daemon presents to the service in each of its three slots:
-- openwrt/opensocks/src/device_profile.go and device_identity.go. A file of the state directory is what
-- reading it gave; random bytes are arguments, `none` where the source of randomness fails.
pub mod Profiles
pub mod Mac
use open_socks.Prelude.{
  ℕ, zero, suc, ◌+◌, ◌-◌, ◌/◌, ◌%◌, bit_and, bit_or, String, Bool, false, not, ◌&&◌, Option, none,
  some, List, [], ◌∷◌, ◌++◌, ltb, ◌==◌, if◌then◌else◌, length, get_elem?, take, drop, any, filter,
  Bytes, codes, bytes_eq, Run, done, crash, ℤ, pos, negsuc,
}

-- deviceProfile; a profile of the built-in list is named by its place in it.
pub record DeviceProfile : Type 0 where
  pub model : Bytes
  pub sys_version : Bytes
  pub width_height : Bytes

abbrev pub profile : String → String → DeviceProfile
profile model size = record {
  model = codes model;
  sys_version = codes "16";
  width_height = codes size;
}

unfoldable pub device_profiles : List DeviceProfile
device_profiles =
    profile "Pixel 10" "1080x2424"
    ∷ profile "Pixel 10 Pro" "1280x2856"
    ∷ profile "Pixel 10 Pro XL" "1344x2992"
    ∷ profile "Pixel 9a" "1080x2424"
    ∷ profile "Pixel 9 Pro" "1280x2856"
    ∷ profile "Pixel 9 Pro XL" "1344x2992"
    ∷ []

-- `==` on the struct.
unfoldable pub same_profile : DeviceProfile → DeviceProfile → Bool
unfolding bytes_eq
same_profile a b =
    (bytes_eq a.model b.model && bytes_eq a.sys_version b.sys_version)
    && bytes_eq a.width_height b.width_height

-- readDeviceProfile, of a file's decoded content: only a profile of the list counts.
unfoldable pub known_profile : Option DeviceProfile → Option DeviceProfile
unfolding same_profile device_profiles
known_profile none = none
known_profile (some saved) = if any (same_profile saved) device_profiles then some saved else none

-- The profiles of the three slots, in memory and in the files.
pub record Slots : Type 0 where
  pub cached : List (Option DeviceProfile)
  pub files : List (Option DeviceProfile)
  pub writable : Bool

-- A slot out of range is slot 0.
abbrev pub clamp_slot : ℤ → ℕ
clamp_slot (negsuc _) = 0
clamp_slot (pos n) = if ltb 2 n then 0 else n

abbrev pub entry : List (Option DeviceProfile) → ℕ → Option DeviceProfile
entry ps i = elim (get_elem? ps i) [ none ↦ none | some p ↦ p ]

-- What a slot has: the cached profile, or else the one of its file.
unfoldable pub slot_profile : Slots → ℕ → Option DeviceProfile
unfolding known_profile
slot_profile s i = elim (entry s.cached i) [
  | none ↦ known_profile (entry s.files i)
  | some p ↦ some p
]

abbrev pub profile_list : Option DeviceProfile → List DeviceProfile
profile_list none = []
profile_list (some p) = p ∷ []

-- The profiles of the other slots.
unfoldable pub used_profiles : Slots → ℕ → List DeviceProfile
unfolding slot_profile
used_profiles s slot =
    (if slot == 0 then [] else profile_list (slot_profile s 0))
    ++ (if slot == 1 then [] else profile_list (slot_profile s 1))
    ++ (if slot == 2 then [] else profile_list (slot_profile s 2))

unfoldable pub unused : List DeviceProfile → List DeviceProfile
unfolding same_profile device_profiles
unused used = filter (λ p. not (any (same_profile p) used)) device_profiles

-- The whole list where no profile is left.
unfoldable pub or_all : List DeviceProfile → List DeviceProfile
unfolding device_profiles
or_all [] = device_profiles
or_all (p ∷ ps) = p ∷ ps

unfoldable pub candidates : List DeviceProfile → List DeviceProfile
unfolding unused or_all
candidates used = or_all (unused used)

abbrev pub draw_index : Option ℕ → ℕ → ℕ
draw_index none count = 0
draw_index (some b) count = b % count

abbrev pub at_index : {A : Type 0} → List A → ℕ → Run A
at_index [] i = crash
at_index (x ∷ xs) zero = done x
at_index (x ∷ xs) (suc i) = at_index xs i

-- `candidates[index]`, which crashes out of range.
unfoldable pub draw : Option ℕ → List DeviceProfile → Run DeviceProfile
draw random cs = at_index cs (draw_index random (length cs))

unfoldable pub set_entry :
    ℕ → DeviceProfile → List (Option DeviceProfile) → List (Option DeviceProfile)
set_entry i p [] = []
set_entry zero p (_ ∷ ps) = some p ∷ ps
set_entry (suc i) p (q ∷ ps) = q ∷ set_entry i p ps

abbrev pub keep_profile : ℕ → DeviceProfile → Bool → Slots → Slots
keep_profile slot p to_file s = record s {
  cached = set_entry slot p s.cached;
  files = if to_file then set_entry slot p s.files else s.files;
}

abbrev pub keep_drawn : ℕ → Slots → Run DeviceProfile → Run (DeviceProfile × Slots)
keep_drawn slot s crash = crash
keep_drawn slot s (done p) = done (p, keep_profile slot p s.writable s)

unfoldable pub profile_or_draw :
    ℕ → Option ℕ → Slots → Option DeviceProfile → Run (DeviceProfile × Slots)
unfolding used_profiles candidates draw set_entry
profile_or_draw slot random s (some p) = done (p, keep_profile slot p false s)
profile_or_draw slot random s none =
    keep_drawn slot s (draw random (candidates (used_profiles s slot)))

unfoldable pub persistent_device_profile_for_slot :
    ℤ → Option ℕ → Slots → Run (DeviceProfile × Slots)
unfolding slot_profile profile_or_draw
persistent_device_profile_for_slot n random s =
    profile_or_draw (clamp_slot n) random s (slot_profile s (clamp_slot n))

-- The bytes of a fresh MAC address: the first is made that of a locally administered, unicast one.
unfoldable pub mac_bytes : Bytes → Bytes
mac_bytes [] = []
mac_bytes (b ∷ bs) = bit_and (bit_or b 2) 254 ∷ take 5 bs

abbrev pub hex_digit : ℕ → ℕ
hex_digit n = if ltb n 10 then b'0' + n else b'a' + (n - 10)

-- `%02x`
abbrev pub hex_byte : ℕ → Bytes
hex_byte b = hex_digit (b / 16) ∷ hex_digit (b % 16) ∷ []

unfoldable pub hex_string : Bytes → Bytes
hex_string [] = []
hex_string (b ∷ bs) = hex_byte b ++ hex_string bs

-- The bytes in hexadecimal with colons between them.
unfoldable pub mac_text : Bytes → Bytes
mac_text [] = []
mac_text (b ∷ []) = hex_byte b
mac_text (b ∷ (c ∷ bs)) = hex_byte b ++ b':' ∷ mac_text (c ∷ bs)

pub record DeviceIdentity : Type 0 where
  pub mac : Bytes
  pub uuid : Bytes

-- The identity made from 22 random bytes.
unfoldable pub fresh_identity : Bytes → DeviceIdentity
unfolding mac_bytes hex_string mac_text
fresh_identity random = record {
  mac = mac_text (mac_bytes random);
  uuid = hex_string (take 16 (drop 6 random));
}

-- readDeviceIdentity, of a file's decoded content.
unfoldable pub known_identity : Option DeviceIdentity → Option DeviceIdentity
known_identity none = none
known_identity (some d) = if not (length d.mac == 0) && (length d.uuid == 32) then some d else none

-- The identity of a slot and what is kept of it; `fallback` is the router's own address and hash,
-- which are not kept.
unfoldable pub device_identity :
    Option DeviceIdentity
    → Option DeviceIdentity
    → Option Bytes
    → DeviceIdentity
    → DeviceIdentity × Option DeviceIdentity
unfolding fresh_identity known_identity
device_identity (some d) file random fallback = (d, some d)
device_identity none file random fallback = elim (known_identity file) [
  | some d ↦ (d, some d)
  | none ↦ elim random [
    | none ↦ (fallback, none)
    | some bytes ↦ (fresh_identity bytes, some (fresh_identity bytes))
  ]
]
