-- ===== src/Device/Mac.antt =====
-- The identities of openwrt/opensocks/src/device_identity.go.
use open_socks.Prelude.{
  ℕ, ◌+◌, ◌*◌, ◌<◌, bit_and, bit_or, ◌≡◌, refl, Bool, true, ◌&&◌, some, [], ◌∷◌, arith, ltb, ◌==◌,
  every_below, every_below_sound, length, take, drop, length-take, length-drop, Bytes,
}
use open_socks.Device.{
  mac_bytes, hex_string, mac_text, DeviceIdentity, fresh_identity, known_identity,
}

-- The test of the first byte of a MAC address: a byte, locally administered, and not multicast.
abbrev local_unicast : ℕ → Bool
local_unicast m = ltb m 256 && ((bit_and m 2 == 2) && (bit_and m 1 == 0))

local_unicast_all : every_below (λ b. local_unicast (bit_and (bit_or b 2) 254)) 256 ≡ true
unfolding every_below
local_unicast_all = refl

length-hex_string : (bs : Bytes) → length (hex_string bs) ≡ 2 * length bs
unfolding hex_string
length-hex_string [] = refl
length-hex_string (b ∷ bs) = omega (arith, length-hex_string bs)

-- The lengths of the parts of 22 bytes.
uuid_length :
    (random : Bytes) → length random ≡ 22 → length (hex_string (take 16 (drop 6 random))) ≡ 32
uuid_length random h = omega (
  arith,
  length-hex_string (take 16 (drop 6 random)),
  length-take 16 (drop 6 random),
  length-drop 6 random,
  h,
)

length-mac_text : (b : ℕ) (bs : Bytes) → length (mac_text (b ∷ bs)) ≡ 2 + 3 * length bs
unfolding mac_text
length-mac_text b [] = refl
length-mac_text b (c ∷ bs) = omega (arith, length-mac_text c bs)

mac_length : (random : Bytes) → length random ≡ 22 → length (mac_text (mac_bytes random)) ≡ 17
unfolding mac_bytes
mac_length [] h = ground (arith, h)
mac_length (b ∷ bs) h =
    omega (arith, length-mac_text (bit_and (bit_or b 2) 254) (take 5 bs), length-take 5 bs, h)

known_lem :
    (d : DeviceIdentity) → length d.mac ≡ 17 → length d.uuid ≡ 32 → known_identity (some d) ≡ some d
unfolding known_identity
known_lem d h k = rw (h, k) refl

-- An identity made from 22 random bytes is accepted when it is read back from its file: its MAC address has 17 characters and its UUID 32.
pub known_identity-fresh_identity :
    (random : Bytes)
    → length random ≡ 22
    → (known_identity (some (fresh_identity random)) ≡ some (fresh_identity random))
      × (length (fresh_identity random).mac ≡ 17)
      × (length (fresh_identity random).uuid ≡ 32)
unfolding fresh_identity
known_identity-fresh_identity random h = (
  known_lem (fresh_identity random) (mac_length random h) (uuid_length random h),
  mac_length random h,
  uuid_length random h,
)

-- For every random byte, the first byte of the MAC address is a byte with the bit of a locally administered address set and the multicast bit clear, and the other five are the random ones.
pub mac_bytes-IsLocal :
    (b : ℕ) (bs : Bytes)
    → b < 256
    → (m : ℕ) × (mac_bytes (b ∷ bs) ≡ m ∷ take 5 bs)
      × (m < 256)
      × (bit_and m 2 ≡ 2)
      × (bit_and m 1 ≡ 0)
unfolding mac_bytes
mac_bytes-IsLocal b bs h =
    let t =
      every_below_sound (λ b. local_unicast (bit_and (bit_or b 2) 254)) 256 local_unicast_all b h in
    (bit_and (bit_or b 2) 254, refl, ground (arith, t), ground (arith, t), ground (arith, t))
