-- ===== src/Vault/RoundTrip.antt =====
-- What openwrt/opensocks/src/authstore.go saves is what it loads.
use open_socks.Prelude.{
  ℕ, ◌≡◌, refl, sym, ap, subst, inl, inr, Bool, true, false, Option, none, some, ◌==◌, ==_iff,
  if◌then◌else◌, Bool-cases, length, Bytes, Result, ok, err, pos,
}
use open_socks.Settings.{is_empty}
use open_socks.Controller.{Credentials}
use open_socks.Vault.{
  File, missing, unreadable, content, Envelope, Codec, Vault, VaultError, not_written, aad, new_key,
  key_of, credential_key, sealed_envelope, write_sealed, save_with, save_credentials, read_nonce,
  load_credentials, supported,
}

-- An envelope of two texts of base64.
abbrev pub texts : Codec → Bytes → Bytes → Envelope
texts c a b = record { version = pos 1; nonce = c.base64 a; ciphertext = c.base64 b }

-- What the store relies on: each reader reads what its writer wrote, no text of base64 is empty where
-- its bytes are not, and neither a nonce nor a sealed text is empty.
pub record Laws (c : Codec) : Type 0 where
  pub open-seal :
      (key nonce plain data' : Bytes)
      → c.open' key nonce (c.seal key nonce plain data') data' ≡ some plain
  pub from_base64-base64 : (b : Bytes) → c.from_base64 (c.base64 b) ≡ some b
  pub base64-full : (b : Bytes) → is_empty b ≡ false → is_empty (c.base64 b) ≡ false
  pub seal-full : (key nonce plain data' : Bytes) → is_empty (c.seal key nonce plain data') ≡ false
  pub read-envelope :
      (a b : Bytes) → c.read_envelope (c.show_envelope (texts c a b)) ≡ some (texts c a b)

-- The source of randomness gives a key of 32 bytes and a nonce of the cipher's size, which is not 0, or nothing.
unfoldable pub Random : ℕ → Option Bytes → Type 0
Random n none = Unit {0}
Random n (some b) = (length b ≡ n) × (is_empty b ≡ false)

-- After a save that succeeds, loading gives the credentials and changes nothing; one that fails leaves the file of the credentials.
unfoldable pub Kept : Codec → Credentials → Vault → Result VaultError (Unit {0}) × Vault → Type 0
Kept c k v (err e, v') = v'.credentials_file ≡ v.credentials_file
Kept c k v (ok _, v') = load_credentials c v' ≡ (ok k, v')

module _ (c : Codec) (laws : Laws c) where
  -- A key that is in its file.
  Keyed : Vault → Result VaultError Bytes × Vault → Type 0
  Keyed v (err e, v') = v'.credentials_file ≡ v.credentials_file
  Keyed v (ok key, v') =
      (v'.key_file ≡ content key)
      × (length key ≡ 32)
      × (v'.random_nonce ≡ v.random_nonce)
      × (v'.credentials_file ≡ v.credentials_file)

  new_key-Keyed : (v : Vault) (r : Option Bytes) → Random 32 r → Keyed v (new_key r v)
  unfolding Keyed Random
  new_key-Keyed v none h = refl
  new_key-Keyed v (some key) (n, h) = elim (Bool-cases v.key_writable) [
    | inl w ↦ rw w (refl, n, refl, refl)
    | inr w ↦ rw w refl
  ]

  key_of-Keyed :
      (v : Vault) (f : File) → v.key_file ≡ f → Random 32 v.random_key → Keyed v (key_of f v)
  unfolding Keyed
  key_of-Keyed v missing e h = new_key-Keyed v v.random_key h
  key_of-Keyed v unreadable e h = refl
  key_of-Keyed v (content key) e h = elim (Bool-cases (length key == 32)) [
    | inl n ↦ rw n (e, (==_iff (length key) 32).0 n, refl, refl)
    | inr n ↦ rw n refl
  ]

  opened :
      (key nonce : Bytes) (k : Credentials)
      → c.read_credentials (c.show_credentials k) ≡ some k
      → length nonce ≡ c.nonce_size
      → read_nonce c key (sealed_envelope c key nonce k) (c.from_base64 (c.base64 nonce)) ≡ ok k
  opened key nonce k json n =
      rw
        (
          laws.from_base64-base64 nonce,
          (==_iff (length nonce) c.nonce_size).1 n,
          laws.from_base64-base64 (c.seal key nonce (c.show_credentials k) aad),
          laws.open-seal key nonce (c.show_credentials k) aad,
          json,
        )
        refl

  supported-texts :
      (a b : Bytes) → is_empty a ≡ false → is_empty b ≡ false → supported c (texts c a b) ≡ true
  supported-texts a b x y = rw (laws.base64-full a x, laws.base64-full b y) refl

  written-Kept :
      (k : Credentials) (key nonce : Bytes) (v v0 : Vault)
      → c.read_credentials (c.show_credentials k) ≡ some k
      → v.key_file ≡ content key
      → length key ≡ 32
      → length nonce ≡ c.nonce_size
      → is_empty nonce ≡ false
      → Kept c k v0 (
        ok tt,
        record v { credentials_file = content (c.show_envelope (sealed_envelope c key nonce k)) },
      )
  unfolding Kept load_credentials credential_key
  written-Kept k key nonce v v0 json e n m full =
      rw
        (
          laws.read-envelope nonce (c.seal key nonce (c.show_credentials k) aad),
          supported-texts nonce (c.seal key nonce (c.show_credentials k) aad) full
              (laws.seal-full key nonce (c.show_credentials k) aad),
          e,
          (==_iff (length key) 32).1 n,
        )
        (ap
          (λ r. (
            r,
            record v {
              key_file = content key;
              credentials_file = content (c.show_envelope (sealed_envelope c key nonce k));
            },
          ))
          (opened key nonce k json m))

  write-Kept :
      (k : Credentials) (key : Bytes) (r : Option Bytes) (v v0 : Vault)
      → c.read_credentials (c.show_credentials k) ≡ some k
      → v.key_file ≡ content key
      → length key ≡ 32
      → Random c.nonce_size r
      → v.credentials_file ≡ v0.credentials_file
      → Kept c k v0 (write_sealed c k key r v)
  unfolding Kept Random
  write-Kept k key none v v0 json e n h same = same
  write-Kept k key (some nonce) v v0 json e n (m, full) same =
      elim (Bool-cases v.credentials_writable) [
        | inl w ↦
            rw w (
              written-Kept k key nonce (record v { credentials_writable = true }) v0 json e n m
                full)
        | inr w ↦ rw w same
      ]

  save_with-Kept :
      (k : Credentials) (v0 : Vault) (r : Result VaultError Bytes × Vault)
      → c.read_credentials (c.show_credentials k) ≡ some k
      → Random c.nonce_size v0.random_nonce
      → Keyed v0 r
      → Kept c k v0 (save_with c k r)
  unfolding Keyed Kept
  save_with-Kept k v0 (err e, v) json h same = same
  save_with-Kept k v0 (ok key, v) json h (file, n, nonce, same) =
      write-Kept k key v.random_nonce v v0 json file n (subst (Random c.nonce_size) (sym nonce) h)
        same

  if-Kept :
      (b : Bool) (k : Credentials) (v : Vault) (x y : Result VaultError (Unit {0}) × Vault)
      → Kept c k v x
      → Kept c k v y
      → Kept c k v (if b then x else y)
  if-Kept true k v x y h g = h
  if-Kept false k v x y h g = g

  -- Where the readers of the formats read what their writers wrote, the credentials survive their JSON, and the source of randomness gives the wanted sizes or nothing: loading after a save that succeeds gives the saved credentials, and a save that fails leaves the file as it was.
  pub save_credentials-Kept :
      (k : Credentials) (v : Vault)
      → c.read_credentials (c.show_credentials k) ≡ some k
      → Random 32 v.random_key
      → Random c.nonce_size v.random_nonce
      → Kept c k v (save_credentials c (some k) v)
  unfolding save_credentials credential_key Kept
  save_credentials-Kept k v json hk hn =
      if-Kept v.directory_works k v (save_with c k (key_of v.key_file v)) (err not_written, v)
        (save_with-Kept k v (key_of v.key_file v) json hn (key_of-Keyed v v.key_file refl hk)) refl
