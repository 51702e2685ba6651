-- ===== src/Vault.antt =====
-- The sign-in store of openwrt/opensocks/src/authstore.go: the credentials in a file that is encrypted
-- with a key of its own file. The cipher, base64 and JSON are the operations of `Codec`; a step of a
-- write that fails leaves the old file.
pub mod RoundTrip
use open_socks.Prelude.{
  ℕ, Bool, true, false, not, ◌&&◌, Option, none, some, ◌==◌, if◌then◌else◌, length, Bytes, codes,
  Result, ok, err, ℤ, pos, eq_ℤ,
}
use open_socks.Settings.{is_empty}
use open_socks.Controller.{Credentials}

-- What reading a file gives.
pub data File : Type 0 where
  missing unreadable : File
  content : Bytes → File

pub record Envelope : Type 0 where
  pub version : ℤ
  pub nonce : Bytes
  pub ciphertext : Bytes

-- AES-GCM with its nonce size, base64, and the JSON of the two values.
pub record Codec : Type 0 where
  pub nonce_size : ℕ
  pub seal : Bytes → Bytes → Bytes → Bytes → Bytes
  pub open' : Bytes → Bytes → Bytes → Bytes → Option Bytes
  pub base64 : Bytes → Bytes
  pub from_base64 : Bytes → Option Bytes
  pub show_envelope : Envelope → Bytes
  pub read_envelope : Bytes → Option Envelope
  pub show_credentials : Credentials → Bytes
  pub read_credentials : Bytes → Option Credentials

-- The two files, what can be written, and what the source of randomness gives.
pub record Vault : Type 0 where
  pub key_file : File
  pub credentials_file : File
  pub directory_works : Bool
  pub key_writable : Bool
  pub credentials_writable : Bool
  pub random_key : Option Bytes
  pub random_nonce : Option Bytes

pub data VaultError : Type 0 where
  bad_key key_unreadable no_random not_written not_readable bad_format bad_nonce bad_ciphertext
        not_decrypted bad_credentials :
      VaultError

abbrev pub aad : Bytes
aad = codes "opensocks-credentials-v1"

abbrev pub new_key : Option Bytes → Vault → Result VaultError Bytes × Vault
new_key none v = (err no_random, v)
new_key (some key) v =
    if v.key_writable then (ok key, record v { key_file = content key }) else (err not_written, v)

abbrev pub key_of : File → Vault → Result VaultError Bytes × Vault
key_of missing v = new_key v.random_key v
key_of unreadable v = (err key_unreadable, v)
key_of (content key) v = if length key == 32 then (ok key, v) else (err bad_key, v)

unfoldable pub credential_key : Vault → Result VaultError Bytes × Vault
credential_key v = key_of v.key_file v

abbrev pub or_bad : Option Credentials → Result VaultError Credentials
or_bad none = err bad_credentials
or_bad (some k) = ok k

module _ (c : Codec) where
  abbrev pub sealed_envelope : Bytes → Bytes → Credentials → Envelope
  sealed_envelope key nonce k = record {
    version = pos 1;
    nonce = c.base64 nonce;
    ciphertext = c.base64 (c.seal key nonce (c.show_credentials k) aad);
  }

  abbrev pub write_sealed :
      Credentials → Bytes → Option Bytes → Vault → Result VaultError (Unit {0}) × Vault
  write_sealed k key none v = (err no_random, v)
  write_sealed k key (some nonce) v =
      if v.credentials_writable
      then (
        ok tt,
        record v { credentials_file = content (c.show_envelope (sealed_envelope key nonce k)) },
      )
      else (err not_written, v)

  abbrev pub save_with :
      Credentials → Result VaultError Bytes × Vault → Result VaultError (Unit {0}) × Vault
  save_with k (err e, v) = (err e, v)
  save_with k (ok key, v) = write_sealed k key v.random_nonce v

  abbrev pub remove : File → Vault → Result VaultError (Unit {0}) × Vault
  remove missing v = (ok tt, v)
  remove _ v =
      if v.credentials_writable
      then (ok tt, record v { credentials_file = missing })
      else (err not_written, v)

  -- `none` removes the credentials.
  unfoldable pub save_credentials :
      Option Credentials → Vault → Result VaultError (Unit {0}) × Vault
  unfolding credential_key
  save_credentials none v = remove v.credentials_file v
  save_credentials (some k) v =
      if v.directory_works then save_with k (credential_key v) else (err not_written, v)

  abbrev pub read_plain : Option Bytes → Result VaultError Credentials
  read_plain none = err not_decrypted
  read_plain (some plain) = or_bad (c.read_credentials plain)

  abbrev pub read_sealed : Bytes → Bytes → Option Bytes → Result VaultError Credentials
  read_sealed key nonce none = err bad_ciphertext
  read_sealed key nonce (some sealed) = read_plain (c.open' key nonce sealed aad)

  abbrev pub read_nonce : Bytes → Envelope → Option Bytes → Result VaultError Credentials
  read_nonce key e none = err bad_nonce
  read_nonce key e (some nonce) =
      if length nonce == c.nonce_size
      then read_sealed key nonce (c.from_base64 e.ciphertext)
      else err bad_nonce

  abbrev pub load_with :
      Envelope → Result VaultError Bytes × Vault → Result VaultError Credentials × Vault
  load_with e (err x, v) = (err x, v)
  load_with e (ok key, v) = (read_nonce key e (c.from_base64 e.nonce), v)

  abbrev pub supported : Envelope → Bool
  supported e = eq_ℤ e.version (pos 1) && (not (is_empty e.nonce) && not (is_empty e.ciphertext))

  abbrev pub load_envelope : Vault → Option Envelope → Result VaultError Credentials × Vault
  load_envelope v none = (err bad_format, v)
  load_envelope v (some e) =
      if supported e then load_with e (credential_key v) else (err bad_format, v)

  abbrev pub load_file : Vault → File → Result VaultError Credentials × Vault
  load_file v missing = (err not_readable, v)
  load_file v unreadable = (err not_readable, v)
  load_file v (content b) = load_envelope v (c.read_envelope b)

  unfoldable pub load_credentials : Vault → Result VaultError Credentials × Vault
  unfolding credential_key
  load_credentials v = load_file v v.credentials_file

abbrev pub credentials_saved : Vault → Bool
credentials_saved v = elim v.credentials_file [
  | missing ↦ false
  | unreadable ↦ true
  | content _ ↦ true
]
