-- ===== src/Api/Cleanup.antt =====
-- The maintenance commands of openwrt/opensocks/src/dual_experiment.go. `cfg` is what readSettings gave,
-- and the credentials are those that loadCredentials read, `none` where it failed.
pub mod Safety
use open_socks.Prelude.{
  ℕ, ◌+◌, Bool, true, false, not, ◌||◌, ◌&&◌, Option, none, some, List, [], ◌∷◌, if◌then◌else◌, any,
  Bytes, codes, bytes_eq, ok, err, pos,
}
use open_socks.Settings.{Settings, is_empty}
use open_socks.Controller.{Credentials}
use open_socks.Api.{
  Error, failure, ApiClient, LoginRequest, AccountSession, Service, new_api_client_for_slot,
  configure,
}
use open_socks.Api.Calls.{Answer, login, get_sessions, delete_session}

abbrev pub is_external : AccountSession → Bool
is_external x =
    (bytes_eq x.device (codes "Android") && bytes_eq x.package_name (codes "com.fobwifi.normal"))
    || (bytes_eq x.device (codes "iOS") || bytes_eq x.package_name (codes "com.fobwifi.fobwifi"))

-- The sessions that deleteExternalDeviceSessions deletes, beside those of the protected addresses.
unfoldable pub is_foreign : List Bytes → AccountSession → Bool
unfolding bytes_eq
is_foreign own x = (not (is_empty x.session) && not (any (bytes_eq x.mac) own)) && is_external x

-- The sessions that cleanupLegacyExperimentSessions deletes: those of the addresses of earlier
-- releases, except the daemon's own.
abbrev pub is_former : AccountSession → Bool
is_former x =
    (is_empty x.mac && bytes_eq x.device (codes "Phone"))
    && (bytes_eq x.model (codes "Pixel 8") && bytes_eq x.package_name (codes "com.fobwifi.normal"))

unfoldable pub is_legacy : List Bytes → Bytes → AccountSession → Bool
unfolding bytes_eq
is_legacy macs token x =
    (any (bytes_eq x.mac) macs || is_former x)
    && (not (is_empty x.session) && not (bytes_eq x.session token))

-- The login of a recovery, with the saved credentials.
abbrev pub recovery_login : Credentials → LoginRequest
recovery_login k = record { credentials = k; sms_code = []; ticket = []; autokick = none }

module _ {S : Type 0} (v : Service S) where
  abbrev pub after_delete : (ApiClient × S → Answer S ℕ) → Answer S (Unit {0}) → Answer S ℕ
  after_delete next (err e, w) = (err e, w)
  after_delete next (ok _, w) = next w

  -- The loop over the sessions, with the number of those removed before; it ends with the first error.
  unfoldable pub delete_all :
      (AccountSession → Bool) → ℕ → List AccountSession → ApiClient × S → Answer S ℕ
  unfolding delete_session
  delete_all wanted removed [] w = (ok removed, w)
  delete_all wanted removed (x ∷ xs) w =
      let deleted =
        after_delete (delete_all wanted (removed + 1) xs) (delete_session v x.session w) in
      let kept = delete_all wanted removed xs w in if wanted x then deleted else kept

  abbrev pub own_macs : S → List Bytes
  own_macs s =
      (v.slot_identity (pos 0) s).mac
      ∷ (v.slot_identity (pos 1) s).mac
      ∷ (v.slot_identity (pos 2) s).mac
      ∷ []

  abbrev pub delete_foreign : Answer S (List AccountSession) → Answer S ℕ
  delete_foreign (err e, w) = (err e, w)
  delete_foreign (ok xs, (c, s)) = delete_all (is_foreign (own_macs s)) 0 xs (c, s)

  -- The two branches of the next command, by whether the saved session is empty.
  unfoldable pub external_sessions : Bool → Settings → S → Answer S ℕ
  external_sessions true cfg s = (
    err (failure (codes "primary daemon session is unavailable")),
    (new_api_client_for_slot v cfg.api_domain (pos 0), s),
  )
  external_sessions false cfg s = delete_foreign (
      get_sessions v (
        configure v cfg.api_domain cfg.token (new_api_client_for_slot v cfg.api_domain (pos 0)),
        s,
      ))

  unfoldable pub delete_external_device_sessions : Settings → S → Answer S ℕ
  unfolding external_sessions
  delete_external_device_sessions cfg s = external_sessions (is_empty cfg.token) cfg s

  abbrev pub after_recovery : Answer S Bytes → Answer S (List AccountSession)
  after_recovery (err e, w) = (err e, w)
  after_recovery (ok _, w) = get_sessions v w

  -- A sign-in with the credentials where the saved session is refused.
  unfoldable pub recovered :
      Settings → Error → Option Credentials → ApiClient × S → Answer S (List AccountSession)
  unfolding new_api_client_for_slot login get_sessions
  recovered cfg e none w = (err e, w)
  recovered cfg e (some k) (c, s) =
      after_recovery
        (login v (recovery_login k) (new_api_client_for_slot v cfg.api_domain (pos 1), s))

  abbrev pub or_recover :
      Settings
      → Option Credentials
      → Answer S (List AccountSession)
      → Answer S (List AccountSession)
  or_recover cfg k (ok xs, w) = (ok xs, w)
  or_recover cfg k (err e, w) = recovered cfg e k w

  abbrev pub delete_legacy : List Bytes → Bytes → Answer S (List AccountSession) → Answer S ℕ
  delete_legacy macs token (err e, w) = (err e, w)
  delete_legacy macs token (ok xs, w) = delete_all (is_legacy macs token) 0 xs w

  -- `macs` are the addresses that legacyExperimentIdentity gives for the slots 1 and 2.
  unfoldable pub cleanup_legacy_experiment_sessions :
      List Bytes → Settings → Option Credentials → S → Answer S ℕ
  unfolding new_api_client_for_slot configure get_sessions recovered delete_all is_legacy
  cleanup_legacy_experiment_sessions macs cfg k s =
      let c = new_api_client_for_slot v cfg.api_domain (pos 0) in
      if is_empty cfg.token
      then (err (failure (codes "saved daemon session is unavailable")), (c, s))
      else delete_legacy macs cfg.token (
          or_recover cfg k (
            get_sessions v
              (configure v cfg.api_domain cfg.token (record c { legacy_device = true }), s)))
