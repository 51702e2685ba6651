-- ===== src/Controller/SignIn.antt =====
-- What openwrt/opensocks/src/controller.go asks of the API client to keep the sign-in state: the laws of
-- the interface `Client`, and login, logout and refreshSettings for a client that obeys them.
use open_socks.Prelude.{
  ◌≡◌, refl, ◌∙◌, ap, inl, inr, ◌⊎◌, Bool, true, false, none, [], Bool-cases, Bytes, Result, ok,
  err, codes,
}
use open_socks.Settings.{
  trim_space, trim_left, trim_right, load_session, is_empty, Disk, migrate, read_settings,
}
use open_socks.Controller.{
  ApiError, Failure, Client, World, LoginInput, Credentials, keep_session, logged_in, login,
  after_login, logout, refresh_settings, complete_input, keep_credentials, with_account,
}

-- The answer of a sign-in: a session that is not empty, with a client that holds it.
unfoldable pub Issued : {N E : Type 0} → (N → Bool) → Result E Bytes × N → Type 0
Issued has_auth (ok session, n) = (is_empty session ≡ false) × (has_auth n ≡ true)
Issued has_auth (err e, n) = Unit {0}

pub record Laws {N : Type 0} (c : Client N) : Type 0 where
  pub login-Issued : (i : LoginInput) (n : N) → Issued c.has_auth (c.login i n)
  pub clear_auth-none : (n : N) → c.has_auth (c.clear_auth n) ≡ false
  pub configure-same : (d : Bytes) (n : N) → c.has_auth (c.configure d [] n) ≡ c.has_auth n
  pub configure-session :
      (d s : Bytes) (n : N) → is_empty s ≡ false → c.has_auth (c.configure d s n) ≡ true

-- A session in the file is the one that the settings give.
kept_session : (d : Disk) → is_empty (load_session d) ≡ false → (migrate d).0 ≡ load_session d
unfolding migrate
kept_session d h = elim (Bool-cases (is_empty (d.options (codes "token")))) [
  | inl e ↦ rw e refl
  | inr e ↦ rw (e, h) refl
]

no_session :
    (d : Disk) → is_empty (d.options (codes "token")) ≡ true → (migrate d).0 ≡ load_session d
unfolding migrate
no_session d h = rw h refl

module _ {N : Type 0} (c : Client N) (laws : Laws c) where
  -- Signed in with a session, and after the next reading of the settings with the session without the white space around it, unless it is nothing else; the settings and the files are as before a sign-in that fails.
  unfoldable pub LoggedIn : World N → World N → Result Failure Bytes → Type 0
  LoggedIn w0 w (ok session) =
      (is_empty session ≡ false)
      × (w.cfg.token ≡ session)
      × (logged_in c w ≡ true)
      × ((is_empty (trim_space session) ≡ true)
          ⊎ (((refresh_settings c w).cfg.token ≡ trim_space session)
              × (logged_in c (refresh_settings c w) ≡ true)))
  LoggedIn w0 w (err f) = (w.cfg ≡ w0.cfg) × (w.store ≡ w0.store)

  kept-logged_in :
      (s : Bytes) (w : World N) → is_empty s ≡ false → logged_in c (keep_session c s w) ≡ true
  unfolding logged_in keep_session
  kept-logged_in s w h = elim (Bool-cases (c.has_auth w.net)) [
    | inl a ↦ rw a refl
    | inr a ↦ rw (a, h) refl
  ]

  refreshed-token : (w : World N) → (refresh_settings c w).cfg.token ≡ (migrate w.store.disk).0
  unfolding refresh_settings read_settings
  refreshed-token w = refl

  refreshed-logged_in :
      (w : World N)
      → is_empty (migrate w.store.disk).0 ≡ false
      → logged_in c (refresh_settings c w) ≡ true
  unfolding refresh_settings read_settings logged_in
  refreshed-logged_in w h =
      rw
        (laws.configure-session (read_settings w.store.disk).0.api_domain (migrate w.store.disk).0
          w.net h)
        refl

  kept-disk :
      (s : Bytes) (w : World N)
      → w.store.disk.save_works ≡ true
      → (keep_session c s w).store.disk ≡ record w.store.disk { session = s }
  unfolding keep_session
  kept-disk s w works = rw works refl

  kept-migrate :
      (s : Bytes) (w : World N)
      → w.store.disk.save_works ≡ true
      → is_empty (trim_space s) ≡ false
      → (migrate (keep_session c s w).store.disk).0 ≡ trim_space s
  unfolding load_session
  kept-migrate s w works full =
      ap (λ d. (migrate d).0) (kept-disk s w works)
      ∙ kept_session (record w.store.disk { session = s }) full

  kept-cfg : (s : Bytes) (w : World N) → (keep_session c s w).cfg.token ≡ s
  unfolding keep_session
  kept-cfg s w = refl

  kept-later :
      (s : Bytes) (w : World N)
      → w.store.disk.save_works ≡ true
      → (is_empty (trim_space s) ≡ true)
        ⊎ (((refresh_settings c (keep_session c s w)).cfg.token ≡ trim_space s)
            × (logged_in c (refresh_settings c (keep_session c s w)) ≡ true))
  kept-later s w works = elim (Bool-cases (is_empty (trim_space s))) [
    | inl none' ↦ inl none'
    | inr some' ↦
        let e = kept-migrate s w works some' in
        inr (
          refreshed-token (keep_session c s w) ∙ e,
          refreshed-logged_in (keep_session c s w) (ap is_empty e ∙ some'),
        )
  ]

  kept-LoggedIn :
      (s : Bytes) (w0 w : World N)
      → w.store.disk.save_works ≡ true
      → is_empty s ≡ false
      → LoggedIn w0 (keep_session c s w) (ok s)
  unfolding LoggedIn
  kept-LoggedIn s w0 w works full =
      (full, kept-cfg s w, kept-logged_in s w full, kept-later s w works)

  credentials-disk :
      (k : Credentials) (w : World N) → (keep_credentials c k w.store).disk ≡ w.store.disk
  credentials-disk k w = elim (Bool-cases w.store.files_work) [
    | inl e ↦ rw e refl
    | inr e ↦ rw e refl
  ]

  after_login-LoggedIn :
      (k : Credentials) (w0 w : World N) (r : Result ApiError Bytes × N)
      → Issued c.has_auth r
      → w.store.disk.save_works ≡ true
      → w.cfg ≡ w0.cfg
      → w.store ≡ w0.store
      → LoggedIn w0 (after_login c k w r).1 (after_login c k w r).0
  unfolding after_login LoggedIn Issued
  after_login-LoggedIn k w0 w (ok s, net) (full, held) works a b =
      kept-LoggedIn s w0
        (record w { net = net; store = with_account c net (keep_credentials c k w.store) })
        (ap (λ d. d.save_works) (credentials-disk k w) ∙ works) full
  after_login-LoggedIn k w0 w (err e, net) h works a b = (a, b)

  -- Where the client obeys the laws of the interface and the session file can be written: a sign-in that succeeds leaves the daemon signed in with a session that is not empty, and, unless that is only white space, it is so after the settings are read again, with the session without the white space around it; one that fails changes neither the settings nor the files, while the client may have lost an earlier session.
  pub login-LoggedIn :
      (i : LoginInput) (w : World N)
      → w.store.disk.save_works ≡ true
      → LoggedIn w (login c i w).1 (login c i w).0
  unfolding login
  login-LoggedIn i w works =
      after_login-LoggedIn (complete_input c i).credentials w w
        (c.login (complete_input c i) (c.clear_auth w.net))
        (laws.login-Issued (complete_input c i) (c.clear_auth w.net)) works refl refl

  -- Signed out, now and after the next reading of the settings.
  unfoldable pub LoggedOut : World N → Type 0
  LoggedOut w =
      (logged_in c w ≡ false)
      × (w.store.account ≡ none)
      × (logged_in c (refresh_settings c w) ≡ false)

  -- Where the client obeys the laws, the session file can be removed and UCI holds no session of an older release: after a logout the daemon is signed out, has no account, and is still signed out after the settings are read again.
  pub logout-LoggedOut :
      (w : World N)
      → w.store.disk.save_works ≡ true
      → is_empty (w.store.disk.options (codes "token")) ≡ true
      → LoggedOut (logout c w)
  unfolding logout LoggedOut logged_in keep_session refresh_settings read_settings migrate
      load_session trim_space trim_left trim_right
  logout-LoggedOut w works none' =
      rw (laws.clear_auth-none w.net, works, none')
        (
          refl,
          refl,
          rw
              (
                laws.configure-same (read_settings w.store.disk).0.api_domain (c.clear_auth w.net),
                laws.clear_auth-none w.net,
              )
              refl,
        )
