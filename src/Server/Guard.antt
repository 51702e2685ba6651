-- ===== src/Server/Guard.antt =====
-- What the requests to openwrt/opensocks/src/server.go may change.
use open_socks.Prelude.{
  ℕ, ◌≡◌, ◌≢◌, refl, inl, inr, ◌⊎◌, Bool, true, false, arith, Bool-cases, Bytes, bytes_eq,
  bytes_eq_iff,
}
use open_socks.Settings.{Settings}
use open_socks.Controller.{Client, Outside}
use open_socks.Controller.Connect.{Parts}
use open_socks.Controller.Setup.{Tools}
use open_socks.Server.{Method, post, HttpRequest, Reply, unauthorized}
use open_socks.Server.Token.{is_authorized, bearer}
use open_socks.Server.Handlers.{Measures, Daemon, serve, serve_mobile}
use open_socks.SpeedJob.{SpeedState}

-- The same test in the same stage with the same results and counts.
unfoldable pub SameTest : SpeedState → SpeedState → Type 0
SameTest s s' =
    (s'.job.running ≡ s.job.running)
    × (s'.job.stage ≡ s.job.stage)
    × (s'.job.streams ≡ s.job.streams)
    × (s'.job.ping_ms ≡ s.job.ping_ms)
    × (s'.job.download ≡ s.job.download)
    × (s'.job.upload ≡ s.job.upload)
    × (s'.job.bytes ≡ s.job.bytes)
    × (s'.job.failure ≡ s.job.failure)
    × (s'.progress_bytes ≡ s.progress_bytes)

-- Engine, processes and routing are as before, and the test is the same.
unfoldable pub Unmoved : {N : Type 0} → Daemon N → Reply × Daemon N → Type 0
Unmoved d (r, d') = (Parts d'.world ≡ Parts d.world) × SameTest d.speed d'.speed

module _ {N : Type 0} (c : Client N) (o : Outside) (t : Tools) (ms : Measures) (now : ℕ) where
  abbrev is_post : Method → Bool
  is_post post = true
  is_post _ = false

  -- The mobile listener serves a request like the local one where its Authorization header is the bearer token, and otherwise refuses it without a change.
  pub serve_mobile_cases :
      (token : Bytes) (r : HttpRequest) (d : Daemon N)
      → ((r.authorization ≡ bearer token)
          × (serve_mobile c o t ms now token r d ≡ serve c o t ms now r d))
        ⊎ ((r.authorization ≢ bearer token)
            × (serve_mobile c o t ms now token r d ≡ (unauthorized, d)))
  unfolding serve_mobile is_authorized
  serve_mobile_cases token r d = elim (Bool-cases (bytes_eq r.authorization (bearer token))) [
    | inl e ↦ inl ((bytes_eq_iff r.authorization (bearer token)).0 e, rw e refl)
    | inr e ↦
        inr (λ h. ground (arith, e, (bytes_eq_iff r.authorization (bearer token)).1 h), rw e refl)
  ]
