-- ===== src/Startup/Lifespan.antt =====
-- app/app.py: the lifespan and the version of the application. The cleanup task is started with the
-- period that is found here, and its sweeps are those of `Cleanup`; its cancellation at the end is
-- left to asyncio.
use bulk_processing_service.Base.{
  Option, Text, [], ap, arith, codes, none, some, sym, true, ℕ, ◌∙◌, ◌≡◌, ◌≢◌,
}
use bulk_processing_service.Cleanup.Ttl.{parse_ttl}
use bulk_processing_service.Models.{Time}
use bulk_processing_service.PolarionAuth.{JwtLibrary, Verifier}
use bulk_processing_service.PolarionAuth.Setup.{ClientSettings, build_verifier, built_with}
use bulk_processing_service.Settings.{setting_or}
use bulk_processing_service.Settings.Constants.{
  Constants, Libraries, TimestampFile, max_age-read_constants, read_constants, url-read_constants,
}
use bulk_processing_service.Storage.{
  Action, None, Result, Storage, err, lift, ok, pure, raises, returns, ◌>>=◌, ◌>>◌,
}
use bulk_processing_service.Strings.{strip}
use bulk_processing_service.Strings.Integer.{parse_int}

-- `JobManager.__init__`, with how the making of the storage directory ends. The locks are new.
unfoldable pub new_manager : Result None → Action None
new_manager (err e) s = (raises e, s)
new_manager (ok _) s = (returns tt, record s { root = true; thread_locks = [] })

-- `VersionInfo`
pub record VersionInfo : Type 0 where
  pub api_version : ℕ
  pub python : Text
  pub bulk_processing_service : Text
  pub timestamp : Text

module _ {l : Libraries} where
  -- `version`
  abbrev pub version : Constants l → Text → VersionInfo
  version c python = record {
    api_version = 1;
    python = python;
    bulk_processing_service = c.service_version;
    timestamp = c.build_timestamp;
  }

-- `app.state` with the period of the cleanup task.
pub record AppState (l : JwtLibrary) : Type 0 where
  pub polarion_verifier : Option (Verifier l)
  pub ttl : Time

module _ {l : JwtLibrary} where
  -- A start that ended well has gone through all its steps.
  start_steps :
      (mkdir : Result None) (r : Result (Option (Verifier l))) (q : Result Time) (s t : Storage)
      (state : AppState l)
      → (do
        new_manager mkdir
        verifier ← lift r
        ttl ← lift q
        pure (record { polarion_verifier = verifier; ttl = ttl }))
          s
        ≡ (returns state, t)
      → (r ≡ ok state.polarion_verifier) × (t ≡ record s { root = true; thread_locks = [] })
  unfolding new_manager
  start_steps (err e) r q s t state g = absurd (ground (arith, g))
  start_steps (ok _) (err e) q s t state g = absurd (ground (arith, g))
  start_steps (ok _) (ok v) (err e) s t state g = absurd (ground (arith, g))
  start_steps (ok _) (ok v) (ok ttl) s t state g = (ground (arith, g), ground (arith, g))

module _ {libs : Libraries} (l : JwtLibrary) (connect : ClientSettings → l.Client)
    (digit : ℕ → Option ℕ) where
  -- `lifespan` until it yields
  unfoldable pub lifespan : Constants libs → Result None → Action (AppState l)
  lifespan c mkdir = do
    new_manager mkdir
    verifier ←
        lift (
          build_verifier l connect c.polarion_jwks_url c.polarion_jwks_host
            c.polarion_token_max_age)
    ttl ← lift (parse_ttl digit c.job_ttl)
    pure (record { polarion_verifier = verifier; ttl = ttl })

  -- Where the environment names an address of a key set that is not blank, and the settings can be
  -- read: a start that ends well ends with a new verifier, whose limit for the lifetime of tokens is
  -- the integer that `POLARION_TOKEN_MAX_AGE` spells, 900 where that is not set, and leaves the jobs
  -- of an earlier run as they are.
  pub lifespan-verifies :
      (value_of : Text → Option Text) (file : TimestampFile) {c : Constants libs}
      (mkdir : Result None) (s : Storage) {t : Storage} {state : AppState l} {url : Text}
      → read_constants libs value_of file ≡ ok c
      → value_of (codes "POLARION_JWKS_URL") ≡ some url
      → strip url ≢ []
      → lifespan c mkdir s ≡ (returns state, t)
      → ((v : Verifier l) × (state.polarion_verifier ≡ some v)
          × (parse_int (setting_or (codes "900") (value_of (codes "POLARION_TOKEN_MAX_AGE")))
              ≡ some v.max_age)
          × (v.last_forced_refresh ≡ none))
        × (t ≡ record s { root = true; thread_locks = [] })
  unfolding lifespan
  lifespan-verifies value_of file {c} mkdir s {t} {state} {url} e f n g =
      let (built, left) = start_steps mkdir _ (parse_ttl digit c.job_ttl) s t state g in
      let address = url-read_constants libs value_of file e f n in
      let (v, is_made, age, fresh) =
        built_with l connect (strip url) c.polarion_jwks_host c.polarion_token_max_age n (
          ap (λ u. build_verifier l connect u c.polarion_jwks_host c.polarion_token_max_age)
            (sym address)
          ∙ built) in
      ((v, is_made, max_age-read_constants libs value_of file e ∙ ap some (sym age), fresh), left)
