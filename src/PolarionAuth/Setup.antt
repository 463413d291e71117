-- ===== src/PolarionAuth/Setup.antt =====
-- app/polarion_auth.py: `build_verifier`, from the settings. An empty address is none.
use bulk_processing_service.Base.{
  Bool, Option, Text, [], arith, false, none, refl, some, ℕ, ◌∷◌, ◌≡◌, ◌≢◌,
}
use bulk_processing_service.Base.Dict.{Dict}
use bulk_processing_service.PolarionAuth.{JwtLibrary, Verifier}
use bulk_processing_service.PolarionAuth.HostHeader.{jwks_headers}
use bulk_processing_service.Storage.{Result, err, ok}
use bulk_processing_service.Strings.Integer.{ℤ}

-- What `PolarionJwkClient` is made with, apart from the TLS context.
pub record ClientSettings : Type 0 where
  pub url : Text
  pub cache_keys : Bool
  pub lifespan : ℕ
  pub timeout : ℕ
  pub headers : Option (Dict Text Text)

module _ (l : JwtLibrary) (connect : ClientSettings → l.Client) where
  abbrev pub new_verifier : ClientSettings → ℤ → Verifier l
  new_verifier settings max_age = record {
    client = connect settings;
    max_age = max_age;
    last_forced_refresh = none;
  }

  -- The part of `build_verifier` where there is an address.
  unfoldable pub verifier_for : Text → Option Text → ℤ → Result (Option (Verifier l))
  verifier_for url host max_age = elim (jwks_headers host) [
    | err e ↦ err e
    | ok headers ↦ ok (
        some (
          new_verifier
            (record {
              url = url;
              cache_keys = false;
              lifespan = 300;
              timeout = 5;
              headers = headers;
            })
            max_age))
  ]

  unfoldable pub build_verifier : Option Text → Option Text → ℤ → Result (Option (Verifier l))
  build_verifier none host max_age = ok none
  build_verifier (some []) host max_age = ok none
  build_verifier (some (c ∷ t)) host max_age = verifier_for (c ∷ t) host max_age

  built_for :
      (url : Text) (host : Option Text) (max_age : ℤ) {o : Option (Verifier l)}
      → verifier_for url host max_age ≡ ok o
      → (v : Verifier l) × (o ≡ some v) × (v.max_age ≡ max_age) × (v.last_forced_refresh ≡ none)
  unfolding verifier_for
  built_for url host max_age {o} e = go (jwks_headers host) refl
    where
      go :
          (r : Result (Option (Dict Text Text)))
          → jwks_headers host ≡ r
          → (v : Verifier l) × (o ≡ some v) × (v.max_age ≡ max_age) × (v.last_forced_refresh ≡ none)
      go (err x) k = absurd (ground (arith, e, k))
      go (ok headers) k = (
        new_verifier
            (record {
              url = url;
              cache_keys = false;
              lifespan = 300;
              timeout = 5;
              headers = headers;
            })
            max_age,
        ground (arith, e, k),
        refl,
        refl,
      )

  -- The check is switched off by a missing address only: with an address, the service gets a verifier,
  -- or does not start.
  build_verifier_off :
      (c : ℕ) (t : Text) (host : Option Text) (max_age : ℤ)
      → build_verifier (some (c ∷ t)) host max_age ≢ ok none
  unfolding build_verifier verifier_for
  build_verifier_off c t host max_age e = ground arith

  -- With an address, the verifier is new and has the lifetime of tokens that is configured.
  pub built_with :
      (url : Text) (host : Option Text) (max_age : ℤ) {o : Option (Verifier l)}
      → url ≢ []
      → build_verifier (some url) host max_age ≡ ok o
      → (v : Verifier l) × (o ≡ some v) × (v.max_age ≡ max_age) × (v.last_forced_refresh ≡ none)
  unfolding build_verifier
  built_with [] host max_age n e = absurd (n refl)
  built_with (c ∷ t) host max_age n e = built_for (c ∷ t) host max_age e
