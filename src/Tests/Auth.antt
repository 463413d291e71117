-- ===== src/Tests/Auth.antt =====
-- Tokens of a library that writes each claim as a text, and what is proved of accepted ones.
use bulk_processing_service.Base.{
  Text, [], arith, codes, if◌then◌else◌, ltb, nat_eq, none, refl, some, text_eq, ℕ, ◌&&◌, ◌*◌, ◌+◌,
  ◌==◌, ◌∷◌, ◌≡◌, ◌≤◌,
}
use bulk_processing_service.Base.Dict.{Dict}
use bulk_processing_service.PolarionAuth.{
  claims, accepted, Claim, Decoded, Found, JwtLibrary, Principal, Verifier, bad_signature,
  check_claims, check_decoded, check_user, decode, decode_once, refresh_interval, retry,
  service_name, verify,
}
use bulk_processing_service.PolarionAuth.Laws.{IsKeyFor, Vouches, verify_sound}
use bulk_processing_service.PolarionAuth.Rate.{requests, requests-rate}
use bulk_processing_service.Strings.{is_space, lstrip, strip}
use bulk_processing_service.Strings.Integer.{pos}
use bulk_processing_service.Strings.Utf8.{utf8}
use bulk_processing_service.Tests.Jobs.{id}
use bulk_processing_service.Base.Dict

-- A token is its signature and its claims: `1` for a good signature, then the user's number.
abbrev pub toy_claims : Dict Text Claim
toy_claims =
    (codes "svc", Claim.text service_name)
    ∷ (codes "sub", Claim.text (codes "alice"))
    ∷ (codes "exp", Claim.number 160)
    ∷ (codes "iat", Claim.number 100)
    ∷ (codes "job", Claim.text id)
    ∷ []

abbrev pub toy_decode : Text → ℕ → ℕ → Decoded
toy_decode token k wall =
    if token == codes "good" && ltb wall 160 then claims toy_claims else bad_signature

abbrev pub toy : JwtLibrary
toy = record {
  Client = ℕ;
  Key = ℕ;
  signing_key = λ token c. (Found.key 7, c);
  fetch = λ c. some (c + 1);
  decode = toy_decode;
  sha256 = λ t. t;
}

abbrev verifier : Verifier toy
verifier = record { client = 0; max_age = pos 100; last_forced_refresh = none }

abbrev alice : Principal
alice = record { user_hash = codes "alice"; job = some id }

accepted_run : (verify toy (codes "good") 120 5 verifier).0 ≡ accepted alice
unfolding verify decode decode_once retry check_decoded check_claims check_user Dict.get text_eq
    nat_eq strip lstrip is_space utf8
accepted_run = refl

verify_sound_example :
    (c : Dict Text Claim) × (k : ℕ) × IsKeyFor toy (codes "good") 0 k
    × (toy_decode (codes "good") k 120 ≡ claims c)
    × Vouches toy (pos 100) c alice
verify_sound_example = verify_sound toy (codes "good") 120 5 verifier alice accepted_run

abbrev fresh_verifier : Verifier toy
fresh_verifier = record { client = 0; max_age = pos 100; last_forced_refresh = some 10 }

requests-rate_example : refresh_interval * requests toy (20 ∷ 45 ∷ 50 ∷ []) fresh_verifier + 10 ≤ 60
requests-rate_example =
    requests-rate toy (20 ∷ 45 ∷ 50 ∷ []) fresh_verifier 10 15 60 refl (omega arith)
      (omega arith, (omega arith, (omega arith, omega arith)))
