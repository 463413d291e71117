-- ===== src/PolarionAuth/Laws.antt =====
-- app/polarion_auth.py: what an accepted token proves, and whom a job opens for.
use bulk_processing_service.Base.{
  Bool, Bool-cases, Bytes, Option, Option-cases, Text, [], arith, codes, eq_iff, false, inl, inr,
  nat_eq, refl, some, text_eq, true, ℕ, ◌+◌, ◌↔◌, ◌∷◌, ◌≡◌, ◌≢◌, ◌≤◌,
}
use bulk_processing_service.Base.Dict.{Dict}
use bulk_processing_service.Models.{JobMetadata}
use bulk_processing_service.PolarionAuth.{
  text, number, accepted, key, claims, null, other, Checked, Claim, Decoded, Found, JwtLibrary,
  Principal, Verifier, bad_signature, check_age, check_claims, check_decoded, check_user, claim_of,
  decode, decode_again, decode_once, is_due, is_for_service, job_of, jwt_error, key_error,
  lives_longer, may_use_job, principal_of, read_token, refresh, refused, retry, service_name,
  unreachable, verify,
}
use bulk_processing_service.Strings.{is_empty, strip}
use bulk_processing_service.Strings.Integer.{negsuc, pos, ℤ}
use bulk_processing_service.Strings.Utf8.{utf8}
use bulk_processing_service.Base.Dict

-- A job opens for a principal exactly when the token is for this job and the user is its
-- initiator; a job without an initiator opens for no principal.
may_use_job_iff :
    (p : Principal) (id : Text) (m : JobMetadata)
    → (may_use_job (some p) id m ≡ true)
      ↔ ((p.job ≡ some id) × (m.initiator_hash ≡ some p.user_hash))
unfolding may_use_job
may_use_job_iff p id m = (λ h. ground arith, λ h. ground arith)

-- `exp - iat ≤ max_age`
abbrev pub IsWithin : ℤ → ℕ → ℕ → Type 0
IsWithin (pos n) exp iat = exp ≤ iat + n
IsWithin (negsuc n) exp iat = exp + (n + 1) ≤ iat

not_longer :
    (max_age : ℤ) (exp iat : ℕ) → lives_longer max_age exp iat ≡ false → IsWithin max_age exp iat
not_longer (pos n) exp iat h = ground arith
not_longer (negsuc n) exp iat h = ground arith

-- What the claims of an accepted token say.
pub record Vouches (l : JwtLibrary) (max_age : ℤ) (c : Dict Text Claim) (p : Principal)
    : Type 0 where
  pub user : Text
  pub exp : ℕ
  pub iat : ℕ
  pub service : claim_of (Dict.get c (codes "svc")) ≡ text service_name
  pub subject : claim_of (Dict.get c (codes "sub")) ≡ text user
  pub not_blank : strip user ≢ []
  pub expires : claim_of (Dict.get c (codes "exp")) ≡ number exp
  pub issued : claim_of (Dict.get c (codes "iat")) ≡ number iat
  pub young : IsWithin max_age exp iat
  pub bytes : Bytes
  pub encoding : utf8 user ≡ some bytes
  pub digest : p.user_hash ≡ l.sha256 bytes
  pub for_job : job_of l (claim_of (Dict.get c (codes "job"))) ≡ accepted p.job

module _ (l : JwtLibrary) where
  for_service : (c : Claim) → is_for_service l c ≡ true → c ≡ text service_name
  for_service (text name) h = ground (arith, eq_iff name service_name)
  for_service null h = cc
  for_service (number n) h = cc
  for_service other h = cc

  -- The claims of an accepted token.
  Aged : ℤ → Claim → Claim → Type 0
  Aged max_age e i =
      (exp : ℕ) × (iat : ℕ) × (e ≡ number exp) × (i ≡ number iat) × IsWithin max_age exp iat

  check_age_sound :
      (max_age : ℤ) (e i : Claim) → check_age l max_age e i ≡ accepted tt → Aged max_age e i
  unfolding Aged
  check_age_sound max_age (number exp) (number iat) h =
      elim (Bool-cases (lives_longer max_age exp iat)) [
        | inl long ↦ absurd (ground arith)
        | inr short ↦ (exp, iat, refl, refl, not_longer max_age exp iat short)
      ]
  check_age_sound max_age (number exp) null h = cc
  check_age_sound max_age (number exp) (text t) h = cc
  check_age_sound max_age (number exp) other h = cc
  check_age_sound max_age null i h = cc
  check_age_sound max_age (text t) i h = cc
  check_age_sound max_age other i h = cc

  principal_of_sound :
      (user : Text) (a : Checked (Unit {0})) (j : Checked (Option Text)) (p : Principal)
      → principal_of l user a j ≡ accepted p
      → (a ≡ accepted tt)
        × (j ≡ accepted p.job)
        × ((bytes : Bytes) × (utf8 user ≡ some bytes) × (p.user_hash ≡ l.sha256 bytes))
  principal_of_sound user (accepted _) (accepted job) p h = elim (Option-cases (utf8 user)) [
    | inl fails ↦ absurd (ground arith)
    | inr (bytes, works) ↦ (refl, ground arith, (bytes, works, ground arith))
  ]
  principal_of_sound user (accepted _) (refused e) p h = cc
  principal_of_sound user (refused e) j p h = cc

  not_blank_of : (t : Text) → is_empty t ≡ false → t ≢ []
  not_blank_of [] h e = cc
  not_blank_of (c ∷ t) h e = cc

  check_user_sound :
      (max_age : ℤ) (c : Dict Text Claim) (sub : Claim) (p : Principal)
      → claim_of (Dict.get c (codes "svc")) ≡ text service_name
      → claim_of (Dict.get c (codes "sub")) ≡ sub
      → check_user l max_age c sub ≡ accepted p
      → Vouches l max_age c p
  unfolding check_user Aged
  check_user_sound max_age c (text user) p svc sub h = elim (Bool-cases (is_empty (strip user))) [
    | inl blank ↦ absurd (ground arith)
    | inr full ↦
        let parts = principal_of_sound user _ _ p (rw full at h) in
        let aged = check_age_sound max_age _ _ parts.0 in
        record {
          user = user;
          exp = aged.0;
          iat = aged.1;
          service = svc;
          subject = sub;
          not_blank = not_blank_of (strip user) full;
          expires = aged.2;
          issued = aged.3;
          young = aged.4;
          bytes = (parts.2).0;
          encoding = (parts.2).1;
          digest = (parts.2).2;
          for_job = parts.1;
        }
  ]
  check_user_sound max_age c null p svc sub h = absurd (ground arith)
  check_user_sound max_age c (number n) p svc sub h = absurd (ground arith)
  check_user_sound max_age c other p svc sub h = absurd (ground arith)

  check_claims_sound :
      (max_age : ℤ) (c : Dict Text Claim) (p : Principal)
      → check_claims l max_age c ≡ accepted p
      → Vouches l max_age c p
  unfolding check_claims
  check_claims_sound max_age c p h =
      elim (Bool-cases (is_for_service l (claim_of (Dict.get c (codes "svc"))))) [
        | inl ours ↦ check_user_sound max_age c _ p (for_service _ ours) refl (rw ours at h)
        | inr foreign ↦ absurd (ground arith)
      ]

  -- `k` is the key that the client `c` of the key set finds for the token, or the one that it finds
  -- after the set was fetched again.
  pub data IsKeyFor (token : Text) (c : l.Client) (k : l.Key) : Type 0 where
    cached_key : (l.signing_key token c).0 ≡ key k → IsKeyFor token c k
    fetched_key :
        {c' : l.Client}
        → l.fetch (l.signing_key token c).1 ≡ some c'
        → (l.signing_key token c').0 ≡ key k
        → IsKeyFor token c k

  -- Where `d` is claims, `jwt.decode` found them in the token with a key of which `K` holds.
  abbrev IsDecoded : (l.Key → Type 0) → Text → ℕ → Checked Decoded → Type 0
  IsDecoded K token wall (accepted (claims c)) =
      (k : l.Key) × K k × (l.decode token k wall ≡ claims c)
  IsDecoded K token wall _ = Unit

  module _ (K : l.Key → Type 0) (token : Text) (wall : ℕ) where
    found-IsDecoded :
        (k : l.Key) (d : Decoded)
        → K k
        → l.decode token k wall ≡ d
        → IsDecoded K token wall (accepted d)
    found-IsDecoded k (claims c) h e = (k, h, e)
    found-IsDecoded k bad_signature h e = tt
    found-IsDecoded k (jwt_error n) h e = tt

    read_token-IsDecoded :
        (o : Found l.Key)
        → ((k : l.Key) → o ≡ key k → K k)
        → IsDecoded K token wall (read_token l token wall o)
    read_token-IsDecoded (key k) h = found-IsDecoded k (l.decode token k wall) (h k refl) refl
    read_token-IsDecoded unreachable h = tt
    read_token-IsDecoded (key_error name) h = tt

    decode_once-IsDecoded :
        (v : Verifier l)
        → ((k : l.Key) → (l.signing_key token v.client).0 ≡ key k → K k)
        → IsDecoded K token wall (decode_once l token wall v).0
    unfolding decode_once
    decode_once-IsDecoded v h = read_token-IsDecoded (l.signing_key token v.client).0 h

    decode_again-IsDecoded :
        (r : Checked Bool × Verifier l)
        → (r.0 ≡ accepted true → (k : l.Key) → (l.signing_key token (r.1).client).0 ≡ key k → K k)
        → IsDecoded K token wall (decode_again l token wall r).0
    unfolding decode_again
    decode_again-IsDecoded (accepted true, v) h = decode_once-IsDecoded v (h refl)
    decode_again-IsDecoded (accepted false, v) h = tt
    decode_again-IsDecoded (refused e, v) h = tt

    -- A refresh that succeeds leaves the client that was fetched.
    refresh-fetch :
        (now : ℕ) (v : Verifier l)
        → (refresh l now v).0 ≡ accepted true
        → l.fetch v.client ≡ some ((refresh l now v).1).client
    unfolding refresh
    refresh-fetch now v e = elim (Bool-cases (is_due v.last_forced_refresh now)) [
      | inl due ↦ elim (Option-cases (l.fetch v.client)) [
        | inl fails ↦ absurd (ground arith)
        | inr (c, works) ↦ ground arith
      ]
      | inr early ↦ absurd (ground arith)
    ]

    retry-IsDecoded :
        (now : ℕ) (r : Checked Decoded × Verifier l)
        → IsDecoded K token wall r.0
        → ((c : l.Client)
            → l.fetch (r.1).client ≡ some c
            → (k : l.Key) → (l.signing_key token c).0 ≡ key k
            → K k)
        → IsDecoded K token wall (retry l token wall now r).0
    unfolding retry
    retry-IsDecoded now (accepted bad_signature, v) h again =
        decode_again-IsDecoded (refresh l now v) (λ e. again _ (refresh-fetch now v e))
    retry-IsDecoded now (accepted (claims c), v) h again = h
    retry-IsDecoded now (accepted (jwt_error n), v) h again = h
    retry-IsDecoded now (refused e, v) h again = h

    -- What an accepted token rests on: claims that PyJWT decoded from it with such a key.
    Backed : ℤ → Principal → Type 0
    Backed max_age p =
        (c : Dict Text Claim) × (k : l.Key) × K k
        × (l.decode token k wall ≡ claims c)
        × Vouches l max_age c p

    check_decoded_sound :
        (max_age : ℤ) (d : Checked Decoded) (p : Principal)
        → IsDecoded K token wall d
        → check_decoded l max_age d ≡ accepted p
        → Backed max_age p
    unfolding check_decoded Backed
    check_decoded_sound max_age (accepted (claims c)) p (k, s, e) h =
        (c, k, s, e, check_claims_sound max_age c p h)
    check_decoded_sound max_age (accepted bad_signature) p _ h = absurd (ground arith)
    check_decoded_sound max_age (accepted (jwt_error n)) p _ h = absurd (ground arith)
    check_decoded_sound max_age (refused e) p _ h = absurd (ground arith)

  -- An accepted token was decoded with the key that the client of the key set finds for it, or that
  -- it finds after the set was fetched again; it is for this service, names a user who is not blank,
  -- and was not given a longer life than the configured one; the principal is the digest of that
  -- user with the job of the token.
  pub verify_sound :
      (token : Text) (wall now : ℕ) (v : Verifier l) (p : Principal)
      → (verify l token wall now v).0 ≡ accepted p
      → (c : Dict Text Claim) × (k : l.Key) × IsKeyFor token v.client k
        × (l.decode token k wall ≡ claims c)
        × Vouches l v.max_age c p
  unfolding verify decode decode_once Backed
  verify_sound token wall now v p h =
      check_decoded_sound (IsKeyFor token v.client) token wall v.max_age _ p
        (retry-IsDecoded (IsKeyFor token v.client) token wall now (decode_once l token wall v)
          (decode_once-IsDecoded (IsKeyFor token v.client) token wall v (λ k e. cached_key e))
          (λ c g k e. fetched_key g e))
        h
