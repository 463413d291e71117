-- ===== src/PolarionAuth.antt =====
-- app/polarion_auth.py: who a merge job is made for. PyJWT, its client for key sets, SHA-256 and
-- the clocks are parameters.
pub mod Laws
pub mod Rate
pub mod KeySet
pub mod HostHeader
pub mod Setup
use bulk_processing_service.Base.{
  Bool, Bytes, Option, Text, [], codes, false, if◌then◌else◌, leb, ltb, nat_eq, none, some, text_eq,
  true, ℕ, ◌&&◌, ◌+◌, ◌==◌,
}
use bulk_processing_service.Base.Dict.{Dict}
use bulk_processing_service.Models.{JobMetadata}
use bulk_processing_service.Strings.{is_empty, strip}
use bulk_processing_service.Strings.Integer.{negsuc, pos, ℤ}
use bulk_processing_service.Strings.Utf8.{utf8}
use bulk_processing_service.Base.Dict

-- `Principal`
pub record Principal : Type 0 where
  pub user_hash : Text
  pub job : Option Text

-- The value of a claim: JSON `null`, a text, a number (`exp` and `iat` are seconds), or any other.
pub data Claim : Type 0 where
  null : Claim
  text : Text → Claim
  number : ℕ → Claim
  other : Claim

-- `TokenRejectedError` with its reason, `JwksUnavailableError`, and an exception that no handler
-- expects.
pub data AuthError : Type 0 where
  rejected : Text → AuthError
  unavailable crashed : AuthError

pub data Checked (A : Type 0) : Type 0 where
  accepted : A → Checked A
  refused : AuthError → Checked A

-- How `get_signing_key_from_jwt` ends: a key, `PyJWKClientConnectionError` or `ValueError`, or
-- another `PyJWTError` by the name of its type.
pub data Found (K : Type 0) : Type 0 where
  key : K → Found K
  unreachable : Found K
  key_error : Text → Found K

-- How `jwt.decode` ends: the claims, `InvalidSignatureError`, or another `PyJWTError`.
pub data Decoded : Type 0 where
  claims : Dict Text Claim → Decoded
  bad_signature : Decoded
  jwt_error : Text → Decoded

-- PyJWT and its client for key sets, which may fetch the set while it looks for a key; `fetch` is
-- `get_jwk_set(refresh=True)`, `none` where that raises. `decode` is told the time in seconds.
pub record JwtLibrary : Type 1 where
  pub Client : Type 0
  pub Key : Type 0
  pub signing_key : Text → Client → Found Key × Client
  pub fetch : Client → Option Client
  pub decode : Text → Key → ℕ → Decoded
  pub sha256 : Bytes → Text

abbrev pub service_name : Text
service_name = codes "bulk-processing-service"

-- `_FORCED_REFRESH_INTERVAL_SECONDS`
abbrev pub refresh_interval : ℕ
refresh_interval = 30

abbrev pub is_due : Option ℕ → ℕ → Bool
is_due none now = true
is_due (some last) now = leb (last + refresh_interval) now

-- `exp - iat > max_age`, for a limit of either sign.
abbrev pub lives_longer : ℤ → ℕ → ℕ → Bool
lives_longer (pos n) exp iat = ltb (iat + n) exp
lives_longer (negsuc n) exp iat = ltb iat (exp + (n + 1))

abbrev pub claim_of : Option Claim → Claim
claim_of none = null
claim_of (some c) = c

module _ (l : JwtLibrary) where
  -- `PolarionTokenVerifier`. The last forced refresh is in seconds of the monotonic clock, `none`
  -- for minus infinity.
  pub record Verifier : Type 0 where
    pub client : l.Client
    pub max_age : ℤ
    pub last_forced_refresh : Option ℕ

  -- `_refresh`: whether the key set was fetched again.
  unfoldable pub refresh : ℕ → Verifier → Checked Bool × Verifier
  refresh now v =
      if is_due v.last_forced_refresh now
      then elim (l.fetch v.client) [
        | some c ↦ (accepted true, record v { client = c; last_forced_refresh = some now })
        | none ↦ (refused unavailable, record v { last_forced_refresh = some now })
      ]
      else (accepted false, v)

  -- What `_decode_once` makes of the key that it found.
  abbrev pub read_token : Text → ℕ → Found l.Key → Checked Decoded
  read_token token wall (key k) = accepted (l.decode token k wall)
  read_token token wall unreachable = refused unavailable
  read_token token wall (key_error name) = accepted (jwt_error name)

  -- `_decode_once`
  unfoldable pub decode_once : Text → ℕ → Verifier → Checked Decoded × Verifier
  decode_once token wall v =
      let (found, c) = l.signing_key token v.client in
      (read_token token wall found, record v { client = c })

  -- The second attempt of `_decode`, where the key set was fetched again.
  unfoldable pub decode_again : Text → ℕ → Checked Bool × Verifier → Checked Decoded × Verifier
  decode_again token wall (accepted true, v) = decode_once token wall v
  decode_again token wall (accepted false, v) = (accepted bad_signature, v)
  decode_again token wall (refused e, v) = (refused e, v)

  -- `_decode`: a signature that does not verify is checked once more against fresh keys.
  unfoldable pub retry : Text → ℕ → ℕ → Checked Decoded × Verifier → Checked Decoded × Verifier
  retry token wall now (accepted bad_signature, v) = decode_again token wall (refresh now v)
  retry token wall now (accepted (claims c), v) = (accepted (claims c), v)
  retry token wall now (accepted (jwt_error name), v) = (accepted (jwt_error name), v)
  retry token wall now (refused e, v) = (refused e, v)

  unfoldable pub decode : Text → ℕ → ℕ → Verifier → Checked Decoded × Verifier
  decode token wall now v = retry token wall now (decode_once token wall v)

  abbrev pub job_of : Claim → Checked (Option Text)
  job_of null = accepted none
  job_of (text job) = accepted (some job)
  job_of _ = refused (rejected (codes "bad job"))

  -- `claims["exp"] - claims["iat"] > self._max_age_seconds`, which only numbers allow.
  abbrev pub check_age : ℤ → Claim → Claim → Checked (Unit {0})
  check_age max_age (number exp) (number iat) =
      if lives_longer max_age exp iat
      then refused (rejected (codes "lives too long"))
      else accepted tt
  check_age max_age _ _ = refused crashed

  -- The last test of `verify`, and its result with `hash_user`; `encode` raises for a lone surrogate.
  abbrev pub principal_of : Text → Checked (Unit {0}) → Checked (Option Text) → Checked Principal
  principal_of user (refused e) _ = refused e
  principal_of user (accepted _) (refused e) = refused e
  principal_of user (accepted _) (accepted job) = elim (utf8 user) [
    | none ↦ refused crashed
    | some bytes ↦ accepted (record { user_hash = l.sha256 bytes; job = job })
  ]

  -- The tests of `verify` on the user, the age and the job.
  unfoldable pub check_user : ℤ → Dict Text Claim → Claim → Checked Principal
  check_user max_age c (text user) =
      if is_empty (strip user)
      then refused (rejected (codes "no user"))
      else principal_of user
          (check_age max_age (claim_of (Dict.get c (codes "exp")))
            (claim_of (Dict.get c (codes "iat"))))
          (job_of (claim_of (Dict.get c (codes "job"))))
  check_user max_age c _ = refused (rejected (codes "no user"))

  -- `claims.get(SERVICE_CLAIM) != SERVICE_NAME`
  abbrev pub is_for_service : Claim → Bool
  is_for_service (text name) = name == service_name
  is_for_service _ = false

  unfoldable pub check_claims : ℤ → Dict Text Claim → Checked Principal
  check_claims max_age c =
      if is_for_service (claim_of (Dict.get c (codes "svc")))
      then check_user max_age c (claim_of (Dict.get c (codes "sub")))
      else refused (rejected (codes "not made for this service"))

  unfoldable pub check_decoded : ℤ → Checked Decoded → Checked Principal
  check_decoded max_age (accepted (claims c)) = check_claims max_age c
  check_decoded max_age (accepted bad_signature) =
      refused (rejected (codes "InvalidSignatureError"))
  check_decoded max_age (accepted (jwt_error name)) = refused (rejected name)
  check_decoded max_age (refused e) = refused e

  -- `verify`, at a wall clock time and a time of the monotonic clock.
  unfoldable pub verify : Text → ℕ → ℕ → Verifier → Checked Principal × Verifier
  verify token wall now v = let (r, v') = decode token wall now v in (check_decoded v.max_age r, v')

  -- `require_principal`: the principal, none where the check is off, or the status of an error.
  pub data Admission : Type 0 where
    admitted : Option Principal → Admission
    denied : ℕ → Text → Admission

  abbrev pub admission_of : Checked Principal → Admission
  admission_of (accepted p) = admitted (some p)
  admission_of (refused (rejected reason)) = denied 401 (codes "Invalid Polarion token")
  admission_of (refused unavailable) =
      denied 503 (codes "Cannot verify the Polarion token: its key set is unreachable")
  admission_of (refused crashed) = denied 500 (codes "Internal Server Error")

  abbrev pub token_of : Option Text → Text
  token_of none = []
  token_of (some t) = strip t

  unfoldable pub require_principal :
      Option Verifier → Option Text → ℕ → ℕ → Admission × Option Verifier
  require_principal none header wall now = (admitted none, none)
  require_principal (some v) header wall now =
      if is_empty (token_of header)
      then (denied 401 (codes "Missing Polarion token"), some v)
      else let (r, v') = verify (token_of header) wall now v in (admission_of r, some v')

-- `may_use_job`
unfoldable pub may_use_job : Option Principal → Text → JobMetadata → Bool
may_use_job none job_id metadata = true
may_use_job (some p) job_id metadata = elim p.job [
  | none ↦ false
  | some job ↦ elim metadata.initiator_hash [
    | none ↦ false
    | some initiator ↦ (job == job_id) && (initiator == p.user_hash)
  ]
]
