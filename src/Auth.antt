-- ===== src/Auth.antt =====
-- app/auth.py: the optional API key in front of the merge endpoints.
pub mod Laws
use bulk_processing_service.Base.{
  Bool, Bytes, List, Option, Text, [], false, if◌then◌else◌, ltb, map, nat_eq, none, some, text_eq,
  true, ℕ, ◌==◌, ◌||◌, ◌∷◌,
}
use bulk_processing_service.Storage.{Error, Result, err, ok}
use bulk_processing_service.Strings.{is_empty, split_on, strip}
use bulk_processing_service.WeasyprintClient.{encoded, truthy}

-- How `require_api_key` ends: it returns, it raises 401, or an exception escapes.
pub data Access : Type 0 where
  granted unauthorized : Access
  failed : Error → Access

unfoldable pub without_empty : List Text → List Text
without_empty [] = []
without_empty (t ∷ ts) =
    let rest = without_empty ts in elim (is_empty t) [ true ↦ rest | false ↦ t ∷ rest ]

-- `get_api_keys`, of the value of `API_KEY`
unfoldable pub get_api_keys : Text → List Text
get_api_keys raw = without_empty (map strip (split_on b',' raw))

-- `is_auth_enabled`
unfoldable pub is_auth_enabled : Text → Bool
is_auth_enabled raw = elim (get_api_keys raw) [ [] ↦ false | k ∷ keys ↦ true ]

-- `candidate.encode("latin-1", errors="replace")`
abbrev pub latin1_char : ℕ → ℕ
latin1_char c = if ltb c 0x100 then c else b'?'

abbrev pub latin1 : Text → Bytes
latin1 t = map latin1_char t

-- `or`, where the second one may raise as well
abbrev pub either : Bool → Result Bool → Result Bool
either a (ok b) = ok (a || b)
either a (err e) = err e

-- The loop of `_matches_any`: every key is encoded and compared.
unfoldable pub matches_any : Bytes → List Text → Result Bool
matches_any shown [] = ok false
matches_any shown (api_key ∷ keys) =
    let rest = matches_any shown keys in
    elim (encoded api_key) [ err e ↦ err e | ok bytes ↦ either (shown == bytes) rest ]

-- The loop of `require_api_key`.
unfoldable pub any_candidate : List Text → List Text → Result Bool
any_candidate [] keys = ok false
any_candidate (c ∷ candidates) keys =
    let rest = any_candidate candidates keys in
    elim (matches_any (latin1 c) keys) [ err e ↦ err e | ok matched ↦ either matched rest ]

-- The credentials that are not empty: the one in `X-API-Key`, and the bearer token.
abbrev pub with_truthy : Option Text → List Text → List Text
with_truthy none rest = rest
with_truthy (some t) rest = t ∷ rest

abbrev pub presented : Option Text → Option Text → List Text
presented header bearer = with_truthy (truthy header) (with_truthy (truthy bearer) [])

abbrev pub access_of : Result Bool → Access
access_of (ok true) = granted
access_of (ok false) = unauthorized
access_of (err e) = failed e

-- Without keys the check is off.
abbrev pub access_for : List Text → List Text → Access
access_for [] shown = granted
access_for (k ∷ keys) shown = access_of (any_candidate shown (k ∷ keys))

-- `require_api_key`
unfoldable pub require_api_key : Text → Option Text → Option Text → Access
require_api_key raw header bearer = access_for (get_api_keys raw) (presented header bearer)
