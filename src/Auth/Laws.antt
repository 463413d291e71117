-- ===== src/Auth/Laws.antt =====
-- app/auth.py: whom the API key lets in.
use bulk_processing_service.Base.{
  All, Any, Bool, Bytes, List, Option, Text, [], ap, arith, eq_iff, false, inl, inr, nat_eq, refl,
  sym, text_eq, true, ◌==◌, ◌↔◌, ◌∙◌, ◌∷◌, ◌≡◌, ◌⊎◌,
}
use bulk_processing_service.Auth.{
  access_for, access_of, any_candidate, either, get_api_keys, granted, latin1, matches_any,
  presented, require_api_key,
}
use bulk_processing_service.Storage.{Result, ok}
use bulk_processing_service.WeasyprintClient.{encoded}
use mathlib.Core.Bool.{false≢true}

-- Every configured key has an encoding: none holds a lone surrogate.
abbrev pub AreEncodable : List Text → Type 0
AreEncodable keys = All (λ k. (bytes : Bytes) × (encoded k ≡ ok bytes)) keys

-- The bytes that were sent are those of the key.
abbrev pub Opens : Text → Text → Type 0
Opens candidate k = encoded k ≡ ok (latin1 candidate)

-- The answer of a loop, and what it tells.
abbrev Tells : Result Bool → Type 0 → Type 0
Tells r P = (b : Bool) × (r ≡ ok b) × ((b ≡ true) ↔ P)

either-Tells :
    {P Q : Type 0} (a : Bool) (r : Result Bool)
    → ((a ≡ true) ↔ P)
    → Tells r Q
    → Tells (either a r) (P ⊎ Q)
either-Tells true r p (b, e, q) = (true, rw e refl, (λ _. inl (p.0 refl), λ _. refl))
either-Tells false r p (b, e, q) = (
  b,
  rw e refl,
  (λ t. inr (q.0 t), λ s. elim s [ inl x ↦ absurd (false≢true (p.1 x)) | inr y ↦ q.1 y ]),
)

ok_injective : {a b : Bytes} → ok a ≡ ok b → a ≡ b
ok_injective e = cc

same_bytes :
    (shown bytes : Bytes) (r : Result Bytes)
    → r ≡ ok bytes
    → ((shown == bytes) ≡ true) ↔ (r ≡ ok shown)
same_bytes shown bytes r e = (
  λ t. e ∙ ap ok (sym ((eq_iff shown bytes).0 t)),
  λ s. (eq_iff shown bytes).1 (ok_injective (sym s ∙ e)),
)

Tells-along : {P : Type 0} {r r' : Result Bool} → r ≡ r' → Tells r' P → Tells r P
Tells-along e (b, e', tells) = (b, e ∙ e', tells)

matches_any_step :
    (shown : Bytes) (k : Text) (keys : List Text) (bytes : Bytes)
    → encoded k ≡ ok bytes
    → matches_any shown (k ∷ keys) ≡ either (shown == bytes) (matches_any shown keys)
unfolding matches_any
matches_any_step shown k keys bytes e = ground arith

matches_any-Tells :
    (candidate : Text) (keys : List Text)
    → AreEncodable keys
    → Tells (matches_any (latin1 candidate) keys) (Any (Opens candidate) keys)
unfolding matches_any
matches_any-Tells candidate [] h = (false, refl, (λ e. absurd (false≢true e), λ x. absurd x))
matches_any-Tells candidate (k ∷ keys) ((bytes, e), h) =
    Tells-along (matches_any_step (latin1 candidate) k keys bytes e) (
      either-Tells _ _ (same_bytes (latin1 candidate) bytes (encoded k) e)
        (matches_any-Tells candidate keys h))

any_candidate_step :
    (c : Text) (candidates keys : List Text) (b : Bool)
    → matches_any (latin1 c) keys ≡ ok b
    → any_candidate (c ∷ candidates) keys ≡ either b (any_candidate candidates keys)
unfolding any_candidate
any_candidate_step c candidates keys b e = ground arith

any_candidate-Tells :
    (candidates keys : List Text)
    → AreEncodable keys
    → Tells (any_candidate candidates keys) (Any (λ c. Any (Opens c) keys) candidates)
unfolding any_candidate
any_candidate-Tells [] keys h = (false, refl, (λ e. absurd (false≢true e), λ x. absurd x))
any_candidate-Tells (c ∷ candidates) keys h =
    let (b, e, tells) = matches_any-Tells c keys h in
    Tells-along (any_candidate_step c candidates keys b e)
      (either-Tells b _ tells (any_candidate-Tells candidates keys h))

granted_iff : {P : Type 0} (r : Result Bool) → Tells r P → (access_of r ≡ granted) ↔ P
granted_iff r (true, e, tells) = rw e (λ _. tells.0 refl, λ _. refl)
granted_iff r (false, e, tells) =
    rw e (λ g. absurd (ground arith), λ x. absurd (false≢true (tells.1 x)))

access_for_iff :
    (keys shown : List Text)
    → AreEncodable keys
    → (access_for keys shown ≡ granted) ↔ ((keys ≡ []) ⊎ Any (λ c. Any (Opens c) keys) shown)
access_for_iff [] shown h = (λ _. inl refl, λ _. refl)
access_for_iff (k ∷ keys) shown h =
    let (to, from) =
      granted_iff (any_candidate shown (k ∷ keys)) (any_candidate-Tells shown (k ∷ keys) h) in
    (λ g. inr (to g), λ s. elim s [ inl e ↦ absurd (ground arith) | inr x ↦ from x ])

-- With keys that can be encoded, a request is let in exactly when no key is configured, or one of
-- the credentials it shows that is not empty is, byte by byte, one of the keys.
pub require_api_key_iff :
    (raw : Text) (header bearer : Option Text)
    → AreEncodable (get_api_keys raw)
    → (require_api_key raw header bearer ≡ granted) ↔ (
        (get_api_keys raw ≡ [])
        ⊎ Any (λ c. Any (Opens c) (get_api_keys raw)) (presented header bearer))
unfolding require_api_key
require_api_key_iff raw header bearer h =
    access_for_iff (get_api_keys raw) (presented header bearer) h
