-- ===== src/Probes/Laws.antt =====
-- app/app.py: how old the answers of `_check_weasyprint_reachable` are.
use bulk_processing_service.Base.{
  All, Any, Bool, List, Text, [], arith, codes, false, if◌then◌else◌, inl, inr, refl, true, ℕ, ◌+◌,
  ◌<◌, ◌∷◌, ◌≡◌, ◌⊎◌,
}
use bulk_processing_service.Probes.{
  WeasyprintStatus, cache_ttl, check_weasyprint_reachable, is_fresh, reachable,
}
use bulk_processing_service.Storage.{Result}

-- The first status, before any request.
abbrev pub unknown : WeasyprintStatus
unknown = record { checked_at = 0; cached = codes "unavailable" }

-- A call, at its time, with the response that a request of it gets.
abbrev pub Call : Type 0
Call = ℕ × Result ℕ

-- The answers of calls, one after the other.
unfoldable pub answers : List Call → WeasyprintStatus → List (ℕ × Text)
answers [] status = []
answers ((now, response) ∷ calls) status =
    let (text, status') = check_weasyprint_reachable now response status in
    (now, text) ∷ answers calls status'

-- The answer is the result of a request of one of the calls, now or less than five seconds ago.
abbrev pub IsFresh : List Call → ℕ × Text → Type 0
IsFresh calls (now, text) =
    Any (λ call. (reachable call.1 ≡ text) × ((call.0 ≡ now) ⊎ (now < call.0 + cache_ttl))) calls

-- The status is the first one, or the result of a request.
abbrev IsKnown : List Call → WeasyprintStatus → Type 0
IsKnown calls status =
    (status.checked_at ≡ 0)
    ⊎ Any (λ call. (reachable call.1 ≡ status.cached) × (call.0 ≡ status.checked_at)) calls

Any-map :
    {A : Type 0} (P Q : A → Type 0) → ((a : A) → P a → Q a) → (xs : List A) → Any P xs → Any Q xs
Any-map P Q f [] h = h
Any-map P Q f (x ∷ xs) (inl h) = inl (f x h)
Any-map P Q f (x ∷ xs) (inr h) = inr (Any-map P Q f xs h)

-- What is promised of a call: its answer is fresh, and the status it leaves is known.
abbrev Promised : List Call → ℕ → Text × WeasyprintStatus → Type 0
Promised all now (text, status) = IsFresh all (now, text) × IsKnown all status

module _ (all : List Call) (now : ℕ) (response : Result ℕ) (status : WeasyprintStatus)
    (here : (P : Call → Type 0) → P (now, response) → Any P all) (known : IsKnown all status) where
  not_unknown : is_fresh now status ≡ true → status.checked_at ≡ 0 → ⊥
  not_unknown e z = ground arith

  still_fresh : is_fresh now status ≡ true → now < status.checked_at + cache_ttl
  still_fresh e = ground arith

  cached-IsFresh :
      is_fresh now status ≡ true → IsKnown all status → IsFresh all (now, status.cached)
  cached-IsFresh e (inl z) = absurd (not_unknown e z)
  cached-IsFresh e (inr h) =
      Any-map (λ call. (reachable call.1 ≡ status.cached) × (call.0 ≡ status.checked_at))
        (λ call. (reachable call.1 ≡ status.cached) × ((call.0 ≡ now) ⊎ (now < call.0 + cache_ttl)))
        (λ call (same, at). (same, inr (omega (arith, still_fresh e, at)))) all h

  branch-Promised :
      (fresh : Bool)
      → is_fresh now status ≡ fresh
      → Promised all now (
          if fresh
          then (status.cached, status)
          else (reachable response, record { checked_at = now; cached = reachable response }))
  branch-Promised true e = (cached-IsFresh e known, known)
  branch-Promised false e = (here _ (refl, inl refl), inr (here _ (refl, refl)))

  -- One call, among others that it may be the answer of.
  step-Promised : Promised all now (check_weasyprint_reachable now response status)
  unfolding check_weasyprint_reachable
  step-Promised = branch-Promised (is_fresh now status) refl

answers-AreFresh :
    (all calls : List Call) (status : WeasyprintStatus)
    → ((P : Call → Type 0) → Any P calls → Any P all)
    → IsKnown all status
    → All (IsFresh all) (answers calls status)
unfolding answers
answers-AreFresh all [] status sub known = tt
answers-AreFresh all ((now, response) ∷ calls) status sub known =
    let (fresh, known') = step-Promised all now response status (λ P h. sub P (inl h)) known in
    (
      fresh,
      answers-AreFresh all calls (check_weasyprint_reachable now response status).1
          (λ P h. sub P (inr h)) known',
    )

-- Every answer to a call, in any sequence of calls, is the result of a request that was made by one of
-- these calls, at that very time or less than five seconds before.
pub answers-IsFresh : (calls : List Call) → All (IsFresh calls) (answers calls unknown)
answers-IsFresh calls = answers-AreFresh calls calls unknown (λ P h. h) (inl refl)
