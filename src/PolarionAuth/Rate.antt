-- ===== src/PolarionAuth/Rate.antt =====
-- app/polarion_auth.py: how often `_refresh` asks for the key set.
use bulk_processing_service.Base.{
  Bool, Bool-cases, List, Option-cases, [], arith, false, inl, inr, leb, some, true, ℕ, ◌*◌, ◌+◌,
  ◌∷◌, ◌≡◌, ◌≤◌, ◌⊎◌,
}
use bulk_processing_service.PolarionAuth.{
  Checked, JwtLibrary, Verifier, accepted, refresh, refresh_interval, refused,
}

-- Whether `refresh` asked for the key set, as its result tells.
abbrev pub asked : Checked Bool → ℕ
asked (accepted true) = 1
asked (accepted false) = 0
asked (refused e) = 1

module _ (l : JwtLibrary) where
  -- How often the key set is asked for by forced refreshes at the given times.
  unfoldable pub requests : List ℕ → Verifier l → ℕ
  requests [] v = 0
  requests (t ∷ ts) v = let (r, v') = refresh l t v in asked r + requests ts v'

  -- The times do not go back, from `t` to `end`.
  abbrev pub Ascends : ℕ → List ℕ → ℕ → Type 0
  Ascends t [] end = t ≤ end
  Ascends t (u ∷ us) end = (t ≤ u) × Ascends u us end

  -- One refresh: it asks and remembers the time, or neither.
  refresh_step :
      (t last : ℕ) (v : Verifier l)
      → v.last_forced_refresh ≡ some last
      → ((asked (refresh l t v).0 ≡ 1)
          × (last + refresh_interval ≤ t)
          × ((refresh l t v).1.last_forced_refresh ≡ some t))
        ⊎ ((asked (refresh l t v).0 ≡ 0) × ((refresh l t v).1.last_forced_refresh ≡ some last))
  unfolding refresh
  refresh_step t last v e = elim (Bool-cases (leb (last + refresh_interval) t)) [
    | inl due ↦ elim (Option-cases (l.fetch v.client)) [
      | inl fails ↦ inl (ground arith, ground arith, ground arith)
      | inr (c, works) ↦ inl (ground arith, ground arith, ground arith)
    ]
    | inr early ↦ inr (ground arith, ground arith)
  ]

  -- After a forced refresh, the key set is asked for at most once in every thirty seconds.
  pub requests-rate :
      (ts : List ℕ) (v : Verifier l) (last now end : ℕ)
      → v.last_forced_refresh ≡ some last
      → last ≤ now
      → Ascends now ts end
      → refresh_interval * requests ts v + last ≤ end
  unfolding requests
  requests-rate [] v last now end e le asc = omega arith
  requests-rate (t ∷ ts) v last now end e le (step, asc) = elim (refresh_step t last v e) [
    | inl (one, due, e') ↦
        let ih = requests-rate ts (refresh l t v).1 t t end e' (omega arith) asc in
        rw one (omega (arith, ih))
    | inr (zero_asked, e') ↦
        let ih = requests-rate ts (refresh l t v).1 last t end e' (omega arith) asc in
        rw zero_asked (omega (arith, ih))
  ]
