-- ===== src/Cleanup/Calm.antt =====
-- app/cleanup.py: what the sweep of one job does to another, and that it does not wait.
use bulk_processing_service.Base.{Text, nat_eq, refl, text_eq, ◌∙◌, ◌≡◌, ◌≢◌}
use bulk_processing_service.Base.Dict.{Dict}
use bulk_processing_service.Locks.{is_held}
use bulk_processing_service.Storage.{
  Action, Outcome, Result, Storage, clean, continue, err, lift, ok, raises, returns, waits, ◌>>=◌,
}
use bulk_processing_service.Base.Dict

-- Two storages that look alike to the job `j` at the path `q`.
abbrev pub Alike : Text → Text → Storage → Storage → Type 0
Alike j q s t =
    (Dict.get s.nodes q ≡ Dict.get t.nodes q)
    × (is_held s.thread_locks j ≡ is_held t.thread_locks j)
    × (s.foreign_locks ≡ t.foreign_locks)

-- How a call ended: not by waiting, and the other job looks as it did in `s`.
abbrev pub IsCalm : {A : Type 0} → Text → Text → Storage → Outcome A × Storage → Type 0
IsCalm j q s (r, t) = (r ≢ waits) × Alike j q t s

-- An action that never waits and leaves the other job alone.
abbrev pub Calm : {A : Type 0} → Text → Text → Action A → Type 0
Calm j q m = (s : Storage) → IsCalm j q s (m s)

module _ (j q : Text) where
  pub Alike-trans : (s t u : Storage) → Alike j q s t → Alike j q t u → Alike j q s u
  Alike-trans s t u (a, b, c) (d, e, f) = (a ∙ d, b ∙ e, c ∙ f)

  pub IsCalm-later :
      {A : Type 0} (s t : Storage) (p : Outcome A × Storage)
      → Alike j q t s
      → IsCalm j q t p
      → IsCalm j q s p
  IsCalm-later s t (r, u) same (calm, alike) = (calm, Alike-trans u t s alike same)

  pub continue-Calm :
      {A B : Type 0} (f : A → Action B) (s : Storage) (p : Outcome A × Storage)
      → ((a : A) → Calm j q (f a))
      → IsCalm j q s p
      → IsCalm j q s (continue f p)
  continue-Calm f s (returns a, t) k (calm, alike) = IsCalm-later s t (f a t) alike (k a t)
  continue-Calm f s (raises e, t) k (calm, alike) = (λ w. cc, alike)
  continue-Calm f s (waits, t) k (calm, alike) = absurd (calm refl)

  pub lift-Calm :
      {A B : Type 0} (r : Result A) (f : A → Action B)
      → ((a : A) → r ≡ ok a → Calm j q (f a))
      → Calm j q (lift r >>= f)
  lift-Calm (ok a) f k s = k a refl s
  lift-Calm (err e) f k s = (λ w. cc, (refl, refl, refl))

  pub clean-Calm :
      {A : Type 0} (cleanup : Storage → Storage) (s : Storage) (p : Outcome A × Storage)
      → ((t : Storage) → Alike j q (cleanup t) t)
      → IsCalm j q s p
      → IsCalm j q s (clean cleanup p)
  clean-Calm cleanup s (returns a, t) k (calm, alike) =
      (λ w. cc, Alike-trans (cleanup t) t s (k t) alike)
  clean-Calm cleanup s (raises e, t) k (calm, alike) =
      (λ w. cc, Alike-trans (cleanup t) t s (k t) alike)
  clean-Calm cleanup s (waits, t) k (calm, alike) = absurd (calm refl)
