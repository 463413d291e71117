-- ===== src/Storage/Keeps.antt =====
-- Actions that leave a view of the storage alone, one rule for each way to build an action.
use bulk_processing_service.Base.{Option, none, refl, some, ◌∙◌, ◌≡◌}
use bulk_processing_service.Storage.{
  Action, Error, Outcome, Result, Storage, clean, continue, err, finally, lift, ok, or_raise, pure,
  raises, returns, waits, ◌>>=◌,
}

module _ {V : Type 0} (view : Storage → V) where
  pub record Keeps {A : Type 0} (m : Action A) : Type 0 where
    pub at : (s : Storage) → view (m s).1 ≡ view s

  module _ {A B : Type 0} where
    continue-Keeps :
        (f : A → Action B)
        → ((a : A) → Keeps (f a))
        → (p : Outcome A × Storage) → view (continue f p).1 ≡ view p.1
    continue-Keeps f k (returns a, s) = (k a).at s
    continue-Keeps f k (raises e, s) = refl
    continue-Keeps f k (waits, s) = refl

    pub bind-Keeps :
        (m : Action A) {f : A → Action B} → Keeps m → ((a : A) → Keeps (f a)) → Keeps (m >>= f)
    bind-Keeps m {f} h k = record { at = λ s. continue-Keeps f k (m s) ∙ h.at s }

    -- What follows a value that was computed may use how it was computed.
    pub lift-Keeps :
        (r : Result A) {f : A → Action B}
        → ((a : A) → r ≡ ok a → Keeps (f a))
        → Keeps (lift r >>= f)
    lift-Keeps (ok a) k = record { at = λ s. (k a refl).at s }
    lift-Keeps (err e) k = record { at = λ s. refl }

  module _ {A : Type 0} where
    clean-keeps :
        (cleanup : Storage → Storage)
        → ((s : Storage) → view (cleanup s) ≡ view s)
        → (p : Outcome A × Storage) → view (clean cleanup p).1 ≡ view p.1
    clean-keeps cleanup k (returns a, s) = k s
    clean-keeps cleanup k (raises e, s) = k s
    clean-keeps cleanup k (waits, s) = refl

    pub finally-Keeps :
        {m : Action A} (cleanup : Storage → Storage)
        → Keeps m
        → ((s : Storage) → view (cleanup s) ≡ view s)
        → Keeps (finally m cleanup)
    finally-Keeps {m} cleanup h k = record { at = λ s. clean-keeps cleanup k (m s) ∙ h.at s }

    pub pure-Keeps : (a : A) → Keeps (pure a)
    pure-Keeps a = record { at = λ s. refl }

    -- An action that ends in the storage it began with.
    pub lift-Keeps_end : (r : Result A) → Keeps (lift r)
    lift-Keeps_end (ok a) = record { at = λ s. refl }
    lift-Keeps_end (err e) = record { at = λ s. refl }

    pub or_raise-Keeps : (o : Option A) (e : Error) → Keeps (or_raise o e)
    or_raise-Keeps (some a) e = record { at = λ s. refl }
    or_raise-Keeps none e = record { at = λ s. refl }
