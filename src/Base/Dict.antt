-- ===== src/Base/Dict.antt =====
-- Python's `dict`, in insertion order. Proofs elsewhere go by the laws; only tests and clients
-- that iterate unfold the operations.
use bulk_processing_service.Base.Tests.{if◌then◌else◌}
use bulk_processing_service.Base.Equality.{Eq, ◌==◌, eq_refl}
use mathlib.Core.Path.{◌≡◌, refl}
use mathlib.Core.Option.{Option, none, some}
use mathlib.Core.List.{List, [], ◌∷◌}
use native.Mathlib.Omega.{arith}

abbrev pub Dict {ℓ κ} : Type ℓ → Type κ → Type (ℓ ⊔ κ)
Dict K V = List (K × V)

module _ {ℓ κ} {K : Type ℓ} {V : Type κ} ⦃e : Eq K⦄ where
  -- d.get(k)
  unfoldable pub get : Dict K V → K → Option V
  get [] k = none
  get ((j, v) ∷ d) k = if j == k then some v else get d k

  -- d[k] = v
  unfoldable pub put : Dict K V → K → V → Dict K V
  put [] k v = (k, v) ∷ []
  put ((j, w) ∷ d) k v = if j == k then (k, v) ∷ d else (j, w) ∷ put d k v

  -- d.pop(k, None). Every entry of the key goes; a dict has at most one.
  unfoldable pub remove : Dict K V → K → Dict K V
  remove [] k = []
  remove ((j, w) ∷ d) k = let rest = remove d k in if j == k then rest else (j, w) ∷ rest

  pub get-put :
      (d : Dict K V) (k j : K) (v : V) → get (put d k v) j ≡ (if k == j then some v else get d j)
  unfolding get put
  get-put [] k j v = refl
  get-put ((i, w) ∷ d) k j v = ground (arith, get-put d k j v)

  pub get-remove :
      (d : Dict K V) (k j : K) → get (remove d k) j ≡ (if k == j then none else get d j)
  unfolding get remove
  get-remove [] k j = ground arith
  get-remove ((i, w) ∷ d) k j = ground (arith, get-remove d k j)

  -- Setting a key twice is setting it once.
  pub put-put : (d : Dict K V) (k : K) (v w : V) → put (put d k v) k w ≡ put d k w
  unfolding put
  put-put [] k v w = ground (arith, eq_refl k)
  put-put ((i, u) ∷ d) k v w = ground (arith, eq_refl k, put-put d k v w)

pub ruleset dict_laws = (get-put, get-remove)
