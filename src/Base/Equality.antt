-- ===== src/Base/Equality.antt =====
-- Python's `==` and `in`, for every type whose equality can be decided.
use Prim.Native.Nat.{ℕ}
use mathlib.Core.Path.{◌≡◌, refl, sym, ap₂}
use mathlib.Core.Logic.{◌↔◌, ite}
use mathlib.Core.Bool.{Bool, true, false, ◌||◌}
use mathlib.Core.List.{List, [], ◌∷◌}
use native.Mathlib.Decide.{ℕ_discrete}
use native.Mathlib.Omega.{arith}
use bulk_processing_service.Base.Tests.{Text}

pub record Eq {ℓ} (A : Type ℓ) : Type ℓ where
  pub dec : Discrete A

head_eq : {x y : ℕ} {xs ys : Text} → x ∷ xs ≡ y ∷ ys → x ≡ y
head_eq e = cc

tail_eq : {x y : ℕ} {xs ys : Text} → x ∷ xs ≡ y ∷ ys → xs ≡ ys
tail_eq e = cc

nil-ne-cons : {x : ℕ} {xs : Text} → ◌≡◌ {A = Text} [] (x ∷ xs) → ⊥
nil-ne-cons e = cc

cons_dec : {x y : ℕ} {xs ys : Text} → Dec (x ≡ y) → Dec (xs ≡ ys) → Dec (x ∷ xs ≡ y ∷ ys)
cons_dec (yes p) (yes q) = yes (ap₂ ◌∷◌ p q)
cons_dec (yes p) (no q) = no (λ e. q (tail_eq e))
cons_dec (no p) _ = no (λ e. p (head_eq e))

unfoldable pub Text-discrete : Discrete Text
unfolding ℕ_discrete cons_dec nil-ne-cons head_eq tail_eq
Text-discrete [] [] = yes refl
Text-discrete [] (y ∷ ys) = no nil-ne-cons
Text-discrete (x ∷ xs) [] = no (λ e. nil-ne-cons (sym e))
Text-discrete (x ∷ xs) (y ∷ ys) = cons_dec (ℕ_discrete x y) (Text-discrete xs ys)

-- Shut in proofs, where a split on `s == t` yields the equation or its negation.
instance unfoldable pub text_eq : Eq Text
unfolding Text-discrete
text_eq = record { dec = Text-discrete }

instance unfoldable pub nat_eq : Eq ℕ
unfolding ℕ_discrete
nat_eq = record { dec = ℕ_discrete }

module _ {ℓ} {A : Type ℓ} ⦃e : Eq A⦄ where
  infix 50 ◌==◌
  abbrev pub ◌==◌ : A → A → Bool
  a == b = ite (e.dec a b) true false

  pub eq_iff : (a b : A) → ((a == b) ≡ true) ↔ (a ≡ b)
  eq_iff a b = ground arith

  pub eq_refl : (a : A) → (a == a) ≡ true
  eq_refl a = (eq_iff a a).1 refl

  abbrev pub contains : List A → A → Bool
  contains [] a = false
  contains (x ∷ xs) a = a == x || contains xs a
