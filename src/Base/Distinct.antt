-- ===== src/Base/Distinct.antt =====
-- Lists without repetition.
use mathlib.Core.Path.{◌≡◌, refl}
use mathlib.Core.Bool.{Bool, true, false, ◌||◌}
use mathlib.Core.List.{List, [], ◌∷◌, ◌++◌}
use native.Mathlib.Omega.{arith}
use bulk_processing_service.Base.Equality.{Eq, contains, eq_refl}

or_split : (a b : Bool) → (a || b) ≡ false → (a ≡ false) × (b ≡ false)
or_split true b e = (e, cc)
or_split false b e = (refl, e)

module _ {ℓ} {A : Type ℓ} ⦃e : Eq A⦄ where
  pub contains-append :
      (xs ys : List A) (a : A) → contains (xs ++ ys) a ≡ (contains xs a || contains ys a)
  contains-append [] ys a = refl
  contains-append (x ∷ xs) ys a = ground (arith, contains-append xs ys a)

  abbrev pub AreDistinct : List A → Type 0
  AreDistinct [] = Unit
  AreDistinct (x ∷ xs) = (contains xs x ≡ false) × AreDistinct xs

  -- No entry of the first list is in the second.
  abbrev pub AreApart : List A → List A → Type 0
  AreApart [] ys = Unit
  AreApart (x ∷ xs) ys = (contains ys x ≡ false) × AreApart xs ys

  pub AreDistinct-append :
      (xs ys : List A) → AreDistinct xs → AreDistinct ys → AreApart xs ys → AreDistinct (xs ++ ys)
  AreDistinct-append [] ys h k apart = k
  AreDistinct-append (x ∷ xs) ys (new, h) k (absent, apart) =
      (ground (arith, contains-append xs ys x), AreDistinct-append xs ys h k apart)

  pub AreDistinct-split :
      (xs ys : List A) → AreDistinct (xs ++ ys) → AreDistinct xs × AreDistinct ys × AreApart xs ys
  AreDistinct-split [] ys h = (tt, h, tt)
  AreDistinct-split (x ∷ xs) ys (new, h) =
      let (both, right) =
        (or_split (contains xs x) (contains ys x) (ground (arith, contains-append xs ys x))) in
      let (hx, hy, apart) = AreDistinct-split xs ys h in ((both, hx), hy, (right, apart))

  pub AreApart-contains :
      (xs ys : List A) (a : A) → AreApart xs ys → contains ys a ≡ true → contains xs a ≡ false
  AreApart-contains [] ys a h c = refl
  AreApart-contains (x ∷ xs) ys a (absent, h) c = ground (arith, AreApart-contains xs ys a h c)

  AreApart-intro :
      (xs ys : List A) → ((a : A) → contains xs a ≡ true → contains ys a ≡ false) → AreApart xs ys
  AreApart-intro [] ys h = tt
  AreApart-intro (x ∷ xs) ys h =
      (h x (ground (arith, eq_refl x)), AreApart-intro xs ys (λ a c. h a (ground arith)))

  pub AreDistinct-swap : (xs ys : List A) → AreDistinct (xs ++ ys) → AreDistinct (ys ++ xs)
  AreDistinct-swap xs ys h =
      let (hx, hy, apart) = AreDistinct-split xs ys h in
      AreDistinct-append ys xs hy hx
        (AreApart-intro ys xs (λ a c. AreApart-contains xs ys a apart c))

  pub contains-swap : (xs ys : List A) (a : A) → contains (xs ++ ys) a ≡ contains (ys ++ xs) a
  contains-swap xs ys a = ground (arith, contains-append xs ys a, contains-append ys xs a)
