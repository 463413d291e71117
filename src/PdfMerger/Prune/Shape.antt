-- ===== src/PdfMerger/Prune/Shape.antt =====
-- app/pdf_merger.py: the elements that `_prune` leaves.
use bulk_processing_service.Base.{Bool, List, arith, false, if◌then◌else◌, refl, true, ℕ, ◌||◌, ◌≡◌}
use bulk_processing_service.PdfMerger.{Element, Kids, child, element, marked, no_kids, reference}
use bulk_processing_service.PdfMerger.Prune.{has_kids, is_kept_page, keep_child, prune, prune_kids}

-- Every element from here down has something in it, or is empty by itself on a page that is kept.
unfoldable mutual
  pub IsTrim : {O : Type 0} → List (ℕ × ℕ) → Element O → Type 0
  IsTrim pages (element page lang rest kids) =
      ((has_kids kids || is_kept_page pages page) ≡ true) × AreTrim pages kids

  pub AreTrim : {O : Type 0} → List (ℕ × ℕ) → Kids O → Type 0
  AreTrim pages no_kids = Unit
  AreTrim pages (child x kids) = IsTrim pages x × AreTrim pages kids
  AreTrim pages (reference q o kids) = AreTrim pages kids
  AreTrim pages (marked o kids) = AreTrim pages kids

or_left : (a b : Bool) → a ≡ true → (a || b) ≡ true
or_left a b e = ground arith

module _ {O : Type 0} (pages : List (ℕ × ℕ)) where
  AreTrim-keep_child :
      (r : Bool × Element O) (kids : Kids O)
      → (r.0 ≡ true → IsTrim pages r.1)
      → AreTrim pages kids
      → AreTrim pages (keep_child r kids)
  unfolding IsTrim
  AreTrim-keep_child (true, x) kids trim h = (trim refl, h)
  AreTrim-keep_child (false, x) kids trim h = h

  AreTrim-if :
      (b : Bool) (xs ys : Kids O)
      → AreTrim pages xs
      → AreTrim pages ys
      → AreTrim pages (if b then xs else ys)
  AreTrim-if true xs ys h k = h
  AreTrim-if false xs ys h k = k

  mutual
    unfolding prune IsTrim

    prune-IsTrim_go : (x : Element O) → (prune pages x).0 ≡ true → IsTrim pages (prune pages x).1
    prune-IsTrim_go (element page lang rest no_kids) e = (e, tt)
    prune-IsTrim_go (element page lang rest (child x kids)) e =
        (or_left _ _ e, prune_kids-AreTrim (is_kept_page pages page) (child x kids))
    prune-IsTrim_go (element page lang rest (reference q o kids)) e =
        (or_left _ _ e, prune_kids-AreTrim (is_kept_page pages page) (reference q o kids))
    prune-IsTrim_go (element page lang rest (marked o kids)) e =
        (or_left _ _ e, prune_kids-AreTrim (is_kept_page pages page) (marked o kids))

    prune_kids-AreTrim : (here : Bool) (kids : Kids O) → AreTrim pages (prune_kids pages here kids)
    prune_kids-AreTrim here no_kids = tt
    prune_kids-AreTrim here (child x kids) =
        AreTrim-keep_child (prune pages x) (prune_kids pages here kids) (prune-IsTrim_go x)
          (prune_kids-AreTrim here kids)
    prune_kids-AreTrim here (reference q o kids) =
        AreTrim-if (is_kept_page pages q) _ _ (prune_kids-AreTrim here kids)
          (prune_kids-AreTrim here kids)
    prune_kids-AreTrim here (marked o kids) =
        AreTrim-if here _ _ (prune_kids-AreTrim here kids) (prune_kids-AreTrim here kids)

  -- Where an element is kept, so is a reason for every element from it down: it has something in
  -- it, or it is empty and stands on a kept page or on none.
  prune-IsTrim : (x : Element O) → (prune pages x).0 ≡ true → IsTrim pages (prune pages x).1
  prune-IsTrim x e = prune-IsTrim_go x e
