-- ===== src/PdfMerger/Prune/Laws.antt =====
-- app/pdf_merger.py: what `_prune` leaves of the content.
use bulk_processing_service.Base.{
  Bool, List, Option, [], ap, arith, false, if◌then◌else◌, refl, sym, true, ℕ, ◌++◌, ◌∙◌, ◌∷◌, ◌≡◌,
}
use bulk_processing_service.PdfMerger.{Element, Kids, child, element, marked, no_kids, reference}
use bulk_processing_service.PdfMerger.Prune.{has_kids, is_kept_page, keep_child, prune, prune_kids}

-- A piece of content, with the page it stands on where it names one.
abbrev pub Leaf : Type 0 → Type 0
Leaf O = Option (ℕ × ℕ) × O

-- The content below an element in its order: a marked piece stands on the page of its element.
unfoldable mutual
  pub leaves : {O : Type 0} → Element O → List (Leaf O)
  leaves (element page lang rest kids) = kid_leaves page kids

  pub kid_leaves : {O : Type 0} → Option (ℕ × ℕ) → Kids O → List (Leaf O)
  kid_leaves page no_kids = []
  kid_leaves page (child e kids) = leaves e ++ kid_leaves page kids
  kid_leaves page (reference p o kids) = (p, o) ∷ kid_leaves page kids
  kid_leaves page (marked o kids) = (page, o) ∷ kid_leaves page kids

-- The content that is on the given pages, or names no page.
unfoldable pub kept_leaves : {O : Type 0} → List (ℕ × ℕ) → List (Leaf O) → List (Leaf O)
kept_leaves pages [] = []
kept_leaves pages ((p, o) ∷ ls) =
    let others = kept_leaves pages ls in if is_kept_page pages p then (p, o) ∷ others else others

module _ {O : Type 0} (pages : List (ℕ × ℕ)) where
  kept_leaves-append :
      (xs ys : List (Leaf O))
      → kept_leaves pages (xs ++ ys) ≡ kept_leaves pages xs ++ kept_leaves pages ys
  unfolding kept_leaves
  kept_leaves-append [] ys = refl
  kept_leaves-append ((p, o) ∷ xs) ys = ground (arith, kept_leaves-append xs ys)

  no_leaves :
      (page : Option (ℕ × ℕ)) (kids : Kids O) → has_kids kids ≡ false → kid_leaves page kids ≡ []
  unfolding leaves
  no_leaves page no_kids e = refl
  no_leaves page (child x kids) e = cc
  no_leaves page (reference q o kids) e = cc
  no_leaves page (marked o kids) e = cc

  -- An element that is not kept has nothing left.
  leaves-dropped : (x : Element O) → (prune pages x).0 ≡ false → leaves (prune pages x).1 ≡ []
  unfolding prune leaves
  leaves-dropped (element page lang rest no_kids) e = refl
  leaves-dropped (element page lang rest (child x kids)) e = no_leaves page _ e
  leaves-dropped (element page lang rest (reference q o kids)) e = no_leaves page _ e
  leaves-dropped (element page lang rest (marked o kids)) e = no_leaves page _ e

  kid_leaves-keep_child :
      (page : Option (ℕ × ℕ)) (r : Bool × Element O) (kids : Kids O) {ls : List (Leaf O)}
      → (r.0 ≡ false → leaves r.1 ≡ [])
      → leaves r.1 ≡ ls
      → kid_leaves page (keep_child r kids) ≡ ls ++ kid_leaves page kids
  unfolding leaves
  kid_leaves-keep_child page (true, x) kids nothing e = ap (λ l. l ++ kid_leaves page kids) e
  kid_leaves-keep_child page (false, x) kids nothing e =
      ap (λ l. l ++ kid_leaves page kids) (sym (nothing refl) ∙ e)

  mutual
    unfolding prune leaves kept_leaves

    leaves-prune_go : (x : Element O) → leaves (prune pages x).1 ≡ kept_leaves pages (leaves x)
    leaves-prune_go (element page lang rest no_kids) = refl
    leaves-prune_go (element page lang rest (child x kids)) = kid_leaves-prune page (child x kids)
    leaves-prune_go (element page lang rest (reference q o kids)) =
        kid_leaves-prune page (reference q o kids)
    leaves-prune_go (element page lang rest (marked o kids)) = kid_leaves-prune page (marked o kids)

    kid_leaves-prune :
        (page : Option (ℕ × ℕ)) (kids : Kids O)
        → kid_leaves page (prune_kids pages (is_kept_page pages page) kids)
          ≡ kept_leaves pages (kid_leaves page kids)
    kid_leaves-prune page no_kids = refl
    kid_leaves-prune page (child x kids) =
        kid_leaves-keep_child page (prune pages x) (prune_kids pages (is_kept_page pages page) kids)
          (leaves-dropped x) (leaves-prune_go x)
        ∙ ap (λ l. kept_leaves pages (leaves x) ++ l) (kid_leaves-prune page kids)
        ∙ sym (kept_leaves-append (leaves x) (kid_leaves page kids))
    kid_leaves-prune page (reference q o kids) = ground (arith, kid_leaves-prune page kids)
    kid_leaves-prune page (marked o kids) = ground (arith, kid_leaves-prune page kids)

  -- Pruning an element leaves of its content, in the same order, exactly what is on the given pages
  -- or names no page.
  pub leaves-prune : (x : Element O) → leaves (prune pages x).1 ≡ kept_leaves pages (leaves x)
  leaves-prune x = leaves-prune_go x
