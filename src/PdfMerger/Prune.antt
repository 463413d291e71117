-- ===== src/PdfMerger/Prune.antt =====
-- app/pdf_merger.py: `_prune`, which keeps of the structure what stands on given pages. The pages
-- are given by their `objgen`.
pub mod Laws
pub mod Shape
use bulk_processing_service.Base.{
  Bool, List, Option, [], eqb, false, if◌then◌else◌, none, some, true, ℕ, ◌&&◌, ◌||◌, ◌∷◌,
}
use bulk_processing_service.PdfMerger.{Element, Kids, child, element, marked, no_kids, reference}

-- `objgen in pages`
unfoldable pub is_among : ℕ × ℕ → List (ℕ × ℕ) → Bool
is_among (n, g) [] = false
is_among (n, g) ((m, h) ∷ pages) = (eqb n m && eqb g h) || is_among (n, g) pages

-- `page is None or page.objgen in pages`
abbrev pub is_kept_page : List (ℕ × ℕ) → Option (ℕ × ℕ) → Bool
is_kept_page pages none = true
is_kept_page pages (some page) = is_among page pages

module _ {O : Type 0} where
  abbrev pub has_kids : Kids O → Bool
  has_kids no_kids = false
  has_kids _ = true

  abbrev pub keep_child : Bool × Element O → Kids O → Kids O
  keep_child (true, e) kids = child e kids
  keep_child (false, e) kids = kids

  -- `_prune`: whether the element is kept, and what became of it. The second function is the loop
  -- over the kids, with `on_a_kept_page` as its first argument.
  unfoldable mutual
    pub prune : List (ℕ × ℕ) → Element O → Bool × Element O
    prune pages (element page lang rest no_kids) =
        (is_kept_page pages page, element page lang rest no_kids)
    prune pages (element page lang rest kids) =
        let kept = prune_kids pages (is_kept_page pages page) kids in
        (has_kids kept, element page lang rest kept)

    pub prune_kids : List (ℕ × ℕ) → Bool → Kids O → Kids O
    prune_kids pages here no_kids = no_kids
    prune_kids pages here (child e kids) = keep_child (prune pages e) (prune_kids pages here kids)
    prune_kids pages here (reference page o kids) =
        let others = prune_kids pages here kids in
        if is_kept_page pages page then reference page o others else others
    prune_kids pages here (marked o kids) =
        let others = prune_kids pages here kids in if here then marked o others else others
