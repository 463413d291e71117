-- ===== src/PdfMerger/Structures/Content.antt =====
-- app/pdf_merger.py: the content below the document element after `_copy_elements`.
use bulk_processing_service.Base.{
  Bool, List, Option, Text, ap, false, none, refl, some, sym, true, ℕ, ◌++◌, ◌∙◌, ◌∷◌, ◌≡◌,
}
use bulk_processing_service.PdfMerger.{
  Element, Kids, Structure, child, element, marked, no_kids, reference,
}
use bulk_processing_service.PdfMerger.Prune.Laws.{Leaf, kid_leaves, leaves}
use bulk_processing_service.PdfMerger.Structures.{
  append_kids, copy_elements, document_element, joined_kids, kids_of, mark_kids, merge_maps,
  with_document, with_kids, with_language,
}
use bulk_processing_service.PdfMerger.Structures.Laws.{document_element-with_document}
use bulk_processing_service.Results.{>>=-ok}
use bulk_processing_service.Storage.{ok}
use mathlib.Core.Path.{ap₂}
use mathlib.Core.List.{append_assoc}

module _ {O : Type 0} where
  kid_leaves-append_kids :
      (page : Option (ℕ × ℕ)) (kids more : Kids O)
      → kid_leaves page (append_kids kids more) ≡ kid_leaves page kids ++ kid_leaves page more
  unfolding append_kids leaves
  kid_leaves-append_kids page no_kids more = refl
  kid_leaves-append_kids page (child e kids) more =
      ap (λ l. leaves e ++ l) (kid_leaves-append_kids page kids more)
      ∙ sym (append_assoc (leaves e) (kid_leaves page kids) (kid_leaves page more))
  kid_leaves-append_kids page (reference q o kids) more =
      ap (λ l. (q, o) ∷ l) (kid_leaves-append_kids page kids more)
  kid_leaves-append_kids page (marked o kids) more =
      ap (λ l. (page, o) ∷ l) (kid_leaves-append_kids page kids more)

  leaves-with_language :
      (language : Option Text) (e : Element O) → leaves (with_language language e) ≡ leaves e
  unfolding leaves
  leaves-with_language none (element page lang rest kids) = refl
  leaves-with_language (some l) (element page none rest kids) = refl
  leaves-with_language (some l) (element page (some own) rest kids) = refl

  kid_leaves-mark_kids :
      (page : Option (ℕ × ℕ)) (language : Option Text) (kids : Kids O)
      → kid_leaves page (mark_kids language kids) ≡ kid_leaves page kids
  unfolding mark_kids leaves
  kid_leaves-mark_kids page language no_kids = refl
  kid_leaves-mark_kids page language (child e kids) =
      ap₂ ◌++◌ (leaves-with_language language e) (kid_leaves-mark_kids page language kids)
  kid_leaves-mark_kids page language (reference q o kids) =
      ap (λ l. (q, o) ∷ l) (kid_leaves-mark_kids page language kids)
  kid_leaves-mark_kids page language (marked o kids) =
      ap (λ l. (page, o) ∷ l) (kid_leaves-mark_kids page language kids)

  abbrev pub page_of : Element O → Option (ℕ × ℕ)
  page_of (element page lang rest kids) = page

  -- The moved content, at the start or at the end.
  abbrev pub joined_leaves : Bool → List (Leaf O) → List (Leaf O) → List (Leaf O)
  joined_leaves true moved own = moved ++ own
  joined_leaves false moved own = own ++ moved

  leaves-joined :
      (at_start : Bool) (language : Option Text) (d : Element O) (moved : Kids O)
      → leaves (with_kids d (joined_kids at_start (mark_kids language moved) (kids_of d)))
        ≡ joined_leaves at_start (kid_leaves (page_of d) moved) (leaves d)
  unfolding leaves
  leaves-joined true language (element page lang rest kids) moved =
      kid_leaves-append_kids page (mark_kids language moved) kids
      ∙ ap (λ l. l ++ kid_leaves page kids) (kid_leaves-mark_kids page language moved)
  leaves-joined false language (element page lang rest kids) moved =
      kid_leaves-append_kids page kids (mark_kids language moved)
      ∙ ap (λ l. kid_leaves page kids ++ l) (kid_leaves-mark_kids page language moved)

  -- Where both structures have a document element, the elements are taken over, whatever the
  -- language, and the content below the document element is the content that is moved and the content
  -- that was there, both whole and in their order, the moved one first exactly where the pages are
  -- added at the start. A piece of content that stands directly below the source's document element
  -- then stands on the page of the target's.
  pub copy_elements-leaves :
      (copy : Element O → Element O) (language : Option Text) (at_start : Bool)
      (target_root source_root : Structure O) (d s : Element O)
      → document_element target_root ≡ ok d
      → document_element source_root ≡ ok s
      → (root : Structure O) × (d' : Element O) × (copy_elements copy language at_start target_root
            source_root
          ≡ ok root)
        × (document_element root ≡ ok d')
        × (leaves d'
            ≡ joined_leaves at_start (kid_leaves (page_of d) (kids_of (copy s))) (leaves d))
  unfolding copy_elements merge_maps document_element
  copy_elements-leaves copy language at_start target_root source_root d s e f =
      let moved = mark_kids language (kids_of (copy s)) in
      let changed = with_kids d (joined_kids at_start moved (kids_of d)) in
      (
        merge_maps (with_document target_root changed) source_root,
        changed,
        >>=-ok _ e ∙ >>=-ok _ f,
        document_element-with_document target_root changed d e,
        leaves-joined at_start language d (kids_of (copy s)),
      )
