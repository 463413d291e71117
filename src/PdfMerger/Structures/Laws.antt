-- ===== src/PdfMerger/Structures/Laws.antt =====
-- app/pdf_merger.py: the structure that a document has after it took over that of another.
use bulk_processing_service.Base.{Bool, List, Option, Text, [], arith, refl, ◌∷◌, ◌≡◌}
use bulk_processing_service.PdfMerger.{Element, Structure}
use bulk_processing_service.PdfMerger.Structures.{
  change_first, copy_elements, document_element, first_element, joined_kids, kids_of, mark_kids,
  merge_maps, with_document, with_kids,
}
use bulk_processing_service.Storage.{ok}

module _ {O : Type 0} where
  -- The structure has an element under its root.
  abbrev pub HasDocument : Structure O → Type 0
  HasDocument root = (document : Element O) × (document_element root ≡ ok document)

  first_element-change_first :
      (changed document : Element O) (elements : List (Element O))
      → first_element elements ≡ ok document
      → first_element (change_first changed elements) ≡ ok changed
  first_element-change_first changed document [] e = cc
  first_element-change_first changed document (first ∷ elements) e = refl

  pub document_element-with_document :
      (root : Structure O) (changed document : Element O)
      → document_element root ≡ ok document
      → document_element (with_document root changed) ≡ ok changed
  unfolding document_element with_document
  document_element-with_document root changed document e =
      first_element-change_first changed document root.elements e

  -- Where both structures have a document, the elements are taken over; the parent tree is not
  -- touched.
  pub copy_elements-returns :
      (copy : Element O → Element O) (language : Option Text) (at_start : Bool)
      (target_root source_root : Structure O)
      → HasDocument target_root
      → HasDocument source_root
      → (root : Structure O) × (copy_elements copy language at_start target_root source_root
          ≡ ok root)
        × HasDocument root
        × (root.parent_tree ≡ target_root.parent_tree)
  unfolding copy_elements merge_maps with_document document_element
  copy_elements-returns copy language at_start target_root source_root (d, e) (s, f) =
      let moved = mark_kids language (kids_of (copy s)) in
      let changed = with_kids d (joined_kids at_start moved (kids_of d)) in
      (
        merge_maps (with_document target_root changed) source_root,
        ground (arith, e, f),
        (changed, document_element-with_document target_root changed d e),
        refl,
      )
