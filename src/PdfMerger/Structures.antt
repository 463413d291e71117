-- ===== src/PdfMerger/Structures.antt =====
-- app/pdf_merger.py: the structure of a document, `_document_element`, `_copy_elements` and
-- `_merge_maps`. The `/P` of an element is its place in the tree.
pub mod Laws
pub mod Content
use bulk_processing_service.Base.{
  Bool, List, Option, Text, [], codes, false, if◌then◌else◌, nat_eq, none, some, text_eq, true,
  ◌==◌, ◌∷◌,
}
use bulk_processing_service.Base.Dict.{Dict}
use bulk_processing_service.PdfMerger.{
  Element, Kids, Structure, child, element, marked, no_kids, reference,
}
use bulk_processing_service.Results.{◌>>=◌}
use bulk_processing_service.Storage.{Result, err, ok, other_error}
use bulk_processing_service.Base.Dict

-- The language that is written into the elements of another document: its own, where the target
-- has another one or none.
abbrev pub moved_language : Option Text → Option Text → Option Text
moved_language none target_language = none
moved_language (some language) none = some language
moved_language (some language) (some t) = if language == t then none else some language

module _ {O : Type 0} where
  -- `_document_element`
  abbrev pub first_element : List (Element O) → Result (Element O)
  first_element [] = err other_error
  first_element (document ∷ elements) = ok document

  unfoldable pub document_element : Structure O → Result (Element O)
  document_element root = first_element root.elements

  -- The root whose first element has changed.
  abbrev pub change_first : Element O → List (Element O) → List (Element O)
  change_first document [] = []
  change_first document (first ∷ elements) = document ∷ elements

  unfoldable pub with_document : Structure O → Element O → Structure O
  with_document root document = record root { elements = change_first document root.elements }

  abbrev pub with_language : Option Text → Element O → Element O
  with_language (some language) (element page none rest kids) =
      element page (some language) rest kids
  with_language _ e = e

  -- The loop over the moved kids
  unfoldable pub mark_kids : Option Text → Kids O → Kids O
  mark_kids language no_kids = no_kids
  mark_kids language (child e kids) = child (with_language language e) (mark_kids language kids)
  mark_kids language (reference page o kids) = reference page o (mark_kids language kids)
  mark_kids language (marked o kids) = marked o (mark_kids language kids)

  unfoldable pub append_kids : Kids O → Kids O → Kids O
  append_kids no_kids more = more
  append_kids (child e kids) more = child e (append_kids kids more)
  append_kids (reference page o kids) more = reference page o (append_kids kids more)
  append_kids (marked o kids) more = marked o (append_kids kids more)

  abbrev pub kids_of : Element O → Kids O
  kids_of (element page lang rest kids) = kids

  abbrev pub with_kids : Element O → Kids O → Element O
  with_kids (element page lang rest kids) changed = element page lang rest changed

  -- The loop over the entries of a map: a name that is there keeps its value.
  unfoldable pub take_missing : Dict Text O → Dict Text O → Dict Text O
  take_missing merged [] = merged
  take_missing merged ((name, v) ∷ entries) =
      take_missing (elim (Dict.get merged name) [ some _ ↦ merged | none ↦ Dict.put merged name v ])
        entries

  abbrev pub or_empty : Option (Dict Text O) → Dict Text O
  or_empty none = []
  or_empty (some d) = d

  unfoldable pub merge_map :
      Text → Dict Text (Dict Text O) → Dict Text (Dict Text O) → Dict Text (Dict Text O)
  merge_map key target source = elim (Dict.get source key) [
    | none ↦ target
    | some entries ↦ Dict.put target key (take_missing (or_empty (Dict.get target key)) entries)
  ]

  -- `_merge_maps`
  unfoldable pub merge_maps : Structure O → Structure O → Structure O
  merge_maps target_root source_root = record target_root {
    maps =
        merge_map (codes "/ClassMap")
          (merge_map (codes "/RoleMap") target_root.maps source_root.maps) source_root.maps;
  }

  abbrev pub joined_kids : Bool → Kids O → Kids O → Kids O
  joined_kids true moved own = append_kids moved own
  joined_kids false moved own = append_kids own moved

  -- `_copy_elements`, where `copy` is what `copy_foreign` of the target makes of an element, and
  -- `language` what is written into the moved elements.
  unfoldable pub copy_elements :
      (Element O → Element O)
      → Option Text
      → Bool
      → Structure O
      → Structure O
      → Result (Structure O)
  copy_elements copy language at_start target_root source_root =
      document_element target_root >>= λ document.
      document_element source_root >>= λ source_document.
      let moved = mark_kids language (kids_of (copy source_document)) in
      ok (
        merge_maps
          (with_document target_root
            (with_kids document (joined_kids at_start moved (kids_of document))))
          source_root)
