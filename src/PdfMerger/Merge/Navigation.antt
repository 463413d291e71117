-- ===== src/PdfMerger/Merge/Navigation.antt =====
-- app/pdf_merger.py: what a merge keeps of the navigation of its first document.
use bulk_processing_service.Base.{
  Bool, Bytes, List, Option, Text, [], arith, codes, eq_iff, false, nat_eq, none, refl, some,
  text_eq, ◌∷◌, ◌≡◌, ◌≢◌,
}
use bulk_processing_service.PdfMerger.{NameTree, Names, Page, Pdf, PdfObjects, Structure}
use bulk_processing_service.PdfMerger.EmbeddedFiles.{
  add_embedded_files, add_files, other_names, tidy_embedded_files, write_embedded_files,
}
use bulk_processing_service.PdfMerger.Merge.{
  PdfLibrary, add, add_by_structure, add_structure, drop_navigation, kept_mode, kept_names,
  merge_documents, merge_one, open_document,
}
use bulk_processing_service.PdfMerger.ParentTree.{number_tree}
use bulk_processing_service.PdfMerger.Structures.{copy_elements, document_element}
use bulk_processing_service.Results.{>>=-eq-ok, ok_injective, ok_some_injective}
use bulk_processing_service.Storage.{ok}
use mathlib.Core.Path.{subst}

kept_mode-ne : (mode : Option Text) → kept_mode mode ≢ some (codes "/UseOutlines")
kept_mode-ne none e = cc
kept_mode-ne (some mode) e = ground (arith, eq_iff mode (codes "/UseOutlines"))

module _ {O : Type 0} where
  abbrev pub OnlyFiles : Option (Names O) → Type 0
  OnlyFiles none = Unit
  OnlyFiles (some names) = names.others ≡ []

  -- No bookmarks, no names but those of embedded files, and no mode that shows bookmarks.
  abbrev pub IsWithoutNavigation : Pdf O → Type 0
  IsWithoutNavigation pdf =
      (pdf.outlines ≡ none) × OnlyFiles pdf.names × (pdf.page_mode ≢ some (codes "/UseOutlines"))

  only_tree :
      (files : Option (NameTree O))
      → OnlyFiles (elim files [
        | none ↦ none
        | some tree ↦ some (record { embedded_files = some tree; others = [] })
      ])
  only_tree none = tt
  only_tree (some tree) = refl

  OnlyFiles-kept_names : (names : Option (Names O)) → OnlyFiles (kept_names names)
  OnlyFiles-kept_names none = tt
  OnlyFiles-kept_names (some names) = only_tree names.embedded_files

  drop_navigation-IsWithoutNavigation : (pdf : Pdf O) → IsWithoutNavigation (drop_navigation pdf)
  unfolding drop_navigation
  drop_navigation-IsWithoutNavigation pdf =
      (refl, OnlyFiles-kept_names pdf.names, kept_mode-ne pdf.page_mode)

module _ (p : PdfObjects) (lib : PdfLibrary p) where
  other_names-eq : (names : Option (Names p.Object)) → OnlyFiles names → other_names p names ≡ []
  other_names-eq none h = refl
  other_names-eq (some names) h = h

  write_embedded_files-IsWithoutNavigation :
      (pdf : Pdf p.Object) (entries : List (Text × p.Object)) (specs : List p.Object)
      → IsWithoutNavigation pdf
      → IsWithoutNavigation (write_embedded_files p pdf entries specs)
  unfolding write_embedded_files
  write_embedded_files-IsWithoutNavigation pdf [] [] h = h
  write_embedded_files-IsWithoutNavigation pdf [] (spec ∷ specs) (outlines_gone, only, mode_gone) =
      (outlines_gone, other_names-eq pdf.names only, mode_gone)
  write_embedded_files-IsWithoutNavigation pdf (entry ∷ entries) specs
        (outlines_gone, only, mode_gone) =
      (outlines_gone, other_names-eq pdf.names only, mode_gone)

  add_files-IsWithoutNavigation :
      (target source : Pdf p.Object) (added : List (Text × p.Object))
      → IsWithoutNavigation target
      → IsWithoutNavigation (add_files p target source added)
  add_files-IsWithoutNavigation target source [] h = h
  add_files-IsWithoutNavigation target source (file ∷ added) h =
      write_embedded_files-IsWithoutNavigation target _ _ h

  add_by_structure-IsWithoutNavigation :
      (target source pdf : Pdf p.Object) (pages : List (Page p.Object)) (at_start : Bool)
      (root source_root : Option (Structure p.Object))
      → add_by_structure p lib target source pages at_start root source_root ≡ ok pdf
      → IsWithoutNavigation target
      → IsWithoutNavigation pdf
  unfolding add_by_structure add_structure
  add_by_structure-IsWithoutNavigation target source pdf pages at_start (some root)
        (some source_root) e h =
      let (_, _, e1) = >>=-eq-ok (document_element source_root) _ e in
      let (_, _, e2) = >>=-eq-ok (number_tree p root.parent_tree) _ e1 in
      let (_, _, e3) = >>=-eq-ok (number_tree p source_root.parent_tree) _ e2 in
      let (_, _, e4) = >>=-eq-ok (copy_elements _ _ _ _ _) _ e3 in
      subst IsWithoutNavigation (ok_injective e4) h
  add_by_structure-IsWithoutNavigation target source pdf pages at_start (some root) none e h =
      subst IsWithoutNavigation (ok_injective e) h
  add_by_structure-IsWithoutNavigation target source pdf pages at_start none source_root e h =
      subst IsWithoutNavigation (ok_injective e) h

  merge_documents-IsWithoutNavigation :
      (merged pdf : Pdf p.Object) (files : List Bytes)
      → IsWithoutNavigation merged
      → merge_documents p lib (some merged) files ≡ ok (some pdf)
      → IsWithoutNavigation pdf
  unfolding merge_documents merge_one add add_embedded_files
  merge_documents-IsWithoutNavigation merged pdf [] h e =
      subst IsWithoutNavigation (ok_some_injective e) h
  merge_documents-IsWithoutNavigation merged pdf (data_ ∷ files) h e =
      let (opened, _, e1) = >>=-eq-ok (open_document p lib data_) _ e in
      let (grown, f, e2) = >>=-eq-ok (merge_one p lib (some merged) opened) _ e1 in
      let (added, g, f1) = >>=-eq-ok (add p lib merged opened opened.pages false) _ f in
      let kept =
        add_by_structure-IsWithoutNavigation merged opened added opened.pages false merged.structure
          opened.structure g h in
      merge_documents-IsWithoutNavigation grown pdf files
        (subst IsWithoutNavigation (ok_injective f1)
          (add_files-IsWithoutNavigation added opened _ kept))
        e2

  -- A merge of one or more files that returns a document has no bookmarks, no names but those of embedded files, and no page mode that would
  -- show bookmarks.
  pub merge-IsWithoutNavigation :
      (data_ : Bytes) (files : List Bytes) (pdf : Pdf p.Object)
      → merge_documents p lib none (data_ ∷ files) ≡ ok (some pdf)
      → IsWithoutNavigation pdf
  unfolding merge_documents merge_one tidy_embedded_files
  merge-IsWithoutNavigation data_ files pdf e =
      let (opened, _, e1) = >>=-eq-ok (open_document p lib data_) _ e in
      merge_documents-IsWithoutNavigation _ pdf files
        (write_embedded_files-IsWithoutNavigation (drop_navigation opened) _ _
          (drop_navigation-IsWithoutNavigation opened))
        e1
