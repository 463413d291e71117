-- ===== src/PdfMerger/Merge/Addition.antt =====
-- app/pdf_merger.py: `_add`, pages and structure together.
use bulk_processing_service.Base.{
  AreDistinct, AreDistinct-append, Bool, List, Option, [], ap, contains, false, map, nat_eq, none,
  refl, some, sym, text_eq, true, ℕ, ◌++◌, ◌∙◌, ◌∷◌, ◌≡◌,
}
use bulk_processing_service.Base.Dict.{Dict}
use bulk_processing_service.BodyLimit.Laws.{joined}
use bulk_processing_service.PdfMerger.{IsLawful, Page, Pdf, PdfObjects, Structure}
use bulk_processing_service.PdfMerger.Merge.{
  PdfLibrary, add, add_by_structure, add_structure, copy_pages, objgens, place,
}
use bulk_processing_service.PdfMerger.Merge.Links.{
  AreApart-shifted, AreDistinct-shifted, AreResolved, AreResolved-copy_entries, GoesWith, IsLinked,
  written_entries,
}
use bulk_processing_service.PdfMerger.Merge.Removal.{GoesWith-swap}
use bulk_processing_service.PdfMerger.PageKeys.{all_keys, detach, keys_of, shift_keys}
use bulk_processing_service.PdfMerger.PageKeys.Laws.{
  add_to, all_keys-append, all_keys-detach, all_keys-shift,
}
use bulk_processing_service.PdfMerger.ParentTree.{
  copy_entries, next_of, number_tree, write_number_tree,
}
use bulk_processing_service.PdfMerger.Prune.{prune}
use bulk_processing_service.PdfMerger.Structures.{document_element, moved_language, with_document}
use bulk_processing_service.PdfMerger.Structures.Laws.{
  HasDocument, copy_elements-returns, document_element-with_document,
}
use bulk_processing_service.Results.{>>=-ok}
use bulk_processing_service.Storage.{ok}
use mathlib.Core.Path.{ap₂, subst}
use mathlib.Core.List.{append-nil}

module _ (p : PdfObjects) (lib : PdfLibrary p) where
  -- The copy of a page has its keys.
  abbrev pub KeepsKeys : Type 0
  KeepsKeys =
      (target : Pdf p.Object) (page : Page p.Object)
      → keys_of (lib.copy_page target page) ≡ keys_of page

  all_keys-copy_pages :
      KeepsKeys
      → (target : Pdf p.Object) (pages : List (Page p.Object))
      → all_keys (copy_pages p lib target pages) ≡ all_keys pages
  unfolding copy_pages all_keys
  all_keys-copy_pages keep target [] = refl
  all_keys-copy_pages keep target (page ∷ pages) =
      ap₂ ◌++◌ (keep target page) (all_keys-copy_pages keep target pages)

module _ (p : PdfObjects) (lib : PdfLibrary p) (law : IsLawful p) (keep : KeepsKeys p lib) where
  GoesWith-place :
      (at_start : Bool) (root : Option (Structure p.Object)) (copies own : List (Page p.Object))
      → GoesWith p root (all_keys own ++ all_keys copies)
      → GoesWith p root (all_keys (place at_start copies own))
  GoesWith-place true root copies own h =
      subst (GoesWith p root) (sym (all_keys-append copies own))
        (GoesWith-swap p law root (all_keys own) (all_keys copies) h)
  GoesWith-place false root copies own h =
      subst (GoesWith p root) (sym (all_keys-append own copies)) h

  -- The taken over entries, under the shifted keys of the copies
  GoesWith-joined :
      (root root' : Structure p.Object) (own keys copied : List ℕ)
      (entries source_entries : Dict ℕ p.Object)
      → copied ≡ map (add_to (next_of entries)) keys
      → root'.parent_tree
        ≡ (write_number_tree p root
            (copy_entries p entries source_entries keys (next_of entries))).parent_tree
      → HasDocument root'
      → AreResolved p entries own × AreDistinct own
      → AreResolved p source_entries keys × AreDistinct keys
      → GoesWith p (some root') (own ++ copied)
  unfolding GoesWith
  GoesWith-joined root root' own keys copied entries source_entries same tree document (h, distinct)
        (hs, source_distinct) =
      let (stored, w, equal) =
        written_entries p root (copy_entries p entries source_entries keys (next_of entries)) law in
      (
        stored,
        ap (number_tree p) tree ∙ w,
        λ k c.
            let (v, e) =
              AreResolved-copy_entries p entries source_entries own keys h hs k
                (ap (λ l. contains (own ++ l) k) (sym same) ∙ c) in
            (v, equal k ∙ e),
        subst (λ l. AreDistinct (own ++ l)) (sym same)
            (AreDistinct-append own (map (add_to (next_of entries)) keys) distinct
              (AreDistinct-shifted (next_of entries) keys source_distinct)
              (AreApart-shifted p entries own keys h)),
        document,
      )

  add_structure-returns :
      (target source : Pdf p.Object) (pages : List (Page p.Object)) (at_start : Bool)
      (root source_root : Structure p.Object)
      → GoesWith p (some root) (all_keys target.pages)
      → GoesWith p (some source_root) (all_keys pages)
      → (pdf' : Pdf p.Object) × (add_structure p lib target source pages at_start root source_root
          ≡ ok pdf')
        × IsLinked p pdf'
  unfolding GoesWith IsLinked add_structure write_number_tree document_element
  add_structure-returns target source pages at_start root source_root
        (entries, e, resolved, distinct, (document, d))
        (source_entries, f, source_resolved, source_distinct, (source_document, g)) =
      let offset = next_of entries in
      let copies = copy_pages p lib target pages in
      let written =
        write_number_tree p root (copy_entries p entries source_entries (all_keys pages) offset) in
      let kept = (prune (objgens pages) source_document).1 in
      let (joined, c, document', tree) =
        copy_elements-returns (lib.copy_element target) (moved_language source.lang target.lang)
          at_start written (with_document source_root kept) (document, d)
          (kept, document_element-with_document source_root kept source_document g) in
      (
        record target {
          pages = place at_start (map (shift_keys offset) copies) target.pages;
          structure = some joined;
        },
        >>=-ok _ g ∙ >>=-ok _ e ∙ >>=-ok _ f ∙ >>=-ok _ c,
        GoesWith-place at_start (some joined) (map (shift_keys offset) copies) target.pages (
            GoesWith-joined root joined (all_keys target.pages) (all_keys pages)
              (all_keys (map (shift_keys offset) copies)) entries source_entries
              (all_keys-shift offset copies
                ∙ ap (map (add_to offset)) (all_keys-copy_pages p lib keep target pages))
              tree document' (resolved, distinct) (source_resolved, source_distinct)),
      )

  IsLinked-detached :
      (target : Pdf p.Object) (pages : List (Page p.Object)) (at_start : Bool)
      → IsLinked p target
      → IsLinked p (record target {
        pages = place at_start (map detach (copy_pages p lib target pages)) target.pages;
      })
  unfolding IsLinked
  IsLinked-detached target pages at_start h =
      let copies = copy_pages p lib target pages in
      GoesWith-place at_start target.structure (map detach copies) target.pages (
        subst (GoesWith p target.structure)
          (sym (append-nil (all_keys target.pages))
            ∙ ap (λ l. all_keys target.pages ++ l) (sym (all_keys-detach copies)))
          h)

  add_by_structure-returns :
      (target source : Pdf p.Object) (pages : List (Page p.Object)) (at_start : Bool)
      (root source_root : Option (Structure p.Object))
      → IsLinked p target
      → GoesWith p root (all_keys target.pages)
      → GoesWith p source_root (all_keys pages)
      → (pdf' : Pdf p.Object) × (add_by_structure p lib target source pages at_start root
            source_root
          ≡ ok pdf')
        × IsLinked p pdf'
  unfolding add_by_structure
  add_by_structure-returns target source pages at_start (some root) (some source_root) linked h hs =
      add_structure-returns target source pages at_start root source_root h hs
  add_by_structure-returns target source pages at_start (some root) none linked h hs =
      (_, refl, IsLinked-detached target pages at_start linked)
  add_by_structure-returns target source pages at_start none source_root linked h hs =
      (_, refl, IsLinked-detached target pages at_start linked)

  -- With objects that are read back as they are written, and copies of pages that keep their keys:
  -- where the pages of the target and the added ones are linked with the structures of their
  -- documents, the addition at the start or the end returns, and the pages of the result are linked
  -- with its structure.
  pub add-IsLinked :
      (target source : Pdf p.Object) (at_start : Bool) (pages : List (Page p.Object))
      → IsLinked p target
      → GoesWith p source.structure (all_keys pages)
      → (pdf' : Pdf p.Object) × (add p lib target source pages at_start ≡ ok pdf') × IsLinked p pdf'
  unfolding add IsLinked
  add-IsLinked target source at_start pages h hs =
      add_by_structure-returns target source pages at_start target.structure source.structure h h hs
