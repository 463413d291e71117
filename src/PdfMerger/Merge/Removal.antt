-- ===== src/PdfMerger/Merge/Removal.antt =====
-- app/pdf_merger.py: `_remove_first_page`, pages and structure together.
use bulk_processing_service.Base.{
  AreApart-contains, AreDistinct-split, AreDistinct-swap, List, Option, [], ap, arith,
  contains-append, contains-swap, nat_eq, none, refl, some, text_eq, ℕ, ◌++◌, ◌∙◌, ◌∷◌, ◌≡◌,
}
use bulk_processing_service.PdfMerger.{IsLawful, Page, Pdf, PdfObjects, Structure}
use bulk_processing_service.PdfMerger.Merge.{
  each_structure, objgens, pop_all, remove_first, remove_first_page, without_page,
}
use bulk_processing_service.PdfMerger.Merge.Links.{GoesWith, IsLinked, get-pop_all, written_entries}
use bulk_processing_service.PdfMerger.PageKeys.{all_keys, keys_of}
use bulk_processing_service.PdfMerger.ParentTree.{write_number_tree}
use bulk_processing_service.PdfMerger.Prune.{prune}
use bulk_processing_service.PdfMerger.Structures.{document_element, with_document}
use bulk_processing_service.PdfMerger.Structures.Laws.{document_element-with_document}
use bulk_processing_service.Results.{◌>>=◌}
use bulk_processing_service.Storage.{ok}
use mathlib.Core.Path.{subst}

module _ (p : PdfObjects) (law : IsLawful p) where
  pub GoesWith-swap :
      (root : Option (Structure p.Object)) (xs ys : List ℕ)
      → GoesWith p root (xs ++ ys)
      → GoesWith p root (ys ++ xs)
  unfolding GoesWith
  GoesWith-swap none [] ys e = ap (λ ks. ks ++ []) e
  GoesWith-swap none (x ∷ xs) ys e = cc
  GoesWith-swap (some root) xs ys (entries, e, resolved, distinct, document) = (
    entries,
    e,
    λ k c. resolved k (contains-swap xs ys k ∙ c),
    AreDistinct-swap xs ys distinct,
    document,
  )

  without_page-returns :
      (root : Structure p.Object) (keys others : List ℕ) (kept : List (ℕ × ℕ))
      → GoesWith p (some root) (keys ++ others)
      → (root' : Structure p.Object) × (without_page p keys kept root ≡ ok root')
        × GoesWith p (some root') others
  unfolding without_page GoesWith with_document write_number_tree document_element
  without_page-returns root keys others kept (entries, e, resolved, distinct, (document, d)) =
      let written = write_number_tree p root (pop_all entries keys) in
      let (stored, f, same) = written_entries p root (pop_all entries keys) law in
      let (_, right, apart) = AreDistinct-split keys others distinct in
      (
        with_document written (prune kept document).1,
        ground (arith, e, d),
        (
          stored,
          f,
          λ k c.
              let (v, there) = resolved k (ground (arith, contains-append keys others k)) in
              (
                v,
                same k
                    ∙ get-pop_all p entries keys k (AreApart-contains keys others k apart c)
                    ∙ there,
              ),
          right,
          (
            (prune kept document).1,
            document_element-with_document written (prune kept document).1 document d,
          ),
        ),
      )

  each_structure-returns :
      (root : Option (Structure p.Object)) (keys others : List ℕ) (kept : List (ℕ × ℕ))
      → GoesWith p root (keys ++ others)
      → (root' : Option (Structure p.Object)) × (each_structure p (without_page p keys kept) root
          ≡ ok root')
        × GoesWith p root' others
  unfolding GoesWith
  each_structure-returns none [] others kept e = (none, refl, e)
  each_structure-returns none (k ∷ keys) others kept e = absurd (cc)
  each_structure-returns (some root) keys others kept h =
      let (root', e, h') = without_page-returns root keys others kept h in
      (some root', ap (λ r. r >>= λ x. ok (some x)) e, h')

  remove_first-returns :
      (page : Page p.Object) (pages : List (Page p.Object)) (pdf : Pdf p.Object)
      → GoesWith p pdf.structure (all_keys (page ∷ pages))
      → (pdf' : Pdf p.Object) × (remove_first p (page ∷ pages) pdf ≡ ok pdf')
        × IsLinked p pdf'
        × (pdf'.pages ≡ pages)
  unfolding remove_first IsLinked all_keys
  remove_first-returns page pages pdf h =
      let (root', e, h') =
        each_structure-returns pdf.structure (keys_of page) (all_keys pages) (objgens pages) h in
      (
        record pdf { pages = pages; structure = root' },
        ap (λ r. r >>= λ root. ok (record pdf { pages = pages; structure = root })) e,
        h',
        refl,
      )

  -- With objects that are read back as they are written: where a document has a page, and its
  -- pages are linked with its structure, the removal of the first page returns, the other pages are
  -- left, and they are linked with what is left of the structure.
  pub remove_first_page-IsLinked :
      (pdf : Pdf p.Object) (page : Page p.Object) (pages : List (Page p.Object))
      → pdf.pages ≡ page ∷ pages
      → IsLinked p pdf
      → (pdf' : Pdf p.Object) × (remove_first_page p pdf ≡ ok pdf')
        × IsLinked p pdf'
        × (pdf'.pages ≡ pages)
  unfolding IsLinked
  remove_first_page-IsLinked pdf page pages e h =
      let (pdf', f, h', same) =
        remove_first-returns page pages pdf
          (subst (λ l. GoesWith p pdf.structure (all_keys l)) e h) in
      (pdf', ap (λ l. remove_first p l pdf) e ∙ f, h', same)
