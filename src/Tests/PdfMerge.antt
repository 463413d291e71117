-- ===== src/Tests/PdfMerge.antt =====
-- The theorems on app/pdf_merger.py at two small documents.
use bulk_processing_service.Base.{
  AreDistinct, [], codes, false, inl, inr, nat_eq, none, refl, some, text_eq, true, ℕ, ◌+◌, ◌∷◌,
  ◌≡◌,
}
use bulk_processing_service.Base.Dict.{Dict}
use bulk_processing_service.JobManager.Batch.{Batch}
use bulk_processing_service.Paths.{Host, strip_prefix}
use bulk_processing_service.PdfMerger.{Element, Pdf, Structure, list_of}
use bulk_processing_service.PdfMerger.EmbeddedFiles.{
  add_embedded_files, embedded_files, name_pairs, name_tree_entries, names_of,
}
use bulk_processing_service.PdfMerger.EmbeddedFiles.Laws.{
  AreDistinct-add_embedded_files, total-add_embedded_files,
}
use bulk_processing_service.PdfMerger.EmbeddedFiles.Sorting.{total}
use bulk_processing_service.PdfMerger.Merge.{
  add, has_marker, has_part, is_placeholder, merge_documents, merge_pdf_files, open_document,
  remove_first_page, starts_with_placeholder,
}
use bulk_processing_service.PdfMerger.Merge.Addition.{KeepsKeys, add-IsLinked}
use bulk_processing_service.PdfMerger.Merge.Errors.{merge_pdf_files-raises}
use bulk_processing_service.PdfMerger.Merge.Links.{AreResolved-All, GoesWith, IsLinked}
use bulk_processing_service.PdfMerger.Merge.Navigation.{
  IsWithoutNavigation, merge-IsWithoutNavigation,
}
use bulk_processing_service.PdfMerger.Merge.Pages.{KeepsContent, all_shown, shown}
use bulk_processing_service.PdfMerger.Merge.Removal.{remove_first_page-IsLinked}
use bulk_processing_service.PdfMerger.Merge.Whole.{IsReadable, merge_documents-returns, shown-merge}
use bulk_processing_service.PdfMerger.PageKeys.{all_keys, annotation_keys, keys_of}
use bulk_processing_service.PdfMerger.ParentTree.{number_tree, read_nums, update}
use bulk_processing_service.PdfMerger.Prune.{prune}
use bulk_processing_service.PdfMerger.Prune.Laws.{kept_leaves, kid_leaves, leaves, leaves-prune}
use bulk_processing_service.PdfMerger.Structures.{copy_elements, document_element, kids_of}
use bulk_processing_service.PdfMerger.Structures.Content.{copy_elements-leaves, joined_leaves}
use bulk_processing_service.Storage.{err, ok, other_error}
use bulk_processing_service.Tests.Codec.{host}
use bulk_processing_service.Tests.Pdf.{
  PdfItem, items_list, library, link, list_items, objects, objects-IsLawful, one_page, page_of,
  report, root_of, text_item, text_of, two_paragraphs,
}
use bulk_processing_service.JobManager.Batch
use bulk_processing_service.Base.Dict

leaves-prune_example :
    leaves (prune ((2, 0) ∷ []) two_paragraphs).1
    ≡ kept_leaves ((2, 0) ∷ []) (leaves two_paragraphs)
leaves-prune_example = leaves-prune ((2, 0) ∷ []) two_paragraphs

abbrev one_page_entries : Dict ℕ PdfItem
one_page_entries = (0, text_item (codes "P")) ∷ []

abbrev report_entries : Dict ℕ PdfItem
report_entries =
    (0, text_item (codes "P")) ∷ (1, text_item (codes "P")) ∷ (2, text_item (codes "P")) ∷ []

report-IsLinked : IsLinked objects report
unfolding IsLinked GoesWith all_keys keys_of annotation_keys number_tree read_nums list_of Dict.get
    Dict.put nat_eq document_element list_items items_list update
report-IsLinked = (
  report_entries,
  refl,
  AreResolved-All objects report_entries (0 ∷ 1 ∷ 2 ∷ []) (
    (text_item (codes "P"), refl),
    ((text_item (codes "P"), refl), ((text_item (codes "P"), refl), tt)),
  ),
  (refl, (refl, (refl, tt))),
  (two_paragraphs, refl),
)

one_page-IsLinked : IsLinked objects one_page
unfolding IsLinked GoesWith all_keys keys_of annotation_keys number_tree read_nums list_of Dict.get
    Dict.put nat_eq document_element list_items items_list update
one_page-IsLinked = (
  one_page_entries,
  refl,
  AreResolved-All objects one_page_entries (0 ∷ []) ((text_item (codes "P"), refl), tt),
  (refl, tt),
  (_, refl),
)

report-IsReadable : IsReadable objects library (1 ∷ [])
unfolding starts_with_placeholder is_placeholder has_marker has_part strip_prefix nat_eq
report-IsReadable = (report, refl, true, refl, report-IsLinked, inr (_, _, refl))

one_page-IsReadable : IsReadable objects library (2 ∷ [])
unfolding starts_with_placeholder is_placeholder
one_page-IsReadable = (one_page, refl, false, refl, one_page-IsLinked, inl refl)

library-KeepsKeys : KeepsKeys objects library
unfolding keys_of
library-KeepsKeys target page = refl

library-KeepsContent : KeepsContent objects library text_of
library-KeepsContent target page = refl

remove_first_page-IsLinked_example :
    (pdf : Pdf PdfItem) × (remove_first_page objects report ≡ ok pdf)
    × IsLinked objects pdf
    × (pdf.pages ≡ page_of (2, 0) 1 (link ∷ []) (codes "A") ∷ [])
remove_first_page-IsLinked_example =
    remove_first_page-IsLinked objects objects-IsLawful report
      (page_of (1, 0) 0 [] (codes "Page to be removed"))
      (page_of (2, 0) 1 (link ∷ []) (codes "A") ∷ []) refl report-IsLinked

add-IsLinked_example :
    (pdf : Pdf PdfItem) × (add objects library report one_page one_page.pages false ≡ ok pdf)
    × IsLinked objects pdf
unfolding IsLinked
add-IsLinked_example =
    add-IsLinked objects library objects-IsLawful library-KeepsKeys report one_page false
      one_page.pages report-IsLinked one_page-IsLinked

merge_documents-returns_example :
    (pdf : Pdf PdfItem) × (merge_documents objects library none ((1 ∷ []) ∷ (2 ∷ []) ∷ [])
      ≡ ok (some pdf))
    × IsLinked objects pdf
merge_documents-returns_example =
    merge_documents-returns objects library (1 ∷ []) ((2 ∷ []) ∷ []) objects-IsLawful
      library-KeepsKeys (report-IsReadable, (one_page-IsReadable, tt))

abbrev merged : Pdf PdfItem
merged = merge_documents-returns_example.0

shown-merge_example :
    shown text_of merged.pages ≡ all_shown objects library text_of ((1 ∷ []) ∷ (2 ∷ []) ∷ [])
shown-merge_example =
    shown-merge objects library text_of ((1 ∷ []) ∷ (2 ∷ []) ∷ []) merged library-KeepsContent
      merge_documents-returns_example.1

-- The placeholder is gone.
all_shown_run :
    all_shown objects library text_of ((1 ∷ []) ∷ (2 ∷ []) ∷ []) ≡ codes "A" ∷ codes "B" ∷ []
unfolding all_shown starts_with_placeholder is_placeholder has_marker has_part strip_prefix nat_eq
all_shown_run = refl

merge-IsWithoutNavigation_example : IsWithoutNavigation merged
merge-IsWithoutNavigation_example =
    merge-IsWithoutNavigation objects library (1 ∷ []) ((2 ∷ []) ∷ []) merged
      merge_documents-returns_example.1

merge_pdf_files-raises_example :
    merge_pdf_files objects library ((2 ∷ []) ∷ (0 ∷ []) ∷ (1 ∷ []) ∷ []) ≡ err other_error
unfolding open_document
merge_pdf_files-raises_example =
    merge_pdf_files-raises objects library ((2 ∷ []) ∷ []) (0 ∷ []) ((1 ∷ []) ∷ []) other_error
      objects-IsLawful library-KeepsKeys (one_page-IsReadable, tt) refl

AreDistinct-add_embedded_files_example :
    AreDistinct (names_of (embedded_files objects (add_embedded_files objects report one_page)))
unfolding embedded_files name_tree_entries name_pairs list_of items_list list_items
AreDistinct-add_embedded_files_example =
    AreDistinct-add_embedded_files objects report one_page objects-IsLawful (refl, tt)

total-add_embedded_files_example :
    total (λ spec. 1) (embedded_files objects (add_embedded_files objects report one_page))
    ≡ total (λ spec. 1) (embedded_files objects report)
      + total (λ spec. 1) (embedded_files objects one_page)
total-add_embedded_files_example =
    total-add_embedded_files objects (λ spec. 1) report one_page objects-IsLawful

copy_elements-leaves_example :
    (root : Structure PdfItem) × (d : Element PdfItem) × (copy_elements
        (λ e. e)
        (some (codes "de"))
        false
        (root_of [] two_paragraphs)
        (root_of [] two_paragraphs)
      ≡ ok root)
    × (document_element root ≡ ok d)
    × (leaves d
        ≡ joined_leaves false (kid_leaves none (kids_of two_paragraphs)) (leaves two_paragraphs))
unfolding document_element
copy_elements-leaves_example =
    copy_elements-leaves (λ e. e) (some (codes "de")) false (root_of [] two_paragraphs)
      (root_of [] two_paragraphs) two_paragraphs two_paragraphs refl refl

-- The service with this merge, and its job with one document.
abbrev pdf_host : Host
pdf_host = record host { merge = merge_pdf_files objects library }
