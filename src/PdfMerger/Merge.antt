-- ===== src/PdfMerger/Merge.antt =====
-- app/pdf_merger.py: the documents that are put together, `count_pdf_pages`, `_starts_with_placeholder`,
-- `_remove_first_page`, `_copy_pages`, `_add`, `_drop_navigation`, `replace_first_page_with_cover`
-- and `merge_pdf_files`. A call that raises leaves no document behind.
pub mod Links
pub mod Removal
pub mod Addition
pub mod Pages
pub mod Whole
pub mod Cover
pub mod Errors
pub mod Navigation
use bulk_processing_service.Base.{
  Bool, Bytes, List, Option, Text, [], codes, false, if◌then◌else◌, length, map, nat_eq, none, some,
  text_eq, true, ℕ, ◌++◌, ◌==◌, ◌||◌, ◌∷◌,
}
use bulk_processing_service.Base.Dict.{Dict}
use bulk_processing_service.Paths.{starts_with}
use bulk_processing_service.PdfMerger.{Element, Names, Page, Pdf, PdfObjects, Structure}
use bulk_processing_service.PdfMerger.EmbeddedFiles.{
  add_embedded_files, embedded_files, tidy_embedded_files,
}
use bulk_processing_service.PdfMerger.PageKeys.{all_keys, detach, keys_of, shift_keys}
use bulk_processing_service.PdfMerger.ParentTree.{
  copy_entries, next_of, number_tree, write_number_tree,
}
use bulk_processing_service.PdfMerger.Prune.{prune}
use bulk_processing_service.PdfMerger.Structures.{
  copy_elements, document_element, moved_language, with_document,
}
use bulk_processing_service.Results.{◌>>=◌}
use bulk_processing_service.Storage.{Result, err, ok, other_error, value_error}
use bulk_processing_service.Strings.{lower_char}
use bulk_processing_service.Base.Dict

-- pypdf and pikepdf. `open_reader` is `PdfReader` of the bytes of a file with its pages, `open_pdf` is
-- `pikepdf.open`, `new_pdf` is `pikepdf.new`. `copy_page` and `copy_element` are the copies that a
-- document, the first argument, gets of a page or an element of another.
pub record PdfLibrary (p : PdfObjects) : Type 1 where
  pub ReaderPage : Type 0
  pub open_reader : Bytes → Result (List ReaderPage)
  pub extract_text : ReaderPage → Result (Option Text)
  pub open_pdf : Bytes → Result (Pdf p.Object)
  pub save : Pdf p.Object → Result Bytes
  pub new_pdf : Pdf p.Object
  pub copy_page : Pdf p.Object → Page p.Object → Page p.Object
  pub copy_element : Pdf p.Object → Element p.Object → Element p.Object

-- `PLACEHOLDER_MARKER`
abbrev pub placeholder_marker : Text
placeholder_marker = codes "page to be removed"

-- `part in text`
unfoldable pub has_part : Text → Text → Bool
has_part part [] = starts_with [] part
has_part part (c ∷ t) = starts_with (c ∷ t) part || has_part part t

abbrev pub or_blank : Option Text → Text
or_blank none = []
or_blank (some t) = t

unfoldable pub has_marker : Option Text → Bool
has_marker text = has_part placeholder_marker (map lower_char (or_blank text))

abbrev pub kept_mode : Option Text → Option Text
kept_mode none = none
kept_mode (some mode) = if mode == codes "/UseOutlines" then none else some mode

module _ {O : Type 0} where
  abbrev pub place : Bool → List (Page O) → List (Page O) → List (Page O)
  place true copies own = copies ++ own
  place false copies own = own ++ copies

  unfoldable pub objgens : List (Page O) → List (ℕ × ℕ)
  objgens [] = []
  objgens (page ∷ pages) = page.objgen ∷ objgens pages

  -- `entries.pop(key, None)` for each key
  unfoldable pub pop_all : Dict ℕ O → List ℕ → Dict ℕ O
  pop_all entries [] = entries
  pop_all entries (k ∷ keys) = pop_all (Dict.remove entries k) keys

  abbrev pub kept_names : Option (Names O) → Option (Names O)
  kept_names none = none
  kept_names (some names) = elim names.embedded_files [
    | none ↦ none
    | some tree ↦ some (record { embedded_files = some tree; others = [] })
  ]

  -- `_drop_navigation`
  unfoldable pub drop_navigation : Pdf O → Pdf O
  drop_navigation pdf = record pdf {
    outlines = none;
    names = kept_names pdf.names;
    page_mode = kept_mode pdf.page_mode;
  }

module _ (p : PdfObjects) where
  -- What is left of a structure without the first page, whose keys are given.
  unfoldable pub without_page :
      List ℕ → List (ℕ × ℕ) → Structure p.Object → Result (Structure p.Object)
  without_page keys kept root = number_tree p root.parent_tree >>= λ entries.
      document_element root >>= λ document.
      ok (with_document (write_number_tree p root (pop_all entries keys)) (prune kept document).1)

  abbrev pub each_structure :
      (Structure p.Object → Result (Structure p.Object))
      → Option (Structure p.Object)
      → Result (Option (Structure p.Object))
  each_structure f none = ok none
  each_structure f (some root) = f root >>= λ root'. ok (some root')

  -- `_remove_first_page`
  unfoldable pub remove_first : List (Page p.Object) → Pdf p.Object → Result (Pdf p.Object)
  remove_first [] pdf = err other_error
  remove_first (page ∷ pages) pdf =
      each_structure (without_page (keys_of page) (objgens pages)) pdf.structure >>= λ root.
      ok (record pdf { pages = pages; structure = root })

  abbrev pub remove_first_page : Pdf p.Object → Result (Pdf p.Object)
  remove_first_page pdf = remove_first pdf.pages pdf

module _ (p : PdfObjects) (lib : PdfLibrary p) where
  -- `count_pdf_pages`
  unfoldable pub count_pdf_pages : Bytes → Result ℕ
  count_pdf_pages pdf_data = lib.open_reader pdf_data >>= λ pages. ok (length pages)

  -- `_starts_with_placeholder`
  unfoldable pub is_placeholder : List lib.ReaderPage → Result Bool
  is_placeholder [] = ok false
  is_placeholder (page ∷ []) = ok false
  is_placeholder (page ∷ second ∷ pages) = lib.extract_text page >>= λ text. ok (has_marker text)

  unfoldable pub starts_with_placeholder : Bytes → Result Bool
  starts_with_placeholder data_ = lib.open_reader data_ >>= is_placeholder

  -- `_copy_pages`: the copies, which stand at the start or the end of the target in the same order.
  unfoldable pub copy_pages : Pdf p.Object → List (Page p.Object) → List (Page p.Object)
  copy_pages target pages = map (lib.copy_page target) pages

  -- `_add`, where both documents have a structure
  unfoldable pub add_structure :
      Pdf p.Object
      → Pdf p.Object
      → List (Page p.Object)
      → Bool
      → Structure p.Object
      → Structure p.Object
      → Result (Pdf p.Object)
  add_structure target source pages at_start target_root source_root =
      document_element source_root >>= λ document.
      number_tree p target_root.parent_tree >>= λ entries.
      number_tree p source_root.parent_tree >>= λ source_entries.
      let offset = next_of entries in
      let shifted_copies = map (shift_keys offset) (copy_pages target pages) in
      let taken = copy_entries p entries source_entries (all_keys pages) offset in
      copy_elements (lib.copy_element target) (moved_language source.lang target.lang) at_start
        (write_number_tree p target_root taken)
        (with_document source_root (prune (objgens pages) document).1)
      >>= λ root. ok (record target {
        pages = place at_start shifted_copies target.pages;
        structure = some root;
      })

  unfoldable pub add_by_structure :
      Pdf p.Object
      → Pdf p.Object
      → List (Page p.Object)
      → Bool
      → Option (Structure p.Object)
      → Option (Structure p.Object)
      → Result (Pdf p.Object)
  add_by_structure target source pages at_start (some root) (some source_root) =
      add_structure target source pages at_start root source_root
  add_by_structure target source pages at_start _ _ =
      ok (record target {
        pages = place at_start (map detach (copy_pages target pages)) target.pages;
      })

  -- `_add`
  unfoldable pub add :
      Pdf p.Object → Pdf p.Object → List (Page p.Object) → Bool → Result (Pdf p.Object)
  add target source pages at_start =
      add_by_structure target source pages at_start target.structure source.structure

  abbrev pub remove_if : Bool → Pdf p.Object → Result (Pdf p.Object)
  remove_if true pdf = remove_first_page p pdf
  remove_if false pdf = ok pdf

  -- A document of the merge, without its placeholder.
  unfoldable pub open_document : Bytes → Result (Pdf p.Object)
  open_document data_ =
      lib.open_pdf data_ >>= λ pdf. starts_with_placeholder data_ >>= λ test. remove_if test pdf

  abbrev pub first_page : Pdf p.Object → Result (Page p.Object)
  first_page pdf = elim pdf.pages [
    | [] ↦ err (value_error (codes "Cover page PDF has no pages"))
    | page ∷ pages ↦ ok page
  ]

  -- `replace_first_page_with_cover`
  unfoldable pub cover_document : Bytes → Bytes → Result (Pdf p.Object)
  cover_document content_pdf cover_pdf = lib.open_pdf cover_pdf >>= λ cover.
      first_page cover >>= λ page.
      open_document content_pdf >>= λ content. add content cover (page ∷ []) true

  unfoldable pub replace_first_page_with_cover : Bytes → Bytes → Result Bytes
  replace_first_page_with_cover content_pdf cover_pdf =
      cover_document content_pdf cover_pdf >>= lib.save

  -- One more document for the merge
  unfoldable pub merge_one : Option (Pdf p.Object) → Pdf p.Object → Result (Pdf p.Object)
  merge_one none pdf = ok (tidy_embedded_files p (drop_navigation pdf))
  merge_one (some merged) pdf =
      add merged pdf pdf.pages false >>= λ grown. ok (add_embedded_files p grown pdf)

  -- The loop of `merge_pdf_files`, over the bytes of the files
  unfoldable pub merge_documents :
      Option (Pdf p.Object) → List Bytes → Result (Option (Pdf p.Object))
  merge_documents merged [] = ok merged
  merge_documents merged (data_ ∷ files) = open_document data_ >>= λ pdf.
      merge_one merged pdf >>= λ grown. merge_documents (some grown) files

  abbrev pub or_new : Option (Pdf p.Object) → Pdf p.Object
  or_new none = lib.new_pdf
  or_new (some pdf) = pdf

  -- `merge_pdf_files`, from the bytes of the files to those of the result
  unfoldable pub merge_pdf_files : List Bytes → Result Bytes
  merge_pdf_files files = merge_documents none files >>= λ merged. lib.save (or_new merged)
