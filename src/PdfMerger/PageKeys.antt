-- ===== src/PdfMerger/PageKeys.antt =====
-- app/pdf_merger.py: the keys of a page into the parent tree, `_annotations`, `_keys_of`,
-- `_shift_keys` and `_detach`.
pub mod Laws
use bulk_processing_service.Base.{List, Option, [], map, none, some, ℕ, ◌++◌, ◌+◌, ◌∷◌}
use bulk_processing_service.PdfMerger.{Annotation, Page}

-- The numbers in a list of which some entries have none.
abbrev pub with_number : Option ℕ → List ℕ → List ℕ
with_number none keys = keys
with_number (some n) keys = n ∷ keys

abbrev pub shifted : ℕ → Option ℕ → Option ℕ
shifted offset none = none
shifted offset (some n) = some (n + offset)

module _ {O : Type 0} where
  -- The keys of the annotations that `_annotations` returns: those that have one.
  unfoldable pub annotation_keys : List (Annotation O) → List ℕ
  annotation_keys [] = []
  annotation_keys (a ∷ annotations) = with_number a.struct_parent (annotation_keys annotations)

  -- `_keys_of`
  unfoldable pub keys_of : Page O → List ℕ
  keys_of page = with_number page.struct_parents (annotation_keys page.annotations)

  abbrev pub shift_annotation : ℕ → Annotation O → Annotation O
  shift_annotation offset a = record a { struct_parent = shifted offset a.struct_parent }

  -- `_shift_keys`
  unfoldable pub shift_keys : ℕ → Page O → Page O
  shift_keys offset page = record page {
    struct_parents = shifted offset page.struct_parents;
    annotations = map (shift_annotation offset) page.annotations;
  }

  abbrev pub detach_annotation : Annotation O → Annotation O
  detach_annotation a = record a { struct_parent = none }

  -- `_detach`
  unfoldable pub detach : Page O → Page O
  detach page = record page {
    struct_parents = none;
    annotations = map detach_annotation page.annotations;
  }

  -- `[key for page in pages for key in _keys_of(page)]`
  unfoldable pub all_keys : List (Page O) → List ℕ
  all_keys [] = []
  all_keys (page ∷ pages) = keys_of page ++ all_keys pages
