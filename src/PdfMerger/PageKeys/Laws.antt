-- ===== src/PdfMerger/PageKeys/Laws.antt =====
-- app/pdf_merger.py: the keys of pages that were shifted, detached or put together.
use bulk_processing_service.Base.{
  List, Option, [], ap, map, none, refl, some, sym, ℕ, ◌++◌, ◌+◌, ◌∙◌, ◌∷◌, ◌≡◌,
}
use bulk_processing_service.PdfMerger.{Annotation, Page}
use bulk_processing_service.PdfMerger.PageKeys.{
  all_keys, annotation_keys, detach, detach_annotation, keys_of, shift_annotation, shift_keys,
  shifted, with_number,
}
use mathlib.Core.List.{map-append, append_assoc}
use mathlib.Core.Path.{ap₂}

abbrev pub add_to : ℕ → ℕ → ℕ
add_to offset n = n + offset

map-with_number :
    (offset : ℕ) (o : Option ℕ) (keys : List ℕ)
    → with_number (shifted offset o) (map (add_to offset) keys)
      ≡ map (add_to offset) (with_number o keys)
map-with_number offset none keys = refl
map-with_number offset (some n) keys = refl

module _ {O : Type 0} where
  annotation_keys-shift :
      (offset : ℕ) (annotations : List (Annotation O))
      → annotation_keys (map (shift_annotation offset) annotations)
        ≡ map (add_to offset) (annotation_keys annotations)
  unfolding annotation_keys
  annotation_keys-shift offset [] = refl
  annotation_keys-shift offset (a ∷ annotations) =
      ap (with_number (shifted offset a.struct_parent)) (annotation_keys-shift offset annotations)
      ∙ map-with_number offset a.struct_parent (annotation_keys annotations)

  -- Shifting a page adds the offset to each of its keys.
  pub keys_of-shift_keys :
      (offset : ℕ) (page : Page O)
      → keys_of (shift_keys offset page) ≡ map (add_to offset) (keys_of page)
  unfolding keys_of shift_keys
  keys_of-shift_keys offset page =
      ap (with_number (shifted offset page.struct_parents))
        (annotation_keys-shift offset page.annotations)
      ∙ map-with_number offset page.struct_parents (annotation_keys page.annotations)

  annotation_keys-detach :
      (annotations : List (Annotation O)) → annotation_keys (map detach_annotation annotations) ≡ []
  unfolding annotation_keys
  annotation_keys-detach [] = refl
  annotation_keys-detach (a ∷ annotations) = annotation_keys-detach annotations

  -- A detached page has no key.
  pub keys_of-detach : (page : Page O) → keys_of (detach page) ≡ []
  unfolding keys_of detach
  keys_of-detach page = annotation_keys-detach page.annotations

  pub all_keys-detach : (pages : List (Page O)) → all_keys (map detach pages) ≡ []
  unfolding all_keys
  all_keys-detach [] = refl
  all_keys-detach (page ∷ pages) =
      ap (λ ks. ks ++ all_keys (map detach pages)) (keys_of-detach page) ∙ all_keys-detach pages

  pub all_keys-shift :
      (offset : ℕ) (pages : List (Page O))
      → all_keys (map (shift_keys offset) pages) ≡ map (add_to offset) (all_keys pages)
  unfolding all_keys
  all_keys-shift offset [] = refl
  all_keys-shift offset (page ∷ pages) =
      ap₂ ◌++◌ (keys_of-shift_keys offset page) (all_keys-shift offset pages)
      ∙ sym (map-append (add_to offset) (keys_of page) (all_keys pages))

  pub all_keys-append : (xs ys : List (Page O)) → all_keys (xs ++ ys) ≡ all_keys xs ++ all_keys ys
  unfolding all_keys
  all_keys-append [] ys = refl
  all_keys-append (x ∷ xs) ys =
      ap (λ ks. keys_of x ++ ks) (all_keys-append xs ys)
      ∙ sym (append_assoc (keys_of x) (all_keys xs) (all_keys ys))
