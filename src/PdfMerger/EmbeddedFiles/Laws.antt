-- ===== src/PdfMerger/EmbeddedFiles/Laws.antt =====
-- app/pdf_merger.py: which files a document embeds after `_write_embedded_files` and
-- `_add_embedded_files`, and under which names.
use bulk_processing_service.Base.{
  AreDistinct, AreDistinct-swap, List, Text, [], ap, arith, contains, contains-swap, false, map,
  nat_eq, none, refl, some, sym, text_eq, ℕ, ◌++◌, ◌+◌, ◌==◌, ◌||◌, ◌∙◌, ◌∷◌, ◌≡◌,
}
use bulk_processing_service.PdfMerger.{IsLawful, Pdf, PdfObjects, list_of}
use bulk_processing_service.PdfMerger.EmbeddedFiles.{
  add_embedded_files, add_files, embedded_files, flat_names, name_pairs, name_tree_entries,
  name_tree_of, names_of, or_name, sorted_entries, take_over, unique_name, write_embedded_files,
}
use bulk_processing_service.PdfMerger.EmbeddedFiles.Sorting.{
  AreDistinct-sorted_entries, names_of-append, total, total-append, total-sorted_entries,
}
use bulk_processing_service.PdfMerger.EmbeddedFiles.Unique.{unique_name_free}
use mathlib.Core.List.{append-nil}
use mathlib.Core.Path.{ap₂, subst}

module _ (p : PdfObjects) where
  name_pairs-flat_names :
      (entries : List (Text × p.Object))
      → IsLawful p
      → name_pairs p (flat_names p entries) ≡ entries
  unfolding name_pairs flat_names
  name_pairs-flat_names [] law = refl
  name_pairs-flat_names ((name, spec) ∷ entries) law =
      ap₂ (λ n l. (n, spec) ∷ l) (law.to_text-of_text name) (name_pairs-flat_names entries law)

  entries-name_tree_of :
      (entries : List (Text × p.Object))
      → IsLawful p
      → name_tree_entries p (name_tree_of p entries) ≡ sorted_entries entries
  unfolding name_tree_entries name_tree_of list_of
  entries-name_tree_of entries law =
      ap
        (λ found.
          name_pairs p (elim found [
            | some items ↦ items
            | none ↦ p.of_array (flat_names p (sorted_entries entries)) ∷ []
          ])
          ++ [])
        (law.array_of-of_array (flat_names p (sorted_entries entries)))
      ∙ append-nil _
      ∙ name_pairs-flat_names (sorted_entries entries) law

  -- With objects that are read back as they are written: where there is a file, the files that are
  -- written are read back, sorted by their names.
  embedded_files-write_embedded_files :
      (pdf : Pdf p.Object) (entry : Text × p.Object) (entries : List (Text × p.Object))
      (specs : List p.Object)
      → IsLawful p
      → embedded_files p (write_embedded_files p pdf (entry ∷ entries) specs)
        ≡ sorted_entries (entry ∷ entries)
  unfolding embedded_files write_embedded_files
  embedded_files-write_embedded_files pdf entry entries specs law =
      entries-name_tree_of (entry ∷ entries) law

  -- A name is taken over once.
  AreDistinct-take_over :
      (entries : List (Text × p.Object)) (taken : List Text) (added : List (Text × p.Object))
      → ((n : Text) → contains taken n ≡ contains (names_of entries) n)
      → AreDistinct (names_of entries)
      → AreDistinct (names_of (take_over p entries taken added))
  unfolding take_over
  AreDistinct-take_over entries taken [] same h = h
  AreDistinct-take_over entries taken ((name, spec) ∷ added) same h =
      let (t, e, free) = unique_name_free name taken in
      let unique = or_name p (unique_name name taken) name in
      let unique_free : contains taken unique ≡ false =
        ap (λ o. contains taken (or_name p o name)) e ∙ free in
      let names = names_of-append entries ((unique, p.copy_foreign spec) ∷ []) in
      AreDistinct-take_over (entries ++ (unique, p.copy_foreign spec) ∷ []) (unique ∷ taken) added
        (λ n.
          ap (λ b. n == unique || b) (same n)
          ∙ contains-swap (unique ∷ []) (names_of entries) n
          ∙ ap (λ l. contains l n) (sym names))
        (subst AreDistinct (sym names)
          (AreDistinct-swap (unique ∷ []) (names_of entries) (sym (same unique) ∙ unique_free, h)))

  total-take_over :
      (f : p.Object → ℕ) (entries : List (Text × p.Object)) (taken : List Text)
      (added : List (Text × p.Object))
      → total f (take_over p entries taken added)
        ≡ total f entries + total (λ spec. f (p.copy_foreign spec)) added
  unfolding take_over
  total-take_over f entries taken [] = omega arith
  total-take_over f entries taken ((name, spec) ∷ added) =
      let unique = or_name p (unique_name name taken) name in
      omega (
        arith,
        total-take_over f (entries ++ (unique, p.copy_foreign spec) ∷ []) (unique ∷ taken) added,
        total-append f entries ((unique, p.copy_foreign spec) ∷ []),
      )

  take_over_head :
      (entry : Text × p.Object) (entries : List (Text × p.Object)) (taken : List Text)
      (added : List (Text × p.Object))
      → (rest : List (Text × p.Object)) × (take_over p (entry ∷ entries) taken added ≡ entry ∷ rest)
  unfolding take_over
  take_over_head entry entries taken [] = (entries, refl)
  take_over_head entry entries taken ((name, spec) ∷ added) =
      let unique = or_name p (unique_name name taken) name in
      take_over_head entry (entries ++ (unique, p.copy_foreign spec) ∷ []) (unique ∷ taken) added

  take_over_some :
      (entries : List (Text × p.Object)) (taken : List Text) (file : Text × p.Object)
      (added : List (Text × p.Object))
      → (entry : Text × p.Object) × (rest : List (Text × p.Object)) × (take_over p entries taken
            (file ∷ added)
          ≡ entry ∷ rest)
  unfolding take_over
  take_over_some [] taken (name, spec) added =
      let unique = or_name p (unique_name name taken) name in
      let (rest, e) = take_over_head (unique, p.copy_foreign spec) [] (unique ∷ taken) added in
      ((unique, p.copy_foreign spec), rest, e)
  take_over_some (entry ∷ entries) taken (name, spec) added =
      let (rest, e) = take_over_head entry entries taken ((name, spec) ∷ added) in (entry, rest, e)

  -- What is read from a document that took files over.
  embedded_files-add_files :
      (target source : Pdf p.Object) (file : Text × p.Object) (added : List (Text × p.Object))
      → IsLawful p
      → embedded_files p (add_files p target source (file ∷ added))
        ≡ sorted_entries (
            take_over p
              (embedded_files p target)
              (names_of (embedded_files p target))
              (file ∷ added))
  embedded_files-add_files target source file added law =
      let entries = embedded_files p target in
      let specs = list_of p target.associated ++ map p.copy_foreign (list_of p source.associated) in
      let (entry, rest, e) = take_over_some entries (names_of entries) file added in
      ap (λ l. embedded_files p (write_embedded_files p target l specs)) e
      ∙ embedded_files-write_embedded_files target entry rest specs law
      ∙ ap sorted_entries (sym e)

  AreDistinct-add_files :
      (target source : Pdf p.Object) (added : List (Text × p.Object))
      → IsLawful p
      → AreDistinct (names_of (embedded_files p target))
      → AreDistinct (names_of (embedded_files p (add_files p target source added)))
  AreDistinct-add_files target source [] law h = h
  AreDistinct-add_files target source (file ∷ added) law h =
      let entries = embedded_files p target in
      subst (λ l. AreDistinct (names_of l))
        (sym (embedded_files-add_files target source file added law))
        (AreDistinct-sorted_entries _
          (AreDistinct-take_over entries (names_of entries) (file ∷ added) (λ n. refl) h))

  -- With objects that are read back as they are written: where the names of the files that a document
  -- embeds differ, they still differ when it has taken
  -- over the files of another.
  pub AreDistinct-add_embedded_files :
      (target source : Pdf p.Object)
      → IsLawful p
      → AreDistinct (names_of (embedded_files p target))
      → AreDistinct (names_of (embedded_files p (add_embedded_files p target source)))
  unfolding add_embedded_files
  AreDistinct-add_embedded_files target source law h =
      AreDistinct-add_files target source (embedded_files p source) law h

  total-add_files :
      (f : p.Object → ℕ) (target source : Pdf p.Object) (added : List (Text × p.Object))
      → IsLawful p
      → total f (embedded_files p (add_files p target source added))
        ≡ total f (embedded_files p target) + total (λ spec. f (p.copy_foreign spec)) added
  total-add_files f target source [] law = omega arith
  total-add_files f target source (file ∷ added) law =
      let entries = embedded_files p target in
      ap (total f) (embedded_files-add_files target source file added law)
      ∙ total-sorted_entries f _
      ∙ total-take_over f entries (names_of entries) (file ∷ added)

  -- With objects that are read back as they are written: a document that takes over the files of another embeds its own files and copies of the
  -- other's, and no file is lost or listed twice: counting each file by any number, the count of the
  -- result is the count of its own files and of the copies.
  pub total-add_embedded_files :
      (f : p.Object → ℕ) (target source : Pdf p.Object)
      → IsLawful p
      → total f (embedded_files p (add_embedded_files p target source))
        ≡ total f (embedded_files p target)
          + total (λ spec. f (p.copy_foreign spec)) (embedded_files p source)
  unfolding add_embedded_files
  total-add_embedded_files f target source law =
      total-add_files f target source (embedded_files p source) law
