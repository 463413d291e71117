-- ===== src/PdfMerger/EmbeddedFiles.antt =====
-- app/pdf_merger.py: the files that a document embeds, `_name_tree_entries`, `_unique_name`,
-- `_embedded_files`, `_write_embedded_files`, `_tidy_embedded_files` and `_add_embedded_files`.
pub mod Unique
pub mod Sorting
pub mod Laws
use bulk_processing_service.Base.{
  Bool, List, Option, Text, [], codes, contains, eqb, false, if◌then◌else◌, length, ltb, map,
  nat_eq, none, not, some, suc, text_eq, true, zero, ℕ, ◌++◌, ◌+◌, ◌||◌, ◌∷◌,
}
use bulk_processing_service.Base.Dict.{Dict}
use bulk_processing_service.PdfMerger.{
  NameTree, NameTrees, Names, Pdf, PdfObjects, list_of, more_names, name_node, no_names,
}
use bulk_processing_service.PdfMerger.Prune.{is_among}
use bulk_processing_service.Strings.Decimal.{decimal}

-- `number` is tried next. The loop has rounds; when they run out, nothing is returned.
unfoldable pub numbered : Text → ℕ → Text
numbered name number = name ++ (codes " (" ++ (decimal number ++ codes ")"))

unfoldable pub free_name : ℕ → Text → List Text → ℕ → Text → Option Text
free_name zero name taken number candidate = none
free_name (suc rounds) name taken number candidate = elim (contains taken candidate) [
  | false ↦ some candidate
  | true ↦ free_name rounds name taken (number + 1) (numbered name number)
]

-- `_unique_name`: one round more than there are names that are taken.
unfoldable pub unique_name : Text → List Text → Option Text
unique_name name taken = free_name (length taken + 1) name taken 2 name

-- `<=` of two texts, which are compared by their code points.
unfoldable pub text_le : Text → Text → Bool
text_le [] t = true
text_le (a ∷ s) [] = false
text_le (a ∷ s) (b ∷ t) = let rest = text_le s t in if eqb a b then rest else ltb a b

module _ {V : Type 0} where
  -- `sorted(entries, key=…)`, which keeps the order of equal names
  unfoldable pub insert_entry : Text × V → List (Text × V) → List (Text × V)
  insert_entry (name, v) [] = (name, v) ∷ []
  insert_entry (name, v) ((other, w) ∷ entries) =
      let rest = insert_entry (name, v) entries in
      if text_le name other then (name, v) ∷ (other, w) ∷ entries else (other, w) ∷ rest

  unfoldable pub sorted_entries : List (Text × V) → List (Text × V)
  sorted_entries [] = []
  sorted_entries (entry ∷ entries) = insert_entry entry (sorted_entries entries)

  abbrev pub names_of : List (Text × V) → List Text
  names_of [] = []
  names_of ((name, v) ∷ entries) = name ∷ names_of entries

module _ (p : PdfObjects) where
  -- The pairs of an array; a name without a file at its end is left out.
  unfoldable pub name_pairs : List p.Object → List (Text × p.Object)
  name_pairs [] = []
  name_pairs (n ∷ []) = []
  name_pairs (n ∷ v ∷ rest) = (p.to_text n, v) ∷ name_pairs rest

  -- `_name_tree_entries`
  unfoldable mutual
    pub name_tree_entries : NameTree p.Object → List (Text × p.Object)
    name_tree_entries (name_node names kids) =
        name_pairs (list_of p names) ++ name_kids_entries kids

    pub name_kids_entries : NameTrees p.Object → List (Text × p.Object)
    name_kids_entries no_names = []
    name_kids_entries (more_names kid kids) = name_tree_entries kid ++ name_kids_entries kids

  abbrev pub files_in : Option (Names p.Object) → List (Text × p.Object)
  files_in none = []
  files_in (some names) = elim names.embedded_files [
    | none ↦ []
    | some tree ↦ name_tree_entries tree
  ]

  -- `_embedded_files`
  unfoldable pub embedded_files : Pdf p.Object → List (Text × p.Object)
  embedded_files pdf = files_in pdf.names

  unfoldable pub flat_names : List (Text × p.Object) → List p.Object
  flat_names [] = []
  flat_names ((name, spec) ∷ entries) = p.of_text name ∷ spec ∷ flat_names entries

  abbrev pub is_listed : ℕ × ℕ → List (ℕ × ℕ) → Bool
  is_listed = is_among

  -- The loop that lists each associated file once; a direct object is always listed.
  unfoldable pub unique_files : List (ℕ × ℕ) → List p.Object → List p.Object
  unique_files listed [] = []
  unique_files listed (spec ∷ specs) =
      elim (not (p.is_indirect spec) || not (is_listed (p.objgen spec) listed)) [
        | true ↦ spec ∷ unique_files (p.objgen spec ∷ listed) specs
        | false ↦ unique_files listed specs
      ]

  abbrev pub other_names : Option (Names p.Object) → Dict Text p.Object
  other_names none = []
  other_names (some names) = names.others

  -- The tree of sorted names that is written.
  unfoldable pub name_tree_of : List (Text × p.Object) → NameTree p.Object
  name_tree_of entries =
      name_node (some (p.of_array (flat_names (sorted_entries entries)))) no_names

  -- `_write_embedded_files`
  unfoldable pub write_embedded_files :
      Pdf p.Object → List (Text × p.Object) → List p.Object → Pdf p.Object
  write_embedded_files pdf [] [] = pdf
  write_embedded_files pdf entries specs = record pdf {
    names =
        some
          (record { embedded_files = some (name_tree_of entries); others = other_names pdf.names });
    associated = some (p.of_array (unique_files [] specs));
  }

  -- `_tidy_embedded_files`
  unfoldable pub tidy_embedded_files : Pdf p.Object → Pdf p.Object
  tidy_embedded_files pdf = write_embedded_files pdf (embedded_files pdf) (list_of p pdf.associated)

  abbrev pub or_name : Option Text → Text → Text
  or_name (some t) name = t
  or_name none name = name

  -- The loop that takes over files under names that are free.
  unfoldable pub take_over :
      List (Text × p.Object) → List Text → List (Text × p.Object) → List (Text × p.Object)
  take_over entries taken [] = entries
  take_over entries taken ((name, spec) ∷ added) =
      let unique = or_name (unique_name name taken) name in
      take_over (entries ++ (unique, p.copy_foreign spec) ∷ []) (unique ∷ taken) added

  abbrev pub add_files : Pdf p.Object → Pdf p.Object → List (Text × p.Object) → Pdf p.Object
  add_files target source [] = target
  add_files target source (file ∷ added) =
      let entries = embedded_files target in
      write_embedded_files target (take_over entries (names_of entries) (file ∷ added))
        (list_of p target.associated ++ map p.copy_foreign (list_of p source.associated))

  -- `_add_embedded_files`
  unfoldable pub add_embedded_files : Pdf p.Object → Pdf p.Object → Pdf p.Object
  add_embedded_files target source = add_files target source (embedded_files source)
