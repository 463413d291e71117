-- ===== src/PdfMerger/ParentTree.antt =====
-- app/pdf_merger.py: `_number_tree`, `_write_number_tree` and `_copy_entries`.
pub mod Laws
use bulk_processing_service.Base.{
  List, [], false, if◌then◌else◌, leb, map, max, nat_eq, none, some, text_eq, true, ℕ, ◌+◌, ◌∷◌,
}
use bulk_processing_service.Base.Dict.{Dict}
use bulk_processing_service.PdfMerger.{
  NumberTree, NumberTrees, PdfObjects, Structure, list_of, more_numbers, no_numbers, number_node,
}
use bulk_processing_service.Results.{◌>>=◌}
use bulk_processing_service.Storage.{Result, err, ok, other_error}
use bulk_processing_service.Base.Dict

module _ (p : PdfObjects) where
  -- The loop over `/Nums`, two objects at a time: a key that is no number raises `TypeError`, a key
  -- without a value `IndexError`.
  unfoldable pub read_nums : List p.Object → Dict ℕ p.Object → Result (Dict ℕ p.Object)
  read_nums [] entries = ok entries
  read_nums (k ∷ []) entries = p.to_int k >>= λ _. err other_error
  read_nums (k ∷ v ∷ nums) entries = p.to_int k >>= λ n. read_nums nums (Dict.put entries n v)

  -- `entries.update(more)`
  unfoldable pub update : Dict ℕ p.Object → Dict ℕ p.Object → Dict ℕ p.Object
  update entries [] = entries
  update entries ((n, v) ∷ more) = update (Dict.put entries n v) more

  -- `_number_tree`, and its loop over the kids
  unfoldable mutual
    pub number_tree : NumberTree p.Object → Result (Dict ℕ p.Object)
    number_tree (number_node nums kids) =
        read_nums (list_of p nums) [] >>= λ entries. number_kids kids entries

    pub number_kids : NumberTrees p.Object → Dict ℕ p.Object → Result (Dict ℕ p.Object)
    number_kids no_numbers entries = ok entries
    number_kids (more_numbers kid kids) entries =
        number_tree kid >>= λ more. number_kids kids (update entries more)

-- `sorted` of the keys
unfoldable pub insert_key : ℕ → List ℕ → List ℕ
insert_key n [] = n ∷ []
insert_key n (k ∷ ks) = let rest = insert_key n ks in if leb n k then n ∷ k ∷ ks else k ∷ rest

unfoldable pub sorted_keys : {V : Type 0} → Dict ℕ V → List ℕ
sorted_keys [] = []
sorted_keys ((n, v) ∷ entries) = insert_key n (sorted_keys entries)

-- `max(entries, default=-1) + 1`
unfoldable pub next_of : {V : Type 0} → Dict ℕ V → ℕ
next_of [] = 0
next_of ((n, v) ∷ entries) = max (n + 1) (next_of entries)

module _ (p : PdfObjects) where
  -- The array of keys and entries. Each key is one of the dictionary.
  unfoldable pub flat_nums : List ℕ → Dict ℕ p.Object → List p.Object
  flat_nums [] entries = []
  flat_nums (n ∷ keys) entries =
      let rest = flat_nums keys entries in
      elim (Dict.get entries n) [ some v ↦ p.of_int n ∷ v ∷ rest | none ↦ rest ]

  -- `_write_number_tree`
  unfoldable pub write_number_tree : Structure p.Object → Dict ℕ p.Object → Structure p.Object
  write_number_tree root entries = record root {
    parent_tree =
        number_node (some (p.of_array (flat_nums (sorted_keys entries) entries))) no_numbers;
    next_key = next_of entries;
  }

  -- The value that `_copy_entries` puts into the target.
  unfoldable pub copied_value : p.Object → p.Object
  copied_value v = elim (p.is_indirect v) [
    | true ↦ p.copy_foreign v
    | false ↦ elim (p.array_of v) [
      | some items ↦ p.of_array (map p.copy_foreign items)
      | none ↦ p.copy_foreign v
    ]
  ]

  -- `_copy_entries`
  unfoldable pub copy_entries : Dict ℕ p.Object → Dict ℕ p.Object → List ℕ → ℕ → Dict ℕ p.Object
  copy_entries entries source_entries [] offset = entries
  copy_entries entries source_entries (k ∷ keys) offset =
      copy_entries
        (elim (Dict.get source_entries k) [
          | none ↦ entries
          | some v ↦ Dict.put entries (k + offset) (copied_value v)
        ])
        source_entries keys offset
