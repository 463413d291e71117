-- ===== src/PdfMerger/ParentTree/Laws.antt =====
-- app/pdf_merger.py: what is read from a number tree that was written, and from one that took over
-- the entries of another.
use bulk_processing_service.Base.{
  List, Option-cases, [], arith, contains, inl, inr, nat_eq, none, refl, some, sym, text_eq, true,
  ℕ, ◌+◌, ◌<◌, ◌==◌, ◌||◌, ◌∙◌, ◌∷◌, ◌≡◌,
}
use bulk_processing_service.Base.Dict.{Dict, get-put}
use bulk_processing_service.PdfMerger.{IsLawful, PdfObjects, Structure, list_of}
use bulk_processing_service.PdfMerger.ParentTree.{
  copied_value, copy_entries, flat_nums, insert_key, next_of, number_tree, read_nums, sorted_keys,
  write_number_tree,
}
use bulk_processing_service.Storage.{ok}
use bulk_processing_service.Base.Dict

contains-insert_key :
    (n : ℕ) (ks : List ℕ) (k : ℕ) → contains (insert_key n ks) k ≡ (k == n || contains ks k)
unfolding insert_key
contains-insert_key n [] k = ground arith
contains-insert_key n (j ∷ ks) k = ground (arith, contains-insert_key n ks k)

pub contains-sorted_keys :
    {V : Type 0} (entries : Dict ℕ V) (k : ℕ) {v : V}
    → Dict.get entries k ≡ some v
    → contains (sorted_keys entries) k ≡ true
unfolding sorted_keys Dict.get
contains-sorted_keys [] k e = absurd (ground arith)
contains-sorted_keys ((n, w) ∷ entries) k {v} e =
    ground
      (arith, contains-insert_key n (sorted_keys entries) k, contains-sorted_keys entries k {v = v})

-- A key of the dictionary is below the next one.
pub get-lt-next_of :
    {V : Type 0} (entries : Dict ℕ V) (k : ℕ) {v : V}
    → Dict.get entries k ≡ some v
    → k < next_of entries
unfolding next_of Dict.get
get-lt-next_of [] k e = absurd (ground arith)
get-lt-next_of ((n, w) ∷ entries) k {v} e = ground (arith, get-lt-next_of entries k {v = v})

module _ (p : PdfObjects) (entries : Dict ℕ p.Object) where
  -- What is left of an assignment of the given keys' entries.
  assign : List ℕ → Dict ℕ p.Object → Dict ℕ p.Object
  assign [] acc = acc
  assign (n ∷ keys) acc =
      assign keys (elim (Dict.get entries n) [ some v ↦ Dict.put acc n v | none ↦ acc ])

  read_nums-flat_nums :
      (law : IsLawful p) (keys : List ℕ) (acc : Dict ℕ p.Object)
      → read_nums p (flat_nums p keys entries) acc ≡ ok (assign keys acc)
  unfolding read_nums flat_nums assign
  read_nums-flat_nums law [] acc = refl
  read_nums-flat_nums law (n ∷ keys) acc = elim (Option-cases (Dict.get entries n)) [
    | inl absent ↦ ground (arith, read_nums-flat_nums law keys acc)
    | inr (v, there) ↦
        ground (arith, law.to_int-of_int n, read_nums-flat_nums law keys (Dict.put acc n v))
  ]

  -- A key that is right stays right.
  get-assign_kept :
      (keys : List ℕ) (acc : Dict ℕ p.Object) (k : ℕ)
      → Dict.get acc k ≡ Dict.get entries k
      → Dict.get (assign keys acc) k ≡ Dict.get entries k
  unfolding assign
  get-assign_kept [] acc k e = e
  get-assign_kept (n ∷ keys) acc k e = elim (Option-cases (Dict.get entries n)) [
    | inl absent ↦ ground (arith, get-assign_kept keys acc k)
    | inr (v, there) ↦ ground (arith, get-put acc n k v, get-assign_kept keys (Dict.put acc n v) k)
  ]

  get-assign_absent :
      (keys : List ℕ) (acc : Dict ℕ p.Object) (k : ℕ)
      → Dict.get entries k ≡ none
      → Dict.get (assign keys acc) k ≡ Dict.get acc k
  unfolding assign
  get-assign_absent [] acc k e = refl
  get-assign_absent (n ∷ keys) acc k e = elim (Option-cases (Dict.get entries n)) [
    | inl absent ↦ ground (arith, get-assign_absent keys acc k)
    | inr (v, there) ↦
        ground (arith, get-put acc n k v, get-assign_absent keys (Dict.put acc n v) k)
  ]

  get-assign :
      (keys : List ℕ) (acc : Dict ℕ p.Object) (k : ℕ) (v : p.Object)
      → contains keys k ≡ true
      → Dict.get entries k ≡ some v
      → Dict.get (assign keys acc) k ≡ Dict.get entries k
  unfolding assign
  get-assign [] acc k v c e = absurd (ground arith)
  get-assign (n ∷ keys) acc k v c e = elim (Option-cases (Dict.get entries n)) [
    | inl absent ↦ ground (arith, get-assign keys acc k v)
    | inr (w, there) ↦ ground (
      arith,
      get-put acc n k w,
      get-assign keys (Dict.put acc n w) k v,
      get-assign_kept keys (Dict.put acc n w) k,
    )
  ]

  get-assign-sorted_keys :
      (k : ℕ) → Dict.get (assign (sorted_keys entries) []) k ≡ Dict.get entries k
  unfolding Dict.get
  get-assign-sorted_keys k = elim (Option-cases (Dict.get entries k)) [
    | inl absent ↦ get-assign_absent (sorted_keys entries) [] k absent ∙ sym absent
    | inr (v, there) ↦
        get-assign (sorted_keys entries) [] k v (contains-sorted_keys entries k there) there
  ]

  -- With objects that are read back as they are written: a number tree that was written is read
  -- back, the reading succeeds, and gives every key the entry that was written for it, and no entry
  -- to any other key.
  pub number_tree-write_number_tree :
      (root : Structure p.Object) (k : ℕ)
      → IsLawful p
      → (read : Dict ℕ p.Object) × (number_tree p (write_number_tree p root entries).parent_tree
          ≡ ok read)
        × (Dict.get read k ≡ Dict.get entries k)
  unfolding number_tree write_number_tree list_of
  number_tree-write_number_tree root k law = (
    assign (sorted_keys entries) [],
    ground (
      arith,
      law.array_of-of_array (flat_nums p (sorted_keys entries) entries),
      read_nums-flat_nums law (sorted_keys entries) [],
    ),
    get-assign-sorted_keys k,
  )

module _ (p : PdfObjects) (source : Dict ℕ p.Object) (offset : ℕ) where
  -- The entries below the offset stay.
  pub copy_entries-old :
      (keys : List ℕ) (entries : Dict ℕ p.Object) (j : ℕ)
      → j < offset
      → Dict.get (copy_entries p entries source keys offset) j ≡ Dict.get entries j
  unfolding copy_entries
  copy_entries-old [] entries j lt = refl
  copy_entries-old (k ∷ keys) entries j lt = elim (Option-cases (Dict.get source k)) [
    | inl absent ↦ ground (arith, copy_entries-old keys entries j)
    | inr (v, there) ↦ ground (
      arith,
      get-put entries (k + offset) j (copied_value p v),
      copy_entries-old keys (Dict.put entries (k + offset) (copied_value p v)) j,
    )
  ]

  -- An entry that is as it should be stays so.
  copy_entries_kept :
      (keys : List ℕ) (entries : Dict ℕ p.Object) (k : ℕ) (v : p.Object)
      → Dict.get source k ≡ some v
      → Dict.get entries (k + offset) ≡ some (copied_value p v)
      → Dict.get (copy_entries p entries source keys offset) (k + offset) ≡ some (copied_value p v)
  unfolding copy_entries
  copy_entries_kept [] entries k v e f = f
  copy_entries_kept (n ∷ keys) entries k v e f = elim (Option-cases (Dict.get source n)) [
    | inl absent ↦ ground (arith, copy_entries_kept keys entries k v)
    | inr (w, there) ↦ ground (
      arith,
      get-put entries (n + offset) (k + offset) (copied_value p w),
      copy_entries_kept keys (Dict.put entries (n + offset) (copied_value p w)) k v,
    )
  ]

  -- The entry of a key that was asked for is there, under the shifted key.
  pub copy_entries-new :
      (keys : List ℕ) (entries : Dict ℕ p.Object) (k : ℕ) (v : p.Object)
      → contains keys k ≡ true
      → Dict.get source k ≡ some v
      → Dict.get (copy_entries p entries source keys offset) (k + offset) ≡ some (copied_value p v)
  unfolding copy_entries
  copy_entries-new [] entries k v c e = absurd (ground arith)
  copy_entries-new (n ∷ keys) entries k v c e = elim (Option-cases (Dict.get source n)) [
    | inl absent ↦ ground (arith, copy_entries-new keys entries k v)
    | inr (w, there) ↦ ground (
      arith,
      get-put entries (n + offset) (k + offset) (copied_value p w),
      copy_entries-new keys (Dict.put entries (n + offset) (copied_value p w)) k v,
      copy_entries_kept keys (Dict.put entries (n + offset) (copied_value p w)) k v,
    )
  ]
