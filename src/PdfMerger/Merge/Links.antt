-- ===== src/PdfMerger/Merge/Links.antt =====
-- app/pdf_merger.py: the links between pages and the structure. A page names its entries in the
-- parent tree by keys.
use bulk_processing_service.Base.{
  All, AreApart, AreDistinct, Bool-cases, List, Option, [], ap, arith, contains, contains-append,
  eq_iff, eq_refl, false, inl, inr, map, nat_eq, none, refl, some, sym, text_eq, true, ℕ, ◌++◌, ◌+◌,
  ◌<◌, ◌==◌, ◌∙◌, ◌∷◌, ◌≡◌,
}
use bulk_processing_service.Base.Dict.{Dict, get-remove}
use bulk_processing_service.PdfMerger.{IsLawful, Pdf, PdfObjects, Structure}
use bulk_processing_service.PdfMerger.Merge.{pop_all}
use bulk_processing_service.PdfMerger.PageKeys.{all_keys}
use bulk_processing_service.PdfMerger.PageKeys.Laws.{add_to}
use bulk_processing_service.PdfMerger.ParentTree.{
  copied_value, copy_entries, next_of, number_tree, write_number_tree,
}
use bulk_processing_service.PdfMerger.ParentTree.Laws.{
  copy_entries-new, copy_entries-old, get-lt-next_of, number_tree-write_number_tree,
}
use bulk_processing_service.PdfMerger.Structures.Laws.{HasDocument}
use bulk_processing_service.Results.{ok_injective}
use bulk_processing_service.Storage.{ok}
use bulk_processing_service.Base.Dict

contains-shifted :
    (offset k : ℕ) (keys : List ℕ)
    → contains (map (add_to offset) keys) k ≡ true
    → (j : ℕ) × (k ≡ j + offset) × (contains keys j ≡ true)
contains-shifted offset k [] c = absurd (ground arith)
contains-shifted offset k (n ∷ keys) c = elim (Bool-cases (k == n + offset)) [
  | inl same ↦ (n, (eq_iff _ _).0 same, ground (arith, eq_refl n))
  | inr other_key ↦
      let (j, e, there) = contains-shifted offset k keys (ground arith) in (j, e, ground arith)
]

absent-shifted :
    (offset k : ℕ) (keys : List ℕ)
    → contains keys k ≡ false
    → contains (map (add_to offset) keys) (k + offset) ≡ false
absent-shifted offset k [] c = refl
absent-shifted offset k (n ∷ keys) c = ground (arith, absent-shifted offset k keys)

pub AreDistinct-shifted :
    (offset : ℕ) (keys : List ℕ) → AreDistinct keys → AreDistinct (map (add_to offset) keys)
AreDistinct-shifted offset [] h = tt
AreDistinct-shifted offset (k ∷ keys) (new, h) =
    (absent-shifted offset k keys new, AreDistinct-shifted offset keys h)

-- Keys below the offset are no shifted keys.
below_absent :
    (offset k : ℕ) (keys : List ℕ) → k < offset → contains (map (add_to offset) keys) k ≡ false
below_absent offset k [] lt = refl
below_absent offset k (n ∷ keys) lt = ground (arith, below_absent offset k keys)

module _ (p : PdfObjects) where
  -- Each key has an entry.
  abbrev pub AreResolved : Dict ℕ p.Object → List ℕ → Type 0
  AreResolved entries keys =
      (k : ℕ) → contains keys k ≡ true → (v : p.Object) × (Dict.get entries k ≡ some v)

  pub AreResolved-All :
      (entries : Dict ℕ p.Object) (keys : List ℕ)
      → All (λ k. (v : p.Object) × (Dict.get entries k ≡ some v)) keys
      → AreResolved entries keys
  AreResolved-All entries [] h k c = absurd (ground arith)
  AreResolved-All entries (n ∷ keys) ((v, e), h) k c = elim (Bool-cases (k == n)) [
    | inl same ↦ (v, ap (Dict.get entries) ((eq_iff k n).0 same) ∙ e)
    | inr differs ↦ AreResolved-All entries keys h k (ground arith)
  ]

  -- A structure that the pages with these keys go with: it has a document, its parent tree can be
  -- read and has an entry for each key, and no key is used twice. Without a structure there is no key.
  unfoldable pub GoesWith : Option (Structure p.Object) → List ℕ → Type 0
  GoesWith none keys = keys ≡ []
  GoesWith (some root) keys =
      (entries : Dict ℕ p.Object) × (number_tree p root.parent_tree ≡ ok entries)
      × AreResolved entries keys
      × AreDistinct keys
      × HasDocument root

  unfoldable pub IsLinked : Pdf p.Object → Type 0
  IsLinked pdf = GoesWith pdf.structure (all_keys pdf.pages)

  pub written_entries :
      (root : Structure p.Object) (entries : Dict ℕ p.Object)
      → IsLawful p
      → (stored : Dict ℕ p.Object) × (number_tree p (write_number_tree p root entries).parent_tree
          ≡ ok stored)
        × ((k : ℕ) → Dict.get stored k ≡ Dict.get entries k)
  written_entries root entries law =
      let (stored, e, _) = number_tree-write_number_tree p entries root 0 law in
      (
        stored,
        e,
        λ k.
            let (other_read, f, same) = number_tree-write_number_tree p entries root k law in
            ap (λ d. Dict.get d k) (ok_injective (sym e ∙ f)) ∙ same,
      )

  pub get-pop_all :
      (entries : Dict ℕ p.Object) (keys : List ℕ) (k : ℕ)
      → contains keys k ≡ false
      → Dict.get (pop_all entries keys) k ≡ Dict.get entries k
  unfolding pop_all
  get-pop_all entries [] k c = refl
  get-pop_all entries (n ∷ keys) k c =
      ground (arith, get-remove entries n k, get-pop_all (Dict.remove entries n) keys k)

  -- The entries below the offset and the entries of the source's keys are those of the merged keys.
  pub AreResolved-copy_entries :
      (entries source_entries : Dict ℕ p.Object) (own keys : List ℕ)
      → AreResolved entries own
      → AreResolved source_entries keys
      → AreResolved
          (copy_entries p entries source_entries keys (next_of entries))
          (own ++ map (add_to (next_of entries)) keys)
  AreResolved-copy_entries entries source_entries own keys h hs k c =
      elim (Bool-cases (contains own k)) [
        | inl old ↦
            let (v, e) = h k old in
            (
              v,
              copy_entries-old p source_entries (next_of entries) keys entries k
                    (get-lt-next_of entries k e)
                  ∙ e,
            )
        | inr not_old ↦
            let shifted_key : contains (map (add_to (next_of entries)) keys) k ≡ true =
              ground (arith, contains-append own (map (add_to (next_of entries)) keys) k) in
            let (j, same, there) = contains-shifted (next_of entries) k keys shifted_key in
            let (v, e) = hs j there in
            (
              copied_value p v,
              ap (Dict.get (copy_entries p entries source_entries keys (next_of entries))) same
                  ∙ copy_entries-new p source_entries (next_of entries) keys entries j v there e,
            )
      ]

  pub AreApart-shifted :
      (entries : Dict ℕ p.Object) (own keys : List ℕ)
      → AreResolved entries own
      → AreApart own (map (add_to (next_of entries)) keys)
  AreApart-shifted entries [] keys h = tt
  AreApart-shifted entries (k ∷ own) keys h =
      let (v, e) = h k (ground (arith, eq_refl k)) in
      (
        below_absent (next_of entries) k keys (get-lt-next_of entries k e),
        AreApart-shifted entries own keys (λ j c. h j (ground arith)),
      )
