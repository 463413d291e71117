-- ===== src/PdfMerger/EmbeddedFiles/Sorting.antt =====
-- app/pdf_merger.py: the entries of a name tree, sorted by their names.
use bulk_processing_service.Base.{
  AreDistinct, Bool, List, Text, [], ap, arith, contains, eq_iff, false, if◌then◌else◌, nat_eq,
  refl, text_eq, true, ℕ, ◌++◌, ◌+◌, ◌==◌, ◌||◌, ◌∙◌, ◌∷◌, ◌≡◌,
}
use bulk_processing_service.PdfMerger.EmbeddedFiles.{
  insert_entry, names_of, sorted_entries, text_le,
}

module _ {V : Type 0} where
  contains-insert_entry :
      (name : Text) (v : V) (entries : List (Text × V)) (n : Text)
      → contains (names_of (insert_entry (name, v) entries)) n
        ≡ (n == name || contains (names_of entries) n)
  unfolding insert_entry
  contains-insert_entry name v [] n = refl
  contains-insert_entry name v ((other_name, w) ∷ entries) n =
      ground (arith, contains-insert_entry name v entries n)

  AreDistinct-if :
      (b : Bool) (xs ys : List (Text × V))
      → AreDistinct (names_of xs)
      → AreDistinct (names_of ys)
      → AreDistinct (names_of (if b then xs else ys))
  AreDistinct-if true xs ys h k = h
  AreDistinct-if false xs ys h k = k

  AreDistinct-insert_entry :
      (name : Text) (v : V) (entries : List (Text × V))
      → contains (names_of entries) name ≡ false
      → AreDistinct (names_of entries)
      → AreDistinct (names_of (insert_entry (name, v) entries))
  unfolding insert_entry
  AreDistinct-insert_entry name v [] new h = (refl, tt)
  AreDistinct-insert_entry name v ((other_name, w) ∷ entries) new (absent, h) =
      AreDistinct-if (text_le name other_name) _ _ (new, (absent, h))
        (
          ground (arith, contains-insert_entry name v entries other_name, eq_iff name other_name),
          AreDistinct-insert_entry name v entries (ground arith) h,
        )

  contains-sorted_entries :
      (entries : List (Text × V)) (n : Text)
      → contains (names_of (sorted_entries entries)) n ≡ contains (names_of entries) n
  unfolding sorted_entries
  contains-sorted_entries [] n = refl
  contains-sorted_entries ((name, v) ∷ entries) n =
      contains-insert_entry name v (sorted_entries entries) n
      ∙ ap (λ b. n == name || b) (contains-sorted_entries entries n)

  pub AreDistinct-sorted_entries :
      (entries : List (Text × V))
      → AreDistinct (names_of entries)
      → AreDistinct (names_of (sorted_entries entries))
  unfolding sorted_entries
  AreDistinct-sorted_entries [] h = tt
  AreDistinct-sorted_entries ((name, v) ∷ entries) (new, h) =
      AreDistinct-insert_entry name v (sorted_entries entries)
        (contains-sorted_entries entries name ∙ new) (AreDistinct-sorted_entries entries h)

  -- What the files count for together, each by a number of its own: two lists hold the same files,
  -- each as often, where this is the same for all numbers.
  abbrev pub total : (V → ℕ) → List (Text × V) → ℕ
  total f [] = 0
  total f ((name, v) ∷ entries) = f v + total f entries

  total-insert_entry :
      (f : V → ℕ) (name : Text) (v : V) (entries : List (Text × V))
      → total f (insert_entry (name, v) entries) ≡ f v + total f entries
  unfolding insert_entry
  total-insert_entry f name v [] = refl
  total-insert_entry f name v ((other_name, w) ∷ entries) =
      ground (arith, total-insert_entry f name v entries)

  pub total-sorted_entries :
      (f : V → ℕ) (entries : List (Text × V)) → total f (sorted_entries entries) ≡ total f entries
  unfolding sorted_entries
  total-sorted_entries f [] = refl
  total-sorted_entries f ((name, v) ∷ entries) =
      omega (
        arith,
        total-insert_entry f name v (sorted_entries entries),
        total-sorted_entries f entries,
      )

  pub total-append :
      (f : V → ℕ) (xs ys : List (Text × V)) → total f (xs ++ ys) ≡ total f xs + total f ys
  total-append f [] ys = omega arith
  total-append f ((name, v) ∷ xs) ys = omega (arith, total-append f xs ys)

  pub names_of-append : (xs ys : List (Text × V)) → names_of (xs ++ ys) ≡ names_of xs ++ names_of ys
  names_of-append [] ys = refl
  names_of-append ((name, v) ∷ xs) ys = ap (λ l. name ∷ l) (names_of-append xs ys)
