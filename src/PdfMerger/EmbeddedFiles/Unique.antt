-- ===== src/PdfMerger/EmbeddedFiles/Unique.antt =====
-- app/pdf_merger.py: the loop of `_unique_name`.
use bulk_processing_service.Base.{
  Bool-cases, List, Option, Text, [], ap, arith, codes, contains, eq_iff, false, if◌then◌else◌, inl,
  inr, length, length-append, nat_eq, refl, some, suc, sym, text_eq, true, zero, ℕ, ◌++◌, ◌+◌, ◌<◌,
  ◌==◌, ◌∙◌, ◌∷◌, ◌≡◌, ◌≤◌,
}
use bulk_processing_service.PdfMerger.EmbeddedFiles.{free_name, numbered, unique_name}
use bulk_processing_service.Strings.Decimal.{
  decimal, digits_value, digits_value-append, digits_value-decimal,
}

without : Text → List Text → List Text
without x [] = []
without x (t ∷ ts) = let rest = without x ts in if t == x then rest else t ∷ rest

contains-without :
    (x : Text) (ts : List Text) (t : Text)
    → contains (without x ts) t ≡ (if t == x then false else contains ts t)
unfolding without
contains-without x [] t = ground arith
contains-without x (s ∷ ts) t = ground (arith, contains-without x ts t)

length-without-le : (x : Text) (ts : List Text) → length (without x ts) ≤ length ts
unfolding without
length-without-le x [] = omega arith
length-without-le x (s ∷ ts) = ground (arith, length-without-le x ts)

length-without-lt :
    (x : Text) (ts : List Text) → contains ts x ≡ true → length (without x ts) < length ts
unfolding without
length-without-lt x [] h = absurd (ground arith)
length-without-lt x (s ∷ ts) h = ground (arith, length-without-lt x ts, length-without-le x ts)

append_cancel : (p s t : Text) → p ++ s ≡ p ++ t → s ≡ t
append_cancel [] s t e = e
append_cancel (c ∷ p) s t e = append_cancel p s t (cc)

-- The names that the loop tries, in their order.
candidate : Text → ℕ → Text
candidate name zero = name
candidate name (suc i) = numbered name (i + 2)

numbered_longer : (name : Text) (n : ℕ) → length name < length (numbered name n)
unfolding numbered
numbered_longer name n = omega (arith, length-append name (codes " (" ++ (decimal n ++ codes ")")))

numbered_injective : (name : Text) (m n : ℕ) → numbered name m ≡ numbered name n → m ≡ n
unfolding numbered digits_value
numbered_injective name m n e =
    let tails = append_cancel (codes " (") _ _ (append_cancel name _ _ e) in
    let values = ap (digits_value 0) tails in
    omega (
      arith,
      values,
      digits_value-append 0 (decimal m) (codes ")"),
      digits_value-append 0 (decimal n) (codes ")"),
      digits_value-decimal m,
      digits_value-decimal n,
    )

candidate_injective : (name : Text) (i j : ℕ) → candidate name i ≡ candidate name j → i ≡ j
unfolding candidate
candidate_injective name zero zero e = refl
candidate_injective name zero (suc j) e =
    absurd (omega (arith, ap length e, numbered_longer name (j + 2)))
candidate_injective name (suc i) zero e =
    absurd (omega (arith, ap length e, numbered_longer name (i + 2)))
candidate_injective name (suc i) (suc j) e =
    omega (arith, numbered_injective name (i + 2) (j + 2) e)

free_name_step :
    (rounds n : ℕ) (name c : Text) (taken : List Text)
    → contains taken c ≡ true
    → free_name (suc rounds) name taken n c ≡ free_name rounds name taken (n + 1) (numbered name n)
unfolding free_name
free_name_step rounds n name c taken e = ground arith

free_name_stop :
    (rounds n : ℕ) (name c : Text) (taken : List Text)
    → contains taken c ≡ false
    → free_name (suc rounds) name taken n c ≡ some c
unfolding free_name
free_name_stop rounds n name c taken e = ground arith

-- The search from candidate `i` on.
search_from : Text → ℕ → ℕ → List Text → Option Text
search_from name rounds i taken = free_name rounds name taken (i + 2) (candidate name i)

search_from_next :
    (name : Text) (rounds i : ℕ) (taken : List Text)
    → contains taken (candidate name i) ≡ true
    → search_from name (suc rounds) i taken ≡ search_from name rounds (suc i) taken
unfolding search_from free_name candidate
search_from_next name rounds i taken e =
    let same : i + 2 + 1 ≡ suc i + 2 = omega arith in
    free_name_step rounds (i + 2) name (candidate name i) taken e
    ∙ ap (λ n. free_name rounds name taken n (numbered name (i + 2))) same

search_from_free :
    (name : Text) (rounds i : ℕ) (taken : List Text)
    → contains taken (candidate name i) ≡ false
    → search_from name (suc rounds) i taken ≡ some (candidate name i)
unfolding search_from free_name
search_from_free name rounds i taken e =
    free_name_stop rounds (i + 2) name (candidate name i) taken e

-- The search depends on the names that it still tries, and on no others.
search_from_agree :
    (name : Text) (rounds i : ℕ) (taken taken' : List Text)
    → ((j : ℕ) → i ≤ j → contains taken (candidate name j) ≡ contains taken' (candidate name j))
    → search_from name rounds i taken ≡ search_from name rounds i taken'
unfolding search_from free_name
search_from_agree name zero i taken taken' same = refl
search_from_agree name (suc rounds) i taken taken' same =
    elim (Bool-cases (contains taken (candidate name i))) [
      | inl held ↦
          search_from_next name rounds i taken held
          ∙ search_from_agree name rounds (suc i) taken taken' (λ j le. same j (omega arith))
          ∙ sym (search_from_next name rounds i taken' (sym (same i (omega arith)) ∙ held))
      | inr open_name ↦
          search_from_free name rounds i taken open_name
          ∙ sym (search_from_free name rounds i taken' (sym (same i (omega arith)) ∙ open_name))
    ]

-- What a search finds: a candidate from `i` on that is not taken.
abbrev Finds : Text → ℕ → List Text → Option Text → Type 0
Finds name i taken o =
    (j : ℕ) × (i ≤ j) × (o ≡ some (candidate name j)) × (contains taken (candidate name j) ≡ false)

others_kept :
    (name : Text) (taken : List Text) (i j : ℕ)
    → suc i ≤ j
    → contains (without (candidate name i) taken) (candidate name j)
      ≡ contains taken (candidate name j)
others_kept name taken i j le = elim (Bool-cases (candidate name j == candidate name i)) [
  | inl same ↦ absurd (omega (arith, candidate_injective name j i ((eq_iff _ _).0 same)))
  | inr differs ↦ contains-without (candidate name i) taken (candidate name j) ∙ rw differs refl
]

-- With one round more than there are taken names, the search finds one: each taken candidate is
-- left behind for good.
search_from-Finds :
    (name : Text) (rounds i : ℕ) (taken : List Text)
    → length taken < rounds
    → Finds name i taken (search_from name rounds i taken)
search_from-Finds name zero i taken lt = absurd (omega arith)
search_from-Finds name (suc rounds) i taken lt =
    elim (Bool-cases (contains taken (candidate name i))) [
      | inr open_name ↦ (i, omega arith, search_from_free name rounds i taken open_name, open_name)
      | inl held ↦
          let others = without (candidate name i) taken in
          let shorter = length-without-lt (candidate name i) taken held in
          let (j, le, found, free) =
            search_from-Finds name rounds (suc i) others (omega (arith, shorter)) in
          (
            j,
            omega arith,
            search_from_next name rounds i taken held
                ∙ search_from_agree name rounds (suc i) taken others
                    (λ k lk. sym (others_kept name taken i k lk))
                ∙ found,
            sym (others_kept name taken i j le) ∙ free,
          )
    ]

-- A free name is always found, within one round more than there are taken names.
pub unique_name_free :
    (name : Text) (taken : List Text)
    → (t : Text) × (unique_name name taken ≡ some t) × (contains taken t ≡ false)
unfolding unique_name search_from candidate
unique_name_free name taken =
    let (j, le, found, free) = search_from-Finds name (length taken + 1) 0 taken (omega arith) in
    (candidate name j, found, free)
