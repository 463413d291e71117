-- ===== src/Cleanup/Ttl/Laws.antt =====
-- app/cleanup.py: `parse_ttl` of a number that was written in decimal.
use bulk_processing_service.Base.{
  All, Option, Text, [], ap, arith, false, length, map, none, refl, some, sym, ℕ, ◌*◌, ◌++◌, ◌+◌,
  ◌-◌, ◌/◌, ◌∙◌, ◌∷◌, ◌≡◌, ◌≤◌,
}
use bulk_processing_service.Cleanup.Ttl.{duration, parse_ttl, take_digits, ttl_of, unit_seconds}
use bulk_processing_service.Storage.{ok}
use bulk_processing_service.Strings.{is_space, lower_char, lstrip, strip}
use bulk_processing_service.Strings.Decimal.{
  IsDigit, decimal, decimal-AreDigits, digits_value, digits_value-decimal, length-decimal-positive,
}
use mathlib.Core.List.{map-append, reverse, reverse-append, reverse-reverse}
use mathlib.Core.Path.{ap₂}

-- The units, by their letters and their seconds.
pub data TtlUnit : Type 0 where
  hours minutes seconds : TtlUnit

abbrev pub letter : TtlUnit → ℕ
letter hours = b'h'
letter minutes = b'm'
letter seconds = b's'

abbrev pub seconds_of : TtlUnit → ℕ
seconds_of hours = 3600
seconds_of minutes = 60
seconds_of seconds = 1

lstrip_bare : (c : ℕ) (t : Text) → is_space c ≡ false → lstrip (c ∷ t) ≡ c ∷ t
unfolding lstrip
lstrip_bare c t e = ground arith

-- Where no blank stands at the start or the end, nothing is stripped.
strip_bare :
    (c : ℕ) (t : Text) (d : ℕ)
    → is_space c ≡ false
    → is_space d ≡ false
    → strip ((c ∷ t) ++ d ∷ []) ≡ (c ∷ t) ++ d ∷ []
unfolding strip
strip_bare c t d e f =
    ap (λ l. reverse (lstrip (reverse l))) (lstrip_bare c (t ++ d ∷ []) e)
    ∙ ap (λ l. reverse (lstrip l)) (reverse-append (c ∷ t) (d ∷ []))
    ∙ ap reverse (lstrip_bare d (reverse (c ∷ t)) f)
    ∙ ap reverse (sym (reverse-append (c ∷ t) (d ∷ [])))
    ∙ reverse-reverse ((c ∷ t) ++ d ∷ [])

digit-not_space : (c : ℕ) → IsDigit c → is_space c ≡ false
unfolding is_space
digit-not_space c (lo, hi) = ground arith

letter-not_space : (unit : TtlUnit) → is_space (letter unit) ≡ false
unfolding is_space
letter-not_space hours = refl
letter-not_space minutes = refl
letter-not_space seconds = refl

lower-digits : (ds : Text) → All IsDigit ds → map lower_char ds ≡ ds
lower-digits [] h = refl
lower-digits (c ∷ ds) ((lo, hi), h) = ap₂ ◌∷◌ (ground arith) (lower-digits ds h)

lower-letter : (unit : TtlUnit) → lower_char (letter unit) ≡ letter unit
lower-letter hours = refl
lower-letter minutes = refl
lower-letter seconds = refl

-- The digits of ASCII have their values, and the letters of the units are no digits.
pub record IsDigitTable (digit : ℕ → Option ℕ) : Type 0 where
  pub of_digit : (c : ℕ) → IsDigit c → digit c ≡ some (c - b'0')
  pub of_letter : (unit : TtlUnit) → digit (letter unit) ≡ none

module _ (digit : ℕ → Option ℕ) (table : IsDigitTable digit) where
  take_digits-digits :
      (v n : ℕ) (ds : Text) (unit : TtlUnit)
      → All IsDigit ds
      → take_digits digit v n (ds ++ letter unit ∷ [])
        ≡ (digits_value v ds, n + length ds, letter unit ∷ [])
  unfolding take_digits digits_value
  take_digits-digits v n [] unit h =
      ap (λ o. elim o [ none ↦ (v, n, letter unit ∷ []) | some d ↦ (v * 10 + d, n + 1, []) ])
        (table.of_letter unit)
      ∙ ap (λ k. (v, k, letter unit ∷ [])) (omega arith)
  take_digits-digits v n (c ∷ ds) unit (is_digit, h) =
      ap
        (λ o. elim o [
          | none ↦ (v, n, c ∷ ds ++ letter unit ∷ [])
          | some d ↦ take_digits digit (v * 10 + d) (n + 1) (ds ++ letter unit ∷ [])
        ])
        (table.of_digit c is_digit)
      ∙ take_digits-digits (v * 10 + (c - b'0')) (n + 1) ds unit h
      ∙ ap (λ k. (digits_value (v * 10 + (c - b'0')) ds, k, letter unit ∷ [])) (omega arith)

  bare_text :
      (ds : Text) (unit : TtlUnit)
      → All IsDigit ds
      → 1 ≤ length ds
      → map lower_char (strip (ds ++ letter unit ∷ [])) ≡ ds ++ letter unit ∷ []
  bare_text [] unit h le = absurd (omega arith)
  bare_text (c ∷ ds) unit (is_digit, h) le =
      ap (map lower_char)
        (strip_bare c ds (letter unit) (digit-not_space c is_digit) (letter-not_space unit))
      ∙ map-append lower_char (c ∷ ds) (letter unit ∷ [])
      ∙ ap₂ (λ xs x. xs ++ x ∷ []) (lower-digits (c ∷ ds) (is_digit, h)) (lower-letter unit)

  ttl_of_unit :
      (value : Text) (amount n : ℕ) (unit : TtlUnit)
      → 1 ≤ n
      → n ≤ 4300
      → amount * seconds_of unit / 86400 ≤ 999999999
      → ttl_of value (amount, n, letter unit ∷ []) ≡ ok (amount * seconds_of unit * 1000000)
  unfolding ttl_of unit_seconds duration lstrip is_space
  ttl_of_unit value amount n hours lo hi fits = ground arith
  ttl_of_unit value amount n minutes lo hi fits = ground arith
  ttl_of_unit value amount n seconds lo hi fits = ground arith

  -- Where digits of ASCII are read as their values and the letters of units are no digits: a number in
  -- decimal with the letter of a unit is read as that many units, where the number has at most 4300
  -- digits and the time at most 999999999 days.
  pub parse_ttl-decimal :
      (n : ℕ) (unit : TtlUnit)
      → length (decimal n) ≤ 4300
      → n * seconds_of unit / 86400 ≤ 999999999
      → parse_ttl digit (decimal n ++ letter unit ∷ []) ≡ ok (n * seconds_of unit * 1000000)
  unfolding parse_ttl
  parse_ttl-decimal n unit hi fits =
      let text = decimal n ++ letter unit ∷ [] in
      ap (λ t. ttl_of text (take_digits digit 0 0 t))
        (bare_text (decimal n) unit (decimal-AreDigits n) (length-decimal-positive n))
      ∙ ap (ttl_of text) (take_digits-digits 0 0 (decimal n) unit (decimal-AreDigits n))
      ∙ ap₂ (λ v k. ttl_of text (v, k, letter unit ∷ [])) (digits_value-decimal n) (omega arith)
      ∙ ttl_of_unit text n (length (decimal n)) unit (length-decimal-positive n) hi fits
