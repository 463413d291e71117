-- ===== src/Strings/Integer.antt =====
-- Python's `int(text)` for texts of Latin-1 characters, as header values are: the only decimal digits
-- among these are those of ASCII.
use bulk_processing_service.Base.{
  Bool, Option, Text, [], eqb, false, if◌then◌else◌, leb, ltb, none, some, suc, true, zero, ℕ, ◌&&◌,
  ◌*◌, ◌+◌, ◌-◌, ◌∷◌,
}
use bulk_processing_service.Strings.{strip}
use mathlib.Core.Option

-- Integers, with the sign apart.
pub data ℤ : Type 0 where
  pos negsuc : ℕ → ℤ

abbrev is_digit : ℕ → Bool
is_digit c = leb b'0' c && leb c b'9'

-- The digits from here on, where single underscores may stand between two: their value and their
-- number. `after` tells whether a digit stands before.
unfoldable pub digits_from : Bool → ℕ → ℕ → Text → Option (ℕ × ℕ)
digits_from after v n [] = if after then some (v, n) else none
digits_from after v n (c ∷ t) = elim (is_digit c) [
  | true ↦ digits_from true (v * 10 + (c - b'0')) (n + 1) t
  | false ↦ elim (eqb c b'_' && after) [ true ↦ digits_from false v n t | false ↦ none ]
]

-- More than 4300 digits are refused.
unfoldable pub parse_digits : Text → Option ℕ
parse_digits t = elim (digits_from false 0 0 t) [
  | none ↦ none
  | some (v, n) ↦ if ltb 4300 n then none else some v
]

abbrev pub negated : ℕ → ℤ
negated zero = pos 0
negated (suc n) = negsuc n

unfoldable pub parse_signed : Text → Option ℤ
parse_signed [] = none
parse_signed (c ∷ t) =
    if eqb c b'-'
    then Option.map negated (parse_digits t)
    else if eqb c b'+'
    then Option.map pos (parse_digits t)
    else Option.map pos (parse_digits (c ∷ t))

-- `int(t)`, none where it raises `ValueError`
unfoldable pub parse_int : Text → Option ℤ
parse_int t = parse_signed (strip t)
