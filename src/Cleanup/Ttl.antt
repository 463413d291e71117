-- ===== src/Cleanup/Ttl.antt =====
-- app/cleanup.py: `parse_ttl`. `digit` is the value of a decimal digit, of which Unicode has more than
-- those of ASCII.
pub mod Laws
use bulk_processing_service.Base.{
  Option, Text, [], codes, eqb, if◌then◌else◌, ltb, map, none, some, ℕ, ◌*◌, ◌++◌, ◌+◌, ◌/◌, ◌∷◌,
}
use bulk_processing_service.Models.{Time}
use bulk_processing_service.Storage.{Result, err, ok, other_error, value_error}
use bulk_processing_service.Strings.{lower_char, lstrip, strip}
use bulk_processing_service.Strings.Decimal.{decimal}

-- `(\d+)`, or no digit: their value, their number, and what follows them.
unfoldable pub take_digits : (ℕ → Option ℕ) → ℕ → ℕ → Text → ℕ × ℕ × Text
take_digits digit v n [] = (v, n, [])
take_digits digit v n (c ∷ t) = elim (digit c) [
  | none ↦ (v, n, c ∷ t)
  | some d ↦ take_digits digit (v * 10 + d) (n + 1) t
]

-- `[hms]` at the end, as a number of seconds.
unfoldable pub unit_seconds : Text → Option ℕ
unit_seconds [] = none
unit_seconds (c ∷ d ∷ t) = none
unit_seconds (c ∷ []) =
    if eqb c b'h'
    then some 3600
    else if eqb c b'm'
    then some 60
    else if eqb c b's'
    then some 1
    else none

abbrev pub invalid_ttl : Text → Text
invalid_ttl value =
    codes "Invalid TTL format: '" ++ (value ++ codes "'. Expected format like '3h', '30m', '3600s'")

-- `int` refuses more than 4300 digits.
abbrev pub too_many_digits : ℕ → Text
too_many_digits n =
    codes "Exceeds the limit (4300 digits) for integer string conversion: value has "
    ++ (decimal n ++ codes " digits; use sys.set_int_max_str_digits() to increase the limit")

-- `timedelta`, in microseconds: more than 999999999 days raise `OverflowError`.
unfoldable pub duration : ℕ → Result Time
duration seconds =
    if ltb 999999999 (seconds / 86400) then err other_error else ok (seconds * 1000000)

unfoldable pub ttl_of : Text → ℕ × ℕ × Text → Result Time
ttl_of value (amount, n, rest) = elim (unit_seconds (lstrip rest)) [
  | none ↦ err (value_error (invalid_ttl value))
  | some seconds ↦
      if eqb n 0
      then err (value_error (invalid_ttl value))
      else if ltb 4300 n
      then err (value_error (too_many_digits n))
      else duration (amount * seconds)
]

-- `parse_ttl`
unfoldable pub parse_ttl : (ℕ → Option ℕ) → Text → Result Time
parse_ttl digit value = ttl_of value (take_digits digit 0 0 (map lower_char (strip value)))
