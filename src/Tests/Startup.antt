-- ===== src/Tests/Startup.antt =====
-- The settings and the probes at concrete inputs.
use bulk_processing_service.Base.{
  All, List, Option, [], arith, codes, if◌then◌else◌, leb, nat_eq, none, refl, some, text_eq, ℕ,
  ◌&&◌, ◌*◌, ◌++◌, ◌-◌, ◌∷◌, ◌≡◌,
}
use bulk_processing_service.Cleanup.Ttl.{invalid_ttl, parse_ttl, take_digits, ttl_of, unit_seconds}
use bulk_processing_service.Cleanup.Ttl.Laws.{
  IsDigitTable, TtlUnit, hours, letter, minutes, parse_ttl-decimal, seconds,
}
use bulk_processing_service.Probes.{check_weasyprint_reachable, reachable}
use bulk_processing_service.Probes.Laws.{IsFresh, answers, answers-IsFresh, unknown}
use bulk_processing_service.Storage.{Result, err, ok, os_error, value_error}
use bulk_processing_service.Strings.{is_space, lstrip, strip}
use bulk_processing_service.Strings.Decimal.{decimal}

abbrev ascii_digit : ℕ → Option ℕ
ascii_digit c = if leb b'0' c && leb c b'9' then some (c - b'0') else none

ascii_digit-IsDigitTable : IsDigitTable ascii_digit
ascii_digit-IsDigitTable = record {
  of_digit = λ c (lo, hi). ground arith;
  of_letter = λ unit. no_digit unit;
}
  where
    no_digit : (unit : TtlUnit) → ascii_digit (letter unit) ≡ none
    no_digit hours = refl
    no_digit minutes = refl
    no_digit seconds = refl

ninety : decimal 90 ≡ codes "90"
unfolding decimal
ninety = refl

parse_ttl-decimal_example :
    parse_ttl ascii_digit (decimal 90 ++ letter minutes ∷ []) ≡ ok (90 * 60 * 1000000)
parse_ttl-decimal_example =
    parse_ttl-decimal ascii_digit ascii_digit-IsDigitTable 90 minutes (rw ninety (omega arith))
      (omega arith)

-- A number without a unit is refused.
refuses_unit : parse_ttl ascii_digit (codes "90") ≡ err (value_error (invalid_ttl (codes "90")))
unfolding parse_ttl strip lstrip is_space take_digits ttl_of unit_seconds
refuses_unit = refl

-- WeasyPrint answers, and then does not; the second probe comes three seconds after the first.
abbrev calls : List (ℕ × Result ℕ)
calls = (10000000, ok 200) ∷ (13000000, err os_error) ∷ (16000000, err os_error) ∷ []

answers-IsFresh_example : All (IsFresh calls) (answers calls unknown)
answers-IsFresh_example = answers-IsFresh calls

answers_run :
    answers calls unknown
    ≡ (10000000, codes "available")
      ∷ (13000000, codes "available")
      ∷ (16000000, codes "unavailable")
      ∷ []
unfolding answers check_weasyprint_reachable reachable nat_eq
answers_run = refl
