-- ===== src/LogText.antt =====
-- app/constants.py: `sanitize_for_log`, for values that come from outside.
pub mod Laws
use bulk_processing_service.Base.{
  Bool, Text, [], eqb, false, if◌then◌else◌, leb, map, true, ℕ, ◌||◌, ◌∷◌,
}

-- `[\x00-\x1f\x7f]`
abbrev pub is_control : ℕ → Bool
is_control c = leb c 0x1f || eqb c 0x7f

-- `value.replace(old, " ")`, for one character
abbrev pub blank : ℕ → ℕ → ℕ
blank old c = if eqb c old then b' ' else c

unfoldable pub without_control : Text → Text
without_control [] = []
without_control (c ∷ t) =
    let rest = without_control t in elim (is_control c) [ true ↦ rest | false ↦ c ∷ rest ]

-- `sanitize_for_log`
unfoldable pub sanitize_for_log : Text → Text
sanitize_for_log t = without_control (map (blank 0x0d) (map (blank 0x0a) t))
