-- ===== src/Strings.antt =====
-- The methods of Python's `str` that the service uses, on lists of code points.
pub mod Decimal
pub mod Utf8
pub mod Integer
use bulk_processing_service.Base.{
  Bool, List, Text, [], eqb, false, if◌then◌else◌, leb, true, ℕ, ◌&&◌, ◌+◌, ◌||◌, ◌∷◌,
}
use mathlib.Core.List.{reverse}

-- `str.isspace` of one character, the class that `\s` matches too.
unfoldable pub is_space : ℕ → Bool
is_space c =
    (leb 9 c && leb c 13)
    || (leb 28 c && leb c 32)
    || eqb c 0x85
    || eqb c 0xa0
    || eqb c 0x1680
    || (leb 0x2000 c && leb c 0x200a)
    || eqb c 0x2028
    || eqb c 0x2029
    || eqb c 0x202f
    || eqb c 0x205f
    || eqb c 0x3000

unfoldable pub lstrip : Text → Text
lstrip [] = []
lstrip (c ∷ t) = elim (is_space c) [ true ↦ lstrip t | false ↦ c ∷ t ]

-- `t.strip()`
unfoldable pub strip : Text → Text
strip t = reverse (lstrip (reverse (lstrip t)))

-- `t.split(sep)` for a separator of one character.
unfoldable pub split_on : ℕ → Text → List Text
split_on at [] = [] ∷ []
split_on at (c ∷ t) =
    let rest = split_on at t in
    elim (eqb c at) [
      | true ↦ [] ∷ rest
      | false ↦ elim rest [ [] ↦ (c ∷ []) ∷ [] | part ∷ parts ↦ (c ∷ part) ∷ parts ]
    ]

-- `not t`, for a text or a list
abbrev pub is_empty {ℓ} : {A : Type ℓ} → List A → Bool
is_empty [] = true
is_empty (x ∷ xs) = false

-- `c.lower()` as far as a comparison with an ASCII text goes.
abbrev pub lower_char : ℕ → ℕ
lower_char c = if leb b'A' c && leb c b'Z' then c + 32 else c
