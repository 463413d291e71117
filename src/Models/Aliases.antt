-- ===== src/Models/Aliases.antt =====
-- app/models.py: the names of the fields in JSON. The names are ASCII, and so are the methods of
-- `str` here.
use bulk_processing_service.Base.{
  List, Text, [], codes, if◌then◌else◌, leb, map, refl, ℕ, ◌&&◌, ◌++◌, ◌-◌, ◌∷◌, ◌≡◌,
}
use bulk_processing_service.Strings.{lower_char, split_on}

abbrev upper_char : ℕ → ℕ
upper_char c = if leb b'a' c && leb c b'z' then c - 32 else c

-- `word.capitalize()`
unfoldable pub capitalize : Text → Text
capitalize [] = []
capitalize (c ∷ t) = upper_char c ∷ map lower_char t

unfoldable pub capitalized : List Text → Text
capitalized [] = []
capitalized (t ∷ ts) = capitalize t ++ capitalized ts

abbrev pub first_as_is : List Text → Text
first_as_is [] = []
first_as_is (t ∷ ts) = t ++ capitalized ts

-- `_to_camel_case`
unfoldable pub to_camel_case : Text → Text
to_camel_case field_name = first_as_is (split_on b'_' field_name)

file_name_alias : to_camel_case (codes "file_name") ≡ codes "fileName"
unfolding to_camel_case split_on capitalized capitalize
file_name_alias = refl

presentational_hints_alias :
    to_camel_case (codes "presentational_hints") ≡ codes "presentationalHints"
unfolding to_camel_case split_on capitalized capitalize
presentational_hints_alias = refl
