-- ===== src/Disposition.antt =====
-- app/converter_controller.py: the file name of a result in the `Content-Disposition` header.
pub mod Laws
use bulk_processing_service.Base.{
  Bool, Bytes, Text, [], codes, eqb, if◌then◌else◌, leb, ltb, map, none, some, ℕ, ◌%◌, ◌&&◌, ◌++◌,
  ◌+◌, ◌-◌, ◌/◌, ◌||◌, ◌∷◌,
}
use bulk_processing_service.Storage.{Result, err, ok, value_error}
use bulk_processing_service.Strings.Utf8.{utf8}
use bulk_processing_service.WeasyprintClient.{encoded}

-- `re.sub(r'[\x00-\x1f"\\/]', "_", file_name)`, one character
abbrev pub is_forbidden : ℕ → Bool
is_forbidden c = leb c 0x1f || eqb c 0x22 || eqb c 0x5c || eqb c b'/'

-- `re.sub(r"[^\x20-\x7e]", "_", safe_name)`, one character
abbrev pub is_printable : ℕ → Bool
is_printable c = leb 0x20 c && leb c 0x7e

abbrev pub replace_forbidden : ℕ → ℕ
replace_forbidden c = if is_forbidden c then b'_' else c

abbrev pub replace_unprintable : ℕ → ℕ
replace_unprintable c = if is_printable c then c else b'_'

unfoldable pub safe_name : Text → Text
safe_name file_name = map replace_unprintable (map replace_forbidden file_name)

-- The characters that `quote` leaves as they are.
abbrev pub is_unreserved : ℕ → Bool
is_unreserved c =
    (leb b'A' c && leb c b'Z')
    || (leb b'a' c && leb c b'z')
    || (leb b'0' c && leb c b'9')
    || eqb c b'_'
    || eqb c b'.'
    || eqb c b'-'
    || eqb c b'~'

abbrev pub hex_digit : ℕ → ℕ
hex_digit n = if ltb n 10 then b'0' + n else b'A' + (n - 10)

unfoldable pub quote_bytes : Bytes → Text
quote_bytes [] = []
quote_bytes (b ∷ bytes) =
    let rest = quote_bytes bytes in
    if is_unreserved b then b ∷ rest else b'%' ∷ hex_digit (b / 16) ∷ hex_digit (b % 16) ∷ rest

-- `quote(file_name, safe="")`
abbrev pub quote : Text → Result Text
quote t = elim (utf8 t) [
  | none ↦ err (value_error (codes "surrogates not allowed"))
  | some bytes ↦ ok (quote_bytes bytes)
]

unfoldable pub disposition : Text → Text → Text
disposition safe encoded =
    codes "attachment; filename=\"" ++ (safe ++ (codes "\"; filename*=UTF-8''" ++ encoded))
