-- ===== src/Strings/Utf8.antt =====
-- `t.encode("utf-8")`, none where a surrogate makes it raise `UnicodeEncodeError`.
use bulk_processing_service.Base.{
  Bytes, Option, Text, [], if◌then◌else◌, leb, ltb, none, some, ℕ, ◌%◌, ◌&&◌, ◌++◌, ◌+◌, ◌/◌, ◌∷◌,
}

abbrev pub utf8_char : ℕ → Option Bytes
utf8_char c =
    if ltb c 0x80
    then some (c ∷ [])
    else if ltb c 0x800
    then some ((0xc0 + c / 64) ∷ (0x80 + c % 64) ∷ [])
    else if leb 0xd800 c && leb c 0xdfff
    then none
    else if ltb c 0x10000
    then some ((0xe0 + c / 4096) ∷ (0x80 + c / 64 % 64) ∷ (0x80 + c % 64) ∷ [])
    else some
        ((0xf0 + c / 262144) ∷ (0x80 + c / 4096 % 64) ∷ (0x80 + c / 64 % 64) ∷ (0x80 + c % 64) ∷ [])

unfoldable pub utf8 : Text → Option Bytes
utf8 [] = some []
utf8 (c ∷ t) =
    let rest = utf8 t in
    elim (utf8_char c) [
      | none ↦ none
      | some bytes ↦ elim rest [ none ↦ none | some others ↦ some (bytes ++ others) ]
    ]
