-- ===== src/Disposition/Laws.antt =====
-- app/converter_controller.py: the characters of the `Content-Disposition` header.
use bulk_processing_service.Base.{
  All, All-append, Bool-cases, Bytes, Option-cases, Text, [], arith, codes, inl, inr, leb, ltb,
  refl, some, true, ℕ, ◌%◌, ◌&&◌, ◌++◌, ◌/◌, ◌<◌, ◌∷◌, ◌≡◌, ◌≢◌,
}
use bulk_processing_service.Disposition.{
  disposition, hex_digit, is_printable, is_unreserved, quote, quote_bytes, replace_forbidden,
  replace_unprintable, safe_name,
}
use bulk_processing_service.Storage.{ok}
use bulk_processing_service.Strings.Utf8.{utf8, utf8_char}

-- Characters that a quoted string may hold as they are.
abbrev pub IsQuotable : ℕ → Type 0
IsQuotable c = (is_printable c ≡ true) × (c ≢ 0x22) × (c ≢ 0x5c) × (c ≢ b'/')

safe_char : (c : ℕ) → IsQuotable (replace_unprintable (replace_forbidden c))
safe_char c = ground arith

-- Every character of the quoted name is printable ASCII and neither a quote, a backslash nor a
-- slash.
safe_name-IsQuotable : (t : Text) → All IsQuotable (safe_name t)
unfolding safe_name
safe_name-IsQuotable [] = tt
safe_name-IsQuotable (c ∷ t) = (safe_char c, safe_name-IsQuotable t)

-- A name of harmless characters is kept as it is.
pub safe_name-keeps : (t : Text) → All IsQuotable t → safe_name t ≡ t
unfolding safe_name
safe_name-keeps [] h = refl
safe_name-keeps (c ∷ t) (h, hs) = ground (arith, safe_name-keeps t hs)

abbrev pub IsByte : ℕ → Type 0
IsByte b = b < 256

abbrev pub IsPrintable : ℕ → Type 0
IsPrintable c = is_printable c ≡ true

hex_digit-IsPrintable : (n : ℕ) → n < 16 → IsPrintable (hex_digit n)
hex_digit-IsPrintable n h = ground arith

quote_bytes-IsPrintable : (bytes : Bytes) → All IsByte bytes → All IsPrintable (quote_bytes bytes)
unfolding quote_bytes
quote_bytes-IsPrintable [] h = tt
quote_bytes-IsPrintable (b ∷ bytes) (h, hs) = elim (Bool-cases (is_unreserved b)) [
  | inl plain ↦ rw plain (ground arith, quote_bytes-IsPrintable bytes hs)
  | inr escaped ↦ rw escaped (
    refl,
    (
      hex_digit-IsPrintable (b / 16) (omega arith),
      (hex_digit-IsPrintable (b % 16) (omega arith), quote_bytes-IsPrintable bytes hs),
    ),
  )
]

abbrev pub IsCodePoint : ℕ → Type 0
IsCodePoint c = c < 0x110000

-- The bytes of one character.
char_bytes-IsByte :
    (c : ℕ) (bytes : Bytes) → IsCodePoint c → utf8_char c ≡ some bytes → All IsByte bytes
char_bytes-IsByte c bytes h e = elim (Bool-cases (ltb c 0x80)) [
  | inl a ↦ ground arith
  | inr a ↦ elim (Bool-cases (ltb c 0x800)) [
    | inl b ↦ ground arith
    | inr b ↦ elim (Bool-cases (leb 0xd800 c && leb c 0xdfff)) [
      | inl s ↦ absurd (ground arith)
      | inr s ↦ elim (Bool-cases (ltb c 0x10000)) [ inl d ↦ ground arith | inr d ↦ ground arith ]
    ]
  ]
]

utf8-IsByte :
    (t : Text) (bytes : Bytes) → All IsCodePoint t → utf8 t ≡ some bytes → All IsByte bytes
unfolding utf8
utf8-IsByte [] bytes h e = ground arith
utf8-IsByte (c ∷ t) bytes (h, hs) e = elim (Option-cases (utf8_char c)) [
  | inl none_c ↦ absurd (ground arith)
  | inr (x, ex) ↦ elim (Option-cases (utf8 t)) [
    | inl none_t ↦ absurd (ground arith)
    | inr (y, ey) ↦
        let joined : x ++ y ≡ bytes = ground arith in
        rw (← joined) (All-append IsByte x y (char_bytes-IsByte c x h ex) (utf8-IsByte t y hs ey))
  ]
]

IsPrintable-IsPrintable : (t : Text) → All IsQuotable t → All IsPrintable t
IsPrintable-IsPrintable [] h = tt
IsPrintable-IsPrintable (c ∷ t) (h, hs) = (h.0, IsPrintable-IsPrintable t hs)

-- For every file name of Unicode code points that has an encoding, the header is printable ASCII,
-- so it holds no line break and can be sent as Latin-1.
pub disposition-IsPrintable :
    (file_name ext : Text)
    → All IsCodePoint file_name
    → quote file_name ≡ ok ext
    → All IsPrintable (disposition (safe_name file_name) ext)
unfolding disposition
disposition-IsPrintable file_name ext h e = elim (Option-cases (utf8 file_name)) [
  | inl fails ↦ absurd (ground arith)
  | inr (bytes, works) ↦
      let quoted : quote_bytes bytes ≡ ext = ground arith in
      let tail : All IsPrintable ext =
        rw (← quoted) (quote_bytes-IsPrintable bytes (utf8-IsByte file_name bytes h works)) in
      All-append IsPrintable (codes "attachment; filename=\"") _ (ground arith) (
        All-append IsPrintable (safe_name file_name) _
          (IsPrintable-IsPrintable _ (safe_name-IsQuotable file_name))
          (All-append IsPrintable (codes "\"; filename*=UTF-8''") ext (ground arith) tail))
]
