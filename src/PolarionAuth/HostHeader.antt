-- ===== src/PolarionAuth/HostHeader.antt =====
-- app/polarion_auth.py: `jwks_headers`, the host name that Polarion is asked under.
use bulk_processing_service.Base.{
  All, Bool, Bool-cases, Option, Text, [], arith, codes, eqb, false, if◌then◌else◌, inl, inr, leb,
  length, ltb, none, refl, some, true, ℕ, ◌&&◌, ◌||◌, ◌∷◌, ◌≡◌,
}
use bulk_processing_service.Base.Dict.{Dict}
use bulk_processing_service.Storage.{Result, err, ok, value_error}
use bulk_processing_service.Strings.{is_empty}
use mathlib.Core.Path.{subst}

-- `[A-Za-z\d.\-]`
abbrev pub is_digit_char : ℕ → Bool
is_digit_char c = leb b'0' c && leb c b'9'

abbrev pub is_name_char : ℕ → Bool
is_name_char c =
    (leb b'A' c && leb c b'Z')
    || (leb b'a' c && leb c b'z')
    || is_digit_char c
    || eqb c b'.'
    || eqb c b'-'

-- `[\dA-Fa-f:.]`
abbrev pub is_address_char : ℕ → Bool
is_address_char c =
    is_digit_char c
    || (leb b'A' c && leb c b'F')
    || (leb b'a' c && leb c b'f')
    || eqb c b':'
    || eqb c b'.'

unfoldable pub drop_while : (ℕ → Bool) → Text → Text
drop_while test [] = []
drop_while test (c ∷ t) = elim (test c) [ true ↦ drop_while test t | false ↦ c ∷ t ]

-- `\d{1,5}`
abbrev pub are_port_digits : Text → Bool
are_port_digits t = ltb 0 (length t) && (leb (length t) 5 && is_empty (drop_while is_digit_char t))

-- `(:\d{1,5})?` up to the end
abbrev pub is_port : Text → Bool
is_port [] = true
is_port (c ∷ t) = eqb c b':' && are_port_digits t

-- The first alternative: no character of its class is a colon, so the class takes all it can.
abbrev pub is_host_name : Text → Bool
is_host_name [] = false
is_host_name (c ∷ t) = is_name_char c && is_port (drop_while is_name_char t)

abbrev pub is_behind_address : Text → Bool
is_behind_address [] = false
is_behind_address (c ∷ t) = eqb c 0x5d && is_port t

abbrev pub is_inside_address : Text → Bool
is_inside_address [] = false
is_inside_address (c ∷ t) = is_address_char c && is_behind_address (drop_while is_address_char t)

-- The second alternative, an address in brackets.
abbrev pub is_address : Text → Bool
is_address [] = false
is_address (c ∷ t) = eqb c 0x5b && is_inside_address t

-- `_HOST_PATTERN.fullmatch`
unfoldable pub is_host : Text → Bool
is_host t = is_host_name t || is_address t

abbrev pub no_host : Text
no_host =
    codes "POLARION_JWKS_HOST has to be a host name or an address, with a port where there is one"

-- `jwks_headers`
unfoldable pub jwks_headers : Option Text → Result (Option (Dict Text Text))
jwks_headers none = ok none
jwks_headers (some host) =
    if is_host host then ok (some ((codes "Host", host) ∷ [])) else err (value_error no_host)

-- A character that a host name with its port may hold.
abbrev pub IsHostChar : ℕ → Type 0
IsHostChar c = (is_name_char c || (eqb c b':' || (eqb c 0x5b || eqb c 0x5d))) ≡ true

drop_in :
    (test : ℕ → Bool) (c : ℕ) (t : Text)
    → test c ≡ true
    → drop_while test (c ∷ t) ≡ drop_while test t
unfolding drop_while
drop_in test c t e = ground arith

drop_out : (test : ℕ → Bool) (c : ℕ) (t : Text) → test c ≡ false → drop_while test (c ∷ t) ≡ c ∷ t
unfolding drop_while
drop_out test c t e = ground arith

-- Where a class holds no other characters, it is enough to look behind what it takes.
before_rest :
    (test : ℕ → Bool)
    → ((c : ℕ) → test c ≡ true → IsHostChar c)
    → (t : Text) → All IsHostChar (drop_while test t)
    → All IsHostChar t
before_rest test inside [] h = tt
before_rest test inside (c ∷ t) h = elim (Bool-cases (test c)) [
  | inl taken ↦ (
    inside c taken,
    before_rest test inside t (subst (λ u. All IsHostChar u) (drop_in test c t taken) h),
  )
  | inr left ↦ subst (λ u. All IsHostChar u) (drop_out test c t left) h
]

empty_of : (t : Text) → is_empty t ≡ true → All IsHostChar t
empty_of [] e = tt
empty_of (c ∷ t) e = absurd (ground arith)

digit_inside : (c : ℕ) → is_digit_char c ≡ true → IsHostChar c
digit_inside c e = ground arith

name_inside : (c : ℕ) → is_name_char c ≡ true → IsHostChar c
name_inside c e = ground arith

address_inside : (c : ℕ) → is_address_char c ≡ true → IsHostChar c
address_inside c e = ground arith

both_hold : (a b : Bool) → (a && b) ≡ true → (a ≡ true) × (b ≡ true)
both_hold true b e = (refl, e)
both_hold false b e = absurd (ground arith)

port_digits_taken :
    (t : Text) → are_port_digits t ≡ true → is_empty (drop_while is_digit_char t) ≡ true
port_digits_taken t e = (both_hold (leb (length t) 5) _ (both_hold (ltb 0 (length t)) _ e).1).1

port_chars : (t : Text) → is_port t ≡ true → All IsHostChar t
port_chars [] e = tt
port_chars (c ∷ t) e = (
  ground arith,
  before_rest is_digit_char digit_inside t
      (empty_of (drop_while is_digit_char t) (port_digits_taken t (both_hold (eqb c b':') _ e).1)),
)

host_name_chars : (t : Text) → is_host_name t ≡ true → All IsHostChar t
host_name_chars [] e = absurd (ground arith)
host_name_chars (c ∷ t) e =
    let (first, rest) = both_hold (is_name_char c) _ e in
    (
      name_inside c first,
      before_rest is_name_char name_inside t (port_chars (drop_while is_name_char t) rest),
    )

behind_chars : (t : Text) → is_behind_address t ≡ true → All IsHostChar t
behind_chars [] e = absurd (ground arith)
behind_chars (c ∷ t) e =
    let (bracket, rest) = both_hold (eqb c 0x5d) _ e in (ground arith, port_chars t rest)

inside_chars : (t : Text) → is_inside_address t ≡ true → All IsHostChar t
inside_chars [] e = absurd (ground arith)
inside_chars (c ∷ t) e =
    let (first, rest) = both_hold (is_address_char c) _ e in
    (
      address_inside c first,
      before_rest is_address_char address_inside t
          (behind_chars (drop_while is_address_char t) rest),
    )

address_chars : (t : Text) → is_address t ≡ true → All IsHostChar t
address_chars [] e = absurd (ground arith)
address_chars (c ∷ t) e =
    let (bracket, rest) = both_hold (eqb c 0x5b) _ e in (ground arith, inside_chars t rest)

-- A host name that is accepted is sent as it is, and holds nothing but letters, digits, dots,
-- hyphens, colons and brackets, so no header can be broken out of.
pub jwks_headers-IsHostChar :
    (host : Text) (headers : Option (Dict Text Text))
    → jwks_headers (some host) ≡ ok headers
    → (headers ≡ some ((codes "Host", host) ∷ [])) × All IsHostChar host
unfolding jwks_headers is_host
jwks_headers-IsHostChar host headers e = elim (Bool-cases (is_host_name host)) [
  | inl named ↦ (ground arith, host_name_chars host named)
  | inr unnamed ↦ elim (Bool-cases (is_address host)) [
    | inl address ↦ (ground arith, address_chars host address)
    | inr neither ↦ absurd (ground arith)
  ]
]
