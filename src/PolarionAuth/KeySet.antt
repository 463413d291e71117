-- ===== src/PolarionAuth/KeySet.antt =====
-- app/polarion_auth.py: `PolarionJwkClient`, which cleans the key set of Polarion.
use bulk_processing_service.Base.{
  Bool, List, Option, Text, [], ap, arith, codes, contains, false, if◌then◌else◌, map, nat_eq, none,
  some, text_eq, true, ◌==◌, ◌∙◌, ◌∷◌, ◌≡◌,
}
use bulk_processing_service.Base.Dict.{Dict, get-put}
use bulk_processing_service.Base.Dict

-- The JSON that the cleaning looks into, over any type of other values: the entries of an array, and
-- the values of the payload.
pub data Item (V : Type 0) : Type 0 where
  object : Dict Text V → Item V
  scalar : V → Item V

pub data JsonValue (V : Type 0) : Type 0 where
  array : List (Item V) → JsonValue V
  single : V → JsonValue V

-- `_PRIVATE_MEMBERS`
abbrev pub private_members : List Text
private_members =
    codes "d" ∷ codes "p" ∷ codes "q" ∷ codes "dp" ∷ codes "dq" ∷ codes "qi" ∷ codes "oth" ∷ []

-- `field in _PRIVATE_MEMBERS`
unfoldable pub is_private : Text → Bool
is_private field = contains private_members field

module _ {V : Type 0} where
  unfoldable pub public_members : Dict Text V → Dict Text V
  public_members [] = []
  public_members ((field, v) ∷ members) =
      let others = public_members members in
      elim (is_private field) [ true ↦ others | false ↦ (field, v) ∷ others ]

  abbrev pub clean_item : Item V → Item V
  clean_item (object members) = object (public_members members)
  clean_item (scalar v) = scalar v

  abbrev pub clean_keys : Dict Text (JsonValue V) → Option (JsonValue V) → Dict Text (JsonValue V)
  clean_keys payload none = payload
  clean_keys payload (some (single v)) = payload
  clean_keys payload (some (array items)) =
      Dict.put payload (codes "keys") (array (map clean_item items))

  -- `_as_jwk_set_payload`, of the payload that the library has checked
  unfoldable pub as_jwk_set_payload : Dict Text (JsonValue V) → Dict Text (JsonValue V)
  as_jwk_set_payload payload = clean_keys payload (Dict.get payload (codes "keys"))

  get-public_members :
      (members : Dict Text V) (name : Text)
      → Dict.get (public_members members) name
        ≡ (if is_private name then none else Dict.get members name)
  unfolding public_members Dict.get
  get-public_members [] name = ground arith
  get-public_members ((field, v) ∷ members) name = ground (arith, get-public_members members name)

  cleaned_lem :
      (payload : Dict Text (JsonValue V)) (items : List (Item V))
      → Dict.get payload (codes "keys") ≡ some (array items)
      → as_jwk_set_payload payload ≡ Dict.put payload (codes "keys") (array (map clean_item items))
  unfolding as_jwk_set_payload
  cleaned_lem payload items e = ap (clean_keys payload) e

  -- Where the payload has a list of keys, the cleaned one has the same keys, each with the members
  -- that are not private and no others, and is the payload everywhere else.
  as_jwk_set_payload_lem :
      (payload : Dict Text (JsonValue V)) (items : List (Item V)) (members : Dict Text V)
      (name : Text)
      → Dict.get payload (codes "keys") ≡ some (array items)
      → (Dict.get (as_jwk_set_payload payload) name ≡ (
          if codes "keys" == name
          then some (array (map clean_item items))
          else Dict.get payload name))
        × (Dict.get (public_members members) name
            ≡ (if is_private name then none else Dict.get members name))
  as_jwk_set_payload_lem payload items members name e = (
    ap (λ p. Dict.get p name) (cleaned_lem payload items e)
        ∙ get-put payload (codes "keys") name (array (map clean_item items)),
    get-public_members members name,
  )
