-- ===== src/Tests/KeySet.antt =====
-- The cleaning of a key set, and the host name it is asked under.
use bulk_processing_service.Base.{
  All, Option, Text, [], codes, nat_eq, refl, some, text_eq, ℕ, ◌∷◌, ◌≡◌,
}
use bulk_processing_service.Base.Dict.{Dict}
use bulk_processing_service.PolarionAuth.HostHeader.{
  IsHostChar, drop_while, is_host, jwks_headers, jwks_headers-IsHostChar,
}
use bulk_processing_service.PolarionAuth.KeySet.{
  JsonValue, array, object, as_jwk_set_payload, is_private, public_members,
}
use bulk_processing_service.Storage.{ok}
use bulk_processing_service.Base.Dict

-- A key of Polarion: its private member is there, as `null`, which is 0 here.
abbrev members : Dict Text ℕ
members = (codes "kty", 1) ∷ (codes "n", 2) ∷ (codes "d", 0) ∷ []

abbrev payload : Dict Text (JsonValue ℕ)
payload = (codes "keys", array (object members ∷ [])) ∷ []

payload_cleaned :
    as_jwk_set_payload payload
    ≡ (codes "keys", array (object ((codes "kty", 1) ∷ (codes "n", 2) ∷ []) ∷ [])) ∷ []
unfolding as_jwk_set_payload public_members is_private Dict.get Dict.put text_eq nat_eq
payload_cleaned = refl

abbrev with_port : Text
with_port = codes "polarion.example:8080"

abbrev sent : Option (Dict Text Text)
sent = some ((codes "Host", with_port) ∷ [])

with_port_run : jwks_headers (some with_port) ≡ ok (some ((codes "Host", with_port) ∷ []))
unfolding jwks_headers is_host drop_while
with_port_run = refl

jwks_headers-IsHostChar_example :
    (sent ≡ some ((codes "Host", with_port) ∷ [])) × All IsHostChar with_port
jwks_headers-IsHostChar_example = jwks_headers-IsHostChar with_port sent with_port_run
