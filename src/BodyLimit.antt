-- ===== src/BodyLimit.antt =====
-- app/app.py: `BodySizeLimitMiddleware`, which bounds the body of a request before the application
-- sees it.
pub mod Laws
use bulk_processing_service.Base.{
  Bool, Bytes, List, Option, Text, [], codes, false, if◌then◌else◌, length, ltb, none, some, true,
  ℕ, ◌++◌, ◌∷◌,
}
use bulk_processing_service.Strings.Decimal.{decimal}
use bulk_processing_service.Strings.Integer.{negsuc, parse_int, pos, ℤ}

-- What `receive` returns: an `http.request` with its body and `more_body`, or another message.
pub data Message : Type 0 where
  request : Bytes → Bool → Message
  disconnect : Message

-- How a call ends: the application gets the connection as it is, the request is rejected, the
-- application gets a body as one message and then what `receive` still has, or the client sends
-- nothing more while the middleware waits.
pub data Handled : Type 0 where
  passed_on : List Message → Handled
  rejected_with : ℕ → Text → Handled
  forwarded : Bytes → List Message → Handled
  stalls : Handled

-- `_too_large_message`
abbrev pub too_large_message : ℕ → Text
too_large_message max = codes "Request body too large (limit: " ++ (decimal max ++ codes " bytes)")

abbrev pub too_large : ℕ → Handled
too_large max = rejected_with 413 (too_large_message max)

-- The loop that reads the body.
unfoldable pub read_body : ℕ → Bytes → List Message → Handled
read_body max body [] = stalls
read_body max body (disconnect ∷ messages) = forwarded body messages
read_body max body (request chunk more_body ∷ messages) = elim (ltb max (length (body ++ chunk))) [
  | true ↦ too_large max
  | false ↦ elim more_body [
    | true ↦ read_body max (body ++ chunk) messages
    | false ↦ forwarded (body ++ chunk) messages
  ]
]

-- `declared > self.max_bytes`
abbrev pub exceeds : ℤ → ℕ → Bool
exceeds (pos n) max = ltb max n
exceeds (negsuc n) max = false

unfoldable pub with_length : ℕ → Option ℤ → List Message → Handled
with_length max none messages = rejected_with 400 (codes "Invalid Content-Length header")
with_length max (some declared) messages =
    if exceeds declared max then too_large max else read_body max [] messages

-- `__call__`, with the messages that the client sends
unfoldable pub handle : ℕ → Bool → Option Text → List Message → Handled
handle max false content_length messages = passed_on messages
handle max true none messages = read_body max [] messages
handle max true (some content_length) messages = with_length max (parse_int content_length) messages
