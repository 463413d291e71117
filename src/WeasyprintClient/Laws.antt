-- ===== src/WeasyprintClient/Laws.antt =====
-- app/weasyprint_client.py: where the API key is sent.
use bulk_processing_service.Base.{
  Bool-cases, Bytes, List, Option, Option-cases, Text, [], arith, codes, eq_refl, inl, inr, map,
  nat_eq, none, refl, some, text_eq, true, ◌++◌, ◌==◌, ◌∷◌, ◌≡◌, ◌⊎◌,
}
use bulk_processing_service.Base.Dict.{Dict, get-put}
use bulk_processing_service.Models.{DocumentConversionParams}
use bulk_processing_service.Paths.{starts_with, strip_prefix}
use bulk_processing_service.Storage.{Error, Result, err, ok}
use bulk_processing_service.Strings.{lower_char}
use bulk_processing_service.WeasyprintClient.{
  Attachment, HttpRequest, WeasyprintClient, content_headers, encoded, is_https, render_request,
  request_headers, truthy,
}
use bulk_processing_service.Base.Dict
use mathlib.Core.List.{map-append}

abbrev pub key_header : Dict Text Text → Option Text
key_header headers = Dict.get headers (codes "X-API-Key")

no_key : (o : Option Text) → key_header (content_headers o) ≡ none
unfolding Dict.get text_eq
no_key none = refl
no_key (some t) = refl

put_key :
    (headers : Dict Text Text) (secret : Text)
    → key_header (Dict.put headers (codes "X-API-Key") secret) ≡ some secret
put_key headers secret =
    rw (get-put headers (codes "X-API-Key") (codes "X-API-Key") secret, eq_refl (codes "X-API-Key"))

Guarded : WeasyprintClient → Dict Text Text → Type 0
Guarded w headers =
    (secret : Text)
    → key_header headers ≡ some secret
    → (is_https w.base_url ≡ true) × (truthy w.api_key ≡ some secret)

request_headers-Guarded :
    (w : WeasyprintClient) (ct : Option Text) (headers : Dict Text Text)
    → request_headers w ct ≡ ok headers
    → Guarded w headers
unfolding request_headers Guarded
request_headers-Guarded w ct headers e secret k = elim (Option-cases (truthy w.api_key)) [
  | inl unset ↦ absurd (ground (arith, no_key (truthy ct)))
  | inr (s, set) ↦ elim (Bool-cases (is_https w.base_url)) [
    | inl secure ↦ (secure, ground (arith, put_key (content_headers (truthy ct)) s))
    | inr plain ↦ absurd (ground arith)
  ]
]

headers_cases : {A : Type 0} (r : Result A) → ((x : Error) × (r ≡ err x)) ⊎ ((a : A) × (r ≡ ok a))
headers_cases (ok a) = inr (a, refl)
headers_cases (err x) = inl (x, refl)

encoded_cases :
    (t : Text) → ((x : Error) × (encoded t ≡ err x)) ⊎ ((b : Bytes) × (encoded t ≡ ok b))
encoded_cases t = headers_cases (encoded t)

-- Where documents are rendered, without attachments and with some.
abbrev pub convert_path : List Attachment → Text
convert_path [] = codes "/convert/html"
convert_path (a ∷ attachments) = codes "/convert/html-with-attachments"

starts_with-++ :
    (prefix t suffix : Text) → starts_with t prefix ≡ true → starts_with (t ++ suffix) prefix ≡ true
unfolding strip_prefix
starts_with-++ [] t suffix h = refl
starts_with-++ (c ∷ prefix) [] suffix h = absurd cc
starts_with-++ (c ∷ prefix) (d ∷ t) suffix h = elim (Bool-cases (c == d)) [
  | inl same ↦ rw (starts_with, same) (starts_with-++ prefix t suffix (ground arith))
  | inr differ ↦ absurd (ground arith)
]

is_https-++ : (t suffix : Text) → is_https t ≡ true → is_https (t ++ suffix) ≡ true
is_https-++ t suffix h =
    rw (map-append lower_char t suffix)
      (starts_with-++ (codes "https://") (map lower_char t) (map lower_char suffix) h)

request_url :
    (w : WeasyprintClient) (html : Text) (params : DocumentConversionParams)
    (attachments : List Attachment) (r : HttpRequest)
    → render_request w html params attachments ≡ ok r
    → r.url ≡ w.base_url ++ convert_path attachments
unfolding render_request
request_url w html params [] r e = elim (encoded_cases html) [
  | inl (x, fails) ↦ absurd (ground arith)
  | inr (bytes, works) ↦ elim (headers_cases (request_headers w (some (codes "text/html")))) [
    | inl (x, g) ↦ absurd (ground arith)
    | inr (headers, g) ↦ ground arith
  ]
]
request_url w html params (a ∷ attachments) r e = elim (headers_cases (request_headers w none)) [
  | inl (x, g) ↦ absurd (ground arith)
  | inr (headers, g) ↦ ground arith
]

request_headers-render_request :
    (w : WeasyprintClient) (html : Text) (params : DocumentConversionParams)
    (attachments : List Attachment) (r : HttpRequest)
    → render_request w html params attachments ≡ ok r
    → Guarded w r.headers
unfolding render_request Guarded
request_headers-render_request w html params [] r e secret k = elim (encoded_cases html) [
  | inl (x, fails) ↦ absurd (ground arith)
  | inr (bytes, works) ↦ elim (headers_cases (request_headers w (some (codes "text/html")))) [
    | inl (x, g) ↦ absurd (ground arith)
    | inr (headers, g) ↦ request_headers-Guarded w _ headers g secret (ground arith)
  ]
]
request_headers-render_request w html params (a ∷ attachments) r e secret k =
    elim (headers_cases (request_headers w none)) [
      | inl (x, g) ↦ absurd (ground arith)
      | inr (headers, g) ↦ request_headers-Guarded w none headers g secret (ground arith)
    ]

-- A request that carries an API key goes to an https address, which is the base address of the
-- client with the path for the attachments there are, and the key is the configured one.
pub render_request-protects :
    (w : WeasyprintClient) (html : Text) (params : DocumentConversionParams)
    (attachments : List Attachment) (r : HttpRequest) (secret : Text)
    → render_request w html params attachments ≡ ok r
    → key_header r.headers ≡ some secret
    → (is_https r.url ≡ true)
      × (r.url ≡ w.base_url ++ convert_path attachments)
      × (truthy w.api_key ≡ some secret)
unfolding Guarded
render_request-protects w html params attachments r secret e k =
    let goes = request_url w html params attachments r e in
    let (secure, set) = request_headers-render_request w html params attachments r e secret k in
    (rw goes (is_https-++ w.base_url (convert_path attachments) secure), goes, set)
