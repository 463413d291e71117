-- ===== src/WeasyprintClient.antt =====
-- app/weasyprint_client.py: the request that renders HTML to a PDF. Sending it is a parameter,
-- `post`, which also raises for an error status.
pub mod Laws
use bulk_processing_service.Base.{
  Bool, Bytes, List, Option, Text, [], codes, eqb, false, if◌then◌else◌, map, nat_eq, none, some,
  text_eq, true, ◌++◌, ◌∷◌,
}
use bulk_processing_service.Base.Dict.{Dict}
use bulk_processing_service.Models.{DocumentConversionParams}
use bulk_processing_service.Paths.{starts_with}
use bulk_processing_service.Storage.{Result, err, ok, value_error}
use bulk_processing_service.Strings.{lower_char}
use bulk_processing_service.Strings.Utf8.{utf8}
use bulk_processing_service.Base.Dict
use mathlib.Core.List.{reverse}

-- `Attachment`
pub record Attachment : Type 0 where
  pub file_name : Text
  pub content : Bytes

pub data Body : Type 0 where
  content : Bytes → Body
  form : Text → List Attachment → Body

pub data QueryValue : Type 0 where
  flag : Bool → QueryValue
  value : Text → QueryValue

pub record HttpRequest : Type 0 where
  pub url : Text
  pub headers : Dict Text Text
  pub query : Dict Text QueryValue
  pub body : Body

-- `WeasyPrintClient`
pub record WeasyprintClient : Type 0 where
  pub base_url : Text
  pub api_key : Option Text

unfoldable pub lstrip_slashes : Text → Text
lstrip_slashes [] = []
lstrip_slashes (c ∷ t) = elim (eqb c b'/') [ true ↦ lstrip_slashes t | false ↦ c ∷ t ]

-- `base_url.rstrip("/")`
unfoldable pub rstrip_slashes : Text → Text
rstrip_slashes t = reverse (lstrip_slashes (reverse t))

-- `__init__`
unfoldable pub make_client : Text → Option Text → WeasyprintClient
make_client base_url api_key = record { base_url = rstrip_slashes base_url; api_key = api_key }

abbrev pub is_https : Text → Bool
is_https url = starts_with (map lower_char url) (codes "https://")

-- A text that Python takes for true.
abbrev pub truthy : Option Text → Option Text
truthy none = none
truthy (some []) = none
truthy (some (c ∷ t)) = some (c ∷ t)

abbrev pub plain_http : Text
plain_http =
    codes
      "The WeasyPrint API key is not sent over plain http. Set WEASYPRINT_SERVICE_URL to an https address, or clear WEASYPRINT_API_KEY where the service needs no key."

abbrev pub content_headers : Option Text → Dict Text Text
content_headers none = (codes "Accept", codes "application/pdf") ∷ []
content_headers (some t) =
    (codes "Accept", codes "application/pdf") ∷ (codes "Content-Type", t) ∷ []

-- `_request_headers`
unfoldable pub request_headers : WeasyprintClient → Option Text → Result (Dict Text Text)
request_headers w content_type =
    let headers = content_headers (truthy content_type) in
    elim (truthy w.api_key) [
      | none ↦ ok headers
      | some secret ↦
          if is_https w.base_url
          then ok (Dict.put headers (codes "X-API-Key") secret)
          else err (value_error plain_http)
    ]

abbrev pub put_truthy : Text → Option Text → Dict Text QueryValue → Dict Text QueryValue
put_truthy name none q = q
put_truthy name (some v) q = Dict.put q name (value v)

unfoldable pub query_params : DocumentConversionParams → Dict Text QueryValue
query_params p = put_truthy (codes "scale_factor") (truthy p.scale_factor) (
    put_truthy (codes "pdf_variant") (truthy p.pdf_variant) (
      (codes "presentational_hints", flag p.presentational_hints)
      ∷ (codes "custom_metadata", flag p.custom_metadata)
      ∷ (codes "full_fonts", flag p.full_fonts)
      ∷ []))

abbrev pub with_headers :
    Result (Dict Text Text) → (Dict Text Text → HttpRequest) → Result HttpRequest
with_headers (ok headers) make = ok (make headers)
with_headers (err e) make = err e

abbrev pub encoded : Text → Result Bytes
encoded t = elim (utf8 t) [
  | none ↦ err (value_error (codes "surrogates not allowed"))
  | some bytes ↦ ok bytes
]

-- The request of `convert_html_to_pdf`.
unfoldable pub render_request :
    WeasyprintClient → Text → DocumentConversionParams → List Attachment → Result HttpRequest
render_request w html params [] = elim (encoded html) [
  | err e ↦ err e
  | ok bytes ↦ with_headers (request_headers w (some (codes "text/html"))) λ headers. record {
    url = w.base_url ++ codes "/convert/html";
    headers = headers;
    query = query_params params;
    body = content bytes;
  }
]
render_request w html params (a ∷ attachments) = with_headers (request_headers w none) λ headers.
    record {
      url = w.base_url ++ codes "/convert/html-with-attachments";
      headers = headers;
      query = query_params params;
      body = form html (a ∷ attachments);
    }

-- `convert_html_to_pdf`
unfoldable pub convert_html_to_pdf :
    (HttpRequest → Result Bytes)
    → WeasyprintClient
    → Text
    → DocumentConversionParams
    → List Attachment
    → Result Bytes
convert_html_to_pdf post w html params attachments =
    elim (render_request w html params attachments) [ ok r ↦ post r | err e ↦ err e ]
