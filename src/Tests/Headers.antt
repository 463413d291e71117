-- ===== src/Tests/Headers.antt =====
-- The headers of requests and replies at concrete inputs.
use bulk_processing_service.Base.{
  All, Text, [], arith, codes, false, nat_eq, none, refl, some, text_eq, true, ◌++◌, ◌∷◌, ◌≡◌,
}
use bulk_processing_service.Base.Dict.{Dict}
use bulk_processing_service.Disposition.{disposition, quote, quote_bytes, safe_name}
use bulk_processing_service.Disposition.Laws.{IsPrintable, disposition-IsPrintable}
use bulk_processing_service.Models.{DocumentConversionParams}
use bulk_processing_service.Paths.{strip_prefix}
use bulk_processing_service.Storage.{ok}
use bulk_processing_service.Strings.Utf8.{utf8}
use bulk_processing_service.WeasyprintClient.{
  content, flag, HttpRequest, WeasyprintClient, flag, is_https, query_params, render_request,
  request_headers,
}
use bulk_processing_service.WeasyprintClient.Laws.{key_header, render_request-protects}
use bulk_processing_service.Base.Dict

abbrev secure_client : WeasyprintClient
secure_client = record { base_url = codes "https://w"; api_key = some (codes "k") }

abbrev pub plain_params : DocumentConversionParams
plain_params = record {
  encoding = codes "utf-8";
  media_type = codes "print";
  presentational_hints = true;
  base_url = none;
  scale_factor = none;
  pdf_variant = none;
  custom_metadata = false;
  full_fonts = false;
}

abbrev secure_request : HttpRequest
secure_request = record {
  url = codes "https://w/convert/html";
  headers =
      (codes "Accept", codes "application/pdf")
      ∷ (codes "Content-Type", codes "text/html")
      ∷ (codes "X-API-Key", codes "k")
      ∷ [];
  query =
      (codes "presentational_hints", flag true)
      ∷ (codes "custom_metadata", flag false)
      ∷ (codes "full_fonts", flag false)
      ∷ [];
  body = content (codes "<p>");
}

secure_run : render_request secure_client (codes "<p>") plain_params [] ≡ ok secure_request
unfolding render_request request_headers query_params utf8 Dict.put text_eq nat_eq strip_prefix
secure_run = refl

key_of_request : key_header secure_request.headers ≡ some (codes "k")
unfolding Dict.get text_eq nat_eq
key_of_request = refl

render_request-protects_example :
    (is_https (codes "https://w/convert/html") ≡ true)
    × (codes "https://w/convert/html" ≡ codes "https://w" ++ codes "/convert/html")
    × (some (codes "k") ≡ some (codes "k"))
render_request-protects_example =
    render_request-protects secure_client (codes "<p>") plain_params [] secure_request (codes "k")
      secure_run key_of_request

-- A title with a quote, an en dash and a line break.
abbrev title : Text
title = b'a' ∷ 0x22 ∷ 0x2013 ∷ 0x0a ∷ []

title_run : quote title ≡ ok (codes "a%22%E2%80%93%0A")
unfolding utf8 quote_bytes
title_run = refl

disposition-IsPrintable_example :
    All IsPrintable (disposition (safe_name title) (codes "a%22%E2%80%93%0A"))
disposition-IsPrintable_example =
    disposition-IsPrintable title (codes "a%22%E2%80%93%0A")
      (omega arith, (omega arith, (omega arith, (omega arith, tt)))) title_run
