-- ===== src/Tests/Forms.antt =====
-- A document that comes in a form, for a job with one document.
use bulk_processing_service.Base.{
  List, Option, Text, [], codes, if◌then◌else◌, inl, nat_eq, none, refl, some, text_eq, ◌==◌, ◌∷◌,
  ◌≡◌,
}
use bulk_processing_service.Controller.{reply}
use bulk_processing_service.Controller.Forms.{
  Form, FormValue, Loader, attachments_of, default_params, read_form, read_params, text_value,
  upload,
}
use bulk_processing_service.Models.{AddDocumentRequest}
use bulk_processing_service.WeasyprintClient.{Attachment}

abbrev form_fields : Text → Option FormValue
form_fields name =
    if name == codes "html"
    then some (text_value (codes "<p>"))
    else if name == codes "coverPageHtml"
    then some (upload none (1 ∷ []))
    else none

-- The cover page is a file, which is not taken for one.
abbrev one_form : Form
one_form = record {
  get = form_fields;
  getlist = λ name. upload (some (codes "a.xml")) (7 ∷ []) ∷ text_value (codes "x") ∷ [];
}

abbrev no_params : Loader
no_params t = inl (codes "no JSON")

abbrev form_body : AddDocumentRequest
form_body = record { html = codes "<p>"; cover_page_html = none; params = default_params }

abbrev form_files : List Attachment
form_files = record { file_name = codes "a.xml"; content = 7 ∷ [] } ∷ []

one_form_read : read_form no_params one_form ≡ reply (form_body, form_files)
unfolding read_form read_params attachments_of text_eq
one_form_read = refl
