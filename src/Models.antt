-- ===== src/Models.antt =====
-- app/models.py: the data of a merge job and of a request.
pub mod Aliases
use bulk_processing_service.Base.{Bool, Option, Text, ℕ}

-- `JobStatus`
pub data JobStatus : Type 0 where
  active completed : JobStatus

-- `MergeJobStartParams`
pub record MergeJobStartParams : Type 0 where
  pub file_name : Text
  pub pdf_variant : Option Text

-- `DocumentConversionParams`
pub record DocumentConversionParams : Type 0 where
  pub encoding : Text
  pub media_type : Text
  pub presentational_hints : Bool
  pub base_url : Option Text
  pub scale_factor : Option Text
  pub pdf_variant : Option Text
  pub custom_metadata : Bool
  pub full_fonts : Bool

-- `AddDocumentRequest`
pub record AddDocumentRequest : Type 0 where
  pub html : Text
  pub cover_page_html : Option Text
  pub params : DocumentConversionParams

-- A `datetime` is its distance in microseconds from a fixed instant, a `timedelta` a number of
-- microseconds.
abbrev pub Time : Type 0
Time = ℕ

-- `JobMetadata`
pub record JobMetadata : Type 0 where
  pub job_id : Text
  pub status : JobStatus
  pub created_at : Time
  pub updated_at : Option Time
  pub completed_at : Option Time
  pub params : MergeJobStartParams
  pub initiator_hash : Option Text
  pub pdf_count : ℕ
  pub failed_count : ℕ
