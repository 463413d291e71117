-- ===== src/Tests/Endpoints.antt =====
-- The endpoints at a job with one document.
use bulk_processing_service.Base.{
  Option, [], codes, false, nat_eq, none, refl, some, text_eq, true, ◌++◌, ◌∷◌, ◌≡◌,
}
use bulk_processing_service.Controller.{
  Renderer, add_document, delete_merge_job, finish_merge_job, job_missing, render_document,
}
use bulk_processing_service.Controller.Access.{Hidden, handlers-Hidden, of_another}
use bulk_processing_service.Controller.Documents.{Meets, add_spec}
use bulk_processing_service.Controller.Endpoints.{add_document-Meets}
use bulk_processing_service.Controller.Finish.{Finishes, finish_merge_job-Finishes, finish_spec}
use bulk_processing_service.JobManager.{metadata_at, result_of}
use bulk_processing_service.Models.{AddDocumentRequest}
use bulk_processing_service.PolarionAuth.{Principal, may_use_job}
use bulk_processing_service.Storage.{ok}
use bulk_processing_service.Tests.Codec.{host, host-IsLawful}
use bulk_processing_service.Tests.Headers.{plain_params}
use bulk_processing_service.Tests.Jobs.{
  batch_one, id, metadata_one, one, one-IsFree, one-Represents, path,
}

abbrev pub renderer : Renderer
renderer = record {
  service_url = none;
  api_key = [];
  post = λ r. ok (9 ∷ []);
  count_pages = λ pdf. ok 1;
  replace_cover = λ pdf cover. ok (cover ++ pdf);
}

abbrev pub request : AddDocumentRequest
request = record { html = codes "<p>"; cover_page_html = none; params = plain_params }

-- The user who started the job, and one who did not.
abbrev pub owner : Option Principal
owner = some (record { user_hash = codes "u"; job = some id })

abbrev stranger : Option Principal
stranger = some (record { user_hash = codes "v"; job = some id })

stored : metadata_at host one path ≡ ok (some metadata_one)
unfolding one metadata_at
stored = refl

of_owner : may_use_job owner id metadata_one ≡ true
unfolding may_use_job text_eq nat_eq
of_owner = refl

not_of_stranger : may_use_job stranger id metadata_one ≡ false
unfolding may_use_job text_eq nat_eq
not_of_stranger = refl

Hidden-one : Hidden host stranger id one
Hidden-one = of_another path metadata_one one-IsFree.path_of stored not_of_stranger

handlers-Hidden_example :
    (add_document host renderer stranger id request [] 30 one ≡ (job_missing id, one))
    × (finish_merge_job host stranger id 30 one ≡ (job_missing id, one))
    × (delete_merge_job host stranger id one ≡ (job_missing id, one))
handlers-Hidden_example = handlers-Hidden host stranger id one renderer request [] 30 Hidden-one

add_document-Meets_example :
    Meets host path
      (add_spec id (render_document renderer request []) batch_one)
      (add_document host renderer owner id request [] 30 one)
add_document-Meets_example =
    add_document-Meets host host-IsLawful id one one-IsFree one-Represents owner of_owner renderer
      request [] 30

finish_merge_job-Finishes_example :
    Finishes host id path
      (finish_spec (result_of path) host.merge batch_one)
      (finish_merge_job host owner id 30 one)
finish_merge_job-Finishes_example =
    finish_merge_job-Finishes host host-IsLawful id one one-IsFree one-Represents owner 30 of_owner
