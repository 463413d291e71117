-- ===== src/Tests/Frame.antt =====
-- The calls for one job and the directory of another.
use bulk_processing_service.Base.{
  List, Text, [], ap, arith, codes, nat_eq, none, refl, sym, text_eq, ℕ, ◌∙◌, ◌∷◌, ◌≡◌, ◌≢◌,
}
use bulk_processing_service.JobManager.Calls.{Call, run}
use bulk_processing_service.JobManager.Frame.{run-keeps}
use bulk_processing_service.JobManager.Frame.Parts.{node_at}
use bulk_processing_service.Paths.{all_job_digits, is_valid_job_id, job_dir, strip_prefix}
use bulk_processing_service.Storage.{Result, ok}
use bulk_processing_service.Tests.Codec.{host}
use bulk_processing_service.Tests.Jobs.{one, params, path}

abbrev other_id : Text
other_id = codes "aaaaaaaaaaaaaaaaaaaaaaaaaaaaaaaa"

abbrev other_path : Text
other_path = codes "/jobs/aaaaaaaaaaaaaaaaaaaaaaaaaaaaaaaa"

other_dir : job_dir host other_id ≡ ok other_path
unfolding job_dir is_valid_job_id all_job_digits strip_prefix nat_eq
other_dir = refl

abbrev other_calls : List (Text × Call)
other_calls =
    (other_id, Call.start params none 30)
    ∷ (other_id, Call.add_document (5 ∷ []) 40)
    ∷ (other_id, Call.finish 50)
    ∷ (other_id, Call.delete)
    ∷ []

-- The first character of a job's name in the path that was found.
abbrev mark : Result Text → ℕ
mark (ok (a ∷ b ∷ c ∷ d ∷ e ∷ f ∷ g ∷ rest)) = g
mark _ = 0

elsewhere : (p : Text) → job_dir host other_id ≡ ok p → p ≢ path
elsewhere p e z =
    let m : 97 ≡ 48 = ap mark (sym other_dir ∙ e ∙ ap ok z) in absurd (omega (arith, m))

run-keeps_example : node_at path (run host other_calls one) ≡ node_at path one
run-keeps_example =
    run-keeps host path other_calls one (elsewhere, (elsewhere, (elsewhere, (elsewhere, tt))))
