-- ===== src/Cleanup/Sweep.antt =====
-- app/cleanup.py: the sweep as a whole, `_run_cleanup`.
use bulk_processing_service.Base.{
  All, List, Text, [], ap, contains, nat_eq, none, refl, some, sym, text_eq, ◌++◌, ◌+◌, ◌<◌, ◌∙◌,
  ◌∷◌, ◌≡◌, ◌≢◌,
}
use bulk_processing_service.Cleanup.{
  cleanup_active_job, cleanup_completed_job, cleanup_each, cleanup_job, run_cleanup, swallowed,
}
use bulk_processing_service.Cleanup.Calm.{Alike, Alike-trans, IsCalm}
use bulk_processing_service.Cleanup.Laws.{cleanup_completed_job-deletes}
use bulk_processing_service.Cleanup.Others.{cleanup_job-Calm}
use bulk_processing_service.JobManager.{list_jobs}
use bulk_processing_service.Locks.Laws.{IsFree}
use bulk_processing_service.Models.{JobMetadata, Time, active, completed}
use bulk_processing_service.Paths.{Host, job_dir}
use bulk_processing_service.Results.{after}
use bulk_processing_service.Storage.{
  JobDir, None, Outcome, Storage, continue, dir_at, dir_in, directory, ok, raises, returns, waits,
}
use mathlib.Core.List.{append-nil}

-- A job that shares neither its id nor its path with the job `j` at the path `q`.
abbrev pub IsElsewhere : Host → Text → Text → JobMetadata → Type 0
IsElsewhere h j q m = (m.job_id ≢ j) × ((path : Text) → job_dir h m.job_id ≡ ok path → path ≢ q)

module _ (h : Host) (j q : Text) (now ttl : Time) where
  swallowed-returns :
      (s : Storage) (p : Outcome None × Storage)
      → IsCalm j q s p
      → (t : Storage) × (swallowed p ≡ (returns tt, t)) × Alike j q t s
  swallowed-returns s (returns tt, t) (calm, alike) = (t, refl, alike)
  swallowed-returns s (raises e, t) (calm, alike) = (t, refl, alike)
  swallowed-returns s (waits, t) (calm, alike) = absurd (calm refl)

  -- The sweep of other jobs comes to an end, and goes on with what looks the same to the job.
  sweep_others :
      (jobs : List JobMetadata) (s : Storage)
      → All (IsElsewhere h j q) jobs
      → (t : Storage) × Alike j q t s
        × ((more : List JobMetadata)
            → cleanup_each h (jobs ++ more) now ttl s ≡ cleanup_each h more now ttl t)
  unfolding cleanup_each
  sweep_others [] s none_left = (s, (refl, refl, refl), λ more. refl)
  sweep_others (m ∷ jobs) s ((differs, unlike), rest) =
      let (t, e, alike) =
        swallowed-returns s (cleanup_job h m now ttl s)
          (cleanup_job-Calm h j q m differs unlike now ttl s) in
      let (u, alike', step) = sweep_others jobs t rest in
      (
        u,
        Alike-trans j q u t s alike' alike,
        λ more. ap (continue (λ _. cleanup_each h (jobs ++ more) now ttl)) e ∙ step more,
      )

dir_at-Alike : (j q : Text) (s t : Storage) → Alike j q s t → dir_at s q ≡ dir_at t q
unfolding dir_in
dir_at-Alike j q s t (e, _, _) = ap (λ o. elim o [ some (directory d) ↦ some d | _ ↦ none ]) e

IsFree-Alike :
    (h : Host) (job_id path : Text) (d : JobDir) (s t : Storage)
    → Alike job_id path t s
    → IsFree h job_id path d s
    → IsFree h job_id path d t
IsFree-Alike h job_id path d s t (nodes, held, foreign_same) f = record {
  path_of = f.path_of;
  dir = dir_at-Alike job_id path t s (nodes, held, foreign_same) ∙ f.dir;
  thread = held ∙ f.thread;
  foreign = ap (λ l. contains l path) foreign_same ∙ f.foreign;
}

module _ (h : Host) (job_id path : Text) (d : JobDir) (now ttl : Time) where
  expired-gone :
      (s : Storage) (m : JobMetadata) (completed_at : Time)
      → IsFree h job_id path d s
      → m.job_id ≡ job_id
      → m.status ≡ completed
      → m.completed_at ≡ some completed_at
      → completed_at + ttl < now
      → (t : Storage) × (cleanup_job h m now ttl s ≡ (returns tt, t)) × (dir_at t path ≡ none)
  unfolding cleanup_job
  expired-gone s m completed_at f same is_done at_time late =
      let (r, gone) = cleanup_completed_job-deletes h f m completed_at now ttl same at_time late in
      (
        (cleanup_completed_job h m now ttl s).1,
        ap
              (λ status. elim status [
                | completed ↦ cleanup_completed_job h m now ttl s
                | active ↦ cleanup_active_job h m now ttl s
              ])
              is_done
            ∙ ap (λ o. (o, (cleanup_completed_job h m now ttl s).1)) r,
        gone,
      )

  -- Where the listing has a completed job whose result is older than the period, whose lock is free,
  -- and that shares neither its id nor its path with the other jobs that are listed, the sweep
  -- returns, and the directory of the job is gone, whatever becomes of the others.
  pub run_cleanup-deletes :
      (s : Storage) (before after : List JobMetadata) (m : JobMetadata) (completed_at : Time)
      → list_jobs h s ≡ (returns (before ++ m ∷ after), s)
      → All (IsElsewhere h job_id path) before
      → All (IsElsewhere h job_id path) after
      → IsFree h job_id path d s
      → m.job_id ≡ job_id
      → m.status ≡ completed
      → m.completed_at ≡ some completed_at
      → completed_at + ttl < now
      → ((run_cleanup h now ttl s).0 ≡ returns tt)
        × (dir_at (run_cleanup h now ttl s).1 path ≡ none)
  unfolding run_cleanup cleanup_each
  run_cleanup-deletes s before after m completed_at listed others later f same is_done at_time
        late =
      let (t, alike, first) = sweep_others h job_id path now ttl before s others in
      let (u, swept, gone) =
        expired-gone t m completed_at (IsFree-Alike h job_id path d s t alike f) same is_done
          at_time late in
      let (v, alike', last) = sweep_others h job_id path now ttl after u later in
      let whole : run_cleanup h now ttl s ≡ (returns tt, v) =
        ap (continue (λ jobs. cleanup_each h jobs now ttl)) listed
        ∙ first (m ∷ after)
        ∙ ap (λ p. continue (λ _. cleanup_each h after now ttl) (swallowed p)) swept
        ∙ ap (λ l. cleanup_each h l now ttl u) (sym (append-nil after))
        ∙ last [] in
      (
        ap (λ p. p.0) whole,
        ap (λ p. dir_at p.1 path) whole ∙ dir_at-Alike job_id path v u alike' ∙ gone,
      )
