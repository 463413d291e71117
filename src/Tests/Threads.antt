-- ===== src/Tests/Threads.antt =====
-- Threads of two replicas in the lock of one job.
use bulk_processing_service.Base.{
  Bytes, [], false, inr, nat_eq, refl, some, text_eq, ℕ, ◌*◌, ◌∷◌, ◌≡◌, ◌≤◌, ◌⊎◌,
}
use bulk_processing_service.Base.Dict.{Dict}
use bulk_processing_service.JobManager.{read_documents}
use bulk_processing_service.JobManager.Batch.{done}
use bulk_processing_service.JobManager.Concurrent.{
  Access, Answer, Log, Work, adds, answered, begun, completes, knows, merged, stored,
}
use bulk_processing_service.JobManager.Concurrent.Alone.{IsTaken, operation, operation-IsTaken}
use bulk_processing_service.JobManager.Concurrent.Answering.{Closer, accesses_left, body_answers}
use bulk_processing_service.JobManager.Concurrent.Guard.{IsConsistent}
use bulk_processing_service.JobManager.Concurrent.History.{added}
use bulk_processing_service.JobManager.Concurrent.Linear.{calls-IsConsistent, result-IsMerge}
use bulk_processing_service.Locks.Threads.{
  Move, Phase, System, blocks, busy, denied, idle, inside, named, opened, tries, unlocked, update,
  without,
}
use bulk_processing_service.Locks.Threads.Ends.{Run-ends}
use bulk_processing_service.Locks.Threads.Exclusion.{inside_excludes}
use bulk_processing_service.Locks.Threads.Progress.{Run, in_body, next, rank, stay}
use bulk_processing_service.Locks.Threads.WaitFree.{Advance, try_moves}
use bulk_processing_service.Models.{completed}
use bulk_processing_service.Storage.{ok}
use bulk_processing_service.Tests.Jobs.{path}
use bulk_processing_service.Tests.Codec.{
  encode, host, host-IsLawful, load, put_option, put_status, put_text, put_time,
}
use bulk_processing_service.Tests.Jobs.{dir_one, id, metadata_one, one, one-IsFree, one-Represents}
use bulk_processing_service.Tests.Schedule.{
  RunSoFar, acts, asks, body, drops, home, metadata_new, moves, no_run, removes, run, unlinks,
}
use bulk_processing_service.Base.Dict

-- Thread 0 is in the body, and thread 2 has the file open.
abbrev contended : RunSoFar
contended =
    run
      (asks 0 (blocks (adds (7 ∷ []) 20))
        ∷ moves 0
        ∷ moves 0
        ∷ moves 0
        ∷ asks 2 (blocks (completes 30))
        ∷ moves 2
        ∷ moves 2
        ∷ moves 2
        ∷ [])
      no_run

contended_phases :
    (contended.last.phase 0 ≡ inside 0 0 (begun (adds (7 ∷ []) 20)))
    × (contended.last.phase 2 ≡ opened (blocks (completes 30)) 1 0)
unfolding run nat_eq
contended_phases = (refl, refl)

inside_excludes_example : ◌≡◌ {A = ℕ} 0 0
unfolding run nat_eq
inside_excludes_example =
    inside_excludes contended.reach contended_phases.0 contended_phases.0 (inr (inr refl))

-- From there, thread 0 reads the metadata and leaves the body, with an exception.
abbrev left_body : System body
left_body = record {
  memory = record contended.last.memory {
    owner = update contended.last.memory.owner 0 (without 0 (contended.last.memory.owner 0));
  };
  phase =
      update (update contended.last.phase 0 (inside 0 0 (knows (adds (7 ∷ []) 20) metadata_new))) 0
        (unlocked 0 0);
}

left_body_run : Run home contended.last 1 left_body
unfolding run nat_eq load encode put_text put_time put_option put_status
left_body_run = next (in_body stay 0 contended_phases.0 (Access.read refl)) 0 Move.unlock

Run-ends_example :
    (1 ≤ 4 * 6)
    × (((i : ℕ) → left_body.phase i ≡ idle) ⊎ ((u : System body) × Run home left_body 1 u))
Run-ends_example = Run-ends contended.reach left_body_run

-- Thread 0 adds its document and leaves, and thread 2 merges.
abbrev merged_one : RunSoFar
merged_one =
    run
      (acts 0
        ∷ acts 0
        ∷ acts 0
        ∷ acts 0
        ∷ moves 0
        ∷ moves 0
        ∷ moves 2
        ∷ acts 2
        ∷ acts 2
        ∷ acts 2
        ∷ acts 2
        ∷ [])
      contended

merged_one_log :
    merged_one.last.memory.shared.log
    ≡ (completes 30, merged (done path)) ∷ (adds (7 ∷ []) 20, stored (done 0)) ∷ []
unfolding run nat_eq load encode put_text put_option put_time put_status read_documents Dict.get
    Dict.put
merged_one_log = refl

-- While the lock file is removed, a thread of another replica makes it again, and is in the body
-- together with the one that was there.
both_inside :
    let r =
      run
        (asks 0 (blocks (adds (7 ∷ []) 20))
          ∷ moves 0
          ∷ moves 0
          ∷ moves 0
          ∷ unlinks
          ∷ asks 2 (blocks (adds (8 ∷ []) 30))
          ∷ moves 2
          ∷ moves 2
          ∷ moves 2
          ∷ [])
        no_run in
    (r.last.phase 0 ≡ inside 0 0 (begun (adds (7 ∷ []) 20)))
    × (r.last.phase 2 ≡ inside 1 1 (begun (adds (8 ∷ []) 30)))
unfolding run nat_eq
both_inside = (refl, refl)

merged_one_phase :
    merged_one.last.phase 2 ≡ inside 1 0 (answered (completes 30, merged (done path)))
unfolding run nat_eq load encode put_text put_option put_time put_status read_documents Dict.get
    Dict.put
merged_one_phase = refl

calls-IsConsistent_example :
    IsConsistent host host-IsLawful id path merged_one.last.memory.shared
    × ((i g x : ℕ) (e : Work × Answer)
        → merged_one.last.phase i ≡ inside g x (answered e)
        → (earlier : Log) × (merged_one.last.memory.shared.log ≡ e ∷ earlier))
unfolding run nat_eq load encode put_text put_option put_time put_status read_documents Dict.get
    Dict.put
calls-IsConsistent_example =
    calls-IsConsistent host-IsLawful metadata_new (refl, (refl, refl)) merged_one.reach refl

result-IsMerge_example :
    (result : Bytes) × (merged_one.last.memory.shared.dir.result_pdf ≡ some result)
    × (host.merge (added merged_one.last.memory.shared.log) ≡ ok result)
unfolding run nat_eq load encode put_text put_option put_time put_status read_documents Dict.get
    Dict.put
result-IsMerge_example =
    result-IsMerge host-IsLawful metadata_new (refl, (refl, refl)) merged_one.reach refl
      {m' = record metadata_new {
        status = completed;
        updated_at = some 20;
        completed_at = some 30;
        pdf_count = 1;
      }}
      refl refl

-- Threads 1 and 3 try the lock while thread 0 is in the body, and both are turned away.
abbrev tried : RunSoFar
tried =
    run
      (asks 1 (tries (completes 40))
        ∷ moves 1
        ∷ asks 3 (tries (completes 40))
        ∷ moves 3
        ∷ moves 3
        ∷ moves 3
        ∷ [])
      (run (asks 0 (blocks (adds (7 ∷ []) 20)) ∷ moves 0 ∷ moves 0 ∷ moves 0 ∷ []) no_run)

tried_phases : (tried.last.phase 1 ≡ busy) × (tried.last.phase 3 ≡ denied 1 0)
unfolding run nat_eq
tried_phases = (refl, refl)

try_moves_example :
    (rank {b = body} (named (tries (completes 40)) 0) ≤ 6)
    × ((◌≡◌ {A = Phase body} (named (tries (completes 40)) 0) idle)
        ⊎ Advance 0 tried.last.memory (named (tries (completes 40)) 0))
try_moves_example = try_moves 0 tried.last.memory (named (tries (completes 40)) 0) tt

operation-IsTaken_example :
    IsTaken host id path (completes 30) dir_one [] (operation host id path (completes 30) one)
operation-IsTaken_example =
    operation-IsTaken host id path one-IsFree.path_of one dir_one metadata_one [] one-IsFree.dir
      one-Represents.metadata one-Represents.documents (completes 30)

-- A thread that asks for the lock of a job after it was deleted leaves an entry for it.
entry_left :
    let r =
      run
        (unlinks
          ∷ removes
          ∷ drops 0
          ∷ asks 0 (blocks (adds (7 ∷ []) 20))
          ∷ moves 0
          ∷ moves 0
          ∷ moves 0
          ∷ [])
        no_run in
    (r.last.phase 0 ≡ idle) × (r.last.memory.directory ≡ false) × (r.last.memory.entry 0 ≡ some 0)
unfolding run nat_eq
entry_left = (refl, refl, refl)

body_answers_example :
    (accesses_left (begun (adds (7 ∷ []) 20)) ≤ 4)
    × (((e : Work × Answer) × (begun (adds (7 ∷ []) 20) ≡ answered e))
        ⊎ Closer host id path contended.last.memory.shared (begun (adds (7 ∷ []) 20)))
unfolding run nat_eq
body_answers_example =
    body_answers host-IsLawful metadata_new (refl, (refl, refl)) contended.reach refl {i = 0}
      contended_phases.0
