-- ===== src/Locks/Threads/WaitFree.antt =====
-- The way of a thread through `_try_job_lock`.
use bulk_processing_service.Base.{
  Bool-cases, Option-cases, arith, inl, inr, refl, ℕ, ◌<◌, ◌≡◌, ◌≤◌, ◌⊎◌,
}
use bulk_processing_service.Locks.Threads.{
  Body, Memory, Move, Phase, blocks, busy, close, close_denied, closed, create_file, denied,
  give_back, give_up, go_on, holding, idle, inside, is_free, lock, named, no_directory, open_file,
  opened, refuse, take, tries, unlock, unlocked,
}
use bulk_processing_service.Locks.Threads.Progress.{rank}

-- A thread that is not in `_job_lock` on its way in.
abbrev pub IsTry : {b : Body} → Phase b → Type 0
IsTry (named (blocks w) g) = ⊥
IsTry (holding (blocks w) g) = ⊥
IsTry (opened (blocks w) g x) = ⊥
IsTry p = Unit

-- What a thread can do by itself: a move that brings it closer to the end of its call.
abbrev pub Advance : {b : Body} → ℕ → Memory b → Phase b → Type 0
Advance {b} r m p =
    (m' : Memory b) × (p' : Phase b) × Move r m p m' p' × IsTry p' × (rank p' < rank p)

-- Whatever the other threads, the replicas and a deletion have made of the shared memory: a thread
-- that is not in a waiting call on its way into the lock, so one that tries the lock or has it, has
-- at most six moves before its call is over, and as long as it is not over, it can do one that leaves
-- it such a thread and closer to the end.
pub try_moves :
    {b : Body} (r : ℕ) (m : Memory b) (p : Phase b)
    → IsTry p
    → (rank p ≤ 6) × ((p ≡ idle) ⊎ Advance r m p)
try_moves r m idle h = (omega arith, inl refl)
try_moves r m busy h = (omega arith, inr (_, _, go_on, tt, omega arith))
try_moves r m (named (blocks w) g) h = absurd h
try_moves r m (holding (blocks w) g) h = absurd h
try_moves r m (opened (blocks w) g x) h = absurd h
try_moves r m (named (tries w) g) h = (
  omega arith,
  elim (Bool-cases (m.taken g)) [
    | inl held ↦ inr (_, _, give_up held, tt, omega arith)
    | inr free ↦ inr (_, _, take free, tt, omega arith)
  ],
)
try_moves r m (holding (tries w) g) h = (
  omega arith,
  elim (Bool-cases m.directory) [
    | inr gone ↦ inr (_, _, no_directory gone, tt, omega arith)
    | inl there ↦ elim (Option-cases m.file) [
      | inl new ↦ inr (_, _, create_file there new, tt, omega arith)
      | inr (x, old) ↦ inr (_, _, open_file there old, tt, omega arith)
    ]
  ],
)
try_moves r m (opened (tries w) g x) h = (
  omega arith,
  elim (Bool-cases (is_free (m.owner x) r)) [
    | inl free ↦ inr (_, _, lock free, tt, omega arith)
    | inr held ↦ inr (_, _, refuse held, tt, omega arith)
  ],
)
try_moves r m (inside g x l) h = (omega arith, inr (_, _, unlock, tt, omega arith))
try_moves r m (unlocked g x) h = (omega arith, inr (_, _, close, tt, omega arith))
try_moves r m (closed g) h = (omega arith, inr (_, _, give_back, tt, omega arith))
try_moves r m (denied g x) h = (omega arith, inr (_, _, close_denied, tt, omega arith))
