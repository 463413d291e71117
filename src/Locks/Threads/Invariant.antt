-- ===== src/Locks/Threads/Invariant.antt =====
-- The locks of one job among threads: which lock object and which file each thread has.
pub mod Moves
pub mod Steps
use bulk_processing_service.Base.{Option, false, none, some, true, ℕ, ◌<◌, ◌≡◌}
use bulk_processing_service.Locks.Threads.{
  Body, Memory, Phase, System, busy, closed, denied, holding, idle, inside, named, opened, unlocked,
}

-- The lock object that a thread has been given.
abbrev pub lock_seen : {b : Body} → Phase b → Option ℕ
lock_seen idle = none
lock_seen busy = none
lock_seen (named c g) = some g
lock_seen (holding c g) = some g
lock_seen (opened c g x) = some g
lock_seen (inside g x l) = some g
lock_seen (unlocked g x) = some g
lock_seen (closed g) = some g
lock_seen (denied g x) = some g

-- The lock object that a thread holds.
abbrev pub lock_held : {b : Body} → Phase b → Option ℕ
lock_held (named c g) = none
lock_held p = lock_seen p

-- The file that a thread has a descriptor of.
abbrev pub file_open : {b : Body} → Phase b → Option ℕ
file_open (opened c g x) = some x
file_open (inside g x l) = some x
file_open (unlocked g x) = some x
file_open (denied g x) = some x
file_open _ = none

-- The file that a thread has the lock on.
abbrev pub file_locked : {b : Body} → Phase b → Option ℕ
file_locked (inside g x l) = some x
file_locked _ = none

pub record Inv {b : Body} (home : ℕ → ℕ) (m : Memory b) (phase : ℕ → Phase b) : Type 0 where
  -- Lock objects are those that were made.
  pub below : (i g : ℕ) → lock_seen (phase i) ≡ some g → g < m.next_lock
  pub entry_below : (r g : ℕ) → m.entry r ≡ some g → g < m.next_lock
  -- While the directory is there, the threads of a replica have the lock object of its entry.
  pub current :
      (i g : ℕ) → m.directory ≡ true → lock_seen (phase i) ≡ some g → m.entry (home i) ≡ some g
  -- A lock object is taken exactly where one thread holds it.
  pub held : (i g : ℕ) → lock_held (phase i) ≡ some g → m.taken g ≡ true
  pub unique : (i j g : ℕ) → lock_held (phase i) ≡ some g → lock_held (phase j) ≡ some g → i ≡ j
  pub holder : (g : ℕ) → m.taken g ≡ true → (i : ℕ) × (lock_held (phase i) ≡ some g)
  -- A replica has one descriptor at most.
  pub alone :
      (i j x y : ℕ)
      → file_open (phase i) ≡ some x
      → file_open (phase j) ≡ some y
      → home i ≡ home j
      → i ≡ j
  -- A file is locked exactly by the replicas of the threads that are in the body.
  pub owned : (i x : ℕ) → file_locked (phase i) ≡ some x → m.owner x ≡ some (home i)
  pub owner_in :
      (x r : ℕ) → m.owner x ≡ some r → (i : ℕ) × (home i ≡ r) × (file_locked (phase i) ≡ some x)
  -- Before a deletion, all descriptors are of the lock file that is there.
  pub one_file : (i x : ℕ) → m.deleting ≡ false → file_open (phase i) ≡ some x → m.file ≡ some x
  pub kept : m.deleting ≡ false → m.directory ≡ true

abbrev pub InvOf : {b : Body} → (ℕ → ℕ) → System b → Type 0
InvOf home s = Inv home s.memory s.phase
