-- ===== src/Locks/Threads.antt =====
-- app/job_manager.py: `_thread_lock`, `_job_lock`, `_try_job_lock` and `delete_job` for one job, a
-- shared access at a time, interleaved in any order between the threads of any number of replicas.
-- What is done under the lock is a parameter. A lock object, and a lock file from its making on, is
-- a number; `fcntl` locks a file for a whole process, and drops the lock when the process closes
-- any descriptor of the file.
pub mod Invariant
pub mod Exclusion
pub mod Progress
pub mod Ends
pub mod WaitFree
pub mod Guarded
use bulk_processing_service.Base.{
  Bool, Option, false, if◌then◌else◌, nat_eq, none, some, text_eq, true, ℕ, ◌+◌, ◌<◌, ◌==◌, ◌≡◌,
}

-- What the callers do under the lock: a call begins with some work, and then acts on shared data.
pub record Body : Type 1 where
  pub Work : Type 0
  pub Local : Type 0
  pub Shared : Type 0
  pub begin : Work → Local
  pub Act : Shared → Local → Shared → Local → Type 0

-- A family with another member at one index.
abbrev pub update {ℓ} : {A : Type ℓ} → (ℕ → A) → ℕ → A → ℕ → A
update family i a j = if i == j then a else family j

-- `with self._job_lock(job_id)` and `with self._try_job_lock(job_id)`
pub data Call (b : Body) : Type 0 where
  blocks tries : b.Work → Call b

abbrev pub work_of : {b : Body} → Call b → b.Work
work_of (blocks w) = w
work_of (tries w) = w

-- Where a thread stands: `g` is the lock object that `_thread_lock` has returned, `x` the file that
-- its descriptor is open on.
pub data Phase (b : Body) : Type 0 where
  idle : Phase b
  named : Call b → (g : ℕ) → Phase b  -- before `thread_lock.acquire`
  holding : Call b → (g : ℕ) → Phase b  -- before `os.open`
  opened : Call b → (g x : ℕ) → Phase b  -- before `fcntl.lockf`
  inside : (g x : ℕ) → b.Local → Phase b  -- in the body
  unlocked : (g x : ℕ) → Phase b  -- before `os.close`
  closed : (g : ℕ) → Phase b  -- before `thread_lock.release`
  busy : Phase b  -- `yield False`, with the thread lock taken by another
  denied : (g x : ℕ) → Phase b  -- `yield False`, where the file lock was not given

-- What the threads share. `entry` is the job's entry in the `_thread_locks` of each replica, `taken`
-- tells which lock objects are held, `directory` whether the directory of the job is there, `file`
-- is the lock file in it, and `owner` the replica that has the lock on a file. `deleting` is set
-- from the first change of a `delete_job` on; what becomes of the shared data then is left open.
pub record Memory (b : Body) : Type 0 where
  pub entry : ℕ → Option ℕ
  pub next_lock : ℕ
  pub taken : ℕ → Bool
  pub directory : Bool
  pub file : Option ℕ
  pub next_file : ℕ
  pub owner : ℕ → Option ℕ
  pub deleting : Bool
  pub shared : b.Shared

-- Whether replica `r` gets a lock that `o` has.
abbrev pub is_free : Option ℕ → ℕ → Bool
is_free none r = true
is_free (some q) r = q == r

-- What is left of a lock when replica `r` unlocks or closes the file.
abbrev pub without : ℕ → Option ℕ → Option ℕ
without r none = none
without r (some q) = if q == r then none else some q

module _ {b : Body} where
  -- `_thread_lock`, under its guard
  pub data Ask (r : ℕ) (m : Memory b) : Memory b → Phase b → Type 0 where
    known : (c : Call b) {g : ℕ} → m.entry r ≡ some g → Ask r m m (named c g)
    made :
        (c : Call b)
        → m.entry r ≡ none
        → Ask r m
            (record m {
              entry = update m.entry r (some m.next_lock);
              next_lock = m.next_lock + 1;
              taken = update m.taken m.next_lock false;
            })
            (named c m.next_lock)

  -- One access of a thread of replica `r` on its way through the lock.
  pub data Move (r : ℕ) (m : Memory b) : Phase b → Memory b → Phase b → Type 0 where
    take :
        {c : Call b} {g : ℕ}
        → m.taken g ≡ false
        → Move r m (named c g) (record m { taken = update m.taken g true }) (holding c g)
    give_up : {w : b.Work} {g : ℕ} → m.taken g ≡ true → Move r m (named (tries w) g) m busy
    go_on : Move r m busy m idle
    open_file :
        {c : Call b} {g x : ℕ}
        → m.directory ≡ true
        → m.file ≡ some x
        → Move r m (holding c g) m (opened c g x)
    create_file :
        {c : Call b} {g : ℕ}
        → m.directory ≡ true
        → m.file ≡ none
        → Move r m
            (holding c g)
            (record m { file = some m.next_file; next_file = m.next_file + 1 })
            (opened c g m.next_file)
    no_directory : {c : Call b} {g : ℕ} → m.directory ≡ false → Move r m (holding c g) m (closed g)
    lock :
        {c : Call b} {g x : ℕ}
        → is_free (m.owner x) r ≡ true
        → Move r m
            (opened c g x)
            (record m { owner = update m.owner x (some r) })
            (inside g x (b.begin (work_of c)))
    refuse :
        {w : b.Work} {g x : ℕ}
        → is_free (m.owner x) r ≡ false
        → Move r m (opened (tries w) g x) m (denied g x)
    unlock :
        {g x : ℕ} {l : b.Local}
        → Move r m
            (inside g x l)
            (record m { owner = update m.owner x (without r (m.owner x)) })
            (unlocked g x)
    close :
        {g x : ℕ}
        → Move r m
            (unlocked g x)
            (record m { owner = update m.owner x (without r (m.owner x)) })
            (closed g)
    close_denied :
        {g x : ℕ}
        → Move r m
            (denied g x)
            (record m { owner = update m.owner x (without r (m.owner x)) })
            (closed g)
    give_back : {g : ℕ} → Move r m (closed g) (record m { taken = update m.taken g false }) idle

  -- The calls that may fail with an `OSError` for a reason of their own. Unlocking and closing a file
  -- that is open do not fail.
  pub data Fault (r : ℕ) (m : Memory b) : Phase b → Memory b → Phase b → Type 0 where
    open_fails : {c : Call b} {g : ℕ} → Fault r m (holding c g) m (closed g)
    lock_fails :
        {w : b.Work} {g x : ℕ}
        → Fault r m
            (opened (blocks w) g x)
            (record m { owner = update m.owner x (without r (m.owner x)) })
            (unlocked g x)
    try_fails : {w : b.Work} {g x : ℕ} → Fault r m (opened (tries w) g x) m (denied g x)

  -- `delete_job`, which any thread may run at any time: the directory is emptied, the lock file
  -- with the rest, and removed, and then replica `r` drops its entry.
  pub data Delete (m : Memory b) : Memory b → Type 0 where
    remove_file :
        (data_left : b.Shared)
        → m.directory ≡ true
        → Delete m (record m { deleting = true; shared = data_left })
    remove_lock_file : m.directory ≡ true → Delete m (record m { deleting = true; file = none })
    remove_directory :
        m.directory ≡ true
        → m.file ≡ none
        → Delete m (record m { deleting = true; directory = false })
    drop : (r : ℕ) → m.directory ≡ false → Delete m (record m { entry = update m.entry r none })

-- All threads together. `home` is the replica of each.
pub record System (b : Body) : Type 0 where
  pub memory : Memory b
  pub phase : ℕ → Phase b

-- A job that was just created.
abbrev pub init : {b : Body} → b.Shared → System b
init d = record {
  memory = record {
    entry = λ _. none;
    next_lock = 0;
    taken = λ _. false;
    directory = true;
    file = none;
    next_file = 0;
    owner = λ _. none;
    deleting = false;
    shared = d;
  };
  phase = λ _. idle;
}

module _ {b : Body} (home : ℕ → ℕ) (n : ℕ) where
  -- A step of one of `n` threads, or of a deletion.
  pub data Step (s : System b) : System b → Type 0 where
    ask :
        (i : ℕ) {m : Memory b} {p : Phase b}
        → i < n
        → s.phase i ≡ idle
        → Ask (home i) s.memory m p
        → Step s (record { memory = m; phase = update s.phase i p })
    move :
        (i : ℕ) {m : Memory b} {p : Phase b}
        → Move (home i) s.memory (s.phase i) m p
        → Step s (record { memory = m; phase = update s.phase i p })
    act :
        (i : ℕ) {g x : ℕ} {l l' : b.Local} {d : b.Shared}
        → s.phase i ≡ inside g x l
        → b.Act s.memory.shared l d l'
        → Step s (record {
          memory = record s.memory { shared = d };
          phase = update s.phase i (inside g x l');
        })
    fault :
        (i : ℕ) {m : Memory b} {p : Phase b}
        → Fault (home i) s.memory (s.phase i) m p
        → Step s (record { memory = m; phase = update s.phase i p })
    delete : {m : Memory b} → Delete s.memory m → Step s (record s { memory = m })

  pub data Reach (d : b.Shared) : System b → Type 0 where
    start : Reach d (init d)
    later : {s t : System b} → Reach d s → Step s t → Reach d t
