-- ===== src/Locks/Threads/Progress.antt =====
-- The moves of threads on their way through the lock, and how many there are to come.
use bulk_processing_service.Base.{
  Bool-cases, Option, Option-cases, ap, arith, false, inl, inr, none, refl, some, suc, sym, true,
  zero, ℕ, ◌*◌, ◌+◌, ◌<◌, ◌≡◌, ◌≢◌, ◌≤◌, ◌⊎◌,
}
use bulk_processing_service.Locks.Threads.{
  Body, Call, Fault, Memory, Move, Phase, Step, System, act, ask, busy, close, close_denied, closed,
  create_file, delete, denied, fault, give_back, go_on, holding, idle, inside, lock, lock_fails,
  move, named, no_directory, open_fails, open_file, opened, take, try_fails, unlock, unlocked,
  update,
}
use bulk_processing_service.Locks.Threads.Invariant.{Inv, file_locked, lock_held}
use mathlib.Core.Path.{subst}
use native.Mathlib.Decide.{ℕ_discrete}

-- How many moves a thread has before it at most.
abbrev pub rank : {b : Body} → Phase b → ℕ
rank idle = 0
rank (named c g) = 6
rank (holding c g) = 5
rank (opened c g x) = 4
rank (inside g x l) = 3
rank (unlocked g x) = 2
rank (closed g) = 1
rank busy = 1
rank (denied g x) = 2

pub Move-rank :
    {b : Body} {r : ℕ} {m m' : Memory b} {p p' : Phase b} → Move r m p m' p' → rank p' < rank p
Move-rank go_on = omega arith
Move-rank mv = omega arith

-- An idle thread neither moves nor fails.
pub moving : {b : Body} {r : ℕ} {m m' : Memory b} {p p' : Phase b} → Move r m p m' p' → p ≢ idle
moving {p} mv e = let lt = Move-rank mv in absurd (omega (arith, lt, ap rank e))

failing : {b : Body} {r : ℕ} {m m' : Memory b} {p p' : Phase b} → Fault r m p m' p' → p ≢ idle
failing open_fails e = cc
failing lock_fails e = cc
failing try_fails e = cc

-- A run in which no thread begins a call, and nothing fails or is deleted, with the number of its
-- moves. The accesses of the threads in the body, in any number, are not counted.
pub data Run {b : Body} (home : ℕ → ℕ) (s : System b) : ℕ → System b → Type 0 where
  stay : Run home s 0 s
  in_body :
      {k : ℕ} {t : System b}
      → Run home s k t
      → (i : ℕ) {g x : ℕ} {l l' : b.Local} {d : b.Shared} → t.phase i ≡ inside g x l
      → b.Act t.memory.shared l d l'
      → Run home s k (record {
        memory = record t.memory { shared = d };
        phase = update t.phase i (inside g x l');
      })
  next :
      {k : ℕ} {t : System b}
      → Run home s k t
      → (i : ℕ) {m : Memory b} {p : Phase b} → Move (home i) t.memory (t.phase i) m p
      → Run home s (suc k) (record { memory = m; phase = update t.phase i p })

-- How many moves the first `n` threads have before them.
abbrev pub moves_left : {b : Body} → ℕ → (ℕ → Phase b) → ℕ
moves_left zero phase = 0
moves_left (suc n) phase = moves_left n phase + rank (phase n)

moves_left_above :
    {b : Body} (n i : ℕ) (phase : ℕ → Phase b) (p : Phase b)
    → n ≤ i
    → moves_left n (update phase i p) ≡ moves_left n phase
moves_left_above zero i phase p h = refl
moves_left_above (suc n) i phase p h = ground (arith, moves_left_above n i phase p)

pub moves_left_falls :
    {b : Body} (n i : ℕ) (phase : ℕ → Phase b) (p : Phase b)
    → i < n
    → rank p < rank (phase i)
    → moves_left n (update phase i p) < moves_left n phase
moves_left_falls zero i phase p h lt = absurd (omega arith)
moves_left_falls (suc n) i phase p h lt = elim (ℕ_discrete i n) [
  | yes same ↦ ground (arith, moves_left_above n i phase p)
  | no differ ↦ ground (arith, moves_left_falls n i phase p)
]

pub moves_left_kept :
    {b : Body} (n i : ℕ) (phase : ℕ → Phase b) (p : Phase b)
    → rank p ≡ rank (phase i)
    → moves_left n (update phase i p) ≡ moves_left n phase
moves_left_kept zero i phase p e = refl
moves_left_kept (suc n) i phase p e = elim (ℕ_discrete i n) [
  | yes same ↦ ground (arith, moves_left_kept n i phase p)
  | no differ ↦ ground (arith, moves_left_kept n i phase p)
]

pub moves_left_bounded : {b : Body} (n : ℕ) (phase : ℕ → Phase b) → moves_left n phase ≤ n * 6
moves_left_bounded zero phase = omega arith
moves_left_bounded (suc n) phase = ground (arith, moves_left_bounded n phase)

-- A thread that can move.
abbrev Next : {b : Body} → (ℕ → ℕ) → Memory b → (ℕ → Phase b) → Type 0
Next {b} home m phase = (j : ℕ) × (m' : Memory b) × (p : Phase b) × Move (home j) m (phase j) m' p

module _ {b : Body} {home : ℕ → ℕ} {m : Memory b} {phase : ℕ → Phase b} where
  stepping :
      (j : ℕ) {m' : Memory b} {p p' : Phase b}
      → phase j ≡ p
      → Move (home j) m p m' p'
      → Next home m phase
  stepping j {m'} {p'} e mv = (j, m', p', subst (λ p. Move (home j) m p m' p') (sym e) mv)

  module _ (inv : Inv home m phase) where
    open inv use {holder, owner_in}

    -- A thread that locked a file leaves the body at once.
    body_moves : (j x : ℕ) (p : Phase b) → phase j ≡ p → file_locked p ≡ some x → Next home m phase
    body_moves j x (inside g y l) e q = stepping j e unlock
    body_moves j x idle e q = absurd cc
    body_moves j x p e q = absurd cc

    lock_moves :
        (j g x : ℕ) (c : Call b)
        → phase j ≡ opened c g x
        → (o : Option ℕ) → m.owner x ≡ o
        → Next home m phase
    lock_moves j g x c e none q = stepping j e (lock (rw q))
    lock_moves j g x c e (some r) q =
        let (k, h, f) = owner_in x r q in body_moves k x (phase k) refl f

    -- A thread that holds the thread lock moves, or one that has the file lock does.
    held_moves : (j g : ℕ) (p : Phase b) → phase j ≡ p → lock_held p ≡ some g → Next home m phase
    held_moves j g (holding c h) e q = opening c h e (Bool-cases m.directory) (Option-cases m.file)
      where
        opening :
            (c : Call b) (h : ℕ)
            → phase j ≡ holding c h
            → ((m.directory ≡ true) ⊎ (m.directory ≡ false))
            → ((m.file ≡ none) ⊎ ((x : ℕ) × (m.file ≡ some x)))
            → Next home m phase
        opening c h e (inr d) f = stepping j e (no_directory d)
        opening c h e (inl d) (inl f) = stepping j e (create_file d f)
        opening c h e (inl d) (inr (x, f)) = stepping j e (open_file d f)
    held_moves j g (opened c h x) e q = lock_moves j h x c e (m.owner x) refl
    held_moves j g (inside h x l) e q = stepping j e unlock
    held_moves j g (unlocked h x) e q = stepping j e close
    held_moves j g (closed h) e q = stepping j e give_back
    held_moves j g (denied h x) e q = stepping j e close_denied
    held_moves j g idle e q = absurd cc
    held_moves j g busy e q = absurd cc
    held_moves j g (named c h) e q = absurd cc

    -- There is no deadlock: as long as a thread is on its way, a thread can move.
    pub some_moves : (i : ℕ) (p : Phase b) → phase i ≡ p → p ≢ idle → Next home m phase
    some_moves i idle e q = absurd (q refl)
    some_moves i busy e q = stepping i e go_on
    some_moves i (named c g) e q = elim (Bool-cases (m.taken g)) [
      | inl t ↦ let (j, k) = holder g t in held_moves j g (phase j) refl k
      | inr f ↦ stepping i e (take f)
    ]
    some_moves i (holding c g) e q = held_moves i g (holding c g) e refl
    some_moves i (opened c g x) e q = held_moves i g (opened c g x) e refl
    some_moves i (inside g x l) e q = held_moves i g (inside g x l) e refl
    some_moves i (unlocked g x) e q = held_moves i g (unlocked g x) e refl
    some_moves i (closed g) e q = held_moves i g (closed g) e refl
    some_moves i (denied g x) e q = held_moves i g (denied g x) e refl

-- Only the `n` threads are on their way.
pub Step-few :
    {b : Body} {home : ℕ → ℕ} {n : ℕ} {s t : System b}
    → Step home n s t
    → ((i : ℕ) → n ≤ i → s.phase i ≡ idle)
    → (i : ℕ) → n ≤ i
    → t.phase i ≡ idle
Step-few (ask i lt e a) h j q = ground (arith, h j)
Step-few (move i mv) h j q = elim (ℕ_discrete i j) [
  | yes same ↦ absurd (moving mv (rw same (h j q)))
  | no differ ↦ ground (arith, h j)
]
Step-few (act i e a) h j q = ground (arith, h j, h i)
Step-few (fault i f) h j q = elim (ℕ_discrete i j) [
  | yes same ↦ absurd (failing f (rw same (h j q)))
  | no differ ↦ ground (arith, h j)
]
Step-few (delete d) h j q = h j q
