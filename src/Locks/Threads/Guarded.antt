-- ===== src/Locks/Threads/Guarded.antt =====
-- Properties of data that is only touched in the body of the lock.
use bulk_processing_service.Base.{arith, false, inr, refl, sym, ℕ, ◌∙◌, ◌≡◌}
use bulk_processing_service.Locks.Threads.{
  Ask, Body, Delete, Fault, Memory, Move, Phase, Reach, Step, System, act, ask, delete, drop, fault,
  go_on, inside, known, later, lock, made, move, open_fails, start, update, work_of,
}
use bulk_processing_service.Locks.Threads.Exclusion.{inside_one}
use bulk_processing_service.Locks.Threads.Invariant.{Inv, InvOf}
use bulk_processing_service.Locks.Threads.Invariant.Steps.{Reach-Inv}
use mathlib.Core.Path.{subst}
use native.Mathlib.Decide.{ℕ_discrete}

-- A property of the shared data, and what a thread in the body may rely on.
pub record Guards (b : Body) : Type 1 where
  pub Holds : b.Shared → Type 0
  pub Within : b.Shared → b.Local → Type 0
  pub enter : (w : b.Work) {d : b.Shared} → Holds d → Within d (b.begin w)
  pub acts : {d d' : b.Shared} {l l' : b.Local} → Within d l → b.Act d l d' l' → Within d' l'
  pub leave : {d : b.Shared} {l : b.Local} → Within d l → Holds d

-- What holds as long as nothing was deleted.
pub record Guarded {b : Body} (g : Guards b) (m : Memory b) (phase : ℕ → Phase b) : Type 0 where
  pub holds : m.deleting ≡ false → g.Holds m.shared
  pub within :
      (i h x : ℕ) (l : b.Local) → m.deleting ≡ false → phase i ≡ inside h x l → g.Within m.shared l

-- Moving and failing leave the data alone.
Move-quiet :
    {b : Body} {r : ℕ} {m m' : Memory b} {p p' : Phase b}
    → Move r m p m' p'
    → (m'.deleting ≡ m.deleting) × (m'.shared ≡ m.shared)
Move-quiet go_on = (refl, refl)
Move-quiet mv = (refl, refl)

Fault-quiet :
    {b : Body} {r : ℕ} {m m' : Memory b} {p p' : Phase b}
    → Fault r m p m' p'
    → (m'.deleting ≡ m.deleting) × (m'.shared ≡ m.shared)
Fault-quiet open_fails = (refl, refl)
Fault-quiet f = (refl, refl)

Ask-quiet :
    {b : Body} {r : ℕ} {m m' : Memory b} {p : Phase b}
    → Ask r m m' p
    → (m'.deleting ≡ m.deleting) × (m'.shared ≡ m.shared)
Ask-quiet (known c e) = (refl, refl)
Ask-quiet (made c e) = (refl, refl)

-- A thread that comes into the body, if at all, as one that begins.
abbrev Fresh : {b : Body} → Phase b → Type 0
Fresh {b} p = (h x : ℕ) (l : b.Local) → p ≡ inside h x l → (w : b.Work) × (l ≡ b.begin w)

Move-Fresh : {b : Body} {r : ℕ} {m m' : Memory b} {p p' : Phase b} → Move r m p m' p' → Fresh p'
Move-Fresh (lock {c} k) h x l e = (work_of c, ground arith)
Move-Fresh mv h x l e = absurd cc

Fault-Fresh : {b : Body} {r : ℕ} {m m' : Memory b} {p p' : Phase b} → Fault r m p m' p' → Fresh p'
Fault-Fresh open_fails h x l e = absurd cc
Fault-Fresh f h x l e = absurd cc

Ask-Fresh : {b : Body} {r : ℕ} {m m' : Memory b} {p : Phase b} → Ask r m m' p → Fresh p
Ask-Fresh (known c k) h x l e = absurd cc
Ask-Fresh (made c k) h x l e = absurd cc

module _ {b : Body} {g : Guards b} {m : Memory b} {phase : ℕ → Phase b}
    (old : Guarded g m phase) where
  outside :
      (i : ℕ) {m' : Memory b} {p' : Phase b}
      → (m'.deleting ≡ m.deleting) × (m'.shared ≡ m.shared)
      → Fresh p'
      → Guarded g m' (update phase i p')
  outside i {m'} (quiet, same) fresh = record {
    holds = still;
    within = λ j h x l e q. elim (ℕ_discrete i j) [
      | yes eq ↦
          let (w, k) = fresh h x l (ground arith) in
          subst (λ v. g.Within m'.shared v) (sym k) (g.enter w (still e))
      | no differ ↦
          subst (λ d. g.Within d l) (sym same) (old.within j h x l (sym quiet ∙ e) (ground arith))
    ];
  }
    where
      still : m'.deleting ≡ false → g.Holds m'.shared
      still e = subst g.Holds (sym same) (old.holds (sym quiet ∙ e))

  act-Guarded :
      (i : ℕ) {home : ℕ → ℕ} {h x : ℕ} {l l' : b.Local} {d : b.Shared}
      → Inv home m phase
      → phase i ≡ inside h x l
      → b.Act m.shared l d l'
      → Guarded g (record m { shared = d }) (update phase i (inside h x l'))
  act-Guarded i {h} {x} {l} {l'} {d} inv e a = record {
    holds = λ k. g.leave (after k);
    within = λ j h' x' l'' f q. elim (ℕ_discrete i j) [
      | yes eq ↦ subst (λ v. g.Within d v) (ground arith) (after f)
      | no differ ↦
          absurd
            (differ (inside_one inv {h = h'} {y = x'} {k = l''} e (ground arith) (inr (inr f))))
    ];
  }
    where
      after : m.deleting ≡ false → g.Within d l'
      after k = g.acts (old.within i h x l k e) a

  Delete-Guarded : {m' : Memory b} → Delete m m' → Guarded g m' phase
  Delete-Guarded (drop r k) = record { holds = old.holds; within = old.within }
  Delete-Guarded change = record {
    holds = λ e. absurd (ground arith);
    within = λ j h x l e q. absurd (ground arith);
  }

-- As long as nothing is deleted, the data has the property in every reachable state, also while a
-- thread is in the body, and also where a body was left halfway by an exception.
pub Reach-Guarded :
    {b : Body} (g : Guards b) {home : ℕ → ℕ} {n : ℕ} {d : b.Shared} {s : System b}
    → g.Holds d
    → Reach home n d s
    → Guarded g s.memory s.phase
Reach-Guarded g h start = record { holds = λ e. h; within = λ i k x l e q. absurd (ground arith) }
Reach-Guarded {b} g {home} {n} h (later r st) = step st (Reach-Inv r) (Reach-Guarded g h r)
  where
    step :
        {s t : System b}
        → Step home n s t
        → InvOf home s
        → Guarded g s.memory s.phase
        → Guarded g t.memory t.phase
    step (ask i lt e a) inv old = outside old i (Ask-quiet a) (Ask-Fresh a)
    step (move i mv) inv old = outside old i (Move-quiet mv) (Move-Fresh mv)
    step (act i e a) inv old = act-Guarded old i inv e a
    step (fault i f) inv old = outside old i (Fault-quiet f) (Fault-Fresh f)
    step (delete d) inv old = Delete-Guarded old d
