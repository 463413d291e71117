-- ===== src/Locks/Threads/Ends.antt =====
-- Runs in which the threads that are on their way only move on, and those in the body work.
use bulk_processing_service.Base.{
  ap, arith, inl, inr, refl, suc, sym, zero, ℕ, ◌*◌, ◌+◌, ◌<◌, ◌≡◌, ◌≢◌, ◌≤◌, ◌⊎◌,
}
use bulk_processing_service.Locks.Threads.{
  Body, Phase, Reach, System, act, busy, idle, inside, later, move, start,
}
use bulk_processing_service.Locks.Threads.Invariant.Steps.{Reach-Inv}
use bulk_processing_service.Locks.Threads.Progress.{
  Move-rank, Run, Step-few, in_body, moves_left, moves_left_bounded, moves_left_falls,
  moves_left_kept, moving, next, rank, some_moves, stay,
}
use native.Mathlib.Decide.{ℕ_discrete, dec_lt}

Reach-few :
    {b : Body} {home : ℕ → ℕ} {n : ℕ} {d : b.Shared} {s : System b}
    → Reach home n d s
    → (i : ℕ) → n ≤ i
    → s.phase i ≡ idle
Reach-few start i h = refl
Reach-few (later r st) i h = Step-few st (Reach-few r) i h

Run-Reach :
    {b : Body} {home : ℕ → ℕ} {n : ℕ} {d : b.Shared} {s : System b} {k : ℕ} {t : System b}
    → Reach home n d s
    → Run home s k t
    → Reach home n d t
Run-Reach r stay = r
Run-Reach r (in_body moves i e a) = later (Run-Reach r moves) (act i e a)
Run-Reach r (next moves i mv) = later (Run-Reach r moves) (move i mv)

-- Every move takes away from what is left to do, and the in the body keeps it.
Run-moves_left :
    {b : Body} {home : ℕ → ℕ} {n : ℕ} {d : b.Shared} {s : System b} {k : ℕ} {t : System b}
    → Reach home n d s
    → Run home s k t
    → k + moves_left n t.phase ≤ moves_left n s.phase
Run-moves_left r stay = omega arith
Run-moves_left {n} r (in_body {t} moves i {g} {x} {l} {l'} e a) =
    omega
      (arith, Run-moves_left r moves, moves_left_kept n i t.phase (inside g x l') (sym (ap rank e)))
Run-moves_left {n} r (next {t} moves i {p} mv) = elim (dec_lt i n) [
  | yes lt ↦ omega (arith, Run-moves_left r moves, moves_left_falls n i t.phase p lt (Move-rank mv))
  | no ge ↦ absurd (moving mv (Reach-few (Run-Reach r moves) i (omega arith)))
]

idle_or : {b : Body} (p : Phase b) → (p ≡ idle) ⊎ (p ≢ idle)
idle_or idle = inl refl
idle_or busy = inr (λ e. cc)
idle_or p = inr (λ e. cc)

all_or_some :
    {b : Body} (n : ℕ) (phase : ℕ → Phase b)
    → ((i : ℕ) → i < n → phase i ≡ idle) ⊎ ((i : ℕ) × (phase i ≢ idle))
all_or_some zero phase = inl (λ i h. absurd (omega arith))
all_or_some (suc n) phase = elim (idle_or (phase n)) [
  | inr on_way ↦ inr (n, on_way)
  | inl e ↦ elim (all_or_some n phase) [
    | inr found ↦ inr found
    | inl h ↦
        inl (λ i lt. elim (ℕ_discrete i n) [ yes same ↦ rw same e | no differ ↦ h i (omega arith) ])
  ]
]

-- From any reachable state of `n` threads, a run in which no call begins, nothing fails and nothing
-- is deleted has at most six moves for each thread, whatever accesses the threads in the body do in
-- between. It has brought all threads out of the lock, or it can go on with a move; a thread in the
-- body may leave it at any time.
pub Run-ends :
    {b : Body} {home : ℕ → ℕ} {n : ℕ} {d : b.Shared} {s : System b} {k : ℕ} {t : System b}
    → Reach home n d s
    → Run home s k t
    → (k ≤ n * 6) × (((i : ℕ) → t.phase i ≡ idle) ⊎ ((u : System b) × Run home t 1 u))
Run-ends {home} {n} {s} {t} r moves = (
  omega (arith, Run-moves_left r moves, moves_left_bounded n s.phase),
  elim (all_or_some n t.phase) [
    | inl h ↦ inl (λ i. elim (dec_lt i n) [
      | yes lt ↦ h i lt
      | no ge ↦ Reach-few (Run-Reach r moves) i (omega arith)
    ])
    | inr (i, e) ↦
        let (j, m, p, mv) = some_moves (Reach-Inv (Run-Reach r moves)) i (t.phase i) refl e in
        inr (_, next stay j mv)
  ],
)
