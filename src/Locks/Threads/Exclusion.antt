-- ===== src/Locks/Threads/Exclusion.antt =====
-- Who may be in the body of the lock of a job at the same time.
use bulk_processing_service.Base.{arith, false, inl, inr, ℕ, ◌≡◌, ◌⊎◌}
use bulk_processing_service.Locks.Threads.{Body, Memory, Phase, Reach, System, inside}
use bulk_processing_service.Locks.Threads.Invariant.{Inv}
use bulk_processing_service.Locks.Threads.Invariant.Steps.{Reach-Inv}

module _ {b : Body} {home : ℕ → ℕ} {m : Memory b} {phase : ℕ → Phase b}
    (inv : Inv home m phase) where
  open inv use {alone, owned, one_file}

  pub inside_one :
      {i j g h x y : ℕ} {l k : b.Local}
      → phase i ≡ inside g x l
      → phase j ≡ inside h y k
      → ((x ≡ y) ⊎ ((home i ≡ home j) ⊎ (m.deleting ≡ false)))
      → i ≡ j
  inside_one {i} {j} {x} {y} p q (inl same) =
      alone i j x y (rw p) (rw q) (ground (arith, owned i x, owned j y))
  inside_one {i} {j} {x} {y} p q (inr (inl same)) = alone i j x y (rw p) (rw q) same
  inside_one {i} {j} {x} {y} p q (inr (inr early)) =
      alone i j x y (rw p) (rw q) (ground (arith, one_file i x, one_file j y, owned i x, owned j y))

-- In every reachable state, calls that fail and deletions included, two threads that are in the body
-- are the same one, provided that their lock files are the same, or their replicas are the same, or
-- no deletion has begun.
pub inside_excludes :
    {b : Body} {home : ℕ → ℕ} {n : ℕ} {d : b.Shared} {s : System b}
    → Reach home n d s
    → {i j g h x y : ℕ} {l k : b.Local} → s.phase i ≡ inside g x l
    → s.phase j ≡ inside h y k
    → ((x ≡ y) ⊎ ((home i ≡ home j) ⊎ (s.memory.deleting ≡ false)))
    → i ≡ j
inside_excludes r p q e = inside_one (Reach-Inv r) p q e
