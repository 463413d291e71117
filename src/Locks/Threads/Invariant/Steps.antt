-- ===== src/Locks/Threads/Invariant/Steps.antt =====
-- Every step of the threads, the calls that fail and the deletions included, keeps the invariant.
use bulk_processing_service.Base.{arith, none, refl, some, ℕ, ◌≡◌}
use bulk_processing_service.Locks.Threads.{
  Ask, Body, Delete, Fault, Memory, Phase, Reach, Step, System, act, ask, closed, delete, denied,
  drop, fault, idle, init, inside, known, later, lock_fails, made, move, open_fails, start,
  try_fails, unlocked, update, without,
}
use bulk_processing_service.Locks.Threads.Invariant.{
  Inv, InvOf, file_locked, file_open, lock_held, lock_seen,
}
use bulk_processing_service.Locks.Threads.Invariant.Moves.{Move-Inv, open-file_locked, seen-held}

module _ {b : Body} (home : ℕ → ℕ) {m : Memory b} {phase : ℕ → Phase b}
    (inv : Inv home m phase) where
  open inv use {
    below, entry_below, current, held, unique, holder, alone, owned, owner_in, one_file, kept,
  }

  Ask-Inv :
      (i : ℕ) {m' : Memory b} {p : Phase b}
      → phase i ≡ idle
      → Ask (home i) m m' p
      → Inv home m' (update phase i p)
  Ask-Inv i e (known c {g = g'} h) = record {
    below = λ j g q. ground (arith, below j g, entry_below (home i) g);
    entry_below = entry_below;
    current = λ j g d q. ground (arith, current j g);
    held = λ j g q. ground (arith, held j g);
    unique = λ j k g q r. ground (arith, unique j k g);
    holder = λ g q. let (j, k) = holder g q in (j, ground arith);
    alone = λ j k x y q r w. ground (arith, alone j k x y);
    owned = λ j x q. ground (arith, owned j x);
    owner_in = λ x r q. let (j, k, l) = owner_in x r q in (j, k, ground arith);
    one_file = λ j x d q. ground (arith, one_file j x);
    kept = kept;
  }
  Ask-Inv i e (made c h) = record {
    below = λ j g q. ground (arith, below j g);
    entry_below = λ r g q. ground (arith, entry_below r g);
    current = λ j g d q. ground (arith, current j g);
    held = λ j g q. ground (arith, held j g, below j g, seen-held (phase j) g);
    unique = λ j k g q r. ground (arith, unique j k g);
    holder = λ g q. let (j, k) = holder g (ground arith) in (j, ground arith);
    alone = λ j k x y q r w. ground (arith, alone j k x y);
    owned = λ j x q. ground (arith, owned j x);
    owner_in = λ x r q. let (j, k, l) = owner_in x r q in (j, k, ground arith);
    one_file = λ j x d q. ground (arith, one_file j x);
    kept = kept;
  }

  -- A thread that goes on with the same locks and files.
  module _ (i : ℕ) (p : Phase b) (seen : lock_seen p ≡ lock_seen (phase i))
      (lock : lock_held p ≡ lock_held (phase i)) (fd : file_open p ≡ file_open (phase i))
      (mine : file_locked p ≡ file_locked (phase i)) where
    Same-Inv : (d : b.Shared) → Inv home (record m { shared = d }) (update phase i p)
    Same-Inv d = record {
      below = λ j g q. ground (arith, below j g);
      entry_below = entry_below;
      current = λ j g d q. ground (arith, current j g);
      held = λ j g q. ground (arith, held j g);
      unique = λ j k g q r. ground (arith, unique j k g);
      holder = λ g q. let (j, k) = holder g q in (j, ground arith);
      alone = λ j k x y q r w. ground (arith, alone j k x y);
      owned = λ j x q. ground (arith, owned j x);
      owner_in = λ x r q. let (j, k, l) = owner_in x r q in (j, k, ground arith);
      one_file = λ j x d q. ground (arith, one_file j x);
      kept = kept;
    }

  -- Unlocking a file that the thread has not locked.
  dropped-Inv :
      (i x : ℕ)
      → file_open (phase i) ≡ some x
      → file_locked (phase i) ≡ none
      → Inv home (record m { owner = update m.owner x (without (home i) (m.owner x)) }) phase
  dropped-Inv i x f e = record {
    below = below;
    entry_below = entry_below;
    current = current;
    held = held;
    unique = unique;
    holder = holder;
    alone = alone;
    owned = λ j y q. ground (arith, owned j y, alone i j x x, open-file_locked (phase j) y);
    owner_in = λ y r q. owner_in y r (ground arith);
    one_file = one_file;
    kept = kept;
  }

  Delete-Inv : {m' : Memory b} → Delete m m' → Inv home m' phase
  Delete-Inv (drop r h) = record {
    below = below;
    entry_below = λ q g e. ground (arith, entry_below q g);
    current = λ i g d q. absurd cc;
    held = held;
    unique = unique;
    holder = holder;
    alone = alone;
    owned = owned;
    owner_in = owner_in;
    one_file = one_file;
    kept = kept;
  }
  Delete-Inv change = record {
    below = λ i g q. ground (arith, below i g);
    entry_below = λ r g q. ground (arith, entry_below r g);
    current = λ i g d q. ground (arith, current i g);
    held = λ i g q. ground (arith, held i g);
    unique = unique;
    holder = λ g q. holder g (ground arith);
    alone = alone;
    owned = λ i x q. ground (arith, owned i x);
    owner_in = λ x r q. owner_in x r (ground arith);
    one_file = λ i x d q. ground arith;
    kept = λ d. ground arith;
  }

module _ {b : Body} (home : ℕ → ℕ) {m : Memory b} {phase : ℕ → Phase b} (inv : Inv home m phase)
    (i : ℕ) where
  Fault-Inv :
      {p p' : Phase b} {m' : Memory b}
      → phase i ≡ p
      → Fault (home i) m p m' p'
      → Inv home m' (update phase i p')
  Fault-Inv e (open_fails {g}) = Same-Inv home inv i (closed g) (rw e) (rw e) (rw e) (rw e) m.shared
  Fault-Inv e (try_fails {g} {x}) =
      Same-Inv home inv i (denied g x) (rw e) (rw e) (rw e) (rw e) m.shared
  Fault-Inv e (lock_fails {g} {x}) =
      Same-Inv home (dropped-Inv home inv i x (rw e) (rw e)) i (unlocked g x) (rw e) (rw e) (rw e)
        (rw e) m.shared

init-Inv : {b : Body} (home : ℕ → ℕ) (d : b.Shared) → InvOf home (init {b = b} d)
init-Inv home d = record {
  below = λ i g q. absurd cc;
  entry_below = λ r g q. absurd cc;
  current = λ i g d q. absurd cc;
  held = λ i g q. absurd cc;
  unique = λ i j g q. absurd cc;
  holder = λ g q. absurd cc;
  alone = λ i j x y q r. absurd cc;
  owned = λ i x q. absurd cc;
  owner_in = λ x r q. absurd cc;
  one_file = λ i x d q. absurd cc;
  kept = λ d. refl;
}

pub Step-Inv :
    {b : Body} {home : ℕ → ℕ} {n : ℕ} {s t : System b}
    → Step home n s t
    → InvOf home s
    → InvOf home t
Step-Inv {home} (ask i lt e a) inv = Ask-Inv home inv i e a
Step-Inv {home} (move i mv) inv = Move-Inv home inv i mv
Step-Inv {home} (act i {g} {x} {l'} {d} e a) inv =
    Same-Inv home inv i (inside g x l') (rw e) (rw e) (rw e) (rw e) d
Step-Inv {home} (fault i f) inv = Fault-Inv home inv i refl f
Step-Inv {home} (delete d) inv = Delete-Inv home inv d

-- The invariant holds in every reachable state.
pub Reach-Inv :
    {b : Body} {home : ℕ → ℕ} {n : ℕ} {d : b.Shared} {s : System b}
    → Reach home n d s
    → InvOf home s
Reach-Inv {home} {d} start = init-Inv home d
Reach-Inv (later r st) = Step-Inv st (Reach-Inv r)
