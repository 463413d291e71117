-- ===== src/Locks/Threads/Invariant/Moves.antt =====
-- The accesses of a thread keep the invariant, field by field.
use bulk_processing_service.Base.{arith, false, none, refl, some, true, ℕ, ◌<◌, ◌≡◌}
use bulk_processing_service.Locks.Threads.{
  Body, Memory, Move, Phase, busy, closed, create_file, denied, give_up, go_on, holding, idle,
  inside, is_free, lock, named, no_directory, open_file, opened, refuse, take, unlocked, update,
}
use bulk_processing_service.Locks.Threads.Invariant.{
  Inv, file_locked, file_open, lock_held, lock_seen,
}
use native.Mathlib.Decide.{ℕ_discrete}
use native.Mathlib.Decide.{ℕ_discrete}
use native.Mathlib.Decide.{ℕ_discrete}

-- What a move waits for, for the clauses that stand for several moves.
abbrev Guard : {b : Body} {r : ℕ} {m m' : Memory b} {p p' : Phase b} → Move r m p m' p' → Type 0
Guard {m} (take {g} h) = m.taken g ≡ false
Guard {m} (give_up {g} h) = m.taken g ≡ true
Guard {m} (open_file {x} h k) = (m.directory ≡ true) × (m.file ≡ some x)
Guard {m} (create_file h k) = (m.directory ≡ true) × (m.file ≡ none)
Guard {m} (no_directory h) = m.directory ≡ false
Guard {r} {m} (lock {x} h) = is_free (m.owner x) r ≡ true
Guard {r} {m} (refuse {x} h) = is_free (m.owner x) r ≡ false
Guard _ = Unit

guard : {b : Body} {r : ℕ} {m m' : Memory b} {p p' : Phase b} (mv : Move r m p m' p') → Guard mv
guard (take h) = h
guard (give_up h) = h
guard (open_file h k) = (h, k)
guard (create_file h k) = (h, k)
guard (no_directory h) = h
guard (lock h) = h
guard (refuse h) = h
guard _ = tt

pub seen-held : {b : Body} (p : Phase b) (g : ℕ) → lock_held p ≡ some g → lock_seen p ≡ some g
seen-held p g q = ground arith

pub open-file_locked :
    {b : Body} (p : Phase b) (x : ℕ) → file_locked p ≡ some x → file_open p ≡ some x
open-file_locked p x q = ground arith

pub lock-file_open :
    {b : Body} (p : Phase b) (x : ℕ) → file_open p ≡ some x → (g : ℕ) × (lock_held p ≡ some g)
lock-file_open (opened c g x') x q = (g, refl)
lock-file_open (inside g x' l) x q = (g, refl)
lock-file_open (unlocked g x') x q = (g, refl)
lock-file_open (denied g x') x q = (g, refl)
lock-file_open idle x q = absurd cc
lock-file_open busy x q = absurd cc
lock-file_open (named c g) x q = absurd cc
lock-file_open (holding c g) x q = absurd cc
lock-file_open (closed g) x q = absurd cc

module _ {b : Body} (home : ℕ → ℕ) {m : Memory b} {phase : ℕ → Phase b} (inv : Inv home m phase)
    (i : ℕ) where
  open inv use {below, entry_below, current, held, unique, holder, alone, owned, owner_in, one_file}

  Move-below :
      {p p' : Phase b} {m' : Memory b}
      → Move (home i) m p m' p'
      → phase i ≡ p
      → (j g : ℕ) → lock_seen (update phase i p' j) ≡ some g
      → g < m'.next_lock
  Move-below go_on e j g q = ground (arith, below j g)
  Move-below mv e j g q = ground (arith, below j g, below i g)

  Move-current :
      {p p' : Phase b} {m' : Memory b}
      → Move (home i) m p m' p'
      → phase i ≡ p
      → (j g : ℕ) → m'.directory ≡ true
      → lock_seen (update phase i p' j) ≡ some g
      → m'.entry (home j) ≡ some g
  Move-current go_on e j g d q = ground (arith, current j g)
  Move-current mv e j g d q = ground (arith, current j g, current i g)

  Move-held :
      {p p' : Phase b} {m' : Memory b}
      → Move (home i) m p m' p'
      → phase i ≡ p
      → (j g : ℕ) → lock_held (update phase i p' j) ≡ some g
      → m'.taken g ≡ true
  Move-held go_on e j g q = ground (arith, held j g)
  Move-held mv e j g q = ground (arith, held j g, held i g, unique i j g)

  Move-unique :
      {p p' : Phase b} {m' : Memory b}
      → Move (home i) m p m' p'
      → phase i ≡ p
      → (j k g : ℕ) → lock_held (update phase i p' j) ≡ some g
      → lock_held (update phase i p' k) ≡ some g
      → j ≡ k
  Move-unique go_on e j k g q r = ground (arith, unique j k g)
  Move-unique mv e j k g q r =
      ground (arith, guard mv, held j g, held k g, unique j k g, unique i k g, unique j i g)

  Move-holder :
      {p p' : Phase b} {m' : Memory b}
      → Move (home i) m p m' p'
      → phase i ≡ p
      → (g : ℕ) → m'.taken g ≡ true
      → (j : ℕ) × (lock_held (update phase i p' j) ≡ some g)
  Move-holder (take {g = g'} h) e g q = elim (ℕ_discrete g' g) [
    | yes same ↦ (i, ground arith)
    | no differ ↦ let (j, k) = holder g (ground arith) in (j, ground arith)
  ]
  Move-holder mv e g q = let (j, k) = holder g (ground arith) in (j, ground (arith, guard mv))

  opened_alone :
      (j x : ℕ) {g : ℕ}
      → m.directory ≡ true
      → lock_held (phase i) ≡ some g
      → file_open (phase j) ≡ some x
      → home i ≡ home j
      → i ≡ j
  opened_alone j x {g = g} d q f w =
      let (g', q') = lock-file_open (phase j) x f in
      ground (
        arith,
        current i g,
        current j g',
        seen-held (phase i) g,
        seen-held (phase j) g',
        unique i j g,
      )

  Move-alone :
      {p p' : Phase b} {m' : Memory b}
      → Move (home i) m p m' p'
      → phase i ≡ p
      → (j k x y : ℕ) → file_open (update phase i p' j) ≡ some x
      → file_open (update phase i p' k) ≡ some y
      → home j ≡ home k
      → j ≡ k
  Move-alone go_on e j k x y q r w = ground (arith, alone j k x y)
  Move-alone (open_file {g} h f) e j k x y q r w =
      ground (arith, alone j k x y, opened_alone j x {g = g}, opened_alone k y {g = g})
  Move-alone (create_file {g} h f) e j k x y q r w =
      ground (arith, alone j k x y, opened_alone j x {g = g}, opened_alone k y {g = g})
  Move-alone mv e j k x y q r w =
      ground (arith, guard mv, alone j k x y, alone i k x y, alone j i x y)

  Move-owned :
      {p p' : Phase b} {m' : Memory b}
      → Move (home i) m p m' p'
      → phase i ≡ p
      → (j x : ℕ) → file_locked (update phase i p' j) ≡ some x
      → m'.owner x ≡ some (home j)
  Move-owned go_on e j x q = ground (arith, owned j x)
  Move-owned mv e j x q = ground (arith, guard mv, owned j x, owned i x, alone i j x x)

  Move-owner_in :
      {p p' : Phase b} {m' : Memory b}
      → Move (home i) m p m' p'
      → phase i ≡ p
      → (x r : ℕ) → m'.owner x ≡ some r
      → (j : ℕ) × (home j ≡ r) × (file_locked (update phase i p' j) ≡ some x)
  Move-owner_in (lock {x = x'} h) e x r q = elim (ℕ_discrete x' x) [
    | yes same ↦ (i, ground arith, ground arith)
    | no differ ↦ let (j, k, l) = owner_in x r (ground arith) in (j, k, ground arith)
  ]
  Move-owner_in mv e x r q =
      let (j, k, l) = owner_in x r (ground arith) in (j, k, ground (arith, guard mv))

  Move-one_file :
      {p p' : Phase b} {m' : Memory b}
      → Move (home i) m p m' p'
      → phase i ≡ p
      → (j x : ℕ) → m'.deleting ≡ false
      → file_open (update phase i p' j) ≡ some x
      → m'.file ≡ some x
  Move-one_file go_on e j x d q = ground (arith, one_file j x)
  Move-one_file mv e j x d q = ground (arith, guard mv, one_file j x, one_file i x)

  Move-kept :
      {p p' : Phase b} {m' : Memory b}
      → Move (home i) m p m' p'
      → m'.deleting ≡ false
      → m'.directory ≡ true
  Move-kept go_on d = inv.kept d
  Move-kept mv d = ground arith

  Move-entry :
      {p p' : Phase b} {m' : Memory b}
      → Move (home i) m p m' p'
      → (r g : ℕ) → m'.entry r ≡ some g
      → g < m'.next_lock
  Move-entry go_on r g q = entry_below r g q
  Move-entry mv r g q = ground (arith, entry_below r g)

  pub Move-Inv :
      {p' : Phase b} {m' : Memory b}
      → Move (home i) m (phase i) m' p'
      → Inv home m' (update phase i p')
  Move-Inv mv = record {
    below = Move-below mv refl;
    entry_below = Move-entry mv;
    current = Move-current mv refl;
    held = Move-held mv refl;
    unique = Move-unique mv refl;
    holder = Move-holder mv refl;
    alone = Move-alone mv refl;
    owned = Move-owned mv refl;
    owner_in = Move-owner_in mv refl;
    one_file = Move-one_file mv refl;
    kept = Move-kept mv;
  }
