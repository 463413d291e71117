-- ===== src/Tests/Schedule.antt =====
-- Runs of threads through the lock of a job by evaluation, in a given order.
use bulk_processing_service.Base.{
  Bool, Bytes, List, Option, [], false, inl, inr, none, refl, some, true, ℕ, ◌&&◌, ◌/◌, ◌∷◌, ◌≡◌,
  ◌≢◌, ◌⊎◌,
}
use bulk_processing_service.JobManager.{decode, is_completed, is_some, read_documents}
use bulk_processing_service.JobManager.Concurrent.{
  Access, Place, Shelf, Work, adds, answered, begun, bodies, completes, drafted, drafting, knows,
  new_shelf, records,
}
use bulk_processing_service.Locks.Threads.{
  Ask, Body, Call, Memory, Move, Phase, Reach, System, act, ask, blocks, busy, closed, delete,
  denied, drop, holding, idle, inside, is_free, later, move, named, opened, remove_directory,
  remove_lock_file, start, tries, unlocked,
}
use bulk_processing_service.Models.{JobMetadata, JobStatus, Time, active, completed}
use bulk_processing_service.Storage.{Result, err, ok}
use bulk_processing_service.Tests.Codec.{host}
use bulk_processing_service.Tests.Jobs.{path, id, metadata_one}
use native.Mathlib.Decide.{ℕ_discrete, dec_lt}

-- The case of a value, for evaluation.
abbrev test_of : (b : Bool) → (b ≡ true) ⊎ (b ≡ false)
test_of true = inl refl
test_of false = inr refl

abbrev value_of : (o : Option ℕ) → (o ≡ none) ⊎ ((a : ℕ) × (o ≡ some a))
value_of none = inl refl
value_of (some a) = inr (a, refl)

abbrev status_of : (st : JobStatus) → (st ≡ active) ⊎ (st ≡ completed)
status_of active = inl refl
status_of completed = inr refl

abbrev Moved : {b : Body} → ℕ → Memory b → Phase b → Type 0
Moved {b} r m p = (m' : Memory b) × (p' : Phase b) × Move r m p m' p'

taking : {b : Body} (r : ℕ) (m : Memory b) (c : Call b) (g : ℕ) → Option (Moved r m (named c g))
taking {b} r m c g = elim (test_of (m.taken g)) [
  | inr free ↦ some (_, _, Move.take free)
  | inl held ↦ busy_next c held
]
  where
    busy_next : (c : Call b) → m.taken g ≡ true → Option (Moved r m (named c g))
    busy_next (blocks w) held = none
    busy_next (tries w) held = some (_, _, Move.give_up held)

opening : {b : Body} (r : ℕ) (m : Memory b) (c : Call b) (g : ℕ) → Option (Moved r m (holding c g))
opening r m c g = elim (test_of m.directory) [
  | inr gone ↦ some (_, _, Move.no_directory gone)
  | inl there ↦ elim (value_of m.file) [
    | inl new ↦ some (_, _, Move.create_file there new)
    | inr (x, old) ↦ some (_, _, Move.open_file there old)
  ]
]

locking :
    {b : Body} (r : ℕ) (m : Memory b) (c : Call b) (g x : ℕ) → Option (Moved r m (opened c g x))
locking {b} r m c g x = elim (test_of (is_free (m.owner x) r)) [
  | inl free ↦ some (_, _, Move.lock free)
  | inr held ↦ busy_next c held
]
  where
    busy_next : (c : Call b) → is_free (m.owner x) r ≡ false → Option (Moved r m (opened c g x))
    busy_next (blocks w) held = none
    busy_next (tries w) held = some (_, _, Move.refuse held)

-- The move of a thread, unless it waits.
unfoldable next_move : {b : Body} (r : ℕ) (m : Memory b) (p : Phase b) → Option (Moved r m p)
unfolding taking opening locking
next_move r m idle = none
next_move r m (named c g) = taking r m c g
next_move r m (holding c g) = opening r m c g
next_move r m (opened c g x) = locking r m c g x
next_move r m (inside g x l) = some (_, _, Move.unlock)
next_move r m (unlocked g x) = some (_, _, Move.close)
next_move r m (closed g) = some (_, _, Move.give_back)
next_move r m busy = some (_, _, Move.go_on)
next_move r m (denied g x) = some (_, _, Move.close_denied)

unfoldable asking :
    {b : Body} (r : ℕ) (m : Memory b) (c : Call b) → (m' : Memory b) × (p : Phase b) × Ask r m m' p
asking r m c = elim (value_of (m.entry r)) [
  | inl new ↦ (_, _, Ask.made c new)
  | inr (g, old) ↦ (_, _, Ask.known c old)
]

-- What a thread does next in the body.
abbrev Accessed : Shelf → Place → Type 0
Accessed s l = (s' : Shelf) × (l' : Place) × Access host id path s l s' l'

reading : (s : Shelf) (w : Work) → Option (Accessed s (begun w))
reading s w = go (decode host s.dir.metadata_json) refl
  where
    go :
        (o : Result (Option JobMetadata))
        → decode host s.dir.metadata_json ≡ o
        → Option (Accessed s (begun w))
    go (ok (some m)) e = some (_, _, Access.read e)
    go _ e = none

merging :
    (s : Shelf) (now : Time) (m : JobMetadata)
    → (is_completed m.status && is_some s.dir.result_pdf) ≡ false
    → m.pdf_count ≢ 0
    → Option (Accessed s (knows (completes now) m))
merging s now m e n = go (read_documents s.dir.documents 0 m.pdf_count) refl
  where
    go :
        (o : Result (List Bytes))
        → read_documents s.dir.documents 0 m.pdf_count ≡ o
        → Option (Accessed s (knows (completes now) m))
    go (ok docs) k = some (_, _, Access.write_result e n k refl)
    go (err raised) k = none

completing :
    (s : Shelf) (now : Time) (m : JobMetadata) → Option (Accessed s (knows (completes now) m))
unfolding ℕ_discrete
completing s now m = elim (test_of (is_completed m.status && is_some s.dir.result_pdf)) [
  | inl old ↦ some (_, _, Access.has_merged old)
  | inr new ↦ elim (ℕ_discrete m.pdf_count 0) [
    | yes none_added ↦ some (_, _, Access.refuse_empty new none_added)
    | no some_added ↦ merging s now m new some_added
  ]
]

unfoldable next_access : (s : Shelf) (l : Place) → Option (Accessed s l)
unfolding reading completing merging
next_access s (begun w) = reading s w
next_access s (knows (adds pdf now) m) = elim (status_of m.status) [
  | inl open_job ↦ some (_, _, Access.write_document open_job)
  | inr shut ↦ some (_, _, Access.refuse_document shut)
]
next_access s (knows (records now) m) = some (_, _, Access.count_failure)
next_access s (knows (completes now) m) = completing s now m
next_access s (drafting e m) = some (_, _, Access.write_draft)
next_access s (drafted e m) = some (_, _, Access.replace)
next_access s (answered e) = none

-- Threads 0 and 1 are in replica 0, and threads 2 and 3 in replica 1.
abbrev pub home : ℕ → ℕ
home i = i / 2

abbrev pub metadata_new : JobMetadata
metadata_new = record metadata_one { pdf_count = 0; updated_at = none }

abbrev pub body : Body
body = bodies host id path

pub record RunSoFar : Type 0 where
  pub last : System body
  pub reach : Reach home 4 (new_shelf host metadata_new) last

abbrev pub no_run : RunSoFar
no_run = record { last = _; reach = start }

-- What happens next: a thread begins a call, goes on, does an access in the body, or a
-- deletion goes on.
pub data Event : Type 0 where
  asks : (i : ℕ) → Call body → Event
  moves acts : (i : ℕ) → Event
  unlinks removes : Event
  drops : (r : ℕ) → Event

is_idle : (p : Phase body) → Dec (p ≡ idle)
is_idle idle = yes refl
is_idle busy = no (λ e. cc)
is_idle p = no (λ e. cc)

access_at : (r : RunSoFar) (i : ℕ) (p : Phase body) → r.last.phase i ≡ p → RunSoFar
unfolding next_access
access_at r i (inside g x l) e = elim (next_access r.last.memory.shared l) [
  | none ↦ r
  | some (s, l', a) ↦ record { last = _; reach = later r.reach (act i e a) }
]
access_at r i p e = r

unfoldable turn : RunSoFar → Event → RunSoFar
unfolding asking next_move access_at is_idle dec_lt
turn r (asks i c) = elim (dec_lt i 4) [
  | no _ ↦ r
  | yes lt ↦ elim (is_idle (r.last.phase i)) [
    | no _ ↦ r
    | yes e ↦
        let (m, p, a) = asking (home i) r.last.memory c in
        record { last = _; reach = later r.reach (ask i lt e a) }
  ]
]
turn r (moves i) = elim (next_move (home i) r.last.memory (r.last.phase i)) [
  | none ↦ r
  | some (m, p, mv) ↦ record { last = _; reach = later r.reach (move i mv) }
]
turn r (acts i) = access_at r i (r.last.phase i) refl
turn r unlinks = elim (test_of r.last.memory.directory) [
  | inr gone ↦ r
  | inl there ↦ record { last = _; reach = later r.reach (delete (remove_lock_file there)) }
]
turn r removes = elim (test_of r.last.memory.directory) [
  | inr gone ↦ r
  | inl there ↦ elim (value_of r.last.memory.file) [
    | inr _ ↦ r
    | inl empty ↦ record { last = _; reach = later r.reach (delete (remove_directory there empty)) }
  ]
]
turn r (drops q) = elim (test_of r.last.memory.directory) [
  | inl there ↦ r
  | inr gone ↦ record { last = _; reach = later r.reach (delete (drop q gone)) }
]

unfoldable pub run : List Event → RunSoFar → RunSoFar
unfolding turn
run [] r = r
run (e ∷ es) r = run es (turn r e)
