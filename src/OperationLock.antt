-- ===== src/OperationLock.antt =====
-- src/codexsync/operation_lock.py: the lock of one state root, with the threads of all processes that
-- enter and leave it. The operating system gives the lock of the file to one open handle at a time,
-- and takes it back when the handle is closed, also with a process that dies.
pub mod Invariant
pub mod Exclusion
use codex_sync.Base.{
  ℕ, zero, suc, ◌-◌, Bool, true, false, Option, none, some, List, [], ◌∷◌, if◌then◌else◌, nat_eq,
  Result, ok, err, ◌≡◌,
}

-- A `with` block that is entered: it has the file's lock, or it is nested in one that has.
pub data Frame : Type 0 where
  owns nested : Frame

-- The depth under the file in `_HELD` of a thread, if it stands there, and its open blocks, the innermost first.
pub record Local : Type 0 where
  pub held : Option ℕ
  pub frames : List Frame

-- The thread whose handle has the file's lock, and what each thread holds.
pub record System : Type 0 where
  pub owner : Option ℕ
  pub local : ℕ → Local

pub data LockError : Type 0 where
  busy : LockError

abbrev pub outside : Local
outside = record { held = none; frames = [] }

abbrev pub start : System
start = record { owner = none; local = λ t. outside }

abbrev pub update : (ℕ → Local) → ℕ → Local → ℕ → Local
update f t l u = if nat_eq u t then l else f u

-- The lock is taken, or entered again at some depth.
abbrev pub taken : Bool → ℕ → System → System
taken reentrant t s = record {
  owner = some t;
  local = update s.local t (record {
    held = if reentrant then some 1 else (s.local t).held;
    frames = owns ∷ (s.local t).frames;
  });
}

abbrev pub deepened : ℕ → ℕ → System → System
deepened depth t s = record s {
  local =
      update s.local t (record { held = some (suc depth); frames = nested ∷ (s.local t).frames });
}

-- `fcntl.flock(..., LOCK_EX | LOCK_NB)` on a new handle, and what follows.
unfoldable pub take_lock : Bool → ℕ → System → Result LockError System
take_lock reentrant t s = elim s.owner [ some _ ↦ err busy | none ↦ ok (taken reentrant t s) ]

-- `__enter__`, where the folder and the file of the lock can be opened and the lock call fails for a held
-- lock only.
unfoldable pub enter : Bool → ℕ → System → Result LockError System
unfolding take_lock
enter reentrant t s = elim (s.local t).held [
  | some depth ↦ ok (deepened depth t s)
  | none ↦ take_lock reentrant t s
]

abbrev pub less : Option ℕ → Option ℕ
less none = none
less (some depth) = some (depth - 1)

-- `__exit__` of the innermost of a thread's blocks.
abbrev pub exit_block : ℕ → List Frame → System → System
exit_block t [] s = s
exit_block t (nested ∷ rest) s = record s {
  local = update s.local t (record { held = less (s.local t).held; frames = rest });
}
exit_block t (owns ∷ rest) s = record {
  owner = none;
  local = update s.local t (record { held = none; frames = rest });
}

unfoldable pub leave : ℕ → System → System
leave t s = exit_block t (s.local t).frames s

abbrev pub freed : Option ℕ → ℕ → Option ℕ
freed none t = none
freed (some u) t = if nat_eq u t then none else some u

-- The end of a thread's process: what it held is gone, and so is its lock.
unfoldable pub die : ℕ → System → System
die t s = record { owner = freed s.owner t; local = update s.local t outside }

pub data Step (s : System) : System → Type 0 where
  enters : (reentrant : Bool) (t : ℕ) {s' : System} → enter reentrant t s ≡ ok s' → Step s s'
  leaves : (t : ℕ) → Step s (leave t s)
  dies : (t : ℕ) → Step s (die t s)

pub data Reach : System → Type 0 where
  begins : Reach start
  goes : {s s' : System} → Reach s → Step s s' → Reach s'
