-- ===== src/Journal.antt =====
-- src/codexsync/mutation_journal.py: the evidence of an interrupted mutation, as files of a folder.
pub mod Snapshot
pub mod States
pub mod Abandoned
pub mod Writes
pub mod Begin
use Prim.Native.Char.{Char}
use codex_sync.Base.{
  ℕ, String, ◌<>◌, ◌==◌, Bool, true, false, not, ◌&&◌, ◌||◌, Option, none, some, List, [], ◌∷◌,
  ◌++◌, if◌then◌else◌, str_leb, Dict, lookup, insert, Result, ok, err, ◌>>=◌,
}
use codex_sync.MachineId.{normalize_machine_id}
use Snapshot.{snapshot_belongs_to}

pub data JournalState : Type 0 where
  prepared backed_up committing committed failed recovery_required : JournalState

abbrev pub is_terminal : JournalState → Bool
is_terminal committed = true
is_terminal failed = true
is_terminal _ = false

-- BEFORE_COMMIT
abbrev pub is_before_commit : JournalState → Bool
is_before_commit prepared = true
is_before_commit backed_up = true
is_before_commit _ = false

-- _TRANSITIONS: `state in _TRANSITIONS[current]`.
abbrev pub may_follow : JournalState → JournalState → Bool
may_follow prepared backed_up = true
may_follow prepared failed = true
may_follow backed_up committing = true
may_follow backed_up failed = true
may_follow committing committed = true
may_follow committing recovery_required = true
may_follow recovery_required committing = true
may_follow recovery_required failed = true
may_follow _ _ = false

pub record MutationJournal : Type 0 where
  pub operation_id : String
  pub family : String
  pub state : JournalState
  pub created_at_utc : String
  pub plan_hash : String
  pub action_count : ℕ
  pub backup_snapshot : Option String
  pub counts : Option (Dict ℕ)
  pub origin : Option String
  pub finished_at_utc : Option String
  pub failure : Option String
  pub machine_id : Option String

-- The files of the folder by their stems; `none` is a file that `load` refuses.
abbrev pub Store : Type 0
Store = Dict (Option MutationJournal)

pub data JournalError : Type 0 where
  invalid_transition : JournalState → JournalState → JournalError
  missing_or_invalid : JournalError
  cannot_be_verified : JournalError
  recovery_pending : MutationJournal → JournalError
  write_failed : JournalError

-- Whether the file system lets this journal be written to this folder; any write may be refused.
abbrev pub Disk : Type 0
Disk = Store → MutationJournal → Bool

abbrev pub abandoned : String
abandoned = "Abandoned"

-- `load(operation_id)`
unfoldable pub load : Store → String → Result JournalError MutationJournal
load store operation_id = elim (lookup operation_id store) [
  | none ↦ err missing_or_invalid
  | some none ↦ err missing_or_invalid
  | some (some journal) ↦ ok journal
]

-- The folder after an atomic replace of the journal's file.
unfoldable pub put : Store → MutationJournal → Store
put store journal = insert journal.operation_id (some journal) store

-- `write(journal)`: one atomic replace, or an `OSError` that leaves the folder as it was.
unfoldable pub write : Disk → Store → MutationJournal → Result JournalError Store
unfolding put
write disk store journal = if disk store journal then ok (put store journal) else err write_failed

-- `replace(journal, ...)` of `transition`; `failure` is the name of the exception's class, `now` the
-- result of `_now()`.
abbrev pub moved : MutationJournal → JournalState → Option String → String → MutationJournal
moved journal state failure now = record journal {
  state = state;
  finished_at_utc = if is_terminal state then some now else journal.finished_at_utc;
  failure = elim failure [ none ↦ journal.failure | some name ↦ some name ];
}

unfoldable pub transition :
    Disk
    → Store
    → MutationJournal
    → JournalState
    → Option String
    → String
    → Result JournalError (Store × MutationJournal)
unfolding write
transition disk store journal state failure now =
    if not (may_follow journal.state state)
    then err (invalid_transition journal.state state)
    else write disk store (moved journal state failure now) >>= λ store'.
        ok (store', moved journal state failure now)

insert_file : String → Option MutationJournal → Store → Store
insert_file k v [] = (k, v) ∷ []
insert_file k v ((j, w) ∷ d) =
    let rest = insert_file k v d in
    if str_leb (k <> ".json") (j <> ".json") then (k, v) ∷ (j, w) ∷ d else (j, w) ∷ rest

-- `sorted(self.root.glob("*.json"))`
unfoldable pub sorted_files : Store → Store
unfolding insert_file
sorted_files [] = []
sorted_files ((k, v) ∷ d) = insert_file k v (sorted_files d)

-- The loop of `non_terminal`.
unfoldable pub open_journals : Store → Result JournalError (List MutationJournal)
open_journals [] = ok []
open_journals ((stem, none) ∷ rest) = err cannot_be_verified
open_journals ((stem, some journal) ∷ rest) = do
  others ← open_journals rest
  ok (if is_terminal journal.state then others else journal ∷ others)

unfoldable pub non_terminal : Store → Result JournalError (List MutationJournal)
unfolding open_journals sorted_files
non_terminal store = open_journals (sorted_files store)

-- What `begin` is given, with a fresh `uuid4` and the time.
pub record Request : Type 0 where
  pub family : String
  pub plan_hash : String
  pub action_count : ℕ
  pub backup_snapshot : Option String
  pub counts : Option (Dict ℕ)
  pub origin : Option String
  pub machine_id : Option String
  pub uuid : String
  pub now : String

unfoldable pub new_journal : Request → MutationJournal
new_journal r = record {
  operation_id = r.uuid;
  family = r.family;
  state = prepared;
  created_at_utc = r.now;
  plan_hash = r.plan_hash;
  action_count = r.action_count;
  backup_snapshot = r.backup_snapshot;
  counts = r.counts;
  origin = r.origin;
  finished_at_utc = none;
  failure = none;
  machine_id = elim r.machine_id [ none ↦ none | some m ↦ normalize_machine_id (some m) true ];
}

-- The class `\d` of a pattern over `str`, which is Unicode's, is given by `is_decimal`.
module _ (is_decimal : Char → Bool) where
  unfoldable pub owned_by : MutationJournal → Option String → Bool
  owned_by journal machine_id = elim journal.machine_id [
    | none ↦ snapshot_belongs_to is_decimal journal.backup_snapshot machine_id
    | some recorded ↦ elim (normalize_machine_id machine_id true) [
      | none ↦ false
      | some own ↦ recorded == own
    ]
  ]

  -- The conditions under which `close_abandoned` closes a journal file.
  unfoldable pub is_abandoned : String → String → MutationJournal → Bool
  unfolding owned_by
  is_abandoned machine_id stem journal =
      journal.operation_id == stem
      && (is_before_commit journal.state && owned_by journal (some machine_id))

  abbrev pub finish_abandoned : String → MutationJournal → MutationJournal
  finish_abandoned now journal = record journal {
    state = failed;
    finished_at_utc = some now;
    failure = some abandoned;
  }

  -- One turn of the loop of `close_abandoned`.
  unfoldable pub close_file :
      Disk
      → String
      → String
      → String
      → MutationJournal
      → Store
      → List MutationJournal
      → Result JournalError (Store × List MutationJournal)
  unfolding write
  close_file disk machine_id now stem journal store closed =
      if is_abandoned machine_id stem journal
      then (write disk store (finish_abandoned now journal) >>= λ store'.
          ok (store', closed ++ (finish_abandoned now journal ∷ [])))
      else ok (store, closed)

  -- The loop of `close_abandoned` over the files that it listed, with the folder that it leaves; the
  -- files that are closed before a write is refused stay closed.
  unfoldable pub close_files :
      Disk
      → String
      → String
      → Store
      → Store
      → List MutationJournal
      → Store × Result JournalError (List MutationJournal)
  unfolding close_file
  close_files disk machine_id now [] store closed = (store, ok closed)
  close_files disk machine_id now ((stem, none) ∷ rest) store closed =
      close_files disk machine_id now rest store closed
  close_files disk machine_id now ((stem, some journal) ∷ rest) store closed =
      elim (close_file disk machine_id now stem journal store closed) [
        | err e ↦ (store, err e)
        | ok (store', closed') ↦ close_files disk machine_id now rest store' closed'
      ]

  unfoldable pub close_abandoned :
      Disk → Store → String → String → Store × Result JournalError (List MutationJournal)
  unfolding close_files sorted_files
  close_abandoned disk store machine_id now =
      close_files disk machine_id now (sorted_files store) store []

  unfoldable pub after_close :
      Disk → Store → Request → Store × Result JournalError (List MutationJournal)
  after_close disk store r = elim r.machine_id [
    | none ↦ (store, ok [])
    | some machine ↦ close_abandoned disk store machine r.now
  ]

  -- From the answer of `close_abandoned` on.
  unfoldable pub begin_after :
      Disk
      → Request
      → Store × Result JournalError (List MutationJournal)
      → Result JournalError (Store × MutationJournal)
  unfolding new_journal write
  begin_after disk r (store, err e) = err e
  begin_after disk r (store, ok _) = non_terminal store >>= λ pending. elim pending [
    | [] ↦ write disk store (new_journal r) >>= λ store'. ok (store', new_journal r)
    | blocker ∷ _ ↦ err (recovery_pending blocker)
  ]

  unfoldable pub begin : Disk → Store → Request → Result JournalError (Store × MutationJournal)
  unfolding after_close begin_after
  begin disk store r = begin_after disk r (after_close disk store r)
