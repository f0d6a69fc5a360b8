-- ===== src/Recovery.antt =====
-- src/codexsync/recovery.py: the two ways out of an interrupted mutation, and what a screen is told of
-- them. What a rollback puts back is planned and run by calls that may raise; they are arguments.
pub mod Refusals
pub mod Listing
pub mod Closing
pub mod Answers
pub mod Offers
use Prim.Native.Char.{Char}
use codex_sync.Base.{
  ℕ, String, ◌==◌, Bool, true, false, not, ◌&&◌, ◌||◌, Option, none, some, List, [], ◌∷◌,
  if◌then◌else◌, contains, any, is_some, is_none, Dict, lookup, keys, Result, ok, err, ◌>>=◌,
}
use codex_sync.Models.{Side, local, cloud}
use codex_sync.Journal.{
  JournalState, committing, failed, recovery_required, is_terminal, is_before_commit,
  MutationJournal, Store, Disk, JournalError, load, transition, owned_by,
}
use codex_sync.SafetyGate.{SafetyDecision, Refusal}
use Refusals.{
  BackupSnapshot, Backups, RollbackRefusal, no_snapshot, session_transfer, unsupported_family,
  snapshot_missing, snapshot_unreadable, foreign_state, sides_unrecorded, is_global_state_family,
  is_file_family, global_state_file, if_supported, locate_snapshot, is_local, is_foreign,
  refusal_of_sides, refusal_of_snapshot, rollback_refusal,
}

pub data RecoveryError : Type 0 where
  journal_error : JournalError → RecoveryError
  unsupported_target : RecoveryError
  identity_mismatch : RecoveryError
  already_terminal : JournalState → RecoveryError
  gate_refused : Refusal → RecoveryError
  snapshot_untrusted : RecoveryError
  cannot_roll_back : RollbackRefusal → RecoveryError
  not_planned not_restored : RecoveryError
  state_changed : RecoveryError

pub data RecoveryAction : Type 0 where
  retry_allowed nothing_to_roll_back rolled_back would_recover : RecoveryAction

pub record RecoveryOutcome : Type 0 where
  pub operation_id : String
  pub family : String
  pub state : JournalState
  pub action : RecoveryAction
  pub snapshot : Option String
  pub restored_files : ℕ

-- `_load_recoverable`, for what `load` answers.
abbrev pub recoverable :
    String → Result JournalError MutationJournal → Result RecoveryError MutationJournal
recoverable operation_id (err e) = err (journal_error e)
recoverable operation_id (ok journal) =
    if not (journal.operation_id == operation_id)
    then err identity_mismatch
    else if is_terminal journal.state
    then err (already_terminal journal.state)
    else ok journal

unfoldable pub load_recoverable : Store → String → Result RecoveryError MutationJournal
load_recoverable store operation_id = recoverable operation_id (load store operation_id)

-- `gate.require(...)`, with the gate's answer.
abbrev pub permitted : Result Refusal SafetyDecision → Result RecoveryError (Unit {0})
permitted (ok _) = ok tt
permitted (err refusal) = err (gate_refused refusal)

-- A journal that is closed, or the error that stopped it, with the folder of journals as it is then.
abbrev pub Closing : Type 0
Closing = Result RecoveryError (Unit {0}) × Store

-- `_close`; `now` is the time of both transitions.
unfoldable pub fail_journal : Disk → Store → MutationJournal → String → Closing
fail_journal disk store journal now = elim (transition disk store journal failed none now) [
  | err e ↦ (err (journal_error e), store)
  | ok (store', _) ↦ (ok tt, store')
]

abbrev pub is_committing : JournalState → Bool
is_committing committing = true
is_committing _ = false

unfoldable pub close : Disk → Store → MutationJournal → String → Closing
unfolding fail_journal
close disk store journal now =
    if is_committing journal.state
    then elim (transition disk store journal recovery_required none now) [
      | err e ↦ (err (journal_error e), store)
      | ok (store', journal') ↦ fail_journal disk store' journal' now
    ]
    else fail_journal disk store journal now

abbrev pub outcome_of : MutationJournal → RecoveryAction → ℕ → RecoveryOutcome
outcome_of journal action restored = record {
  operation_id = journal.operation_id;
  family = journal.family;
  state = journal.state;
  action = action;
  snapshot = journal.backup_snapshot;
  restored_files = restored;
}

-- A call that raised, with the folder of journals as it is.
abbrev pub Answer : Type 0
Answer = Result RecoveryError RecoveryOutcome × Store

-- What is answered once the journal is closed.
abbrev pub once_closed : Closing → Result RecoveryError RecoveryOutcome → Answer
once_closed (err e, store) answer = (err e, store)
once_closed (ok _, store) answer = (answer, store)

-- The last lines of `resume_operation` and of `_no_op_rollback`.
unfoldable pub close_with : Disk → Store → MutationJournal → Bool → String → RecoveryAction → Answer
unfolding close
close_with disk store journal dry_run now action =
    if dry_run
    then (ok (outcome_of journal would_recover 0), store)
    else once_closed (close disk store journal now) (ok (outcome_of journal action 0))

abbrev pub has_manifest : BackupSnapshot → Bool
has_manifest snapshot = is_some snapshot.manifest

-- `_verify_backup_snapshot` of a snapshot with a manifest file.
unfoldable pub is_verified : BackupSnapshot → Bool
is_verified snapshot = elim snapshot.manifest [
  | none ↦ false
  | some none ↦ false
  | some (some _) ↦ snapshot.is_intact
]

-- A snapshot that a resume would leave behind unusable.
abbrev pub is_broken : Option BackupSnapshot → Bool
is_broken none = false
is_broken (some snapshot) = has_manifest snapshot && not (is_verified snapshot)

unfoldable pub resume_operation :
    Disk → Store → Backups → String → Result Refusal SafetyDecision → Bool → String → Answer
unfolding close_with
resume_operation disk store backups operation_id answer dry_run now =
    elim (load_recoverable store operation_id >>= λ journal. permitted answer >>= λ _. ok journal) [
      | err e ↦ (err e, store)
      | ok journal ↦
          if is_broken (locate_snapshot backups journal.backup_snapshot)
          then (err snapshot_untrusted, store)
          else close_with disk store journal dry_run now retry_allowed
    ]

-- A rollback that is planned: whether the lock is had, whether the journal is as before under it, whether
-- the plan still fits, and what its run answers.
pub record Rollback : Type 0 where
  pub is_locked : Bool
  pub is_unchanged : Bool
  pub still_fits : Bool
  pub restored : Option ℕ

abbrev pub restored_answer : MutationJournal → Option ℕ → Result RecoveryError RecoveryOutcome
restored_answer journal none = err not_restored
restored_answer journal (some restored) = ok (outcome_of journal rolled_back restored)

-- The journal is closed first, the files are put back then.
unfoldable pub execute_rollback : Disk → Store → MutationJournal → Rollback → String → Answer
unfolding close
execute_rollback disk store journal rollback now =
    if not (rollback.is_locked && (rollback.is_unchanged && rollback.still_fits))
    then (err state_changed, store)
    else once_closed (close disk store journal now) (restored_answer journal rollback.restored)

-- From a snapshot with a manifest on.
unfoldable pub roll_back_files :
    Disk → Store → MutationJournal → BackupSnapshot → Option Rollback → Bool → String → Answer
unfolding execute_rollback
roll_back_files disk store journal snapshot planned dry_run now =
    if not (is_verified snapshot) then (err snapshot_untrusted, store) else elim planned [
      | none ↦ (err not_planned, store)
      | some rollback ↦
          if dry_run
          then (ok (outcome_of journal would_recover 0), store)
          else execute_rollback disk store journal rollback now
    ]

-- From the journal that is read on, once the gate has let it through.
unfoldable pub roll_back_journal :
    Disk → Store → Backups → MutationJournal → Option Rollback → Bool → String → Answer
unfolding roll_back_files close_with
roll_back_journal disk store backups journal planned dry_run now =
    if is_before_commit journal.state
    then close_with disk store journal dry_run now nothing_to_roll_back
    else elim (rollback_refusal journal backups) [
      | some refusal ↦ (err (cannot_roll_back refusal), store)
      | none ↦ elim (locate_snapshot backups journal.backup_snapshot) [
        | none ↦ (err (cannot_roll_back snapshot_missing), store)
        | some snapshot ↦
            if has_manifest snapshot
            then roll_back_files disk store journal snapshot planned dry_run now
            else close_with disk store journal dry_run now nothing_to_roll_back
      ]
    ]

-- From what `_load_recoverable` answers on.
unfoldable pub roll_back_loaded :
    Disk
    → Store
    → Backups
    → Result Refusal SafetyDecision
    → Option Rollback
    → Bool
    → String
    → Result RecoveryError MutationJournal
    → Answer
unfolding roll_back_journal
roll_back_loaded disk store backups answer planned dry_run now (err e) = (err e, store)
roll_back_loaded disk store backups answer planned dry_run now (ok journal) =
    if is_none journal.backup_snapshot
    then (err (cannot_roll_back no_snapshot), store)
    else elim (permitted answer) [
      | err e ↦ (err e, store)
      | ok _ ↦ roll_back_journal disk store backups journal planned dry_run now
    ]

-- `target not in (None, "local", "cloud")` is refused.
unfoldable pub is_target : Option String → Bool
is_target none = true
is_target (some target) = contains ("local" ∷ "cloud" ∷ []) target

-- What `target` rules out otherwise is found by the planning.
unfoldable pub rollback_operation :
    Disk
    → Store
    → Backups
    → String
    → Option String
    → Result Refusal SafetyDecision
    → Option Rollback
    → Bool
    → String
    → Answer
unfolding roll_back_loaded is_target
rollback_operation disk store backups operation_id target answer planned dry_run now =
    if not (is_target target)
    then (err unsupported_target, store)
    else roll_back_loaded disk store backups answer planned dry_run now
        (load_recoverable store operation_id)
