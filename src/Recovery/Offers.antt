-- ===== src/Recovery/Offers.antt =====
-- What a screen offers for a journal is what the recovery then does.
use Prim.Native.Char.{Char}
use codex_sync.Base.{String, Bool, true, Option, Result, ok, err, ◌≡◌}
use codex_sync.Journal.{MutationJournal, Store, Disk, JournalError}
use codex_sync.SafetyGate.{SafetyDecision, Refusal}
use codex_sync.Recovery.{RecoveryError, Answer, Rollback}
use codex_sync.Recovery.Refusals.{Backups, locate_snapshot}
use codex_sync.Recovery.Answers.{unharmed}

module _ (disk : Disk) (store : Store) (backups : Backups) (answer : Result Refusal SafetyDecision)
    (planned : Option Rollback) (dry_run : Bool) (now : String) where
  abbrev Refuses : Answer → Type 0
  Refuses a = (e : RecoveryError) × (a ≡ (err e, store))

  -- The snapshot of the journal that is read.
  abbrev pub snapshot_unharmed : Result JournalError MutationJournal → Bool
  snapshot_unharmed (err _) = true
  snapshot_unharmed (ok journal) = unharmed (locate_snapshot backups journal.backup_snapshot)
