-- ===== src/Recovery/Answers.antt =====
-- A rollback that is not refused answers, or fails for a reason that is not the journal's.
use codex_sync.Base.{
  ℕ, String, subst, Bool, true, false, ◌&&◌, Option, none, some, is_none, Result, ok, err, ◌≡◌, ◌≢◌,
  refl, Bool-cases, Option-cases, inl, inr, arith,
}
use codex_sync.Journal.{is_terminal, is_before_commit, MutationJournal, Store, Disk, write_failed}
use codex_sync.Recovery.Closing.{Ends, close-Closes}
use codex_sync.SafetyGate.{SafetyDecision, Refusal}
use codex_sync.Recovery.{
  RecoveryError, Closing, close, once_closed, restored_answer, unsupported_target,
  snapshot_untrusted, not_planned, not_restored, state_changed, journal_error, gate_refused,
  RecoveryAction, RecoveryOutcome, nothing_to_roll_back, close_with, has_manifest, is_verified,
  Rollback, execute_rollback, roll_back_files, roll_back_journal, roll_back_loaded,
}
use codex_sync.Recovery.Refusals.{Backups, BackupSnapshot, rollback_refusal, locate_snapshot}

-- The snapshot that a journal names is as it was saved, if it is there.
abbrev pub unharmed : Option BackupSnapshot → Bool
unharmed none = true
unharmed (some snapshot) = snapshot.is_intact

-- The errors that a journal, or its snapshot, gives rise to. Those of the command line, of the gate, the
-- planning, the lock, the restore and of a refused journal write are others, and so is a snapshot whose
-- contents have not the hashes of its manifest.
abbrev pub is_refusal : Bool → Result RecoveryError RecoveryOutcome → Bool
is_refusal intact (ok _) = false
is_refusal intact (err e) = elim e [
  | journal_error write_failed ↦ false
  | snapshot_untrusted ↦ intact
  | unsupported_target ↦ false
  | gate_refused _ ↦ false
  | not_planned ↦ false
  | not_restored ↦ false
  | state_changed ↦ false
  | _ ↦ true
]

module _ (disk : Disk) (store : Store) (backups : Backups) (answer : Result Refusal SafetyDecision)
    (planned : Option Rollback) (dry_run : Bool) (now : String) where
  close-answers :
      (journal : MutationJournal) (answer : Result RecoveryError RecoveryOutcome) (intact : Bool)
      → is_terminal journal.state ≡ false
      → is_refusal intact answer ≡ false
      → is_refusal intact (once_closed (close disk store journal now) answer).0 ≡ false
  close-answers journal answer intact live fine =
      go (close disk store journal now) (close-Closes disk store journal now live)
    where
      go :
          (c : Closing)
          → Ends disk store journal c
          → is_refusal intact (once_closed c answer).0 ≡ false
      go (ok _, after) e = fine
      go (err e, after) (inl (h, _)) = cc
      go (err e, after) (inr (h, _, _)) =
          let same : journal_error write_failed ≡ e = cc in
          subst (λ x. is_refusal intact (err x) ≡ false) same refl

  close_with-answers :
      (journal : MutationJournal) (action : RecoveryAction) (intact : Bool)
      → is_terminal journal.state ≡ false
      → is_refusal intact (close_with disk store journal dry_run now action).0 ≡ false
  unfolding close_with
  close_with-answers journal action intact live = elim (Bool-cases dry_run) [
    | inl h ↦ rw (h, close_with) refl
    | inr h ↦ rw (h, close_with) (close-answers journal _ intact live refl)
  ]

  restored_answer-fine :
      (journal : MutationJournal) (restored : Option ℕ) (intact : Bool)
      → is_refusal intact (restored_answer journal restored) ≡ false
  restored_answer-fine journal none intact = refl
  restored_answer-fine journal (some n) intact = refl

  execute_rollback-answers :
      (journal : MutationJournal) (rollback : Rollback) (intact : Bool)
      → is_terminal journal.state ≡ false
      → is_refusal intact (execute_rollback disk store journal rollback now).0 ≡ false
  unfolding execute_rollback
  execute_rollback-answers journal rollback intact live =
      elim (Bool-cases (rollback.is_locked && (rollback.is_unchanged && rollback.still_fits))) [
        | inr h ↦ rw (h, execute_rollback) refl
        | inl h ↦
            rw (h, execute_rollback)
              (close-answers journal _ intact live
                (restored_answer-fine journal rollback.restored intact))
      ]

  roll_back_files-answers :
      (journal : MutationJournal) (snapshot : BackupSnapshot)
      → is_terminal journal.state ≡ false
      → (is_verified snapshot ≡ false → snapshot.is_intact ≡ false)
      → is_refusal snapshot.is_intact
          (roll_back_files disk store journal snapshot planned dry_run now).0
        ≡ false
  unfolding roll_back_files
  roll_back_files-answers journal snapshot live sound = elim (Bool-cases (is_verified snapshot)) [
    | inr h ↦ rw (h, roll_back_files) (sound h)
    | inl h ↦ elim (Option-cases planned) [
      | inl p ↦ rw (h, p, roll_back_files) refl
      | inr (rollback, p) ↦ elim (Bool-cases dry_run) [
        | inl d ↦ rw (h, p, d, roll_back_files) refl
        | inr d ↦
            rw (h, p, d, roll_back_files)
              (execute_rollback-answers journal rollback snapshot.is_intact live)
      ]
    ]
  ]

  recorded :
      (journal : MutationJournal)
      → rollback_refusal journal backups ≡ none
      → is_none journal.backup_snapshot ≡ false
  unfolding rollback_refusal
  recorded journal clear = ground arith

  refused :
      (journal : MutationJournal)
      → is_before_commit journal.state ≡ false
      → locate_snapshot backups journal.backup_snapshot ≡ none
      → rollback_refusal journal backups ≢ none
  unfolding rollback_refusal
  refused journal late gone clear = ground arith

  -- A snapshot that is needed is there.
  cleared :
      (journal : MutationJournal)
      → is_before_commit journal.state ≡ false
      → rollback_refusal journal backups ≡ none
      → (snapshot : BackupSnapshot) × (locate_snapshot backups journal.backup_snapshot
          ≡ some snapshot)
  unfolding rollback_refusal
  cleared journal late clear =
      elim (Option-cases (locate_snapshot backups journal.backup_snapshot)) [
        | inr found ↦ found
        | inl gone ↦ absurd (refused journal late gone clear)
      ]

  -- A snapshot that is not refused and has a manifest fails its verification by its hashes alone.
  unverified :
      (journal : MutationJournal) (snapshot : BackupSnapshot)
      → is_before_commit journal.state ≡ false
      → rollback_refusal journal backups ≡ none
      → locate_snapshot backups journal.backup_snapshot ≡ some snapshot
      → has_manifest snapshot ≡ true
      → is_verified snapshot ≡ false
      → snapshot.is_intact ≡ false
  unfolding rollback_refusal is_verified
  unverified journal snapshot late clear found m bad = ground arith

  roll_back_journal-answers :
      (journal : MutationJournal)
      → is_terminal journal.state ≡ false
      → rollback_refusal journal backups ≡ none
      → is_refusal
          (unharmed (locate_snapshot backups journal.backup_snapshot))
          (roll_back_journal disk store backups journal planned dry_run now).0
        ≡ false
  unfolding roll_back_journal
  roll_back_journal-answers journal live clear =
      elim (Bool-cases (is_before_commit journal.state)) [
        | inl h ↦ rw (h, roll_back_journal) (close_with-answers journal nothing_to_roll_back _ live)
        | inr h ↦
            let (snapshot, found) = cleared journal h clear in
            elim (Bool-cases (has_manifest snapshot)) [
              | inl m ↦
                  rw (h, clear, found, m, roll_back_journal)
                    (roll_back_files-answers journal snapshot live
                      (unverified journal snapshot h clear found m))
              | inr m ↦
                  rw (h, clear, found, m, roll_back_journal)
                    (close_with-answers journal nothing_to_roll_back _ live)
            ]
      ]

  pub roll_back_loaded-answers :
      (journal : MutationJournal)
      → is_terminal journal.state ≡ false
      → rollback_refusal journal backups ≡ none
      → is_refusal
          (unharmed (locate_snapshot backups journal.backup_snapshot))
          (roll_back_loaded disk store backups answer planned dry_run now (ok journal)).0
        ≡ false
  unfolding roll_back_loaded
  roll_back_loaded-answers journal live clear =
      let h = recorded journal clear in
      elim answer
        as (λ a.
          is_refusal (unharmed (locate_snapshot backups journal.backup_snapshot))
            (roll_back_loaded disk store backups a planned dry_run now (ok journal)).0
          ≡ false) [
            | err refused ↦ rw (h, roll_back_loaded) refl
            | ok _ ↦ rw (h, roll_back_loaded) (roll_back_journal-answers journal live clear)
          ]
