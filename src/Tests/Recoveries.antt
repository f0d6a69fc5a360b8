-- ===== src/Tests/Recoveries.antt =====
-- A sync that stopped in its commit phase, with its snapshot.
use Prim.Native.Char.{Char}
use codex_sync.Base.{Bool, true, false, none, some, [], ◌∷◌, refl}
use codex_sync.Models.{local, cloud}
use codex_sync.Journal.{committing, failed, MutationJournal, Store, Disk, Request}
use codex_sync.SafetyGate.{recover_resume, stopped, SafetyDecision}
use codex_sync.Recovery.{is_committing, close}
use codex_sync.Recovery.Refusals.{Backups}
use codex_sync.Recovery.Closing.{Ends, close-Closes}

abbrev stopped_sync : MutationJournal
stopped_sync = record {
  operation_id = "a";
  family = "sync";
  state = committing;
  created_at_utc = "t0";
  plan_hash = "h";
  action_count = 1;
  backup_snapshot = some "s";
  counts = none;
  origin = none;
  finished_at_utc = none;
  failure = none;
  machine_id = none;
}

abbrev journals : Store
journals =
    ("a", some stopped_sync)
    ∷ ("b", some (record stopped_sync { operation_id = "b"; state = failed }))
    ∷ []

abbrev backups : Backups
backups =
    (
      "s",
      record {
        is_supported = true;
        manifest = some (some (("x", some cloud) ∷ ("y", some local) ∷ []));
        is_intact = true;
      },
    )
    ∷ []

abbrev allowed : SafetyDecision
allowed = record {
  operation = recover_resume;
  process_state = stopped;
  allowed = true;
  reason = "";
  cli_daemon_only = false;
}

abbrev next_run : Request
next_run = record {
  family = "sync";
  plan_hash = "h";
  action_count = 1;
  backup_snapshot = none;
  counts = none;
  origin = none;
  machine_id = some "desk";
  uuid = "c";
  now = "t2";
}

abbrev no_decimal : Char → Bool
no_decimal c = false

abbrev any_disk : Disk
any_disk s j = true

-- The second transition of a closing is refused.
abbrev full_disk : Disk
full_disk s j = is_committing j.state

close-Closes_example :
    Ends full_disk journals stopped_sync (close full_disk journals stopped_sync "t1")
close-Closes_example = close-Closes full_disk journals stopped_sync "t1" refl
