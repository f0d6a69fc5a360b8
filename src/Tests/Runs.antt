-- ===== src/Tests/Runs.antt =====
-- A run of the engine under its journal, with a removal that fails.
use Prim.Native.Char.{Char}
use codex_sync.Base.{Bool, true, false, none, some, [], ◌∷◌, ◌≡◌, refl, ok, insert}
use codex_sync.Base.Int.{pos}
use codex_sync.Models.{cloud, SyncPlan, empty_plan}
use codex_sync.Journal.{
  MutationJournal, recovery_required, Disk, Store, Request, new_journal, write, begin, after_close,
}
use codex_sync.Journal
use codex_sync.SafetyGate.{stopped, new_gate}
use codex_sync.Engine.State.{works, raises, World}
use codex_sync.SyncRun.{Context, sync_request, run_sync}
use codex_sync.SyncRun.Ends.{Told, run_sync-ends}

-- The journal of a run that is to be recovered cannot be written.
abbrev no_closing : Disk
no_closing s j = elim j.state [ recovery_required ↦ false | _ ↦ true ]

abbrev quiet : Context (Unit {0})
quiet = record {
  gate =
      new_gate
        (record {
          sample = λ w. (ok stopped, w);
          monotonic = λ w. (0, w);
          sleep = λ d w. w;
          describe = none;
          cli_daemon_only = none;
        })
        (pos 0) (pos 0);
  disk = no_closing;
  sha256 = λ x. x;
  now = λ w. "t1";
  class_name = λ e. "FailSafeError";
  save_baseline = λ w. (ok tt, w);
  prune = λ w. (ok tt, w);
}

abbrev removal : SyncPlan
removal = record empty_plan {
  deletions = record { path = "cloud/b"; relative_path = "b"; side = cloud } ∷ [];
}

abbrev request : Request
request = record {
  family = "";
  plan_hash = "h";
  action_count = 0;
  backup_snapshot = none;
  counts = none;
  origin = none;
  machine_id = none;
  uuid = "c";
  now = "t0";
}

abbrev opening : World (Store × Unit {0})
opening = record {
  files = ("cloud/b", "gone") ∷ [];
  staged = [];
  saved = [];
  stamped = false;
  outcomes = works ∷ works ∷ raises ∷ [];
  hooks = ([], tt);
}

abbrev no_decimal : Char → Bool
no_decimal c = false

abbrev opened : Store × MutationJournal
opened = (
  ("c", some (new_journal (sync_request removal request))) ∷ [],
  new_journal (sync_request removal request),
)

request-begins : begin no_decimal no_closing [] (sync_request removal request) ≡ ok opened
unfolding begin Journal.non_terminal insert sync_request
request-begins = refl

run_sync-ends_example :
    Told no_closing "c" opening.files
      (run_sync quiet no_decimal removal false request opening).1.files
      (run_sync quiet no_decimal removal false request opening).1.hooks.0
      (run_sync quiet no_decimal removal false request opening).0
run_sync-ends_example =
    run_sync-ends quiet no_decimal removal request opening opened refl request-begins
