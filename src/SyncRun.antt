-- ===== src/SyncRun.antt =====
-- `run_sync` of src/codexsync/app.py: the engine under a journal and the safety gate, for a run that
-- holds the operation lock. What reads both sides again and saves the manifest after the engine, and
-- what prunes old snapshots, is a hook that may raise.
pub mod Phases
pub mod Ends
use Prim.Native.Char.{Char}
use codex_sync.Base.{
  ℕ, length, Dict, String, Bool, true, false, Option, none, some, List, [], ◌∷◌, if◌then◌else◌,
  Result, ok, err,
}
use codex_sync.Models.{SyncPlan, action_count}
use codex_sync.Journal.{
  JournalState, backed_up, committing, committed, failed, recovery_required, MutationJournal, Store,
  Disk, JournalError, transition, Request, after_close, begin,
}
use codex_sync.Journal.States.{is_committing}
use codex_sync.SafetyGate.{SafetyGate, SafetyDecision, Refusal, sync, require}
use codex_sync.Engine.State.{EngineError, refused, World, M, ◌>>◌, Hook, call}
use codex_sync.Engine.{Engine, Hooks, execute}

-- What the hooks of the run share: the journals, `current[0]` and the surroundings.
pub record Run {ℓ} (W : Type ℓ) : Type ℓ where
  pub store : Store
  pub current : MutationJournal
  pub around : W

pub record Context {ℓ} (W : Type ℓ) : Type ℓ where
  pub gate : SafetyGate W
  pub disk : Disk
  pub sha256 : String → String
  pub now : W → String
  pub class_name : EngineError → String
  pub save_baseline : Hook W
  pub prune : Hook W

pub data SyncError : Type 0 where
  file_conflicts : SyncError
  not_begun : JournalError → SyncError
  interrupted : EngineError → SyncError

unfoldable pub sync_plan_counts : SyncPlan → Dict ℕ
sync_plan_counts plan =
    ("to_cloud", length plan.to_cloud)
    ∷ ("to_local", length plan.to_local)
    ∷ ("deletions", length plan.deletions)
    ∷ []

-- What a run asks of `begin`; the hash of the plan, the name of the snapshot, the origin and the machine
-- are given.
unfoldable pub sync_request : SyncPlan → Request → Request
unfolding sync_plan_counts
sync_request plan request = record request {
  family = "sync";
  action_count = action_count plan;
  counts = some (sync_plan_counts plan);
}

module _ {ℓ} {W : Type ℓ} (ctx : Context W) where
  -- `current[0] = journals.transition(current[0], state)`
  unfoldable pub advance : JournalState → Option String → Hook (Run W)
  advance state failure r =
      elim (transition ctx.disk r.store r.current state failure (ctx.now r.around)) [
        | ok (store, journal) ↦ (ok tt, record r { store = store; current = journal })
        | err _ ↦ (err refused, r)
      ]

  -- What an answer of the gate means to the run; a check that does not end is no permission.
  abbrev pub let_through :
      Run W → Option (Result Refusal SafetyDecision × W) → Result EngineError (Unit {0}) × Run W
  let_through r none = (err refused, r)
  let_through r (some (ok _, around)) = (ok tt, record r { around = around })
  let_through r (some (err _, around)) = (err refused, record r { around = around })

  -- `ctx.safety_gate.require(OperationKind.SYNC, ...)`
  unfoldable pub require_sync : Bool → Hook (Run W)
  require_sync final r = let_through r (require ctx.gate sync final r.around)

  abbrev pub commit_if :
      Result EngineError (Unit {0}) × Run W → Result EngineError (Unit {0}) × Run W
  commit_if (ok _, r) = advance committing none r
  commit_if (err e, r) = (err e, r)

  unfoldable pub pre_commit : Hook (Run W)
  pre_commit r = commit_if (require_sync true r)

  abbrev pub engine : Engine (Run W)
  engine = record {
    hooks = record {
      before_stage_check = some (require_sync false);
      after_backup = some (advance backed_up none);
      pre_commit_check = some pre_commit;
      before_replace_check = some (require_sync true);
      after_success = none;
    };
    backup_before_overwrite = true;
    fail_on_unknown = true;
    sha256 = ctx.sha256;
  }

  -- A step that knows the surroundings only.
  unfoldable pub outside : Hook W → Hook (Run W)
  outside hook r =
      let (x, around) : Result EngineError (Unit {0}) × W = hook r.around in
      (x, record r { around = around })

  -- The body of `try`.
  unfoldable pub attempt : SyncPlan → M (Run W) (Unit {0})
  attempt plan =
      execute engine plan false
      >> call (some (outside ctx.save_baseline))
      >> call (some (advance committed none))
      >> call (some (outside ctx.prune))

  -- `except`: where the last state cannot be written, which is logged only, the journal stays as it is.
  unfoldable pub settle :
      Result EngineError (Unit {0}) × World (Run W) → Result SyncError (Unit {0}) × World (Run W)
  settle (ok _, w) = (ok tt, w)
  settle (err e, w) =
      let state = if is_committing w.hooks.current.state then recovery_required else failed in
      (
        err (interrupted e),
        record w { hooks = (advance state (some (ctx.class_name e)) w.hooks).1 },
      )

  -- The world of the engine, with other hooks.
  abbrev pub with_hooks {κ κ'} : {H : Type κ} {J : Type κ'} → World H → J → World J
  with_hooks w j = record {
    files = w.files;
    staged = w.staged;
    saved = w.saved;
    stamped = w.stamped;
    outcomes = w.outcomes;
    hooks = j;
  }

  abbrev pub leave :
      Result SyncError (Unit {0}) × World (Run W) → Result SyncError (Unit {0}) × World (Store × W)
  leave (r, w) = (r, with_hooks w (w.hooks.store, w.hooks.around))

  -- From the answer of `begin` on.
  unfoldable pub journalled :
      (Char → Bool)
      → SyncPlan
      → Request
      → World (Store × W)
      → Result JournalError (Store × MutationJournal)
      → Result SyncError (Unit {0}) × World (Store × W)
  unfolding attempt settle
  journalled is_decimal plan request w (err e) = (
    err (not_begun e),
    with_hooks w ((after_close is_decimal ctx.disk w.hooks.0 request).0, w.hooks.1),
  )
  journalled is_decimal plan request w (ok (store, journal)) = leave (
      settle (
        attempt plan
          (with_hooks w (record { store = store; current = journal; around = w.hooks.1 }))))

  -- Any conflict that is left in the plan stops the run.
  abbrev pub if_agreed {κ} :
      {A : Type κ}
      → List String
      → World (Store × W)
      → Result SyncError A × World (Store × W)
      → Result SyncError A × World (Store × W)
  if_agreed [] w go = go
  if_agreed (_ ∷ _) w go = (err file_conflicts, w)

  unfoldable pub run_sync :
      (Char → Bool)
      → SyncPlan
      → Bool
      → Request
      → World (Store × W)
      → Result SyncError (Unit {0}) × World (Store × W)
  unfolding journalled
  run_sync is_decimal plan dry_run request w = if_agreed plan.conflicts w (
      if dry_run
      then (ok tt, w)
      else journalled is_decimal plan request w
          (begin is_decimal ctx.disk w.hooks.0 (sync_request plan request)))
