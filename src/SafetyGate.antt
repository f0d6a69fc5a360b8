-- ===== src/SafetyGate.antt =====
-- src/codexsync/safety_gate.py: whether an operation may write while Codex might be running.
-- Times are whole nanoseconds. What the detector, the clock and the hooks answer depends on a
-- state of the surroundings, which every call of the first two may change.
pub mod Window
pub mod Requirement
use Prim.Native.Nat.{min}
use codex_sync.Base.{
  ℕ, zero, suc, ◌+◌, ◌-◌, String, ◌<>◌, ◌==◌, Bool, true, false, not, ◌&&◌, Option, none, some, ltb,
  max, if◌then◌else◌, Result, ok, err,
}
use codex_sync.Base.Int.{ℤ, pos_part}

pub data OperationKind : Type 0 where
  guardian_watch guardian_snapshot doctor plan repair_scan sync restore repair_apply : OperationKind
  chat_move session_scan session_apply recover_resume recover_rollback : OperationKind
  guardian_restore project_move project_sync state_backup : OperationKind

pub data ProcessState : Type 0 where
  running stopped unknown : ProcessState

pub record OperationProfile : Type 0 where
  pub kind : OperationKind
  pub requires_stopped : Bool
  pub mutation : Bool
  pub side_effect_free : Bool

pub record SafetyDecision : Type 0 where
  pub operation : OperationKind
  pub process_state : ProcessState
  pub allowed : Bool
  pub reason : String
  pub cli_daemon_only : Bool

abbrev profile : OperationKind → Bool → Bool → Bool → OperationProfile
profile kind requires_stopped mutation side_effect_free = record {
  kind = kind;
  requires_stopped = requires_stopped;
  mutation = mutation;
  side_effect_free = side_effect_free;
}

unfoldable pub operation_profile : OperationKind → OperationProfile
operation_profile guardian_watch = profile guardian_watch false false false
operation_profile guardian_snapshot = profile guardian_snapshot false false false
operation_profile doctor = profile doctor false false true
operation_profile plan = profile plan false false true
operation_profile repair_scan = profile repair_scan false false true
operation_profile sync = profile sync true true false
operation_profile restore = profile restore true true false
operation_profile repair_apply = profile repair_apply true true false
operation_profile chat_move = profile chat_move true true false
operation_profile session_scan = profile session_scan false false true
operation_profile session_apply = profile session_apply true true false
operation_profile recover_resume = profile recover_resume true true false
operation_profile recover_rollback = profile recover_rollback true true false
operation_profile guardian_restore = profile guardian_restore true true false
operation_profile project_move = profile project_move true true false
operation_profile project_sync = profile project_sync true true false
operation_profile state_backup = profile state_backup true false false

-- The functions that the gate is given. A sample or a hook that raises answers `err` or `none`.
pub record Sensors {ℓ} (W : Type ℓ) : Type ℓ where
  pub sample : W → Result String ProcessState × W
  pub monotonic : W → ℕ × W
  pub sleep : ℕ → W → W
  pub describe : Option (W → Option String)
  pub cli_daemon_only : Option (W → Option Bool)

pub record SafetyGate {ℓ} (W : Type ℓ) : Type ℓ where
  pub sensors : Sensors W
  pub stable_window : ℕ
  pub sample_interval : ℕ

-- `__init__`: `max(0.0, window)` and `max(0.01, interval)`.
unfoldable pub new_gate {ℓ} : {W : Type ℓ} → Sensors W → ℤ → ℤ → SafetyGate W
new_gate sensors window interval = record {
  sensors = sensors;
  stable_window = pos_part window;
  sample_interval = max 10000000 (pos_part interval);
}

abbrev pub is_stopped : ProcessState → Bool
is_stopped stopped = true
is_stopped _ = false

module _ {ℓ} {W : Type ℓ} (gate : SafetyGate W) where
  -- `_detail`
  unfoldable pub detail : W → String
  detail w = elim gate.sensors.describe [
    | none ↦ ""
    | some describe ↦ elim (describe w) [
      | none ↦ ""
      | some found ↦ if found == "" then "" else ": " <> found
    ]
  ]

  -- `_daemon_only`
  unfoldable pub daemon_only : ProcessState → W → Bool
  daemon_only running w = elim gate.sensors.cli_daemon_only [
    | none ↦ false
    | some hook ↦ elim (hook w) [ none ↦ false | some answer ↦ answer ]
  ]
  daemon_only _ w = false

  -- `_sample_state`, for the answer of a sample and the surroundings behind it.
  unfoldable pub read_sample : Result String ProcessState → W → ProcessState × String
  unfolding detail
  read_sample (err problem) w = (unknown, "process enumeration failed: " <> problem)
  read_sample (ok stopped) w = (stopped, "no Codex or known background process detected")
  read_sample (ok running) w = (running, "Codex or known background process detected" <> detail w)
  read_sample (ok unknown) w = (unknown, "process detector returned an unknown state")

  unfoldable pub sample_state : W → (ProcessState × String) × W
  sample_state w =
      let (answer, w') : Result String ProcessState × W = gate.sensors.sample w in
      (read_sample answer w', w')

  -- The decision that carries the sample's state and reason.
  unfoldable pub sampled : OperationKind → Bool → ProcessState × String → W → SafetyDecision
  sampled operation allowed (state, reason) w = record {
    operation = operation;
    process_state = state;
    allowed = allowed;
    reason = reason;
    cli_daemon_only = daemon_only state w;
  }

  abbrev pub passed : OperationKind → String → SafetyDecision
  passed operation reason = record {
    operation = operation;
    process_state = stopped;
    allowed = true;
    reason = reason;
    cli_daemon_only = false;
  }

  -- `sleep(min(interval, max(0.0, deadline - monotonic())))`
  unfoldable pub pause : ℕ → W → W
  pause deadline w =
      let (now, w') : ℕ × W = gate.sensors.monotonic w in
      gate.sensors.sleep (min gate.sample_interval (deadline - now)) w'

  -- The loop of `check`; `none` when the fuel is used up.
  unfoldable pub watch : ℕ → OperationKind → ℕ → W → Option (SafetyDecision × W)
  unfolding pause sample_state sampled
  watch zero operation deadline w = none
  watch (suc fuel) operation deadline w =
      let (now, w₁) : ℕ × W = gate.sensors.monotonic w in
      let (seen, w₂) : (ProcessState × String) × W = sample_state (pause deadline w₁) in
      let rest = watch fuel operation deadline w₂ in
      if not (ltb now deadline)
      then some (passed operation "continuous stopped process window passed", w₁)
      else if not (is_stopped (seen.0))
      then some (sampled operation false seen w₂, w₂)
      else rest

  -- From the first clock reading of `check` on.
  unfoldable pub watch_window : OperationKind → W → Option (SafetyDecision × W)
  unfolding watch
  watch_window operation w =
      let (now, w') : ℕ × W = gate.sensors.monotonic w in
      watch (suc gate.stable_window) operation (now + gate.stable_window) w'

  unfoldable pub check : OperationKind → Bool → W → Option (SafetyDecision × W)
  unfolding sample_state sampled operation_profile
  check operation final w =
      let (seen, w') : (ProcessState × String) × W = sample_state w in
      if not (operation_profile operation).requires_stopped
      then some (sampled operation true seen w', w')
      else if not (is_stopped (seen.0))
      then some (sampled operation false seen w', w')
      else if final
      then some (passed operation "final stopped process check passed", w')
      else watch_window operation w'

-- The exceptions of `require`, by their codes.
pub data Refusal : Type 0 where
  codex_cli_daemon codex_running codex_state_unknown : OperationKind → String → Refusal

-- The last lines of `require`, for a decision.
unfoldable pub judge : SafetyDecision → Result Refusal SafetyDecision
judge decision = if decision.allowed then ok decision else elim decision.process_state [
  | running ↦
      if decision.cli_daemon_only
      then err (codex_cli_daemon decision.operation decision.reason)
      else err (codex_running decision.operation decision.reason)
  | _ ↦ err (codex_state_unknown decision.operation decision.reason)
]

unfoldable pub require {ℓ} :
    {W : Type ℓ}
    → SafetyGate W
    → OperationKind
    → Bool
    → W
    → Option (Result Refusal SafetyDecision × W)
unfolding judge check
require gate operation final w = elim (check gate operation final w) [
  | none ↦ none
  | some (decision, w') ↦ some (judge decision, w')
]
