-- ===== src/Tests/Gates.antt =====
-- A gate whose clock counts nanoseconds, over a process that stops, and one that is started again.
use codex_sync.Base.{
  ℕ, ◌+◌, ◌≤◌, true, false, none, some, ◌≡◌, ◌≢◌, ◌==◌, ◌⊎◌, refl, Result, ok, err, ltb,
  if◌then◌else◌, arith,
}
use codex_sync.Base.Int.{pos, negsuc}
use codex_sync.SafetyGate.{
  sync, running, stopped, SafetyDecision, Sensors, SafetyGate, new_gate, Refusal, codex_running,
  require, operation_profile, check, watch_window, watch, sample_state, sampled, pause, read_sample,
  daemon_only, detail, judge,
}
use codex_sync.SafetyGate.Window.{IsClock, Watched, Quiet}
use codex_sync.SafetyGate.Requirement.{require-lets_through, require-turns_down, require-returns}

-- Codex starts at the given time.
abbrev sensors_until : ℕ → Sensors ℕ
sensors_until start = record {
  sample = λ w. (ok (if ltb w start then stopped else running), w + 1);
  monotonic = λ w. (w, w + 1);
  sleep = λ d w. w + d;
  describe = some (λ w. some "codex (pid 7)");
  cli_daemon_only = none;
}

abbrev time : ℕ → ℕ
time w = w

clock : (start : ℕ) → IsClock (sensors_until start) time
clock start = record {
  read_after = λ w. omega arith;
  read_before = λ w. omega arith;
  sample_after = λ w. omega arith;
  sleep_after = λ d w. omega arith;
}

abbrev gate_until : ℕ → SafetyGate ℕ
gate_until start = new_gate (sensors_until start) (pos 25000000) (negsuc 4)

abbrev allowed_sync : SafetyDecision
allowed_sync = record {
  operation = sync;
  process_state = stopped;
  allowed = true;
  reason = "continuous stopped process window passed";
  cli_daemon_only = false;
}

quiet_sync : require (gate_until 90000000) sync false 0 ≡ some (ok allowed_sync, 25000004)
unfolding require operation_profile check watch_window watch sample_state sampled pause read_sample
    daemon_only detail judge new_gate
quiet_sync = refl

busy_sync :
    require (gate_until 15000000) sync false 0
    ≡ some (
      err (codex_running sync "Codex or known background process detected: codex (pid 7)"),
      20000008,
    )
unfolding require operation_profile check watch_window watch sample_state sampled pause read_sample
    daemon_only detail judge new_gate ◌==◌
busy_sync = refl

require-lets_through_example :
    (allowed_sync.process_state ≡ stopped)
    × Quiet (sensors_until 90000000) 0 25000004
    × Watched (sensors_until 90000000) (gate_until 90000000).sample_interval 0 25000004
    × ((false ≡ true) ⊎ (0 + 25000000 ≤ 25000004))
unfolding new_gate operation_profile
require-lets_through_example =
    require-lets_through (gate_until 90000000) (clock 90000000) sync false 0 refl quiet_sync

require-turns_down_example :
    (u : ℕ) × Quiet (sensors_until 15000000) 0 u
    × (((sensors_until 15000000).sample u).0 ≢ ok stopped)
    × (20000008 ≡ ((sensors_until 15000000).sample u).1)
unfolding new_gate
require-turns_down_example =
    require-turns_down (gate_until 15000000) (clock 15000000) sync false 0 busy_sync

require-returns_example :
    (r : Result Refusal SafetyDecision × ℕ) × (require
        (new_gate (sensors_until 15000000) (pos 25000000) (negsuc 4))
        sync
        false
        0
      ≡ some r)
require-returns_example =
    require-returns (sensors_until 15000000) (pos 25000000) (negsuc 4) sync false 0 (clock 15000000)
