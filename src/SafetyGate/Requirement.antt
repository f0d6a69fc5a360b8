-- ===== src/SafetyGate/Requirement.antt =====
-- `require`: what it lets through, what it turns down, and that it ends.
use codex_sync.Base.{
  ℕ, suc, ◌+◌, ◌≤◌, ◌≡◌, ◌≢◌, ◌⊎◌, refl, sym, ◌∙◌, Bool, true, false, Option, none, some, Result,
  ok, err, arith, Bool-cases, Option-cases, inl, inr,
}
use codex_sync.Base.Int.{ℤ}
use codex_sync.SafetyGate.{
  OperationKind, ProcessState, stopped, SafetyDecision, Sensors, SafetyGate, new_gate, is_stopped,
  operation_profile, sample_state, sampled, passed, watch_window, check, Refusal, judge, require,
}
use codex_sync.SafetyGate.Window.{
  IsClock, Quiet, still, Watched, begins, looks, Watched-Quiet, Told, let_through, turned_down,
  read_sample-stopped, read_sample-live, watch-Told, watch-returns,
}

-- Every operation that may write needs a stopped process.
mutation-requires_stopped :
    (operation : OperationKind)
    → (operation_profile operation).mutation ≡ true
    → (operation_profile operation).requires_stopped ≡ true
unfolding operation_profile
mutation-requires_stopped operation h = ground arith

module _ {ℓ} {W : Type ℓ} (gate : SafetyGate W) {now : W → ℕ}
    (clock : IsClock gate.sensors now) where
  abbrev sensors : Sensors W
  sensors = gate.sensors

  abbrev seen : W → ProcessState
  seen w = ((sample_state gate w).0).0

  -- The time that has passed, when a check was not the final one.
  abbrev pub Lasted : Bool → W → W → Type 0
  Lasted final w w' = (final ≡ true) ⊎ (now w + gate.stable_window ≤ now w')

  watch_window-Told :
      (operation : OperationKind) (w : W) {v : W} {r : SafetyDecision × W}
      → now w ≤ now v
      → Watched sensors gate.sample_interval w v
      → watch_window gate operation v ≡ some r
      → Told gate w (Lasted false w) r
  unfolding watch_window
  watch_window-Told operation w {v} later q h =
      weaken (watch-Told gate clock (suc gate.stable_window) operation _ w h (looks q))
    where
      weaken :
          {r : SafetyDecision × W}
          → Told gate w (λ w'. (sensors.monotonic v).0 + gate.stable_window ≤ now w') r
          → Told gate w (Lasted false w) r
      weaken (let_through a s q' p) = let_through a s q' (inr (ground (arith, clock.read_after v)))
      weaken (turned_down a s q' n) = turned_down a s q' n

  check-sampled :
      (operation : OperationKind) (final : Bool) (w : W)
      → (operation_profile operation).requires_stopped ≡ true
      → is_stopped (seen w) ≡ false
      → check gate operation final w
        ≡ some (
          sampled gate operation false ((sample_state gate w).0) ((sensors.sample w).1),
          (sensors.sample w).1,
        )
  unfolding check sample_state
  check-sampled operation final w needs live = rw (needs, live) refl

  check-free :
      (operation : OperationKind) (final : Bool) (w : W)
      → (operation_profile operation).requires_stopped ≡ false
      → check gate operation final w
        ≡ some (
          sampled gate operation true ((sample_state gate w).0) ((sensors.sample w).1),
          (sensors.sample w).1,
        )
  unfolding check sample_state
  check-free operation final w free = rw free refl

  check-final :
      (operation : OperationKind) (w : W)
      → (operation_profile operation).requires_stopped ≡ true
      → is_stopped (seen w) ≡ true
      → check gate operation true w
        ≡ some (passed gate operation "final stopped process check passed", (sensors.sample w).1)
  unfolding check sample_state
  check-final operation w needs quiet = rw (needs, quiet) refl

  check-window :
      (operation : OperationKind) (w : W)
      → (operation_profile operation).requires_stopped ≡ true
      → is_stopped (seen w) ≡ true
      → check gate operation false w ≡ watch_window gate operation ((sensors.sample w).1)
  unfolding check sample_state
  check-window operation w needs quiet = rw (needs, quiet) refl

  check-Told :
      (operation : OperationKind) (final : Bool) (w : W) {r : SafetyDecision × W}
      → (operation_profile operation).requires_stopped ≡ true
      → check gate operation final w ≡ some r
      → Told gate w (Lasted final w) r
  unfolding sample_state sampled
  check-Told operation final w {r} needs h = elim (Bool-cases (is_stopped (seen w))) [
    | inr live ↦
        let e : (
          sampled gate operation false ((sample_state gate w).0) ((sensors.sample w).1),
          (sensors.sample w).1,
        )
            ≡ r =
          cc (check-sampled operation final w needs live) in
        rw (← e) (turned_down refl live still (read_sample-live gate _ _ live))
    | inl quiet ↦ go final quiet h
  ]
    where
      go :
          (final : Bool)
          → is_stopped (seen w) ≡ true
          → check gate operation final w ≡ some r
          → Told gate w (Lasted final w) r
      go true quiet h =
          let e : (passed gate operation "final stopped process check passed", (sensors.sample w).1)
              ≡ r =
            cc (check-final operation w needs quiet) in
          rw (← e) (let_through refl refl (begins (read_sample-stopped gate _ _ quiet)) (inl refl))
      go false quiet h =
          watch_window-Told operation w (clock.sample_after w)
            (begins (read_sample-stopped gate _ _ quiet))
            (sym (check-window operation w needs quiet) ∙ h)

  judge-ok :
      (d : SafetyDecision) {d' : SafetyDecision} → judge d ≡ ok d' → (d.allowed ≡ true) × (d ≡ d')
  unfolding judge
  judge-ok d h = ground arith

  judge-err : (d : SafetyDecision) {e : Refusal} → judge d ≡ err e → d.allowed ≡ false
  unfolding judge
  judge-err d h = ground arith

  require-inversion :
      (operation : OperationKind) (final : Bool) (w : W) {x : Result Refusal SafetyDecision}
      {w' : W}
      → require gate operation final w ≡ some (x, w')
      → (d : SafetyDecision) × (check gate operation final w ≡ some (d, w')) × (judge d ≡ x)
  unfolding require
  require-inversion operation final w {x} {w'} h =
      elim (Option-cases (check gate operation final w)) [
        | inl e ↦ absurd (lost (rw (e, require) at h))
        | inr ((d, v), e) ↦ let (j, same) = ends d v (rw (e, require) at h) in (d, rw (← same) e, j)
      ]
    where
      lost : ◌≡◌ {A = Option (Result Refusal SafetyDecision × W)} none (some (x, w')) → ⊥
      lost e = cc

      ends :
          (d : SafetyDecision) (v : W)
          → ◌≡◌ {A = Option (Result Refusal SafetyDecision × W)} (some (judge d, v)) (some (x, w'))
          → (judge d ≡ x) × (v ≡ w')
      ends d v e = (cc, cc)

  -- An operation that may write is let through only after every sample, from the call of `require`
  -- to its return, has said `STOPPED`. The first step is such a sample, and every sleep is asked for at most
  -- one sampling interval and has a sample right behind it. Unless it was the final check, all that took
  -- at least the stable window.
  pub require-lets_through :
      (operation : OperationKind) (final : Bool) (w : W) {d : SafetyDecision} {w' : W}
      → (operation_profile operation).mutation ≡ true
      → require gate operation final w ≡ some (ok d, w')
      → (d.process_state ≡ stopped)
        × Quiet sensors w w'
        × Watched sensors gate.sample_interval w w'
        × Lasted final w w'
  require-lets_through operation final w {d} {w'} writes h =
      let (d₀, e, j) = require-inversion operation final w h in
      let (allowed, same) = judge-ok d₀ j in
      go (check-Told operation final w (mutation-requires_stopped operation writes) e) allowed same
    where
      go :
          {d₀ : SafetyDecision} {w' : W}
          → Told gate w (Lasted final w) (d₀, w')
          → d₀.allowed ≡ true
          → d₀ ≡ d
          → (d.process_state ≡ stopped)
            × Quiet sensors w w'
            × Watched sensors gate.sample_interval w w'
            × Lasted final w w'
      go (let_through a s q p) allowed same = (rw (← same) s, Watched-Quiet q, q, p)
      go (turned_down a s q n) allowed same = cc

  -- A refusal has its evidence: every sample said `STOPPED` up to the last one, which did not,
  -- and behind which nothing was read any more.
  pub require-turns_down :
      (operation : OperationKind) (final : Bool) (w : W) {e : Refusal} {w' : W}
      → require gate operation final w ≡ some (err e, w')
      → (u : W) × Quiet sensors w u
        × ((sensors.sample u).0 ≢ ok stopped)
        × (w' ≡ (sensors.sample u).1)
  unfolding sampled
  require-turns_down operation final w {e} {w'} h =
      let (d, c, j) = require-inversion operation final w h in
      elim (Bool-cases (operation_profile operation).requires_stopped) [
        | inl needs ↦ go (check-Told operation final w needs c) (judge-err d j)
        | inr free ↦ absurd (freed (sym (check-free operation final w free) ∙ c) (judge-err d j))
      ]
    where
      freed :
          {d : SafetyDecision}
          → ◌≡◌ {A = Option (SafetyDecision × W)}
              (some (
                sampled gate operation true ((sample_state gate w).0) ((sensors.sample w).1),
                (sensors.sample w).1,
              ))
              (some (d, w'))
          → d.allowed ≡ false
          → ⊥
      freed s a = cc

      go :
          {d : SafetyDecision} {w' : W}
          → Told gate w (Lasted final w) (d, w')
          → d.allowed ≡ false
          → (u : W) × Quiet sensors w u
            × ((sensors.sample u).0 ≢ ok stopped)
            × (w' ≡ (sensors.sample u).1)
      go (let_through a s q p) refused = cc
      go (turned_down a s q n) refused = (_, q, n, refl)

  require-of_check :
      (operation : OperationKind) (final : Bool) (w : W) {r : SafetyDecision × W}
      → check gate operation final w ≡ some r
      → require gate operation final w ≡ some (judge (r.0), r.1)
  unfolding require
  require-of_check operation final w e = rw (e, require) refl

  check-returns :
      (operation : OperationKind) (final : Bool) (w : W)
      → 1 ≤ gate.sample_interval
      → (r : SafetyDecision × W) × (check gate operation final w ≡ some r)
  unfolding watch_window
  check-returns operation final w interval =
      elim (Bool-cases (operation_profile operation).requires_stopped) [
        | inr free ↦ (_, check-free operation final w free)
        | inl needs ↦ elim (Bool-cases (is_stopped (seen w))) [
          | inr live ↦ (_, check-sampled operation final w needs live)
          | inl quiet ↦ go final needs quiet
        ]
      ]
    where
      go :
          (final : Bool)
          → (operation_profile operation).requires_stopped ≡ true
          → is_stopped (seen w) ≡ true
          → (r : SafetyDecision × W) × (check gate operation final w ≡ some r)
      go true needs quiet = (_, check-final operation w needs quiet)
      go false needs quiet =
          let v = (sensors.sample w).1 in
          let (r, e) =
            watch-returns gate clock (suc gate.stable_window) operation
              ((sensors.monotonic v).0 + gate.stable_window) ((sensors.monotonic v).1) interval
              (omega (arith, clock.read_before v)) in
          (r, check-window operation w needs quiet ∙ e)

-- On a gate that the constructor made, every check ends, whatever the samples say, since the
-- clock moves on by at least one interval or reaches the end of the window in each turn.
pub require-returns {ℓ} :
    {W : Type ℓ} (sensors : Sensors W) {now : W → ℕ} (window interval : ℤ)
    (operation : OperationKind) (final : Bool) (w : W)
    → IsClock sensors now
    → (r : Result Refusal SafetyDecision × W) × (require
          (new_gate sensors window interval)
          operation
          final
          w
        ≡ some r)
unfolding new_gate
require-returns sensors window interval operation final w clock =
    let (r, e) =
      check-returns (new_gate sensors window interval) clock operation final w (ground arith) in
    (_, require-of_check (new_gate sensors window interval) clock operation final w e)
