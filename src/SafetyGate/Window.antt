-- ===== src/SafetyGate/Window.antt =====
-- The window of `check`: what it has seen when it lets an operation through, and that it ends.
use Prim.Native.Nat.{min}
use codex_sync.Base.{
  ℕ, zero, suc, ◌+◌, ◌-◌, ◌≤◌, ◌<◌, ◌≡◌, ◌≢◌, refl, sym, ◌∙◌, String, true, false, not, some, ltb,
  if◌then◌else◌, Result, ok, err, arith, Bool-cases, inl, inr,
}
use codex_sync.SafetyGate.{
  OperationKind, ProcessState, stopped, running, unknown, SafetyDecision, Sensors, SafetyGate,
  is_stopped, read_sample, sample_state, sampled, passed, pause, watch,
}

-- `now` tells the time of the surroundings. A clock reading lies between the times before and
-- behind it, a sample does not turn the time back, and `sleep` takes at least as long as asked.
pub record IsClock {ℓ} {W : Type ℓ} (sensors : Sensors W) (now : W → ℕ) : Type ℓ where
  pub read_after : (w : W) → now w ≤ (sensors.monotonic w).0
  pub read_before : (w : W) → (sensors.monotonic w).0 ≤ now ((sensors.monotonic w).1)
  pub sample_after : (w : W) → now w ≤ now ((sensors.sample w).1)
  pub sleep_after : (d : ℕ) (w : W) → now w + d ≤ now (sensors.sleep d w)

-- What happens between two states of the surroundings, while every sample says `STOPPED`.
pub data Quiet {ℓ} {W : Type ℓ} (sensors : Sensors W) (w : W) : W → Type ℓ where
  still : Quiet sensors w w
  reads : {v : W} → Quiet sensors w v → Quiet sensors w ((sensors.monotonic v).1)
  sleeps : (d : ℕ) {v : W} → Quiet sensors w v → Quiet sensors w (sensors.sleep d v)
  sees :
      {v : W}
      → (sensors.sample v).0 ≡ ok stopped
      → Quiet sensors w v
      → Quiet sensors w ((sensors.sample v).1)

-- A watch over the process: it begins with a sample, and every sleep lasts at most an interval and has a
-- sample right behind it; all samples say `STOPPED`.
pub data Watched {ℓ} {W : Type ℓ} (sensors : Sensors W) (interval : ℕ) (w : W) : W → Type ℓ where
  begins : (sensors.sample w).0 ≡ ok stopped → Watched sensors interval w ((sensors.sample w).1)
  looks :
      {v : W} → Watched sensors interval w v → Watched sensors interval w ((sensors.monotonic v).1)
  sees_again :
      (d : ℕ) {v : W}
      → d ≤ interval
      → (sensors.sample (sensors.sleep d v)).0 ≡ ok stopped
      → Watched sensors interval w v
      → Watched sensors interval w ((sensors.sample (sensors.sleep d v)).1)

pub Watched-Quiet {ℓ} :
    {W : Type ℓ} {sensors : Sensors W} {interval : ℕ} {w v : W}
    → Watched sensors interval w v
    → Quiet sensors w v
Watched-Quiet (begins h) = sees h still
Watched-Quiet (looks q) = reads (Watched-Quiet q)
Watched-Quiet (sees_again d short h q) = sees h (sleeps d (Watched-Quiet q))

module _ {ℓ} {W : Type ℓ} (gate : SafetyGate W) where
  abbrev sensors : Sensors W
  sensors = gate.sensors

  pub read_sample-stopped :
      (answer : Result String ProcessState) (w : W)
      → is_stopped (read_sample gate answer w).0 ≡ true
      → answer ≡ ok stopped
  unfolding read_sample
  read_sample-stopped (err problem) w h = cc
  read_sample-stopped (ok stopped) w h = refl
  read_sample-stopped (ok running) w h = cc
  read_sample-stopped (ok unknown) w h = cc

  pub read_sample-live :
      (answer : Result String ProcessState) (w : W)
      → is_stopped (read_sample gate answer w).0 ≡ false
      → answer ≢ ok stopped
  unfolding read_sample
  read_sample-live (err problem) w h e = cc
  read_sample-live (ok stopped) w h e = cc
  read_sample-live (ok running) w h e = cc
  read_sample-live (ok unknown) w h e = cc

  abbrev pub slept : ℕ → W → W
  slept deadline w = pause gate deadline ((sensors.monotonic w).1)

  -- One turn of the loop.
  watch-suc :
      (fuel : ℕ) (operation : OperationKind) (deadline : ℕ) (w : W)
      → watch gate (suc fuel) operation deadline w ≡ (
          if not (ltb ((sensors.monotonic w).0) deadline)
          then some (
            passed gate operation "continuous stopped process window passed",
            (sensors.monotonic w).1,
          )
          else if not (is_stopped (((sample_state gate (slept deadline w)).0).0))
          then some (
            sampled gate operation false
                ((sample_state gate (slept deadline w)).0)
                ((sensors.sample (slept deadline w)).1),
            (sensors.sample (slept deadline w)).1,
          )
          else watch gate fuel operation deadline ((sensors.sample (slept deadline w)).1))
  unfolding watch sample_state
  watch-suc fuel operation deadline w = refl

  slept-Quiet : (deadline : ℕ) {w v : W} → Quiet sensors w v → Quiet sensors w (slept deadline v)
  unfolding pause
  slept-Quiet deadline q = sleeps _ (reads (reads q))

  slept-Watched :
      (deadline : ℕ) {w v : W}
      → (sensors.sample (slept deadline v)).0 ≡ ok stopped
      → Watched sensors gate.sample_interval w v
      → Watched sensors gate.sample_interval w ((sensors.sample (slept deadline v)).1)
  unfolding pause
  slept-Watched deadline h q = sees_again _ (ground arith) h (looks (looks q))

  -- The three ways on from one turn of the loop, as equations.
  watch-passed :
      (fuel : ℕ) (operation : OperationKind) (deadline : ℕ) (w : W)
      → ltb ((sensors.monotonic w).0) deadline ≡ false
      → watch gate (suc fuel) operation deadline w
        ≡ some (
          passed gate operation "continuous stopped process window passed",
          (sensors.monotonic w).1,
        )
  watch-passed fuel operation deadline w over = watch-suc fuel operation deadline w ∙ rw over refl

  watch-live :
      (fuel : ℕ) (operation : OperationKind) (deadline : ℕ) (w : W)
      → ltb ((sensors.monotonic w).0) deadline ≡ true
      → is_stopped (((sample_state gate (slept deadline w)).0).0) ≡ false
      → watch gate (suc fuel) operation deadline w
        ≡ some (
          sampled gate operation false
              ((sample_state gate (slept deadline w)).0)
              ((sensors.sample (slept deadline w)).1),
          (sensors.sample (slept deadline w)).1,
        )
  watch-live fuel operation deadline w more live =
      watch-suc fuel operation deadline w ∙ rw (more, live) refl

  watch-on :
      (fuel : ℕ) (operation : OperationKind) (deadline : ℕ) (w : W)
      → ltb ((sensors.monotonic w).0) deadline ≡ true
      → is_stopped (((sample_state gate (slept deadline w)).0).0) ≡ true
      → watch gate (suc fuel) operation deadline w
        ≡ watch gate fuel operation deadline ((sensors.sample (slept deadline w)).1)
  watch-on fuel operation deadline w more quiet =
      watch-suc fuel operation deadline w ∙ rw (more, quiet) refl

  -- A decision and where it leaves the surroundings, told from where they were: it is allowed, and
  -- all samples said `STOPPED`, past the deadline; or the last sample did not say so.
  pub data Told (w : W) (P : W → Type 0) : SafetyDecision × W → Type ℓ where
    let_through :
        {d : SafetyDecision} {w' : W}
        → d.allowed ≡ true
        → d.process_state ≡ stopped
        → Watched sensors gate.sample_interval w w'
        → P w'
        → Told w P (d, w')
    turned_down :
        {d : SafetyDecision} {u : W}
        → d.allowed ≡ false
        → is_stopped d.process_state ≡ false
        → Quiet sensors w u
        → (sensors.sample u).0 ≢ ok stopped
        → Told w P (d, (sensors.sample u).1)

  module _ {now : W → ℕ} (clock : IsClock sensors now) where
    pub watch-Told :
        (fuel : ℕ) (operation : OperationKind) (deadline : ℕ) (w : W) {v : W}
        {r : SafetyDecision × W}
        → watch gate fuel operation deadline v ≡ some r
        → Watched sensors gate.sample_interval w v
        → Told w (λ w'. deadline ≤ now w') r
    unfolding sample_state sampled watch
    watch-Told zero operation deadline w h q = cc
    watch-Told (suc fuel) operation deadline w {v} {r} h q =
        elim (Bool-cases (ltb ((sensors.monotonic v).0) deadline)) [
          | inl more ↦
              elim (Bool-cases (is_stopped (((sample_state gate (slept deadline v)).0).0))) [
                | inl quiet ↦
                    watch-Told fuel operation deadline w
                      (sym (watch-on fuel operation deadline v more quiet) ∙ h)
                      (slept-Watched deadline (read_sample-stopped _ _ quiet) q)
                | inr live ↦
                    let e : (
                      sampled gate operation false ((sample_state gate (slept deadline v)).0)
                          ((sensors.sample (slept deadline v)).1),
                      (sensors.sample (slept deadline v)).1,
                    )
                        ≡ r =
                      cc (watch-live fuel operation deadline v more live) in
                    rw (← e) (
                      turned_down refl live (slept-Quiet deadline (Watched-Quiet q))
                        (read_sample-live _ _ live))
              ]
          | inr over ↦
              let e : (
                passed gate operation "continuous stopped process window passed",
                (sensors.monotonic v).1,
              )
                  ≡ r =
                cc (watch-passed fuel operation deadline v over) in
              rw (← e) (let_through refl refl (looks q) (ground (arith, clock.read_before v)))
        ]

    -- A turn of the loop takes the surroundings nearer to the deadline.
    slept-now :
        (deadline : ℕ) (w : W)
        → 1 ≤ gate.sample_interval
        → ltb ((sensors.monotonic w).0) deadline ≡ true
        → deadline - now ((sensors.sample (slept deadline w)).1) < deadline - now w
    unfolding pause
    slept-now deadline w interval more =
        let w₁ = (sensors.monotonic w).1 in
        let w₂ = (sensors.monotonic w₁).1 in
        let d = min gate.sample_interval (deadline - (sensors.monotonic w₁).0) in
        ground (
          arith,
          clock.read_after w,
          clock.read_before w,
          clock.read_after w₁,
          clock.read_before w₁,
          clock.sleep_after d w₂,
          clock.sample_after (sensors.sleep d w₂),
        )

    pub watch-returns :
        (fuel : ℕ) (operation : OperationKind) (deadline : ℕ) (w : W)
        → 1 ≤ gate.sample_interval
        → deadline - now w < fuel
        → (r : SafetyDecision × W) × (watch gate fuel operation deadline w ≡ some r)
    watch-returns zero operation deadline w interval enough = absurd (omega arith)
    watch-returns (suc fuel) operation deadline w interval enough =
        elim (Bool-cases (ltb ((sensors.monotonic w).0) deadline)) [
          | inl more ↦
              elim (Bool-cases (is_stopped (((sample_state gate (slept deadline w)).0).0))) [
                | inl quiet ↦
                    let (r, e) =
                      watch-returns fuel operation deadline ((sensors.sample (slept deadline w)).1)
                        interval (omega (arith, slept-now deadline w interval more)) in
                    (r, watch-on fuel operation deadline w more quiet ∙ e)
                | inr live ↦ (_, watch-live fuel operation deadline w more live)
              ]
          | inr over ↦ (_, watch-passed fuel operation deadline w over)
        ]
