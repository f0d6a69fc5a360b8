-- ===== src/Tests/Locks.antt =====
-- Two threads at one lock; the first enters it twice.
use codex_sync.Base.{ℕ, true, none, ◌≡◌, ◌⊎◌, refl, ok, err}
use codex_sync.OperationLock.{
  System, busy, start, taken, deepened, take_lock, enter, Reach, enters, begins, goes,
}
use codex_sync.OperationLock.Invariant.{is_inside}
use codex_sync.OperationLock.Exclusion.{mutual_exclusion, enter-refuses}

-- Thread 1 is inside twice.
abbrev twice : System
twice = deepened 1 1 (taken true 1 start)

twice-Reach : Reach twice
unfolding enter take_lock
twice-Reach = goes (goes begins (enters true 1 refl)) (enters true 1 refl)

mutual_exclusion_example : ◌≡◌ {A = ℕ} 1 1
mutual_exclusion_example = mutual_exclusion twice-Reach 1 1 refl refl

enter-refuses_example :
    ((s' : System) × (enter true 2 twice ≡ ok s') × (is_inside (s'.local 2) ≡ true))
    ⊎ ((enter true 2 twice ≡ err busy)
        × ((twice.local 2).held ≡ none)
        × ((u : ℕ) × (is_inside (twice.local u) ≡ true)))
enter-refuses_example = enter-refuses twice-Reach true 2

second-refused : enter true 2 twice ≡ err busy
unfolding enter take_lock
second-refused = refl
