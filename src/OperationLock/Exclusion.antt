-- ===== src/OperationLock/Exclusion.antt =====
-- One thread at a time is inside the lock, and nobody is refused without one.
use codex_sync.Base.{ℕ, ◌≡◌, Bool, true, none, some, ok, err, ◌⊎◌, inl, inr, Option-cases, arith}
use codex_sync.OperationLock.{Local, System, busy, update, take_lock, taken, deepened, enter, Reach}
use codex_sync.OperationLock.Invariant.{is_inside, Reach-Inv, sole, enter-again, enter-by_owner}

-- Two threads, of one process or of two, are never inside the lock together, after any entries, exits and
-- deaths of processes.
pub mutual_exclusion :
    {s : System}
    → Reach s
    → (t u : ℕ) → is_inside (s.local t) ≡ true
    → is_inside (s.local u) ≡ true
    → t ≡ u
mutual_exclusion r t u in_t in_u = sole (Reach-Inv r) u t ((Reach-Inv r).owned u in_u) in_t

-- `__enter__` lets a thread in when it is inside with `reentrant=True`, or when nobody is inside; it
-- refuses it only while some thread is inside, so a lock that is left, or whose holder has died, can be
-- taken again by any thread.
pub enter-refuses :
    {s : System}
    → Reach s
    → (reentrant : Bool) (t : ℕ)
    → ((s' : System) × (enter reentrant t s ≡ ok s') × (is_inside (s'.local t) ≡ true))
      ⊎ ((enter reentrant t s ≡ err busy)
          × ((s.local t).held ≡ none)
          × ((u : ℕ) × (is_inside (s.local u) ≡ true)))
unfolding enter take_lock
enter-refuses {s} r reentrant t = elim (Option-cases (s.local t).held) [
  | inr (depth, e) ↦ inl (deepened depth t s, enter-again reentrant t s depth e, update_self _)
  | inl e ↦ elim (Option-cases s.owner) [
    | inl free ↦ inl (taken reentrant t s, enter-by_owner reentrant t s none e free, update_self _)
    | inr (u, other) ↦
        inr (enter-by_owner reentrant t s (some u) e other, e, (u, (Reach-Inv r).backed u other))
  ]
]
  where
    update_self : (l : Local) → is_inside (update s.local t l t) ≡ is_inside l
    update_self l = ground arith
