-- ===== src/Journal/States.antt =====
-- The states that a journal goes through.
use codex_sync.Base.{
  String, ◌≡◌, Bool, true, false, Option, List, [], ◌∷◌, any, Result, ok, err, ◌>>=◌, bind-ok,
  arith, ◌⊎◌, Bool-cases, inl, inr, sym, ap,
}
use codex_sync.Journal.{
  JournalState, prepared, backed_up, committing, committed, recovery_required, is_terminal,
  is_before_commit, may_follow, MutationJournal, Store, JournalError, invalid_transition, Disk,
  moved, write, transition,
}

-- One transition of a run: the target state, the failure and the time.
pub record Move : Type 0 where
  pub target : JournalState
  pub failure : Option String
  pub now : String

-- The transitions that a run makes, one after another, until one is refused.
unfoldable pub follow :
    Disk → Store → MutationJournal → List Move → Result JournalError (Store × MutationJournal)
follow disk store journal [] = ok (store, journal)
follow disk store journal (m ∷ moves) =
    transition disk store journal m.target m.failure m.now >>= λ next.
    follow disk next.0 next.1 moves

abbrev pub is_committing : JournalState → Bool
is_committing committing = true
is_committing _ = false

abbrev pub is_backed_up : JournalState → Bool
is_backed_up backed_up = true
is_backed_up _ = false

abbrev pub enters : (JournalState → Bool) → List Move → Bool
enters p moves = any (λ m. p m.target) moves

-- The commit phase was entered.
abbrev pub is_past_commit : JournalState → Bool
is_past_commit committing = true
is_past_commit committed = true
is_past_commit recovery_required = true
is_past_commit _ = false

same_ok :
    {r r' : Store × MutationJournal}
    → ◌≡◌ {A = Result JournalError (Store × MutationJournal)} (ok r) (ok r')
    → r ≡ r'
same_ok h = cc

pub transition-allowed :
    (disk : Disk) (store : Store) (journal : MutationJournal) (m : Move)
    {r : Store × MutationJournal}
    → transition disk store journal m.target m.failure m.now ≡ ok r
    → (may_follow journal.state m.target ≡ true) × (r.1.state ≡ m.target)
unfolding transition
transition-allowed disk store journal m h = elim (Bool-cases (may_follow journal.state m.target)) [
  | inl allowed ↦
      let next = moved journal m.target m.failure m.now in
      let (after, w, e) =
        bind-ok (write disk store next) (λ store'. ok (store', next))
          (rw (allowed, transition) at h) in
      (allowed, ap (λ (x : Store × MutationJournal). x.1.state) (sym (same_ok e)))
  | inr refused ↦ ground arith
]

-- From any state on: where a run ends tells what it has entered.
before_commit-history :
    (disk : Disk) (store : Store) (journal : MutationJournal) (moves : List Move)
    {r : Store × MutationJournal}
    → follow disk store journal moves ≡ ok r
    → is_before_commit r.1.state ≡ true
    → (is_before_commit journal.state ≡ true) × (enters is_committing moves ≡ false)
unfolding follow any
before_commit-history disk store journal [] h b = ground arith
before_commit-history disk store journal (m ∷ moves) h b =
    let (next, step, rest) = bind-ok _ _ h in
    ground (
      arith,
      transition-allowed disk store journal m step,
      before_commit-history disk next.0 next.1 moves rest b,
    )

committing-history :
    (disk : Disk) (store : Store) (journal : MutationJournal) (moves : List Move)
    {r : Store × MutationJournal}
    → follow disk store journal moves ≡ ok r
    → is_past_commit r.1.state ≡ true
    → (is_past_commit journal.state ≡ true) ⊎ (enters is_committing moves ≡ true)
unfolding follow any
committing-history disk store journal [] h p = ground arith
committing-history disk store journal (m ∷ moves) h p =
    let (next, step, rest) = bind-ok _ _ h in
    ground (
      arith,
      transition-allowed disk store journal m step,
      committing-history disk next.0 next.1 moves rest p,
    )

backed_up-history :
    (disk : Disk) (store : Store) (journal : MutationJournal) (moves : List Move)
    {r : Store × MutationJournal}
    → follow disk store journal moves ≡ ok r
    → is_past_commit r.1.state ≡ true
    → (is_past_commit journal.state ≡ true)
      ⊎ (journal.state ≡ backed_up)
      ⊎ (enters is_backed_up moves ≡ true)
unfolding follow any
backed_up-history disk store journal [] h p = ground arith
backed_up-history disk store journal (m ∷ moves) h p =
    let (next, step, rest) = bind-ok _ _ h in
    ground (
      arith,
      transition-allowed disk store journal m step,
      backed_up-history disk next.0 next.1 moves rest p,
    )

-- From a new journal: one that is not past `BACKED_UP` has never been `COMMITTING`, and one that is
-- `COMMITTED` or waits for recovery has been backed up and has been `COMMITTING`.
pub follow-history :
    (disk : Disk) (store : Store) (journal : MutationJournal) (moves : List Move)
    {r : Store × MutationJournal}
    → journal.state ≡ prepared
    → follow disk store journal moves ≡ ok r
    → (is_before_commit r.1.state ≡ true → enters is_committing moves ≡ false)
      × (is_past_commit r.1.state ≡ true
          → (enters is_backed_up moves ≡ true) × (enters is_committing moves ≡ true))
follow-history disk store journal moves new h = (
  λ b. (before_commit-history disk store journal moves h b).1,
  λ p. (
    ground (arith, backed_up-history disk store journal moves h p),
    ground (arith, committing-history disk store journal moves h p),
  ),
)

-- A closed journal stays as it is: every transition of it is refused.
pub terminal-absorbs :
    (disk : Disk) (store : Store) (journal : MutationJournal) (m : Move)
    → is_terminal journal.state ≡ true
    → transition disk store journal m.target m.failure m.now
      ≡ err (invalid_transition journal.state m.target)
unfolding transition
terminal-absorbs disk store journal m h = ground arith
