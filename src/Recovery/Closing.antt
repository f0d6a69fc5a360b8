-- ===== src/Recovery/Closing.antt =====
-- Closing an interrupted journal: what `_close` writes, and that `resume` unblocks the next run.
use Prim.Native.Char.{Char}
use codex_sync.Base.{
  String, ◌==◌, ==_refl, true, false, none, some, ◌⊎◌, err, lookup, lookup-insert, insert-NodupKeys,
  NodupKeys, ok, ◌≡◌, refl, sym, ap, ◌∙◌, inl, inr,
}
use codex_sync.Journal.{
  JournalState, prepared, backed_up, committing, committed, failed, recovery_required, is_terminal,
  MutationJournal, Store, Disk, write_failed, put, moved, may_follow,
}
use codex_sync.Journal.Writes.{Refuses, transition-cases}
use codex_sync.Recovery.{Closing, journal_error, close, fail_journal, is_committing}

-- What a journal that is closed looks like in the folder.
pub record Closes (store : Store) (journal : MutationJournal) (after : Store) : Type 0 where
  pub last : MutationJournal
  pub is_failed : last.state ≡ failed
  pub is_named : last.operation_id ≡ journal.operation_id
  pub is_stored : lookup journal.operation_id after ≡ some (some last)
  pub others : (k : String) → (k == journal.operation_id) ≡ false → lookup k after ≡ lookup k store
  pub no_repeats : NodupKeys store → NodupKeys after

-- What an interrupted journal looks like in the folder when closing it was stopped by a refused write:
-- as it was, or noted as to be recovered.
pub data Stopped (store : Store) (journal : MutationJournal) : Store → Type 0 where
  left_alone : Stopped store journal store
  noted :
      {after : Store} (last : MutationJournal)
      → journal.state ≡ committing
      → last.state ≡ recovery_required
      → lookup journal.operation_id after ≡ some (some last)
      → ((k : String) → (k == journal.operation_id) ≡ false → lookup k after ≡ lookup k store)
      → Stopped store journal after

put-Closes :
    (store middle : Store) (journal last : MutationJournal)
    → last.state ≡ failed
    → last.operation_id ≡ journal.operation_id
    → ((k : String) → (k == journal.operation_id) ≡ false → lookup k middle ≡ lookup k store)
    → (NodupKeys store → NodupKeys middle)
    → Closes store journal (put middle last)
unfolding put
put-Closes store middle journal last f n same distinct = record {
  last = last;
  is_failed = f;
  is_named = n;
  is_stored =
      lookup-insert journal.operation_id last.operation_id (some last) middle
      ∙ rw (n, ==_refl journal.operation_id) refl;
  others = λ k h. lookup-insert k last.operation_id (some last) middle ∙ rw (n, h) (same k h);
  no_repeats = λ u. insert-NodupKeys last.operation_id (some last) middle (distinct u);
}

-- How a closing ends.
abbrev pub Ends : Disk → Store → MutationJournal → Closing → Type 0
Ends disk store journal (answer, after) =
    ((answer ≡ ok tt) × Closes store journal after)
    ⊎ ((answer ≡ err (journal_error write_failed)) × Stopped store journal after × Refuses disk)

fail_journal-Ends :
    (disk : Disk) (store middle : Store) (journal last : MutationJournal) (now : String)
    → may_follow last.state failed ≡ true
    → last.operation_id ≡ journal.operation_id
    → ((k : String) → (k == journal.operation_id) ≡ false → lookup k middle ≡ lookup k store)
    → (NodupKeys store → NodupKeys middle)
    → Stopped store journal middle
    → Ends disk store journal (fail_journal disk middle last now)
unfolding fail_journal
fail_journal-Ends disk store middle journal last now h n same distinct stop =
    elim (transition-cases disk middle last failed none now h) [
      | inl e ↦
          rw (e, fail_journal) (inl (refl, put-Closes store middle journal _ refl n same distinct))
      | inr (e, denied) ↦ rw (e, fail_journal) (inr (refl, stop, denied))
    ]

-- `_close` of a journal that is not closed: it leaves the journal FAILED, and every other file alone;
-- or the file system has refused a journal, and `_close` raises that error and leaves the folder as it
-- was, or only notes that the interrupted commit phase is to be recovered. It fails in no other way.
pub close-Closes :
    (disk : Disk) (store : Store) (journal : MutationJournal) (now : String)
    → is_terminal journal.state ≡ false
    → Ends disk store journal (close disk store journal now)
unfolding close put
close-Closes disk store journal now live = from journal.state refl
  where
    at_once :
        may_follow journal.state failed ≡ true
        → is_committing journal.state ≡ false
        → Ends disk store journal (close disk store journal now)
    at_once h c =
        rw (c, close)
          (fail_journal-Ends disk store store journal journal now h refl (λ k _. refl) (λ u. u)
            left_alone)

    from :
        (state : JournalState)
        → journal.state ≡ state
        → Ends disk store journal (close disk store journal now)
    from prepared e = at_once (ap (λ s. may_follow s failed) e) (ap is_committing e)
    from backed_up e = at_once (ap (λ s. may_follow s failed) e) (ap is_committing e)
    from recovery_required e = at_once (ap (λ s. may_follow s failed) e) (ap is_committing e)
    from committed e = let x : true ≡ false = sym (ap is_terminal e) ∙ live in cc
    from failed e = let x : true ≡ false = sym (ap is_terminal e) ∙ live in cc
    from committing e =
        elim (transition-cases disk store journal recovery_required none now
          (ap (λ s. may_follow s recovery_required) e)) [
            | inr (t, denied) ↦ rw (ap is_committing e, t, close) (inr (refl, left_alone, denied))
            | inl t ↦
                rw (ap is_committing e, t, close)
                  (fail_journal-Ends disk store (put store noting) journal noting now refl refl
                    alone (λ u. insert-NodupKeys journal.operation_id (some noting) store u)
                    (noted noting e refl
                      (lookup-insert journal.operation_id journal.operation_id (some noting) store
                        ∙ rw (==_refl journal.operation_id) refl)
                      alone))
          ]
      where
        noting : MutationJournal
        noting = moved journal recovery_required none now

        alone :
            (k : String)
            → (k == journal.operation_id) ≡ false
            → lookup k (put store noting) ≡ lookup k store
        alone k h = lookup-insert k journal.operation_id (some noting) store ∙ rw h refl
