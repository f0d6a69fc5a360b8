-- ===== src/Journal/Writes.antt =====
-- A journal write of src/codexsync/mutation_journal.py that the file system may refuse.
use codex_sync.Base.{String, true, false, Option, ok, err, ◌≡◌, refl, ◌⊎◌, inl, inr, Bool-cases}
use codex_sync.Journal.{
  JournalState, MutationJournal, Store, write_failed, Disk, put, write, moved, may_follow,
  transition,
}

-- The file system refuses some journal.
abbrev pub Refuses : Disk → Type 0
Refuses disk = (s : Store) × (j : MutationJournal) × (disk s j ≡ false)

-- A legal transition is written, or refused by the file system.
pub transition-cases :
    (disk : Disk) (store : Store) (journal : MutationJournal) (next : JournalState)
    (failure : Option String) (now : String)
    → may_follow journal.state next ≡ true
    → (transition disk store journal next failure now
        ≡ ok (put store (moved journal next failure now), moved journal next failure now))
      ⊎ ((transition disk store journal next failure now ≡ err write_failed) × Refuses disk)
unfolding transition write
transition-cases disk store journal next failure now h =
    elim (Bool-cases (disk store (moved journal next failure now))) [
      | inl e ↦ inl (rw (h, e, transition, write) refl)
      | inr e ↦ inr (rw (h, e, transition, write) refl, (_, _, e))
    ]
