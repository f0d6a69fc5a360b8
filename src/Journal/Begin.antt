-- ===== src/Journal/Begin.antt =====
-- What `begin` guarantees: its journal is the only open one.
use Prim.Native.Char.{Char}
use mathlib.Core.Option
use codex_sync.Base.{
  String, ◌==◌, ==_iff, ==_refl, ◌≡◌, refl, sym, ◌∙◌, Bool, true, false, Option, none, some, List,
  [], ◌∷◌, if◌then◌else◌, lookup, NodupKeys, ok, err, bind-ok, Result, ◌>>=◌, arith, inl, inr,
  Bool-cases, Option-cases, ◌↔◌,
}
use codex_sync.Journal.{
  prepared, is_terminal, MutationJournal, Store, cannot_be_verified, recovery_pending, JournalError,
  Disk, put, write, begin_after, sorted_files, open_journals, non_terminal, Request, new_journal,
  after_close, begin,
}
use codex_sync.Journal.Abandoned.{
  lookup-sorted_files, lookup-put, write-inversion, closed_file, lookup-close_abandoned,
  sorted_files-NodupKeys, close_abandoned-NodupKeys, close_abandoned-returns,
}

-- The file can be read, and its journal is closed.
abbrev pub IsClosed : Option MutationJournal → Type 0
IsClosed none = ⊥
IsClosed (some journal) = is_terminal journal.state ≡ true

open_journals-cons :
    (stem : String) (journal : MutationJournal) (rest : Store)
    → open_journals ((stem, some journal) ∷ rest) ≡ ok []
    → (is_terminal journal.state ≡ true) × (open_journals rest ≡ ok [])
unfolding open_journals
open_journals-cons stem journal rest h =
    let inner =
      bind-ok (open_journals rest)
        (λ others. ok (if is_terminal journal.state then others else journal ∷ others)) h in
    elim (Bool-cases (is_terminal journal.state)) [
      | inl over ↦ (over, inner.1 ∙ (rw over at inner.2))
      | inr live ↦ let bad : ok (journal ∷ inner.0) ≡ ok [] = rw live at inner.2 in cc
    ]

open_journals-unreadable :
    (stem : String) (rest : Store) → open_journals ((stem, none) ∷ rest) ≡ err cannot_be_verified
unfolding open_journals
open_journals-unreadable stem rest = refl

open_journals-IsClosed :
    (d : Store) (k : String) {file : Option MutationJournal}
    → open_journals d ≡ ok []
    → lookup k d ≡ some file
    → IsClosed file
unfolding lookup
open_journals-IsClosed [] k h e = cc
open_journals-IsClosed ((stem, none) ∷ rest) k h e = cc (open_journals-unreadable stem rest)
open_journals-IsClosed ((stem, some journal) ∷ rest) k {file} h e =
    let c = open_journals-cons stem journal rest h in
    elim (Bool-cases (k == stem)) [
      | inl same ↦ let f : file ≡ some journal = ground arith in rw f c.0
      | inr differ ↦ open_journals-IsClosed rest k c.1 (ground arith)
    ]

open_journals-of_closed :
    (d : Store)
    → NodupKeys d
    → ((k : String) (file : Option MutationJournal) → lookup k d ≡ some file → IsClosed file)
    → open_journals d ≡ ok []
unfolding open_journals lookup
open_journals-of_closed [] u h = refl
open_journals-of_closed ((stem, none) ∷ rest) (fresh, u) h =
    absurd (h stem none (ground (arith, ==_refl stem)))
open_journals-of_closed ((stem, some journal) ∷ rest) (fresh, u) h =
    let tail : open_journals rest ≡ ok [] =
      open_journals-of_closed rest u (λ k file e. h k file (ground (arith, ==_iff k stem))) in
    rw tail (rw (h stem (some journal) (ground (arith, ==_refl stem))) refl)

module _ (is_decimal : Char → Bool) where
  -- What becomes of a file before the check: a request with a machine id closes that machine's
  -- abandoned journals.
  abbrev pub kept_file : Request → String → Option MutationJournal → Option MutationJournal
  kept_file r k file = elim r.machine_id [
    | none ↦ file
    | some machine ↦ closed_file is_decimal machine r.now k file
  ]

  module _ (disk : Disk) where
    lookup-after_close :
        (store : Store) (r : Request) (k : String) {done : List MutationJournal}
        → NodupKeys store
        → (after_close is_decimal disk store r).1 ≡ ok done
        → lookup k (after_close is_decimal disk store r).0
          ≡ Option.map (kept_file r k) (lookup k store)
    unfolding after_close
    lookup-after_close store r k u h = elim (Option-cases r.machine_id) [
      | inl e ↦ rw (e, after_close, kept_file) (same (lookup k store))
      | inr (machine, e) ↦
          rw (e, after_close, kept_file)
            (lookup-close_abandoned is_decimal machine r.now disk store k u
              (rw (e, after_close) at h))
    ]
      where
        same : (o : Option (Option MutationJournal)) → o ≡ Option.map (λ file. file) o
        same none = refl
        same (some file) = refl

    after_close-NodupKeys :
        (store : Store) (r : Request) {done : List MutationJournal}
        → NodupKeys store
        → (after_close is_decimal disk store r).1 ≡ ok done
        → NodupKeys (after_close is_decimal disk store r).0
    unfolding after_close
    after_close-NodupKeys store r u h = elim (Option-cases r.machine_id) [
      | inl e ↦ rw (e, after_close) u
      | inr (machine, e) ↦
          rw (e, after_close)
            (close_abandoned-NodupKeys is_decimal machine r.now disk store u
              (rw (e, after_close) at h))
    ]

    after_close-returns :
        ((s : Store) (j : MutationJournal) → disk s j ≡ true)
        → (store : Store) (r : Request)
        → (done : List MutationJournal) × ((after_close is_decimal disk store r).1 ≡ ok done)
    unfolding after_close
    after_close-returns accepts store r = elim (Option-cases r.machine_id) [
      | inl e ↦ ([], rw (e, after_close) refl)
      | inr (machine, e) ↦
          rw (e, after_close) (close_abandoned-returns is_decimal machine r.now disk accepts store)
    ]

    -- What a `begin` that returns has gone through.
    pub record Begun (store : Store) (r : Request) (r' : Store × MutationJournal) : Type 0 where
      pub done : List MutationJournal
      pub is_done : (after_close is_decimal disk store r).1 ≡ ok done
      pub quiet : non_terminal (after_close is_decimal disk store r).0 ≡ ok []
      pub result : r' ≡ (put (after_close is_decimal disk store r).0 (new_journal r), new_journal r)

    begin_after-inversion :
        (r : Request) (x : Store × Result JournalError (List MutationJournal))
        {r' : Store × MutationJournal}
        → begin_after is_decimal disk r x ≡ ok r'
        → (done : List MutationJournal) × (x.1 ≡ ok done)
          × (non_terminal x.0 ≡ ok [])
          × (r' ≡ (put x.0 (new_journal r), new_journal r))
    unfolding begin_after
    begin_after-inversion r (store, err e) h = cc
    begin_after-inversion r (store, ok done) {r'} h =
        let (pending, quiet, e) = bind-ok (non_terminal store) _ h in go pending quiet e
      where
        go :
            (pending : List MutationJournal)
            → non_terminal store ≡ ok pending
            → elim pending [
              | [] ↦ (write disk store (new_journal r) >>= λ store'. ok (store', new_journal r))
              | blocker ∷ _ ↦ err (recovery_pending blocker)
            ]
              ≡ ok r'
            → (closed : List MutationJournal) × (◌≡◌
                {A = Result JournalError (List MutationJournal)}
                (ok done)
                (ok closed))
              × (non_terminal store ≡ ok [])
              × (r' ≡ (put store (new_journal r), new_journal r))
        go [] quiet e =
            let (after, w, g) = bind-ok _ _ e in
            let p = (write-inversion disk store (new_journal r) w).1 in (done, refl, quiet, cc)
        go (blocker ∷ _) quiet e = cc

    pub begin-inversion :
        (store : Store) (r : Request) {r' : Store × MutationJournal}
        → begin is_decimal disk store r ≡ ok r'
        → Begun store r r'
    unfolding begin
    begin-inversion store r h =
        let (done, d, q, e) = begin_after-inversion r (after_close is_decimal disk store r) h in
        record { done = done; is_done = d; quiet = q; result = e }

    begin_after-of_quiet :
        (r : Request) (x : Store × Result JournalError (List MutationJournal))
        {done : List MutationJournal}
        → disk x.0 (new_journal r) ≡ true
        → x.1 ≡ ok done
        → non_terminal x.0 ≡ ok []
        → begin_after is_decimal disk r x ≡ ok (put x.0 (new_journal r), new_journal r)
    unfolding begin_after write
    begin_after-of_quiet r (store, err e) a h quiet = cc
    begin_after-of_quiet r (store, ok done) a h quiet = rw (quiet, begin_after, a, write) refl

    -- When `begin` returns, the store holds its new journal, `PREPARED`, and every other file is a
    -- readable journal that is closed. Such a file is as it was before, or is a journal of this
    -- machine that was abandoned before its commit phase and is now finished.
    pub begin-sole_open :
        (store : Store) (r : Request) {r' : Store × MutationJournal}
        → NodupKeys store
        → begin is_decimal disk store r ≡ ok r'
        → (r'.1.state ≡ prepared)
          × (lookup r.uuid r'.0 ≡ some (some r'.1))
          × ((k : String) (file : Option MutationJournal)
              → (k == r.uuid) ≡ false
              → lookup k r'.0 ≡ some file
              → IsClosed file)
          × ((k : String)
              → (k == r.uuid) ≡ false
              → lookup k r'.0 ≡ Option.map (kept_file r k) (lookup k store))
    unfolding non_terminal new_journal
    begin-sole_open store r u h =
        let b = begin-inversion store r h in
        rw b.result (
          refl,
          rw (lookup-put, ==_refl r.uuid) refl,
          (λ k file fresh found.
              open_journals-IsClosed (sorted_files (after_close is_decimal disk store r).0) k
                b.quiet
                (lookup-sorted_files k (after_close is_decimal disk store r).0
                  ∙ rw (lookup-put, fresh) at found)),
          (λ k fresh. rw (lookup-put, fresh) (lookup-after_close store r k u b.is_done)),
        )

    -- Where the file system refuses no journal, `begin` returns exactly when every file that is there
    -- after closing abandoned journals is a readable, closed journal; otherwise it raises.
    pub begin-blocked :
        ((s : Store) (j : MutationJournal) → disk s j ≡ true)
        → (store : Store) (r : Request) → NodupKeys store
        → ((r' : Store × MutationJournal) × (begin is_decimal disk store r ≡ ok r')) ↔ (
            (k : String) (file : Option MutationJournal)
            → lookup k store ≡ some file
            → IsClosed (kept_file r k file))
    unfolding non_terminal begin
    begin-blocked accepts store r u = (
      (λ (r', h) k file found.
          let b = begin-inversion store r h in
          open_journals-IsClosed (sorted_files (after_close is_decimal disk store r).0) k b.quiet (
            lookup-sorted_files k (after_close is_decimal disk store r).0
            ∙ lookup-after_close store r k u b.is_done
            ∙ rw found)),
      (λ all.
          let (done, d) = after_close-returns accepts store r in
          let quiet : non_terminal (after_close is_decimal disk store r).0 ≡ ok [] =
            open_journals-of_closed (sorted_files (after_close is_decimal disk store r).0)
              (sorted_files-NodupKeys _ (after_close-NodupKeys store r u d))
              λ k file found.
                kept_closed k file all (
                  sym (lookup-after_close store r k u d) ∙ sym (lookup-sorted_files k _) ∙ found) in
          (
            (put (after_close is_decimal disk store r).0 (new_journal r), new_journal r),
            begin_after-of_quiet r (after_close is_decimal disk store r) (accepts _ _) d quiet,
          )),
    )
      where
        kept_closed :
            (k : String) (file : Option MutationJournal)
            → ((j : String) (f : Option MutationJournal)
                → lookup j store ≡ some f
                → IsClosed (kept_file r j f))
            → Option.map (kept_file r k) (lookup k store) ≡ some file
            → IsClosed file
        kept_closed k file all e = elim (Option-cases (lookup k store)) [
          | inl gone ↦ cc
          | inr (f, found) ↦
              let e' : some (kept_file r k f) ≡ some file = rw found at e in
              let same : kept_file r k f ≡ file = cc in rw (← same) (all k f found)
        ]
