-- ===== src/Journal/Abandoned.antt =====
-- What `close_abandoned` leaves of each journal file when it returns.
use Prim.Native.Char.{Char}
use mathlib.Core.Option
use codex_sync.Base.{
  String, ◌<>◌, ◌==◌, ==_iff, str_leb_self, ◌≡◌, refl, ◌∙◌, Bool, Option, none, some, List, [], ◌∷◌,
  if◌then◌else◌, ◌&&◌, true, false, sym, ap, subst, Result, ok, err, bind-ok, lookup, lookup-insert,
  NodupKeys, insert-NodupKeys, arith, inl, inr, Bool-cases,
}
use codex_sync.Journal.{
  JournalState, prepared, backed_up, MutationJournal, Store, JournalError, Disk, put, write,
  owned_by, close_file, insert_file, sorted_files, is_abandoned, finish_abandoned, close_files,
  close_abandoned,
}

lookup-insert_file :
    (j k : String) (v : Option MutationJournal) (d : Store)
    → lookup j (insert_file k v d) ≡ (if j == k then some v else lookup j d)
unfolding lookup insert_file
lookup-insert_file j k v [] = refl
lookup-insert_file j k v ((i, w) ∷ d) =
    ground (arith, lookup-insert_file j k v d, ==_iff j i, ==_iff j k, str_leb_self (k <> ".json"))

pub lookup-sorted_files : (j : String) (d : Store) → lookup j (sorted_files d) ≡ lookup j d
unfolding lookup sorted_files
lookup-sorted_files j [] = refl
lookup-sorted_files j ((k, v) ∷ d) =
    lookup-insert_file j k v (sorted_files d) ∙ rw (lookup-sorted_files j d)

insert_file-NodupKeys :
    (k : String) (v : Option MutationJournal) (d : Store)
    → lookup k d ≡ none
    → NodupKeys d
    → NodupKeys (insert_file k v d)
unfolding insert_file lookup
insert_file-NodupKeys k v [] f u = (refl, tt)
insert_file-NodupKeys k v ((j, w) ∷ d) f (fresh, u) =
    ground (arith, insert_file-NodupKeys k v d, lookup-insert_file j k v d, ==_iff j k, ==_iff k j)

pub sorted_files-NodupKeys : (d : Store) → NodupKeys d → NodupKeys (sorted_files d)
unfolding sorted_files
sorted_files-NodupKeys [] u = tt
sorted_files-NodupKeys ((k, v) ∷ d) (fresh, u) =
    insert_file-NodupKeys k v (sorted_files d) (lookup-sorted_files k d ∙ fresh)
      (sorted_files-NodupKeys d u)

pub lookup-put :
    (k : String) (store : Store) (journal : MutationJournal)
    → lookup k (put store journal)
      ≡ (if k == journal.operation_id then some (some journal) else lookup k store)
unfolding put
lookup-put k store journal = lookup-insert k journal.operation_id (some journal) store

same_result :
    {r r' : Store × List MutationJournal}
    → ◌≡◌ {A = Result JournalError (Store × List MutationJournal)} (ok r) (ok r')
    → r ≡ r'
same_result h = cc

-- A write that returns has put the journal into the folder.
pub write-inversion :
    (disk : Disk) (store : Store) (journal : MutationJournal) {after : Store}
    → write disk store journal ≡ ok after
    → (disk store journal ≡ true) × (after ≡ put store journal)
unfolding write
write-inversion disk store journal h = elim (Bool-cases (disk store journal)) [
  | inl e ↦ (e, ground arith)
  | inr e ↦ ground arith
]

-- The two states in which a run has replaced nothing.
abbrev pub stopped_early : JournalState → Bool
stopped_early prepared = true
stopped_early backed_up = true
stopped_early _ = false

module _ (is_decimal : Char → Bool) (machine_id now : String) where
  -- What becomes of a file: a journal under its own name, of a run of this machine that stopped before
  -- the commit phase, is finished; any other file is left alone.
  abbrev pub closed_file : String → Option MutationJournal → Option MutationJournal
  closed_file stem none = none
  closed_file stem (some journal) =
      if journal.operation_id == stem
        && (stopped_early journal.state && owned_by is_decimal journal (some machine_id))
      then some (finish_abandoned is_decimal now journal)
      else some journal

  is_abandoned-stopped :
      (stem : String) (journal : MutationJournal)
      → is_abandoned is_decimal machine_id stem journal ≡ (
          journal.operation_id == stem
          && (stopped_early journal.state && owned_by is_decimal journal (some machine_id)))
  unfolding is_abandoned
  is_abandoned-stopped stem journal = ground arith

  abbrev listed_file :
      String
      → Option (Option MutationJournal)
      → Option (Option MutationJournal)
      → Option (Option MutationJournal)
  listed_file stem none old = old
  listed_file stem (some none) old = old
  listed_file stem (some (some journal)) old =
      if is_abandoned is_decimal machine_id stem journal
      then some (some (finish_abandoned is_decimal now journal))
      else old

  is_abandoned-names :
      (stem : String) (journal : MutationJournal)
      → is_abandoned is_decimal machine_id stem journal ≡ true
      → journal.operation_id ≡ stem
  unfolding is_abandoned
  is_abandoned-names stem journal h = ground (arith, ==_iff journal.operation_id stem)

  module _ (disk : Disk) where
    -- A turn of the loop that returns.
    close_file-inversion :
        (stem : String) (journal : MutationJournal) (store : Store) (closed : List MutationJournal)
        {r : Store × List MutationJournal}
        → close_file is_decimal disk machine_id now stem journal store closed ≡ ok r
        → r.0 ≡ (
            if is_abandoned is_decimal machine_id stem journal
            then put store (finish_abandoned is_decimal now journal)
            else store)
    unfolding close_file
    close_file-inversion stem journal store closed {r} h =
        elim (Bool-cases (is_abandoned is_decimal machine_id stem journal)) [
          | inl e ↦
              let (after, w, g) = bind-ok _ _ (rw (e, close_file) at h) in
              rw e (ap (λ x. x.0) (sym (same_result g)) ∙ (write-inversion disk store _ w).1)
          | inr e ↦ rw e (ap (λ x. x.0) (sym (same_result (rw (e, close_file) at h))))
        ]

    close_files-cons :
        (stem : String) (journal : MutationJournal) (rest store : Store)
        (closed : List MutationJournal) {done : List MutationJournal}
        → (close_files is_decimal disk machine_id now ((stem, some journal) ∷ rest) store closed).1
          ≡ ok done
        → (closed' : List MutationJournal) × (close_files is_decimal disk machine_id now
              ((stem, some journal) ∷ rest)
              store
              closed
            ≡ close_files is_decimal disk machine_id now rest
                (if is_abandoned is_decimal machine_id stem journal
                  then put store (finish_abandoned is_decimal now journal)
                  else store)
                closed')
    unfolding close_files
    close_files-cons stem journal rest store closed {done} h =
        go (close_file is_decimal disk machine_id now stem journal store closed) refl
      where
        go :
            (x : Result JournalError (Store × List MutationJournal))
            → close_file is_decimal disk machine_id now stem journal store closed ≡ x
            → (closed' : List MutationJournal) × (close_files is_decimal disk machine_id now
                  ((stem, some journal) ∷ rest)
                  store
                  closed
                ≡ close_files is_decimal disk machine_id now rest
                    (if is_abandoned is_decimal machine_id stem journal
                      then put store (finish_abandoned is_decimal now journal)
                      else store)
                    closed')
        go (err e) x =
            let bad : ◌≡◌ {A = Result JournalError (List MutationJournal)} (err e) (ok done) =
              rw (x, close_files) at h in
            cc
        go (ok (store', closed')) x =
            let s = close_file-inversion stem journal store closed x in
            (
              closed',
              rw (x, close_files)
                  (ap (λ d. close_files is_decimal disk machine_id now rest d closed') s),
            )

    lookup-close_files :
        (k : String) (files store : Store) (closed : List MutationJournal)
        {done : List MutationJournal}
        → NodupKeys files
        → (close_files is_decimal disk machine_id now files store closed).1 ≡ ok done
        → lookup k (close_files is_decimal disk machine_id now files store closed).0
          ≡ listed_file k (lookup k files) (lookup k store)
    unfolding close_files lookup
    lookup-close_files k [] store closed u h = refl
    lookup-close_files k ((stem, none) ∷ rest) store closed (fresh, u) h =
        ground (arith, lookup-close_files k rest store closed u h, ==_iff k stem)
    lookup-close_files k ((stem, some journal) ∷ rest) store closed {done} (fresh, u) h =
        let (closed', e) = close_files-cons stem journal rest store closed h in
        let h' = sym (ap (λ x. x.1) e) ∙ h in
        ap (λ x. lookup k x.0) e
        ∙ lookup-close_files k rest _ closed' u h'
        ∙ elim (Bool-cases (is_abandoned is_decimal machine_id stem journal)) [
          | inl a ↦ ground (
            arith,
            lookup-put k store (finish_abandoned is_decimal now journal),
            is_abandoned-names stem journal a,
            ==_iff k stem,
          )
          | inr a ↦ ground (arith, ==_iff k stem)
        ]

    -- After a `close_abandoned` that returns every file is what `closed_file` makes of it, and none is new.
    pub lookup-close_abandoned :
        (store : Store) (k : String) {done : List MutationJournal}
        → NodupKeys store
        → (close_abandoned is_decimal disk store machine_id now).1 ≡ ok done
        → lookup k (close_abandoned is_decimal disk store machine_id now).0
          ≡ Option.map (closed_file k) (lookup k store)
    unfolding close_abandoned
    lookup-close_abandoned store k u h =
        lookup-close_files k (sorted_files store) store [] (sorted_files-NodupKeys store u) h
        ∙ rw lookup-sorted_files (same (lookup k store))
      where
        same :
            (o : Option (Option MutationJournal)) → listed_file k o o ≡ Option.map (closed_file k) o
        same none = refl
        same (some none) = refl
        same (some (some journal)) = rw (is_abandoned-stopped k journal) (ground arith)

    close_files-NodupKeys :
        (files store : Store) (closed : List MutationJournal) {done : List MutationJournal}
        → NodupKeys store
        → (close_files is_decimal disk machine_id now files store closed).1 ≡ ok done
        → NodupKeys (close_files is_decimal disk machine_id now files store closed).0
    unfolding close_files put
    close_files-NodupKeys [] store closed u h = u
    close_files-NodupKeys ((stem, none) ∷ rest) store closed u h =
        close_files-NodupKeys rest store closed u h
    close_files-NodupKeys ((stem, some journal) ∷ rest) store closed {done} u h =
        let (closed', e) = close_files-cons stem journal rest store closed h in
        subst (λ x. NodupKeys x.0) (sym e)
          (close_files-NodupKeys rest _ closed'
            (elim (Bool-cases (is_abandoned is_decimal machine_id stem journal)) [
              | inl a ↦ rw a (
                  insert-NodupKeys journal.operation_id
                    (some (finish_abandoned is_decimal now journal)) store u)
              | inr a ↦ rw a u
            ])
            (sym (ap (λ x. x.1) e) ∙ h))

    pub close_abandoned-NodupKeys :
        (store : Store) {done : List MutationJournal}
        → NodupKeys store
        → (close_abandoned is_decimal disk store machine_id now).1 ≡ ok done
        → NodupKeys (close_abandoned is_decimal disk store machine_id now).0
    unfolding close_abandoned
    close_abandoned-NodupKeys store u h = close_files-NodupKeys (sorted_files store) store [] u h

    -- On a disk that refuses nothing the loop returns.
    close_files-returns :
        ((s : Store) (j : MutationJournal) → disk s j ≡ true)
        → (files store : Store) (closed : List MutationJournal)
        → (done : List MutationJournal) × ((close_files is_decimal disk machine_id now files store
              closed).1
            ≡ ok done)
    unfolding close_files close_file write
    close_files-returns accepts [] store closed = (closed, refl)
    close_files-returns accepts ((stem, none) ∷ rest) store closed =
        close_files-returns accepts rest store closed
    close_files-returns accepts ((stem, some journal) ∷ rest) store closed =
        elim (Bool-cases (is_abandoned is_decimal machine_id stem journal)) [
          | inl a ↦
              rw (a, accepts, close_files, close_file, write) (close_files-returns accepts rest _ _)
          | inr a ↦ rw (a, close_files, close_file) (close_files-returns accepts rest store closed)
        ]

    pub close_abandoned-returns :
        ((s : Store) (j : MutationJournal) → disk s j ≡ true)
        → (store : Store)
        → (done : List MutationJournal) × ((close_abandoned is_decimal disk store machine_id now).1
            ≡ ok done)
    unfolding close_abandoned
    close_abandoned-returns accepts store =
        close_files-returns accepts (sorted_files store) store []
