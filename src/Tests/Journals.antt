-- ===== src/Tests/Journals.antt =====
-- Journals opened, moved on and closed.
use Prim.Native.Char.{Char, code}
use codex_sync.Base.{
  String, ◌==◌, Bool, true, false, ◌&&◌, Option, none, some, List, [], ◌∷◌, ◌≡◌, ◌↔◌, refl, ok, err,
  lookup, insert, str_leb, leb, NodupKeys,
}
use mathlib.Core.Option
use codex_sync.Base.Text.{strip, is_space}
use codex_sync.MachineId.{normalize_machine_id, clean_machine_id, is_id_char}
use codex_sync.Journal
use codex_sync.Journal.{
  JournalState, prepared, backed_up, committing, committed, failed, recovery_required,
  is_before_commit, is_terminal, MutationJournal, Store, Disk, JournalError, invalid_transition,
  transition, write, begin, Request, new_journal, load, is_abandoned, close_abandoned,
}
use codex_sync.Journal.Snapshot.{snapshot_belongs_to}
use codex_sync.Journal.States.{
  Move, follow, enters, is_committing, is_backed_up, is_past_commit, follow-history,
  terminal-absorbs,
}
use codex_sync.Journal.Begin.{IsClosed, kept_file, begin-sole_open, begin-blocked}

abbrev is_decimal : Char → Bool
is_decimal c = leb b'0' (code c) && leb (code c) b'9'

abbrev journal : String → JournalState → Option String → MutationJournal
journal id state machine = record {
  operation_id = id;
  family = "sync";
  state = state;
  created_at_utc = "t0";
  plan_hash = "h";
  action_count = 1;
  backup_snapshot = none;
  counts = none;
  origin = none;
  finished_at_utc = none;
  failure = none;
  machine_id = machine;
}

own_snapshot :
    snapshot_belongs_to is_decimal (some "desk-20261006T124620Z-dbfe577b9180") (some "desk") ≡ true
unfolding snapshot_belongs_to normalize_machine_id clean_machine_id is_id_char strip is_space ◌==◌
own_snapshot = refl

-- `desk` stopped before its commit phase; `lap` has finished.
abbrev store : Store
store =
    ("b", some (journal "b" backed_up (some "desk")))
    ∷ ("a", some (journal "a" committed (some "lap")))
    ∷ []

abbrev request : Request
request = record {
  family = "sync";
  plan_hash = "h2";
  action_count = 3;
  backup_snapshot = none;
  counts = none;
  origin = some "cli";
  machine_id = some "desk";
  uuid = "c";
  now = "t1";
}

abbrev opened : Store × MutationJournal
opened = (
  (
    "b",
    some (record (journal "b" failed (some "desk")) {
      finished_at_utc = some "t1";
      failure = some "Abandoned";
    }),
  )
      ∷ ("a", some (journal "a" committed (some "lap")))
      ∷ (
        "c",
        some (record (journal "c" prepared (some "desk")) {
          created_at_utc = "t1";
          plan_hash = "h2";
          action_count = 3;
          origin = some "cli";
        }),
      )
      ∷ [],
  record (journal "c" prepared (some "desk")) {
    created_at_utc = "t1";
    plan_hash = "h2";
    action_count = 3;
    origin = some "cli";
  },
)

abbrev any_disk : Disk
any_disk s j = true

begin_runs : begin is_decimal any_disk store request ≡ ok opened
unfolding begin Journal.non_terminal close_abandoned Journal.owned_by is_abandoned
    normalize_machine_id clean_machine_id is_id_char strip is_space lookup insert str_leb ◌==◌
begin_runs = refl

store-NodupKeys : NodupKeys store
unfolding lookup ◌==◌
store-NodupKeys = (refl, (refl, tt))

begin-sole_open_example :
    (opened.1.state ≡ prepared)
    × (lookup "c" opened.0 ≡ some (some opened.1))
    × ((k : String) (file : Option MutationJournal)
        → (k == "c") ≡ false
        → lookup k opened.0 ≡ some file
        → IsClosed file)
    × ((k : String)
        → (k == "c") ≡ false
        → lookup k opened.0 ≡ Option.map (kept_file is_decimal request k) (lookup k store))
begin-sole_open_example =
    begin-sole_open is_decimal any_disk store request store-NodupKeys begin_runs

begin-blocked_example :
    ((r' : Store × MutationJournal) × (begin is_decimal any_disk store request ≡ ok r')) ↔ (
      (k : String) (file : Option MutationJournal)
      → lookup k store ≡ some file
      → IsClosed (kept_file is_decimal request k file))
begin-blocked_example =
    begin-blocked is_decimal any_disk (λ s j. refl) store request store-NodupKeys

abbrev moves : List Move
moves =
    record { target = backed_up; failure = none; now = "t2" }
    ∷ record { target = committing; failure = none; now = "t3" }
    ∷ record { target = recovery_required; failure = none; now = "t4" }
    ∷ []

abbrev start : MutationJournal
start = journal "c" prepared none

abbrev stopped : Store × MutationJournal
stopped =
    (("c", some (journal "c" recovery_required none)) ∷ [], journal "c" recovery_required none)

follow_runs : follow any_disk [] start moves ≡ ok stopped
unfolding follow transition insert ◌==◌
follow_runs = refl

follow-history_example :
    (is_before_commit recovery_required ≡ true → enters is_committing moves ≡ false)
    × (is_past_commit recovery_required ≡ true
        → (enters is_backed_up moves ≡ true) × (enters is_committing moves ≡ true))
follow-history_example = follow-history any_disk [] start moves refl follow_runs

terminal-absorbs_example :
    transition any_disk [] (journal "c" committed none) committing none "t5"
    ≡ err (invalid_transition committed committing)
terminal-absorbs_example =
    terminal-absorbs any_disk [] (journal "c" committed none)
      (record { target = committing; failure = none; now = "t5" }) refl
