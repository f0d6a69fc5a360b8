-- ===== src/Recovery/Listing.antt =====
-- `_describe_journal` of src/codexsync/recovery.py: what a screen is told of one journal.
use Prim.Native.Char.{Char}
use codex_sync.Base.{
  String, ◌==◌, Bool, true, false, not, ◌&&◌, Option, none, some, if◌then◌else◌, is_none, Result,
  ok, err,
}
use codex_sync.Journal.{
  JournalState, is_terminal, is_before_commit, MutationJournal, Store, JournalError, load, owned_by,
}
use codex_sync.Recovery.Refusals.{Backups, RollbackRefusal, rollback_refusal}

-- One journal as a screen shows it, less the fields it only copies.
pub record JournalInfo : Type 0 where
  pub operation_id : String
  pub state : Option JournalState
  pub terminal : Bool
  pub readable : Bool
  pub can_resume : Bool
  pub can_rollback : Bool
  pub refusal : Option RollbackRefusal
  pub own : Bool
  pub closes_itself : Bool

abbrev pub unreadable : String → JournalInfo
unreadable operation_id = record {
  operation_id = operation_id;
  state = none;
  terminal = false;
  readable = false;
  can_resume = false;
  can_rollback = false;
  refusal = none;
  own = false;
  closes_itself = false;
}

-- `_describe_journal`, for what `load` answers; `\d` of the backup names is given by `is_decimal`.
unfoldable pub described :
    (Char → Bool) → Backups → String → String → Result JournalError MutationJournal → JournalInfo
described is_decimal backups machine operation_id (err _) = unreadable operation_id
described is_decimal backups machine operation_id (ok journal) =
    if not (journal.operation_id == operation_id)
    then unreadable operation_id
    else let terminal = is_terminal journal.state in
      let refusal : Option RollbackRefusal =
        if terminal then none else rollback_refusal journal backups in
      let own = owned_by is_decimal journal (some machine) in
      record {
        operation_id = operation_id;
        state = some journal.state;
        terminal = terminal;
        readable = true;
        can_resume = not terminal;
        can_rollback = not terminal && is_none refusal;
        refusal = refusal;
        own = own;
        closes_itself = own && is_before_commit journal.state;
      }

unfoldable pub describe_journal : (Char → Bool) → Store → Backups → String → String → JournalInfo
unfolding described
describe_journal is_decimal store backups machine operation_id =
    described is_decimal backups machine operation_id (load store operation_id)
