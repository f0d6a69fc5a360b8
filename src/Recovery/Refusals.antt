-- ===== src/Recovery/Refusals.antt =====
-- `_rollback_refusal` of src/codexsync/recovery.py, over the snapshots of the backup directory.
use codex_sync.Base.{
  String, ◌==◌, Bool, true, false, not, ◌&&◌, ◌||◌, Option, none, some, [], ◌∷◌, if◌then◌else◌,
  contains, any, is_none, Dict, lookup,
}
use codex_sync.Models.{Side, local, cloud}
use codex_sync.Journal.{is_before_commit, MutationJournal}

-- A snapshot in the backup directory: whether it is a folder or an archive, its manifest file with the
-- sides of its entries (`none` for a file that is refused), and whether the contents have its hashes.
pub record BackupSnapshot : Type 0 where
  pub is_supported : Bool
  pub manifest : Option (Option (Dict (Option Side)))
  pub is_intact : Bool

-- The snapshots of the backup directory by their names.
abbrev pub Backups : Type 0
Backups = Dict BackupSnapshot

pub data RollbackRefusal : Type 0 where
  no_snapshot session_transfer unsupported_family snapshot_missing snapshot_unreadable :
      RollbackRefusal
  foreign_state sides_unrecorded : RollbackRefusal

unfoldable pub is_global_state_family : String → Bool
is_global_state_family =
    contains ("repair" ∷ "chats" ∷ "guardian-restore" ∷ "project-move" ∷ "project-sync" ∷ [])

unfoldable pub is_file_family : String → Bool
is_file_family = contains ("sync" ∷ "restore" ∷ [])

abbrev pub global_state_file : String
global_state_file = ".codex-global-state.json"

abbrev pub if_supported : Option BackupSnapshot → Option BackupSnapshot
if_supported none = none
if_supported (some snapshot) = if snapshot.is_supported then some snapshot else none

unfoldable pub locate_snapshot : Backups → Option String → Option BackupSnapshot
locate_snapshot backups none = none
locate_snapshot backups (some name) =
    if name == "" then none else if_supported (lookup name backups)

-- The side of the global state's entry may be unrecorded.
abbrev pub is_local : Option (Option Side) → Bool
is_local (some none) = true
is_local (some (some local)) = true
is_local (some (some cloud)) = false
is_local none = false

-- `set(sides) != {_GLOBAL_STATE_FILE} or ...`
unfoldable pub is_foreign : Dict (Option Side) → Bool
is_foreign sides =
    any (λ (name, _). not (name == global_state_file)) sides
    || not (is_local (lookup global_state_file sides))

unfoldable pub refusal_of_sides : String → Dict (Option Side) → Option RollbackRefusal
unfolding is_foreign
refusal_of_sides family sides =
    if is_global_state_family family
    then (if is_foreign sides then some foreign_state else none)
    else if family == "sync" && any (λ (_, side). is_none side) sides
    then some sides_unrecorded
    else none

abbrev pub refusal_of_snapshot : String → Option BackupSnapshot → Option RollbackRefusal
refusal_of_snapshot family none = some snapshot_missing
refusal_of_snapshot family (some snapshot) = elim snapshot.manifest [
  | none ↦ none
  | some none ↦ some snapshot_unreadable
  | some (some sides) ↦ refusal_of_sides family sides
]

unfoldable pub rollback_refusal : MutationJournal → Backups → Option RollbackRefusal
unfolding refusal_of_sides
rollback_refusal journal backups =
    if is_none journal.backup_snapshot
    then some no_snapshot
    else if is_before_commit journal.state
    then none
    else if journal.family == "sessions"
    then some session_transfer
    else if not (is_global_state_family journal.family || is_file_family journal.family)
    then some unsupported_family
    else refusal_of_snapshot journal.family (locate_snapshot backups journal.backup_snapshot)
