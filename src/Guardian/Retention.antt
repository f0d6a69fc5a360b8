-- ===== src/Guardian/Retention.antt =====
-- `prune_snapshots` of src/codexsync/guardian_retention.py.
use codex_sync.Base.{
  ℕ, suc, ◌+◌, ◌*◌, String, Bool, true, false, not, ◌&&◌, ◌||◌, Option, none, some, List, [], ◌∷◌,
  ◌++◌, ltb, leb, any, keep_if, contains, if◌then◌else◌, Dict, erase, lookup, Result, ok, err,
  ◌>>=◌,
}
use codex_sync.Base.Int.{ℤ, pos, negsuc, pos_part}
use codex_sync.Guardian.{
  GuardianManifest, GuardianSnapshot, SnapshotDirectory, Store, verify_guardian_snapshot, collect,
  newest_first, resolve_or_restore_latest_good,
}

-- The `ValueError` for a negative number, GuardianIntegrityError, and the `ValueError` of `relative_to`
-- for a directory that resolves to a place out of the folder.
pub data PruneError : Type 0 where
  negative_retention integrity not_relative : PruneError

-- ACCEPTED_MARKERS
abbrev pub accepted_markers : List String
accepted_markers = "SHRINK_ACCEPTED" ∷ "SCHEMA_CHANGE_ACCEPTED" ∷ []

unfoldable pub is_decision : GuardianManifest → Bool
is_decision m = any (λ code. contains accepted_markers code) m.validation_codes

-- Accepted snapshots and the baselines that they overrode.
unfoldable pub decisions : List GuardianManifest → List String
unfolding is_decision
decisions [] = []
decisions (m ∷ ms) =
    let rest = decisions ms in
    if is_decision m
    then elim m.previous_good_snapshot_id [
      | none ↦ m.snapshot_id ∷ rest
      | some previous ↦ m.snapshot_id ∷ previous ∷ rest
    ]
    else rest

abbrev pub first_id : List GuardianManifest → List String
first_id [] = []
first_id (m ∷ _) = m.snapshot_id ∷ []

unfoldable pub protected_ids : Option GuardianSnapshot → List GuardianManifest → List String
unfolding decisions
protected_ids none entries = decisions entries
protected_ids (some latest) entries =
    (latest.snapshot_id ∷ decisions entries)
    ++ first_id (keep_if (λ m. ltb m.generation latest.generation) entries)

-- What to keep, how long and how many, the time, and which directories can be removed: `rmtree`
-- raises OSError for the others.
pub record Pruning : Type 0 where
  pub protected : List String
  pub retention_days : ℕ
  pub max_snapshots : ℕ
  pub now : ℕ
  pub deletable : String → Bool

unfoldable pub over_count : Pruning → ℕ → Bool
over_count p index = ltb 0 p.max_snapshots && leb p.max_snapshots index

-- `created < now - timedelta(days=retention_days)`
unfoldable pub expired : Pruning → GuardianManifest → Bool
expired p m = ltb 0 p.retention_days && ltb (m.created_at + p.retention_days * 86400000000) p.now

unfoldable pub is_prunable : Pruning → ℕ → GuardianManifest → Bool
unfolding over_count expired
is_prunable p index m =
    not (contains p.protected m.snapshot_id) && (over_count p index || expired p m)

-- The directory resolves to a place out of the folder.
abbrev pub leads_out : Option SnapshotDirectory → Bool
leads_out none = false
leads_out (some directory) = not directory.is_inside

abbrev pub is_link : Option SnapshotDirectory → Bool
is_link none = false
is_link (some directory) = directory.is_symlink

-- The loop over the entries, from an index on: the directories as it leaves them, and the ids that it
-- removed unless it raises.
unfoldable pub prune_entries :
    Pruning
    → ℕ
    → List GuardianManifest
    → Dict SnapshotDirectory
    → Dict SnapshotDirectory × Result PruneError (List String)
prune_entries p index [] snapshots = (snapshots, ok [])
prune_entries p index (m ∷ ms) snapshots =
    let found = lookup m.snapshot_id snapshots in
    let gone = is_prunable p index m && (not (is_link found) && p.deletable m.snapshot_id) in
    let (after, rest) : Dict SnapshotDirectory × Result PruneError (List String) =
      prune_entries p (suc index) ms (if gone then erase m.snapshot_id snapshots else snapshots) in
    if is_prunable p index m && leads_out found
    then (snapshots, err not_relative)
    else (after, rest >>= λ removed. ok (if gone then m.snapshot_id ∷ removed else removed))

-- The entries of `prune_snapshots`, newest first.
unfoldable pub prune_list : Store → List GuardianManifest
unfolding collect newest_first
prune_list store = newest_first (collect (verify_guardian_snapshot store) store.snapshots)

unfoldable pub prune_store :
    Store
    → List GuardianManifest
    → Option GuardianSnapshot
    → ℕ
    → ℕ
    → ℕ
    → (String → Bool)
    → Store × Result PruneError (List String)
unfolding prune_entries
prune_store store entries latest retention_days max_snapshots now deletable =
    let p : Pruning = record {
      protected = protected_ids latest entries;
      retention_days = retention_days;
      max_snapshots = max_snapshots;
      now = now;
      deletable = deletable;
    } in
    let (snapshots, removed) : Dict SnapshotDirectory × Result PruneError (List String) =
      prune_entries p 0 entries store.snapshots in
    (record store { snapshots = snapshots }, removed)

abbrev pub is_negative : ℤ → Bool
is_negative (pos _) = false
is_negative (negsuc _) = true

-- What a raise leaves in the folder is not told.
abbrev pub delivered :
    Store × Result PruneError (List String) → Result PruneError (Store × List String)
delivered (store, err e) = err e
delivered (store, ok removed) = ok (store, removed)

unfoldable pub prune_snapshots :
    Store → ℤ → ℤ → ℕ → (String → Bool) → Result PruneError (Store × List String)
unfolding prune_store prune_list resolve_or_restore_latest_good
prune_snapshots store retention_days max_snapshots now deletable =
    if is_negative retention_days || is_negative max_snapshots
    then err negative_retention
    else elim (resolve_or_restore_latest_good store) [
      | none ↦ err integrity
      | some (store', latest) ↦ delivered (
          prune_store store' (prune_list store) latest (pos_part retention_days)
            (pos_part max_snapshots) now deletable)
    ]
