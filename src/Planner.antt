-- ===== src/Planner.antt =====
-- src/codexsync/planner.py: what one sync run copies, deletes and calls a conflict.
pub mod Roots
pub mod Collisions
pub mod Verdict
pub mod Tally
pub mod Outcomes
pub mod Deletions
pub mod Copies
pub mod Places
use codex_sync.Base.{
  ℕ, ◌*◌, String, ◌==◌, Bool, true, false, not, ◌&&◌, ◌||◌, Option, none, some, List, [], ◌∷◌, ◌++◌,
  map, leb, ltb, if◌then◌else◌, contains, dedupe, sorted, keep_if, any, Dict, lookup, keys, Result,
  ok, err, is_some,
}
use codex_sync.Base.Int.{dist, int_ltb, int_eq}
use codex_sync.Models.{
  FileMeta, CopyAction, SnapshotFingerprint, ManifestEntry, SyncManifest, Side, local, cloud, other,
  DeleteAction, SyncPlan, empty_plan, join,
}
use Roots.{roots_by_length, root_of}
use Collisions.{case_collisions}

-- The arguments of `build_sync_plan` behind the two indexes, with `sha256` for the digest of the
-- file at a path, and `casefold` for `str.casefold`.
pub record PlanContext : Type 0 where
  pub local_index : Dict FileMeta
  pub cloud_index : Dict FileMeta
  pub local_root : String
  pub cloud_root : String
  pub prev_files : Dict ManifestEntry
  pub compare_mode : String
  pub tolerance_ns : ℕ
  pub conflict_policy : String
  pub equal_mtime_action : String
  pub direction : String
  pub delete_policy : String
  pub include_roots : List String
  pub sha256 : String → String
  pub casefold : String → String

pub data PlanError : Type 0 where
  unknown_direction : String → PlanError

unfoldable pub prev_files_of : Option SyncManifest → Dict ManifestEntry
prev_files_of none = []
prev_files_of (some manifest) = manifest.files

unfoldable pub has_side_changed : FileMeta → Option SnapshotFingerprint → ℕ → Bool
has_side_changed meta none tolerance_ns = true
has_side_changed meta (some previous) tolerance_ns =
    if not (int_eq meta.size previous.size)
    then true
    else ltb tolerance_ns (dist meta.mtime_ns previous.mtime_ns)

unfoldable pub same_content : (String → String) → String → String → Bool
same_content sha256 left right = sha256 left == sha256 right

unfoldable pub same_file : (String → String) → FileMeta → FileMeta → ℕ → String → Bool
unfolding same_content
same_file sha256 local_meta cloud_meta tolerance_ns compare_mode =
    if not (int_eq local_meta.size cloud_meta.size)
    then false
    else if not (leb (dist local_meta.mtime_ns cloud_meta.mtime_ns) tolerance_ns)
    then false
    else if compare_mode == "mtime_hash_fallback"
    then same_content sha256 local_meta.abs_path cloud_meta.abs_path
    else true

-- `getattr(previous, side, None)`
abbrev pub recorded : Side → ManifestEntry → Option SnapshotFingerprint
recorded local entry = entry.local
recorded cloud entry = entry.cloud

unfoldable pub deletion_is_proven : FileMeta → Option ManifestEntry → ℕ → String → Side → Bool
deletion_is_proven surviving previous tolerance_ns delete_policy side =
    if not (delete_policy == "propagate") then false else elim previous [
      | none ↦ false
      | some entry ↦ elim (recorded side entry) [
        | none ↦ false
        | some _ ↦ elim (recorded (other side) entry) [
          | none ↦ false
          | some before ↦ not (has_side_changed surviving (some before) tolerance_ns)
        ]
      ]
    ]

unfoldable pub deletion_is_disputed : Option ManifestEntry → String → Side → Bool
deletion_is_disputed none delete_policy side = false
deletion_is_disputed (some entry) delete_policy side =
    if not (delete_policy == "propagate")
    then false
    else is_some (recorded side entry) && is_some (recorded (other side) entry)

-- `plan.to_cloud.append(CopyAction(...))` and its kind.
module _ (c : PlanContext) (rel : String) where
  unfoldable pub upload : FileMeta → SyncPlan → SyncPlan
  upload meta plan =
      let action : CopyAction = record {
        src = meta.abs_path;
        dst = join c.cloud_root rel;
        relative_path = rel;
        codec = none;
      } in
      record plan { to_cloud = plan.to_cloud ++ (action ∷ []) }

  unfoldable pub download : FileMeta → SyncPlan → SyncPlan
  download meta plan =
      let action : CopyAction = record {
        src = meta.abs_path;
        dst = join c.local_root rel;
        relative_path = rel;
        codec = none;
      } in
      record plan { to_local = plan.to_local ++ (action ∷ []) }

  unfoldable pub remove : FileMeta → Side → SyncPlan → SyncPlan
  remove meta side plan =
      let action : DeleteAction = record {
        path = meta.abs_path;
        relative_path = rel;
        side = side;
      } in
      record plan { deletions = plan.deletions ++ (action ∷ []) }

  unfoldable pub dispute : SyncPlan → SyncPlan
  dispute plan = record plan { conflicts = plan.conflicts ++ (rel ∷ []) }

  -- Both return whether the path is resolved, and the plan.
  unfoldable pub resolve_conflict : FileMeta → FileMeta → SyncPlan → Bool × SyncPlan
  resolve_conflict l r plan =
      if c.conflict_policy == "prefer_cloud"
      then (true, download r plan)
      else if c.conflict_policy == "prefer_local"
      then (true, upload l plan)
      else if c.conflict_policy == "prefer_newer_mtime"
      then (true, if int_ltb r.mtime_ns l.mtime_ns then upload l plan else download r plan)
      else (false, plan)

  unfoldable pub resolve_equal_mtime : FileMeta → FileMeta → SyncPlan → Bool × SyncPlan
  resolve_equal_mtime l r plan =
      if c.equal_mtime_action == "skip"
      then (true, plan)
      else if c.equal_mtime_action == "prefer_local"
      then (true, upload l plan)
      else if c.equal_mtime_action == "prefer_cloud"
      then (true, download r plan)
      else (false, plan)

  -- `if not resolved: plan.conflicts.append(rel)`
  abbrev settle : Bool × SyncPlan → SyncPlan
  settle (resolved, plan) = if resolved then plan else dispute plan

  -- Two files without a previous entry, or with neither side changed since it: by time.
  unfoldable pub plan_by_mtime : FileMeta → FileMeta → SyncPlan → SyncPlan
  plan_by_mtime l r plan =
      if leb (dist l.mtime_ns r.mtime_ns) c.tolerance_ns
      then settle (resolve_equal_mtime l r plan)
      else if int_ltb r.mtime_ns l.mtime_ns
      then upload l plan
      else download r plan

  unfoldable pub plan_changed : FileMeta → FileMeta → Bool → Bool → SyncPlan → SyncPlan
  plan_changed l r true true plan = settle (resolve_conflict l r plan)
  plan_changed l r true false plan = upload l plan
  plan_changed l r false true plan = download r plan
  plan_changed l r false false plan = plan_by_mtime l r plan

  unfoldable pub plan_both : FileMeta → FileMeta → Option ManifestEntry → SyncPlan → SyncPlan
  plan_both l r prev plan =
      if same_file c.sha256 l r c.tolerance_ns c.compare_mode then plan else elim prev [
        | none ↦ plan_by_mtime l r plan
        | some entry ↦
            plan_changed l r (has_side_changed l entry.local c.tolerance_ns)
              (has_side_changed r entry.cloud c.tolerance_ns) plan
      ]

  -- The body of the loop over `all_paths`.
  unfoldable pub plan_entry :
      Option FileMeta → Option FileMeta → Option ManifestEntry → SyncPlan → SyncPlan
  plan_entry (some l) none prev plan =
      if deletion_is_proven l prev c.tolerance_ns c.delete_policy cloud
      then remove l local plan
      else if deletion_is_disputed prev c.delete_policy cloud
      then dispute plan
      else upload l plan
  plan_entry none (some r) prev plan =
      if deletion_is_proven r prev c.tolerance_ns c.delete_policy local
      then remove r cloud plan
      else if deletion_is_disputed prev c.delete_policy local
      then dispute plan
      else download r plan
  plan_entry none none prev plan = plan
  plan_entry (some l) (some r) prev plan = plan_both l r prev plan

module _ (c : PlanContext) where
  unfoldable pub plan_paths : List String → List String → SyncPlan → SyncPlan
  plan_paths collisions [] plan = plan
  plan_paths collisions (rel ∷ rest) plan = plan_paths collisions rest (
      if contains collisions rel
      then plan
      else plan_entry c rel (lookup rel c.local_index) (lookup rel c.cloud_index)
          (lookup rel c.prev_files) plan)

  -- `sorted(set(local_index.keys()) | set(cloud_index.keys()))`
  unfoldable pub all_paths : List String
  all_paths = sorted (dedupe (keys c.local_index ++ keys c.cloud_index))

  -- The loop of `_hold_deletions_from_empty_roots`.
  unfoldable pub hold_deletions :
      List String → List String → List String → List DeleteAction → SyncPlan → SyncPlan
  hold_deletions roots present_local present_cloud [] plan = plan
  hold_deletions roots present_local present_cloud (deletion ∷ rest) plan =
      let root = root_of deletion.relative_path roots in
      let present : List String = elim deletion.side [
        | local ↦ present_cloud
        | cloud ↦ present_local
      ] in
      hold_deletions roots present_local present_cloud rest (
        if contains present root
        then record plan { deletions = plan.deletions ++ (deletion ∷ []) }
        else record plan { conflicts = plan.conflicts ++ (deletion.relative_path ∷ []) })

  unfoldable pub hold_deletions_from_empty_roots : SyncPlan → SyncPlan
  unfolding hold_deletions
  hold_deletions_from_empty_roots plan =
      let roots = roots_by_length c.include_roots in
      hold_deletions roots (map (λ rel. root_of rel roots) (keys c.local_index))
        (map (λ rel. root_of rel roots) (keys c.cloud_index)) plan.deletions
        (record plan { deletions = [] })

abbrev pub is_local : Side → Bool
is_local local = true
is_local cloud = false

abbrev pub on_side : Side → DeleteAction → Bool
on_side local deletion = is_local deletion.side
on_side cloud deletion = not (is_local deletion.side)

abbrev pub copied : List CopyAction → List String
copied = map (λ action. action.relative_path)

abbrev pub deleted : List DeleteAction → List String
deleted = map (λ deletion. deletion.relative_path)

unfoldable pub apply_direction : SyncPlan → String → Result PlanError SyncPlan
apply_direction plan direction =
    if direction == "bidirectional"
    then ok plan
    else if direction == "to_cloud"
    then ok (record plan {
      to_local = [];
      deletions = keep_if (on_side cloud) plan.deletions;
      skipped =
          (plan.skipped ++ copied plan.to_local)
          ++ deleted (keep_if (on_side local) plan.deletions);
    })
    else if direction == "to_local"
    then ok (record plan {
      to_cloud = [];
      deletions = keep_if (on_side local) plan.deletions;
      skipped =
          (plan.skipped ++ copied plan.to_cloud)
          ++ deleted (keep_if (on_side cloud) plan.deletions);
    })
    else err (unknown_direction direction)

-- The plan before `_apply_direction`.
unfoldable pub undirected_plan : PlanContext → SyncPlan
undirected_plan c =
    let collisions = case_collisions c.casefold (all_paths c) in
    hold_deletions_from_empty_roots c
      (plan_paths c collisions (all_paths c) (record empty_plan { conflicts = sorted collisions }))

unfoldable pub build_sync_plan : PlanContext → Result PlanError SyncPlan
build_sync_plan c = apply_direction (undirected_plan c) c.direction
