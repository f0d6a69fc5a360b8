-- ===== src/Tests/Plans.antt =====
-- Runs of the planner.
use codex_sync.Base.{
  true, ℕ, String, ◌==◌, not, ◌&&◌, Option, none, some, [], ◌∷◌, if◌then◌else◌, ◌≡◌, refl, All, ok,
  contains, dedupe, insert_sorted, sorted, str_leb, lookup, insert, keys,
}
use codex_sync.Base.Int.{pos, dist, int_ltb, int_eq}
use codex_sync.Models.{
  cloud, FileMeta, CopyAction, SnapshotFingerprint, ManifestEntry, local, SyncPlan, join,
}
use codex_sync.Planner
use codex_sync.Planner.{PlanContext, build_sync_plan, unknown_direction}
use codex_sync.Planner.Collisions.{case_collisions}
use codex_sync.Planner.Roots.{roots_by_length, root_of}
use codex_sync.Planner.Verdict.{verdict_at}
use codex_sync.Planner.Tally.{sent, fetched, dropped, asked, tally}
use codex_sync.Planner.Outcomes.{entries, collides, is_listed, is_keep, build-entries}
use codex_sync.Planner.Copies.{build-no_lost_update}
use codex_sync.Planner.Places.{IsCopied, build-places}
use codex_sync.Planner.Deletions.{IsProven, IsRootPresent, build-deletes}

abbrev file : String → ℕ → ℕ → FileMeta
file path mtime size = record {
  relative_path = path;
  abs_path = path;
  mtime_ns = pos mtime;
  size = pos size;
}

abbrev seen : ℕ → ℕ → Option SnapshotFingerprint
seen mtime size = some (record { mtime_ns = pos mtime; size = pos size })

abbrev agreed : ℕ → ℕ → ManifestEntry
agreed mtime size = record { local = seen mtime size; cloud = seen mtime size }

abbrev fold_rules : String → String
fold_rules s = if s == "Rules/a.md" then "rules/a.md" else s

-- One path of each kind: edited on both sides, edited here, deleted there, differing in case.
abbrev sample : PlanContext
sample = record {
  local_index =
      ("both", file "l/both" 20 1)
      ∷ ("mine", file "l/mine" 20 1)
      ∷ ("gone", file "l/gone" 10 1)
      ∷ ("Rules/a.md", file "l/Rules/a.md" 10 1)
      ∷ [];
  cloud_index =
      ("both", file "c/both" 30 1)
      ∷ ("mine", file "c/mine" 10 1)
      ∷ ("rules/a.md", file "c/rules/a.md" 10 1)
      ∷ ("new", file "c/new" 10 1)
      ∷ [];
  local_root = "l";
  cloud_root = "c";
  prev_files = ("both", agreed 10 1) ∷ ("mine", agreed 10 1) ∷ ("gone", agreed 10 1) ∷ [];
  compare_mode = "mtime";
  tolerance_ns = 0;
  conflict_policy = "manual_abort";
  equal_mtime_action = "skip";
  direction = "bidirectional";
  delete_policy = "propagate";
  include_roots = [];
  sha256 = λ s. s;
  casefold = fold_rules;
}

abbrev copy : String → String → String → CopyAction
copy src dst rel = record { src = src; dst = dst; relative_path = rel; codec = none }

abbrev sample_plan : SyncPlan
sample_plan = record {
  to_local = copy "c/new" "l/new" "new" ∷ [];
  to_cloud = copy "l/mine" "c/mine" "mine" ∷ [];
  conflicts = "Rules/a.md" ∷ "rules/a.md" ∷ "both" ∷ [];
  deletions = record { path = "l/gone"; relative_path = "gone"; side = local } ∷ [];
  skipped = [];
}

sample_builds : build_sync_plan sample ≡ ok sample_plan
unfolding build_sync_plan Planner.undirected_plan Planner.apply_direction Planner.plan_paths
    Planner.plan_entry Planner.plan_both Planner.plan_changed Planner.plan_by_mtime
    Planner.resolve_conflict Planner.resolve_equal_mtime Planner.upload Planner.download
    Planner.remove Planner.dispute Planner.deletion_is_proven Planner.deletion_is_disputed
    Planner.has_side_changed Planner.same_file Planner.all_paths
    Planner.hold_deletions_from_empty_roots case_collisions roots_by_length root_of lookup insert
    keys sorted insert_sorted dedupe contains str_leb ◌==◌ join dist int_eq int_ltb
sample_builds = refl

build-entries_example : entries "both" sample_plan ≡ (
    if collides sample "both"
    then 1
    else if is_listed sample "both" && not (is_keep (verdict_at sample "both"))
    then 1
    else 0)
build-entries_example = build-entries sample "both" sample_builds

build-deletes_example : All (λ d. IsProven sample d × IsRootPresent sample d) sample_plan.deletions
build-deletes_example = build-deletes sample sample_builds

build-places_example :
    All (IsCopied sample local) sample_plan.to_cloud
    × All (IsCopied sample cloud) sample_plan.to_local
    × (("bidirectional" == "to_local") ≡ true → sample_plan.to_cloud ≡ [])
    × (("bidirectional" == "to_cloud") ≡ true → sample_plan.to_local ≡ [])
build-places_example = build-places sample sample_builds

build-no_lost_update_example :
    (tally asked "both" sample_plan ≡ 1)
    × (tally sent "both" sample_plan ≡ 0)
    × (tally fetched "both" sample_plan ≡ 0)
    × (tally dropped "both" sample_plan ≡ 0)
unfolding case_collisions Planner.all_paths lookup insert keys sorted insert_sorted dedupe contains
    str_leb ◌==◌ Planner.has_side_changed Planner.same_file dist int_eq
build-no_lost_update_example =
    build-no_lost_update sample "both" {entry = agreed 10 1} sample_builds refl refl refl refl refl
      refl refl refl
