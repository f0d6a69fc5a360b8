-- ===== src/Planner/Verdict.antt =====
-- What a sync run should do with one path, from the three versions of it that it knows: the file
-- here, the file in the cloud, and what the previous run recorded.
use codex_sync.Base.{
  ◌≡◌, refl, String, ◌==◌, Bool, true, false, not, ◌&&◌, Option, none, some, leb, if◌then◌else◌,
  lookup, arith, is_some,
}
use codex_sync.Base.Int.{dist, int_ltb}
use codex_sync.Models.{FileMeta, ManifestEntry, Side, local, cloud, SyncPlan}
use codex_sync.Planner.{
  PlanContext, has_side_changed, same_file, recorded, deletion_is_proven, deletion_is_disputed,
  upload, download, remove, dispute, plan_entry, plan_both, plan_changed, plan_by_mtime,
  resolve_conflict, resolve_equal_mtime,
}

pub data Verdict : Type 0 where
  keep : Verdict
  send : FileMeta → Verdict
  fetch : FileMeta → Verdict
  drop : FileMeta → Side → Verdict
  ask : Verdict

-- The previous run saw the file on both sides.
abbrev pub agreed_before : Option ManifestEntry → Bool
agreed_before none = false
agreed_before (some entry) = is_some entry.local && is_some entry.cloud

module _ (c : PlanContext) where
  -- A file on one side only. `copy` is what happens unless the other side deleted it.
  abbrev pub one_sided : FileMeta → Side → Verdict → Option ManifestEntry → Verdict
  one_sided meta side copy none = copy
  one_sided meta side copy (some entry) =
      if c.delete_policy == "propagate" && agreed_before (some entry)
      then (if has_side_changed meta (recorded side entry) c.tolerance_ns
          then ask
          else drop meta side)
      else copy

  abbrev pub by_policy : FileMeta → FileMeta → Verdict
  by_policy l r =
      if c.conflict_policy == "prefer_cloud"
      then fetch r
      else if c.conflict_policy == "prefer_local"
      then send l
      else if c.conflict_policy == "prefer_newer_mtime"
      then (if int_ltb r.mtime_ns l.mtime_ns then send l else fetch r)
      else ask

  abbrev pub by_time : FileMeta → FileMeta → Verdict
  by_time l r =
      if not (leb (dist l.mtime_ns r.mtime_ns) c.tolerance_ns)
      then (if int_ltb r.mtime_ns l.mtime_ns then send l else fetch r)
      else if c.equal_mtime_action == "skip"
      then keep
      else if c.equal_mtime_action == "prefer_local"
      then send l
      else if c.equal_mtime_action == "prefer_cloud"
      then fetch r
      else ask

  -- Three-way comparison of two files that differ.
  abbrev pub three_way : FileMeta → FileMeta → Bool → Bool → Verdict
  three_way l r true true = by_policy l r
  three_way l r true false = send l
  three_way l r false true = fetch r
  three_way l r false false = by_time l r

  abbrev pub two_sided : FileMeta → FileMeta → Option ManifestEntry → Verdict
  two_sided l r none = by_time l r
  two_sided l r (some entry) =
      three_way l r (has_side_changed l entry.local c.tolerance_ns)
        (has_side_changed r entry.cloud c.tolerance_ns)

  unfoldable pub verdict : Option FileMeta → Option FileMeta → Option ManifestEntry → Verdict
  verdict none none prev = keep
  verdict (some l) none prev = one_sided l local (send l) prev
  verdict none (some r) prev = one_sided r cloud (fetch r) prev
  verdict (some l) (some r) prev =
      if same_file c.sha256 l r c.tolerance_ns c.compare_mode then keep else two_sided l r prev

  abbrev pub verdict_at : String → Verdict
  verdict_at rel =
      verdict (lookup rel c.local_index) (lookup rel c.cloud_index) (lookup rel c.prev_files)

  abbrev pub enact : String → Verdict → SyncPlan → SyncPlan
  enact rel keep plan = plan
  enact rel (send meta) plan = upload c rel meta plan
  enact rel (fetch meta) plan = download c rel meta plan
  enact rel (drop meta side) plan = remove c rel meta side plan
  enact rel ask plan = dispute c rel plan

  plan_by_mtime-enact :
      (rel : String) (l r : FileMeta) (plan : SyncPlan)
      → plan_by_mtime c rel l r plan ≡ enact rel (by_time l r) plan
  unfolding plan_by_mtime resolve_equal_mtime
  plan_by_mtime-enact rel l r plan = ground arith

  plan_changed-enact :
      (rel : String) (l r : FileMeta) (a b : Bool) (plan : SyncPlan)
      → plan_changed c rel l r a b plan ≡ enact rel (three_way l r a b) plan
  unfolding plan_changed resolve_conflict
  plan_changed-enact rel l r true true plan = ground arith
  plan_changed-enact rel l r true false plan = refl
  plan_changed-enact rel l r false true plan = refl
  plan_changed-enact rel l r false false plan = plan_by_mtime-enact rel l r plan

  -- The loop's body does what the verdict says.
  pub plan_entry-enact :
      (rel : String) (l r : Option FileMeta) (prev : Option ManifestEntry) (plan : SyncPlan)
      → plan_entry c rel l r prev plan ≡ enact rel (verdict l r prev) plan
  unfolding plan_entry verdict deletion_is_proven deletion_is_disputed plan_both
  plan_entry-enact rel none none prev plan = refl
  plan_entry-enact rel (some l) none none plan = ground arith
  plan_entry-enact rel (some l) none (some entry) plan = ground arith
  plan_entry-enact rel none (some r) none plan = ground arith
  plan_entry-enact rel none (some r) (some entry) plan = ground arith
  plan_entry-enact rel (some l) (some r) none plan =
      ground (arith, plan_by_mtime-enact rel l r plan)
  plan_entry-enact rel (some l) (some r) (some entry) plan = ground (
    arith,
    plan_changed-enact rel l r (has_side_changed l entry.local c.tolerance_ns)
        (has_side_changed r entry.cloud c.tolerance_ns) plan,
  )
