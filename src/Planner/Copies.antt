-- ===== src/Planner/Copies.antt =====
-- What `build_sync_plan` copies, path by path.
use codex_sync.Base.{
  ◌≤◌, ◌≡◌, refl, ap, ◌∙◌, String, ◌==◌, ==_iff, true, false, ◌||◌, some, [], map, if◌then◌else◌,
  count, count-sorted, count-contains, sorted, keys, lookup, arith, ok,
}
use codex_sync.Models.{FileMeta, ManifestEntry, SyncPlan}
use codex_sync.Planner.{
  PlanContext, all_paths, has_side_changed, same_file, hold_deletions_from_empty_roots, copied,
  apply_direction, undirected_plan, build_sync_plan,
}
use codex_sync.Planner.Collisions.{case_collisions}
use codex_sync.Planner.Roots.{root_of, roots_by_length}
use codex_sync.Planner.Verdict.{ask, verdict, verdict_at}
use codex_sync.Planner.Tally.{Column, sent, fetched, dropped, asked, tally, share}
use codex_sync.Planner.Outcomes.{
  collides, is_listed, looped, hold-keeps, tally-looped, tally-hold, tally-hold_le,
  count-deleted_split,
}

two_way_first :
    (s : String)
    → (s == "bidirectional") ≡ true
    → ((s == "to_cloud") ≡ false) × ((s == "to_local") ≡ false)
unfolding ◌==◌
two_way_first s h = rw ((==_iff s "bidirectional").0 h) (refl, refl)

to_cloud_first : (s : String) → (s == "to_cloud") ≡ true → (s == "to_local") ≡ false
unfolding ◌==◌
to_cloud_first s h = rw ((==_iff s "to_cloud").0 h) refl

pub copies-apply_direction :
    (plan : SyncPlan) (d : String) {n : SyncPlan}
    → apply_direction plan d ≡ ok n
    → (n.to_cloud ≡ (if d == "to_local" then [] else plan.to_cloud))
      × (n.to_local ≡ (if d == "to_cloud" then [] else plan.to_local))
      × (n.conflicts ≡ plan.conflicts)
unfolding apply_direction
copies-apply_direction plan d h = ground (arith, two_way_first d, to_cloud_first d)

dropped-apply_direction :
    (r : String) (plan : SyncPlan) (d : String) {n : SyncPlan}
    → apply_direction plan d ≡ ok n
    → tally dropped r n ≤ tally dropped r plan
unfolding apply_direction
dropped-apply_direction r plan d h = ground (arith, count-deleted_split r plan.deletions)

manual_policy :
    (s : String)
    → s ≡ "manual_abort"
    → ((s == "prefer_cloud") ≡ false)
      × ((s == "prefer_local") ≡ false)
      × ((s == "prefer_newer_mtime") ≡ false)
unfolding ◌==◌
manual_policy s e = rw e (refl, refl, refl)

module _ (c : PlanContext) where
  share-unlisted : (k : Column) (r : String) → is_listed c r ≡ false → share k (verdict_at c r) ≡ 0
  unfolding verdict
  share-unlisted sent r h = ground arith
  share-unlisted _ r h = ground arith

  copies-undirected_plan :
      (r : String)
      → (tally sent r (undirected_plan c)
          ≡ (if collides c r then 0 else share sent (verdict_at c r)))
        × (tally fetched r (undirected_plan c)
            ≡ (if collides c r then 0 else share fetched (verdict_at c r)))
  unfolding undirected_plan hold_deletions_from_empty_roots count
  copies-undirected_plan r =
      let p = looped c in
      let roots = roots_by_length c.include_roots in
      let kept =
        hold-keeps c roots (map (λ rel. root_of rel roots) (keys c.local_index))
          (map (λ rel. root_of rel roots) (keys c.cloud_index)) p.deletions
          (record p { deletions = [] }) in
      (
        ap (λ l. count r (copied l)) kept.0
            ∙ ground (arith, tally-looped c sent r, share-unlisted sent r),
        ap (λ l. count r (copied l)) kept.1
            ∙ ground (arith, tally-looped c fetched r, share-unlisted fetched r),
      )

  -- A path is copied to the cloud exactly once if its verdict is to send it, and never otherwise;
  -- likewise for fetching it. A path that collides is never copied, and a one-way run copies in
  -- its own direction only.
  build-copies :
      (r : String) {plan : SyncPlan}
      → build_sync_plan c ≡ ok plan
      → (tally sent r plan
          ≡ (if c.direction == "to_local" || collides c r then 0 else share sent (verdict_at c r)))
        × (tally fetched r plan ≡ (
            if c.direction == "to_cloud" || collides c r
            then 0
            else share fetched (verdict_at c r)))
  unfolding build_sync_plan count
  build-copies r {plan} h =
      let n = copies-apply_direction (undirected_plan c) c.direction h in
      let u = copies-undirected_plan r in
      (
        ap (λ l. count r (copied l)) n.0 ∙ ground (arith, u.0),
        ap (λ l. count r (copied l)) n.1 ∙ ground (arith, u.1),
      )

  conflicts-initial :
      (r : String)
      → collides c r ≡ false
      → count r (sorted (case_collisions c.casefold (all_paths c))) ≡ 0
  conflicts-initial r free = rw count-sorted (count-contains r _ free)

  verdict-both_changed :
      (l f : FileMeta) (entry : ManifestEntry)
      → same_file c.sha256 l f c.tolerance_ns c.compare_mode ≡ false
      → has_side_changed l entry.local c.tolerance_ns ≡ true
      → has_side_changed f entry.cloud c.tolerance_ns ≡ true
      → c.conflict_policy ≡ "manual_abort"
      → verdict c (some l) (some f) (some entry) ≡ ask
  unfolding verdict
  verdict-both_changed l f entry differ cl cf manual =
      ground (arith, manual_policy c.conflict_policy manual)

  -- A conflict that the loop found stays one, and nothing is deleted for it.
  asks-undirected_plan :
      (r : String)
      → collides c r ≡ false
      → is_listed c r ≡ true
      → verdict_at c r ≡ ask
      → (tally asked r (undirected_plan c) ≡ 1) × (tally dropped r (undirected_plan c) ≡ 0)
  unfolding undirected_plan hold_deletions_from_empty_roots count
  asks-undirected_plan r free listed e =
      let p = looped c in
      let roots = roots_by_length c.include_roots in
      let here = map (λ rel. root_of rel roots) (keys c.local_index) in
      let there = map (λ rel. root_of rel roots) (keys c.cloud_index) in
      let start : SyncPlan = record p { deletions = [] } in
      let loop : (tally asked r p ≡ 1) × (tally dropped r p ≡ 0) = (
        ground (arith, tally-looped c asked r, conflicts-initial r),
        ground (arith, tally-looped c dropped r),
      ) in
      (
        omega (
          arith,
          loop,
          tally-hold c roots here there r p.deletions start,
          tally-hold_le c roots here there r p.deletions start,
        ),
        omega (arith, loop, tally-hold_le c roots here there r p.deletions start),
      )

  -- Both machines changed the file since the previous run, the files differ, and no other path differs
  -- from this one in case alone. Under `manual_abort` neither copy is written over the other: the path
  -- is a conflict, once.
  pub build-no_lost_update :
      (r : String) {plan : SyncPlan} {l f : FileMeta} {entry : ManifestEntry}
      → build_sync_plan c ≡ ok plan
      → collides c r ≡ false
      → lookup r c.local_index ≡ some l
      → lookup r c.cloud_index ≡ some f
      → lookup r c.prev_files ≡ some entry
      → same_file c.sha256 l f c.tolerance_ns c.compare_mode ≡ false
      → has_side_changed l entry.local c.tolerance_ns ≡ true
      → has_side_changed f entry.cloud c.tolerance_ns ≡ true
      → c.conflict_policy ≡ "manual_abort"
      → (tally asked r plan ≡ 1)
        × (tally sent r plan ≡ 0)
        × (tally fetched r plan ≡ 0)
        × (tally dropped r plan ≡ 0)
  unfolding build_sync_plan
  build-no_lost_update r {l} {f} {entry} h free hl hf hp differ cl cf manual =
      let e : verdict_at c r ≡ ask =
        rw (hl, hf, hp) (verdict-both_changed l f entry differ cl cf manual) in
      let b = build-copies r h in
      let n = copies-apply_direction (undirected_plan c) c.direction h in
      let u = asks-undirected_plan r free (rw hl refl) e in
      (
        ap (count r) n.2 ∙ u.0,
        ground (arith, b.0),
        ground (arith, b.1),
        omega (arith, u.1, dropped-apply_direction r (undirected_plan c) c.direction h),
      )
