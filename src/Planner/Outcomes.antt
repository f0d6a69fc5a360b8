-- ===== src/Planner/Outcomes.antt =====
-- What `build_sync_plan` decides about each path, against the verdicts.
use codex_sync.Base.{
  ℕ, ◌+◌, ◌≤◌, ◌≡◌, refl, ap, ◌∙◌, String, Bool, true, false, not, ◌&&◌, ◌||◌, List, [], ◌∷◌, ◌++◌,
  map, if◌then◌else◌, contains, contains-append, contains-dedupe, contains-sorted, contains-keys,
  contains-count, count, count-append, count-contains, count-sorted, count-dedupe, sorted, keys,
  is_some, lookup, arith, Bool-cases, inl, inr, keep_if, ok,
}
use codex_sync.Models.{DeleteAction, Side, local, cloud, SyncPlan, empty_plan}
use codex_sync.Planner.{
  PlanContext, plan_paths, all_paths, hold_deletions, hold_deletions_from_empty_roots, copied,
  deleted, on_side, apply_direction, undirected_plan, build_sync_plan,
}
use codex_sync.Planner.Collisions.{case_collisions}
use codex_sync.Planner.Roots.{root_of, roots_by_length}
use codex_sync.Planner.Verdict.{Verdict, keep, verdict_at}
use codex_sync.Planner.Tally.{
  Column, sent, fetched, dropped, asked, tally, share, tally-plan_paths, count_snoc,
  count_snoc_text, skipped-plan_paths,
}

-- All entries of a plan about one path: copies either way, deletions, conflicts, skipped actions.
abbrev pub entries : String → SyncPlan → ℕ
entries r plan =
    tally sent r plan
    + tally fetched r plan
    + tally dropped r plan
    + tally asked r plan
    + count r plan.skipped

abbrev pub is_keep : Verdict → Bool
is_keep keep = true
is_keep _ = false

abbrev pub collides : PlanContext → String → Bool
collides c r = contains (case_collisions c.casefold (all_paths c)) r

-- The path exists on one side at least.
abbrev pub is_listed : PlanContext → String → Bool
is_listed c r = is_some (lookup r c.local_index) || is_some (lookup r c.cloud_index)

module _ (c : PlanContext) where
  contains-all_paths : (r : String) → contains (all_paths c) r ≡ is_listed c r
  unfolding all_paths
  contains-all_paths r =
      rw (contains-sorted, contains-dedupe, contains-append)
        (ground (arith, contains-keys c.local_index r, contains-keys c.cloud_index r))

  count-all_paths : (r : String) → count r (all_paths c) ≤ 1
  unfolding all_paths
  count-all_paths r = rw count-sorted (count-dedupe r (keys c.local_index ++ keys c.cloud_index))

  count-collisions : (r : String) → count r (sorted (case_collisions c.casefold (all_paths c))) ≤ 1
  unfolding case_collisions
  count-collisions r = rw count-sorted (count-dedupe r _)

  -- Collisions are settled before the loop, the rest in it.
  abbrev pub looped : SyncPlan
  looped =
      let collisions = case_collisions c.casefold (all_paths c) in
      plan_paths c collisions (all_paths c) (record empty_plan { conflicts = sorted collisions })

  pub tally-looped :
      (k : Column) (r : String)
      → tally k r looped
        ≡ (if is_listed c r && not (collides c r) then share k (verdict_at c r) else 0)
          + tally k r
              (record empty_plan { conflicts = sorted (case_collisions c.casefold (all_paths c)) })
  tally-looped k r = rw (← contains-all_paths r) (
      tally-plan_paths c k r (case_collisions c.casefold (all_paths c)) (all_paths c) _
        (count-all_paths r))

  entries-looped :
      (r : String)
      → tally sent r looped + tally fetched r looped + tally dropped r looped + tally asked r looped
        ≡ (if collides c r
            then 1
            else if is_listed c r && not (is_keep (verdict_at c r))
            then 1
            else 0)
  unfolding count
  entries-looped r = ground (
    arith,
    tally-looped sent r,
    tally-looped fetched r,
    tally-looped dropped r,
    tally-looped asked r,
    count-collisions r,
    contains-sorted (case_collisions c.casefold (all_paths c)) r,
    contains-count r (sorted (case_collisions c.casefold (all_paths c))),
    count-contains r (sorted (case_collisions c.casefold (all_paths c))),
  )

-- Holding deletions back turns some into conflicts, and touches nothing else.
module _ (c : PlanContext) (roots here there : List String) where
  abbrev pub absent_side : Side → List String
  absent_side local = there
  absent_side cloud = here

  abbrev pub held : DeleteAction → Bool
  held d = contains (absent_side d.side) (root_of d.relative_path roots)

  pub hold-cons :
      (d : DeleteAction) (ds : List DeleteAction) (plan : SyncPlan)
      → hold_deletions c roots here there (d ∷ ds) plan
        ≡ hold_deletions c roots here there ds (
            if held d
            then record plan { deletions = plan.deletions ++ (d ∷ []) }
            else record plan { conflicts = plan.conflicts ++ (d.relative_path ∷ []) })
  unfolding hold_deletions
  hold-cons d ds plan = ground arith

  pub hold-keeps :
      (ds : List DeleteAction) (plan : SyncPlan)
      → ((hold_deletions c roots here there ds plan).to_cloud ≡ plan.to_cloud)
        × ((hold_deletions c roots here there ds plan).to_local ≡ plan.to_local)
        × ((hold_deletions c roots here there ds plan).skipped ≡ plan.skipped)
  unfolding hold_deletions
  hold-keeps [] plan = (refl, refl, refl)
  hold-keeps (d ∷ ds) plan = rw hold-cons (elim (Bool-cases (held d)) [
    | inl p ↦ rw p (hold-keeps ds _)
    | inr q ↦ rw q (hold-keeps ds _)
  ])

  pub tally-hold :
      (r : String) (ds : List DeleteAction) (plan : SyncPlan)
      → tally dropped r (hold_deletions c roots here there ds plan)
          + tally asked r (hold_deletions c roots here there ds plan)
        ≡ count r (deleted ds) + tally dropped r plan + tally asked r plan
  unfolding hold_deletions count
  tally-hold r [] plan = omega arith
  tally-hold r (d ∷ ds) plan = rw hold-cons (elim (Bool-cases (held d)) [
    | inl p ↦ rw p (
        omega (
          arith,
          tally-hold r ds (record plan { deletions = plan.deletions ++ (d ∷ []) }),
          count_snoc (λ (x : DeleteAction). x.relative_path) r plan.deletions d,
        ))
    | inr q ↦ rw q (
        omega (
          arith,
          tally-hold r ds (record plan { conflicts = plan.conflicts ++ (d.relative_path ∷ []) }),
          count_snoc_text r plan.conflicts d.relative_path,
        ))
  ])

  pub tally-hold_le :
      (r : String) (ds : List DeleteAction) (plan : SyncPlan)
      → tally dropped r (hold_deletions c roots here there ds plan)
        ≤ count r (deleted ds) + tally dropped r plan
  unfolding hold_deletions count
  tally-hold_le r [] plan = omega arith
  tally-hold_le r (d ∷ ds) plan = rw hold-cons (elim (Bool-cases (held d)) [
    | inl p ↦ rw p (
        omega (
          arith,
          tally-hold_le r ds (record plan { deletions = plan.deletions ++ (d ∷ []) }),
          count_snoc (λ (x : DeleteAction). x.relative_path) r plan.deletions d,
        ))
    | inr q ↦ rw q (
        omega (
          arith,
          tally-hold_le r ds (record plan { conflicts = plan.conflicts ++ (d.relative_path ∷ []) }),
        ))
  ])

pub count-deleted_split :
    (r : String) (ds : List DeleteAction)
    → count r (deleted (keep_if (on_side local) ds))
        + count r (deleted (keep_if (on_side cloud) ds))
      ≡ count r (deleted ds)
unfolding count keep_if
count-deleted_split r [] = refl
count-deleted_split r (d ∷ ds) = ground (arith, count-deleted_split r ds)

-- Narrowing the direction moves entries to `skipped`, and loses none.
entries-apply_direction :
    (r : String) (plan : SyncPlan) (direction : String) {narrowed : SyncPlan}
    → apply_direction plan direction ≡ ok narrowed
    → entries r narrowed ≡ entries r plan
unfolding apply_direction count
entries-apply_direction r plan direction h = ground (
  arith,
  count-deleted_split r plan.deletions,
  count-append r (plan.skipped ++ copied plan.to_local)
      (deleted (keep_if (on_side local) plan.deletions)),
  count-append r plan.skipped (copied plan.to_local),
  count-append r (plan.skipped ++ copied plan.to_cloud)
      (deleted (keep_if (on_side cloud) plan.deletions)),
  count-append r plan.skipped (copied plan.to_cloud),
)

module _ (c : PlanContext) where
  entries-undirected_plan :
      (r : String)
      → entries r (undirected_plan c) ≡ (
          if collides c r
          then 1
          else if is_listed c r && not (is_keep (verdict_at c r))
          then 1
          else 0)
  unfolding undirected_plan hold_deletions_from_empty_roots count
  entries-undirected_plan r =
      let p = looped c in
      let roots = roots_by_length c.include_roots in
      let here = map (λ rel. root_of rel roots) (keys c.local_index) in
      let there = map (λ rel. root_of rel roots) (keys c.cloud_index) in
      let start : SyncPlan = record p { deletions = [] } in
      let kept = hold-keeps c roots here there p.deletions start in
      omega (
        arith,
        tally-hold c roots here there r p.deletions start,
        ap (λ l. count r (copied l)) kept.0,
        ap (λ l. count r (copied l)) kept.1,
        ap (count r) kept.2,
        ap (count r) (
            skipped-plan_paths c (case_collisions c.casefold (all_paths c)) (all_paths c)
              (record empty_plan {
                conflicts = sorted (case_collisions c.casefold (all_paths c));
              })),
        entries-looped c r,
      )

  -- A path that collides with another by letter case has exactly one entry in the plan. Any other
  -- path has exactly one (a copy, a deletion, a conflict or a skipped action) if it exists on a
  -- side and its verdict is not to keep it, and none if not.
  pub build-entries :
      (r : String) {plan : SyncPlan}
      → build_sync_plan c ≡ ok plan
      → entries r plan ≡ (
          if collides c r
          then 1
          else if is_listed c r && not (is_keep (verdict_at c r))
          then 1
          else 0)
  unfolding build_sync_plan
  build-entries r h =
      entries-apply_direction r (undirected_plan c) c.direction h ∙ entries-undirected_plan r
