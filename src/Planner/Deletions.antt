-- ===== src/Planner/Deletions.antt =====
-- When `build_sync_plan` deletes a file.
use codex_sync.Base.{
  ◌≡◌, refl, sym, String, ◌==◌, true, false, Option, none, some, List, [], ◌∷◌, map, contains, keys,
  is_some, Dict, lookup, arith, Bool-cases, inl, inr, keep_if, ok, All, All-append, All-keep_if,
  All-map, ◌⊎◌,
}
use codex_sync.Models.{FileMeta, ManifestEntry, DeleteAction, Side, local, cloud, other, SyncPlan}
use codex_sync.Planner.{
  PlanContext, has_side_changed, recorded, plan_paths, all_paths, hold_deletions,
  hold_deletions_from_empty_roots, on_side, apply_direction, undirected_plan, build_sync_plan,
  upload, download, remove, dispute,
}
use codex_sync.Planner.Collisions.{case_collisions}
use codex_sync.Planner.Roots.{root_of, roots_by_length}
use codex_sync.Planner.Verdict.{
  Verdict, keep, send, fetch, drop, ask, verdict, verdict_at, enact, plan_entry-enact,
}
use codex_sync.Planner.Outcomes.{held, absent_side, hold-cons}

abbrev pub pick : Side → Option FileMeta → Option FileMeta → Option FileMeta
pick local l r = l
pick cloud l r = r

abbrev pub index : PlanContext → Side → Dict FileMeta
index c local = c.local_index
index c cloud = c.cloud_index

-- The deleted file exists on its side alone, both sides had it at the previous run, and it has
-- not changed since.
abbrev pub IsProven : PlanContext → DeleteAction → Type 0
IsProven c d =
    (meta : FileMeta) × (entry : ManifestEntry) × ((c.delete_policy == "propagate") ≡ true)
    × (lookup d.relative_path (index c d.side) ≡ some meta)
    × (lookup d.relative_path (index c (other d.side)) ≡ none)
    × (lookup d.relative_path c.prev_files ≡ some entry)
    × (is_some (recorded (other d.side) entry) ≡ true)
    × (has_side_changed meta (recorded d.side entry) c.tolerance_ns ≡ false)
    × (d.path ≡ meta.abs_path)

-- The side that the file is missing from holds some file under the same include root.
abbrev pub IsRootPresent : PlanContext → DeleteAction → Type 0
IsRootPresent c d =
    contains
      (map (λ rel. root_of rel (roots_by_length c.include_roots)) (keys (index c (other d.side))))
      (root_of d.relative_path (roots_by_length c.include_roots))
    ≡ true

module _ (c : PlanContext) where
  verdict-drop :
      (l r : Option FileMeta) (prev : Option ManifestEntry) (meta : FileMeta) (side : Side)
      → verdict c l r prev ≡ drop meta side
      → (entry : ManifestEntry) × ((c.delete_policy == "propagate") ≡ true)
        × (pick side l r ≡ some meta)
        × (pick (other side) l r ≡ none)
        × (prev ≡ some entry)
        × (is_some (recorded (other side) entry) ≡ true)
        × (has_side_changed meta (recorded side entry) c.tolerance_ns ≡ false)
  unfolding verdict
  verdict-drop none none prev meta side h = cc
  verdict-drop (some l) none none meta side h = cc
  verdict-drop (some l) none (some entry) meta side h =
      (entry, ground arith, ground arith, ground arith, refl, ground arith, ground arith)
  verdict-drop none (some r) none meta side h = cc
  verdict-drop none (some r) (some entry) meta side h =
      (entry, ground arith, ground arith, ground arith, refl, ground arith, ground arith)
  verdict-drop (some l) (some r) none meta side h = absurd (ground arith)
  verdict-drop (some l) (some r) (some entry) meta side h = absurd (ground arith)

  All-enact :
      (rel : String) (v : Verdict) (plan : SyncPlan)
      → v ≡ verdict_at c rel
      → All (IsProven c) plan.deletions
      → All (IsProven c) (enact c rel v plan).deletions
  unfolding upload download remove dispute
  All-enact rel keep plan e h = h
  All-enact rel (send m) plan e h = h
  All-enact rel (fetch m) plan e h = h
  All-enact rel ask plan e h = h
  All-enact rel (drop m local) plan e h =
      let f =
        verdict-drop (lookup rel c.local_index) (lookup rel c.cloud_index) (lookup rel c.prev_files)
          m local (sym e) in
      All-append (IsProven c) plan.deletions _ h ((m, f.0, f.1, f.2, f.3, f.4, f.5, f.6, refl), tt)
  All-enact rel (drop m cloud) plan e h =
      let f =
        verdict-drop (lookup rel c.local_index) (lookup rel c.cloud_index) (lookup rel c.prev_files)
          m cloud (sym e) in
      All-append (IsProven c) plan.deletions _ h ((m, f.0, f.1, f.2, f.3, f.4, f.5, f.6, refl), tt)

  All-plan_paths :
      (collisions paths : List String) (plan : SyncPlan)
      → All (IsProven c) plan.deletions
      → All (IsProven c) (plan_paths c collisions paths plan).deletions
  unfolding plan_paths
  All-plan_paths collisions [] plan h = h
  All-plan_paths collisions (rel ∷ rest) plan h =
      All-plan_paths collisions rest _ (elim (Bool-cases (contains collisions rel)) [
        | inl p ↦ rw p h
        | inr q ↦ rw (q, plan_entry-enact) (All-enact rel (verdict_at c rel) plan refl h)
      ])

  -- Holding back keeps what holds of all deletions, and adds what it tested.
  All-hold :
      (P : DeleteAction → Type 0) (roots here there : List String) (ds : List DeleteAction)
      (plan : SyncPlan)
      → All P ds
      → All (λ d. P d × (held c roots here there d ≡ true)) plan.deletions
      → All
          (λ d. P d × (held c roots here there d ≡ true))
          (hold_deletions c roots here there ds plan).deletions
  unfolding hold_deletions
  All-hold P roots here there [] plan h k = k
  All-hold P roots here there (d ∷ ds) plan (h, hs) k =
      rw hold-cons (elim (Bool-cases (held c roots here there d)) [
        | inl p ↦
            rw p
              (All-hold P roots here there ds _ hs (All-append _ plan.deletions _ k ((h, p), tt)))
        | inr q ↦ rw q (All-hold P roots here there ds _ hs k)
      ])

  held-IsRootPresent :
      (d : DeleteAction)
      → IsProven c d
        × (held c
              (roots_by_length c.include_roots)
              (map (λ rel. root_of rel (roots_by_length c.include_roots)) (keys c.local_index))
              (map (λ rel. root_of rel (roots_by_length c.include_roots)) (keys c.cloud_index))
              d
            ≡ true)
      → IsProven c d × IsRootPresent c d
  held-IsRootPresent d h = (h.0, present d.side h.1)
    where
      present :
          (side : Side)
          → contains
              (absent_side c
                (roots_by_length c.include_roots)
                (map (λ rel. root_of rel (roots_by_length c.include_roots)) (keys c.local_index))
                (map (λ rel. root_of rel (roots_by_length c.include_roots)) (keys c.cloud_index))
                side)
              (root_of d.relative_path (roots_by_length c.include_roots))
            ≡ true
          → contains
              (map
                (λ rel. root_of rel (roots_by_length c.include_roots))
                (keys (index c (other side))))
              (root_of d.relative_path (roots_by_length c.include_roots))
            ≡ true
      present local p = p
      present cloud p = p

  All-undirected_plan : All (λ d. IsProven c d × IsRootPresent c d) (undirected_plan c).deletions
  unfolding undirected_plan hold_deletions_from_empty_roots
  All-undirected_plan = All-map held-IsRootPresent _ (
      All-hold (IsProven c) (roots_by_length c.include_roots) _ _ _ _
        (All-plan_paths (case_collisions c.casefold (all_paths c)) (all_paths c) _ tt) tt)

  deletions-apply_direction :
      (plan : SyncPlan) (direction : String) {narrowed : SyncPlan}
      → apply_direction plan direction ≡ ok narrowed
      → (narrowed.deletions ≡ plan.deletions)
        ⊎ (narrowed.deletions ≡ keep_if (on_side local) plan.deletions)
        ⊎ (narrowed.deletions ≡ keep_if (on_side cloud) plan.deletions)
  unfolding apply_direction
  deletions-apply_direction plan direction h = ground arith

  -- Every file that a plan deletes was on both sides at the previous run, is gone from the other
  -- side, is unchanged on its own, and lies under an include root of which the other side still
  -- holds something.
  pub build-deletes :
      {plan : SyncPlan}
      → build_sync_plan c ≡ ok plan
      → All (λ d. IsProven c d × IsRootPresent c d) plan.deletions
  unfolding build_sync_plan
  build-deletes {plan} h = elim (deletions-apply_direction (undirected_plan c) c.direction h) [
    | inl e ↦ rw e All-undirected_plan
    | inr (inl e) ↦ rw e (All-keep_if _ _ _ All-undirected_plan)
    | inr (inr e) ↦ rw e (All-keep_if _ _ _ All-undirected_plan)
  ]
