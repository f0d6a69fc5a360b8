-- ===== src/Planner/Places.antt =====
-- What the copies of a plan read and write.
use codex_sync.Base.{
  ◌≡◌, refl, sym, ap, subst, ◌∙◌, String, ◌==◌, true, false, Option, none, some, List, [], ◌∷◌,
  contains, lookup, arith, Bool-cases, inl, inr, ok, All, All-append, ◌⊎◌, map, keys,
}
use codex_sync.Models.{FileMeta, ManifestEntry, CopyAction, Side, local, cloud, other, SyncPlan}
use codex_sync.Planner.{
  PlanContext, same_file, plan_paths, all_paths, hold_deletions_from_empty_roots, undirected_plan,
  build_sync_plan, join, upload, download, remove, dispute,
}
use codex_sync.Planner.Collisions.{case_collisions}
use codex_sync.Planner.Roots.{root_of, roots_by_length}
use codex_sync.Planner.Verdict.{
  Verdict, keep, send, fetch, drop, ask, verdict, verdict_at, enact, plan_entry-enact,
}
use codex_sync.Planner.Outcomes.{looped, hold-keeps}
use codex_sync.Planner.Deletions.{index}
use codex_sync.Planner.Copies.{copies-apply_direction}

abbrev pub root : PlanContext → Side → String
root c local = c.local_root
root c cloud = c.cloud_root

-- The path is missing on a side, or the files of both sides differ.
abbrev pub Differs : PlanContext → Side → String → Type 0
Differs c side rel =
    (lookup rel (index c side) ≡ none)
    ⊎ ((l : FileMeta) × (r : FileMeta) × (lookup rel c.local_index ≡ some l)
        × (lookup rel c.cloud_index ≡ some r)
        × (same_file c.sha256 l r c.tolerance_ns c.compare_mode ≡ false))

-- A copy reads the file of its path on one side and writes to the place of that path under the root of
-- the other side, where the file is missing or another one.
abbrev pub IsCopied : PlanContext → Side → CopyAction → Type 0
IsCopied c side a =
    (meta : FileMeta) × (lookup a.relative_path (index c side) ≡ some meta)
    × (a.src ≡ meta.abs_path)
    × (a.dst ≡ join (root c (other side)) a.relative_path)
    × Differs c (other side) a.relative_path

module _ (c : PlanContext) where
  verdict-send :
      (l r : Option FileMeta) (prev : Option ManifestEntry) (meta : FileMeta)
      → verdict c l r prev ≡ send meta
      → (l ≡ some meta)
        × ((r ≡ none)
            ⊎ ((theirs : FileMeta) × (r ≡ some theirs)
                × (same_file c.sha256 meta theirs c.tolerance_ns c.compare_mode ≡ false)))
  unfolding verdict
  verdict-send none none prev meta h = cc
  verdict-send (some l) none none meta h = (ground arith, inl refl)
  verdict-send (some l) none (some entry) meta h = (ground arith, inl refl)
  verdict-send none (some r) none meta h = cc
  verdict-send none (some r) (some entry) meta h = absurd (ground arith)
  verdict-send (some l) (some r) none meta h =
      let e : l ≡ meta = ground arith in
      (
        ap some e,
        inr (
          r,
          refl,
          subst (λ x. same_file c.sha256 x r c.tolerance_ns c.compare_mode ≡ false) e
              (ground arith),
        ),
      )
  verdict-send (some l) (some r) (some entry) meta h =
      let e : l ≡ meta = ground arith in
      (
        ap some e,
        inr (
          r,
          refl,
          subst (λ x. same_file c.sha256 x r c.tolerance_ns c.compare_mode ≡ false) e
              (ground arith),
        ),
      )

  verdict-fetch :
      (l r : Option FileMeta) (prev : Option ManifestEntry) (meta : FileMeta)
      → verdict c l r prev ≡ fetch meta
      → (r ≡ some meta)
        × ((l ≡ none)
            ⊎ ((ours : FileMeta) × (l ≡ some ours)
                × (same_file c.sha256 ours meta c.tolerance_ns c.compare_mode ≡ false)))
  unfolding verdict
  verdict-fetch none none prev meta h = cc
  verdict-fetch (some l) none none meta h = cc
  verdict-fetch (some l) none (some entry) meta h = absurd (ground arith)
  verdict-fetch none (some r) none meta h = (ground arith, inl refl)
  verdict-fetch none (some r) (some entry) meta h = (ground arith, inl refl)
  verdict-fetch (some l) (some r) none meta h =
      let e : r ≡ meta = ground arith in
      (
        ap some e,
        inr (
          l,
          refl,
          subst (λ x. same_file c.sha256 l x c.tolerance_ns c.compare_mode ≡ false) e
              (ground arith),
        ),
      )
  verdict-fetch (some l) (some r) (some entry) meta h =
      let e : r ≡ meta = ground arith in
      (
        ap some e,
        inr (
          l,
          refl,
          subst (λ x. same_file c.sha256 l x c.tolerance_ns c.compare_mode ≡ false) e
              (ground arith),
        ),
      )

  -- Both lists of copies.
  abbrev Copied : SyncPlan → Type 0
  Copied plan = All (IsCopied c local) plan.to_cloud × All (IsCopied c cloud) plan.to_local

  enact-Copied :
      (rel : String) (v : Verdict) (plan : SyncPlan)
      → v ≡ verdict_at c rel
      → Copied plan
      → Copied (enact c rel v plan)
  unfolding upload download remove dispute
  enact-Copied rel keep plan e h = h
  enact-Copied rel ask plan e h = h
  enact-Copied rel (drop m side) plan e h = h
  enact-Copied rel (send m) plan e h =
      let (found, why) =
        verdict-send (lookup rel c.local_index) (lookup rel c.cloud_index) (lookup rel c.prev_files)
          m (sym e) in
      let differs : Differs c cloud rel = elim why [
        | inl gone ↦ inl gone
        | inr (theirs, r, d) ↦ inr (m, theirs, found, r, d)
      ] in
      (All-append (IsCopied c local) plan.to_cloud _ h.0 ((m, found, refl, refl, differs), tt), h.1)
  enact-Copied rel (fetch m) plan e h =
      let (found, why) =
        verdict-fetch (lookup rel c.local_index) (lookup rel c.cloud_index)
          (lookup rel c.prev_files) m (sym e) in
      let differs : Differs c local rel = elim why [
        | inl gone ↦ inl gone
        | inr (ours, l, d) ↦ inr (ours, m, l, found, d)
      ] in
      (h.0, All-append (IsCopied c cloud) plan.to_local _ h.1 ((m, found, refl, refl, differs), tt))

  plan_paths-Copied :
      (collisions paths : List String) (plan : SyncPlan)
      → Copied plan
      → Copied (plan_paths c collisions paths plan)
  unfolding plan_paths
  plan_paths-Copied collisions [] plan h = h
  plan_paths-Copied collisions (rel ∷ rest) plan h =
      plan_paths-Copied collisions rest _ (elim (Bool-cases (contains collisions rel)) [
        | inl p ↦ rw p h
        | inr q ↦ rw (q, plan_entry-enact) (enact-Copied rel (verdict_at c rel) plan refl h)
      ])

  undirected_plan-Copied : Copied (undirected_plan c)
  unfolding undirected_plan hold_deletions_from_empty_roots
  undirected_plan-Copied =
      let p = looped c in
      let roots = roots_by_length c.include_roots in
      let kept =
        hold-keeps c roots (map (λ rel. root_of rel roots) (keys c.local_index))
          (map (λ rel. root_of rel roots) (keys c.cloud_index)) p.deletions
          (record p { deletions = [] }) in
      let all : Copied p =
        plan_paths-Copied (case_collisions c.casefold (all_paths c)) (all_paths c) _ (tt, tt) in
      (
        subst (All (IsCopied c local)) (sym (kept.0)) all.0,
        subst (All (IsCopied c cloud)) (sym (kept.1)) all.1,
      )

  -- Every copy of a plan reads the file that one side has at its path and writes to the place of that
  -- path under the root of the other side, where no file is or one that differs; and a one-way plan has
  -- copies in its own direction only.
  pub build-places :
      {plan : SyncPlan}
      → build_sync_plan c ≡ ok plan
      → All (IsCopied c local) plan.to_cloud
        × All (IsCopied c cloud) plan.to_local
        × ((c.direction == "to_local") ≡ true → plan.to_cloud ≡ [])
        × ((c.direction == "to_cloud") ≡ true → plan.to_local ≡ [])
  unfolding build_sync_plan
  build-places {plan} h =
      let n = copies-apply_direction (undirected_plan c) c.direction h in
      let u = undirected_plan-Copied in
      (
        subst (All (IsCopied c local)) (sym n.0)
            (elim (Bool-cases (c.direction == "to_local")) [ inl e ↦ rw e tt | inr e ↦ rw e u.0 ]),
        subst (All (IsCopied c cloud)) (sym n.1)
            (elim (Bool-cases (c.direction == "to_cloud")) [ inl e ↦ rw e tt | inr e ↦ rw e u.1 ]),
        (λ e. n.0 ∙ rw e refl),
        (λ e. n.1 ∙ rw e refl),
      )
