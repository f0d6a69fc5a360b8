-- ===== src/Planner/Tally.antt =====
-- How often each list of a plan names a path, followed through the loops of the planner.
use codex_sync.Base.{
  ℕ, ◌+◌, ◌≤◌, ◌≡◌, refl, ap, ◌∙◌, String, ◌==◌, ==_iff, ==_refl, not, ◌&&◌, List, [], ◌∷◌, ◌++◌,
  map, if◌then◌else◌, contains, count, count-append, contains-count, lookup, arith, Bool-cases, inl,
  inr,
}
use codex_sync.Models.{SyncPlan}
use codex_sync.Planner.{
  PlanContext, upload, download, remove, dispute, plan_entry, plan_paths, copied, deleted,
}
use codex_sync.Planner.Verdict.{
  Verdict, keep, send, fetch, drop, ask, verdict_at, enact, plan_entry-enact,
}

-- The four lists that decide about paths.
pub data Column : Type 0 where
  sent fetched dropped asked : Column

abbrev pub column : Column → SyncPlan → List String
column sent plan = copied plan.to_cloud
column fetched plan = copied plan.to_local
column dropped plan = deleted plan.deletions
column asked plan = plan.conflicts

abbrev pub tally : Column → String → SyncPlan → ℕ
tally k r plan = count r (column k plan)

-- How many entries a verdict adds to a column.
abbrev pub share : Column → Verdict → ℕ
share sent (send _) = 1
share fetched (fetch _) = 1
share dropped (drop _ _) = 1
share asked ask = 1
share _ _ = 0

pub map-append {ℓ} :
    {A : Type ℓ} (f : A → String) (xs ys : List A) → map f (xs ++ ys) ≡ map f xs ++ map f ys
map-append f [] ys = refl
map-append f (x ∷ xs) ys = ap (λ l. f x ∷ l) (map-append f xs ys)

pub count_snoc :
    {A : Type 0} (f : A → String) (r : String) (xs : List A) (x : A)
    → count r (map f (xs ++ (x ∷ []))) ≡ (if r == f x then 1 else 0) + count r (map f xs)
unfolding count
count_snoc f r xs x =
    rw (map-append f xs (x ∷ [])) (omega (arith, count-append r (map f xs) (f x ∷ [])))

pub count_snoc_text :
    (r : String) (xs : List String) (x : String)
    → count r (xs ++ (x ∷ [])) ≡ (if r == x then 1 else 0) + count r xs
unfolding count
count_snoc_text r xs x = omega (arith, count-append r xs (x ∷ []))

module _ (c : PlanContext) where
  -- Enacting a verdict on `rel` adds its share for `rel`, and nothing for another path.
  pub tally-enact :
      (k : Column) (r rel : String) (v : Verdict) (plan : SyncPlan)
      → tally k r (enact c rel v plan) ≡ (if r == rel then share k v else 0) + tally k r plan
  unfolding upload download remove dispute
  tally-enact sent r rel keep plan = ground arith
  tally-enact sent r rel (send m) plan = count_snoc _ r _ _
  tally-enact sent r rel _ plan = ground arith
  tally-enact fetched r rel keep plan = ground arith
  tally-enact fetched r rel (fetch m) plan = count_snoc _ r _ _
  tally-enact fetched r rel _ plan = ground arith
  tally-enact dropped r rel keep plan = ground arith
  tally-enact dropped r rel (drop m side) plan = count_snoc _ r _ _
  tally-enact dropped r rel _ plan = ground arith
  tally-enact asked r rel keep plan = ground arith
  tally-enact asked r rel ask plan = count_snoc_text r _ _
  tally-enact asked r rel _ plan = ground arith

  -- One round of the loop.
  abbrev round : List String → String → SyncPlan → SyncPlan
  round collisions rel plan =
      if contains collisions rel
      then plan
      else plan_entry c rel (lookup rel c.local_index) (lookup rel c.cloud_index)
          (lookup rel c.prev_files) plan

  tally-round :
      (k : Column) (r : String) (collisions : List String) (rel : String) (plan : SyncPlan)
      → tally k r (round collisions rel plan)
        ≡ (if r == rel && not (contains collisions r) then share k (verdict_at c r) else 0)
          + tally k r plan
  tally-round k r collisions rel plan = elim (Bool-cases (r == rel)) [
    | inl same ↦
        let e : r ≡ rel = (==_iff r rel).0 same in
        rw (same, e)
          (elim (Bool-cases (contains collisions rel)) [
            | inl held ↦ rw held (omega arith)
            | inr free ↦
                rw (free, plan_entry-enact)
                  (rw (tally-enact k rel rel (verdict_at c rel) plan, ==_refl rel) refl)
          ])
    | inr differ ↦ rw differ (elim (Bool-cases (contains collisions rel)) [
      | inl held ↦ rw held (omega arith)
      | inr free ↦
          rw (free, plan_entry-enact)
            (rw (tally-enact k r rel (verdict_at c rel) plan, differ) refl)
    ])
  ]

  -- After the loop each path has its verdict's share if it was listed and does not collide.
  pub tally-plan_paths :
      (k : Column) (r : String) (collisions paths : List String) (plan : SyncPlan)
      → count r paths ≤ 1
      → tally k r (plan_paths c collisions paths plan)
        ≡ (if contains paths r && not (contains collisions r) then share k (verdict_at c r) else 0)
          + tally k r plan
  unfolding plan_paths contains count
  tally-plan_paths k r collisions [] plan h = omega arith
  tally-plan_paths k r collisions (rel ∷ rest) plan h = ground (
    arith,
    tally-plan_paths k r collisions rest (round collisions rel plan),
    tally-round k r collisions rel plan,
    contains-count r rest,
  )

  skipped-enact :
      (rel : String) (v : Verdict) (plan : SyncPlan) → (enact c rel v plan).skipped ≡ plan.skipped
  unfolding upload download remove dispute
  skipped-enact rel keep plan = refl
  skipped-enact rel _ plan = refl

  skipped-round :
      (collisions : List String) (rel : String) (plan : SyncPlan)
      → (round collisions rel plan).skipped ≡ plan.skipped
  skipped-round collisions rel plan = elim (Bool-cases (contains collisions rel)) [
    | inl held ↦ rw held refl
    | inr free ↦ rw (free, plan_entry-enact) (skipped-enact rel _ plan)
  ]

  pub skipped-plan_paths :
      (collisions paths : List String) (plan : SyncPlan)
      → (plan_paths c collisions paths plan).skipped ≡ plan.skipped
  unfolding plan_paths
  skipped-plan_paths collisions [] plan = refl
  skipped-plan_paths collisions (rel ∷ rest) plan =
      skipped-plan_paths collisions rest (round collisions rel plan)
      ∙ skipped-round collisions rel plan
