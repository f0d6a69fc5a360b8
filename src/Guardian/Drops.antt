-- ===== src/Guardian/Drops.antt =====
-- How far the counts of a state may fall before it is held back.
use codex_sync.Base.{
  ℕ, ◌-◌, ◌*◌, ◌≤◌, ◌<◌, ◌≡◌, ◌≢◌, refl, String, ==_iff, Bool, true, false, not, ◌||◌, Option, none,
  some, ◌⊎◌, inl, inr, leb, arith, Bool-cases, ap,
}
use codex_sync.Guardian.Shrink.{
  ValidationReport, Baseline, Policy, is_passing, is_named, same_id, is_suspicious_drop,
  to_indeterminate, judge_counts, compare_counts, compare_schemas, is_valid_policy,
  assess_suspicious_shrink,
}

-- The count has not fallen, or it is not gone and has fallen by less than the least number or by less
-- than the ratio of what it was.
abbrev pub IsBounded : Policy → ℕ → ℕ → Type 0
IsBounded p before now =
    (before ≤ now)
    ⊎ ((1 ≤ now)
        × ((before - now < p.min_count) ⊎ ((before - now) * p.ratio_den < p.ratio_num * before)))

-- Both counts are known and within the bounds.
pub record Held (p : Policy) (baseline : Baseline) (candidate : ValidationReport) : Type 0 where
  pub projects : ℕ
  pub bindings : ℕ
  pub known_projects : candidate.project_count ≡ some projects
  pub known_bindings : candidate.binding_count ≡ some bindings
  pub projects_bounded : IsBounded p baseline.project_count projects
  pub bindings_bounded : IsBounded p baseline.binding_count bindings
  pub same_schema : candidate.schema_id ≡ baseline.schema_id

drop-IsBounded :
    (before now : ℕ) (p : Policy) → is_suspicious_drop before now p ≡ false → IsBounded p before now
unfolding is_suspicious_drop
drop-IsBounded before now p h = elim (Bool-cases (leb before now)) [
  | inl e ↦ inl (ground arith)
  | inr e ↦ elim (Bool-cases (leb p.min_count (before - now))) [
    | inr e' ↦ inr (ground arith, inl (ground arith))
    | inl e' ↦ inr (ground arith, inr (ground arith))
  ]
]

-- A judgement that lets a candidate pass.
abbrev Passes : Policy → Baseline → ValidationReport → ValidationReport → Type 0
Passes p baseline candidate report =
    is_passing report.status ≡ true → (report ≡ candidate) × Held p baseline candidate

module _ (p : Policy) (baseline : Baseline) (candidate : ValidationReport) where
  to_indeterminate-Passes :
      (code : String) → Passes p baseline candidate (to_indeterminate candidate code)
  unfolding to_indeterminate
  to_indeterminate-Passes code h = cc

  judge_counts-Passes :
      (projects bindings : ℕ)
      → candidate.schema_id ≡ baseline.schema_id
      → candidate.project_count ≡ some projects
      → candidate.binding_count ≡ some bindings
      → Passes p baseline candidate (judge_counts candidate baseline p projects bindings)
  unfolding judge_counts
  judge_counts-Passes projects bindings same ep eb h =
      elim (Bool-cases (is_suspicious_drop baseline.project_count projects p)) [
        | inl e ↦ let x : false ≡ true = rw (e, judge_counts) at h in cc
        | inr e ↦ elim (Bool-cases (is_suspicious_drop baseline.binding_count bindings p)) [
          | inl e' ↦ let x : false ≡ true = rw (e, e', judge_counts) at h in cc
          | inr e' ↦ (
            rw (e, e', judge_counts) refl,
            record {
              projects = projects;
              bindings = bindings;
              known_projects = ep;
              known_bindings = eb;
              projects_bounded = drop-IsBounded baseline.project_count projects p e;
              bindings_bounded = drop-IsBounded baseline.binding_count bindings p e';
              same_schema = same;
            },
          )
        ]
      ]

  compare_counts-Passes :
      candidate.schema_id ≡ baseline.schema_id
      → (projects bindings : Option ℕ) → candidate.project_count ≡ projects
      → candidate.binding_count ≡ bindings
      → Passes p baseline candidate (compare_counts candidate baseline p projects bindings)
  compare_counts-Passes same none b ep eb = to_indeterminate-Passes _
  compare_counts-Passes same (some n) none ep eb = to_indeterminate-Passes _
  compare_counts-Passes same (some n) (some m) ep eb = judge_counts-Passes n m same ep eb

  same_id-eq : (a b : Option String) → same_id a b ≡ true → a ≡ b
  same_id-eq none none h = refl
  same_id-eq none (some b) h = cc
  same_id-eq (some a) none h = cc
  same_id-eq (some a) (some b) h = ap some ((==_iff a b).0 h)

  compare_schemas-Passes : Passes p baseline candidate (compare_schemas candidate baseline p)
  unfolding compare_schemas
  compare_schemas-Passes =
      elim (Bool-cases (not (is_named candidate.schema_id) || not (is_named baseline.schema_id))) [
        | inl e ↦ rw (e, compare_schemas) (to_indeterminate-Passes _)
        | inr e ↦ elim (Bool-cases (same_id candidate.schema_id baseline.schema_id)) [
          | inr e' ↦ rw (e, e', compare_schemas) (to_indeterminate-Passes _)
          | inl e' ↦
              rw (e, e', compare_schemas) (compare_counts-Passes (same_id-eq _ _ e') _ _ refl refl)
        ]
      ]

-- A candidate that the assessment against a baseline lets pass is passed on as it is, the baseline was
-- verified, both are of one schema, and neither the number of projects nor that of bindings has
-- fallen beyond the bounds of the policy: none of them is gone, and a fall is by less than the least
-- number or by less than the ratio.
pub assess-bounds :
    (candidate : ValidationReport) (baseline : Baseline) (baseline_verified : Bool) (p : Policy)
    → is_passing (assess_suspicious_shrink candidate (some baseline) baseline_verified p).status
      ≡ true
    → (assess_suspicious_shrink candidate (some baseline) baseline_verified p ≡ candidate)
      × (baseline_verified ≡ true)
      × Held p baseline candidate
unfolding assess_suspicious_shrink
assess-bounds candidate baseline baseline_verified p h = elim (Bool-cases (is_valid_policy p)) [
  | inr e ↦ let x : false ≡ true = rw (e, assess_suspicious_shrink) at h in cc
  | inl e ↦ elim (Bool-cases (is_passing candidate.status)) [
    | inr e' ↦
        let x : is_passing candidate.status ≡ true = rw (e, e', assess_suspicious_shrink) at h in cc
    | inl e' ↦
        elim (Bool-cases (not baseline_verified || not (is_passing baseline.validation_status))) [
          | inl u ↦
              absurd
                (held_back "BASELINE_UNVERIFIED" (rw (e, e', u, assess_suspicious_shrink) at h))
          | inr u ↦
              let (same, held) : _ × Held p baseline candidate =
                compare_schemas-Passes p baseline candidate
                  (rw (e, e', u, assess_suspicious_shrink) at h) in
              (rw (e, e', u, assess_suspicious_shrink) same, ground arith, held)
        ]
  ]
]
  where
    held_back : (code : String) → is_passing (to_indeterminate candidate code).status ≢ true
    held_back code k = let x : false ≡ true = k in cc
