-- ===== src/Tests/Shrinks.antt =====
-- A state that has lost one of four projects, and one that has lost them all.
use codex_sync.Base.{ℕ, ◌==◌, true, some, [], ◌≡◌, refl}
use codex_sync.Guardian.Shrink.{
  ValidationReport, pass, suspicious, Baseline, Policy, is_valid_policy, is_suspicious_drop,
  judge_counts, compare_schemas, assess_suspicious_shrink,
}
use codex_sync.Guardian.Drops.{Held, assess-bounds}

abbrev report : ℕ → ValidationReport
report projects = record {
  status = pass;
  codes = [];
  project_count = some projects;
  binding_count = some 9;
  schema_id = some "v1";
}

abbrev good : Baseline
good = record {
  validation_status = pass;
  project_count = 4;
  binding_count = 9;
  schema_id = some "v1";
}

abbrev quarter : Policy
quarter = record { min_count = 2; ratio_num = 1; ratio_den = 4 }

lost_all : (assess_suspicious_shrink (report 0) (some good) true quarter).status ≡ suspicious
unfolding assess_suspicious_shrink compare_schemas judge_counts is_suspicious_drop is_valid_policy
    ◌==◌
lost_all = refl

lost_two : (assess_suspicious_shrink (report 2) (some good) true quarter).status ≡ suspicious
unfolding assess_suspicious_shrink compare_schemas judge_counts is_suspicious_drop is_valid_policy
    ◌==◌
lost_two = refl

lost_one : (assess_suspicious_shrink (report 3) (some good) true quarter).status ≡ pass
unfolding assess_suspicious_shrink compare_schemas judge_counts is_suspicious_drop is_valid_policy
    ◌==◌
lost_one = refl

assess-bounds_example :
    (assess_suspicious_shrink (report 3) (some good) true quarter ≡ report 3)
    × (true ≡ true)
    × Held quarter good (report 3)
assess-bounds_example = assess-bounds (report 3) good true quarter (rw lost_one refl)
