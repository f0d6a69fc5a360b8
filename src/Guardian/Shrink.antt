-- ===== src/Guardian/Shrink.antt =====
-- src/codexsync/guardian_shrink.py: a candidate state against the latest-good one, by counts. The ratio
-- is a fraction, which the source has as a float.
use codex_sync.Base.{
  ℕ, ◌-◌, ◌*◌, String, ◌==◌, Bool, true, false, not, ◌&&◌, ◌||◌, Option, none, some, List, [], ◌∷◌,
  ◌++◌, if◌then◌else◌, leb, nat_eq,
}

pub data ValidationStatus : Type 0 where
  pass pass_with_warning unchanged invalid indeterminate suspicious : ValidationStatus

pub record ValidationReport : Type 0 where
  pub status : ValidationStatus
  pub codes : List String
  pub project_count : Option ℕ
  pub binding_count : Option ℕ
  pub schema_id : Option String

-- The fields of a GuardianManifest that the comparison reads.
pub record Baseline : Type 0 where
  pub validation_status : ValidationStatus
  pub project_count : ℕ
  pub binding_count : ℕ
  pub schema_id : Option String

-- `shrink_min_count`, and `shrink_ratio` as a fraction with a positive denominator.
pub record Policy : Type 0 where
  pub min_count : ℕ
  pub ratio_num : ℕ
  pub ratio_den : ℕ

-- `status in {PASS, PASS_WITH_WARNING}`
abbrev pub is_passing : ValidationStatus → Bool
is_passing pass = true
is_passing pass_with_warning = true
is_passing _ = false

unfoldable pub is_valid_policy : Policy → Bool
is_valid_policy p = leb 1 p.min_count && leb p.ratio_num p.ratio_den

unfoldable pub is_suspicious_drop : ℕ → ℕ → Policy → Bool
is_suspicious_drop baseline candidate p =
    if leb baseline 0 || leb baseline candidate
    then false
    else if nat_eq candidate 0
    then true
    else leb p.min_count (baseline - candidate)
      && leb (p.ratio_num * baseline) ((baseline - candidate) * p.ratio_den)

-- `_indeterminate`
unfoldable pub to_indeterminate : ValidationReport → String → ValidationReport
to_indeterminate candidate code = record candidate {
  status = indeterminate;
  codes = candidate.codes ++ (code ∷ []);
}

-- The truth value of a schema id.
abbrev pub is_named : Option String → Bool
is_named none = false
is_named (some id) = not (id == "")

abbrev pub same_id : Option String → Option String → Bool
same_id (some a) (some b) = a == b
same_id none none = true
same_id _ _ = false

abbrev pub drop_codes : Bool → Bool → List String
drop_codes projects bindings =
    (if projects then "PROJECT_COUNT_DROP" ∷ [] else [])
    ++ (if bindings then "BINDING_COUNT_DROP" ∷ [] else [])

-- The last lines of the assessment, for counts that are known.
unfoldable pub judge_counts : ValidationReport → Baseline → Policy → ℕ → ℕ → ValidationReport
unfolding is_suspicious_drop
judge_counts candidate baseline p projects bindings =
    let fewer_projects = is_suspicious_drop baseline.project_count projects p in
    let fewer_bindings = is_suspicious_drop baseline.binding_count bindings p in
    if fewer_projects || fewer_bindings
    then record candidate {
      status = suspicious;
      codes = candidate.codes ++ drop_codes fewer_projects fewer_bindings;
    }
    else candidate

abbrev pub compare_counts :
    ValidationReport → Baseline → Policy → Option ℕ → Option ℕ → ValidationReport
compare_counts candidate baseline p (some projects) (some bindings) =
    judge_counts candidate baseline p projects bindings
compare_counts candidate baseline p none _ = to_indeterminate candidate "UNKNOWN_SCHEMA"
compare_counts candidate baseline p (some _) none = to_indeterminate candidate "UNKNOWN_SCHEMA"

unfoldable pub compare_schemas : ValidationReport → Baseline → Policy → ValidationReport
unfolding judge_counts to_indeterminate
compare_schemas candidate baseline p =
    if not (is_named candidate.schema_id) || not (is_named baseline.schema_id)
    then to_indeterminate candidate "UNKNOWN_SCHEMA"
    else if not (same_id candidate.schema_id baseline.schema_id)
    then to_indeterminate candidate "BASELINE_SCHEMA_MISMATCH"
    else compare_counts candidate baseline p candidate.project_count candidate.binding_count

unfoldable pub assess_suspicious_shrink :
    ValidationReport → Option Baseline → Bool → Policy → ValidationReport
unfolding compare_schemas is_valid_policy to_indeterminate
assess_suspicious_shrink candidate baseline baseline_verified p =
    if not (is_valid_policy p)
    then record {
      status = indeterminate;
      codes = "BASELINE_UNVERIFIED" ∷ [];
      project_count = none;
      binding_count = none;
      schema_id = none;
    }
    else if not (is_passing candidate.status)
    then candidate
    else elim baseline [
      | none ↦ candidate
      | some good ↦
          if not baseline_verified || not (is_passing good.validation_status)
          then to_indeterminate candidate "BASELINE_UNVERIFIED"
          else compare_schemas candidate good p
    ]
