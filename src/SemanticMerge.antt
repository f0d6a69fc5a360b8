-- ===== src/SemanticMerge.antt =====
-- src/codexsync/semantic_merge.py: which of two histories of a session is an ancestor of the other.
pub mod Canonical
pub mod SharedPrefix
pub mod Relations
use codex_sync.Base.{
  ℕ, zero, suc, ◌+◌, String, Bool, true, false, not, ◌&&◌, ◌||◌, Option, none, some, List, [], ◌∷◌,
  ◌++◌, leb, ltb, nat_eq, length, if◌then◌else◌, Result, ok, err, ◌>>=◌,
}
use Canonical.{
  Bytes, bytes_eq, ReadError, jsonl_error, line_too_long, Codec, canonical_digest, rstrip_newlines,
  digests_agree,
}

pub data BranchRelation : Type 0 where
  identical fast_forward_local fast_forward_remote archive_transition : BranchRelation
  diverged diverged_no_common_records invalid missing_base : BranchRelation

pub data BranchState : Type 0 where
  active archived : BranchState

pub data CanonicalStatus : Type 0 where
  exact indeterminate : CanonicalStatus

-- A session file: it cannot be opened or decoded, or it is a sequence of lines.
pub data BranchFile : Type 0 where
  unreadable : BranchFile
  lines : List Bytes → BranchFile

-- The variables of the loop; a digest is the list of what it was updated with.
pub record Reading : Type 0 where
  pub common : ℕ
  pub local_count : ℕ
  pub remote_count : ℕ
  pub local_digest : List Bytes
  pub remote_digest : List Bytes
  pub canonical_only : ℕ
  pub has_diverged : Bool
  pub status : CanonicalStatus

abbrev pub start : Reading
start = record {
  common = 0;
  local_count = 0;
  remote_count = 0;
  local_digest = [];
  remote_digest = [];
  canonical_only = 0;
  has_diverged = false;
  status = exact;
}

-- A line that is not past the limit.
unfoldable pub readline : ℕ → Bytes → Result ReadError Bytes
readline max_line_bytes line =
    if leb (length line) max_line_bytes then ok line else err line_too_long

abbrev pub count_local : Bytes → Reading → Reading
count_local line st = record st {
  local_count = st.local_count + 1;
  local_digest = st.local_digest ++ (line ∷ []);
}

abbrev pub count_remote : Bytes → Reading → Reading
count_remote line st = record st {
  remote_count = st.remote_count + 1;
  remote_digest = st.remote_digest ++ (line ∷ []);
}

-- What two digests say of two records that differ in their bytes.
unfoldable pub judge_digests : Option String → Option String → Reading → Reading
judge_digests none right st = record st { status = indeterminate; has_diverged = true }
judge_digests (some left) none st = record st { status = indeterminate; has_diverged = true }
judge_digests (some left) (some right) st =
    if digests_agree left right
    then record st { common = st.common + 1; canonical_only = st.canonical_only + 1 }
    else record st { has_diverged = true }

module _ (codec : Codec) where
  -- The comparison of two records, `if local_line and remote_line and not diverged`.
  unfoldable pub compare_lines : Bytes → Bytes → Reading → Result ReadError Reading
  unfolding judge_digests
  compare_lines l r st =
      if st.has_diverged
      then ok st
      else if bytes_eq l r
      then ok (record st { common = st.common + 1 })
      else (canonical_digest codec (rstrip_newlines l) >>= λ left.
          canonical_digest codec (rstrip_newlines r) >>= λ right. ok (judge_digests left right st))

  -- The loop of `_read_pair`; once one side has ended the other is drained.
  unfoldable pub read_pair : ℕ → List Bytes → List Bytes → Reading → Result ReadError Reading
  read_pair limit [] [] st = ok st
  read_pair limit [] (r ∷ rs) st = do
    line ← readline limit r
    read_pair limit [] rs (count_remote line st)
  read_pair limit (l ∷ ls) [] st = do
    line ← readline limit l
    read_pair limit ls [] (count_local line st)
  read_pair limit (l ∷ ls) (r ∷ rs) st = do
    local_line ← readline limit l
    remote_line ← readline limit r
    compared ←
        compare_lines local_line remote_line (count_remote remote_line (count_local local_line st))
    read_pair limit ls rs compared

  unfoldable pub read_files : ℕ → BranchFile → BranchFile → Result ReadError Reading
  unfolding read_pair
  read_files limit unreadable remote = err jsonl_error
  read_files limit (lines ls) unreadable = err jsonl_error
  read_files limit (lines ls) (lines rs) = read_pair limit ls rs start

-- Without the version of the canonical form, which is a constant, and the detail for a person.
pub record BranchComparison : Type 0 where
  pub relation : BranchRelation
  pub common_records : ℕ
  pub local_records : ℕ
  pub remote_records : ℕ
  pub local_sha256 : String
  pub remote_sha256 : String
  pub canonical_only_matches : ℕ
  pub canonical_status : CanonicalStatus

unfoldable pub is_conflict : BranchComparison → Bool
is_conflict c = elim c.relation [
  | diverged ↦ true
  | diverged_no_common_records ↦ true
  | invalid ↦ true
  | missing_base ↦ true
  | _ ↦ false
]

abbrev pub same_state : BranchState → BranchState → Bool
same_state active active = true
same_state archived archived = true
same_state _ _ = false

-- The relation that `compare_session_branches` returns for a reading.
unfoldable pub relation_of : BranchState → BranchState → Bool → Reading → BranchRelation
relation_of local_state remote_state has_confirmed_base st =
    let prefix_local = ltb st.local_count st.remote_count && nat_eq st.common st.local_count in
    let prefix_remote = ltb st.remote_count st.local_count && nat_eq st.common st.remote_count in
    let same_content = nat_eq st.local_count st.remote_count && nat_eq st.common st.local_count in
    let states_differ = not (same_state local_state remote_state) in
    let ancestry_proven = same_content || prefix_local || prefix_remote in
    if states_differ && ancestry_proven
    then (if not has_confirmed_base then missing_base else archive_transition)
    else if states_differ
    then (if nat_eq st.common 0 then diverged_no_common_records else diverged)
    else if same_content
    then identical
    else if prefix_local
    then fast_forward_local
    else if prefix_remote
    then fast_forward_remote
    else if nat_eq st.common 0
    then diverged_no_common_records
    else diverged

module _ (codec : Codec) (sha256 : List Bytes → String) where
  unfoldable pub compare_session_branches :
      BranchFile → BranchFile → BranchState → BranchState → Bool → ℕ → BranchComparison
  unfolding read_files relation_of
  compare_session_branches local remote local_state remote_state has_confirmed_base max_line_bytes =
      elim (read_files codec max_line_bytes local remote) [
        | err _ ↦ record {
          relation = invalid;
          common_records = 0;
          local_records = 0;
          remote_records = 0;
          local_sha256 = "";
          remote_sha256 = "";
          canonical_only_matches = 0;
          canonical_status = exact;
        }
        | ok st ↦ record {
          relation = relation_of local_state remote_state has_confirmed_base st;
          common_records = st.common;
          local_records = st.local_count;
          remote_records = st.remote_count;
          local_sha256 = sha256 st.local_digest;
          remote_sha256 = sha256 st.remote_digest;
          canonical_only_matches = st.canonical_only;
          canonical_status = st.status;
        }
      ]
