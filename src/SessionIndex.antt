-- ===== src/SessionIndex.antt =====
-- src/codexsync/session_index.py: the records of an index, their reductions and the three-way merge.
-- Reading the lines of a file is not modelled; SHA-256 is the parameter `sha256`.
pub mod Turns
pub mod Merge
use codex_sync.Base.{
  ℕ, String, ◌==◌, Bool, true, false, not, ◌&&◌, ◌||◌, Option, none, some, List, [], ◌∷◌, ◌++◌, map,
  if◌then◌else◌, contains, dedupe, sorted, any, str_leb, Dict, lookup, insert, keys, Result, ok,
  err,
}

pub data IndexContract : Type 0 where
  v1 unknown : IndexContract

pub data Reduction : Type 0 where
  last_line_wins max_updated_at : Reduction

pub record IndexRecord : Type 0 where
  pub session_id : String
  pub thread_name : String
  pub updated_at : String
  pub digest : String
  pub raw : String
  pub line_number : ℕ

pub record IndexParseResult : Type 0 where
  pub records : List IndexRecord
  pub reduced : Dict IndexRecord
  pub reduced_by_updated_at : Dict IndexRecord
  pub contract : IndexContract
  pub codes : List String

pub record IndexMergeResult : Type 0 where
  pub merged : Dict IndexRecord
  pub conflicts : List String
  pub codes : List String
  pub contract : IndexContract

-- Whether a further record of an id takes the place of the one so far.
unfoldable pub takes_over : Reduction → Option IndexRecord → IndexRecord → Bool
takes_over last_line_wins current record' = true
takes_over max_updated_at none record' = true
takes_over max_updated_at (some current) record' =
    not (str_leb record'.updated_at current.updated_at)

-- The loop of `_reduce`.
unfoldable pub reduce_from : Reduction → List IndexRecord → Dict IndexRecord → Dict IndexRecord
unfolding takes_over
reduce_from reduction [] out = out
reduce_from reduction (r ∷ rest) out =
    reduce_from reduction rest
      (if takes_over reduction (lookup r.session_id out) r then insert r.session_id r out else out)

unfoldable pub reduce : List IndexRecord → Reduction → Dict IndexRecord
unfolding reduce_from
reduce records reduction = reduce_from reduction records []

-- `_same`
unfoldable pub same : Option IndexRecord → Option IndexRecord → Bool
same none none = true
same none (some right) = false
same (some left) none = false
same (some left) (some right) = left.digest == right.digest

abbrev pub keep : String → Option IndexRecord → Dict IndexRecord → Dict IndexRecord
keep session_id none merged = merged
keep session_id (some r) merged = insert session_id r merged

module _ (sha256 : String → String) where
  -- One turn of the loop of the merge.
  unfoldable pub merge_one :
      Option IndexRecord
      → Option IndexRecord
      → Option IndexRecord
      → String
      → Dict IndexRecord × List String
      → Dict IndexRecord × List String
  merge_one old left right session_id (merged, conflicts) =
      if same left right
      then (keep session_id left merged, conflicts)
      else if same left old
      then (keep session_id right merged, conflicts)
      else if same right old
      then (keep session_id left merged, conflicts)
      else (merged, conflicts ++ (sha256 session_id ∷ []))

  unfoldable pub merge_ids :
      Dict IndexRecord
      → Dict IndexRecord
      → Dict IndexRecord
      → List String
      → Dict IndexRecord × List String
      → Dict IndexRecord × List String
  unfolding merge_one
  merge_ids base local remote [] out = out
  merge_ids base local remote (k ∷ ks) out =
      merge_ids base local remote ks
        (merge_one (lookup k base) (lookup k local) (lookup k remote) k out)

  -- `sorted(set(base) | set(local) | set(remote))`
  unfoldable pub session_ids : Dict IndexRecord → Dict IndexRecord → Dict IndexRecord → List String
  session_ids base local remote = sorted (dedupe (keys base ++ (keys local ++ keys remote)))

  abbrev pub is_v1 : IndexContract → Bool
  is_v1 v1 = true
  is_v1 unknown = false

  abbrev pub refusal : String → IndexMergeResult
  refusal code = record { merged = []; conflicts = []; codes = code ∷ []; contract = unknown }

  -- The codes of an input; an absent index is no finding.
  unfoldable pub told_codes : List String → List String
  told_codes [] = []
  told_codes (code ∷ codes) =
      if code == "MISSING_INDEX" then told_codes codes else code ∷ told_codes codes

  -- `tuple(dict.fromkeys(codes))`
  unfoldable pub unique_codes : List String → List String → List String
  unique_codes seen [] = []
  unique_codes seen (code ∷ codes) =
      let rest = unique_codes (code ∷ seen) codes in
      if contains seen code then rest else code ∷ rest

  abbrev pub conflict_code : List String → List String
  conflict_code [] = []
  conflict_code (_ ∷ _) = "INDEX_CONFLICT" ∷ []

  unfoldable pub merge_known :
      IndexParseResult → IndexParseResult → IndexParseResult → IndexMergeResult
  unfolding merge_ids session_ids
  merge_known base local remote =
      let out =
        merge_ids base.reduced local.reduced remote.reduced
          (session_ids base.reduced local.reduced remote.reduced) ([], []) in
      record {
        merged = out.0;
        conflicts = out.1;
        codes = unique_codes [] (
            told_codes base.codes
            ++ (told_codes local.codes ++ (told_codes remote.codes ++ conflict_code out.1)));
        contract = v1;
      }

  unfoldable pub merge_session_indexes :
      Option IndexParseResult → IndexParseResult → IndexParseResult → IndexMergeResult
  unfolding merge_known
  merge_session_indexes none local remote = refusal "MISSING_BASE"
  merge_session_indexes (some base) local remote =
      if is_v1 base.contract && (is_v1 local.contract && is_v1 remote.contract)
      then merge_known base local remote
      else refusal "UNRECOGNISED_CONSUMER_CONTRACT"
