-- ===== src/SemanticMerge/Relations.antt =====
-- What `compare_session_branches` says of two histories.
use codex_sync.Base.{
  ℕ, ◌≤◌, ◌≡◌, refl, String, ==_comm, Option, none, some, Bool, true, false, not, ◌&&◌, List, [],
  ◌∷◌, leb, nat_eq, length, if◌then◌else◌, arith, Bool-cases, inl, inr,
}
use codex_sync.SemanticMerge.Canonical.{Bytes, bytes_eq, Codec, canonical_digest, rstrip_newlines}
use codex_sync.SemanticMerge.{
  BranchRelation, identical, fast_forward_local, fast_forward_remote, archive_transition, diverged,
  diverged_no_common_records, invalid, missing_base, BranchState, lines, Reading, start, same_state,
  relation_of, read_files, compare_session_branches,
}
use codex_sync.SemanticMerge.SharedPrefix.{
  same_record, same_digest, digest_of, shared, fits, blocked, legible, read_pair_lem,
  read_pair_total, read_pair_raises,
}

module _ (codec : Codec) where
  -- The first history is a prefix of the second, record by record.
  unfoldable pub is_prefix : List Bytes → List Bytes → Bool
  is_prefix [] rs = true
  is_prefix (l ∷ ls) [] = false
  is_prefix (l ∷ ls) (r ∷ rs) = same_record codec l r && is_prefix ls rs

  -- The first records are the same.
  unfoldable pub heads_agree : List Bytes → List Bytes → Bool
  heads_agree [] rs = false
  heads_agree (l ∷ ls) [] = false
  heads_agree (l ∷ ls) (r ∷ rs) = same_record codec l r

  -- The relation of two histories, by prefixes alone.
  abbrev pub by_content : List Bytes → List Bytes → BranchRelation
  by_content ls rs =
      if is_prefix ls rs
      then (if leb (length rs) (length ls) then identical else fast_forward_local)
      else if is_prefix rs ls
      then fast_forward_remote
      else if heads_agree ls rs
      then diverged
      else diverged_no_common_records

  abbrev is_related : BranchRelation → Bool
  is_related identical = true
  is_related fast_forward_local = true
  is_related fast_forward_remote = true
  is_related _ = false

  -- The relation of two branches: with equal states that of their histories; otherwise an archive
  -- transition for related histories, if a common base is confirmed.
  abbrev pub expected : BranchState → BranchState → Bool → List Bytes → List Bytes → BranchRelation
  expected local_state remote_state has_confirmed_base ls rs =
      if same_state local_state remote_state
      then by_content ls rs
      else if is_related (by_content ls rs)
      then (if has_confirmed_base then archive_transition else missing_base)
      else by_content ls rs

  bytes_eq_comm : (a b : Bytes) → bytes_eq a b ≡ bytes_eq b a
  unfolding bytes_eq
  bytes_eq_comm [] [] = refl
  bytes_eq_comm [] (y ∷ b) = refl
  bytes_eq_comm (x ∷ a) [] = refl
  bytes_eq_comm (x ∷ a) (y ∷ b) = ground (arith, bytes_eq_comm a b)

  same_digest_comm : (a b : Option String) → same_digest codec a b ≡ same_digest codec b a
  same_digest_comm none none = refl
  same_digest_comm none (some b) = refl
  same_digest_comm (some a) none = refl
  same_digest_comm (some a) (some b) = ==_comm a b

  same_record_comm : (l r : Bytes) → same_record codec l r ≡ same_record codec r l
  unfolding same_record
  same_record_comm l r = ground (
    arith,
    bytes_eq_comm l r,
    same_digest_comm (digest_of codec (canonical_digest codec (rstrip_newlines l)))
        (digest_of codec (canonical_digest codec (rstrip_newlines r))),
  )

  shared_comm : (ls rs : List Bytes) → shared codec ls rs ≡ shared codec rs ls
  unfolding shared
  shared_comm [] [] = refl
  shared_comm [] (r ∷ rs) = refl
  shared_comm (l ∷ ls) [] = refl
  shared_comm (l ∷ ls) (r ∷ rs) = ground (arith, same_record_comm l r, shared_comm ls rs)

  shared_le :
      (ls rs : List Bytes) → (shared codec ls rs ≤ length ls) × (shared codec ls rs ≤ length rs)
  unfolding shared
  shared_le [] rs = omega arith
  shared_le (l ∷ ls) [] = omega arith
  shared_le (l ∷ ls) (r ∷ rs) = ground (arith, shared_le ls rs)

  is_prefix-shared :
      (ls rs : List Bytes) → is_prefix ls rs ≡ nat_eq (shared codec ls rs) (length ls)
  unfolding shared is_prefix
  is_prefix-shared [] rs = refl
  is_prefix-shared (l ∷ ls) [] = ground arith
  is_prefix-shared (l ∷ ls) (r ∷ rs) = ground (arith, is_prefix-shared ls rs)

  heads_agree-shared :
      (ls rs : List Bytes) → heads_agree ls rs ≡ not (nat_eq (shared codec ls rs) 0)
  unfolding shared heads_agree
  heads_agree-shared [] rs = refl
  heads_agree-shared (l ∷ ls) [] = refl
  heads_agree-shared (l ∷ ls) (r ∷ rs) = ground arith

  relation_of_counts :
      (local_state remote_state : BranchState) (base : Bool) (st : Reading) (ls rs : List Bytes)
      → st.local_count ≡ length ls
      → st.remote_count ≡ length rs
      → st.common ≡ shared codec ls rs
      → relation_of local_state remote_state base st ≡ expected local_state remote_state base ls rs
  unfolding relation_of
  relation_of_counts local_state remote_state base st ls rs hl hr hc = ground (
    arith,
    shared_le ls rs,
    shared_comm ls rs,
    is_prefix-shared ls rs,
    is_prefix-shared rs ls,
    heads_agree-shared ls rs,
  )

module _ (codec : Codec) (sha256 : List Bytes → String) where
  -- Two readable files compare as their histories do, by prefixes of records that are the same in
  -- bytes or in canonical form. A line past the limit, or a record up to the first difference whose
  -- canonical form has to be asked for and cannot be computed, makes the comparison invalid.
  pub compare-relation :
      (ls rs : List Bytes) (local_state remote_state : BranchState) (base : Bool) (limit : ℕ)
      → (compare_session_branches codec sha256
          (lines ls)
          (lines rs)
          local_state
          remote_state
          base
          limit).relation
        ≡ (if fits codec limit ls && (fits codec limit rs && not (blocked codec ls rs))
            then expected codec local_state remote_state base ls rs
            else invalid)
  unfolding compare_session_branches read_files
  compare-relation ls rs local_state remote_state base limit =
      elim (Bool-cases (legible codec limit ls rs false)) [
        | inl clear ↦
            let (st, e) = read_pair_total codec limit ls rs start clear in
            let counts = read_pair_lem codec limit ls rs start e in
            rw (clear, e, compare_session_branches)
              (relation_of_counts codec local_state remote_state base st ls rs
                (ground (arith, counts)) (ground (arith, counts)) (ground (arith, counts)))
        | inr unclear ↦
            let (x, e) = read_pair_raises codec limit ls rs start unclear in
            rw (unclear, e, compare_session_branches) refl
      ]
