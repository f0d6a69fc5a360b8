-- ===== src/Tests/Branches.antt =====
-- Two branches of one session.
use codex_sync.Base.{
  ℕ, String, Bool, true, false, ◌&&◌, Option, none, some, List, [], ◌∷◌, if◌then◌else◌, ◌≡◌, refl,
  not, nat_eq, ok, err,
}
use codex_sync.Base.Json.{integer, object, end, field}
use codex_sync.SemanticMerge
use codex_sync.SemanticMerge.Canonical.{
  Bytes, bytes_eq, malformed, value_error, Codec, canonical_digest, repeats_key, canonicalisable,
  rstrip_newlines, digests_agree,
}
use codex_sync.SemanticMerge.{
  BranchRelation, fast_forward_local, invalid, diverged, active, archived, BranchFile, unreadable,
  lines, is_conflict, compare_session_branches,
}
use codex_sync.SemanticMerge.SharedPrefix.{fits, blocked}
use codex_sync.SemanticMerge.Relations.{expected, compare-relation}
use codex_sync.Base.{◌==◌}

-- Records of one byte; 1 and 2 are one object whose keys stand in another order.
abbrev codec : Codec
codec = record {
  loads = λ raw.
      if bytes_eq raw (3 ∷ [])
      then err malformed
      else if bytes_eq raw (5 ∷ [])
      then err value_error
      else ok (object (field "k" (integer (codex_sync.Base.Int.pos 1)) end));
  is_nfc = λ s. true;
  dump_digest = λ value. some "d";
}

abbrev digest : List Bytes → String
digest chunks = "sha"

-- The second record differs in its bytes alone; the third is new on the other machine.
follows :
    (compare_session_branches codec digest
      (lines ((7 ∷ []) ∷ (1 ∷ 10 ∷ []) ∷ []))
      (lines ((7 ∷ []) ∷ (2 ∷ 10 ∷ []) ∷ (4 ∷ []) ∷ []))
      active
      active
      true
      8).relation
    ≡ fast_forward_local
unfolding compare_session_branches SemanticMerge.read_pair SemanticMerge.readline
    SemanticMerge.compare_lines SemanticMerge.judge_digests canonical_digest repeats_key
    canonicalisable rstrip_newlines digests_agree bytes_eq ◌==◌
follows = refl

-- A record that cannot be canonicalised differs by its bytes.
differs :
    (compare_session_branches codec digest
      (lines ((7 ∷ []) ∷ (3 ∷ []) ∷ []))
      (lines ((7 ∷ []) ∷ (2 ∷ []) ∷ []))
      active
      active
      true
      8).relation
    ≡ diverged
unfolding compare_session_branches SemanticMerge.read_pair SemanticMerge.readline
    SemanticMerge.compare_lines SemanticMerge.judge_digests canonical_digest repeats_key
    canonicalisable rstrip_newlines digests_agree bytes_eq ◌==◌
differs = refl

compare-relation_example :
    (compare_session_branches codec digest
      (lines ((1 ∷ []) ∷ []))
      (lines ((2 ∷ []) ∷ (4 ∷ []) ∷ []))
      active
      archived
      true
      8).relation
    ≡ (if fits codec 8 ((1 ∷ []) ∷ [])
          && (fits codec 8 ((2 ∷ []) ∷ (4 ∷ []) ∷ [])
              && not (blocked codec ((1 ∷ []) ∷ []) ((2 ∷ []) ∷ (4 ∷ []) ∷ [])))
        then expected codec active archived true ((1 ∷ []) ∷ []) ((2 ∷ []) ∷ (4 ∷ []) ∷ [])
        else invalid)
compare-relation_example =
    compare-relation codec digest ((1 ∷ []) ∷ []) ((2 ∷ []) ∷ (4 ∷ []) ∷ []) active archived true 8

-- A record whose canonical form cannot be computed makes the comparison invalid.
unencodable :
    (compare_session_branches codec digest
      (lines ((5 ∷ []) ∷ []))
      (lines ((2 ∷ []) ∷ []))
      active
      active
      true
      8).relation
    ≡ invalid
unfolding compare_session_branches SemanticMerge.read_pair SemanticMerge.readline
    SemanticMerge.compare_lines SemanticMerge.judge_digests canonical_digest repeats_key
    canonicalisable rstrip_newlines digests_agree bytes_eq ◌==◌
unencodable = refl
