-- ===== src/Tests/Guards.antt =====
-- A Guardian store with three snapshots, of which the oldest was accepted over a shrink.
use codex_sync.Base.{
  ℕ, ◌<◌, ◌≤◌, String, ◌==◌, Bool, true, false, Option, none, some, List, [], ◌∷◌, ◌≡◌, ◌⊎◌, refl,
  ok, lookup, any, contains, arith, keep_if, erase,
}
use mathlib.Core.List.{Memᴰ}
use codex_sync.Base.Int.{pos}
use codex_sync.Guardian.{
  GuardianManifest, GuardianSnapshot, SnapshotDirectory, LatestGoodPointer, Store, snapshot_of,
  verify_guardian_snapshot, verify_candidate, candidate_found, snapshot_from_pointer,
  listed_manifest, collect, keep_verified, pointed, resolve_or_restore_latest_good,
  publish_latest_good,
}
use codex_sync.Guardian.Retention.{
  is_decision, prune_snapshots, protected_ids, is_prunable, prune_list,
}
use codex_sync.Guardian.Pointer.{IsInside}
use codex_sync.Guardian.Publication.{publish-pointed, publish-advances}
use codex_sync.Guardian.Predecessor.{prune-keeps_predecessor}
use codex_sync.Guardian.Pruning.{prune-keeps_latest, prune-keeps_decisions}

abbrev manifest : String → ℕ → List String → Option String → GuardianManifest
manifest id generation codes previous = record {
  snapshot_id = id;
  generation = generation;
  created_at = generation;
  machine_id = "desk";
  source_size = 10;
  sha256 = id;
  validation_codes = codes;
  previous_good_snapshot_id = previous;
}

abbrev directory : GuardianManifest → SnapshotDirectory
directory m = record {
  is_symlink = false;
  is_dir = true;
  is_inside = true;
  manifest = some m;
  payload = some (10, m.sha256);
  marker =
      some (
        some
          (record { snapshot_id = m.snapshot_id; generation = m.generation; sha256 = m.sha256 }));
}

abbrev accepted : GuardianManifest
accepted = manifest "b" 2 ("SHRINK_ACCEPTED" ∷ []) (some "a")

abbrev store : Option LatestGoodPointer → Store
store pointer = record {
  machine = "desk";
  snapshots =
      ("a", directory (manifest "a" 1 [] none))
      ∷ ("b", directory accepted)
      ∷ ("c", directory (manifest "c" 3 [] (some "b")))
      ∷ ("d", directory (manifest "d" 4 [] (some "c")))
      ∷ ("e", directory (manifest "e" 5 [] (some "d")))
      ∷ [];
  pointer = pointer;
}

abbrev pointer : String → ℕ → LatestGoodPointer
pointer id generation = record {
  machine_id = "desk";
  snapshot_id = id;
  generation = generation;
  sha256 = id;
}

within : (p : Option LatestGoodPointer) → IsInside (store p)
unfolding lookup
within p k = ground arith

abbrev snapshot : String → ℕ → GuardianSnapshot
snapshot id generation = record { snapshot_id = id; generation = generation }

-- The pointer is on generation 3; 5 is published.
published :
    publish_latest_good (store (some (pointer "c" 3))) (snapshot "e" 5)
    ≡ some (store (some (pointer "e" 5)), snapshot "e" 5)
unfolding publish_latest_good verify_candidate candidate_found snapshot_from_pointer ◌==◌ lookup
published = refl

at_c : pointed (store (some (pointer "c" 3))) ≡ some (snapshot "c" 3)
unfolding pointed verify_candidate candidate_found snapshot_from_pointer ◌==◌ lookup
at_c = refl

publish-pointed_example :
    (pointed (store (some (pointer "e" 5))) ≡ some (snapshot "e" 5))
    × ((store (some (pointer "e" 5))).snapshots ≡ (store (some (pointer "c" 3))).snapshots)
publish-pointed_example =
    publish-pointed (store (some (pointer "c" 3))) (snapshot "e" 5) (within (some (pointer "c" 3)))
      published

publish-advances_example :
    (latest : GuardianSnapshot) × (pointed (store (some (pointer "e" 5))) ≡ some latest)
    × (snapshot "e" 5 ≡ latest)
    × ((latest ≡ snapshot "c" 3) ⊎ ((latest ≡ snapshot "e" 5) × (3 < 5)))
publish-advances_example =
    publish-advances (store (some (pointer "c" 3))) (snapshot "e" 5) (within (some (pointer "c" 3)))
      at_c published

-- No pointer: it is rebuilt. The day's snapshots have all expired; `c` goes, `d` is the predecessor.
abbrev pruned : Store
pruned = record {
  machine = "desk";
  snapshots =
      ("a", directory (manifest "a" 1 [] none))
      ∷ ("b", directory accepted)
      ∷ ("d", directory (manifest "d" 4 [] (some "c")))
      ∷ ("e", directory (manifest "e" 5 [] (some "d")))
      ∷ [];
  pointer = some (pointer "e" 5);
}

abbrev always : String → Bool
always _ = true

prunes : prune_snapshots (store none) (pos 1) (pos 2) 99999999999 always ≡ ok (pruned, "c" ∷ [])
unfolding prune_snapshots verify_candidate candidate_found collect listed_manifest is_decision any
    contains protected_ids keep_if erase ◌==◌ lookup keep_verified verify_guardian_snapshot
    is_prunable
prunes = refl

rebuilt :
    resolve_or_restore_latest_good (store none)
    ≡ some (store (some (pointer "e" 5)), some (snapshot "e" 5))
unfolding resolve_or_restore_latest_good verify_candidate candidate_found collect listed_manifest
    ◌==◌ lookup keep_verified
rebuilt = refl

prune-keeps_latest_example : pointed pruned ≡ some (snapshot "e" 5)
prune-keeps_latest_example =
    prune-keeps_latest (store none) (pos 1) (pos 2) 99999999999 always (within none) rebuilt prunes

accepted_listed : listed_manifest "b" (directory accepted) ≡ some accepted
unfolding listed_manifest ◌==◌
accepted_listed = refl

accepted_verified : verify_guardian_snapshot (store none) (snapshot_of accepted) ≡ some accepted
unfolding verify_guardian_snapshot ◌==◌ lookup
accepted_verified = refl

accepted_decision : is_decision accepted ≡ true
unfolding is_decision any contains ◌==◌
accepted_decision = refl

found_b : lookup "b" (store none).snapshots ≡ some (directory accepted)
unfolding lookup ◌==◌
found_b = refl

prune-keeps_decisions_example :
    (lookup "b" pruned.snapshots ≡ lookup "b" (store none).snapshots)
    × (lookup "a" pruned.snapshots ≡ lookup "a" (store none).snapshots)
prune-keeps_decisions_example =
    prune-keeps_decisions (store none) (pos 1) (pos 2) 99999999999 always "b" "a" found_b
      accepted_listed accepted_verified accepted_decision refl prunes

c_listed :
    listed_manifest "c" (directory (manifest "c" 3 [] (some "b")))
    ≡ some (manifest "c" 3 [] (some "b"))
unfolding listed_manifest ◌==◌
c_listed = refl

c_verified :
    verify_guardian_snapshot (store none) (snapshot "c" 3) ≡ some (manifest "c" 3 [] (some "b"))
unfolding verify_guardian_snapshot ◌==◌ lookup
c_verified = refl

found_c : lookup "c" (store none).snapshots ≡ some (directory (manifest "c" 3 [] (some "b")))
unfolding lookup ◌==◌
found_c = refl

prune-keeps_predecessor_example :
    (n : GuardianManifest) × Memᴰ n (prune_list (store none))
    × (n.generation < 5)
    × (3 ≤ n.generation)
    × (lookup n.snapshot_id pruned.snapshots ≡ lookup n.snapshot_id (store none).snapshots)
prune-keeps_predecessor_example =
    prune-keeps_predecessor (store none) (pos 1) (pos 2) 99999999999 always "c" found_c c_listed
      c_verified rebuilt (omega arith) prunes
