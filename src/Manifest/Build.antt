-- ===== src/Manifest/Build.antt =====
-- What `build_manifest` records, and how the next plan reads it.
use codex_sync.Base.{
  ℕ, String, ==_iff, ◌==◌, Bool, not, ◌&&◌, leb, ◌≡◌, refl, false, ◌||◌, Option, none, some, List,
  [], ◌∷◌, if◌then◌else◌, contains, contains-append, contains-dedupe, contains-sorted,
  contains-keys, is_some, Dict, lookup, arith,
}
use codex_sync.Base.Int.{ℤ, int_eq, dist}
use codex_sync.Models.{FileMeta, ManifestEntry, SyncManifest, local, cloud}
use codex_sync.Manifest.{fingerprint_from_meta, build_files, build_manifest, previous_files_of}
use codex_sync.Planner.{has_side_changed, deletion_is_proven}

module _ (local_index cloud_index : Dict FileMeta) (previous_files : Dict ManifestEntry)
    (skipped : List String) where
  -- The entry that a path should get.
  abbrev pub recorded_entry : String → Option ManifestEntry
  recorded_entry rel =
      if contains skipped rel
      then lookup rel previous_files
      else some (record {
        local = fingerprint_from_meta (lookup rel local_index);
        cloud = fingerprint_from_meta (lookup rel cloud_index);
      })

  lookup-build_files :
      (rel : String) (paths : List String)
      → lookup rel (build_files local_index cloud_index previous_files skipped paths)
        ≡ (if contains paths rel then recorded_entry rel else none)
  unfolding build_files lookup contains
  lookup-build_files rel [] = refl
  lookup-build_files rel (p ∷ rest) = ground (arith, ==_iff rel p, lookup-build_files rel rest)

lookup-build_manifest :
    (local_index cloud_index : Dict FileMeta) (data_version : ℤ) (previous : Option SyncManifest)
    (skipped : List String) (machine_id : Option String) (rel : String)
    → lookup rel
        (build_manifest local_index cloud_index data_version previous skipped machine_id).files
      ≡ (if is_some (lookup rel local_index) || is_some (lookup rel cloud_index)
          then recorded_entry local_index cloud_index (previous_files_of previous) skipped rel
          else none)
unfolding build_manifest
lookup-build_manifest local_index cloud_index data_version previous skipped machine_id rel =
    rw
      (
        lookup-build_files, contains-sorted, contains-dedupe, contains-append, contains-keys,
        contains-keys,
      )
      refl

-- The manifest holds an entry exactly for a path that exists on a side now: a skipped path keeps
-- what the previous manifest held, if anything, and any other path gets both sides' present state.
-- The other machines' parts are the previous ones, none if there was no manifest.
pub build_manifest-lookup :
    (local_index cloud_index : Dict FileMeta) (data_version : ℤ) (previous : Option SyncManifest)
    (skipped : List String) (machine_id : Option String) (rel : String)
    → (lookup rel
          (build_manifest local_index cloud_index data_version previous skipped machine_id).files
        ≡ (if is_some (lookup rel local_index) || is_some (lookup rel cloud_index)
            then recorded_entry local_index cloud_index (previous_files_of previous) skipped rel
            else none))
      × ((build_manifest local_index cloud_index data_version previous skipped machine_id).others
          ≡ elim previous [ none ↦ [] | some before ↦ before.others ])
unfolding build_manifest
build_manifest-lookup local_index cloud_index data_version none skipped machine_id rel =
    (lookup-build_manifest local_index cloud_index data_version none skipped machine_id rel, refl)
build_manifest-lookup local_index cloud_index data_version (some before) skipped machine_id rel = (
  lookup-build_manifest local_index cloud_index data_version (some before) skipped machine_id rel,
  refl,
)

-- A file is as it was: of the same size, and with a time of change within the tolerance.
abbrev pub is_as_before : FileMeta → FileMeta → ℕ → Bool
is_as_before later meta tolerance_ns =
    int_eq later.size meta.size && leb (dist later.mtime_ns meta.mtime_ns) tolerance_ns

changed_since_recorded :
    (later meta : FileMeta) (tolerance_ns : ℕ)
    → not (has_side_changed later (fingerprint_from_meta (some meta)) tolerance_ns)
      ≡ is_as_before later meta tolerance_ns
unfolding has_side_changed fingerprint_from_meta
changed_since_recorded later meta tolerance_ns = ground arith

-- A file that both sides held when the manifest was built, at a path that was not skipped, and that one
-- side has lost since: its deletion is proven just when the policy is `propagate` and the surviving file
-- is as it was on its own side when the manifest was built.
pub deletion_after_build :
    (local_index cloud_index : Dict FileMeta) (data_version : ℤ) (previous : Option SyncManifest)
    (skipped : List String) (machine_id : Option String) (rel policy : String) (tolerance_ns : ℕ)
    (later : FileMeta) {meta seen : FileMeta}
    → lookup rel local_index ≡ some meta
    → lookup rel cloud_index ≡ some seen
    → contains skipped rel ≡ false
    → (deletion_is_proven later
          (lookup rel
            (build_manifest local_index cloud_index data_version previous skipped machine_id).files)
          tolerance_ns
          policy
          cloud
        ≡ (policy == "propagate" && is_as_before later meta tolerance_ns))
      × (deletion_is_proven later
            (lookup rel
              (build_manifest local_index cloud_index data_version previous skipped
                machine_id).files)
            tolerance_ns
            policy
            local
          ≡ (policy == "propagate" && is_as_before later seen tolerance_ns))
unfolding deletion_is_proven fingerprint_from_meta
deletion_after_build local_index cloud_index data_version previous skipped machine_id rel policy
      tolerance_ns later {meta} {seen} hl hc fresh =
    rw (lookup-build_manifest, hl, hc, fresh)
      (
        ground (arith, changed_since_recorded later meta tolerance_ns),
        ground (arith, changed_since_recorded later seen tolerance_ns),
      )
