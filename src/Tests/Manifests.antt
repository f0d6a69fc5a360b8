-- ===== src/Tests/Manifests.antt =====
-- Manifests saved, loaded and built.
use codex_sync.Base.{
  ◌&&◌, ℕ, String, ◌==◌, true, false, none, some, [], ◌∷◌, if◌then◌else◌, ◌≡◌, refl, ok, err,
  lookup, is_some, ◌||◌, contains,
}
use codex_sync.Base.Int.{pos}
use codex_sync.Base.Json.{Json}
use codex_sync.Models.{local, FileMeta, ManifestEntry, SyncManifest, cloud}
use codex_sync.Base.Text.{strip, is_space}
use codex_sync.MachineId.{normalize_machine_id, clean_machine_id, is_id_char}
use codex_sync.MachineId.Laws.{IsSafe, normalize-IsSafe, normalize-normalize}
use codex_sync.Manifest
use codex_sync.Manifest.{
  ManifestFile, absent, parsed, load_manifest, save_manifest, manifest_payload,
  manifest_machine_key, build_manifest,
}
use codex_sync.Manifest.Baselines.{baseline, save-load}
use codex_sync.Manifest.Build.{
  recorded_entry, is_as_before, build_manifest-lookup, deletion_after_build,
}
use codex_sync.Planner.{deletion_is_proven}

abbrev file : ℕ → FileMeta
file mtime = record { relative_path = "a"; abs_path = "/l/a"; mtime_ns = pos mtime; size = pos 1 }

abbrev entry : ManifestEntry
entry = record { local = some (record { mtime_ns = pos 5; size = pos 1 }); cloud = none }

abbrev manifest : SyncManifest
manifest = record {
  data_version = pos 1;
  files = ("a", entry) ∷ [];
  machine_id = some "desk";
  others = ("lap", ("b", entry) ∷ []) ∷ [];
}

-- An owner with spaces, dots and other characters.
normalize_runs : normalize_machine_id (some " -my desk/#1. ") true ≡ some "my-desk-1"
unfolding normalize_machine_id clean_machine_id is_id_char strip is_space ◌==◌
normalize_runs = refl

normalize-IsSafe_example : IsSafe "my-desk-1"
normalize-IsSafe_example = normalize-IsSafe (some " -my desk/#1. ") true normalize_runs

normalize-normalize_example : normalize_machine_id (some "my-desk-1") false ≡ some "my-desk-1"
normalize-normalize_example = normalize-normalize (some " -my desk/#1. ") true false normalize_runs

save-load_example :
    (loaded : SyncManifest) × (load_manifest
        (parsed (manifest_payload manifest))
        (pos 1)
        (some "lap")
      ≡ ok loaded)
    × (loaded.data_version ≡ pos 1)
    × (loaded.machine_id ≡ some (manifest_machine_key (some "lap")))
    × ((machine rel : String) → baseline loaded machine rel ≡ baseline manifest machine rel)
unfolding save_manifest
save-load_example = save-load manifest absent (some "lap") refl

-- A file without an entry is refused its malformed half.
malformed_root : load_manifest (parsed (Json.text "x")) (pos 1) none ≡ err Manifest.root_not_object
unfolding load_manifest
malformed_root = refl

build_manifest-lookup_example :
    (lookup "a"
        (build_manifest (("a", file 1) ∷ []) [] (pos 1) (some manifest) ("a" ∷ []) none).files
      ≡ (if is_some (lookup "a" (("a", file 1) ∷ [])) || is_some (lookup {V = FileMeta} "a" [])
          then recorded_entry (("a", file 1) ∷ []) [] (("a", entry) ∷ []) ("a" ∷ []) "a"
          else none))
    × ((build_manifest (("a", file 1) ∷ []) [] (pos 1) (some manifest) ("a" ∷ []) none).others
        ≡ (("lap", ("b", entry) ∷ []) ∷ []))
build_manifest-lookup_example =
    build_manifest-lookup (("a", file 1) ∷ []) [] (pos 1) (some manifest) ("a" ∷ []) none "a"

abbrev built : SyncManifest
built = build_manifest (("a", file 1) ∷ []) (("a", file 2) ∷ []) (pos 1) none [] (some "desk")

deletion_after_build_example :
    (deletion_is_proven (file 3) (lookup "a" built.files) 0 "propagate" cloud
      ≡ ("propagate" == "propagate" && is_as_before (file 3) (file 1) 0))
    × (deletion_is_proven (file 3) (lookup "a" built.files) 0 "propagate" local
        ≡ ("propagate" == "propagate" && is_as_before (file 3) (file 2) 0))
unfolding lookup ◌==◌ contains
deletion_after_build_example =
    deletion_after_build (("a", file 1) ∷ []) (("a", file 2) ∷ []) (pos 1) none [] (some "desk") "a"
      "propagate" 0 (file 3) {meta = file 1} {seen = file 2} refl refl refl
