-- ===== src/Manifest.antt =====
-- src/codexsync/manifest.py: what each machine saw on both sides at its last sync.
-- A dict's keys are distinct, so an assignment under each key of a walk appends.
pub mod Baselines
pub mod Build
use codex_sync.Base.{
  String, ◌==◌, Bool, true, false, not, ◌&&◌, Option, none, some, List, [], ◌∷◌, ◌++◌,
  if◌then◌else◌, contains, dedupe, sorted, str_leb, Dict, lookup, insert, erase, keys, Result, ok,
  err, ◌>>=◌,
}
use codex_sync.Base.Int.{ℤ, int_eq}
use codex_sync.Base.Json.{
  Json, null, boolean, integer, float, text, array, object, Fields, to_dict, from_dict, get,
}
use codex_sync.MachineId.{normalize_machine_id}
use codex_sync.Models.{FileMeta, SnapshotFingerprint, ManifestEntry, SyncManifest}

-- What the manifest's path holds: nothing, a file that cannot be read or is no JSON, or a value.
pub data ManifestFile : Type 0 where
  absent unreadable not_json : ManifestFile
  parsed : Json → ManifestFile

-- The refusals of `load_manifest`, and the `ValueError` of `save_manifest`.
pub data ManifestError : Type 0 where
  file_unreadable file_not_json root_not_object version_not_integer version_mismatch : ManifestError
  machines_not_object owner_missing : ManifestError

unfoldable pub manifest_machine_key : Option String → String
manifest_machine_key machine_id = elim (normalize_machine_id machine_id true) [
  | none ↦ "unknown-machine"
  | some id ↦ if id == "" then "unknown-machine" else id
]

-- `None`, a fingerprint, or `_MALFORMED`.
pub data Parsed : Type 0 where
  nothing : Parsed
  fingerprint : SnapshotFingerprint → Parsed
  malformed : Parsed

unfoldable pub fingerprint_of : Json → Json → Parsed
fingerprint_of (integer mtime_ns) (integer size) =
    fingerprint (record { mtime_ns = mtime_ns; size = size })
fingerprint_of _ _ = malformed

unfoldable pub parse_fingerprint : Json → Parsed
unfolding fingerprint_of get
parse_fingerprint null = nothing
parse_fingerprint (object fs) = fingerprint_of (get "mtime_ns" fs) (get "size" fs)
parse_fingerprint _ = malformed

unfoldable pub entry_of : Parsed → Parsed → Option ManifestEntry
entry_of malformed cloud = none
entry_of nothing malformed = none
entry_of (fingerprint l) malformed = none
entry_of nothing nothing = some (record { local = none; cloud = none })
entry_of nothing (fingerprint c) = some (record { local = none; cloud = some c })
entry_of (fingerprint l) nothing = some (record { local = some l; cloud = none })
entry_of (fingerprint l) (fingerprint c) = some (record { local = some l; cloud = some c })

unfoldable pub parse_entry : Json → Option ManifestEntry
unfolding entry_of parse_fingerprint get
parse_entry (object fs) =
    entry_of (parse_fingerprint (get "local" fs)) (parse_fingerprint (get "cloud" fs))
parse_entry _ = none

-- The loop of `_parse_files`.
unfoldable pub parse_entries : Dict Json → Dict ManifestEntry
parse_entries [] = []
parse_entries ((rel_path, raw) ∷ rest) =
    let others = parse_entries rest in
    elim (parse_entry raw) [ none ↦ others | some entry ↦ (rel_path, entry) ∷ others ]

unfoldable pub parse_files : Json → Dict ManifestEntry
unfolding parse_entries
parse_files (object fs) = parse_entries (to_dict fs)
parse_files _ = []

-- The loop over `machines_raw`.
unfoldable pub parse_machines : Dict Json → Dict (Dict ManifestEntry)
parse_machines [] = []
parse_machines ((machine, object block) ∷ rest) =
    (machine, parse_files (get "files" block)) ∷ parse_machines rest
parse_machines ((machine, _) ∷ rest) = parse_machines rest

unfoldable pub read_version : Fields → ℤ → Result ManifestError ℤ
read_version fs data_version = elim (lookup "data_version" (to_dict fs)) [
  | none ↦ ok data_version
  | some (integer raw_version) ↦
      if int_eq raw_version data_version then ok raw_version else err version_mismatch
  | some _ ↦ err version_not_integer
]

unfoldable pub read_machines : Fields → Result ManifestError (Dict (Dict ManifestEntry))
unfolding parse_machines get
read_machines fs = elim (get "machines" fs) [
  | null ↦ ok []
  | object machines_raw ↦ ok (parse_machines (to_dict machines_raw))
  | _ ↦ err machines_not_object
]

abbrev pub or_empty {ℓ} : {A : Type ℓ} → Option (Dict A) → Dict A
or_empty none = []
or_empty (some d) = d

unfoldable pub load_object : Fields → ℤ → String → Result ManifestError SyncManifest
unfolding read_version read_machines
load_object fs data_version key = do
  raw_version ← read_version fs data_version
  machines ← read_machines fs
  ok (record {
    data_version = raw_version;
    files = or_empty (lookup key machines);
    machine_id = some key;
    others = erase key machines;
  })

unfoldable pub load_manifest : ManifestFile → ℤ → Option String → Result ManifestError SyncManifest
unfolding load_object
load_manifest absent data_version machine_id = ok (record {
  data_version = data_version;
  files = [];
  machine_id = some (manifest_machine_key machine_id);
  others = [];
})
load_manifest unreadable data_version machine_id = err file_unreadable
load_manifest not_json data_version machine_id = err file_not_json
load_manifest (parsed (object fs)) data_version machine_id =
    load_object fs data_version (manifest_machine_key machine_id)
load_manifest (parsed _) data_version machine_id = err root_not_object

module _ {ℓ} {V : Type ℓ} where
  insert_item : String → V → Dict V → Dict V
  insert_item k v [] = (k, v) ∷ []
  insert_item k v ((j, w) ∷ d) =
      let rest = insert_item k v d in if str_leb k j then (k, v) ∷ (j, w) ∷ d else (j, w) ∷ rest

  -- `sorted(d.items())`, by key.
  unfoldable pub sorted_items : Dict V → Dict V
  unfolding insert_item
  sorted_items [] = []
  sorted_items ((k, v) ∷ d) = insert_item k v (sorted_items d)

unfoldable pub fingerprint_to_dict : Option SnapshotFingerprint → Json
fingerprint_to_dict none = null
fingerprint_to_dict (some value) =
    object (from_dict (("mtime_ns", integer value.mtime_ns) ∷ ("size", integer value.size) ∷ []))

unfoldable pub entry_payload : ManifestEntry → Json
unfolding fingerprint_to_dict
entry_payload entry = object (
    from_dict (
      ("local", fingerprint_to_dict entry.local) ∷ ("cloud", fingerprint_to_dict entry.cloud) ∷ []))

abbrev pub map_values {ℓ κ} : {A : Type ℓ} {B : Type κ} → (A → B) → Dict A → Dict B
map_values f [] = []
map_values f ((k, v) ∷ d) = (k, f v) ∷ map_values f d

unfoldable pub files_payload : Dict ManifestEntry → Json
unfolding sorted_items entry_payload
files_payload files =
    object (
      from_dict
        (("files", object (from_dict (map_values entry_payload (sorted_items files)))) ∷ []))

-- `machines[manifest.machine_id] = manifest.files`, on a copy of the others.
abbrev pub with_owner :
    Option String → Dict ManifestEntry → Dict (Dict ManifestEntry) → Dict (Dict ManifestEntry)
with_owner none files others = others
with_owner (some owner) files others = insert owner files others

unfoldable pub all_machines : SyncManifest → Dict (Dict ManifestEntry)
all_machines manifest = with_owner manifest.machine_id manifest.files manifest.others

unfoldable pub manifest_payload : SyncManifest → Json
unfolding files_payload all_machines sorted_items
manifest_payload manifest = object (
    from_dict (
      ("format", text "codexsync-sync-manifest-v2")
      ∷ ("data_version", integer manifest.data_version)
      ∷ (
        "machines",
        object (from_dict (map_values files_payload (sorted_items (all_machines manifest)))),
      )
      ∷ []))

-- What the path holds after the save; without a path nothing is written.
unfoldable pub save_manifest :
    SyncManifest → Bool → ManifestFile → Result ManifestError ManifestFile
unfolding manifest_payload
save_manifest manifest has_path before =
    if not has_path then ok before else elim manifest.machine_id [
      | some owner ↦ ok (parsed (manifest_payload manifest))
      | none ↦ elim manifest.files [
        | [] ↦ ok (parsed (manifest_payload manifest))
        | _ ∷ _ ↦ err owner_missing
      ]
    ]

unfoldable pub fingerprint_from_meta : Option FileMeta → Option SnapshotFingerprint
fingerprint_from_meta none = none
fingerprint_from_meta (some meta) = some (record { mtime_ns = meta.mtime_ns; size = meta.size })

module _ (local_index cloud_index : Dict FileMeta) (previous_files : Dict ManifestEntry)
    (skipped : List String) where
  -- The loop of `build_manifest`.
  unfoldable pub build_files : List String → Dict ManifestEntry
  unfolding fingerprint_from_meta
  build_files [] = []
  build_files (rel_path ∷ rest) =
      let others = build_files rest in
      if contains skipped rel_path
      then elim (lookup rel_path previous_files) [
        | none ↦ others
        | some carried ↦ (rel_path, carried) ∷ others
      ]
      else (
        rel_path,
        record {
          local = fingerprint_from_meta (lookup rel_path local_index);
          cloud = fingerprint_from_meta (lookup rel_path cloud_index);
        },
      )
        ∷ others

abbrev pub previous_files_of : Option SyncManifest → Dict ManifestEntry
previous_files_of none = []
previous_files_of (some previous) = previous.files

abbrev pub previous_owner : Option SyncManifest → Option String
previous_owner none = none
previous_owner (some previous) = previous.machine_id

abbrev pub previous_others : Option SyncManifest → Dict (Dict ManifestEntry)
previous_others none = []
previous_others (some previous) = previous.others

abbrev pub owner_of : Option String → Option SyncManifest → Option String
owner_of none previous = previous_owner previous
owner_of (some machine) previous = some (manifest_machine_key (some machine))

unfoldable pub build_manifest :
    Dict FileMeta
    → Dict FileMeta
    → ℤ
    → Option SyncManifest
    → List String
    → Option String
    → SyncManifest
unfolding build_files
build_manifest local_index cloud_index data_version previous skipped machine_id = record {
  data_version = data_version;
  files =
      build_files local_index cloud_index (previous_files_of previous) skipped
        (sorted (dedupe (keys local_index ++ keys cloud_index)));
  machine_id = owner_of machine_id previous;
  others = previous_others previous;
}
