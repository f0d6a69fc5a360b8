-- ===== src/Manifest/Baselines.antt =====
-- Saving a manifest and loading it, on any machine.
use mathlib.Core.Option
use codex_sync.Base.{
  String, ◌==◌, ==_iff, str_leb_self, ◌≡◌, refl, sym, ap, ◌∙◌, Bool, true, false, Option, none,
  some, [], ◌∷◌, if◌then◌else◌, Dict, lookup, erase, lookup-insert, lookup-erase, ok, arith,
  Bool-cases, inl, inr,
}
use codex_sync.Base.Int.{int_eq_self}
use codex_sync.Base.Json.{object, Fields, from_dict, to_dict-from_dict, get}
use codex_sync.Models.{SnapshotFingerprint, ManifestEntry, SyncManifest}
use codex_sync.Manifest.{
  ManifestFile, parsed, manifest_machine_key, parse_entry, parse_entries, parse_files,
  parse_machines, load_manifest, sorted_items, insert_item, map_values, or_empty, entry_payload,
  files_payload, all_machines, with_owner, manifest_payload, save_manifest,
}

abbrev pub entry_in : String → Option (Dict ManifestEntry) → Option ManifestEntry
entry_in rel none = none
entry_in rel (some files) = lookup rel files

abbrev pub is_owner : Option String → String → Bool
is_owner none machine = false
is_owner (some owner) machine = machine == owner

-- What a machine recorded of a path, according to a manifest: its own part if it is the
-- manifest's machine, and its part of the others if not.
unfoldable pub baseline : SyncManifest → String → String → Option ManifestEntry
baseline m machine rel =
    if is_owner m.machine_id machine
    then lookup rel m.files
    else entry_in rel (lookup machine m.others)

module _ {ℓ} {V : Type ℓ} where
  lookup-insert_item :
      (j k : String) (v : V) (d : Dict V)
      → lookup j (insert_item k v d) ≡ (if j == k then some v else lookup j d)
  unfolding lookup insert_item
  lookup-insert_item j k v [] = refl
  lookup-insert_item j k v ((i, w) ∷ d) =
      ground (arith, lookup-insert_item j k v d, ==_iff j i, ==_iff j k, str_leb_self k)

  pub lookup-sorted_items : (j : String) (d : Dict V) → lookup j (sorted_items d) ≡ lookup j d
  unfolding lookup sorted_items
  lookup-sorted_items j [] = refl
  lookup-sorted_items j ((k, v) ∷ d) =
      lookup-insert_item j k v (sorted_items d) ∙ rw (lookup-sorted_items j d)

  pub lookup-map_values :
      {W : Type 0} (f : V → W) (j : String) (d : Dict V)
      → lookup j (map_values f d) ≡ Option.map f (lookup j d)
  unfolding lookup
  lookup-map_values f j [] = refl
  lookup-map_values f j ((k, v) ∷ d) = ground (arith, lookup-map_values f j d)

parse-entry_payload_parts :
    (l c : Option SnapshotFingerprint)
    → parse_entry (entry_payload (record { local = l; cloud = c }))
      ≡ some (record { local = l; cloud = c })
unfolding parse_entry entry_payload lookup ◌==◌
parse-entry_payload_parts none none = refl
parse-entry_payload_parts none (some c) = refl
parse-entry_payload_parts (some l) none = refl
parse-entry_payload_parts (some l) (some c) = refl

-- Every entry is read back as it was written.
parse-entry_payload : (entry : ManifestEntry) → parse_entry (entry_payload entry) ≡ some entry
parse-entry_payload entry = parse-entry_payload_parts entry.local entry.cloud

parse_entries-payload : (d : Dict ManifestEntry) → parse_entries (map_values entry_payload d) ≡ d
unfolding parse_entries
parse_entries-payload [] = refl
parse_entries-payload ((k, e) ∷ d) =
    rw (parse-entry_payload e, parse_entries) (rw (parse_entries-payload d) refl)

abbrev block_of : Dict ManifestEntry → Fields
block_of files =
    from_dict (("files", object (from_dict (map_values entry_payload (sorted_items files)))) ∷ [])

parse_files-block :
    (files : Dict ManifestEntry) → parse_files (get "files" (block_of files)) ≡ sorted_items files
unfolding parse_files get lookup ◌==◌
parse_files-block files = rw to_dict-from_dict (parse_entries-payload (sorted_items files))

parse_machines-payload :
    (d : Dict (Dict ManifestEntry))
    → parse_machines (map_values files_payload d) ≡ map_values sorted_items d
unfolding parse_machines files_payload
parse_machines-payload [] = refl
parse_machines-payload ((k, files) ∷ d) = cc (parse_files-block files, parse_machines-payload d)

lookup-with_owner :
    (o : Option String) (files : Dict ManifestEntry) (others : Dict (Dict ManifestEntry))
    (machine rel : String)
    → entry_in rel (lookup machine (with_owner o files others))
      ≡ (if is_owner o machine then lookup rel files else entry_in rel (lookup machine others))
lookup-with_owner none files others machine rel = refl
lookup-with_owner (some owner) files others machine rel = rw lookup-insert (ground arith)

-- The machines that `load_manifest` finds in what `save_manifest` wrote.
abbrev loaded_machines : SyncManifest → Dict (Dict ManifestEntry)
loaded_machines m = map_values sorted_items (sorted_items (all_machines m))

entry_in-loaded_machines :
    (m : SyncManifest) (machine rel : String)
    → entry_in rel (lookup machine (loaded_machines m)) ≡ baseline m machine rel
unfolding all_machines baseline
entry_in-loaded_machines m machine rel =
    rw (lookup-map_values, lookup-sorted_items)
      (sort_inside (lookup machine (all_machines m))
        ∙ lookup-with_owner m.machine_id m.files m.others machine rel)
  where
    sort_inside :
        (o : Option (Dict ManifestEntry))
        → entry_in rel (Option.map sorted_items o) ≡ entry_in rel o
    sort_inside none = refl
    sort_inside (some d) = lookup-sorted_items rel d

saved_file :
    (m : SyncManifest) (before : ManifestFile) {file : ManifestFile}
    → save_manifest m true before ≡ ok file
    → file ≡ parsed (manifest_payload m)
unfolding save_manifest
saved_file m before h = ground arith

abbrev loaded_by : SyncManifest → String → SyncManifest
loaded_by m key = record {
  data_version = m.data_version;
  files = or_empty (lookup key (loaded_machines m));
  machine_id = some key;
  others = erase key (loaded_machines m);
}

load-payload :
    (m : SyncManifest) (reader : Option String)
    → load_manifest (parsed (manifest_payload m)) m.data_version reader
      ≡ ok (loaded_by m (manifest_machine_key reader))
unfolding load_manifest manifest_payload lookup ◌==◌
load-payload m reader =
    rw (int_eq_self m.data_version) (rw (to_dict-from_dict, parse_machines-payload) refl)

baseline-loaded_by :
    (m : SyncManifest) (key machine rel : String)
    → baseline (loaded_by m key) machine rel ≡ entry_in rel (lookup machine (loaded_machines m))
unfolding baseline lookup
baseline-loaded_by m key machine rel = rw lookup-erase (elim (Bool-cases (machine == key)) [
  | inl e ↦ rw e (
      or_empty_entry (lookup key (loaded_machines m))
      ∙ ap (λ j. entry_in rel (lookup j (loaded_machines m))) (sym ((==_iff machine key).0 e)))
  | inr e ↦ rw e refl
])
  where
    or_empty_entry : (o : Option (Dict ManifestEntry)) → lookup rel (or_empty o) ≡ entry_in rel o
    or_empty_entry none = refl
    or_empty_entry (some d) = refl

-- A manifest that is saved, and loaded for any machine, gives back the recorded entry of every
-- machine for every path; what it loads belongs to the reader.
pub save-load :
    (m : SyncManifest) (before : ManifestFile) (reader : Option String) {file : ManifestFile}
    → save_manifest m true before ≡ ok file
    → (loaded : SyncManifest) × (load_manifest file m.data_version reader ≡ ok loaded)
      × (loaded.data_version ≡ m.data_version)
      × (loaded.machine_id ≡ some (manifest_machine_key reader))
      × ((machine rel : String) → baseline loaded machine rel ≡ baseline m machine rel)
save-load m before reader h = (
  loaded_by m (manifest_machine_key reader),
  rw (saved_file m before h) (load-payload m reader),
  refl,
  refl,
  λ machine rel.
      baseline-loaded_by m (manifest_machine_key reader) machine rel
      ∙ entry_in-loaded_machines m machine rel,
)
