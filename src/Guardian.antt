-- ===== src/Guardian.antt =====
-- The Guardian's store of one machine: src/codexsync/guardian_pointer.py, the checks of
-- src/codexsync/guardian_manifest.py and `prune_snapshots` of src/codexsync/guardian_retention.py.
pub mod Retention
pub mod Pointer
pub mod Publication
pub mod Walks
pub mod Predecessor
pub mod Pruning
pub mod Shrink
pub mod Drops
use codex_sync.Base.{
  ℕ, String, ◌==◌, Bool, true, false, not, ◌&&◌, ◌||◌, Option, none, some, List, [], ◌∷◌, ltb, leb,
  nat_eq, if◌then◌else◌, Dict, lookup, Result, ok, err, ◌>>=◌,
}

-- The fields that are read behind `load_guardian_manifest`; a time is in microseconds.
pub record GuardianManifest : Type 0 where
  pub snapshot_id : String
  pub generation : ℕ
  pub created_at : ℕ
  pub machine_id : String
  pub source_size : ℕ
  pub sha256 : String
  pub validation_codes : List String
  pub previous_good_snapshot_id : Option String

-- A snapshot of the store's machine.
pub record GuardianSnapshot : Type 0 where
  pub snapshot_id : String
  pub generation : ℕ

-- The object in a COMMITTED file.
pub record Marker : Type 0 where
  pub snapshot_id : String
  pub generation : ℕ
  pub sha256 : String

-- An entry of the snapshots folder. `manifest` is what `load_guardian_manifest` returns when
-- `validate_guardian_manifest` accepts it, `payload` the size and SHA-256 of the payload file, and
-- `marker` the COMMITTED file, which need not hold an object.
pub record SnapshotDirectory : Type 0 where
  pub is_symlink : Bool
  pub is_dir : Bool
  pub is_inside : Bool
  pub manifest : Option GuardianManifest
  pub payload : Option (ℕ × String)
  pub marker : Option (Option Marker)

pub record LatestGoodPointer : Type 0 where
  pub machine_id : String
  pub snapshot_id : String
  pub generation : ℕ
  pub sha256 : String

-- The folder by its names, and what `_read_pointer` returns for the machine's file.
pub record Store : Type 0 where
  pub machine : String
  pub snapshots : Dict SnapshotDirectory
  pub pointer : Option LatestGoodPointer

abbrev pub snapshot_of : GuardianManifest → GuardianSnapshot
snapshot_of m = record { snapshot_id = m.snapshot_id; generation = m.generation }

-- The comparisons of `verify_guardian_snapshot`.
unfoldable pub matches_manifest :
    String → GuardianSnapshot → Option (ℕ × String) → GuardianManifest → Bool
matches_manifest machine snapshot none m = false
matches_manifest machine snapshot (some (size, sha256)) m =
    (snapshot.snapshot_id == m.snapshot_id)
    && (machine == m.machine_id)
    && nat_eq snapshot.generation m.generation
    && nat_eq size m.source_size
    && (sha256 == m.sha256)

-- `verify_guardian_snapshot` on what the folder has under the snapshot's name; `none` for
-- GuardianIntegrityError.
unfoldable pub verify_found :
    String → GuardianSnapshot → Option SnapshotDirectory → Option GuardianManifest
unfolding matches_manifest
verify_found machine snapshot none = none
verify_found machine snapshot (some directory) = elim directory.manifest [
  | none ↦ none
  | some m ↦ if matches_manifest machine snapshot directory.payload m then some m else none
]

unfoldable pub verify_guardian_snapshot : Store → GuardianSnapshot → Option GuardianManifest
unfolding verify_found
verify_guardian_snapshot store snapshot =
    verify_found store.machine snapshot (lookup snapshot.snapshot_id store.snapshots)

unfoldable pub matches_marker : GuardianManifest → Option (Option Marker) → Bool
matches_marker m none = false
matches_marker m (some none) = false
matches_marker m (some (some marker)) =
    (marker.snapshot_id == m.snapshot_id)
    && nat_eq marker.generation m.generation
    && (marker.sha256 == m.sha256)

abbrev pub marker_of : Option SnapshotDirectory → Option (Option Marker)
marker_of none = none
marker_of (some directory) = directory.marker

-- `_verify_candidate`, likewise.
unfoldable pub candidate_found :
    String → GuardianSnapshot → Option SnapshotDirectory → Option GuardianManifest
unfolding verify_found matches_marker
candidate_found machine snapshot found = elim (verify_found machine snapshot found) [
  | none ↦ none
  | some m ↦ if matches_marker m (marker_of found) then some m else none
]

unfoldable pub verify_candidate : Store → GuardianSnapshot → Option GuardianManifest
verify_candidate store snapshot =
    candidate_found store.machine snapshot (lookup snapshot.snapshot_id store.snapshots)

abbrev pub inside : Option SnapshotDirectory → Bool
inside none = true
inside (some directory) = directory.is_inside

unfoldable pub snapshot_from_pointer : Store → LatestGoodPointer → Option GuardianSnapshot
snapshot_from_pointer store pointer =
    let snapshot : GuardianSnapshot = record {
      snapshot_id = pointer.snapshot_id;
      generation = pointer.generation;
    } in
    if not (inside (lookup pointer.snapshot_id store.snapshots))
    then none
    else elim (verify_candidate store snapshot) [
      | none ↦ none
      | some m ↦ if m.sha256 == pointer.sha256 then some snapshot else none
    ]

-- Not a link, a directory, and with a COMMITTED file.
unfoldable pub is_committed : SnapshotDirectory → Bool
is_committed directory = elim directory.marker [
  | none ↦ false
  | some _ ↦ not directory.is_symlink && directory.is_dir
]

-- The manifest of an entry that a walk over the folder goes on with, before it is verified.
unfoldable pub listed_manifest : String → SnapshotDirectory → Option GuardianManifest
unfolding is_committed
listed_manifest name directory =
    if not (is_committed directory) then none else elim directory.manifest [
      | none ↦ none
      | some m ↦ if m.snapshot_id == name then some m else none
    ]

-- A walk keeps the entries that it can verify.
unfoldable pub keep_verified :
    (GuardianSnapshot → Option GuardianManifest)
    → Option GuardianManifest
    → List GuardianManifest
    → List GuardianManifest
keep_verified verify none others = others
keep_verified verify (some m) others = elim (verify (snapshot_of m)) [
  | none ↦ others
  | some _ ↦ m ∷ others
]

-- The walks of `_scan_latest_committed` and `prune_snapshots`, with what each verifies by.
unfoldable pub collect :
    (GuardianSnapshot → Option GuardianManifest) → Dict SnapshotDirectory → List GuardianManifest
collect verify [] = []
collect verify ((name, directory) ∷ rest) =
    keep_verified verify (listed_manifest name directory) (collect verify rest)

unfoldable pub insert_newest : GuardianManifest → List GuardianManifest → List GuardianManifest
insert_newest m [] = m ∷ []
insert_newest m (n ∷ ns) =
    let rest = insert_newest m ns in if leb n.generation m.generation then m ∷ n ∷ ns else n ∷ rest

-- `sort(key=generation, reverse=True)`, which is stable.
unfoldable pub newest_first : List GuardianManifest → List GuardianManifest
unfolding insert_newest
newest_first [] = []
newest_first (m ∷ ms) = insert_newest m (newest_first ms)

-- The newest, unless two share its generation.
unfoldable pub sole_newest : List GuardianManifest → Option GuardianSnapshot
sole_newest [] = none
sole_newest (m ∷ []) = some (snapshot_of m)
sole_newest (m ∷ n ∷ _) = if nat_eq m.generation n.generation then none else some (snapshot_of m)

unfoldable pub scan_latest_committed : Store → Option GuardianSnapshot
unfolding collect newest_first sole_newest verify_candidate
scan_latest_committed store =
    sole_newest (newest_first (collect (verify_candidate store) store.snapshots))

-- `_write_pointer`; `none` for GuardianIntegrityError.
unfoldable pub write_pointer : Store → GuardianSnapshot → Option Store
unfolding verify_candidate
write_pointer store snapshot = elim (verify_candidate store snapshot) [
  | none ↦ none
  | some m ↦ some (record store {
    pointer = some (record {
      machine_id = store.machine;
      snapshot_id = snapshot.snapshot_id;
      generation = snapshot.generation;
      sha256 = m.sha256;
    });
  })
]

-- What the pointer on disk resolves to.
unfoldable pub pointed : Store → Option GuardianSnapshot
unfolding snapshot_from_pointer
pointed store = elim store.pointer [
  | none ↦ none
  | some pointer ↦
      if pointer.machine_id == store.machine then snapshot_from_pointer store pointer else none
]

unfoldable pub resolve_or_restore_latest_good : Store → Option (Store × Option GuardianSnapshot)
unfolding pointed scan_latest_committed write_pointer
resolve_or_restore_latest_good store = elim (pointed store) [
  | some snapshot ↦ some (store, some snapshot)
  | none ↦ elim (scan_latest_committed store) [
    | none ↦ some (store, none)
    | some recovered ↦ elim (write_pointer store recovered) [
      | none ↦ none
      | some store' ↦ some (store', some recovered)
    ]
  ]
]

-- `publish_latest_good`, once `current` is resolved.
unfoldable pub advance :
    Store
    → GuardianSnapshot
    → GuardianManifest
    → Option GuardianSnapshot
    → Option (Store × GuardianSnapshot)
unfolding write_pointer verify_candidate
advance store candidate verified none = elim (write_pointer store candidate) [
  | none ↦ none
  | some store' ↦ some (store', candidate)
]
advance store candidate verified (some current) = elim (verify_candidate store current) [
  | none ↦ none
  | some m ↦
      if leb verified.generation m.generation || m.sha256 == verified.sha256
      then some (store, current)
      else elim (write_pointer store candidate) [
        | none ↦ none
        | some store' ↦ some (store', candidate)
      ]
]

unfoldable pub publish_latest_good : Store → GuardianSnapshot → Option (Store × GuardianSnapshot)
unfolding advance verify_candidate resolve_or_restore_latest_good
publish_latest_good store candidate = elim (verify_candidate store candidate) [
  | none ↦ none
  | some verified ↦ elim (resolve_or_restore_latest_good store) [
    | none ↦ none
    | some (store', current) ↦ advance store' candidate verified current
  ]
]
