-- ===== src/Models.antt =====
-- src/codexsync/models.py: the values that the planner, the manifest and the engine exchange.
-- A `Path` is its text; `join` is `root / rel` for a relative path in normal form.
use codex_sync.Base.{String, ◌<>◌, Option, List, [], ◌+◌, ℕ, length, Dict}
use codex_sync.Base.Int.{ℤ}

pub data JsonlCodec : Type 0 where
  plain gzip xz zstd : JsonlCodec

pub record FileMeta : Type 0 where
  pub relative_path : String
  pub abs_path : String
  pub mtime_ns : ℤ
  pub size : ℤ

pub record CopyAction : Type 0 where
  pub src : String
  pub dst : String
  pub relative_path : String
  pub codec : Option JsonlCodec

pub record SnapshotFingerprint : Type 0 where
  pub mtime_ns : ℤ
  pub size : ℤ

pub record ManifestEntry : Type 0 where
  pub local : Option SnapshotFingerprint
  pub cloud : Option SnapshotFingerprint

pub record SyncManifest : Type 0 where
  pub data_version : ℤ
  pub files : Dict ManifestEntry
  pub machine_id : Option String
  pub others : Dict (Dict ManifestEntry)

-- The texts "local" and "cloud" of `DeleteAction.side`.
pub data Side : Type 0 where
  local cloud : Side

abbrev pub other : Side → Side
other local = cloud
other cloud = local

pub record DeleteAction : Type 0 where
  pub path : String
  pub relative_path : String
  pub side : Side

pub record SyncPlan : Type 0 where
  pub to_local : List CopyAction
  pub to_cloud : List CopyAction
  pub conflicts : List String
  pub deletions : List DeleteAction
  pub skipped : List String

abbrev pub empty_plan : SyncPlan
empty_plan = record { to_local = []; to_cloud = []; conflicts = []; deletions = []; skipped = [] }

unfoldable pub action_count : SyncPlan → ℕ
action_count plan = length plan.to_local + length plan.to_cloud + length plan.deletions

unfoldable pub join : String → String → String
join root rel = root <> "/" <> rel
