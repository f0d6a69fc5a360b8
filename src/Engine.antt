-- ===== src/Engine.antt =====
-- src/codexsync/sync_engine.py: a plan applied to the files of both sides, with `backup_file` and
-- `finalize` of src/codexsync/backup.py and src/codexsync/fs_replace.py. Ordinary files only: no
-- action asks for a container. No other process writes the same files meanwhile.
pub mod State
pub mod Posts
pub mod Prepared
pub mod Targets
pub mod BackupFirst
pub mod Backups
pub mod Resting
pub mod Staging
pub mod Landing
pub mod Removal
pub mod Delivery
pub mod Unstaging
use codex_sync.Base.{
  Dict, ℕ, zero, suc, String, ◌==◌, Bool, true, false, not, ◌&&◌, Option, none, some, List, [], ◌∷◌,
  ◌++◌, map, if◌then◌else◌, is_some, lookup, insert, erase, Result, ok, err,
}
use codex_sync.Models.{CopyAction, DeleteAction, Side, local, cloud, SyncPlan}
use State.{
  Outcome, works, raises, locked, writes, breaks, EngineError, os_error, fail_safe, BackupEntry,
  World, M, pure, fail, ◌>>=◌, ◌>>◌, Hook, call,
}

pub record Hooks {ℓ} (J : Type ℓ) : Type ℓ where
  pub before_stage_check : Option (Hook J)
  pub after_backup : Option (Hook J)
  pub pre_commit_check : Option (Hook J)
  pub before_replace_check : Option (Hook J)
  pub after_success : Option (Hook J)

pub record Engine {ℓ} (J : Type ℓ) : Type ℓ where
  pub hooks : Hooks J
  pub backup_before_overwrite : Bool
  pub fail_on_unknown : Bool
  pub sha256 : String → String

-- `[*plan.to_local, *plan.to_cloud]`, with the side of each.
unfoldable pub sided : SyncPlan → List (Side × CopyAction)
sided plan = map (λ a. (local, a)) plan.to_local ++ map (λ a. (cloud, a)) plan.to_cloud

module _ {ℓ} {J : Type ℓ} (engine : Engine J) where
  -- What happens next to a call of the operating system.
  unfoldable pub outcome : M J Outcome
  outcome w = elim w.outcomes [ [] ↦ (ok works, w) | o ∷ os ↦ (ok o, record w { outcomes = os }) ]

  -- The content of a file; reading one that is not there raises.
  unfoldable pub content_of : String → M J String
  content_of path w = elim (lookup path w.files) [ none ↦ (err os_error, w) | some c ↦ (ok c, w) ]

  unfoldable pub staged_content : String → M J String
  staged_content dst w = elim (lookup dst w.staged) [
    | none ↦ (err os_error, w)
    | some c ↦ (ok c, w)
  ]

  abbrev pub put_staged : String → String → World J → World J
  put_staged dst c w = record w { staged = insert dst c w.staged }

  abbrev pub put_file : String → String → World J → World J
  put_file dst c w = record w { files = insert dst c w.files }

  -- `shutil.copy2` of a content, with what a written content does to the world.
  abbrev pub copied : (String → World J → World J) → String → Outcome → M J (Unit {0})
  copied put c works w = (ok tt, put c w)
  copied put c (writes x) w = (ok tt, put x w)
  copied put c (breaks x) w = (err os_error, put x w)
  copied put c raises w = (err os_error, w)
  copied put c locked w = (err os_error, w)

  unfoldable pub copy2 : (String → World J → World J) → String → M J (Unit {0})
  unfolding outcome
  copy2 put c = outcome >>= copied put c

  -- `_stage_verified` for an action without a container.
  unfoldable pub stage_verified : String → String → M J (Unit {0})
  stage_verified src dst = do
    before ← content_of src
    copy2 (put_staged dst) before
    staged ← staged_content dst
    after ← content_of src
    if not (engine.sha256 before == engine.sha256 staged)
        then fail fail_safe
        else if not (engine.sha256 before == engine.sha256 after)
        then fail fail_safe
        else pure tt

  unfoldable pub stage_all : List (Side × CopyAction) → M J (Unit {0})
  stage_all [] = pure tt
  stage_all ((side, action) ∷ rest) = stage_verified action.src action.dst >> stage_all rest

  -- `self._manifest_entries.append(...)`
  abbrev pub add_entry : String → Side → String → M J (Unit {0})
  add_entry relative_path side c w = (
    ok tt,
    record w {
      saved = w.saved ++ (record { relative_path = relative_path; side = side; content = c } ∷ []);
    },
  )

  -- `backup_file`; the copy is read back before its entry is recorded.
  unfoldable pub back_up_content : String → Side → String → Outcome → M J Bool
  back_up_content relative_path side c works = add_entry relative_path side c >> pure true
  back_up_content relative_path side c (writes x) =
      if engine.sha256 x == engine.sha256 c
      then add_entry relative_path side x >> pure true
      else fail os_error
  back_up_content relative_path side c _ = fail os_error

  unfoldable pub backup_file : String → String → Side → M J Bool
  unfolding outcome back_up_content
  backup_file path relative_path side w = elim (lookup path w.files) [
    | none ↦ (ok false, w)
    | some c ↦ (outcome >>= back_up_content relative_path side c) w
  ]

  -- A destination that is there must be backed up; so must every file to be deleted.
  unfoldable pub required : Bool → M J (Unit {0})
  required true = pure tt
  required false = fail fail_safe

  unfoldable pub back_up_copy : Side → CopyAction → M J (Unit {0})
  unfolding required
  back_up_copy side action w =
      if is_some (lookup action.dst w.files)
      then (backup_file action.dst action.relative_path side >>= required) w
      else (ok tt, w)

  unfoldable pub back_up_copies : List (Side × CopyAction) → M J (Unit {0})
  back_up_copies [] = pure tt
  back_up_copies ((side, action) ∷ rest) = back_up_copy side action >> back_up_copies rest

  unfoldable pub back_up_deletions : List DeleteAction → M J (Unit {0})
  back_up_deletions [] = pure tt
  back_up_deletions (d ∷ rest) =
      (backup_file d.path d.relative_path d.side >>= required) >> back_up_deletions rest

  abbrev pub stamp : Outcome → M J (Unit {0})
  stamp works w = (ok tt, record w { stamped = true })
  stamp (writes _) w = (ok tt, record w { stamped = true })
  stamp (breaks _) w = (err os_error, w)
  stamp raises w = (err os_error, w)
  stamp locked w = (err os_error, w)

  -- `finalize`: the manifest of a snapshot that has entries.
  unfoldable pub finalize : M J (Unit {0})
  finalize w = elim w.saved [ [] ↦ (ok tt, w) | _ ∷ _ ↦ (outcome >>= stamp) w ]

  -- One `os.replace`, with what a transient lock leads to; false is an error.
  abbrev pub attempt : String → String → M J Bool → Outcome → M J Bool
  attempt dst c more works w = (ok true, put_file dst c w)
  attempt dst c more (writes _) w = (ok true, put_file dst c w)
  attempt dst c more locked w = more w
  attempt dst c more raises w = (ok false, w)
  attempt dst c more (breaks _) w = (ok false, w)

  -- `replace_with_retry`, with the number of further attempts. Only a transient lock is retried.
  unfoldable pub replace_with_retry : ℕ → String → String → M J Bool
  replace_with_retry zero dst c = outcome >>= attempt dst c (pure false)
  replace_with_retry (suc n) dst c =
      outcome
      >>= attempt dst c (call engine.hooks.before_replace_check >> replace_with_retry n dst c)

  -- The fallback copy, where it is allowed.
  unfoldable pub after_replace : String → String → Bool → M J (Unit {0})
  after_replace dst c true = pure tt
  after_replace dst c false =
      if engine.fail_on_unknown then fail os_error else copy2 (put_file dst) c

  -- REPLACE_ATTEMPTS is 7.
  unfoldable pub replace_staged : String → M J (Unit {0})
  unfolding after_replace
  replace_staged dst = do
    staged ← staged_content dst
    replace_with_retry 6 dst staged >>= after_replace dst staged
    written ← content_of dst
    if engine.sha256 written == engine.sha256 staged then pure tt else fail fail_safe

  unfoldable pub replace_all : List (Side × CopyAction) → M J (Unit {0})
  replace_all [] = pure tt
  replace_all ((side, action) ∷ rest) =
      call engine.hooks.before_replace_check >> replace_staged action.dst >> replace_all rest

  abbrev pub unlinked : String → Outcome → M J (Unit {0})
  unlinked path works w = (ok tt, record w { files = erase path w.files })
  unlinked path (writes _) w = (ok tt, record w { files = erase path w.files })
  unlinked path (breaks _) w = (err fail_safe, w)
  unlinked path raises w = (err fail_safe, w)
  unlinked path locked w = (err fail_safe, w)

  -- `_remove_backed_up`; a file that is gone already is no error.
  unfoldable pub remove_backed_up : String → M J (Unit {0})
  remove_backed_up path w = elim (lookup path w.files) [
    | none ↦ (ok tt, w)
    | some _ ↦ (outcome >>= unlinked path) w
  ]

  unfoldable pub remove_all : List DeleteAction → M J (Unit {0})
  remove_all [] = pure tt
  remove_all (d ∷ rest) =
      call engine.hooks.before_replace_check >> remove_backed_up d.path >> remove_all rest

  -- `if actions and self._before_stage_check is not None`
  unfoldable pub check_stage : List (Side × CopyAction) → M J (Unit {0})
  check_stage [] = pure tt
  check_stage (_ ∷ _) = call engine.hooks.before_stage_check

  -- Up to the backup set and its manifest: no file of either side is touched.
  unfoldable pub prepare : List (Side × CopyAction) → List DeleteAction → M J (Unit {0})
  prepare actions deletions =
      check_stage actions
      >> stage_all actions
      >> back_up_copies actions
      >> back_up_deletions deletions
      >> finalize

  unfoldable pub commit : List (Side × CopyAction) → List DeleteAction → M J (Unit {0})
  commit actions deletions =
      replace_all actions >> remove_all deletions >> call engine.hooks.after_success

  unfoldable pub apply_plan : List (Side × CopyAction) → List DeleteAction → M J (Unit {0})
  apply_plan actions deletions =
      prepare actions deletions
      >> call engine.hooks.after_backup
      >> call engine.hooks.pre_commit_check
      >> commit actions deletions

  abbrev pub is_unlinked : Outcome → Bool
  is_unlinked works = true
  is_unlinked (writes _) = true
  is_unlinked _ = false

  -- `staged_path.unlink(missing_ok=True)` for each stage file that is left, until one raises.
  unfoldable pub unlink_staged : Dict String → M J (Unit {0})
  unlink_staged [] w = (ok tt, record w { staged = [] })
  unlink_staged (entry ∷ rest) w = elim w.outcomes [
    | [] ↦ unlink_staged rest w
    | o ∷ os ↦ elim (is_unlinked o) [
      | true ↦ unlink_staged rest (record w { outcomes = os })
      | false ↦ (err os_error, record w { staged = entry ∷ rest; outcomes = os })
    ]
  ]

  abbrev pub finish :
      Result EngineError (Unit {0})
      → Result EngineError (Unit {0}) × World J
      → Result EngineError (Unit {0}) × World J
  finish r (ok _, w) = (r, w)
  finish r (err e, w) = (err e, w)

  -- `finally`: an error there takes the place of what the body answers.
  unfoldable pub unstage :
      Result EngineError (Unit {0}) × World J → Result EngineError (Unit {0}) × World J
  unfolding unlink_staged
  unstage (r, w) = finish r (unlink_staged w.staged w)

  -- `_cleanup_orphaned_temp_files` and `_sweep_stale_stage_files`, which remove what earlier runs left beside
  -- the destinations, are left out.
  unfoldable pub execute : SyncPlan → Bool → M J (Unit {0})
  unfolding unstage
  execute plan dry_run w =
      if dry_run
      then (ok tt, w)
      else if not engine.backup_before_overwrite
      then (err fail_safe, w)
      else unstage (apply_plan (sided plan) plan.deletions w)
