-- ===== src/Tests/Engines.antt =====
-- A run over two files of each side, with a lock and an error of the operating system on its way.
use codex_sync.Base.{
  ◌==◌, true, false, none, some, List, [], ◌∷◌, ◌≡◌, refl, sym, subst, ok, lookup, insert, erase,
  contains,
}
use mathlib.Core.List.Memᴰ
use codex_sync.Models.{cloud, SyncPlan, empty_plan}
use codex_sync.Engine.State.{Outcome, works, locked, raises, World}
use codex_sync.Engine.{
  Engine, sided, execute, outcome, content_of, staged_content, copy2, stage_verified, stage_all,
  back_up_content, backup_file, required, back_up_copy, back_up_copies, back_up_deletions, finalize,
  replace_with_retry, after_replace, replace_staged, replace_all, remove_backed_up, remove_all,
  check_stage, prepare, commit, apply_plan,
}
use codex_sync.Engine.Targets.{IsApart, destinations, doomed}
use codex_sync.Engine.BackupFirst.{Kept, execute-keeps}
use codex_sync.Engine.Delivery.{Delivered, execute-delivers}

abbrev engine : Engine (Unit {0})
engine = record {
  hooks = record {
    before_stage_check = none;
    after_backup = none;
    pre_commit_check = none;
    before_replace_check = none;
    after_success = none;
  };
  backup_before_overwrite = true;
  fail_on_unknown = true;
  sha256 = λ x. x;
}

abbrev upload_and_remove : SyncPlan
upload_and_remove = record empty_plan {
  to_cloud = record { src = "pc/a"; dst = "cloud/a"; relative_path = "a"; codec = none } ∷ [];
  deletions = record { path = "cloud/b"; relative_path = "b"; side = cloud } ∷ [];
}

abbrev before : List Outcome → World (Unit {0})
before outcomes = record {
  files = ("pc/a", "new") ∷ ("cloud/a", "old") ∷ ("cloud/b", "gone") ∷ [];
  staged = [];
  saved = [];
  stamped = false;
  outcomes = outcomes;
  hooks = tt;
}

-- The replacement meets a lock first, and the removal fails.
abbrev hindered : List Outcome
hindered = works ∷ works ∷ works ∷ works ∷ locked ∷ works ∷ raises ∷ []

execute-keeps_example :
    Kept
      (sided upload_and_remove)
      upload_and_remove.deletions
      (before hindered).files
      "cloud/a"
      (execute engine upload_and_remove false (before hindered)).1
execute-keeps_example =
    execute-keeps engine (λ x y e. e) upload_and_remove false (before hindered) "cloud/a"

abbrev slowed : List Outcome
slowed = works ∷ works ∷ works ∷ works ∷ locked ∷ works ∷ works ∷ []

abbrev slowed_run : World (Unit {0})
slowed_run = (execute engine upload_and_remove false (before slowed)).1

upload_and_remove-IsApart : IsApart (sided upload_and_remove) upload_and_remove.deletions
unfolding sided contains doomed ◌==◌
upload_and_remove-IsApart side a m =
    subst (λ x. contains (doomed upload_and_remove.deletions) x.1.dst ≡ false)
      (sym (Memᴰ.eq_of_singleton m)) refl

slowed_run-returns : execute engine upload_and_remove false (before slowed) ≡ (ok tt, slowed_run)
unfolding execute sided outcome content_of staged_content copy2 stage_verified stage_all
    back_up_content backup_file required back_up_copy back_up_copies back_up_deletions finalize
    replace_with_retry after_replace replace_staged replace_all remove_backed_up remove_all
    check_stage prepare commit apply_plan lookup insert erase ◌==◌
slowed_run-returns = refl

execute-delivers_example : Delivered upload_and_remove (before slowed).files slowed_run
unfolding sided contains destinations
execute-delivers_example =
    execute-delivers engine (λ x y e. e) upload_and_remove (refl, tt) upload_and_remove-IsApart
      (before slowed) slowed_run slowed_run-returns

slowed_run-content : lookup "cloud/a" slowed_run.files ≡ some "new"
unfolding execute sided outcome content_of staged_content copy2 stage_verified stage_all
    back_up_content backup_file required back_up_copy back_up_copies back_up_deletions finalize
    replace_with_retry after_replace replace_staged replace_all remove_backed_up remove_all
    check_stage prepare commit apply_plan lookup insert erase ◌==◌
slowed_run-content = refl
