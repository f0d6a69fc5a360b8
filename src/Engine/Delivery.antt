-- ===== src/Engine/Delivery.antt =====
-- What a run that returns has done to the files.
use mathlib.Core.List.{Memᴰ}
use codex_sync.Base.{
  String, Bool, true, false, not, Option, none, some, List, [], Dict, lookup, contains, Result, ok,
  err, ◌≡◌, refl, sym, ap, ◌∙◌, subst, if◌then◌else◌,
}
use codex_sync.Models.{CopyAction, DeleteAction, Side, SyncPlan}
use codex_sync.Engine.State.{EngineError, fail_safe, World, Hook, call}
use codex_sync.Engine.Unstaging.{unstage-Post}
use codex_sync.Engine.{Engine, sided, commit, apply_plan, unstage, execute}
use codex_sync.Engine.Posts.{Post, Post-after, call-Keeps, soften}
use codex_sync.Engine.Backups.{NoCollision}
use codex_sync.Engine.Targets.{IsApart, IsDistinct, destinations, doomed}
use codex_sync.Engine.Staging.{IsStaged, prepare-Staged}
use codex_sync.Engine.Landing.{Landed, replace_all-Landed}
use codex_sync.Engine.Removal.{Removed, remove_all-Removed}

-- The files after a run, by the files before.
pub record Delivered {ℓ} {J : Type ℓ} (plan : SyncPlan) (files : Dict String) (w : World J)
    : Type 0 where
  pub copies :
      (side : Side) (a : CopyAction)
      → Memᴰ (side, a) (sided plan)
      → (c : String) × (lookup a.src files ≡ some c) × (lookup a.dst w.files ≡ some c)
  pub deletions : (d : DeleteAction) → Memᴰ d plan.deletions → lookup d.path w.files ≡ none
  pub others :
      (p : String)
      → contains (destinations (sided plan)) p ≡ false
      → contains (doomed plan.deletions) p ≡ false
      → lookup p w.files ≡ lookup p files
  pub tidy : w.staged ≡ []

module _ {ℓ} {J : Type ℓ} (engine : Engine J) (exact : NoCollision engine.sha256) (plan : SyncPlan)
    (files : Dict String) where
  abbrev actions : List (Side × CopyAction)
  actions = sided plan

  -- All of it but the stage files.
  abbrev Done : World J → Type 0
  Done w = Delivered plan files (record w { staged = [] })

  -- The files as before, and the stage files as the sources.
  abbrev Ready : World J → Type 0
  Ready v =
      (v.files ≡ files)
      × ((side : Side) (a : CopyAction)
          → Memᴰ (side, a) actions
          → IsStaged engine exact files v.staged a)

  called :
      (hook : Option (Hook J)) (w : World J) → Ready w → Post (λ _. Ready) (λ _. Unit) (call hook w)
  called hook w r = soften Ready _ (call-Keeps Ready hook (λ v h e i. i) w r)

  done :
      (w v z : World J)
      → IsApart actions plan.deletions
      → Ready w
      → Landed engine exact actions w.staged w.files v
      → Removed engine plan.deletions v.files z
      → Done z
  done w v z apart (f, ready) l r = record {
    copies = λ side a m.
        let (c, s, t) : IsStaged engine exact files w.staged a = ready side a m in
        (c, s, r.others a.dst (apart side a m) ∙ l.each side a m c t);
    deletions = r.each;
    others = λ p h k. r.others p k ∙ l.others p h ∙ ap (lookup p) f;
    tidy = refl;
  }

  commit-Done :
      IsApart actions plan.deletions
      → (w : World J) → Ready w
      → Post (λ _. Done) (λ _. Unit) (commit engine actions plan.deletions w)
  unfolding commit
  commit-Done apart w r =
      Post-after {Q = λ _. Done} (λ _. Done) (λ _. Unit) _ _
        (Post-after {Q = λ _. Landed engine exact actions w.staged w.files} (λ _. Done) (λ _. Unit)
          _ _ (replace_all-Landed engine exact actions w.staged w.files w refl refl)
          λ _ v l. landed v l _ (remove_all-Removed engine plan.deletions v))
        λ _ v d. soften Done _ (
          call-Keeps Done engine.hooks.after_success
            (λ z h e i. record {
              copies = i.copies;
              deletions = i.deletions;
              others = i.others;
              tidy = refl;
            })
            v d)
    where
      landed :
          (v : World J)
          → Landed engine exact actions w.staged w.files v
          → (q : Result EngineError (Unit {0}) × World J)
          → Post (λ _. Removed engine plan.deletions v.files) (λ _. Unit) q
          → Post (λ _. Done) (λ _. Unit) q
      landed v l (ok a, z) g = done w v z apart r l g
      landed v l (err x, z) g = tt

  apply_plan-Done :
      IsDistinct actions
      → IsApart actions plan.deletions
      → (w : World J) → w.files ≡ files
      → Post (λ _. Done) (λ _. Unit) (apply_plan engine actions plan.deletions w)
  unfolding apply_plan
  apply_plan-Done u apart w e =
      Post-after {Q = λ _. Ready} (λ _. Done) (λ _. Unit) _ _
        (Post-after {Q = λ _. Ready} (λ _. Ready) (λ _. Unit) _ _
          (Post-after {Q = λ _. Ready} (λ _. Ready) (λ _. Unit) _ _
            (prepare-Staged engine exact files actions plan.deletions u w e)
            λ _ v r. called engine.hooks.after_backup v r)
          λ _ v r. called engine.hooks.pre_commit_check v r)
        λ _ v r. commit-Done apart v r

-- A run that returns, for a plan whose destinations are distinct and none of its files to be deleted: each
-- destination holds what its source held before the run, each file to be deleted is gone, every other
-- file is as before, and no stage file is left, even where calls of the operating system failed or wrote
-- something else meanwhile. Digests are taken to tell contents apart.
pub execute-delivers {ℓ} :
    {J : Type ℓ} (engine : Engine J)
    → NoCollision engine.sha256
    → (plan : SyncPlan) → IsDistinct (sided plan)
    → IsApart (sided plan) plan.deletions
    → (w v : World J) → execute engine plan false w ≡ (ok tt, v)
    → Delivered plan w.files v
unfolding execute
execute-delivers {J} engine exact plan distinct apart w v = judge engine.backup_before_overwrite
  where
    returned :
        (r : Result EngineError (Unit {0}) × World J)
        → r ≡ (ok tt, v)
        → Post (λ _. Delivered plan w.files) (λ _. Unit) r
        → Delivered plan w.files v
    returned r e =
        subst (λ x. Post (λ _. Delivered plan w.files) (λ _. Unit) x → Delivered plan w.files v)
          (sym e) (λ d. d)

    unstaged :
        (r : Result EngineError (Unit {0}) × World J)
        → Post (λ _. Done engine exact plan w.files) (λ _. Unit) r
        → Post (λ _. Delivered plan w.files) (λ _. Unit) (unstage engine r)
    unstaged =
        unstage-Post engine (Done engine exact plan w.files) (Delivered plan w.files) (λ _. Unit)
          (λ z u (s, os, e) t d. record {
            copies = λ side a m. let (c, from, to) = d.copies side a m in (c, from, rw e to);
            deletions = λ x m. rw e (d.deletions x m);
            others = λ p h k. rw e (d.others p h k);
            tidy = t;
          })
          (λ _ _ _ _. tt) (λ _ _ _ _. tt)

    judge :
        (b : Bool)
        → (if not b
            then (err fail_safe, w)
            else unstage engine (apply_plan engine (sided plan) plan.deletions w))
          ≡ (ok tt, v)
        → Delivered plan w.files v
    judge false e = cc
    judge true e =
        returned _ e (unstaged _ (apply_plan-Done engine exact plan w.files distinct apart w refl))
