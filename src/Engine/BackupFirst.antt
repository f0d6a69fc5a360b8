-- ===== src/Engine/BackupFirst.antt =====
-- No content is lost by a run of the engine, however it ends.
use mathlib.Core.List.{Memᴰ}
use codex_sync.Base.{
  String, Bool, true, false, not, Option, none, List, Dict, lookup, erase, lookup-insert,
  lookup-erase, contains, Result, ok, err, ◌≡◌, refl, sym, ap, ◌∙◌, subst, inl, inr, if◌then◌else◌,
  Bool-cases,
}
use codex_sync.Models.{CopyAction, DeleteAction, Side, SyncPlan}
use codex_sync.Engine.State.{EngineError, fail_safe, World, Hook, call}
use codex_sync.Engine.Unstaging.{Framed, unstage-Framed}
use codex_sync.Engine.{Engine, sided, put_file, prepare, commit, apply_plan, unstage, execute}
use codex_sync.Engine.Posts.{
  Post, Post-after, IsSteady, keep, call-Keeps, replace_all-Keeps, remove_all-Keeps,
}
use codex_sync.Engine.Backups.{NoCollision, Saved}
use codex_sync.Engine.Prepared.{Same, Prepared, prepare-Prepared}
use codex_sync.Engine.Targets.{
  Target, copied, deleted, destinations, doomed, contains-destinations, contains-doomed,
  Memᴰ-destinations, Memᴰ-doomed,
}

-- What may have become of a path: it is as it was, it was not there, or its content is in a snapshot
-- that has its manifest.
pub data Kept {ℓ} {J : Type ℓ} (actions : List (Side × CopyAction)) (deletions : List DeleteAction)
    (files : Dict String) (path : String) (w : World J) : Type ℓ where
  unchanged : lookup path w.files ≡ lookup path files → Kept actions deletions files path w
  fresh : lookup path files ≡ none → Kept actions deletions files path w
  saved :
      (relative_path : String) (side : Side)
      → Target actions deletions path relative_path side
      → Saved files w.saved path relative_path side
      → w.stamped ≡ true
      → Kept actions deletions files path w

module _ {ℓ} {J : Type ℓ} (engine : Engine J) (exact : NoCollision engine.sha256)
    (files : Dict String) where
  module _ (actions : List (Side × CopyAction)) (deletions : List DeleteAction)
      (path : String) where
    abbrev Safe : World J → Type ℓ
    Safe = Kept actions deletions files path

    -- The snapshot as `prepare` has left it, and the path as it was, if it is none of the targets.
    record Frozen (w0 w : World J) : Type ℓ where
      entries : w.saved ≡ w0.saved
      manifest : w.stamped ≡ w0.stamped
      spared :
          contains (destinations actions) path ≡ false
          → contains (doomed deletions) path ≡ false
          → lookup path w.files ≡ lookup path files

    Frozen-IsSteady : (w0 : World J) → IsSteady engine (Frozen w0)
    Frozen-IsSteady w0 = record {
      at_outcomes =
          λ w os f. record { entries = f.entries; manifest = f.manifest; spared = f.spared };
      at_check =
          λ w h e f. record { entries = f.entries; manifest = f.manifest; spared = f.spared };
    }

    Frozen-hooks : (w0 w : World J) (j : J) → Frozen w0 w → Frozen w0 (record w { hooks = j })
    Frozen-hooks w0 w j f = record { entries = f.entries; manifest = f.manifest; spared = f.spared }

    Frozen-put :
        (w0 : World J) (side : Side) (a : CopyAction)
        → Memᴰ (side, a) actions
        → (c : String) (w : World J) → Frozen w0 w
        → Frozen w0 (put_file engine a.dst c w)
    Frozen-put w0 side a m c w f = record {
      entries = f.entries;
      manifest = f.manifest;
      spared = λ h k.
          lookup-insert path a.dst c w.files
          ∙ rw (Memᴰ-destinations path side a actions m h) (f.spared h k);
    }

    Frozen-erase :
        (w0 : World J) (d : DeleteAction)
        → Memᴰ d deletions
        → (w : World J) → Frozen w0 w
        → Frozen w0 (record w { files = erase d.path w.files })
    Frozen-erase w0 d m w f = record {
      entries = f.entries;
      manifest = f.manifest;
      spared = λ h k.
          lookup-erase path d.path w.files ∙ rw (Memᴰ-doomed path d deletions m k) (f.spared h k);
    }

    Frozen-Safe :
        (w0 w : World J) → Prepared engine exact files actions deletions w0 → Frozen w0 w → Safe w
    Frozen-Safe w0 w p f = elim (Bool-cases (contains (destinations actions) path)) [
      | inl h ↦ at_copy (contains-destinations path actions h)
      | inr h ↦ elim (Bool-cases (contains (doomed deletions) path)) [
        | inl k ↦ at_deletion (contains-doomed path deletions k)
        | inr k ↦ unchanged (f.spared h k)
      ]
    ]
      where
        moved :
            {relative_path : String} {side : Side} {q : String}
            → path ≡ q
            → Target actions deletions path relative_path side
            → Saved files w0.saved q relative_path side
            → Safe w
        moved {relative_path} {side} e t (c, l, m) =
            saved relative_path side t
              (c, ap (λ x. lookup x files) e ∙ l, subst (Memᴰ _) (sym f.entries) m)
              (f.manifest ∙ p.stamped _ m)

        at_copy :
            ((side : Side) × (a : CopyAction) × Memᴰ (side, a) actions × (path ≡ a.dst)) → Safe w
        at_copy (side, a, m, e) = elim (p.copies side a m) [
          | inl l ↦ fresh (ap (λ x. lookup x files) e ∙ l)
          | inr s ↦ moved e (copied side a m e) s
        ]

        at_deletion : ((d : DeleteAction) × Memᴰ d deletions × (path ≡ d.path)) → Safe w
        at_deletion (d, m, e) = moved e (deleted d m e) (p.gone d m)

    commit-Frozen :
        (w0 w : World J)
        → Frozen w0 w
        → Post (λ _. Frozen w0) (Frozen w0) (commit engine actions deletions w)
    unfolding commit
    commit-Frozen w0 w f =
        keep engine (Frozen w0) (Frozen-IsSteady w0) _ _
          (keep engine (Frozen w0) (Frozen-IsSteady w0) _ _
            (replace_all-Keeps engine (Frozen w0) (Frozen-IsSteady w0) actions (Frozen-put w0) w f)
            (λ _ v g.
              remove_all-Keeps engine (Frozen w0) (Frozen-IsSteady w0) deletions (Frozen-erase w0) v
                g))
          (λ _ v g.
            call-Keeps (Frozen w0) engine.hooks.after_success
              (λ z h e f. Frozen-hooks w0 z (h z.hooks).1 f) v g)

    -- Behind a whole backup set.
    abbrev Behind : World J → Type ℓ
    Behind w = (w0 : World J) × Prepared engine exact files actions deletions w0 × Frozen w0 w

    Behind-Safe {κ} :
        {A : Type κ} (r : Result EngineError A × World J) (w0 : World J)
        → Prepared engine exact files actions deletions w0
        → Post (λ _. Frozen w0) (Frozen w0) r
        → Post (λ _. Behind) Safe r
    Behind-Safe (ok a, v) w0 p f = (w0, p, f)
    Behind-Safe (err e, v) w0 p f = Frozen-Safe w0 v p f

    called :
        (hook : Option (Hook J)) (w : World J) → Behind w → Post (λ _. Behind) Safe (call hook w)
    called hook w (w0, p, f) =
        Behind-Safe (call hook w) w0 p
          (call-Keeps (Frozen w0) hook (λ z h e f. Frozen-hooks w0 z (h z.hooks).1 f) w f)

    apply_plan-Safe :
        (w : World J)
        → w.files ≡ files
        → Post (λ _. Behind) Safe (apply_plan engine actions deletions w)
    unfolding apply_plan
    apply_plan-Safe w e =
        Post-after {Q = λ _. Behind} (λ _. Behind) Safe _ _
          (Post-after {Q = λ _. Behind} (λ _. Behind) Safe _ _
            (Post-after {Q = λ _. Behind} (λ _. Behind) Safe _ _
              (prepared (prepare engine actions deletions w)
                (prepare-Prepared engine exact files actions deletions w e))
              (λ _ v b. called engine.hooks.after_backup v b))
            (λ _ v b. called engine.hooks.pre_commit_check v b))
          (λ _ v (w0, p, f).
            Behind-Safe (commit engine actions deletions v) w0 p (commit-Frozen w0 v f))
      where
        prepared :
            (r : Result EngineError (Unit {0}) × World J)
            → Post (λ _. Prepared engine exact files actions deletions) (Same engine exact files) r
            → Post (λ _. Behind) Safe r
        prepared (ok a, v) p = (
          v,
          p,
          record { entries = refl; manifest = refl; spared = λ _ _. ap (lookup path) p.same },
        )
        prepared (err x, v) g = unchanged (ap (lookup path) g.same)

    apply_plan-Kept :
        (w : World J) → w.files ≡ files → Safe (apply_plan engine actions deletions w).1
    apply_plan-Kept w e = given (apply_plan engine actions deletions w) (apply_plan-Safe w e)
      where
        given : (r : Result EngineError (Unit {0}) × World J) → Post (λ _. Behind) Safe r → Safe r.1
        given (ok a, v) (w0, p, f) = Frozen-Safe w0 v p f
        given (err x, v) k = k

-- Whatever the operating system and the hooks do, and whether the run returns or raises: a path is as
-- it was, or it was not there, or it is the target of an action or a deletion of the plan and its
-- content from before the run is in the snapshot, under the relative path and the side of that action,
-- and the snapshot has its manifest. Digests are taken to tell contents apart.
pub execute-keeps {ℓ} :
    {J : Type ℓ} (engine : Engine J)
    → NoCollision engine.sha256
    → (plan : SyncPlan) (dry_run : Bool) (w : World J) (path : String)
    → Kept (sided plan) plan.deletions w.files path (execute engine plan dry_run w).1
unfolding execute
execute-keeps {J} engine exact plan true w path = unchanged refl
execute-keeps {J} engine exact plan false w path = judge engine.backup_before_overwrite
  where
    unstaged :
        (v u : World J)
        → Framed engine v u
        → Kept (sided plan) plan.deletions w.files path v
        → Kept (sided plan) plan.deletions w.files path u
    unstaged v u (s, os, e) k =
        subst (Kept (sided plan) plan.deletions w.files path) (sym e) (like k)
      where
        like :
            Kept (sided plan) plan.deletions w.files path v
            → Kept (sided plan) plan.deletions w.files path (record v { staged = s; outcomes = os })
        like (unchanged e) = unchanged e
        like (fresh e) = fresh e
        like (saved r s t c m) = saved r s t c m

    judge :
        (b : Bool)
        → Kept
            (sided plan)
            plan.deletions
            w.files
            path
            (if not b
              then (err fail_safe, w)
              else unstage engine (apply_plan engine (sided plan) plan.deletions w)).1
    judge false = unchanged refl
    judge true =
        unstaged _ _ (unstage-Framed engine (apply_plan engine (sided plan) plan.deletions w))
          (apply_plan-Kept engine exact w.files (sided plan) plan.deletions path w refl)
