-- ===== src/Engine/Prepared.antt =====
-- What holds when `prepare` has returned.
use mathlib.Core.List.{Memᴰ}
use codex_sync.Base.{String, true, List, [], ◌∷◌, Dict, Result, ok, err, ◌≡◌, refl, subst, inl, inr}
use codex_sync.Models.{CopyAction, DeleteAction, Side}
use codex_sync.Engine.State.{
  Outcome, works, raises, locked, writes, breaks, EngineError, BackupEntry, World,
}
use codex_sync.Engine.{Engine, outcome, back_up_deletions, stamp, finalize, check_stage, prepare}
use codex_sync.Engine.Posts.{
  Post, Post-after, IsSteady, keep, outcome-Keeps, call-Keeps, stage_all-Keeps,
}
use codex_sync.Engine.Backups.{
  NoCollision, Grown, Grown-IsSteady, CopiesKept, DeletionsKept, Deletions, back_up_copies-Copies,
  back_up_deletions-Deletions, Saved-later,
}

module _ {ℓ} {J : Type ℓ} (engine : Engine J) (exact : NoCollision engine.sha256)
    (files : Dict String) where
  abbrev pub Same : World J → Type ℓ
  Same = Grown engine exact files []

  abbrev same_stays : IsSteady engine Same
  same_stays = Grown-IsSteady engine exact files []

  -- The backup set is whole, and so is its manifest.
  pub record Prepared (actions : List (Side × CopyAction)) (deletions : List DeleteAction)
      (w : World J) : Type ℓ where
    pub same : w.files ≡ files
    pub copies : CopiesKept engine exact files actions w
    pub gone : DeletionsKept engine exact files deletions w
    pub stamped : (e : BackupEntry) → Memᴰ e w.saved → w.stamped ≡ true

  module _ (actions : List (Side × CopyAction)) (deletions : List DeleteAction) where
    record Backed (saved : List BackupEntry) (w : World J) : Type ℓ where
      same : w.files ≡ files
      unchanged : w.saved ≡ saved
      copies : CopiesKept engine exact files actions w
      gone : DeletionsKept engine exact files deletions w

    Backed-IsSteady : (saved : List BackupEntry) → IsSteady engine (Backed saved)
    Backed-IsSteady saved = record {
      at_outcomes = λ w os g. record {
        same = g.same;
        unchanged = g.unchanged;
        copies = g.copies;
        gone = g.gone;
      };
      at_check = λ w h e g. record {
        same = g.same;
        unchanged = g.unchanged;
        copies = g.copies;
        gone = g.gone;
      };
    }

    -- An entry of the snapshot is not lost by more of them.
    grown : {w : World J} → w.files ≡ files → Same w
    grown {w} e = record { same = e; more = λ x m. elim m [ ] }

    stamp-Prepared :
        (saved : List BackupEntry) (o : Outcome) (w : World J)
        → Backed saved w
        → Post (λ _. Prepared actions deletions) Same (stamp engine o w)
    stamp-Prepared saved works w b = record {
      same = b.same;
      copies = b.copies;
      gone = b.gone;
      stamped = λ e m. refl;
    }
    stamp-Prepared saved (writes x) w b = record {
      same = b.same;
      copies = b.copies;
      gone = b.gone;
      stamped = λ e m. refl;
    }
    stamp-Prepared saved (breaks x) w b = grown b.same
    stamp-Prepared saved raises w b = grown b.same
    stamp-Prepared saved locked w b = grown b.same

    finalize-Prepared :
        (w : World J) (saved : List BackupEntry)
        → w.saved ≡ saved
        → Backed saved w
        → Post (λ _. Prepared actions deletions) Same (finalize engine w)
    unfolding finalize
    finalize-Prepared w [] e b =
        rw (e, finalize)
          (record {
            same = b.same;
            copies = b.copies;
            gone = b.gone;
            stamped = λ x m. elim (subst (Memᴰ x) e m) [ ];
          })
    finalize-Prepared w (x ∷ xs) e b =
        rw (e, finalize)
          (Post-after {Q = λ _. Backed (x ∷ xs)} (λ _. Prepared actions deletions) Same _ _
            (lost (outcome engine w)
              (outcome-Keeps engine (Backed (x ∷ xs)) (Backed-IsSteady (x ∷ xs)) w b))
            (stamp-Prepared (x ∷ xs)))
      where
        lost :
            (r : Result EngineError Outcome × World J)
            → Post (λ _. Backed (x ∷ xs)) (Backed (x ∷ xs)) r
            → Post (λ _. Backed (x ∷ xs)) Same r
        lost (ok o, v) k = k
        lost (err p, v) k = grown k.same

    check_stage-Keeps :
        (xs : List (Side × CopyAction)) (w : World J)
        → Same w
        → Post (λ _. Same) Same (check_stage engine xs w)
    unfolding check_stage
    check_stage-Keeps [] w i = i
    check_stage-Keeps (a ∷ xs) w i =
        call-Keeps Same engine.hooks.before_stage_check
          (λ v h e g. record { same = g.same; more = g.more }) w i

    -- `prepare` leaves the files alone, and returns with a whole backup set only.
    pub prepare-Prepared :
        (w : World J)
        → w.files ≡ files
        → Post (λ _. Prepared actions deletions) Same (prepare engine actions deletions w)
    unfolding prepare
    prepare-Prepared w e =
        Post-after
          {Q = λ _ v.
            Same v
            × CopiesKept engine exact files actions v
            × DeletionsKept engine exact files deletions v}
          (λ _. Prepared actions deletions) Same _ _
          (Post-after {Q = λ _ v. Same v × CopiesKept engine exact files actions v}
            (λ _ v.
              Same v
              × CopiesKept engine exact files actions v
              × DeletionsKept engine exact files deletions v)
            Same _ _
            (Post-after {Q = λ _. Same} (λ _ v. Same v × CopiesKept engine exact files actions v)
              Same _ _
              (keep engine Same same_stays _ _ (check_stage-Keeps actions w (grown e)) λ _ v i.
                stage_all-Keeps engine Same same_stays
                  (λ z d g. record { same = g.same; more = g.more }) actions v i)
              (λ _ v i. back_up_copies-Copies engine exact files [] actions v i))
            (λ _ v (i, k). also v k (back_up_deletions engine deletions v) (
              back_up_deletions-Deletions engine exact files v.saved deletions v
                (record { same = i.same; more = λ _ m. m }))))
          (λ _ v (i, k, d).
            finalize-Prepared v v.saved refl
              (record { same = i.same; unchanged = refl; copies = k; gone = d }))
      where
        also :
            (v : World J)
            → CopiesKept engine exact files actions v
            → (r : Result EngineError (Unit {0}) × World J)
            → Post
                (Deletions engine exact files v.saved deletions)
                (Grown engine exact files v.saved)
                r
            → Post
                (λ _ u.
                  Same u
                  × CopiesKept engine exact files actions u
                  × DeletionsKept engine exact files deletions u)
                Same
                r
        also v k (err x, u) g = grown g.same
        also v k (ok x, u) (g, d) = (grown g.same, later, d)
          where
            later : CopiesKept engine exact files actions u
            later side a m = elim (k side a m) [
              | inl h ↦ inl h
              | inr s ↦ inr (Saved-later engine exact files v.saved _ _ _ g s)
            ]
