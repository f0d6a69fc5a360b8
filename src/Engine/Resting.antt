-- ===== src/Engine/Resting.antt =====
-- What the phase before the commit keeps.
use codex_sync.Base.{
  String, ◌==◌, Bool, true, false, List, [], ◌∷◌, Dict, lookup, Result, ok, ◌≡◌, refl, inl, inr,
  is_some, Bool-cases, Option-cases,
}
use codex_sync.Models.{CopyAction, DeleteAction, Side}
use codex_sync.Engine.State.{
  Outcome, works, raises, locked, writes, breaks, EngineError, BackupEntry, World, M, after,
}
use codex_sync.Engine.{
  Engine, outcome, back_up_content, backup_file, required, back_up_copy, back_up_copies,
  back_up_deletions, stamp, finalize, check_stage, prepare,
}
use codex_sync.Engine.Posts.{Post, Post-after, IsSteady, IsCalm, call-Keeps, stage_all-Keeps}

-- A property of worlds that the phase of the backup does not end.
pub record IsResting {ℓ λ'} {J : Type ℓ} (I : World J → Type λ') : Type (ℓ ⊔ λ') where
  pub at_outcomes : (w : World J) (os : List Outcome) → I w → I (record w { outcomes = os })
  pub at_saved : (w : World J) (es : List BackupEntry) → I w → I (record w { saved = es })
  pub at_stamped : (w : World J) → I w → I (record w { stamped = true })

module _ {ℓ λ'} {J : Type ℓ} (engine : Engine J) (I : World J → Type λ') (rests : IsResting I) where
  open rests use {at_outcomes, at_saved, at_stamped}

  abbrev Rests {κ} : {A : Type κ} → Result EngineError A × World J → Type λ'
  Rests r = Post (λ _. I) I r

  pub rest {κ κ'} :
      {A : Type κ} {B : Type κ'} (f : A → M J B) (r : Result EngineError A × World J)
      → Rests r
      → ((a : A) (w : World J) → I w → Rests (f a w))
      → Rests (after f r)
  rest f r = Post-after (λ _. I) I f r

  pub outcome-Rests : (w : World J) → I w → Rests (outcome engine w)
  unfolding outcome
  outcome-Rests w s = next w.outcomes
    where
      next :
          (os : List Outcome)
          → Rests {A = Outcome}
              (elim os [ [] ↦ (ok works, w) | o ∷ os' ↦ (ok o, record w { outcomes = os' }) ])
      next [] = s
      next (o ∷ os') = at_outcomes w os' s

  back_up_content-Rests :
      (relative_path : String) (side : Side) (c : String) (o : Outcome) (w : World J)
      → I w
      → Rests (back_up_content engine relative_path side c o w)
  unfolding back_up_content
  back_up_content-Rests relative_path side c works w s = at_saved w _ s
  back_up_content-Rests relative_path side c (writes x) w s =
      elim (Bool-cases (engine.sha256 x == engine.sha256 c)) [
        | inl e ↦ rw (e, back_up_content) (at_saved w _ s)
        | inr e ↦ rw (e, back_up_content) s
      ]
  back_up_content-Rests relative_path side c (breaks x) w s = s
  back_up_content-Rests relative_path side c raises w s = s
  back_up_content-Rests relative_path side c locked w s = s

  backup_file-Rests :
      (path relative_path : String) (side : Side) (w : World J)
      → I w
      → Rests (backup_file engine path relative_path side w)
  unfolding backup_file
  backup_file-Rests path relative_path side w s = elim (Option-cases (lookup path w.files)) [
    | inl e ↦ rw (e, backup_file) s
    | inr (c, e) ↦
        rw (e, backup_file)
          (rest _ _ (outcome-Rests w s) (back_up_content-Rests relative_path side c))
  ]

  required-Rests : (b : Bool) (w : World J) → I w → Rests (required engine b w)
  unfolding required
  required-Rests true w s = s
  required-Rests false w s = s

  back_up_copy-Rests :
      (side : Side) (a : CopyAction) (w : World J) → I w → Rests (back_up_copy engine side a w)
  unfolding back_up_copy
  back_up_copy-Rests side a w s = elim (Bool-cases (is_some (lookup a.dst w.files))) [
    | inl e ↦
        rw (e, back_up_copy)
          (rest _ _ (backup_file-Rests a.dst a.relative_path side w s) required-Rests)
    | inr e ↦ rw (e, back_up_copy) s
  ]

  pub back_up_copies-Rests :
      (actions : List (Side × CopyAction)) (w : World J)
      → I w
      → Rests (back_up_copies engine actions w)
  unfolding back_up_copies
  back_up_copies-Rests [] w s = s
  back_up_copies-Rests ((side, a) ∷ others) w s =
      rest _ _ (back_up_copy-Rests side a w s) λ _ v i. back_up_copies-Rests others v i

  pub back_up_deletions-Rests :
      (deletions : List DeleteAction) (w : World J)
      → I w
      → Rests (back_up_deletions engine deletions w)
  unfolding back_up_deletions
  back_up_deletions-Rests [] w s = s
  back_up_deletions-Rests (d ∷ others) w s =
      rest _ _ (rest _ _ (backup_file-Rests d.path d.relative_path d.side w s) required-Rests)
        λ _ v i. back_up_deletions-Rests others v i

  stamp-Rests : (o : Outcome) (w : World J) → I w → Rests (stamp engine o w)
  stamp-Rests works w s = at_stamped w s
  stamp-Rests (writes x) w s = at_stamped w s
  stamp-Rests (breaks x) w s = s
  stamp-Rests raises w s = s
  stamp-Rests locked w s = s

  pub finalize-Rests :
      (w : World J) (saved : List BackupEntry) → w.saved ≡ saved → I w → Rests (finalize engine w)
  unfolding finalize
  finalize-Rests w [] e s = rw (e, finalize) s
  finalize-Rests w (x ∷ xs) e s = rw (e, finalize) (rest _ _ (outcome-Rests w s) stamp-Rests)

  -- So does the whole of `prepare`.
  pub prepare-Rests :
      IsSteady engine I
      → ((w : World J) (d : Dict String) → I w → I (record w { staged = d }))
      → IsCalm I engine.hooks.before_stage_check
      → (actions : List (Side × CopyAction)) (deletions : List DeleteAction) (w : World J) → I w
      → Rests (prepare engine actions deletions w)
  unfolding prepare check_stage
  prepare-Rests steady staging calm actions deletions w i =
      rest _ _
        (rest _ _
          (rest _ _
            (rest _ _ (checked actions)
              λ _ v j. stage_all-Keeps engine I steady staging actions v j)
            λ _ v j. back_up_copies-Rests actions v j)
          λ _ v j. back_up_deletions-Rests deletions v j)
        λ _ v j. finalize-Rests v v.saved refl j
    where
      checked : (xs : List (Side × CopyAction)) → Rests (check_stage engine xs w)
      checked [] = i
      checked (x ∷ xs) = call-Keeps I engine.hooks.before_stage_check calm w i
