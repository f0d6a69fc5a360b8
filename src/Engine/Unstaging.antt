-- ===== src/Engine/Unstaging.antt =====
-- Removing the stage files at the end of `execute` touches nothing but them.
use codex_sync.Base.{
  String, List, [], ◌∷◌, Dict, Result, ok, err, ◌≡◌, refl, sym, subst, Bool-cases, inl, inr,
}
use codex_sync.Engine.State.{Outcome, EngineError, World}
use codex_sync.Engine.{Engine, unlink_staged, is_unlinked, finish, unstage}
use codex_sync.Engine.Posts.{Post}

module _ {ℓ} {J : Type ℓ} (engine : Engine J) where
  -- A world with other stage files and other outcomes to come.
  abbrev pub Framed : World J → World J → Type ℓ
  Framed w v =
      (staged : Dict String) × (outcomes : List Outcome) × (v
        ≡ record w { staged = staged; outcomes = outcomes })

  unlink_staged-Framed :
      (files : Dict String) (w : World J) → Framed w (unlink_staged engine files w).1
  unfolding unlink_staged
  unlink_staged-Framed [] w = ([], w.outcomes, refl)
  unlink_staged-Framed (entry ∷ rest) w = next (λ v. unlink_staged-Framed rest v) w.outcomes refl
    where
      next :
          ((v : World J) → Framed v (unlink_staged engine rest v).1)
          → (os : List Outcome) → w.outcomes ≡ os
          → Framed w (unlink_staged engine (entry ∷ rest) w).1
      next others [] e = rw (e, unlink_staged) (others w)
      next others (o ∷ os) e = elim (Bool-cases (is_unlinked engine o)) [
        | inl h ↦ rw (e, h, unlink_staged) (others (record w { outcomes = os }))
        | inr h ↦ rw (e, h, unlink_staged) (entry ∷ rest, os, refl)
      ]

  finish-world :
      (r : Result EngineError (Unit {0})) (x : Result EngineError (Unit {0}) × World J)
      → (finish engine r x).1 ≡ x.1
  finish-world r (ok _, w) = refl
  finish-world r (err _, w) = refl

  pub unstage-Framed :
      (x : Result EngineError (Unit {0}) × World J) → Framed x.1 (unstage engine x).1
  unfolding unstage
  unstage-Framed (r, w) =
      subst (Framed w) (sym (finish-world r (unlink_staged engine w.staged w)))
        (unlink_staged-Framed w.staged w)

  -- When it returns no stage file is left.
  unlink_staged-tidy :
      (files : Dict String) (w : World J)
      → Post (λ _ v. v.staged ≡ []) (λ _. Unit) (unlink_staged engine files w)
  unfolding unlink_staged
  unlink_staged-tidy [] w = refl
  unlink_staged-tidy (entry ∷ rest) w = next (λ v. unlink_staged-tidy rest v) w.outcomes refl
    where
      next :
          ((v : World J) → Post (λ _ u. u.staged ≡ []) (λ _. Unit) (unlink_staged engine rest v))
          → (os : List Outcome) → w.outcomes ≡ os
          → Post (λ _ v. v.staged ≡ []) (λ _. Unit) (unlink_staged engine (entry ∷ rest) w)
      next others [] e = rw (e, unlink_staged) (others w)
      next others (o ∷ os) e = elim (Bool-cases (is_unlinked engine o)) [
        | inl h ↦ rw (e, h, unlink_staged) (others (record w { outcomes = os }))
        | inr h ↦ rw (e, h, unlink_staged) tt
      ]

  pub unstage-Post :
      (Q Q' E : World J → Type 0)
      → ((w v : World J) → Framed w v → v.staged ≡ [] → Q w → Q' v)
      → ((w v : World J) → Framed w v → E w → E v)
      → ((w v : World J) → Framed w v → Q w → E v)
      → (x : Result EngineError (Unit {0}) × World J) → Post (λ _. Q) E x
      → Post (λ _. Q') E (unstage engine x)
  unfolding unstage
  unstage-Post Q Q' E q e qe (r, w) h =
      go r (unlink_staged engine w.staged w) (unlink_staged-Framed w.staged w)
        (unlink_staged-tidy w.staged w) h
    where
      go :
          (r : Result EngineError (Unit {0})) (x : Result EngineError (Unit {0}) × World J)
          → Framed w x.1
          → Post (λ _ v. v.staged ≡ []) (λ _. Unit) x
          → Post (λ _. Q) E (r, w)
          → Post (λ _. Q') E (finish engine r x)
      go (ok _) (ok _, v) f t h = q w v f t h
      go (ok _) (err _, v) f t h = qe w v f h
      go (err _) (ok _, v) f t h = e w v f h
      go (err _) (err _, v) f t h = e w v f h
