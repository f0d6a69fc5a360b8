-- ===== src/Engine/Removal.antt =====
-- `remove_all`: what is to be deleted is gone.
use mathlib.Core.List.{Memᴰ}
use codex_sync.Base.{
  String, ==_refl, false, none, List, [], ◌∷◌, Dict, lookup, erase, lookup-erase, contains, Result,
  ok, err, ◌≡◌, refl, sym, ◌∙◌, subst, inl, inr, Option-cases, arith,
}
use codex_sync.Models.{DeleteAction}
use codex_sync.Engine.State.{
  Outcome, works, raises, locked, writes, breaks, EngineError, World, after, call,
}
use codex_sync.Engine.{Engine, outcome, unlinked, remove_backed_up, remove_all}
use codex_sync.Engine.Posts.{Post, Post-after, IsSteady, remove_all-Keeps}
use codex_sync.Engine.Targets.{doomed, Memᴰ-doomed}
use codex_sync.Engine.Posts.{soften}

module _ {ℓ} {J : Type ℓ} (engine : Engine J) where
  -- What the removals of a list of deletions do to the files.
  pub record Removed (deletions : List DeleteAction) (files : Dict String) (w : World J)
      : Type 0 where
    pub others :
        (p : String) → contains (doomed deletions) p ≡ false → lookup p w.files ≡ lookup p files
    pub each : (d : DeleteAction) → Memᴰ d deletions → lookup d.path w.files ≡ none

  -- A path that is gone, while others may go.
  abbrev Lacks : String → World J → Type 0
  Lacks path w = lookup path w.files ≡ none

  Lacks-erase :
      (path q : String) (w : World J)
      → Lacks path w
      → Lacks path (record w { files = erase q w.files })
  Lacks-erase path q w e = lookup-erase path q w.files ∙ ground arith

  unlinked-Lacks :
      (path : String) (o : Outcome) (w : World J)
      → Post (λ _. Lacks path) (λ _. Unit) (unlinked engine path o w)
  unlinked-Lacks path works w = lookup-erase path path w.files ∙ rw (==_refl path) refl
  unlinked-Lacks path (writes x) w = lookup-erase path path w.files ∙ rw (==_refl path) refl
  unlinked-Lacks path (breaks x) w = tt
  unlinked-Lacks path raises w = tt
  unlinked-Lacks path locked w = tt

  remove_backed_up-Lacks :
      (path : String) (w : World J)
      → Post (λ _. Lacks path) (λ _. Unit) (remove_backed_up engine path w)
  unfolding remove_backed_up
  remove_backed_up-Lacks path w = elim (Option-cases (lookup path w.files)) [
    | inl e ↦ rw (e, remove_backed_up) e
    | inr (c, e) ↦
        rw (e, remove_backed_up)
          (Post-after {Q = λ _ _. Unit {0}} (λ _. Lacks path) (λ _. Unit) _ _
            (any (outcome engine w)) λ o v _. unlinked-Lacks path o v)
  ]
    where
      any : (r : Result EngineError Outcome × World J) → Post (λ _ _. Unit {0}) (λ _. Unit {0}) r
      any (ok a, v) = tt
      any (err x, v) = tt

  remove_all-Lacks :
      (path : String) (deletions : List DeleteAction) (w : World J)
      → Lacks path w
      → Post (λ _. Lacks path) (λ _. Unit) (remove_all engine deletions w)
  remove_all-Lacks path deletions w e = soften (Lacks path) _ (
      remove_all-Keeps engine (Lacks path) steady deletions (λ d _ v. Lacks-erase path d.path v) w
        e)
    where
      steady : IsSteady engine (Lacks path)
      steady = record { at_outcomes = λ w os i. i; at_check = λ w h e i. i }

  remove_all-each :
      (deletions : List DeleteAction) (w : World J)
      → Post
          (λ _ v. (d : DeleteAction) → Memᴰ d deletions → Lacks d.path v)
          (λ _. Unit)
          (remove_all engine deletions w)
  unfolding remove_all
  remove_all-each [] w = λ d m. elim m [ ]
  remove_all-each (d ∷ rest) w =
      Post-after {Q = λ _. Lacks d.path} (λ _. All) (λ _. Unit) _ _
        (removed (call engine.hooks.before_replace_check w))
        λ _ v l. both _ (remove_all-Lacks d.path rest v l) (remove_all-each rest v)
    where
      All : World J → Type 0
      All v = (x : DeleteAction) → Memᴰ x (d ∷ rest) → Lacks x.path v

      removed :
          (r : Result EngineError (Unit {0}) × World J)
          → Post {A = Unit {0}}
              (λ _. Lacks d.path)
              (λ _. Unit)
              (after (λ _. remove_backed_up engine d.path) r)
      removed (ok a, v) = remove_backed_up-Lacks d.path v
      removed (err x, v) = tt

      both :
          (r : Result EngineError (Unit {0}) × World J)
          → Post (λ _. Lacks d.path) (λ _. Unit) r
          → Post (λ _ v. (x : DeleteAction) → Memᴰ x rest → Lacks x.path v) (λ _. Unit) r
          → Post (λ _. All) (λ _. Unit) r
      both (err x, v) l g = tt
      both (ok a, v) l g = all
        where
          all : All v
          all x (Memᴰ.tail m) = g x m
          all x (Memᴰ.head m) = subst (λ (y : DeleteAction). Lacks y.path v) (sym m) l

  pub remove_all-Removed :
      (deletions : List DeleteAction) (w : World J)
      → Post (λ _. Removed deletions w.files) (λ _. Unit) (remove_all engine deletions w)
  remove_all-Removed deletions w = both _ (remove_all-each deletions w) (
      soften Apart _ (
        remove_all-Keeps engine Apart
          (record { at_outcomes = λ v os i. i; at_check = λ v h e i. i }) deletions spare w
          (λ p h. refl)))
    where
      Apart : World J → Type 0
      Apart v =
          (p : String) → contains (doomed deletions) p ≡ false → lookup p v.files ≡ lookup p w.files

      spare :
          (d : DeleteAction)
          → Memᴰ d deletions
          → (v : World J) → Apart v
          → Apart (record v { files = erase d.path v.files })
      spare d m v a p h = lookup-erase p d.path v.files ∙ rw (Memᴰ-doomed p d deletions m h) (a p h)

      both :
          (r : Result EngineError (Unit {0}) × World J)
          → Post (λ _ v. (d : DeleteAction) → Memᴰ d deletions → Lacks d.path v) (λ _. Unit) r
          → Post (λ _. Apart) (λ _. Unit) r
          → Post (λ _. Removed deletions w.files) (λ _. Unit) r
      both (ok a, v) g o = record { others = o; each = g }
      both (err x, v) g o = tt
