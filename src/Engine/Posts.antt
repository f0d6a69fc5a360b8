-- ===== src/Engine/Posts.antt =====
-- Postconditions of the engine's steps, and what every step leaves alone.
use mathlib.Core.List.{Memᴰ}
use codex_sync.Base.{
  ◌≡◌, ℕ, zero, suc, String, ◌==◌, Bool, true, false, not, Option, none, some, List, [], ◌∷◌, Dict,
  lookup, erase, Result, ok, err, refl, if◌then◌else◌, Option-cases, inl, inr,
}
use codex_sync.Models.{CopyAction, DeleteAction, Side}
use codex_sync.Engine.State.{
  Outcome, works, raises, locked, writes, breaks, EngineError, os_error, fail_safe, World, M, pure,
  fail, after, Hook, call,
}
use codex_sync.Engine.{
  Engine, outcome, content_of, staged_content, put_staged, put_file, copied, attempt, unlinked,
  copy2, stage_verified, stage_all, replace_with_retry, after_replace, replace_staged, replace_all,
  remove_backed_up, remove_all,
}

module _ {ℓ} {J : Type ℓ} where
  -- What holds when a step has returned, and what when it has raised.
  abbrev pub Post {κ λ'} :
      {A : Type κ}
      → (A → World J → Type λ')
      → (World J → Type λ')
      → Result EngineError A × World J
      → Type λ'
  Post Q R (ok a, w) = Q a w
  Post Q R (err e, w) = R w

  pub Post-after {κ κ' λ'} :
      {A : Type κ} {B : Type κ'} {Q : A → World J → Type λ'} (Q' : B → World J → Type λ')
      (R : World J → Type λ') (f : A → M J B) (r : Result EngineError A × World J)
      → Post Q R r
      → ((a : A) (w : World J) → Q a w → Post Q' R (f a w))
      → Post Q' R (after f r)
  Post-after Q' R f (ok a, w) q next = next a w q
  Post-after Q' R f (err e, w) q next = q

  -- Forget what holds when a step raises.
  pub soften {κ} :
      {A : Type κ} (I : World J → Type 0) (r : Result EngineError A × World J)
      → Post (λ _. I) I r
      → Post (λ _. I) (λ _. Unit) r
  soften I (ok a, v) i = i
  soften I (err x, v) i = tt

-- A property of worlds that a hook does not end, whatever it answers.
abbrev pub IsCalm {ℓ λ'} : {J : Type ℓ} → (World J → Type λ') → Option (Hook J) → Type (ℓ ⊔ λ')
IsCalm {J} I hook =
    (w : World J) (h : Hook J) → hook ≡ some h → I w → I (record w { hooks = (h w.hooks).1 })

pub call-Keeps {ℓ λ'} :
    {J : Type ℓ} (I : World J → Type λ') (hook : Option (Hook J))
    → IsCalm I hook
    → (w : World J) → I w
    → Post (λ _. I) I (call hook w)
call-Keeps {J} I none calm w i = i
call-Keeps {J} I (some hook) calm w i = given (hook w.hooks) (calm w hook refl i)
  where
    given :
        (r : Result EngineError (Unit {0}) × J)
        → I (record w { hooks = r.1 })
        → Post {A = Unit {0}} (λ _. I) I (r.0, record w { hooks = r.1 })
    given (ok a, j) i = i
    given (err e, j) i = i

-- A property of worlds that neither the outcome of a call nor the check before a replacement ends.
pub record IsSteady {ℓ λ'} {J : Type ℓ} (engine : Engine J) (I : World J → Type λ')
    : Type (ℓ ⊔ λ') where
  pub at_outcomes : (w : World J) (os : List Outcome) → I w → I (record w { outcomes = os })
  pub at_check : IsCalm I engine.hooks.before_replace_check

module _ {ℓ λ'} {J : Type ℓ} (engine : Engine J) (I : World J → Type λ')
    (stays : IsSteady engine I) where
  open stays use {at_outcomes, at_check}

  abbrev pub Keeps {κ} : {A : Type κ} → Result EngineError A × World J → Type λ'
  Keeps r = Post (λ _. I) I r

  pub keep {κ κ'} :
      {A : Type κ} {B : Type κ'} (f : A → M J B) (r : Result EngineError A × World J)
      → Keeps r
      → ((a : A) (w : World J) → I w → Keeps (f a w))
      → Keeps (after f r)
  keep f r = Post-after (λ _. I) I f r

  pub outcome-Keeps : (w : World J) → I w → Keeps (outcome engine w)
  unfolding outcome
  outcome-Keeps w i = next w.outcomes
    where
      next :
          (os : List Outcome)
          → Keeps {A = Outcome}
              (elim os [ [] ↦ (ok works, w) | o ∷ rest ↦ (ok o, record w { outcomes = rest }) ])
      next [] = i
      next (o ∷ rest) = at_outcomes w rest i

  content_of-Keeps : (path : String) (w : World J) → I w → Keeps (content_of engine path w)
  unfolding content_of
  content_of-Keeps path w i = elim (Option-cases (lookup path w.files)) [
    | inl e ↦ rw (e, content_of) i
    | inr (c, e) ↦ rw (e, content_of) i
  ]

  pub check-Keeps : (w : World J) → I w → Keeps (call engine.hooks.before_replace_check w)
  check-Keeps = call-Keeps I engine.hooks.before_replace_check at_check

  staged_content-Keeps : (dst : String) (w : World J) → I w → Keeps (staged_content engine dst w)
  unfolding staged_content
  staged_content-Keeps dst w i = elim (Option-cases (lookup dst w.staged)) [
    | inl e ↦ rw (e, staged_content) i
    | inr (c, e) ↦ rw (e, staged_content) i
  ]

  copy2-Keeps :
      (put : String → World J → World J)
      → ((c : String) (w : World J) → I w → I (put c w))
      → (content : String) (w : World J) → I w
      → Keeps (copy2 engine put content w)
  unfolding copy2
  copy2-Keeps put kept content w i = keep (copied engine put content) _ (outcome-Keeps w i) done
    where
      done : (o : Outcome) (w : World J) → I w → Keeps (copied engine put content o w)
      done works w i = kept content w i
      done (writes x) w i = kept x w i
      done (breaks x) w i = kept x w i
      done raises w i = i
      done locked w i = i

  module _ (staging : (w : World J) (d : Dict String) → I w → I (record w { staged = d })) where
    stage_verified-Keeps :
        (src dst : String) (w : World J) → I w → Keeps (stage_verified engine src dst w)
    unfolding stage_verified
    stage_verified-Keeps src dst w i =
        keep _ (content_of engine src w) (content_of-Keeps src w i) λ before w1 i1.
          keep _ _ (copy2-Keeps (put_staged engine dst) (λ c v. staging v _) before w1 i1)
            λ _ w2 i2. keep _ _ (staged_content-Keeps dst w2 i2) λ staged w3 i3.
              keep _ _ (content_of-Keeps src w3 i3) λ after w4 i4.
                judge (engine.sha256 before == engine.sha256 staged)
                  (engine.sha256 before == engine.sha256 after) w4 i4
      where
        judge :
            (b c : Bool) (w : World J)
            → I w
            → Keeps {A = Unit {0}}
                ((if not b then fail fail_safe else if not c then fail fail_safe else pure tt) w)
        judge true true w i = i
        judge true false w i = i
        judge false c w i = i

    pub stage_all-Keeps :
        (actions : List (Side × CopyAction)) (w : World J)
        → I w
        → Keeps (stage_all engine actions w)
    unfolding stage_all
    stage_all-Keeps [] w i = i
    stage_all-Keeps ((side, action) ∷ rest) w i =
        keep _ _ (stage_verified-Keeps action.src action.dst w i)
          λ _ w' i'. stage_all-Keeps rest w' i'

  module _ (dst : String)
      (put : (c : String) (w : World J) → I w → I (put_file engine dst c w)) where
    attempt-Keeps :
        (content : String) (more : M J Bool)
        → ((w : World J) → I w → Keeps (more w))
        → (o : Outcome) (w : World J) → I w
        → Keeps (attempt engine dst content more o w)
    attempt-Keeps content more next works w i = put content w i
    attempt-Keeps content more next (writes x) w i = put content w i
    attempt-Keeps content more next locked w i = next w i
    attempt-Keeps content more next raises w i = i
    attempt-Keeps content more next (breaks x) w i = i

    pub replace_with_retry-Keeps :
        (n : ℕ) (content : String) (w : World J)
        → I w
        → Keeps (replace_with_retry engine n dst content w)
    unfolding replace_with_retry
    replace_with_retry-Keeps zero content w i =
        keep _ (outcome engine w) (outcome-Keeps w i) (attempt-Keeps content _ λ _ j. j)
    replace_with_retry-Keeps (suc n) content w i = keep _ (outcome engine w) (outcome-Keeps w i) (
        attempt-Keeps content _
          λ v j. keep _ _ (check-Keeps v j) λ _ u k. replace_with_retry-Keeps n content u k)

    pub after_replace-Keeps :
        (content : String) (b : Bool) (w : World J)
        → I w
        → Keeps (after_replace engine dst content b w)
    unfolding after_replace
    after_replace-Keeps content true w i = i
    after_replace-Keeps content false w i = strict engine.fail_on_unknown
      where
        strict :
            (b : Bool)
            → Keeps {A = Unit {0}}
                ((if b then fail os_error else copy2 engine (put_file engine dst) content) w)
        strict true = i
        strict false = copy2-Keeps _ put content w i

    replace_staged-Keeps : (w : World J) → I w → Keeps (replace_staged engine dst w)
    unfolding replace_staged
    replace_staged-Keeps w i = keep _ _ (staged_content-Keeps dst w i) λ staged w1 i1.
        keep _ _ (keep _ _ (replace_with_retry-Keeps 6 staged w1 i1) (after_replace-Keeps staged))
          λ _ w2 i2.
            keep _ _ (content_of-Keeps dst w2 i2)
              λ written w3 i3. judge (engine.sha256 written == engine.sha256 staged) w3 i3
      where
        judge :
            (b : Bool) (w : World J)
            → I w
            → Keeps {A = Unit {0}} ((if b then pure tt else fail fail_safe) w)
        judge true w i = i
        judge false w i = i

  unlinked-Keeps :
      (path : String)
      → ((w : World J) → I w → I (record w { files = erase path w.files }))
      → (o : Outcome) (w : World J) → I w
      → Keeps (unlinked engine path o w)
  unlinked-Keeps path gone works w i = gone w i
  unlinked-Keeps path gone (writes x) w i = gone w i
  unlinked-Keeps path gone (breaks x) w i = i
  unlinked-Keeps path gone raises w i = i
  unlinked-Keeps path gone locked w i = i

  pub remove_backed_up-Keeps :
      (path : String)
      → ((w : World J) → I w → I (record w { files = erase path w.files }))
      → (w : World J) → I w
      → Keeps (remove_backed_up engine path w)
  unfolding remove_backed_up
  remove_backed_up-Keeps path gone w i = elim (Option-cases (lookup path w.files)) [
    | inl e ↦ rw (e, remove_backed_up) i
    | inr (c, e) ↦
        rw (e, remove_backed_up) (keep _ _ (outcome-Keeps w i) (unlinked-Keeps path gone))
  ]

  pub replace_all-Keeps :
      (actions : List (Side × CopyAction))
      → ((side : Side) (a : CopyAction)
          → Memᴰ (side, a) actions
          → (c : String) (w : World J) → I w
          → I (put_file engine a.dst c w))
      → (w : World J) → I w
      → Keeps (replace_all engine actions w)
  unfolding replace_all
  replace_all-Keeps [] puts w i = i
  replace_all-Keeps ((side, action) ∷ rest) puts w i =
      keep _ _
        (keep _ _ (check-Keeps w i)
          λ _ w1 i1. replace_staged-Keeps action.dst (puts side action (Memᴰ.head refl)) w1 i1)
        λ _ w2 i2. replace_all-Keeps rest (λ s a m. puts s a (Memᴰ.tail m)) w2 i2

  pub remove_all-Keeps :
      (deletions : List DeleteAction)
      → ((d : DeleteAction)
          → Memᴰ d deletions
          → (w : World J) → I w
          → I (record w { files = erase d.path w.files }))
      → (w : World J) → I w
      → Keeps (remove_all engine deletions w)
  unfolding remove_all
  remove_all-Keeps [] gone w i = i
  remove_all-Keeps (d ∷ rest) gone w i =
      keep _ _
        (keep _ _ (check-Keeps w i)
          λ _ w1 i1. remove_backed_up-Keeps d.path (gone d (Memᴰ.head refl)) w1 i1)
        λ _ w2 i2. remove_all-Keeps rest (λ x m. gone x (Memᴰ.tail m)) w2 i2
