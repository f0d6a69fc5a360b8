-- ===== src/Engine/Staging.antt =====
-- What `prepare` leaves in the stage files.
use mathlib.Core.List.{Memᴰ}
use codex_sync.Base.{
  String, ◌==◌, ==_iff, ==_refl, Bool, true, false, not, Option, none, some, List, [], ◌∷◌, Dict,
  lookup, insert, lookup-insert, contains, Result, ok, err, ◌≡◌, refl, sym, ap, ◌∙◌, subst, ◌⊎◌,
  inl, inr, if◌then◌else◌, Bool-cases, Option-cases, arith,
}
use codex_sync.Models.{CopyAction, DeleteAction, Side}
use codex_sync.Engine.State.{
  Outcome, works, raises, locked, writes, breaks, EngineError, fail_safe, World, pure, fail, Hook,
  call,
}
use codex_sync.Engine.{
  Engine, content_of, staged_content, put_staged, copied, copy2, stage_verified, stage_all,
  check_stage, prepare,
}
use codex_sync.Engine.Posts.{Post, Post-after, soften}
use codex_sync.Engine.Backups.{NoCollision}
use codex_sync.Engine.Targets.{destinations, IsDistinct}
use codex_sync.Engine.Resting.{
  IsResting, outcome-Rests, back_up_copies-Rests, back_up_deletions-Rests, finalize-Rests,
}

module _ {ℓ} {J : Type ℓ} (engine : Engine J) (exact : NoCollision engine.sha256)
    (files : Dict String) where
  -- The files and the stage files, as they are in the phase of the backup.
  record Still (staged : Dict String) (w : World J) : Type 0 where
    same : w.files ≡ files
    stage : w.staged ≡ staged

  Still-IsResting : (staged : Dict String) → IsResting (Still staged)
  Still-IsResting staged = record {
    at_outcomes = λ w os s. record { same = s.same; stage = s.stage };
    at_saved = λ w es s. record { same = s.same; stage = s.stage };
    at_stamped = λ w s. record { same = s.same; stage = s.stage };
  }

  -- What a stage file holds is what its source held before the run.
  abbrev pub IsStaged : Dict String → CopyAction → Type 0
  IsStaged staged a = (c : String) × (lookup a.src files ≡ some c) × (lookup a.dst staged ≡ some c)

  pub record Staged (actions : List (Side × CopyAction)) (old : Dict String) (w : World J)
      : Type 0 where
    pub same : w.files ≡ files
    pub each : (side : Side) (a : CopyAction) → Memᴰ (side, a) actions → IsStaged w.staged a
    pub others :
        (p : String) → contains (destinations actions) p ≡ false → lookup p w.staged ≡ lookup p old

  pub content_of-some :
      (path : String) (w : World J)
      → Post
          (λ c v. (lookup path w.files ≡ some c) × (v.files ≡ w.files) × (v.staged ≡ w.staged))
          (λ _. Unit)
          (content_of engine path w)
  unfolding content_of
  content_of-some path w = elim (Option-cases (lookup path w.files)) [
    | inl e ↦ rw (e, content_of) tt
    | inr (c, e) ↦ rw (e, content_of) (refl, refl, refl)
  ]

  pub staged_content-some :
      (dst : String) (w : World J)
      → Post
          (λ c v. (lookup dst w.staged ≡ some c) × (v.files ≡ w.files) × (v.staged ≡ w.staged))
          (λ _. Unit)
          (staged_content engine dst w)
  unfolding staged_content
  staged_content-some dst w = elim (Option-cases (lookup dst w.staged)) [
    | inl e ↦ rw (e, staged_content) tt
    | inr (c, e) ↦ rw (e, staged_content) (refl, refl, refl)
  ]

  copied-written :
      (dst : String) (old : Dict String) (content : String) (o : Outcome) (w : World J)
      → w.files ≡ files
      → w.staged ≡ old
      → Post
          (λ _ v. (v.files ≡ files) × ((x : String) × (v.staged ≡ insert dst x old)))
          (λ _. Unit)
          (copied engine (put_staged engine dst) content o w)
  copied-written dst old content works w e h = (e, (content, ap (insert dst content) h))
  copied-written dst old content (writes x) w e h = (e, (x, ap (insert dst x) h))
  copied-written dst old content (breaks x) w e h = tt
  copied-written dst old content raises w e h = tt
  copied-written dst old content locked w e h = tt

  -- A stage file that passes is the source, and no other stage file is touched.
  abbrev Passed : String → String → Dict String → Unit {0} → World J → Type 0
  Passed src dst old _ w =
      (w.files ≡ files)
      × ((c : String) × (lookup src files ≡ some c) × (w.staged ≡ insert dst c old))

  stage_verified-Passed :
      (src dst : String) (w : World J)
      → w.files ≡ files
      → Post (Passed src dst w.staged) (λ _. Unit) (stage_verified engine src dst w)
  unfolding stage_verified copy2
  stage_verified-Passed src dst w e =
      Post-after
        {Q = λ c v. (lookup src w.files ≡ some c) × (v.files ≡ w.files) × (v.staged ≡ w.staged)}
        (Passed src dst w.staged) (λ _. Unit) _ _ (content_of-some src w)
        λ before w1 (b, e1, s1).
          Post-after
            {Q = λ _ v. (v.files ≡ files) × ((x : String) × (v.staged ≡ insert dst x w.staged))}
            (Passed src dst w.staged) (λ _. Unit) _ _
            (Post-after {Q = λ _. Still w.staged}
              (λ _ v. (v.files ≡ files) × ((x : String) × (v.staged ≡ insert dst x w.staged)))
              (λ _. Unit) _ _
              (soften (Still w.staged) _ (
                outcome-Rests engine (Still w.staged) (Still-IsResting w.staged) w1
                  (record { same = e1 ∙ e; stage = s1 })))
              (λ o v s. copied-written dst w.staged before o v s.same s.stage))
            λ _ w2 (e2, (x, s2)).
              Post-after
                {Q = λ c v.
                  (lookup dst w2.staged ≡ some c) × (v.files ≡ w2.files) × (v.staged ≡ w2.staged)}
                (Passed src dst w.staged) (λ _. Unit) _ _ (staged_content-some dst w2)
                λ staged w3 (s, e3, s3).
                  Post-after
                    {Q = λ c v.
                      (lookup src w3.files ≡ some c)
                      × (v.files ≡ w3.files)
                      × (v.staged ≡ w3.staged)}
                    (Passed src dst w.staged) (λ _. Unit) _ _ (content_of-some src w3)
                    λ after w4 (a, e4, s4).
                      judge before x staged w4 (ap (λ f. lookup src f) (sym e) ∙ b)
                        (got x staged w2.staged s2 s) (e4 ∙ e3 ∙ e2) (s4 ∙ s3 ∙ s2)
                        (Bool-cases (engine.sha256 before == engine.sha256 staged))
                        (engine.sha256 before == engine.sha256 after)
    where
      got :
          (x c : String) (d : Dict String)
          → d ≡ insert dst x w.staged
          → lookup dst d ≡ some c
          → x ≡ c
      got x c d h l =
          let m = sym (lookup-insert dst dst x w.staged) ∙ ap (lookup dst) (sym h) ∙ l in
          ground (arith, ==_refl dst, m)

      judge :
          (before x staged : String) (v : World J)
          → lookup src files ≡ some before
          → x ≡ staged
          → v.files ≡ files
          → v.staged ≡ insert dst x w.staged
          → (((engine.sha256 before == engine.sha256 staged) ≡ true)
              ⊎ ((engine.sha256 before == engine.sha256 staged) ≡ false))
          → (b : Bool)
          → Post
              (Passed src dst w.staged)
              (λ _. Unit)
              ((if not (engine.sha256 before == engine.sha256 staged)
                  then fail fail_safe
                  else if not b
                  then fail fail_safe
                  else pure tt)
                v)
      judge before x staged v l g f h (inl t) true = rw t (
        f,
        (
          before,
          l,
          h ∙ ap (λ c. insert dst c w.staged) (g ∙ sym (exact before staged ((==_iff _ _).0 t))),
        ),
      )
      judge before x staged v l g f h (inl t) false = rw t tt
      judge before x staged v l g f h (inr t) b = rw t tt

  stage_all-Staged :
      (actions : List (Side × CopyAction))
      → IsDistinct actions
      → (w : World J) → w.files ≡ files
      → Post (λ _. Staged actions w.staged) (λ _. Unit) (stage_all engine actions w)
  unfolding stage_all contains destinations
  stage_all-Staged [] u w e = record { same = e; each = λ s a m. elim m [ ]; others = λ p h. refl }
  stage_all-Staged ((side, a) ∷ rest) (fresh, u) w e =
      Post-after {Q = Passed a.src a.dst w.staged} (λ _. Staged ((side, a) ∷ rest) w.staged)
        (λ _. Unit) _ _ (stage_verified-Passed a.src a.dst w e)
        λ _ v (f, (c, l, h)). chain v c l h _ (stage_all-Staged rest u v f)
    where
      chain :
          (v : World J) (c : String)
          → lookup a.src files ≡ some c
          → v.staged ≡ insert a.dst c w.staged
          → (r : Result EngineError (Unit {0}) × World J)
          → Post (λ _. Staged rest v.staged) (λ _. Unit) r
          → Post (λ _. Staged ((side, a) ∷ rest) w.staged) (λ _. Unit) r
      chain v c l h (err x, z) g = tt
      chain v c l h (ok x, z) g = record { same = g.same; each = each; others = others }
        where
          at_dst : lookup a.dst z.staged ≡ some c
          at_dst =
              g.others a.dst fresh
              ∙ ap (lookup a.dst) h
              ∙ lookup-insert a.dst a.dst c w.staged
              ∙ rw (==_refl a.dst) refl

          each : (s : Side) (b : CopyAction) → Memᴰ (s, b) ((side, a) ∷ rest) → IsStaged z.staged b
          each s b (Memᴰ.tail m) = g.each s b m
          each s b (Memᴰ.head m) =
              subst (λ (y : Side × CopyAction). IsStaged z.staged y.1) (sym m) (c, l, at_dst)

          others :
              (p : String)
              → contains (destinations ((side, a) ∷ rest)) p ≡ false
              → lookup p z.staged ≡ lookup p w.staged
          others p k =
              g.others p (ground arith)
              ∙ ap (lookup p) h
              ∙ lookup-insert p a.dst c w.staged
              ∙ ground arith

  check_stage-Still :
      (actions : List (Side × CopyAction)) (w : World J)
      → w.files ≡ files
      → Post (λ _ v. v.files ≡ files) (λ _. Unit) (check_stage engine actions w)
  unfolding check_stage
  check_stage-Still [] w e = e
  check_stage-Still (x ∷ xs) w e = called engine.hooks.before_stage_check
    where
      told :
          (r : Result EngineError (Unit {0}) × J)
          → Post {A = Unit {0}} (λ _ v. v.files ≡ files) (λ _. Unit) (r.0, record w { hooks = r.1 })
      told (ok a, j) = e
      told (err a, j) = tt

      called : (h : Option (Hook J)) → Post (λ _ v. v.files ≡ files) (λ _. Unit) (call h w)
      called none = e
      called (some h) = told (h w.hooks)

  -- When `prepare` returns, each stage file holds the content of its source, and the files are as before.
  pub prepare-Staged :
      (actions : List (Side × CopyAction)) (deletions : List DeleteAction)
      → IsDistinct actions
      → (w : World J) → w.files ≡ files
      → Post
          (λ _ v.
            (v.files ≡ files)
            × ((side : Side) (a : CopyAction) → Memᴰ (side, a) actions → IsStaged v.staged a))
          (λ _. Unit)
          (prepare engine actions deletions w)
  unfolding prepare
  prepare-Staged actions deletions u w e =
      Post-after {Q = λ _. Good} (λ _. Good) (λ _. Unit) _ _
        (Post-after {Q = λ _. Good} (λ _. Good) (λ _. Unit) _ _
          (Post-after {Q = λ _. Good} (λ _. Good) (λ _. Unit) _ _
            (Post-after {Q = λ _ v. v.files ≡ files} (λ _. Good) (λ _. Unit) _ _
              (check_stage-Still actions w e)
              λ _ v f. good v.staged _ (stage_all-Staged actions u v f))
            λ _ v g. onward v g _ (
              soften (Still v.staged) _ (
                back_up_copies-Rests engine (Still v.staged) (Still-IsResting v.staged) actions v
                  (record { same = g.0; stage = refl }))))
          λ _ v g. onward v g _ (
            soften (Still v.staged) _ (
              back_up_deletions-Rests engine (Still v.staged) (Still-IsResting v.staged) deletions v
                (record { same = g.0; stage = refl }))))
        λ _ v g. onward v g _ (
          soften (Still v.staged) _ (
            finalize-Rests engine (Still v.staged) (Still-IsResting v.staged) v v.saved refl
              (record { same = g.0; stage = refl })))
    where
      Good : World J → Type 0
      Good v =
          (v.files ≡ files)
          × ((side : Side) (a : CopyAction) → Memᴰ (side, a) actions → IsStaged v.staged a)

      good :
          (old : Dict String) (r : Result EngineError (Unit {0}) × World J)
          → Post (λ _. Staged actions old) (λ _. Unit) r
          → Post (λ _. Good) (λ _. Unit) r
      good old (ok x, v) g = (g.same, g.each)
      good old (err x, v) g = tt

      onward :
          (v : World J)
          → Good v
          → (r : Result EngineError (Unit {0}) × World J) → Post (λ _. Still v.staged) (λ _. Unit) r
          → Post (λ _. Good) (λ _. Unit) r
      onward v g (ok x, z) s =
          (s.same, λ side a m. subst (λ d. IsStaged d a) (sym s.stage) (g.1 side a m))
      onward v g (err x, z) s = tt
