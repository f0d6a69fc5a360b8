-- ===== src/Engine/Landing.antt =====
-- `replace_all`: the stage files take the places of the destinations.
use mathlib.Core.List.{Memᴰ}
use codex_sync.Base.{
  String, ◌==◌, ==_iff, true, false, some, List, [], ◌∷◌, Dict, lookup, lookup-insert, contains,
  Result, ok, err, ◌≡◌, refl, sym, ap, ◌∙◌, subst, ◌⊎◌, inl, inr, if◌then◌else◌, Bool-cases, arith,
}
use codex_sync.Models.{CopyAction, Side}
use codex_sync.Engine.State.{EngineError, fail_safe, World, pure, fail}
use codex_sync.Engine.{Engine, put_file, replace_staged, replace_all}
use codex_sync.Engine.Posts.{
  Post, Post-after, IsSteady, keep, check-Keeps, replace_with_retry-Keeps, after_replace-Keeps,
}
use codex_sync.Engine.Backups.{NoCollision}
use codex_sync.Engine.Targets.{destinations, contains-destinations}
use codex_sync.Engine.Staging.{content_of-some, staged_content-some}
use codex_sync.Engine.Posts.{soften}

module _ {ℓ} {J : Type ℓ} (engine : Engine J) (exact : NoCollision engine.sha256) where
  -- The stage files as they were, and so every file but one.
  record Apart (dst : String) (staged files : Dict String) (w : World J) : Type 0 where
    stage : w.staged ≡ staged
    others : (p : String) → (p == dst) ≡ false → lookup p w.files ≡ lookup p files

  Apart-IsSteady :
      (dst : String) (staged files : Dict String) → IsSteady engine (Apart dst staged files)
  Apart-IsSteady dst staged files = record {
    at_outcomes = λ w os a. record { stage = a.stage; others = a.others };
    at_check = λ w h e a. record { stage = a.stage; others = a.others };
  }

  abbrev Replaced : String → Dict String → Dict String → Unit {0} → World J → Type 0
  Replaced dst staged files _ v =
      Apart dst staged files v
      × ((c : String) → lookup dst staged ≡ some c → lookup dst v.files ≡ some c)

  replace_staged-Replaced :
      (dst : String) (staged files : Dict String) (w : World J)
      → Apart dst staged files w
      → Post (Replaced dst staged files) (λ _. Unit) (replace_staged engine dst w)
  unfolding replace_staged
  replace_staged-Replaced dst staged files w apart =
      Post-after
        {Q = λ c v. (lookup dst w.staged ≡ some c) × (v.files ≡ w.files) × (v.staged ≡ w.staged)}
        (Replaced dst staged files) (λ _. Unit) _ _ (staged_content-some engine exact files dst w)
        λ c w1 (l, f1, s1).
          Post-after {Q = λ _. Apart dst staged files} (Replaced dst staged files) (λ _. Unit) _ _
            (soften (Apart dst staged files) _ (
              keep engine (Apart dst staged files) (Apart-IsSteady dst staged files) _ _
                (replace_with_retry-Keeps engine (Apart dst staged files)
                  (Apart-IsSteady dst staged files) dst put 6 c w1 (like w w1 apart s1 f1))
                (after_replace-Keeps engine (Apart dst staged files)
                  (Apart-IsSteady dst staged files) dst put c)))
            λ _ w2 a2.
              Post-after
                {Q = λ x v.
                  (lookup dst w2.files ≡ some x) × (v.files ≡ w2.files) × (v.staged ≡ w2.staged)}
                (Replaced dst staged files) (λ _. Unit) _ _
                (content_of-some engine exact files dst w2)
                λ x w3 (m, f3, s3).
                  judge c x w3 (ap (lookup dst) (sym apart.stage) ∙ l) (ap (lookup dst) f3 ∙ m)
                    (like w2 w3 a2 s3 f3) (Bool-cases (engine.sha256 x == engine.sha256 c))
    where
      put :
          (c : String) (w : World J)
          → Apart dst staged files w
          → Apart dst staged files (put_file engine dst c w)
      put c w a = record {
        stage = a.stage;
        others = λ p h. lookup-insert p dst c w.files ∙ rw h (a.others p h);
      }

      like :
          (w v : World J)
          → Apart dst staged files w
          → v.staged ≡ w.staged
          → v.files ≡ w.files
          → Apart dst staged files v
      like w v a s f = record {
        stage = s ∙ a.stage;
        others = λ p h. ap (lookup p) f ∙ a.others p h;
      }

      judge :
          (c x : String) (v : World J)
          → lookup dst staged ≡ some c
          → lookup dst v.files ≡ some x
          → Apart dst staged files v
          → (((engine.sha256 x == engine.sha256 c) ≡ true)
              ⊎ ((engine.sha256 x == engine.sha256 c) ≡ false))
          → Post
              (Replaced dst staged files)
              (λ _. Unit)
              ((if engine.sha256 x == engine.sha256 c then pure tt else fail fail_safe) v)
      judge c x v l m a (inr h) = rw h tt
      judge c x v l m a (inl h) =
          rw h (a, λ d k. m ∙ ap some (exact x c ((==_iff _ _).0 h)) ∙ sym l ∙ k)

  -- What the replacements of a list of actions do to the files.
  pub record Landed (actions : List (Side × CopyAction)) (staged files : Dict String) (w : World J)
      : Type 0 where
    pub stage : w.staged ≡ staged
    pub others :
        (p : String) → contains (destinations actions) p ≡ false → lookup p w.files ≡ lookup p files
    pub each :
        (side : Side) (a : CopyAction)
        → Memᴰ (side, a) actions
        → (c : String) → lookup a.dst staged ≡ some c
        → lookup a.dst w.files ≡ some c

  pub replace_all-Landed :
      (actions : List (Side × CopyAction)) (staged files : Dict String) (w : World J)
      → w.staged ≡ staged
      → w.files ≡ files
      → Post (λ _. Landed actions staged files) (λ _. Unit) (replace_all engine actions w)
  unfolding replace_all contains destinations
  replace_all-Landed [] staged files w s f = record {
    stage = s;
    others = λ p h. ap (lookup p) f;
    each = λ side a m. elim m [ ];
  }
  replace_all-Landed ((side, a) ∷ rest) staged files w s f =
      Post-after {Q = Replaced a.dst staged files} (λ _. Landed ((side, a) ∷ rest) staged files)
        (λ _. Unit) _ _
        (Post-after {Q = λ _. Apart a.dst staged files} (Replaced a.dst staged files) (λ _. Unit) _
          _
          (soften (Apart a.dst staged files) _ (
            check-Keeps engine (Apart a.dst staged files) (Apart-IsSteady a.dst staged files) w
              (record { stage = s; others = λ p h. ap (lookup p) f })))
          λ _ v i. replace_staged-Replaced a.dst staged files v i)
        λ _ v (i, k). chain v i k _ (replace_all-Landed rest staged v.files v i.stage refl)
    where
      chain :
          (v : World J)
          → Apart a.dst staged files v
          → ((c : String) → lookup a.dst staged ≡ some c → lookup a.dst v.files ≡ some c)
          → (r : Result EngineError (Unit {0}) × World J)
          → Post (λ _. Landed rest staged v.files) (λ _. Unit) r
          → Post (λ _. Landed ((side, a) ∷ rest) staged files) (λ _. Unit) r
      chain v i k (err x, z) g = tt
      chain v i k (ok x, z) g = record {
        stage = g.stage;
        others = λ p h. g.others p (ground arith) ∙ i.others p (ground arith);
        each = each;
      }
        where
          here : (c : String) → lookup a.dst staged ≡ some c → lookup a.dst z.files ≡ some c
          here c l = elim (Bool-cases (contains (destinations rest) a.dst)) [
            | inr h ↦ g.others a.dst h ∙ k c l
            | inl h ↦
                let (s, b, m, e) : (s : Side) × (b : CopyAction) × Memᴰ (s, b) rest
                    × (a.dst ≡ b.dst) =
                  contains-destinations a.dst rest h in
                ap (λ q. lookup q z.files) e
                ∙ g.each s b m c (ap (λ q. lookup q staged) (sym e) ∙ l)
          ]

          each :
              (s : Side) (b : CopyAction)
              → Memᴰ (s, b) ((side, a) ∷ rest)
              → (c : String) → lookup b.dst staged ≡ some c
              → lookup b.dst z.files ≡ some c
          each s b (Memᴰ.tail m) = g.each s b m
          each s b (Memᴰ.head m) =
              subst
                (λ (y : Side × CopyAction).
                  (c : String) → lookup y.1.dst staged ≡ some c → lookup y.1.dst z.files ≡ some c)
                (sym m) here
