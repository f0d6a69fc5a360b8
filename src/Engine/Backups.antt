-- ===== src/Engine/Backups.antt =====
-- `prepare`: the files stay as they are, and each file that is to go or to change is saved.
use mathlib.Core.List.{Memᴰ}
use codex_sync.Base.{
  String, ◌==◌, ==_iff, Bool, true, false, none, some, List, [], ◌∷◌, ◌++◌, Dict, lookup, Result,
  ok, err, ◌≡◌, refl, sym, ap, subst, ◌∙◌, ◌⊎◌, inl, inr, if◌then◌else◌, Bool-cases, Option-cases,
}
use codex_sync.Models.{CopyAction, DeleteAction, Side}
use codex_sync.Engine.State.{
  Outcome, works, raises, locked, writes, breaks, EngineError, os_error, BackupEntry, World, pure,
  fail, ◌>>=◌, ◌>>◌,
}
use codex_sync.Engine.{
  Engine, add_entry, back_up_content, backup_file, required, back_up_copy, back_up_copies,
  back_up_deletions,
}
use codex_sync.Engine.Posts.{Post, Post-after, IsSteady, outcome-Keeps}

-- Contents of the same digest are the same.
abbrev pub NoCollision : (String → String) → Type 0
NoCollision sha256 = (x y : String) → sha256 x ≡ sha256 y → x ≡ y

abbrev pub entry : String → Side → String → BackupEntry
entry relative_path side c = record { relative_path = relative_path; side = side; content = c }

-- The content that was there under a path is saved.
abbrev pub Saved : Dict String → List BackupEntry → String → String → Side → Type 0
Saved files saved path relative_path side =
    (c : String) × (lookup path files ≡ some c) × Memᴰ (entry relative_path side c) saved

module _ {ℓ} {J : Type ℓ} (engine : Engine J) (exact : NoCollision engine.sha256)
    (files : Dict String) where
  -- The files are as they were, and no entry of `saved` is lost.
  pub record Grown (saved : List BackupEntry) (w : World J) : Type ℓ where
    pub same : w.files ≡ files
    pub more : (e : BackupEntry) → Memᴰ e saved → Memᴰ e w.saved

  pub Grown-IsSteady : (saved : List BackupEntry) → IsSteady engine (Grown saved)
  Grown-IsSteady saved = record {
    at_outcomes = λ w os g. record { same = g.same; more = g.more };
    at_check = λ w h e g. record { same = g.same; more = g.more };
  }

  Memᴰ-left : {e : BackupEntry} (xs ys : List BackupEntry) → Memᴰ e xs → Memᴰ e (xs ++ ys)
  Memᴰ-left [] ys m = elim m [ ]
  Memᴰ-left (x ∷ xs) ys (Memᴰ.head m) = Memᴰ.head m
  Memᴰ-left (x ∷ xs) ys (Memᴰ.tail m) = Memᴰ.tail (Memᴰ-left xs ys m)

  Memᴰ-last : (e : BackupEntry) (xs : List BackupEntry) → Memᴰ e (xs ++ (e ∷ []))
  Memᴰ-last e [] = Memᴰ.head refl
  Memᴰ-last e (x ∷ xs) = Memᴰ.tail (Memᴰ-last e xs)

  module _ (saved : List BackupEntry) where
    abbrev stays : IsSteady engine (Grown saved)
    stays = Grown-IsSteady saved

    -- What a backup that says it is done has done.
    abbrev Done : String → String → Side → Bool → World J → Type ℓ
    Done path relative_path side b w =
        Grown saved w × (b ≡ true → Saved files w.saved path relative_path side)

    back_up_content-Done :
        (path relative_path : String) (side : Side) (c : String)
        → lookup path files ≡ some c
        → (o : Outcome) (w : World J) → Grown saved w
        → Post
            (Done path relative_path side)
            (Grown saved)
            (back_up_content engine relative_path side c o w)
    unfolding back_up_content
    back_up_content-Done path relative_path side c e works w g = (
      record { same = g.same; more = λ x m. Memᴰ-left w.saved _ (g.more x m) },
      λ _. (c, e, Memᴰ-last _ w.saved),
    )
    back_up_content-Done path relative_path side c e (writes x) w g =
        judge (Bool-cases (engine.sha256 x == engine.sha256 c))
      where
        judge :
            (((engine.sha256 x == engine.sha256 c) ≡ true)
              ⊎ ((engine.sha256 x == engine.sha256 c) ≡ false))
            → Post (Done path relative_path side) (Grown saved) (
                (if engine.sha256 x == engine.sha256 c
                    then add_entry engine relative_path side x >> pure true
                    else fail os_error)
                  w)
        judge (inl h) =
            let x≡c : x ≡ c = exact x c ((==_iff _ _).0 h) in
            rw h (
              record { same = g.same; more = λ z m. Memᴰ-left w.saved _ (g.more z m) },
              λ _. (x, e ∙ ap some (sym x≡c), Memᴰ-last _ w.saved),
            )
        judge (inr h) = rw h g
    back_up_content-Done path relative_path side c e (breaks x) w g = g
    back_up_content-Done path relative_path side c e raises w g = g
    back_up_content-Done path relative_path side c e locked w g = g

    backup_file-Done :
        (path relative_path : String) (side : Side) (w : World J)
        → Grown saved w
        → Post
            (Done path relative_path side)
            (Grown saved)
            (backup_file engine path relative_path side w)
    unfolding backup_file
    backup_file-Done path relative_path side w g = elim (Option-cases (lookup path w.files)) [
      | inl e ↦ rw (e, backup_file) (g, λ h. cc)
      | inr (c, e) ↦
          rw (e, backup_file)
            (Post-after (Done path relative_path side) (Grown saved) _ _
              (outcome-Keeps engine (Grown saved) stays w g)
              (back_up_content-Done path relative_path side c (rw g.same at e)))
    ]

    -- A backup that is required, and done.
    abbrev Gone : String → String → Side → Unit {0} → World J → Type ℓ
    Gone path relative_path side _ w = Grown saved w × Saved files w.saved path relative_path side

    required-Gone :
        (path relative_path : String) (side : Side) (b : Bool) (w : World J)
        → Done path relative_path side b w
        → Post (Gone path relative_path side) (Grown saved) (required engine b w)
    unfolding required
    required-Gone path relative_path side true w (g, h) = (g, h refl)
    required-Gone path relative_path side false w (g, h) = g

    pub needed-Gone :
        (path relative_path : String) (side : Side) (w : World J)
        → Grown saved w
        → Post
            (Gone path relative_path side)
            (Grown saved)
            ((backup_file engine path relative_path side >>= required engine) w)
    needed-Gone path relative_path side w g =
        Post-after (Gone path relative_path side) (Grown saved) _ _
          (backup_file-Done path relative_path side w g) (required-Gone path relative_path side)

    -- The same for a destination, which need not be there.
    abbrev Kept : String → String → Side → Unit {0} → World J → Type ℓ
    Kept path relative_path side _ w =
        Grown saved w × ((lookup path files ≡ none) ⊎ Saved files w.saved path relative_path side)

    back_up_copy-Kept :
        (side : Side) (a : CopyAction) (w : World J)
        → Grown saved w
        → Post (Kept a.dst a.relative_path side) (Grown saved) (back_up_copy engine side a w)
    unfolding back_up_copy
    back_up_copy-Kept side a w g = elim (Option-cases (lookup a.dst w.files)) [
      | inl e ↦ rw (e, back_up_copy) (g, inl (rw g.same at e))
      | inr (c, e) ↦ rw (e, back_up_copy) (weaken _ (needed-Gone a.dst a.relative_path side w g))
    ]
      where
        weaken :
            (r : Result EngineError (Unit {0}) × World J)
            → Post (Gone a.dst a.relative_path side) (Grown saved) r
            → Post (Kept a.dst a.relative_path side) (Grown saved) r
        weaken (ok u, w) (g, s) = (g, inr s)
        weaken (err e, w) g = g

  -- What is saved stays saved.
  pub Saved-later :
      (saved : List BackupEntry) {w : World J} (path relative_path : String) (side : Side)
      → Grown saved w
      → Saved files saved path relative_path side
      → Saved files w.saved path relative_path side
  Saved-later saved path relative_path side g (c, e, m) = (c, e, g.more _ m)

  Grown-trans :
      (saved : List BackupEntry) (w w' : World J)
      → Grown saved w
      → Grown w.saved w'
      → Grown saved w'
  Grown-trans saved w w' g h = record { same = h.same; more = λ e m. h.more e (g.more e m) }

  abbrev pub CopiesKept : List (Side × CopyAction) → World J → Type 0
  CopiesKept actions w =
      (side : Side) (a : CopyAction)
      → Memᴰ (side, a) actions
      → (lookup a.dst files ≡ none) ⊎ Saved files w.saved a.dst a.relative_path side

  abbrev pub DeletionsKept : List DeleteAction → World J → Type 0
  DeletionsKept deletions w =
      (d : DeleteAction) → Memᴰ d deletions → Saved files w.saved d.path d.relative_path d.side

  abbrev pub Copies : List BackupEntry → List (Side × CopyAction) → Unit {0} → World J → Type ℓ
  Copies saved actions _ w = Grown saved w × CopiesKept actions w

  pub back_up_copies-Copies :
      (saved : List BackupEntry) (actions : List (Side × CopyAction)) (w : World J)
      → Grown saved w
      → Post (Copies saved actions) (Grown saved) (back_up_copies engine actions w)
  unfolding back_up_copies
  back_up_copies-Copies saved [] w g = (g, λ side a m. elim m [ ])
  back_up_copies-Copies saved ((side, action) ∷ rest) w g =
      Post-after {Q = Kept saved action.dst action.relative_path side}
        (Copies saved ((side, action) ∷ rest)) (Grown saved) _ _
        (back_up_copy-Kept saved side action w g)
        λ u w1 (g1, k1).
          chain w1 g1 k1 _
            (back_up_copies-Copies w1.saved rest w1 (record { same = g1.same; more = λ e m. m }))
    where
      chain :
          (w1 : World J)
          → Grown saved w1
          → ((lookup action.dst files ≡ none)
              ⊎ Saved files w1.saved action.dst action.relative_path side)
          → (r : Result EngineError (Unit {0}) × World J)
          → Post (Copies w1.saved rest) (Grown w1.saved) r
          → Post (Copies saved ((side, action) ∷ rest)) (Grown saved) r
      chain w1 g1 k1 (err e, w2) g2 = Grown-trans saved w1 w2 g1 g2
      chain w1 g1 k1 (ok u, w2) (g2, ks) = (Grown-trans saved w1 w2 g1 g2, all)
        where
          all : CopiesKept ((side, action) ∷ rest) w2
          all s a (Memᴰ.tail m) = ks s a m
          all s a (Memᴰ.head m) = first (sym m)
            where
              first :
                  ◌≡◌ {A = Side × CopyAction} (side, action) (s, a)
                  → (lookup a.dst files ≡ none) ⊎ Saved files w2.saved a.dst a.relative_path s
              first e =
                  subst
                    (λ (p : Side × CopyAction).
                      (lookup p.1.dst files ≡ none)
                      ⊎ Saved files w2.saved p.1.dst p.1.relative_path p.0)
                    e (elim k1 [ inl h ↦ inl h | inr s ↦ inr (Saved-later w1.saved _ _ _ g2 s) ])

  abbrev pub Deletions : List BackupEntry → List DeleteAction → Unit {0} → World J → Type ℓ
  Deletions saved deletions _ w = Grown saved w × DeletionsKept deletions w

  pub back_up_deletions-Deletions :
      (saved : List BackupEntry) (deletions : List DeleteAction) (w : World J)
      → Grown saved w
      → Post (Deletions saved deletions) (Grown saved) (back_up_deletions engine deletions w)
  unfolding back_up_deletions
  back_up_deletions-Deletions saved [] w g = (g, λ d m. elim m [ ])
  back_up_deletions-Deletions saved (d ∷ rest) w g =
      Post-after {Q = Gone saved d.path d.relative_path d.side} (Deletions saved (d ∷ rest))
        (Grown saved) _ _ (needed-Gone saved d.path d.relative_path d.side w g)
        λ u w1 (g1, k1). chain w1 g1 k1 _ (
          back_up_deletions-Deletions w1.saved rest w1 (record { same = g1.same; more = λ e m. m }))
    where
      chain :
          (w1 : World J)
          → Grown saved w1
          → Saved files w1.saved d.path d.relative_path d.side
          → (r : Result EngineError (Unit {0}) × World J)
          → Post (Deletions w1.saved rest) (Grown w1.saved) r
          → Post (Deletions saved (d ∷ rest)) (Grown saved) r
      chain w1 g1 k1 (err e, w2) g2 = Grown-trans saved w1 w2 g1 g2
      chain w1 g1 k1 (ok u, w2) (g2, ks) = (Grown-trans saved w1 w2 g1 g2, all)
        where
          all : DeletionsKept (d ∷ rest) w2
          all x (Memᴰ.tail m) = ks x m
          all x (Memᴰ.head m) =
              subst (λ (y : DeleteAction). Saved files w2.saved y.path y.relative_path y.side)
                (sym m) (Saved-later w1.saved _ _ _ g2 k1)
