-- ===== src/Engine/Targets.antt =====
-- The paths that a run may write or remove.
use mathlib.Core.List.{Memᴰ}
use codex_sync.Base.{
  String, ◌==◌, ==_iff, true, false, List, [], ◌∷◌, map, contains, ◌≡◌, refl, ap, inl, inr,
  Bool-cases, arith,
}
use codex_sync.Models.{CopyAction, DeleteAction, Side}

-- The paths that a run may write or remove, with what the snapshot calls them.
pub data Target (actions : List (Side × CopyAction)) (deletions : List DeleteAction) (path : String)
    : String → Side → Type 0 where
  copied :
      (side : Side) (a : CopyAction)
      → Memᴰ (side, a) actions
      → path ≡ a.dst
      → Target actions deletions path a.relative_path side
  deleted :
      (d : DeleteAction)
      → Memᴰ d deletions
      → path ≡ d.path
      → Target actions deletions path d.relative_path d.side

unfoldable pub destinations : List (Side × CopyAction) → List String
destinations = map λ (_, a). a.dst

unfoldable pub doomed : List DeleteAction → List String
doomed = map λ d. d.path

-- No destination twice.
abbrev pub IsDistinct : List (Side × CopyAction) → Type 0
IsDistinct [] = Unit
IsDistinct ((_, a) ∷ others) = (contains (destinations others) a.dst ≡ false) × IsDistinct others

-- No destination is a file to be deleted.
abbrev pub IsApart : List (Side × CopyAction) → List DeleteAction → Type 0
IsApart actions deletions =
    (side : Side) (a : CopyAction)
    → Memᴰ (side, a) actions
    → contains (doomed deletions) a.dst ≡ false

pub contains-destinations :
    (p : String) (actions : List (Side × CopyAction))
    → contains (destinations actions) p ≡ true
    → (side : Side) × (a : CopyAction) × Memᴰ (side, a) actions × (p ≡ a.dst)
unfolding contains destinations
contains-destinations p [] h = cc
contains-destinations p ((side, a) ∷ rest) h = elim (Bool-cases (p == a.dst)) [
  | inl e ↦ (side, a, Memᴰ.head refl, (==_iff p a.dst).0 e)
  | inr e ↦
      let (s, b, m, q) : (s : Side) × (b : CopyAction) × Memᴰ (s, b) rest × (p ≡ b.dst) =
        contains-destinations p rest (ground arith) in
      (s, b, Memᴰ.tail m, q)
]

pub contains-doomed :
    (p : String) (deletions : List DeleteAction)
    → contains (doomed deletions) p ≡ true
    → (d : DeleteAction) × Memᴰ d deletions × (p ≡ d.path)
unfolding contains doomed
contains-doomed p [] h = cc
contains-doomed p (d ∷ rest) h = elim (Bool-cases (p == d.path)) [
  | inl e ↦ (d, Memᴰ.head refl, (==_iff p d.path).0 e)
  | inr e ↦
      let (b, m, q) : (b : DeleteAction) × Memᴰ b rest × (p ≡ b.path) =
        contains-doomed p rest (ground arith) in
      (b, Memᴰ.tail m, q)
]

pub Memᴰ-destinations :
    (p : String) (side : Side) (a : CopyAction) (actions : List (Side × CopyAction))
    → Memᴰ (side, a) actions
    → contains (destinations actions) p ≡ false
    → (p == a.dst) ≡ false
unfolding contains destinations
Memᴰ-destinations p side a [] m h = elim m [ ]
Memᴰ-destinations p side a (x ∷ rest) (Memᴰ.head m) h =
    rw (ap (λ (y : Side × CopyAction). y.1.dst) m) (ground arith)
Memᴰ-destinations p side a (x ∷ rest) (Memᴰ.tail m) h =
    Memᴰ-destinations p side a rest m (ground arith)

pub Memᴰ-doomed :
    (p : String) (d : DeleteAction) (deletions : List DeleteAction)
    → Memᴰ d deletions
    → contains (doomed deletions) p ≡ false
    → (p == d.path) ≡ false
unfolding contains doomed
Memᴰ-doomed p d [] m h = elim m [ ]
Memᴰ-doomed p d (x ∷ rest) (Memᴰ.head m) h = rw m (ground arith)
Memᴰ-doomed p d (x ∷ rest) (Memᴰ.tail m) h = Memᴰ-doomed p d rest m (ground arith)
