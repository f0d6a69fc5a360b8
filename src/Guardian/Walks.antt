-- ===== src/Guardian/Walks.antt =====
-- The walks over the snapshots folder: which entries they find, and in which order.
use codex_sync.Base.{
  ◌≡◌, refl, ◌∙◌, String, ◌==◌, ==_iff, ==_refl, true, false, Option, none, some, List, [], ◌∷◌,
  leb, contains, if◌then◌else◌, Dict, lookup, arith, Bool-cases, Option-cases, inl, inr,
}
use mathlib.Core.List.{Memᴰ}
use codex_sync.Guardian.{
  GuardianManifest, GuardianSnapshot, SnapshotDirectory, snapshot_of, listed_manifest,
  keep_verified, collect, insert_newest, newest_first,
}
use codex_sync.Guardian.Retention.{is_decision, decisions}

-- Where the entries of a walk come from.
module _ (verify : GuardianSnapshot → Option GuardianManifest) where
  Memᴰ-keep_verified :
      (o : Option GuardianManifest) {m : GuardianManifest} {others : List GuardianManifest}
      → Memᴰ m others
      → Memᴰ m (keep_verified verify o others)
  unfolding keep_verified
  Memᴰ-keep_verified none i = i
  Memᴰ-keep_verified (some n) {m} {others} i =
      elim (verify (snapshot_of n))
        as (λ o. Memᴰ m (elim o [ none ↦ others | some _ ↦ n ∷ others ])) [
          | none ↦ i
          | some _ ↦ Memᴰ.tail i
        ]

  keep_verified-new :
      (others : List GuardianManifest) {m v : GuardianManifest}
      → verify (snapshot_of m) ≡ some v
      → Memᴰ m (keep_verified verify (some m) others)
  unfolding keep_verified
  keep_verified-new others e = rw (e, keep_verified) (Memᴰ.head refl)

  listed-name :
      (k name : String) (entry directory : SnapshotDirectory)
      → k ≡ name
      → entry ≡ directory
      → listed_manifest name entry ≡ listed_manifest k directory
  listed-name k name entry directory a b = rw (a, b) refl

  pub Memᴰ-collect :
      (d : Dict SnapshotDirectory) (k : String) {directory : SnapshotDirectory}
      {m v : GuardianManifest}
      → lookup k d ≡ some directory
      → listed_manifest k directory ≡ some m
      → verify (snapshot_of m) ≡ some v
      → Memᴰ m (collect verify d)
  unfolding lookup collect
  Memᴰ-collect [] k h l e = cc
  Memᴰ-collect ((name, entry) ∷ rest) k {directory} {m} h l e = elim (Bool-cases (k == name)) [
    | inl same ↦
        let l' : listed_manifest name entry ≡ some m =
          listed-name k name entry directory ((==_iff k name).0 same) (ground arith) ∙ l in
        rw l' (keep_verified-new _ e)
    | inr differ ↦
        Memᴰ-keep_verified (listed_manifest name entry) (Memᴰ-collect rest k (ground arith) l e)
  ]

pub contains-decisions :
    (ms : List GuardianManifest) {m : GuardianManifest}
    → Memᴰ m ms
    → is_decision m ≡ true
    → contains (decisions ms) m.snapshot_id ≡ true
unfolding decisions contains
contains-decisions [] i accepted = elim i [ ]
contains-decisions (n ∷ ns) {m} (Memᴰ.head same) accepted =
    let accepted' : is_decision n ≡ true = rw (← same) accepted in
    let id : (m.snapshot_id == n.snapshot_id) ≡ true = rw same (==_refl n.snapshot_id) in
    elim (Option-cases n.previous_good_snapshot_id) [
      | inl e ↦ rw (accepted', e, id) refl
      | inr (b, e) ↦ rw (accepted', e, id) refl
    ]
contains-decisions (n ∷ ns) (Memᴰ.tail i) accepted =
    ground (arith, contains-decisions ns i accepted)

pub contains-baselines :
    (ms : List GuardianManifest) {m : GuardianManifest} {b : String}
    → Memᴰ m ms
    → is_decision m ≡ true
    → m.previous_good_snapshot_id ≡ some b
    → contains (decisions ms) b ≡ true
unfolding decisions contains
contains-baselines [] i accepted e = elim i [ ]
contains-baselines (n ∷ ns) {m} {b} (Memᴰ.head same) accepted e =
    let accepted' : is_decision n ≡ true = rw (← same) accepted in
    let e' : n.previous_good_snapshot_id ≡ some b = rw (← same) e in
    rw (accepted', e') (ground (arith, ==_refl b))
contains-baselines (n ∷ ns) (Memᴰ.tail i) accepted e =
    ground (arith, contains-baselines ns i accepted e)

Memᴰ-insert_newest :
    (n : GuardianManifest) (ms : List GuardianManifest) {m : GuardianManifest}
    → Memᴰ m (n ∷ ms)
    → Memᴰ m (insert_newest n ms)
unfolding insert_newest
Memᴰ-insert_newest n [] i = i
Memᴰ-insert_newest n (x ∷ xs) {m} i =
    elim (leb x.generation n.generation)
      as (λ b. Memᴰ m (if b then n ∷ x ∷ xs else x ∷ insert_newest n xs)) [
        | true ↦ i
        | false ↦ later i (λ j. Memᴰ-insert_newest n xs j)
      ]
  where
    later :
        Memᴰ m (n ∷ x ∷ xs)
        → (Memᴰ m (n ∷ xs) → Memᴰ m (insert_newest n xs))
        → Memᴰ m (x ∷ insert_newest n xs)
    later (Memᴰ.head e) below = Memᴰ.tail (below (Memᴰ.head e))
    later (Memᴰ.tail (Memᴰ.head e)) below = Memᴰ.head e
    later (Memᴰ.tail (Memᴰ.tail j)) below = Memᴰ.tail (below (Memᴰ.tail j))

pub Memᴰ-newest_first :
    (ms : List GuardianManifest) {m : GuardianManifest} → Memᴰ m ms → Memᴰ m (newest_first ms)
unfolding newest_first
Memᴰ-newest_first [] i = i
Memᴰ-newest_first (n ∷ ns) (Memᴰ.head e) = Memᴰ-insert_newest n (newest_first ns) (Memᴰ.head e)
Memᴰ-newest_first (n ∷ ns) (Memᴰ.tail i) =
    Memᴰ-insert_newest n (newest_first ns) (Memᴰ.tail (Memᴰ-newest_first ns i))
