-- ===== src/Guardian/Predecessor.antt =====
-- Pruning keeps the newest snapshot before latest-good.
use mathlib.Core.List.{Memᴰ}
use codex_sync.Base.{
  ℕ, ◌<◌, ◌≤◌, ◌≡◌, refl, ap, ◌∙◌, String, ==_refl, Bool, true, false, ◌||◌, some, List, [], ◌∷◌,
  leb, ltb, All, All-map, keep_if, contains, contains-append, if◌then◌else◌, lookup, arith,
  Bool-cases, inl, inr, ok,
}
use codex_sync.Base.Int.{ℤ, pos_part}
use codex_sync.Guardian.{
  GuardianManifest, GuardianSnapshot, SnapshotDirectory, Store, snapshot_of,
  verify_guardian_snapshot, listed_manifest, collect, insert_newest, newest_first,
  resolve_or_restore_latest_good,
}
use codex_sync.Guardian.Retention.{decisions, first_id, protected_ids, prune_list, prune_snapshots}
use codex_sync.Guardian.Walks.{Memᴰ-collect, Memᴰ-newest_first}
use codex_sync.Guardian.Pruning.{prune-inversion, lookup-prune_store}
use codex_sync.Guardian.Pointer.{resolve-Resolved, Resolved-snapshots}

-- None is newer than one before it.
abbrev IsDescending : List GuardianManifest → Type 0
IsDescending [] = Unit
IsDescending (m ∷ ms) = All (λ n. n.generation ≤ m.generation) ms × IsDescending ms

All-insert_newest :
    (P : GuardianManifest → Type 0) (m : GuardianManifest) (ms : List GuardianManifest)
    → P m
    → All P ms
    → All P (insert_newest m ms)
unfolding insert_newest
All-insert_newest P m [] h hs = (h, tt)
All-insert_newest P m (x ∷ xs) h (hx, hs) =
    let rest = All-insert_newest P m xs h hs in
    elim (leb x.generation m.generation)
      as (λ b. All P (if b then m ∷ x ∷ xs else x ∷ insert_newest m xs)) [
        | true ↦ (h, (hx, hs))
        | false ↦ (hx, rest)
      ]

insert_newest-IsDescending :
    (m : GuardianManifest) (ms : List GuardianManifest)
    → IsDescending ms
    → IsDescending (insert_newest m ms)
unfolding insert_newest
insert_newest-IsDescending m [] h = (tt, tt)
insert_newest-IsDescending m (x ∷ xs) (top, h) =
    let rest = insert_newest-IsDescending m xs h in
    elim (Bool-cases (leb x.generation m.generation)) [
      | inl newer ↦
          let le : x.generation ≤ m.generation = ground arith in
          rw newer (
            (
              le,
              All-map {P = λ n. n.generation ≤ x.generation} {Q = λ n. n.generation ≤ m.generation}
                  (λ n b. omega arith) xs top,
            ),
            (top, h),
          )
      | inr older ↦
          rw older
            (All-insert_newest (λ n. n.generation ≤ x.generation) m xs (ground arith) top, rest)
    ]

newest_first-IsDescending : (ms : List GuardianManifest) → IsDescending (newest_first ms)
unfolding newest_first
newest_first-IsDescending [] = tt
newest_first-IsDescending (m ∷ ms) =
    insert_newest-IsDescending m (newest_first ms) (newest_first-IsDescending ms)

All-Memᴰ :
    (P : GuardianManifest → Type 0) (ms : List GuardianManifest) {m : GuardianManifest}
    → All P ms
    → Memᴰ m ms
    → P m
All-Memᴰ P [] h i = elim i [ ]
All-Memᴰ P (x ∷ xs) (h, hs) (Memᴰ.head e) = rw e h
All-Memᴰ P (x ∷ xs) (h, hs) (Memᴰ.tail i) = All-Memᴰ P xs hs i

-- The first entry below a generation is at least as new as any other below it.
first-newest :
    (g : ℕ) (ms : List GuardianManifest) {m : GuardianManifest}
    → IsDescending ms
    → Memᴰ m ms
    → m.generation < g
    → (n : GuardianManifest) × Memᴰ n ms
      × (n.generation < g)
      × (m.generation ≤ n.generation)
      × (first_id (keep_if (λ x. ltb x.generation g) ms) ≡ n.snapshot_id ∷ [])
unfolding keep_if
first-newest g [] d i below = elim i [ ]
first-newest g (x ∷ xs) {m} (top, d) i below = elim (Bool-cases (ltb x.generation g)) [
  | inl low ↦ (x, Memᴰ.head refl, ground arith, newest i, rw low refl)
  | inr high ↦
      let (n, j, lower, most, e) = first-newest g xs d (not_here high i) below in
      (n, Memᴰ.tail j, lower, most, rw high e)
]
  where
    newest : Memᴰ m (x ∷ xs) → m.generation ≤ x.generation
    newest (Memᴰ.head e) = rw e (omega arith)
    newest (Memᴰ.tail j) = All-Memᴰ (λ n. n.generation ≤ x.generation) xs top j

    not_here : ltb x.generation g ≡ false → Memᴰ m (x ∷ xs) → Memᴰ m xs
    not_here high (Memᴰ.head e) =
        let same : m.generation ≡ x.generation = ap (λ n. n.generation) e in absurd (ground arith)
    not_here high (Memᴰ.tail j) = j

single : (k : String) → contains (k ∷ []) k ≡ true
unfolding contains
single k = ground (arith, ==_refl k)

contains-predecessor :
    (latest : GuardianSnapshot) (entries : List GuardianManifest) (k : String)
    → first_id (keep_if (λ x. ltb x.generation latest.generation) entries) ≡ k ∷ []
    → contains (protected_ids (some latest) entries) k ≡ true
unfolding protected_ids
contains-predecessor latest entries k e =
    rw (contains-append (latest.snapshot_id ∷ decisions entries) _ k, e)
      (last (contains (latest.snapshot_id ∷ decisions entries) k))
  where
    last : (b : Bool) → (b || contains (k ∷ []) k) ≡ true
    last b = ground (arith, single k)

-- Where latest-good resolves, a pruning that returns keeps, of the verified snapshots older than it, one that is
-- at least as new as any given one.
pub prune-keeps_predecessor :
    (store : Store) (days count : ℤ) (now : ℕ) (deletable : String → Bool) (k : String)
    {directory : SnapshotDirectory} {m v : GuardianManifest} {r : Store × List String}
    {store₁ : Store} {latest : GuardianSnapshot}
    → lookup k store.snapshots ≡ some directory
    → listed_manifest k directory ≡ some m
    → verify_guardian_snapshot store (snapshot_of m) ≡ some v
    → resolve_or_restore_latest_good store ≡ some (store₁, some latest)
    → m.generation < latest.generation
    → prune_snapshots store days count now deletable ≡ ok r
    → (n : GuardianManifest) × Memᴰ n (prune_list store)
      × (n.generation < latest.generation)
      × (m.generation ≤ n.generation)
      × (lookup n.snapshot_id (r.0).snapshots ≡ lookup n.snapshot_id store.snapshots)
unfolding prune_list
prune-keeps_predecessor store days count now deletable k {directory} {m} {v} {r} {store₁} {latest}
      found listed verified res older h =
    let (store₂, latest₂, e, same) = prune-inversion store days count now deletable h in
    let b : some latest ≡ latest₂ = cc in
    let entries = newest_first (collect (verify_guardian_snapshot store) store.snapshots) in
    let i : Memᴰ m entries =
      Memᴰ-newest_first _
        (Memᴰ-collect (verify_guardian_snapshot store) store.snapshots k found listed verified) in
    let (n, j, lower, most, first) =
      first-newest latest.generation entries
        (newest_first-IsDescending (collect (verify_guardian_snapshot store) store.snapshots)) i
        older in
    let s : store₂.snapshots ≡ store.snapshots =
      (Resolved-snapshots (resolve-Resolved store e)).0 in
    (
      n,
      j,
      lower,
      most,
      rw (← same) (
          lookup-prune_store store₂ entries latest₂ (pos_part days) (pos_part count) now deletable
            n.snapshot_id (rw (← b) (contains-predecessor latest entries n.snapshot_id first))
          ∙ ap (lookup n.snapshot_id) s),
    )
