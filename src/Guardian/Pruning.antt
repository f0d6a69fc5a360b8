-- ===== src/Guardian/Pruning.antt =====
-- What `prune_snapshots` never removes.
use codex_sync.Base.{
  ℕ, suc, ◌≡◌, refl, sym, ap, subst, ◌∙◌, String, ◌==◌, ==_iff, ==_refl, Bool, true, not, ◌&&◌,
  ◌||◌, Option, none, some, List, [], ◌∷◌, contains, contains-append, keep_if, ltb, if◌then◌else◌,
  Dict, lookup, erase, lookup-erase, arith, Bool-cases, Option-cases, inl, inr, Result, ok, err,
}
use mathlib.Core.List.{Memᴰ}
use codex_sync.Base.Int.{ℤ, pos_part}
use codex_sync.Guardian.{
  GuardianManifest, GuardianSnapshot, SnapshotDirectory, LatestGoodPointer, Store, snapshot_of,
  verify_guardian_snapshot, verify_candidate, candidate_found, snapshot_from_pointer, pointed,
  is_committed, listed_manifest, collect, newest_first, resolve_or_restore_latest_good,
}
use codex_sync.Guardian.Retention.{
  PruneError, negative_retention, integrity, is_decision, decisions, protected_ids, first_id,
  Pruning, is_prunable, is_link, leads_out, delivered, prune_entries, prune_list, prune_store,
  is_negative, prune_snapshots,
}
use codex_sync.Guardian.Walks.{
  Memᴰ-collect, contains-decisions, contains-baselines, Memᴰ-newest_first,
}
use codex_sync.Guardian.Pointer.{IsInside, resolve-Resolved, Resolved-pointed, Resolved-snapshots}

-- The loop leaves a protected directory alone.
lookup-prune_entries :
    (p : Pruning) (index : ℕ) (ms : List GuardianManifest) (snapshots : Dict SnapshotDirectory)
    (k : String)
    → contains p.protected k ≡ true
    → lookup k (prune_entries p index ms snapshots).0 ≡ lookup k snapshots
unfolding prune_entries is_prunable
lookup-prune_entries p index [] snapshots k kept = refl
lookup-prune_entries p index (m ∷ ms) snapshots k kept =
    let found = lookup m.snapshot_id snapshots in
    let gone = is_prunable p index m && (not (is_link found) && p.deletable m.snapshot_id) in
    let later =
      lookup-prune_entries p (suc index) ms
        (if gone then erase m.snapshot_id snapshots else snapshots) k kept
      ∙ ground (arith, lookup-erase k m.snapshot_id snapshots, ==_iff k m.snapshot_id) in
    elim (Bool-cases (is_prunable p index m && leads_out found)) [
      | inl out ↦ rw (out, prune_entries) refl
      | inr on ↦ rw (on, prune_entries) later
    ]

verify_candidate-agree :
    (store : Store) (d : Dict SnapshotDirectory) (s : GuardianSnapshot)
    → lookup s.snapshot_id d ≡ lookup s.snapshot_id store.snapshots
    → verify_candidate (record store { snapshots = d }) s ≡ verify_candidate store s
unfolding verify_candidate
verify_candidate-agree store d s e = ap (candidate_found store.machine s) e

snapshot_from_pointer-agree :
    (store : Store) (d : Dict SnapshotDirectory) (p : LatestGoodPointer)
    → lookup p.snapshot_id d ≡ lookup p.snapshot_id store.snapshots
    → snapshot_from_pointer (record store { snapshots = d }) p ≡ snapshot_from_pointer store p
unfolding snapshot_from_pointer
snapshot_from_pointer-agree store d p e =
    rw
      (
        verify_candidate-agree store d
            (record { snapshot_id = p.snapshot_id; generation = p.generation }) e,
        e,
      )
      refl

snapshot_from_pointer-id :
    (store : Store) (p : LatestGoodPointer) {s : GuardianSnapshot}
    → snapshot_from_pointer store p ≡ some s
    → p.snapshot_id ≡ s.snapshot_id
unfolding snapshot_from_pointer
snapshot_from_pointer-id store p h = ground arith

pointed-agree :
    (store : Store) (d : Dict SnapshotDirectory) {s : GuardianSnapshot}
    → lookup s.snapshot_id d ≡ lookup s.snapshot_id store.snapshots
    → pointed store ≡ some s
    → pointed (record store { snapshots = d }) ≡ some s
unfolding pointed
pointed-agree store d {s} e h = go store.pointer e h
  where
    go :
        (o : Option LatestGoodPointer)
        → lookup s.snapshot_id d ≡ lookup s.snapshot_id store.snapshots
        → elim o [
          | none ↦ none
          | some p ↦ if p.machine_id == store.machine then snapshot_from_pointer store p else none
        ]
          ≡ some s
        → elim o [
          | none ↦ none
          | some p ↦
              if p.machine_id == store.machine
              then snapshot_from_pointer (record store { snapshots = d }) p
              else none
        ]
          ≡ some s
    go none e h = cc
    go (some p) e h =
        let own : (p.machine_id == store.machine) ≡ true = ground arith in
        let from : snapshot_from_pointer store p ≡ some s = ground arith in
        rw own (
          snapshot_from_pointer-agree store d p (
            subst (λ k. lookup k d ≡ lookup k store.snapshots)
              (sym (snapshot_from_pointer-id store p from)) e)
          ∙ from)

contains-latest :
    (latest : GuardianSnapshot) (entries : List GuardianManifest)
    → contains (protected_ids (some latest) entries) latest.snapshot_id ≡ true
unfolding protected_ids contains
contains-latest latest entries = ground (arith, ==_refl latest.snapshot_id)

contains-protected :
    (latest : Option GuardianSnapshot) (entries : List GuardianManifest) (k : String)
    → contains (decisions entries) k ≡ true
    → contains (protected_ids latest entries) k ≡ true
unfolding protected_ids contains
contains-protected none entries k h = h
contains-protected (some latest) entries k h = ground (
  arith,
  contains-append (decisions entries)
      (first_id (keep_if (λ m. ltb m.generation latest.generation) entries)) k,
)

-- What `prune_snapshots` is made of.
pub prune-inversion :
    (store : Store) (days count : ℤ) (now : ℕ) (deletable : String → Bool) {r : Store × List String}
    → prune_snapshots store days count now deletable ≡ ok r
    → (store₁ : Store) × (latest : Option GuardianSnapshot) × (resolve_or_restore_latest_good store
        ≡ some (store₁, latest))
      × ((prune_store store₁
            (prune_list store)
            latest
            (pos_part days)
            (pos_part count)
            now
            deletable).0
          ≡ r.0)
unfolding prune_snapshots
prune-inversion store days count now deletable {r} h =
    elim (Bool-cases (is_negative days || is_negative count)) [
      | inl bad ↦ absurd (refused negative_retention (rw (bad, prune_snapshots) at h))
      | inr fine ↦ elim (Option-cases (resolve_or_restore_latest_good store)) [
        | inl e ↦ absurd (refused integrity (rw (fine, e, prune_snapshots) at h))
        | inr ((store₁, latest), e) ↦
            (store₁, latest, e, done _ (rw (fine, e, prune_snapshots) at h))
      ]
    ]
  where
    refused :
        (problem : PruneError)
        → ◌≡◌ {A = Result PruneError (Store × List String)} (err problem) (ok r)
        → ⊥
    refused problem e = cc

    done : (x : Store × Result PruneError (List String)) → delivered x ≡ ok r → x.0 ≡ r.0
    done (after, err e) h' = cc
    done (after, ok removed) h' = cc

pub lookup-prune_store :
    (store : Store) (entries : List GuardianManifest) (latest : Option GuardianSnapshot)
    (days count now : ℕ) (deletable : String → Bool) (k : String)
    → contains (protected_ids latest entries) k ≡ true
    → lookup k ((prune_store store entries latest days count now deletable).0).snapshots
      ≡ lookup k store.snapshots
unfolding prune_store
lookup-prune_store store entries latest days count now deletable k kept =
    lookup-prune_entries _ 0 entries store.snapshots k kept

-- A pruning that returns never changes what latest-good resolves to: the snapshot that it names before is there,
-- verified, afterwards, where no entry of the folder is a link out of it.
pub prune-keeps_latest :
    (store : Store) (days count : ℤ) (now : ℕ) (deletable : String → Bool) {r : Store × List String}
    {store₁ : Store} {latest : GuardianSnapshot}
    → IsInside store
    → resolve_or_restore_latest_good store ≡ some (store₁, some latest)
    → prune_snapshots store days count now deletable ≡ ok r
    → pointed (r.0) ≡ some latest
unfolding prune_store
prune-keeps_latest store days count now deletable {r} {store₁} {latest} within res h =
    let (store₂, found, e, same) = prune-inversion store days count now deletable h in
    let a : store₁ ≡ store₂ = cc in
    let b : some latest ≡ found = cc in
    rw (← same, ← a, ← b)
      (pointed-agree store₁ _
        (lookup-prune_store store₁ (prune_list store) (some latest) (pos_part days) (pos_part count)
          now deletable latest.snapshot_id (contains-latest latest (prune_list store)))
        (Resolved-pointed within (resolve-Resolved store res)).0)

listed_manifest-name :
    (k : String) (directory : SnapshotDirectory) {m : GuardianManifest}
    → listed_manifest k directory ≡ some m
    → m.snapshot_id ≡ k
unfolding listed_manifest
listed_manifest-name k directory h = go directory.manifest h
  where
    go :
        (o : Option GuardianManifest) {m : GuardianManifest}
        → (if not (is_committed directory)
            then none
            else elim o [ none ↦ none | some n ↦ if n.snapshot_id == k then some n else none ])
          ≡ some m
        → m.snapshot_id ≡ k
    go none h = ground arith
    go (some n) {m} h = ground (arith, ==_iff n.snapshot_id k)

-- A pruning that returns keeps a verified snapshot that a person accepted, and the baseline it overrode, however
-- old they are and however many snapshots there are.
pub prune-keeps_decisions :
    (store : Store) (days count : ℤ) (now : ℕ) (deletable : String → Bool) (k b : String)
    {directory : SnapshotDirectory} {m v : GuardianManifest} {r : Store × List String}
    → lookup k store.snapshots ≡ some directory
    → listed_manifest k directory ≡ some m
    → verify_guardian_snapshot store (snapshot_of m) ≡ some v
    → is_decision m ≡ true
    → m.previous_good_snapshot_id ≡ some b
    → prune_snapshots store days count now deletable ≡ ok r
    → (lookup k (r.0).snapshots ≡ lookup k store.snapshots)
      × (lookup b (r.0).snapshots ≡ lookup b store.snapshots)
unfolding prune_list
prune-keeps_decisions store days count now deletable k b {directory} {m} {v} {r} found listed
      verified accepted base h =
    let (store₁, latest, e, same) = prune-inversion store days count now deletable h in
    let entries = newest_first (collect (verify_guardian_snapshot store) store.snapshots) in
    let i : Memᴰ m entries =
      Memᴰ-newest_first _
        (Memᴰ-collect (verify_guardian_snapshot store) store.snapshots k found listed verified) in
    let s : store₁.snapshots ≡ store.snapshots =
      (Resolved-snapshots (resolve-Resolved store e)).0 in
    let safe : (j : String)
        → contains (decisions entries) j ≡ true
        → lookup j (r.0).snapshots ≡ lookup j store.snapshots =
      λ j d. rw (← same) (
        lookup-prune_store store₁ entries latest (pos_part days) (pos_part count) now deletable j
          (contains-protected latest entries j d)
        ∙ ap (lookup j) s) in
    (
      safe k
          (rw (← listed_manifest-name k directory listed) (contains-decisions entries i accepted)),
      safe b (contains-baselines entries i accepted base),
    )
