-- ===== src/Guardian/Pointer.antt =====
-- What latest-good resolves to, and how a publication moves it.
use codex_sync.Base.{
  ◌≡◌, refl, subst, String, ==_refl, true, Option, none, some, lookup, arith, Option-cases, inl,
  inr,
}
use codex_sync.Guardian.{
  GuardianManifest, GuardianSnapshot, SnapshotDirectory, LatestGoodPointer, Store, verify_found,
  candidate_found, matches_manifest, verify_candidate, inside, snapshot_from_pointer, write_pointer,
  pointed, scan_latest_committed, resolve_or_restore_latest_good,
}

-- No entry of the folder is a link out of it.
abbrev pub IsInside : Store → Type 0
IsInside store = (k : String) → inside (lookup k store.snapshots) ≡ true

abbrev pub pointer_to : Store → GuardianSnapshot → String → LatestGoodPointer
pointer_to store snapshot sha256 = record {
  machine_id = store.machine;
  snapshot_id = snapshot.snapshot_id;
  generation = snapshot.generation;
  sha256 = sha256;
}

-- A verified manifest is the one of the snapshot's directory, and names its generation.
verify_found-generation :
    (machine : String) (s : GuardianSnapshot) (found : Option SnapshotDirectory)
    {m : GuardianManifest}
    → verify_found machine s found ≡ some m
    → s.generation ≡ m.generation
unfolding verify_found matches_manifest
verify_found-generation machine s none h = cc
verify_found-generation machine s (some directory) h = ground arith

candidate_found-verified :
    (machine : String) (s : GuardianSnapshot) (found : Option SnapshotDirectory)
    {m : GuardianManifest}
    → candidate_found machine s found ≡ some m
    → verify_found machine s found ≡ some m
unfolding candidate_found
candidate_found-verified machine s found h = ground arith

pub verify_candidate-generation :
    (store : Store) (s : GuardianSnapshot) {m : GuardianManifest}
    → verify_candidate store s ≡ some m
    → s.generation ≡ m.generation
unfolding verify_candidate
verify_candidate-generation store s h =
    verify_found-generation store.machine s _ (candidate_found-verified store.machine s _ h)

-- Verification does not look at the pointer.
verify_candidate-pointer :
    (store : Store) (s : GuardianSnapshot) (p : Option LatestGoodPointer)
    → verify_candidate (record store { pointer = p }) s ≡ verify_candidate store s
unfolding verify_candidate
verify_candidate-pointer store s p = refl

write_pointer-inversion :
    (store : Store) (s : GuardianSnapshot) {store' : Store}
    → write_pointer store s ≡ some store'
    → (m : GuardianManifest) × (verify_candidate store s ≡ some m)
      × (store' ≡ record store { pointer = some (pointer_to store s m.sha256) })
unfolding write_pointer
write_pointer-inversion store s {store'} h = elim (Option-cases (verify_candidate store s)) [
  | inl e ↦ absurd (lost (rw (e, write_pointer) at h))
  | inr (m, e) ↦ (m, e, same m (rw (e, write_pointer) at h))
]
  where
    lost : ◌≡◌ {A = Option Store} none (some store') → ⊥
    lost e = cc

    same :
        (m : GuardianManifest)
        → ◌≡◌ {A = Option Store}
            (some (record store { pointer = some (pointer_to store s m.sha256) }))
            (some store')
        → store' ≡ record store { pointer = some (pointer_to store s m.sha256) }
    same m e = cc

pub write_pointer-pointed :
    (store : Store) (s : GuardianSnapshot) {store' : Store}
    → IsInside store
    → write_pointer store s ≡ some store'
    → (pointed store' ≡ some s)
      × (store'.snapshots ≡ store.snapshots)
      × (store'.machine ≡ store.machine)
unfolding pointed snapshot_from_pointer
write_pointer-pointed store s within h =
    let (m, e, same) = write_pointer-inversion store s h in
    rw same (
      rw
          (
            ==_refl store.machine,
            within s.snapshot_id,
            verify_candidate-pointer store s (some (pointer_to store s m.sha256)),
            e,
            ==_refl m.sha256,
          )
          refl,
      refl,
      refl,
    )

-- How `resolve_or_restore_latest_good` ends, as a relation.
pub data Resolved (store : Store) : Store → Option GuardianSnapshot → Type 0 where
  as_pointed : {s : GuardianSnapshot} → pointed store ≡ some s → Resolved store store (some s)
  nowhere : pointed store ≡ none → Resolved store store none
  restored :
      {store' : Store} {s : GuardianSnapshot}
      → write_pointer store s ≡ some store'
      → Resolved store store' (some s)

pub resolve-Resolved :
    (store : Store) {store' : Store} {latest : Option GuardianSnapshot}
    → resolve_or_restore_latest_good store ≡ some (store', latest)
    → Resolved store store' latest
unfolding resolve_or_restore_latest_good
resolve-Resolved store {store'} {latest} h = elim (Option-cases (pointed store)) [
  | inr (s, e) ↦ found s e (rw (e, resolve_or_restore_latest_good) at h)
  | inl e ↦ elim (Option-cases (scan_latest_committed store)) [
    | inl e' ↦ empty e (rw (e, e', resolve_or_restore_latest_good) at h)
    | inr (s, e') ↦ elim (Option-cases (write_pointer store s)) [
      | inl e'' ↦ absurd (lost (rw (e, e', e'', resolve_or_restore_latest_good) at h))
      | inr (store'', e'') ↦
          written s store'' e'' (rw (e, e', e'', resolve_or_restore_latest_good) at h)
    ]
  ]
]
  where
    lost : ◌≡◌ {A = Option (Store × Option GuardianSnapshot)} none (some (store', latest)) → ⊥
    lost e = cc

    found :
        (s : GuardianSnapshot)
        → pointed store ≡ some s
        → ◌≡◌ {A = Option (Store × Option GuardianSnapshot)}
            (some (store, some s))
            (some (store', latest))
        → Resolved store store' latest
    found s e h' =
        let a : store ≡ store' = cc in
        let b : some s ≡ latest = cc in
        subst (λ l. Resolved store store' l) b
          (subst (λ t. Resolved store t (some s)) a (as_pointed e))

    empty :
        pointed store ≡ none
        → ◌≡◌ {A = Option (Store × Option GuardianSnapshot)}
            (some (store, none))
            (some (store', latest))
        → Resolved store store' latest
    empty e h' =
        let a : store ≡ store' = cc in
        let b : none ≡ latest = cc in
        subst (λ l. Resolved store store' l) b (subst (λ t. Resolved store t none) a (nowhere e))

    written :
        (s : GuardianSnapshot) (t : Store)
        → write_pointer store s ≡ some t
        → ◌≡◌ {A = Option (Store × Option GuardianSnapshot)}
            (some (t, some s))
            (some (store', latest))
        → Resolved store store' latest
    written s t e h' =
        let a : t ≡ store' = cc in
        let b : some s ≡ latest = cc in
        subst (λ l. Resolved store store' l) b
          (subst (λ u. Resolved store u (some s)) a (restored e))

-- The snapshot that it returns is the one that the pointer then resolves to.
pub Resolved-pointed :
    {store : Store} {store' : Store} {s : GuardianSnapshot}
    → IsInside store
    → Resolved store store' (some s)
    → (pointed store' ≡ some s)
      × (store'.snapshots ≡ store.snapshots)
      × (store'.machine ≡ store.machine)
Resolved-pointed within (as_pointed e) = (e, refl, refl)
Resolved-pointed within (restored e) = write_pointer-pointed _ _ within e

pub Resolved-snapshots :
    {store : Store} {store' : Store} {latest : Option GuardianSnapshot}
    → Resolved store store' latest
    → (store'.snapshots ≡ store.snapshots) × (store'.machine ≡ store.machine)
Resolved-snapshots (as_pointed e) = (refl, refl)
Resolved-snapshots (nowhere e) = (refl, refl)
Resolved-snapshots (restored e) =
    let (m, _, same) = write_pointer-inversion _ _ e in rw same (refl, refl)
