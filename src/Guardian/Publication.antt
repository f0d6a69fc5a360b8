-- ===== src/Guardian/Publication.antt =====
-- `publish_latest_good`: the pointer only moves forward.
use codex_sync.Base.{
  ◌<◌, ◌≡◌, refl, subst, ◌∙◌, ◌==◌, ◌||◌, Option, none, some, leb, arith, Bool-cases, Option-cases,
  ◌⊎◌, inl, inr,
}
use codex_sync.Guardian.{
  GuardianManifest, GuardianSnapshot, Store, verify_candidate, write_pointer, pointed,
  resolve_or_restore_latest_good, advance, publish_latest_good,
}
use codex_sync.Guardian.Pointer.{
  IsInside, Resolved, resolve-Resolved, Resolved-pointed, Resolved-snapshots, write_pointer-pointed,
  verify_candidate-generation,
}

-- The candidate was written, past the current snapshot where there is one; or the current one stays.
data Advanced (store : Store) (c : GuardianSnapshot)
    : Option GuardianSnapshot → Store → GuardianSnapshot → Type 0 where
  stays : {s : GuardianSnapshot} → Advanced store c (some s) store s
  moves :
      {store' : Store} {s : GuardianSnapshot}
      → s.generation < c.generation
      → write_pointer store c ≡ some store'
      → Advanced store c (some s) store' c
  starts : {store' : Store} → write_pointer store c ≡ some store' → Advanced store c none store' c

abbrev Outcome : Type 0
Outcome = Option (Store × GuardianSnapshot)

module _ (store : Store) (c : GuardianSnapshot) (v : GuardianManifest) where
  advance-written :
      {current : Option GuardianSnapshot} {store' : Store} {s : GuardianSnapshot} (o : Option Store)
      → ((t : Store) → o ≡ some t → Advanced store c current t c)
      → ◌≡◌ {A = Outcome} (elim o [ none ↦ none | some t ↦ some (t, c) ]) (some (store', s))
      → Advanced store c current store' s
  advance-written none make h = cc
  advance-written {current} {store'} {s} (some t) make h =
      let a : t ≡ store' = cc in
      let b : c ≡ s = cc in
      subst (λ x. Advanced store c current store' x) b
        (subst (λ u. Advanced store c current u c) a (make t refl))

  advance-Advanced :
      (current : Option GuardianSnapshot) {store' : Store} {s : GuardianSnapshot}
      → verify_candidate store c ≡ some v
      → advance store c v current ≡ some (store', s)
      → Advanced store c current store' s
  unfolding advance
  advance-Advanced none e h = advance-written (write_pointer store c) (λ _ w. starts w) h
  advance-Advanced (some current) {store'} {s} e h =
      elim (Option-cases (verify_candidate store current)) [
        | inl gone ↦ absurd (lost (rw (gone, advance) at h))
        | inr (m, found) ↦
            elim (Bool-cases (leb v.generation m.generation || m.sha256 == v.sha256)) [
              | inl old ↦ kept (rw (found, old, advance) at h)
              | inr new ↦
                  advance-written (write_pointer store c)
                    (λ _ w.
                      moves
                        (ground (
                          arith,
                          verify_candidate-generation store current found,
                          verify_candidate-generation store c e,
                        ))
                        w)
                    (rw (found, new, advance) at h)
            ]
      ]
    where
      lost : ◌≡◌ {A = Outcome} none (some (store', s)) → ⊥
      lost e = cc

      kept :
          ◌≡◌ {A = Outcome} (some (store, current)) (some (store', s))
          → Advanced store c (some current) store' s
      kept h' =
          let a : store ≡ store' = cc in
          let b : current ≡ s = cc in
          subst (λ x. Advanced store c (some current) store' x) b
            (subst (λ u. Advanced store c (some current) u current) a stays)

-- What a publication is made of: the resolved store and the step from it.
publish-inversion :
    (store : Store) (c : GuardianSnapshot) {store' : Store} {s : GuardianSnapshot}
    → publish_latest_good store c ≡ some (store', s)
    → (v : GuardianManifest) × (store₁ : Store) × (current : Option GuardianSnapshot)
      × (verify_candidate store c ≡ some v)
      × Resolved store store₁ current
      × (advance store₁ c v current ≡ some (store', s))
unfolding publish_latest_good
publish-inversion store c {store'} {s} h = elim (Option-cases (verify_candidate store c)) [
  | inl gone ↦ absurd (lost (rw (gone, publish_latest_good) at h))
  | inr (v, e) ↦ elim (Option-cases (resolve_or_restore_latest_good store)) [
    | inl gone ↦ absurd (lost (rw (e, gone, publish_latest_good) at h))
    | inr ((store₁, current), r) ↦
        (v, store₁, current, e, resolve-Resolved store r, rw (e, r, publish_latest_good) at h)
  ]
]
  where
    lost : ◌≡◌ {A = Outcome} none (some (store', s)) → ⊥
    lost e = cc

verify_candidate-agree :
    (store store₁ : Store) (c : GuardianSnapshot)
    → store₁.snapshots ≡ store.snapshots
    → store₁.machine ≡ store.machine
    → verify_candidate store₁ c ≡ verify_candidate store c
unfolding verify_candidate
verify_candidate-agree store store₁ c a b = rw (a, b) refl

Advanced-pointed :
    {store store' : Store} {c s : GuardianSnapshot} {current : Option GuardianSnapshot}
    → IsInside store
    → (current ≡ some s → pointed store ≡ some s)
    → Advanced store c current store' s
    → (pointed store' ≡ some s) × (store'.snapshots ≡ store.snapshots)
Advanced-pointed within at stays = (at refl, refl)
Advanced-pointed within at (moves _ w) = let p = write_pointer-pointed _ _ within w in (p.0, p.1)
Advanced-pointed within at (starts w) = let p = write_pointer-pointed _ _ within w in (p.0, p.1)

-- After a publication latest-good resolves, without a rebuild, to the snapshot that is returned,
-- and no snapshot directory has changed, where no entry of the folder is a link out of it.
pub publish-pointed :
    (store : Store) (c : GuardianSnapshot) {store' : Store} {s : GuardianSnapshot}
    → IsInside store
    → publish_latest_good store c ≡ some (store', s)
    → (pointed store' ≡ some s) × (store'.snapshots ≡ store.snapshots)
publish-pointed store c {store'} {s} within h =
    let (v, store₁, current, e, r, a) = publish-inversion store c h in
    let same = Resolved-snapshots r in
    let within₁ : IsInside store₁ = λ k. rw (same.0) (within k) in
    let e₁ : verify_candidate store₁ c ≡ some v =
      verify_candidate-agree store store₁ c same.0 same.1 ∙ e in
    let p =
      Advanced-pointed within₁
        (λ i. (Resolved-pointed within (subst (λ l. Resolved store store₁ l) i r)).0)
        (advance-Advanced store₁ c v current e₁ a) in
    (p.0, p.1 ∙ same.0)

Advanced-newer :
    {store store' : Store} {c s current : GuardianSnapshot}
    → Advanced store c (some current) store' s
    → (s ≡ current) ⊎ ((s ≡ c) × (current.generation < c.generation))
Advanced-newer stays = inl refl
Advanced-newer (moves newer _) = inr (refl, newer)

-- Latest-good never goes back: where it resolved before, and no entry of the folder is a link out of it,
-- a publication leaves a pointer that resolves to the same snapshot, or to the candidate, whose
-- generation is then greater; and that snapshot is returned.
pub publish-advances :
    (store : Store) (c : GuardianSnapshot) {current : GuardianSnapshot} {store' : Store}
    {s : GuardianSnapshot}
    → IsInside store
    → pointed store ≡ some current
    → publish_latest_good store c ≡ some (store', s)
    → (latest : GuardianSnapshot) × (pointed store' ≡ some latest)
      × (s ≡ latest)
      × ((latest ≡ current) ⊎ ((latest ≡ c) × (current.generation < c.generation)))
unfolding publish_latest_good resolve_or_restore_latest_good
publish-advances store c {current} {store'} {s} within at h =
    (s, (publish-pointed store c within h).0, refl, newer)
  where
    lost : ◌≡◌ {A = Outcome} none (some (store', s)) → ⊥
    lost e = cc

    newer : (s ≡ current) ⊎ ((s ≡ c) × (current.generation < c.generation))
    newer = elim (Option-cases (verify_candidate store c)) [
      | inl gone ↦ absurd (lost (rw (gone, publish_latest_good) at h))
      | inr (v, e) ↦
          Advanced-newer
            (advance-Advanced store c v (some current) e (rw (e, at, publish_latest_good) at h))
    ]
