-- ===== src/SessionIndex/Turns.antt =====
-- What the loop of the merge has made of each session.
use codex_sync.Base.{
  String, ◌==◌, ==_iff, ==_refl, Bool, true, false, not, ◌&&◌, ◌||◌, Option, none, some, List, [],
  ◌∷◌, ◌++◌, if◌then◌else◌, contains, contains-append, contains-sorted, contains-dedupe,
  contains-keys, count, contains-count, count-sorted, count-dedupe, ◌≤◌, dedupe, Dict, lookup,
  lookup-insert, keys, is_some, ◌≡◌, refl, sym, ap, ◌∙◌, ◌⊎◌, inl, inr, Bool-cases, arith,
}
use codex_sync.SessionIndex.{IndexRecord, same, keep, merge_one, merge_ids, session_ids}

module _ (sha256 : String → String) where
  -- What becomes of one session.
  abbrev pub chosen :
      Option IndexRecord → Option IndexRecord → Option IndexRecord → Option IndexRecord
  chosen old left right =
      if same left right
      then left
      else if same left old
      then right
      else if same right old
      then left
      else none

  abbrev pub clashes : Option IndexRecord → Option IndexRecord → Option IndexRecord → Bool
  clashes old left right = not (same left right) && (not (same left old) && not (same right old))

  lookup-keep :
      (j k : String) (o : Option IndexRecord) (merged : Dict IndexRecord)
      → lookup k merged ≡ none
      → lookup j (keep k o merged) ≡ (if j == k then o else lookup j merged)
  lookup-keep j k none merged fresh = ground (arith, ==_iff j k)
  lookup-keep j k (some r) merged fresh = lookup-insert j k r merged

  lookup-merge_one :
      (old left right : Option IndexRecord) (j k : String) (out : Dict IndexRecord × List String)
      → lookup k out.0 ≡ none
      → lookup j (merge_one sha256 old left right k out).0
        ≡ (if j == k then chosen old left right else lookup j out.0)
  unfolding merge_one
  lookup-merge_one old left right j k out fresh =
      ground
        (arith, lookup-keep j k left out.0 fresh, lookup-keep j k right out.0 fresh, ==_iff j k)

  merge_one-conflicts :
      (old left right : Option IndexRecord) (a k : String) (out : Dict IndexRecord × List String)
      → contains (merge_one sha256 old left right k out).1 a
        ≡ (contains out.1 a || clashes old left right && (a == sha256 k))
  unfolding merge_one contains
  merge_one-conflicts old left right a k out =
      ground (arith, contains-append out.1 (sha256 k ∷ []) a)

  module _ (base local remote : Dict IndexRecord) where
    abbrev chosen_at : String → Option IndexRecord
    chosen_at k = chosen (lookup k base) (lookup k local) (lookup k remote)

    abbrev clashes_at : String → Bool
    clashes_at k = clashes (lookup k base) (lookup k local) (lookup k remote)

    abbrev turn : String → Dict IndexRecord × List String → Dict IndexRecord × List String
    turn k out = merge_one sha256 (lookup k base) (lookup k local) (lookup k remote) k out

    once :
        (k : String) (ks : List String)
        → ((j : String) → count j (k ∷ ks) ≤ 1)
        → ((j : String) → count j ks ≤ 1) × (contains ks k ≡ false)
    unfolding count
    once k ks u = (
      (λ j. ground (arith, u j)),
      elim (Bool-cases (contains ks k)) [
        | inr h ↦ h
        | inl h ↦ absurd (ground (arith, u k, contains-count k ks h, ==_refl k))
      ],
    )

    lookup-merge_ids :
        (j : String) (ks : List String) (out : Dict IndexRecord × List String)
        → ((k : String) → count k ks ≤ 1)
        → ((k : String) → contains ks k ≡ true → lookup k out.0 ≡ none)
        → lookup j (merge_ids sha256 base local remote ks out).0
          ≡ (if contains ks j then chosen_at j else lookup j out.0)
    unfolding merge_ids contains
    lookup-merge_ids j [] out u fresh = refl
    lookup-merge_ids j (k ∷ ks) out u fresh =
        let (u', apart) = once k ks u in
        lookup-merge_ids j ks (turn k out) u'
          (λ i h. lookup-merge_one _ _ _ i k out at_k ∙ next i h apart)
        ∙ step (Bool-cases (contains ks j)) (Bool-cases (j == k))
      where
        at_k : lookup k out.0 ≡ none
        at_k = fresh k (ground (arith, ==_refl k))

        met : lookup j (turn k out).0 ≡ (if j == k then chosen_at k else lookup j out.0)
        met = lookup-merge_one _ _ _ j k out at_k

        step :
            ((contains ks j ≡ true) ⊎ (contains ks j ≡ false))
            → (((j == k) ≡ true) ⊎ ((j == k) ≡ false))
            → (if contains ks j then chosen_at j else lookup j (turn k out).0)
              ≡ (if j == k || contains ks j then chosen_at j else lookup j out.0)
        step (inl h) _ = ground arith
        step (inr h) (inr e) =
            let m : lookup j (turn k out).0 ≡ lookup j out.0 = met ∙ rw e refl in rw (h, e) m
        step (inr h) (inl e) =
            let m : lookup j (turn k out).0 ≡ chosen_at k = met ∙ rw e refl in
            rw (h, e) (m ∙ ap chosen_at (sym ((==_iff j k).0 e)))

        next :
            (i : String)
            → contains ks i ≡ true
            → contains ks k ≡ false
            → (if i == k then chosen_at k else lookup i out.0) ≡ none
        next i h apart = elim (Bool-cases (i == k)) [
          | inl e ↦ let x : true ≡ false = sym h ∙ ap (contains ks) ((==_iff i k).0 e) ∙ apart in cc
          | inr e ↦ rw e (fresh i (ground arith))
        ]

    merge_ids-conflicts :
        (a : String) (ks : List String) (out : Dict IndexRecord × List String)
        → contains out.1 a ≡ true
        → contains (merge_ids sha256 base local remote ks out).1 a ≡ true
    unfolding merge_ids
    merge_ids-conflicts a [] out h = h
    merge_ids-conflicts a (k ∷ ks) out h =
        merge_ids-conflicts a ks (turn k out) (merge_one-conflicts _ _ _ a k out ∙ rw h refl)

    pub merge_ids-reports :
        (j : String) (ks : List String) (out : Dict IndexRecord × List String)
        → contains ks j ≡ true
        → clashes_at j ≡ true
        → contains (merge_ids sha256 base local remote ks out).1 (sha256 j) ≡ true
    unfolding merge_ids contains
    merge_ids-reports j [] out h c = cc
    merge_ids-reports j (k ∷ ks) out h c = elim (Bool-cases (j == k)) [
      | inl e ↦
          merge_ids-conflicts (sha256 j) ks (turn k out)
            (merge_one-conflicts _ _ _ (sha256 j) k out ∙ here ((==_iff j k).0 e))
      | inr e ↦ merge_ids-reports j ks (turn k out) (ground arith) c
    ]
      where
        here : j ≡ k → (contains out.1 (sha256 j) || clashes_at k && (sha256 j == sha256 k)) ≡ true
        here e =
            let c' : clashes_at k ≡ true = ap clashes_at (sym e) ∙ c in
            let s : (sha256 j == sha256 k) ≡ true = (==_iff _ _).1 (ap sha256 e) in
            ground (arith, c', s)

    pub unchosen :
        (o l r : Option IndexRecord)
        → (is_some o || (is_some l || is_some r)) ≡ false
        → chosen o l r ≡ none
    unfolding same
    unchosen none none none h = refl
    unchosen none none (some r) h = cc
    unchosen none (some l) r h = cc
    unchosen (some o) l r h = cc

    abbrev merged : Dict IndexRecord × List String
    merged = merge_ids sha256 base local remote (session_ids sha256 base local remote) ([], [])

    pub listed :
        (j : String)
        → contains (session_ids sha256 base local remote) j
          ≡ (is_some (lookup j base) || (is_some (lookup j local) || is_some (lookup j remote)))
    unfolding session_ids
    listed j =
        contains-sorted _ j
        ∙ contains-dedupe _ j
        ∙ contains-append (keys base) _ j
        ∙ rw
            (
              contains-append (keys local) (keys remote) j,
              contains-keys base j,
              contains-keys local j,
              contains-keys remote j,
            )
            refl

    pub lookup-merged : (j : String) → lookup j merged.0 ≡ chosen_at j
    unfolding session_ids lookup
    lookup-merged j =
        lookup-merge_ids j _ ([], [])
          (λ k. ground (
            arith,
            count-sorted k (dedupe (keys base ++ (keys local ++ keys remote))),
            count-dedupe k (keys base ++ (keys local ++ keys remote)),
          ))
          (λ k h. refl)
        ∙ elsewhere (Bool-cases (contains (session_ids sha256 base local remote) j))
      where
        elsewhere :
            ((contains (session_ids sha256 base local remote) j ≡ true)
              ⊎ (contains (session_ids sha256 base local remote) j ≡ false))
            → (if contains (session_ids sha256 base local remote) j then chosen_at j else none)
              ≡ chosen_at j
        elsewhere (inl h) = rw h refl
        elsewhere (inr h) = rw h (sym (unchosen _ _ _ (sym (listed j) ∙ h)))
