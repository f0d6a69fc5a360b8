-- ===== src/SessionIndex/Merge.antt =====
-- What the three-way merge does with each session.
use codex_sync.Base.{
  String, ==_refl, Bool, true, false, ◌&&◌, ◌||◌, Option, none, some, [], if◌then◌else◌, contains,
  lookup, is_some, ◌≡◌, refl, sym, ap, subst, ◌∙◌, ◌⊎◌, inl, inr, Bool-cases, arith,
}
use codex_sync.SessionIndex.{
  IndexRecord, IndexParseResult, same, session_ids, is_v1, refusal, merge_known,
  merge_session_indexes,
}
use codex_sync.SessionIndex.Turns.{chosen, clashes, merge_ids-reports, listed, lookup-merged}

-- What the merge makes of a session, by its records in the base and on both sides: one side's record
-- stays, and each side that has changed has its change in it; or both sides have changed, in different
-- ways, and the session is reported.
pub data Fate (old left right merged : Option IndexRecord) (reported : Bool) : Type 0 where
  settled :
      (merged ≡ left) ⊎ (merged ≡ right)
      → (same left old ≡ true) ⊎ (same merged left ≡ true)
      → (same right old ≡ true) ⊎ (same merged right ≡ true)
      → Fate old left right merged reported
  clash :
      same left old ≡ false
      → same right old ≡ false
      → same left right ≡ false
      → merged ≡ none
      → reported ≡ true
      → Fate old left right merged reported

same_self : (o : Option IndexRecord) → same o o ≡ true
unfolding same
same_self none = refl
same_self (some r) = ==_refl r.digest

module _ (sha256 : String → String) where
  clash_known :
      (o l r : Option IndexRecord)
      → clashes sha256 o l r ≡ true
      → (is_some o || (is_some l || is_some r)) ≡ true
  unfolding same
  clash_known none none none h = cc
  clash_known none none (some r) h = refl
  clash_known none (some l) r h = refl
  clash_known (some o) l r h = refl

  chosen-Fate :
      (old left right : Option IndexRecord) (reported : Bool)
      → (clashes sha256 old left right ≡ true → reported ≡ true)
      → Fate old left right (chosen sha256 old left right) reported
  chosen-Fate old left right reported told = elim (Bool-cases (same left right)) [
    | inl e ↦ rw e (settled (inl refl) (inr (same_self left)) (inr e))
    | inr e ↦ elim (Bool-cases (same left old)) [
      | inl e' ↦ rw (e, e') (settled (inr refl) (inl e') (inr (same_self right)))
      | inr e' ↦ elim (Bool-cases (same right old)) [
        | inl e'' ↦ rw (e, e', e'') (settled (inl refl) (inr (same_self left)) (inl e''))
        | inr e'' ↦ rw (e, e', e'') (clash e' e'' e refl (told (rw (e, e', e'') refl)))
      ]
    ]
  ]

  -- A merge of three indexes of a known contract loses no change and makes none up. A session either gets
  -- the record of one side, and each side that has changed since the base finds its change there, by its
  -- digest; or both sides have changed it in different ways, and it is left out and its hash is among
  -- the conflicts.
  pub merge-keeps_changes :
      (base local remote : IndexParseResult)
      → is_v1 sha256 base.contract ≡ true
      → is_v1 sha256 local.contract ≡ true
      → is_v1 sha256 remote.contract ≡ true
      → (k : String)
      → Fate
          (lookup k base.reduced)
          (lookup k local.reduced)
          (lookup k remote.reduced)
          (lookup k (merge_session_indexes sha256 (some base) local remote).merged)
          (contains (merge_session_indexes sha256 (some base) local remote).conflicts (sha256 k))
  unfolding merge_session_indexes merge_known
  merge-keeps_changes base local remote hb hl hr k =
      subst
        (λ m.
          Fate (lookup k base.reduced) (lookup k local.reduced) (lookup k remote.reduced)
            (lookup k m.merged) (contains m.conflicts (sha256 k)))
        (sym known)
        (subst
          (λ m.
            Fate (lookup k base.reduced) (lookup k local.reduced) (lookup k remote.reduced) m
              reported)
          (sym (lookup-merged sha256 base.reduced local.reduced remote.reduced k))
          (chosen-Fate _ _ _ reported told))
    where
      reported : Bool
      reported = contains (merge_known sha256 base local remote).conflicts (sha256 k)

      all_v1 :
          (is_v1 sha256 base.contract
            && (is_v1 sha256 local.contract && is_v1 sha256 remote.contract))
          ≡ true
      all_v1 = ground arith

      known :
          merge_session_indexes sha256 (some base) local remote
          ≡ merge_known sha256 base local remote
      known =
          ap
            (λ b.
              if b
              then merge_known sha256 base local remote
              else refusal sha256 "UNRECOGNISED_CONSUMER_CONTRACT")
            all_v1

      told :
          clashes sha256 (lookup k base.reduced) (lookup k local.reduced) (lookup k remote.reduced)
            ≡ true
          → reported ≡ true
      told c =
          merge_ids-reports sha256 base.reduced local.reduced remote.reduced k
            (session_ids sha256 base.reduced local.reduced remote.reduced) ([], [])
            (listed sha256 base.reduced local.reduced remote.reduced k ∙ clash_known _ _ _ c) c
