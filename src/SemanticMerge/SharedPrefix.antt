-- ===== src/SemanticMerge/SharedPrefix.antt =====
-- What the loop over two files counts.
use codex_sync.Base.{
  ℕ, suc, ◌+◌, ◌≡◌, refl, String, ◌==◌, Bool, true, false, not, ◌&&◌, ◌||◌, Option, some, List, [],
  ◌∷◌, leb, length, if◌then◌else◌, ok, err, bind-ok, arith, Result, none, Bool-cases, inl, inr, ◌⊎◌,
  subst,
}
use codex_sync.SemanticMerge.Canonical.{
  Bytes, bytes_eq, ReadError, line_too_long, Codec, canonical_digest, rstrip_newlines,
  digests_agree,
}
use codex_sync.SemanticMerge.{
  Reading, judge_digests, readline, count_local, count_remote, compare_lines, read_pair,
}

module _ (codec : Codec) where
  -- Two records are the same: by their bytes, or by a canonical digest that both have.
  abbrev pub same_digest : Option String → Option String → Bool
  same_digest (some left) (some right) = left == right
  same_digest _ _ = false

  -- The digest of a record, where there is one.
  abbrev pub digest_of : Result ReadError (Option String) → Option String
  digest_of (ok digest) = digest
  digest_of (err _) = none

  abbrev pub is_raised : Result ReadError (Option String) → Bool
  is_raised (ok _) = false
  is_raised (err _) = true

  -- The digest of one of two records raises.
  abbrev pub undigested : Bytes → Bytes → Bool
  undigested l r =
      is_raised (canonical_digest codec (rstrip_newlines l))
      || is_raised (canonical_digest codec (rstrip_newlines r))

  unfoldable pub same_record : Bytes → Bytes → Bool
  same_record l r =
      bytes_eq l r
      || same_digest (digest_of (canonical_digest codec (rstrip_newlines l)))
          (digest_of (canonical_digest codec (rstrip_newlines r)))

  -- The records that two histories share from their start.
  unfoldable pub shared : List Bytes → List Bytes → ℕ
  shared [] rs = 0
  shared (l ∷ ls) [] = 0
  shared (l ∷ ls) (r ∷ rs) = let rest = shared ls rs in if same_record l r then suc rest else 0

  shared-nil : (ls : List Bytes) → shared ls [] ≡ 0
  unfolding shared
  shared-nil [] = refl
  shared-nil (l ∷ ls) = refl

  -- Some pair of records, up to the first that differ, has other bytes and no digest.
  unfoldable pub blocked : List Bytes → List Bytes → Bool
  blocked [] rs = false
  blocked (l ∷ ls) [] = false
  blocked (l ∷ ls) (r ∷ rs) =
      let rest = blocked ls rs in
      (not (bytes_eq l r) && undigested l r) || (same_record l r && rest)

  blocked-nil : (ls : List Bytes) → blocked ls [] ≡ false
  unfolding blocked
  blocked-nil [] = refl
  blocked-nil (l ∷ ls) = refl

  judge_digests_lem :
      (left right : Option String) (st : Reading)
      → st.has_diverged ≡ false
      → ((judge_digests left right st).local_count ≡ st.local_count)
        × ((judge_digests left right st).remote_count ≡ st.remote_count)
        × ((judge_digests left right st).common
            ≡ (if same_digest left right then suc st.common else st.common))
        × ((judge_digests left right st).has_diverged ≡ not (same_digest left right))
  unfolding judge_digests digests_agree
  judge_digests_lem none right st h = ground arith
  judge_digests_lem (some left) none st h = ground arith
  judge_digests_lem (some left) (some right) st h = ground arith

  -- What the comparison of two records makes of the reading.
  abbrev Compared : Bytes → Bytes → Reading → Reading → Type 0
  Compared l r st st' =
      (st'.local_count ≡ st.local_count)
      × (st'.remote_count ≡ st.remote_count)
      × (st'.common ≡ (if not st.has_diverged && same_record l r then suc st.common else st.common))
      × (st'.has_diverged ≡ (st.has_diverged || not (same_record l r)))

  -- Two records that differ in their bytes, for their digests.
  digests-cases :
      (l r : Bytes) (st : Reading)
      → st.has_diverged ≡ false
      → bytes_eq l r ≡ false
      → (x y : Result ReadError (Option String)) → canonical_digest codec (rstrip_newlines l) ≡ x
      → canonical_digest codec (rstrip_newlines r) ≡ y
      → ((undigested l r ≡ true) × (e : ReadError) × (compare_lines codec l r st ≡ err e))
        ⊎ ((undigested l r ≡ false)
            × (st' : Reading) × (compare_lines codec l r st ≡ ok st')
            × Compared l r st st')
  unfolding compare_lines same_record
  digests-cases l r st d b (err e) y hx hy = inl (rw hx refl, e, rw (d, b, hx, compare_lines) refl)
  digests-cases l r st d b (ok left) (err e) hx hy =
      inl (rw (hx, hy) refl, e, rw (d, b, hx, hy, compare_lines) refl)
  digests-cases l r st d b (ok left) (ok right) hx hy = inr (
    rw (hx, hy) refl,
    judge_digests left right st,
    rw (d, b, hx, hy, compare_lines) refl,
    rw (b, hx, hy, same_record) (ground (arith, judge_digests_lem left right st d)),
  )

  -- The comparison of two records returns, or raises for a digest.
  compare_lines_lem :
      (l r : Bytes) (st : Reading)
      → ((st.has_diverged ≡ false)
          × (bytes_eq l r ≡ false)
          × (undigested l r ≡ true)
          × (e : ReadError) × (compare_lines codec l r st ≡ err e))
        ⊎ (((st.has_diverged || (bytes_eq l r || not (undigested l r))) ≡ true)
            × (st' : Reading) × (compare_lines codec l r st ≡ ok st')
            × Compared l r st st')
  unfolding compare_lines same_record
  compare_lines_lem l r st = elim (Bool-cases st.has_diverged) [
    | inl d ↦ inr (ground arith, st, rw (d, compare_lines) refl, ground arith)
    | inr d ↦ elim (Bool-cases (bytes_eq l r)) [
      | inl b ↦ inr (
        ground arith,
        record st { common = st.common + 1 },
        rw (d, b, compare_lines) refl,
        ground arith,
      )
      | inr b ↦ elim (digests-cases l r st d b _ _ refl refl) [
        | inl (u, e, h) ↦ inl (d, b, u, e, h)
        | inr (u, st', h, c) ↦ inr (ground arith, st', h, c)
      ]
    ]
  ]

  abbrev pub fits : ℕ → List Bytes → Bool
  fits limit [] = true
  fits limit (l ∷ ls) = leb (length l) limit && fits limit ls

  readline-ok : (limit : ℕ) (line : Bytes) {x : Bytes} → readline limit line ≡ ok x → x ≡ line
  unfolding readline
  readline-ok limit line h = ground arith

  readline-fit :
      (limit : ℕ) (line : Bytes) → leb (length line) limit ≡ true → readline limit line ≡ ok line
  unfolding readline
  readline-fit limit line h = rw h

  compare_lines-Compared :
      (l r : Bytes) (st : Reading) {st' : Reading}
      → compare_lines codec l r st ≡ ok st'
      → Compared l r st st'
  compare_lines-Compared l r st {st'} h = elim (compare_lines_lem l r st) [
    | inl (_, _, _, e, k) ↦ cc
    | inr (_, st₁, k, c) ↦ let same : st₁ ≡ st' = cc in subst (Compared l r st) same c
  ]

  -- A reading that returns has the two lengths and the shared prefix.
  pub read_pair_lem :
      (limit : ℕ) (ls rs : List Bytes) (st : Reading) {st' : Reading}
      → read_pair codec limit ls rs st ≡ ok st'
      → (st'.local_count ≡ st.local_count + length ls)
        × (st'.remote_count ≡ st.remote_count + length rs)
        × (st'.common ≡ st.common + (if st.has_diverged then 0 else shared ls rs))
  unfolding read_pair shared
  read_pair_lem limit [] [] st h = ground arith
  read_pair_lem limit [] (r ∷ rs) st {st'} h =
      let (line, e, rest) =
        bind-ok (readline limit r) (λ line. read_pair codec limit [] rs (count_remote line st)) h in
      ground (arith, read_pair_lem limit [] rs (count_remote line st) rest)
  read_pair_lem limit (l ∷ ls) [] st {st'} h =
      let (line, e, rest) =
        bind-ok (readline limit l) (λ line. read_pair codec limit ls [] (count_local line st)) h in
      ground (arith, read_pair_lem limit ls [] (count_local line st) rest, shared-nil ls)
  read_pair_lem limit (l ∷ ls) (r ∷ rs) st {st'} h =
      let (x, e, h') = bind-ok (readline limit l) _ h in
      let (y, e', h'') = bind-ok (readline limit r) _ h' in
      let (compared, c, rest) =
        bind-ok (compare_lines codec x y (count_remote y (count_local x st)))
          (λ compared. read_pair codec limit ls rs compared) h'' in
      ground (
        arith,
        readline-ok limit l e,
        readline-ok limit r e',
        compare_lines-Compared x y (count_remote y (count_local x st)) c,
        read_pair_lem limit ls rs compared rest,
      )

  -- The reading of two histories is to return: each line is within the limit, and no digest that is
  -- asked for raises.
  abbrev pub legible : ℕ → List Bytes → List Bytes → Bool → Bool
  legible limit ls rs diverged =
      fits limit ls && (fits limit rs && (diverged || not (blocked ls rs)))

  readline-long :
      (limit : ℕ) (line : Bytes)
      → leb (length line) limit ≡ false
      → readline limit line ≡ err line_too_long
  unfolding readline
  readline-long limit line h = rw h

  -- The reading returns just then.
  pub read_pair_total :
      (limit : ℕ) (ls rs : List Bytes) (st : Reading)
      → legible limit ls rs st.has_diverged ≡ true
      → (st' : Reading) × (read_pair codec limit ls rs st ≡ ok st')
  unfolding read_pair blocked
  read_pair_total limit [] [] st h = (st, refl)
  read_pair_total limit [] (r ∷ rs) st h =
      rw (readline-fit limit r (ground arith))
        (read_pair_total limit [] rs (count_remote r st) (ground arith))
  read_pair_total limit (l ∷ ls) [] st h =
      rw (readline-fit limit l (ground arith))
        (read_pair_total limit ls [] (count_local l st) (ground (arith, blocked-nil ls)))
  read_pair_total limit (l ∷ ls) (r ∷ rs) st h =
      rw (readline-fit limit l (ground arith), readline-fit limit r (ground arith))
        (elim (compare_lines_lem l r (count_remote r (count_local l st))) [
          | inl (d, b, u, e, k) ↦ absurd (ground arith)
          | inr (_, st', k, c) ↦ rw k (read_pair_total limit ls rs st' (ground (arith, c)))
        ])

  pub read_pair_raises :
      (limit : ℕ) (ls rs : List Bytes) (st : Reading)
      → legible limit ls rs st.has_diverged ≡ false
      → (e : ReadError) × (read_pair codec limit ls rs st ≡ err e)
  unfolding read_pair blocked
  read_pair_raises limit [] [] st h = absurd (ground arith)
  read_pair_raises limit [] (r ∷ rs) st h = elim (Bool-cases (leb (length r) limit)) [
    | inl f ↦
        rw (readline-fit limit r f)
          (read_pair_raises limit [] rs (count_remote r st) (ground arith))
    | inr f ↦ (line_too_long, rw (readline-long limit r f) refl)
  ]
  read_pair_raises limit (l ∷ ls) [] st h = elim (Bool-cases (leb (length l) limit)) [
    | inl f ↦
        rw (readline-fit limit l f)
          (read_pair_raises limit ls [] (count_local l st) (ground (arith, blocked-nil ls)))
    | inr f ↦ (line_too_long, rw (readline-long limit l f) refl)
  ]
  read_pair_raises limit (l ∷ ls) (r ∷ rs) st h = elim (Bool-cases (leb (length l) limit)) [
    | inr f ↦ (line_too_long, rw (readline-long limit l f) refl)
    | inl f ↦ elim (Bool-cases (leb (length r) limit)) [
      | inr g ↦ (line_too_long, rw (readline-fit limit l f, readline-long limit r g) refl)
      | inl g ↦
          rw (readline-fit limit l f, readline-fit limit r g)
            (elim (compare_lines_lem l r (count_remote r (count_local l st))) [
              | inl (_, _, _, e, k) ↦ (e, rw k refl)
              | inr (m, st', k, c) ↦ rw k (read_pair_raises limit ls rs st' (ground (arith, c)))
            ])
    ]
  ]
