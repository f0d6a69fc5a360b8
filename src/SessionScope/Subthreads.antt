-- ===== src/SessionScope/Subthreads.antt =====
-- One pass of the search for sub-threads.
use mathlib.Core.List.{Memᴰ}
use codex_sync.Base.{
  ℕ, ◌<◌, ◌≤◌, ◌≡◌, refl, sym, ap, ◌∙◌, String, ◌==◌, ==_refl, Bool, true, false, not, ◌&&◌, Option,
  none, some, List, [], ◌∷◌, keep_if, length, All, if◌then◌else◌, lookup-insert, Dict, arith,
  Bool-cases, inl, inr,
}
use codex_sync.SessionScope.{ChatEntry, given, choose, holds, is_orphan, sweep}

-- Every sub-thread of a chosen chat is chosen.
abbrev pub IsClosed : List ChatEntry → Dict ChatEntry → Type 0
IsClosed chats chosen = All (λ chat. is_orphan chosen chat ≡ false) chats

pub choose-holds :
    (chat : ChatEntry) (d : Dict ChatEntry) (k : String)
    → holds (choose chat d) k ≡ (if k == chat.session_id then true else holds d k)
choose-holds chat d k = ground (arith, lookup-insert k chat.session_id chat d)

abbrev step : ChatEntry → Dict ChatEntry → Dict ChatEntry
step chat d = if is_orphan d chat then choose chat d else d

step-holds :
    (chat : ChatEntry) (d : Dict ChatEntry) (k : String)
    → holds d k ≡ true
    → holds (step chat d) k ≡ true
step-holds chat d k h = ground (arith, choose-holds chat d k)

pub sweep-holds :
    (cs : List ChatEntry) (d : Dict ChatEntry) (b : Bool) (k : String)
    → holds d k ≡ true
    → holds ((sweep cs d b).0) k ≡ true
unfolding sweep
sweep-holds [] d b k h = h
sweep-holds (chat ∷ rest) d b k h =
    sweep-holds rest (step chat d) (if is_orphan d chat then true else b) k (step-holds chat d k h)

pub sweep-taken :
    (chat : ChatEntry) (rest : List ChatEntry) (d : Dict ChatEntry) (b : Bool)
    → is_orphan d chat ≡ true
    → sweep (chat ∷ rest) d b ≡ sweep rest (choose chat d) true
unfolding sweep
sweep-taken chat rest d b e =
    ap (λ x. sweep rest (if x then choose chat d else d) (if x then true else b)) e

pub sweep-left :
    (chat : ChatEntry) (rest : List ChatEntry) (d : Dict ChatEntry) (b : Bool)
    → is_orphan d chat ≡ false
    → sweep (chat ∷ rest) d b ≡ sweep rest d b
unfolding sweep
sweep-left chat rest d b e =
    ap (λ x. sweep rest (if x then choose chat d else d) (if x then true else b)) e

sweep-flag : (cs : List ChatEntry) (d : Dict ChatEntry) → (sweep cs d true).1 ≡ true
unfolding sweep
sweep-flag [] d = refl
sweep-flag (chat ∷ rest) d = elim (Bool-cases (is_orphan d chat)) [
  | inl e ↦ ap (λ r. r.1) (sweep-taken chat rest d true e) ∙ sweep-flag rest (choose chat d)
  | inr e ↦ ap (λ r. r.1) (sweep-left chat rest d true e) ∙ sweep-flag rest d
]

-- A pass that changes nothing has found no sub-thread to add.
pub sweep-still :
    (cs : List ChatEntry) (d : Dict ChatEntry)
    → (sweep cs d false).1 ≡ false
    → ((sweep cs d false).0 ≡ d) × IsClosed cs d
unfolding sweep
sweep-still [] d h = (refl, tt)
sweep-still (chat ∷ rest) d h = elim (Bool-cases (is_orphan d chat)) [
  | inl e ↦ absurd (
      never (
        sym (sweep-flag rest (choose chat d))
        ∙ ap (λ r. r.1) (sym (sweep-taken chat rest d false e))
        ∙ h))
  | inr e ↦
      let (same, closed) =
        sweep-still rest d (ap (λ r. r.1) (sym (sweep-left chat rest d false e)) ∙ h) in
      (ap (λ r. r.0) (sweep-left chat rest d false e) ∙ same, (e, closed))
]
  where
    never : true ≡ false → ⊥
    never bad = cc

orphan-missing :
    (d : Dict ChatEntry) (chat : ChatEntry)
    → is_orphan d chat ≡ true
    → holds d chat.session_id ≡ false
unfolding is_orphan
orphan-missing d chat h = go (given chat.parent_id) h
  where
    go :
        (o : Option String)
        → elim o [ none ↦ false | some p ↦ holds d p && not (holds d chat.session_id) ] ≡ true
        → holds d chat.session_id ≡ false
    go none e = cc
    go (some p) e = ground arith

-- A pass that changes something has added a chat.
pub sweep-finds :
    (cs : List ChatEntry) (d : Dict ChatEntry)
    → (sweep cs d false).1 ≡ true
    → (chat : ChatEntry) × Memᴰ chat cs
      × (holds d chat.session_id ≡ false)
      × (holds ((sweep cs d false).0) chat.session_id ≡ true)
unfolding sweep
sweep-finds [] d h = cc
sweep-finds (chat ∷ rest) d h = elim (Bool-cases (is_orphan d chat)) [
  | inl e ↦ (
    chat,
    Memᴰ.head refl,
    orphan-missing d chat e,
    ap (λ r. holds (r.0) chat.session_id) (sweep-taken chat rest d false e)
        ∙ sweep-holds rest (choose chat d) true chat.session_id
            (choose-holds chat d chat.session_id ∙ rw (==_refl chat.session_id) refl),
  )
  | inr e ↦
      let (found, i, absent, present) =
        sweep-finds rest d (ap (λ r. r.1) (sym (sweep-left chat rest d false e)) ∙ h) in
      (
        found,
        Memᴰ.tail i,
        absent,
        ap (λ r. holds (r.0) found.session_id) (sweep-left chat rest d false e) ∙ present,
      )
]

-- The chats that are not chosen yet.
abbrev pub missing : List ChatEntry → Dict ChatEntry → ℕ
missing cs d = length (keep_if (λ chat. not (holds d chat.session_id)) cs)

module _ (d d' : Dict ChatEntry) (grows : (k : String) → holds d k ≡ true → holds d' k ≡ true) where
  missing_le : (cs : List ChatEntry) → missing cs d' ≤ missing cs d
  unfolding keep_if
  missing_le [] = omega arith
  missing_le (chat ∷ rest) = ground (arith, missing_le rest, grows chat.session_id)

  pub missing_lt :
      (cs : List ChatEntry) {chat : ChatEntry}
      → Memᴰ chat cs
      → holds d chat.session_id ≡ false
      → holds d' chat.session_id ≡ true
      → missing cs d' < missing cs d
  unfolding keep_if
  missing_lt [] i a p = elim i [ ]
  missing_lt (c ∷ rest) (Memᴰ.head e) a p =
      let a' : holds d c.session_id ≡ false = rw (← e) a in
      let p' : holds d' c.session_id ≡ true = rw (← e) p in ground (arith, missing_le rest)
  missing_lt (c ∷ rest) (Memᴰ.tail i) a p =
      ground (arith, missing_lt rest i a p, grows c.session_id)

pub missing-length : (cs : List ChatEntry) (d : Dict ChatEntry) → missing cs d ≤ length cs
unfolding keep_if
missing-length [] d = omega arith
missing-length (chat ∷ rest) d = ground (arith, missing-length rest d)
