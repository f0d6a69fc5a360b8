-- ===== src/SessionScope/Covered.antt =====
-- What a working set covers: all sub-threads of what it names, and nothing else.
use codex_sync.Base.{
  ℕ, zero, suc, ◌<◌, ◌≡◌, refl, sym, ap, ◌∙◌, String, ==_iff, Bool, true, false, not, ◌&&◌, Option,
  none, some, List, [], ◌∷◌, All, if◌then◌else◌, Dict, arith, Bool-cases, inl, inr,
}
use codex_sync.SessionScope.{ChatEntry, given, choose, holds, is_orphan, sweep, adopt}
use codex_sync.SessionScope.Subthreads.{
  IsClosed, choose-holds, sweep-holds, sweep-taken, sweep-left, sweep-still, sweep-finds, missing,
  missing_lt,
}

adopt-still :
    (fuel : ℕ) (chats : List ChatEntry) (d : Dict ChatEntry)
    → (sweep chats d false).1 ≡ false
    → adopt (suc fuel) chats d ≡ some (sweep chats d false).0
unfolding adopt
adopt-still fuel chats d e =
    ap (λ b. if b then adopt fuel chats (sweep chats d false).0 else some (sweep chats d false).0) e

adopt-more :
    (fuel : ℕ) (chats : List ChatEntry) (d : Dict ChatEntry)
    → (sweep chats d false).1 ≡ true
    → adopt (suc fuel) chats d ≡ adopt fuel chats (sweep chats d false).0
unfolding adopt
adopt-more fuel chats d e =
    ap (λ b. if b then adopt fuel chats (sweep chats d false).0 else some (sweep chats d false).0) e

pub adopt-returns :
    (fuel : ℕ) (chats : List ChatEntry) (d : Dict ChatEntry)
    → missing chats d < fuel
    → (d' : Dict ChatEntry) × (adopt fuel chats d ≡ some d')
adopt-returns zero chats d enough = absurd (omega arith)
adopt-returns (suc fuel) chats d enough = elim (Bool-cases ((sweep chats d false).1)) [
  | inr e ↦ (_, adopt-still fuel chats d e)
  | inl e ↦
      let (chat, i, absent, present) = sweep-finds chats d e in
      let less =
        missing_lt d ((sweep chats d false).0) (λ k h. sweep-holds chats d false k h) chats i absent
          present in
      let (d', e') = adopt-returns fuel chats ((sweep chats d false).0) (omega arith) in
      (d', adopt-more fuel chats d e ∙ e')
]

-- The search ends with a closed set that holds what it began with.
pub adopt-IsClosed :
    (fuel : ℕ) (chats : List ChatEntry) (d : Dict ChatEntry) {d' : Dict ChatEntry}
    → adopt fuel chats d ≡ some d'
    → IsClosed chats d' × ((k : String) → holds d k ≡ true → holds d' k ≡ true)
unfolding adopt
adopt-IsClosed zero chats d h = cc
adopt-IsClosed (suc fuel) chats d {d'} h = elim (Bool-cases ((sweep chats d false).1)) [
  | inr e ↦
      let (same, closed) = sweep-still chats d e in
      let here : d ≡ d' = cc (adopt-still fuel chats d e) in
      (rw (← here) closed, λ k b. rw (← here) b)
  | inl e ↦
      let (closed, keeps) =
        adopt-IsClosed fuel chats ((sweep chats d false).0) (sym (adopt-more fuel chats d e) ∙ h) in
      (closed, λ k b. keeps k (sweep-holds chats d false k b))
]

-- A test on ids that passes from a chat to its sub-threads.
abbrev pub IsInherited : (String → Bool) → List ChatEntry → Type 0
IsInherited p chats =
    All
      (λ chat.
        (parent : String)
        → given chat.parent_id ≡ some parent
        → p parent ≡ true
        → p chat.session_id ≡ true)
      chats

abbrev IsWithin : Dict ChatEntry → (String → Bool) → Type 0
IsWithin d p = (k : String) → holds d k ≡ true → p k ≡ true

orphan-parent :
    (d : Dict ChatEntry) (chat : ChatEntry)
    → is_orphan d chat ≡ true
    → (parent : String) × (given chat.parent_id ≡ some parent) × (holds d parent ≡ true)
unfolding is_orphan
orphan-parent d chat h = go (given chat.parent_id) h
  where
    go :
        (o : Option String)
        → elim o [ none ↦ false | some p ↦ holds d p && not (holds d chat.session_id) ] ≡ true
        → (parent : String) × (o ≡ some parent) × (holds d parent ≡ true)
    go none e = cc
    go (some p) e = (p, refl, ground arith)

sweep-IsWithin :
    (p : String → Bool) (cs : List ChatEntry) (d : Dict ChatEntry) (b : Bool)
    → IsInherited p cs
    → IsWithin d p
    → IsWithin ((sweep cs d b).0) p
unfolding sweep
sweep-IsWithin p [] d b inh w = w
sweep-IsWithin p (chat ∷ rest) d b (pass, inh) w = elim (Bool-cases (is_orphan d chat)) [
  | inl e ↦
      let (parent, from, held) = orphan-parent d chat e in
      let new : p chat.session_id ≡ true = pass parent from (w parent held) in
      let w' : IsWithin (choose chat d) p = λ k h.
        ground
          (arith, choose-holds chat d k, w k, ==_iff k chat.session_id, same k chat.session_id) in
      λ k h.
        sweep-IsWithin p rest (choose chat d) true inh w' k
          (ap (λ r. holds (r.0) k) (sym (sweep-taken chat rest d b e)) ∙ h)
  | inr e ↦ λ k h.
      sweep-IsWithin p rest d b inh w k
        (ap (λ r. holds (r.0) k) (sym (sweep-left chat rest d b e)) ∙ h)
]
  where
    same : (j k : String) → j ≡ k → p j ≡ p k
    same j k e = ap p e

pub adopt-least :
    (p : String → Bool) (fuel : ℕ) (chats : List ChatEntry) (d : Dict ChatEntry)
    {d' : Dict ChatEntry} (k : String)
    → IsInherited p chats
    → ((j : String) → holds d j ≡ true → p j ≡ true)
    → adopt fuel chats d ≡ some d'
    → holds d' k ≡ true
    → p k ≡ true
unfolding adopt
adopt-least p zero chats d k inh w h held = cc
adopt-least p (suc fuel) chats d {d'} k inh w h held = elim (Bool-cases ((sweep chats d false).1)) [
  | inr e ↦
      let (same, closed) = sweep-still chats d e in
      let here : d' ≡ d = cc (adopt-still fuel chats d e) in w k (rw here at held)
  | inl e ↦
      adopt-least p fuel chats ((sweep chats d false).0) k inh
        (sweep-IsWithin p chats d false inh w) (sym (adopt-more fuel chats d e) ∙ h) held
]
