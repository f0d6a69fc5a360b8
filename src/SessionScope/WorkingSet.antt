-- ===== src/SessionScope/WorkingSet.antt =====
-- Which chats a working set is made of: the least set with what it names and all their sub-threads.
use text.Mathlib.Text.{starts_with}
use codex_sync.Base.{
  suc, ◌≡◌, refl, sym, subst, ◌∙◌, String, ◌==◌, ==_iff, ==_refl, Bool, true, false, not, ◌&&◌,
  ◌||◌, Option, none, some, List, [], ◌∷◌, map, keep_if, any, contains, length, All, sorted, keys,
  Dict, lookup, arith, Bool-cases, inl, inr,
}
use codex_sync.Base.Text.{is_space, strip}
use codex_sync.SessionScope.{
  ChatEntry, ChatDirectory, SessionScope, given, choose, holds, find, choose_all, choose_found,
  is_wanted, resolve_projects, named, is_orphan, scope_of, build_session_scope,
}
use codex_sync.SessionScope.Subthreads.{IsClosed, choose-holds, missing-length}
use codex_sync.SessionScope.Covered.{IsInherited, adopt-returns, adopt-IsClosed, adopt-least}

-- The chat is in one of the projects, or its id begins with a reference that is not blank; ids and
-- references are compared without regard to case.
abbrev pub is_asked_for : (String → String) → List String → List String → ChatEntry → Bool
is_asked_for casefold wanted references chat =
    elim (given chat.project_id) [ none ↦ false | some id ↦ contains wanted id ]
    || any
        (λ reference.
          not (casefold (strip is_space reference) == "")
          && starts_with (casefold chat.session_id) (casefold (strip is_space reference)))
        references

-- What is chosen passes a test.
abbrev IsWithin : Dict ChatEntry → (String → Bool) → Type 0
IsWithin d p = (k : String) → holds d k ≡ true → p k ≡ true

-- Of some chats, those with a property pass a test on ids.
abbrev Passes : (ChatEntry → Bool) → (String → Bool) → List ChatEntry → Type 0
Passes q p cs = All (λ chat. q chat ≡ true → p chat.session_id ≡ true) cs

choose_all-keeps :
    (casefold : String → String) (cs : List ChatEntry) (d : Dict ChatEntry) (k : String)
    → holds d k ≡ true
    → holds (choose_all casefold cs d) k ≡ true
unfolding choose_all
choose_all-keeps casefold [] d k h = h
choose_all-keeps casefold (c ∷ cs) d k h =
    choose_all-keeps casefold cs (choose c d) k (ground (arith, choose-holds c d k))

choose_all-takes :
    (casefold : String → String) (q : ChatEntry → Bool) (cs : List ChatEntry) (d : Dict ChatEntry)
    → Passes q (holds (choose_all casefold (keep_if q cs) d)) cs
unfolding choose_all keep_if
choose_all-takes casefold q [] d = tt
choose_all-takes casefold q (c ∷ cs) d = elim (Bool-cases (q c)) [
  | inl e ↦
      let kept : keep_if q (c ∷ cs) ≡ c ∷ keep_if q cs = rw e refl in
      subst (λ l. Passes q (holds (choose_all casefold l d)) (c ∷ cs)) (sym kept)
        (
          (λ _.
              choose_all-keeps casefold (keep_if q cs) (choose c d) c.session_id
                (ground (arith, choose-holds c d c.session_id, ==_refl c.session_id))),
          choose_all-takes casefold q cs (choose c d),
        )
  | inr e ↦
      let left : keep_if q (c ∷ cs) ≡ keep_if q cs = rw e refl in
      subst (λ l. Passes q (holds (choose_all casefold l d)) (c ∷ cs)) (sym left)
        ((λ h. absurd (ground arith)), choose_all-takes casefold q cs d)
]

choose_all-IsWithin :
    (casefold : String → String) (q : ChatEntry → Bool) (p : String → Bool) (cs : List ChatEntry)
    (d : Dict ChatEntry)
    → Passes q p cs
    → IsWithin d p
    → IsWithin (choose_all casefold (keep_if q cs) d) p
unfolding choose_all keep_if
choose_all-IsWithin casefold q p [] d a w = w
choose_all-IsWithin casefold q p (c ∷ cs) d (a, as') w = elim (Bool-cases (q c)) [
  | inl e ↦ rw e (
      choose_all-IsWithin casefold q p cs (choose c d) as' (λ k h.
        elim (Bool-cases (k == c.session_id)) [
          | inl same ↦ subst (λ j. p j ≡ true) (sym ((==_iff k c.session_id).0 same)) (a e)
          | inr differ ↦ w k (ground (arith, choose-holds c d k))
        ]))
  | inr e ↦ rw e (choose_all-IsWithin casefold q p cs d as' w)
]

Passes-weaken :
    (q : ChatEntry → Bool) (p p' : String → Bool) (cs : List ChatEntry)
    → ((k : String) → p k ≡ true → p' k ≡ true)
    → Passes q p cs
    → Passes q p' cs
Passes-weaken q p p' [] f a = tt
Passes-weaken q p p' (c ∷ cs) f (a, as') =
    ((λ h. f c.session_id (a h)), Passes-weaken q p p' cs f as')

Passes-or :
    (q q' : ChatEntry → Bool) (p : String → Bool) (cs : List ChatEntry)
    → Passes q p cs
    → Passes q' p cs
    → Passes (λ chat. q chat || q' chat) p cs
Passes-or q q' p [] a b = tt
Passes-or q q' p (c ∷ cs) (a, as') (b, bs) = (
  (λ h. elim (Bool-cases (q c)) [ inl e ↦ a e | inr e ↦ b (ground arith) ]),
  Passes-or q q' p cs as' bs,
)

Passes-left :
    (q q' : ChatEntry → Bool) (p : String → Bool) (cs : List ChatEntry)
    → Passes (λ chat. q chat || q' chat) p cs
    → Passes q p cs × Passes q' p cs
Passes-left q q' p [] a = (tt, tt)
Passes-left q q' p (c ∷ cs) (a, as') =
    let (l, r) = Passes-left q q' p cs as' in
    (((λ h. a (ground arith)), l), ((λ h. a (ground arith)), r))

Passes-never :
    (q : ChatEntry → Bool) (p : String → Bool) (cs : List ChatEntry)
    → ((c : ChatEntry) → q c ≡ false)
    → Passes q p cs
Passes-never q p [] n = tt
Passes-never q p (c ∷ cs) n =
    ((λ h. let x : false ≡ true = sym (n c) ∙ h in cc), Passes-never q p cs n)

module _ (casefold : String → String) (directory : ChatDirectory) where
  -- The id of the chat begins with the reference.
  abbrev begins_with : String → ChatEntry → Bool
  begins_with reference chat =
      not (casefold (strip is_space reference) == "")
      && starts_with (casefold chat.session_id) (casefold (strip is_space reference))

  abbrev is_referenced : List String → ChatEntry → Bool
  is_referenced references chat = any (λ reference. begins_with reference chat) references

  -- One reference.
  found-takes :
      (reference : String) (d : Dict ChatEntry)
      → Passes
          (begins_with reference)
          (holds (choose_all casefold (find casefold directory reference) d))
          directory.chats
  unfolding find
  found-takes reference d = elim (Bool-cases (casefold (strip is_space reference) == "")) [
    | inl e ↦ rw e (Passes-never _ _ directory.chats (λ c. refl))
    | inr e ↦ rw e (
        choose_all-takes casefold
          (λ chat. starts_with (casefold chat.session_id) (casefold (strip is_space reference)))
          directory.chats d)
  ]

  found-IsWithin :
      (reference : String) (p : String → Bool) (d : Dict ChatEntry)
      → Passes (begins_with reference) p directory.chats
      → IsWithin d p
      → IsWithin (choose_all casefold (find casefold directory reference) d) p
  unfolding find choose_all
  found-IsWithin reference p d a w = elim (Bool-cases (casefold (strip is_space reference) == "")) [
    | inl e ↦ rw e w
    | inr e ↦ rw e (
        choose_all-IsWithin casefold
          (λ chat. starts_with (casefold chat.session_id) (casefold (strip is_space reference))) p
          directory.chats d (rw e at a) w)
  ]

  choose_found-keeps :
      (references : List String) (d : Dict ChatEntry) (k : String)
      → holds d k ≡ true
      → holds (choose_found casefold directory references d) k ≡ true
  unfolding choose_found
  choose_found-keeps [] d k h = h
  choose_found-keeps (r ∷ rs) d k h =
      choose_found-keeps rs _ k (choose_all-keeps casefold (find casefold directory r) d k h)

  choose_found-takes :
      (references : List String) (d : Dict ChatEntry)
      → Passes
          (is_referenced references)
          (holds (choose_found casefold directory references d))
          directory.chats
  unfolding choose_found any
  choose_found-takes [] d = Passes-never _ _ directory.chats (λ c. refl)
  choose_found-takes (r ∷ rs) d =
      Passes-or (begins_with r) (is_referenced rs) _ directory.chats
        (Passes-weaken (begins_with r) _ _ directory.chats
          (λ k h. choose_found-keeps rs (choose_all casefold (find casefold directory r) d) k h)
          (found-takes r d))
        (choose_found-takes rs (choose_all casefold (find casefold directory r) d))

  choose_found-IsWithin :
      (references : List String) (p : String → Bool) (d : Dict ChatEntry)
      → Passes (is_referenced references) p directory.chats
      → IsWithin d p
      → IsWithin (choose_found casefold directory references d) p
  unfolding choose_found any
  choose_found-IsWithin [] p d a w = w
  choose_found-IsWithin (r ∷ rs) p d a w =
      let (first, others) = Passes-left (begins_with r) (is_referenced rs) p directory.chats a in
      choose_found-IsWithin rs p _ others (found-IsWithin r p d first w)

  abbrev in_project : List String → ChatEntry → Bool
  in_project wanted chat = elim (given chat.project_id) [
    | none ↦ false
    | some id ↦ contains wanted id
  ]

  named-takes :
      (wanted references : List String)
      → Passes
          (is_asked_for casefold wanted references)
          (holds (named casefold directory wanted references))
          directory.chats
  unfolding named is_wanted
  named-takes wanted references =
      Passes-or (in_project wanted) (is_referenced references) _ directory.chats
        (Passes-weaken (in_project wanted) _ _ directory.chats
          (λ k h. choose_found-keeps references _ k h)
          (choose_all-takes casefold (in_project wanted) directory.chats []))
        (choose_found-takes references _)

  named-IsWithin :
      (wanted references : List String) (p : String → Bool)
      → Passes (is_asked_for casefold wanted references) p directory.chats
      → IsWithin (named casefold directory wanted references) p
  unfolding named is_wanted lookup
  named-IsWithin wanted references p a =
      let (first, others) =
        Passes-left (in_project wanted) (is_referenced references) p directory.chats a in
      choose_found-IsWithin references p _ others
        (choose_all-IsWithin casefold (in_project wanted) p directory.chats [] first (λ k h. cc))

-- A set without orphans is closed under sub-threads.
IsClosed-IsInherited :
    (chats : List ChatEntry) (d : Dict ChatEntry) → IsClosed chats d → IsInherited (holds d) chats
unfolding is_orphan
IsClosed-IsInherited [] d c = tt
IsClosed-IsInherited (chat ∷ rest) d (c, cs) = (
  (λ parent e held. let c' = rw (e, is_orphan) at c in ground arith),
  IsClosed-IsInherited rest d cs,
)

-- A working set is always found. Its hashes are those of the least set of ids that has every chat which
-- is in one of the resolved projects or is referred to, and with a chat every sub-thread of it: the set
-- has these, and any test that all of them pass and that passes from a chat to its sub-threads is passed
-- by every id in the set.
pub build-least :
    (casefold session_hash : String → String) (directory : ChatDirectory)
    (projects references : List String) (knows : Option (String → Bool))
    → (chosen : Dict ChatEntry) × (scope : SessionScope) × (build_session_scope casefold
          session_hash directory projects references knows
        ≡ some scope)
      × (scope.session_hashes ≡ sorted (map session_hash (keys chosen)))
      × (scope.chat_count ≡ length chosen)
      × All
          (λ chat.
            is_asked_for casefold (resolve_projects casefold directory projects []) references chat
              ≡ true
            → holds chosen chat.session_id ≡ true)
          directory.chats
      × IsInherited (holds chosen) directory.chats
      × ((p : String → Bool)
          → All
              (λ chat.
                is_asked_for casefold
                    (resolve_projects casefold directory projects [])
                    references
                    chat
                  ≡ true
                → p chat.session_id ≡ true)
              directory.chats
          → IsInherited p directory.chats
          → (k : String) → holds chosen k ≡ true
          → p k ≡ true)
unfolding build_session_scope scope_of
build-least casefold session_hash directory projects references knows =
    let wanted = resolve_projects casefold directory projects [] in
    let seeds = named casefold directory wanted references in
    let fuel = suc (length directory.chats) in
    let (chosen, e) =
      adopt-returns fuel directory.chats seeds
        (omega (arith, missing-length directory.chats seeds)) in
    let (closed, keeps) = adopt-IsClosed fuel directory.chats seeds e in
    (
      chosen,
      scope_of session_hash wanted references knows chosen,
      rw (e, build_session_scope) refl,
      refl,
      refl,
      Passes-weaken (is_asked_for casefold wanted references) _ _ directory.chats keeps
          (named-takes casefold directory wanted references),
      IsClosed-IsInherited directory.chats chosen closed,
      λ p asked inherited k held.
          adopt-least p fuel directory.chats seeds k inherited
            (named-IsWithin casefold directory wanted references p asked) e held,
    )
