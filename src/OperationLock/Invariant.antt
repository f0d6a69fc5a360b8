-- ===== src/OperationLock/Invariant.antt =====
-- What holds of every thread and of the owner in each reachable state.
use codex_sync.Base.{
  ℕ, suc, ◌-◌, ◌≡◌, ◌≢◌, refl, sym, ap, ◌∙◌, subst, Bool, true, false, Option, none, some, List, [],
  ◌∷◌, if◌then◌else◌, nat_eq, Result, ok, err, inl, inr, Bool-cases, Option-cases, arith,
}
use codex_sync.OperationLock.{
  Frame, owns, nested, Local, System, LockError, busy, outside, start, update, take_lock, taken,
  deepened, enter, less, exit_block, leave, freed, die, enters, leaves, dies, Reach, begins, goes,
}

-- The blocks of a thread: at most one has the lock, at the bottom, and above it stand nested ones, as many as
-- the depth tells.
pub data Shape : Option ℕ → List Frame → Type 0 where
  empty : Shape none []
  plain : Shape none (owns ∷ [])
  first : Shape (some 1) (owns ∷ [])
  deeper : (n : ℕ) (fs : List Frame) → Shape (some n) fs → Shape (some (suc n)) (nested ∷ fs)

abbrev pub is_inside : Local → Bool
is_inside l = elim l.frames [ [] ↦ false | _ ∷ _ ↦ true ]

pub record Inv (s : System) : Type 0 where
  pub shape : (t : ℕ) → Shape (s.local t).held (s.local t).frames
  pub owned : (t : ℕ) → is_inside (s.local t) ≡ true → s.owner ≡ some t
  pub backed : (t : ℕ) → s.owner ≡ some t → is_inside (s.local t) ≡ true

start-Inv : Inv start
start-Inv = record { shape = λ t. empty; owned = λ t h. cc; backed = λ t h. cc }

-- A thread's new state among the others' old ones.
pub update-cases {κ} :
    (P : ℕ → Local → Type κ) (f : ℕ → Local) (t : ℕ) (l : Local)
    → P t l
    → ((u : ℕ) → nat_eq u t ≡ false → P u (f u))
    → (u : ℕ) → P u (update f t l u)
update-cases P f t l new old u = by_test (nat_eq u t) refl
  where
    by_test : (b : Bool) → nat_eq u t ≡ b → P u (if b then l else f u)
    by_test true e = let same : t ≡ u = ground arith in subst (λ v. P v l) same new
    by_test false e = old u e

-- A thread that is inside, beside the owner: there is none.
pub sole :
    {s : System} → Inv s → (t u : ℕ) → s.owner ≡ some t → is_inside (s.local u) ≡ true → u ≡ t
sole i t u e h = let f : some u ≡ some t = sym (i.owned u h) ∙ e in cc

-- With no owner every thread is outside.
pub vacant : {s : System} → Inv s → s.owner ≡ none → (u : ℕ) → is_inside (s.local u) ≡ false
vacant {s} i e u = elim (Bool-cases (is_inside (s.local u))) [
  | inr h ↦ h
  | inl h ↦ let f : none ≡ some u = sym e ∙ i.owned u h in cc
]

outside-frames :
    (l : Local) → is_inside l ≡ false → Shape l.held l.frames → (l.held ≡ none) × (l.frames ≡ [])
outside-frames l h sh = by_shape l.held l.frames sh h
  where
    by_shape :
        (d : Option ℕ) (fs : List Frame)
        → Shape d fs
        → (elim fs [ [] ↦ false | _ ∷ _ ↦ true ]) ≡ false
        → (d ≡ none) × (fs ≡ [])
    by_shape _ _ empty h = (refl, refl)
    by_shape _ _ plain h = cc
    by_shape _ _ first h = cc
    by_shape _ _ (deeper n fs sh) h = cc

-- `__enter__` from within keeps the owner; from without it takes a lock that is free.
data Entered (reentrant : Bool) (s : System) (t : ℕ) : System → Type 0 where
  again : (depth : ℕ) → (s.local t).held ≡ some depth → Entered reentrant s t (deepened depth t s)
  anew : (s.local t).held ≡ none → s.owner ≡ none → Entered reentrant s t (taken reentrant t s)

unwrap : {a b : System} → ◌≡◌ {A = Result LockError System} (ok a) (ok b) → a ≡ b
unwrap h = cc

pub enter-again :
    (reentrant : Bool) (t : ℕ) (s : System) (depth : ℕ)
    → (s.local t).held ≡ some depth
    → enter reentrant t s ≡ ok (deepened depth t s)
unfolding enter take_lock
enter-again reentrant t s depth e =
    ap (λ x. elim x [ some d ↦ ok (deepened d t s) | none ↦ take_lock reentrant t s ]) e

pub enter-by_owner :
    (reentrant : Bool) (t : ℕ) (s : System) (o : Option ℕ)
    → (s.local t).held ≡ none
    → s.owner ≡ o
    → enter reentrant t s ≡ (elim o as (λ _. Result LockError System) [
      | some _ ↦ err busy
      | none ↦ ok (taken reentrant t s)
    ])
unfolding enter take_lock
enter-by_owner reentrant t s o e free =
    ap (λ x. elim x [ some d ↦ ok (deepened d t s) | none ↦ take_lock reentrant t s ]) e
    ∙ ap
        (λ x. elim x as (λ _. Result LockError System) [
          | some _ ↦ err busy
          | none ↦ ok (taken reentrant t s)
        ])
        free

enter-Entered :
    (reentrant : Bool) (t : ℕ) (s : System) {s' : System}
    → enter reentrant t s ≡ ok s'
    → Entered reentrant s t s'
unfolding enter take_lock
enter-Entered reentrant t s {s'} h = elim (Option-cases (s.local t).held) [
  | inr (depth, e) ↦
      subst (Entered reentrant s t) (unwrap (sym (enter-again reentrant t s depth e) ∙ h))
        (again depth e)
  | inl e ↦ elim (Option-cases s.owner) [
    | inl free ↦
        subst (Entered reentrant s t) (unwrap (sym (enter-by_owner reentrant t s none e free) ∙ h))
          (anew e free)
    | inr (u, other) ↦
        let x : err busy ≡ ok s' = sym (enter-by_owner reentrant t s (some u) e other) ∙ h in cc
  ]
]

Entered-Inv :
    {reentrant : Bool} {s : System} {t : ℕ} {s' : System}
    → Inv s
    → Entered reentrant s t s'
    → Inv s'
Entered-Inv {reentrant} {s} {t = t} i (again depth e) = record {
  shape =
      update-cases (λ _ l. Shape l.held l.frames) s.local t _
        (deeper depth _ (subst (λ d. Shape d (s.local t).frames) e (i.shape t))) (λ u _. i.shape u);
  owned =
      update-cases (λ u l. is_inside l ≡ true → s.owner ≡ some u) s.local t _
        (λ _. i.owned t (holds (i.shape t) e)) (λ u _. i.owned u);
  backed =
      update-cases (λ u l. s.owner ≡ some u → is_inside l ≡ true) s.local t _ (λ _. refl)
        (λ u _. i.backed u);
}
  where
    holds :
        {d : Option ℕ} {fs : List Frame}
        → Shape d fs
        → d ≡ some depth
        → (elim fs [ [] ↦ false | _ ∷ _ ↦ true ]) ≡ true
    holds empty h = cc
    holds plain h = refl
    holds first h = refl
    holds (deeper n fs sh) h = refl
Entered-Inv {reentrant} {s} {t = t} i (anew e free) = record {
  shape =
      update-cases (λ _ l. Shape l.held l.frames) s.local t _ (by_kind reentrant)
        (λ u _. i.shape u);
  owned =
      update-cases (λ u l. is_inside l ≡ true → some t ≡ some u) s.local t _ (λ _. refl)
        (λ u _ h. let x : true ≡ false = sym h ∙ vacant i free u in cc);
  backed =
      update-cases (λ u l. some t ≡ some u → is_inside l ≡ true) s.local t _ (λ _. refl)
        (λ u differ h. let x : t ≡ u = cc in ground arith);
}
  where
    none_open : (s.local t).frames ≡ []
    none_open = (outside-frames (s.local t) (vacant i free t) (i.shape t)).1

    by_kind :
        (b : Bool) → Shape (if b then some 1 else (s.local t).held) (owns ∷ (s.local t).frames)
    by_kind true = subst (λ fs. Shape (some 1) (owns ∷ fs)) (sym none_open) first
    by_kind false =
        subst (λ d. Shape d (owns ∷ (s.local t).frames)) (sym e)
          (subst (λ fs. Shape none (owns ∷ fs)) (sym none_open) plain)

-- What the shape of a thread's blocks says of those under the innermost.
below_owns :
    {d : Option ℕ} {rest : List Frame} → Shape d (owns ∷ rest) → (Shape none rest) × (rest ≡ [])
below_owns plain = (empty, refl)
below_owns first = (empty, refl)

below_nested : {d : Option ℕ} {rest : List Frame} → Shape d (nested ∷ rest) → Shape (less d) rest
below_nested (deeper n fs sh) =
    let same : n ≡ suc n - 1 = omega arith in subst (λ m. Shape (some m) fs) same sh

some_open :
    {n : ℕ} {fs : List Frame} → Shape (some n) fs → (elim fs [ [] ↦ false | _ ∷ _ ↦ true ]) ≡ true
some_open first = refl
some_open (deeper n fs sh) = refl

still_open :
    {d : Option ℕ} {rest : List Frame}
    → Shape d (nested ∷ rest)
    → (elim rest [ [] ↦ false | _ ∷ _ ↦ true ]) ≡ true
still_open (deeper n fs sh) = some_open sh

exit_block-Inv :
    (t : ℕ) (s : System)
    → Inv s
    → (d : Option ℕ) (fs : List Frame) → (s.local t).held ≡ d
    → (s.local t).frames ≡ fs
    → Shape d fs
    → Inv (exit_block t fs s)
exit_block-Inv t s i d [] ed ef sh = i
exit_block-Inv t s i d (owns ∷ rest) ed ef sh = record {
  shape =
      update-cases (λ _ l. Shape l.held l.frames) s.local t _ ((below_owns sh).0)
        (λ u _. i.shape u);
  owned =
      update-cases (λ u l. is_inside l ≡ true → none ≡ some u) s.local t _
        (λ h.
          let x : false ≡ true =
            ap (λ fs. elim fs [ [] ↦ false | _ ∷ _ ↦ true ]) (sym (below_owns sh).1) ∙ h in
          cc)
        (λ u differ h. let same : u ≡ t = sole i t u mine h in ground arith);
  backed = λ u h. cc;
}
  where
    mine : s.owner ≡ some t
    mine = i.owned t (ap (λ fs. elim fs [ [] ↦ false | _ ∷ _ ↦ true ]) ef)
exit_block-Inv t s i d (nested ∷ rest) ed ef sh = record {
  shape =
      update-cases (λ _ l. Shape l.held l.frames) s.local t _
        (subst (λ x. Shape (less x) rest) (sym ed) (below_nested sh)) (λ u _. i.shape u);
  owned =
      update-cases (λ u l. is_inside l ≡ true → s.owner ≡ some u) s.local t _ (λ _. mine)
        (λ u _. i.owned u);
  backed =
      update-cases (λ u l. s.owner ≡ some u → is_inside l ≡ true) s.local t _ (λ _. still_open sh)
        (λ u _. i.backed u);
}
  where
    mine : s.owner ≡ some t
    mine = i.owned t (ap (λ fs. elim fs [ [] ↦ false | _ ∷ _ ↦ true ]) ef)

die-Inv : (t : ℕ) (s : System) → Inv s → Inv (die t s)
unfolding die
die-Inv t s i = record {
  shape = update-cases (λ _ l. Shape l.held l.frames) s.local t outside empty (λ u _. i.shape u);
  owned =
      update-cases (λ u l. is_inside l ≡ true → freed s.owner t ≡ some u) s.local t outside
        (λ h. cc) (λ u differ h. rw (i.owned u h, freed) (rw differ refl));
  backed =
      update-cases (λ u l. freed s.owner t ≡ some u → is_inside l ≡ true) s.local t outside
        (λ h. absurd (freed_self s.owner h)) (λ u differ h. i.backed u (freed_other s.owner h));
}
  where
    freed_self : (o : Option ℕ) → freed o t ≢ some t
    freed_self none h = cc
    freed_self (some v) h = ground arith

    freed_other : {u : ℕ} (o : Option ℕ) → freed o t ≡ some u → o ≡ some u
    freed_other none h = cc
    freed_other (some v) h = ground arith

pub Reach-Inv : {s : System} → Reach s → Inv s
unfolding leave
Reach-Inv begins = start-Inv
Reach-Inv (goes {s = s} r (enters reentrant t h)) =
    Entered-Inv (Reach-Inv r) (enter-Entered reentrant t s h)
Reach-Inv (goes {s = s} r (leaves t)) =
    exit_block-Inv t s (Reach-Inv r) _ _ refl refl ((Reach-Inv r).shape t)
Reach-Inv (goes {s = s} r (dies t)) = die-Inv t s (Reach-Inv r)
