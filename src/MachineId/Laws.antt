-- ===== src/MachineId/Laws.antt =====
-- What the normalised machine id is made of.
use Prim.Native.Char.{Char}
use codex_sync.Base.{
  String, ◌==◌, ◌≡◌, refl, ap, Bool, true, false, Option, none, some, arith, Bool-cases, inl, inr,
  ◌⊎◌, ◌&&◌, if◌then◌else◌,
}
use codex_sync.Base.Text.{is_space, strip, lstrip, rstrip}
use codex_sync.MachineId.{
  is_id_char, is_edge, dash, dash_runs, unknown_machine, clean_machine_id, normalize_machine_id,
}

-- Every character is of the class.
abbrev pub IsSafe : String → Type 0
IsSafe String.[] = Unit
IsSafe (String.◌∷◌ c s) = (is_id_char c ≡ true) × IsSafe s

dash-is_id_char : is_id_char dash ≡ true
unfolding is_id_char
dash-is_id_char = refl

dash_runs-IsSafe : (inside : Bool) (s : String) → IsSafe (dash_runs inside s)
unfolding dash_runs
dash_runs-IsSafe inside String.[] = tt
dash_runs-IsSafe inside (String.◌∷◌ c s) = elim (Bool-cases (is_id_char c)) [
  | inl good ↦ rw good (good, dash_runs-IsSafe false s)
  | inr bad ↦ rw bad (elim (Bool-cases inside) [
    | inl e ↦ rw e (dash_runs-IsSafe true s)
    | inr e ↦ rw e (dash-is_id_char, dash_runs-IsSafe true s)
  ])
]

lstrip-IsSafe : (p : Char → Bool) (s : String) → IsSafe s → IsSafe (lstrip p s)
unfolding lstrip
lstrip-IsSafe p String.[] h = tt
lstrip-IsSafe p (String.◌∷◌ c s) (h, hs) = ground (arith, lstrip-IsSafe p s hs)

rstrip-IsSafe : (p : Char → Bool) (s : String) → IsSafe s → IsSafe (rstrip p s)
unfolding rstrip
rstrip-IsSafe p String.[] h = tt
rstrip-IsSafe p (String.◌∷◌ c s) (h, hs) = elim (Bool-cases (p c && rstrip p s == "")) [
  | inl e ↦ rw e tt
  | inr e ↦ rw e (h, rstrip-IsSafe p s hs)
]

clean-IsSafe : (raw : String) → IsSafe (clean_machine_id raw)
unfolding clean_machine_id
clean-IsSafe raw = rstrip-IsSafe is_edge (lstrip is_edge (dash_runs false (strip is_space raw))) (
    lstrip-IsSafe is_edge (dash_runs false (strip is_space raw))
      (dash_runs-IsSafe false (strip is_space raw)))

unknown-IsSafe : IsSafe "unknown-machine"
unfolding is_id_char
unknown-IsSafe = ground arith

-- A character of the class is no white space.
id_char-space : (c : Char) → is_id_char c ≡ true → is_space c ≡ false
unfolding is_id_char is_space
id_char-space c h = ground arith

dash_runs_of_IsSafe : (s : String) → IsSafe s → dash_runs false s ≡ s
unfolding dash_runs
dash_runs_of_IsSafe String.[] h = refl
dash_runs_of_IsSafe (String.◌∷◌ c s) (h, hs) =
    rw h (ap (λ r. String.◌∷◌ c r) (dash_runs_of_IsSafe s hs))

lstrip_none : (s : String) → IsSafe s → lstrip is_space s ≡ s
unfolding lstrip
lstrip_none String.[] h = refl
lstrip_none (String.◌∷◌ c s) (h, hs) = rw (id_char-space c h)

rstrip_none : (s : String) → IsSafe s → rstrip is_space s ≡ s
unfolding rstrip
rstrip_none String.[] h = refl
rstrip_none (String.◌∷◌ c s) (h, hs) =
    rw (id_char-space c h) (ap (λ r. String.◌∷◌ c r) (rstrip_none s hs))

lstrip-lstrip : (p : Char → Bool) (s : String) → lstrip p (lstrip p s) ≡ lstrip p s
unfolding lstrip
lstrip-lstrip p String.[] = refl
lstrip-lstrip p (String.◌∷◌ c s) = elim (Bool-cases (p c)) [
  | inl e ↦ rw e (lstrip-lstrip p s)
  | inr e ↦ rw e (rw e refl)
]

rstrip-rstrip : (p : Char → Bool) (s : String) → rstrip p (rstrip p s) ≡ rstrip p s
unfolding rstrip
rstrip-rstrip p String.[] = refl
rstrip-rstrip p (String.◌∷◌ c s) = elim (Bool-cases (p c && rstrip p s == "")) [
  | inl e ↦ rw e refl
  | inr e ↦ rw e (rw (rstrip-rstrip p s, e) refl)
]

-- Text that begins with no edge still does so after its end is stripped.
lstrip-rstrip-lstrip :
    (p : Char → Bool) (s : String) → lstrip p (rstrip p (lstrip p s)) ≡ rstrip p (lstrip p s)
unfolding lstrip rstrip
lstrip-rstrip-lstrip p String.[] = refl
lstrip-rstrip-lstrip p (String.◌∷◌ c s) = elim (Bool-cases (p c)) [
  | inl e ↦ rw e (lstrip-rstrip-lstrip p s)
  | inr e ↦ rw (e, ◌&&◌) (simp (e, ◌&&◌, if◌then◌else◌))
]

clean-clean : (raw : String) → clean_machine_id (clean_machine_id raw) ≡ clean_machine_id raw
unfolding clean_machine_id
clean-clean raw =
    let id = clean_machine_id raw in
    let safe : IsSafe id = clean-IsSafe raw in
    let core = dash_runs false (strip is_space raw) in
    rw (lstrip_none id safe, rstrip_none id safe, dash_runs_of_IsSafe id safe)
      (rw lstrip-rstrip-lstrip (rstrip-rstrip is_edge (lstrip is_edge core)))

unknown-clean : clean_machine_id "unknown-machine" ≡ "unknown-machine"
unfolding clean_machine_id is_id_char ◌==◌
unknown-clean = refl

unknown-cases :
    (allow_unknown : Bool) {id : String}
    → unknown_machine allow_unknown ≡ some id
    → id ≡ "unknown-machine"
unfolding unknown_machine
unknown-cases true h = cc
unknown-cases false h = cc

-- Where a normalised id comes from.
normalize-cases :
    (raw : Option String) (allow_unknown : Bool) {id : String}
    → normalize_machine_id raw allow_unknown ≡ some id
    → (id ≡ "unknown-machine") ⊎ ((r : String) × (id ≡ clean_machine_id r) × ((id == "") ≡ false))
unfolding normalize_machine_id
normalize-cases none allow_unknown h = inl (unknown-cases allow_unknown h)
normalize-cases (some raw) allow_unknown {id} h = elim (Bool-cases (strip is_space raw == "")) [
  | inl e ↦ inl (unknown-cases allow_unknown (rw e at h))
  | inr e ↦ elim (Bool-cases (clean_machine_id raw == "")) [
    | inl e' ↦ inl (unknown-cases allow_unknown (rw (e, e') at h))
    | inr e' ↦
        let same : id ≡ clean_machine_id raw = cc (rw (e, e') at h) in inr (raw, same, rw same e')
  ]
]

-- A normalised id holds only letters, digits, `.`, `_` and `-`.
pub normalize-IsSafe :
    (raw : Option String) (allow_unknown : Bool) {id : String}
    → normalize_machine_id raw allow_unknown ≡ some id
    → IsSafe id
normalize-IsSafe raw allow_unknown h = elim (normalize-cases raw allow_unknown h) [
  | inl e ↦ rw e unknown-IsSafe
  | inr (r, e, _) ↦ rw e (clean-IsSafe r)
]

-- Normalising a normalised id gives it back.
pub normalize-normalize :
    (raw : Option String) (allow_unknown again : Bool) {id : String}
    → normalize_machine_id raw allow_unknown ≡ some id
    → normalize_machine_id (some id) again ≡ some id
unfolding normalize_machine_id strip
normalize-normalize raw allow_unknown again {id} h =
    let safe : IsSafe id = normalize-IsSafe raw allow_unknown h in
    rw (lstrip_none id safe, rstrip_none id safe)
      (elim (normalize-cases raw allow_unknown h) [
        | inl e ↦ rw (e, unknown-clean) (unfold ◌==◌ in refl)
        | inr (r, e, full) ↦
            let same : clean_machine_id id ≡ id = rw e (clean-clean r) in rw (same, full) refl
      ])
