-- ===== src/Journal/Snapshot.antt =====
-- `snapshot_belongs_to` of src/codexsync/mutation_journal.py.
use Prim.Native.Char.{Char, code}
use codex_sync.Base.{
  ℕ, zero, suc, String, ◌==◌, Bool, true, false, ◌&&◌, ◌||◌, Option, none, some, leb, nat_eq,
  if◌then◌else◌,
}
use codex_sync.MachineId.{normalize_machine_id}

-- The rest of a text behind a literal prefix.
unfoldable pub after_prefix : String → String → Option String
after_prefix String.[] s = some s
after_prefix (String.◌∷◌ p ps) String.[] = none
after_prefix (String.◌∷◌ p ps) (String.◌∷◌ c s) =
    let rest = after_prefix ps s in if nat_eq (code p) (code c) then rest else none

-- The rest of a text behind `n` characters of a class.
unfoldable pub after_class : (Char → Bool) → ℕ → String → Option String
after_class p zero s = some s
after_class p (suc n) String.[] = none
after_class p (suc n) (String.◌∷◌ c s) = let rest = after_class p n s in if p c then rest else none

-- [0-9a-f]
unfoldable pub is_hex : Char → Bool
is_hex c = leb b'0' (code c) && leb (code c) b'9' || leb b'a' (code c) && leb (code c) b'f'

infixl 5 ◌then?◌
abbrev pub ◌then?◌ : Option String → (String → Option String) → Option String
none then? f = none
some s then? f = f s

-- `re.fullmatch` of `<machine>-\d{8}T\d{6}Z-[0-9a-f]{12}(\.zip)?`
unfoldable pub matches_snapshot : (Char → Bool) → String → String → Bool
unfolding after_prefix after_class is_hex
matches_snapshot is_decimal machine name =
    elim (after_prefix machine name
      then? after_prefix "-"
      then? after_class is_decimal 8
      then? after_prefix "T"
      then? after_class is_decimal 6
      then? after_prefix "Z-"
      then? after_class is_hex 12) [ none ↦ false | some rest ↦ rest == "" || rest == ".zip" ]

abbrev pub safe_machine : Option String → String
safe_machine machine_id = elim (normalize_machine_id machine_id true) [
  | none ↦ "unknown-machine"
  | some id ↦ if id == "" then "unknown-machine" else id
]

unfoldable pub snapshot_belongs_to : (Char → Bool) → Option String → Option String → Bool
unfolding matches_snapshot
snapshot_belongs_to is_decimal none machine_id = false
snapshot_belongs_to is_decimal (some name) machine_id =
    if name == "" then false else matches_snapshot is_decimal (safe_machine machine_id) name
