-- ===== src/MachineId.antt =====
-- `normalize_machine_id` of src/codexsync/guardian_models.py.
pub mod Laws
use Prim.Native.Char.{Char, code}
use codex_sync.Base.{
  ℕ, String, ◌==◌, Bool, true, false, not, ◌&&◌, ◌||◌, Option, none, some, leb, nat_eq,
  if◌then◌else◌,
}
use codex_sync.Base.Text.{is_space, strip}

-- A character of the class [A-Za-z0-9._-].
unfoldable pub is_id_char : Char → Bool
is_id_char c =
    let n = code c in
    leb b'A' n && leb n b'Z'
    || leb b'a' n && leb n b'z'
    || leb b'0' n && leb n b'9'
    || nat_eq n b'.'
    || nat_eq n b'_'
    || nat_eq n b'-'

-- The characters that `strip("-.")` removes.
unfoldable pub is_edge : Char → Bool
is_edge c = nat_eq (code c) b'-' || nat_eq (code c) b'.'

abbrev pub dash : Char
dash = "-"

-- `re.sub(r"[^A-Za-z0-9._-]+", "-", s)`. The flag is set inside a run of other characters.
unfoldable pub dash_runs : Bool → String → String
dash_runs inside String.[] = String.[]
dash_runs inside (String.◌∷◌ c s) =
    let kept = String.◌∷◌ c (dash_runs false s) in
    let rest = dash_runs true s in
    if is_id_char c then kept else if inside then rest else String.◌∷◌ dash rest

unfoldable pub unknown_machine : Bool → Option String
unknown_machine allow_unknown = if allow_unknown then some "unknown-machine" else none

unfoldable pub clean_machine_id : String → String
unfolding dash_runs strip is_edge is_space
clean_machine_id raw = strip is_edge (dash_runs false (strip is_space raw))

unfoldable pub normalize_machine_id : Option String → Bool → Option String
unfolding unknown_machine
normalize_machine_id none allow_unknown = unknown_machine allow_unknown
normalize_machine_id (some raw) allow_unknown =
    if strip is_space raw == ""
    then unknown_machine allow_unknown
    else if clean_machine_id raw == ""
    then unknown_machine allow_unknown
    else some (clean_machine_id raw)
