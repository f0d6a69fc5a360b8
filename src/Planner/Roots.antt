-- ===== src/Planner/Roots.antt =====
-- `_normalise_root` and `_root_of` of src/codexsync/planner.py.
use Prim.Native.Char.{code}
use Prim.Native.String.{String, count as char_count}
use text.Mathlib.Text.{starts_with}
use codex_sync.Base.Text.{is_space, is_slash, forward_slashes, strip}
use codex_sync.Base.{◌<>◌, ◌==◌, ◌&&◌, ◌||◌, List, [], ◌∷◌, leb, nat_eq, if◌then◌else◌, dedupe}

-- `while value.startswith("./"): value = value[2:]`
unfoldable pub drop_dot_slashes : String → String
drop_dot_slashes (String.◌∷◌ c (String.◌∷◌ d s)) =
    let rest = drop_dot_slashes s in
    if nat_eq (code c) b'.' && is_slash d then rest else String.◌∷◌ c (String.◌∷◌ d s)
drop_dot_slashes s = s

unfoldable pub normalise_root : String → String
unfolding forward_slashes strip drop_dot_slashes is_space is_slash
normalise_root root =
    let value = drop_dot_slashes (strip is_slash (strip is_space (forward_slashes root))) in
    if value == "." then "" else value

-- `{normalise(root) for root in roots if normalise(root)}`, before it becomes a set.
unfoldable pub normalise_roots : List String → List String
unfolding normalise_root
normalise_roots [] = []
normalise_roots (root ∷ roots) =
    let rest = normalise_roots roots in
    if normalise_root root == "" then rest else normalise_root root ∷ rest

insert_longest : String → List String → List String
insert_longest x [] = x ∷ []
insert_longest x (y ∷ ys) =
    let rest = insert_longest x ys in
    if leb (char_count y) (char_count x) then x ∷ y ∷ ys else y ∷ rest

-- `sorted(roots, key=len, reverse=True)`
sort_longest : List String → List String
unfolding insert_longest
sort_longest [] = []
sort_longest (x ∷ xs) = insert_longest x (sort_longest xs)

unfoldable pub roots_by_length : List String → List String
unfolding sort_longest normalise_roots
roots_by_length include_roots = sort_longest (dedupe (normalise_roots include_roots))

unfoldable pub root_of : String → List String → String
root_of rel [] = ""
root_of rel (root ∷ roots) =
    let rest = root_of rel roots in
    if rel == root || starts_with rel (root <> "/") then root else rest
