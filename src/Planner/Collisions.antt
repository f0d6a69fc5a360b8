-- ===== src/Planner/Collisions.antt =====
-- `_case_collisions` of src/codexsync/planner.py: paths that differ only in letter case.
use codex_sync.Base.{
  String, none, some, List, [], ◌∷◌, ◌++◌, ltb, length, if◌then◌else◌, dedupe, Dict, lookup, insert,
}

-- `groups.setdefault(rel.casefold(), []).append(rel)`, for every path.
unfoldable pub group_paths :
    (String → String) → List String → Dict (List String) → Dict (List String)
group_paths casefold [] groups = groups
group_paths casefold (rel ∷ rest) groups =
    let members : List String = elim (lookup (casefold rel) groups) [
      | none ↦ []
      | some old ↦ old
    ] in
    group_paths casefold rest (insert (casefold rel) (members ++ (rel ∷ [])) groups)

-- The members of the groups with more than one.
unfoldable pub crowded : Dict (List String) → List String
crowded [] = []
crowded ((key, members) ∷ groups) =
    let rest = crowded groups in if ltb 1 (length members) then members ++ rest else rest

unfoldable pub case_collisions : (String → String) → List String → List String
unfolding group_paths crowded
case_collisions casefold paths = dedupe (crowded (group_paths casefold paths []))
