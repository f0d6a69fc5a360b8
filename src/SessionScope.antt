-- ===== src/SessionScope.antt =====
-- src/codexsync/session_scope.py: which chats a chosen working set covers.
pub mod Subthreads
pub mod Covered
pub mod WorkingSet
use text.Mathlib.Text.{starts_with}
use codex_sync.Base.{
  ℕ, zero, suc, ◌+◌, String, ◌==◌, Bool, true, false, not, ◌&&◌, Option, none, some, List, [], ◌∷◌,
  ◌++◌, map, keep_if, length, if◌then◌else◌, contains, dedupe, sorted, Dict, lookup, insert, keys,
  is_some,
}
use codex_sync.Base.Text.{is_space, strip}

-- The fields of a chat, a project and a directory that are read here.
pub record ChatEntry : Type 0 where
  pub session_id : String
  pub project_id : Option String
  pub parent_id : Option String
  pub byte_count : ℕ

pub record ChatDirectory : Type 0 where
  pub projects : Dict (Option String)
  pub chats : List ChatEntry

pub record SessionScope : Type 0 where
  pub projects : List String
  pub chats : List String
  pub session_hashes : List String
  pub chat_count : ℕ
  pub total_bytes : ℕ
  pub not_in_catalog : List String

-- The truth value of a text or `None`.
abbrev pub given : Option String → Option String
given none = none
given (some s) = if s == "" then none else some s

-- `chosen[chat.session_id] = chat`
abbrev pub choose : ChatEntry → Dict ChatEntry → Dict ChatEntry
choose chat chosen = insert chat.session_id chat chosen

abbrev pub holds : Dict ChatEntry → String → Bool
holds chosen id = is_some (lookup id chosen)

module _ (casefold : String → String) where
  -- `by_name`
  unfoldable pub by_name : Dict (Option String) → Dict String → Dict String
  by_name [] names = names
  by_name ((project_id, name) ∷ rest) names =
      by_name rest
        (elim (given name) [ none ↦ names | some n ↦ insert (casefold n) project_id names ])

  -- One turn of the loop of `_resolve_projects`.
  unfoldable pub resolve_project : ChatDirectory → String → List String → List String
  unfolding by_name
  resolve_project directory reference wanted =
      let value = strip is_space reference in
      if value == ""
      then wanted
      else if contains (keys directory.projects) value
      then value ∷ wanted
      else elim (given (lookup (casefold value) (by_name directory.projects []))) [
        | none ↦ wanted
        | some matched ↦ matched ∷ wanted
      ]

  unfoldable pub resolve_projects : ChatDirectory → List String → List String → List String
  unfolding resolve_project
  resolve_projects directory [] wanted = dedupe wanted
  resolve_projects directory (reference ∷ rest) wanted =
      resolve_projects directory rest (resolve_project directory reference wanted)

  -- `ChatDirectory.find`
  unfoldable pub find : ChatDirectory → String → List ChatEntry
  find directory reference =
      let value = casefold (strip is_space reference) in
      if value == ""
      then []
      else keep_if (λ chat. starts_with (casefold chat.session_id) value) directory.chats

  unfoldable pub choose_all : List ChatEntry → Dict ChatEntry → Dict ChatEntry
  choose_all [] chosen = chosen
  choose_all (chat ∷ rest) chosen = choose_all rest (choose chat chosen)

  -- Whether a chat is in one of the wanted projects.
  unfoldable pub is_wanted : List String → ChatEntry → Bool
  is_wanted wanted chat = elim (given chat.project_id) [
    | none ↦ false
    | some id ↦ contains wanted id
  ]

  unfoldable pub choose_found : ChatDirectory → List String → Dict ChatEntry → Dict ChatEntry
  unfolding find choose_all
  choose_found directory [] chosen = chosen
  choose_found directory (reference ∷ rest) chosen =
      choose_found directory rest (choose_all (find directory reference) chosen)

  -- What is chosen before the sub-threads.
  unfoldable pub named : ChatDirectory → List String → List String → Dict ChatEntry
  unfolding choose_found is_wanted choose_all
  named directory wanted chats =
      choose_found directory chats (choose_all (keep_if (is_wanted wanted) directory.chats) [])

-- A sub-thread whose parent is chosen and that is not chosen itself.
unfoldable pub is_orphan : Dict ChatEntry → ChatEntry → Bool
is_orphan chosen chat = elim (given chat.parent_id) [
  | none ↦ false
  | some parent ↦ holds chosen parent && not (holds chosen chat.session_id)
]

-- One pass over the chats, with the flag `changed`.
unfoldable pub sweep : List ChatEntry → Dict ChatEntry → Bool → Dict ChatEntry × Bool
sweep [] chosen changed = (chosen, changed)
sweep (chat ∷ rest) chosen changed =
    sweep rest (if is_orphan chosen chat then choose chat chosen else chosen)
      (if is_orphan chosen chat then true else changed)

-- `while changed`; `none` when the fuel is used up.
unfoldable pub adopt : ℕ → List ChatEntry → Dict ChatEntry → Option (Dict ChatEntry)
unfolding sweep
adopt zero chats chosen = none
adopt (suc fuel) chats chosen =
    let (chosen', changed) : Dict ChatEntry × Bool = sweep chats chosen false in
    let rest = adopt fuel chats chosen' in if changed then rest else some chosen'

abbrev pub total : Dict ChatEntry → ℕ
total [] = 0
total ((_, chat) ∷ rest) = chat.byte_count + total rest

-- `knows` is the thread catalogue's, where it could be read.
unfoldable pub unplaceable : Dict ChatEntry → Option (String → Bool) → List String
unplaceable chosen none = []
unplaceable chosen (some knows) = sorted (keep_if (λ id. not (knows id)) (keys chosen))

-- The scope that is returned for the chosen chats.
unfoldable pub scope_of :
    (String → String)
    → List String
    → List String
    → Option (String → Bool)
    → Dict ChatEntry
    → SessionScope
unfolding unplaceable
scope_of session_hash wanted chats knows chosen = record {
  projects = sorted wanted;
  chats = sorted chats;
  session_hashes = sorted (map session_hash (keys chosen));
  chat_count = length chosen;
  total_bytes = total chosen;
  not_in_catalog = unplaceable chosen knows;
}

unfoldable pub build_session_scope :
    (String → String)
    → (String → String)
    → ChatDirectory
    → List String
    → List String
    → Option (String → Bool)
    → Option SessionScope
build_session_scope casefold session_hash directory projects chats knows =
    let wanted = resolve_projects casefold directory projects [] in
    elim (adopt (suc (length directory.chats)) directory.chats
      (named casefold directory wanted chats)) [
        | none ↦ none
        | some chosen ↦ some (scope_of session_hash wanted chats knows chosen)
      ]
