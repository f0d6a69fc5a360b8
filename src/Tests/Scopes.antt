-- ===== src/Tests/Scopes.antt =====
-- Two projects; the second chat of the working set spawned a chain of two sub-threads.
use codex_sync.Base.{
  All, length, String, ◌==◌, Bool, true, false, Option, none, some, [], ◌∷◌, ◌≡◌, refl, sorted, map,
  keys, Dict, lookup, insert, if◌then◌else◌, contains, keep_if, dedupe,
}
use codex_sync.Base.Text.{strip, is_space}
use codex_sync.SessionScope.{
  ChatEntry, ChatDirectory, SessionScope, holds, resolve_projects, named, build_session_scope,
}
use codex_sync.SessionScope.Covered.{IsInherited}
use codex_sync.SessionScope.WorkingSet.{is_asked_for, build-least}

abbrev chat : String → Option String → Option String → ChatEntry
chat id project parent = record {
  session_id = id;
  project_id = project;
  parent_id = parent;
  byte_count = 5;
}

abbrev directory : ChatDirectory
directory = record {
  projects = ("p1", some "Orion") ∷ ("p2", none) ∷ [];
  chats =
      chat "grandchild" none (some "child")
      ∷ chat "child" none (some "root")
      ∷ chat "root" (some "p1") none
      ∷ chat "elsewhere" (some "p2") none
      ∷ [];
}

abbrev plain_text : String → String
plain_text s = s

abbrev seeds : Dict ChatEntry
seeds = ("root", chat "root" (some "p1") none) ∷ []

abbrev covered : Dict ChatEntry
covered =
    ("root", chat "root" (some "p1") none)
    ∷ ("child", chat "child" none (some "root"))
    ∷ ("grandchild", chat "grandchild" none (some "child"))
    ∷ []

named_root :
    named plain_text directory (resolve_projects plain_text directory ("Orion" ∷ []) []) [] ≡ seeds
unfolding named resolve_projects strip is_space ◌==◌ lookup insert keep_if contains keys dedupe
named_root = refl

build-least_example :
    (chosen : Dict ChatEntry) × (scope : SessionScope) × (build_session_scope plain_text plain_text
        directory
        ("Orion" ∷ [])
        ("else" ∷ [])
        none
      ≡ some scope)
    × (scope.session_hashes ≡ sorted (map plain_text (keys chosen)))
    × (scope.chat_count ≡ length chosen)
    × All
        (λ c.
          is_asked_for plain_text
              (resolve_projects plain_text directory ("Orion" ∷ []) [])
              ("else" ∷ [])
              c
            ≡ true
          → holds chosen c.session_id ≡ true)
        directory.chats
    × IsInherited (holds chosen) directory.chats
    × ((p : String → Bool)
        → All
            (λ c.
              is_asked_for plain_text
                  (resolve_projects plain_text directory ("Orion" ∷ []) [])
                  ("else" ∷ [])
                  c
                ≡ true
              → p c.session_id ≡ true)
            directory.chats
        → IsInherited p directory.chats
        → (k : String) → holds chosen k ≡ true
        → p k ≡ true)
build-least_example = build-least plain_text plain_text directory ("Orion" ∷ []) ("else" ∷ []) none

-- "is not elsewhere" passes to sub-threads.
abbrev near : String → Bool
near id = if id == "elsewhere" then false else true
