-- ===== src/Tests/Indexes.antt =====
-- Two sides that have renamed one session each, and both a third one.
use codex_sync.Base.{
  ℕ, String, ◌==◌, ◌<>◌, some, List, [], ◌∷◌, ◌≡◌, refl, lookup, contains, insert, dedupe, sorted,
  str_leb, keys,
}
use codex_sync.SessionIndex.{
  IndexRecord, IndexParseResult, v1, last_line_wins, max_updated_at, takes_over, reduce_from,
  reduce, same, merge_one, merge_ids, session_ids, told_codes, unique_codes, merge_known,
  merge_session_indexes,
}
use codex_sync.SessionIndex.Merge.{Fate, merge-keeps_changes}

abbrev line : String → String → String → ℕ → IndexRecord
line id name time number = record {
  session_id = id;
  thread_name = name;
  updated_at = time;
  digest = name <> time;
  raw = name;
  line_number = number;
}

abbrev index : List IndexRecord → IndexParseResult
index records = record {
  records = records;
  reduced = reduce records last_line_wins;
  reduced_by_updated_at = reduce records max_updated_at;
  contract = v1;
  codes = [];
}

abbrev base : IndexParseResult
base = index (line "a" "one" "1" 1 ∷ line "b" "two" "1" 2 ∷ line "c" "three" "1" 3 ∷ [])

abbrev local : IndexParseResult
local = index (line "a" "uno" "2" 1 ∷ line "b" "two" "1" 2 ∷ line "c" "tre" "2" 3 ∷ [])

abbrev remote : IndexParseResult
remote = index (line "a" "one" "1" 1 ∷ line "b" "zwei" "3" 2 ∷ line "c" "drei" "3" 3 ∷ [])

abbrev hash : String → String
hash s = "#" <> s

merge-keeps_changes_example :
    Fate
      (lookup "c" base.reduced)
      (lookup "c" local.reduced)
      (lookup "c" remote.reduced)
      (lookup "c" (merge_session_indexes hash (some base) local remote).merged)
      (contains (merge_session_indexes hash (some base) local remote).conflicts (hash "c"))
merge-keeps_changes_example = merge-keeps_changes hash base local remote refl refl refl "c"

conflicts-c : (merge_session_indexes hash (some base) local remote).conflicts ≡ "#c" ∷ []
unfolding merge_session_indexes merge_known merge_ids merge_one session_ids same told_codes
    unique_codes reduce reduce_from takes_over lookup insert contains dedupe sorted str_leb keys
    ◌==◌
conflicts-c = refl

clock_ran_backwards :
    lookup "a" (reduce (line "a" "late" "2" 1 ∷ line "a" "early" "1" 2 ∷ []) max_updated_at)
    ≡ some (line "a" "late" "2" 1)
unfolding reduce reduce_from takes_over lookup insert str_leb ◌==◌
clock_ran_backwards = refl
