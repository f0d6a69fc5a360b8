-- ===== src/SemanticMerge/Canonical.antt =====
-- `canonical_digest` of src/codexsync/semantic_merge.py.
use codex_sync.Base.{
  ℕ, String, ◌==◌, Bool, true, false, not, ◌&&◌, ◌||◌, Option, none, some, List, [], ◌∷◌, nat_eq,
  if◌then◌else◌, Result, ok, err,
}
use codex_sync.Base.Json.{Json, float, text, array, object, Items, nil, cons, Fields, end, field}

abbrev pub Bytes : Type 0
Bytes = List ℕ

-- `a == b` of two `bytes`.
unfoldable pub bytes_eq : Bytes → Bytes → Bool
bytes_eq [] [] = true
bytes_eq (a ∷ as') (b ∷ bs) = nat_eq a b && bytes_eq as' bs
bytes_eq _ _ = false

-- A reading ends with one of `JSONL_READ_ERRORS` or with a `ValueError`: `undigestible` is one that
-- `canonical_digest` does not catch.
pub data ReadError : Type 0 where
  jsonl_error line_too_long undigestible : ReadError

-- `json.loads` raises a decoding error, or another `ValueError` before it meets a repeated key.
pub data LoadError : Type 0 where
  malformed value_error : LoadError

-- The standard library: `json.loads` of UTF-8 text, where an object is the list of its pairs as they
-- stand, `unicodedata.is_normalized("NFC", s)`, and the hash of the sorted dump of a value, `none` where
-- the dump cannot be encoded.
pub record Codec : Type 0 where
  pub loads : Bytes → Result LoadError Json
  pub is_nfc : String → Bool
  pub dump_digest : Json → Option String

is_key : String → Fields → Bool
is_key k end = false
is_key k (field j v fs) = k == j || is_key k fs

-- Whether `_object_without_repeats` raises for an object of the value.
unfoldable mutual
  unfolding is_key

  pub repeats_key : Json → Bool
  repeats_key (array xs) = repeats_key_items xs
  repeats_key (object fs) = repeats_key_fields fs
  repeats_key _ = false

  pub repeats_key_items : Items → Bool
  repeats_key_items nil = false
  repeats_key_items (cons x xs) = repeats_key x || repeats_key_items xs

  pub repeats_key_fields : Fields → Bool
  repeats_key_fields end = false
  repeats_key_fields (field k v fs) = is_key k fs || (repeats_key v || repeats_key_fields fs)

module _ (is_nfc : String → Bool) where
  unfoldable mutual
    pub canonicalisable : Json → Bool
    canonicalisable (float _) = false
    canonicalisable (text s) = is_nfc s
    canonicalisable (array xs) = canonicalisable_items xs
    canonicalisable (object fs) = canonicalisable_fields fs
    canonicalisable _ = true

    pub canonicalisable_items : Items → Bool
    canonicalisable_items nil = true
    canonicalisable_items (cons x xs) = canonicalisable x && canonicalisable_items xs

    pub canonicalisable_fields : Fields → Bool
    canonicalisable_fields end = true
    canonicalisable_fields (field k v fs) =
        is_nfc k && (canonicalisable v && canonicalisable_fields fs)

abbrev pub is_object : Json → Bool
is_object (object _) = true
is_object _ = false

abbrev pub encoded : Option String → Result ReadError (Option String)
encoded none = err undigestible
encoded (some digest) = ok (some digest)

unfoldable pub canonical_digest : Codec → Bytes → Result ReadError (Option String)
canonical_digest codec raw = elim (codec.loads raw) [
  | err malformed ↦ ok none
  | err value_error ↦ err undigestible
  | ok value ↦
      if repeats_key value
      then ok none
      else if not (is_object value)
      then ok none
      else if not (canonicalisable codec.is_nfc value)
      then ok none
      else encoded (codec.dump_digest value)
]

-- `raw.rstrip(b"\r\n")`
unfoldable pub rstrip_newlines : Bytes → Bytes
rstrip_newlines [] = []
rstrip_newlines (b ∷ bs) =
    let rest = rstrip_newlines bs in
    elim rest [ [] ↦ if nat_eq b 10 || nat_eq b 13 then [] else b ∷ [] | c ∷ cs ↦ b ∷ c ∷ cs ]

unfoldable pub digests_agree : String → String → Bool
digests_agree left right = left == right
