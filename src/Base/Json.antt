-- ===== src/Base/Json.antt =====
-- JSON values as the `json` module returns them: an object is a dict, in the order of its text.
use Prim.Native.String.{String}
use mathlib.Core.Path.{◌≡◌, refl, ap}
use mathlib.Core.Bool.{Bool}
use mathlib.Core.Option.{Option, none, some}
use mathlib.Core.List.{[], ◌∷◌}
use codex_sync.Base.Dicts.{Dict, lookup}
use codex_sync.Base.Int.{ℤ}

mutual
  pub data Json : Type 0 where
    null : Json
    boolean : Bool → Json
    integer : ℤ → Json
    float : String → Json
    text : String → Json
    array : Items → Json
    object : Fields → Json

  pub data Items : Type 0 where
    nil : Items
    cons : Json → Items → Items

  pub data Fields : Type 0 where
    end : Fields
    field : String → Json → Fields → Fields

abbrev pub to_dict : Fields → Dict Json
to_dict end = []
to_dict (field k v fs) = (k, v) ∷ to_dict fs

abbrev pub from_dict : Dict Json → Fields
from_dict [] = end
from_dict ((k, v) ∷ d) = field k v (from_dict d)

pub to_dict-from_dict : (d : Dict Json) → to_dict (from_dict d) ≡ d
to_dict-from_dict [] = refl
to_dict-from_dict ((k, v) ∷ d) = ap (λ r. (k, v) ∷ r) (to_dict-from_dict d)

-- `raw.get(key)`: `None` for a missing key as for `null`.
abbrev pub value_or_null : Option Json → Json
value_or_null none = null
value_or_null (some v) = v

unfoldable pub get : String → Fields → Json
get key fs = value_or_null (lookup key (to_dict fs))
