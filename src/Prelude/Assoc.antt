-- ===== src/Prelude/Assoc.antt =====
-- A Go map from strings: its writes, the last one first. The last write of a key counts.
use Prim.Native.String.{String}
use text.Mathlib.Text.{◌==◌ as str_eq}
use mathlib.Core.Bool.{Bool, false, ◌||◌}
use mathlib.Core.List.{List, [], ◌∷◌}
use mathlib.Core.Option.{Option, none, some}
use pine_vid_backend.Prelude.Tests.{if◌then◌else◌}

module _ {ℓ} {V : Type ℓ} where
  unfoldable pub value_of : List (String × V) → String → Option V
  value_of [] key = none
  value_of ((written, value) ∷ older) key =
      let before = value_of older key in if str_eq written key then some value else before

  -- `m[key] = value`
  abbrev pub write : String → V → List (String × V) → List (String × V)
  write key value writes = (key, value) ∷ writes

unfoldable pub mem_str : String → List String → Bool
mem_str k [] = false
mem_str k (j ∷ js) = str_eq j k || mem_str k js
