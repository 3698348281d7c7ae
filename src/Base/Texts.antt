-- ===== src/Base/Texts.antt =====
-- Go's `==` of two texts.
use Prim.Native.String.{String}
use mathlib.Core.Bool.{Bool}
use text.Mathlib.Text.{◌==◌}

abbrev pub same_text : String → String → Bool
same_text s t = s == t

abbrev pub is_empty : String → Bool
is_empty s = s == ""
