-- ===== src/Prelude/Texts.antt =====
-- Equality and order of texts: `==` and `<` of std::string.
use Prim.Native.String.{String, compare}
use mathlib.Core.Bool.{Bool}
use text.Mathlib.Text
use text.Mathlib.Text.{is_lt}

abbrev pub same : String → String → Bool
same s t = Text.◌==◌ s t

abbrev pub precedes : String → String → Bool
precedes s t = is_lt (compare s t)
