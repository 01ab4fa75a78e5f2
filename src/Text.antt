-- ===== src/Text.antt =====
-- Python's `str`, as the list of its code points, and the methods of it that the program calls.
-- An index or a slice counts code points, as in Python.
pub mod Strip
pub mod Find
pub mod Equal
use Prim.Native.Char.{code}
use Prim.Native.String.{String}
use franklink.Prelude.{ℕ, List, [], ◌∷◌}

abbrev pub Text : Type 0
Text = List ℕ

-- The code points of a literal.
abbrev pub codes : String → Text
codes String.[] = []
codes (String.◌∷◌ c s) = code c ∷ codes s
