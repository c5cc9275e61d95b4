-- ===== src/Prelude/Text.antt =====
-- Texts as the bytes that a C string holds before its NUL.
use Prim.Native.Char.{code}
use linux_tutorial.Prelude.{ℕ, List, [], ◌∷◌, String}

-- The code points of a text: its bytes, if it is ASCII.
abbrev pub codes : String → List ℕ
codes String.[] = []
codes (String.◌∷◌ c s) = code c ∷ codes s
