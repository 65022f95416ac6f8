-- ===== src/Prelude/Text.antt =====
-- ASCII texts as byte lists.
use Prim.Native.Nat.{ℕ}
use Prim.Native.Char.{code}
use Prim.Native.String.{String}
use mathlib.Core.List.{List, [], ◌∷◌}

-- The bytes of a literal `b"..."`.
abbrev pub codes : String → List ℕ
codes String.[] = []
codes (String.◌∷◌ character literal) = code character ∷ codes literal
