-- ===== src/Control/Tests.antt =====
-- The theorem on the control channel at a concrete input, and runs.
use mobile_webcam_bridge.Prelude.{
  ℕ, ◌≡◌, refl, Bool, true, false, List, [], ◌∷◌, ◌++◌, none, some, ◌==◌, arith,
}
use mobile_webcam_bridge.Prelude.Outcome.{Result, ok, err, error, boxed}
use mobile_webcam_bridge.Wire.Bytes.{index}
use mobile_webcam_bridge.Control.{Fill, gives, read_line, read, write}
use mobile_webcam_bridge.Control.Lines.{unbroken, content, read-write}

-- The JSON of a truth value.
abbrev to_vec : Bool → Result (List ℕ)
to_vec true = ok (116 ∷ 114 ∷ 117 ∷ 101 ∷ [])
to_vec false = ok (102 ∷ 97 ∷ 108 ∷ 115 ∷ 101 ∷ [])

abbrev from_slice : List ℕ → Result Bool
from_slice [] = err (error boxed "end of file")
from_slice (b ∷ bytes) = ok (b == 116)

one_line : (message : Bool) (bytes : List ℕ) → to_vec message ≡ ok bytes → unbroken bytes ≡ true
one_line true bytes e = ground arith
one_line false bytes e = ground arith

parses_back :
    (message : Bool) (bytes : List ℕ)
    → to_vec message ≡ ok bytes
    → from_slice (bytes ++ (10 ∷ [])) ≡ ok message
parses_back true bytes e = ground arith
parses_back false bytes e = ground arith

true_line : write to_vec (ok tt) true ≡ ok (116 ∷ 114 ∷ 117 ∷ 101 ∷ 10 ∷ [])
unfolding write
true_line = refl

abbrev chunks : List Fill
chunks = gives (116 ∷ 114 ∷ []) ∷ gives (117 ∷ 101 ∷ 10 ∷ 102 ∷ []) ∷ []

read-write_example :
    (left : List Fill) × (read from_slice chunks ≡ (ok (some true), left))
    × (content left ≡ 102 ∷ [])
read-write_example =
    read-write to_vec from_slice one_line parses_back true (116 ∷ 114 ∷ 117 ∷ 101 ∷ 10 ∷ [])
      (102 ∷ []) chunks true_line refl refl

truncated :
    (read from_slice (gives (116 ∷ []) ∷ [])).0 ≡ err (error boxed "truncated control message")
unfolding read read_line index
truncated = refl

nothing_left : read from_slice [] ≡ (ok none, [])
unfolding read read_line index
nothing_left = refl
