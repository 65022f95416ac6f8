-- ===== src/Transform/Tests.antt =====
-- The theorems on the transforms at concrete inputs, and runs.
use mobile_webcam_bridge.Prelude.{ℕ, ◌≡◌, refl, List, [], ◌∷◌, replicate, arith}
use mobile_webcam_bridge.Prelude.Outcome.{ok}
use mobile_webcam_bridge.Wire.Bytes
use mobile_webcam_bridge.Transform
use mobile_webcam_bridge.Transform.{Rect, fit, rotate}
use mobile_webcam_bridge.Transform.Fits.{Inside, fit-Inside}
use mobile_webcam_bridge.Transform.Rotates.{Keeps, rotate-Keeps}

-- A portrait picture in a landscape output.
abbrev portrait : Rect
portrait = record { x = 438; y = 0; width = 404; height = 720 }

portrait_fits : fit 720 1280 1280 720 ≡ ok portrait
unfolding fit Transform.scaled
portrait_fits = refl

fit-Inside_example : Inside portrait 1280 720
fit-Inside_example =
    fit-Inside 720 1280 1280 720 portrait (omega arith) (omega arith) (omega arith) (omega arith)
      portrait_fits

abbrev pixels : List ℕ
pixels = 1 ∷ 1 ∷ 1 ∷ 2 ∷ 2 ∷ 2 ∷ 3 ∷ 3 ∷ 3 ∷ 4 ∷ 4 ∷ 4 ∷ 5 ∷ 5 ∷ 5 ∷ 6 ∷ 6 ∷ 6 ∷ []

pixels_turn :
    rotate pixels 3 2 9 (replicate 18 0) 6 90
    ≡ ok (4 ∷ 4 ∷ 4 ∷ 1 ∷ 1 ∷ 1 ∷ 5 ∷ 5 ∷ 5 ∷ 2 ∷ 2 ∷ 2 ∷ 6 ∷ 6 ∷ 6 ∷ 3 ∷ 3 ∷ 3 ∷ [])
unfolding rotate Transform.turned Transform.rows Transform.columns Transform.step Transform.place
    Transform.copy_pixel Bytes.slice
pixels_turn = refl

rotate-Keeps_example : Keeps 18 (rotate pixels 3 2 9 (replicate 18 0) 6 90)
rotate-Keeps_example =
    rotate-Keeps pixels 3 2 9 (replicate 18 0) 6 90 (omega arith) (omega arith) (omega arith)
      (omega arith)
