-- ===== src/Transform.antt =====
-- host-rs/src/video/transform.rs: the letterbox and the rotation of RGB frames. A `usize` has 64 bits
-- and wraps, as in the release profile.
pub mod Fits
pub mod Rotates
mod Tests
use mobile_webcam_bridge.Prelude.{
  ℕ, zero, suc, ◌+◌, ◌-◌, ◌*◌, ◌/◌, ◌%◌, Bool, true, false, not, ◌&&◌, ◌||◌, List, ◌++◌, Option,
  none, some, ltb, leb, ◌==◌, if◌then◌else◌, length, take, drop,
}
use mobile_webcam_bridge.Prelude.Outcome.{
  Error, error, boxed, Result, ok, err, ◌>>=◌, ◌>>◌, guard, assert,
}
use mobile_webcam_bridge.Wire.Bytes.{slice}
use Prim.Native.String.{String}

abbrev pub word : ℕ
word = 18446744073709551616

abbrev pub mul : ℕ → ℕ → ℕ
mul a b = a * b % word

abbrev pub sub : ℕ → ℕ → ℕ
sub a b = (a + word - b) % word

-- `n & !1`
abbrev pub even : ℕ → ℕ
even n = n - n % 2

abbrev pub text : String → Error
text message = error boxed message

pub record Rect : Type 0 where
  pub x : ℕ
  pub y : ℕ
  pub width : ℕ
  pub height : ℕ

-- `(w, h)` of `fit`.
unfoldable pub scaled : ℕ → ℕ → ℕ → ℕ → ℕ × ℕ
scaled width height out_width out_height =
    if leb (mul width out_height) (mul height out_width)
    then (even (mul width out_height / height), out_height)
    else (out_width, mul height out_width / width)

unfoldable pub fit : ℕ → ℕ → ℕ → ℕ → Result Rect
unfolding scaled
fit width height out_width out_height = do
  guard
      (not (
        width == 0
        || height == 0
        || ltb out_width 2
        || not (out_width % 2 == 0)
        || out_height == 0))
      (text "invalid fit dimensions")
  let w : ℕ = (scaled width height out_width out_height).0
  let h : ℕ = (scaled width height out_width out_height).1
  guard (not (ltb w 2 || h == 0)) (text "rotated image is too narrow")
  ok (record { x = even (sub out_width w / 2); y = sub out_height h / 2; width = w; height = h })

-- `(ow, oh)` of `rotate`.
unfoldable pub turned : ℕ → ℕ → ℕ → ℕ × ℕ
turned angle width height = if angle == 90 || angle == 270 then (height, width) else (width, height)

-- `(dx, dy)` of `rotate`, where x < width and y < height.
unfoldable pub place : ℕ → ℕ → ℕ → ℕ → ℕ → Option (ℕ × ℕ)
place angle width height x y =
    if angle == 0
    then some (x, y)
    else if angle == 90
    then some (height - y - 1, x)
    else if angle == 180
    then some (width - x - 1, height - y - 1)
    else if angle == 270
    then some (y, width - x - 1)
    else none

-- `y * stride + x * 3`
abbrev pub offset : ℕ → ℕ → ℕ → ℕ
offset stride x y = (y * stride + x * 3) % word

-- `destination[d..d + 3].copy_from_slice(&source[s..s + 3])`
unfoldable pub copy_pixel : List ℕ → ℕ → List ℕ → ℕ → Result (List ℕ)
unfolding slice
copy_pixel source s destination d = do
  pixel ← slice source s (s + 3)
  assert (leb (d + 3) (length destination))
  ok (take d destination ++ (pixel ++ drop (d + 3) destination))

module _ (source : List ℕ) (width height stride out_stride angle : ℕ) where
  unfoldable pub step : ℕ → ℕ → List ℕ → Result (List ℕ)
  unfolding copy_pixel
  step x y destination = elim (place angle width height x y) [
    | none ↦ err (text "invalid rotation")
    | some (dx, dy) ↦ copy_pixel source (offset stride x y) destination (offset out_stride dx dy)
  ]

  -- The loop over x, with the columns that are left.
  unfoldable pub columns : ℕ → ℕ → ℕ → List ℕ → Result (List ℕ)
  unfolding step
  columns zero x y destination = ok destination
  columns (suc left) x y destination = do next ← step x y destination; columns left (x + 1) y next

  -- The loop over y, with the rows that are left.
  unfoldable pub rows : ℕ → ℕ → List ℕ → Result (List ℕ)
  unfolding columns
  rows zero y destination = ok destination
  rows (suc left) y destination = do next ← columns width 0 y destination; rows left (y + 1) next

-- What `rotate` leaves in the destination.
unfoldable pub rotate : List ℕ → ℕ → ℕ → ℕ → List ℕ → ℕ → ℕ → Result (List ℕ)
unfolding rows turned
rotate source width height stride destination out_stride angle = do
  let ow : ℕ = (turned angle width height).0
  let oh : ℕ = (turned angle width height).1
  guard
      (not (
        width == 0
        || height == 0
        || ltb stride (mul width 3)
        || ltb out_stride (mul ow 3)
        || ltb (length source / stride) height
        || ltb (length destination / out_stride) oh))
      (text "invalid RGB buffer")
  rows source width height stride out_stride angle height 0 destination
