-- ===== src/Transform/Rotates.antt =====
-- The buffers of `rotate` in host-rs/src/video/transform.rs.
use mobile_webcam_bridge.Prelude.{
  ℕ, zero, suc, ◌+◌, ◌-◌, ◌*◌, ◌/◌, ◌≤◌, ◌<◌, ◌≡◌, inl, inr, refl, Bool, ◌||◌, ltb, ◌==◌, arith,
  List, ◌++◌, Bool-cases, none, some, Option, length, length-append, length-take, length-drop, take,
  drop, ◌∙◌,
}
use mobile_webcam_bridge.Prelude.Outcome.{Result, ok, err, panic, NoPanic, ◌>>=◌}
use mobile_webcam_bridge.Wire.Bytes.{slice, slice_lem}
use mobile_webcam_bridge.Transform.{
  mul, word, offset, place, text, turned, copy_pixel, step, columns, rows, rotate,
}
use mobile_webcam_bridge.Transform.Fits.{mul_small}
use native.Mathlib.Nat.{mul-le-mul_right, le-div_iff_mul-le, mod-eq_of_lt}

-- A pixel of an image of `height` rows, each inside a stride, lies inside the buffer.
offset_bound :
    (n stride width height x y : ℕ)
    → width * 3 ≤ stride
    → height * stride ≤ n
    → n < word
    → x < width
    → y < height
    → offset stride x y + 3 ≤ n
offset_bound n stride width height x y w h small p q =
    let up : (y + 1) * stride ≤ height * stride = mul-le-mul_right stride (omega arith) in
    let flat : (y + 1) * stride ≡ y * stride + stride = omega arith in
    let inside : y * stride + x * 3 + 3 ≤ n = omega arith in
    let same : offset stride x y ≡ y * stride + x * 3 = mod-eq_of_lt (omega arith) in omega arith

-- A pixel's new place lies in the turned image.
place_bound :
    (angle width height x y dx dy : ℕ)
    → x < width
    → y < height
    → place angle width height x y ≡ some (dx, dy)
    → (dx < (turned angle width height).0) × (dy < (turned angle width height).1)
unfolding place turned
place_bound angle width height x y dx dy p q e = ground arith

length-copy_pixel :
    (source : List ℕ) (s : ℕ) (destination : List ℕ) (d : ℕ) (out : List ℕ)
    → copy_pixel source s destination d ≡ ok out
    → s + 3 ≤ length source
    → d + 3 ≤ length destination
    → length out ≡ length destination
unfolding copy_pixel
length-copy_pixel source s destination d out e h k =
    let pixel : List ℕ = take (s + 3 - s) (drop s source) in
    let read : slice source s (s + 3) ≡ ok pixel = slice_lem source s (s + 3) (omega arith) h in
    let written : out ≡ take d destination ++ (pixel ++ drop (d + 3) destination) = ground arith in
    let three : length pixel ≡ 3 =
      omega (arith, length-take (s + 3 - s) (drop s source), length-drop s source) in
    rw written (
      omega (
        arith,
        length-append (take d destination) (pixel ++ drop (d + 3) destination),
        length-append pixel (drop (d + 3) destination),
        length-take d destination,
        length-drop (d + 3) destination,
        three,
      ))

copy_pixel-NoPanic :
    (source : List ℕ) (s : ℕ) (destination : List ℕ) (d : ℕ)
    → s + 3 ≤ length source
    → d + 3 ≤ length destination
    → NoPanic (copy_pixel source s destination d)
unfolding copy_pixel
copy_pixel-NoPanic source s destination d h k =
    ground (arith, slice_lem source s (s + 3) (omega arith) h)

-- What the guard of `rotate` gives the loops, for a destination of `n` bytes.
pub record Fits (source : List ℕ) (width height stride out_stride angle n : ℕ) : Type 0 where
  row : width * 3 ≤ stride
  out_row : (turned angle width height).0 * 3 ≤ out_stride
  rows : height * stride ≤ length source
  out_rows : (turned angle width height).1 * out_stride ≤ n
  small : length source < word
  out_small : n < word

-- The result is an error, or a buffer of the same length.
abbrev pub Keeps : ℕ → Result (List ℕ) → Type 0
Keeps n (ok out) = length out ≡ n
Keeps n (err e) = Unit
Keeps n panic = ⊥

Keeps-bind :
    (n : ℕ) (r : Result (List ℕ)) (f : List ℕ → Result (List ℕ))
    → Keeps n r
    → ((out : List ℕ) → length out ≡ n → Keeps n (f out))
    → Keeps n (r >>= f)
Keeps-bind n (ok out) f k h = h out k
Keeps-bind n (err e) f k h = tt
Keeps-bind n panic f k h = k

Keeps-of :
    (n : ℕ) (r : Result (List ℕ))
    → NoPanic r
    → ((out : List ℕ) → r ≡ ok out → length out ≡ n)
    → Keeps n r
Keeps-of n (ok out) k h = h out refl
Keeps-of n (err e) k h = tt
Keeps-of n panic k h = k

module _ (source : List ℕ) (width height stride out_stride angle n : ℕ)
    (v : Fits source width height stride out_stride angle n) where
  placed-Keeps :
      (x y : ℕ) (destination : List ℕ) (to : Option (ℕ × ℕ))
      → x < width
      → y < height
      → length destination ≡ n
      → place angle width height x y ≡ to
      → Keeps n (elim to [
        | none ↦ err (text "invalid rotation")
        | some (dx, dy) ↦
            copy_pixel source (offset stride x y) destination (offset out_stride dx dy)
      ])
  placed-Keeps x y destination none p q m e = tt
  placed-Keeps x y destination (some (dx, dy)) p q m e =
      let (bx, by) = place_bound angle width height x y dx dy p q e in
      let s : offset stride x y + 3 ≤ length source =
        offset_bound (length source) stride width height x y v.row v.rows v.small p q in
      let d : offset out_stride dx dy + 3 ≤ length destination = rw m (
        offset_bound n out_stride (turned angle width height).0 (turned angle width height).1 dx dy
          v.out_row v.out_rows v.out_small bx by) in
      Keeps-of n _ (copy_pixel-NoPanic source (offset stride x y) destination _ s d)
        (λ out c. length-copy_pixel source (offset stride x y) destination _ out c s d ∙ m)

  step-Keeps :
      (x y : ℕ) (destination : List ℕ)
      → x < width
      → y < height
      → length destination ≡ n
      → Keeps n (step source width height stride out_stride angle x y destination)
  unfolding step
  step-Keeps x y destination p q m =
      placed-Keeps x y destination (place angle width height x y) p q m refl

  columns-Keeps :
      (left x y : ℕ) (destination : List ℕ)
      → x + left ≡ width
      → y < height
      → length destination ≡ n
      → Keeps n (columns source width height stride out_stride angle left x y destination)
  unfolding columns
  columns-Keeps zero x y destination p q m = m
  columns-Keeps (suc left) x y destination p q m =
      Keeps-bind n _ _ (step-Keeps x y destination (omega arith) q m)
        (λ out k. columns-Keeps left (x + 1) y out (omega arith) q k)

  rows-Keeps :
      (left y : ℕ) (destination : List ℕ)
      → y + left ≡ height
      → length destination ≡ n
      → Keeps n (rows source width height stride out_stride angle left y destination)
  unfolding rows
  rows-Keeps zero y destination q m = m
  rows-Keeps (suc left) y destination q m =
      Keeps-bind n _ _ (columns-Keeps width 0 y destination (omega arith) (omega arith) m)
        (λ out k. rows-Keeps left (y + 1) out (omega arith) k)

turned_small :
    (angle width height : ℕ)
    → width < 4294967296
    → height < 4294967296
    → (0 < width)
    → (0 < height)
    → ((turned angle width height).0 < 4294967296) × (0 < (turned angle width height).0)
unfolding turned
turned_small angle width height a b c d = ground arith

-- `rotate` never panics, and a destination that it hands back has the length that it had: for
-- dimensions below 2 ^ 32 and buffers of less than 2 ^ 64 bytes every pixel that it reads or writes
-- lies inside its buffer, whatever the strides and the angle.
pub rotate-Keeps :
    (source : List ℕ) (width height stride : ℕ) (destination : List ℕ) (out_stride angle : ℕ)
    → width < 4294967296
    → height < 4294967296
    → length source < word
    → length destination < word
    → Keeps (length destination) (rotate source width height stride destination out_stride angle)
unfolding rotate
rotate-Keeps source width height stride destination out_stride angle a b c d =
    let ow : ℕ = (turned angle width height).0 in
    let oh : ℕ = (turned angle width height).1 in
    let bad : Bool =
      width == 0
      || height == 0
      || ltb stride (mul width 3)
      || ltb out_stride (mul ow 3)
      || ltb (length source / stride) height
      || ltb (length destination / out_stride) oh in
    elim (Bool-cases bad) [
      | inl e ↦ rw (e, Keeps) tt
      | inr e ↦
          let w : 0 < width = ground arith in
          let h : 0 < height = ground arith in
          let (small, some_ow) = turned_small angle width height a b w h in
          let row : mul width 3 ≤ stride = ground arith in
          let out_row : mul ow 3 ≤ out_stride = ground arith in
          let rs : height ≤ length source / stride = ground arith in
          let out_rs : oh ≤ length destination / out_stride = ground arith in
          let row' : width * 3 ≤ stride = omega (arith, mul_small width 3 a (omega arith)) in
          let out_row' : ow * 3 ≤ out_stride = omega (arith, mul_small ow 3 small (omega arith)) in
          let fits : Fits source width height stride out_stride angle (length destination) =
            record {
              row = row';
              out_row = out_row';
              rows = (le-div_iff_mul-le {k = stride} (omega arith)).0 rs;
              out_rows = (le-div_iff_mul-le {k = out_stride} (omega arith)).0 out_rs;
              small = c;
              out_small = d;
            } in
          rw (e, Keeps)
            (rows-Keeps source width height stride out_stride angle (length destination) fits height
              0 destination (omega arith) refl)
    ]
