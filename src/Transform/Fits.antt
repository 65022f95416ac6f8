-- ===== src/Transform/Fits.antt =====
-- The rectangle of `fit` in host-rs/src/video/transform.rs.
use mobile_webcam_bridge.Prelude.{
  leb→le, ℕ, ◌+◌, ◌-◌, ◌*◌, ◌/◌, ◌%◌, ◌≤◌, ◌<◌, ◌≡◌, ◌⊎◌, inl, inr, refl, leb, arith, Bool-cases,
}
use mobile_webcam_bridge.Prelude.Outcome.{ok}
use mobile_webcam_bridge.Transform.{Rect, fit, scaled, mul, sub, even}
use native.Mathlib.Nat.{div-le_of_le-mul, mul-le-mul, mod-eq_of_lt}

-- A product of two numbers below 2 ^ 32 does not wrap.
pub mul_small : (a b : ℕ) → a < 4294967296 → b < 4294967296 → mul a b ≡ a * b
mul_small a b h k =
    let ha : a ≤ 4294967295 = omega arith in
    let hb : b ≤ 4294967295 = omega arith in
    let p : a * b ≤ 4294967295 * 4294967295 = mul-le-mul ha hb in mod-eq_of_lt (omega arith)

scaled_bounds :
    (width height out_width out_height : ℕ)
    → width < 4294967296
    → height < 4294967296
    → out_width < 4294967296
    → out_height < 4294967296
    → out_width % 2 ≡ 0
    → ((scaled width height out_width out_height).0 ≤ out_width)
      × ((scaled width height out_width out_height).1 ≤ out_height)
      × ((scaled width height out_width out_height).0 % 2 ≡ 0)
      × (((scaled width height out_width out_height).0 ≡ out_width)
          ⊎ ((scaled width height out_width out_height).1 ≡ out_height))
unfolding scaled
scaled_bounds width height out_width out_height a b c d e =
    rw (mul_small width out_height a d, mul_small height out_width b c)
      (elim (Bool-cases (leb (width * out_height) (height * out_width))) [
        | inl t ↦
            let h : width * out_height ≤ height * out_width = leb→le _ _ t in
            let q : width * out_height / height ≤ out_width = div-le_of_le-mul height h in
            rw t (omega arith, omega arith, omega arith, inr refl)
        | inr t ↦
            let h : height * out_width ≤ width * out_height = ground arith in
            let q : height * out_width / width ≤ out_height = div-le_of_le-mul width h in
            rw t (omega arith, q, e, inl refl)
      ])

-- The rectangle lies inside the output, on even columns, and fills it in one direction.
pub record Inside (r : Rect) (out_width out_height : ℕ) : Type 0 where
  pub some_width : 2 ≤ r.width
  pub some_height : 1 ≤ r.height
  pub even_x : r.x % 2 ≡ 0
  pub even_width : r.width % 2 ≡ 0
  pub right : r.x + r.width ≤ out_width
  pub bottom : r.y + r.height ≤ out_height
  pub fills : (r.width ≡ out_width) ⊎ (r.height ≡ out_height)

fit_inv :
    (width height out_width out_height : ℕ) (r : Rect)
    → fit width height out_width out_height ≡ ok r
    → (out_width % 2 ≡ 0)
      × (2 ≤ (scaled width height out_width out_height).0)
      × (1 ≤ (scaled width height out_width out_height).1)
      × (r.width ≡ (scaled width height out_width out_height).0)
      × (r.height ≡ (scaled width height out_width out_height).1)
      × (r.x ≡ even (sub out_width (scaled width height out_width out_height).0 / 2))
      × (r.y ≡ sub out_height (scaled width height out_width out_height).1 / 2)
unfolding fit
fit_inv width height out_width out_height r e = ground arith

-- For dimensions below 2 ^ 32, a rectangle that `fit` returns lies inside the output on even columns,
-- is not empty and fills the output in one direction: none of its subtractions wraps.
pub fit-Inside :
    (width height out_width out_height : ℕ) (r : Rect)
    → width < 4294967296
    → height < 4294967296
    → out_width < 4294967296
    → out_height < 4294967296
    → fit width height out_width out_height ≡ ok r
    → Inside r out_width out_height
fit-Inside width height out_width out_height r a b c d e =
    let (even_out, w2, h1, rw_, rh, rx, ry) = fit_inv width height out_width out_height r e in
    let (w, h, even_w, fill) = scaled_bounds width height out_width out_height a b c d even_out in
    let sw : sub out_width r.width ≡ out_width - r.width = omega arith in
    let sh : sub out_height r.height ≡ out_height - r.height = omega arith in
    record {
      some_width = omega arith;
      some_height = omega arith;
      even_x = omega arith;
      even_width = omega arith;
      right = omega arith;
      bottom = omega arith;
      fills = ground arith;
    }
