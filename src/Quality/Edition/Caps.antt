-- ===== src/Quality/Edition/Caps.antt =====
-- What the edition's cap lets through, and what it makes of a wish.
use mobile_webcam_bridge.Prelude.{
  ℕ, ◌≤◌, ◌<◌, ◌≡◌, ◌↔◌, ◌⊎◌, true, false, none, List, arith, In, subst,
}
use mobile_webcam_bridge.Quality.Preference.{Mode, Wish, F64, resolve, valid}
use mobile_webcam_bridge.Quality.Preference.Best.{In-keep_of, In-keep_to}
use mobile_webcam_bridge.Quality.Edition.{
  EditionCap, allows_size, allows, filter, clamp_wish, coerce_wish_to_available,
}

-- A mode passes the filter exactly if it was advertised and its longer edge, its shorter edge and its
-- rate are each positive and within the cap, whichever way it is turned.
allows_sides :
    (cap : EditionCap) (long short fps : ℕ)
    → short ≤ long
    → (allows cap long short fps ≡ true) ↔ (
        (0 < short)
        × (long ≤ cap.max_long_edge)
        × (short ≤ cap.max_short_edge)
        × (0 < fps)
        × (fps ≤ cap.max_fps))
unfolding allows
allows_sides cap long short fps h = (λ e. ground arith, λ (a, b, c, d, e). ground arith)

allows_turned : (cap : EditionCap) (w h fps : ℕ) → allows cap w h fps ≡ allows cap h w fps
unfolding allows
allows_turned cap w h fps = ground arith

-- The cap does not depend on the orientation, and what it allows has both edges and the rate positive
-- and within the limits.
pub cap_iff :
    (cap : EditionCap) (long short fps : ℕ)
    → short ≤ long
    → (allows cap long short fps ≡ allows cap short long fps)
      × ((allows cap long short fps ≡ true) ↔ (
          (0 < short)
          × (long ≤ cap.max_long_edge)
          × (short ≤ cap.max_short_edge)
          × (0 < fps)
          × (fps ≤ cap.max_fps)))
cap_iff cap long short fps h = (allows_turned cap long short fps, allows_sides cap long short fps h)

-- A mode passes the filter exactly if it was listed and the cap allows it.
filter_iff :
    (cap : EditionCap) (m : Mode) (modes : List Mode)
    → In m (filter cap modes) ↔ (In m modes × (allows cap m.width m.height m.fps ≡ true))
unfolding filter
filter_iff cap m modes = (
  λ i. In-keep_of (λ x. allows cap x.width x.height x.fps) m modes i,
  λ (i, e). In-keep_to (λ x. allows cap x.width x.height x.fps) m modes i e,
)

abbrev pub Within : EditionCap → Wish → Type 0
Within cap w = ((w.width ≡ 0) ⊎ (allows_size cap w.width w.height ≡ true)) × (w.fps ≤ cap.max_fps)

clamp-Within : (cap : EditionCap) (w : Wish) → Within cap (clamp_wish cap w).0
unfolding clamp_wish
clamp-Within cap w = ground arith

clamp_keeps : (cap : EditionCap) (w : Wish) → Within cap w → (clamp_wish cap w).0 ≡ w
unfolding clamp_wish
clamp_keeps cap w v = ground arith

clamp_flag :
    (cap : EditionCap) (w : Wish) → ((clamp_wish cap w).1 ≡ false) ↔ ((clamp_wish cap w).0 ≡ w)
unfolding clamp_wish
clamp_flag cap w = (λ e. ground arith, λ e. ground arith)

-- A valid wish stays valid.
pub clamp_valid : (cap : EditionCap) (w : Wish) → valid w ≡ true → valid (clamp_wish cap w).0 ≡ true
unfolding clamp_wish valid
clamp_valid cap w v = ground arith

-- A clamped wish is within the cap. It is the wish itself exactly if that was within the cap, and the
-- flag says so; clamping again changes nothing.
pub clamp_wish_lem :
    (cap : EditionCap) (w : Wish)
    → Within cap (clamp_wish cap w).0
      × (((clamp_wish cap w).0 ≡ w) ↔ Within cap w)
      × (((clamp_wish cap w).1 ≡ false) ↔ ((clamp_wish cap w).0 ≡ w))
      × (clamp_wish cap (clamp_wish cap w).0 ≡ ((clamp_wish cap w).0, false))
clamp_wish_lem cap w =
    let out : Wish = (clamp_wish cap w).0 in
    let same : (clamp_wish cap out).0 ≡ out = clamp_keeps cap out (clamp-Within cap w) in
    (
      clamp-Within cap w,
      (λ e. subst (Within cap) e (clamp-Within cap w), clamp_keeps cap w),
      clamp_flag cap w,
      λ i. (same i, (clamp_flag cap out).1 same i),
    )

-- A wish that does not resolve against the advertised modes becomes Auto, any other stays.
coerce_iff :
    (f64 : F64) (w : Wish) (modes : List Mode)
    → ((coerce_wish_to_available f64 w modes).1 ≡ true) ↔ (resolve f64 w modes ≡ none)
unfolding coerce_wish_to_available
coerce_iff f64 w modes = (λ e. ground arith, λ e. ground arith)
