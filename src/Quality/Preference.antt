-- ===== src/Quality/Preference.antt =====
-- host-rs/src/quality/preference.rs, and `Mode` of host-rs/src/quality.rs. The f64 of the aspect ratio
-- is a parameter: numbers with the operations that `resolve` uses.
pub mod Best
use mobile_webcam_bridge.Prelude.{
  ℕ, ◌+◌, ◌-◌, ◌*◌, ◌%◌, Bool, true, false, not, ◌&&◌, ◌||◌, Option, none, some, List, [], ◌∷◌, leb,
  ltb, ◌==◌, ◌≡◌, if◌then◌else◌,
}
use mobile_webcam_bridge.Wire.Capabilities.{QualityMode}
use mobile_webcam_bridge.Quality.Types.{Size}
use mobile_webcam_bridge.Quality.Switch.{same_size}
use Prim.Native.Nat.{compare, Ordering}

pub record Mode : Type 0 where
  pub width : ℕ  -- u16
  pub height : ℕ  -- u16
  pub fps : ℕ  -- u16
  pub bitrate : ℕ  -- u32

-- `From<wire::QualityMode>`
abbrev pub from_wire : QualityMode → Mode
from_wire m = record { width = m.width; height = m.height; fps = m.target_fps; bitrate = m.bitrate }

pub record Wish : Type 0 where
  pub width : ℕ  -- u16
  pub height : ℕ  -- u16
  pub fps : ℕ  -- u16

-- `From<(u16, u16, u16)>`
abbrev pub wish_of : Size → Wish
wish_of (w, h, f) = record { width = w; height = h; fps = f }

abbrev pub auto : Wish
auto = record { width = 0; height = 0; fps = 0 }

abbrev pub wish_tuple : Wish → Size
wish_tuple w = (w.width, w.height, w.fps)

abbrev pub tuple : Mode → Size
tuple m = (m.width, m.height, m.fps)

-- `==` on two `bool`s
abbrev pub same_bool : Bool → Bool → Bool
same_bool true b = b
same_bool false b = not b

unfoldable pub valid : Wish → Bool
valid w =
    same_bool (w.width == 0) (w.height == 0)
    && leb w.width 3840
    && leb w.height 2160
    && w.width % 2 == 0
    && leb w.fps 60

unfoldable pub usable : Mode → Bool
unfolding valid
usable m =
    not (m.width == 0)
    && not (m.height == 0)
    && not (m.fps == 0)
    && valid (wish_of (tuple m))
    && not (m.bitrate == 0)

-- What `resolve` filters by.
unfoldable pub matches : Wish → Mode → Bool
matches w m =
    usable m
    && (w.width == 0 || (m.width == w.width && m.height == w.height))
    && (w.fps == 0 || m.fps == w.fps)

-- `iter().filter(p)`
abbrev pub keep : {A : Type 0} → (A → Bool) → List A → List A
keep p [] = []
keep p (x ∷ xs) = let rest = keep p xs in if p x then x ∷ rest else rest

-- `f64`, as far as `resolve` uses it. IEEE's total order places the numbers on a line.
pub record F64 : Type 1 where
  pub Float : Type 0
  pub from : ℕ → Float
  pub div : Float → Float → Float
  pub sub : Float → Float → Float
  pub abs : Float → Float
  pub total_cmp : Float → Float → Ordering
  pub place : Float → ℕ
  pub total_cmp_place : (a b : Float) → total_cmp a b ≡ compare (place a) (place b)

-- `Ordering::then_with`
abbrev pub then_with : Ordering → Ordering → Ordering
then_with Ordering.eq o = o
then_with o _ = o

abbrev pub fps_group : ℕ → ℕ
fps_group fps = if leb fps 30 then 0 else 1

abbrev pub fps_rest : ℕ → ℕ
fps_rest fps = if leb fps 30 then 30 - fps else fps

-- `u32::abs_diff`
abbrev pub abs_diff : ℕ → ℕ → ℕ
abs_diff a b = if ltb a b then b - a else a - b

-- u16 × u16 fits u32.
abbrev pub area_error : Mode → ℕ
area_error m = abs_diff (m.width * m.height) (1280 * 720)

module _ (f64 : F64) where
  unfoldable pub aspect_error : Mode → F64.Float f64
  aspect_error m = f64.abs (
      f64.sub (f64.div (f64.from m.width) (f64.from m.height))
        (f64.div (f64.from 1280) (f64.from 720)))

  -- The comparison that `min_by` is given; tuples compare field by field.
  unfoldable pub mode_cmp : Mode → Mode → Ordering
  mode_cmp a b =
      then_with
        (then_with (compare (fps_group a.fps) (fps_group b.fps))
          (compare (fps_rest a.fps) (fps_rest b.fps)))
        (then_with (f64.total_cmp (aspect_error a) (aspect_error b)) (
          then_with (compare (area_error a) (area_error b))
            (then_with (compare a.width b.width) (compare a.height b.height))))

  -- `reduce` of `min_by`: the first of the least stays.
  abbrev pub smaller : Mode → Mode → Mode
  smaller x y = elim (mode_cmp x y) [ Ordering.gt ↦ y | _ ↦ x ]

  unfoldable pub min_from : Mode → List Mode → Mode
  min_from x [] = x
  min_from x (y ∷ ys) = min_from (smaller x y) ys

  abbrev pub min_by : List Mode → Option Mode
  min_by [] = none
  min_by (x ∷ xs) = some (min_from x xs)

  unfoldable pub resolve : Wish → List Mode → Option Mode
  resolve w modes = if not (valid w) then none else min_by (keep (matches w) modes)
