-- ===== src/Quality/Edition.antt =====
-- host-rs/src/quality/edition.rs: the edition's cap on modes and wishes.
pub mod Caps
use mobile_webcam_bridge.Prelude.{
  ℕ, Bool, true, false, not, ◌&&◌, ◌||◌, Option, none, some, List, leb, ltb, ◌==◌, if◌then◌else◌,
}
use mobile_webcam_bridge.Wire.Header.{within}
use mobile_webcam_bridge.Quality.Switch.{same_size}
use mobile_webcam_bridge.Quality.Preference.{Mode, Wish, wish_tuple, auto, keep, F64, resolve}
use Prim.Native.Nat.{max, min}

pub record EditionCap : Type 0 where
  pub max_long_edge : ℕ
  pub max_short_edge : ℕ
  pub max_fps : ℕ

unfoldable pub allows_size : EditionCap → ℕ → ℕ → Bool
allows_size cap width height =
    within 1 cap.max_long_edge (max width height) && within 1 cap.max_short_edge (min width height)

unfoldable pub allows : EditionCap → ℕ → ℕ → ℕ → Bool
unfolding allows_size
allows cap width height fps = allows_size cap width height && within 1 cap.max_fps fps

unfoldable pub filter : EditionCap → List Mode → List Mode
filter cap modes = keep (λ m. allows cap m.width m.height m.fps) modes

abbrev clamp_size : EditionCap → Wish → Wish
clamp_size cap wish =
    if not (wish.width == 0) && not (allows_size cap wish.width wish.height)
    then record wish { width = 0; height = 0 }
    else wish

abbrev clamp_fps : EditionCap → Wish → Wish
clamp_fps cap wish = if ltb cap.max_fps wish.fps then record wish { fps = 0 } else wish

-- The second part says whether anything changed.
unfoldable pub clamp_wish : EditionCap → Wish → Wish × Bool
clamp_wish cap wish =
    let out = clamp_fps cap (clamp_size cap wish) in
    (out, not (same_size (wish_tuple out) (wish_tuple wish)))

-- `OSS_CAP_1080P30`, which `active` returns.
abbrev pub oss_cap_1080p30 : EditionCap
oss_cap_1080p30 = record { max_long_edge = 1920; max_short_edge = 1080; max_fps = 30 }

abbrev pub active : EditionCap
active = oss_cap_1080p30

unfoldable pub coerce_wish_to_available : F64 → Wish → List Mode → Wish × Bool
coerce_wish_to_available f64 wish modes = elim (resolve f64 wish modes) [
  | none ↦ (auto, true)
  | some m ↦ (wish, false)
]
