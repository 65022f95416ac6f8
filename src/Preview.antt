-- ===== src/Preview.antt =====
-- The record header of host-rs/src/preview.rs, and `step_for`.
pub mod Laws
pub mod Lock
mod Tests
use mobile_webcam_bridge.Prelude.{
  ℕ, ◌+◌, ◌-◌, ◌*◌, ◌/◌, ◌%◌, Bool, not, ◌&&◌, ◌||◌, List, [], ◌∷◌, ◌++◌, Option, none, some, ltb,
  leb, ◌==◌, if◌then◌else◌, length, take, drop, replicate,
}
use mobile_webcam_bridge.Wire.Bytes.{same, from_le, to_le}

abbrev pub preview_width : ℕ
preview_width = 320

abbrev pub magic : List ℕ
magic = b'M' ∷ b'B' ∷ b'W' ∷ b'P' ∷ []

abbrev pub version : ℕ
version = 1

abbrev pub capacity : ℕ
capacity = preview_width * 1024 * 4

-- The 32 bytes that `header` fills in; the sizes are cast to u32, and four bytes stay zero.
unfoldable pub header : ℕ → ℕ → ℕ → ℕ → List ℕ
header seq width height len =
    magic
    ++ (to_le 4 version
        ++ (to_le 8 seq ++ (to_le 4 width ++ (to_le 4 height ++ (to_le 4 len ++ replicate 4 0)))))

pub record Parsed : Type 0 where
  pub seq : ℕ
  pub width : ℕ
  pub height : ℕ
  pub len : ℕ

-- `uN::from_le_bytes` of `count` bytes at `start`; the array has 32.
abbrev pub number : List ℕ → ℕ → ℕ → ℕ
number bytes start count = from_le (take count (drop start bytes))

-- `width * height * 4` on a usize of 64 bits, which wraps in the release profile.
abbrev pub area : ℕ → ℕ → ℕ
area width height = width * height * 4 % 18446744073709551616

-- The test on the shape.
unfoldable pub lies : ℕ → ℕ → ℕ → Bool
lies width height len =
    width == 0 || height == 0 || not (len == area width height) || ltb capacity len

-- `parse_header`, of an array of 32 bytes.
unfoldable pub parse_header : List ℕ → Option Parsed
parse_header bytes =
    if not (same (take 4 bytes) magic) || not (number bytes 4 4 == version)
    then none
    else if lies (number bytes 16 4) (number bytes 20 4) (number bytes 24 4)
    then none
    else some (record {
      seq = number bytes 8 8;
      width = number bytes 16 4;
      height = number bytes 20 4;
      len = number bytes 24 4;
    })

-- `step_for`; the quotient is rounded up.
unfoldable pub step_for : ℕ → ℕ
step_for width =
    if leb width preview_width
    then 1
    else if width % preview_width == 0
    then width / preview_width
    else width / preview_width + 1
