-- ===== src/Video.antt =====
-- `Config` of host-rs/src/video.rs: the VIDEO_CONFIG payload.
mod Tests
use mobile_webcam_bridge.Prelude.{
  ℕ, ◌+◌, false, ◌*◌, ◌≤◌, ◌<◌, ◌≡◌, ◌≢◌, ◌↔◌, Bool, not, ◌||◌, List, length, ltb, ◌==◌, arith,
  tabulate, by_length, Bool-cases, inl, inr,
}
use mobile_webcam_bridge.Prelude.Outcome.{
  Error, error, boxed, Result, ok, ◌>>=◌, ◌>>◌, guard, NoPanic, NoPanic-bind,
}
use mobile_webcam_bridge.Wire.Bytes.{index, u16_at, byte_at, from_le}
use Prim.Native.String.{String}

-- Each a u32 that was read as a u16.
pub record Config : Type 0 where
  pub width : ℕ
  pub height : ℕ
  pub fps : ℕ

abbrev pub text : String → Error
text message = error boxed message

-- The second test of `parse`; the product fits u64.
unfoldable pub refused : Config → Bool
refused c =
    c.width == 0
    || c.height == 0
    || c.fps == 0
    || ltb 8192 c.width
    || ltb 8192 c.height
    || ltb 33554432 (c.width * c.height)

unfoldable pub read : List ℕ → Result Config
unfolding u16_at
read bytes = do
  width ← u16_at bytes 0
  height ← u16_at bytes 2
  fps ← u16_at bytes 4
  ok (record { width = width; height = height; fps = fps })

-- The bytes at 12 and 13 are read after the length test, as `||` has it.
unfoldable pub check : List ℕ → Result (Unit {0})
unfolding index
check bytes = do
  guard (length bytes == 16) (text "invalid VIDEO_CONFIG")
  codec ← index bytes 12
  guard (codec == 1) (text "invalid VIDEO_CONFIG")
  format ← index bytes 13
  guard (format == 1) (text "invalid VIDEO_CONFIG")

unfoldable pub parse : List ℕ → Result Config
unfolding check
parse bytes = do
  check bytes
  c ← read bytes
  guard (not (refused c)) (text "invalid VIDEO_CONFIG dimensions or rate")
  ok c

-- A little-endian u16 in the payload.
abbrev pub u16_of : List ℕ → ℕ → ℕ
u16_of bytes i = byte_at bytes i + 256 * byte_at bytes (i + 1)

-- What a payload of 16 bytes states.
abbrev pub stated : List ℕ → Config
stated bytes = record { width = u16_of bytes 0; height = u16_of bytes 2; fps = u16_of bytes 4 }

-- A picture that the PC takes.
abbrev pub Allowed : Config → Type 0
Allowed c =
    (0 < c.width)
    × (0 < c.height)
    × (0 < c.fps)
    × (c.width ≤ 8192)
    × (c.height ≤ 8192)
    × (c.width * c.height ≤ 33554432)

refused_iff : (c : Config) → (refused c ≡ false) ↔ Allowed c
unfolding refused
refused_iff c = (λ e. ground arith, λ e. ground arith)

read_of : (f : ℕ → ℕ) → read (tabulate 16 f) ≡ ok (stated (tabulate 16 f))
unfolding read
read_of f = ground arith

parse_of :
    (f : ℕ → ℕ) (c : Config)
    → (parse (tabulate 16 f) ≡ ok c)
      ↔ ((f 12 ≡ 1) × (f 13 ≡ 1) × (refused c ≡ false) × (c ≡ stated (tabulate 16 f)))
unfolding parse check
parse_of f c = (λ e. ground (arith, read_of f), λ e. ground (arith, read_of f))

pub length-parse : (bytes : List ℕ) (c : Config) → parse bytes ≡ ok c → length bytes ≡ 16
unfolding parse check
length-parse bytes c e = ground arith

parse_16 :
    (bytes : List ℕ) (c : Config)
    → length bytes ≡ 16
    → (parse bytes ≡ ok c)
      ↔ ((byte_at bytes 12 ≡ 1) × (byte_at bytes 13 ≡ 1) × (refused c ≡ false) × (c ≡ stated bytes))
parse_16 bytes c n =
    by_length 16
      (λ l.
        (parse l ≡ ok c)
        ↔ ((byte_at l 12 ≡ 1) × (byte_at l 13 ≡ 1) × (refused c ≡ false) × (c ≡ stated l)))
      (λ f. parse_of f c) bytes n

-- A VIDEO_CONFIG payload parses to a configuration exactly when it has 16 bytes with 1 at 12 and at 13,
-- the configuration is what its first six bytes state, and that is neither empty nor too large.
pub parse_iff :
    (bytes : List ℕ) (c : Config)
    → (parse bytes ≡ ok c) ↔ (
        (length bytes ≡ 16)
        × (byte_at bytes 12 ≡ 1)
        × (byte_at bytes 13 ≡ 1)
        × (c ≡ stated bytes)
        × Allowed c)
parse_iff bytes c = (
  λ e.
      let n = length-parse bytes c e in
      let (codec, format, fine, same) = (parse_16 bytes c n).0 e in
      (n, codec, format, same, (refused_iff c).0 fine),
  λ (n, codec, format, same, fine).
      (parse_16 bytes c n).1 (codec, format, (refused_iff c).1 fine, same),
)
