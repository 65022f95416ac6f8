-- ===== src/Preview/Laws.antt =====
-- Writing and reading the record header of host-rs/src/preview.rs, and `step_for`.
use mobile_webcam_bridge.Prelude.{
  ℕ, ◌*◌, ◌≤◌, ◌<◌, ◌≡◌, ◌∙◌, refl, true, List, none, some, arith, take, if◌then◌else◌,
}
use mobile_webcam_bridge.Wire.Bytes.{same}
use mobile_webcam_bridge.Preview.{header, parse_header, number, lies, step_for, magic}

numbers-header :
    (seq width height len : ℕ)
    → seq < 18446744073709551616
    → width < 4294967296
    → height < 4294967296
    → len < 4294967296
    → (same (take 4 (header seq width height len)) magic ≡ true)
      × (number (header seq width height len) 4 4 ≡ 1)
      × (number (header seq width height len) 8 8 ≡ seq)
      × (number (header seq width height len) 16 4 ≡ width)
      × (number (header seq width height len) 20 4 ≡ height)
      × (number (header seq width height len) 24 4 ≡ len)
unfolding header
numbers-header seq width height len a b c d =
    (refl, refl, omega arith, omega arith, omega arith, omega arith)

parse_header_shape :
    (bytes : List ℕ)
    → same (take 4 bytes) magic ≡ true
    → number bytes 4 4 ≡ 1
    → parse_header bytes ≡ (
        if lies (number bytes 16 4) (number bytes 20 4) (number bytes 24 4)
        then none
        else some (record {
          seq = number bytes 8 8;
          width = number bytes 16 4;
          height = number bytes 20 4;
          len = number bytes 24 4;
        }))
unfolding parse_header
parse_header_shape bytes m v = ground arith

-- A header that is written with fields in range is read back field by field, unless its shape is
-- one that the reader refuses: an empty picture, a length that is not its area, or one above the
-- record's capacity.
pub parse_header-header :
    (seq width height len : ℕ)
    → seq < 18446744073709551616
    → width < 4294967296
    → height < 4294967296
    → len < 4294967296
    → parse_header (header seq width height len) ≡ (
        if lies width height len
        then none
        else some (record { seq = seq; width = width; height = height; len = len }))
parse_header-header seq width height len a b c d =
    let (m, v, s, w, h, l) = numbers-header seq width height len a b c d in
    parse_header_shape (header seq width height len) m v ∙ rw (s, w, h, l) refl

-- Sampling by the step keeps at most 320 columns, and no smaller step would.
pub step_for_lem :
    (width : ℕ)
    → (1 ≤ step_for width)
      × (width ≤ 320 * step_for width)
      × (((n : ℕ) → 1 ≤ n → width ≤ 320 * n → step_for width ≤ n))
unfolding step_for
step_for_lem width = (ground arith, ground arith, λ n p q. ground arith)
