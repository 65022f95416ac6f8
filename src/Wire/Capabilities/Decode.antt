-- ===== src/Wire/Capabilities/Decode.antt =====
-- `Capabilities::decode` on any input.
use mobile_webcam_bridge.Prelude.{
  ℕ, zero, suc, ◌+◌, ◌*◌, ◌/◌, ◌-◌, ◌≤◌, ◌≡◌, refl, List, [], ◌∷◌, length, take, drop, ◌∙◌, arith,
  ap, length-drop, length-take, by_length, tabulate, ◌↔◌,
}
use mobile_webcam_bridge.Prelude.Outcome.{ok}
use mobile_webcam_bridge.Wire.Bytes.{u16_at_lem, u32_at_lem, index_lem, byte_at, from_le, slice_lem}
use mobile_webcam_bridge.Wire.Capabilities.{
  QualityMode, Capabilities, chunks, read_mode, read_modes, read_fields, decode,
}

read_mode-tabulate : (f : ℕ → ℕ) → (m : QualityMode) × (read_mode (tabulate 12 f) ≡ ok m)
unfolding read_mode
read_mode-tabulate f = (_, refl)

read_mode_total :
    (chunk : List ℕ) → length chunk ≡ 12 → (m : QualityMode) × (read_mode chunk ≡ ok m)
read_mode_total chunk e =
    by_length 12 (λ l. (m : QualityMode) × (read_mode l ≡ ok m)) read_mode-tabulate chunk e

-- The loop reads every chunk of a body of whole chunks.
read_modes_total :
    (n : ℕ) (body : List ℕ)
    → length body ≡ 12 * n
    → (ms : List QualityMode) × (read_modes (chunks n body) ≡ ok ms) × (length ms ≡ n)
unfolding read_modes chunks
read_modes_total zero body e = ([], refl, refl)
read_modes_total (suc n) body e =
    let (m, r) = read_mode_total (take 12 body) (omega (arith, length-take 12 body)) in
    let (ms, rs, k) = read_modes_total n (drop 12 body) (omega (arith, length-drop 12 body)) in
    (m ∷ ms, rw (r, rs) refl, ap suc k)

-- The count that the payload states at byte 8.
abbrev pub stated : List ℕ → ℕ
stated payload = from_le (take 2 (drop 8 payload))

read_fields_total :
    (payload : List ℕ) (modes : List QualityMode)
    → 10 ≤ length payload
    → (c : Capabilities) × (read_fields payload modes ≡ ok c) × (c.modes ≡ modes)
unfolding read_fields
read_fields_total payload modes h = (
  record {
    extension_version = byte_at payload 0;
    permission = byte_at payload 1;
    catalog_revision = from_le (take 2 (drop 2 payload));
    stream_epoch = from_le (take 4 (drop 4 payload));
    modes = modes;
  },
  rw
      (
        index_lem payload 0 (omega arith),
        index_lem payload 1 (omega arith),
        u16_at_lem payload 2 (omega arith),
        u32_at_lem payload 4 (omega arith),
      )
      refl,
  refl,
)

-- The list that `decode` builds on a payload of the length that its count calls for.
decode_fits :
    (payload : List ℕ)
    → 10 ≤ length payload
    → stated payload ≤ 256
    → length payload ≡ 10 + 12 * stated payload
    → (c : Capabilities) × (decode payload ≡ ok c) × (length c.modes ≡ stated payload)
unfolding decode
decode_fits payload h small e =
    let body : List ℕ = take (length payload - 10) (drop 10 payload) in
    let size : length body ≡ 12 * stated payload =
      omega (arith, length-take (length payload - 10) (drop 10 payload), length-drop 10 payload) in
    let (ms, rs, k) = read_modes_total (stated payload) body size in
    let (c, r, same) = read_fields_total payload ms h in
    let n : length body / 12 ≡ stated payload = omega arith in
    (
      c,
      rw (u16_at_lem payload 8 h, slice_lem payload 10 (length payload) h (omega arith), n, rs, r)
          (ground arith),
      ap length same ∙ k,
    )

capabilities_needs :
    (payload : List ℕ) (c : Capabilities)
    → decode payload ≡ ok c
    → (10 ≤ length payload) × (stated payload ≤ 256) × (length payload ≡ 10 + 12 * stated payload)
unfolding decode
capabilities_needs payload c e = ground (arith, u16_at_lem payload 8)

-- `decode` accepts exactly the payloads of 10 bytes or more whose count is at most 256 and whose length
-- is what the count calls for; and it accepts exactly where it builds a list with as many modes as
-- the count says.
pub capabilities_decode_iff :
    (payload : List ℕ)
    → (((c : Capabilities) × (decode payload ≡ ok c)) ↔ (
        (10 ≤ length payload)
        × (stated payload ≤ 256)
        × (length payload ≡ 10 + 12 * stated payload)))
      × (((c : Capabilities) × (decode payload ≡ ok c))
          ↔ ((c : Capabilities) × (decode payload ≡ ok c) × (length c.modes ≡ stated payload)))
capabilities_decode_iff payload = (
  (
    λ (c, e). capabilities_needs payload c e,
    λ (h, small, e). let (c, d, _) = decode_fits payload h small e in (c, d),
  ),
  (
    λ (c, e). let (h, small, n) = capabilities_needs payload c e in decode_fits payload h small n,
    λ (c, e, _). (c, e),
  ),
)
