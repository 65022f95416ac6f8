-- ===== src/Wire/Capabilities/RoundTrip.antt =====
-- `Capabilities::encode` and `Capabilities::decode` of host-rs/src/wire.rs, one after the other.
use mobile_webcam_bridge.Prelude.{
  ℕ, ◌+◌, ◌*◌, ◌/◌, ◌≤◌, ◌≡◌, refl, List, [], ◌∷◌, length, All, take-all, ◌∙◌, ◌↔◌, arith, ap,
}
use mobile_webcam_bridge.Prelude.Outcome.{ok}
use mobile_webcam_bridge.Wire.Bytes.{slice, u16_at, slice_lem}
use mobile_webcam_bridge.Wire.Capabilities.{
  QualityMode, Capabilities, IsMode, IsCapabilities, chunks, read_mode, read_modes, read_fields,
  decode, mode_bytes, modes_bytes, payload_bytes, encode,
}

pub length-modes_bytes : (ms : List QualityMode) → length (modes_bytes ms) ≡ 12 * length ms
unfolding modes_bytes mode_bytes
length-modes_bytes [] = omega arith
length-modes_bytes (m ∷ ms) = omega (arith, length-modes_bytes ms)

read_mode-mode_bytes : (m : QualityMode) → IsMode m → read_mode (mode_bytes m) ≡ ok m
unfolding read_mode mode_bytes
read_mode-mode_bytes m v = ground arith

read_modes-modes_bytes :
    (ms : List QualityMode)
    → All IsMode ms
    → read_modes (chunks (length ms) (modes_bytes ms)) ≡ ok ms
unfolding read_modes chunks modes_bytes mode_bytes
read_modes-modes_bytes [] v = refl
read_modes-modes_bytes (m ∷ ms) (v, vs) =
    ground (arith, read_mode-mode_bytes m v, read_modes-modes_bytes ms vs)

length-payload_bytes : (c : Capabilities) → length (payload_bytes c) ≡ 10 + 12 * length c.modes
unfolding payload_bytes
length-payload_bytes c = omega (arith, length-modes_bytes c.modes)

read_fields-payload_bytes :
    (c : Capabilities) → IsCapabilities c → read_fields (payload_bytes c) c.modes ≡ ok c
unfolding read_fields payload_bytes
read_fields-payload_bytes c v = ground arith

mode_count-payload_bytes :
    (c : Capabilities) → length c.modes ≤ 256 → u16_at (payload_bytes c) 8 ≡ ok (length c.modes)
unfolding u16_at payload_bytes
mode_count-payload_bytes c small = ground arith

body-payload_bytes :
    (c : Capabilities)
    → slice (payload_bytes c) 10 (length (payload_bytes c)) ≡ ok (modes_bytes c.modes)
body-payload_bytes c =
    slice_lem (payload_bytes c) 10 (length (payload_bytes c))
      (omega (arith, length-payload_bytes c)) (omega arith)
    ∙ ap ok (
        unfold payload_bytes in
        take-all _ (modes_bytes c.modes) (omega (arith, length-payload_bytes c)))

decode-payload_bytes :
    (c : Capabilities) → IsCapabilities c → length c.modes ≤ 256 → decode (payload_bytes c) ≡ ok c
unfolding decode
decode-payload_bytes c v small =
    let n = length-payload_bytes c in
    let k : length (modes_bytes c.modes) / 12 ≡ length c.modes =
      omega (arith, length-modes_bytes c.modes) in
    rw
      (
        mode_count-payload_bytes c small,
        body-payload_bytes c,
        k,
        read_modes-modes_bytes c.modes v.modes,
        read_fields-payload_bytes c v,
      )
      (ground arith)

-- What `encode` writes for a capability list, `decode` reads back.
pub capabilities_round_trip :
    (c : Capabilities) (payload : List ℕ)
    → IsCapabilities c
    → encode c ≡ ok payload
    → decode payload ≡ ok c
unfolding encode
capabilities_round_trip c payload v e = ground (arith, decode-payload_bytes c v)

-- `encode` succeeds exactly up to 256 modes: the limit on the payload is never met before.
pub capabilities_encode_iff :
    (c : Capabilities) → ((payload : List ℕ) × (encode c ≡ ok payload)) ↔ (length c.modes ≤ 256)
unfolding encode
capabilities_encode_iff c =
    (λ (p, e). ground arith, λ h. (payload_bytes c, ground (arith, length-payload_bytes c)))
