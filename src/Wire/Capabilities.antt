-- ===== src/Wire/Capabilities.antt =====
-- `Capabilities` and `QualityMode` of host-rs/src/wire.rs: fixed fields, then a counted mode list.
pub mod RoundTrip
pub mod Decode
use mobile_webcam_bridge.Prelude.{
  ℕ, zero, suc, ◌+◌, ◌*◌, ◌/◌, ◌%◌, ◌<◌, List, [], ◌∷◌, ◌++◌, length, leb, ◌==◌, take, drop, All,
}
use mobile_webcam_bridge.Prelude.Outcome.{Result, ok, ◌>>=◌, ◌>>◌, guard}
use mobile_webcam_bridge.Wire.Bytes.{index, slice, u16_at, u32_at, to_le}
use mobile_webcam_bridge.Wire.Kinds.{max_quality_modes, quality_mode_bytes, max_control_payload}
use mobile_webcam_bridge.Wire.Header.{invalid}

pub record QualityMode : Type 0 where
  pub width : ℕ  -- u16
  pub height : ℕ  -- u16
  pub target_fps : ℕ  -- u16
  pub bitrate : ℕ  -- u32

pub record Capabilities : Type 0 where
  pub extension_version : ℕ  -- u8
  pub permission : ℕ  -- u8
  pub catalog_revision : ℕ  -- u16
  pub stream_epoch : ℕ  -- u32
  pub modes : List QualityMode

pub record IsMode (m : QualityMode) : Type 0 where
  pub width : m.width < 65536
  pub height : m.height < 65536
  pub target_fps : m.target_fps < 65536
  pub bitrate : m.bitrate < 4294967296

-- What the field types allow.
pub record IsCapabilities (c : Capabilities) : Type 0 where
  pub extension_version : c.extension_version < 256
  pub permission : c.permission < 256
  pub catalog_revision : c.catalog_revision < 65536
  pub stream_epoch : c.stream_epoch < 4294967296
  pub modes : All IsMode c.modes

-- The first `n` chunks of `as_chunks::<QUALITY_MODE_BYTES>().0`.
unfoldable pub chunks : ℕ → List ℕ → List (List ℕ)
chunks zero bytes = []
chunks (suc n) bytes = take quality_mode_bytes bytes ∷ chunks n (drop quality_mode_bytes bytes)

abbrev pub as_chunks : List ℕ → List (List ℕ)
as_chunks bytes = chunks (length bytes / quality_mode_bytes) bytes

unfoldable pub read_mode : List ℕ → Result QualityMode
unfolding u16_at u32_at
read_mode chunk = do
  width ← u16_at chunk 0
  height ← u16_at chunk 2
  target_fps ← u16_at chunk 4
  bitrate ← u32_at chunk 8
  ok (record { width = width; height = height; target_fps = target_fps; bitrate = bitrate })

-- The loop over the chunks.
unfoldable pub read_modes : List (List ℕ) → Result (List QualityMode)
read_modes [] = ok []
read_modes (chunk ∷ rest) = do mode ← read_mode chunk; modes ← read_modes rest; ok (mode ∷ modes)

-- The fixed fields around the modes that were read.
unfoldable pub read_fields : List ℕ → List QualityMode → Result Capabilities
unfolding index u16_at u32_at
read_fields payload modes = do
  extension_version ← index payload 0
  permission ← index payload 1
  catalog_revision ← u16_at payload 2
  stream_epoch ← u32_at payload 4
  ok (record {
    extension_version = extension_version;
    permission = permission;
    catalog_revision = catalog_revision;
    stream_epoch = stream_epoch;
    modes = modes;
  })

unfoldable pub decode : List ℕ → Result Capabilities
decode payload = do
  guard (leb 10 (length payload)) (invalid "quality capabilities payload is truncated")
  mode_count ← u16_at payload 8
  guard (leb mode_count max_quality_modes) (invalid "quality capability list exceeds 256 modes")
  guard (length payload == 10 + mode_count * quality_mode_bytes)
      (invalid "quality capabilities length does not match the mode count")
  guard (leb (length payload) max_control_payload)
      (invalid "quality capabilities payload exceeds the control limit")
  body ← slice payload 10 (length payload)
  modes ← read_modes (as_chunks body)
  read_fields payload modes

unfoldable pub mode_bytes : QualityMode → List ℕ
mode_bytes m =
    to_le 2 m.width
    ++ (to_le 2 m.height ++ (to_le 2 m.target_fps ++ (to_le 2 0 ++ to_le 4 m.bitrate)))

unfoldable pub modes_bytes : List QualityMode → List ℕ
modes_bytes [] = []
modes_bytes (m ∷ ms) = mode_bytes m ++ modes_bytes ms

-- The payload that `encode` builds; the count is cast to u16.
unfoldable pub payload_bytes : Capabilities → List ℕ
payload_bytes c =
    c.extension_version
    ∷ c.permission
    ∷ (to_le 2 c.catalog_revision
        ++ (to_le 4 c.stream_epoch ++ (to_le 2 (length c.modes % 65536) ++ modes_bytes c.modes)))

unfoldable pub encode : Capabilities → Result (List ℕ)
encode c = do
  guard (leb (length c.modes) max_quality_modes)
      (invalid "quality capability list exceeds 256 modes")
  guard (leb (length (payload_bytes c)) max_control_payload)
      (invalid "quality capabilities payload exceeds the control limit")
  ok (payload_bytes c)
