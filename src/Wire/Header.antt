-- ===== src/Wire/Header.antt =====
-- `Header` and `Frame` of host-rs/src/wire.rs, and `PairingInfo::fits`, which the header asks.
pub mod RoundTrip
pub mod Frames
pub mod Canonical
use mobile_webcam_bridge.Prelude.{
  ℕ, ◌+◌, ◌-◌, ◌*◌, ◌/◌, ◌<◌, Bool, true, false, ◌&&◌, ◌||◌, List, [], ◌∷◌, ◌++◌, ltb, leb, ◌==◌,
  if◌then◌else◌, length,
}
use mobile_webcam_bridge.Prelude.Outcome.{
  Error, error, invalid_data, invalid_input, Result, ok, ◌>>=◌, ◌>>◌, guard,
}
use mobile_webcam_bridge.Wire.Bytes.{same, slice, index, u16_at, u32_at, u64_at, to_le}
use mobile_webcam_bridge.Wire.Kinds.{
  header_size, max_payload, hello, hello_ack, ping, pong, quality_capabilities, prepare_quality,
  quality_result, paused, commit_quality, client_challenge, client_auth, client_auth_result,
  pairing_info, host_hello, video_config, idr_request, max_control_payload, nonce_bytes,
  phone_binding_bytes, client_auth_min_bytes, client_auth_max_bytes,
}
use Prim.Native.String.{String}

abbrev pub invalid : String → Error
invalid message = error invalid_data message

-- `(lo..=hi).contains(&n)`
abbrev pub within : ℕ → ℕ → ℕ → Bool
within lo hi n = leb lo n && leb n hi

-- `PairingInfo::fits`; `-` is `saturating_sub`.
unfoldable pub fits : ℕ → Bool
fits n =
    if ltb n (2 + 4 + 32 + 16)
    then false
    else let count = (n - (2 + 32 + 16)) / 4 in within 1 4 count && n == 2 + count * 4 + 32 + 16

pub record Header : Type 0 where
  pub kind : ℕ  -- u8
  pub flags : ℕ  -- u16
  pub sequence : ℕ  -- u32
  pub payload_len : ℕ  -- u32
  pub pts_us : ℕ  -- u64

-- What the field types of `Header` allow.
pub record IsHeader (h : Header) : Type 0 where
  pub kind : h.kind < 256
  pub flags : h.flags < 65536
  pub sequence : h.sequence < 4294967296
  pub payload_len : h.payload_len < 4294967296
  pub pts_us : h.pts_us < 18446744073709551616

-- The `match self.kind` of `validate_payload_size`, on the two fields that it reads.
unfoldable pub size_fits : ℕ → ℕ → Bool
unfolding fits
size_fits kind n =
    if kind == client_challenge
    then n == 2 + phone_binding_bytes + nonce_bytes
    else if kind == client_auth
    then within client_auth_min_bytes client_auth_max_bytes n
    else if kind == client_auth_result
    then n == 6
    else if kind == pairing_info
    then fits n
    else if kind == quality_capabilities
    then within 1 max_control_payload n
    else if kind == prepare_quality || kind == quality_result
    then n == 14
    else if kind == paused || kind == commit_quality || kind == ping || kind == pong
    then n == 8
    else if kind == host_hello
    then n == 0
    else if kind == video_config
    then n == 16
    else if kind == idr_request || kind == hello_ack
    then n == 0
    else if kind == hello
    then n == 0 || n == 16
    else true

unfoldable pub validate_payload_size : Header → Result (Unit {0})
validate_payload_size h =
    guard (size_fits h.kind h.payload_len) (invalid "invalid type-specific AMB1 payload length")

abbrev pub magic : List ℕ
magic = b'A' ∷ b'M' ∷ b'B' ∷ b'1' ∷ []

-- `bytes.len() != HEADER_SIZE || &bytes[..4] != b"AMB1" || bytes[4] != 1`; the reads come after the
-- length test, as `||` has it.
unfoldable pub check_magic : List ℕ → Result (Unit {0})
unfolding slice index
check_magic bytes = do
  guard (length bytes == header_size) (invalid "invalid AMB1 header")
  start ← slice bytes 0 4
  guard (same start magic) (invalid "invalid AMB1 header")
  version ← index bytes 4
  guard (version == 1) (invalid "invalid AMB1 header")

unfoldable pub read_header : List ℕ → Result Header
unfolding index u16_at u32_at u64_at
read_header bytes = do
  kind ← index bytes 5
  flags ← u16_at bytes 6
  sequence ← u32_at bytes 8
  payload_len ← u32_at bytes 12
  pts_us ← u64_at bytes 16
  ok (record {
    kind = kind;
    flags = flags;
    sequence = sequence;
    payload_len = payload_len;
    pts_us = pts_us;
  })

unfoldable pub decode : List ℕ → Result Header
decode bytes = do
  check_magic bytes
  header ← read_header bytes
  guard (leb header.payload_len max_payload) (invalid "AMB1 payload exceeds 16 MiB")
  validate_payload_size header
  ok header

-- The 24 bytes that `encode` fills in.
unfoldable pub header_bytes : Header → List ℕ
header_bytes h =
    magic
    ++ (1
        ∷ h.kind
        ∷ (to_le 2 h.flags ++ (to_le 4 h.sequence ++ (to_le 4 h.payload_len ++ to_le 8 h.pts_us))))

unfoldable pub encode : Header → Result (List ℕ)
encode h = do
  guard (leb h.payload_len max_payload) (error invalid_input "AMB1 payload exceeds 16 MiB")
  validate_payload_size h
  ok (header_bytes h)

pub record Frame : Type 0 where
  pub header : Header
  pub payload : List ℕ

-- `Frame::new`
unfoldable pub new_frame : ℕ → ℕ → List ℕ → Result Frame
new_frame kind sequence payload = do
  guard (ltb (length payload) 4294967296) (error invalid_input "payload overflow")
  let header : Header = record {
    kind = kind;
    flags = 0;
    sequence = sequence;
    payload_len = length payload;
    pts_us = 0;
  }
  _ ← encode header
  ok (record { header = header; payload = payload })

-- `Frame::validate`
unfoldable pub validate : Frame → Result (Unit {0})
validate frame = do
  _ ← encode frame.header
  guard (length frame.payload == frame.header.payload_len)
      (error invalid_input "payload length mismatch")
