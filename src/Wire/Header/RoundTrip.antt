-- ===== src/Wire/Header/RoundTrip.antt =====
-- `Header::encode` and `Header::decode` of host-rs/src/wire.rs, one after the other.
use mobile_webcam_bridge.Prelude.{ℕ, ◌≤◌, ◌≡◌, refl, List, arith}
use mobile_webcam_bridge.Prelude.Outcome.{ok}
use mobile_webcam_bridge.Wire.Kinds.{max_payload}
use mobile_webcam_bridge.Wire.Header.{
  Header, IsHeader, header_bytes, check_magic, read_header, validate_payload_size, decode, encode,
}

check_magic-header_bytes : (h : Header) → check_magic (header_bytes h) ≡ ok tt
unfolding check_magic header_bytes
check_magic-header_bytes h = refl

read_header-header_bytes : (h : Header) → IsHeader h → read_header (header_bytes h) ≡ ok h
unfolding read_header header_bytes
read_header-header_bytes h v = ground arith

-- What `encode` accepts, and what it writes.
pub encode_inv :
    (h : Header) {bytes : List ℕ}
    → encode h ≡ ok bytes
    → (h.payload_len ≤ max_payload) × (validate_payload_size h ≡ ok tt) × (header_bytes h ≡ bytes)
unfolding encode validate_payload_size
encode_inv h e = ground arith

pub decode-header_bytes :
    (h : Header)
    → IsHeader h
    → h.payload_len ≤ max_payload
    → validate_payload_size h ≡ ok tt
    → decode (header_bytes h) ≡ ok h
unfolding decode
decode-header_bytes h v fits valid =
    rw (check_magic-header_bytes h, read_header-header_bytes h v) (ground arith)

pub decode-encode :
    (h : Header) (bytes : List ℕ) → IsHeader h → encode h ≡ ok bytes → decode bytes ≡ ok h
decode-encode h bytes v e =
    let (fits, valid, written) = encode_inv h e in
    rw (← written) (decode-header_bytes h v fits valid)

pub decode_inv :
    (bytes : List ℕ) (h : Header)
    → decode bytes ≡ ok h
    → (check_magic bytes ≡ ok tt)
      × (read_header bytes ≡ ok h)
      × (h.payload_len ≤ max_payload)
      × (validate_payload_size h ≡ ok tt)
unfolding decode
decode_inv bytes h e = ground arith
