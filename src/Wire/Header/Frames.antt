-- ===== src/Wire/Header/Frames.antt =====
-- `Frame::new` and `Frame::validate`.
use mobile_webcam_bridge.Prelude.{ℕ, ◌≡◌, ◌≤◌, List, arith, length, true, ◌↔◌}
use mobile_webcam_bridge.Prelude.Outcome.{ok}
use mobile_webcam_bridge.Wire.Kinds.{max_payload, header_size}
use mobile_webcam_bridge.Wire.Header.{
  IsHeader, Frame, header_bytes, decode, encode, validate_payload_size, size_fits, new_frame,
  validate,
}
use mobile_webcam_bridge.Wire.Header.RoundTrip.{decode-encode}

-- `Frame::new` succeeds exactly on a payload of at most 16 MiB whose length fits its kind.
pub new_frame_iff :
    (kind sequence : ℕ) (payload : List ℕ)
    → ((f : Frame) × (new_frame kind sequence payload ≡ ok f))
      ↔ ((length payload ≤ max_payload) × (size_fits kind (length payload) ≡ true))
unfolding new_frame encode validate_payload_size
new_frame_iff kind sequence payload = (
  λ (f, e). ground arith,
  λ (small, fits). (
    record {
      header = record {
        kind = kind;
        flags = 0;
        sequence = sequence;
        payload_len = length payload;
        pts_us = 0;
      };
      payload = payload;
    },
    ground arith,
  ),
)

-- A frame that `Frame::new` makes holds the kind, the number and the payload, and validates.
pub validate-new_frame :
    (kind sequence : ℕ) (payload : List ℕ) (f : Frame)
    → new_frame kind sequence payload ≡ ok f
    → (validate f ≡ ok tt)
      × (f.payload ≡ payload)
      × (f.header.kind ≡ kind)
      × (f.header.sequence ≡ sequence)
unfolding new_frame validate encode validate_payload_size
validate-new_frame kind sequence payload f e = ground arith

-- The two writes of `send` for a frame that validates: the receiver decodes the header that was
-- sent, and its length field is the number of the payload's bytes.
pub validate-sends :
    (f : Frame)
    → IsHeader f.header
    → validate f ≡ ok tt
    → (bytes : List ℕ) × (encode f.header ≡ ok bytes)
      × (length bytes ≡ header_size)
      × (decode bytes ≡ ok f.header)
      × (f.header.payload_len ≡ length f.payload)
unfolding validate
validate-sends f v e =
    let written : encode f.header ≡ ok (header_bytes f.header) =
      unfold encode validate_payload_size in ground arith in
    (
      header_bytes f.header,
      written,
      unfold header_bytes in ground arith,
      decode-encode f.header (header_bytes f.header) v written,
      unfold encode validate_payload_size in ground arith,
    )
