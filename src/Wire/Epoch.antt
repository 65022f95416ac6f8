-- ===== src/Wire/Epoch.antt =====
-- `Epoch` of host-rs/src/wire.rs: the payload that Paused and CommitQuality share, 8 bytes.
use mobile_webcam_bridge.Prelude.{
  ℕ, ◌<◌, ◌≡◌, List, ◌++◌, arith, length, ◌==◌, tabulate, by_length, Bool-cases, inl, inr,
}
use mobile_webcam_bridge.Prelude.Outcome.{Result, ok, ◌>>=◌, ◌>>◌, guard, NoPanic}
use mobile_webcam_bridge.Wire.Bytes.{IsBytes, index, u16_at, u32_at, to_le}
use mobile_webcam_bridge.Wire.Header.{invalid}

pub record Epoch : Type 0 where
  pub request_id : ℕ  -- u32
  pub stream_epoch : ℕ  -- u32

-- What the field types allow.
pub record InRange (m : Epoch) : Type 0 where
  pub request_id : m.request_id < 4294967296
  pub stream_epoch : m.stream_epoch < 4294967296

unfoldable pub read : List ℕ → Result Epoch
unfolding index u16_at u32_at
read payload = do
  request_id ← u32_at payload 0
  stream_epoch ← u32_at payload 4
  ok (record { request_id = request_id; stream_epoch = stream_epoch })

unfoldable pub decode : List ℕ → Result Epoch
decode payload = do
  guard (length payload == 8) (invalid "epoch payload must be 8 bytes")
  read payload

unfoldable pub encode : Epoch → List ℕ
encode m = to_le 4 m.request_id ++ (to_le 4 m.stream_epoch)

-- Decoding an encoded message gives the message back.
pub decode-encode : (m : Epoch) → InRange m → decode (encode m) ≡ ok m
unfolding decode read encode
decode-encode m v = ground arith

read_canonical :
    (f : ℕ → ℕ) (m : Epoch)
    → IsBytes (tabulate 8 f)
    → read (tabulate 8 f) ≡ ok m
    → (encode m ≡ tabulate 8 f) × InRange m
unfolding read encode
read_canonical f m b r = ground arith

pub decode_inv :
    (payload : List ℕ) (m : Epoch)
    → decode payload ≡ ok m
    → (length payload ≡ 8) × (read payload ≡ ok m)
unfolding decode
decode_inv payload m e = ground arith

-- Every byte string that decodes is the encoding of what was read.
pub encode-decode :
    (payload : List ℕ) (m : Epoch)
    → IsBytes payload
    → decode payload ≡ ok m
    → (encode m ≡ payload) × InRange m
encode-decode payload m b e =
    let (n, r) = decode_inv payload m e in
    by_length 8 (λ l. IsBytes l → read l ≡ ok m → (encode m ≡ l) × InRange m)
      (λ f. read_canonical f m) payload n b r

read-NoPanic : (f : ℕ → ℕ) → NoPanic (read (tabulate 8 f))
unfolding read
read-NoPanic f = ground arith

-- `decode` never panics.
pub decode-NoPanic : (payload : List ℕ) → NoPanic (decode payload)
unfolding decode
decode-NoPanic payload = elim (Bool-cases (length payload == 8)) [
  | inl e ↦ rw e (by_length 8 (λ l. NoPanic (read l)) read-NoPanic payload (ground arith))
  | inr e ↦ rw e tt
]
