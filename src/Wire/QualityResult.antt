-- ===== src/Wire/QualityResult.antt =====
-- `QualityResult` of host-rs/src/wire.rs: the phone's answer to a request, 14 bytes, the last two reserved.
use mobile_webcam_bridge.Prelude.{
  ℕ, ◌<◌, ◌≡◌, List, [], ◌∷◌, ◌++◌, arith, length, ◌==◌, tabulate, by_length, take, Bool-cases, inl,
  inr,
}
use mobile_webcam_bridge.Prelude.Outcome.{Result, ok, ◌>>=◌, ◌>>◌, guard, NoPanic}
use mobile_webcam_bridge.Wire.Bytes.{IsBytes, index, u16_at, u32_at, to_le}
use mobile_webcam_bridge.Wire.Header.{invalid}

pub record QualityResult : Type 0 where
  pub request_id : ℕ  -- u32
  pub status : ℕ  -- u8
  pub reason : ℕ  -- u8
  pub applied_width : ℕ  -- u16
  pub applied_height : ℕ  -- u16
  pub applied_fps : ℕ  -- u16

-- What the field types allow.
pub record InRange (m : QualityResult) : Type 0 where
  pub request_id : m.request_id < 4294967296
  pub status : m.status < 256
  pub reason : m.reason < 256
  pub applied_width : m.applied_width < 65536
  pub applied_height : m.applied_height < 65536
  pub applied_fps : m.applied_fps < 65536

unfoldable pub read : List ℕ → Result QualityResult
unfolding index u16_at u32_at
read payload = do
  request_id ← u32_at payload 0
  status ← index payload 4
  reason ← index payload 5
  applied_width ← u16_at payload 6
  applied_height ← u16_at payload 8
  applied_fps ← u16_at payload 10
  ok (record {
    request_id = request_id;
    status = status;
    reason = reason;
    applied_width = applied_width;
    applied_height = applied_height;
    applied_fps = applied_fps;
  })

unfoldable pub decode : List ℕ → Result QualityResult
decode payload = do
  guard (length payload == 14) (invalid "quality result payload must be 14 bytes")
  read payload

unfoldable pub encode : QualityResult → List ℕ
encode m =
    to_le 4 m.request_id
    ++ ((m.status ∷ [])
        ++ ((m.reason ∷ [])
            ++ (to_le 2 m.applied_width
                ++ (to_le 2 m.applied_height ++ (to_le 2 m.applied_fps ++ (to_le 2 0))))))

-- Decoding an encoded message gives the message back.
pub decode-encode : (m : QualityResult) → InRange m → decode (encode m) ≡ ok m
unfolding decode read encode
decode-encode m v = ground arith

read_canonical :
    (f : ℕ → ℕ) (m : QualityResult)
    → IsBytes (tabulate 14 f)
    → read (tabulate 14 f) ≡ ok m
    → (encode m ≡ take 12 (tabulate 14 f) ++ (0 ∷ 0 ∷ [])) × InRange m
unfolding read encode
read_canonical f m b r = ground arith

pub decode_inv :
    (payload : List ℕ) (m : QualityResult)
    → decode payload ≡ ok m
    → (length payload ≡ 14) × (read payload ≡ ok m)
unfolding decode
decode_inv payload m e = ground arith

-- Every byte string that decodes is the encoding of what was read, but for the two reserved bytes.
pub encode-decode :
    (payload : List ℕ) (m : QualityResult)
    → IsBytes payload
    → decode payload ≡ ok m
    → (encode m ≡ take 12 payload ++ (0 ∷ 0 ∷ [])) × InRange m
encode-decode payload m b e =
    let (n, r) = decode_inv payload m e in
    by_length 14
      (λ l. IsBytes l → read l ≡ ok m → (encode m ≡ take 12 l ++ (0 ∷ 0 ∷ [])) × InRange m)
      (λ f. read_canonical f m) payload n b r

read-NoPanic : (f : ℕ → ℕ) → NoPanic (read (tabulate 14 f))
unfolding read
read-NoPanic f = ground arith

-- `decode` never panics.
pub decode-NoPanic : (payload : List ℕ) → NoPanic (decode payload)
unfolding decode
decode-NoPanic payload = elim (Bool-cases (length payload == 14)) [
  | inl e ↦ rw e (by_length 14 (λ l. NoPanic (read l)) read-NoPanic payload (ground arith))
  | inr e ↦ rw e tt
]
