-- ===== src/Wire/ClientAuthResult.antt =====
-- `ClientAuthResult` of host-rs/src/wire.rs: the phone's answer, 6 bytes.
pub mod Exact
use mobile_webcam_bridge.Prelude.{
  ℕ, ◌<◌, Bool, false, ◌&&◌, ◌||◌, List, ◌∷◌, length, ◌==◌, ltb, if◌then◌else◌,
}
use mobile_webcam_bridge.Prelude.Outcome.{Result, ok, ◌>>=◌, ◌>>◌, guard, assert}
use mobile_webcam_bridge.Wire.Bytes.{index, u32_at, to_le}
use mobile_webcam_bridge.Wire.Kinds.{
  auth_authorized, auth_pending, auth_rejected, auth_reason_none, auth_reason_unknown,
  auth_reason_expired, auth_reason_bad_signature,
}
use mobile_webcam_bridge.Wire.Header.{invalid, within}

pub record ClientAuthResult : Type 0 where
  pub status : ℕ  -- u8
  pub reason : ℕ  -- u8
  pub expires_at_unix_seconds : ℕ  -- u32

-- What the field types allow.
pub record InRange (m : ClientAuthResult) : Type 0 where
  pub status : m.status < 256
  pub reason : m.reason < 256
  pub expires_at_unix_seconds : m.expires_at_unix_seconds < 4294967296

-- The `match self.status` of `validate`.
unfoldable pub is_valid : ClientAuthResult → Bool
is_valid m =
    if m.status == auth_authorized
    then m.reason == auth_reason_none && ltb 0 m.expires_at_unix_seconds
    else if m.status == auth_pending
    then m.reason == auth_reason_none && m.expires_at_unix_seconds == 0
    else if m.status == auth_rejected
    then within auth_reason_unknown auth_reason_bad_signature m.reason
      && (m.reason == auth_reason_expired || m.expires_at_unix_seconds == 0)
    else false

unfoldable pub validate : ClientAuthResult → Result (Unit {0})
validate m = guard (is_valid m) (invalid "invalid client authorization outcome")

unfoldable pub read : List ℕ → Result ClientAuthResult
unfolding index u32_at
read payload = do
  status ← index payload 0
  reason ← index payload 1
  expires ← u32_at payload 2
  ok (record { status = status; reason = reason; expires_at_unix_seconds = expires })

unfoldable pub decode : List ℕ → Result ClientAuthResult
decode payload = do
  guard (length payload == 6) (invalid "client auth result payload must be 6 bytes")
  result ← read payload
  validate result
  ok result

abbrev pub result_bytes : ClientAuthResult → List ℕ
result_bytes m = m.status ∷ m.reason ∷ to_le 4 m.expires_at_unix_seconds

-- `encode`; `expect` panics on an outcome that is not valid.
unfoldable pub encode : ClientAuthResult → Result (List ℕ)
encode m = do assert (is_valid m); ok (result_bytes m)
