-- ===== src/Wire/ClientAuthResult/Exact.antt =====
-- `decode` and `encode` of an authorization outcome in host-rs/src/wire.rs, in both orders.
use mobile_webcam_bridge.Prelude.{
  ℕ, ◌<◌, ◌≤◌, ◌≡◌, ◌↔◌, ◌⊎◌, true, List, arith, length, tabulate, by_length,
}
use mobile_webcam_bridge.Prelude.Outcome.{ok}
use mobile_webcam_bridge.Wire.Bytes.{IsBytes}
use mobile_webcam_bridge.Wire.ClientAuthResult.{
  ClientAuthResult, InRange, is_valid, validate, read, decode, encode, result_bytes,
}

read-result_bytes : (m : ClientAuthResult) → InRange m → read (result_bytes m) ≡ ok m
unfolding read
read-result_bytes m v = ground arith

decode-result_bytes :
    (m : ClientAuthResult) → InRange m → is_valid m ≡ true → decode (result_bytes m) ≡ ok m
unfolding decode validate
decode-result_bytes m v valid = ground (arith, read-result_bytes m v)

read_exact :
    (f : ℕ → ℕ) (m : ClientAuthResult)
    → IsBytes (tabulate 6 f)
    → read (tabulate 6 f) ≡ ok m
    → (result_bytes m ≡ tabulate 6 f) × InRange m
unfolding read
read_exact f m b r = ground arith

decode_inv :
    (payload : List ℕ) (m : ClientAuthResult)
    → decode payload ≡ ok m
    → (length payload ≡ 6) × (read payload ≡ ok m) × (is_valid m ≡ true)
unfolding decode validate
decode_inv payload m e = ground arith

encode_inv :
    (m : ClientAuthResult) (payload : List ℕ)
    → encode m ≡ ok payload
    → (is_valid m ≡ true) × (result_bytes m ≡ payload)
unfolding encode
encode_inv m payload e = ground arith

-- A byte string decodes to an outcome exactly when the outcome, with fields in the range of their
-- types, encodes to it. So an outcome that `validate` refuses is never received and never sent.
pub auth_result_exact :
    (payload : List ℕ) (m : ClientAuthResult)
    → IsBytes payload
    → (decode payload ≡ ok m) ↔ ((encode m ≡ ok payload) × InRange m)
unfolding encode
auth_result_exact payload m b = (
  λ e.
      let (n, r, valid) = decode_inv payload m e in
      let (written, range) =
        by_length 6 (λ l. IsBytes l → read l ≡ ok m → (result_bytes m ≡ l) × InRange m)
          (λ f. read_exact f m) payload n b r in
      (rw valid (ground (arith, written)), range),
  λ (e, range).
      let (valid, written) = encode_inv m payload e in
      rw (← written) (decode-result_bytes m range valid),
)

-- What a received outcome can be: authorized with an expiry and no reason, pending with neither, or
-- rejected for one of the five reasons, with an expiry only where that is the reason.
pub auth_result_cases :
    (payload : List ℕ) (m : ClientAuthResult)
    → decode payload ≡ ok m
    → ((m.status ≡ 0) × (m.reason ≡ 0) × (0 < m.expires_at_unix_seconds))
      ⊎ ((m.status ≡ 1) × (m.reason ≡ 0) × (m.expires_at_unix_seconds ≡ 0))
      ⊎ ((m.status ≡ 2)
          × (1 ≤ m.reason)
          × (m.reason ≤ 5)
          × ((m.reason ≡ 3) ⊎ (m.expires_at_unix_seconds ≡ 0)))
unfolding is_valid
auth_result_cases payload m e = ground (arith, decode_inv payload m e)
