-- ===== src/Wire/ClientChallenge.antt =====
-- `ClientChallenge` of host-rs/src/wire.rs, and the checks on transport and phone binding.
pub mod Exact
use mobile_webcam_bridge.Prelude.{
  ℕ, ◌+◌, Bool, true, false, not, ◌&&◌, ◌||◌, List, [], ◌∷◌, ◌++◌, length, ◌==◌, if◌then◌else◌,
}
use mobile_webcam_bridge.Prelude.Outcome.{Result, ok, ◌>>=◌, ◌>>◌, guard, assert}
use mobile_webcam_bridge.Wire.Bytes.{slice, index}
use mobile_webcam_bridge.Wire.Kinds.{
  auth_usb, auth_lan, client_auth_version, phone_binding_bytes, nonce_bytes,
}
use mobile_webcam_bridge.Wire.Header.{invalid}

unfoldable pub valid_transport : ℕ → Bool
valid_transport transport = transport == auth_usb || transport == auth_lan

-- `binding.iter().all(|byte| *byte == 0)`
unfoldable pub all_zero : List ℕ → Bool
all_zero [] = true
all_zero (b ∷ bs) = b == 0 && all_zero bs

-- `binding.iter().any(|byte| *byte != 0)`
unfoldable pub any_nonzero : List ℕ → Bool
any_nonzero [] = false
any_nonzero (b ∷ bs) = not (b == 0) || any_nonzero bs

unfoldable pub valid_phone_binding : ℕ → List ℕ → Bool
valid_phone_binding transport binding =
    length binding == phone_binding_bytes
    && (if transport == auth_usb then all_zero binding else any_nonzero binding)

pub record ClientChallenge : Type 0 where
  pub version : ℕ
  pub transport : ℕ
  pub phone_binding : List ℕ
  pub nonce : List ℕ

unfoldable pub decode : List ℕ → Result ClientChallenge
decode payload = do
  guard (length payload == 2 + phone_binding_bytes + nonce_bytes)
      (invalid "client challenge payload must be 66 bytes")
  version ← index payload 0
  guard (version == client_auth_version)
      (invalid "unsupported client challenge version or transport")
  transport ← index payload 1
  guard (valid_transport transport) (invalid "unsupported client challenge version or transport")
  binding ← slice payload 2 (2 + phone_binding_bytes)
  guard (valid_phone_binding transport binding) (invalid "invalid phone certificate binding")
  nonce ← slice payload (2 + phone_binding_bytes) (length payload)
  ok (record { version = version; transport = transport; phone_binding = binding; nonce = nonce })

-- `encode`, with its assertions.
unfoldable pub encode : ClientChallenge → Result (List ℕ)
encode c = do
  assert (c.version == client_auth_version)
  assert (valid_transport c.transport)
  assert (valid_phone_binding c.transport c.phone_binding)
  assert (length c.nonce == nonce_bytes)
  ok (c.version ∷ c.transport ∷ (c.phone_binding ++ c.nonce))
