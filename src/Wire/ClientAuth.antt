-- ===== src/Wire/ClientAuth.antt =====
-- `ClientAuth` and `client_auth_message` of host-rs/src/wire.rs.
pub mod Transcript
pub mod RoundTrip
use mobile_webcam_bridge.Prelude.{
  ℕ, ◌+◌, ◌%◌, ◌-◌, Bool, ◌&&◌, List, [], ◌∷◌, ◌++◌, length, leb, ◌==◌, codes, Option, none, some,
}
use mobile_webcam_bridge.Prelude.Outcome.{Error, Result, ok, err, ◌>>=◌, ◌>>◌, guard, assert}
use mobile_webcam_bridge.Wire.Bytes.{slice, index, byte_at}
use mobile_webcam_bridge.Wire.Kinds.{
  client_auth_version, client_public_key_bytes, nonce_bytes, signature_bytes, max_client_label,
  client_auth_min_bytes, client_auth_max_bytes,
}
use mobile_webcam_bridge.Wire.Header.{invalid, within}
use mobile_webcam_bridge.Wire.Label.{Category, from_utf8, valid_chars, valid_label}
use mobile_webcam_bridge.Wire.ClientChallenge.{valid_transport, valid_phone_binding}

pub record ClientAuth : Type 0 where
  pub version : ℕ
  pub public_key : List ℕ
  pub label : List ℕ
  pub signature : List ℕ

-- `b"AMB1 PC authorization\0v2\0"`
abbrev pub domain : List ℕ
domain = codes "AMB1 PC authorization" ++ (0 ∷ (codes "v2" ++ (0 ∷ [])))

-- `map_err(|_| e)` on the result of `from_utf8`.
abbrev pub or_err : Option (List ℕ) → Error → Result (List ℕ)
or_err none e = err e
or_err (some chars) e = ok chars

module _ (category : ℕ → Category) where
  -- `public_key[0]` is read only when the length is right.
  unfoldable pub valid_transcript : ℕ → List ℕ → List ℕ → List ℕ → List ℕ → Bool
  valid_transcript transport phone_binding nonce public_key label =
      valid_transport transport
      && valid_phone_binding transport phone_binding
      && length nonce == nonce_bytes
      && length public_key == client_public_key_bytes
      && byte_at public_key 0 == 4
      && valid_label category label

  unfoldable pub client_auth_message : ℕ → List ℕ → List ℕ → List ℕ → List ℕ → Result (List ℕ)
  client_auth_message transport phone_binding nonce public_key label = do
    guard (valid_transcript transport phone_binding nonce public_key label)
        (invalid "invalid authorization transcript fields")
    ok (
        domain
        ++ (transport ∷ (phone_binding ++ (nonce ++ (public_key ++ (length label % 256 ∷ label))))))

  unfoldable pub decode : List ℕ → Result ClientAuth
  decode payload = do
    guard (within client_auth_min_bytes client_auth_max_bytes (length payload))
        (invalid "invalid client auth length")
    version ← index payload 0
    guard (version == client_auth_version) (invalid "unsupported client auth version")
    label_length ← index payload (1 + client_public_key_bytes)
    guard (leb label_length max_client_label) (invalid "client label exceeds the limit")
    guard (length payload == client_auth_min_bytes + label_length)
        (invalid "client auth length does not match its label")
    label ←
        slice payload (1 + client_public_key_bytes + 1)
          (1 + client_public_key_bytes + 1 + label_length)
    chars ← or_err (from_utf8 label) (invalid "client label is not valid UTF-8")
    guard (valid_chars category chars (length label)) (invalid "invalid client point or label")
    first ← index payload 1
    guard (first == 4) (invalid "invalid client point or label")
    public_key ← slice payload 1 (1 + client_public_key_bytes)
    signature ← slice payload (length payload - signature_bytes) (length payload)
    ok (record { version = version; public_key = public_key; label = label; signature = signature })

  -- The bytes that `encode` pushes; the label's length is cast to u8.
  abbrev pub auth_bytes : ClientAuth → List ℕ
  auth_bytes a = a.version ∷ (a.public_key ++ (length a.label % 256 ∷ (a.label ++ a.signature)))

  -- `encode`, with its assertions.
  unfoldable pub encode : ClientAuth → Result (List ℕ)
  encode a = do
    assert (a.version == client_auth_version)
    assert (length a.public_key == client_public_key_bytes)
    first ← index a.public_key 0
    assert (first == 4)
    assert (length a.signature == signature_bytes)
    assert (valid_label category a.label)
    ok (auth_bytes a)
