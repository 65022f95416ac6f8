-- ===== src/Exchange/Signs.antt =====
-- What the request of host-rs/src/client_auth.rs carries.
use mobile_webcam_bridge.Prelude.{ℕ, ◌≡◌, List, arith}
use mobile_webcam_bridge.Prelude.Outcome.{ok, bind_inv}
use mobile_webcam_bridge.Wire.Header.{Frame, new_frame}
use mobile_webcam_bridge.Wire.Kinds.{client_auth}
use mobile_webcam_bridge.Wire.Label.{Category}
use mobile_webcam_bridge.Wire.ClientChallenge.{ClientChallenge}
use mobile_webcam_bridge.Wire.ClientAuth
use mobile_webcam_bridge.Wire.ClientAuth.{ClientAuth, client_auth_message}
use mobile_webcam_bridge.Wire.ClientAuth.RoundTrip.{client_auth_round_trip}
use mobile_webcam_bridge.Exchange.{Route, Identity, request, transport, phone_binding}

new_frame_inv :
    (kind sequence : ℕ) (payload : List ℕ) (frame : Frame)
    → new_frame kind sequence payload ≡ ok frame
    → (frame.header.kind ≡ kind) × (frame.payload ≡ payload)
unfolding new_frame
new_frame_inv kind sequence payload frame e = ground arith

-- The body of a request that is signed as `signature`.
abbrev pub signed : Identity → List ℕ → List ℕ → ClientAuth
signed identity label signature = record {
  version = 2;
  public_key = identity.public_key;
  label = label;
  signature = signature;
}

module _ (category : ℕ → Category) (identity : Identity) (route : Route) (label : List ℕ) where
  -- A request that is built is a CLIENT_AUTH frame, and who decodes its payload reads this PC's key
  -- and label with a signature that `sign` gave for the transcript of this route, of the challenge's
  -- nonce, and of this key and label.
  pub request_signs :
      (challenge : ClientChallenge) (sent : Frame)
      → request category identity route label challenge ≡ ok sent
      → (sent.header.kind ≡ client_auth)
        × ((message : List ℕ) × (signature : List ℕ) × (client_auth_message category
                (transport route)
                (phone_binding route)
                challenge.nonce
                identity.public_key
                label
              ≡ ok message)
            × (identity.sign message ≡ ok signature)
            × (ClientAuth.decode category sent.payload ≡ ok (signed identity label signature)))
  unfolding request
  request_signs challenge sent e =
      let (message, m, e1) =
        bind_inv
          (client_auth_message category (transport route) (phone_binding route) challenge.nonce
            identity.public_key label)
          _ sent e in
      let (signature, s, e2) = bind_inv (identity.sign message) _ sent e1 in
      let (payload, w, e3) =
        bind_inv (ClientAuth.encode category (signed identity label signature)) _ sent e2 in
      let (k, p) = new_frame_inv client_auth 0 payload sent e3 in
      (
        k,
        (
          message,
          signature,
          m,
          s,
          rw p (client_auth_round_trip category (signed identity label signature) payload w),
        ),
      )
