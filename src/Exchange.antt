-- ===== src/Exchange.antt =====
-- host-rs/src/client_auth.rs: the PC's half of the per-PC authorization. The transport, the clock, the
-- stop flag, the signature and the environment variables are scripts and functions of the model; the
-- trace lines on standard error are left out.
pub mod Poll
pub mod Authorized
pub mod Signs
pub mod Ends
pub mod NoPanics
pub mod Labels
mod Tests
use mobile_webcam_bridge.Prelude.{
  ℕ, ◌+◌, Bool, true, false, not, ◌&&◌, ◌||◌, List, [], ◌∷◌, length, Option, none, some, ltb, leb,
  ◌==◌, if◌then◌else◌, codes, replicate, suc, zero,
}
use mobile_webcam_bridge.Prelude.Outcome.{
  Error, error, boxed, interrupted, Result, ok, err, panic, ◌>>=◌, ◌>>◌, guard,
}
use mobile_webcam_bridge.Wire.Bytes.{same}
use mobile_webcam_bridge.Wire.Kinds.{
  auth_usb, auth_lan, phone_binding_bytes, client_challenge, client_auth, client_auth_result,
  client_auth_version, auth_authorized, auth_pending, auth_rejected, auth_reason_unknown,
  auth_reason_revoked, auth_reason_expired, auth_reason_too_many, auth_reason_bad_signature,
  max_client_label,
}
use mobile_webcam_bridge.Wire.Header.{Frame, new_frame}
use mobile_webcam_bridge.Wire.Label.{Category}
use mobile_webcam_bridge.Wire.ClientChallenge
use mobile_webcam_bridge.Wire.ClientChallenge.{ClientChallenge}
use mobile_webcam_bridge.Wire.ClientAuth
use mobile_webcam_bridge.Wire.ClientAuth.{ClientAuth, client_auth_message}
use mobile_webcam_bridge.Wire.ClientAuthResult
use mobile_webcam_bridge.Wire.ClientAuthResult.{ClientAuthResult}
use mobile_webcam_bridge.Exchange.Poll.{
  Remaining, Turn, Progress, fails, lift, after, receive_until, least,
}
use Prim.Native.String.{String}

pub data Route : Type 0 where
  usb : Route
  lan : List ℕ → Route  -- phone_sha256

unfoldable pub transport : Route → ℕ
transport usb = auth_usb
transport (lan phone_sha256) = auth_lan

unfoldable pub phone_binding : Route → List ℕ
phone_binding usb = replicate phone_binding_bytes 0
phone_binding (lan phone_sha256) = phone_sha256

pub data Outcome : Type 0 where
  authorized : ℕ → Outcome  -- expires_at_unix_seconds
  rejected : String → Outcome

unfoldable pub reason_text : ℕ → String
reason_text reason =
    if reason == auth_reason_unknown
    then "this PC is not known to the phone"
    else if reason == auth_reason_revoked
    then "this PC's access was revoked on the phone"
    else if reason == auth_reason_expired
    then "this PC's authorization expired on the phone"
    else if reason == auth_reason_too_many
    then "the phone already authorizes too many PCs"
    else if reason == auth_reason_bad_signature
    then "the phone rejected this PC's signature"
    else "the phone rejected this PC"

-- `trimmed.bytes().all(|c| (0x20..=0x7e).contains(&c))`
unfoldable pub printable : List ℕ → Bool
printable [] = true
printable (c ∷ cs) = leb 0x20 c && leb c 0x7e && printable cs

-- The body of the loop, past `trim`.
unfoldable pub usable_label : List ℕ → Bool
usable_label trimmed =
    not (length trimmed == 0) && leb (length trimmed) max_client_label && printable trimmed

abbrev pub this_pc : List ℕ
this_pc = codes "this PC"

-- The values of HOSTNAME, COMPUTERNAME and USER, in that order, and `str::trim`.
unfoldable pub proposed_label : (List ℕ → List ℕ) → List (Option (List ℕ)) → List ℕ
unfolding usable_label
proposed_label trim [] = this_pc
proposed_label trim (none ∷ variables) = proposed_label trim variables
proposed_label trim (some value ∷ variables) =
    let rest : List ℕ = proposed_label trim variables in
    if usable_label (trim value) then trim value else rest

-- The key of `Identity`, with the signature over a message.
pub record Identity : Type 0 where
  pub public_key : List ℕ
  pub sign : List ℕ → Result (List ℕ)

-- What the exchange meets outside the polls: `Instant::now()` at the start, before the send and at
-- the Pending outcome, what `transport.send` answers to a frame and a timeout, and `on_pending`.
pub record World : Type 0 where
  pub started : ℕ
  pub sending : ℕ
  pub send : Frame → ℕ → Result (Unit {0})
  pub pending_at : ℕ
  pub on_pending : Result (Unit {0})

abbrev pub text : String → Error
text message = error boxed message

-- The checks on the first frame.
unfoldable pub check_challenge : Route → Frame → Result ClientChallenge
check_challenge route frame = do
  guard (frame.header.kind == client_challenge)
      (text "phone does not support required per-PC authorization v2")
  challenge ← ClientChallenge.decode frame.payload
  guard (challenge.transport == transport route) (text "authorization transport binding mismatch")
  guard (same challenge.phone_binding (phone_binding route))
      (text "authorization phone certificate binding mismatch")
  ok challenge

module _ (category : ℕ → Category) where
  -- The message, its signature, and the frame that carries both.
  unfoldable pub request : Identity → Route → List ℕ → ClientChallenge → Result Frame
  request identity route label challenge = do
    message ←
        client_auth_message category (transport route) (phone_binding route) challenge.nonce
          identity.public_key label
    signature ← identity.sign message
    let body : ClientAuth = record {
      version = client_auth_version;
      public_key = identity.public_key;
      label = label;
      signature = signature;
    }
    payload ← ClientAuth.encode category body
    new_frame client_auth 0 payload

-- The checks on a later frame.
unfoldable pub check_outcome : Frame → Result ClientAuthResult
check_outcome frame = do
  guard (frame.header.kind == client_auth_result)
      (text "expected authorization outcome before capabilities/media")
  ClientAuthResult.decode frame.payload

module _ (remaining : Remaining) (world : World) where
  -- The `match result.status`; `again` is the loop's next iteration, from the deadline of 60 s.
  unfoldable pub answer :
      Bool → (ℕ → List Turn → Progress Outcome) → ClientAuthResult → List Turn → Progress Outcome
  answer pending again result turns =
      if result.status == auth_authorized
      then Progress.returns (authorized result.expires_at_unix_seconds) turns
      else if result.status == auth_rejected
      then Progress.returns (rejected (reason_text result.reason)) turns
      else if result.status == auth_pending && not pending
      then lift world.on_pending (λ _. again (world.pending_at + 60000) turns)
      else fails (text "repeated pending authorization outcome")

  -- The loop, on fuel: its first argument bounds the iterations.
  unfoldable pub outcome : ℕ → Bool → ℕ → List Turn → Progress Outcome
  unfolding answer check_outcome
  outcome zero pending deadline turns = Progress.waiting
  outcome (suc fuel) pending deadline turns =
      after (receive_until remaining deadline turns) (λ frame rest.
        lift (check_outcome frame) (λ result. answer pending (outcome fuel true) result rest))

  unfoldable pub exchange :
      (ℕ → Category) → Identity → Route → List ℕ → ℕ → List Turn → Progress Outcome
  unfolding check_challenge request outcome
  exchange category identity route label timeout turns =
      let deadline : ℕ = world.started + timeout in
      after (receive_until remaining deadline turns) (λ frame rest.
        lift (check_challenge route frame) (λ challenge.
          lift (request category identity route label challenge) (λ sent.
            lift (remaining deadline world.sending) (λ left.
              lift (world.send sent (least left 2000)) (λ _. outcome 2 false deadline rest)))))
