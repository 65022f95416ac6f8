-- ===== src/Exchange/Tests.antt =====
-- The theorems on the exchange at concrete inputs, and runs of it.
use mobile_webcam_bridge.Prelude.{
  ℕ, ◌≡◌, ◌≢◌, ◌⊎◌, inl, refl, true, false, List, [], ◌∷◌, ◌++◌, Option, none, some, arith, length,
  replicate, codes, ltb, if◌then◌else◌, ◌-◌, ◌==◌,
}
use mobile_webcam_bridge.Prelude.Outcome.{ok, err, error, timed_out, boxed, NoPanic}
use mobile_webcam_bridge.Wire.Header
use mobile_webcam_bridge.Wire.Header.{Frame}
use mobile_webcam_bridge.Wire.Kinds.{client_challenge, client_auth, client_auth_result}
use mobile_webcam_bridge.Wire.Bytes
use mobile_webcam_bridge.Wire.Label
use mobile_webcam_bridge.Wire.Label.{Category, other, control, any_visible, valid_label}
use mobile_webcam_bridge.Wire.ClientChallenge
use mobile_webcam_bridge.Wire.ClientChallenge.{ClientChallenge}
use mobile_webcam_bridge.Wire.ClientAuth
use mobile_webcam_bridge.Wire.ClientAuth.{ClientAuth, client_auth_message}
use mobile_webcam_bridge.Wire.ClientAuthResult
use mobile_webcam_bridge.Exchange
use mobile_webcam_bridge.Exchange.Poll
use mobile_webcam_bridge.Exchange.Poll.{Remaining, Turn, Progress, returns, waiting, panics}
use mobile_webcam_bridge.Exchange.Poll.Received.{any_stop, Polls}
use mobile_webcam_bridge.Exchange.{
  Route, lan, Outcome, authorized, Identity, World, request, exchange, proposed_label, transport,
  phone_binding,
}
use mobile_webcam_bridge.Exchange.Authorized.{Agreed, exchange_iff}
use mobile_webcam_bridge.Exchange.Signs.{signed, request_signs}
use mobile_webcam_bridge.Exchange.Ends.{exchange-stops}
use mobile_webcam_bridge.Exchange.NoPanics.{exchange-never_panics}
use mobile_webcam_bridge.Exchange.Labels.{proposed_label-valid_label}

abbrev ascii_category : ℕ → Category
ascii_category c = if ltb c 32 then control else if c == 127 then control else other

abbrev clock : Remaining
clock deadline now =
    if ltb now deadline then ok (deadline - now) else err (error timed_out "deadline exceeded")

abbrev pinned : List ℕ
pinned = replicate 32 0xab

abbrev nonce : List ℕ
nonce = replicate 32 0x11

abbrev here : Identity
here = record {
  public_key = 4 ∷ replicate 64 0x22;
  sign = λ message. ok (replicate 64 (length message));
}

abbrev frame_of : ℕ → List ℕ → Frame
frame_of kind payload = record {
  header = record {
    kind = kind;
    flags = 0;
    sequence = 0;
    payload_len = length payload;
    pts_us = 0;
  };
  payload = payload;
}

abbrev challenge_frame : Frame
challenge_frame = frame_of client_challenge (2 ∷ 1 ∷ (pinned ++ nonce))

abbrev a_challenge : ClientChallenge
a_challenge = record { version = 2; transport = 1; phone_binding = pinned; nonce = nonce }

abbrev pending_frame : Frame
pending_frame = frame_of client_auth_result (1 ∷ 0 ∷ 0 ∷ 0 ∷ 0 ∷ 0 ∷ [])

abbrev authorized_frame : Frame
authorized_frame = frame_of client_auth_result (0 ∷ 0 ∷ 7 ∷ 0 ∷ 0 ∷ 0 ∷ [])

abbrev at : ℕ → Option Frame → Turn
at now frame = record { stop = false; now = now; poll_receive = λ timeout. ok frame }

abbrev halted : ℕ → Turn
halted now = record { stop = true; now = now; poll_receive = λ timeout. ok none }

abbrev world : World
world = record {
  started = 1000;
  sending = 1200;
  send = λ frame timeout. ok tt;
  pending_at = 1300;
  on_pending = ok tt;
}

abbrev conversation : List Turn
conversation =
    at 1000 none
    ∷ at 1100 (some challenge_frame)
    ∷ at 1250 (some pending_frame)
    ∷ at 50000 (some authorized_frame)
    ∷ []

abbrev here_label : List ℕ
here_label = codes "desk"

exchange_runs :
    exchange clock world ascii_category here (lan pinned) here_label 5000 conversation
    ≡ returns (authorized 7) []
unfolding exchange Exchange.outcome Exchange.answer Exchange.check_challenge Exchange.check_outcome
    request Poll.receive_until transport phone_binding ClientChallenge.decode
    ClientChallenge.valid_transport ClientChallenge.valid_phone_binding ClientChallenge.any_nonzero
    ClientAuth.encode client_auth_message ClientAuth.valid_transcript valid_label Label.from_utf8
    Label.utf8_from Label.utf8_step Label.valid_chars Label.any_visible Label.any_hidden
    Label.is_whitespace Header.new_frame Header.encode Header.validate_payload_size Header.size_fits
    Header.header_bytes ClientAuthResult.decode ClientAuthResult.read ClientAuthResult.validate
    ClientAuthResult.is_valid Bytes.index Bytes.slice Bytes.u32_at
exchange_runs = refl

exchange_iff_example :
    Agreed clock world ascii_category here
      (lan pinned)
      here_label
      5000
      conversation
      (authorized 7)
      []
exchange_iff_example =
    (exchange_iff clock world ascii_category here (lan pinned) here_label 5000 conversation []
        (authorized 7)).0
      exchange_runs

-- The phone on another certificate.
abbrev foreign : List Turn
foreign = at 1000 (some challenge_frame) ∷ at 1001 (some authorized_frame) ∷ []

foreign_fails :
    exchange clock world ascii_category here (lan (replicate 32 1)) here_label 5000 foreign
    ≡ Progress.fails (error boxed "authorization phone certificate binding mismatch")
unfolding exchange Exchange.check_challenge Poll.receive_until transport phone_binding
    ClientChallenge.decode ClientChallenge.valid_transport ClientChallenge.valid_phone_binding
    ClientChallenge.any_nonzero Bytes.index Bytes.slice
foreign_fails = refl

abbrev sent_frame : Frame
sent_frame = frame_of client_auth (2 ∷ (here.public_key ++ (4 ∷ (here_label ++ replicate 64 160))))

requested : request ascii_category here (lan pinned) here_label a_challenge ≡ ok sent_frame
unfolding request transport phone_binding ClientChallenge.valid_transport
    ClientChallenge.valid_phone_binding ClientChallenge.any_nonzero ClientAuth.encode
    client_auth_message ClientAuth.valid_transcript valid_label Label.from_utf8 Label.utf8_from
    Label.utf8_step Label.valid_chars Label.any_visible Label.any_hidden Label.is_whitespace
    Header.new_frame Header.encode Header.validate_payload_size Header.size_fits Header.header_bytes
    Bytes.index
requested = refl

request_signs_example :
    (sent_frame.header.kind ≡ client_auth)
    × ((message : List ℕ) × (signature : List ℕ) × (client_auth_message ascii_category
            (transport (lan pinned))
            (phone_binding (lan pinned))
            a_challenge.nonce
            here.public_key
            here_label
          ≡ ok message)
        × (here.sign message ≡ ok signature)
        × (ClientAuth.decode ascii_category sent_frame.payload
            ≡ ok (signed here here_label signature)))
request_signs_example =
    request_signs ascii_category here (lan pinned) here_label a_challenge sent_frame requested

abbrev stopped : List Turn
stopped = at 1000 none ∷ at 1100 (some challenge_frame) ∷ halted 1200 ∷ []

stopped-any_stop : any_stop stopped ≡ true
unfolding any_stop
stopped-any_stop = refl

exchange-stops_example :
    exchange clock world ascii_category here (lan pinned) here_label 5000 stopped ≢ waiting
exchange-stops_example =
    exchange-stops clock world ascii_category here (lan pinned) here_label 5000 stopped
      stopped-any_stop

clock-NoPanic : (d t : ℕ) → NoPanic (clock d t)
clock-NoPanic d t = ground arith

conversation-Polls : Polls conversation
unfolding Polls
conversation-Polls = ((λ t. tt), ((λ t. tt), ((λ t. tt), ((λ t. tt), tt))))

here_signs : (m s : List ℕ) → here.sign m ≡ ok s → length s ≡ 64
here_signs m s e = ground arith

exchange-never_panics_example :
    exchange clock world ascii_category here (lan pinned) here_label 5000 conversation ≢ panics
exchange-never_panics_example =
    exchange-never_panics clock clock-NoPanic world (λ f t. tt) tt ascii_category here (lan pinned)
      here_label 5000 conversation (λ m. tt) here_signs conversation-Polls

abbrev trim_start : List ℕ → List ℕ
trim_start [] = []
trim_start (c ∷ cs) = if Label.is_whitespace c then trim_start cs else c ∷ cs

trim_start-shown : (v : List ℕ) → (length (trim_start v) ≡ 0) ⊎ (any_visible (trim_start v) ≡ true)
unfolding any_visible
trim_start-shown [] = inl refl
trim_start-shown (c ∷ cs) = ground (arith, trim_start-shown cs)

proposed_label-valid_label_example :
    valid_label ascii_category (proposed_label trim_start (none ∷ some here_label ∷ [])) ≡ true
proposed_label-valid_label_example =
    proposed_label-valid_label ascii_category (λ c lo hi. ground arith) trim_start trim_start-shown
      (none ∷ some here_label ∷ [])
