-- ===== src/Exchange/NoPanics.antt =====
-- The asserts and slices that the exchange of host-rs/src/client_auth.rs reaches.
use mobile_webcam_bridge.Prelude.{
  ℕ, ◌+◌, ◌≡◌, ◌≢◌, inl, inr, refl, Bool, true, false, List, [], ◌∷◌, ◌==◌, Option, none, some,
  arith, length, Bool-cases, by_length, tabulate, zero, suc, subst,
}
use mobile_webcam_bridge.Prelude.Outcome.{Result, ok, err, panic, NoPanic, NoPanic-bind}
use mobile_webcam_bridge.Wire.ClientChallenge.Exact.{decode_slices}
use mobile_webcam_bridge.Wire.Header
use mobile_webcam_bridge.Wire.Header.{Frame, new_frame}
use mobile_webcam_bridge.Wire.Label.{Category}
use mobile_webcam_bridge.Wire.ClientChallenge
use mobile_webcam_bridge.Wire.ClientChallenge.{ClientChallenge}
use mobile_webcam_bridge.Wire.ClientAuth
use mobile_webcam_bridge.Wire.ClientAuth.{ClientAuth, client_auth_message, valid_transcript}
use mobile_webcam_bridge.Wire.ClientAuthResult
use mobile_webcam_bridge.Wire.ClientAuthResult.{ClientAuthResult, read, validate}
use mobile_webcam_bridge.Wire.Bytes.{index, byte_at}
use mobile_webcam_bridge.Exchange.Poll.{
  Remaining, Turn, Progress, waiting, returns, receive_until, least, lift, after, fails, panics,
  on_poll,
}
use mobile_webcam_bridge.Exchange.Poll.Received.{Polls}
use mobile_webcam_bridge.Exchange.{
  Route, Outcome, Identity, World, check_challenge, check_outcome, request, answer, outcome,
  exchange,
}
use mobile_webcam_bridge.Exchange.Signs.{signed}

read-NoPanic : (f : ℕ → ℕ) → NoPanic (read (tabulate 6 f))
unfolding read
read-NoPanic f = ground arith

outcome-decode-NoPanic : (payload : List ℕ) → NoPanic (ClientAuthResult.decode payload)
unfolding ClientAuthResult.decode validate
outcome-decode-NoPanic payload = elim (Bool-cases (length payload == 6)) [
  | inl e ↦ rw e (
      NoPanic-bind (read payload) _
        (by_length 6 (λ l. NoPanic (read l)) read-NoPanic payload (ground arith))
        (λ m r. ground arith))
  | inr e ↦ rw e tt
]

challenge-decode-NoPanic : (payload : List ℕ) → NoPanic (ClientChallenge.decode payload)
unfolding ClientChallenge.decode index
challenge-decode-NoPanic [] = ground arith
challenge-decode-NoPanic (v ∷ []) = ground arith
challenge-decode-NoPanic (v ∷ t ∷ rest) = elim (Bool-cases (length rest == 64)) [
  | inl e ↦ let n : length rest ≡ 64 = ground arith in ground (arith, decode_slices v t rest n)
  | inr e ↦ ground arith
]

check_challenge-NoPanic : (route : Route) (frame : Frame) → NoPanic (check_challenge route frame)
unfolding check_challenge
check_challenge-NoPanic route frame = ground (arith, challenge-decode-NoPanic frame.payload)

check_outcome-NoPanic : (frame : Frame) → NoPanic (check_outcome frame)
unfolding check_outcome
check_outcome-NoPanic frame = ground (arith, outcome-decode-NoPanic frame.payload)

module _ (category : ℕ → Category) where
  message-NoPanic : (t : ℕ) (b n k l : List ℕ) → NoPanic (client_auth_message category t b n k l)
  unfolding client_auth_message
  message-NoPanic t b n k l = ground arith

  index_first : (key : List ℕ) → length key ≡ 65 → index key 0 ≡ ok (byte_at key 0)
  unfolding index
  index_first [] n = ground arith
  index_first (x ∷ xs) n = refl

  encode-NoPanic :
      (t : ℕ) (b n l m signature : List ℕ) (identity : Identity)
      → client_auth_message category t b n identity.public_key l ≡ ok m
      → length signature ≡ 64
      → NoPanic (ClientAuth.encode category (signed identity l signature))
  unfolding client_auth_message valid_transcript ClientAuth.encode
  encode-NoPanic t b n l m signature identity e s =
      let k : length identity.public_key ≡ 65 = ground arith in
      ground (arith, index_first identity.public_key k)

  new_frame-NoPanic :
      (kind sequence : ℕ) (payload : List ℕ) → NoPanic (new_frame kind sequence payload)
  unfolding new_frame Header.encode Header.validate_payload_size
  new_frame-NoPanic kind sequence payload = ground arith

  request-NoPanic :
      (identity : Identity) (route : Route) (label : List ℕ) (challenge : ClientChallenge)
      → ((m : List ℕ) → NoPanic (identity.sign m))
      → ((m s : List ℕ) → identity.sign m ≡ ok s → length s ≡ 64)
      → NoPanic (request category identity route label challenge)
  unfolding request
  request-NoPanic identity route label challenge n h =
      NoPanic-bind (client_auth_message category _ _ _ _ _) _ (message-NoPanic _ _ _ _ _) (λ m e.
        NoPanic-bind (identity.sign m) _ (n m) (λ s f.
          NoPanic-bind (ClientAuth.encode category (signed identity label s)) _
            (encode-NoPanic _ _ _ label m s identity e (h m s f))
            (λ payload g. new_frame-NoPanic 11 0 payload)))

-- A conversation that has not panicked, with turns ahead that do not.
unfoldable pub Sound {ℓ} : {A : Type ℓ} → Progress A → Type 0
Sound panics = ⊥
Sound (returns a rest) = Polls rest
Sound _ = Unit

Sound-lift {ℓ κ} :
    {A : Type ℓ} {B : Type κ} (r : Result A) (f : A → Progress B)
    → NoPanic r
    → ((a : A) → Sound (f a))
    → Sound (lift r f)
unfolding Sound
Sound-lift (ok a) f n h = h a
Sound-lift (err e) f n h = tt
Sound-lift panic f n h = n

Sound-after {ℓ κ} :
    {A : Type ℓ} {B : Type κ} (p : Progress A) (f : A → List Turn → Progress B)
    → Sound p
    → ((a : A) (rest : List Turn) → Polls rest → Sound (f a rest))
    → Sound (after p f)
unfolding Sound
Sound-after waiting f l h = tt
Sound-after (returns a rest) f l h = h a rest l
Sound-after (fails e) f l h = tt
Sound-after panics f l h = l

Sound-on_poll :
    (rest : List Turn) (again : Progress Frame) (polled : Option Frame)
    → Polls rest
    → Sound again
    → Sound (on_poll rest again polled)
unfolding Sound
Sound-on_poll rest again none s l = l
Sound-on_poll rest again (some frame) s l = s

module _ (remaining : Remaining) (clock : (d t : ℕ) → NoPanic (remaining d t)) where
  receive_until-Sound :
      (deadline : ℕ) (turns : List Turn)
      → Polls turns
      → Sound (receive_until remaining deadline turns)
  unfolding receive_until Polls Sound
  receive_until-Sound deadline [] s = tt
  receive_until-Sound deadline (turn ∷ turns) (p, s) = elim (Bool-cases turn.stop) [
    | inl e ↦ rw e tt
    | inr e ↦ rw e (
        Sound-lift (remaining deadline turn.now) _ (clock deadline turn.now) (λ left.
          Sound-lift (turn.poll_receive (least left 100)) _ (p (least left 100))
            (λ polled. Sound-on_poll turns _ polled s (receive_until-Sound deadline turns s))))
  ]

  module _ (world : World) (sends : (f : Frame) (t : ℕ) → NoPanic (world.send f t))
      (notified : NoPanic world.on_pending) where
    Sound-answer :
        (pending : Bool) (again : ℕ → List Turn → Progress Outcome) (result : ClientAuthResult)
        (turns : List Turn)
        → Polls turns
        → ((d : ℕ) → Sound (again d turns))
        → Sound (answer remaining world pending again result turns)
    unfolding answer Sound
    Sound-answer pending again result turns s h =
        let k : Sound (again (world.pending_at + 60000) turns) = h (world.pending_at + 60000) in
        ground arith

    outcome-Sound :
        (fuel : ℕ) (pending : Bool) (deadline : ℕ) (turns : List Turn)
        → Polls turns
        → Sound (outcome remaining world fuel pending deadline turns)
    unfolding outcome Sound
    outcome-Sound zero pending deadline turns s = tt
    outcome-Sound (suc fuel) pending deadline turns s =
        Sound-after (receive_until remaining deadline turns) _
          (receive_until-Sound deadline turns s)
          (λ frame rest t.
            Sound-lift (check_outcome frame) _ (check_outcome-NoPanic frame) (λ result.
              Sound-answer pending (outcome remaining world fuel true) result rest t
                (λ d. outcome-Sound fuel true d rest t)))

    -- The exchange does not panic, where the clock, the transport, the notification and the
    -- signature do not and a signature has 64 bytes: no frame of the phone and no key or label of
    -- this PC reaches an assert or a slice that fails.
    pub exchange-never_panics :
        (category : ℕ → Category) (identity : Identity) (route : Route) (label : List ℕ)
        (timeout : ℕ) (turns : List Turn)
        → ((m : List ℕ) → NoPanic (identity.sign m))
        → ((m s : List ℕ) → identity.sign m ≡ ok s → length s ≡ 64)
        → Polls turns
        → exchange remaining world category identity route label timeout turns ≢ panics
    unfolding exchange Sound
    exchange-never_panics category identity route label timeout turns n h s w =
        let deadline : ℕ = world.started + timeout in
        let sound : Sound (exchange remaining world category identity route label timeout turns) =
          Sound-after (receive_until remaining deadline turns) _
            (receive_until-Sound deadline turns s)
            (λ frame rest t.
              Sound-lift (check_challenge route frame) _ (check_challenge-NoPanic route frame)
                (λ challenge.
                  Sound-lift (request category identity route label challenge) _
                    (request-NoPanic category identity route label challenge n h)
                    (λ sent.
                      Sound-lift (remaining deadline world.sending) _ (clock deadline world.sending)
                        (λ left.
                          Sound-lift (world.send sent (least left 2000)) _
                            (sends sent (least left 2000))
                            (λ done. outcome-Sound 2 false deadline rest t))))) in
        subst Sound w sound
