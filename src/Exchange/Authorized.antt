-- ===== src/Exchange/Authorized.antt =====
-- What has happened when the exchange of host-rs/src/client_auth.rs hands back an outcome.
use mobile_webcam_bridge.Prelude.{
  ℕ, ◌+◌, ◌≡◌, ◌↔◌, ◌⊎◌, inl, inr, Bool, true, false, List, arith, suc, zero,
}
use mobile_webcam_bridge.Prelude.Outcome.{ok}
use mobile_webcam_bridge.Wire.Header.{Frame}
use mobile_webcam_bridge.Wire.Kinds.{client_challenge}
use mobile_webcam_bridge.Wire.Label.{Category}
use mobile_webcam_bridge.Wire.ClientChallenge
use mobile_webcam_bridge.Wire.ClientChallenge.{ClientChallenge}
use mobile_webcam_bridge.Wire.ClientAuthResult.{ClientAuthResult}
use mobile_webcam_bridge.Wire.Bytes.{same, same_sound, same_refl}
use mobile_webcam_bridge.Exchange.Poll.{Remaining, Turn, Progress, returns, receive_until, least}
use mobile_webcam_bridge.Exchange.Poll.Received.{
  Receives, receives, receive_until-Receives, lift_inv, after_inv,
}
use mobile_webcam_bridge.Exchange.{
  Route, Outcome, authorized, rejected, reason_text, Identity, World, check_challenge,
  check_outcome, request, answer, outcome, exchange, transport, phone_binding,
}

module _ (remaining : Remaining) (world : World) where
  -- The phone's verdict: a frame that says so, directly or after one Pending outcome, which starts
  -- the interval of 60 seconds.
  pub data Concludes : Bool → ℕ → List Turn → Outcome → List Turn → Type 0 where
    accepted :
        (pending : Bool) (deadline : ℕ) (turns rest : List Turn) (frame : Frame)
        (result : ClientAuthResult)
        → Receives remaining deadline turns frame rest
        → check_outcome frame ≡ ok result
        → result.status ≡ 0
        → Concludes pending deadline turns (authorized result.expires_at_unix_seconds) rest
    refused :
        (pending : Bool) (deadline : ℕ) (turns rest : List Turn) (frame : Frame)
        (result : ClientAuthResult)
        → Receives remaining deadline turns frame rest
        → check_outcome frame ≡ ok result
        → result.status ≡ 2
        → Concludes pending deadline turns (rejected (reason_text result.reason)) rest
    asked :
        (deadline : ℕ) (turns mid rest : List Turn) (frame : Frame) (result : ClientAuthResult)
        (verdict : Outcome)
        → Receives remaining deadline turns frame mid
        → check_outcome frame ≡ ok result
        → result.status ≡ 1
        → world.on_pending ≡ ok tt
        → Concludes true (world.pending_at + 60000) mid verdict rest
        → Concludes false deadline turns verdict rest

  answer_inv :
      (pending : Bool) (again : ℕ → List Turn → Progress Outcome) (result : ClientAuthResult)
      (turns rest : List Turn) (o : Outcome)
      → answer remaining world pending again result turns ≡ returns o rest
      → ((result.status ≡ 0) × (o ≡ authorized result.expires_at_unix_seconds) × (turns ≡ rest))
        ⊎ ((result.status ≡ 2) × (o ≡ rejected (reason_text result.reason)) × (turns ≡ rest))
        ⊎ ((result.status ≡ 1)
            × (pending ≡ false)
            × (world.on_pending ≡ ok tt)
            × (again (world.pending_at + 60000) turns ≡ returns o rest))
  unfolding answer
  answer_inv pending again result turns rest o e = ground arith

  concludes :
      (pending : Bool) (fuel deadline : ℕ) (turns rest : List Turn) (o : Outcome)
      → outcome remaining world fuel pending deadline turns ≡ returns o rest
      → Concludes pending deadline turns o rest
  unfolding outcome
  concludes pending zero deadline turns rest o e = ground arith
  concludes pending (suc fuel) deadline turns rest o e =
      let (frame, mid, r, e1) = after_inv (receive_until remaining deadline turns) _ o rest e in
      let (result, c, e2) = lift_inv (check_outcome frame) _ o rest e1 in
      let got : Receives remaining deadline turns frame mid =
        receives remaining deadline turns frame mid r in
      elim (answer_inv pending (outcome remaining world fuel true) result mid rest o e2) [
        | inl (s, v, t) ↦ rw v (rw (← t) (accepted pending deadline turns mid frame result got c s))
        | inr (inl (s, v, t)) ↦
            rw v (rw (← t) (refused pending deadline turns mid frame result got c s))
        | inr (inr (s, p, w, e3)) ↦ rw p (
            asked deadline turns mid rest frame result o got c s w
              (concludes true fuel (world.pending_at + 60000) mid rest o e3))
      ]

  settles :
      (fuel deadline : ℕ) (turns rest : List Turn) (o : Outcome)
      → Concludes true deadline turns o rest
      → outcome remaining world (suc fuel) true deadline turns ≡ returns o rest
  unfolding outcome answer
  settles fuel deadline _ _ _ (accepted _ _ turns rest frame result got c s) =
      ground (arith, receive_until-Receives remaining deadline turns frame rest got)
  settles fuel deadline _ _ _ (refused _ _ turns rest frame result got c s) =
      ground (arith, receive_until-Receives remaining deadline turns frame rest got)

  -- Two iterations of the loop are enough: it hands back an outcome exactly when the phone's frames
  -- conclude so.
  outcome_iff :
      (deadline : ℕ) (turns rest : List Turn) (o : Outcome)
      → Concludes false deadline turns o rest
      → outcome remaining world 2 false deadline turns ≡ returns o rest
  unfolding outcome answer
  outcome_iff deadline _ _ _ (accepted _ _ turns rest frame result got c s) =
      ground (arith, receive_until-Receives remaining deadline turns frame rest got)
  outcome_iff deadline _ _ _ (refused _ _ turns rest frame result got c s) =
      ground (arith, receive_until-Receives remaining deadline turns frame rest got)
  outcome_iff deadline _ _ _ (asked _ turns mid rest frame result verdict got c s w next) = ground (
    arith,
    receive_until-Receives remaining deadline turns frame mid got,
    settles 0 (world.pending_at + 60000) mid rest verdict next,
  )

-- What the first frame has to be.
pub record Matches (route : Route) (frame : Frame) (challenge : ClientChallenge) : Type 0 where
  pub kind : frame.header.kind ≡ client_challenge
  pub decoded : ClientChallenge.decode frame.payload ≡ ok challenge
  pub transport : challenge.transport ≡ transport route
  pub phone_binding : challenge.phone_binding ≡ phone_binding route

check_challenge_inv :
    (route : Route) (frame : Frame) (challenge : ClientChallenge)
    → check_challenge route frame ≡ ok challenge
    → Matches route frame challenge
unfolding check_challenge
check_challenge_inv route frame challenge e =
    let (k, d, t, b) : (frame.header.kind ≡ client_challenge)
        × (ClientChallenge.decode frame.payload ≡ ok challenge)
        × (challenge.transport ≡ transport route)
        × (same challenge.phone_binding (phone_binding route) ≡ true) =
      ground arith in
    record {
      kind = k;
      decoded = d;
      transport = t;
      phone_binding = same_sound challenge.phone_binding (phone_binding route) b;
    }

check_challenge-Matches :
    (route : Route) (frame : Frame) (challenge : ClientChallenge)
    → Matches route frame challenge
    → check_challenge route frame ≡ ok challenge
unfolding check_challenge
check_challenge-Matches route frame challenge m =
    let b : same challenge.phone_binding (phone_binding route) ≡ true =
      rw m.phone_binding (same_refl (phone_binding route)) in
    ground arith

-- The conversation in which the phone gave its verdict.
pub record Agreed (remaining : Remaining) (world : World) (category : ℕ → Category)
    (identity : Identity) (route : Route) (label : List ℕ) (timeout : ℕ) (turns : List Turn)
    (verdict : Outcome) (rest : List Turn) : Type 0 where
  pub first : Frame
  pub mid : List Turn
  pub challenge : ClientChallenge
  pub sent : Frame
  pub left : ℕ
  pub opened : Receives remaining (world.started + timeout) turns first mid
  pub matches : Matches route first challenge
  pub requested : request category identity route label challenge ≡ ok sent
  pub in_time : remaining (world.started + timeout) world.sending ≡ ok left
  pub delivered : world.send sent (least left 2000) ≡ ok tt
  pub concluded : Concludes remaining world false (world.started + timeout) mid verdict rest

module _ (remaining : Remaining) (world : World) (category : ℕ → Category) (identity : Identity)
    (route : Route) (label : List ℕ) (timeout : ℕ) where
  exchange-Agreed :
      (turns rest : List Turn) (o : Outcome)
      → exchange remaining world category identity route label timeout turns ≡ returns o rest
      → Agreed remaining world category identity route label timeout turns o rest
  unfolding exchange
  exchange-Agreed turns rest o e =
      let (first, mid, r, e1) =
        after_inv (receive_until remaining (world.started + timeout) turns) _ o rest e in
      let (challenge, c, e2) = lift_inv (check_challenge route first) _ o rest e1 in
      let (sent, q, e3) = lift_inv (request category identity route label challenge) _ o rest e2 in
      let (left, l, e4) =
        lift_inv (remaining (world.started + timeout) world.sending) _ o rest e3 in
      let (done, d, e5) = lift_inv (world.send sent (least left 2000)) _ o rest e4 in
      record {
        first = first;
        mid = mid;
        challenge = challenge;
        sent = sent;
        left = left;
        opened = receives remaining (world.started + timeout) turns first mid r;
        matches = check_challenge_inv route first challenge c;
        requested = q;
        in_time = l;
        delivered = d;
        concluded = concludes remaining world false 2 (world.started + timeout) mid rest o e5;
      }

  Agreed-exchange :
      (turns rest : List Turn) (o : Outcome)
      → Agreed remaining world category identity route label timeout turns o rest
      → exchange remaining world category identity route label timeout turns ≡ returns o rest
  unfolding exchange
  Agreed-exchange turns rest o a = ground (
    arith,
    receive_until-Receives remaining (world.started + timeout) turns a.first a.mid a.opened,
    check_challenge-Matches route a.first a.challenge a.matches,
    a.requested,
    a.in_time,
    a.delivered,
    outcome_iff remaining world (world.started + timeout) a.mid rest o a.concluded,
  )

  -- The exchange hands back a verdict exactly when the phone's first frame is a challenge for this
  -- route, transport and certificate binding alike, the signed request went out inside the deadline,
  -- and a later frame carries the verdict, after at most one Pending outcome.
  pub exchange_iff :
      (turns rest : List Turn) (o : Outcome)
      → (exchange remaining world category identity route label timeout turns ≡ returns o rest)
        ↔ Agreed remaining world category identity route label timeout turns o rest
  exchange_iff turns rest o = (exchange-Agreed turns rest o, Agreed-exchange turns rest o)
