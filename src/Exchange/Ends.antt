-- ===== src/Exchange/Ends.antt =====
-- When the exchange of host-rs/src/client_auth.rs ends.
use mobile_webcam_bridge.Prelude.{
  ℕ, ◌+◌, ◌≡◌, ◌≢◌, ◌⊎◌, inl, inr, refl, subst, Bool, true, false, List, [], ◌∷◌, Option, none,
  some, arith, Bool-cases,
}
use mobile_webcam_bridge.Prelude.Outcome.{Result, ok, err, panic}
use mobile_webcam_bridge.Wire.Header.{Frame}
use mobile_webcam_bridge.Wire.Label.{Category}
use mobile_webcam_bridge.Wire.ClientAuthResult.{ClientAuthResult}
use mobile_webcam_bridge.Exchange.Poll.{
  Remaining, Turn, Progress, waiting, returns, receive_until, least, lift, after, fails, panics,
  on_poll,
}
use mobile_webcam_bridge.Exchange.Poll.Received.{any_stop}
use mobile_webcam_bridge.Exchange.{
  Route, Outcome, Identity, World, check_challenge, check_outcome, request, answer, outcome,
  exchange,
}

-- A conversation that, on turns one of which sees the stop flag, is over or has that turn ahead.
unfoldable pub Live {ℓ} : {A : Type ℓ} → Progress A → Type 0
Live waiting = ⊥
Live (returns a rest) = any_stop rest ≡ true
Live _ = Unit

Live-lift {ℓ κ} :
    {A : Type ℓ} {B : Type κ} (r : Result A) (f : A → Progress B)
    → ((a : A) → Live (f a))
    → Live (lift r f)
unfolding Live
Live-lift (ok a) f h = h a
Live-lift (err e) f h = tt
Live-lift panic f h = tt

Live-after {ℓ κ} :
    {A : Type ℓ} {B : Type κ} (p : Progress A) (f : A → List Turn → Progress B)
    → Live p
    → ((a : A) (rest : List Turn) → any_stop rest ≡ true → Live (f a rest))
    → Live (after p f)
unfolding Live
Live-after waiting f l h = l
Live-after (returns a rest) f l h = h a rest l
Live-after (fails e) f l h = tt
Live-after panics f l h = tt

Live-on_poll :
    (rest : List Turn) (again : Progress Frame) (polled : Option Frame)
    → any_stop rest ≡ true
    → Live again
    → Live (on_poll rest again polled)
unfolding Live
Live-on_poll rest again none s l = l
Live-on_poll rest again (some frame) s l = s

receive_until-Live :
    (remaining : Remaining) (deadline : ℕ) (turns : List Turn)
    → any_stop turns ≡ true
    → Live (receive_until remaining deadline turns)
unfolding receive_until any_stop Live
receive_until-Live remaining deadline [] s = ground arith
receive_until-Live remaining deadline (turn ∷ turns) s = elim (Bool-cases turn.stop) [
  | inl p ↦ rw p tt
  | inr p ↦
      let t : any_stop turns ≡ true = ground arith in
      rw p (
        Live-lift (remaining deadline turn.now) _ (λ left.
          Live-lift (turn.poll_receive (least left 100)) _ (λ polled.
            Live-on_poll turns _ polled t (receive_until-Live remaining deadline turns t))))
]

module _ (remaining : Remaining) (world : World) where
  Live-answer :
      (pending : Bool) (again : ℕ → List Turn → Progress Outcome) (result : ClientAuthResult)
      (turns : List Turn)
      → any_stop turns ≡ true
      → (pending ≡ true) ⊎ (Live (again (world.pending_at + 60000) turns))
      → Live (answer remaining world pending again result turns)
  unfolding answer Live
  Live-answer pending again result turns s h = ground arith

  outcome-Live :
      (deadline : ℕ) (turns : List Turn)
      → any_stop turns ≡ true
      → Live (outcome remaining world 2 false deadline turns)
  unfolding outcome
  outcome-Live deadline turns s =
      Live-after (receive_until remaining deadline turns) _
        (receive_until-Live remaining deadline turns s)
        (λ frame rest t. Live-lift (check_outcome frame) _ (λ result.
          Live-answer false (outcome remaining world 1 true) result rest t (
            inr (
              Live-after (receive_until remaining (world.pending_at + 60000) rest) _
                (receive_until-Live remaining (world.pending_at + 60000) rest t)
                (λ frame last l. Live-lift (check_outcome frame) _ (λ result.
                  Live-answer true (outcome remaining world 0 true) result last l (inl refl)))))))

  -- The exchange ends when the user stops it: on turns one of which sees the stop flag it is never
  -- left waiting, however many polls come without a frame and whatever the frames say.
  pub exchange-stops :
      (category : ℕ → Category) (identity : Identity) (route : Route) (label : List ℕ) (timeout : ℕ)
      (turns : List Turn)
      → any_stop turns ≡ true
      → exchange remaining world category identity route label timeout turns ≢ waiting
  unfolding exchange Live
  exchange-stops category identity route label timeout turns s w =
      let deadline : ℕ = world.started + timeout in
      let live : Live (exchange remaining world category identity route label timeout turns) =
        Live-after (receive_until remaining deadline turns) _
          (receive_until-Live remaining deadline turns s)
          (λ frame rest t. Live-lift (check_challenge route frame) _ (λ challenge.
            Live-lift (request category identity route label challenge) _ (λ sent.
              Live-lift (remaining deadline world.sending) _ (λ left.
                Live-lift (world.send sent (least left 2000)) _
                  (λ done. outcome-Live deadline rest t))))) in
      subst Live w live
