-- ===== src/Exchange/Poll.antt =====
-- `receive_until` of host-rs/src/client_auth.rs, over the turns of its loop. Times are milliseconds.
pub mod Received
use mobile_webcam_bridge.Prelude.{
  ℕ, ◌≡◌, Bool, true, false, List, [], ◌∷◌, Option, none, some, leb, if◌then◌else◌, In, arith, ◌||◌,
}
use mobile_webcam_bridge.Prelude.Outcome.{
  Error, error, interrupted, Result, ok, err, panic, NoPanic,
}
use mobile_webcam_bridge.Wire.Header.{Frame}

-- `remaining` of host-rs/src/transport.rs, which asks the crate io-budget: a deadline and the time
-- that it is.
abbrev pub Remaining : Type 0
Remaining = ℕ → ℕ → Result ℕ

-- One turn of a polling loop: the stop flag, the time, and what `poll_receive` answers to a timeout.
pub record Turn : Type 0 where
  pub stop : Bool
  pub now : ℕ
  pub poll_receive : ℕ → Result (Option Frame)

-- How far a conversation comes with the turns that it is given: it has used them up, or it has ended
-- with an error, a panic, or a value and the turns that are left.
pub data Progress {ℓ} (A : Type ℓ) : Type ℓ where
  waiting : Progress A
  fails : Error → Progress A
  panics : Progress A
  returns : A → List Turn → Progress A

abbrev pub after {ℓ κ} :
    {A : Type ℓ} {B : Type κ} → Progress A → (A → List Turn → Progress B) → Progress B
after waiting f = waiting
after (fails e) f = fails e
after panics f = panics
after (returns a turns) f = f a turns

abbrev pub lift {ℓ κ} : {A : Type ℓ} {B : Type κ} → Result A → (A → Progress B) → Progress B
lift (ok a) f = f a
lift (err e) f = fails e
lift panic f = panics

abbrev pub least : ℕ → ℕ → ℕ
least a b = if leb a b then a else b

-- A poll without a frame goes on with the loop.
abbrev pub on_poll : List Turn → Progress Frame → Option Frame → Progress Frame
on_poll rest again none = again
on_poll rest again (some frame) = returns frame rest

unfoldable pub receive_until : Remaining → ℕ → List Turn → Progress Frame
receive_until remaining deadline [] = waiting
receive_until remaining deadline (turn ∷ rest) =
    let again : Progress Frame = receive_until remaining deadline rest in
    if turn.stop
    then fails (error interrupted "authorization stopped")
    else lift (remaining deadline turn.now)
        (λ left. lift (turn.poll_receive (least left 100)) (on_poll rest again))
