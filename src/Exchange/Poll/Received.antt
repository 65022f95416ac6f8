-- ===== src/Exchange/Poll/Received.antt =====
-- Frames that `receive_until` of host-rs/src/client_auth.rs hands on, and when it ends.
use mobile_webcam_bridge.Prelude.{
  ℕ, ◌≡◌, ◌≢◌, ◌⊎◌, inl, inr, ◌∙◌, ap, refl, Bool, false, List, [], ◌∷◌, Option, none, some, ◌||◌,
  arith, if◌then◌else◌,
}
use mobile_webcam_bridge.Prelude.Outcome.{Result, ok, err, panic, NoPanic}
use mobile_webcam_bridge.Wire.Header.{Frame}
use mobile_webcam_bridge.Exchange.Poll.{
  Remaining, Turn, Progress, waiting, panics, returns, receive_until, least, lift, on_poll, after,
}

-- A frame arrives after turns without one, none of them stopped or past the deadline.
pub data Receives (remaining : Remaining) (deadline : ℕ)
    : List Turn → Frame → List Turn → Type 0 where
  now :
      (turn : Turn) (rest : List Turn) (left : ℕ) (frame : Frame)
      → turn.stop ≡ false
      → remaining deadline turn.now ≡ ok left
      → turn.poll_receive (least left 100) ≡ ok (some frame)
      → Receives remaining deadline (turn ∷ rest) frame rest
  later :
      (turn : Turn) (turns rest : List Turn) (left : ℕ) (frame : Frame)
      → turn.stop ≡ false
      → remaining deadline turn.now ≡ ok left
      → turn.poll_receive (least left 100) ≡ ok none
      → Receives remaining deadline turns frame rest
      → Receives remaining deadline (turn ∷ turns) frame rest

-- The stop flag is set at some turn.
unfoldable pub any_stop : List Turn → Bool
any_stop [] = false
any_stop (turn ∷ turns) = turn.stop || any_stop turns

-- No poll at any timeout panics.
unfoldable pub Polls : List Turn → Type 0
Polls [] = Unit
Polls (turn ∷ turns) = ((t : ℕ) → NoPanic (turn.poll_receive t)) × Polls turns

-- What a step that came to its end has done.
pub lift_inv {ℓ κ} :
    {A : Type ℓ} {B : Type κ} (r : Result A) (f : A → Progress B) (b : B) (rest : List Turn)
    → lift r f ≡ returns b rest
    → (a : A) × (r ≡ ok a) × (f a ≡ returns b rest)
lift_inv (ok a) f b rest e = (a, refl, e)
lift_inv (err x) f b rest e = ground arith
lift_inv panic f b rest e = ground arith

pub after_inv {ℓ κ} :
    {A : Type ℓ} {B : Type κ} (p : Progress A) (f : A → List Turn → Progress B) (b : B)
    (rest : List Turn)
    → after p f ≡ returns b rest
    → (a : A) × (mid : List Turn) × (p ≡ returns a mid) × (f a mid ≡ returns b rest)
after_inv (returns a mid) f b rest e = (a, mid, refl, e)
after_inv waiting f b rest e = ground arith
after_inv (Progress.fails x) f b rest e = ground arith
after_inv panics f b rest e = ground arith

pub guarded_inv {ℓ} :
    {B : Type ℓ} (c : Bool) (x : Progress B) (y : Progress B) (b : B) (rest : List Turn)
    → x ≢ returns b rest
    → (if c then x else y) ≡ returns b rest
    → (c ≡ false) × (y ≡ returns b rest)
guarded_inv c x y b rest n e = ground arith

module _ (remaining : Remaining) (deadline : ℕ) where
  received :
      (turns : List Turn) (again : Progress Frame) (polled : Option Frame) (frame : Frame)
      (rest : List Turn)
      → on_poll turns again polled ≡ returns frame rest
      → ((polled ≡ some frame) × (turns ≡ rest)) ⊎ ((polled ≡ none) × (again ≡ returns frame rest))
  received turns again polled frame rest e = ground arith

  pub receives :
      (turns : List Turn) (frame : Frame) (rest : List Turn)
      → receive_until remaining deadline turns ≡ returns frame rest
      → Receives remaining deadline turns frame rest
  unfolding receive_until
  receives [] frame rest e = ground arith
  receives (turn ∷ turns) frame rest e =
      let (s, e1) = guarded_inv turn.stop _ _ frame rest (ground arith) e in
      let (left, l, e2) = lift_inv (remaining deadline turn.now) _ frame rest e1 in
      let (polled, p, e3) = lift_inv (turn.poll_receive (least left 100)) _ frame rest e2 in
      elim (received turns (receive_until remaining deadline turns) polled frame rest e3) [
        | inl (q, r) ↦ rw (← r) (now turn turns left frame s l (p ∙ ap ok q))
        | inr (q, r) ↦
            later turn turns rest left frame s l (p ∙ ap ok q) (receives turns frame rest r)
      ]

  pub receive_until-Receives :
      (turns : List Turn) (frame : Frame) (rest : List Turn)
      → Receives remaining deadline turns frame rest
      → receive_until remaining deadline turns ≡ returns frame rest
  unfolding receive_until
  receive_until-Receives _ _ _ (now turn rest left frame s l p) = ground arith
  receive_until-Receives _ _ _ (later turn turns rest left frame s l p r) =
      ground (arith, receive_until-Receives turns frame rest r)
