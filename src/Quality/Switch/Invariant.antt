-- ===== src/Quality/Switch/Invariant.antt =====
-- What holds of the switch machine between two events.
use mobile_webcam_bridge.Prelude.{
  ℕ, ◌^◌, ◌<◌, ◌≡◌, Bool, true, false, Option, none, some, List, [], ◌∷◌, arith,
}
use mobile_webcam_bridge.Quality.Types.{Event, Switch, applied}
use mobile_webcam_bridge.Quality.Switch.{initial, busy, in_flight, step, run}

abbrev pub is_some {ℓ} : {A : Type ℓ} → Option A → Bool
is_some none = false
is_some (some a) = true

-- A timer runs exactly while an apply is busy; an apply in flight has a size that was requested and
-- an id that was handed out, below a next id of u32; and in the phase Applied the applied size is there
-- and is the one that was requested.
pub record Inv (s : Switch) : Type 0 where
  pub timed : is_some s.deadline_ms ≡ busy s.phase
  pub asked : in_flight s.phase ≡ true → is_some s.requested ≡ true
  pub settled : s.phase ≡ applied → (s.applied ≡ s.requested) × (is_some s.applied ≡ true)
  pub issued : s.request_id < s.next_request_id
  pub bounded : s.next_request_id < 2 ^ 32

pub initial-Inv : Inv initial
initial-Inv = ground arith

-- Every event, at any time, keeps the invariant.
pub step-Inv : (now : ℕ) (e : Event) (s : Switch) → Inv s → Inv (step now e s).0
unfolding step
step-Inv now (Event.epoch_observed epoch) s v = ground arith
step-Inv now (Event.prepare revision (w, h, f)) s v = ground arith
step-Inv now _ s v = ground arith

pub run-Inv : (es : List (ℕ × Event)) (s : Switch) → Inv s → Inv (run es s).0
unfolding run
run-Inv [] s v = v
run-Inv ((now, e) ∷ rest) s v = run-Inv rest (step now e s).0 (step-Inv now e s v)

-- Whatever events a new machine meets, a timer runs exactly in its busy phases, an apply in flight has
-- a requested size, in the phase Applied the applied size is there and is the requested one, and the
-- current request id is below the next one, which fits u32.
pub reached-Inv : (es : List (ℕ × Event)) → Inv (run es initial).0
reached-Inv es = run-Inv es initial initial-Inv
