-- ===== src/Session/Poll.antt =====
-- `Session::poll` of host-rs/src/session.rs, step by step.
pub mod Invariant
pub mod Events
use mobile_webcam_bridge.Prelude.{
  ℕ, ◌+◌, ◌-◌, ◌%◌, Bool, true, false, not, ◌&&◌, ◌||◌, List, [], ◌∷◌, ◌++◌, Option, none, some,
  ltb, leb, ◌==◌, if◌then◌else◌, codes, length,
}
use mobile_webcam_bridge.Prelude.Outcome.{
  Error, error, boxed, Result, ok, err, panic, ◌>>=◌, ◌>>◌, guard,
}
use mobile_webcam_bridge.Wire.PairingInfo.{Ipv4Addr, PairingInfo}
use mobile_webcam_bridge.Settings.{Settings, is_hex, all_hexdigits}
use mobile_webcam_bridge.Settings.Text.{Str, len}
use mobile_webcam_bridge.Usb.{DeviceId}
use mobile_webcam_bridge.Quality.Preference.{Mode, F64}
use mobile_webcam_bridge.Quality.Client
use mobile_webcam_bridge.Quality.Client.{
  Client, is_none, advertise, progress, confirmed, disconnected,
}
use mobile_webcam_bridge.Session.Types.{
  Command, Stats, Event, State, idle, connecting, waiting, streaming, stopping, approval_pending,
  failed, Pending, Auxiliary, Session, Exit, alive, exited, unknown, Effect, kill_child,
  kill_helper, wake_writer,
}
use mobile_webcam_bridge.Session.{
  running, is_stopping, is_failed, is_streaming, apply_expiry, arm, start, text,
}
use Prim.Native.String.{String}
use mobile_webcam_bridge.Session.Handle.{
  parsed, is_nil, pairing_holds, on_pairing_info, on_authorization_pending, on_stats,
  on_capabilities, on_progress, on_applied, on_failed, is_stopped, handle, receive, drain,
}

-- `is_some_and(|deadline| now >= deadline)`
abbrev pub reached : ℕ → Option ℕ → Bool
reached now none = false
reached now (some deadline) = leb deadline now

-- Statistics that are three seconds old.
abbrev pub stale : ℕ → Option ℕ → Bool
stale now none = false
stale now (some at) = leb 3000 (now - at)

unfoldable pub check_stale : ℕ → Session → Session
check_stale now s =
    if is_streaming s.state && stale now s.stats_at then record s { state = waiting } else s

unfoldable pub check_quality_deadline : ℕ → Session × Bool → Session × Bool
check_quality_deadline now (s, finished) =
    if reached now s.quality_deadline
    then (
      record s {
        quality_deadline = none;
        quality = Client.failed "the quality apply deadline expired" s.quality;
        state = failed "the quality apply deadline expired";
      },
      true,
    )
    else (s, finished)

unfoldable pub check_deadline : ℕ → Session × Bool → (Session × Bool) × List Effect
check_deadline now (s, finished) =
    if reached now s.deadline
    then ((s, true), if s.child then kill_child ∷ [] else [])
    else ((s, finished), [])

-- `child.try_wait()`; the last part says whether the child is reaped.
unfoldable pub check_child : Exit → Session × Bool → (Session × Bool) × Bool
check_child exit (s, finished) = if not s.child then ((s, finished), true) else elim exit [
  | alive ↦ ((s, finished), false)
  | exited success message ↦ (
    (
      if not success && not (is_failed s.state || is_stopping s.state)
          then record s { state = failed message }
          else s,
      true,
    ),
    true,
  )
  | unknown message ↦ ((record s { state = failed message }, true), false)
]

-- `if finished`
unfoldable pub finish : ℕ → Session → Bool → Session × List Effect
finish now s reaped =
    let ended : Session = record s {
      quality_deadline = none;
      quality = disconnected s.quality;
      stop = true;
      writer = false;
      events = false;
    } in
    let woken : List Effect = if s.writer then wake_writer ∷ [] else [] in
    if not reaped
    then (
      record ended {
        state = if is_failed s.state then s.state else stopping;
        deadline = some (now + 100);
      },
      woken ++ (if s.child then kill_child ∷ [] else []),
    )
    else (
      record ended {
        child = false;
        deadline = none;
        state = if is_failed s.state then s.state else idle;
      },
      woken,
    )

-- What a poll takes from the world: the two times, the events that the channel holds, the child's exit.
pub record Moment : Type 0 where
  pub now : ℕ
  pub later : ℕ
  pub arrived : List Event
  pub exit : Exit

-- `poll` with no helper running.
unfoldable pub poll_worker :
    F64 → (Str → Option Ipv4Addr) → Moment → Session → Session × List Effect
unfolding drain check_stale check_quality_deadline check_deadline check_child finish
poll_worker f64 parse m s =
    let drained : (Session × Bool) × List Effect =
      drain f64 parse m.now (if s.events then m.arrived else []) (s, false) in
    let timed : (Session × Bool) × List Effect =
      check_deadline m.later
        (check_quality_deadline m.later (check_stale m.later drained.0.0, drained.0.1)) in
    let waited : (Session × Bool) × Bool = check_child m.exit timed.0 in
    let ended : Session × List Effect = finish m.later waited.0.0 waited.1 in
    if waited.0.1
    then (ended.0, drained.1 ++ (timed.1 ++ ended.1))
    else (waited.0.0, drained.1 ++ timed.1)

-- What ends a helper: its exit, the identity of the device after the switch, and what spawning answers.
pub record HelperMoment : Type 0 where
  pub exit : Exit
  pub switched_identity : DeviceId → Result DeviceId
  pub spawned : Result (Unit {0})

-- The device to start with.
abbrev pub restart_device :
    (DeviceId → Result DeviceId) → Option DeviceId → Bool → Result (Option DeviceId)
restart_device identify device false = ok device
restart_device identify none true = err (text "missing switched USB device")
restart_device identify (some device) true = (identify device >>= λ d. ok (some d))

abbrev pub message : Error → String
message (error kind said) = said

abbrev pub or_failed : Session × Result (Unit {0}) → Session
or_failed (s, ok done) = s
or_failed (s, err e) = record s { state = failed (message e) }
or_failed (s, panic) = s

-- The start that was to follow the helper.
abbrev pub restart_worker : HelperMoment → Session → Settings → Result (Option DeviceId) → Session
restart_worker m s settings (ok device) =
    or_failed (start settings m.spawned (record s { auxiliary = none; state = idle }))
restart_worker m s settings (err e) = record s { auxiliary = none; state = failed (message e) }
restart_worker m s settings panic = s

abbrev pub resume : HelperMoment → Session → Option (Settings × Option DeviceId × Bool) → Session
resume m s none = record s { auxiliary = none; state = idle }
resume m s (some (settings, device, switched)) =
    restart_worker m s settings (restart_device m.switched_identity device switched)

-- `poll` while a helper runs, for what its `try_wait` answers.
unfoldable pub helper_ended : HelperMoment → Auxiliary → Session → Exit → Session
unfolding start
helper_ended m aux s alive = s
helper_ended m aux s (unknown said) = record s { auxiliary = none; state = failed said }
helper_ended m aux s (exited success said) =
    if success || is_stopping s.state
    then resume m s aux.restart
    else record s { auxiliary = none; state = failed said }

unfoldable pub poll_helper : HelperMoment → Auxiliary → Session → Session
unfolding helper_ended
poll_helper m aux s = helper_ended m aux s m.exit

-- `poll`, with a helper or without one.
abbrev pub poll_with :
    F64
    → (Str → Option Ipv4Addr)
    → Moment
    → HelperMoment
    → Option Auxiliary
    → Session
    → Session × List Effect
poll_with f64 parse m h (some aux) s = (poll_helper h aux s, [])
poll_with f64 parse m h none s = poll_worker f64 parse m s

unfoldable pub poll :
    F64 → (Str → Option Ipv4Addr) → Moment → HelperMoment → Session → Session × List Effect
unfolding poll_worker poll_helper
poll f64 parse m h s = poll_with f64 parse m h s.auxiliary s
