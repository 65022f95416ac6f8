-- ===== src/Quality/Switch.antt =====
-- The methods of `Switch` in host-rs/src/quality.rs. A method on `&mut self` returns the new machine.
pub mod Invariant
pub mod Steps
pub mod Traces
use mobile_webcam_bridge.Prelude.{
  ℕ, ◌+◌, ◌%◌, ◌^◌, Bool, true, false, not, ◌&&◌, ◌||◌, Option, none, some, List, [], ◌∷◌, ◌++◌,
  leb, ltb, ◌==◌, if◌then◌else◌,
}
use mobile_webcam_bridge.Quality.Types.{
  Phase, Size, Event, Action, Switch, idle, preparing, staged, switching, awaiting_output, applied,
  failed, send_prepare_quality, send_commit_quality, release_outputs, report_applied, report_failed,
  stop_capture, close_connection,
}
use Prim.Native.String.{String}

abbrev pub apply_deadline_ms : ℕ
apply_deadline_ms = 5000

-- `Default`
abbrev pub initial : Switch
initial = record {
  phase = idle;
  request_id = 0;
  epoch = none;
  requested = none;
  applied = none;
  deadline_ms = none;
  next_request_id = 1;
}

-- `matches!(self.phase, Idle | Applied | Failed)`
abbrev pub resting : Phase → Bool
resting idle = true
resting applied = true
resting failed = true
resting _ = false

abbrev pub busy : Phase → Bool
busy preparing = true
busy switching = true
busy awaiting_output = true
busy _ = false

abbrev pub is_staged : Phase → Bool
is_staged staged = true
is_staged _ = false

abbrev pub is_preparing : Phase → Bool
is_preparing preparing = true
is_preparing _ = false

abbrev pub awaiting_video : Phase → Bool
awaiting_video switching = true
awaiting_video staged = true
awaiting_video awaiting_output = true
awaiting_video _ = false

-- `Preparing | Staged | Switching | AwaitingOutput`
abbrev pub in_flight : Phase → Bool
in_flight p = busy p || is_staged p

-- `Switching | AwaitingOutput`
abbrev pub after_boundary : Phase → Bool
after_boundary switching = true
after_boundary awaiting_output = true
after_boundary _ = false

abbrev pub is_awaiting_output : Phase → Bool
is_awaiting_output awaiting_output = true
is_awaiting_output _ = false

abbrev pub same_size : Size → Size → Bool
same_size (w, h, f) (w', h', f') = w == w' && h == h' && f == f'

-- `self.requested == Some(size)`
abbrev pub is_requested : Option Size → Size → Bool
is_requested none size = false
is_requested (some r) size = same_size r size

-- `now_ms + APPLY_DEADLINE_MS` on u64; the release profile wraps.
abbrev pub deadline_after : ℕ → ℕ
deadline_after now = (now + apply_deadline_ms) % 2 ^ 64

-- `u32::checked_add(1)`
abbrev pub checked_succ : ℕ → Option ℕ
checked_succ n = if ltb (n + 1) (2 ^ 32) then some (n + 1) else none

unfoldable pub rejection_reason : ℕ → String
rejection_reason reason =
    if reason == 1
    then "camera permission is not granted"
    else if reason == 2
    then "the phone left the foreground"
    else if reason == 3
    then "the mode is not supported by the phone"
    else if reason == 4
    then "the capability list changed; refresh the quality list"
    else if reason == 5
    then "another quality apply is already in flight"
    else if reason == 6
    then "the apply deadline expired"
    else if reason == 7
    then "camera capture could not start"
    else if reason == 8
    then "this edition does not allow that quality"
    else "the phone rejected the apply"

abbrev sendable : Size → Bool
sendable (w, h, f) = not (w == 0 || h == 0 || f == 0)

unfoldable pub prepare : ℕ → ℕ → Size → Switch → Switch × Option Action
prepare now revision size s =
    if not (resting s.phase) || not (sendable size)
    then (s, none)
    else elim (checked_succ s.next_request_id) [
      | none ↦ (s, none)
      | some next ↦ (
        record s {
          next_request_id = next;
          phase = preparing;
          request_id = s.next_request_id;
          requested = some size;
          deadline_ms = some (deadline_after now);
        },
        some (send_prepare_quality s.next_request_id revision size),
      )
    ]

unfoldable pub fail : String → Switch → Switch × List Action
fail reason s = (
  record s { phase = failed; deadline_ms = none },
  report_failed reason ∷ stop_capture ∷ close_connection ∷ [],
)

-- `Option::into_iter().collect()`
abbrev pub collect : Option Action → List Action
collect none = []
collect (some a) = a ∷ []

abbrev other_epoch : Option ℕ → ℕ → Bool
other_epoch none epoch = false
other_epoch (some current) epoch = not (current == epoch)

abbrev expired : Option ℕ → ℕ → Bool
expired none now = false
expired (some deadline) now = leb deadline now

unfoldable pub on_prepare_accepted : ℕ → ℕ → Bool → Switch → Switch × List Action
on_prepare_accepted now request_id streaming s =
    if not (request_id == s.request_id)
    then (s, [])
    else if is_preparing s.phase && not streaming
    then (record s { phase = staged; deadline_ms = none }, release_outputs ∷ [])
    else if is_staged s.phase && streaming
    then (record s { phase = switching; deadline_ms = some (deadline_after now) }, [])
    else (s, [])

unfoldable pub on_rejected : ℕ → ℕ → Switch → Switch × List Action
unfolding fail
on_rejected request_id reason s =
    if not (request_id == s.request_id) || not (in_flight s.phase)
    then (s, [])
    else if after_boundary s.phase
    then fail (rejection_reason reason) s
    else (
      record s { phase = failed; deadline_ms = none },
      report_failed (rejection_reason reason) ∷ [],
    )

unfoldable pub on_paused : ℕ → ℕ → Switch → Switch × List Action
unfolding fail
on_paused request_id epoch s =
    if not (request_id == s.request_id) || not (is_preparing s.phase) || other_epoch s.epoch epoch
    then (s, [])
    else elim (checked_succ epoch) [
      | none ↦ fail "the video epoch overflowed" s
      | some next ↦ (
        record s { phase = switching; epoch = some next },
        release_outputs ∷ send_commit_quality request_id next ∷ [],
      )
    ]

unfoldable pub on_video_config : ℕ → Size → Switch → Switch × List Action
unfolding fail
on_video_config now size s =
    if not (awaiting_video s.phase)
    then (s, [])
    else if not (is_requested s.requested size)
    then fail "the new mode did not match the request" s
    else if is_staged s.phase
    then (record s { phase = awaiting_output; deadline_ms = some (deadline_after now) }, [])
    else (record s { phase = awaiting_output }, [])

unfoldable pub on_capture_started : ℕ → ℕ → Size → Switch → Switch × List Action
unfolding fail
on_capture_started now request_id size s =
    if not (request_id == s.request_id) || not (awaiting_video s.phase)
    then (s, [])
    else if not (is_requested s.requested size)
    then fail "the new mode did not match the request" s
    else if is_staged s.phase
    then (record s { phase = switching; deadline_ms = some (deadline_after now) }, [])
    else (s, [])

unfoldable pub on_output_ready : Switch → Switch × List Action
on_output_ready s = if not (is_awaiting_output s.phase) then (s, []) else elim s.requested [
  | none ↦ (s, [])
  | some size ↦ (
    record s { phase = applied; applied = s.requested; deadline_ms = none },
    report_applied size ∷ [],
  )
]

unfoldable pub on_deadline_exceeded : ℕ → Switch → Switch × List Action
unfolding fail
on_deadline_exceeded now s =
    if busy s.phase && expired s.deadline_ms now
    then fail "the apply deadline expired" s
    else (s, [])

unfoldable pub on_user_stop : Switch → Switch × List Action
on_user_stop s = if not (busy s.phase) && not (is_staged s.phase) then (s, []) else (
  record s { phase = failed; deadline_ms = none },
  report_failed "the apply was stopped" ∷ stop_capture ∷ [],
)

-- `Switch::step`
unfoldable pub step : ℕ → Event → Switch → Switch × List Action
unfolding prepare on_prepare_accepted on_rejected on_paused on_video_config on_capture_started
    on_output_ready on_deadline_exceeded on_user_stop
step now (Event.epoch_observed epoch) s =
    (if resting s.phase then record s { epoch = some epoch } else s, [])
step now (Event.prepare revision size) s =
    let (s', action) = prepare now revision size s in (s', collect action)
step now (Event.prepare_accepted request_id streaming) s =
    on_prepare_accepted now request_id streaming s
step now (Event.rejected request_id reason) s = on_rejected request_id reason s
step now (Event.paused request_id epoch) s = on_paused request_id epoch s
step now (Event.video_config size) s = on_video_config now size s
step now (Event.capture_started request_id size) s = on_capture_started now request_id size s
step now Event.output_ready s = on_output_ready s
step now Event.deadline_exceeded s = on_deadline_exceeded now s
step now Event.user_stop s = on_user_stop s

-- A run: the machine after a list of events with their times, and all actions in order.
unfoldable pub run : List (ℕ × Event) → Switch → Switch × List Action
run [] s = (s, [])
run ((now, e) ∷ rest) s =
    let (s', first) = step now e s in let (s'', later) = run rest s' in (s'', first ++ later)
