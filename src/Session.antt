-- ===== src/Session.antt =====
-- `Session` of host-rs/src/session.rs: the parent's side of the worker process. Times are milliseconds.
-- A poll takes what the channel holds, what `try_wait` answers and the time; repaint requests, the
-- path of the preview and the Windows job are left out.
pub mod Types
pub mod Handle
pub mod Writer
pub mod Poll
pub mod Connect
pub mod Runs
pub mod Ends
mod Tests
use mobile_webcam_bridge.Prelude.{
  ℕ, ◌+◌, ◌-◌, ◌%◌, Bool, true, false, not, ◌&&◌, ◌||◌, List, [], ◌∷◌, ◌++◌, Option, none, some,
  ltb, leb, ◌==◌, if◌then◌else◌, codes, length,
}
use mobile_webcam_bridge.Prelude.Outcome.{
  Error, error, boxed, Result, ok, err, panic, ◌>>=◌, ◌>>◌, guard,
}
use mobile_webcam_bridge.Wire.Bytes.{same}
use mobile_webcam_bridge.Wire.PairingInfo.{Ipv4Addr, PairingInfo}
use mobile_webcam_bridge.Settings.{Settings, is_hex, all_hexdigits, quality_wish}
use mobile_webcam_bridge.Settings.Text.{Str, len}
use mobile_webcam_bridge.Usb.{DeviceId}
use mobile_webcam_bridge.Quality.Preference.{Mode, Wish, F64}
use mobile_webcam_bridge.Quality.Switch.{apply_deadline_ms}
use mobile_webcam_bridge.Quality.Client
use mobile_webcam_bridge.Quality.Client.{
  Client, is_none, ready, resolve_wish, begin, advertise, progress, confirmed, disconnected,
}
use mobile_webcam_bridge.Session.Types.{
  Command, prepare_quality, transform, Stats, Event, State, idle, connecting, waiting, streaming,
  stopping, approval_pending, failed, Pending, Auxiliary, Session, Exit, alive, exited, unknown,
  Effect, kill_child, kill_helper, wake_writer,
}
use Prim.Native.String.{String}

abbrev pub nothing : Pending
nothing = record { quality = none; transform = none }

-- `Pending::take`: a quality command goes before a transform.
unfoldable pub take : Pending → Pending × Option Command
take p = elim p.quality [
  | some command ↦ (record p { quality = none }, some command)
  | none ↦ (record p { transform = none }, p.transform)
]

-- `Session::new`
abbrev pub new : Session
new = record {
  child = false;
  events = false;
  stop = false;
  pending = nothing;
  deadline = none;
  quality_deadline = none;
  writer = false;
  pairing_info = none;
  state = idle;
  stats = none;
  stats_at = none;
  usb_permission = none;
  quality = Client.new (record { width = 0; height = 0; fps = 0 });
  auxiliary = none;
}

abbrev pub running : Session → Bool
running s = not (is_none s.auxiliary) || s.child

abbrev pub is_stopping : State → Bool
is_stopping stopping = true
is_stopping _ = false

abbrev pub is_failed : State → Bool
is_failed (failed message) = true
is_failed _ = false

abbrev pub is_streaming : State → Bool
is_streaming streaming = true
is_streaming _ = false

-- `apply_expiry`
abbrev pub apply_expiry : ℕ → ℕ
apply_expiry now = now + apply_deadline_ms

abbrev pub text : String → Error
text message = error boxed message

-- `start`; the argument of the `Result` type is what spawning the worker answers.
unfoldable pub start : Settings → Result (Unit {0}) → Session → Session × Result (Unit {0})
start settings spawned s =
    let cleared : Session = record s {
      stop = false;
      pending = nothing;
      stats = none;
      stats_at = none;
      usb_permission = none;
      quality = Client.new (quality_wish settings);
      quality_deadline = none;
    } in
    if running s then (s, err (text "session is already running")) else elim spawned [
      | err e ↦ (cleared, err e)
      | panic ↦ (cleared, panic)
      | ok done ↦
          (record cleared { writer = true; child = true; events = true; state = connecting }, ok tt)
    ]

-- What `queue_quality` leaves for the writer.
abbrev pub with_quality : ℕ → ℕ → ℕ → Pending → Pending
with_quality width height fps p = record p { quality = some (prepare_quality width height fps) }

-- What `transform` leaves for the writer.
abbrev pub with_transform : ℕ → Bool → Bool → Pending → Pending
with_transform rotation mirror flip p = record p {
  transform = some (transform rotation mirror flip);
}

unfoldable pub queue_quality : Mode → Session → Session × List Effect
queue_quality mode s = (
  record s { pending = with_quality mode.width mode.height mode.fps s.pending },
  if s.writer then wake_writer ∷ [] else [],
)

-- What a mode that was begun leads to.
abbrev pub arm : ℕ → Session × Option Mode → Session × List Effect
arm now (s, none) = (s, [])
arm now (s, some mode) =
    queue_quality mode (record s { quality_deadline = some (apply_expiry now) })

abbrev pub may_prepare : F64 → Wish → Session → Bool
may_prepare f64 wish s =
    running s
    && not (is_stopping s.state || is_failed s.state)
    && is_none s.quality.pending
    && ready s.quality
    && not (is_none (resolve_wish f64 s.quality wish))

-- `Session::prepare_quality`; the last part is its answer.
unfoldable pub prepare : F64 → ℕ → Wish → Session → (Session × List Effect) × Bool
unfolding queue_quality
prepare f64 now wish s =
    let begun : Client × Option Mode = begin f64 wish s.quality in
    if not (may_prepare f64 wish s)
    then ((s, []), false)
    else (arm now (record s { quality = begun.0 }, begun.1), true)

abbrev pub set_transform :
    Settings
    → Option (Settings × Option DeviceId × Bool)
    → Option (Settings × Option DeviceId × Bool)
set_transform settings none = none
set_transform settings (some (old, device, switched)) = some (
  record old {
    rotation = settings.rotation;
    mirror = settings.mirror;
    vertical_flip = settings.vertical_flip;
  },
  device,
  switched,
)

-- `Session::transform`
unfoldable pub change_transform : Settings → Session → Session × List Effect
change_transform settings s = elim s.auxiliary [
  | some aux ↦
      (record s { auxiliary = some (record { restart = set_transform settings aux.restart }) }, [])
  | none ↦ if not (running s) then (s, []) else (
    record s {
      pending = with_transform settings.rotation settings.mirror settings.vertical_flip s.pending;
    },
    if s.writer then wake_writer ∷ [] else [],
  )
]

abbrev calmed : Session → Session
calmed s = record s {
  quality_deadline = none;
  quality = record s.quality { pending = none; staged = false };
}

-- `Session::stop`
unfoldable pub stop : ℕ → Session → Session × List Effect
stop now s = elim s.auxiliary [
  | some aux ↦ (
    record (calmed s) { auxiliary = some (record { restart = none }); state = stopping },
    kill_helper ∷ [],
  )
  | none ↦ if not (running s) then (calmed s, []) else (
    record (calmed s) { stop = true; deadline = some (now + 1000); state = stopping },
    if s.writer then wake_writer ∷ [] else [],
  )
]

unfoldable pub take_pairing_info : Session → Session × Option PairingInfo
take_pairing_info s = (record s { pairing_info = none }, s.pairing_info)
