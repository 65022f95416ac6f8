-- ===== src/Session/Types.antt =====
-- The types of host-rs/src/session.rs, and the messages of host-rs/src/control.rs that it handles.
use mobile_webcam_bridge.Prelude.{ℕ, Bool, List, Option}
use mobile_webcam_bridge.Wire.PairingInfo.{PairingInfo}
use mobile_webcam_bridge.Settings.{Settings}
use mobile_webcam_bridge.Settings.Text.{Str}
use mobile_webcam_bridge.Usb.{DeviceId}
use mobile_webcam_bridge.Quality.Preference.{Mode}
use mobile_webcam_bridge.Quality.Client.{Client}
use Prim.Native.String.{String}

pub data Command : Type 0 where
  start : Settings → Option DeviceId → Command
  transform : ℕ → Bool → Bool → Command  -- rotation, mirror, vertical flip
  prepare_quality : ℕ → ℕ → ℕ → Command  -- width, height, fps
  stop : Command

pub record Stats : Type 0 where
  pub decoded : ℕ
  pub submitted : ℕ
  pub active : Bool
  pub width : ℕ  -- u32
  pub height : ℕ  -- u32
  pub target_fps : ℕ  -- u32
  pub decoder : String

pub data Event : Type 0 where
  usb_permission : DeviceId → Event
  connecting waiting : Event
  authorization_pending : Str → Event  -- client id
  stats : Stats → Event
  pairing_info : List Str → Str → Str → Event  -- addresses, fingerprint, key
  quality_capabilities : ℕ → ℕ → ℕ → List Mode → Event  -- permission, revision, epoch
  quality_progress : Bool → Event  -- staged
  quality_applied : ℕ → ℕ → ℕ → Event  -- width, height, fps
  quality_failed : String → Bool → Event  -- reason, terminal
  problem : String → Event  -- `Error`
  stopped : Event

pub data State : Type 0 where
  idle connecting waiting streaming stopping : State
  approval_pending : Str → State
  failed : String → State

-- What the thread that writes to the worker takes next.
pub record Pending : Type 0 where
  pub quality : Option Command
  pub transform : Option Command

-- A helper process, and the connection to start after it.
pub record Auxiliary : Type 0 where
  pub restart : Option (Settings × Option DeviceId × Bool)

-- `child`, `events` and `writer` say whether the worker process, its channel and its writer are there.
pub record Session : Type 0 where
  pub child : Bool
  pub events : Bool
  pub stop : Bool
  pub pending : Pending
  pub deadline : Option ℕ
  pub quality_deadline : Option ℕ
  pub writer : Bool
  pub pairing_info : Option PairingInfo
  pub state : State
  pub stats : Option Stats
  pub stats_at : Option ℕ
  pub usb_permission : Option DeviceId
  pub quality : Client
  pub auxiliary : Option Auxiliary

-- What `try_wait` answers; a text is what the source makes of a failure.
pub data Exit : Type 0 where
  alive : Exit
  exited : Bool → String → Exit  -- success
  unknown : String → Exit

-- What a method asks of the world.
pub data Effect : Type 0 where
  kill_child kill_helper wake_writer : Effect
