-- ===== src/Quality/Types.antt =====
-- The data types of the switch machine in host-rs/src/quality.rs.
use mobile_webcam_bridge.Prelude.{ℕ, Bool, Option}
use Prim.Native.String.{String}

pub data Phase : Type 0 where
  idle preparing staged switching awaiting_output applied failed : Phase

-- (width, height, fps), each a u16
abbrev pub Size : Type 0
Size = ℕ × ℕ × ℕ

pub data Event : Type 0 where
  epoch_observed : ℕ → Event
  prepare : ℕ → Size → Event  -- revision
  prepare_accepted : ℕ → Bool → Event  -- request id, streaming
  rejected : ℕ → ℕ → Event  -- request id, reason
  paused : ℕ → ℕ → Event  -- request id, epoch
  video_config : Size → Event
  capture_started : ℕ → Size → Event  -- request id
  output_ready deadline_exceeded user_stop : Event

pub data Action : Type 0 where
  send_prepare_quality : ℕ → ℕ → Size → Action  -- request id, revision
  send_commit_quality : ℕ → ℕ → Action  -- request id, epoch
  release_outputs : Action
  report_applied : Size → Action
  report_failed : String → Action
  stop_capture close_connection : Action

pub record Switch : Type 0 where
  pub phase : Phase
  pub request_id : ℕ  -- u32
  pub epoch : Option ℕ  -- u32
  pub requested : Option Size
  pub applied : Option Size
  pub deadline_ms : Option ℕ  -- u64
  pub next_request_id : ℕ  -- u32
