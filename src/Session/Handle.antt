-- ===== src/Session/Handle.antt =====
-- The worker's events in `Session::poll` of host-rs/src/session.rs: the loop over the channel and its `match`.
use mobile_webcam_bridge.Prelude.{
  ℕ, ◌%◌, Bool, true, false, not, ◌&&◌, ◌||◌, List, [], ◌∷◌, ◌++◌, Option, none, some, ltb, ◌==◌,
  if◌then◌else◌,
}
use mobile_webcam_bridge.Wire.PairingInfo.{Ipv4Addr}
use mobile_webcam_bridge.Settings.{is_hex, all_hexdigits}
use mobile_webcam_bridge.Settings.Text.{Str, len}
use mobile_webcam_bridge.Quality.Preference.{Mode, F64}
use mobile_webcam_bridge.Quality.Client
use mobile_webcam_bridge.Quality.Client.{
  Client, is_none, advertise, progress, confirmed, disconnected,
}
use mobile_webcam_bridge.Session.Types.{
  Stats, Event, connecting, waiting, streaming, approval_pending, failed, Session, Effect,
}
use mobile_webcam_bridge.Session.{is_stopping, apply_expiry, arm}
use Prim.Native.String.{String}

-- `addresses.iter().filter_map(|address| address.parse().ok())`
abbrev pub parsed : (Str → Option Ipv4Addr) → List Str → List Ipv4Addr
parsed parse [] = []
parsed parse (a ∷ rest) = elim (parse a) [
  | none ↦ parsed parse rest
  | some i ↦ i ∷ parsed parse rest
]

abbrev pub is_nil {ℓ} : {A : Type ℓ} → List A → Bool
is_nil [] = true
is_nil _ = false

-- The test on the pairing details.
abbrev pub pairing_holds : List Ipv4Addr → Str → Str → Bool
pairing_holds addresses fingerprint key =
    not (is_nil addresses)
    && len fingerprint == 64
    && len key == 32
    && is_hex fingerprint 32
    && is_hex key 16

unfoldable pub on_pairing_info : (Str → Option Ipv4Addr) → List Str → Str → Str → Session → Session
on_pairing_info parse addresses fingerprint key s =
    if pairing_holds (parsed parse addresses) fingerprint key
    then record s {
      pairing_info =
          some
            (record { addresses = parsed parse addresses; fingerprint = fingerprint; key = key });
    }
    else s

-- The second part says whether `finished` was set.
unfoldable pub on_authorization_pending : Str → Session → Session × Bool
on_authorization_pending client_id s =
    if len client_id == 32 && all_hexdigits client_id
    then (record s { state = approval_pending client_id }, false)
    else (record s { state = failed "receiver reported an invalid PC ID" }, true)

-- The casts are to u16.
unfoldable pub on_stats : ℕ → Stats → Session → Session
on_stats now m s =
    let shows : Bool = m.active && ltb 0 m.submitted in
    record s {
      quality =
          if shows && is_none s.quality.pending
          then record s.quality {
            applied = some (m.width % 65536, m.height % 65536, m.target_fps % 65536);
          }
          else s.quality;
      state = if shows then streaming else waiting;
      stats = some m;
      stats_at = some now;
    }

unfoldable pub on_capabilities : F64 → ℕ → ℕ → List Mode → Session → Session × List Effect
on_capabilities f64 now permission modes s =
    let (quality, mode) = advertise f64 permission modes s.quality in
    arm now (record s { quality = quality }, mode)

unfoldable pub on_progress : ℕ → Bool → Session → Session
on_progress now staged s =
    let next : Client = progress staged s.quality in
    record s {
      quality = next;
      quality_deadline =
          if staged
          then none
          else if s.quality.staged && not (is_none next.pending)
          then some (apply_expiry now)
          else s.quality_deadline;
    }

unfoldable pub on_applied : ℕ → ℕ → ℕ → Session → Session × Bool
on_applied width height fps s =
    let (quality, expected) = confirmed (width, height, fps) s.quality in
    let s' : Session = record s { quality_deadline = none; quality = quality } in
    if expected
    then (s', false)
    else (record s' { state = failed "receiver confirmed an unexpected quality" }, true)

unfoldable pub on_failed : String → Bool → Session → Session × Bool
on_failed reason terminal s =
    let s' : Session = record s {
      quality_deadline = none;
      quality = Client.failed reason s.quality;
    } in
    if terminal then (record s' { state = failed reason }, true) else (s', false)

abbrev pub is_stopped : Event → Bool
is_stopped Event.stopped = true
is_stopped _ = false

-- The time of the events and the time of the tests after them are read apart.
module _ (f64 : F64) (parse : Str → Option Ipv4Addr) (now : ℕ) where
  -- The `match &event`, where nothing stops.
  unfoldable pub handle : Event → Session → (Session × Bool) × List Effect
  unfolding on_pairing_info on_authorization_pending on_stats on_capabilities on_progress on_applied
      on_failed
  handle (Event.pairing_info addresses fingerprint key) s =
      ((on_pairing_info parse addresses fingerprint key s, false), [])
  handle Event.connecting s = ((record s { state = connecting }, false), [])
  handle Event.waiting s = ((record s { state = waiting }, false), [])
  handle (Event.authorization_pending client_id) s = (on_authorization_pending client_id s, [])
  handle (Event.stats m) s = ((on_stats now m s, false), [])
  handle (Event.problem message) s = ((record s { state = failed message }, false), [])
  handle (Event.usb_permission device) s = ((record s { usb_permission = some device }, false), [])
  handle (Event.quality_capabilities permission revision epoch modes) s =
      let (s', effects) = on_capabilities f64 now permission modes s in ((s', false), effects)
  handle (Event.quality_progress staged) s = ((on_progress now staged s, false), [])
  handle (Event.quality_applied width height fps) s = (on_applied width height fps s, [])
  handle (Event.quality_failed reason terminal) s = (on_failed reason terminal s, [])
  handle Event.stopped s = ((s, true), [])

  -- One event; while the session stops only `Stopped` counts.
  unfoldable pub receive : Event → Session × Bool → (Session × Bool) × List Effect
  receive event (s, finished) =
      let handled : (Session × Bool) × List Effect = handle event s in
      if is_stopping s.state || finished then ((s, finished || is_stopped event), []) else handled

  -- `while let Ok(event) = receiver.try_recv()`
  unfoldable pub drain : List Event → Session × Bool → (Session × Bool) × List Effect
  unfolding receive
  drain [] s = (s, [])
  drain (event ∷ events) s =
      let one : (Session × Bool) × List Effect = receive event s in
      let rest : (Session × Bool) × List Effect = drain events one.0 in (rest.0, one.1 ++ rest.1)
