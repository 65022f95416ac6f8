-- ===== src/Session/Poll/Events.antt =====
-- The events of `Session::poll` in host-rs/src/session.rs, while the worker runs and after a stop.
use mobile_webcam_bridge.Prelude.{
  ℕ, ◌≡◌, refl, Bool, true, ◌||◌, List, [], ◌∷◌, Option, arith, Bool-cases, inl, inr,
}
use mobile_webcam_bridge.Settings.Text.{Str}
use mobile_webcam_bridge.Wire.PairingInfo.{Ipv4Addr}
use mobile_webcam_bridge.Quality.Preference.{F64}
use mobile_webcam_bridge.Quality.Client
use mobile_webcam_bridge.Quality.Client.{Client, is_none, advertise, progress, confirmed}
use mobile_webcam_bridge.Session.{is_stopping}
use mobile_webcam_bridge.Session.Types.{Session, Stats, Event}
use mobile_webcam_bridge.Session.Handle.{
  on_pairing_info, on_authorization_pending, on_stats, on_capabilities, on_progress, on_applied,
  on_failed, handle, receive, drain, is_stopped,
}
use mobile_webcam_bridge.Session.Poll.Invariant.{arm-Alive, advertise-Begun, Alive}

module _ (f64 : F64) (parse : Str → Option Ipv4Addr) (now : ℕ) where
  on_pairing_info-Alive :
      (addresses : List Str) (fingerprint key : Str) (s : Session)
      → Alive s
      → Alive (on_pairing_info parse addresses fingerprint key s)
  unfolding on_pairing_info
  on_pairing_info-Alive addresses fingerprint key s i = record {
    watched = record {
      armed = ground (arith, i.watched.armed);
      staged = λ e. ground (arith, i.watched.staged);
    };
    child = ground (arith, i.child);
    single = ground (arith, i.single);
  }

  on_stats-Alive : (m : Stats) (s : Session) → Alive s → Alive (on_stats now m s)
  unfolding on_stats
  on_stats-Alive m s i = record {
    watched = record {
      armed = ground (arith, i.watched.armed);
      staged = λ e. ground (arith, i.watched.staged);
    };
    child = i.child;
    single = i.single;
  }

  on_progress-Alive : (staged : Bool) (s : Session) → Alive s → Alive (on_progress now staged s)
  unfolding on_progress progress
  on_progress-Alive staged s i = record {
    watched = record {
      armed = ground (arith, i.watched.armed, i.watched.staged);
      staged = λ e. ground (arith, i.watched.staged);
    };
    child = i.child;
    single = i.single;
  }

  on_applied-Alive : (w h fps : ℕ) (s : Session) → Alive s → Alive (on_applied w h fps s).0
  unfolding on_applied confirmed Client.failed
  on_applied-Alive w h fps s i = record {
    watched = record { armed = ground arith; staged = λ e. ground arith };
    child = ground (arith, i.child);
    single = ground (arith, i.single);
  }

  handle-Alive : (event : Event) (s : Session) → Alive s → Alive (handle f64 parse now event s).0.0
  unfolding handle on_authorization_pending on_failed on_capabilities Client.failed
  handle-Alive (Event.pairing_info a f k) s i = on_pairing_info-Alive a f k s i
  handle-Alive Event.connecting s i = record {
    watched = record { armed = i.watched.armed; staged = i.watched.staged };
    child = i.child;
    single = i.single;
  }
  handle-Alive Event.waiting s i = record {
    watched = record { armed = i.watched.armed; staged = i.watched.staged };
    child = i.child;
    single = i.single;
  }
  handle-Alive (Event.authorization_pending c) s i = record {
    watched = record {
      armed = ground (arith, i.watched.armed);
      staged = λ e. ground (arith, i.watched.staged);
    };
    child = ground (arith, i.child);
    single = ground (arith, i.single);
  }
  handle-Alive (Event.stats m) s i = on_stats-Alive m s i
  handle-Alive (Event.problem m) s i = record {
    watched = record { armed = i.watched.armed; staged = i.watched.staged };
    child = i.child;
    single = i.single;
  }
  handle-Alive (Event.usb_permission d) s i = record {
    watched = record { armed = i.watched.armed; staged = i.watched.staged };
    child = i.child;
    single = i.single;
  }
  handle-Alive (Event.quality_capabilities p r e modes) s i =
      arm-Alive f64 now s (advertise f64 p modes s.quality) (advertise-Begun f64 p modes s.quality)
        i
  handle-Alive (Event.quality_progress staged) s i = on_progress-Alive staged s i
  handle-Alive (Event.quality_applied w h fps) s i = on_applied-Alive w h fps s i
  handle-Alive (Event.quality_failed reason terminal) s i = record {
    watched = record { armed = ground arith; staged = λ e. ground arith };
    child = ground (arith, i.child);
    single = ground (arith, i.single);
  }
  handle-Alive Event.stopped s i = i

  receive-Alive :
      (event : Event) (s : Session × Bool) → Alive s.0 → Alive (receive f64 parse now event s).0.0
  unfolding receive
  receive-Alive event (s, finished) i = elim (Bool-cases (is_stopping s.state || finished)) [
    | inl e ↦ rw e i
    | inr e ↦ rw e (handle-Alive event s i)
  ]

  pub drain-Alive :
      (events : List Event) (s : Session × Bool)
      → Alive s.0
      → Alive (drain f64 parse now events s).0.0
  unfolding drain
  drain-Alive [] s i = i
  drain-Alive (e ∷ events) s i =
      drain-Alive events (receive f64 parse now e s).0 (receive-Alive e s i)

  -- While the session stops, what the worker reports is read and dropped; only its last word counts.
  pub drain_stopping :
      (events : List Event) (s : Session) (finished : Bool)
      → is_stopping s.state ≡ true
      → ((drain f64 parse now events (s, finished)).0.0 ≡ s)
        × ((drain f64 parse now events (s, finished)).1 ≡ [])
  unfolding drain receive
  drain_stopping [] s finished e = (refl, refl)
  drain_stopping (x ∷ events) s finished e =
      let (a, b) = drain_stopping events s (finished || is_stopped x) e in (rw e a, rw e b)
