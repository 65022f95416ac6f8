-- ===== src/Session/Runs.antt =====
-- Runs of calls on a session of host-rs/src/session.rs, its watchdog and its end.
use mobile_webcam_bridge.Prelude.{
  ℕ, ◌≡◌, subst, sym, ap, refl, Bool, true, false, ◌||◌, List, [], ◌∷◌, Option, none, some, arith,
  if_both, if◌then◌else◌,
}
use mobile_webcam_bridge.Prelude.Outcome.{Result, ok, err, panic}
use mobile_webcam_bridge.Settings.{Settings}
use mobile_webcam_bridge.Settings.Text.{Str}
use mobile_webcam_bridge.Usb.{DeviceId}
use mobile_webcam_bridge.Wire.PairingInfo.{Ipv4Addr}
use mobile_webcam_bridge.Quality.Preference.{Wish, F64}
use mobile_webcam_bridge.Quality.Client.{is_none}
use mobile_webcam_bridge.Session.{
  start, prepare, change_transform, stop, new, is_stopping, take_pairing_info,
}
use mobile_webcam_bridge.Session.Types.{
  Session, State, idle, failed, Exit, alive, exited, unknown, Auxiliary, Effect,
}
use mobile_webcam_bridge.Session.Connect.{Host, connect, allow_usb, connect-Inv, allow_usb-Inv}
use mobile_webcam_bridge.Session.Poll.{
  check_stale, check_quality_deadline, check_deadline, check_child, poll_worker, poll_helper, poll,
  Moment, HelperMoment, or_failed, restart_worker, restart_device, resume, helper_ended, poll_with,
  message,
}
use mobile_webcam_bridge.Session.Handle.{drain}
use mobile_webcam_bridge.Session.Poll.Invariant.{
  Inv, Alive, Alive-Inv, new-Inv, start-Inv, stop-Inv, prepare-Inv, change_transform-Inv,
  check_stale-Inv, check_quality_deadline-Inv, check_child-Inv, check_child-there, finish-Inv,
  at_rest,
}
use mobile_webcam_bridge.Session.Poll.Events.{drain-Alive}

-- The calls of the window on its session.
pub data Call : Type 0 where
  connects : Host → Settings → Option DeviceId → Call
  allows : Host → Settings → Call
  prepares : ℕ → Wish → Call
  transforms : Settings → Call
  stops : ℕ → Call
  takes : Call
  polls : Moment → HelperMoment → Call

module _ (f64 : F64) (parse : Str → Option Ipv4Addr) where
  drained-Inv :
      (now : ℕ) (m : Moment) (s : Session)
      → Inv s
      → is_none s.auxiliary ≡ true
      → Inv (drain f64 parse now (if s.events then m.arrived else []) (s, false)).0.0
  unfolding drain
  drained-Inv now m s i a =
      if_both (λ l. Inv (drain f64 parse now l (s, false)).0.0) s.events m.arrived []
        (λ e.
          let alive : Alive s = record {
            watched = i.watched;
            child = ground (arith, e, i.quiet.unheard);
            single = a;
          } in
          Alive-Inv _ (drain-Alive f64 parse now m.arrived (s, false) alive))
        (λ e. i)

  check_deadline_same : (now : ℕ) (s : Session × Bool) → (check_deadline now s).0.0 ≡ s.0
  unfolding check_deadline
  check_deadline_same now (s, finished) = ground arith

  pub poll_worker-Inv :
      (m : Moment) (s : Session)
      → is_none s.auxiliary ≡ true
      → Inv s
      → Inv (poll_worker f64 parse m s).0
  unfolding poll_worker
  poll_worker-Inv m s a i =
      let d = drain f64 parse m.now (if s.events then m.arrived else []) (s, false) in
      let q = check_quality_deadline m.later (check_stale m.later d.0.0, d.0.1) in
      let i1 : Inv q.0 =
        check_quality_deadline-Inv m.later (check_stale m.later d.0.0, d.0.1)
          (check_stale-Inv m.later d.0.0 (drained-Inv m.now m s i a)) in
      let t = check_deadline m.later q in
      let i2 : Inv t.0.0 = subst Inv (sym (check_deadline_same m.later q)) i1 in
      let c = check_child m.exit t.0 in
      let i3 : Inv c.0.0 = check_child-Inv m.exit t.0 i2 in
      if_both (λ (r : Session × List Effect). Inv r.0) c.0.1 _ _
        (λ e. finish-Inv m.later c.0.0 c.1 (check_child-there m.exit t.0) i3) (λ e. i3)

  -- A helper's end, or none.
  settled-Inv :
      (s : Session) (state : State)
      → is_none s.auxiliary ≡ false
      → at_rest state ≡ true
      → Inv s
      → Inv (record s { auxiliary = none; state = state })
  settled-Inv s state a r i = record {
    watched = record { armed = i.watched.armed; staged = i.watched.staged };
    quiet = record {
      alone = λ e. ground (arith, i.quiet.alone);
      unheard = i.quiet.unheard;
      unwritten = i.quiet.unwritten;
      untimed = i.quiet.untimed;
      unready = i.quiet.unready;
      calm = i.quiet.calm;
      rests = λ e b. r;
    };
  }

  or_failed-Inv :
      (r : Session × Result (Unit {0})) → is_none r.0.auxiliary ≡ true → Inv r.0 → Inv (or_failed r)
  or_failed-Inv (s, ok done) a i = i
  or_failed-Inv (s, panic) a i = i
  or_failed-Inv (s, err e) a i = record {
    watched = record { armed = i.watched.armed; staged = i.watched.staged };
    quiet = record {
      alone = i.quiet.alone;
      unheard = i.quiet.unheard;
      unwritten = i.quiet.unwritten;
      untimed = i.quiet.untimed;
      unready = i.quiet.unready;
      calm = i.quiet.calm;
      rests = λ e b. refl;
    };
  }

  start-single :
      (settings : Settings) (spawned : Result (Unit {0})) (s : Session)
      → (start settings spawned s).0.auxiliary ≡ s.auxiliary
  unfolding start
  start-single settings spawned s = ground arith

  restart_worker-Inv :
      (h : HelperMoment) (s : Session) (settings : Settings) (device : Result (Option DeviceId))
      → is_none s.auxiliary ≡ false
      → Inv s
      → Inv (restart_worker h s settings device)
  restart_worker-Inv h s settings panic a i = i
  restart_worker-Inv h s settings (err e) a i = settled-Inv s (failed (message e)) a refl i
  restart_worker-Inv h s settings (ok device) a i =
      let free : Session = record s { auxiliary = none; state = idle } in
      or_failed-Inv (start settings h.spawned free)
        (ap is_none (start-single settings h.spawned free))
        (start-Inv settings h.spawned free (settled-Inv s idle a refl i))

  resume-Inv :
      (h : HelperMoment) (s : Session) (restart : Option (Settings × Option DeviceId × Bool))
      → is_none s.auxiliary ≡ false
      → Inv s
      → Inv (resume h s restart)
  resume-Inv h s none a i = settled-Inv s idle a refl i
  resume-Inv h s (some (settings, device, switched)) a i =
      restart_worker-Inv h s settings (restart_device h.switched_identity device switched) a i

  helper_ended-Inv :
      (h : HelperMoment) (aux : Auxiliary) (s : Session) (exit : Exit)
      → is_none s.auxiliary ≡ false
      → Inv s
      → Inv (helper_ended h aux s exit)
  unfolding helper_ended
  helper_ended-Inv h aux s alive a i = i
  helper_ended-Inv h aux s (unknown said) a i = settled-Inv s (failed said) a refl i
  helper_ended-Inv h aux s (exited success said) a i =
      if_both Inv (success || is_stopping s.state) _ _ (λ e. resume-Inv h s aux.restart a i)
        (λ e. settled-Inv s (failed said) a refl i)

  poll_with-Inv :
      (m : Moment) (h : HelperMoment) (aux : Option Auxiliary) (s : Session)
      → s.auxiliary ≡ aux
      → Inv s
      → Inv (poll_with f64 parse m h aux s).0
  unfolding poll_helper
  poll_with-Inv m h none s e i = poll_worker-Inv m s (ap is_none e) i
  poll_with-Inv m h (some aux) s e i = helper_ended-Inv h aux s h.exit (ap is_none e) i

  poll-Inv : (m : Moment) (h : HelperMoment) (s : Session) → Inv s → Inv (poll f64 parse m h s).0
  unfolding poll
  poll-Inv m h s i = poll_with-Inv m h s.auxiliary s refl i

  -- The session after a call.
  unfoldable pub after : Call → Session → Session
  after (connects host settings device) s = (connect host settings device s).0
  after (allows host settings) s = (allow_usb host settings s).0
  after (prepares now wish) s = (prepare f64 now wish s).0.0
  after (transforms settings) s = (change_transform settings s).0
  after (stops now) s = (stop now s).0
  after takes s = (take_pairing_info s).0
  after (polls m h) s = (poll f64 parse m h s).0

  after-Inv : (c : Call) (s : Session) → Inv s → Inv (after c s)
  unfolding after take_pairing_info
  after-Inv (connects host settings device) s i = connect-Inv host settings device s i
  after-Inv (allows host settings) s i = allow_usb-Inv host settings s i
  after-Inv (prepares now wish) s i = prepare-Inv f64 now wish s i
  after-Inv (transforms settings) s i = change_transform-Inv settings s i
  after-Inv (stops now) s i = stop-Inv now s i
  after-Inv takes s i = record {
    watched = record { armed = i.watched.armed; staged = i.watched.staged };
    quiet = record {
      alone = i.quiet.alone;
      unheard = i.quiet.unheard;
      unwritten = i.quiet.unwritten;
      untimed = i.quiet.untimed;
      unready = i.quiet.unready;
      calm = i.quiet.calm;
      rests = i.quiet.rests;
    };
  }
  after-Inv (polls m h) s i = poll-Inv m h s i

  unfoldable pub run : List Call → Session → Session
  run [] s = s
  run (c ∷ calls) s = run calls (after c s)

  run-Inv_from : (calls : List Call) (s : Session) → Inv s → Inv (run calls s)
  unfolding run
  run-Inv_from [] s i = i
  run-Inv_from (c ∷ calls) s i = run-Inv_from calls (after c s) (after-Inv c s i)

  -- Whatever calls a new session sees, and whatever the worker, the helper and the clock do, the apply
  -- watchdog runs exactly while a quality is pending that does not wait for the user; and a session
  -- without a worker has no channel, writer, deadline, advertised modes or pending quality, and is idle
  -- or failed unless a helper runs. A helper and a worker never run together.
  pub run-Inv : (calls : List Call) → Inv (run calls new)
  run-Inv calls = run-Inv_from calls new new-Inv
