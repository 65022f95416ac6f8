-- ===== src/Session/Poll/Invariant.antt =====
-- What every call on a session of host-rs/src/session.rs keeps.
use mobile_webcam_bridge.Prelude.{
  ℕ, ◌≡◌, refl, Bool, true, false, ◌||◌, List, Option, none, some, arith,
}
use mobile_webcam_bridge.Prelude.Outcome.{Result}
use mobile_webcam_bridge.Settings.{Settings}
use mobile_webcam_bridge.Quality.Preference.{Mode, Wish, F64}
use mobile_webcam_bridge.Quality.Client
use mobile_webcam_bridge.Quality.Client.{
  Client, is_none, begin, advertise, first_apply, store, ready, progress, confirmed, disconnected,
}
use mobile_webcam_bridge.Session.{start, prepare, arm, queue_quality, change_transform, stop, new}
use mobile_webcam_bridge.Session.Types.{Session, State, idle, failed, Exit}
use mobile_webcam_bridge.Session.Poll.{check_stale, check_quality_deadline, check_child, finish}

abbrev pub at_rest : State → Bool
at_rest idle = true
at_rest (failed message) = true
at_rest _ = false

-- The watchdog runs exactly for a pending mode that does not wait for the user.
pub record Watched (s : Session) : Type 0 where
  pub armed : is_none s.quality_deadline ≡ (is_none s.quality.pending || s.quality.staged)
  pub staged : s.quality.staged ≡ true → is_none s.quality.pending ≡ false

-- Without a worker nothing of one is left.
pub record Quiet (s : Session) : Type 0 where
  pub alone : is_none s.auxiliary ≡ false → s.child ≡ false
  pub unheard : s.child ≡ false → s.events ≡ false
  pub unwritten : s.child ≡ false → s.writer ≡ false
  pub untimed : s.child ≡ false → is_none s.deadline ≡ true
  pub unready : s.child ≡ false → is_none s.quality.modes ≡ true
  pub calm : s.child ≡ false → is_none s.quality.pending ≡ true
  pub rests : s.child ≡ false → is_none s.auxiliary ≡ true → at_rest s.state ≡ true

pub record Inv (s : Session) : Type 0 where
  pub watched : Watched s
  pub quiet : Quiet s

-- A session whose worker runs.
pub record Alive (s : Session) : Type 0 where
  pub watched : Watched s
  pub child : s.child ≡ true
  pub single : is_none s.auxiliary ≡ true

pub Alive-Inv : (s : Session) → Alive s → Inv s
Alive-Inv s i = record {
  watched = i.watched;
  quiet = record {
    alone = λ e. ground (arith, i.single);
    unheard = λ e. ground (arith, i.child);
    unwritten = λ e. ground (arith, i.child);
    untimed = λ e. ground (arith, i.child);
    unready = λ e. ground (arith, i.child);
    calm = λ e. ground (arith, i.child);
    rests = λ e a. ground (arith, i.child);
  };
}

pub new-Inv : Inv new
unfolding Client.new
new-Inv = record {
  watched = record { armed = refl; staged = λ e. ground arith };
  quiet = record {
    alone = λ e. refl;
    unheard = λ e. refl;
    unwritten = λ e. refl;
    untimed = λ e. refl;
    unready = λ e. refl;
    calm = λ e. refl;
    rests = λ e a. refl;
  };
}

pub stop-Inv : (now : ℕ) (s : Session) → Inv s → Inv (stop now s).0
unfolding stop
stop-Inv now s i = record {
  watched = record { armed = ground arith; staged = λ e. ground arith };
  quiet = record {
    alone = λ e. ground (arith, i.quiet.alone);
    unheard = λ e. ground (arith, i.quiet.unheard, i.quiet.alone);
    unwritten = λ e. ground (arith, i.quiet.unwritten);
    untimed = λ e. ground (arith, i.quiet.untimed, i.quiet.alone);
    unready = λ e. ground (arith, i.quiet.unready);
    calm = λ e. ground (arith, i.quiet.calm);
    rests = λ e a. ground (arith, i.quiet.rests);
  };
}

pub start-Inv :
    (settings : Settings) (spawned : Result (Unit {0})) (s : Session)
    → Inv s
    → Inv (start settings spawned s).0
unfolding start Client.new
start-Inv settings spawned s i = record {
  watched = record {
    armed = ground (arith, i.watched.armed);
    staged = λ e. ground (arith, i.watched.staged);
  };
  quiet = record {
    alone = λ e. ground (arith, i.quiet.alone);
    unheard = λ e. ground (arith, i.quiet.unheard);
    unwritten = λ e. ground (arith, i.quiet.unwritten);
    untimed = λ e. ground (arith, i.quiet.untimed);
    unready = λ e. ground (arith, i.quiet.unready);
    calm = λ e. ground (arith, i.quiet.calm);
    rests = λ e a. ground (arith, i.quiet.rests);
  };
}

pub change_transform-Inv :
    (settings : Settings) (s : Session) → Inv s → Inv (change_transform settings s).0
unfolding change_transform
change_transform-Inv settings s i = record {
  watched = record {
    armed = ground (arith, i.watched.armed);
    staged = λ e. ground (arith, i.watched.staged);
  };
  quiet = record {
    alone = λ e. ground (arith, i.quiet.alone);
    unheard = λ e. ground (arith, i.quiet.unheard);
    unwritten = λ e. ground (arith, i.quiet.unwritten);
    untimed = λ e. ground (arith, i.quiet.untimed);
    unready = λ e. ground (arith, i.quiet.unready);
    calm = λ e. ground (arith, i.quiet.calm);
    rests = λ e a. ground (arith, i.quiet.rests);
  };
}

-- What `begin` and `advertise` do to what is pending.
pub record Begun (before : Client) (after : Client × Option Mode) : Type 0 where
  gained : is_none after.1 ≡ false → (is_none after.0.pending ≡ false) × (after.0.staged ≡ false)
  kept :
      is_none after.1 ≡ true → (after.0.pending ≡ before.pending) × (after.0.staged ≡ before.staged)

module _ (f64 : F64) where
  begin-Begun : (wish : Wish) (c : Client) → Begun c (begin f64 wish c)
  unfolding begin
  begin-Begun wish c = record { gained = λ e. ground arith; kept = λ e. ground arith }

  begin-unready :
      (wish : Wish) (c : Client)
      → is_none c.modes ≡ true
      → (is_none (begin f64 wish c).1 ≡ true) × (is_none (begin f64 wish c).0.modes ≡ true)
  unfolding begin ready
  begin-unready wish c e = (ground arith, ground arith)

  pub advertise-Begun :
      (permission : ℕ) (modes : List Mode) (c : Client) → Begun c (advertise f64 permission modes c)
  unfolding advertise first_apply store begin
  advertise-Begun permission modes c = record {
    gained = λ e. ground arith;
    kept = λ e. ground arith;
  }

  -- A client that changed so, and the watchdog that is set where a mode was gained.
  arm-Watched :
      (now : ℕ) (s : Session) (after : Client × Option Mode)
      → Begun s.quality after
      → Watched s
      → Watched (arm now (record s { quality = after.0 }, after.1)).0
  unfolding queue_quality
  arm-Watched now s (c, none) b i = record {
    armed = ground (arith, i.armed, b.kept refl);
    staged = λ e. ground (arith, i.staged, b.kept refl);
  }
  arm-Watched now s (c, some mode) b i = record {
    armed = ground (arith, b.gained refl);
    staged = λ e. ground (arith, b.gained refl);
  }

  pub arm-Alive :
      (now : ℕ) (s : Session) (after : Client × Option Mode)
      → Begun s.quality after
      → Alive s
      → Alive (arm now (record s { quality = after.0 }, after.1)).0
  unfolding queue_quality
  arm-Alive now s (c, none) b i = record {
    watched = arm-Watched now s (c, none) b i.watched;
    child = i.child;
    single = i.single;
  }
  arm-Alive now s (c, some mode) b i = record {
    watched = arm-Watched now s (c, some mode) b i.watched;
    child = i.child;
    single = i.single;
  }

  pub prepare-Inv : (now : ℕ) (wish : Wish) (s : Session) → Inv s → Inv (prepare f64 now wish s).0.0
  unfolding prepare queue_quality
  prepare-Inv now wish s i =
      let watched : Watched
          (arm now
            (record s { quality = (begin f64 wish s.quality).0 }, (begin f64 wish s.quality).1)).0 =
        arm-Watched now s (begin f64 wish s.quality) (begin-Begun wish s.quality) i.watched in
      let unready = begin-unready wish s.quality in
      let kept = (begin-Begun wish s.quality).kept in
      record {
        watched = record {
          armed = ground (arith, i.watched.armed, watched.armed);
          staged = λ e. ground (arith, i.watched.staged, watched.staged);
        };
        quiet = record {
          alone = λ e. ground (arith, i.quiet.alone);
          unheard = λ e. ground (arith, i.quiet.unheard);
          unwritten = λ e. ground (arith, i.quiet.unwritten);
          untimed = λ e. ground (arith, i.quiet.untimed);
          unready = λ e. ground (arith, i.quiet.unready, unready);
          calm = λ e. ground (arith, i.quiet.calm, unready, i.quiet.unready, kept);
          rests = λ e a. ground (arith, i.quiet.rests);
        };
      }

pub check_stale-Inv : (now : ℕ) (s : Session) → Inv s → Inv (check_stale now s)
unfolding check_stale
check_stale-Inv now s i = record {
  watched = record {
    armed = ground (arith, i.watched.armed);
    staged = λ e. ground (arith, i.watched.staged);
  };
  quiet = record {
    alone = λ e. ground (arith, i.quiet.alone);
    unheard = λ e. ground (arith, i.quiet.unheard);
    unwritten = λ e. ground (arith, i.quiet.unwritten);
    untimed = λ e. ground (arith, i.quiet.untimed);
    unready = λ e. ground (arith, i.quiet.unready);
    calm = λ e. ground (arith, i.quiet.calm);
    rests = λ e a. ground (arith, i.quiet.rests);
  };
}

pub check_quality_deadline-Inv :
    (now : ℕ) (s : Session × Bool) → Inv s.0 → Inv (check_quality_deadline now s).0
unfolding check_quality_deadline Client.failed
check_quality_deadline-Inv now (s, finished) i = record {
  watched = record {
    armed = ground (arith, i.watched.armed);
    staged = λ e. ground (arith, i.watched.staged);
  };
  quiet = record {
    alone = λ e. ground (arith, i.quiet.alone);
    unheard = λ e. ground (arith, i.quiet.unheard);
    unwritten = λ e. ground (arith, i.quiet.unwritten);
    untimed = λ e. ground (arith, i.quiet.untimed);
    unready = λ e. ground (arith, i.quiet.unready);
    calm = λ e. ground (arith, i.quiet.calm);
    rests = λ e a. ground (arith, i.quiet.rests);
  };
}

pub check_child-Inv : (exit : Exit) (s : Session × Bool) → Inv s.0 → Inv (check_child exit s).0.0
unfolding check_child
check_child-Inv exit (s, finished) i = record {
  watched = record {
    armed = ground (arith, i.watched.armed);
    staged = λ e. ground (arith, i.watched.staged);
  };
  quiet = record {
    alone = λ e. ground (arith, i.quiet.alone);
    unheard = λ e. ground (arith, i.quiet.unheard);
    unwritten = λ e. ground (arith, i.quiet.unwritten);
    untimed = λ e. ground (arith, i.quiet.untimed);
    unready = λ e. ground (arith, i.quiet.unready);
    calm = λ e. ground (arith, i.quiet.calm);
    rests = λ e a. ground (arith, i.quiet.rests);
  };
}

-- A child that is not reaped is there.
pub check_child-there :
    (exit : Exit) (s : Session × Bool)
    → (check_child exit s).1 ≡ false
    → (check_child exit s).0.0.child ≡ true
unfolding check_child
check_child-there exit (s, finished) e = ground arith

pub finish-Inv :
    (now : ℕ) (s : Session) (reaped : Bool)
    → (reaped ≡ false → s.child ≡ true)
    → Inv s
    → Inv (finish now s reaped).0
unfolding finish disconnected
finish-Inv now s reaped there i = record {
  watched = record { armed = ground arith; staged = λ e. ground arith };
  quiet = record {
    alone = λ e. ground (arith, i.quiet.alone);
    unheard = λ e. ground arith;
    unwritten = λ e. ground arith;
    untimed = λ e. ground (arith, there);
    unready = λ e. ground arith;
    calm = λ e. ground arith;
    rests = λ e a. ground (arith, there);
  };
}
