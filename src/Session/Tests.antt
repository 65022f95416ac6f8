-- ===== src/Session/Tests.antt =====
-- The theorems on a session at concrete inputs, and runs.
use mobile_webcam_bridge.Prelude.{
  ℕ, ◌+◌, ◌-◌, ◌*◌, ◌/◌, ◌≡◌, ◌<◌, ◌⊎◌, refl, true, false, List, [], ◌∷◌, Option, some, none, arith,
  codes,
}
use mobile_webcam_bridge.Prelude.Outcome.{ok, err, error, boxed}
use mobile_webcam_bridge.Settings
use mobile_webcam_bridge.Settings.{Settings}
use mobile_webcam_bridge.Settings.Text.{Str}
use mobile_webcam_bridge.Wire.PairingInfo.{Ipv4Addr}
use mobile_webcam_bridge.Quality.Preference.{F64, Mode, auto}
use mobile_webcam_bridge.Quality.Client
use mobile_webcam_bridge.Quality.Client.{Client, is_none}
use mobile_webcam_bridge.Session.{new, stop, nothing, take}
use mobile_webcam_bridge.Session.Writer
use mobile_webcam_bridge.Session.Writer.{run-newest}
use mobile_webcam_bridge.Session.Types.{
  prepare_quality, transform, Session, Event, streaming, alive, Effect,
}
use mobile_webcam_bridge.Session.Connect.{Host, no_parent}
use mobile_webcam_bridge.Session.Poll.{
  Moment, HelperMoment, poll_worker, check_stale, check_quality_deadline, check_deadline,
  check_child, finish,
}
use mobile_webcam_bridge.Session.Handle.{drain}
use mobile_webcam_bridge.Session.Poll.Invariant.{Inv, at_rest}
use mobile_webcam_bridge.Session.Runs.{Call, connects, polls, stops, run, run-Inv}
use mobile_webcam_bridge.Session.Ends
use mobile_webcam_bridge.Session.Ends.{stop_ends}
use mobile_webcam_bridge.Session.Ends.Watchdog.{poll-overdue, kills}
use Prim.Native.Nat.{compare}

-- Ratios in thousandths.
abbrev thousandths : F64
thousandths = record {
  Float = ℕ;
  from = λ n. n * 1000;
  div = λ a b. a * 1000 / b;
  sub = λ a b. a - b + (b - a);
  abs = λ a. a;
  total_cmp = compare;
  place = λ a. a;
  total_cmp_place = λ a b. refl;
}

abbrev no_address : Str → Option Ipv4Addr
no_address s = none

abbrev host : Host
host = record {
  available = λ backend. true;
  writable = true;
  setup_available = false;
  helper_installed = false;
  lookup = no_parent;
  named = λ path. true;
  plain = λ path. true;
  from_json = λ text. err (error boxed "no JSON");
  denied = λ id. ok false;
  script = ok [];
  parent = 7;
  helper_runs = ok tt;
  worker_runs = ok tt;
}

abbrev wireless : Settings
wireless = record (Settings.default false) { transport = codes "lan" }

abbrev full_hd : Mode
full_hd = record { width = 1920; height = 1080; fps = 30; bitrate = 6000000 }

abbrev moment : ℕ → List Event → Moment
moment now events = record { now = now; later = now; arrived = events; exit = alive }

abbrev no_helper : HelperMoment
no_helper = record { exit = alive; switched_identity = λ id. ok id; spawned = ok tt }

abbrev calls : List Call
calls =
    connects host wireless none
    ∷ polls (moment 10 (Event.quality_capabilities 2 1 1 (full_hd ∷ []) ∷ [])) no_helper
    ∷ polls (moment 90 (Event.quality_progress true ∷ [])) no_helper
    ∷ stops 100
    ∷ []

run-Inv_example : Inv (run thousandths no_address calls new)
run-Inv_example = run-Inv thousandths no_address calls

-- A worker that streams while a quality is applied.
abbrev live : Session
live = record new {
  child = true;
  events = true;
  writer = true;
  state = streaming;
  quality_deadline = some 5000;
  quality = record (Client.new auto) { pending = some full_hd };
}

live-Inv : Inv live
unfolding Client.new
live-Inv = record {
  watched = record { armed = refl; staged = λ e. ground arith };
  quiet = record {
    alone = λ e. ground arith;
    unheard = λ e. ground arith;
    unwritten = λ e. ground arith;
    untimed = λ e. ground arith;
    unready = λ e. ground arith;
    calm = λ e. ground arith;
    rests = λ e a. ground arith;
  };
}

abbrev polled : Session × List Effect
polled = poll_worker thousandths no_address (moment 4999 []) live

poll-overdue_example :
    (is_none polled.0.quality.pending ≡ true)
    ⊎ (polled.0.quality.staged ≡ true)
    ⊎ ((d : ℕ) × (polled.0.quality_deadline ≡ some d) × (4999 < d))
poll-overdue_example = poll-overdue thousandths no_address (moment 4999 []) live live-Inv refl

-- The last poll after a stop at 100 ms, with a poll between.
abbrev last : Session × List Effect
last =
    poll_worker thousandths no_address (moment 1100 [])
      (Ends.polls thousandths no_address (moment 500 (Event.waiting ∷ []) ∷ []) (stop 100 live).0)

stop_ends_example : ((last.0.child ≡ false) × (at_rest last.0.state ≡ true)) ⊎ (kills last.1 ≡ true)
stop_ends_example =
    stop_ends thousandths no_address 100 live (moment 500 (Event.waiting ∷ []) ∷ [])
      (moment 1100 []) live-Inv refl (omega arith) (omega arith, tt)

last_kills : kills last.1 ≡ true
unfolding poll_worker drain check_stale check_quality_deadline check_deadline check_child finish
    stop Ends.polls mobile_webcam_bridge.Session.Handle.receive
    mobile_webcam_bridge.Session.Handle.handle
last_kills = refl

-- A quality and two transforms are queued; the writer comes once between and once after.
abbrev writer_turns : List Writer.Turn
writer_turns =
    Writer.turns 90 false false
    ∷ Writer.asks 1920 1080 30
    ∷ Writer.writes
    ∷ Writer.turns 180 false false
    ∷ Writer.writes
    ∷ []

run-newest_example :
    (Writer.newer
        (Writer.last_of Writer.as_quality (Writer.run writer_turns nothing).1)
        (Writer.run writer_turns nothing).0.quality
      ≡ Writer.last_of Writer.as_quality (Writer.queued writer_turns))
    × (Writer.newer
          (Writer.last_of Writer.as_transform (Writer.run writer_turns nothing).1)
          (Writer.run writer_turns nothing).0.transform
        ≡ Writer.last_of Writer.as_transform (Writer.queued writer_turns))
run-newest_example = run-newest writer_turns

writer_order :
    (Writer.run writer_turns nothing).1
    ≡ prepare_quality 1920 1080 30 ∷ transform 180 false false ∷ []
unfolding Writer.run Writer.after take
writer_order = refl
