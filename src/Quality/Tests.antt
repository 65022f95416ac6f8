-- ===== src/Quality/Tests.antt =====
-- The theorems on the quality switch at concrete inputs, and runs of it.
use mobile_webcam_bridge.Prelude.{
  ℕ, ◌+◌, ◌*◌, ◌-◌, ◌/◌, ◌≡◌, ◌↔◌, refl, true, false, none, some, List, [], ◌∷◌, arith, In,
}
use mobile_webcam_bridge.Quality.Types.{
  Size, Event, Switch, preparing, switching, awaiting_output, failed, send_commit_quality,
  close_connection, release_outputs,
}
use mobile_webcam_bridge.Quality.Switch.{initial, step, run, busy}
use Prim.Native.String.{String}
use mobile_webcam_bridge.Quality.Switch.Invariant.{Inv, reached-Inv, initial-Inv}
use mobile_webcam_bridge.Quality.Switch.Steps.{stale_ignored, Commits, commit_iff}
use mobile_webcam_bridge.Quality.Switch.Traces.{
  prepared, committed, Rising, prepared-Rising, open_from, committed-Rising, busy_ends,
}
use mobile_webcam_bridge.Quality.Preference.{
  Mode, Wish, wish_of, auto, F64, resolve, valid, matches, usable,
}
use mobile_webcam_bridge.Quality.Preference.Best.{NotAbove, resolve_best}
use mobile_webcam_bridge.Quality.Edition.{oss_cap_1080p30, clamp_wish}
use mobile_webcam_bridge.Quality.Edition.Caps.{Within, clamp_wish_lem}
use mobile_webcam_bridge.Quality.Client
use mobile_webcam_bridge.Quality.Client.{Client, new, begin, advertise, confirmed, awaits}
use mobile_webcam_bridge.Quality.Client.Applies.{
  Begins, asked, begin_iff, advertises, confirms, after, pending_usable, advertise_once,
}
use Prim.Native.Nat.{compare}

abbrev hd : Size
hd = (1280, 720, 30)

-- A request, the phone's pause, and the new configuration.
abbrev script : List (ℕ × Event)
script =
    (0, Event.epoch_observed 41)
    ∷ (0, Event.prepare 7 hd)
    ∷ (10, Event.paused 1 41)
    ∷ (12, Event.video_config hd)
    ∷ []

abbrev waiting : Switch
waiting = record {
  phase = awaiting_output;
  request_id = 1;
  epoch = some 42;
  requested = some hd;
  applied = none;
  deadline_ms = some 5000;
  next_request_id = 2;
}

script_waits : (run script initial).0 ≡ waiting
unfolding run step
script_waits = refl

reached-Inv_example : Inv (run script initial).0
reached-Inv_example = reached-Inv script

stale_ignored_example : step 13 (Event.rejected 99 3) waiting ≡ (waiting, [])
stale_ignored_example = stale_ignored 13 99 (Event.rejected 99 3) waiting refl (λ e. omega arith)

abbrev asking : Switch
asking = record waiting { phase = preparing; epoch = some 41 }

commit_iff_example :
    (In (send_commit_quality 1 42) (step 10 (Event.paused 1 41) asking).1
      ↔ Commits asking (Event.paused 1 41) 1 42)
    × (In (send_commit_quality 1 42) (step 10 (Event.paused 1 41) asking).1 ↔ (
        step 10 (Event.paused 1 41) asking ≡ (
          record asking { phase = switching; epoch = some 42 },
          release_outputs ∷ send_commit_quality 1 42 ∷ [],
        )))
commit_iff_example = commit_iff 10 1 42 (Event.paused 1 41) asking

prepared-Rising_example : Rising 1 (prepared (run script initial).1)
prepared-Rising_example = prepared-Rising script initial

committed-Rising_example : Rising (open_from initial) (committed (run script initial).1)
committed-Rising_example = committed-Rising script initial initial-Inv

script-busy : busy (run script initial).0.phase ≡ true
unfolding run step
script-busy = refl

busy_ends_example :
    ((step 5012 Event.deadline_exceeded (run script initial).0).0.phase ≡ failed)
    × In close_connection (step 5012 Event.deadline_exceeded (run script initial).0).1
busy_ends_example = busy_ends 12 5012 script (omega arith) (omega arith) script-busy

-- Ratios in thousandths.
abbrev thousandths : F64
thousandths = record {
  Float = ℕ;
  from = λ n. n * 1000;
  div = λ a b. a * 1000 / b;
  sub = λ a b. a - b + (b - a);
  abs = λ a. a;
  total_cmp = compare;
  place = λ a. a;
  total_cmp_place = λ a b. refl;
}

abbrev full_hd_mode : Mode
full_hd_mode = record { width = 1920; height = 1080; fps = 30; bitrate = 6000000 }

abbrev hd_mode : Mode
hd_mode = record { width = 1280; height = 720; fps = 30; bitrate = 6000000 }

abbrev some_modes : List Mode
some_modes = full_hd_mode ∷ hd_mode ∷ []

auto_resolves : resolve thousandths auto some_modes ≡ some hd_mode
unfolding resolve valid matches usable mobile_webcam_bridge.Quality.Preference.mode_cmp
    mobile_webcam_bridge.Quality.Preference.aspect_error
    mobile_webcam_bridge.Quality.Preference.min_from
auto_resolves = refl

resolve_best_example :
    (valid auto ≡ true)
    × In hd_mode some_modes
    × (matches auto hd_mode ≡ true)
    × ((z : Mode) → In z some_modes → matches auto z ≡ true → NotAbove thousandths hd_mode z)
resolve_best_example = resolve_best thousandths auto some_modes hd_mode auto_resolves

abbrev too_large : Wish
too_large = wish_of (3840, 2160, 60)

clamp_wish_lem_example :
    Within oss_cap_1080p30 (clamp_wish oss_cap_1080p30 too_large).0
    × (((clamp_wish oss_cap_1080p30 too_large).0 ≡ too_large) ↔ Within oss_cap_1080p30 too_large)
    × (((clamp_wish oss_cap_1080p30 too_large).1 ≡ false)
        ↔ ((clamp_wish oss_cap_1080p30 too_large).0 ≡ too_large))
    × (clamp_wish oss_cap_1080p30 (clamp_wish oss_cap_1080p30 too_large).0
        ≡ ((clamp_wish oss_cap_1080p30 too_large).0, false))
clamp_wish_lem_example = clamp_wish_lem oss_cap_1080p30 too_large

abbrev fresh : Client
fresh = new auto

begin_iff_example :
    (((begin thousandths auto fresh).1 ≡ some hd_mode) ↔ Begins thousandths auto fresh hd_mode)
    × (((begin thousandths auto fresh).1 ≡ some hd_mode)
        ↔ (begin thousandths auto fresh ≡ (asked fresh hd_mode, some hd_mode)))
begin_iff_example = begin_iff thousandths auto fresh hd_mode

first_asks : (advertise thousandths 0 some_modes fresh).1 ≡ some hd_mode
unfolding advertise new Client.store Client.ready Client.first_apply begin Client.resolve_wish
    resolve valid matches usable mobile_webcam_bridge.Quality.Preference.mode_cmp
    mobile_webcam_bridge.Quality.Preference.aspect_error
    mobile_webcam_bridge.Quality.Preference.min_from
first_asks = refl

pending_after : (after thousandths (advertises 0 some_modes ∷ []) fresh).pending ≡ some hd_mode
unfolding after advertise new Client.store Client.ready Client.first_apply begin Client.resolve_wish
    resolve valid matches usable mobile_webcam_bridge.Quality.Preference.mode_cmp
    mobile_webcam_bridge.Quality.Preference.aspect_error
    mobile_webcam_bridge.Quality.Preference.min_from
pending_after = refl

pending_usable_example : usable hd_mode ≡ true
pending_usable_example =
    pending_usable thousandths auto (advertises 0 some_modes ∷ []) hd_mode pending_after

advertise_once_example :
    (advertise thousandths 0 some_modes
      (after thousandths (confirms hd ∷ []) (advertise thousandths 0 some_modes fresh).0)).1
    ≡ none
advertise_once_example =
    advertise_once thousandths 0 0 some_modes some_modes fresh hd_mode (confirms hd ∷ []) first_asks
