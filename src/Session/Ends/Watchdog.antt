-- ===== src/Session/Ends/Watchdog.antt =====
-- The steps of `Session::poll` in host-rs/src/session.rs one by one, and the apply watchdog.
use mobile_webcam_bridge.Prelude.{
  ℕ, ◌≡◌, ◌<◌, ◌⊎◌, ◌∙◌, ap, inl, inr, refl, Bool, true, false, ◌||◌, List, [], ◌∷◌, ◌++◌, Option,
  none, some, arith, Bool-cases, Option-cases, if◌then◌else◌, if_both,
}
use mobile_webcam_bridge.Settings.Text.{Str}
use mobile_webcam_bridge.Wire.PairingInfo.{Ipv4Addr}
use mobile_webcam_bridge.Quality.Preference.{F64}
use mobile_webcam_bridge.Quality.Client.{is_none}
use mobile_webcam_bridge.Session.Types.{Session, Exit, Effect, kill_child, kill_helper, wake_writer}
use mobile_webcam_bridge.Session.Poll.{
  check_stale, check_quality_deadline, check_deadline, check_child, finish, poll_worker, Moment,
  reached,
}
use mobile_webcam_bridge.Session.Handle.{drain}
use mobile_webcam_bridge.Session.Poll.Invariant.{Inv}
use mobile_webcam_bridge.Session.Runs.{poll_worker-Inv}

abbrev pub kills : List Effect → Bool
kills [] = false
kills (kill_child ∷ rest) = true
kills (_ ∷ rest) = kills rest

kills_later : (a b : List Effect) → kills b ≡ true → kills (a ++ b) ≡ true
kills_later [] b e = e
kills_later (kill_child ∷ a) b e = refl
kills_later (kill_helper ∷ a) b e = kills_later a b e
kills_later (wake_writer ∷ a) b e = kills_later a b e

finish-clears :
    (now : ℕ) (s : Session) (reaped : Bool) → (finish now s reaped).0.quality_deadline ≡ none
unfolding finish
finish-clears now s reaped = ground arith

-- A child that is not reaped is killed.
finish-kills :
    (now : ℕ) (s : Session) (reaped : Bool)
    → (finish now s reaped).0.child ≡ true
    → kills (finish now s reaped).1 ≡ true
unfolding finish
finish-kills now s reaped e = ground arith

-- Only a worker that was there stays.
pub finish-child :
    (now : ℕ) (s : Session) (reaped : Bool) → (finish now s reaped).0.child ≡ true → s.child ≡ true
unfolding finish
finish-child now s reaped e = ground arith

check_quality_deadline_lem :
    (now : ℕ) (s : Session × Bool)
    → reached now (check_quality_deadline now s).0.quality_deadline ≡ false
unfolding check_quality_deadline
check_quality_deadline_lem now (s, finished) = ground arith

pub check_deadline_lem :
    (now : ℕ) (s : Session × Bool)
    → ((check_deadline now s).0.0 ≡ s.0)
      × ((check_deadline now s).0.1 ≡ (s.1 || reached now s.0.deadline))
unfolding check_deadline
check_deadline_lem now (s, finished) = (ground arith, ground arith)

pub check_child_lem :
    (exit : Exit) (s : Session × Bool)
    → ((check_child exit s).0.0.quality_deadline ≡ s.0.quality_deadline)
      × ((check_child exit s).0.1 ≡ false → ((check_child exit s).0.0 ≡ s.0) × (s.1 ≡ false))
unfolding check_child
check_child_lem exit (s, finished) = (ground arith, λ e. (ground arith, ground arith))

module _ (f64 : F64) (parse : Str → Option Ipv4Addr) where
  -- The steps of a poll before `if finished`.
  abbrev pub drained : Moment → Session → (Session × Bool) × List Effect
  drained m s = drain f64 parse m.now (if s.events then m.arrived else []) (s, false)

  abbrev pub timed : Moment → Session → Session × Bool
  timed m s =
      check_quality_deadline m.later (check_stale m.later (drained m s).0.0, (drained m s).0.1)

  abbrev pub waited : Moment → Session → (Session × Bool) × Bool
  waited m s = check_child m.exit (check_deadline m.later (timed m s)).0

  waited_deadline :
      (m : Moment) (s : Session) → reached m.later (waited m s).0.0.quality_deadline ≡ false
  waited_deadline m s =
      let a = (check_child_lem m.exit (check_deadline m.later (timed m s)).0).0 in
      let b = (check_deadline_lem m.later (timed m s)).0 in
      let c =
        check_quality_deadline_lem m.later
          (check_stale m.later (drained m s).0.0, (drained m s).0.1) in
      ap (reached m.later) (a ∙ ap (λ (t : Session). t.quality_deadline) b) ∙ c

  poll_deadline :
      (m : Moment) (s : Session)
      → reached m.later (poll_worker f64 parse m s).0.quality_deadline ≡ false
  unfolding poll_worker
  poll_deadline m s =
      if_both (λ (r : Session × List Effect). reached m.later r.0.quality_deadline ≡ false)
        (waited m s).0.1 _ _
        (λ e. ap (reached m.later) (finish-clears m.later (waited m s).0.0 (waited m s).1))
        (λ e. waited_deadline m s)

  -- No apply is overdue: after a poll of a session with no helper, either no quality is pending, or the
  -- one that is waits for the user, or the watchdog is set to a time that is still to come.
  pub poll-overdue :
      (m : Moment) (s : Session)
      → Inv s
      → is_none s.auxiliary ≡ true
      → (is_none (poll_worker f64 parse m s).0.quality.pending ≡ true)
        ⊎ ((poll_worker f64 parse m s).0.quality.staged ≡ true)
        ⊎ ((d : ℕ) × ((poll_worker f64 parse m s).0.quality_deadline ≡ some d) × (m.later < d))
  poll-overdue m s i a =
      let t : Session = (poll_worker f64 parse m s).0 in
      let armed = (poll_worker-Inv f64 parse m s a i).watched.armed in
      let early = poll_deadline m s in
      elim (Option-cases t.quality_deadline) [
        | inr (d, e) ↦ inr (inr (d, e, ground (arith, early, e)))
        | inl e ↦ elim (Bool-cases (is_none t.quality.pending)) [
          | inl p ↦ inl p
          | inr p ↦ inr (inl (ground (arith, armed, e, p)))
        ]
      ]

  -- A poll that finds the session finished kills the child or has reaped it.
  pub finished_kills :
      (m : Moment) (s : Session)
      → (waited m s).0.1 ≡ true
      → (poll_worker f64 parse m s).0.child ≡ true
      → kills (poll_worker f64 parse m s).1 ≡ true
  unfolding poll_worker
  finished_kills m s f =
      if_both (λ (r : Session × List Effect). r.0.child ≡ true → kills r.1 ≡ true) (waited m s).0.1
        _ _
        (λ e c. kills_later (drained m s).1 _ (
          kills_later (check_deadline m.later (timed m s)).1 _
            (finish-kills m.later (waited m s).0.0 (waited m s).1 c)))
        (λ e. absurd (ground (arith, e, f)))
