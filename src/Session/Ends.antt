-- ===== src/Session/Ends.antt =====
-- How a worker's session ends: the apply watchdog and `Session::stop` of host-rs/src/session.rs.
pub mod Watchdog
use mobile_webcam_bridge.Prelude.{
  ℕ, ◌≡◌, ◌≤◌, ◌<◌, ◌⊎◌, ◌+◌, ◌∙◌, ap, sym, subst, inl, inr, refl, Bool, true, false, not, ◌||◌,
  List, [], ◌∷◌, ◌++◌, Option, none, some, arith, Bool-cases, Option-cases, if◌then◌else◌, leb,
  if_both,
}
use mobile_webcam_bridge.Settings.Text.{Str}
use mobile_webcam_bridge.Wire.PairingInfo.{Ipv4Addr}
use mobile_webcam_bridge.Quality.Preference.{F64}
use mobile_webcam_bridge.Quality.Client.{is_none}
use mobile_webcam_bridge.Session.{stop, is_stopping}
use mobile_webcam_bridge.Session.Types.{Session, Exit, Effect, kill_child, kill_helper, wake_writer}
use mobile_webcam_bridge.Session.Poll.{
  check_stale, check_quality_deadline, check_deadline, check_child, finish, poll_worker, Moment,
  reached,
}
use mobile_webcam_bridge.Session.Handle.{drain}
use mobile_webcam_bridge.Session.Poll.Invariant.{Inv, at_rest, stop-Inv}
use mobile_webcam_bridge.Session.Poll.Events.{drain_stopping}
use mobile_webcam_bridge.Session.Runs.{poll_worker-Inv}
use mobile_webcam_bridge.Session.Ends.Watchdog.{
  kills, finish-child, check_deadline_lem, check_child_lem, drained, timed, waited, poll-overdue,
  finished_kills,
}

-- None of them comes less than 100 ms before the bound.
abbrev pub AllBefore : ℕ → List Moment → Type 0
AllBefore t [] = Unit
AllBefore t (m ∷ moments) = (m.later + 100 ≤ t) × AllBefore t moments

-- `deadline` is set, and not after the bound.
abbrev pub due : ℕ → Option ℕ → Bool
due bound none = false
due bound (some deadline) = leb deadline bound

-- A session that ends: nothing that the worker reports changes it, and its deadline is set.
pub record Ending (bound : ℕ) (s : Session) : Type 0 where
  pub deaf : s.child ≡ true → (is_stopping s.state || not s.events) ≡ true
  pub timed : s.child ≡ true → due bound s.deadline ≡ true
  pub single : is_none s.auxiliary ≡ true

finish-Ending :
    (now : ℕ) (s : Session) (reaped : Bool)
    → is_none s.auxiliary ≡ true
    → Ending (now + 100) (finish now s reaped).0
unfolding finish
finish-Ending now s reaped a = record {
  deaf = λ e. ground arith;
  timed = λ e. ground arith;
  single = ground (arith, a);
}

check_stale-Ending :
    (now bound : ℕ) (s : Session) → Ending bound s → Ending bound (check_stale now s)
unfolding check_stale
check_stale-Ending now bound s i = record {
  deaf = λ e. ground (arith, i.deaf);
  timed = λ e. ground (arith, i.timed);
  single = ground (arith, i.single);
}

later-Ending : (a b : ℕ) (s : Session) → a ≤ b → Ending a s → Ending b s
later-Ending a b s l i = record {
  deaf = i.deaf;
  timed = λ e. ground (arith, i.timed e, l);
  single = i.single;
}

-- What the steps after the events leave alone.
check_quality_deadline_same :
    (now : ℕ) (s : Session × Bool)
    → ((check_quality_deadline now s).0.child ≡ s.0.child)
      × ((check_quality_deadline now s).0.deadline ≡ s.0.deadline)
      × ((check_quality_deadline now s).0.auxiliary ≡ s.0.auxiliary)
      × ((check_quality_deadline now s).1 ≡ false → check_quality_deadline now s ≡ s)
unfolding check_quality_deadline
check_quality_deadline_same now (s, finished) =
    (ground arith, ground arith, ground arith, λ e. ground arith)

check_child_same :
    (exit : Exit) (s : Session × Bool)
    → ((check_child exit s).0.0.auxiliary ≡ s.0.auxiliary)
      × ((check_child exit s).0.0.child ≡ s.0.child)
      × (s.1 ≡ true → (check_child exit s).0.1 ≡ true)
unfolding check_child
check_child_same exit (s, finished) = (ground arith, ground arith, λ e. ground arith)

check_stale_same :
    (now : ℕ) (s : Session)
    → ((check_stale now s).child ≡ s.child)
      × ((check_stale now s).deadline ≡ s.deadline)
      × ((check_stale now s).auxiliary ≡ s.auxiliary)
unfolding check_stale
check_stale_same now s = (ground arith, ground arith, ground arith)

module _ (f64 : F64) (parse : Str → Option Ipv4Addr) where
  -- Nothing that the worker reports changes a session that ends.
  drained_same :
      (m : Moment) (bound : ℕ) (s : Session)
      → Inv s
      → Ending bound s
      → (drained f64 parse m s).0.0 ≡ s
  unfolding drain
  drained_same m bound s i g =
      if_both (λ l. (drain f64 parse m.now l (s, false)).0.0 ≡ s) s.events m.arrived []
        (λ e.
          (drain_stopping f64 parse m.now m.arrived s false
            (ground (arith, e, g.deaf, i.quiet.unheard))).0)
        (λ e. refl)

  -- The session before the events and after them.
  waited_same :
      (m : Moment) (bound : ℕ) (s : Session)
      → Inv s
      → Ending bound s
      → (is_none (waited f64 parse m s).0.0.auxiliary ≡ true)
        × ((waited f64 parse m s).0.1 ≡ false → Ending bound (waited f64 parse m s).0.0)
        × (s.child ≡ true → bound ≤ m.later → (waited f64 parse m s).0.1 ≡ true)
        × ((waited f64 parse m s).0.0.child ≡ s.child)
  waited_same m bound s i g =
      let d = drained f64 parse m s in
      let same : d.0.0 ≡ s = drained_same m bound s i g in
      let v = check_stale_same m.later d.0.0 in
      let q = check_quality_deadline_same m.later (check_stale m.later d.0.0, d.0.1) in
      let k = check_deadline_lem m.later (timed f64 parse m s) in
      let c = check_child_same m.exit (check_deadline m.later (timed f64 parse m s)).0 in
      let l = (check_child_lem m.exit (check_deadline m.later (timed f64 parse m s)).0).1 in
      let aux : (waited f64 parse m s).0.0.auxiliary ≡ s.auxiliary =
        c.0
        ∙ ap (λ (t : Session). t.auxiliary) k.0
        ∙ q.2
        ∙ v.2
        ∙ ap (λ (t : Session). t.auxiliary) same in
      let due_then : (timed f64 parse m s).0.deadline ≡ s.deadline =
        q.1 ∙ v.1 ∙ ap (λ (t : Session). t.deadline) same in
      let not_finished : (waited f64 parse m s).0.1 ≡ false → (timed f64 parse m s).1 ≡ false =
        λ e. ground (arith, k.1, (l e).1) in
      (
        ap is_none aux ∙ g.single,
        λ e.
            subst (Ending bound)
              (sym (
                (l e).0
                ∙ k.0
                ∙ ap (λ (t : Session × Bool). t.0) (q.3 (not_finished e))
                ∙ ap (check_stale m.later) same))
              (check_stale-Ending m.later bound s g),
        λ there late.
            c.2 (k.1 ∙ ground (arith, ap (reached m.later) due_then, g.timed there, late)),
        c.1 ∙ ap (λ (t : Session). t.child) k.0 ∙ q.0 ∙ v.0 ∙ ap (λ (t : Session). t.child) same,
      )

  poll-Ending :
      (m : Moment) (bound t : ℕ) (s : Session)
      → Inv s
      → bound ≤ t
      → m.later + 100 ≤ t
      → Ending bound s
      → Ending t (poll_worker f64 parse m s).0
  unfolding poll_worker
  poll-Ending m bound t s i b l g =
      let w = waited_same m bound s i g in
      if_both (λ (r : Session × List Effect). Ending t r.0) (waited f64 parse m s).0.1 _ _
        (λ e.
          later-Ending (m.later + 100) t _ l
            (finish-Ending m.later (waited f64 parse m s).0.0 (waited f64 parse m s).1 w.0))
        (λ e. later-Ending bound t _ b (w.1 e))

  -- No poll brings a worker back.
  poll_child :
      (m : Moment) (bound : ℕ) (s : Session)
      → Inv s
      → Ending bound s
      → (poll_worker f64 parse m s).0.child ≡ true
      → s.child ≡ true
  unfolding poll_worker
  poll_child m bound s i g =
      let same = (waited_same m bound s i g).3 in
      if_both (λ (r : Session × List Effect). r.0.child ≡ true → s.child ≡ true)
        (waited f64 parse m s).0.1 _ _
        (λ e there.
          sym same ∙ finish-child m.later (waited f64 parse m s).0.0 (waited f64 parse m s).1 there)
        (λ e there. sym same ∙ there)

  -- A poll at the end.
  poll-killed :
      (m : Moment) (bound : ℕ) (s : Session)
      → Inv s
      → Ending bound s
      → bound ≤ m.later
      → (poll_worker f64 parse m s).0.child ≡ true
      → kills (poll_worker f64 parse m s).1 ≡ true
  poll-killed m bound s i g l there =
      finished_kills f64 parse m s
        ((waited_same m bound s i g).2 (poll_child m bound s i g there) l) there

  -- The polls one after the other.
  unfoldable pub polls : List Moment → Session → Session
  polls [] s = s
  polls (m ∷ moments) s = polls moments (poll_worker f64 parse m s).0

  polls-Ending :
      (moments : List Moment) (t : ℕ) (s : Session)
      → AllBefore t moments
      → Inv s
      → Ending t s
      → Inv (polls moments s) × Ending t (polls moments s)
  unfolding polls
  polls-Ending [] t s b i g = (i, g)
  polls-Ending (m ∷ moments) t s (l, b) i g =
      polls-Ending moments t (poll_worker f64 parse m s).0 b
        (poll_worker-Inv f64 parse m s g.single i) (poll-Ending m t t s i (omega arith) l g)

stop-Ending :
    (now : ℕ) (s : Session)
    → is_none s.auxiliary ≡ true
    → Inv s
    → Ending (now + 1000) (stop now s).0
unfolding stop
stop-Ending now s a i = record {
  deaf = λ e. ground (arith, i.quiet.unheard);
  timed = λ e. ground arith;
  single = ground arith;
}

module _ (f64 : F64) (parse : Str → Option Ipv4Addr) where
  -- A stop ends the worker: after `stop` on a session with no helper, and any polls after it, whatever
  -- the worker reports meanwhile, a poll at least a second after the stop and 100 ms after the last of
  -- those polls finds the worker reaped and leaves the session idle or failed, or it kills the worker.
  pub stop_ends :
      (now : ℕ) (s : Session) (moments : List Moment) (m : Moment)
      → Inv s
      → is_none s.auxiliary ≡ true
      → now + 1000 ≤ m.later
      → AllBefore m.later moments
      → (((poll_worker f64 parse m (polls f64 parse moments (stop now s).0)).0.child ≡ false)
          × (at_rest (poll_worker f64 parse m (polls f64 parse moments (stop now s).0)).0.state
              ≡ true))
        ⊎ (kills (poll_worker f64 parse m (polls f64 parse moments (stop now s).0)).1 ≡ true)
  stop_ends now s moments m i a l b =
      let t : ℕ = m.later in
      let (i', g') =
        polls-Ending f64 parse moments t (stop now s).0 b (stop-Inv now s i)
          (later-Ending (now + 1000) t _ l (stop-Ending now s a i)) in
      let u : Session = polls f64 parse moments (stop now s).0 in
      let last : Inv (poll_worker f64 parse m u).0 = poll_worker-Inv f64 parse m u g'.single i' in
      let single =
        (poll-Ending f64 parse m t (t + 100) u i' (omega arith) (omega arith) g').single in
      elim (Bool-cases (poll_worker f64 parse m u).0.child) [
        | inr e ↦ inl (e, last.quiet.rests e single)
        | inl e ↦ inr (poll-killed f64 parse m t u i' g' (omega arith) e)
      ]
