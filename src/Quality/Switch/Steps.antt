-- ===== src/Quality/Switch/Steps.antt =====
-- What single events do to the switch machine, on every branch that matters to the peer.
use mobile_webcam_bridge.Prelude.{
  ℕ, ◌+◌, ◌^◌, ◌≤◌, ◌<◌, ◌≡◌, ◌≢◌, ◌↔◌, ◌⊎◌, inl, inr, true, false, Option, none, some, [], arith,
  In, refl, ◌∷◌,
}
use mobile_webcam_bridge.Quality.Types.{
  Size, Event, Switch, preparing, switching, awaiting_output, send_commit_quality, report_applied,
  close_connection, release_outputs,
}
use mobile_webcam_bridge.Quality.Switch.{
  busy, after_boundary, awaiting_video, is_requested, step, rejection_reason,
}
use Prim.Native.String.{String}

-- The request id that an answer of the phone carries.
abbrev pub answers : Event → Option ℕ
answers (Event.prepare_accepted id streaming) = some id
answers (Event.rejected id reason) = some id
answers (Event.paused id epoch) = some id
answers (Event.capture_started id size) = some id
answers _ = none

-- An answer to any other request than the current one changes nothing and sends nothing.
pub stale_ignored :
    (now id : ℕ) (e : Event) (s : Switch)
    → answers e ≡ some id
    → id ≢ s.request_id
    → step now e s ≡ (s, [])
unfolding step
stale_ignored now id e s a h = ground arith

-- What the machine has checked when it commits.
abbrev pub Commits : Switch → Event → ℕ → ℕ → Type 0
Commits s e id next =
    (epoch : ℕ) × (e ≡ Event.paused id epoch)
    × (id ≡ s.request_id)
    × (s.phase ≡ preparing)
    × ((s.epoch ≡ none) ⊎ (s.epoch ≡ some epoch))
    × (next ≡ epoch + 1)
    × (next < 2 ^ 32)

commit_needs :
    (now id next : ℕ) (e : Event) (s : Switch)
    → In (send_commit_quality id next) (step now e s).1
    → Commits s e id next
unfolding step
commit_needs now id next (Event.paused r epoch) s h =
    (epoch, ground arith, ground arith, ground arith, ground arith, ground arith, ground arith)
commit_needs now id next (Event.prepare r (w, h, f)) s i = absurd (ground arith)
commit_needs now id next _ s h = absurd (ground arith)

commit_does :
    (now id next : ℕ) (e : Event) (s : Switch)
    → Commits s e id next
    → step now e s ≡ (
      record s { phase = switching; epoch = some next },
      release_outputs ∷ send_commit_quality id next ∷ [],
    )
unfolding step
commit_does now id next e s (epoch, p, q, r, k, n, m) = rw p (ground arith)

-- A commit is sent exactly for a pause of the current request in the preparing phase, at the epoch that
-- the machine knows or at any epoch if it knows none, where the next epoch fits u32. It is sent exactly
-- where the step releases the outputs, sends the commit with the next epoch and nothing else, and
-- begins the switch with the machine at that epoch and otherwise unchanged.
pub commit_iff :
    (now id next : ℕ) (e : Event) (s : Switch)
    → (In (send_commit_quality id next) (step now e s).1 ↔ Commits s e id next)
      × (In (send_commit_quality id next) (step now e s).1 ↔ (
          step now e s ≡ (
            record s { phase = switching; epoch = some next },
            release_outputs ∷ send_commit_quality id next ∷ [],
          )))
commit_iff now id next e s =
    let sends : step now e s ≡ (
      record s { phase = switching; epoch = some next },
      release_outputs ∷ send_commit_quality id next ∷ [],
    )
        → In (send_commit_quality id next) (step now e s).1 =
      λ p. rw p (inr (inl refl)) in
    (
      (commit_needs now id next e s, λ c. sends (commit_does now id next e s c)),
      (λ h. commit_does now id next e s (commit_needs now id next e s h), sends),
    )

report_needs :
    (now : ℕ) (size : Size) (e : Event) (s : Switch)
    → In (report_applied size) (step now e s).1
    → (e ≡ Event.output_ready) × (s.phase ≡ awaiting_output) × (s.requested ≡ some size)
unfolding step
report_needs now size (Event.prepare r (w, h, f)) s i = absurd (ground arith)
report_needs now size _ s h = ground arith

-- "Applied" is reported exactly when output is ready in the phase that waits for it, for the size
-- that was requested.
pub report_iff :
    (now : ℕ) (size : Size) (e : Event) (s : Switch)
    → In (report_applied size) (step now e s).1
      ↔ ((e ≡ Event.output_ready) × (s.phase ≡ awaiting_output) × (s.requested ≡ some size))
report_iff now size e s =
    (report_needs now size e s, λ (p, q, r). unfold step in rw p (ground arith))

-- A rejection closes the connection and stops the capture exactly when it answers the current
-- request after the switch has begun; before, the machine only reports it.
pub rejection_boundary :
    (now id reason : ℕ) (s : Switch)
    → In close_connection (step now (Event.rejected id reason) s).1
      ↔ ((id ≡ s.request_id) × ((s.phase ≡ switching) ⊎ (s.phase ≡ awaiting_output)))
unfolding step
rejection_boundary now id reason s = (λ h. ground arith, λ h. ground arith)

-- Why the machine closes the connection.
pub data Closes (now : ℕ) (s : Switch) : Event → Type 0 where
  refused :
      (id reason : ℕ)
      → id ≡ s.request_id
      → after_boundary s.phase ≡ true
      → Closes now s (Event.rejected id reason)
  overflowed :
      (id epoch : ℕ)
      → id ≡ s.request_id
      → s.phase ≡ preparing
      → (s.epoch ≡ none) ⊎ (s.epoch ≡ some epoch)
      → 2 ^ 32 ≤ epoch + 1
      → Closes now s (Event.paused id epoch)
  config_differs :
      (size : Size)
      → awaiting_video s.phase ≡ true
      → is_requested s.requested size ≡ false
      → Closes now s (Event.video_config size)
  capture_differs :
      (id : ℕ) (size : Size)
      → id ≡ s.request_id
      → awaiting_video s.phase ≡ true
      → is_requested s.requested size ≡ false
      → Closes now s (Event.capture_started id size)
  expired :
      (deadline : ℕ)
      → busy s.phase ≡ true
      → s.deadline_ms ≡ some deadline
      → deadline ≤ now
      → Closes now s Event.deadline_exceeded

-- What the machine reports for each reason.
abbrev pub reported : {now : ℕ} {s : Switch} {e : Event} → Closes now s e → String
reported (refused id reason p q) = rejection_reason reason
reported (overflowed id epoch p q k r) = "the video epoch overflowed"
reported (config_differs size p q) = "the new mode did not match the request"
reported (capture_differs id size p q r) = "the new mode did not match the request"
reported (expired deadline p q r) = "the apply deadline expired"
