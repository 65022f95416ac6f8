-- ===== src/Quality/Switch/Traces.antt =====
-- What holds of the actions of a whole run of the switch machine.
use mobile_webcam_bridge.Prelude.{
  ℕ, ◌+◌, ◌≤◌, ◌≡◌, refl, true, Option, none, some, List, [], ◌∷◌, ◌++◌, arith, In, All, ap,
  if◌then◌else◌,
}
use mobile_webcam_bridge.Quality.Types.{
  Event, Action, Switch, failed, send_prepare_quality, send_commit_quality, close_connection,
}
use mobile_webcam_bridge.Quality.Switch.{initial, busy, is_preparing, step, run, apply_deadline_ms}
use mobile_webcam_bridge.Quality.Switch.Invariant.{Inv, step-Inv, reached-Inv}

-- The ids of the requests that a list of actions sends, and of those that it commits.
abbrev pub prepared : List Action → List ℕ
prepared [] = []
prepared (send_prepare_quality id revision size ∷ rest) = id ∷ prepared rest
prepared (_ ∷ rest) = prepared rest

abbrev pub committed : List Action → List ℕ
committed [] = []
committed (send_commit_quality id epoch ∷ rest) = id ∷ committed rest
committed (_ ∷ rest) = committed rest

-- Strictly increasing, from a lower bound on.
abbrev pub Rising : ℕ → List ℕ → Type 0
Rising low [] = Unit
Rising low (x ∷ xs) = (low ≤ x) × Rising (x + 1) xs

Rising-weaken : (low high : ℕ) (xs : List ℕ) → high ≤ low → Rising low xs → Rising high xs
Rising-weaken low high [] h r = tt
Rising-weaken low high (x ∷ xs) h (p, r) = (omega arith, r)

prepared-append : (us vs : List Action) → prepared (us ++ vs) ≡ prepared us ++ prepared vs
prepared-append [] vs = refl
prepared-append (send_prepare_quality id r size ∷ us) vs = ap (λ l. id ∷ l) (prepared-append us vs)
prepared-append (_ ∷ us) vs = prepared-append us vs

committed-append : (us vs : List Action) → committed (us ++ vs) ≡ committed us ++ committed vs
committed-append [] vs = refl
committed-append (send_commit_quality id epoch ∷ us) vs = ap (λ l. id ∷ l) (committed-append us vs)
committed-append (_ ∷ us) vs = committed-append us vs

step-prepared :
    (now : ℕ) (e : Event) (s : Switch) (rest : List ℕ)
    → Rising (step now e s).0.next_request_id rest
    → Rising s.next_request_id (prepared (step now e s).1 ++ rest)
unfolding step
step-prepared now (Event.prepare r (w, h, f)) s rest k = ground arith
step-prepared now _ s rest k = ground arith

-- In any run the ids of the requests that are sent rise strictly, from the machine's next id on: no
-- id is used twice.
pub prepared-Rising :
    (es : List (ℕ × Event)) (s : Switch) → Rising s.next_request_id (prepared (run es s).1)
unfolding run
prepared-Rising [] s = tt
prepared-Rising ((now, e) ∷ rest) s = rw prepared-append (
    step-prepared now e s (prepared (run rest (step now e s).0).1)
      (prepared-Rising rest (step now e s).0))

-- The least request that may still be committed.
abbrev pub open_from : Switch → ℕ
open_from s = if is_preparing s.phase then s.request_id else s.request_id + 1

step-committed :
    (now : ℕ) (e : Event) (s : Switch) (rest : List ℕ)
    → Inv s
    → Rising (open_from (step now e s).0) rest
    → Rising (open_from s) (committed (step now e s).1 ++ rest)
unfolding step
step-committed now (Event.prepare r (w, h, f)) s rest v k =
    ground (arith, Rising-weaken s.next_request_id (open_from s) rest)
step-committed now _ s rest v k =
    ground (arith, Rising-weaken (s.request_id + 1) (open_from s) rest)

-- In any run of a machine that satisfies the invariant the ids that are committed rise strictly: no
-- request is committed twice, and none after a later one.
pub committed-Rising :
    (es : List (ℕ × Event)) (s : Switch) → Inv s → Rising (open_from s) (committed (run es s).1)
unfolding run
committed-Rising [] s v = tt
committed-Rising ((now, e) ∷ rest) s v = rw committed-append (
    step-committed now e s (committed (run rest (step now e s).0).1) v
      (committed-Rising rest (step now e s).0 (step-Inv now e s v)))

-- The times of a run's events are at most `latest`.
abbrev pub Until : ℕ → List (ℕ × Event) → Type 0
Until latest es = All (λ p. p.0 ≤ latest) es

-- A running timer ends within five seconds after `latest`.
abbrev EndsBy : ℕ → Option ℕ → Type 0
EndsBy latest none = Unit
EndsBy latest (some deadline) = deadline ≤ latest + apply_deadline_ms

step-EndsBy :
    (now latest : ℕ) (e : Event) (s : Switch)
    → now ≤ latest
    → EndsBy latest s.deadline_ms
    → EndsBy latest (step now e s).0.deadline_ms
unfolding step
step-EndsBy now latest (Event.prepare r (w, h, f)) s t v = ground arith
step-EndsBy now latest _ s t v = ground arith

run-EndsBy :
    (latest : ℕ) (es : List (ℕ × Event)) (s : Switch)
    → Until latest es
    → EndsBy latest s.deadline_ms
    → EndsBy latest (run es s).0.deadline_ms
unfolding run
run-EndsBy latest [] s t v = v
run-EndsBy latest ((now, e) ∷ rest) s (t, ts) v =
    run-EndsBy latest rest (step now e s).0 ts (step-EndsBy now latest e s t v)

deadline_fires :
    (latest now : ℕ) (s : Switch)
    → Inv s
    → EndsBy latest s.deadline_ms
    → latest + apply_deadline_ms ≤ now
    → busy s.phase ≡ true
    → ((step now Event.deadline_exceeded s).0.phase ≡ failed)
      × In close_connection (step now Event.deadline_exceeded s).1
unfolding step
deadline_fires latest now s v t h b = ground arith

-- No apply stays busy for good: after any run whose events came by the time `latest`, a deadline
-- event five seconds later, or at any time after that, ends an apply that is still busy and closes
-- the connection.
pub busy_ends :
    (latest now : ℕ) (es : List (ℕ × Event))
    → Until latest es
    → latest + apply_deadline_ms ≤ now
    → busy (run es initial).0.phase ≡ true
    → ((step now Event.deadline_exceeded (run es initial).0).0.phase ≡ failed)
      × In close_connection (step now Event.deadline_exceeded (run es initial).0).1
busy_ends latest now es t h b =
    deadline_fires latest now (run es initial).0 (reached-Inv es)
      (run-EndsBy latest es initial t tt) h b
