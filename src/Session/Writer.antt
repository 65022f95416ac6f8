-- ===== src/Session/Writer.antt =====
-- The thread of host-rs/src/session.rs that writes to the worker, and what the methods leave for it.
use mobile_webcam_bridge.Prelude.{
  ℕ, ◌≡◌, ◌∙◌, ap, refl, sym, ◌&&◌, Bool, true, false, List, [], ◌∷◌, ◌++◌, Option, none, some,
  arith,
}
use mobile_webcam_bridge.Session.{with_quality, with_transform, take, nothing}
use mobile_webcam_bridge.Session.Types.{Command, transform, prepare_quality, Pending}

-- What happens to the pending commands: `queue_quality`, `transform`, or a round of the writer's loop.
pub data Turn : Type 0 where
  asks : (width height fps : ℕ) → Turn
  turns : (rotation : ℕ) (mirror vertical_flip : Bool) → Turn
  writes : Turn

abbrev pub written : Option Command → List Command
written none = []
written (some command) = command ∷ []

-- The pending commands after a turn, and what was written in it.
unfoldable pub after : Turn → Pending → Pending × List Command
unfolding take
after (asks width height fps) p = (with_quality width height fps p, [])
after (turns rotation mirror flip) p = (with_transform rotation mirror flip p, [])
after writes p = ((take p).0, written (take p).1)

-- The turns one after the other, and all that was written.
unfoldable pub run : List Turn → Pending → Pending × List Command
run [] p = (p, [])
run (t ∷ ts) p = ((run ts (after t p).0).0, (after t p).1 ++ (run ts (after t p).0).1)

-- The newer of two, where there is one.
abbrev pub newer : Option Command → Option Command → Option Command
newer old none = old
newer old (some command) = some command

abbrev pub as_transform : Command → Option Command
as_transform (transform rotation mirror flip) = some (transform rotation mirror flip)
as_transform _ = none

abbrev pub as_quality : Command → Option Command
as_quality (prepare_quality width height fps) = some (prepare_quality width height fps)
as_quality _ = none

abbrev pub is_quality : Option Command → Bool
is_quality none = true
is_quality (some (prepare_quality width height fps)) = true
is_quality _ = false

abbrev pub is_transform : Option Command → Bool
is_transform none = true
is_transform (some (transform rotation mirror flip)) = true
is_transform _ = false

-- The last of a list that `kind` accepts.
abbrev pub last_of : (Command → Option Command) → List Command → Option Command
last_of kind [] = none
last_of kind (c ∷ cs) = newer (kind c) (last_of kind cs)

-- The commands that the turns queue.
abbrev pub queued : List Turn → List Command
queued [] = []
queued (asks width height fps ∷ ts) = prepare_quality width height fps ∷ queued ts
queued (turns rotation mirror flip ∷ ts) = transform rotation mirror flip ∷ queued ts
queued (writes ∷ ts) = queued ts

newer-none : (a : Option Command) → newer none a ≡ a
newer-none none = refl
newer-none (some c) = refl

newer_assoc : (a b c : Option Command) → newer (newer a b) c ≡ newer a (newer b c)
newer_assoc a b none = refl
newer_assoc a b (some c) = refl

last_of-append :
    (kind : Command → Option Command) (a b : List Command)
    → last_of kind (a ++ b) ≡ newer (last_of kind a) (last_of kind b)
last_of-append kind [] b = sym (newer-none (last_of kind b))
last_of-append kind (c ∷ a) b =
    ap (newer (kind c)) (last_of-append kind a b)
    ∙ sym (newer_assoc (kind c) (last_of kind a) (last_of kind b))

queued_one :
    (kind : Command → Option Command) (t : Turn) (ts : List Turn)
    → last_of kind (queued (t ∷ ts))
      ≡ newer (last_of kind (queued (t ∷ []))) (last_of kind (queued ts))
queued_one kind (asks w h f) ts = refl
queued_one kind (turns r m v) ts = refl
queued_one kind writes ts = sym (newer-none (last_of kind (queued ts)))

-- The field of a kind holds commands of that kind only.
abbrev sorted : Pending → Bool
sorted p = is_quality p.quality && is_transform p.transform

after-sorted : (t : Turn) (p : Pending) → sorted p ≡ true → sorted (after t p).0 ≡ true
unfolding after take
after-sorted (asks w h f) p e = ground arith
after-sorted (turns r m v) p e = ground arith
after-sorted writes p e = ground arith

after-transform :
    (t : Turn) (p : Pending)
    → sorted p ≡ true
    → newer (last_of as_transform (after t p).1) (after t p).0.transform
      ≡ newer p.transform (last_of as_transform (queued (t ∷ [])))
unfolding after take
after-transform (asks w h f) p e = ground arith
after-transform (turns r m v) p e = ground arith
after-transform writes p e = ground arith

after-quality :
    (t : Turn) (p : Pending)
    → sorted p ≡ true
    → newer (last_of as_quality (after t p).1) (after t p).0.quality
      ≡ newer p.quality (last_of as_quality (queued (t ∷ [])))
unfolding after take
after-quality (asks w h f) p e = ground arith
after-quality (turns r m v) p e = ground arith
after-quality writes p e = ground arith

-- A run, for a field whose one-turn law is known.
run-field :
    (kind : Command → Option Command) (field : Pending → Option Command)
    → ((t : Turn) (p : Pending)
        → sorted p ≡ true
        → newer (last_of kind (after t p).1) (field (after t p).0)
          ≡ newer (field p) (last_of kind (queued (t ∷ []))))
    → (ts : List Turn) (p : Pending) → sorted p ≡ true
    → newer (last_of kind (run ts p).1) (field (run ts p).0)
      ≡ newer (field p) (last_of kind (queued ts))
unfolding run
run-field kind field one [] p e = newer-none (field p)
run-field kind field one (t ∷ ts) p e =
    let q : Pending = (after t p).0 in
    let sent : List Command = (after t p).1 in
    let later : List Command = (run ts q).1 in
    ap (λ l. newer l (field (run ts q).0)) (last_of-append kind sent later)
    ∙ newer_assoc (last_of kind sent) (last_of kind later) (field (run ts q).0)
    ∙ ap (newer (last_of kind sent)) (run-field kind field one ts q (after-sorted t p e))
    ∙ sym (newer_assoc (last_of kind sent) (field q) (last_of kind (queued ts)))
    ∙ ap (λ l. newer l (last_of kind (queued ts))) (one t p e)
    ∙ newer_assoc (field p) (last_of kind (queued (t ∷ []))) (last_of kind (queued ts))
    ∙ sym (ap (newer (field p)) (queued_one kind t ts))

-- No command is lost to another kind: in any order of the calls and of the writer's rounds, the last
-- quality command and the last transform that were queued each are what waits in their field, or, where
-- nothing waits, the last of their kind that was written.
pub run-newest :
    (ts : List Turn)
    → (newer (last_of as_quality (run ts nothing).1) (run ts nothing).0.quality
        ≡ last_of as_quality (queued ts))
      × (newer (last_of as_transform (run ts nothing).1) (run ts nothing).0.transform
          ≡ last_of as_transform (queued ts))
run-newest ts = (
  run-field as_quality (λ p. p.quality) after-quality ts nothing refl ∙ newer-none _,
  run-field as_transform (λ p. p.transform) after-transform ts nothing refl ∙ newer-none _,
)
