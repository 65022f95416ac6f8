-- ===== src/Quality/Client/Applies.antt =====
-- What a connection asks for and what it takes as applied.
use mobile_webcam_bridge.Prelude.{
  ℕ, ◌≡◌, ◌↔◌, ◌⊎◌, inl, inr, refl, ap, Bool, true, false, not, Option, none, some, List, [], ◌∷◌,
  arith, ◌||◌, Bool-cases, Option-cases, if◌then◌else◌,
}
use mobile_webcam_bridge.Quality.Types.{Size}
use mobile_webcam_bridge.Quality.Switch.{is_requested}
use mobile_webcam_bridge.Quality.Preference.{Mode, Wish, tuple, auto, F64, resolve, usable, matches}
use mobile_webcam_bridge.Quality.Preference.Best.{resolve_best}
use mobile_webcam_bridge.Quality.Client.{
  Client, new, ready, resolve_wish, begin, store, first_apply, advertise, progress, failed, awaits,
  confirmed, disconnected, is_none,
}
use Prim.Native.String.{String}

-- The calls on a client.
pub data Call : Type 0 where
  advertises : ℕ → List Mode → Call
  begins : Wish → Call
  progresses : Bool → Call
  confirms : Size → Call
  fails : String → Call
  disconnects : Call

-- The pending mode is usable; a client that waits for the user has something pending; and whatever is
-- pending was asked for after the first check.
pub record Inv (c : Client) : Type 0 where
  pub usable_pending : (m : Mode) → c.pending ≡ some m → usable m ≡ true
  pub staged_pending : c.staged ≡ true → is_none c.pending ≡ false
  pub checked_pending : is_none c.pending ≡ false → c.initial_checked ≡ true

new-Inv : (w : Wish) → Inv (new w)
unfolding new
new-Inv w = record {
  usable_pending = λ m e. cc;
  staged_pending = λ e. cc;
  checked_pending = λ e. cc;
}

-- A client after it has asked for a mode.
abbrev pub asked : Client → Mode → Client
asked c m = record c { problem = none; initial_checked = true; pending = some m; staged = false }

module _ (f64 : F64) where
  -- The client after a call, and the mode that the call asks for.
  unfoldable pub answer : Call → Client → Client × Option Mode
  answer (advertises permission modes) c = advertise f64 permission modes c
  answer (begins wish) c = begin f64 wish c
  answer (progresses staged) c = (progress staged c, none)
  answer (confirms size) c = ((confirmed size c).0, none)
  answer (fails reason) c = (failed reason c, none)
  answer disconnects c = (disconnected c, none)

  resolve_wish-usable :
      (c : Client) (w : Wish) (m : Mode) → resolve_wish f64 c w ≡ some m → usable m ≡ true
  unfolding resolve_wish
  resolve_wish-usable c w m e = elim (Option-cases c.modes) [
    | inl p ↦ absurd (ground arith)
    | inr (modes, p) ↦
        let r : resolve f64 w modes ≡ some m = ground arith in
        let k = (resolve_best f64 w modes m r).2 in unfold matches in ground arith
  ]

  -- What `begin` asks for, exactly.
  abbrev pub Begins : Wish → Client → Mode → Type 0
  Begins w c m =
      (c.pending ≡ none)
      × (ready c ≡ true)
      × (resolve_wish f64 c w ≡ some m)
      × (is_requested c.applied (tuple m) ≡ false)

  begin_needs : (w : Wish) (c : Client) (m : Mode) → (begin f64 w c).1 ≡ some m → Begins w c m
  unfolding begin
  begin_needs w c m e = ground arith

  begin_asks :
      (w : Wish) (c : Client) (m : Mode) → Begins w c m → begin f64 w c ≡ (asked c m, some m)
  unfolding begin
  begin_asks w c m (p, q, r, s) = ground arith

  -- `begin` asks for a mode exactly when nothing is pending, the phone is ready, the wish resolves to
  -- the mode and the mode is not the one applied; and exactly where it makes the mode the pending one,
  -- not staged, with no problem and the first check made, and changes nothing else.
  pub begin_iff :
      (w : Wish) (c : Client) (m : Mode)
      → (((begin f64 w c).1 ≡ some m) ↔ Begins w c m)
        × (((begin f64 w c).1 ≡ some m) ↔ (begin f64 w c ≡ (asked c m, some m)))
  begin_iff w c m = (
    (begin_needs w c m, λ b. ap (λ (r : Client × Option Mode). r.1) (begin_asks w c m b)),
    (λ e. begin_asks w c m (begin_needs w c m e), ap (λ (r : Client × Option Mode). r.1)),
  )

  begin_pending :
      (w : Wish) (c : Client) (m : Mode)
      → (begin f64 w c).0.pending ≡ some m
      → (c.pending ≡ some m) ⊎ (resolve_wish f64 c w ≡ some m)
  unfolding begin
  begin_pending w c m e = ground arith

  begin_rest :
      (w : Wish) (c : Client)
      → Inv c
      → ((begin f64 w c).0.staged ≡ true → is_none (begin f64 w c).0.pending ≡ false)
        × (is_none (begin f64 w c).0.pending ≡ false → (begin f64 w c).0.initial_checked ≡ true)
  unfolding begin
  begin_rest w c v =
      let s = v.staged_pending in
      let k = v.checked_pending in (λ e. ground (arith, s, k), λ e. ground (arith, s, k))

  begin-Inv : (w : Wish) (c : Client) → Inv c → Inv (begin f64 w c).0
  begin-Inv w c v =
      let (s, k) = begin_rest w c v in
      record {
        usable_pending = λ m e. elim (begin_pending w c m e) [
          | inl p ↦ v.usable_pending m p
          | inr r ↦ resolve_wish-usable c w m r
        ];
        staged_pending = s;
        checked_pending = k;
      }

  store-Inv : (p : ℕ) (modes : List Mode) (c : Client) → Inv c → Inv (store p modes c)
  unfolding store
  store-Inv p modes c v = record {
    usable_pending = v.usable_pending;
    staged_pending = v.staged_pending;
    checked_pending = v.checked_pending;
  }

  first_apply-Inv : (c : Client) → Inv c → Inv (first_apply f64 c).0
  unfolding first_apply
  first_apply-Inv c v =
      let c' : Client = record c { initial_checked = true } in
      let c'' : Client = record c' { migrated_to_auto = true; initial_wish = auto } in
      let v' : Inv c' = record {
        usable_pending = v.usable_pending;
        staged_pending = v.staged_pending;
        checked_pending = λ _. refl;
      } in
      let v'' : Inv c'' = record {
        usable_pending = v.usable_pending;
        staged_pending = v.staged_pending;
        checked_pending = λ _. refl;
      } in
      elim (Bool-cases (not (is_none (resolve_wish f64 c' c'.initial_wish)))) [
        | inl e ↦ rw e (begin-Inv c'.initial_wish c' v')
        | inr e ↦ rw e (begin-Inv auto c'' v'')
      ]

  advertise-Inv : (p : ℕ) (modes : List Mode) (c : Client) → Inv c → Inv (advertise f64 p modes c).0
  unfolding advertise
  advertise-Inv p modes c v =
      let c' = store p modes c in
      let v' = store-Inv p modes c v in
      elim (Bool-cases (not (ready c') || c'.initial_checked)) [
        | inl e ↦ rw e v'
        | inr e ↦ rw e (first_apply-Inv c' v')
      ]

  -- Every call keeps the invariant.
  answer-Inv : (call : Call) (c : Client) → Inv c → Inv (answer call c).0
  unfolding answer
  answer-Inv (advertises p modes) c v = advertise-Inv p modes c v
  answer-Inv (begins w) c v = begin-Inv w c v
  answer-Inv (progresses b) c v =
      unfold progress in
      record {
        usable_pending = λ m e. v.usable_pending m (ground arith);
        staged_pending = λ e. ground (arith, v.staged_pending);
        checked_pending = λ e. ground (arith, v.checked_pending);
      }
  answer-Inv (confirms size) c v =
      unfold confirmed in
      record {
        usable_pending = λ m e. absurd (ground arith);
        staged_pending = λ e. absurd (ground arith);
        checked_pending = λ e. absurd (ground arith);
      }
  answer-Inv (fails reason) c v =
      unfold failed in
      record { usable_pending = λ m e. cc; staged_pending = λ e. cc; checked_pending = λ e. cc }
  answer-Inv disconnects c v =
      unfold disconnected in
      record { usable_pending = λ m e. cc; staged_pending = λ e. cc; checked_pending = λ e. cc }

  -- The client after a list of calls.
  unfoldable pub after : List Call → Client → Client
  unfolding answer
  after [] c = c
  after (call ∷ rest) c = after rest (answer call c).0

  after-Inv : (calls : List Call) (c : Client) → Inv c → Inv (after calls c)
  unfolding after
  after-Inv [] c v = v
  after-Inv (call ∷ rest) c v = after-Inv rest (answer call c).0 (answer-Inv call c v)

  -- Whatever calls a new client has seen, a mode that is pending is usable, and a client that waits
  -- for the user has one pending.
  pub pending_usable :
      (w : Wish) (calls : List Call) (m : Mode)
      → (after calls (new w)).pending ≡ some m
      → (usable m ≡ true)
  pending_usable w calls m e = (after-Inv calls (new w) (new-Inv w)).usable_pending m e

  first_apply_checked : (c : Client) → (first_apply f64 c).0.initial_checked ≡ true
  unfolding first_apply begin
  first_apply_checked c = ground arith

  -- Once the first check is made, it stays made.
  answer_checked :
      (call : Call) (c : Client)
      → c.initial_checked ≡ true
      → (answer call c).0.initial_checked ≡ true
  unfolding answer
  answer_checked (advertises p modes) c k =
      unfold advertise store in ground (arith, first_apply_checked (store p modes c))
  answer_checked (begins w) c k = unfold begin in ground arith
  answer_checked (progresses b) c k = unfold progress in ground arith
  answer_checked (confirms size) c k = unfold confirmed in ground arith
  answer_checked (fails reason) c k = unfold failed in k
  answer_checked disconnects c k = unfold disconnected in k

  after_checked :
      (calls : List Call) (c : Client)
      → c.initial_checked ≡ true
      → (after calls c).initial_checked ≡ true
  unfolding after
  after_checked [] c k = k
  after_checked (call ∷ rest) c k = after_checked rest (answer call c).0 (answer_checked call c k)

  advertise_checks :
      (p : ℕ) (modes : List Mode) (c : Client) (m : Mode)
      → (advertise f64 p modes c).1 ≡ some m
      → (c.initial_checked ≡ false) × ((advertise f64 p modes c).0.initial_checked ≡ true)
  unfolding advertise store
  advertise_checks p modes c m e = ground (arith, first_apply_checked (store p modes c))

  -- An advertisement asks for a mode at most once in the life of a client: after one that did, and
  -- any further calls, no advertisement asks for another.
  pub advertise_once :
      (p q : ℕ) (modes more : List Mode) (c : Client) (m : Mode) (calls : List Call)
      → (advertise f64 p modes c).1 ≡ some m
      → (advertise f64 q more (after calls (advertise f64 p modes c).0)).1 ≡ none
  advertise_once p q modes more c m calls e =
      let k = after_checked calls (advertise f64 p modes c).0 (advertise_checks p modes c m e).1 in
      unfold advertise store in ground (arith, k)

-- `confirmed` answers true exactly if the confirmed size is that of the pending mode. The size is
-- applied then and no problem is left; otherwise what was applied stays and the problem is set.
-- Nothing is pending or staged afterwards.
pub confirmed_exact :
    (size : Size) (c : Client)
    → ((confirmed size c).1 ≡ awaits c.pending size)
      × ((confirmed size c).0.applied ≡ (if awaits c.pending size then some size else c.applied))
      × (is_none (confirmed size c).0.problem ≡ awaits c.pending size)
      × ((confirmed size c).0.pending ≡ none)
      × ((confirmed size c).0.staged ≡ false)
unfolding confirmed
confirmed_exact size c = ground arith
