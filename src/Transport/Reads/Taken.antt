-- ===== src/Transport/Reads/Taken.antt =====
-- What `read_exact_until` of host-rs/src/transport.rs takes from the stream.
use mobile_webcam_bridge.Prelude.{
  ℕ, zero, suc, ◌+◌, ◌-◌, ◌≤◌, ◌≡◌, ◌∙◌, refl, sym, ap, List, [], ◌∷◌, ◌++◌, ◌==◌, length, take,
  drop, arith, length-take, length-append, if_both,
}
use mobile_webcam_bridge.Prelude.Outcome.{Result, ok, err, panic, ◌>>=◌}
use mobile_webcam_bridge.Transport.{
  Remaining, Answer, counted, fails, Turn, Stream, Run, waiting, ended, and_then, interrupts, least,
  on_bytes, on_read, set_deadline, read_exact,
}
use mathlib.Core.List.{append_assoc}

-- `P` holds of the result and the stream, where the run has ended well.
abbrev pub Ends : {A : Type 0} → (A → Stream → Type 0) → Run A → Type 0
Ends P waiting = Unit
Ends P (ended (err e) turns t) = Unit
Ends P (ended panic turns t) = Unit
Ends P (ended (ok a) turns t) = P a t

pub and_then-Ends :
    {A B : Type 0} (P : A → Stream → Type 0) (Q : B → Stream → Type 0) (r : Run A)
    (next : A → List Turn → Stream → Run B)
    → Ends P r
    → ((a : A) (turns : List Turn) (t : Stream) → P a t → Ends Q (next a turns t))
    → Ends Q (and_then r next)
and_then-Ends P Q waiting next x n = tt
and_then-Ends P Q (ended (err e) turns t) next x n = tt
and_then-Ends P Q (ended panic turns t) next x n = tt
and_then-Ends P Q (ended (ok a) turns t) next x n = n a turns t x

pub ended-Ends :
    {A : Type 0} (P : A → Stream → Type 0) (r : Result A) (turns : List Turn) (t : Stream)
    → ((a : A) → r ≡ ok a → P a t)
    → Ends P (ended r turns t)
ended-Ends P (ok a) turns t x = x a refl
ended-Ends P (err e) turns t x = tt
ended-Ends P panic turns t x = tt

-- The bytes that a read ended with, where it ended well, are the next ones of the stream, as many as
-- were asked for.
abbrev pub Exact : ℕ → List ℕ → Stream → Run (List ℕ) → Type 0
Exact need got s r =
    Ends
      (λ bytes t.
        (bytes ++ t.incoming ≡ got ++ s.incoming)
        × (length bytes ≡ length got + need)
        × (t.outgoing ≡ s.outgoing))
      r

abbrev pub Again : Type 0
Again = ℕ → List ℕ → Stream → Run (List ℕ)

pub least_le : (a b : ℕ) → (least a b ≤ a) × (least a b ≤ b)
least_le a b = (ground arith, ground arith)

Exact-moved :
    (need k : ℕ) (got more : List ℕ) (s t : Stream) (r : Run (List ℕ))
    → got ++ s.incoming ≡ more ++ t.incoming
    → length got + need ≡ length more + k
    → s.outgoing ≡ t.outgoing
    → Exact k more t r
    → Exact need got s r
Exact-moved need k got more s t waiting e l o x = tt
Exact-moved need k got more s t (ended (err f) turns u) e l o x = tt
Exact-moved need k got more s t (ended panic turns u) e l o x = tt
Exact-moved need k got more s t (ended (ok b) turns u) e l o x =
    (x.0 ∙ sym e, x.1 ∙ sym l, x.2 ∙ sym o)

on_bytes-Exact :
    (again : Again) (need : ℕ) (got : List ℕ) (turns : List Turn) (s : Stream) (bytes : List ℕ)
    → ((k : ℕ) (more : List ℕ) (t : Stream) → Exact k more t (again k more t))
    → bytes ++ drop (length bytes) s.incoming ≡ s.incoming
    → length bytes ≤ need
    → Exact need got s (on_bytes again need got turns s bytes)
on_bytes-Exact again need got turns s [] x e l = tt
on_bytes-Exact again need got turns s (b ∷ bs) x e l =
    let left : Stream = record s { incoming = drop (length (b ∷ bs)) s.incoming } in
    Exact-moved need (need - length (b ∷ bs)) got (got ++ (b ∷ bs)) s left _
      (ap (λ i. got ++ i) (sym e) ∙ sym (append_assoc got (b ∷ bs) left.incoming))
      (ground (arith, length-append got (b ∷ bs))) refl (x _ _ left)

-- A prefix, and the rest.
take-drop-length : (n : ℕ) (l : List ℕ) → take n l ++ drop (length (take n l)) l ≡ l
take-drop-length zero l = refl
take-drop-length (suc n) [] = refl
take-drop-length (suc n) (x ∷ l) = ap (λ t. x ∷ t) (take-drop-length n l)

on_read-Exact :
    (again : Again) (need : ℕ) (got : List ℕ) (turns : List Turn) (s : Stream)
    (set : Result (Unit {0})) (answer : Answer)
    → ((k : ℕ) (more : List ℕ) (t : Stream) → Exact k more t (again k more t))
    → Exact need got s (on_read again need got turns s set answer)
on_read-Exact again need got turns s (err e) answer x = tt
on_read-Exact again need got turns s panic answer x = tt
on_read-Exact again need got turns s (ok done) (fails e) x =
    if_both (Exact need got s) (interrupts e) _ _ (λ i. x need got s) (λ i. tt)
on_read-Exact again need got turns s (ok done) (counted n) x =
    on_bytes-Exact again need got turns s (take (least n need) s.incoming) x
      (take-drop-length (least n need) s.incoming)
      (omega (arith, length-take (least n need) s.incoming, (least_le n need).1))

module _ (remaining : Remaining) (deadline : ℕ) where
  done-Exact :
      (need : ℕ) (got : List ℕ) (s : Stream) (left : Result ℕ) (turns : List Turn)
      → need ≡ 0
      → Exact need got s (ended (left >>= λ l. ok got) turns s)
  done-Exact need got s panic turns e = tt
  done-Exact need got s (err f) turns e = tt
  done-Exact need got s (ok l) turns e = (refl, omega arith, refl)

  pub read_exact-Exact :
      (turns : List Turn) (need : ℕ) (got : List ℕ) (s : Stream)
      → Exact need got s (read_exact remaining deadline turns need got s)
  unfolding read_exact
  read_exact-Exact [] need got s = tt
  read_exact-Exact (t ∷ turns) need got s =
      if_both (Exact need got s) (need == 0) _ _
        (λ e. done-Exact need got s (remaining deadline t.now) turns (ground arith))
        (λ e.
          on_read-Exact (read_exact remaining deadline turns) need got turns s
            (set_deadline remaining deadline t) t.answer (read_exact-Exact turns))
