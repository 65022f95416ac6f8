-- ===== src/Transport/Sends.antt =====
-- `send_until` of host-rs/src/transport.rs, alone and with `receive_until` at the other end.
use mobile_webcam_bridge.Prelude.{
  ℕ, suc, ◌+◌, ◌≤◌, ◌<◌, ◌≡◌, ◌∙◌, refl, sym, ap, subst, Bool, true, false, ◌&&◌, List, [], ◌∷◌,
  ◌++◌, ltb, ◌==◌, length, take, drop, arith, take-append-drop, length-drop, if_both,
}
use mobile_webcam_bridge.Prelude.Outcome.{Result, ok, err, panic, ◌>>=◌}
use mobile_webcam_bridge.Wire.Kinds.{header_size}
use mobile_webcam_bridge.Wire.Header.{IsHeader, Frame, encode, validate}
use mobile_webcam_bridge.Wire.Header.Frames.{validate-sends}
use mobile_webcam_bridge.Transport.{
  Remaining, Answer, counted, fails, Turn, Stream, Run, waiting, ended, interrupts, on_write,
  set_deadline, write_all, send, flush, flushed, receive,
}
use mobile_webcam_bridge.Transport.Reads.{steady, moves, is_ok, receive_whole}
use mobile_webcam_bridge.Transport.Reads.Taken.{Ends}
use mathlib.Core.List.{append_assoc, append-nil}

abbrev pub transfers : Answer → Bool
transfers (counted n) = ltb 0 n
transfers (fails e) = false

-- The bytes that a part of `send_until` wrote, where it ended well.
abbrev pub Written : List ℕ → Stream → Run (Unit {0}) → Type 0
Written bytes s r =
    Ends (λ done t. (t.outgoing ≡ s.outgoing ++ bytes) × (t.incoming ≡ s.incoming)) r

abbrev Again : Type 0
Again = List ℕ → Stream → Run (Unit {0})

Written-moved :
    (bytes more : List ℕ) (s t : Stream) (r : Run (Unit {0}))
    → s.outgoing ++ bytes ≡ t.outgoing ++ more
    → t.incoming ≡ s.incoming
    → Written more t r
    → Written bytes s r
Written-moved bytes more s t waiting e i x = tt
Written-moved bytes more s t (ended (err f) turns u) e i x = tt
Written-moved bytes more s t (ended panic turns u) e i x = tt
Written-moved bytes more s t (ended (ok d) turns u) e i x = (x.0 ∙ sym e, x.1 ∙ i)

on_write-Written :
    (again : Again) (bytes : List ℕ) (turns : List Turn) (s : Stream) (set : Result (Unit {0}))
    (answer : Answer)
    → ((more : List ℕ) (t : Stream) → Written more t (again more t))
    → Written bytes s (on_write again bytes turns s set answer)
on_write-Written again bytes turns s (err e) answer x = tt
on_write-Written again bytes turns s panic answer x = tt
on_write-Written again bytes turns s (ok done) (fails e) x =
    if_both (Written bytes s) (interrupts e) _ _ (λ i. x bytes s) (λ i. tt)
on_write-Written again bytes turns s (ok done) (counted n) x =
    let t : Stream = record s { outgoing = s.outgoing ++ take n bytes } in
    if_both (Written bytes s) (n == 0) _ _ (λ i. tt)
      (λ i.
        Written-moved bytes (drop n bytes) s t _
          (ap (λ l. s.outgoing ++ l) (sym (take-append-drop n bytes))
            ∙ sym (append_assoc s.outgoing (take n bytes) (drop n bytes)))
          refl (x (drop n bytes) t))

module _ (remaining : Remaining) (deadline : ℕ) where
  pub write_all-Written :
      (turns : List Turn) (bytes : List ℕ) (s : Stream)
      → Written bytes s (write_all remaining deadline turns bytes s)
  unfolding write_all
  write_all-Written [] [] s = (sym (append-nil s.outgoing), refl)
  write_all-Written [] (b ∷ bs) s = tt
  write_all-Written (t ∷ turns) [] s = (sym (append-nil s.outgoing), refl)
  write_all-Written (t ∷ turns) (b ∷ bs) s =
      on_write-Written (write_all remaining deadline turns) (b ∷ bs) turns s
        (set_deadline remaining deadline t) t.answer (write_all-Written turns)

  -- The stream transfers a byte at least at each turn, and time is left.
  abbrev pub smooth : List Turn → Bool
  smooth [] = true
  smooth (t ∷ turns) =
      is_ok (set_deadline remaining deadline t) && transfers t.answer && smooth turns

  abbrev Completes : ℕ → ℕ → Run (Unit {0}) → Type 0
  Completes need given waiting = ⊥
  Completes need given (ended (err e) turns t) = ⊥
  Completes need given (ended panic turns t) = ⊥
  Completes need given (ended (ok done) turns t) =
      (smooth turns ≡ true) × (given ≤ length turns + need)

  Completes-mono :
      (a b given m : ℕ) (r : Run (Unit {0}))
      → suc a ≤ b
      → given ≤ suc m
      → Completes a m r
      → Completes b given r
  Completes-mono a b given m (ended (ok done) turns t) l e (x, y) = (x, omega arith)
  Completes-mono a b given m waiting l e x = absurd x
  Completes-mono a b given m (ended panic turns t) l e x = absurd x
  Completes-mono a b given m (ended (err g) turns t) l e x = absurd x

  on_write-Completes :
      (again : Again) (b : ℕ) (bs : List ℕ) (turns : List Turn) (s : Stream)
      (set : Result (Unit {0})) (answer : Answer)
      → ((more : List ℕ) (t : Stream)
          → length more ≤ length turns
          → Completes (length more) (length turns) (again more t))
      → is_ok set ≡ true
      → transfers answer ≡ true
      → length (b ∷ bs) ≤ suc (length turns)
      → Completes
          (length (b ∷ bs))
          (suc (length turns))
          (on_write again (b ∷ bs) turns s set answer)
  on_write-Completes again b bs turns s (err e) answer x a g m = absurd (ground arith)
  on_write-Completes again b bs turns s panic answer x a g m = absurd (ground arith)
  on_write-Completes again b bs turns s (ok done) (fails e) x a g m = absurd (ground arith)
  on_write-Completes again b bs turns s (ok done) (counted n) x a g m =
      let positive : 0 < n = ground arith in
      let rest = length-drop n (b ∷ bs) in
      if_both (Completes (length (b ∷ bs)) (suc (length turns))) (n == 0) _ _
        (λ i. absurd (ground arith))
        (λ i.
          Completes-mono (length (drop n (b ∷ bs))) (length (b ∷ bs)) (suc (length turns))
            (length turns) _ (omega (arith, rest, positive)) (omega arith)
            (x (drop n (b ∷ bs)) _ (omega (arith, rest, positive, m))))

  write_all-Completes :
      (turns : List Turn) (bytes : List ℕ) (s : Stream)
      → smooth turns ≡ true
      → length bytes ≤ length turns
      → Completes (length bytes) (length turns) (write_all remaining deadline turns bytes s)
  unfolding write_all
  write_all-Completes [] [] s a l = (refl, omega arith)
  write_all-Completes [] (b ∷ bs) s a l = absurd (omega arith)
  write_all-Completes (t ∷ turns) [] s a l = (a, omega arith)
  write_all-Completes (t ∷ turns) (b ∷ bs) s a l =
      on_write-Completes (write_all remaining deadline turns) b bs turns s
        (set_deadline remaining deadline t) t.answer
        (λ more u. write_all-Completes turns more u (ground arith)) (ground arith) (ground arith) l

  Completes-ended :
      (need given : ℕ) (r : Run (Unit {0}))
      → Completes need given r
      → (turns : List Turn) × (t : Stream) × (r ≡ ended (ok tt) turns t)
        × (smooth turns ≡ true)
        × (given ≤ length turns + need)
  Completes-ended need given (ended (ok tt) turns t) (x, y) = (turns, t, refl, x, y)
  Completes-ended need given waiting x = absurd x
  Completes-ended need given (ended panic turns t) x = absurd x
  Completes-ended need given (ended (err g) turns t) x = absurd x

  -- With turns enough, all bytes are written.
  write_all_whole :
      (turns : List Turn) (bytes : List ℕ) (s : Stream)
      → smooth turns ≡ true
      → length bytes ≤ length turns
      → (left : List Turn) × (write_all remaining deadline turns bytes s
          ≡ ended (ok tt) left (record s { outgoing = s.outgoing ++ bytes }))
        × (smooth left ≡ true)
        × (length turns ≤ length left + length bytes)
  write_all_whole turns bytes s a l =
      let (left, t, r, sm, n) =
        Completes-ended (length bytes) (length turns) _ (write_all-Completes turns bytes s a l) in
      let x : Written bytes s (ended (ok tt) left t) =
        subst (Written bytes s) r (write_all-Written turns bytes s) in
      let p : t.outgoing ≡ s.outgoing ++ bytes = x.0 in
      let q : t.incoming ≡ s.incoming = x.1 in (left, r ∙ cc (p, q), sm, n)

  abbrev settled : Result (Unit {0})
  settled = ok tt

  left_ok :
      (left : Result ℕ) (timeouts : Result (Unit {0}))
      → is_ok (left >>= λ l. timeouts) ≡ true
      → ((left >>= λ l. timeouts) ≡ settled) × ((left >>= λ l. settled) ≡ settled)
  left_ok (ok l) (ok tt) e = (refl, refl)
  left_ok (ok l) (err f) e = absurd (ground arith)
  left_ok (ok l) panic e = absurd (ground arith)
  left_ok (err f) timeouts e = absurd (ground arith)
  left_ok panic timeouts e = absurd (ground arith)

  flushed_ok : (answer : Answer) → transfers answer ≡ true → flushed answer ≡ settled
  flushed_ok (counted n) e = refl
  flushed_ok (fails e) f = absurd (ground arith)

  flush_done :
      (turns : List Turn) (s : Stream)
      → smooth turns ≡ true
      → 2 ≤ length turns
      → (left : List Turn) × (flush remaining deadline turns s ≡ ended (ok tt) left s)
  flush_done [] s a l = absurd (omega arith)
  flush_done (t ∷ []) s a l = absurd (omega arith)
  flush_done (t ∷ u ∷ turns) s a l =
      let one : is_ok (set_deadline remaining deadline t) ≡ true = ground arith in
      let two : is_ok (set_deadline remaining deadline u) ≡ true = ground arith in
      let flushes : transfers t.answer ≡ true = ground arith in
      let e = (left_ok (remaining deadline t.now) t.timeouts one).0 in
      let f = (left_ok (remaining deadline u.now) u.timeouts two).1 in
      (turns, rw (e, f, flushed_ok t.answer flushes) refl)

  -- A frame that validates is sent whole, its header before its payload, where the stream takes a byte at
  -- least at each turn, time is left and there are turns enough.
  send_whole :
      (f : Frame) (bytes : List ℕ) (turns : List Turn) (s : Stream)
      → validate f ≡ ok tt
      → encode f.header ≡ ok bytes
      → smooth turns ≡ true
      → length bytes + length f.payload + 2 ≤ length turns
      → (left : List Turn) × (send remaining deadline f turns s
          ≡ ended (ok tt) left (record s { outgoing = s.outgoing ++ (bytes ++ f.payload) }))
  unfolding send
  send_whole f bytes turns s w e a l =
      let (left, r, sm, n) = write_all_whole turns bytes s a (omega arith) in
      let t : Stream = record s { outgoing = s.outgoing ++ bytes } in
      let (left', r', sm', n') = write_all_whole left f.payload t sm (omega arith) in
      let (last, z) =
        flush_done left' (record s { outgoing = (s.outgoing ++ bytes) ++ f.payload }) sm'
          (omega arith) in
      (last, rw (w, e, r, r', z, append_assoc s.outgoing bytes f.payload) refl)

  -- What one side sends the other receives: a frame that validates is sent, and a receiver whose stream
  -- holds the bytes that were written gets the same frame and leaves what comes after it, however the
  -- two streams cut the bytes, where both have time left at each turn and turns enough.
  pub receive-send :
      (f : Frame) (turns theirs : List Turn) (s : Stream)
      → IsHeader f.header
      → validate f ≡ ok tt
      → smooth turns ≡ true
      → header_size + length f.payload + 2 ≤ length turns
      → steady remaining deadline theirs ≡ true
      → header_size + length f.payload + 2 ≤ moves theirs
      → (bytes : List ℕ) × (left : List Turn) × (send remaining deadline f turns s
          ≡ ended (ok tt) left (record s { outgoing = s.outgoing ++ bytes }))
        × ((rest : List ℕ) (t : Stream)
            → t.incoming ≡ bytes ++ rest
            → (after : List Turn) × (receive remaining deadline theirs t
                ≡ ended (ok f) after (record t { incoming = rest })))
  receive-send f turns theirs s v w a l st m =
      let (bytes, e, size, dec, pl) = validate-sends f v w in
      let (left, r) = send_whole f bytes turns s w e a (omega (arith, size)) in
      (
        bytes ++ f.payload,
        left,
        r,
        λ rest t i.
            receive_whole remaining deadline f bytes rest theirs t v w e
              (i ∙ append_assoc bytes f.payload rest) st m,
      )
