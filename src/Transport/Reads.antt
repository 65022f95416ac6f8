-- ===== src/Transport/Reads.antt =====
-- `read_exact_until` and `receive_until` of host-rs/src/transport.rs.
pub mod Taken
use mobile_webcam_bridge.Prelude.{
  ℕ, zero, suc, ◌+◌, ◌-◌, ◌≤◌, ◌<◌, ◌≡◌, ◌∙◌, refl, sym, ap, subst, Bool, true, false, ◌&&◌, List,
  [], ◌∷◌, ◌++◌, ltb, ◌==◌, length, take, drop, arith, length-drop, length-take, length-append,
  append-injective, if_both,
}
use mobile_webcam_bridge.Prelude.Outcome.{Result, ok, err, panic, ◌>>=◌}
use mobile_webcam_bridge.Wire.Kinds.{header_size}
use mobile_webcam_bridge.Wire.Header.{IsHeader, Frame, decode, encode, validate}
use mobile_webcam_bridge.Wire.Header.Frames.{validate-sends}
use mobile_webcam_bridge.Transport.{
  Remaining, Answer, counted, fails, Turn, Stream, Run, waiting, ended, and_then, interrupts, least,
  on_bytes, on_read, set_deadline, read_exact, receive,
}
use mathlib.Core.List.{append_assoc}
use mobile_webcam_bridge.Transport.Reads.Taken.{
  Ends, and_then-Ends, ended-Ends, Exact, Again, least_le, read_exact-Exact,
}

abbrev pub is_ok {ℓ} : {A : Type ℓ} → Result A → Bool
is_ok (ok a) = true
is_ok _ = false

-- The answer lets the loop go on.
abbrev pub goes_on : Answer → Bool
goes_on (counted n) = ltb 0 n
goes_on (fails e) = interrupts e

abbrev pub weight : Answer → ℕ
weight (counted n) = 1
weight (fails e) = 0

-- How many turns move bytes.
abbrev pub moves : List Turn → ℕ
moves [] = 0
moves (t ∷ turns) = weight t.answer + moves turns

weight_le : (a : Answer) → weight a ≤ 1
weight_le (counted n) = omega arith
weight_le (fails e) = omega arith

module _ (remaining : Remaining) (deadline : ℕ) where
  -- Time is left at each turn, the timeouts are set, and the stream moves a byte at least or is
  -- interrupted.
  abbrev pub steady : List Turn → Bool
  steady [] = true
  steady (t ∷ turns) = is_ok (set_deadline remaining deadline t) && goes_on t.answer && steady turns

  -- The read ended well and used few of the turns that move.
  abbrev Completes : ℕ → ℕ → Run (List ℕ) → Type 0
  Completes need given waiting = ⊥
  Completes need given (ended (err e) turns t) = ⊥
  Completes need given (ended panic turns t) = ⊥
  Completes need given (ended (ok bytes) turns t) =
      (steady turns ≡ true) × (given ≤ moves turns + need + 1)

  Completes-mono :
      (a b given m : ℕ) (r : Run (List ℕ))
      → a ≤ b
      → given ≤ suc m
      → suc a ≤ b
      → Completes a m r
      → Completes b given r
  Completes-mono a b given m (ended (ok bytes) turns t) l e f (x, y) = (x, omega arith)
  Completes-mono a b given m waiting l e f x = absurd x
  Completes-mono a b given m (ended panic turns t) l e f x = absurd x
  Completes-mono a b given m (ended (err g) turns t) l e f x = absurd x

  on_bytes-Completes :
      (again : Again) (need given : ℕ) (got : List ℕ) (turns : List Turn) (s : Stream)
      (bytes : List ℕ)
      → 0 < length bytes
      → length bytes ≤ need
      → ((more : List ℕ)
          → Completes (need - length bytes) given (
              again
                (need - length bytes)
                more
                (record s { incoming = drop (length bytes) s.incoming })))
      → Completes need (1 + given) (on_bytes again need got turns s bytes)
  on_bytes-Completes again need given got turns s [] a l x = absurd (omega arith)
  on_bytes-Completes again need given got turns s (b ∷ bs) a l x =
      Completes-mono (need - length (b ∷ bs)) need (1 + given) given _ (omega arith) (omega arith)
        (omega arith) (x (got ++ (b ∷ bs)))

  done-Completes :
      (left : Result ℕ) (timeouts : Result (Unit {0})) (answer : Answer) (turns : List Turn)
      (got : List ℕ) (s : Stream)
      → is_ok (left >>= λ l. timeouts) ≡ true
      → steady turns ≡ true
      → Completes 0 (weight answer + moves turns) (ended (left >>= λ l. ok got) turns s)
  done-Completes (ok l) timeouts answer turns got s a b = (b, omega (arith, weight_le answer))
  done-Completes (err e) timeouts answer turns got s a b = absurd (ground arith)
  done-Completes panic timeouts answer turns got s a b = absurd (ground arith)

  on_read-Completes :
      (again : Again) (need : ℕ) (got : List ℕ) (turns : List Turn) (s : Stream)
      (set : Result (Unit {0})) (answer : Answer)
      → ((k : ℕ) (more : List ℕ) (t : Stream)
          → k < moves turns
          → k ≤ length t.incoming
          → Completes k (moves turns) (again k more t))
      → is_ok set ≡ true
      → goes_on answer ≡ true
      → 0 < need
      → need < weight answer + moves turns
      → need ≤ length s.incoming
      → Completes need (weight answer + moves turns) (on_read again need got turns s set answer)
  on_read-Completes again need got turns s (err e) answer x a g p m l = absurd (ground arith)
  on_read-Completes again need got turns s panic answer x a g p m l = absurd (ground arith)
  on_read-Completes again need got turns s (ok done) (fails e) x a g p m l =
      if_both (Completes need (0 + moves turns)) (interrupts e) _ _
        (λ i.
          subst (λ g. Completes need g (again need got s)) (omega arith)
            (x need got s (omega arith) l))
        (λ i. absurd (ground arith))
  on_read-Completes again need got turns s (ok done) (counted n) x a g p m l =
      let k : ℕ = least n need in
      let bytes : List ℕ = take k s.incoming in
      let positive : 0 < n = ground arith in
      let some_bytes : 0 < k = ground arith in
      let size : length bytes ≡ k =
        omega (arith, length-take k s.incoming, (least_le n need).1, l) in
      on_bytes-Completes again need (moves turns) got turns s bytes
        (omega (arith, size, some_bytes)) (omega (arith, size, (least_le n need).1))
        (λ more.
          x _ more _ (omega (arith, size, some_bytes, m))
            (omega (arith, length-drop (length bytes) s.incoming, l)))

  read_exact-Completes :
      (turns : List Turn) (need : ℕ) (got : List ℕ) (s : Stream)
      → steady turns ≡ true
      → need < moves turns
      → need ≤ length s.incoming
      → Completes need (moves turns) (read_exact remaining deadline turns need got s)
  unfolding read_exact
  read_exact-Completes [] need got s a b c = absurd (omega arith)
  read_exact-Completes (t ∷ turns) need got s a b c =
      let set : is_ok (set_deadline remaining deadline t) ≡ true = ground arith in
      let goes : goes_on t.answer ≡ true = ground arith in
      let rest : steady turns ≡ true = ground arith in
      if_both (Completes need (moves (t ∷ turns))) (need == 0) _ _
        (λ e.
          let zero_need : need ≡ 0 = ground arith in
          subst
            (λ k.
              Completes k (moves (t ∷ turns))
                (ended (remaining deadline t.now >>= λ l. ok got) turns s))
            (sym zero_need)
            (done-Completes (remaining deadline t.now) t.timeouts t.answer turns got s set rest))
        (λ e.
          on_read-Completes (read_exact remaining deadline turns) need got turns s
            (set_deadline remaining deadline t) t.answer
            (λ k more u. read_exact-Completes turns k more u rest) set goes (ground arith) b c)

  Completes-ended :
      (need given : ℕ) (r : Run (List ℕ))
      → Completes need given r
      → (bytes : List ℕ) × (turns : List Turn) × (t : Stream) × (r ≡ ended (ok bytes) turns t)
        × (steady turns ≡ true)
        × (given ≤ moves turns + need + 1)
  Completes-ended need given (ended (ok bytes) turns t) (x, y) = (bytes, turns, t, refl, x, y)
  Completes-ended need given waiting x = absurd x
  Completes-ended need given (ended panic turns t) x = absurd x
  Completes-ended need given (ended (err g) turns t) x = absurd x

  -- With turns enough, a read gets the bytes at the head of the stream.
  pub read_exact-prefix :
      (turns : List Turn) (bytes rest : List ℕ) (s : Stream)
      → steady turns ≡ true
      → length bytes < moves turns
      → s.incoming ≡ bytes ++ rest
      → (left : List Turn) × (read_exact remaining deadline turns (length bytes) [] s
          ≡ ended (ok bytes) left (record s { incoming = rest }))
        × (steady left ≡ true)
        × (moves turns ≤ moves left + length bytes + 1)
  read_exact-prefix turns bytes rest s a b e =
      let long : length bytes ≤ length s.incoming =
        omega (arith, ap length e, length-append bytes rest) in
      let (got, left, t, r, st, mv) =
        Completes-ended (length bytes) (moves turns) _
          (read_exact-Completes turns (length bytes) [] s a b long) in
      let x : Exact (length bytes) [] s (ended (ok got) left t) =
        subst (Exact (length bytes) [] s) r
          (read_exact-Exact remaining deadline turns (length bytes) [] s) in
      let (same_bytes, same_rest) =
        append-injective got bytes t.incoming rest (omega (arith, x.1)) (x.0 ∙ e) in
      (left, r ∙ cc (same_bytes, same_rest, x.2), st, mv)

  -- A frame that validates, as its header and its payload on the wire, is received whole however the
  -- stream cuts it into reads and whatever reads are interrupted, where time is left at each turn and
  -- there are turns enough; what comes after it stays in the stream.
  pub receive_whole :
      (f : Frame) (bytes rest : List ℕ) (turns : List Turn) (s : Stream)
      → IsHeader f.header
      → validate f ≡ ok tt
      → encode f.header ≡ ok bytes
      → s.incoming ≡ bytes ++ (f.payload ++ rest)
      → steady turns ≡ true
      → header_size + length f.payload + 2 ≤ moves turns
      → (left : List Turn) × (receive remaining deadline turns s
          ≡ ended (ok f) left (record s { incoming = rest }))
  unfolding receive
  receive_whole f bytes rest turns s v w e i a b =
      let (bytes', e', size, dec, pl) = validate-sends f v w in
      let same_bytes : bytes' ≡ bytes = ground (arith, e, e') in
      let size' : length bytes ≡ 24 = ap length (sym same_bytes) ∙ size in
      let (left, r, st, mv) =
        read_exact-prefix turns bytes (f.payload ++ rest) s a (omega (arith, size')) i in
      let t : Stream = record s { incoming = f.payload ++ rest } in
      let (left', r', st', mv') =
        read_exact-prefix left f.payload rest t st (omega (arith, size')) refl in
      let r0 : read_exact remaining deadline turns 24 [] s ≡ ended (ok bytes) left t =
        subst (λ n. read_exact remaining deadline turns n [] s ≡ ended (ok bytes) left t) size' r in
      let dec' : decode bytes ≡ ok f.header = ap decode (sym same_bytes) ∙ dec in
      let r1 : read_exact remaining deadline left f.header.payload_len [] t
          ≡ ended (ok f.payload) left' (record s { incoming = rest }) =
        subst
          (λ n.
            read_exact remaining deadline left n [] t
            ≡ ended (ok f.payload) left' (record s { incoming = rest }))
          (sym pl) r' in
      (left', rw (r0, dec', r1) refl)
