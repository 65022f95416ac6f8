-- ===== src/Transport.antt =====
-- host-rs/src/transport.rs: one frame sent, one received, and the pairing, over a byte stream. The
-- clock, the socket and the security layer are a list of turns; `remaining` is that of the crate
-- io-budget.
pub mod Reads
pub mod Sends
pub mod Pairs
mod Tests
use mobile_webcam_bridge.Prelude.{
  ℕ, ◌+◌, ◌-◌, Bool, true, false, not, ◌&&◌, ◌||◌, List, [], ◌∷◌, ◌++◌, ◌==◌, if◌then◌else◌, length,
  take, drop, leb,
}
use mobile_webcam_bridge.Prelude.Outcome.{
  Error, error, ErrorKind, interrupted, unexpected_eof, boxed, Result, ok, err, panic, ◌>>=◌, ◌>>◌,
}
use mobile_webcam_bridge.Wire.Kinds.{header_size, hello, hello_ack}
use mobile_webcam_bridge.Wire.Header.{Header, Frame, decode, encode, new_frame, validate}
use Prim.Native.String.{String}

-- How much time is left to a deadline, or that none is.
abbrev pub Remaining : Type 0
Remaining = ℕ → ℕ → Result ℕ

-- A read or write transfers so many bytes at most, or fails.
pub data Answer : Type 0 where
  counted : ℕ → Answer
  fails : Error → Answer

-- A look at the clock, what setting the socket's timeouts answers, and what the stream answers.
pub record Turn : Type 0 where
  pub now : ℕ
  pub timeouts : Result (Unit {0})
  pub answer : Answer

-- The bytes that are still to be read, and those that were written.
pub record Stream : Type 0 where
  pub incoming : List ℕ
  pub outgoing : List ℕ

-- A call waits for the next turn, or it has ended.
pub data Run (A : Type 0) : Type 0 where
  waiting : Run A
  ended : Result A → List Turn → Stream → Run A

-- The next part of a method, after a part that may return early.
abbrev pub and_then : {A B : Type 0} → Run A → (A → List Turn → Stream → Run B) → Run B
and_then waiting next = waiting
and_then (ended (ok a) turns s) next = next a turns s
and_then (ended (err e) turns s) next = ended (err e) turns s
and_then (ended panic turns s) next = ended panic turns s

abbrev pub interrupts : Error → Bool
interrupts (error interrupted message) = true
interrupts _ = false

abbrev pub eof : Error
eof = error unexpected_eof "peer disconnected"

abbrev pub text : String → Error
text message = error boxed message

abbrev pub least : ℕ → ℕ → ℕ
least a b = if leb a b then a else b

-- `Ok(0)`, or so many bytes.
abbrev pub on_bytes :
    (ℕ → List ℕ → Stream → Run (List ℕ)) → ℕ → List ℕ → List Turn → Stream → List ℕ → Run (List ℕ)
on_bytes again need got turns s [] = ended (err eof) turns s
on_bytes again need got turns s (b ∷ bs) =
    again (need - length (b ∷ bs)) (got ++ (b ∷ bs))
      (record s { incoming = drop (length (b ∷ bs)) s.incoming })

abbrev pub on_read :
    (ℕ → List ℕ → Stream → Run (List ℕ))
    → ℕ
    → List ℕ
    → List Turn
    → Stream
    → Result (Unit {0})
    → Answer
    → Run (List ℕ)
on_read again need got turns s (err e) answer = ended (err e) turns s
on_read again need got turns s panic answer = ended panic turns s
on_read again need got turns s (ok done) (counted n) =
    on_bytes again need got turns s (take (least n need) s.incoming)
on_read again need got turns s (ok done) (fails e) =
    if interrupts e then again need got s else ended (err e) turns s

abbrev pub on_write :
    (List ℕ → Stream → Run (Unit {0}))
    → List ℕ
    → List Turn
    → Stream
    → Result (Unit {0})
    → Answer
    → Run (Unit {0})
on_write again bytes turns s (err e) answer = ended (err e) turns s
on_write again bytes turns s panic answer = ended panic turns s
on_write again bytes turns s (ok done) (counted n) =
    if n == 0
    then ended (err (text "transport made no write progress")) turns s
    else again (drop n bytes) (record s { outgoing = s.outgoing ++ take n bytes })
on_write again bytes turns s (ok done) (fails e) =
    if interrupts e then again bytes s else ended (err e) turns s

abbrev pub not_authorized : Error
not_authorized = text "Wi-Fi pairing was not authorized"

abbrev pub flushed : Answer → Result (Unit {0})
flushed (counted n) = ok tt
flushed (fails e) = err e

-- What `pair_until` makes of an error of the answer.
abbrev pub refused : {A : Type 0} → Run A → Run A
refused (ended (err (error unexpected_eof message)) turns s) = ended (err not_authorized) turns s
refused run = run

unfoldable pub is_ack : Frame → Bool
is_ack ack = ack.header.kind == hello_ack && ack.header.sequence == 1 && length ack.payload == 0

module _ (remaining : Remaining) (deadline : ℕ) where
  abbrev pub set_deadline : Turn → Result (Unit {0})
  set_deadline t = (remaining deadline t.now >>= λ left. t.timeouts)

  -- `read_exact_until`, with the number of bytes that are still needed and those it has.
  unfoldable pub read_exact : List Turn → ℕ → List ℕ → Stream → Run (List ℕ)
  read_exact [] need got s = waiting
  read_exact (t ∷ turns) need got s =
      let again : ℕ → List ℕ → Stream → Run (List ℕ) = read_exact turns in
      if need == 0
      then ended (remaining deadline t.now >>= λ left. ok got) turns s
      else on_read again need got turns s (set_deadline t) t.answer

  -- `receive_until`
  unfoldable pub receive : List Turn → Stream → Run Frame
  unfolding read_exact
  receive turns s = and_then (read_exact turns header_size [] s) (λ bytes turns' s'.
      and_then (ended (decode bytes) turns' s') (λ header turns'' s''.
        and_then (read_exact turns'' header.payload_len [] s'') (λ payload rest left.
          ended (ok (record { header = header; payload = payload })) rest left)))

  -- The loop of `send_until` for one of its two slices.
  unfoldable pub write_all : List Turn → List ℕ → Stream → Run (Unit {0})
  write_all [] [] s = ended (ok tt) [] s
  write_all [] (b ∷ bs) s = waiting
  write_all (t ∷ turns) [] s = ended (ok tt) (t ∷ turns) s
  write_all (t ∷ turns) (b ∷ bs) s =
      let again : List ℕ → Stream → Run (Unit {0}) = write_all turns in
      on_write again (b ∷ bs) turns s (set_deadline t) t.answer

  -- The end of `send_until`; the last test looks at the clock again.
  abbrev pub flush : List Turn → Stream → Run (Unit {0})
  flush (t ∷ u ∷ turns) s =
      ended (set_deadline t >> (flushed t.answer >> (remaining deadline u.now >>= λ left. ok tt)))
        turns s
  flush _ s = waiting

  -- `send_until`
  unfoldable pub send : Frame → List Turn → Stream → Run (Unit {0})
  unfolding write_all
  send frame turns s =
      and_then (ended (validate frame >> encode frame.header) turns s) (λ header turns' s'.
        and_then (write_all turns' header s') (λ done turns'' s''.
          and_then (write_all turns'' frame.payload s'') (λ done' rest left. flush rest left)))

  -- `pair_until`
  unfoldable pub pair : List ℕ → List Turn → Stream → Run (Unit {0})
  unfolding send receive is_ack
  pair credential turns s =
      and_then (ended (new_frame hello 1 credential) turns s) (λ frame turns' s'.
        and_then (send frame turns' s') (λ done turns'' s''.
          and_then (refused (receive turns'' s'')) (λ ack rest left.
            if is_ack ack then ended (ok tt) rest left else ended (err not_authorized) rest left)))
