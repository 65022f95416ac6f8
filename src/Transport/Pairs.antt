-- ===== src/Transport/Pairs.antt =====
-- `pair_until` of host-rs/src/transport.rs.
use mobile_webcam_bridge.Prelude.{
  ℕ, ◌≡◌, ◌∙◌, refl, sym, ap, subst, true, List, [], ◌∷◌, ◌++◌, length, arith, if_both,
}
use mobile_webcam_bridge.Prelude.Outcome.{
  error, unexpected_eof, invalid_data, invalid_input, timed_out, interrupted, other, boxed, ok, err,
  panic, ◌>>◌,
}
use mobile_webcam_bridge.Wire.Kinds.{hello}
use mobile_webcam_bridge.Wire.Header.{Frame, decode, encode, validate, new_frame}
use mobile_webcam_bridge.Transport.{
  Remaining, Turn, Stream, Run, waiting, ended, read_exact, receive, write_all, send, flush,
  refused, is_ack, pair, not_authorized,
}
use mobile_webcam_bridge.Transport.Reads.Taken.{Ends, and_then-Ends, ended-Ends, read_exact-Exact}
use mobile_webcam_bridge.Transport.Sends.{write_all-Written}
use mathlib.Core.List.{append_assoc}

refused-Ends : {A : Type 0} (P : A → Stream → Type 0) (r : Run A) → Ends P r → Ends P (refused r)
refused-Ends P waiting x = tt
refused-Ends P (ended (ok b) turns t) x = x
refused-Ends P (ended panic turns t) x = tt
refused-Ends P (ended (err (error unexpected_eof m)) turns t) x = tt
refused-Ends P (ended (err (error invalid_data m)) turns t) x = tt
refused-Ends P (ended (err (error invalid_input m)) turns t) x = tt
refused-Ends P (ended (err (error timed_out m)) turns t) x = tt
refused-Ends P (ended (err (error interrupted m)) turns t) x = tt
refused-Ends P (ended (err (error other m)) turns t) x = tt
refused-Ends P (ended (err (error boxed m)) turns t) x = tt

-- A frame that was taken off the stream.
pub record Received (s : Stream) (f : Frame) (t : Stream) : Type 0 where
  pub bytes : List ℕ
  pub decoded : decode bytes ≡ ok f.header
  pub counted : length f.payload ≡ f.header.payload_len
  pub taken : s.incoming ≡ bytes ++ (f.payload ++ t.incoming)
  pub unwritten : t.outgoing ≡ s.outgoing

-- A frame that was put on the stream.
pub record Sent (s : Stream) (f : Frame) (t : Stream) : Type 0 where
  pub bytes : List ℕ
  pub valid : validate f ≡ ok tt
  pub encoded : encode f.header ≡ ok bytes
  pub written : t.outgoing ≡ s.outgoing ++ (bytes ++ f.payload)
  pub untaken : t.incoming ≡ s.incoming

-- What a pairing that ended well has done.
pub record Paired (credential : List ℕ) (s : Stream) (t : Stream) : Type 0 where
  pub greeting : Frame
  pub greets : new_frame hello 1 credential ≡ ok greeting
  pub between : Stream
  pub sent : Sent s greeting between
  pub answer : Frame
  pub received : Received between answer t
  pub acknowledges : is_ack answer ≡ true

module _ (remaining : Remaining) (deadline : ℕ) where
  receive-Received :
      (turns : List Turn) (s : Stream) → Ends (Received s) (receive remaining deadline turns s)
  unfolding receive
  receive-Received turns s =
      and_then-Ends _ (Received s) (read_exact remaining deadline turns 24 [] s) _
        (read_exact-Exact remaining deadline turns 24 [] s)
        (λ bytes turns1 s1 x.
          and_then-Ends (λ h u. (decode bytes ≡ ok h) × (u ≡ s1)) (Received s)
            (ended (decode bytes) turns1 s1) _
            (ended-Ends _ (decode bytes) turns1 s1 (λ h e. (e, refl)))
            (λ header turns2 s2 d.
              and_then-Ends _ (Received s)
                (read_exact remaining deadline turns2 header.payload_len [] s2) _
                (read_exact-Exact remaining deadline turns2 header.payload_len [] s2)
                (λ payload turns3 s3 y. record {
                  bytes = bytes;
                  decoded = d.0;
                  counted = omega (arith, y.1);
                  taken =
                      sym x.0
                      ∙ ap (λ l. bytes ++ l) (ap (λ (u : Stream). u.incoming) (sym d.1) ∙ sym y.0);
                  unwritten = y.2 ∙ ap (λ (u : Stream). u.outgoing) d.1 ∙ x.2;
                })))

  flush-Ends :
      (P : Stream → Type 0) (turns : List Turn) (s : Stream)
      → P s
      → Ends (λ (done : Unit {0}) t. P t) (flush remaining deadline turns s)
  flush-Ends P [] s x = tt
  flush-Ends P (t ∷ []) s x = tt
  flush-Ends P (t ∷ u ∷ turns) s x = ended-Ends (λ (done : Unit {0}) t. P t) _ turns s (λ a e. x)

  checked_inv :
      (f : Frame) (header : List ℕ)
      → (validate f >> encode f.header) ≡ ok header
      → (validate f ≡ ok tt) × (encode f.header ≡ ok header)
  unfolding validate
  checked_inv f header e = ground arith

  send-Sent :
      (f : Frame) (turns : List Turn) (s : Stream)
      → Ends (λ done t. Sent s f t) (send remaining deadline f turns s)
  unfolding send
  send-Sent f turns s =
      and_then-Ends (λ header t. ((validate f >> encode f.header) ≡ ok header) × (t ≡ s)) _
        (ended (validate f >> encode f.header) turns s) _
        (ended-Ends _ (validate f >> encode f.header) turns s (λ h e. (e, refl)))
        (λ header turns1 s1 c.
          and_then-Ends _ _ (write_all remaining deadline turns1 header s1) _
            (write_all-Written remaining deadline turns1 header s1)
            (λ done turns2 s2 x.
              and_then-Ends _ _ (write_all remaining deadline turns2 f.payload s2) _
                (write_all-Written remaining deadline turns2 f.payload s2)
                (λ done' turns3 s3 y. flush-Ends (Sent s f) turns3 s3 (record {
                  bytes = header;
                  valid = (checked_inv f header c.0).0;
                  encoded = (checked_inv f header c.0).1;
                  written =
                      y.0
                      ∙ ap (λ l. l ++ f.payload)
                          (x.0 ∙ ap (λ (u : Stream). u.outgoing ++ header) c.1)
                      ∙ append_assoc s.outgoing header f.payload;
                  untaken = y.1 ∙ x.1 ∙ ap (λ (u : Stream). u.incoming) c.1;
                }))))

  -- A pairing that ends well has written a HELLO frame with the credential, whole, and has then taken
  -- from the stream one whole frame, which is a HELLO_ACK of sequence 1 without a payload, and nothing
  -- more.
  pub pair-Paired :
      (credential : List ℕ) (turns : List Turn) (s : Stream)
      → Ends (λ done t. Paired credential s t) (pair remaining deadline credential turns s)
  unfolding pair
  pair-Paired credential turns s =
      and_then-Ends (λ f t. (new_frame hello 1 credential ≡ ok f) × (t ≡ s)) _
        (ended (new_frame hello 1 credential) turns s) _
        (ended-Ends _ (new_frame hello 1 credential) turns s (λ f e. (e, refl)))
        (λ greeting turns1 s1 c.
          and_then-Ends _ _ (send remaining deadline greeting turns1 s1) _
            (send-Sent greeting turns1 s1)
            (λ done turns2 s2 x.
              and_then-Ends _ _ (refused (receive remaining deadline turns2 s2)) _
                (refused-Ends (Received s2) _ (receive-Received turns2 s2))
                (λ answer turns3 s3 y.
                  if_both (λ (r : Run (Unit {0})). Ends (λ done t. Paired credential s t) r)
                    (is_ack answer) (ended (ok tt) turns3 s3) (ended (err not_authorized) turns3 s3)
                    (λ e. record {
                      greeting = greeting;
                      greets = c.0;
                      between = s2;
                      sent = subst (λ u. Sent u greeting s2) c.1 x;
                      answer = answer;
                      received = y;
                      acknowledges = e;
                    })
                    (λ e. tt))))
