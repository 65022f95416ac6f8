-- ===== src/Transport/Tests.antt =====
-- The theorems on the transport at concrete inputs, and runs.
use mobile_webcam_bridge.Prelude.{
  ℕ, ◌-◌, ◌≡◌, refl, List, [], ◌∷◌, ◌++◌, arith, replicate, ltb, if◌then◌else◌,
}
use mobile_webcam_bridge.Prelude.Outcome.{Result, ok, err, panic, error, timed_out, interrupted}
use mobile_webcam_bridge.Wire.Header
use mobile_webcam_bridge.Wire.Header.{Header, Frame, validate}
use mobile_webcam_bridge.Transport.{
  Remaining, counted, fails, Turn, Stream, Run, waiting, ended, read_exact, receive, write_all,
  send, pair, is_ack, not_authorized,
}
use mobile_webcam_bridge.Transport.Reads.Taken.{Ends}
use mobile_webcam_bridge.Transport.Sends.{receive-send}
use mobile_webcam_bridge.Transport.Pairs.{Paired, pair-Paired}

abbrev clock : Remaining
clock deadline now =
    if ltb now deadline then ok (deadline - now) else err (error timed_out "deadline exceeded")

abbrev byte_by_byte : ℕ → List Turn
byte_by_byte n = replicate n (record { now = 5; timeouts = ok tt; answer = counted 1 })

abbrev hiccup : Turn
hiccup = record { now = 6; timeouts = ok tt; answer = fails (error interrupted "interrupted") }

abbrev ping_header : Header
ping_header = record { kind = 3; flags = 0; sequence = 7; payload_len = 8; pts_us = 258 }

abbrev ping : Frame
ping = record { header = ping_header; payload = 1 ∷ 2 ∷ 3 ∷ 4 ∷ 5 ∷ 6 ∷ 7 ∷ 8 ∷ [] }

ping_validates : validate ping ≡ ok tt
unfolding validate Header.encode Header.validate_payload_size Header.size_fits
ping_validates = refl

abbrev quiet : Stream
quiet = record { incoming = []; outgoing = [] }

receive-send_example :
    (bytes : List ℕ) × (left : List Turn) × (send clock 100 ping (byte_by_byte 34) quiet
      ≡ ended (ok tt) left (record { incoming = []; outgoing = [] ++ bytes }))
    × ((rest : List ℕ) (t : Stream)
        → t.incoming ≡ bytes ++ rest
        → (after : List Turn) × (receive clock 100 (hiccup ∷ byte_by_byte 34) t
            ≡ ended (ok ping) after (record t { incoming = rest })))
receive-send_example =
    receive-send clock 100 ping (byte_by_byte 34) (hiccup ∷ byte_by_byte 34) quiet (omega arith)
      ping_validates refl (omega arith) refl (omega arith)

-- An acknowledgement, and the first byte of what follows.
abbrev answered : Stream
answered = record {
  incoming =
      65 ∷ 77 ∷ 66 ∷ 49 ∷ 1 ∷ 2 ∷ 0 ∷ 0 ∷ 1 ∷ 0 ∷ 0 ∷ 0 ∷ 0 ∷ 0 ∷ 0 ∷ 0 ∷ 0 ∷ 0 ∷ 0 ∷ 0 ∷ 0 ∷ 0 ∷ 0
      ∷ 0 ∷ 65 ∷ [];
  outgoing = [];
}

pair-Paired_example :
    Ends
      (λ (done : Unit {0}) t. Paired [] answered t)
      (pair clock 100 [] (byte_by_byte 60) answered)
pair-Paired_example = pair-Paired clock 100 [] (byte_by_byte 60) answered

-- What `pair_until` answers, and the bytes that are left.
abbrev outcome : {A : Type 0} → Run A → Result A × List ℕ
outcome waiting = (panic, [])
outcome (ended r turns s) = (r, s.incoming)

pairs : outcome (pair clock 100 [] (byte_by_byte 60) answered) ≡ (ok tt, 65 ∷ [])
unfolding pair send receive read_exact write_all is_ack Header.new_frame Header.encode Header.decode
    Header.validate Header.validate_payload_size Header.size_fits Header.header_bytes
    Header.check_magic Header.read_header
pairs = refl

-- A peer that closes instead of answering has refused.
closed_refused : outcome (pair clock 100 [] (byte_by_byte 60) quiet) ≡ (err not_authorized, [])
unfolding pair send receive read_exact write_all is_ack Header.new_frame Header.encode Header.decode
    Header.validate Header.validate_payload_size Header.size_fits Header.header_bytes
    Header.check_magic Header.read_header
closed_refused = refl
