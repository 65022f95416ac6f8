-- ===== src/Control.antt =====
-- `read` and `write` of host-rs/src/control.rs: one message in a line of at most 16 KiB, over a buffered
-- reader. The JSON form is serde's: `to_vec` and `from_slice` are inputs.
pub mod Lines
mod Tests
use mobile_webcam_bridge.Prelude.{
  ℕ, ◌+◌, ◌-◌, ◌*◌, Bool, true, false, not, List, [], ◌∷◌, ◌++◌, Option, none, some, ltb, leb, ◌==◌,
  if◌then◌else◌, length, take, drop,
}
use mobile_webcam_bridge.Prelude.Outcome.{
  Error, error, boxed, invalid_input, Result, ok, err, panic, ◌>>=◌, ◌>>◌, guard,
}
use mobile_webcam_bridge.Wire.Bytes.{index}
use Prim.Native.String.{String}

abbrev pub max_line : ℕ
max_line = 16384

-- What `fill_buf` answers next: the bytes that it holds, of which there are none at the end, or an error.
pub data Fill : Type 0 where
  gives : List ℕ → Fill
  breaks : Error → Fill

-- `position(...).map_or(chunk.len(), |n| n + 1)`
abbrev pub line_end : List ℕ → ℕ
line_end [] = 0
line_end (b ∷ bytes) = if b == 10 then 1 else 1 + line_end bytes

-- The reader after `consume`, where `rest` is what comes after this chunk.
abbrev pub left_over : List ℕ → List Fill → List Fill
left_over [] rest = rest
left_over (b ∷ bytes) rest = gives (b ∷ bytes) ∷ rest

-- An empty chunk.
abbrev pub at_end : List ℕ → Result (Option (List ℕ))
at_end [] = ok none
at_end (b ∷ bytes) = err (error boxed "truncated control message")

-- The rest of a round, where the line's last byte is there or not.
abbrev pub on_last :
    Result (Option (List ℕ)) × List Fill
    → List ℕ
    → List Fill
    → Result ℕ
    → Result (Option (List ℕ)) × List Fill
on_last again got rest (ok last) = if last == 10 then (ok (some got), rest) else again
on_last again got rest (err e) = (err e, rest)
on_last again got rest panic = (panic, rest)

-- A round of the loop, for a chunk whose line ends after `count` bytes; `again` is the next round.
abbrev pub on_chunk :
    (List ℕ → Result (Option (List ℕ)) × List Fill)
    → List ℕ
    → List ℕ
    → List Fill
    → ℕ
    → Result (Option (List ℕ)) × List Fill
on_chunk again bytes chunk rest count =
    let got : List ℕ = bytes ++ take count chunk in
    if ltb max_line (length bytes + count)
    then (err (error boxed "control message exceeds 16 KiB"), gives chunk ∷ rest)
    else on_last (again got) got (left_over (drop count chunk) rest) (index chunk (count - 1))

-- The loop of `read`, with the bytes that it has: the line, or nothing at the end of the stream.
unfoldable pub read_line : List Fill → List ℕ → Result (Option (List ℕ)) × List Fill
read_line [] bytes = (at_end bytes, [])
read_line (breaks e ∷ rest) bytes = (err e, rest)
read_line (gives [] ∷ rest) bytes = (at_end bytes, rest)
read_line (gives (b ∷ chunk) ∷ rest) bytes =
    on_chunk (read_line rest) bytes (b ∷ chunk) rest (line_end (b ∷ chunk))

module _ {T : Type 0} where
  abbrev pub parsed : (List ℕ → Result T) → Option (List ℕ) → Result (Option T)
  parsed from_slice none = ok none
  parsed from_slice (some line) = (from_slice line >>= λ message. ok (some message))

  -- `read`
  unfoldable pub read : (List ℕ → Result T) → List Fill → Result (Option T) × List Fill
  unfolding read_line
  read from_slice fills = ((read_line fills []).0 >>= parsed from_slice, (read_line fills []).1)

  -- `write`, to the bytes that it has written; `wrote` is what the two writes and the flush answer.
  unfoldable pub write : (T → Result (List ℕ)) → Result (Unit {0}) → T → Result (List ℕ)
  write to_vec wrote message = do
    bytes ← to_vec message
    guard (ltb (length bytes) max_line) (error invalid_input "control message too large")
    wrote
    ok (bytes ++ (10 ∷ []))
