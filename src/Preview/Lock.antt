-- ===== src/Preview/Lock.antt =====
-- `Producer::publish` and `Consumer::latest` of host-rs/src/preview.rs, as the accesses to the shared
-- record that they make one after the other. The record is its header and what follows it.
pub mod Invariant
pub mod Runs
use mobile_webcam_bridge.Prelude.{
  ℕ, ◌+◌, ◌-◌, ◌*◌, ◌%◌, ◌≤◌, ◌<◌, ◌≡◌, Bool, not, ◌&&◌, ◌||◌, List, [], ◌∷◌, ◌++◌, Option, none,
  some, ltb, leb, ◌==◌, if◌then◌else◌, length, take, drop, true, false,
}
use mobile_webcam_bridge.Wire.Bytes.{to_le}
use mobile_webcam_bridge.Preview.{header, Parsed, parse_header, area, capacity}

pub record Frame : Type 0 where
  pub width : ℕ
  pub height : ℕ
  pub pixels : List ℕ

-- `self.seq.wrapping_add(1) | 1`
abbrev pub odd_after : ℕ → ℕ
odd_after seq =
    let next : ℕ = (seq + 1) % 18446744073709551616 in if next % 2 == 0 then next + 1 else next

-- `self.seq.wrapping_add(1) & !1`
abbrev pub even_after : ℕ → ℕ
even_after seq = let next : ℕ = (seq + 1) % 18446744073709551616 in next - next % 2

-- The first test of `publish`.
unfoldable pub publishable : Frame → Bool
publishable frame =
    length frame.pixels == area frame.width frame.height && leb (length frame.pixels) capacity

-- Where a call of `publish` stands: none runs, or it has written so many pixel bytes.
pub data Writer : Type 0 where
  resting : Writer
  filling : Frame → ℕ → Writer

-- Where a call of `latest` stands: none runs, it has parsed a header and read these bytes, or it has
-- returned.
pub data Reader : Type 0 where
  asleep : Reader
  copying : Parsed → List ℕ → Reader
  returned : Option Frame → Reader

-- The record, `Producer::seq`, both calls, and the frames whose publication ended well.
pub record World : Type 0 where
  pub head : List ℕ
  pub body : List ℕ
  pub seq : ℕ
  pub writer : Writer
  pub reader : Reader
  pub published : List Frame

-- `write_at` inside one of the two parts.
abbrev pub splice : List ℕ → ℕ → List ℕ → List ℕ
splice part offset bytes = take offset part ++ (bytes ++ drop (offset + length bytes) part)

-- The new sequence number, and the header with it.
unfoldable pub begin : Frame → World → World
begin frame w =
    let seq : ℕ = odd_after w.seq in
    if not (publishable frame) then w else record w {
      seq = seq;
      head = splice w.head 0 (header seq frame.width frame.height (length frame.pixels));
      writer = filling frame 0;
    }

-- The write of the header fails; the producer has counted on.
abbrev pub miss : Frame → World → World
miss frame w = if not (publishable frame) then w else record w { seq = odd_after w.seq }

-- The next `count` bytes of the pixels.
unfoldable pub fill : Frame → ℕ → ℕ → World → World
fill frame written count w =
    let bytes : List ℕ = take count (drop written frame.pixels) in
    record w { body = splice w.body written bytes; writer = filling frame (written + length bytes) }

-- The last write, of the even sequence number alone.
unfoldable pub finish : Frame → World → World
finish frame w =
    let seq : ℕ = even_after w.seq in
    record w {
      seq = seq;
      head = splice w.head 8 (to_le 8 seq);
      writer = resting;
      published = frame ∷ w.published;
    }

-- A write of the pixels fails.
abbrev pub give_up : World → World
give_up w = record w { writer = resting }

-- The last write fails; the producer has counted on.
abbrev pub lose_last : World → World
lose_last w = record w { seq = even_after w.seq; writer = resting }

abbrev pub parsed_or_none : Option Parsed → Reader
parsed_or_none none = returned none
parsed_or_none (some p) = if p.seq % 2 == 1 then returned none else copying p []

-- The first header.
unfoldable pub look : World → World
look w = record w { reader = parsed_or_none (parse_header w.head) }

-- The next `count` bytes of the pixels.
unfoldable pub copy : Parsed → List ℕ → ℕ → World → World
copy p got count w = record w {
  reader = copying p (
      got
      ++ take (if leb count (p.len - length got) then count else p.len - length got)
          (drop (length got) w.body));
}

abbrev pub confirmed : Parsed → List ℕ → Option Parsed → Option Frame
confirmed p got none = none
confirmed p got (some check) =
    if check.seq == p.seq
    then some (record { width = p.width; height = p.height; pixels = got })
    else none

-- The second header.
unfoldable pub check : Parsed → List ℕ → World → World
check p got w = record w { reader = returned (confirmed p got (parse_header w.head)) }

-- Sizes that the header's fields hold.
pub record Sized (frame : Frame) : Type 0 where
  pub width : frame.width < 4294967296
  pub height : frame.height < 4294967296

-- One access of either side, in any order. A producer that has not counted to the end of u64 begins.
pub data Step (w : World) : World → Type 0 where
  begins :
      (frame : Frame)
      → Sized frame
      → w.writer ≡ resting
      → w.seq + 3 < 18446744073709551616
      → Step w (begin frame w)
  begin_fails :
      (frame : Frame)
      → w.writer ≡ resting
      → w.seq + 3 < 18446744073709551616
      → Step w (miss frame w)
  fills :
      (frame : Frame) (written count : ℕ)
      → w.writer ≡ filling frame written
      → Step w (fill frame written count w)
  finishes :
      (frame : Frame) (written : ℕ)
      → w.writer ≡ filling frame written
      → length frame.pixels ≤ written
      → Step w (finish frame w)
  gives_up : Step w (give_up w)
  loses_last :
      (frame : Frame) (written : ℕ) → w.writer ≡ filling frame written → Step w (lose_last w)
  looks : Step w (look w)
  copies :
      (p : Parsed) (got : List ℕ) (count : ℕ)
      → w.reader ≡ copying p got
      → Step w (copy p got count w)
  checks :
      (p : Parsed) (got : List ℕ)
      → w.reader ≡ copying p got
      → length got ≡ p.len
      → Step w (check p got w)

pub data Reach (start : World) : World → Type 0 where
  here : Reach start start
  next : {v w : World} → Reach start v → Step v w → Reach start w
