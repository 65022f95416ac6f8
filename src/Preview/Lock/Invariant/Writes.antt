-- ===== src/Preview/Lock/Invariant/Writes.antt =====
-- Every access of `Producer::publish` to the preview record keeps the invariant.
use mobile_webcam_bridge.Prelude.{
  ℕ, ◌+◌, ◌%◌, ◌≤◌, ◌<◌, ◌≡◌, ◌⊎◌, inl, inr, refl, sym, ap, subst, ◌∙◌, true, List, ◌∷◌, none, some,
  length, take, drop, arith, length-take, length-drop, take-all, Bool-cases,
}
use mathlib.Core.List.{append-nil}
use mobile_webcam_bridge.Preview.{header, Parsed, parse_header}
use mobile_webcam_bridge.Wire.Bytes.{to_le}
use mobile_webcam_bridge.Preview.Lock.Invariant.{
  Shows, Fills, WriterInv, ReaderInv, Inv, parsed_header, length-publishable, length-header,
  drop-whole, restamped, odd_after_lem, even_after_lem, filled_on,
}
use mobile_webcam_bridge.Preview.Lock.{
  Frame, Writer, resting, filling, Reader, asleep, copying, returned, World, Sized, odd_after,
  even_after, publishable, splice, begin, miss, fill, finish, give_up, lose_last,
}

-- The number in the header of a running `publish`.
pub Fills-parsed :
    (frame : Frame) (written : ℕ) (head body : List ℕ) (seq : ℕ) (q : Parsed)
    → Fills frame written head body seq
    → parse_header head ≡ some q
    → (q.seq ≡ seq)
      × (q.width ≡ frame.width)
      × (q.height ≡ frame.height)
      × (q.len ≡ length frame.pixels)
Fills-parsed frame written head body seq q f e =
    let len : length frame.pixels ≤ 1310720 = length-publishable frame f.fits in
    parsed_header seq frame.width frame.height (length frame.pixels) q (omega (arith, f.room))
      f.sized.width f.sized.height (omega arith) (ap parse_header (sym f.stamped) ∙ e)

-- A copy does not notice what is written under an odd or a later number.
ReaderInv-later :
    (r : Reader) (head head' body body' : List ℕ) (seq seq' : ℕ) (published : List Frame)
    → ReaderInv r head body seq published
    → seq ≤ seq'
    → ((q : Parsed) → parse_header head' ≡ some q → (q.seq % 2 ≡ 1) ⊎ (seq < q.seq))
    → ReaderInv r head' body' seq' published
ReaderInv-later asleep head head' body body' seq seq' published v le new = tt
ReaderInv-later (returned none) head head' body body' seq seq' published v le new = tt
ReaderInv-later (returned (some f)) head head' body body' seq seq' published v le new = v
ReaderInv-later (copying p got) head head' body body' seq seq' published v le new = record {
  even = v.even;
  old = omega (arith, v.old);
  still = λ q e s.
      absurd (elim (new q e) [ inl o ↦ omega (arith, v.even) | inr l ↦ omega (arith, v.old) ]);
}

-- Nor that the producer has counted on.
ReaderInv-counted :
    (r : Reader) (head body : List ℕ) (seq seq' : ℕ) (published : List Frame)
    → ReaderInv r head body seq published
    → seq ≤ seq'
    → ReaderInv r head body seq' published
ReaderInv-counted asleep head body seq seq' published v le = tt
ReaderInv-counted (returned none) head body seq seq' published v le = tt
ReaderInv-counted (returned (some f)) head body seq seq' published v le = v
ReaderInv-counted (copying p got) head body seq seq' published v le = record {
  even = v.even;
  old = omega (arith, v.old);
  still = v.still;
}

ReaderInv-published :
    (r : Reader) (head body : List ℕ) (seq : ℕ) (frame : Frame) (published : List Frame)
    → ReaderInv r head body seq published
    → ReaderInv r head body seq (frame ∷ published)
ReaderInv-published asleep head body seq frame published v = tt
ReaderInv-published (returned none) head body seq frame published v = tt
ReaderInv-published (returned (some f)) head body seq frame published v = inr v
ReaderInv-published (copying p got) head body seq frame published v = v

module _ (w : World) (v : Inv w) where
  pub filling_now :
      (frame : Frame) (written : ℕ)
      → w.writer ≡ filling frame written
      → Fills frame written w.head w.body w.seq
  filling_now frame written e =
      subst (λ wr. WriterInv wr w.head w.body w.seq w.published) e v.writes

  pub resting_now :
      w.writer ≡ resting
      → (p : Parsed) → parse_header w.head ≡ some p
      → (p.seq ≤ w.seq) × ((p.seq % 2 ≡ 1) ⊎ Shows w.body w.published p)
  resting_now e = subst (λ wr. WriterInv wr w.head w.body w.seq w.published) e v.writes

  begin-Fills :
      (frame : Frame)
      → Sized frame
      → publishable frame ≡ true
      → w.seq + 3 < 18446744073709551616
      → Fills frame 0
          (splice w.head 0
            (header (odd_after w.seq) frame.width frame.height (length frame.pixels)))
          w.body
          (odd_after w.seq)
  begin-Fills frame z f s =
      let (later, odd, room) = odd_after_lem w.seq s in
      record {
        sized = z;
        fits = f;
        stamped =
            rw
              (
                length-header (odd_after w.seq) frame.width frame.height (length frame.pixels),
                drop-whole w.head 32 v.whole,
                append-nil,
              )
              refl;
        odd = odd;
        room = room;
        some_written = omega arith;
        same = refl;
      }

  pub begin-Inv :
      (frame : Frame)
      → Sized frame
      → w.writer ≡ resting
      → w.seq + 3 < 18446744073709551616
      → Inv (begin frame w)
  unfolding begin
  begin-Inv frame z r s = elim (Bool-cases (publishable frame)) [
    | inl f ↦
        let (later, odd, room) = odd_after_lem w.seq s in
        let fills' = begin-Fills frame z f s in
        rw f (record {
          whole =
              ap length fills'.stamped
              ∙ length-header (odd_after w.seq) frame.width frame.height (length frame.pixels);
          small = omega arith;
          writes = fills';
          reads =
              ReaderInv-later w.reader w.head _ w.body w.body w.seq _ w.published v.reads
                (omega arith)
                (λ q e. inl (ap (λ n. n % 2) (Fills-parsed frame 0 _ w.body _ q fills' e).0 ∙ odd));
        })
    | inr f ↦ rw f v
  ]

  pub miss-Inv :
      (frame : Frame) → w.writer ≡ resting → w.seq + 3 < 18446744073709551616 → Inv (miss frame w)
  miss-Inv frame r s = elim (Bool-cases (publishable frame)) [
    | inl f ↦
        let (later, odd, room) = odd_after_lem w.seq s in
        rw f (record {
          whole = v.whole;
          small = omega arith;
          writes =
              subst (λ wr. WriterInv wr w.head w.body (odd_after w.seq) w.published) (sym r)
                (λ p e. (omega (arith, (resting_now r p e).0), (resting_now r p e).1));
          reads =
              ReaderInv-counted w.reader w.head w.body w.seq _ w.published v.reads (omega arith);
        })
    | inr f ↦ rw f v
  ]

  pub fill-Inv :
      (frame : Frame) (written count : ℕ)
      → w.writer ≡ filling frame written
      → Inv (fill frame written count w)
  unfolding fill
  fill-Inv frame written count e =
      let f = filling_now frame written e in
      let bytes : List ℕ = take count (drop written frame.pixels) in
      record {
        whole = v.whole;
        small = v.small;
        writes = record {
          sized = f.sized;
          fits = f.fits;
          stamped = f.stamped;
          odd = f.odd;
          room = f.room;
          some_written = omega (
            arith,
            f.some_written,
            length-take count (drop written frame.pixels),
            length-drop written frame.pixels,
          );
          same = filled_on w.body frame.pixels written count f.some_written f.same;
        };
        reads =
            ReaderInv-later w.reader w.head w.head w.body _ w.seq w.seq w.published v.reads
              (omega arith)
              (λ q p.
                inl (
                  ap (λ n. n % 2) (Fills-parsed frame written w.head w.body w.seq q f p).0
                  ∙ f.odd));
      }

  pub finish-Inv :
      (frame : Frame) (written : ℕ)
      → w.writer ≡ filling frame written
      → length frame.pixels ≤ written
      → Inv (finish frame w)
  unfolding finish
  finish-Inv frame written e full =
      let f = filling_now frame written e in
      let n : ℕ = length frame.pixels in
      let next_seq : even_after w.seq ≡ w.seq + 1 = even_after_lem w.seq f.odd f.room in
      let short : n ≤ 1310720 = length-publishable frame f.fits in
      let stamp : splice w.head 8 (to_le 8 (even_after w.seq))
          ≡ header (even_after w.seq) frame.width frame.height n =
        rw f.stamped (restamped w.seq (even_after w.seq) frame.width frame.height n) in
      let all : written ≡ n = omega (arith, f.some_written) in
      let whole_body : take n w.body ≡ frame.pixels =
        subst (λ k. take k w.body ≡ take k frame.pixels) all f.same
        ∙ take-all n frame.pixels (omega arith) in
      let small' : even_after w.seq < 18446744073709551616 = omega (arith, f.room) in
      let read : (q : Parsed)
          → parse_header (splice w.head 8 (to_le 8 (even_after w.seq))) ≡ some q
          → (q.seq ≡ even_after w.seq)
            × (q.width ≡ frame.width)
            × (q.height ≡ frame.height)
            × (q.len ≡ n) =
        λ q p.
          parsed_header (even_after w.seq) frame.width frame.height n q small' f.sized.width
            f.sized.height (omega arith) (ap parse_header (sym stamp) ∙ p) in
      record {
        whole = ap length stamp ∙ length-header (even_after w.seq) frame.width frame.height n;
        small = small';
        writes = λ q p.
            let (s, a, b, c) = read q p in
            (omega arith, inr (frame, inl refl, a, b, c, rw c whole_body));
        reads = ReaderInv-published w.reader _ w.body _ frame w.published (
            ReaderInv-later w.reader w.head _ w.body w.body w.seq _ w.published v.reads
              (omega arith) (λ q p. inr (omega (arith, (read q p).0))));
      }

  pub odd_resting :
      (frame : Frame) (written : ℕ) (seq : ℕ)
      → w.writer ≡ filling frame written
      → w.seq ≤ seq
      → (p : Parsed) → parse_header w.head ≡ some p
      → (p.seq ≤ seq) × ((p.seq % 2 ≡ 1) ⊎ Shows w.body w.published p)
  odd_resting frame written seq e le p q =
      let f = filling_now frame written e in
      let s = (Fills-parsed frame written w.head w.body w.seq p f q).0 in
      (omega arith, inl (ap (λ n. n % 2) s ∙ f.odd))

  pub give_up-Inv : (wr : Writer) → w.writer ≡ wr → Inv (give_up w)
  give_up-Inv resting e = record {
    whole = v.whole;
    small = v.small;
    writes = resting_now e;
    reads = v.reads;
  }
  give_up-Inv (filling frame written) e = record {
    whole = v.whole;
    small = v.small;
    writes = odd_resting frame written w.seq e (omega arith);
    reads = v.reads;
  }

  pub lose_last-Inv :
      (frame : Frame) (written : ℕ) → w.writer ≡ filling frame written → Inv (lose_last w)
  lose_last-Inv frame written e =
      let f = filling_now frame written e in
      let next_seq : even_after w.seq ≡ w.seq + 1 = even_after_lem w.seq f.odd f.room in
      record {
        whole = v.whole;
        small = omega (arith, f.room);
        writes = odd_resting frame written (even_after w.seq) e (omega arith);
        reads = ReaderInv-counted w.reader w.head w.body w.seq _ w.published v.reads (omega arith);
      }
