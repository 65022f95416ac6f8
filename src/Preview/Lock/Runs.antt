-- ===== src/Preview/Lock/Runs.antt =====
-- What a reader of the preview record gets, in any interleaving and in a run without one.
use mobile_webcam_bridge.Prelude.{
  ℕ, ◌-◌, ◌+◌, ◌%◌, ◌≤◌, ◌<◌, ◌≡◌, refl, ap, ◌∙◌, true, false, [], none, some, length, take, In,
  arith, take-all, take-append, ◌==◌, if◌then◌else◌, leb, subst, replicate,
}
use mobile_webcam_bridge.Preview.{header, Parsed, parse_header, lies}
use mobile_webcam_bridge.Preview.Lock.{
  Frame, World, resting, asleep, returned, copying, Reach, odd_after, even_after, publishable,
  begin, fill, finish, look, copy, check, Sized,
}
use mobile_webcam_bridge.Preview.Lock.Invariant.{
  Inv, ReaderInv, length-header, drop-whole, restamped, odd_after_lem, even_after_lem,
  length-publishable,
}
use mathlib.Core.List.{append-nil}
use mobile_webcam_bridge.Preview.Laws.{parse_header-header}
use mobile_webcam_bridge.Preview.Lock.Invariant.Keeps.{Reach-Inv}

-- A record that was just created: zeros, and a producer that has published nothing.
abbrev pub created : ℕ → World
created size = record {
  head = replicate 32 0;
  body = replicate size 0;
  seq = 0;
  writer = resting;
  reader = asleep;
  published = [];
}

blank : parse_header (replicate 32 0) ≡ none
unfolding parse_header
blank = refl

created-Inv : (size : ℕ) → Inv (created size)
created-Inv size = record {
  whole = refl;
  small = omega arith;
  writes = λ p e. ground (arith, blank);
  reads = tt;
}

-- No torn picture: whatever order the accesses of one producer and of one reader come in, in whatever
-- pieces the pixels go and whichever writes fail, a frame that `latest` returns is one whose
-- publication had ended well, with its sizes and every byte of its pixels.
pub latest-In :
    (size : ℕ) (w : World) (frame : Frame)
    → Reach (created size) w
    → w.reader ≡ returned (some frame)
    → In frame w.published
latest-In size w frame r e =
    subst (λ o. ReaderInv o w.head w.body w.seq w.published) e
      (Reach-Inv (created-Inv size) r).reads

-- A call of `publish` that nothing disturbs.
abbrev pub publish : Frame → World → World
publish frame w = finish frame (fill frame 0 (length frame.pixels) (begin frame w))

module _ (frame : Frame) (w : World) (whole : length w.head ≡ 32)
    (room : w.seq + 3 < 18446744073709551616) (fits : publishable frame ≡ true) where
  publish-head :
      (publish frame w).head
      ≡ header (even_after (odd_after w.seq)) frame.width frame.height (length frame.pixels)
  unfolding begin fill finish
  publish-head =
      rw
        (
          fits,
          length-header (odd_after w.seq) frame.width frame.height (length frame.pixels),
          drop-whole w.head 32 whole,
          append-nil,
        )
        (restamped (odd_after w.seq) (even_after (odd_after w.seq)) frame.width frame.height
          (length frame.pixels))

  publish-body : take (length frame.pixels) (publish frame w).body ≡ frame.pixels
  unfolding begin fill finish
  publish-body =
      rw (fits, take-all (length frame.pixels) frame.pixels (omega arith))
        (take-append (length frame.pixels) frame.pixels _ refl)

  -- After a call of `publish` that nothing disturbs, `latest` returns that frame: the header shows it,
  -- the pixels are copied, and the second header confirms them.
  pub latest-publish :
      Sized frame
      → 0 < frame.width
      → 0 < frame.height
      → (p : Parsed) × ((look (publish frame w)).reader ≡ copying p [])
        × ((copy p [] p.len (publish frame w)).reader ≡ copying p frame.pixels)
        × ((check p frame.pixels (publish frame w)).reader ≡ returned (some frame))
  unfolding look copy check
  latest-publish z a b =
      let n : ℕ = length frame.pixels in
      let short : n ≤ 1310720 = length-publishable frame fits in
      let (later, odd, room') = odd_after_lem w.seq room in
      let even : even_after (odd_after w.seq) ≡ odd_after w.seq + 1 =
        even_after_lem (odd_after w.seq) odd room' in
      let p : Parsed = record {
        seq = even_after (odd_after w.seq);
        width = frame.width;
        height = frame.height;
        len = n;
      } in
      let whole_shape : lies frame.width frame.height n ≡ false =
        unfold lies publishable in ground arith in
      let parsed : parse_header (publish frame w).head ≡ some p =
        ap parse_header publish-head
        ∙ parse_header-header p.seq frame.width frame.height n (omega arith) z.width z.height
            (omega arith)
        ∙ rw whole_shape refl in
      let not_odd : (p.seq % 2 == 1) ≡ false = ground arith in
      let copied : take (if leb n (n - 0) then n else n - 0) (publish frame w).body ≡ frame.pixels =
        ground (arith, publish-body) in
      let again : (p.seq == p.seq) ≡ true = ground arith in
      (p, rw (parsed, not_odd) refl, ap (copying p) copied, rw (parsed, again) refl)
