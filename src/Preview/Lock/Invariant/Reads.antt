-- ===== src/Preview/Lock/Invariant/Reads.antt =====
-- Every access of `Consumer::latest` to the preview record keeps the invariant.
use mobile_webcam_bridge.Prelude.{
  ℕ, ◌%◌, ◌≤◌, ◌≡◌, inl, inr, refl, sym, ap, subst, ◌∙◌, List, Option, none, some, ◌==◌, length,
  take, In, arith, Bool-cases,
}
use mobile_webcam_bridge.Preview.{Parsed, parse_header}
use mobile_webcam_bridge.Preview.Lock.Invariant.{Copies, ReaderInv, Inv, copied_on}
use mobile_webcam_bridge.Preview.Lock.{
  Writer, resting, filling, copying, returned, World, parsed_or_none, look, copy, confirmed, check,
}
use mobile_webcam_bridge.Preview.Lock.Invariant.Writes.{
  Fills-parsed, filling_now, resting_now, odd_resting,
}

module _ (w : World) (v : Inv w) where
  -- The number in the record is never ahead of the producer's.
  parsed-le :
      (wr : Writer) → w.writer ≡ wr → (p : Parsed) → parse_header w.head ≡ some p → p.seq ≤ w.seq
  parsed-le resting e p q = (resting_now w v e p q).0
  parsed-le (filling frame written) e p q =
      (odd_resting w v frame written w.seq e (omega arith) p q).0

  parsed_or_none-Inv :
      (o : Option Parsed)
      → parse_header w.head ≡ o
      → ReaderInv (parsed_or_none o) w.head w.body w.seq w.published
  parsed_or_none-Inv none e = tt
  parsed_or_none-Inv (some p) e = elim (Bool-cases (p.seq % 2 == 1)) [
    | inl o ↦ rw o tt
    | inr o ↦ rw o (record {
      even = ground arith;
      old = parsed-le w.writer refl p e;
      still = λ q f s. (ground arith, refl);
    })
  ]

  pub look-Inv : Inv (look w)
  unfolding look
  look-Inv = record {
    whole = v.whole;
    small = v.small;
    writes = v.writes;
    reads = parsed_or_none-Inv (parse_header w.head) refl;
  }

  copying_now :
      (p : Parsed) (got : List ℕ) → w.reader ≡ copying p got → Copies p got w.head w.body w.seq
  copying_now p got e = subst (λ r. ReaderInv r w.head w.body w.seq w.published) e v.reads

  pub copy-Inv :
      (p : Parsed) (got : List ℕ) (count : ℕ) → w.reader ≡ copying p got → Inv (copy p got count w)
  unfolding copy
  copy-Inv p got count e =
      let c = copying_now p got e in
      record {
        whole = v.whole;
        small = v.small;
        writes = v.writes;
        reads = record {
          even = c.even;
          old = c.old;
          still = λ q f s. ((c.still q f s).0, copied_on got w.body _ (c.still q f s).1);
        };
      }

  -- What a copy that is confirmed has copied.
  confirmed-In :
      (wr : Writer)
      → w.writer ≡ wr
      → (p : Parsed) (got : List ℕ) → Copies p got w.head w.body w.seq
      → length got ≡ p.len
      → (q : Parsed) → parse_header w.head ≡ some q
      → q.seq ≡ p.seq
      → In (record { width = p.width; height = p.height; pixels = got }) w.published
  confirmed-In resting e p got c full q f s =
      let (same, bytes) = c.still q f s in
      elim ((resting_now w v e q f).1) [
        | inl odd ↦ absurd (omega (arith, c.even))
        | inr (frame, member, a, b, n, shown) ↦
            let pixels : got ≡ frame.pixels =
              bytes
              ∙ ap (λ k. take k w.body) (full ∙ sym (ap (λ (r : Parsed). r.len) same))
              ∙ shown in
            let width : p.width ≡ frame.width = sym (ap (λ (r : Parsed). r.width) same) ∙ a in
            let height : p.height ≡ frame.height = sym (ap (λ (r : Parsed). r.height) same) ∙ b in
            subst (λ g. In g w.published) (ground arith) member
      ]
  confirmed-In (filling frame written) e p got c full q f s =
      let fl = filling_now w v frame written e in
      let t = (Fills-parsed frame written w.head w.body w.seq q fl f).0 in
      absurd (omega (arith, c.even, fl.odd))

  confirmed-Inv :
      (p : Parsed) (got : List ℕ)
      → Copies p got w.head w.body w.seq
      → length got ≡ p.len
      → (o : Option Parsed) → parse_header w.head ≡ o
      → ReaderInv (returned (confirmed p got o)) w.head w.body w.seq w.published
  confirmed-Inv p got c full none f = tt
  confirmed-Inv p got c full (some q) f = elim (Bool-cases (q.seq == p.seq)) [
    | inl t ↦ rw t (confirmed-In w.writer refl p got c full q f (ground arith))
    | inr t ↦ rw t tt
  ]

  pub check-Inv :
      (p : Parsed) (got : List ℕ)
      → w.reader ≡ copying p got
      → length got ≡ p.len
      → Inv (check p got w)
  unfolding check
  check-Inv p got e full = record {
    whole = v.whole;
    small = v.small;
    writes = v.writes;
    reads = confirmed-Inv p got (copying_now p got e) full (parse_header w.head) refl;
  }
