-- ===== src/Preview/Lock/Invariant.antt =====
-- What holds of the preview record between two accesses.
pub mod Writes
pub mod Reads
pub mod Keeps
use mobile_webcam_bridge.Prelude.{
  ℕ, ◌+◌, ◌-◌, ◌*◌, ◌%◌, ◌≤◌, ◌<◌, ◌≡◌, ◌≢◌, ◌⊎◌, inl, inr, refl, sym, ap, subst, ◌∙◌, Bool, true,
  false, not, ◌&&◌, ◌||◌, List, [], ◌∷◌, ◌++◌, Option, none, some, ltb, leb, ◌==◌, if◌then◌else◌,
  length, take, drop, In, arith, zero, suc, length-append, length-take, length-drop, take-append,
  take-all, Bool-cases, Option-cases,
}
use mathlib.Core.List.{append_assoc}
use native.Mathlib.Nat.{zero-add}
use mobile_webcam_bridge.Preview.{header, Parsed, parse_header, lies, area, capacity}
use mobile_webcam_bridge.Preview.Laws.{parse_header-header}
use mobile_webcam_bridge.Wire.Bytes.{to_le}
use mobile_webcam_bridge.Preview.Lock.{
  Frame, Writer, resting, filling, Reader, asleep, copying, returned, World, Sized, odd_after,
  even_after, publishable, splice, begin, miss, fill, finish, give_up, lose_last, parsed_or_none,
  look, copy, confirmed, check, Step, Reach, begins, begin_fails, fills, finishes, gives_up,
  loses_last, looks, copies, checks, here, next,
}

-- What a header with an even number stands before: a published frame, whole.
abbrev pub Shows : List ℕ → List Frame → Parsed → Type 0
Shows body published p =
    (frame : Frame) × In frame published
    × (p.width ≡ frame.width)
    × (p.height ≡ frame.height)
    × (p.len ≡ length frame.pixels)
    × (take p.len body ≡ frame.pixels)

-- The header that a running `publish` has written.
pub record Fills (frame : Frame) (written : ℕ) (head body : List ℕ) (seq : ℕ) : Type 0 where
  pub sized : Sized frame
  pub fits : publishable frame ≡ true
  pub stamped : head ≡ header seq frame.width frame.height (length frame.pixels)
  pub odd : seq % 2 ≡ 1
  pub room : seq + 1 < 18446744073709551616
  pub some_written : written ≤ length frame.pixels
  pub same : take written body ≡ take written frame.pixels

abbrev pub WriterInv : Writer → List ℕ → List ℕ → ℕ → List Frame → Type 0
WriterInv resting head body seq published =
    (p : Parsed)
    → parse_header head ≡ some p
    → (p.seq ≤ seq) × ((p.seq % 2 ≡ 1) ⊎ Shows body published p)
WriterInv (filling frame written) head body seq published = Fills frame written head body seq

-- What a running `latest` knows, as long as the number that it saw still stands.
pub record Copies (p : Parsed) (got head body : List ℕ) (seq : ℕ) : Type 0 where
  pub even : p.seq % 2 ≡ 0
  pub old : p.seq ≤ seq
  pub still :
      (q : Parsed)
      → parse_header head ≡ some q
      → q.seq ≡ p.seq
      → (q ≡ p) × (got ≡ take (length got) body)

abbrev pub ReaderInv : Reader → List ℕ → List ℕ → ℕ → List Frame → Type 0
ReaderInv asleep head body seq published = Unit
ReaderInv (copying p got) head body seq published = Copies p got head body seq
ReaderInv (returned none) head body seq published = Unit
ReaderInv (returned (some frame)) head body seq published = In frame published

pub record Inv (w : World) : Type 0 where
  pub whole : length w.head ≡ 32
  pub small : w.seq < 18446744073709551616
  pub writes : WriterInv w.writer w.head w.body w.seq w.published
  pub reads : ReaderInv w.reader w.head w.body w.seq w.published

-- What a header that was written parses to.
pub parsed_header :
    (seq width height len : ℕ) (q : Parsed)
    → seq < 18446744073709551616
    → width < 4294967296
    → height < 4294967296
    → len < 4294967296
    → parse_header (header seq width height len) ≡ some q
    → (q.seq ≡ seq) × (q.width ≡ width) × (q.height ≡ height) × (q.len ≡ len)
parsed_header seq width height len q a b c d e =
    let f = sym (parse_header-header seq width height len a b c d) ∙ e in
    elim (Bool-cases (lies width height len)) [ inl t ↦ ground arith | inr t ↦ ground arith ]

pub length-publishable : (frame : Frame) → publishable frame ≡ true → length frame.pixels ≤ 1310720
unfolding publishable
length-publishable frame e = ground arith

pub length-header : (seq width height len : ℕ) → length (header seq width height len) ≡ 32
unfolding header
length-header seq width height len = refl

pub drop-whole : (xs : List ℕ) (n : ℕ) → length xs ≡ n → drop n xs ≡ []
drop-whole [] zero e = refl
drop-whole [] (suc n) e = refl
drop-whole (x ∷ xs) zero e = absurd (omega arith)
drop-whole (x ∷ xs) (suc n) e = drop-whole xs n (omega arith)

pub restamped :
    (seq seq' width height len : ℕ)
    → splice (header seq width height len) 8 (to_le 8 seq') ≡ header seq' width height len
unfolding header
restamped seq seq' width height len = refl

pub odd_after_lem :
    (seq : ℕ)
    → seq + 3 < 18446744073709551616
    → (seq < odd_after seq) × (odd_after seq % 2 ≡ 1) × (odd_after seq + 1 < 18446744073709551616)
odd_after_lem seq h = (ground arith, ground arith, ground arith)

pub even_after_lem :
    (seq : ℕ) → seq % 2 ≡ 1 → seq + 1 < 18446744073709551616 → even_after seq ≡ seq + 1
even_after_lem seq o h = ground arith

pub take_self : (k : ℕ) (xs : List ℕ) → take (length (take k xs)) xs ≡ take k xs
take_self zero xs = refl
take_self (suc k) [] = refl
take_self (suc k) (x ∷ xs) = ap (λ l. x ∷ l) (take_self k xs)

take_add :
    (n k : ℕ) (xs : List ℕ) → n ≤ length xs → take n xs ++ take k (drop n xs) ≡ take (n + k) xs
take_add zero k xs h = simp zero-add
take_add (suc n) k [] h = absurd (omega arith)
take_add (suc n) k (x ∷ xs) h =
    let e : suc n + k ≡ suc (n + k) = omega arith in
    rw e (ap (λ l. x ∷ l) (take_add n k xs (omega arith)))

-- A copy that goes on.
pub copied_on :
    (got body : List ℕ) (k : ℕ)
    → got ≡ take (length got) body
    → got ++ take k (drop (length got) body)
      ≡ take (length (got ++ take k (drop (length got) body))) body
copied_on got body k e =
    let n : ℕ = length got in
    let more : List ℕ = take k (drop n body) in
    let le : n ≤ length body = omega (arith, ap length e, length-take n body) in
    let l : length (got ++ more) ≡ n + length more = length-append got more in
    let joined : take n body ++ take (length more) (drop n body) ≡ take (n + length more) body =
      take_add n (length more) body le in
    let self : take (length more) (drop n body) ≡ more = take_self k (drop n body) in
    cc (e, l, joined, self)

-- The pixels that are written are in the body.
pub filled_on :
    (body pixels : List ℕ) (n count : ℕ)
    → n ≤ length pixels
    → take n body ≡ take n pixels
    → take (n + length (take count (drop n pixels))) (splice body n (take count (drop n pixels)))
      ≡ take (n + length (take count (drop n pixels))) pixels
filled_on body pixels n count h e =
    let bytes : List ℕ = take count (drop n pixels) in
    let k : ℕ = length bytes in
    let rest : List ℕ = drop (n + k) body in
    let len : length (take n pixels ++ bytes) ≡ n + k =
      omega (arith, length-append (take n pixels) bytes, length-take n pixels) in
    let front : take (n + k) ((take n pixels ++ bytes) ++ rest) ≡ take n pixels ++ bytes =
      take-append (n + k) (take n pixels ++ bytes) rest len in
    let assoc : (take n pixels ++ bytes) ++ rest ≡ take n pixels ++ (bytes ++ rest) =
      append_assoc (take n pixels) bytes rest in
    let joined : take n pixels ++ take k (drop n pixels) ≡ take (n + k) pixels =
      take_add n k pixels h in
    let self : take k (drop n pixels) ≡ bytes = take_self count (drop n pixels) in
    cc (e, front, assoc, joined, self)
