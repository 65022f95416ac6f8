-- ===== src/Control/Lines.antt =====
-- What `read` of host-rs/src/control.rs makes of the lines that `write` writes.
use mobile_webcam_bridge.Prelude.{
  ℕ, ◌+◌, ◌-◌, ◌≡◌, ◌≤◌, ◌<◌, ◌∙◌, ◌⊎◌, inl, inr, refl, sym, ap, subst, Bool, true, false, List, [],
  ◌∷◌, ◌++◌, Option, some, ltb, ◌==◌, if◌then◌else◌, length, take, drop, arith, length-append,
  take-append, drop-append, take-all, get_elem?,
}
use mobile_webcam_bridge.Prelude.Outcome.{Result, ok, bind_inv}
use mobile_webcam_bridge.Wire.Bytes.{index}
use mobile_webcam_bridge.Control.{
  max_line, Fill, gives, breaks, line_end, left_over, on_chunk, read_line, read, write,
}
use mathlib.Core.List.{append_assoc}

-- No byte is a line feed.
abbrev pub unbroken : List ℕ → Bool
unbroken [] = true
unbroken (b ∷ bytes) = if b == 10 then false else unbroken bytes

-- The reader's chunks are not empty, and no read fails.
abbrev pub flowing : List Fill → Bool
flowing [] = true
flowing (gives [] ∷ fills) = false
flowing (gives (b ∷ bytes) ∷ fills) = flowing fills
flowing (breaks e ∷ fills) = false

abbrev pub content : List Fill → List ℕ
content [] = []
content (gives bytes ∷ fills) = bytes ++ content fills
content (breaks e ∷ fills) = content fills

-- A chunk of a stream that goes on with a line lies in the line, or it holds the line's end.
meets :
    (chunk more body rest : List ℕ)
    → chunk ++ more ≡ body ++ (10 ∷ rest)
    → ((body' : List ℕ) × (body ≡ chunk ++ body') × (more ≡ body' ++ (10 ∷ rest)))
      ⊎ ((tail : List ℕ) × (chunk ≡ body ++ (10 ∷ tail)) × (rest ≡ tail ++ more))
meets [] more body rest e = inl (body, refl, e)
meets (c ∷ chunk) more [] rest e = inr (chunk, cc e, cc e)
meets (c ∷ chunk) more (b ∷ body) rest e = elim (meets chunk more body rest (cc e)) [
  | inl (body', p, q) ↦ inl (body', cc (e, p), q)
  | inr (tail, p, q) ↦ inr (tail, cc (e, p), q)
]

unbroken-append :
    (a b : List ℕ) → unbroken (a ++ b) ≡ true → (unbroken a ≡ true) × (unbroken b ≡ true)
unbroken-append [] b e = (refl, e)
unbroken-append (x ∷ a) b e =
    let (p, q) = unbroken-append a b (ground arith) in (ground (arith, p), q)

line_end-unbroken : (chunk : List ℕ) → unbroken chunk ≡ true → line_end chunk ≡ length chunk
line_end-unbroken [] e = refl
line_end-unbroken (b ∷ chunk) e =
    let ih = line_end-unbroken chunk (ground arith) in ground (arith, ih)

line_end-line :
    (body tail : List ℕ) → unbroken body ≡ true → line_end (body ++ (10 ∷ tail)) ≡ length body + 1
line_end-line [] tail e = refl
line_end-line (b ∷ body) tail e =
    let ih = line_end-line body tail (ground arith) in ground (arith, ih)

get-unbroken :
    (b : ℕ) (chunk : List ℕ)
    → unbroken (b ∷ chunk) ≡ true
    → (last : ℕ) × (get_elem? (b ∷ chunk) (length chunk) ≡ some last) × ((last == 10) ≡ false)
get-unbroken b [] e = (b, refl, ground arith)
get-unbroken b (c ∷ chunk) e =
    let (last, p, q) = get-unbroken c chunk (ground arith) in (last, p, q)

get-line : (body tail : List ℕ) → get_elem? (body ++ (10 ∷ tail)) (length body) ≡ some 10
get-line [] tail = refl
get-line (b ∷ body) tail = get-line body tail

content-left_over :
    (tail : List ℕ) (fills : List Fill) → content (left_over tail fills) ≡ tail ++ content fills
content-left_over [] fills = refl
content-left_over (b ∷ tail) fills = refl

-- A byte of a chunk that is there.
index-some : (bytes : List ℕ) (i b : ℕ) → get_elem? bytes i ≡ some b → index bytes i ≡ ok b
unfolding index
index-some bytes i b e = ground (arith, e)

module _ (again : List ℕ → Result (Option (List ℕ)) × List Fill) (acc chunk : List ℕ)
    (rest : List Fill) where
  -- A round whose chunk lies in the line.
  on_chunk-within :
      (n last : ℕ)
      → n ≡ length chunk
      → index chunk (n - 1) ≡ ok last
      → (last == 10) ≡ false
      → length acc + n ≤ max_line
      → on_chunk again acc chunk rest n ≡ again (acc ++ chunk)
  on_chunk-within n last e i z l =
      let fits : ltb max_line (length acc + n) ≡ false = ground arith in
      let whole : take n chunk ≡ chunk = take-all n chunk (omega arith) in
      rw (fits, i, z, whole) refl

  -- A round whose chunk holds the line's end.
  on_chunk-ends :
      (body tail : List ℕ) (n : ℕ)
      → chunk ≡ body ++ (10 ∷ tail)
      → n ≡ length body + 1
      → length acc + n ≤ max_line
      → on_chunk again acc chunk rest n
        ≡ (ok (some (acc ++ (body ++ (10 ∷ [])))), left_over tail rest)
  on_chunk-ends body tail n e k l =
      let fits : ltb max_line (length acc + n) ≡ false = ground arith in
      let line : List ℕ = body ++ (10 ∷ []) in
      let split : chunk ≡ line ++ tail = e ∙ sym (append_assoc body (10 ∷ []) tail) in
      let size : length line ≡ n = omega (arith, length-append body (10 ∷ []), k) in
      let taken : take n chunk ≡ line = ap (take n) split ∙ take-append n line tail size in
      let dropped : drop n chunk ≡ tail = ap (drop n) split ∙ drop-append n line tail size in
      let last : index chunk (n - 1) ≡ ok 10 =
        subst (λ i. index chunk i ≡ ok 10) (omega arith)
          (index-some chunk (length body) 10
            (ap (λ c. get_elem? c (length body)) e ∙ get-line body tail)) in
      rw (fits, taken, dropped, last) refl

-- However the reader cuts the stream, the loop takes the line to its end and leaves what comes after it.
read_line_whole :
    (fills : List Fill) (acc body rest : List ℕ)
    → flowing fills ≡ true
    → unbroken body ≡ true
    → content fills ≡ body ++ (10 ∷ rest)
    → length acc + length body + 1 ≤ max_line
    → (left : List Fill) × (read_line fills acc ≡ (ok (some (acc ++ (body ++ (10 ∷ [])))), left))
      × (content left ≡ rest)
unfolding read_line
read_line_whole [] acc body rest f u e l =
    absurd (omega (arith, ap length e, length-append body (10 ∷ rest)))
read_line_whole (breaks x ∷ fills) acc body rest f u e l = ground arith
read_line_whole (gives [] ∷ fills) acc body rest f u e l = ground arith
read_line_whole (gives (b ∷ c) ∷ fills) acc body rest f u e l =
    elim (meets (b ∷ c) (content fills) body rest e) [
      | inr (tail, p, q) ↦ (
        left_over tail fills,
        on_chunk-ends (read_line fills) acc (b ∷ c) fills body tail (line_end (b ∷ c)) p
            (ap line_end p ∙ line_end-line body tail u)
            (omega (arith, ap line_end p, line_end-line body tail u)),
        content-left_over tail fills ∙ sym q,
      )
      | inl (body', p, q) ↦
          let (inside, after) =
            unbroken-append (b ∷ c) body' (subst (λ t. unbroken t ≡ true) p u) in
          let n = line_end-unbroken (b ∷ c) inside in
          let (last, g, z) = get-unbroken b c inside in
          let there : index (b ∷ c) (line_end (b ∷ c) - 1) ≡ ok last =
            subst (λ i. index (b ∷ c) i ≡ ok last) (omega (arith, n))
              (index-some (b ∷ c) (length c) last g) in
          let size : length body ≡ length (b ∷ c) + length body' =
            ap length p ∙ length-append (b ∷ c) body' in
          let (left, r, k) =
            read_line_whole fills (acc ++ (b ∷ c)) body' rest f after q
              (omega (arith, size, length-append acc (b ∷ c))) in
          (
            left,
            on_chunk-within (read_line fills) acc (b ∷ c) fills (line_end (b ∷ c)) last n there z
                  (omega (arith, n, size, l))
                ∙ r
                ∙ ap (λ t. (ok (some t), left))
                    (append_assoc acc (b ∷ c) (body' ++ (10 ∷ []))
                      ∙ ap (λ t. acc ++ t)
                          (sym (append_assoc (b ∷ c) body' (10 ∷ []))
                            ∙ ap (λ t. t ++ (10 ∷ [])) (sym p))),
            k,
          )
    ]

module _ {T : Type 0} (to_vec : T → Result (List ℕ)) (from_slice : List ℕ → Result T)
    (one_line : (message : T) (bytes : List ℕ) → to_vec message ≡ ok bytes → unbroken bytes ≡ true)
    (parses_back : (message : T) (bytes : List ℕ)
      → to_vec message ≡ ok bytes
      → from_slice (bytes ++ (10 ∷ [])) ≡ ok message) where
  -- What `write` writes, `read` reads back, however the reader cuts the stream into chunks, and what
  -- comes after the line stays in the reader; where the JSON of a message has no line feed and parses
  -- to the message with a line feed after it.
  pub read-write :
      (message : T) (line rest : List ℕ) (fills : List Fill)
      → write to_vec (ok tt) message ≡ ok line
      → flowing fills ≡ true
      → content fills ≡ line ++ rest
      → (left : List Fill) × (read from_slice fills ≡ (ok (some message), left))
        × (content left ≡ rest)
  unfolding read write
  read-write message line rest fills w f e =
      let (bytes, j, w') = bind_inv (to_vec message) _ line w in
      let short : length bytes < max_line = ground arith in
      let whole : bytes ++ (10 ∷ []) ≡ line = ground arith in
      let (left, r, k) =
        read_line_whole fills [] bytes rest f (one_line message bytes j)
          (e ∙ ap (λ l. l ++ rest) (sym whole) ∙ append_assoc bytes (10 ∷ []) rest) (omega arith) in
      let back = parses_back message bytes j in (left, rw (r, back) refl, k)
