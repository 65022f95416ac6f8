-- ===== src/Settings/Text.antt =====
-- The strings of host-rs/src/settings.rs as lists of characters, with what the standard library does
-- to them: `trim`, `len`, `to_string` and `parse`.
use mobile_webcam_bridge.Prelude.{
  ℕ, zero, suc, ◌+◌, ◌-◌, ◌*◌, ◌/◌, ◌%◌, ◌<◌, ◌≡◌, ◌≢◌, refl, ◌∙◌, Bool, true, false, not, ◌&&◌,
  ◌||◌, List, [], ◌∷◌, Option, none, some, arith, ltb, ◌==◌, if◌then◌else◌, Bool-cases, inl, inr,
}
use mobile_webcam_bridge.Wire.Header.{within}
use mobile_webcam_bridge.Wire.Label.{is_whitespace}

abbrev pub Str : Type 0
Str = List ℕ

abbrev pub is_empty : Str → Bool
is_empty [] = true
is_empty (c ∷ cs) = false

unfoldable pub trim_start : Str → Str
trim_start [] = []
trim_start (c ∷ cs) = let rest : Str = trim_start cs in if is_whitespace c then rest else c ∷ cs

unfoldable pub trim_end : Str → Str
trim_end [] = []
trim_end (c ∷ cs) =
    let rest : Str = trim_end cs in if is_whitespace c && is_empty rest then [] else c ∷ rest

-- `str::trim`
unfoldable pub trim : Str → Str
unfolding trim_start trim_end
trim text = trim_start (trim_end text)

-- The bytes of a character in UTF-8.
abbrev pub width : ℕ → ℕ
width c = if ltb c 0x80 then 1 else if ltb c 0x800 then 2 else if ltb c 0x10000 then 3 else 4

-- `str::len`
unfoldable pub len : Str → ℕ
len [] = 0
len (c ∷ cs) = width c + len cs

-- `str::contains` of a character
unfoldable pub contains : ℕ → Str → Bool
contains wanted [] = false
contains wanted (c ∷ cs) = c == wanted || contains wanted cs

-- The digits of a number, before those that are written already; fuel bounds their count.
unfoldable pub digits : ℕ → ℕ → Str → Str
digits zero n written = written
digits (suc fuel) n written =
    let d : ℕ = 48 + n % 10 in
    let more : Str = digits fuel (n / 10) (d ∷ written) in if n / 10 == 0 then d ∷ written else more

-- `to_string` of an unsigned integer
unfoldable pub show : ℕ → Str
unfolding digits
show n = digits (suc n) n []

unfoldable pub read_digits : ℕ → ℕ → Str → Option ℕ
read_digits limit value [] = some value
read_digits limit value (c ∷ cs) =
    let next : ℕ = value * 10 + (c - 48) in
    let rest : Option ℕ = read_digits limit next cs in
    if within 48 57 c && ltb next limit then rest else none

-- `parse` of an unsigned integer below a limit: a plus sign may stand before the digits.
unfoldable pub parse : ℕ → Str → Option ℕ
unfolding read_digits
parse limit [] = none
parse limit (c ∷ cs) =
    if c == b'+' && not (is_empty cs) then read_digits limit 0 cs else read_digits limit 0 (c ∷ cs)

read_digit :
    (limit value d n : ℕ) (written : Str)
    → d < 10
    → value * 10 + d ≡ n
    → n < limit
    → read_digits limit value ((48 + d) ∷ written) ≡ read_digits limit n written
unfolding read_digits
read_digit limit value d n written small joined h =
    let next : value * 10 + (48 + d - 48) ≡ n = omega arith in rw next (ground arith)

read_digits-digits :
    (limit fuel n : ℕ) (written : Str)
    → n < limit
    → n < fuel
    → read_digits limit 0 (digits fuel n written) ≡ read_digits limit n written
unfolding digits
read_digits-digits limit zero n written h k = ground arith
read_digits-digits limit (suc fuel) n written h k = elim (Bool-cases (n / 10 == 0)) [
  | inl e ↦
      let small : n / 10 ≡ 0 = ground arith in
      rw e (read_digit limit 0 (n % 10) n written (omega arith) (omega arith) h)
  | inr e ↦
      let large : n / 10 ≢ 0 = ground arith in
      rw e (
        read_digits-digits limit fuel (n / 10) ((48 + n % 10) ∷ written) (omega arith) (omega arith)
        ∙ read_digit limit (n / 10) (n % 10) n written (omega arith) (omega arith) h)
]

-- No sign stands before digits that can be read.
parse-digits :
    (limit n : ℕ) (text : Str)
    → is_empty text ≡ false
    → read_digits limit 0 text ≡ some n
    → parse limit text ≡ some n
unfolding parse read_digits
parse-digits limit n [] h e = ground arith
parse-digits limit n (c ∷ cs) h e = ground arith

digits_some : (fuel n c : ℕ) (written : Str) → is_empty (digits fuel n (c ∷ written)) ≡ false
unfolding digits
digits_some zero n c written = refl
digits_some (suc fuel) n c written =
    ground (arith, digits_some fuel (n / 10) (48 + n % 10) (c ∷ written))

show_some : (n : ℕ) → is_empty (show n) ≡ false
unfolding show digits
show_some n = ground (arith, digits_some n (n / 10) (48 + n % 10) [])

-- What `to_string` writes, `parse` reads back, for a number that fits.
pub parse-show : (limit n : ℕ) → n < limit → parse limit (show n) ≡ some n
unfolding show
parse-show limit n h =
    parse-digits limit n (show n) (show_some n)
      (read_digits-digits limit (suc n) n [] h (omega arith) ∙ unfold read_digits in refl)
