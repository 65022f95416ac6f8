-- ===== src/Wire/Label.antt =====
-- `valid_label` of host-rs/src/wire.rs. A label is its UTF-8 bytes; `str::from_utf8` and
-- `char::is_whitespace` are the standard library's, and the general category of a character is that
-- of the crate unicode-general-category, a parameter.
use mobile_webcam_bridge.Prelude.{
  ℕ, ◌+◌, ◌*◌, ◌-◌, Bool, true, false, not, ◌&&◌, ◌||◌, Option, none, some, List, [], ◌∷◌, leb, ltb,
  ◌==◌, if◌then◌else◌, length,
}
use mobile_webcam_bridge.Wire.Kinds.{max_client_label}
use mobile_webcam_bridge.Wire.Header.{within}
use mathlib.Core.Option

-- The decoder between two bytes: how many continuation bytes the character still wants, the range
-- of the next one, and the bits read so far.
pub record Partial : Type 0 where
  pub missing : ℕ
  pub lower : ℕ
  pub upper : ℕ
  pub code : ℕ

abbrev pub idle : Partial
idle = record { missing = 0; lower = 0x80; upper = 0xbf; code = 0 }

abbrev lead : ℕ → ℕ → ℕ → ℕ → Option Partial
lead missing lower upper code =
    some (record { missing = missing; lower = lower; upper = upper; code = code })

-- A leading byte over 0x7f: overlong forms, surrogates and code points over 0x10ffff are refused.
unfoldable pub leading : ℕ → Option Partial
leading b =
    if within 0xc2 0xdf b
    then lead 1 0x80 0xbf (b - 0xc0)
    else if b == 0xe0
    then lead 2 0xa0 0xbf 0
    else if b == 0xed
    then lead 2 0x80 0x9f 13
    else if within 0xe1 0xef b
    then lead 2 0x80 0xbf (b - 0xe0)
    else if b == 0xf0
    then lead 3 0x90 0xbf 0
    else if b == 0xf4
    then lead 3 0x80 0x8f 4
    else if within 0xf1 0xf3 b
    then lead 3 0x80 0xbf (b - 0xf0)
    else none

-- A continuation byte.
unfoldable pub continuing : Partial → ℕ → Option (Partial × Option ℕ)
continuing p b =
    if not (within p.lower p.upper b)
    then none
    else if p.missing == 1
    then some (idle, some (p.code * 64 + (b - 0x80)))
    else some (
      record {
        missing = p.missing - 1;
        lower = 0x80;
        upper = 0xbf;
        code = p.code * 64 + (b - 0x80);
      },
      none,
    )

-- One byte: the new state, and the character if this byte ends one.
unfoldable pub utf8_step : Partial → ℕ → Option (Partial × Option ℕ)
unfolding leading continuing
utf8_step p b =
    if not (p.missing == 0)
    then continuing p b
    else if ltb b 0x80
    then some (idle, some b)
    else Option.map (λ q. (q, none)) (leading b)

abbrev emit : Option ℕ → List ℕ → List ℕ
emit none cs = cs
emit (some c) cs = c ∷ cs

unfoldable pub utf8_from : Partial → List ℕ → Option (List ℕ)
unfolding utf8_step
utf8_from p [] = if p.missing == 0 then some [] else none
utf8_from p (b ∷ bs) = elim (utf8_step p b) [
  | none ↦ none
  | some (q, c) ↦ Option.map (emit c) (utf8_from q bs)
]

-- `str::from_utf8`, to the characters.
unfoldable pub from_utf8 : List ℕ → Option (List ℕ)
unfolding utf8_from
from_utf8 bytes = utf8_from idle bytes

-- `char::is_whitespace`: the Unicode property White_Space.
unfoldable pub is_whitespace : ℕ → Bool
is_whitespace c =
    within 0x09 0x0d c
    || c == 0x20
    || c == 0x85
    || c == 0xa0
    || c == 0x1680
    || within 0x2000 0x200a c
    || c == 0x2028
    || c == 0x2029
    || c == 0x202f
    || c == 0x205f
    || c == 0x3000

-- The categories that `valid_label` names, and `other` for the rest.
pub data Category : Type 0 where
  control format line_separator paragraph_separator other : Category

abbrev pub is_hidden : Category → Bool
is_hidden other = false
is_hidden _ = true

-- `!label.trim().is_empty()`: some character is no white space.
unfoldable pub any_visible : List ℕ → Bool
unfolding is_whitespace
any_visible [] = false
any_visible (c ∷ cs) = not (is_whitespace c) || any_visible cs

module _ (category : ℕ → Category) where
  unfoldable pub any_hidden : List ℕ → Bool
  any_hidden [] = false
  any_hidden (c ∷ cs) = is_hidden (category c) || any_hidden cs

  unfoldable pub valid_chars : List ℕ → ℕ → Bool
  unfolding any_visible any_hidden
  valid_chars chars bytes =
      any_visible chars && leb bytes max_client_label && not (any_hidden chars)

  -- A `str` is valid UTF-8 by its type; of other bytes this says no.
  unfoldable pub valid_label : List ℕ → Bool
  valid_label label = elim (from_utf8 label) [
    | none ↦ false
    | some chars ↦ valid_chars chars (length label)
  ]
