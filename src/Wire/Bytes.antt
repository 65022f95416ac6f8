-- ===== src/Wire/Bytes.antt =====
-- Byte slices as lists of numbers, and the little-endian integers of host-rs/src/wire.rs
-- (`uN::from_le_bytes(payload[a..b].try_into().unwrap())` and `to_le_bytes`).
use mobile_webcam_bridge.Prelude.{
  ℕ, zero, suc, ◌+◌, ◌-◌, ◌*◌, ◌/◌, ◌%◌, ◌≤◌, ◌<◌, ◌≡◌, refl, Bool, true, ◌&&◌, List, [], ◌∷◌, none,
  some, arith, leb, ◌==◌, if◌then◌else◌, length, take, drop, get_elem?, All,
}
use mobile_webcam_bridge.Prelude.Outcome.{Result, ok, panic, ◌>>=◌}

abbrev pub IsByte : ℕ → Type 0
IsByte b = b < 256

abbrev pub IsBytes : List ℕ → Type 0
IsBytes = All IsByte

-- Equality of byte strings.
abbrev pub same : List ℕ → List ℕ → Bool
same [] [] = true
same (x ∷ xs) (y ∷ ys) = x == y && same xs ys
same _ _ = Bool.false

pub same_sound : (xs ys : List ℕ) → same xs ys ≡ true → xs ≡ ys
same_sound [] [] e = refl
same_sound [] (y ∷ ys) e = ground arith
same_sound (x ∷ xs) [] e = ground arith
same_sound (x ∷ xs) (y ∷ ys) e =
    let p : x ≡ y = ground arith in let q : xs ≡ ys = same_sound xs ys (ground arith) in cc (p, q)

pub same_refl : (xs : List ℕ) → same xs xs ≡ true
same_refl [] = refl
same_refl (x ∷ xs) = ground (arith, same_refl xs)

-- `bytes[lo..hi]`, which panics out of bounds.
unfoldable pub slice : List ℕ → ℕ → ℕ → Result (List ℕ)
slice bytes lo hi =
    if leb lo hi && leb hi (length bytes) then ok (take (hi - lo) (drop lo bytes)) else panic

-- `bytes[i]`
unfoldable pub index : List ℕ → ℕ → Result ℕ
index bytes i = elim (get_elem? bytes i) [ none ↦ panic | some b ↦ ok b ]

abbrev pub from_le : List ℕ → ℕ
from_le [] = 0
from_le (b ∷ bs) = b + 256 * from_le bs

-- The `k` bytes of `v`, lowest first.
abbrev pub to_le : ℕ → ℕ → List ℕ
to_le zero v = []
to_le (suc k) v = v % 256 ∷ to_le k (v / 256)

unfoldable pub u16_at : List ℕ → ℕ → Result ℕ
unfolding slice
u16_at bytes i = do b ← slice bytes i (i + 2); ok (from_le b)

unfoldable pub u32_at : List ℕ → ℕ → Result ℕ
unfolding slice
u32_at bytes i = do b ← slice bytes i (i + 4); ok (from_le b)

unfoldable pub u64_at : List ℕ → ℕ → Result ℕ
unfolding slice
u64_at bytes i = do b ← slice bytes i (i + 8); ok (from_le b)

pub slice_lem :
    (bytes : List ℕ) (lo hi : ℕ)
    → lo ≤ hi
    → hi ≤ length bytes
    → slice bytes lo hi ≡ ok (take (hi - lo) (drop lo bytes))
unfolding slice
slice_lem bytes lo hi h k = ground arith

-- The byte at `i` as a total function, for reads within bounds.
abbrev pub byte_at : List ℕ → ℕ → ℕ
byte_at [] i = 0
byte_at (x ∷ xs) zero = x
byte_at (x ∷ xs) (suc i) = byte_at xs i

pub index_lem : (bytes : List ℕ) (i : ℕ) → i < length bytes → index bytes i ≡ ok (byte_at bytes i)
unfolding index
index_lem [] i h = absurd (omega arith)
index_lem (x ∷ xs) zero h = refl
index_lem (x ∷ xs) (suc i) h = index_lem xs i (omega arith)

pub u16_at_lem :
    (bytes : List ℕ) (i : ℕ)
    → i + 2 ≤ length bytes
    → u16_at bytes i ≡ ok (from_le (take 2 (drop i bytes)))
unfolding u16_at
u16_at_lem bytes i h = let e : i + 2 - i ≡ 2 = omega arith in ground (arith, e)

pub u32_at_lem :
    (bytes : List ℕ) (i : ℕ)
    → i + 4 ≤ length bytes
    → u32_at bytes i ≡ ok (from_le (take 4 (drop i bytes)))
unfolding u32_at
u32_at_lem bytes i h = let e : i + 4 - i ≡ 4 = omega arith in ground (arith, e)
