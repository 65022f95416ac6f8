-- ===== src/Prelude/Outcome.antt =====
-- Results of fallible code: `io::Result` and `crate::Result` with their error kept as a value, and
-- the panics of slices, `assert!` and `unwrap`.
use Prim.Native.String.{String}
use mathlib.Core.Path.{◌≡◌, refl}
use mathlib.Core.Logic.{◌⊎◌, inl, inr}
use native.Mathlib.Omega.{arith}
use mathlib.Core.Bool.{Bool, true, false}

-- `io::ErrorKind`, and `boxed` for the boxed strings of `crate::Result`.
pub data ErrorKind : Type 0 where
  invalid_data invalid_input timed_out interrupted unexpected_eof other boxed : ErrorKind

pub data Error : Type 0 where
  error : ErrorKind → String → Error

-- The value comes from a function that returns, fails with `Err`, or unwinds.
pub data Result {ℓ} (A : Type ℓ) : Type ℓ where
  panic : Result A
  err : Error → Result A
  ok : A → Result A

-- `assert!(held)`
abbrev pub assert : Bool → Result (Unit {0})
assert false = panic
assert true = ok tt

-- `if !held { return Err(error) }`
abbrev pub guard : Bool → Error → Result (Unit {0})
guard false failure = err failure
guard true failure = ok tt

infixl 5 ◌>>=◌ ◌>>◌
-- `?` on a result, before the rest of the function.
abbrev pub ◌>>=◌ {ℓ κ} : {A : Type ℓ} {B : Type κ} → Result A → (A → Result B) → Result B
panic >>= next = panic
err failure >>= next = err failure
ok value >>= next = next value

abbrev pub ◌>>◌ {κ} : {B : Type κ} → Result (Unit {0}) → Result B → Result B
checked >> next = checked >>= λ done. next

-- The computation did not panic.
abbrev pub NoPanic {ℓ} : {A : Type ℓ} → Result A → Type 0
NoPanic (ok a) = Unit
NoPanic (err e) = Unit
NoPanic panic = ⊥

-- A chain that succeeds has a first step that succeeds.
pub bind_inv {ℓ κ} :
    {A : Type ℓ} {B : Type κ} (m : Result A) (f : A → Result B) (b : B)
    → (m >>= f) ≡ ok b
    → (a : A) × (m ≡ ok a) × (f a ≡ ok b)
bind_inv (ok a) f b e = (a, refl, e)
bind_inv (err x) f b e = ground arith
bind_inv panic f b e = ground arith

pub NoPanic-bind {ℓ κ} :
    {A : Type ℓ} {B : Type κ} (m : Result A) (f : A → Result B)
    → NoPanic m
    → ((a : A) → m ≡ ok a → NoPanic (f a))
    → NoPanic (m >>= f)
NoPanic-bind (ok a) f n h = h a refl
NoPanic-bind (err x) f n h = tt
NoPanic-bind panic f n h = n

-- To split on a result and keep the equation.
pub Result-cases {ℓ} :
    {A : Type ℓ} (r : Result A) → ((a : A) × (r ≡ ok a)) ⊎ ((e : Error) × (r ≡ err e)) ⊎ (r ≡ panic)
Result-cases (ok a) = inl (a, refl)
Result-cases (err e) = inr (inl (e, refl))
Result-cases panic = inr (inr refl)
