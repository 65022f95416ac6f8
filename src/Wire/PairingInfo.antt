-- ===== src/Wire/PairingInfo.antt =====
-- `PairingInfo` and `hex` of host-rs/src/wire.rs. Texts are their ASCII bytes.
pub mod Laws
use mobile_webcam_bridge.Prelude.{
  ℕ, zero, suc, ◌+◌, ◌*◌, ◌/◌, ◌%◌, Bool, ◌&&◌, ◌||◌, Option, none, some, List, [], ◌∷◌, ◌++◌,
  length, leb, ltb, ◌==◌, if◌then◌else◌,
}
use mobile_webcam_bridge.Prelude.Outcome.{
  ErrorKind, boxed, error, Error, Result, ok, ◌>>=◌, ◌>>◌, guard,
}
use mobile_webcam_bridge.Wire.Bytes.{index, slice}
use mobile_webcam_bridge.Wire.Header.{within}
use Prim.Native.String.{String}

-- `std::net::Ipv4Addr`
pub record Ipv4Addr : Type 0 where
  pub a : ℕ
  pub b : ℕ
  pub c : ℕ
  pub d : ℕ

pub record PairingInfo : Type 0 where
  pub addresses : List Ipv4Addr
  pub fingerprint : List ℕ
  pub key : List ℕ

-- `format!("{byte:02x}")`, digit by digit.
unfoldable pub hex_digit : ℕ → ℕ
hex_digit n = if ltb n 10 then b'0' + n else 87 + n

unfoldable pub hex : List ℕ → List ℕ
hex [] = []
hex (byte ∷ rest) = hex_digit (byte / 16) ∷ hex_digit (byte % 16) ∷ hex rest

-- The loop `for index in 0..count`, `n` rounds from the address at `at` on.
unfoldable pub read_addresses : ℕ → ℕ → List ℕ → Result (List Ipv4Addr)
read_addresses zero at payload = ok []
read_addresses (suc n) at payload = do
  a ← index payload at
  b ← index payload (at + 1)
  c ← index payload (at + 2)
  d ← index payload (at + 3)
  rest ← read_addresses n (at + 4) payload
  ok (record { a = a; b = b; c = c; d = d } ∷ rest)

unfoldable pub decode : List ℕ → Result PairingInfo
decode payload = do
  guard (leb 2 (length payload)) (error boxed "pairing info is too short")
  version ← index payload 0
  guard (version == 1) (error boxed "unexpected pairing info version")
  count ← index payload 1
  guard (within 1 4 count) (error boxed "pairing info carries an unusable address count")
  guard (length payload == 2 + count * 4 + 32 + 16)
      (error boxed "pairing info has trailing or missing bytes")
  addresses ← read_addresses count 2 payload
  fingerprint ← slice payload (2 + count * 4) (2 + count * 4 + 32)
  key ← slice payload (2 + count * 4 + 32) (length payload)
  ok (record { addresses = addresses; fingerprint = hex fingerprint; key = hex key })

-- `address.is_private() || address.is_link_local()`, of the standard library.
unfoldable pub private : Ipv4Addr → Bool
private x =
    x.a == 10
    || (x.a == 172 && within 16 31 x.b)
    || (x.a == 192 && x.b == 168)
    || (x.a == 169 && x.b == 254)

-- `iter().find(private)`
unfoldable pub find_private : List Ipv4Addr → Option Ipv4Addr
find_private [] = none
find_private (x ∷ xs) = if private x then some x else find_private xs

abbrev pub first : List Ipv4Addr → Option Ipv4Addr
first [] = none
first (x ∷ xs) = some x

-- `Option::or_else`
abbrev pub or_else {ℓ} : {A : Type ℓ} → Option A → Option A → Option A
or_else none y = y
or_else (some x) y = some x

unfoldable pub preferred_address : PairingInfo → Option Ipv4Addr
unfolding find_private
preferred_address info = or_else (find_private info.addresses) (first info.addresses)
