-- ===== src/Wire/PairingInfo/Laws.antt =====
-- Pairing details: which payloads decode, and which address is preferred.
use mobile_webcam_bridge.Prelude.{
  ℕ, zero, suc, ◌+◌, ◌*◌, ◌-◌, ◌/◌, ◌≤◌, ◌≡◌, refl, ◌↔◌, true, false, none, some, List, [], ◌∷◌,
  length, arith, In, ap, length-take, length-drop, take, drop,
}
use mobile_webcam_bridge.Prelude.Outcome.{ok}
use mobile_webcam_bridge.Wire.Bytes.{index_lem, byte_at, slice_lem}
use mobile_webcam_bridge.Wire.Header.{fits}
use mobile_webcam_bridge.Wire.PairingInfo.{
  Ipv4Addr, PairingInfo, hex, read_addresses, decode, private, find_private, preferred_address,
}

length-hex : (bytes : List ℕ) → length (hex bytes) ≡ 2 * length bytes
unfolding hex
length-hex [] = refl
length-hex (b ∷ bs) = omega (arith, length-hex bs)

read_addresses_total :
    (n at : ℕ) (payload : List ℕ)
    → at + 4 * n ≤ length payload
    → (l : List Ipv4Addr) × (read_addresses n at payload ≡ ok l) × (length l ≡ n)
unfolding read_addresses
read_addresses_total zero at payload h = ([], refl, refl)
read_addresses_total (suc n) at payload h =
    let (l, r, k) = read_addresses_total n (at + 4) payload (omega arith) in
    (
      record {
        a = byte_at payload at;
        b = byte_at payload (at + 1);
        c = byte_at payload (at + 2);
        d = byte_at payload (at + 3);
      }
          ∷ l,
      rw
          (
            index_lem payload at (omega arith),
            index_lem payload (at + 1) (omega arith),
            index_lem payload (at + 2) (omega arith),
            index_lem payload (at + 3) (omega arith),
            r,
          )
          refl,
      ap suc k,
    )

-- `fits` lets exactly the lengths through that some payload with 1 to 4 addresses has.
pub fits_iff :
    (n : ℕ) → (fits n ≡ true) ↔ ((count : ℕ) × (1 ≤ count) × (count ≤ 4) × (n ≡ 50 + 4 * count))
unfolding fits
fits_iff n =
    (λ h. ((n - 50) / 4, ground arith, ground arith, ground arith), λ (c, a, b, e). ground arith)

-- The count that a payload states.
abbrev pub count_of : List ℕ → ℕ
count_of payload = byte_at payload 1

decode_guards :
    (payload : List ℕ) (info : PairingInfo)
    → decode payload ≡ ok info
    → (1 ≤ count_of payload)
      × (count_of payload ≤ 4)
      × (length payload ≡ 50 + 4 * count_of payload)
      × (byte_at payload 0 ≡ 1)
unfolding decode
decode_guards payload info e =
    let long : 2 ≤ length payload = ground arith in
    ground
      (arith, index_lem payload 0 (omega (arith, long)), index_lem payload 1 (omega (arith, long)))

-- The two fields of 32 and 16 bytes behind the addresses.
abbrev fingerprint_of : List ℕ → List ℕ
fingerprint_of payload = take 32 (drop (2 + count_of payload * 4) payload)

abbrev key_of : List ℕ → List ℕ
key_of payload = take 16 (drop (2 + count_of payload * 4 + 32) payload)

decode_fields :
    (payload : List ℕ)
    → 1 ≤ count_of payload
    → count_of payload ≤ 4
    → length payload ≡ 50 + 4 * count_of payload
    → byte_at payload 0 ≡ 1
    → (l : List Ipv4Addr) × (decode payload
        ≡ ok (record {
          addresses = l;
          fingerprint = hex (fingerprint_of payload);
          key = hex (key_of payload);
        }))
      × (length l ≡ count_of payload)
unfolding decode
decode_fields payload low high n v =
    let at : ℕ = 2 + count_of payload * 4 in
    let (l, r, k) = read_addresses_total (count_of payload) 2 payload (omega arith) in
    let wide : at + 32 - at ≡ 32 = omega arith in
    let rest : length payload - (at + 32) ≡ 16 = omega arith in
    (
      l,
      rw
          (
            index_lem payload 0 (omega arith),
            v,
            index_lem payload 1 (omega arith),
            r,
            slice_lem payload at (at + 32) (omega arith) (omega arith),
            slice_lem payload (at + 32) (length payload) (omega arith) (omega arith),
            wide,
            rest,
          )
          (ground arith),
      k,
    )

-- A decoded pairing has 1 to 4 addresses, as many as its count byte says, a 64-digit fingerprint and
-- a 32-digit key; its payload has the version 1 and a length that the header check lets through.
pub pairing_shape :
    (payload : List ℕ) (info : PairingInfo)
    → decode payload ≡ ok info
    → (1 ≤ length info.addresses)
      × (length info.addresses ≤ 4)
      × (length info.addresses ≡ count_of payload)
      × (length info.fingerprint ≡ 64)
      × (length info.key ≡ 32)
      × (byte_at payload 0 ≡ 1)
      × (fits (length payload) ≡ true)
pairing_shape payload info e =
    let (low, high, n, v) = decode_guards payload info e in
    let (l, r, k) = decode_fields payload low high n v in
    let at : ℕ = 2 + count_of payload * 4 in
    ground (
      arith,
      e,
      r,
      k,
      (fits_iff (length payload)).1 (count_of payload, low, high, n),
      length-hex (fingerprint_of payload),
      length-hex (key_of payload),
      length-take 32 (drop at payload),
      length-drop at payload,
      length-take 16 (drop (at + 32) payload),
      length-drop (at + 32) payload,
    )

-- Every payload with the version 1, a count of 1 to 4 and the length that the count calls for decodes.
pub pairing_accepts :
    (payload : List ℕ)
    → 1 ≤ count_of payload
    → count_of payload ≤ 4
    → length payload ≡ 50 + 4 * count_of payload
    → byte_at payload 0 ≡ 1
    → (info : PairingInfo) × (decode payload ≡ ok info)
pairing_accepts payload low high n v = let (l, r, k) = decode_fields payload low high n v in (_, r)

find_private-some :
    (l : List Ipv4Addr) (x : Ipv4Addr) → find_private l ≡ some x → In x l × (private x ≡ true)
unfolding find_private
find_private-some [] x e = cc
find_private-some (y ∷ ys) x e = ground (arith, find_private-some ys x)

find_private-none :
    (l : List Ipv4Addr) (x : Ipv4Addr) → find_private l ≡ none → In x l → private x ≡ false
unfolding find_private
find_private-none [] x e m = absurd m
find_private-none (y ∷ ys) x e m = ground (arith, find_private-none ys x)

-- The preferred address is one that the phone sent, and it is a private one if the phone sent any.
pub preferred_address-private :
    (info : PairingInfo) (x y : Ipv4Addr)
    → preferred_address info ≡ some x
    → In y info.addresses
    → private y ≡ true
    → In x info.addresses × (private x ≡ true)
unfolding preferred_address
preferred_address-private info x y e m p =
    ground (arith, find_private-some info.addresses x, find_private-none info.addresses y)
