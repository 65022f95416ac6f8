-- ===== src/Wire/ClientAuth/RoundTrip.antt =====
-- `ClientAuth::encode` and `ClientAuth::decode` of host-rs/src/wire.rs, one after the other.
use mobile_webcam_bridge.Prelude.{
  ℕ, ◌+◌, ◌-◌, ◌≤◌, ◌≡◌, ◌∙◌, true, List, [], ◌∷◌, ◌++◌, arith, length, ap, refl, take-append,
  drop-append, length-append, some, zero, suc, Option-cases, inl, inr,
}
use mobile_webcam_bridge.Prelude.Outcome.{ok}
use mobile_webcam_bridge.Wire.Bytes.{index, slice, slice_lem}
use mobile_webcam_bridge.Wire.Label.{Category, from_utf8, valid_chars, valid_label}
use mobile_webcam_bridge.Wire.ClientAuth.{ClientAuth, auth_bytes, decode, encode}
use mathlib.Core.List.{append_assoc, append-nil}

index-append :
    (k : ℕ) (xs : List ℕ) (y : ℕ) (ys : List ℕ) → length xs ≡ k → index (xs ++ (y ∷ ys)) k ≡ ok y
unfolding index
index-append zero [] y ys e = refl
index-append zero (x ∷ xs) y ys e = absurd (omega arith)
index-append (suc k) [] y ys e = absurd (omega arith)
index-append (suc k) (x ∷ xs) y ys e = index-append k xs y ys (omega arith)

slice-append :
    (lo hi : ℕ) (xs ys zs : List ℕ)
    → length xs ≡ lo
    → lo + length ys ≡ hi
    → slice (xs ++ (ys ++ zs)) lo hi ≡ ok ys
slice-append lo hi xs ys zs e f =
    slice_lem (xs ++ (ys ++ zs)) lo hi (omega arith)
      (omega (arith, length-append xs (ys ++ zs), length-append ys zs))
    ∙ rw (drop-append lo xs (ys ++ zs) e) (ap ok (take-append (hi - lo) ys zs (omega arith)))

-- The slices of a payload, in terms of the parts that it was joined from.
module _ (v n : ℕ) (key label signature : List ℕ) (k : length key ≡ 65)
    (s : length signature ≡ 64) where
  abbrev payload : List ℕ
  payload = v ∷ (key ++ (n ∷ (label ++ signature)))

  length-payload : length payload ≡ 131 + length label
  length-payload =
      omega (arith, length-append key (n ∷ (label ++ signature)), length-append label signature)

  label_length-payload : index payload 66 ≡ ok n
  label_length-payload = index-append 66 (v ∷ key) n (label ++ signature) (omega arith)

  key-payload : slice payload 1 66 ≡ ok key
  key-payload = slice-append 1 66 (v ∷ []) key (n ∷ (label ++ signature)) refl (omega arith)

  label-payload : slice payload 67 (67 + length label) ≡ ok label
  label-payload = rw (append_assoc key (n ∷ []) (label ++ signature)) at (
      slice-append 67 (67 + length label) (v ∷ (key ++ (n ∷ []))) label signature
        (omega (arith, length-append key (n ∷ []))) refl)

  signature-payload : slice payload (length payload - 64) (length payload) ≡ ok signature
  signature-payload =
      rw (append_assoc key (n ∷ label) (signature ++ []), append-nil) at
        (slice-append (length payload - 64) (length payload) (v ∷ (key ++ (n ∷ label))) signature []
          (omega (arith, length-payload, length-append key (n ∷ label)))
          (omega (arith, length-payload)))

  first-payload : index payload 1 ≡ index key 0
  unfolding index
  first-payload = first key k
    where
      first :
          (key : List ℕ)
          → length key ≡ 65
          → index (v ∷ (key ++ (n ∷ (label ++ signature)))) 1 ≡ index key 0
      first [] e = absurd (omega arith)
      first (x ∷ xs) e = refl

  version-payload : index payload 0 ≡ ok v
  unfolding index
  version-payload = refl

module _ (category : ℕ → Category) where
  -- What the test of a label has found.
  valid_label_inv :
      (label : List ℕ)
      → valid_label category label ≡ true
      → (chars : List ℕ) × (from_utf8 label ≡ some chars)
        × (valid_chars category chars (length label) ≡ true)
        × (length label ≤ 32)
  unfolding valid_label
  valid_label_inv label e = elim (Option-cases (from_utf8 label)) [
    | inl p ↦ cc (rw (p, valid_label) at e)
    | inr (chars, p) ↦
        let good : valid_chars category chars (length label) ≡ true = rw (p, valid_label) at e in
        (chars, p, good, unfold valid_chars in ground arith)
  ]

  encode_inv :
      (a : ClientAuth) (written : List ℕ)
      → encode category a ≡ ok written
      → (auth_bytes category a ≡ written)
        × (a.version ≡ 2)
        × (length a.public_key ≡ 65)
        × (index a.public_key 0 ≡ ok 4)
        × (length a.signature ≡ 64)
        × (valid_label category a.label ≡ true)
  unfolding encode
  encode_inv a written e = ground arith

  decode_parts :
      (n : ℕ) (key label signature chars : List ℕ)
      → length key ≡ 65
      → length signature ≡ 64
      → n ≡ length label
      → length label ≤ 32
      → index key 0 ≡ ok 4
      → from_utf8 label ≡ some chars
      → valid_chars category chars (length label) ≡ true
      → decode category (2 ∷ (key ++ (n ∷ (label ++ signature))))
        ≡ ok (record { version = 2; public_key = key; label = label; signature = signature })
  unfolding decode
  decode_parts n key label signature chars k s same short first u good = ground (
    arith,
    length-payload 2 n key label signature k s,
    version-payload 2 n key label signature k s,
    label_length-payload 2 n key label signature k s,
    label-payload 2 n key label signature k s,
    first-payload 2 n key label signature k s,
    key-payload 2 n key label signature k s,
    signature-payload 2 n key label signature k s,
  )

  -- What `encode` writes, `decode` reads back.
  pub client_auth_round_trip :
      (a : ClientAuth) (written : List ℕ)
      → encode category a ≡ ok written
      → decode category written ≡ ok a
  client_auth_round_trip a written e =
      let (w, version, k, first, s, valid) = encode_inv a written e in
      let (chars, u, good, short) = valid_label_inv a.label valid in
      rw (← w, version)
        (decode_parts _ a.public_key a.label a.signature chars k s (omega arith) short first u good)
