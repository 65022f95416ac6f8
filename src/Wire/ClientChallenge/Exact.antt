-- ===== src/Wire/ClientChallenge/Exact.antt =====
-- `decode` and `encode` of a challenge in host-rs/src/wire.rs, in both orders.
use mobile_webcam_bridge.Prelude.{
  ℕ, ◌≡◌, ◌↔◌, ◌∙◌, ◌-◌, true, List, [], ◌∷◌, ◌++◌, arith, length, take, drop, take-append,
  drop-append, take-append-drop, take-all, length-append, length-drop, ap,
}
use mobile_webcam_bridge.Prelude.Outcome.{ok}
use mobile_webcam_bridge.Wire.Bytes.{index, slice, slice_lem}
use mobile_webcam_bridge.Wire.ClientChallenge.{
  ClientChallenge, valid_transport, valid_phone_binding, decode, encode,
}

-- The slices of a challenge whose first two bytes are `v` and `t`.
pub decode_slices :
    (v t : ℕ) (rest : List ℕ)
    → length rest ≡ 64
    → (slice (v ∷ t ∷ rest) 2 34 ≡ ok (take 32 rest))
      × (slice (v ∷ t ∷ rest) 34 66 ≡ ok (drop 32 rest))
decode_slices v t rest n = (
  slice_lem _ 2 34 (omega arith) (omega arith),
  slice_lem _ 34 66 (omega arith) (omega arith)
      ∙ ap ok (take-all 32 (drop 32 rest) (omega (arith, length-drop 32 rest))),
)

length-binding :
    (transport : ℕ) (binding : List ℕ)
    → valid_phone_binding transport binding ≡ true
    → length binding ≡ 32
unfolding valid_phone_binding
length-binding transport binding e = ground arith

decode-encode :
    (payload : List ℕ) (c : ClientChallenge) → encode c ≡ ok payload → decode payload ≡ ok c
unfolding encode decode index
decode-encode payload c e =
    let rest : List ℕ = c.phone_binding ++ c.nonce in
    let n : length c.phone_binding ≡ 32 =
      length-binding c.transport c.phone_binding (ground arith) in
    let k : length c.nonce ≡ 64 - 32 = ground arith in
    let r : length rest ≡ 64 = omega (arith, length-append c.phone_binding c.nonce) in
    ground (
      arith,
      decode_slices c.version c.transport rest r,
      take-append 32 c.phone_binding c.nonce n,
      drop-append 32 c.phone_binding c.nonce n,
    )

-- What `decode` has checked of two bytes and a rest, and what it returns.
decode_inv :
    (v t : ℕ) (rest : List ℕ) (c : ClientChallenge)
    → decode (v ∷ t ∷ rest) ≡ ok c
    → (length rest ≡ 64)
      × (v ≡ 2)
      × (valid_transport t ≡ true)
      × (valid_phone_binding t (take 32 rest) ≡ true)
      × (c ≡ record {
        version = v;
        transport = t;
        phone_binding = take 32 rest;
        nonce = drop 32 rest;
      })
unfolding decode index
decode_inv v t rest c e =
    let n : length rest ≡ 64 = ground arith in ground (arith, decode_slices v t rest n)

encode_of :
    (v t : ℕ) (rest : List ℕ)
    → length rest ≡ 64
    → v ≡ 2
    → valid_transport t ≡ true
    → valid_phone_binding t (take 32 rest) ≡ true
    → encode
        (record { version = v; transport = t; phone_binding = take 32 rest; nonce = drop 32 rest })
      ≡ ok (v ∷ t ∷ rest)
unfolding encode
encode_of v t rest n e f g = ground (arith, take-append-drop 32 rest, length-drop 32 rest)

encode-decode_pair :
    (v t : ℕ) (rest : List ℕ) (c : ClientChallenge)
    → decode (v ∷ t ∷ rest) ≡ ok c
    → encode c ≡ ok (v ∷ t ∷ rest)
encode-decode_pair v t rest c e =
    let (n, version, transport, binding, same) = decode_inv v t rest c e in
    rw same (encode_of v t rest n version transport binding)

encode-decode :
    (payload : List ℕ) (c : ClientChallenge) → decode payload ≡ ok c → encode c ≡ ok payload
encode-decode [] c e = unfold decode in ground arith
encode-decode (v ∷ []) c e = unfold decode in ground arith
encode-decode (v ∷ t ∷ rest) c e = encode-decode_pair v t rest c e

-- A byte string decodes to a challenge exactly when the challenge encodes to it; `encode` panics on
-- every challenge that `decode` cannot give.
pub challenge_exact :
    (payload : List ℕ) (c : ClientChallenge) → (decode payload ≡ ok c) ↔ (encode c ≡ ok payload)
challenge_exact payload c = (encode-decode payload c, decode-encode payload c)
