-- ===== src/Wire/Header/Canonical.antt =====
-- `Header::decode` of host-rs/src/wire.rs on any input.
use mobile_webcam_bridge.Prelude.{
  ℕ, ◌↔◌, ◌≡◌, List, arith, length, tabulate, by_length, Bool-cases, inl, inr, ◌==◌,
}
use mobile_webcam_bridge.Prelude.Outcome.{ok, NoPanic}
use mobile_webcam_bridge.Wire.Bytes.{IsBytes}
use mobile_webcam_bridge.Wire.Header.{
  Header, IsHeader, header_bytes, check_magic, read_header, decode, encode, validate_payload_size,
}
use mobile_webcam_bridge.Wire.Header.RoundTrip.{decode_inv, decode-encode}

length-check_magic : (bytes : List ℕ) → check_magic bytes ≡ ok tt → length bytes ≡ 24
unfolding check_magic
length-check_magic bytes e = ground arith

header_bytes_of :
    (f : ℕ → ℕ) (h : Header)
    → IsBytes (tabulate 24 f)
    → check_magic (tabulate 24 f) ≡ ok tt
    → read_header (tabulate 24 f) ≡ ok h
    → (header_bytes h ≡ tabulate 24 f) × IsHeader h
unfolding check_magic read_header header_bytes
header_bytes_of f h b m r = ground arith

-- The header bytes that were read, written again.
header_bytes-read :
    (bytes : List ℕ) (h : Header)
    → IsBytes bytes
    → decode bytes ≡ ok h
    → (header_bytes h ≡ bytes) × IsHeader h
header_bytes-read bytes h b e =
    let (m, r, _, _) = decode_inv bytes h e in
    by_length 24
      (λ l.
        IsBytes l
        → check_magic l ≡ ok tt
        → read_header l ≡ ok h
        → (header_bytes h ≡ l) × IsHeader h)
      (λ f. header_bytes_of f h) bytes (length-check_magic bytes m) b m r

-- A byte string that `decode` accepts is the one that `encode` writes for the header, whose fields
-- are in the range of their types.
pub encode-decode :
    (bytes : List ℕ) (h : Header)
    → IsBytes bytes
    → decode bytes ≡ ok h
    → (encode h ≡ ok bytes) × IsHeader h
unfolding encode
encode-decode bytes h b e =
    let (written, range) = header_bytes-read bytes h b e in
    let (_, _, fits, valid) = decode_inv bytes h e in (ground (arith, written, valid), range)

decode-NoPanic_of : (f : ℕ → ℕ) → NoPanic (decode (tabulate 24 f))
unfolding decode check_magic read_header validate_payload_size
decode-NoPanic_of f = ground arith

-- `decode` never panics: the slices stay inside every input that passes the length test.
pub decode-NoPanic : (bytes : List ℕ) → NoPanic (decode bytes)
decode-NoPanic bytes = elim (Bool-cases (length bytes == 24)) [
  | inl e ↦ by_length 24 (λ l. NoPanic (decode l)) decode-NoPanic_of bytes (ground arith)
  | inr e ↦ unfold decode check_magic in rw e tt
]

-- A byte string decodes to a header exactly when the header, with its fields in the range of their
-- types, encodes to it. So no two byte strings stand for one header.
pub header_exact :
    (bytes : List ℕ) (h : Header)
    → IsBytes bytes
    → (decode bytes ≡ ok h) ↔ ((encode h ≡ ok bytes) × IsHeader h)
header_exact bytes h b = (encode-decode bytes h b, λ (e, v). decode-encode h bytes v e)
