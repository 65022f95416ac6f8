-- ===== src/Usb/Bytes.antt =====
-- The bytes that the frame reader gets through the closure of `poll_receive` in host-rs/src/usb.rs.
use mobile_webcam_bridge.Prelude.{
  ℕ, ◌≡◌, ◌∙◌, ap, refl, sym, List, [], ◌∷◌, ◌++◌, arith, take-append-drop, ◌⊎◌, inl, inr,
}
use mobile_webcam_bridge.Prelude.Outcome.{Result, ok, err, panic, Result-cases}
use mobile_webcam_bridge.Usb.{Bulk, transfer, timeout, interruption, broken, refill, read_some}
use mathlib.Core.List.{append_assoc, append-nil}

-- A sequence of calls, each with its room and the transfer that waits: the bytes that were handed on,
-- and what is pending in the end. The reader calls again after an error.
unfoldable pub reads : List ℕ → List (ℕ × Bulk) → List ℕ × List ℕ
reads pending [] = ([], pending)
reads pending ((room, bulk) ∷ calls) = elim (read_some pending room bulk) [
  | ok (bytes, left) ↦ (bytes ++ (reads left calls).0, (reads left calls).1)
  | err e ↦ reads pending calls
  | panic ↦ reads pending calls
]

-- What a transfer brings.
abbrev pub brings : List ℕ → Bulk → List ℕ
brings [] (transfer bytes) = bytes
brings _ _ = []

-- What the transfers of the calls brought; one is made only where nothing is pending.
unfoldable pub brought : List ℕ → List (ℕ × Bulk) → List ℕ
brought pending [] = []
brought pending ((room, bulk) ∷ calls) = elim (read_some pending room bulk) [
  | ok (bytes, left) ↦ brings pending bulk ++ brought left calls
  | err e ↦ brings pending bulk ++ brought pending calls
  | panic ↦ brings pending bulk ++ brought pending calls
]

-- One call neither drops nor repeats a byte.
read_some_exact :
    (pending : List ℕ) (room : ℕ) (bulk : Bulk) (bytes left : List ℕ)
    → read_some pending room bulk ≡ ok (bytes, left)
    → bytes ++ left ≡ pending ++ brings pending bulk
unfolding read_some refill
read_some_exact [] room (transfer []) bytes left e = ground arith
read_some_exact [] room (transfer (b ∷ bs)) bytes left e =
    ground (arith, take-append-drop room (b ∷ bs))
read_some_exact [] room timeout bytes left e = ground arith
read_some_exact [] room interruption bytes left e = ground arith
read_some_exact [] room (broken message) bytes left e = ground arith
read_some_exact (p ∷ ps) room bulk bytes left e =
    ground (arith, take-append-drop room (p ∷ ps), append-nil (p ∷ ps))

-- A call that fails has brought nothing.
failed_exact :
    (pending : List ℕ) (room : ℕ) (bulk : Bulk) (r : Result (List ℕ × List ℕ))
    → read_some pending room bulk ≡ r
    → (brings pending bulk ≡ []) ⊎ ((x : List ℕ × List ℕ) × (r ≡ ok x))
unfolding read_some refill
failed_exact (p ∷ ps) room bulk r e = inl refl
failed_exact [] room (transfer []) r e = inl refl
failed_exact [] room (transfer (b ∷ bs)) r e = inr (_, sym e)
failed_exact [] room timeout r e = inl refl
failed_exact [] room interruption r e = inl refl
failed_exact [] room (broken message) r e = inl refl

-- The bytes that the frame reader is handed, and those still pending, are the ones that were pending
-- and the ones that the transfers brought, in their order: none is lost and none comes twice, however
-- the reader's room cuts the transfers and whatever calls time out or are interrupted.
pub reads_exact :
    (pending : List ℕ) (calls : List (ℕ × Bulk))
    → (reads pending calls).0 ++ (reads pending calls).1 ≡ pending ++ brought pending calls
unfolding reads brought
reads_exact pending [] = sym (append-nil pending)
reads_exact pending ((room, bulk) ∷ calls) = elim (Result-cases (read_some pending room bulk)) [
  | inl ((bytes, left), e) ↦
      let ih = reads_exact left calls in
      let one = read_some_exact pending room bulk bytes left e in
      let d : List ℕ = (reads left calls).0 in
      let q : List ℕ = (reads left calls).1 in
      let b : List ℕ = brought left calls in
      let chain : (bytes ++ d) ++ q ≡ pending ++ (brings pending bulk ++ b) =
        append_assoc bytes d q
        ∙ ap (λ l. bytes ++ l) ih
        ∙ sym (append_assoc bytes left b)
        ∙ ap (λ l. l ++ b) one
        ∙ append_assoc pending (brings pending bulk) b in
      ground (arith, e, chain)
  | inr (inl (x, e)) ↦
      ground (arith, e, reads_exact pending calls, failed_exact pending room bulk (err x) e)
  | inr (inr e) ↦
      ground (arith, e, reads_exact pending calls, failed_exact pending room bulk panic e)
]
