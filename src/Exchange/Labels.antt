-- ===== src/Exchange/Labels.antt =====
-- The label of host-rs/src/client_auth.rs against `valid_label` of host-rs/src/wire.rs.
use mobile_webcam_bridge.Prelude.{
  ℕ, ◌≤◌, ◌≡◌, ◌⊎◌, inl, inr, refl, true, false, List, [], ◌∷◌, Option, none, some, arith, length,
  Bool-cases,
}
use mobile_webcam_bridge.Wire.Label.{
  Category, other, from_utf8, utf8_from, utf8_step, idle, any_visible, any_hidden, valid_chars,
  valid_label, is_whitespace,
}
use mobile_webcam_bridge.Exchange.{printable, usable_label, proposed_label, this_pc}

utf8_from-printable : (bytes : List ℕ) → printable bytes ≡ true → utf8_from idle bytes ≡ some bytes
unfolding utf8_from utf8_step printable
utf8_from-printable [] p = refl
utf8_from-printable (c ∷ cs) p = ground (arith, utf8_from-printable cs)

module _ (category : ℕ → Category) (shown : (c : ℕ) → 32 ≤ c → c ≤ 126 → category c ≡ other) where
  any_hidden-printable :
      (bytes : List ℕ) → printable bytes ≡ true → any_hidden category bytes ≡ false
  unfolding any_hidden printable
  any_hidden-printable [] p = refl
  any_hidden-printable (c ∷ cs) p =
      let h : category c ≡ other = shown c (ground arith) (ground arith) in
      ground (arith, any_hidden-printable cs)

  valid_label-printable :
      (bytes : List ℕ)
      → printable bytes ≡ true
      → length bytes ≤ 32
      → any_visible bytes ≡ true
      → valid_label category bytes ≡ true
  unfolding valid_label from_utf8 valid_chars
  valid_label-printable bytes p n v =
      ground (arith, utf8_from-printable bytes p, any_hidden-printable bytes p)

  this_pc-valid_label : valid_label category this_pc ≡ true
  this_pc-valid_label =
      valid_label-printable this_pc (unfold printable in refl) (omega arith)
        (unfold any_visible is_whitespace in refl)

  usable-valid_label :
      (bytes : List ℕ)
      → usable_label bytes ≡ true
      → (length bytes ≡ 0) ⊎ (any_visible bytes ≡ true)
      → valid_label category bytes ≡ true
  unfolding usable_label
  usable-valid_label bytes u v =
      let p : printable bytes ≡ true = ground arith in
      let n : length bytes ≤ 32 = ground arith in
      let visible : any_visible bytes ≡ true = ground arith in
      valid_label-printable bytes p n visible

  -- Whatever the environment holds, the proposed label is a valid one, where printable ASCII has none
  -- of the hidden categories and `trim` leaves nothing or something visible: the transcript is never
  -- refused for its label.
  pub proposed_label-valid_label :
      (trim : List ℕ → List ℕ)
      → ((v : List ℕ) → (length (trim v) ≡ 0) ⊎ (any_visible (trim v) ≡ true))
      → (variables : List (Option (List ℕ)))
      → valid_label category (proposed_label trim variables) ≡ true
  unfolding proposed_label
  proposed_label-valid_label trim trims [] = this_pc-valid_label
  proposed_label-valid_label trim trims (none ∷ variables) =
      proposed_label-valid_label trim trims variables
  proposed_label-valid_label trim trims (some value ∷ variables) =
      elim (Bool-cases (usable_label (trim value))) [
        | inl e ↦ rw e (usable-valid_label (trim value) e (trims value))
        | inr e ↦ rw e (proposed_label-valid_label trim trims variables)
      ]
