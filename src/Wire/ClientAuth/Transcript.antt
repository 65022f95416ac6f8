-- ===== src/Wire/ClientAuth/Transcript.antt =====
-- The signed transcript of host-rs/src/wire.rs and its fields.
use mobile_webcam_bridge.Prelude.{
  ℕ, ◌≡◌, ◌%◌, List, ◌∷◌, ◌++◌, arith, length, append-injective, refl, sym, ◌∙◌,
}
use mobile_webcam_bridge.Prelude.Outcome.{ok}
use mobile_webcam_bridge.Wire.ClientChallenge.{valid_phone_binding}
use mobile_webcam_bridge.Wire.Label.{Category}
use mobile_webcam_bridge.Wire.ClientAuth.{domain, valid_transcript, client_auth_message}

-- The message, with its fields' lengths.
abbrev transcript : ℕ → List ℕ → List ℕ → List ℕ → List ℕ → List ℕ
transcript t b n k l = domain ++ (t ∷ (b ++ (n ++ (k ++ (length l % 256 ∷ l)))))

module _ (category : ℕ → Category) where
  message_inv :
      (t : ℕ) (b n k l m : List ℕ)
      → client_auth_message category t b n k l ≡ ok m
      → (transcript t b n k l ≡ m) × (length b ≡ 32) × (length n ≡ 32) × (length k ≡ 65)
  unfolding client_auth_message valid_transcript valid_phone_binding
  message_inv t b n k l m e = ground arith

  -- Two transcripts that are signed as the same bytes agree in every field.
  pub client_auth_message_injective :
      (t t' : ℕ) (b b' n n' k k' l l' m : List ℕ)
      → client_auth_message category t b n k l ≡ ok m
      → client_auth_message category t' b' n' k' l' ≡ ok m
      → (t ≡ t') × (b ≡ b') × (n ≡ n') × (k ≡ k') × (l ≡ l')
  client_auth_message_injective t t' b b' n n' k k' l l' m e f =
      let (p, bl, nl, kl) = message_inv t b n k l m e in
      let (q, bl', nl', kl') = message_inv t' b' n' k' l' m f in
      let (_, s) = append-injective domain domain _ _ refl (p ∙ sym q) in
      let rest : (b ++ (n ++ (k ++ (length l % 256 ∷ l))))
          ≡ (b' ++ (n' ++ (k' ++ (length l' % 256 ∷ l')))) =
        cc s in
      let (eb, s1) = append-injective b b' _ _ (omega arith) rest in
      let (en, s2) = append-injective n n' _ _ (omega arith) s1 in
      let (ek, s3) = append-injective k k' _ _ (omega arith) s2 in (cc s, eb, en, ek, cc s3)
