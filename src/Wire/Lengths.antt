-- ===== src/Wire/Lengths.antt =====
-- The header's length check (`validate_payload_size`) against the payload decoders.
use mobile_webcam_bridge.Prelude.{ℕ, ◌≤◌, ◌≡◌, true, List, length, arith}
use mobile_webcam_bridge.Prelude.Outcome.{ok}
use mobile_webcam_bridge.Wire.Kinds.{
  quality_capabilities, prepare_quality, quality_result, paused, commit_quality, client_challenge,
  client_auth, client_auth_result, pairing_info, video_config,
}
use mobile_webcam_bridge.Wire.Header.{size_fits}
use mobile_webcam_bridge.Video
use mobile_webcam_bridge.Video.{Config, length-parse}
use mobile_webcam_bridge.Wire.Label.{Category}
use mobile_webcam_bridge.Wire.Capabilities
use mobile_webcam_bridge.Wire.Capabilities.{Capabilities}
use mobile_webcam_bridge.Wire.PrepareQuality
use mobile_webcam_bridge.Wire.PrepareQuality.{PrepareQuality}
use mobile_webcam_bridge.Wire.QualityResult
use mobile_webcam_bridge.Wire.QualityResult.{QualityResult}
use mobile_webcam_bridge.Wire.Epoch
use mobile_webcam_bridge.Wire.Epoch.{Epoch}
use mobile_webcam_bridge.Wire.ClientChallenge
use mobile_webcam_bridge.Wire.ClientChallenge.{ClientChallenge}
use mobile_webcam_bridge.Wire.ClientAuth
use mobile_webcam_bridge.Wire.ClientAuth.{ClientAuth}
use mobile_webcam_bridge.Wire.ClientAuthResult
use mobile_webcam_bridge.Wire.ClientAuthResult.{ClientAuthResult}
use mobile_webcam_bridge.Wire.PairingInfo
use mobile_webcam_bridge.Wire.PairingInfo.{PairingInfo}
use mobile_webcam_bridge.Wire.PairingInfo.Laws.{pairing_shape}

-- A payload that the decoder of its frame kind accepts, for each kind whose payload the PC decodes.
pub data Decodes (category : ℕ → Category) (payload : List ℕ) : ℕ → Type 0 where
  capabilities :
      (c : Capabilities)
      → Capabilities.decode payload ≡ ok c
      → Decodes category payload quality_capabilities
  prepare :
      (m : PrepareQuality)
      → PrepareQuality.decode payload ≡ ok m
      → Decodes category payload prepare_quality
  result :
      (m : QualityResult)
      → QualityResult.decode payload ≡ ok m
      → Decodes category payload quality_result
  pause : (m : Epoch) → Epoch.decode payload ≡ ok m → Decodes category payload paused
  commit : (m : Epoch) → Epoch.decode payload ≡ ok m → Decodes category payload commit_quality
  challenge :
      (m : ClientChallenge)
      → ClientChallenge.decode payload ≡ ok m
      → Decodes category payload client_challenge
  auth :
      (m : ClientAuth)
      → ClientAuth.decode category payload ≡ ok m
      → Decodes category payload client_auth
  outcome :
      (m : ClientAuthResult)
      → ClientAuthResult.decode payload ≡ ok m
      → Decodes category payload client_auth_result
  pairing :
      (m : PairingInfo) → PairingInfo.decode payload ≡ ok m → Decodes category payload pairing_info
  video : (c : Config) → Video.parse payload ≡ ok c → Decodes category payload video_config

length-capabilities :
    (payload : List ℕ) (c : Capabilities)
    → Capabilities.decode payload ≡ ok c
    → (10 ≤ length payload) × (length payload ≤ 16384)
unfolding Capabilities.decode
length-capabilities payload c e = ground arith

length-auth :
    (category : ℕ → Category) (payload : List ℕ) (m : ClientAuth)
    → ClientAuth.decode category payload ≡ ok m
    → (131 ≤ length payload) × (length payload ≤ 163)
unfolding ClientAuth.decode
length-auth category payload m e = ground arith

length-challenge :
    (payload : List ℕ) (m : ClientChallenge)
    → ClientChallenge.decode payload ≡ ok m
    → length payload ≡ 66
unfolding ClientChallenge.decode
length-challenge payload m e = ground arith

length-outcome :
    (payload : List ℕ) (m : ClientAuthResult)
    → ClientAuthResult.decode payload ≡ ok m
    → length payload ≡ 6
unfolding ClientAuthResult.decode
length-outcome payload m e = ground arith

-- The header check turns away no payload that the decoder of its kind accepts: the payloads of
-- QUALITY_CAPABILITIES, PREPARE_QUALITY, QUALITY_RESULT, PAUSED, COMMIT_QUALITY, CLIENT_CHALLENGE,
-- CLIENT_AUTH, CLIENT_AUTH_RESULT, PAIRING_INFO and VIDEO_CONFIG.
pub decoders_fit :
    (category : ℕ → Category) (payload : List ℕ) (kind : ℕ)
    → Decodes category payload kind
    → size_fits kind (length payload) ≡ true
unfolding size_fits
decoders_fit category payload kind (capabilities c e) =
    ground (arith, length-capabilities payload c e)
decoders_fit category payload kind (prepare m e) =
    ground (arith, PrepareQuality.decode_inv payload m e)
decoders_fit category payload kind (result m e) =
    ground (arith, QualityResult.decode_inv payload m e)
decoders_fit category payload kind (pause m e) = ground (arith, Epoch.decode_inv payload m e)
decoders_fit category payload kind (commit m e) = ground (arith, Epoch.decode_inv payload m e)
decoders_fit category payload kind (challenge m e) = ground (arith, length-challenge payload m e)
decoders_fit category payload kind (auth m e) = ground (arith, length-auth category payload m e)
decoders_fit category payload kind (outcome m e) = ground (arith, length-outcome payload m e)
decoders_fit category payload kind (pairing m e) = ground (arith, pairing_shape payload m e)
decoders_fit category payload kind (video c e) = ground (arith, length-parse payload c e)
