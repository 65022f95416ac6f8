-- ===== src/Wire/Tests.antt =====
-- The wire theorems at concrete inputs, and runs of the codecs.
use mobile_webcam_bridge.Prelude.{
  ℕ, ◌+◌, ◌*◌, ◌≤◌, ◌≡◌, ◌↔◌, refl, true, zero, suc, List, [], ◌∷◌, ◌++◌, some, length, arith,
  replicate, codes,
}
use mobile_webcam_bridge.Prelude.Outcome.{ok}
use mobile_webcam_bridge.Wire.Kinds.{paused}
use mobile_webcam_bridge.Wire.Bytes
use mobile_webcam_bridge.Wire.Header
use mobile_webcam_bridge.Wire.Header.{Header, IsHeader, Frame, new_frame, validate, size_fits}
use mobile_webcam_bridge.Wire.Header.Canonical.{header_exact}
use mobile_webcam_bridge.Wire.PrepareQuality.{PrepareQuality}
use mobile_webcam_bridge.Wire.QualityResult.{QualityResult}
use mobile_webcam_bridge.Wire.Epoch
use mobile_webcam_bridge.Wire.Epoch.{Epoch}
use mobile_webcam_bridge.Wire.Capabilities
use mobile_webcam_bridge.Wire.Capabilities.{QualityMode, Capabilities}
use mobile_webcam_bridge.Wire.Capabilities.Decode.{capabilities_decode_iff, stated}
use mobile_webcam_bridge.Wire.Label.{Category, other, control, from_utf8, valid_label, valid_chars}
use mobile_webcam_bridge.Wire.ClientChallenge
use mobile_webcam_bridge.Wire.ClientChallenge.{ClientChallenge}
use mobile_webcam_bridge.Wire.ClientChallenge.Exact.{challenge_exact}
use mobile_webcam_bridge.Wire.ClientAuth
use mobile_webcam_bridge.Wire.ClientAuth.{ClientAuth, client_auth_message}
use mobile_webcam_bridge.Wire.ClientAuth.Transcript.{client_auth_message_injective}
use mobile_webcam_bridge.Wire.ClientAuthResult
use mobile_webcam_bridge.Wire.ClientAuthResult.{ClientAuthResult}
use mobile_webcam_bridge.Wire.ClientAuthResult.Exact.{auth_result_exact}
use mobile_webcam_bridge.Wire.PairingInfo
use mobile_webcam_bridge.Wire.PairingInfo.{Ipv4Addr, PairingInfo, private, preferred_address}
use mobile_webcam_bridge.Wire.Lengths.{pause, decoders_fit}

abbrev ping_header : Header
ping_header = record { kind = 3; flags = 0; sequence = 7; payload_len = 8; pts_us = 258 }

abbrev ping_bytes : List ℕ
ping_bytes =
    65 ∷ 77 ∷ 66 ∷ 49 ∷ 1 ∷ 3 ∷ 0 ∷ 0 ∷ 7 ∷ 0 ∷ 0 ∷ 0 ∷ 8 ∷ 0 ∷ 0 ∷ 0 ∷ 2 ∷ 1 ∷ 0 ∷ 0 ∷ 0 ∷ 0 ∷ 0
    ∷ 0 ∷ []

header_exact_example :
    (Header.decode ping_bytes ≡ ok ping_header)
    ↔ ((Header.encode ping_header ≡ ok ping_bytes) × IsHeader ping_header)
header_exact_example = header_exact ping_bytes ping_header (omega arith)

abbrev ping_frame : Frame
ping_frame = record { header = ping_header; payload = replicate 8 0 }

ping_validates : validate ping_frame ≡ ok tt
unfolding validate Header.encode Header.validate_payload_size Header.size_fits
ping_validates = refl

abbrev a_prepare : PrepareQuality
a_prepare = record {
  request_id = 9;
  catalog_revision = 7;
  width = 1920;
  height = 1080;
  target_fps = 30;
}

abbrev a_result : QualityResult
a_result = record {
  request_id = 9;
  status = 2;
  reason = 0;
  applied_width = 1920;
  applied_height = 1080;
  applied_fps = 30;
}

abbrev an_epoch : Epoch
an_epoch = record { request_id = 9; stream_epoch = 43 }

abbrev hd_mode : QualityMode
hd_mode = record { width = 1280; height = 720; target_fps = 30; bitrate = 6000000 }

abbrev some_capabilities : Capabilities
some_capabilities = record {
  extension_version = 1;
  permission = 0;
  catalog_revision = 7;
  stream_epoch = 41;
  modes = hd_mode ∷ [];
}

abbrev capabilities_bytes : List ℕ
capabilities_bytes =
    1 ∷ 0 ∷ 7 ∷ 0 ∷ 41 ∷ 0 ∷ 0 ∷ 0 ∷ 1 ∷ 0 ∷ 0 ∷ 5 ∷ 208 ∷ 2 ∷ 30 ∷ 0 ∷ 0 ∷ 0 ∷ 128 ∷ 141 ∷ 91 ∷ 0
    ∷ []

capabilities_written : Capabilities.encode some_capabilities ≡ ok capabilities_bytes
unfolding Capabilities.encode Capabilities.payload_bytes Capabilities.modes_bytes
    Capabilities.mode_bytes
capabilities_written = refl

capabilities_decode_iff_example :
    (((c : Capabilities) × (Capabilities.decode capabilities_bytes ≡ ok c)) ↔ (
      (10 ≤ length capabilities_bytes)
      × (stated capabilities_bytes ≤ 256)
      × (length capabilities_bytes ≡ 10 + 12 * stated capabilities_bytes)))
    × (((c : Capabilities) × (Capabilities.decode capabilities_bytes ≡ ok c)) ↔ (
        (c : Capabilities) × (Capabilities.decode capabilities_bytes ≡ ok c)
        × (length c.modes ≡ stated capabilities_bytes)))
capabilities_decode_iff_example = capabilities_decode_iff capabilities_bytes

abbrev usb_challenge : ClientChallenge
usb_challenge = record {
  version = 2;
  transport = 0;
  phone_binding = replicate 32 0;
  nonce = replicate 32 7;
}

abbrev challenge_bytes : List ℕ
challenge_bytes = 2 ∷ 0 ∷ (replicate 32 0 ++ replicate 32 7)

challenge_exact_example :
    (ClientChallenge.decode challenge_bytes ≡ ok usb_challenge)
    ↔ (ClientChallenge.encode usb_challenge ≡ ok challenge_bytes)
challenge_exact_example = challenge_exact challenge_bytes usb_challenge

-- Every character below U+0020 is a control, and no other is hidden.
abbrev ascii_category : ℕ → Category
ascii_category zero = control
ascii_category (suc n) = other

abbrev a_key : List ℕ
a_key = 4 ∷ replicate 64 9

abbrev an_auth : ClientAuth
an_auth = record {
  version = 2;
  public_key = a_key;
  label = codes "studio-pc";
  signature = replicate 64 5;
}

abbrev auth_written : List ℕ
auth_written = 2 ∷ (a_key ++ (9 ∷ (codes "studio-pc" ++ replicate 64 5)))

label_valid : valid_label ascii_category (codes "studio-pc") ≡ true
unfolding valid_label valid_chars from_utf8
label_valid = refl

auth_encodes : ClientAuth.encode ascii_category an_auth ≡ ok auth_written
unfolding ClientAuth.encode Bytes.index valid_label valid_chars from_utf8
auth_encodes = refl

abbrev a_nonce : List ℕ
a_nonce = replicate 32 7

abbrev usb_binding : List ℕ
usb_binding = replicate 32 0

abbrev usb_message : List ℕ
usb_message =
    codes "AMB1 PC authorization"
    ++ (0
        ∷ (codes "v2"
            ++ (0 ∷ 0 ∷ (usb_binding ++ (replicate 32 7 ++ (a_key ++ (9 ∷ codes "studio-pc")))))))

message_signed :
    client_auth_message ascii_category 0 usb_binding a_nonce a_key (codes "studio-pc")
    ≡ ok usb_message
unfolding client_auth_message ClientAuth.valid_transcript ClientChallenge.valid_transport
    ClientChallenge.valid_phone_binding ClientChallenge.all_zero valid_label valid_chars from_utf8
message_signed = refl

client_auth_message_injective_example :
    (◌≡◌ {A = ℕ} 0 0)
    × (usb_binding ≡ usb_binding)
    × (a_nonce ≡ a_nonce)
    × (a_key ≡ a_key)
    × (codes "studio-pc" ≡ codes "studio-pc")
client_auth_message_injective_example =
    client_auth_message_injective ascii_category 0 0 usb_binding usb_binding a_nonce a_nonce a_key
      a_key (codes "studio-pc") (codes "studio-pc") usb_message message_signed message_signed

abbrev authorized : ClientAuthResult
authorized = record { status = 0; reason = 0; expires_at_unix_seconds = 1800000000 }

abbrev authorized_bytes : List ℕ
authorized_bytes = 0 ∷ 0 ∷ 0 ∷ 210 ∷ 73 ∷ 107 ∷ []

auth_result_exact_example : (ClientAuthResult.decode authorized_bytes ≡ ok authorized) ↔ (
    (ClientAuthResult.encode authorized ≡ ok authorized_bytes)
    × ClientAuthResult.InRange authorized)
auth_result_exact_example = auth_result_exact authorized_bytes authorized (omega arith)

abbrev home : Ipv4Addr
home = record { a = 192; b = 168; c = 1; d = 3 }

abbrev tunnel : Ipv4Addr
tunnel = record { a = 100; b = 66; c = 21; d = 23 }

abbrev pairing_bytes : List ℕ
pairing_bytes =
    1 ∷ 2 ∷ 100 ∷ 66 ∷ 21 ∷ 23 ∷ 192 ∷ 168 ∷ 1 ∷ 3 ∷ (replicate 32 0xab ++ replicate 16 0xcd)

abbrev a_pairing : PairingInfo
a_pairing = record {
  addresses = tunnel ∷ home ∷ [];
  fingerprint = PairingInfo.hex (replicate 32 0xab);
  key = PairingInfo.hex (replicate 16 0xcd);
}

pairing_decodes : PairingInfo.decode pairing_bytes ≡ ok a_pairing
unfolding PairingInfo.decode PairingInfo.read_addresses Bytes.index Bytes.slice
pairing_decodes = refl

home_preferred : preferred_address a_pairing ≡ some home
unfolding preferred_address private
home_preferred = refl

home-private : private home ≡ true
unfolding private
home-private = refl

epoch_decodes : Epoch.decode (9 ∷ 0 ∷ 0 ∷ 0 ∷ 43 ∷ 0 ∷ 0 ∷ 0 ∷ []) ≡ ok an_epoch
unfolding Epoch.decode Epoch.read
epoch_decodes = refl

decoders_fit_example : size_fits paused 8 ≡ true
decoders_fit_example =
    decoders_fit ascii_category (9 ∷ 0 ∷ 0 ∷ 0 ∷ 43 ∷ 0 ∷ 0 ∷ 0 ∷ []) paused
      (pause an_epoch epoch_decodes)
