-- ===== src/Wire/Messages.antt =====
-- The three control messages of a fixed size in host-rs/src/wire.rs, together.
use mobile_webcam_bridge.Prelude.{◌≡◌}
use mobile_webcam_bridge.Prelude.Outcome.{ok}
use mobile_webcam_bridge.Wire.PrepareQuality
use mobile_webcam_bridge.Wire.PrepareQuality.{PrepareQuality}
use mobile_webcam_bridge.Wire.QualityResult
use mobile_webcam_bridge.Wire.QualityResult.{QualityResult}
use mobile_webcam_bridge.Wire.Epoch
use mobile_webcam_bridge.Wire.Epoch.{Epoch}

-- Each of the three control messages, with fields in the range of their types, is read back from the
-- bytes that it is written as.
pub control_messages_round_trip :
    (p : PrepareQuality) (r : QualityResult) (e : Epoch)
    → PrepareQuality.InRange p
    → QualityResult.InRange r
    → Epoch.InRange e
    → (PrepareQuality.decode (PrepareQuality.encode p) ≡ ok p)
      × (QualityResult.decode (QualityResult.encode r) ≡ ok r)
      × (Epoch.decode (Epoch.encode e) ≡ ok e)
control_messages_round_trip p r e vp vr ve =
    (PrepareQuality.decode-encode p vp, QualityResult.decode-encode r vr, Epoch.decode-encode e ve)
