-- ===== src/Video/Tests.antt =====
-- The theorem on the video configuration at a concrete input.
use mobile_webcam_bridge.Prelude.{ℕ, ◌≡◌, refl, List, [], ◌∷◌, length}
use mobile_webcam_bridge.Prelude.Outcome.{ok}
use mobile_webcam_bridge.Wire.Bytes
use mobile_webcam_bridge.Wire.Bytes.{byte_at}
use mobile_webcam_bridge.Video
use mobile_webcam_bridge.Video.{Config, parse, stated, Allowed, parse_iff}

abbrev full_hd : Config
full_hd = record { width = 1920; height = 1080; fps = 30 }

abbrev full_hd_bytes : List ℕ
full_hd_bytes = 128 ∷ 7 ∷ 56 ∷ 4 ∷ 30 ∷ 0 ∷ 0 ∷ 0 ∷ 0 ∷ 0 ∷ 0 ∷ 0 ∷ 1 ∷ 1 ∷ 0 ∷ 0 ∷ []

full_hd_parses : parse full_hd_bytes ≡ ok full_hd
unfolding parse Video.check Video.read Video.refused Bytes.index Bytes.u16_at Bytes.slice
full_hd_parses = refl

parse_iff_example :
    (length full_hd_bytes ≡ 16)
    × (byte_at full_hd_bytes 12 ≡ 1)
    × (byte_at full_hd_bytes 13 ≡ 1)
    × (full_hd ≡ stated full_hd_bytes)
    × Allowed full_hd
parse_iff_example = (parse_iff full_hd_bytes full_hd).0 full_hd_parses
