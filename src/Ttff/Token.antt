-- ===== src/Ttff/Token.antt =====
-- What may stand in a line of host-rs/src/ttff.rs.
use mobile_webcam_bridge.Prelude.{Bool, true, ◌&&◌, ◌||◌, [], ◌∷◌, ◌==◌}
use mobile_webcam_bridge.Settings.Text.{Str}
use mobile_webcam_bridge.Ttff.{is_token}

-- The characters of a line: those of a token, the space and the equals sign.
unfoldable pub all_safe : Str → Bool
unfolding is_token
all_safe [] = true
all_safe (c ∷ cs) = (is_token c || c == 32 || c == 61) && all_safe cs
