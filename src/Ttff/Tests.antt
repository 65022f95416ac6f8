-- ===== src/Ttff/Tests.antt =====
-- The theorem on the lines at a concrete input, and runs.
use mobile_webcam_bridge.Prelude.{◌≡◌, refl, some, codes}
use mobile_webcam_bridge.Settings.Text
use mobile_webcam_bridge.Ttff
use mobile_webcam_bridge.Ttff.{line, token}

documented_line :
    line (codes "host_first_submitted") 12 (some 4) (codes "usb")
    ≡ codes "ttff phase=host_first_submitted since_process_ms=12 since_connect_ms=4 transport=usb"
unfolding line token Ttff.token_chars Ttff.is_token Ttff.known_transport Text.show Text.digits
documented_line = refl
