-- ===== src/Ttff.antt =====
-- host-rs/src/ttff.rs: the time-to-first-frame line. Strings are lists of characters.
pub mod Token
mod Tests
use mobile_webcam_bridge.Prelude.{
  ℕ, Bool, true, false, ◌&&◌, ◌||◌, List, [], ◌∷◌, ◌++◌, Option, none, some, ◌==◌, if◌then◌else◌,
  codes, take,
}
use mobile_webcam_bridge.Wire.Bytes.{same}
use mobile_webcam_bridge.Wire.Header.{within}
use mobile_webcam_bridge.Settings.Text.{Str, is_empty, show}

-- `c.is_ascii_alphanumeric() || *c == '_'`
unfoldable pub is_token : ℕ → Bool
is_token c = within 48 57 c || within 65 90 c || within 97 122 c || c == 95

-- `chars().filter(...)`
unfoldable pub token_chars : Str → Str
token_chars [] = []
token_chars (c ∷ cs) = let rest : Str = token_chars cs in if is_token c then c ∷ rest else rest

abbrev or_unknown : Str → Str
or_unknown text = if is_empty text then codes "unknown" else text

unfoldable pub token : Str → Str
unfolding token_chars
token phase = or_unknown (take 32 (token_chars phase))

-- The transport that is written.
unfoldable pub known_transport : Str → Str
known_transport transport =
    if same transport (codes "usb") || same transport (codes "lan")
    then transport
    else codes "unknown"

-- ` since_connect_ms=`, where there is one
abbrev pub since_connect : Option ℕ → Str
since_connect none = []
since_connect (some ms) = codes " since_connect_ms=" ++ show ms

unfoldable pub line : Str → ℕ → Option ℕ → Str → Str
unfolding token known_transport
line phase since_process_ms since_connect_ms transport =
    codes "ttff phase="
    ++ (token phase
        ++ (codes " since_process_ms="
            ++ (show since_process_ms
                ++ (since_connect since_connect_ms
                    ++ (codes " transport=" ++ known_transport transport)))))

-- The first part of the result is `already_logged` after the call.
unfoldable pub first_frame : Bool → ℕ → ℕ → Option ℕ → Str → Bool × Option Str
first_frame already_logged submitted since_process_ms since_connect_ms transport =
    if already_logged || submitted == 0 then (already_logged, none) else (
      true,
      some (line (codes "host_first_submitted") since_process_ms since_connect_ms transport),
    )
