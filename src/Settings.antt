-- ===== src/Settings.antt =====
-- `Settings` of host-rs/src/settings.rs: the saved choices, and their validation, with
-- `is_hex` of host-rs/src/secure.rs and `Backend` of host-rs/src/output.rs. A string is a list of
-- characters, and a `BTreeMap` the list of its entries.
pub mod Text
pub mod Stored
pub mod Saved
pub mod Loaded
mod Tests
use mobile_webcam_bridge.Prelude.{
  ℕ, ◌*◌, Bool, true, false, not, ◌&&◌, ◌||◌, List, [], ◌∷◌, Option, none, some, ltb, ◌==◌,
  if◌then◌else◌, codes,
}
use mobile_webcam_bridge.Prelude.Outcome.{Error, error, boxed, Result, ok, err, ◌>>=◌, ◌>>◌, guard}
use mobile_webcam_bridge.Wire.Bytes.{same}
use mobile_webcam_bridge.Wire.Header.{within}
use mobile_webcam_bridge.Quality.Preference
use mobile_webcam_bridge.Quality.Preference.{Wish, auto}
use mobile_webcam_bridge.Quality.Edition.{EditionCap, active, clamp_wish}
use mobile_webcam_bridge.Settings.Text.{Str, is_empty, trim, len, contains, show, parse}
use Prim.Native.Nat.{compare, Ordering}
use Prim.Native.String.{String}

pub record Settings : Type 0 where
  pub transport : Str
  pub lan_host : Str
  pub lan_fingerprint : Str
  pub lan_key : Str
  pub last_connected : ℕ  -- u64
  pub decode : Str
  pub output : Str
  pub output_kind : Str
  pub rotation : ℕ  -- u16
  pub mirror : Bool
  pub vertical_flip : Bool
  pub quality_width : ℕ  -- u16
  pub quality_height : ℕ  -- u16
  pub quality_fps : ℕ  -- u16
  pub quality_warning : Option String
  pub quality_clamped : Bool

-- `Settings::default`; the argument is `cfg!(windows)`.
abbrev pub default : Bool → Settings
default windows = record {
  transport = codes "usb";
  lan_host = [];
  lan_fingerprint = [];
  lan_key = [];
  last_connected = 0;
  decode = codes "auto";
  output = if windows then codes "Unity Video Capture" else codes "/dev/video10";
  output_kind = codes "loopback";
  rotation = 0;
  mirror = true;
  vertical_flip = false;
  quality_width = 0;
  quality_height = 0;
  quality_fps = 0;
  quality_warning = none;
  quality_clamped = false;
}

-- `u8::is_ascii_hexdigit`
unfoldable pub is_ascii_hexdigit : ℕ → Bool
is_ascii_hexdigit c = within 48 57 c || within 65 70 c || within 97 102 c

unfoldable pub all_hexdigits : Str → Bool
unfolding is_ascii_hexdigit
all_hexdigits [] = true
all_hexdigits (c ∷ cs) = is_ascii_hexdigit c && all_hexdigits cs

unfoldable pub is_hex : Str → ℕ → Bool
is_hex value bytes = len value == bytes * 2 && all_hexdigits value

unfoldable pub lan_pairing_complete : Settings → Bool
lan_pairing_complete s =
    not (is_empty (trim s.lan_host)) && is_hex s.lan_fingerprint 32 && is_hex s.lan_key 16

abbrev pub quality_wish : Settings → Wish
quality_wish s = record { width = s.quality_width; height = s.quality_height; fps = s.quality_fps }

abbrev pub set_quality_wish : Wish → Settings → Settings
set_quality_wish wish s = record s {
  quality_width = wish.width;
  quality_height = wish.height;
  quality_fps = wish.fps;
  quality_warning = none;
}

-- `Backend` and its methods.
pub data Backend : Type 0 where
  loopback pipewire : Backend

unfoldable pub parse_backend : Str → Option Backend
parse_backend value =
    if same (trim value) (codes "loopback")
    then some loopback
    else if same (trim value) (codes "pipewire")
    then some pipewire
    else none

abbrev pub text : String → Error
text message = error boxed message

abbrev pub unavailable : Backend → Error
unavailable loopback = text "the loopback backend is not built into this host"
unavailable pipewire = text "the pipewire backend is not built into this host"

-- `[...].contains(&value)`
unfoldable pub one_of : List Str → Str → Bool
one_of [] value = false
one_of (t ∷ ts) value = same t value || one_of ts value

abbrev pub transports : List Str
transports = codes "usb" ∷ codes "lan" ∷ []

abbrev pub decoders : List Str
decoders =
    codes "auto"
    ∷ codes "off"
    ∷ codes "software"
    ∷ codes "vaapi"
    ∷ codes "cuda"
    ∷ codes "d3d11va"
    ∷ []

-- An empty fingerprint or key is none yet.
unfoldable pub valid_secret : Str → ℕ → Bool
valid_secret value bytes = is_empty value || is_hex value bytes

unfoldable pub valid_rotation : ℕ → Bool
valid_rotation angle = angle == 0 || angle == 90 || angle == 180 || angle == 270

-- What the address and the output may be.
unfoldable pub storable : Str → Bool
storable s = not (ltb 4096 (len s) || contains 0 s || contains 10 s)

-- The argument is `Backend::available`, which the target and the features decide.
unfoldable pub check_backend : (Backend → Bool) → Str → Result (Unit {0})
unfolding parse_backend
check_backend available output_kind = elim (parse_backend output_kind) [
  | none ↦ err (text "invalid output backend")
  | some backend ↦ guard (available backend) (unavailable backend)
]

-- `validate`, with the `video` feature.
unfoldable pub validate : (Backend → Bool) → Settings → Result (Unit {0})
unfolding valid_rotation
validate available s = do
  guard (one_of transports s.transport) (text "invalid transport")
  guard (valid_secret s.lan_fingerprint 32 && valid_secret s.lan_key 16)
      (text "invalid Wi-Fi pairing fingerprint or key")
  guard (valid_rotation s.rotation) (text "invalid rotation")
  guard (Preference.valid (quality_wish s)) (text "invalid quality preference")
  guard (one_of decoders s.decode) (text "invalid decoder")
  guard (storable s.lan_host && storable s.output) (text "invalid saved address or output")
  check_backend available s.output_kind
