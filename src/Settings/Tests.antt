-- ===== src/Settings/Tests.antt =====
-- The theorems on the settings at concrete inputs, and runs of loading.
use mobile_webcam_bridge.Prelude.{
  ◌≡◌, refl, Bool, true, false, List, [], ◌∷◌, some, arith, codes, replicate,
}
use mobile_webcam_bridge.Prelude.Outcome.{ok}
use mobile_webcam_bridge.Wire.Label
use mobile_webcam_bridge.Quality.Preference
use mobile_webcam_bridge.Quality.Edition
use mobile_webcam_bridge.Quality.Edition.{active}
use mobile_webcam_bridge.Quality.Edition.Caps.{Within}
use mobile_webcam_bridge.Settings
use mobile_webcam_bridge.Settings.{
  Settings, Backend, loopback, pipewire, default, quality_wish, validate,
}
use mobile_webcam_bridge.Settings.Stored.{values, from_values}
use mobile_webcam_bridge.Settings.Stored
use mobile_webcam_bridge.Settings.Text
use mobile_webcam_bridge.Settings.Text.{Str}
use mobile_webcam_bridge.Settings.Saved.{Plain, from_values-values}
use mobile_webcam_bridge.Settings.Loaded.{from_values-Within}

abbrev only_loopback : Backend → Bool
only_loopback loopback = true
only_loopback pipewire = false

abbrev paired : Settings
paired = record (default false) {
  transport = codes "lan";
  lan_host = codes "192.168.1.3";
  lan_fingerprint = replicate 64 b'a';
  lan_key = replicate 32 b'7';
  rotation = 90;
  quality_width = 1280;
  quality_height = 720;
  quality_fps = 30;
  last_connected = 1207;
}

paired-Plain : Plain paired
paired-Plain = record {
  lan_host = unfold Text.trim Text.trim_start Text.trim_end Label.is_whitespace in refl;
  lan_fingerprint = unfold Text.trim Text.trim_start Text.trim_end Label.is_whitespace in refl;
  lan_key = unfold Text.trim Text.trim_start Text.trim_end Label.is_whitespace in refl;
  output = unfold Text.trim Text.trim_start Text.trim_end Label.is_whitespace in refl;
  output_kind = unfold Text.trim Text.trim_start Text.trim_end Label.is_whitespace in refl;
  rotation = omega arith;
  quality_width = omega arith;
  quality_height = omega arith;
  quality_fps = omega arith;
  last_connected = omega arith;
  quality_warning = refl;
  quality_clamped = refl;
}

paired_validates : validate only_loopback paired ≡ ok tt
unfolding validate Settings.one_of Settings.valid_secret Settings.is_hex Settings.all_hexdigits
    Settings.is_ascii_hexdigit Settings.storable Settings.check_backend Settings.parse_backend
    Settings.valid_rotation Preference.valid Text.len Text.contains Text.trim Text.trim_start
    Text.trim_end Label.is_whitespace
paired_validates = refl

paired-Within : Within active (quality_wish paired)
unfolding Edition.allows_size
paired-Within = ground arith

from_values-values_example : from_values false only_loopback (values paired) ≡ ok paired
from_values-values_example =
    from_values-values false only_loopback paired paired-Plain paired_validates paired-Within

-- A saved 4K wish, beside an unknown key.
abbrev saved_4k : List (Str × Str)
saved_4k =
    (codes "qualityHeight", codes "2160")
    ∷ (codes "qualityWidth", codes "3840")
    ∷ (codes "rotation", codes "+180")
    ∷ (codes "unknown", codes "1")
    ∷ []

abbrev loaded_4k : Settings
loaded_4k = record (default false) {
  rotation = 180;
  quality_warning = some "saved quality is above this edition's limit; using the best allowed";
  quality_clamped = true;
}

saved_4k_loads : from_values false only_loopback saved_4k ≡ ok loaded_4k
unfolding from_values Stored.assign_all Stored.assign Stored.assign_number Stored.repair_quality
    Stored.clamp_quality_to_edition Edition.clamp_wish Edition.allows_size Text.parse
    Text.read_digits validate Settings.one_of Settings.valid_secret Settings.storable
    Settings.check_backend Settings.parse_backend Settings.valid_rotation Preference.valid Text.len
    Text.contains Text.trim Text.trim_start Text.trim_end Label.is_whitespace
saved_4k_loads = refl

from_values-Within_example :
    (validate only_loopback loaded_4k ≡ ok tt)
    × (Preference.valid (quality_wish loaded_4k) ≡ true)
    × Within active (quality_wish loaded_4k)
from_values-Within_example =
    from_values-Within false only_loopback saved_4k loaded_4k saved_4k_loads
