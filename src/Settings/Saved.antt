-- ===== src/Settings/Saved.antt =====
-- Settings that are saved and loaded again: `values` and `from_values` of host-rs/src/settings.rs.
use mobile_webcam_bridge.Prelude.{◌<◌, ◌≡◌, refl, Bool, true, false, none, arith}
use mobile_webcam_bridge.Prelude.Outcome.{ok}
use mobile_webcam_bridge.Quality.Preference
use mobile_webcam_bridge.Quality.Edition.{active, clamp_wish}
use mobile_webcam_bridge.Quality.Edition.Caps.{Within, clamp_wish_lem}
use mobile_webcam_bridge.Settings.{Settings, Backend, default, quality_wish, validate}
use mobile_webcam_bridge.Settings.Stored.{
  assign_all, values, repair_quality, clamp_quality_to_edition, from_values, parse_bool, show_bool,
}
use mobile_webcam_bridge.Settings.Text.{trim, parse-show}

-- Settings as the program keeps them: the numbers fit their types, the texts that are trimmed when
-- they are saved have no white space around them, and no warning is pending.
pub record Plain (s : Settings) : Type 0 where
  pub lan_host : trim s.lan_host ≡ s.lan_host
  pub lan_fingerprint : trim s.lan_fingerprint ≡ s.lan_fingerprint
  pub lan_key : trim s.lan_key ≡ s.lan_key
  pub output : trim s.output ≡ s.output
  pub output_kind : trim s.output_kind ≡ s.output_kind
  pub rotation : s.rotation < 65536
  pub quality_width : s.quality_width < 65536
  pub quality_height : s.quality_height < 65536
  pub quality_fps : s.quality_fps < 65536
  pub last_connected : s.last_connected < 18446744073709551616
  pub quality_warning : s.quality_warning ≡ none
  pub quality_clamped : s.quality_clamped ≡ false

parse_bool-show_bool : (b : Bool) → parse_bool (show_bool b) ≡ ok b
unfolding parse_bool
parse_bool-show_bool true = refl
parse_bool-show_bool false = refl

assigned :
    (windows : Bool) (s : Settings)
    → Plain s
    → assign_all (values s) (default windows, false) ≡ ok (s, false)
unfolding assign_all values
assigned windows s v =
    rw
      (
        v.lan_host,
        v.lan_fingerprint,
        v.lan_key,
        v.output,
        v.output_kind,
        parse-show 65536 s.rotation v.rotation,
        parse-show 65536 s.quality_width v.quality_width,
        parse-show 65536 s.quality_height v.quality_height,
        parse-show 65536 s.quality_fps v.quality_fps,
        parse-show 18446744073709551616 s.last_connected v.last_connected,
        parse_bool-show_bool s.mirror,
        parse_bool-show_bool s.vertical_flip,
      )
      (ground (arith, v.quality_warning, v.quality_clamped))

-- A wish that is valid and within the cap is neither repaired nor clamped.
untouched :
    (s : Settings)
    → Preference.valid (quality_wish s) ≡ true
    → Within active (quality_wish s)
    → clamp_quality_to_edition active (repair_quality (s, false)) ≡ s
unfolding clamp_quality_to_edition repair_quality
untouched s h k =
    let (within, kept, flag, again) = clamp_wish_lem active (quality_wish s) in
    let same : (clamp_wish active (quality_wish s)).1 ≡ false = flag.1 (kept.1 k) in
    rw h (rw same refl)

validate-valid :
    (available : Backend → Bool) (s : Settings)
    → validate available s ≡ ok tt
    → Preference.valid (quality_wish s) ≡ true
unfolding validate
validate-valid available s e = ground arith

-- Settings that pass validation and ask for no more than the edition allows load as they were saved,
-- where the texts that saving trims have no white space around them.
pub from_values-values :
    (windows : Bool) (available : Backend → Bool) (s : Settings)
    → Plain s
    → validate available s ≡ ok tt
    → Within active (quality_wish s)
    → from_values windows available (values s) ≡ ok s
unfolding from_values
from_values-values windows available s v e k =
    rw (assigned windows s v, untouched s (validate-valid available s e) k, e) refl
