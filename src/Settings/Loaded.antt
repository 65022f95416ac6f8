-- ===== src/Settings/Loaded.antt =====
-- What `Settings::from_values` of host-rs/src/settings.rs hands back.
use mobile_webcam_bridge.Prelude.{
  ◌≡◌, subst, ap, sym, ◌∙◌, inl, inr, refl, Bool, true, false, not, ◌||◌, List, arith, Bool-cases,
}
use mobile_webcam_bridge.Prelude.Outcome.{ok, bind_inv}
use mobile_webcam_bridge.Quality.Preference
use mobile_webcam_bridge.Quality.Preference.{Wish, auto}
use mobile_webcam_bridge.Quality.Edition.{EditionCap, active, clamp_wish}
use mobile_webcam_bridge.Quality.Edition.Caps.{Within, clamp_wish_lem, clamp_valid}
use mobile_webcam_bridge.Settings.{Settings, Backend, default, quality_wish, validate}
use mobile_webcam_bridge.Settings.Stored.{
  Loading, assign_all, repair_quality, clamp_quality_to_edition, from_values,
}
use mobile_webcam_bridge.Settings.Text.{Str}

clamp_quality_wish :
    (cap : EditionCap) (s : Settings)
    → quality_wish (clamp_quality_to_edition cap s) ≡ (clamp_wish cap (quality_wish s)).0
unfolding clamp_quality_to_edition
clamp_quality_wish cap s =
    let (within, kept, flag, again) = clamp_wish_lem cap (quality_wish s) in
    elim (Bool-cases (clamp_wish cap (quality_wish s)).1) [
      | inl e ↦ rw e refl
      | inr e ↦ let same = flag.0 e in rw e (sym same)
    ]

repaired-valid :
    (loading : Loading) → Preference.valid (quality_wish (repair_quality loading)) ≡ true
unfolding repair_quality
repaired-valid (s, invalid) =
    elim (Bool-cases (invalid || not (Preference.valid (quality_wish s)))) [
      | inl e ↦ rw e (unfold Preference.valid in refl)
      | inr e ↦ rw e (ground arith)
    ]

-- Settings that load pass validation, and their wish is valid and within the edition's cap.
pub from_values-Within :
    (windows : Bool) (available : Backend → Bool) (values : List (Str × Str)) (s : Settings)
    → from_values windows available values ≡ ok s
    → (validate available s ≡ ok tt)
      × (Preference.valid (quality_wish s) ≡ true)
      × Within active (quality_wish s)
unfolding from_values
from_values-Within windows available values s e =
    let (loading, a, e1) = bind_inv (assign_all values (default windows, false)) _ s e in
    let (done, v, e2) =
      bind_inv (validate available (clamp_quality_to_edition active (repair_quality loading))) _ s
        e1 in
    let same : clamp_quality_to_edition active (repair_quality loading) ≡ s = ground arith in
    let wish : quality_wish s ≡ (clamp_wish active (quality_wish (repair_quality loading))).0 =
      ap quality_wish (sym same) ∙ clamp_quality_wish active (repair_quality loading) in
    (
      ground arith,
      rw wish (clamp_valid active (quality_wish (repair_quality loading)) (repaired-valid loading)),
      subst (Within active) (sym wish)
          (clamp_wish_lem active (quality_wish (repair_quality loading))).0,
    )
