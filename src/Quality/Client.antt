-- ===== src/Quality/Client.antt =====
-- `Client` of host-rs/src/quality/client.rs: what the PC knows of one connection's quality. A method
-- on `&mut self` returns the new record.
pub mod Applies
use mobile_webcam_bridge.Prelude.{
  ℕ, Bool, true, false, not, ◌&&◌, ◌||◌, Option, none, some, List, [], ◌∷◌, ◌==◌, if◌then◌else◌,
}
use mobile_webcam_bridge.Wire.Kinds.{permission_ready}
use mobile_webcam_bridge.Quality.Types.{Size}
use mobile_webcam_bridge.Quality.Switch.{same_size, is_requested}
use mobile_webcam_bridge.Quality.Preference.{Mode, Wish, tuple, auto, usable, keep, F64, resolve}
use Prim.Native.String.{String}
use mathlib.Core.Option

pub record Client : Type 0 where
  pub modes : Option (List Mode)
  pub permission : Option ℕ
  pub pending : Option Mode
  pub staged : Bool
  pub applied : Option Size
  pub problem : Option String  -- `error`
  pub migrated_to_auto : Bool
  pub initial_wish : Wish
  pub initial_checked : Bool

unfoldable pub new : Wish → Client
new wish = record {
  modes = none;
  permission = none;
  pending = none;
  staged = false;
  applied = none;
  problem = none;
  migrated_to_auto = false;
  initial_wish = wish;
  initial_checked = false;
}

abbrev pub is_none {ℓ} : {A : Type ℓ} → Option A → Bool
is_none none = true
is_none (some a) = false

-- `self.permission == Some(wire::PERMISSION_READY)`
abbrev is_ready : Option ℕ → Bool
is_ready none = false
is_ready (some p) = p == permission_ready

-- `self.modes.as_ref().is_some_and(|modes| !modes.is_empty())`
abbrev any_mode : Option (List Mode) → Bool
any_mode none = false
any_mode (some []) = false
any_mode (some (m ∷ ms)) = true

unfoldable pub ready : Client → Bool
ready c = is_ready c.permission && any_mode c.modes

-- What `advertise` stores.
unfoldable pub store : ℕ → List Mode → Client → Client
store permission modes c = record c {
  permission = some permission;
  modes = some (keep usable modes);
}

module _ (f64 : F64) where
  unfoldable pub resolve_wish : Client → Wish → Option Mode
  resolve_wish c wish = elim c.modes [ none ↦ none | some modes ↦ resolve f64 wish modes ]

  -- The end of `begin`, for the mode that the wish resolves to.
  abbrev begin_mode : Client → Mode → Client × Option Mode
  begin_mode c mode =
      let c' = record c { problem = none; initial_checked = true } in
      if is_requested c.applied (tuple mode)
      then (c', none)
      else (record c' { pending = some mode; staged = false }, some mode)

  unfoldable pub begin : Wish → Client → Client × Option Mode
  begin wish c =
      if not (is_none c.pending)
      then (c, none)
      else if not (ready c)
      then (record c { problem = some "camera capabilities or permission are not ready" }, none)
      else elim (resolve_wish c wish) [
        | none ↦ (
          record c { problem = some "the saved/requested quality is not supported by this phone" },
          none,
        )
        | some mode ↦ begin_mode c mode
      ]

  -- The rest of `advertise`, on the first advertisement that is ready.
  unfoldable pub first_apply : Client → Client × Option Mode
  first_apply c =
      let c' = record c { initial_checked = true } in
      if not (is_none (resolve_wish c' c'.initial_wish))
      then begin c'.initial_wish c'
      else begin auto (record c' { migrated_to_auto = true; initial_wish = auto })

  unfoldable pub advertise : ℕ → List Mode → Client → Client × Option Mode
  advertise permission modes c =
      let c' = store permission modes c in
      if not (ready c') || c'.initial_checked then (c', none) else first_apply c'

unfoldable pub progress : Bool → Client → Client
progress staged c = if is_none c.pending then c else record c { staged = staged; applied = none }

unfoldable pub failed : String → Client → Client
failed reason c = record c { pending = none; staged = false; problem = some reason }

-- `self.pending.map(Mode::tuple) == Some(size)`
abbrev pub awaits : Option Mode → Size → Bool
awaits none size = false
awaits (some mode) size = same_size (tuple mode) size

unfoldable pub confirmed : Size → Client → Client × Bool
unfolding failed
confirmed size c =
    if not (awaits c.pending size)
    then (failed "the receiver confirmed an unexpected quality" c, false)
    else (record c { applied = some size; pending = none; staged = false; problem = none }, true)

unfoldable pub disconnected : Client → Client
disconnected c = record c {
  modes = none;
  permission = none;
  pending = none;
  staged = false;
  applied = none;
}
