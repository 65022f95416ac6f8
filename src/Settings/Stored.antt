-- ===== src/Settings/Stored.antt =====
-- The stored form of the settings in host-rs/src/settings.rs: `values` and `from_values`.
use mobile_webcam_bridge.Prelude.{
  ℕ, Bool, true, false, not, ◌||◌, List, [], ◌∷◌, Option, none, some, if◌then◌else◌, codes,
}
use mobile_webcam_bridge.Prelude.Outcome.{Result, ok, err, ◌>>=◌, ◌>>◌}
use mobile_webcam_bridge.Wire.Bytes.{same}
use mobile_webcam_bridge.Quality.Preference
use mobile_webcam_bridge.Quality.Preference.{auto}
use mobile_webcam_bridge.Quality.Edition.{EditionCap, active, clamp_wish}
use mobile_webcam_bridge.Settings.{
  Settings, Backend, default, quality_wish, set_quality_wish, text, validate,
}
use mobile_webcam_bridge.Settings.Text.{Str, trim, show, parse}
use Prim.Native.Nat.{compare, Ordering}

-- `to_string` of a `bool`
abbrev pub show_bool : Bool → Str
show_bool true = codes "true"
show_bool false = codes "false"

-- `values`, in the order of the source's array.
abbrev pub entries : Settings → List (Str × Str)
entries s =
    (codes "transport", s.transport)
    ∷ (codes "lanHost", trim s.lan_host)
    ∷ (codes "lanFingerprint", trim s.lan_fingerprint)
    ∷ (codes "lanKey", trim s.lan_key)
    ∷ (codes "decode", s.decode)
    ∷ (codes "output", trim s.output)
    ∷ (codes "outputKind", trim s.output_kind)
    ∷ (codes "rotation", show s.rotation)
    ∷ (codes "mirror", show_bool s.mirror)
    ∷ (codes "verticalFlip", show_bool s.vertical_flip)
    ∷ (codes "qualityWidth", show s.quality_width)
    ∷ (codes "qualityHeight", show s.quality_height)
    ∷ (codes "qualityFps", show s.quality_fps)
    ∷ (codes "lastConnected", show s.last_connected)
    ∷ []

-- `Ord` of `str`: UTF-8 keeps the order of the characters.
unfoldable pub compare_str : Str → Str → Ordering
compare_str [] [] = Ordering.eq
compare_str [] (d ∷ ds) = Ordering.lt
compare_str (c ∷ cs) [] = Ordering.gt
compare_str (c ∷ cs) (d ∷ ds) = elim (compare c d) [
  | Ordering.lt ↦ Ordering.lt
  | Ordering.gt ↦ Ordering.gt
  | Ordering.eq ↦ compare_str cs ds
]

-- `BTreeMap::insert`, on the entries in the order of their keys.
unfoldable pub insert : Str × Str → List (Str × Str) → List (Str × Str)
unfolding compare_str
insert entry [] = entry ∷ []
insert (key, value) ((k, v) ∷ rest) =
    let later : List (Str × Str) = insert (key, value) rest in
    elim (compare_str key k) [
      | Ordering.lt ↦ (key, value) ∷ (k, v) ∷ rest
      | Ordering.eq ↦ (key, value) ∷ rest
      | Ordering.gt ↦ (k, v) ∷ later
    ]

-- `collect` into a `BTreeMap`
unfoldable pub collect : List (Str × Str) → List (Str × Str) → List (Str × Str)
unfolding insert
collect map [] = map
collect map (entry ∷ rest) = collect (insert entry map) rest

unfoldable pub values : Settings → List (Str × Str)
unfolding collect
values s = collect [] (entries s)

unfoldable pub parse_bool : Str → Result Bool
parse_bool value =
    if same value (codes "true") || same value (codes "1")
    then ok true
    else if same value (codes "false") || same value (codes "0")
    then ok false
    else err (text "invalid saved boolean")

-- What has been read so far: the settings, and whether a quality number was not one.
abbrev pub Loading : Type 0
Loading = Settings × Bool

-- `value.parse()?`
abbrev pub parsed : Option ℕ → Result ℕ
parsed none = err (text "invalid number")
parsed (some n) = ok n

-- `parse_quality`, with its flag
abbrev pub parse_quality : Option ℕ → Bool → ℕ × Bool
parse_quality none invalid = (0, true)
parse_quality (some n) invalid = (n, invalid)

-- `parse().unwrap_or(0)`
abbrev pub or_zero : Option ℕ → ℕ
or_zero none = 0
or_zero (some n) = n

-- The numeric and Boolean arms of the `match key.as_str()`.
unfoldable pub assign_number : Str → Str → Loading → Result Loading
unfolding parse_bool
assign_number key value (s, invalid) =
    let (n, flag) = parse_quality (parse 65536 value) invalid in
    if same key (codes "rotation")
    then (do angle ← parsed (parse 65536 value); ok (record s { rotation = angle }, invalid))
    else if same key (codes "mirror")
    then (do b ← parse_bool value; ok (record s { mirror = b }, invalid))
    else if same key (codes "verticalFlip")
    then (do b ← parse_bool value; ok (record s { vertical_flip = b }, invalid))
    else if same key (codes "qualityWidth")
    then ok (record s { quality_width = n }, flag)
    else if same key (codes "qualityHeight")
    then ok (record s { quality_height = n }, flag)
    else if same key (codes "qualityFps")
    then ok (record s { quality_fps = n }, flag)
    else if same key (codes "lastConnected")
    then ok (record s { last_connected = or_zero (parse 18446744073709551616 value) }, invalid)
    else ok (s, invalid)

-- One entry of the loop, its text arms first.
unfoldable pub assign : Str → Str → Loading → Result Loading
unfolding assign_number
assign key value (s, invalid) =
    if same key (codes "transport")
    then ok (record s { transport = value }, invalid)
    else if same key (codes "lanHost")
    then ok (record s { lan_host = value }, invalid)
    else if same key (codes "lanFingerprint")
    then ok (record s { lan_fingerprint = value }, invalid)
    else if same key (codes "lanKey")
    then ok (record s { lan_key = value }, invalid)
    else if same key (codes "decode")
    then ok (record s { decode = value }, invalid)
    else if same key (codes "output")
    then ok (record s { output = value }, invalid)
    else if same key (codes "outputKind")
    then ok (record s { output_kind = value }, invalid)
    else assign_number key value (s, invalid)

unfoldable pub assign_all : List (Str × Str) → Loading → Result Loading
unfolding assign
assign_all [] loading = ok loading
assign_all ((key, value) ∷ rest) loading = do next ← assign key value loading; assign_all rest next

-- A preference that is no number or not valid falls back to Auto.
unfoldable pub repair_quality : Loading → Settings
repair_quality (s, invalid) =
    if invalid || not (Preference.valid (quality_wish s))
    then record (set_quality_wish auto s) {
      quality_warning = some "invalid saved quality preference; using Auto";
    }
    else s

unfoldable pub clamp_quality_to_edition : EditionCap → Settings → Settings
clamp_quality_to_edition cap s =
    let (wish, changed) = clamp_wish cap (quality_wish s) in
    if changed
    then record (set_quality_wish wish s) {
      quality_clamped = true;
      quality_warning = some "saved quality is above this edition's limit; using the best allowed";
    }
    else s

unfoldable pub from_values : Bool → (Backend → Bool) → List (Str × Str) → Result Settings
unfolding assign_all repair_quality clamp_quality_to_edition
from_values windows available values = do
  loading ← assign_all values (default windows, false)
  let s : Settings = clamp_quality_to_edition active (repair_quality loading)
  validate available s
  ok s
