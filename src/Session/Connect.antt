-- ===== src/Session/Connect.antt =====
-- The calls of host-rs/src/session.rs that run a helper process before the worker (Linux): `connect`,
-- `setup`, `allow_usb`, `auxiliary` and the command line of the helper.
use mobile_webcam_bridge.Prelude.{
  ℕ, Bool, true, false, not, ◌&&◌, ◌||◌, List, [], ◌∷◌, ◌++◌, Option, none, some, leb, ltb, ◌==◌,
  if◌then◌else◌, codes, length, arith, if_both,
}
use mobile_webcam_bridge.Prelude.Outcome.{Error, Result, ok, err, panic, ◌>>=◌, ◌>>◌, guard}
use mobile_webcam_bridge.Wire.Bytes.{same}
use mobile_webcam_bridge.Settings
use mobile_webcam_bridge.Settings.{Settings, Backend}
use mobile_webcam_bridge.Settings.Text.{Str, trim, show, contains}
use mobile_webcam_bridge.Usb.{DeviceId, accessory, same_id}
use mobile_webcam_bridge.Quality.Client.{is_none}
use mobile_webcam_bridge.Session.{running, start, text}
use mobile_webcam_bridge.Session.Types.{Session, connecting}
use mobile_webcam_bridge.Session.Poll.Invariant.{Inv, start-Inv}

-- What `symlink_metadata` says of the helper's path, and its canonical form where it is a file.
pub data Lookup : Type 0 where
  no_parent not_found other_kind : Lookup
  failing : Error → Lookup
  file : Result (Option Str) → Lookup

-- What the session learns from the host: `file_name` and `components` of a path are the standard
-- library's, `serde_json::from_str` is serde's; `accesses` opens a device; `script` is put together from
-- files of the build.
pub record Host : Type 0 where
  pub available : Backend → Bool
  pub writable : Bool
  pub setup_available : Bool
  pub helper_installed : Bool
  pub lookup : Lookup
  pub named : Str → Bool
  pub plain : Str → Bool
  pub from_json : Str → Result DeviceId
  pub denied : DeviceId → Result Bool
  pub script : Result Str
  pub parent : ℕ
  pub helper_runs : Result (Unit {0})  -- spawning it and writing to it
  pub worker_runs : Result (Unit {0})

abbrev joined : List ℕ → Str
joined [] = []
joined (n ∷ []) = show n
joined (n ∷ m ∷ rest) = show n ++ (44 ∷ joined (m ∷ rest))

-- The `format!` of `validated_device_json`.
unfoldable pub device_json : DeviceId → Str
device_json d =
    codes "{\"bus\":"
    ++ (show d.bus
        ++ (codes ",\"address\":"
            ++ (show d.address
                ++ (codes ",\"vid\":"
                    ++ (show d.vid
                        ++ (codes ",\"pid\":"
                            ++ (show d.pid
                                ++ (codes ",\"ports\":[" ++ (joined d.ports ++ codes "]}")))))))))

unfoldable pub validated_device_json : Host → DeviceId → Result Str
validated_device_json host device = do
  guard (leb (length device.ports) 32) (text "Invalid device identity.")
  parsed ← host.from_json (device_json device)
  guard (same_id parsed device) (text "Invalid device identity.")
  ok (device_json device)

-- The tests on the canonical path.
abbrev rooted : Str → Bool
rooted [] = false
rooted (c ∷ rest) = c == 47 && not (contains 10 rest) && not (contains 0 rest)

unfoldable pub canonical_helper : Host → Option Str → Result (Option Str)
canonical_helper host none = err (text "Invalid USB helper path.")
canonical_helper host (some path) = do
  guard (host.named path && rooted path && host.plain path) (text "Invalid USB helper path.")
  ok (some path)

unfoldable pub packaged_usb_helper : Host → Result (Option Str)
unfolding canonical_helper
packaged_usb_helper host = elim host.lookup [
  | no_parent ↦ ok none
  | not_found ↦ ok none
  | other_kind ↦ err (text "Invalid USB helper path.")
  | failing e ↦ err e
  | file canonical ↦ canonical >>= canonical_helper host
]

abbrev helper_args : Option Str → List Str
helper_args none = []
helper_args (some helper) = codes "--helper" ∷ helper ∷ []

abbrev device_args : Host → Option DeviceId → Result (List Str)
device_args host none = ok []
device_args host (some device) =
    (validated_device_json host device >>= λ json.
    ok (codes "--switch-parent" ∷ show host.parent ∷ codes "--device-json" ∷ json ∷ []))

-- The arguments of `pkexec`, and what its shell reads.
unfoldable pub host_setup_invocation : Host → Option DeviceId → Result (List Str × Str)
unfolding packaged_usb_helper
host_setup_invocation host device = do
  guard (ltb 0 host.parent) (text "Invalid parent PID.")
  helper ← packaged_usb_helper host
  guard (is_none device || not (is_none helper)) (text "USB helper is not included in this build.")
  more ← device_args host device
  script ← host.script
  ok (
    codes "--disable-internal-agent"
        ∷ codes "/bin/sh"
        ∷ codes "-s"
        ∷ codes "--"
        ∷ (helper_args helper ++ more),
    script,
  )

-- `auxiliary`: a helper gets a script or a message on its standard input, never both.
unfoldable pub run_auxiliary :
    Result (Unit {0})
    → Bool
    → Option (Settings × Option DeviceId × Bool)
    → Session
    → Session × Result (Unit {0})
run_auxiliary runs both restart s =
    let helped : Session = record s {
      usb_permission = none;
      auxiliary = some (record { restart = restart });
      state = connecting;
    } in
    if running s
    then (s, err (text "session is already running"))
    else if both
    then (s, err (text "host setup cannot share standard input"))
    else elim runs [ err e ↦ (s, err e) | panic ↦ (s, panic) | ok done ↦ (helped, ok done) ]

-- Whether the setup is to switch the device as well.
unfoldable pub switches : Host → Option DeviceId → Result Bool
switches host none = ok false
switches host (some id) = if accessory id.vid id.pid then ok false else host.denied id

abbrev when_ok {ℓ} :
    {A : Type ℓ}
    → Result A
    → Session
    → (A → Session × Result (Unit {0}))
    → Session × Result (Unit {0})
when_ok (ok a) s next = next a
when_ok (err e) s next = (s, err e)
when_ok panic s next = (s, panic)

unfoldable pub setup : Host → Settings → Option DeviceId → Session → Session × Result (Unit {0})
unfolding switches host_setup_invocation run_auxiliary
setup host settings device s =
    if not host.setup_available
    then (s, err (text "host setup is not included in this build"))
    else when_ok (switches host device) s (λ switched.
      when_ok (host_setup_invocation host (if switched then device else none)) s
        (λ invocation. run_auxiliary host.helper_runs false (some (settings, device, switched)) s))

abbrev allow_device : Host → Settings → Option DeviceId → Session → Session × Result (Unit {0})
allow_device host settings none s = (s, err (text "USB permission was not requested"))
allow_device host settings (some device) s =
    if accessory device.vid device.pid || not host.helper_installed
    then setup host settings (some device) s
    else run_auxiliary host.helper_runs false (some (settings, some device, true)) s

unfoldable pub allow_usb : Host → Settings → Session → Session × Result (Unit {0})
unfolding setup run_auxiliary
allow_usb host settings s = allow_device host settings s.usb_permission s

abbrev pub is_usb : Settings → Bool
is_usb settings = same settings.transport (codes "usb")

-- `device.filter(|_| settings.transport == "usb")`
abbrev pub usb_device : Settings → Option DeviceId → Option DeviceId
usb_device settings device = if is_usb settings then device else none

unfoldable pub connect : Host → Settings → Option DeviceId → Session → Session × Result (Unit {0})
unfolding setup start
connect host settings chosen s =
    let device : Option DeviceId = usb_device settings chosen in
    when_ok (Settings.validate host.available settings) s (λ done.
      if is_usb settings && is_none device
      then (s, err (text "select a USB device"))
      else if same (trim settings.output) (codes "/dev/video10")
          && not host.writable
          && host.setup_available
      then setup host settings device s
      else start settings host.worker_runs s)

run_auxiliary-Inv :
    (runs : Result (Unit {0})) (both : Bool) (restart : Option (Settings × Option DeviceId × Bool))
    (s : Session)
    → Inv s
    → Inv (run_auxiliary runs both restart s).0
unfolding run_auxiliary
run_auxiliary-Inv runs both restart s i = record {
  watched = record {
    armed = ground (arith, i.watched.armed);
    staged = λ e. ground (arith, i.watched.staged);
  };
  quiet = record {
    alone = λ e. ground (arith, i.quiet.alone);
    unheard = λ e. ground (arith, i.quiet.unheard);
    unwritten = λ e. ground (arith, i.quiet.unwritten);
    untimed = λ e. ground (arith, i.quiet.untimed);
    unready = λ e. ground (arith, i.quiet.unready);
    calm = λ e. ground (arith, i.quiet.calm);
    rests = λ e a. ground (arith, i.quiet.rests);
  };
}

when_ok-Inv {ℓ} :
    {A : Type ℓ} (r : Result A) (s : Session) (next : A → Session × Result (Unit {0}))
    → Inv s
    → ((a : A) → Inv (next a).0)
    → Inv (when_ok r s next).0
when_ok-Inv (ok a) s next i n = n a
when_ok-Inv (err e) s next i n = i
when_ok-Inv panic s next i n = i

-- A result whose session satisfies the invariant.
abbrev Good : Session × Result (Unit {0}) → Type 0
Good r = Inv r.0

setup-Inv :
    (host : Host) (settings : Settings) (device : Option DeviceId) (s : Session)
    → Inv s
    → Good (setup host settings device s)
unfolding setup
setup-Inv host settings device s i =
    if_both Good (not host.setup_available) _ _ (λ e. i)
      (λ e. when_ok-Inv (switches host device) s _ i (λ switched.
        when_ok-Inv (host_setup_invocation host (if switched then device else none)) s _ i
          (λ invocation.
            run_auxiliary-Inv host.helper_runs false (some (settings, device, switched)) s i)))

allow_device-Inv :
    (host : Host) (settings : Settings) (device : Option DeviceId) (s : Session)
    → Inv s
    → Good (allow_device host settings device s)
allow_device-Inv host settings none s i = i
allow_device-Inv host settings (some device) s i =
    if_both Good (accessory device.vid device.pid || not host.helper_installed) _ _
      (λ e. setup-Inv host settings (some device) s i)
      (λ e. run_auxiliary-Inv host.helper_runs false (some (settings, some device, true)) s i)

pub allow_usb-Inv :
    (host : Host) (settings : Settings) (s : Session) → Inv s → Good (allow_usb host settings s)
unfolding allow_usb
allow_usb-Inv host settings s i = allow_device-Inv host settings s.usb_permission s i

pub connect-Inv :
    (host : Host) (settings : Settings) (chosen : Option DeviceId) (s : Session)
    → Inv s
    → Good (connect host settings chosen s)
unfolding connect
connect-Inv host settings chosen s i =
    when_ok-Inv (Settings.validate host.available settings) s _ i (λ done.
      if_both Good (is_usb settings && is_none (usb_device settings chosen)) _ _ (λ a. i)
        (λ a.
          if_both Good
            (same (trim settings.output) (codes "/dev/video10")
              && not host.writable
              && host.setup_available)
            _ _ (λ b. setup-Inv host settings (usb_device settings chosen) s i)
            (λ b. start-Inv settings host.worker_runs s i)))
