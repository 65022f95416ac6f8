-- ===== src/Usb.antt =====
-- host-rs/src/usb.rs: which device is the phone, and the bytes of its bulk transfers. The calls of the
-- library rusb are inputs: a list of devices, and what each transfer brings.
pub mod Selection
pub mod Bytes
mod Tests
use mobile_webcam_bridge.Prelude.{
  ℕ, zero, suc, Bool, true, false, not, ◌&&◌, ◌||◌, List, [], ◌∷◌, ◌++◌, Option, none, some, leb,
  ◌==◌, if◌then◌else◌, length, take, drop,
}
use mobile_webcam_bridge.Prelude.Outcome.{
  Error, error, boxed, interrupted, timed_out, other, Result, ok, err, panic, ◌>>=◌, ◌>>◌, guard,
}
use mobile_webcam_bridge.Wire.Bytes.{same}
use mobile_webcam_bridge.Wire.Header.{magic}
use Prim.Native.String.{String}

pub record DeviceId : Type 0 where
  pub bus : ℕ  -- u8
  pub address : ℕ  -- u8
  pub vid : ℕ  -- u16
  pub pid : ℕ  -- u16
  pub ports : List ℕ  -- u8

pub record Candidate : Type 0 where
  pub id : DeviceId
  pub name : List ℕ
  pub suggested : Bool

-- `a == b`
unfoldable pub same_id : DeviceId → DeviceId → Bool
same_id a b =
    a.bus == b.bus
    && a.address == b.address
    && a.vid == b.vid
    && a.pid == b.pid
    && same a.ports b.ports

-- Bus and port path agree.
unfoldable pub same_port : DeviceId → DeviceId → Bool
same_port a b = a.bus == b.bus && same a.ports b.ports

unfoldable pub accessory : ℕ → ℕ → Bool
accessory vid pid =
    vid == 0x18d1 && (pid == 0x2d00 || pid == 0x2d01 || pid == 0x2d04 || pid == 0x2d05)

-- `matches!(interface, (0xff, 0x42, 1) | (6, 1, 1))`
abbrev debugging_or_transfer : ℕ × ℕ × ℕ → Bool
debugging_or_transfer (class, subclass, protocol) =
    (class == 0xff && subclass == 0x42 && protocol == 1)
    || (class == 6 && subclass == 1 && protocol == 1)

unfoldable pub any_interface : List (ℕ × ℕ × ℕ) → Bool
any_interface [] = false
any_interface (i ∷ rest) = debugging_or_transfer i || any_interface rest

unfoldable pub suggested : ℕ → ℕ → List (ℕ × ℕ × ℕ) → Bool
suggested vid pid interfaces = accessory vid pid || any_interface interfaces

abbrev pub text : String → Error
text message = error boxed message

-- The test in the loop of `selected`.
unfoldable pub is_selected : DeviceId → Bool → DeviceId → Bool
is_selected id post_switch actual =
    same_port actual id && (same_id actual id || (post_switch && accessory actual.vid actual.pid))

-- The loop, over the identities of the devices; an error skips the device.
unfoldable pub find_selected : DeviceId → Bool → List (Result DeviceId) → Result DeviceId
unfolding is_selected
find_selected id post_switch [] = err (text "selected USB device disconnected")
find_selected id post_switch (ok actual ∷ rest) =
    let later : Result DeviceId = find_selected id post_switch rest in
    if is_selected id post_switch actual then ok actual else later
find_selected id post_switch (_ ∷ rest) = find_selected id post_switch rest

-- `selected`, to the identity of the device that it returns.
unfoldable pub selected : DeviceId → Bool → Result (List (Result DeviceId)) → Result DeviceId
unfolding find_selected
selected id post_switch devices = do
  guard (not (length id.ports == 0)) (text "USB physical port is unavailable; reconnect the device")
  found ← devices
  find_selected id post_switch found

-- `devices.iter().any(|candidate| candidate.id == current)`
unfoldable pub any_same : DeviceId → List Candidate → Bool
any_same current [] = false
any_same current (c ∷ cs) = same_id c.id current || any_same current cs

-- `devices.iter().find(...)` on the port
unfoldable pub find_port : DeviceId → List Candidate → Option DeviceId
find_port current [] = none
find_port current (c ∷ cs) =
    let rest : Option DeviceId = find_port current cs in
    if same_port c.id current then some c.id else rest

-- The devices that are suggested.
unfoldable pub suggestions : List Candidate → List DeviceId
suggestions [] = []
suggestions (c ∷ cs) =
    let rest : List DeviceId = suggestions cs in if c.suggested then c.id ∷ rest else rest

-- The only one, if there is one.
abbrev pub only : List DeviceId → Option DeviceId
only (id ∷ []) = some id
only _ = none

abbrev pub or_keep : DeviceId → Option DeviceId → Option DeviceId × Bool
or_keep current none = (some current, true)
or_keep current (some id) = (some id, false)

abbrev pub reconcile_current : DeviceId → Bool → List Candidate → Option DeviceId × Bool
reconcile_current current lost devices =
    if any_same current devices then (some current, false) else elim (find_port current devices) [
      | some id ↦ (some id, false)
      | none ↦ or_keep current (if lost then only (suggestions devices) else none)
    ]

-- `reconcile_selection`, to the new `selected` and `lost`.
unfoldable pub reconcile_selection :
    Option DeviceId → Bool → List Candidate → Option DeviceId × Bool
unfolding any_same find_port suggestions
reconcile_selection (some current) lost devices = reconcile_current current lost devices
reconcile_selection none lost devices = (if lost then none else only (suggestions devices), lost)

-- What `read_bulk` answers.
pub data Bulk : Type 0 where
  transfer : List ℕ → Bulk
  timeout interruption : Bulk
  broken : String → Bulk

-- What the first half of the closure of `poll_receive` leaves in `pending`.
unfoldable pub refill : List ℕ → Bulk → Result (List ℕ)
refill [] (transfer []) = err (error interrupted "interrupted")
refill [] (transfer (b ∷ bytes)) = ok (b ∷ bytes)
refill [] timeout = err (error timed_out "timed out")
refill [] interruption = err (error interrupted "interrupted")
refill [] (broken message) = err (error other message)
refill (p ∷ pending) bulk = ok (p ∷ pending)

-- The closure: the bytes that it hands on, and what stays pending. No transfer is asked for while
-- bytes are pending.
unfoldable pub read_some : List ℕ → ℕ → Bulk → Result (List ℕ × List ℕ)
unfolding refill
read_some pending room bulk = do held ← refill pending bulk; ok (take room held, drop room held)

-- `read_raw`
unfoldable pub read_raw : ℕ → Bulk → Result (List ℕ)
read_raw room (transfer bytes) = ok (take room bytes)
read_raw room timeout = ok []
read_raw room interruption = err (error other "Interrupted")
read_raw room (broken message) = err (error other message)

-- Whether a transfer starts with a header.
abbrev pub starts_frame : List ℕ → Bool
starts_frame bytes = leb 4 (length bytes) && same (take 4 bytes) magic

-- The loop of `align_stream`, with the rounds that are left: what it answers, and `pending`.
unfoldable pub align : ℕ → List ℕ → List Bulk → Result (Bool × List ℕ)
align zero pending bulks = ok (false, pending)
align (suc rounds) pending [] = ok (false, pending)
align (suc rounds) pending (bulk ∷ bulks) =
    let more : Result (Bool × List ℕ) = align rounds pending bulks in
    elim (read_raw 1024 bulk) [
      | err e ↦ ok (false, pending)
      | panic ↦ panic
      | ok bytes ↦
          if length bytes == 0
          then ok (true, pending)
          else if starts_frame bytes
          then ok (true, pending ++ bytes)
          else more
    ]

unfoldable pub align_stream : List ℕ → List Bulk → Result (Bool × List ℕ)
unfolding align read_raw
align_stream pending bulks = align 64 pending bulks

-- `reset_stream` clears what is pending first.
unfoldable pub reset_stream : List Bulk → Result (Bool × List ℕ)
unfolding align_stream
reset_stream bulks = align_stream [] bulks
