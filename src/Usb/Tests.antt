-- ===== src/Usb/Tests.antt =====
-- The theorems on the USB module at concrete inputs, and runs.
use mobile_webcam_bridge.Prelude.{ℕ, ◌≡◌, refl, true, false, List, [], ◌∷◌, ◌++◌, some, codes}
use mobile_webcam_bridge.Prelude.Outcome.{ok}
use mobile_webcam_bridge.Usb.{
  DeviceId, Candidate, same_id, same_port, any_same, find_port, suggestions, reconcile_selection,
  Bulk, transfer, timeout, refill, read_some, align, align_stream, reset_stream, read_raw,
}
use mobile_webcam_bridge.Usb.Selection.{Reason, reconcile_selection-Reason}
use mobile_webcam_bridge.Usb.Bytes.{reads, brought, reads_exact}

abbrev phone : DeviceId
phone = record { bus = 1; address = 4; vid = 0x1234; pid = 0x0001; ports = 2 ∷ 1 ∷ [] }

-- The same phone after it has switched.
abbrev switched : DeviceId
switched = record { bus = 1; address = 9; vid = 0x18d1; pid = 0x2d01; ports = 2 ∷ 1 ∷ [] }

abbrev mouse : DeviceId
mouse = record { bus = 1; address = 5; vid = 0x0001; pid = 0x0002; ports = 3 ∷ [] }

abbrev plugged : List Candidate
plugged =
    record { id = mouse; name = codes "mouse"; suggested = false }
    ∷ record { id = switched; name = codes "phone"; suggested = true }
    ∷ []

follows_port : reconcile_selection (some phone) false plugged ≡ (some switched, false)
unfolding reconcile_selection any_same find_port suggestions same_id same_port
follows_port = refl

follows : (reconcile_selection (some phone) false plugged).0 ≡ some switched
unfolding reconcile_selection any_same find_port suggestions same_id same_port
follows = refl

reconcile_selection-Reason_example : Reason false plugged switched (some phone)
reconcile_selection-Reason_example =
    reconcile_selection-Reason (some phone) false plugged switched follows

-- A transfer of three bytes into room for two, a call that finds one pending, and a timeout.
abbrev calls : List (ℕ × Bulk)
calls = (2, transfer (7 ∷ 8 ∷ 9 ∷ [])) ∷ (4, transfer (1 ∷ [])) ∷ (4, timeout) ∷ []

calls_read : reads [] calls ≡ (7 ∷ 8 ∷ 9 ∷ [], [])
unfolding reads read_some refill
calls_read = refl

reads_exact_example : (reads [] calls).0 ++ (reads [] calls).1 ≡ [] ++ brought [] calls
reads_exact_example = reads_exact [] calls

-- The rest of an old session is dropped up to a transfer that starts with a header.
stale_dropped :
    reset_stream (transfer (1 ∷ 2 ∷ []) ∷ transfer (65 ∷ 77 ∷ 66 ∷ 49 ∷ 1 ∷ []) ∷ [])
    ≡ ok (true, 65 ∷ 77 ∷ 66 ∷ 49 ∷ 1 ∷ [])
unfolding reset_stream align_stream align read_raw
stale_dropped = refl
