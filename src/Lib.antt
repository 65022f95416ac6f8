-- ===== src/Lib.antt =====
-- Verification of the PC half of the mobile webcam bridge (host-rs/).
--
-- The PC receives camera video from a phone, over USB or over TLS on the LAN, and feeds it to a
-- virtual camera. Both sides speak AMB1: frames of a 24-byte header and a payload. A connection
-- starts with the per-PC authorization, in which the PC signs a challenge of the phone; then the phone
-- advertises its quality modes, and a state machine carries out each change of quality. Decoded
-- frames are rotated and letterboxed on their way to the camera. Settings are kept between runs.
--
-- Which file models what:
--   Prelude: the shared helpers. `Prelude.Outcome.Result` is Rust's `Result` with a third outcome,
--   the panic of a slice out of bounds, a failed `assert!` or an `expect`.
--   Wire (host-rs/src/wire.rs): `Bytes` has the slices and little-endian integers, `Kinds` the
--   constants, `Header` the types Header and Frame with `validate_payload_size`, and one module each
--   for the payloads Capabilities, PrepareQuality, QualityResult, Epoch (Paused and CommitQuality),
--   ClientChallenge, ClientAuth (with `client_auth_message`), ClientAuthResult and PairingInfo.
--   `Label` is `valid_label` over UTF-8 decoding.
--   Exchange (host-rs/src/client_auth.rs): `exchange`, its checks, its loop (`outcome`, `answer`) and
--   `proposed_label`; `Exchange.Poll` is `receive_until`.
--   Quality.Types, Quality.Switch (host-rs/src/quality.rs): the machine `Switch` with every event of
--   `step`; `run` folds a list of timed events.
--   Quality.Preference, Quality.Edition, Quality.Client (host-rs/src/quality/preference.rs,
--   edition.rs, client.rs): the wish and its resolution, the edition's cap, and what the PC knows of
--   one connection's quality.
--   Settings (host-rs/src/settings.rs, with is_hex of secure.rs and Backend of output.rs): the
--   defaults and validation; `Settings.Stored` is the stored form that `values` writes and
--   `from_values` reads, and `Settings.Text` has the string operations that these use.
--   Transform (host-rs/src/video/transform.rs): `fit` and `rotate`.
--   Video (host-rs/src/video.rs): `Config::parse`.
--   Preview (host-rs/src/preview.rs): the record's header and `step_for`; `Preview.Lock` is
--   `Producer::publish` and `Consumer::latest` as the accesses to the shared record that they make.
--   Usb (host-rs/src/usb.rs): which device is the phone (`selected`, `reconcile_selection`), and the
--   bytes of its transfers (the closure of `poll_receive`, `read_raw`, `align_stream`).
--   Transport (host-rs/src/transport.rs): `send_until`, `read_exact_until`, `receive_until` and
--   `pair_until` over a stream that transfers bytes in any pieces.
--   Control (host-rs/src/control.rs): `read` and `write`, one JSON message in a line.
--   Session (host-rs/src/session.rs, with the messages of control.rs): the state of `Session` and its
--   methods; `Session.Handle` is the events of `poll`, `Session.Poll` the rest of it, `Session.Connect`
--   the helper processes of Linux, `Session.Writer` the loop that writes to the worker.
--   Ttff (host-rs/src/ttff.rs): the time-to-first-frame line.
-- Modules named Tests hold runs at concrete inputs.
--
-- The parts meet as in the source: Exchange calls the codecs of Wire; Quality.Preference takes the
-- modes that Wire.Capabilities decodes; Quality.Client resolves wishes through Quality.Preference;
-- Settings validates and clamps its wish with Quality.Preference and Quality.Edition; Transport sends
-- and receives the frames of Wire.Header; Session starts with Settings, keeps a Quality.Client and
-- follows the devices of Usb.
--
-- Numbers, loops and state. Integers are natural numbers; where the source's arithmetic can wrap or is
-- checked this is written out (`% 2 ^ 64` of the apply deadline and of the pixel offsets, the checked
-- successor of request ids and epochs), and theorems on bytes assume values below 256. A method that
-- changes its object returns the new one. Loops recurse on their data; the only fuel is the number
-- of iterations of the authorization loop, which is two because one Pending outcome is allowed and a
-- second ends it, and the count of digits in a printed number, which is below the number plus one.
--
-- The world of the exchange is explicit. A list of turns says, for each pass of the polling loop,
-- whether the stop flag is set, the time, and what the transport answers to a timeout. When the
-- turns are used up the exchange is `waiting`. The remaining time of a deadline (crate io-budget),
-- the transport's send, the notification and the signature (crate ring) are functions that the theorems
-- take, as are the Unicode general category (crate unicode-general-category) and the f64 arithmetic of
-- the aspect ratio.
--
-- The other parts have their world as inputs too. A transport takes a list of turns (the time, what
-- setting the timeouts answers, how many bytes the stream transfers or how it fails) and is `waiting`
-- when they are used up. A poll of a session takes a moment: the times, the events that the channel
-- holds, and what `try_wait` answers; what it asks of the world is a list of effects. The preview
-- record is a step relation: one step is one access, of the producer or of the reader; a write of
-- the header or of the sequence number is one access, the pixels go in any pieces, and a producer
-- begins only while its counter is not at the end of u64.
--
-- Not modelled: the thread of host-rs/src/session.rs that reads from the worker, the
-- video worker of host-rs/src/video.rs (FFmpeg), the sockets, rusb and TLS below the transports,
-- `dial` and `resolve`, the key store, the registry and file storage of settings, the virtual camera
-- outputs, the sampling of a preview picture, the flips of frames, the window, and the command line. The
-- trace lines on standard error, repaint requests and the text of a failed integer parse are left out.
pub mod Control
pub mod Exchange
pub mod Prelude
pub mod Preview
pub mod Quality
pub mod Session
pub mod Settings
pub mod Transform
pub mod Transport
pub mod Ttff
pub mod Usb
pub mod Video
pub mod Wire
