-- ===== src/Wire/Kinds.antt =====
-- The constants of host-rs/src/wire.rs: sizes, frame kinds, outcome codes.
use mobile_webcam_bridge.Prelude.{ℕ, ◌+◌, ◌*◌}

abbrev pub header_size : ℕ
header_size = 24

abbrev pub max_payload : ℕ
max_payload = 16 * 1024 * 1024

abbrev pub hello : ℕ
hello = 1

abbrev pub hello_ack : ℕ
hello_ack = 2

abbrev pub ping : ℕ
ping = 3

abbrev pub pong : ℕ
pong = 4

abbrev pub quality_capabilities : ℕ
quality_capabilities = 5

abbrev pub prepare_quality : ℕ
prepare_quality = 6

abbrev pub quality_result : ℕ
quality_result = 7

abbrev pub paused : ℕ
paused = 8

abbrev pub commit_quality : ℕ
commit_quality = 9

abbrev pub client_challenge : ℕ
client_challenge = 10

abbrev pub client_auth : ℕ
client_auth = 11

abbrev pub client_auth_result : ℕ
client_auth_result = 12

abbrev pub pairing_info : ℕ
pairing_info = 13

abbrev pub host_hello : ℕ
host_hello = 14

abbrev pub video_config : ℕ
video_config = 16

abbrev pub video_au : ℕ
video_au = 17

abbrev pub idr_request : ℕ
idr_request = 18

abbrev pub auth_authorized : ℕ
auth_authorized = 0

abbrev pub auth_pending : ℕ
auth_pending = 1

abbrev pub auth_rejected : ℕ
auth_rejected = 2

abbrev pub auth_reason_none : ℕ
auth_reason_none = 0

abbrev pub auth_reason_unknown : ℕ
auth_reason_unknown = 1

abbrev pub auth_reason_revoked : ℕ
auth_reason_revoked = 2

abbrev pub auth_reason_expired : ℕ
auth_reason_expired = 3

abbrev pub auth_reason_too_many : ℕ
auth_reason_too_many = 4

abbrev pub auth_reason_bad_signature : ℕ
auth_reason_bad_signature = 5

abbrev pub max_client_label : ℕ
max_client_label = 32

abbrev pub signature_bytes : ℕ
signature_bytes = 64

abbrev pub nonce_bytes : ℕ
nonce_bytes = 32

abbrev pub max_control_payload : ℕ
max_control_payload = 16 * 1024

abbrev pub max_quality_modes : ℕ
max_quality_modes = 256

abbrev pub quality_mode_bytes : ℕ
quality_mode_bytes = 12

abbrev pub permission_ready : ℕ
permission_ready = 0

abbrev pub client_auth_version : ℕ
client_auth_version = 2

abbrev pub client_public_key_bytes : ℕ
client_public_key_bytes = 65

abbrev pub phone_binding_bytes : ℕ
phone_binding_bytes = 32

abbrev pub auth_usb : ℕ
auth_usb = 0

abbrev pub auth_lan : ℕ
auth_lan = 1

abbrev pub client_auth_min_bytes : ℕ
client_auth_min_bytes = 1 + client_public_key_bytes + 1 + signature_bytes

abbrev pub client_auth_max_bytes : ℕ
client_auth_max_bytes = client_auth_min_bytes + max_client_label
