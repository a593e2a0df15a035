-- ===== src/Wire/MessageType.antt =====
-- `MessageType` of include/crowdy/wire/protocol.hpp: an enum over `uint8_t`, which holds any byte.
use crowdy_cpp.Base.{ℕ}

abbrev pub bad_message : ℕ
bad_message = 0

abbrev pub message_bundle : ℕ
message_bundle = 2

abbrev pub generic_error : ℕ
generic_error = 3

abbrev pub channel_message_request : ℕ
channel_message_request = 17

abbrev pub channel_message_notification : ℕ
channel_message_notification = 18

abbrev pub command_reconnect : ℕ
command_reconnect = 22

abbrev pub client_actor_heartbeat : ℕ
client_actor_heartbeat = 26

abbrev pub client_capabilities : ℕ
client_capabilities = 29

abbrev pub message_bundle_signed : ℕ
message_bundle_signed = 30

abbrev pub channel_message_ranged_request : ℕ
channel_message_ranged_request = 32

abbrev pub channel_audio_request : ℕ
channel_audio_request = 35

abbrev pub channel_audio_notification : ℕ
channel_audio_notification = 36

abbrev pub actor_update_request : ℕ
actor_update_request = 128

abbrev pub generic_spatial : ℕ
generic_spatial = 140
