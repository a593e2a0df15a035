-- ===== src/Wire/Protocol.antt =====
-- include/crowdy/wire/protocol.hpp: the layout constants and the classes of message types.
use crowdy_cpp.Base.{ℕ, ◌+◌, ◌-◌, Bool, ◌&&◌, ◌||◌, leb, ◌==◌, length, get_or, if◌then◌else◌}
use crowdy_cpp.Core.Le.{Bytes}
use crowdy_cpp.Wire.MessageType

abbrev pub uuid_size : ℕ
uuid_size = 32

abbrev pub hmac_tag_size : ℕ
hmac_tag_size = 32

abbrev pub token_octets : ℕ
token_octets = 64

abbrev pub long_spatial_header_size : ℕ
long_spatial_header_size = 68

abbrev pub tail_no_hmac : ℕ
tail_no_hmac = 8 + 1

abbrev pub tail_with_hmac : ℕ
tail_with_hmac = hmac_tag_size + tail_no_hmac

abbrev pub min_long_spatial_no_hmac : ℕ
min_long_spatial_no_hmac = long_spatial_header_size + tail_no_hmac

abbrev pub min_long_spatial_with_hmac : ℕ
min_long_spatial_with_hmac = long_spatial_header_size + tail_with_hmac

abbrev pub max_datagram_size : ℕ
max_datagram_size = 1232

abbrev pub max_long_spatial_payload : ℕ
max_long_spatial_payload = max_datagram_size - long_spatial_header_size - tail_with_hmac

-- The types of the long HMAC spatial layout.
unfoldable pub is_long_spatial_layout : ℕ → Bool
is_long_spatial_layout t =
    (leb 128 t && leb t 140)
    || (leb 142 t && leb t 145)
    || t == MessageType.client_actor_heartbeat
    || t == MessageType.client_capabilities

-- Downlink types that a client never originates.
unfoldable pub is_server_only_spatial_type : ℕ → Bool
is_server_only_spatial_type t =
    t == 130 || t == 133 || t == 135 || t == 137 || t == 139 || t == 144 || t == 145

abbrev pub generic_error_size : ℕ
generic_error_size = 3

abbrev pub command_reconnect_size : ℕ
command_reconnect_size = 1 + hmac_tag_size

-- Channel messages: requests and notifications share their first 43 bytes.
abbrev pub channel_header_size : ℕ
channel_header_size = 1 + 8 + uuid_size + 2

abbrev pub channel_request_tail_size : ℕ
channel_request_tail_size = 1 + hmac_tag_size + 8 + 1

abbrev pub channel_notification_tail_size : ℕ
channel_notification_tail_size = 8 + 1

abbrev pub channel_min_notification_size : ℕ
channel_min_notification_size = channel_header_size + channel_notification_tail_size

abbrev pub channel_max_payload : ℕ
channel_max_payload = 1024

abbrev pub ranged_header_size : ℕ
ranged_header_size = 79

abbrev pub ranged_max_distance : ℕ
ranged_max_distance = 0x7FFF_FFFF

abbrev pub event_type_size : ℕ
event_type_size = 2

abbrev pub voxel_fixed_size : ℕ
voxel_fixed_size = 10

-- The reason byte of an actor-left payload; anything unknown is 0.
unfoldable pub actor_left_reason : Bytes → ℕ
actor_left_reason payload = if leb 1 (length payload) && get_or payload 0 0 == 1 then 1 else 0
