-- ===== src/Wire/Channel.antt =====
-- Channel requests and notifications of include/crowdy/wire/codec.hpp.
pub mod Encode
pub mod Ranged
pub mod Notification
use crowdy_cpp.Base.{
  ℕ, ◌+◌, ◌-◌, ◌%◌, ◌^◌, Bool, true, false, not, ◌&&◌, Option, none, some, List, [], ◌∷◌, length,
  take, drop, get_or, ltb, ◌==◌, if◌then◌else◌,
}
use crowdy_cpp.Base.Int.{ℤ}
use crowdy_cpp.Base.Buffers.{write_at, slice}
use crowdy_cpp.Core.Result.{Errc, is_ok, Result, value, error}
use crowdy_cpp.Core.Le.{Bytes, write_i64, write_u16, write_u32, read_i64, read_u16}
use crowdy_cpp.Core.Crypto.{ICrypto, IMac}
use crowdy_cpp.Wire.MessageType
use crowdy_cpp.Wire.Protocol.{
  uuid_size, hmac_tag_size, channel_header_size, channel_request_tail_size,
  channel_notification_tail_size, channel_min_notification_size, channel_max_payload,
  ranged_header_size, ranged_max_distance,
}
use crowdy_cpp.Wire.Hmac.{Token64, spatial_hmac}
use crowdy_cpp.Wire.Spatial.{ChunkCoord, put_byte, write_tail}

pub record ChannelMessageParams : Type 0 where
  pub channel_id : ℤ
  pub uuid : Bytes
  pub payload : Bytes
  pub game_token_id : ℤ
  pub sequence : ℕ

abbrev pub channel_request_size : ℕ → ℕ
channel_request_size payload_len = channel_header_size + payload_len + channel_request_tail_size

-- The writes up to the HMAC, the containsAuth byte included.
unfoldable pub write_channel_part : ℕ → ChannelMessageParams → Bytes → Bytes
write_channel_part type p b0 =
    let b1 = put_byte b0 0 type in
    let b2 = write_i64 b1 1 p.channel_id in
    let b3 = write_at b2 9 p.uuid in
    let b4 = write_u16 b3 41 (length p.payload % 2 ^ 16) in
    let b5 = write_at b4 43 p.payload in put_byte b5 (43 + length p.payload) 1

unfoldable pub encode_channel_request :
    ℕ → ICrypto → ChannelMessageParams → Token64 → Bytes → Option IMac → Result ℕ × Bytes
encode_channel_request type crypto p token out mac =
    let total = channel_request_size (length p.payload) in
    let prefix_len = 43 + length p.payload + 1 in
    let b = write_channel_part type p out in
    if not (type == MessageType.channel_message_request)
      && not (type == MessageType.channel_audio_request)
    then (error Errc.invalid_argument, out)
    else if ltb channel_max_payload (length p.payload)
    then (error Errc.invalid_argument, out)
    else if ltb (length out) total
    then (error Errc.buffer_too_small, out)
    else if not (is_ok crypto.availability)
    then (error crypto.availability, out)
    else elim (spatial_hmac crypto (take prefix_len b) token mac) [
      | none ↦ (error Errc.malformed, b)
      | some tag ↦ (value total, write_tail b prefix_len total tag p.game_token_id p.sequence)
    ]

pub encode_channel_message :
    ICrypto → ChannelMessageParams → Token64 → Bytes → Option IMac → Result ℕ × Bytes
encode_channel_message = encode_channel_request MessageType.channel_message_request

pub encode_channel_audio :
    ICrypto → ChannelMessageParams → Token64 → Bytes → Option IMac → Result ℕ × Bytes
encode_channel_audio = encode_channel_request MessageType.channel_audio_request

pub record RangedChannelMessageParams : Type 0 where
  pub channel_id : ℤ
  pub uuid : Bytes
  pub app_id : ℤ
  pub origin : ChunkCoord
  pub max_distance : ℕ
  pub payload : Bytes
  pub game_token_id : ℤ
  pub sequence : ℕ

abbrev pub ranged_channel_request_size : ℕ → ℕ
ranged_channel_request_size payload_len =
    ranged_header_size + payload_len + channel_request_tail_size

unfoldable pub write_ranged_part : RangedChannelMessageParams → Bytes → Bytes
write_ranged_part p b0 =
    let b1 = put_byte b0 0 MessageType.channel_message_ranged_request in
    let b2 = write_i64 b1 1 p.channel_id in
    let b3 = write_at b2 9 p.uuid in
    let b4 = write_i64 b3 41 p.app_id in
    let b5 = write_i64 b4 49 p.origin.x in
    let b6 = write_i64 b5 57 p.origin.y in
    let b7 = write_i64 b6 65 p.origin.z in
    let b8 = write_u32 b7 73 p.max_distance in
    let b9 = write_u16 b8 77 (length p.payload % 2 ^ 16) in
    let b10 = write_at b9 79 p.payload in put_byte b10 (79 + length p.payload) 1

unfoldable pub encode_ranged_channel_message :
    ICrypto → RangedChannelMessageParams → Token64 → Bytes → Option IMac → Result ℕ × Bytes
encode_ranged_channel_message crypto p token out mac =
    let total = ranged_channel_request_size (length p.payload) in
    let prefix_len = 79 + length p.payload + 1 in
    let b = write_ranged_part p out in
    if ltb channel_max_payload (length p.payload)
    then (error Errc.invalid_argument, out)
    else if ltb ranged_max_distance p.max_distance
    then (error Errc.invalid_argument, out)
    else if ltb (length out) total
    then (error Errc.buffer_too_small, out)
    else if not (is_ok crypto.availability)
    then (error crypto.availability, out)
    else elim (spatial_hmac crypto (take prefix_len b) token mac) [
      | none ↦ (error Errc.malformed, b)
      | some tag ↦ (value total, write_tail b prefix_len total tag p.game_token_id p.sequence)
    ]

pub record ChannelNotificationView : Type 0 where
  pub channel_id : ℤ
  pub sender_uuid : Bytes
  pub payload : Bytes
  pub epoch_millis : ℤ
  pub sequence : ℕ

-- The fields that the parser reads at their offsets.
abbrev pub notification_view_of : Bytes → ChannelNotificationView
notification_view_of b =
    let n = read_u16 (drop 41 b) in
    record {
      channel_id = read_i64 (drop 1 b);
      sender_uuid = slice b 9 uuid_size;
      payload = slice b 43 n;
      epoch_millis = read_i64 (drop (43 + n) b);
      sequence = get_or b (43 + n + 8) 0;
    }

pub parse_channel_notification : Bytes → Result ChannelNotificationView
parse_channel_notification b =
    let payload_len = read_u16 (drop 41 b) in
    if ltb (length b) channel_min_notification_size
    then error Errc.malformed
    else if not (get_or b 0 0 == MessageType.channel_message_notification)
        && not (get_or b 0 0 == MessageType.channel_audio_notification)
    then error Errc.malformed
    else if ltb (length b) (channel_header_size + payload_len + channel_notification_tail_size)
    then error Errc.malformed
    else value (notification_view_of b)
