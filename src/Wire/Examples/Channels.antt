-- ===== src/Wire/Examples/Channels.antt =====
-- Concrete channel messages and payloads.
use crowdy_cpp.Base.{
  ℕ, ◌+◌, ◌≡◌, ◌≢◌, ◌≤◌, ◌<◌, ◌⊎◌, inr, refl, none, some, [], ◌∷◌, ◌++◌, length, take, drop, get_or,
  replicate, arith,
}
use crowdy_cpp.Base.Int.{pos, negsuc}
use crowdy_cpp.Base.Buffers.{write_at}
use crowdy_cpp.Core.Result.{Errc, value, error}
use crowdy_cpp.Core.Le.{Bytes, read_u16, write_u16, write_u32, write_i64}
use crowdy_cpp.Wire.Hmac.{spatial_hmac}
use crowdy_cpp.Wire.Spatial.Encode.{with_tail}
use crowdy_cpp.Wire.Channel.{
  ChannelMessageParams, RangedChannelMessageParams, ChannelNotificationView, notification_view_of,
  encode_channel_request, encode_ranged_channel_message, parse_channel_notification,
  write_channel_part, write_ranged_part,
}
use crowdy_cpp.Wire.Channel.Encode.{channel_signed_part, encode_channel_request-frame}
use crowdy_cpp.Wire.Channel.Ranged.{ranged_signed_part, encode_ranged_channel_message-frame}
use crowdy_cpp.Wire.Channel.Notification.{
  IsNotification, notification_frame, parse-notification_frame, parse_channel_notification_iff,
}
use crowdy_cpp.Wire.Payload.{
  parse_voxel_payload, encode_voxel_payload, parse_event_payload, encode_event_payload,
  VoxelPayloadView,
}
use crowdy_cpp.Wire.Payload.RoundTrip.{
  parse-encode_voxel_payload, parse-encode_event_payload, parse_voxel_payload_iff,
}
use crowdy_cpp.Wire.Examples.{toy, toy-IsProvider, token}

abbrev request : ChannelMessageParams
request = record {
  channel_id = pos 3;
  uuid = replicate 32 97;
  payload = 1 ∷ 2 ∷ [];
  game_token_id = pos 77;
  sequence = 4;
}

abbrev buffer : Bytes
buffer = replicate 130 0

abbrev total : ℕ
total = 87

abbrev opcode : ℕ
opcode = 35

request_encoded : (encode_channel_request opcode toy request token buffer none).0 ≡ value total
unfolding encode_channel_request spatial_hmac write_channel_part write_at write_u16 write_i64
request_encoded = refl

request_framed :
    ((opcode ≡ 17) ⊎ (opcode ≡ 35))
    × (length request.payload ≤ 1024)
    × ((tag : Bytes) × (spatial_hmac toy (channel_signed_part opcode request) token none ≡ some tag)
        × (total ≡ length (with_tail (channel_signed_part opcode request) tag (pos 77) 4))
        × ((encode_channel_request opcode toy request token buffer none).1
            ≡ with_tail (channel_signed_part opcode request) tag (pos 77) 4 ++ drop total buffer))
request_framed =
    encode_channel_request-frame opcode toy request token buffer none toy-IsProvider tt refl
      request_encoded

abbrev ranged : RangedChannelMessageParams
ranged = record {
  channel_id = pos 3;
  uuid = replicate 32 97;
  app_id = pos 1;
  origin = record { x = pos 0; y = negsuc 4; z = pos 12 };
  max_distance = 10;
  payload = 1 ∷ 2 ∷ [];
  game_token_id = pos 77;
  sequence = 4;
}

ranged_encoded : (encode_ranged_channel_message toy ranged token buffer none).0 ≡ value 123
unfolding encode_ranged_channel_message spatial_hmac write_ranged_part write_at write_u16 write_u32
    write_i64
ranged_encoded = refl

ranged_framed :
    (ranged.max_distance ≤ 0x7FFFFFFF)
    × (length ranged.payload ≤ 1024)
    × ((tag : Bytes) × (spatial_hmac toy (ranged_signed_part ranged) token none ≡ some tag)
        × (123 ≡ length (with_tail (ranged_signed_part ranged) tag (pos 77) 4))
        × ((encode_ranged_channel_message toy ranged token buffer none).1
            ≡ with_tail (ranged_signed_part ranged) tag (pos 77) 4 ++ drop 123 buffer))
ranged_framed =
    encode_ranged_channel_message-frame toy ranged token buffer none toy-IsProvider tt refl
      ranged_encoded

abbrev notice : ChannelNotificationView
notice = record {
  channel_id = negsuc 7;
  sender_uuid = replicate 32 98;
  payload = 1 ∷ 2 ∷ [];
  epoch_millis = pos 1700000000000;
  sequence = 4;
}

notice-IsNotification : IsNotification notice
notice-IsNotification = record {
  channel_id = ground arith;
  sender_uuid = refl;
  payload = omega arith;
  epoch_millis = ground arith;
}

notice_parsed : parse_channel_notification (notification_frame 36 notice ++ (9 ∷ [])) ≡ value notice
notice_parsed = parse-notification_frame 36 notice notice-IsNotification (9 ∷ []) (inr refl)

abbrev stray : Bytes
stray = 18 ∷ replicate 20 0

notification_cases_example :
    ((parse_channel_notification stray ≡ value (notification_view_of stray))
      × ((get_or stray 0 0 ≡ 18) ⊎ (get_or stray 0 0 ≡ 36))
      × (52 + read_u16 (drop 41 stray) ≤ length stray)
      × (length (notification_view_of stray).payload ≡ read_u16 (drop 41 stray)))
    ⊎ ((parse_channel_notification stray ≡ error Errc.malformed)
        × (((get_or stray 0 0 ≢ 18) × (get_or stray 0 0 ≢ 36))
            ⊎ (length stray < 52 + read_u16 (drop 41 stray))))
notification_cases_example = parse_channel_notification_iff stray

abbrev state : Bytes
state = 7 ∷ 8 ∷ 9 ∷ []

voxel_encoded : (encode_voxel_payload (pos 1) (negsuc 1) (pos 15) (pos 4) state buffer).0 ≡ value 13
unfolding encode_voxel_payload
voxel_encoded = refl

voxel_example :
    (parse_voxel_payload (encode_voxel_payload (pos 1) (negsuc 1) (pos 15) (pos 4) state buffer).1
      ≡ value (record { x = pos 1; y = negsuc 1; z = pos 15; voxel_type = pos 4; state = state }))
    × (13 ≡ 10 + length state)
    × (drop 13 (encode_voxel_payload (pos 1) (negsuc 1) (pos 15) (pos 4) state buffer).1
        ≡ drop 13 buffer)
voxel_example =
    parse-encode_voxel_payload (pos 1) (negsuc 1) (pos 15) (pos 4) state buffer (ground arith)
      (ground arith) (ground arith) (ground arith) voxel_encoded

event_encoded : (encode_event_payload 300 state buffer).0 ≡ value 5
unfolding encode_event_payload
event_encoded = refl

event_example :
    parse_event_payload (take 5 (encode_event_payload 300 state buffer).1)
    ≡ value (record { event_type = 300; state = state })
event_example = parse-encode_event_payload 300 state buffer (omega arith) event_encoded

voxel_cases_example :
    ((w : VoxelPayloadView) × (parse_voxel_payload stray ≡ value w)
      × (length w.state ≡ read_u16 (drop 8 stray))
      × (10 + length w.state ≤ length stray))
    ⊎ ((parse_voxel_payload stray ≡ error Errc.malformed)
        × ((length stray < 10) ⊎ (length stray < 10 + read_u16 (drop 8 stray))))
voxel_cases_example = parse_voxel_payload_iff stray
