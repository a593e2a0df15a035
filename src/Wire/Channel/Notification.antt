-- ===== src/Wire/Channel/Notification.antt =====
-- `parse_channel_notification` against the documented layout of a notification.
use crowdy_cpp.Base.{
  ℕ, ◌+◌, ◌^◌, ◌≡◌, ◌≤◌, ◌<◌, ◌⊎◌, ◌≢◌, refl, sym, ◌∙◌, ap, [], ◌∷◌, ◌++◌, length, take, drop,
  get_or, get_or-drop, length-append, length-take, length-drop, drop-drop, take-append, drop-append,
  append_assoc, arith,
}
use crowdy_cpp.Base.Int.{IsI64}
use crowdy_cpp.Base.Buffers.{slice}
use crowdy_cpp.Core.Result.{Errc, value, error}
use crowdy_cpp.Core.Le.{
  Bytes, i64_bytes, u16_bytes, read_i64, read_u16, read_i64-bytes, read_u16-bytes,
}
use crowdy_cpp.Wire.Channel.{
  ChannelNotificationView, notification_view_of, parse_channel_notification,
}

-- [type][8 channelId][32 senderUuid][2 payloadLen][payload][8 epochMillis][seq]
abbrev pub notification_frame : ℕ → ChannelNotificationView → Bytes
notification_frame type v =
    (type ∷ i64_bytes v.channel_id)
    ++ (v.sender_uuid
        ++ (u16_bytes (length v.payload)
            ++ (v.payload ++ (i64_bytes v.epoch_millis ++ (v.sequence ∷ [])))))

-- The widths of the fields.
pub record IsNotification (v : ChannelNotificationView) : Type 0 where
  pub channel_id : IsI64 v.channel_id
  pub sender_uuid : length v.sender_uuid ≡ 32
  pub payload : length v.payload < 2 ^ 16
  pub epoch_millis : IsI64 v.epoch_millis

-- The parser accepts exactly the datagrams of opcode 18 or 36 that hold their header, the payload
-- length they announce and the tail; every other is `malformed`. The payload it returns has the
-- announced length.
pub parse_channel_notification_iff :
    (b : Bytes)
    → ((parse_channel_notification b ≡ value (notification_view_of b))
        × ((get_or b 0 0 ≡ 18) ⊎ (get_or b 0 0 ≡ 36))
        × (52 + read_u16 (drop 41 b) ≤ length b)
        × (length (notification_view_of b).payload ≡ read_u16 (drop 41 b)))
      ⊎ ((parse_channel_notification b ≡ error Errc.malformed)
          × (((get_or b 0 0 ≢ 18) × (get_or b 0 0 ≢ 36)) ⊎ (length b < 52 + read_u16 (drop 41 b))))
unfolding parse_channel_notification
parse_channel_notification_iff b =
    let n = read_u16 (drop 41 b) in ground (arith, length-take n (drop 43 b), length-drop 43 b)

parse_accepts :
    (b : Bytes)
    → (get_or b 0 0 ≡ 18) ⊎ (get_or b 0 0 ≡ 36)
    → 52 + read_u16 (drop 41 b) ≤ length b
    → parse_channel_notification b ≡ value (notification_view_of b)
parse_accepts b ty fits = ground (arith, parse_channel_notification_iff b)

module _ (type : ℕ) (v : ChannelNotificationView) (w : IsNotification v) (rest : Bytes) where
  abbrev frame : Bytes
  frame = notification_frame type v ++ rest

  frame_split :
      frame
      ≡ (type ∷ i64_bytes v.channel_id)
        ++ (v.sender_uuid
            ++ (u16_bytes (length v.payload)
                ++ (v.payload ++ (i64_bytes v.epoch_millis ++ (v.sequence ∷ rest)))))
  frame_split = simp append_assoc

  -- From the payload length on, and from the payload on.
  frame-length_on :
      drop 41 frame
      ≡ u16_bytes (length v.payload)
        ++ (v.payload ++ (i64_bytes v.epoch_millis ++ (v.sequence ∷ rest)))
  frame-length_on =
      ap (drop 41) frame_split
      ∙ drop-append 32 v.sender_uuid
          (u16_bytes (length v.payload)
            ++ (v.payload ++ (i64_bytes v.epoch_millis ++ (v.sequence ∷ rest))))
          (sym w.sender_uuid)

  frame_payload_on : drop 43 frame ≡ v.payload ++ (i64_bytes v.epoch_millis ++ (v.sequence ∷ rest))
  frame_payload_on = sym (drop-drop 2 41 frame) ∙ ap (drop 2) frame-length_on

  frame_tail_on :
      drop (43 + length v.payload) frame ≡ i64_bytes v.epoch_millis ++ (v.sequence ∷ rest)
  frame_tail_on =
      sym (drop-drop (length v.payload) 43 frame)
      ∙ ap (drop (length v.payload)) frame_payload_on
      ∙ drop-append (length v.payload) v.payload (i64_bytes v.epoch_millis ++ (v.sequence ∷ rest))
          refl

  frame_size : read_u16 (drop 41 frame) ≡ length v.payload
  frame_size =
      ap read_u16 frame-length_on
      ∙ read_u16-bytes (length v.payload)
          (v.payload ++ (i64_bytes v.epoch_millis ++ (v.sequence ∷ rest))) w.payload

  view_of-frame : notification_view_of frame ≡ v
  view_of-frame =
      let n = length v.payload in
      let tail = i64_bytes v.epoch_millis ++ (v.sequence ∷ rest) in
      let uuid : slice frame 9 32 ≡ v.sender_uuid =
        ap (λ f. slice f 9 32) frame_split
        ∙ take-append 32 v.sender_uuid (u16_bytes n ++ (v.payload ++ tail)) (sym w.sender_uuid) in
      let payload : slice frame 43 (read_u16 (drop 41 frame)) ≡ v.payload =
        ap (slice frame 43) frame_size
        ∙ ap (take n) frame_payload_on
        ∙ take-append n v.payload tail refl in
      let epoch : read_i64 (drop (43 + read_u16 (drop 41 frame)) frame) ≡ v.epoch_millis =
        ap (λ k. read_i64 (drop (43 + k) frame)) frame_size
        ∙ ap read_i64 frame_tail_on
        ∙ read_i64-bytes v.epoch_millis (v.sequence ∷ rest) w.epoch_millis in
      let seq : get_or frame (43 + read_u16 (drop 41 frame) + 8) 0 ≡ v.sequence =
        ap (λ k. get_or frame (43 + k + 8) 0) frame_size
        ∙ sym (get_or-drop (43 + n) 8 frame 0)
        ∙ ap (λ f. get_or f 8 0) frame_tail_on in
      λ i. record {
        channel_id = read_i64-bytes v.channel_id (drop 9 frame) w.channel_id i;
        sender_uuid = uuid i;
        payload = payload i;
        epoch_millis = epoch i;
        sequence = seq i;
      }

  -- A notification of either kind, message (18) or audio (36), with fields in their widths, is read back with all its fields,
  -- whatever follows it in the datagram.
  pub parse-notification_frame :
      (type ≡ 18) ⊎ (type ≡ 36) → parse_channel_notification frame ≡ value v
  parse-notification_frame ty =
      let n = length v.payload in
      let size : 52 + n ≤ length frame = simp length-append (omega (arith, w.sender_uuid)) in
      parse_accepts frame ty (rw frame_size size) ∙ ap value view_of-frame
