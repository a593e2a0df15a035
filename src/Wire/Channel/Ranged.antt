-- ===== src/Wire/Channel/Ranged.antt =====
-- What the ranged channel encoder leaves in the buffer.
use crowdy_cpp.Base.{
  ℕ, ◌+◌, ◌%◌, ◌^◌, ◌≡◌, ◌≤◌, refl, sym, ◌∙◌, ap, not, Option, some, [], ◌∷◌, ◌++◌, length, take,
  drop, length-append, arith, ltb, ltb_false→le,
}
use crowdy_cpp.Base.Buffers.{Laid, Laid-nil, Laid-write_at, Laid-take, Laid-eq}
use crowdy_cpp.Core.Result.{is_ok, value, if-error-value, option-error-value}
use crowdy_cpp.Core.Le.{Bytes, i64_bytes, u16_bytes, u32_bytes, write_i64, write_u16, write_u32}
use crowdy_cpp.Core.Crypto.{ICrypto, IMac, IsProvider}
use crowdy_cpp.Wire.MessageType
use crowdy_cpp.Wire.Protocol.{channel_max_payload, ranged_max_distance}
use crowdy_cpp.Wire.Hmac.{Token64, spatial_hmac, spatial_hmac-size, IsMacOption}
use crowdy_cpp.Wire.Spatial.{write_tail}
use crowdy_cpp.Wire.Spatial.Encode.{with_tail, write_tail-Laid, length-with_tail}
use crowdy_cpp.Wire.Channel.{
  RangedChannelMessageParams, ranged_channel_request_size, write_ranged_part,
  encode_ranged_channel_message,
}

-- The signed part of a ranged request, in the documented order.
abbrev pub ranged_signed_part : RangedChannelMessageParams → Bytes
ranged_signed_part p =
    (((((((((MessageType.channel_message_ranged_request ∷ i64_bytes p.channel_id) ++ p.uuid)
                  ++ i64_bytes p.app_id)
                ++ i64_bytes p.origin.x)
              ++ i64_bytes p.origin.y)
            ++ i64_bytes p.origin.z)
          ++ u32_bytes p.max_distance)
        ++ u16_bytes (length p.payload % 2 ^ 16))
      ++ p.payload)
    ++ (1 ∷ [])

module _ (p : RangedChannelMessageParams) (out : Bytes) (uuid : length p.uuid ≡ 32)
    (room : ranged_channel_request_size (length p.payload) ≤ length out) where
  write_ranged_part-Laid : Laid out (write_ranged_part p out) (ranged_signed_part p)
  unfolding write_ranged_part write_i64 write_u16 write_u32
  write_ranged_part-Laid =
      let n = length p.payload in
      let size = u16_bytes (n % 2 ^ 16) in
      let s1 = length-append p.uuid (i64_bytes p.app_id) in
      let a1 = p.uuid ++ i64_bytes p.app_id in
      let s2 = length-append a1 (i64_bytes p.origin.x) in
      let a2 = a1 ++ i64_bytes p.origin.x in
      let s3 = length-append a2 (i64_bytes p.origin.y) in
      let a3 = a2 ++ i64_bytes p.origin.y in
      let s4 = length-append a3 (i64_bytes p.origin.z) in
      let a4 = a3 ++ i64_bytes p.origin.z in
      let s5 = length-append a4 (u32_bytes p.max_distance) in
      let a5 = a4 ++ u32_bytes p.max_distance in
      let s6 = length-append a5 size in
      let s7 = length-append (a5 ++ size) p.payload in
      let l1 =
        Laid-write_at 0 (MessageType.channel_message_ranged_request ∷ []) (Laid-nil out) refl
          (omega arith) in
      let l2 = Laid-write_at 1 (i64_bytes p.channel_id) l1 refl (omega arith) in
      let l3 = Laid-write_at 9 p.uuid l2 refl (omega arith) in
      let l4 = Laid-write_at 41 (i64_bytes p.app_id) l3 (omega arith) (omega arith) in
      let l5 = Laid-write_at 49 (i64_bytes p.origin.x) l4 (omega (arith, s1)) (omega (arith, s1)) in
      let l6 =
        Laid-write_at 57 (i64_bytes p.origin.y) l5 (omega (arith, s1, s2))
          (omega (arith, s1, s2)) in
      let l7 =
        Laid-write_at 65 (i64_bytes p.origin.z) l6 (omega (arith, s1, s2, s3))
          (omega (arith, s1, s2, s3)) in
      let l8 =
        Laid-write_at 73 (u32_bytes p.max_distance) l7 (omega (arith, s1, s2, s3, s4))
          (omega (arith, s1, s2, s3, s4)) in
      let l9 =
        Laid-write_at 77 size l8 (omega (arith, s1, s2, s3, s4, s5))
          (omega (arith, s1, s2, s3, s4, s5)) in
      let l10 =
        Laid-write_at 79 p.payload l9 (omega (arith, s1, s2, s3, s4, s5, s6))
          (omega (arith, s1, s2, s3, s4, s5, s6)) in
      Laid-write_at (79 + n) (1 ∷ []) l10 (omega (arith, s1, s2, s3, s4, s5, s6, s7))
        (omega (arith, s1, s2, s3, s4, s5, s6, s7))

  length-ranged_signed_part : length (ranged_signed_part p) ≡ 80 + length p.payload
  length-ranged_signed_part = simp length-append (omega arith)

module _ (crypto : ICrypto) (p : RangedChannelMessageParams) (token : Token64) (out : Bytes)
    (mac : Option IMac) {total : ℕ} where
  -- A successful call has passed every guard.
  encode_ranged_channel_message_guards :
      (encode_ranged_channel_message crypto p token out mac).0 ≡ value total
      → (p.max_distance ≤ ranged_max_distance)
        × (length p.payload ≤ channel_max_payload)
        × (ranged_channel_request_size (length p.payload) ≤ length out)
        × ((tag : Bytes) × (spatial_hmac crypto
                (take (79 + length p.payload + 1) (write_ranged_part p out))
                token
                mac
              ≡ some tag)
            × (encode_ranged_channel_message crypto p token out mac ≡ (
              value (ranged_channel_request_size (length p.payload)),
              write_tail
                  (write_ranged_part p out)
                  (79 + length p.payload + 1)
                  (ranged_channel_request_size (length p.payload))
                  tag
                  p.game_token_id
                  p.sequence,
            )))
        × (total ≡ ranged_channel_request_size (length p.payload))
  unfolding encode_ranged_channel_message
  encode_ranged_channel_message_guards e =
      let b = write_ranged_part p out in
      let n = 79 + length p.payload + 1 in
      let size = ranged_channel_request_size (length p.payload) in
      let r1 = if-error-value (ltb channel_max_payload (length p.payload)) _ out _ e in
      let r2 = if-error-value (ltb ranged_max_distance p.max_distance) _ out _ r1.1 in
      let r3 = if-error-value (ltb (length out) size) _ out _ r2.1 in
      let r4 = if-error-value (not (is_ok crypto.availability)) _ out _ r3.1 in
      let (tag, h, t) =
        option-error-value (spatial_hmac crypto (take n b) token mac) _ b size
          (λ a. write_tail b n size a p.game_token_id p.sequence) r4.1 in
      (
        ltb_false→le r2.0,
        ltb_false→le r1.0,
        ltb_false→le r3.0,
        (tag, h, rw (r1.0, r2.0, r3.0, r4.0, h)),
        sym t,
      )

  -- With a provider as documented and a uuid of 32 bytes: a ranged request that the encoder accepts has a distance of at most 0x7FFFFFFF and a payload of
  -- at most 1024 bytes. The buffer then holds exactly the documented request (type 32, channel,
  -- uuid, app, origin chunk, distance, payload length, payload, auth byte 1, the HMAC over all of these, token id, sequence) with the bytes
  -- behind it as they were, and the call returns the request's length.
  pub encode_ranged_channel_message-frame :
      IsProvider crypto
      → IsMacOption crypto token mac
      → length p.uuid ≡ 32
      → (encode_ranged_channel_message crypto p token out mac).0 ≡ value total
      → (p.max_distance ≤ ranged_max_distance)
        × (length p.payload ≤ 1024)
        × ((tag : Bytes) × (spatial_hmac crypto (ranged_signed_part p) token mac ≡ some tag)
            × (total ≡ length (with_tail (ranged_signed_part p) tag p.game_token_id p.sequence))
            × ((encode_ranged_channel_message crypto p token out mac).1
                ≡ with_tail (ranged_signed_part p) tag p.game_token_id p.sequence
                  ++ drop total out))
  encode_ranged_channel_message-frame c m uuid e =
      let (ty, small, room, (tag, h, run), size) = encode_ranged_channel_message_guards e in
      let signed = ranged_signed_part p in
      let l = write_ranged_part-Laid p out uuid room in
      let len = length-ranged_signed_part p out uuid room in
      let mac_ok : spatial_hmac crypto signed token mac ≡ some tag =
        ap (λ s. spatial_hmac crypto s token mac) (sym (Laid-take _ l (omega (arith, len)))) ∙ h in
      let ht = (spatial_hmac-size crypto signed token mac c m mac_ok).0 in
      let full =
        write_tail-Laid tag p.game_token_id p.sequence l (omega (arith, len)) (omega (arith, len))
          ht room in
      let whole = length-with_tail signed tag p.game_token_id p.sequence ht in
      let t : total ≡ length (with_tail signed tag p.game_token_id p.sequence) =
        omega (arith, size, len, whole) in
      (
        ty,
        small,
        (
          tag,
          mac_ok,
          t,
          ap (λ r. r.1) run
              ∙ Laid-eq full
              ∙ ap (λ k. with_tail signed tag p.game_token_id p.sequence ++ drop k out) (sym t),
        ),
      )
