-- ===== src/Wire/Channel/Encode.antt =====
-- What the channel encoders leave in the buffer.
use crowdy_cpp.Base.{
  ℕ, ◌+◌, ◌%◌, ◌^◌, ◌≡◌, ◌≤◌, ◌⊎◌, refl, sym, ◌∙◌, ap, not, ◌&&◌, Option, some, [], ◌∷◌, ◌++◌,
  length, take, drop, length-append, arith, ltb, ◌==◌, ltb_false→le,
}
use crowdy_cpp.Base.Buffers.{Laid, Laid-nil, Laid-write_at, Laid-take, Laid-eq}
use crowdy_cpp.Core.Result.{is_ok, value, if-error-value, option-error-value}
use crowdy_cpp.Core.Le.{Bytes, i64_bytes, u16_bytes, write_i64, write_u16}
use crowdy_cpp.Core.Crypto.{ICrypto, IMac, IsProvider}
use crowdy_cpp.Wire.Protocol.{channel_max_payload}
use crowdy_cpp.Wire.Hmac.{Token64, spatial_hmac, spatial_hmac-size, IsMacOption}
use crowdy_cpp.Wire.Spatial.{write_tail}
use crowdy_cpp.Wire.Spatial.Encode.{with_tail, write_tail-Laid, length-with_tail}
use crowdy_cpp.Wire.Channel.{
  ChannelMessageParams, channel_request_size, write_channel_part, encode_channel_request,
}

-- The signed part of a request, in the documented order.
abbrev pub channel_signed_part : ℕ → ChannelMessageParams → Bytes
channel_signed_part type p =
    ((((type ∷ i64_bytes p.channel_id) ++ p.uuid) ++ u16_bytes (length p.payload % 2 ^ 16))
      ++ p.payload)
    ++ (1 ∷ [])

module _ (type : ℕ) (p : ChannelMessageParams) (out : Bytes) (uuid : length p.uuid ≡ 32)
    (room : channel_request_size (length p.payload) ≤ length out) where
  write_channel_part-Laid : Laid out (write_channel_part type p out) (channel_signed_part type p)
  unfolding write_channel_part write_i64 write_u16
  write_channel_part-Laid =
      let n = length p.payload in
      let size = u16_bytes (n % 2 ^ 16) in
      let s1 = length-append p.uuid size in
      let s2 = length-append (p.uuid ++ size) p.payload in
      let l1 = Laid-write_at 0 (type ∷ []) (Laid-nil out) refl (omega arith) in
      let l2 = Laid-write_at 1 (i64_bytes p.channel_id) l1 refl (omega arith) in
      let l3 = Laid-write_at 9 p.uuid l2 refl (omega arith) in
      let l4 = Laid-write_at 41 size l3 (omega arith) (omega arith) in
      let l5 = Laid-write_at 43 p.payload l4 (omega (arith, s1)) (omega (arith, s1)) in
      Laid-write_at (43 + n) (1 ∷ []) l5 (omega (arith, s1, s2)) (omega (arith, s1, s2))

  length-channel_signed_part : length (channel_signed_part type p) ≡ 44 + length p.payload
  length-channel_signed_part =
      let size = u16_bytes (length p.payload % 2 ^ 16) in
      omega (
        arith,
        length-append p.uuid size,
        length-append (p.uuid ++ size) p.payload,
        length-append ((p.uuid ++ size) ++ p.payload) (1 ∷ []),
      )

module _ (type : ℕ) (crypto : ICrypto) (p : ChannelMessageParams) (token : Token64) (out : Bytes)
    (mac : Option IMac) {total : ℕ} where
  -- A successful call has passed every guard.
  encode_channel_request_guards :
      (encode_channel_request type crypto p token out mac).0 ≡ value total
      → ((type ≡ 17) ⊎ (type ≡ 35))
        × (length p.payload ≤ channel_max_payload)
        × (channel_request_size (length p.payload) ≤ length out)
        × ((tag : Bytes) × (spatial_hmac crypto
                (take (43 + length p.payload + 1) (write_channel_part type p out))
                token
                mac
              ≡ some tag)
            × (encode_channel_request type crypto p token out mac ≡ (
              value (channel_request_size (length p.payload)),
              write_tail
                  (write_channel_part type p out)
                  (43 + length p.payload + 1)
                  (channel_request_size (length p.payload))
                  tag
                  p.game_token_id
                  p.sequence,
            )))
        × (total ≡ channel_request_size (length p.payload))
  unfolding encode_channel_request
  encode_channel_request_guards e =
      let b = write_channel_part type p out in
      let n = 43 + length p.payload + 1 in
      let size = channel_request_size (length p.payload) in
      let bad = not (type == 17) && not (type == 35) in
      let r1 = if-error-value bad _ out _ e in
      let r2 = if-error-value (ltb channel_max_payload (length p.payload)) _ out _ r1.1 in
      let r3 = if-error-value (ltb (length out) size) _ out _ r2.1 in
      let r4 = if-error-value (not (is_ok crypto.availability)) _ out _ r3.1 in
      let (tag, h, t) =
        option-error-value (spatial_hmac crypto (take n b) token mac) _ b size
          (λ a. write_tail b n size a p.game_token_id p.sequence) r4.1 in
      (
        ground (arith, r1.0),
        ltb_false→le r2.0,
        ltb_false→le r3.0,
        (tag, h, rw (r1.0, r2.0, r3.0, r4.0, h)),
        sym t,
      )

  -- With a provider as documented and a uuid of 32 bytes: a channel request that the encoder accepts has opcode 17 or 35 and a payload of at most 1024
  -- bytes. The buffer then holds exactly the documented request (type, channel, uuid, payload
  -- length, payload, auth byte 1, the HMAC over all of these, token id, sequence) with the bytes
  -- behind it as they were, and the call returns the request's length.
  pub encode_channel_request-frame :
      IsProvider crypto
      → IsMacOption crypto token mac
      → length p.uuid ≡ 32
      → (encode_channel_request type crypto p token out mac).0 ≡ value total
      → ((type ≡ 17) ⊎ (type ≡ 35))
        × (length p.payload ≤ 1024)
        × ((tag : Bytes) × (spatial_hmac crypto (channel_signed_part type p) token mac ≡ some tag)
            × (total
                ≡ length (with_tail (channel_signed_part type p) tag p.game_token_id p.sequence))
            × ((encode_channel_request type crypto p token out mac).1
                ≡ with_tail (channel_signed_part type p) tag p.game_token_id p.sequence
                  ++ drop total out))
  encode_channel_request-frame c m uuid e =
      let (ty, small, room, (tag, h, run), size) = encode_channel_request_guards e in
      let signed = channel_signed_part type p in
      let l = write_channel_part-Laid type p out uuid room in
      let len = length-channel_signed_part type p out uuid room in
      let mac_ok : spatial_hmac crypto signed token mac ≡ some tag =
        ap (λ s. spatial_hmac crypto s token mac) (sym (Laid-take _ l (omega (arith, len)))) ∙ h in
      let ht = (spatial_hmac-size crypto signed token mac c m mac_ok).0 in
      let full =
        write_tail-Laid tag p.game_token_id p.sequence l (omega (arith, len)) (omega (arith, len))
          ht room in
      let whole = length-with_tail signed tag p.game_token_id p.sequence ht in
      let t : total ≡ length (with_tail signed tag p.game_token_id p.sequence) =
        omega (arith, size, len, whole) in
      (
        ty,
        small,
        (
          tag,
          mac_ok,
          t,
          ap (λ r. r.1) run
              ∙ Laid-eq full
              ∙ ap (λ k. with_tail signed tag p.game_token_id p.sequence ++ drop k out) (sym t),
        ),
      )
