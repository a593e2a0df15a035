-- ===== src/Wire/Spatial/Encode.antt =====
-- What `encode_long_spatial` leaves in the buffer: the documented frame, laid out byte by byte.
use crowdy_cpp.Base.{
  ℕ, ◌+◌, ◌-◌, ◌≡◌, ◌≤◌, refl, sym, ◌∙◌, true, not, Option, some, [], ◌∷◌, ◌++◌, length, take, drop,
  length-append, take-append, arith, ap, ltb, le→ltb, ltb_false→le,
}
use crowdy_cpp.Base.Int.{ℤ}
use crowdy_cpp.Base.Buffers.{Laid, Laid-nil, Laid-write_at, Laid-eq}
use crowdy_cpp.Core.Result.{Errc, is_ok, value, if-error-value, option-error-value, is_ok→eq}
use crowdy_cpp.Core.Le.{Bytes, i64_bytes, write_i64}
use crowdy_cpp.Core.Crypto.{ICrypto, IMac, IsProvider}
use crowdy_cpp.Wire.Protocol.{is_long_spatial_layout, max_long_spatial_payload}
use crowdy_cpp.Wire.Hmac.{Token64, spatial_hmac, spatial_hmac-size, IsMacOption}
use crowdy_cpp.Wire.Spatial.{
  LongSpatialParams, long_spatial_size, write_signed_part, write_tail, encode_long_spatial,
}

-- The 36 bytes in front of the uuid.
abbrev pub fixed_part : LongSpatialParams → Bytes
fixed_part p =
    (p.type ∷ [])
    ++ (i64_bytes p.app_id
        ++ (i64_bytes p.chunk.x
            ++ (i64_bytes p.chunk.y ++ (i64_bytes p.chunk.z ++ (p.distance ∷ p.decay ∷ 1 ∷ [])))))

-- What the HMAC signs: the header and the payload.
abbrev pub signed_part : LongSpatialParams → Bytes
signed_part p = (fixed_part p ++ p.uuid) ++ p.payload

-- The whole message.
abbrev pub long_spatial_frame : LongSpatialParams → Bytes → Bytes
long_spatial_frame p tag =
    ((signed_part p ++ tag) ++ i64_bytes p.game_token_id) ++ (p.sequence ∷ [])

-- A signed part followed by its HMAC, the token id and the sequence number.
abbrev pub with_tail : Bytes → Bytes → ℤ → ℕ → Bytes
with_tail signed tag token_id sequence = ((signed ++ tag) ++ i64_bytes token_id) ++ (sequence ∷ [])

pub length-with_tail :
    (signed tag : Bytes) (token_id : ℤ) (sequence : ℕ)
    → length tag ≡ 32
    → length (with_tail signed tag token_id sequence) ≡ length signed + 41
length-with_tail signed tag token_id sequence ht = omega (
  arith,
  length-append signed tag,
  length-append (signed ++ tag) (i64_bytes token_id),
  length-append ((signed ++ tag) ++ i64_bytes token_id) (sequence ∷ []),
)

pub length-long_spatial_frame :
    (p : LongSpatialParams) (tag : Bytes)
    → length p.uuid ≡ 32
    → length tag ≡ 32
    → length (long_spatial_frame p tag) ≡ long_spatial_size (length p.payload) true
length-long_spatial_frame p tag uuid ht = omega (
  arith,
  length-append p.uuid p.payload,
  length-with_tail (signed_part p) tag p.game_token_id p.sequence ht,
)

-- The tail goes behind the signed part.
pub write_tail-Laid :
    {out b signed : Bytes} {off total : ℕ} (tag : Bytes) (token_id : ℤ) (sequence : ℕ)
    → Laid out b signed
    → off ≡ length signed
    → total ≡ length signed + 41
    → length tag ≡ 32
    → total ≤ length out
    → Laid out
        (write_tail b off total tag token_id sequence)
        (with_tail signed tag token_id sequence)
unfolding write_tail write_i64
write_tail-Laid {signed = signed} {off = off} {total = total} tag token_id sequence l e et ht room =
    let s1 = length-append signed tag in
    let s2 = length-append (signed ++ tag) (i64_bytes token_id) in
    let l1 = Laid-write_at off tag l e (omega arith) in
    let l2 =
      Laid-write_at (off + 32) (i64_bytes token_id) l1 (omega (arith, s1)) (omega (arith, s1)) in
    Laid-write_at (total - 1) (sequence ∷ []) l2 (omega (arith, s1, s2)) (omega (arith, s1, s2))

module _ (p : LongSpatialParams) (out : Bytes) (uuid : length p.uuid ≡ 32)
    (room : long_spatial_size (length p.payload) true ≤ length out) where
  write_signed_part-Laid : Laid out (write_signed_part p out) (signed_part p)
  unfolding write_signed_part write_i64
  write_signed_part-Laid =
      let l1 = Laid-write_at 0 (p.type ∷ []) (Laid-nil out) refl (omega arith) in
      let l2 = Laid-write_at 1 (i64_bytes p.app_id) l1 refl (omega arith) in
      let l3 = Laid-write_at 9 (i64_bytes p.chunk.x) l2 refl (omega arith) in
      let l4 = Laid-write_at 17 (i64_bytes p.chunk.y) l3 refl (omega arith) in
      let l5 = Laid-write_at 25 (i64_bytes p.chunk.z) l4 refl (omega arith) in
      let l6 = Laid-write_at 33 (p.distance ∷ []) l5 refl (omega arith) in
      let l7 = Laid-write_at 34 (p.decay ∷ []) l6 refl (omega arith) in
      let l8 = Laid-write_at 35 (1 ∷ []) l7 refl (omega arith) in
      let l9 = Laid-write_at 36 p.uuid l8 refl (omega arith) in
      Laid-write_at 68 p.payload l9 (omega arith) (omega (arith, length-append p.uuid p.payload))

  -- The frame, with the bytes behind it as they were.
  write_tail-frame :
      (tag : Bytes)
      → length tag ≡ 32
      → write_tail
          (write_signed_part p out)
          (68 + length p.payload)
          (long_spatial_size (length p.payload) true)
          tag
          p.game_token_id
          p.sequence
        ≡ long_spatial_frame p tag ++ drop (long_spatial_size (length p.payload) true) out
  write_tail-frame tag ht =
      let size = length-append p.uuid p.payload in
      Laid-eq (
        write_tail-Laid tag p.game_token_id p.sequence write_signed_part-Laid (omega (arith, size))
          (omega (arith, size)) ht (omega (arith, size)))
      ∙ ap (λ k. long_spatial_frame p tag ++ drop k out) (length-long_spatial_frame p tag uuid ht)

  signed_part-take : take (68 + length p.payload) (write_signed_part p out) ≡ signed_part p
  signed_part-take =
      let s1 = length-append p.uuid p.payload in
      let size : length (signed_part p) ≡ 68 + length p.payload = omega (arith, s1) in
      rw (← size) (write_signed_part-Laid.filled)

-- On valid parameters, with room in the buffer and a working provider, the encoder writes exactly
-- the documented frame at the front of the buffer, signed over header and payload, changes
-- nothing behind it, and returns the frame's length.
pub encode_long_spatial-frame :
    (crypto : ICrypto) (p : LongSpatialParams) (token : Token64) (out : Bytes) (mac : Option IMac)
    (tag : Bytes)
    → length p.uuid ≡ 32
    → is_long_spatial_layout p.type ≡ true
    → length p.payload ≤ max_long_spatial_payload
    → long_spatial_size (length p.payload) true ≤ length out
    → crypto.availability ≡ Errc.ok
    → spatial_hmac crypto (signed_part p) token mac ≡ some tag
    → length tag ≡ 32
    → encode_long_spatial crypto p token out mac ≡ (
      value (long_spatial_size (length p.payload) true),
      long_spatial_frame p tag ++ drop (long_spatial_size (length p.payload) true) out,
    )
unfolding encode_long_spatial
encode_long_spatial-frame crypto p token out mac tag uuid ty fit room avail mac_ok ht =
    let g1 = le→ltb max_long_spatial_payload (length p.payload) fit in
    let g2 = le→ltb (length out) (long_spatial_size (length p.payload) true) room in
    rw
      (
        ty,
        g1,
        g2,
        signed_part-take p out uuid room,
        mac_ok,
        write_tail-frame p out uuid room tag ht,
      )
      (rw avail)

module _ (crypto : ICrypto) (p : LongSpatialParams) (token : Token64) (out : Bytes)
    (mac : Option IMac) {total : ℕ}
    (e : (encode_long_spatial crypto p token out mac).0 ≡ value total) where
  -- A successful call has passed every guard.
  pub encode_long_spatial_guards :
      (is_long_spatial_layout p.type ≡ true)
      × (length p.payload ≤ max_long_spatial_payload)
      × (long_spatial_size (length p.payload) true ≤ length out)
      × (crypto.availability ≡ Errc.ok)
      × ((tag : Bytes) × (spatial_hmac crypto
              (take (68 + length p.payload) (write_signed_part p out))
              token
              mac
            ≡ some tag))
      × (total ≡ long_spatial_size (length p.payload) true)
  unfolding encode_long_spatial
  encode_long_spatial_guards =
      let b = write_signed_part p out in
      let total' = long_spatial_size (length p.payload) true in
      let r1 = if-error-value (not (is_long_spatial_layout p.type)) _ out _ e in
      let r2 = if-error-value (ltb max_long_spatial_payload (length p.payload)) _ out _ r1.1 in
      let r3 = if-error-value (ltb (length out) total') _ out _ r2.1 in
      let r4 = if-error-value (not (is_ok crypto.availability)) _ out _ r3.1 in
      let (tag, h, size) =
        option-error-value (spatial_hmac crypto (take (68 + length p.payload) b) token mac) _ b
          total' (λ t. write_tail b (68 + length p.payload) total' t p.game_token_id p.sequence)
          r4.1 in
      (
        ground (arith, r1.0),
        ltb_false→le r2.0,
        ltb_false→le r3.0,
        is_ok→eq _ r4.0,
        (tag, h),
        sym size,
      )

  -- So its tag is the one of the signed part, and its buffer is the frame.
  pub encode_long_spatial-ok :
      IsProvider crypto
      → IsMacOption crypto token mac
      → length p.uuid ≡ 32
      → (tag : Bytes) × (spatial_hmac crypto (signed_part p) token mac ≡ some tag)
        × (length tag ≡ 32)
        × (is_long_spatial_layout p.type ≡ true)
        × (crypto.availability ≡ Errc.ok)
        × (total ≡ length (long_spatial_frame p tag))
        × (take total (encode_long_spatial crypto p token out mac).1 ≡ long_spatial_frame p tag)
  encode_long_spatial-ok c m uuid =
      let (ty, fit, room, avail, (tag, h), size) = encode_long_spatial_guards in
      let signed = rw (signed_part-take p out uuid room) at h in
      let ht = (spatial_hmac-size crypto (signed_part p) token mac c m signed).0 in
      let whole =
        encode_long_spatial-frame crypto p token out mac tag uuid ty fit room avail signed ht in
      let len : total ≡ length (long_spatial_frame p tag) =
        size ∙ sym (length-long_spatial_frame p tag uuid ht) in
      (
        tag,
        signed,
        ht,
        ty,
        avail,
        len,
        ap (λ r. take total r.1) whole ∙ take-append total (long_spatial_frame p tag) _ len,
      )
