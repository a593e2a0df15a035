-- ===== src/Wire/Spatial/Parse.antt =====
-- parseLongSpatial of include/crowdy/wire/codec.hpp on what the encoder writes.
use crowdy_cpp.Base.{
  ℕ, ◌+◌, ◌-◌, ◌≡◌, sym, ◌∙◌, ap, true, false, [], ◌∷◌, ◌++◌, length, take, drop, length-append,
  take-append, drop-append, append_assoc, Option, get_or, get_or-append, arith, ltb, le→ltb,
}
use crowdy_cpp.Base.Buffers.{slice}
use crowdy_cpp.Core.Result.{value}
use crowdy_cpp.Core.Le.{Bytes, i64_bytes, read_i64, read_i64-bytes}
use crowdy_cpp.Core.Crypto.{ICrypto, IMac, IsProvider}
use crowdy_cpp.Wire.Hmac.{Token64, IsMacOption}
use crowdy_cpp.Wire.Protocol.{is_long_spatial_layout}
use crowdy_cpp.Wire.Spatial.{
  encode_long_spatial, LongSpatialParams, IsParams, LongSpatialView, view_of, parse_long_spatial,
}
use crowdy_cpp.Wire.Spatial.Encode.{
  signed_part, fixed_part, encode_long_spatial-ok, long_spatial_frame, length-long_spatial_frame,
}

-- The fields of a message as its receiver sees them.
abbrev pub view_of_params : LongSpatialParams → LongSpatialView
view_of_params p = record {
  type = p.type;
  app_id = p.app_id;
  chunk = p.chunk;
  distance = p.distance;
  decay = p.decay;
  contains_auth = true;
  uuid = p.uuid;
  payload = p.payload;
  epoch_millis_or_token_id = p.game_token_id;
  sequence = p.sequence;
}

module _ (p : LongSpatialParams) (tag : Bytes) (v : IsParams p) (ht : length tag ≡ 32) where
  frame_split :
      long_spatial_frame p tag
      ≡ fixed_part p
        ++ (p.uuid ++ (p.payload ++ (tag ++ (i64_bytes p.game_token_id ++ (p.sequence ∷ [])))))
  frame_split = simp append_assoc

  frame_uuid : slice (long_spatial_frame p tag) 36 32 ≡ p.uuid
  frame_uuid =
      ap (λ f. slice f 36 32) frame_split
      ∙ take-append 32 p.uuid
          (p.payload ++ (tag ++ (i64_bytes p.game_token_id ++ (p.sequence ∷ [])))) (sym v.uuid)

  frame_payload : (n : ℕ) → n ≡ length p.payload → slice (long_spatial_frame p tag) 68 n ≡ p.payload
  frame_payload n e =
      let rest = tag ++ (i64_bytes p.game_token_id ++ (p.sequence ∷ [])) in
      ap (λ f. slice f 68 n) frame_split
      ∙ ap (take n) (drop-append 32 p.uuid (p.payload ++ rest) (sym v.uuid))
      ∙ take-append n p.payload rest e

  frame_token :
      (n : ℕ)
      → n ≡ length p.payload + 100
      → read_i64 (drop n (long_spatial_frame p tag)) ≡ p.game_token_id
  frame_token n e =
      let tail = i64_bytes p.game_token_id ++ (p.sequence ∷ []) in
      let size : n ≡ length (signed_part p ++ tag) =
        omega (
          arith,
          v.uuid,
          length-append p.uuid p.payload,
          length-append (p.uuid ++ p.payload) tag,
        ) in
      rw (append_assoc (signed_part p ++ tag) (i64_bytes p.game_token_id) (p.sequence ∷ [])) (
        ap read_i64 (drop-append n (signed_part p ++ tag) tail size)
        ∙ read_i64-bytes p.game_token_id (p.sequence ∷ []) v.game_token_id)

  frame_sequence :
      (n : ℕ) → n ≡ length p.payload + 108 → get_or (long_spatial_frame p tag) n 0 ≡ p.sequence
  frame_sequence n e =
      let front = (signed_part p ++ tag) ++ i64_bytes p.game_token_id in
      let size : n ≡ length front = omega (
        arith,
        v.uuid,
        length-append p.uuid p.payload,
        length-append (p.uuid ++ p.payload) tag,
        length-append ((p.uuid ++ p.payload) ++ tag) (i64_bytes p.game_token_id),
      ) in
      get_or-append n front p.sequence [] 0 size

  view_of-frame :
      (size : ℕ)
      → size ≡ length p.payload + 109
      → view_of (long_spatial_frame p tag) size true ≡ view_of_params p
  unfolding view_of
  view_of-frame size e = λ i. record {
    type = p.type;
    app_id = read_i64-bytes p.app_id (drop 9 (long_spatial_frame p tag)) v.app_id i;
    chunk = record {
      x = read_i64-bytes p.chunk.x (drop 17 (long_spatial_frame p tag)) v.chunk_x i;
      y = read_i64-bytes p.chunk.y (drop 25 (long_spatial_frame p tag)) v.chunk_y i;
      z = read_i64-bytes p.chunk.z (drop 33 (long_spatial_frame p tag)) v.chunk_z i;
    };
    distance = p.distance;
    decay = p.decay;
    contains_auth = true;
    uuid = frame_uuid i;
    payload = frame_payload (size - 68 - 41) (omega arith) i;
    epoch_millis_or_token_id = frame_token (size - 9) (omega arith) i;
    sequence = frame_sequence (size - 1) (omega arith) i;
  }

  parse-frame :
      is_long_spatial_layout p.type ≡ true
      → parse_long_spatial (long_spatial_frame p tag) ≡ value (view_of_params p)
  unfolding parse_long_spatial
  parse-frame ty =
      let size = length-long_spatial_frame p tag v.uuid ht in
      let l = length (long_spatial_frame p tag) in
      let g1 : ltb l 77 ≡ false = le→ltb l 77 (omega (arith, size)) in
      let g2 : ltb l 109 ≡ false = le→ltb l 109 (omega (arith, size)) in
      rw (g1, ty, g2) (ap value (view_of-frame l (omega (arith, size))))

-- What the encoder writes, the parser reads back: with a provider as documented, and parameters
-- in the widths of their fields, if the encoder returns `total`, then the first `total` bytes of
-- the buffer parse to a signed message with every field of the parameters.
pub parse-encode_long_spatial :
    (crypto : ICrypto) (p : LongSpatialParams) (token : Token64) (out : Bytes) (mac : Option IMac)
    {total : ℕ}
    → IsProvider crypto
    → IsMacOption crypto token mac
    → IsParams p
    → (encode_long_spatial crypto p token out mac).0 ≡ value total
    → parse_long_spatial (take total (encode_long_spatial crypto p token out mac).1)
      ≡ value (view_of_params p)
parse-encode_long_spatial crypto p token out mac {total} c m v e =
    let (tag, signed, ht, ty, avail, len, front) =
      encode_long_spatial-ok crypto p token out mac e c m v.uuid in
    rw front (parse-frame p tag v ht ty)
