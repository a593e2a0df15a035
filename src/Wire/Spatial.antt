-- ===== src/Wire/Spatial.antt =====
-- Long-form spatial messages of include/crowdy/wire/codec.hpp: encode and sign, parse, verify.
-- A call that writes to the caller's buffer returns its result with the buffer after the call.
pub mod Accepted
pub mod Encode
pub mod Parse
pub mod Sections
pub mod Verify
use crowdy_cpp.Base.{
  ℕ, ◌+◌, ◌-◌, ◌≡◌, ◌≤◌, ◌<◌, Bool, true, false, not, Option, none, some, List, [], ◌∷◌, ◌++◌,
  length, take, drop, get_or, ltb, leb, ◌==◌, if◌then◌else◌,
}
use crowdy_cpp.Base.Int.{ℤ, IsI64}
use crowdy_cpp.Base.Buffers.{write_at, slice}
use crowdy_cpp.Core.Result.{Errc, Status, is_ok, Result, value, error}
use crowdy_cpp.Core.Le.{Bytes, IsByte, i64_bytes, write_i64, read_i64}
use crowdy_cpp.Core.Crypto.{ICrypto, IMac}
use crowdy_cpp.Wire.Protocol.{
  uuid_size, hmac_tag_size, long_spatial_header_size, tail_no_hmac, tail_with_hmac,
  min_long_spatial_no_hmac, min_long_spatial_with_hmac, max_long_spatial_payload,
  is_long_spatial_layout,
}
use crowdy_cpp.Wire.Hmac.{Token64, spatial_hmac}

pub record ChunkCoord : Type 0 where
  pub x : ℤ
  pub y : ℤ
  pub z : ℤ

pub record LongSpatialParams : Type 0 where
  pub type : ℕ
  pub app_id : ℤ
  pub chunk : ChunkCoord
  pub distance : ℕ
  pub decay : ℕ
  pub uuid : Bytes
  pub payload : Bytes
  pub game_token_id : ℤ
  pub sequence : ℕ

-- The widths of the C++ fields.
pub record IsParams (p : LongSpatialParams) : Type 0 where
  pub app_id : IsI64 p.app_id
  pub chunk_x : IsI64 p.chunk.x
  pub chunk_y : IsI64 p.chunk.y
  pub chunk_z : IsI64 p.chunk.z
  pub uuid : length p.uuid ≡ uuid_size
  pub game_token_id : IsI64 p.game_token_id

abbrev pub long_spatial_size : ℕ → Bool → ℕ
long_spatial_size payload_len with_hmac =
    long_spatial_header_size + payload_len + (if with_hmac then tail_with_hmac else tail_no_hmac)

-- `b[i] = v`
abbrev pub put_byte : Bytes → ℕ → ℕ → Bytes
put_byte b i v = write_at b i (v ∷ [])

-- The writes up to the HMAC, in the source's order.
pub write_signed_part : LongSpatialParams → Bytes → Bytes
write_signed_part p b0 =
    let b1 = put_byte b0 0 p.type in
    let b2 = write_i64 b1 1 p.app_id in
    let b3 = write_i64 b2 9 p.chunk.x in
    let b4 = write_i64 b3 17 p.chunk.y in
    let b5 = write_i64 b4 25 p.chunk.z in
    let b6 = put_byte b5 33 p.distance in
    let b7 = put_byte b6 34 p.decay in
    let b8 = put_byte b7 35 1 in let b9 = write_at b8 36 p.uuid in write_at b9 68 p.payload

-- The writes from the HMAC on; `prefix_len` is the length of the signed part.
unfoldable pub write_tail : Bytes → ℕ → ℕ → Bytes → ℤ → ℕ → Bytes
write_tail b prefix_len total tag game_token_id sequence =
    let c1 = write_at b prefix_len tag in
    let c2 = write_i64 c1 (prefix_len + hmac_tag_size) game_token_id in
    put_byte c2 (total - 1) sequence

pub encode_long_spatial :
    ICrypto → LongSpatialParams → Token64 → Bytes → Option IMac → Result ℕ × Bytes
encode_long_spatial crypto p token out mac =
    let total = long_spatial_size (length p.payload) true in
    let prefix_len = long_spatial_header_size + length p.payload in
    let b = write_signed_part p out in
    if not (is_long_spatial_layout p.type)
    then (error Errc.invalid_argument, out)
    else if ltb max_long_spatial_payload (length p.payload)
    then (error Errc.invalid_argument, out)
    else if ltb (length out) total
    then (error Errc.buffer_too_small, out)
    else if not (is_ok crypto.availability)
    then (error crypto.availability, out)
    else elim (spatial_hmac crypto (take prefix_len b) token mac) [
      | none ↦ (error Errc.malformed, b)
      | some tag ↦ (value total, write_tail b prefix_len total tag p.game_token_id p.sequence)
    ]

-- Views into the datagram are lists of its bytes.
pub record LongSpatialView : Type 0 where
  pub type : ℕ
  pub app_id : ℤ
  pub chunk : ChunkCoord
  pub distance : ℕ
  pub decay : ℕ
  pub contains_auth : Bool
  pub uuid : Bytes
  pub payload : Bytes
  pub epoch_millis_or_token_id : ℤ
  pub sequence : ℕ

-- `auth ? kTailWithHmac : kTailNoHmac`
abbrev pub tail_size : Bool → ℕ
tail_size auth = if auth then tail_with_hmac else tail_no_hmac

-- `b[offsets::kContainsAuth] != 0`
abbrev pub auth_of : Bytes → Bool
auth_of b = not (get_or b 35 0 == 0)

pub view_of : Bytes → ℕ → Bool → LongSpatialView
view_of b size auth = record {
  type = get_or b 0 0;
  app_id = read_i64 (drop 1 b);
  chunk = record { x = read_i64 (drop 9 b); y = read_i64 (drop 17 b); z = read_i64 (drop 25 b) };
  distance = get_or b 33 0;
  decay = get_or b 34 0;
  contains_auth = auth;
  uuid = slice b 36 uuid_size;
  payload = slice b 68 (size - long_spatial_header_size - tail_size auth);
  epoch_millis_or_token_id = read_i64 (drop (size - tail_no_hmac) b);
  sequence = get_or b (size - 1) 0;
}

pub parse_long_spatial : Bytes → Result LongSpatialView
parse_long_spatial b =
    let size = length b in
    let auth = auth_of b in
    if ltb size min_long_spatial_no_hmac
    then error Errc.malformed
    else if not (is_long_spatial_layout (get_or b 0 0))
    then error Errc.malformed
    else if ltb size (long_spatial_header_size + tail_size auth)
    then error Errc.malformed
    else value (view_of b size auth)

-- The comparison of the computed tag with the one in the datagram.
pub check_tag : ICrypto → Option Bytes → Bytes → Status
check_tag crypto none found = Errc.malformed
check_tag crypto (some expected) found =
    if not (crypto.constant_time_equals expected found) then Errc.hmac_mismatch else Errc.ok

pub verify_long_spatial : ICrypto → Bytes → Token64 → Option IMac → Status
unfolding check_tag
verify_long_spatial crypto datagram token mac =
    let size = length datagram in
    let prefix_len = size - tail_with_hmac in
    if ltb size min_long_spatial_no_hmac
    then Errc.malformed
    else if get_or datagram 35 0 == 0
    then Errc.ok
    else if not (is_ok crypto.availability)
    then crypto.availability
    else if ltb size min_long_spatial_with_hmac
    then Errc.malformed
    else check_tag crypto (spatial_hmac crypto (take prefix_len datagram) token mac)
        (slice datagram prefix_len hmac_tag_size)
