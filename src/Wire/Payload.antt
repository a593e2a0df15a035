-- ===== src/Wire/Payload.antt =====
-- Voxel and event payloads of include/crowdy/wire/codec.hpp.
pub mod RoundTrip
use crowdy_cpp.Base.{ℕ, ◌+◌, ◌-◌, ◌%◌, ◌^◌, List, [], ◌∷◌, length, drop, ltb, if◌then◌else◌}
use crowdy_cpp.Base.Int.{ℤ}
use crowdy_cpp.Base.Buffers.{write_at, slice}
use crowdy_cpp.Core.Result.{Errc, Result, value, error}
use crowdy_cpp.Core.Le.{Bytes, write_i16, write_u16, read_i16, read_u16}
use crowdy_cpp.Wire.Protocol.{voxel_fixed_size, event_type_size}

pub record VoxelPayloadView : Type 0 where
  pub x : ℤ
  pub y : ℤ
  pub z : ℤ
  pub voxel_type : ℤ
  pub state : Bytes

-- The fields that the parser reads at their offsets.
abbrev pub voxel_view_of : Bytes → VoxelPayloadView
voxel_view_of b = record {
  x = read_i16 b;
  y = read_i16 (drop 2 b);
  z = read_i16 (drop 4 b);
  voxel_type = read_i16 (drop 6 b);
  state = slice b 10 (read_u16 (drop 8 b));
}

pub parse_voxel_payload : Bytes → Result VoxelPayloadView
parse_voxel_payload b =
    let state_len = read_u16 (drop 8 b) in
    if ltb (length b) voxel_fixed_size
    then error Errc.malformed
    else if ltb (length b) (voxel_fixed_size + state_len)
    then error Errc.malformed
    else value (voxel_view_of b)

-- The writes, in the source's order.
pub write_voxel : ℤ → ℤ → ℤ → ℤ → Bytes → Bytes → Bytes
write_voxel x y z voxel_type state b0 =
    let b1 = write_i16 b0 0 x in
    let b2 = write_i16 b1 2 y in
    let b3 = write_i16 b2 4 z in
    let b4 = write_i16 b3 6 voxel_type in
    let b5 = write_u16 b4 8 (length state % 2 ^ 16) in write_at b5 10 state

unfoldable pub encode_voxel_payload : ℤ → ℤ → ℤ → ℤ → Bytes → Bytes → Result ℕ × Bytes
encode_voxel_payload x y z voxel_type state out =
    let total = voxel_fixed_size + length state in
    if ltb (length out) total
    then (error Errc.buffer_too_small, out)
    else if ltb 0xffff (length state)
    then (error Errc.invalid_argument, out)
    else (value total, write_voxel x y z voxel_type state out)

pub record EventPayloadView : Type 0 where
  pub event_type : ℕ
  pub state : Bytes

pub parse_event_payload : Bytes → Result EventPayloadView
parse_event_payload b =
    if ltb (length b) event_type_size
    then error Errc.malformed
    else value (record { event_type = read_u16 b; state = drop event_type_size b })

unfoldable pub encode_event_payload : ℕ → Bytes → Bytes → Result ℕ × Bytes
encode_event_payload event_type state out =
    let total = event_type_size + length state in
    if ltb (length out) total
    then (error Errc.buffer_too_small, out)
    else (value total, write_at (write_u16 out 0 event_type) event_type_size state)
