-- ===== src/Wire/Payload/RoundTrip.antt =====
-- Payload encoders against their parsers.
use crowdy_cpp.Base.{
  ℕ, ◌+◌, ◌^◌, ◌%◌, ◌≡◌, ◌≤◌, ◌<◌, refl, sym, ◌∙◌, ap, ◌++◌, length, take, drop, length-append,
  take-append, drop-append, arith, ltb, false, le→ltb, ltb_false→le, subst, if◌then◌else◌, ◌⊎◌, inl,
  inr, Bool-cases, length-take, length-drop,
}
use crowdy_cpp.Base.Int.{ℤ, IsI16}
use crowdy_cpp.Base.Buffers.{slice, write_at, Laid-nil, Laid-write_at, Laid-take, Laid-eq}
use crowdy_cpp.Core.Result.{Errc, Result, value, error, if-error-value}
use crowdy_cpp.Core.Le.{
  Bytes, i16_bytes, u16_bytes, write_i16, write_u16, read_u16, read_i16-bytes, read_u16-bytes,
}
use crowdy_cpp.Wire.Payload.{
  VoxelPayloadView, voxel_view_of, parse_voxel_payload, write_voxel, encode_voxel_payload,
  parse_event_payload, encode_event_payload,
}
use native.Mathlib.Nat.{mod-eq_of_lt}

module _ (x y z t : ℤ) (state : Bytes) where
  -- The documented layout.
  abbrev pub voxel_frame : Bytes
  voxel_frame =
      (i16_bytes x
        ++ (i16_bytes y ++ (i16_bytes z ++ (i16_bytes t ++ u16_bytes (length state % 2 ^ 16)))))
      ++ state

  write_voxel-frame :
      (out : Bytes)
      → 10 + length state ≤ length out
      → write_voxel x y z t state out ≡ voxel_frame ++ drop (10 + length state) out
  unfolding write_voxel write_i16 write_u16
  write_voxel-frame out room =
      let l1 = Laid-write_at 0 (i16_bytes x) (Laid-nil out) refl (omega arith) in
      let l2 = Laid-write_at 2 (i16_bytes y) l1 refl (omega arith) in
      let l3 = Laid-write_at 4 (i16_bytes z) l2 refl (omega arith) in
      let l4 = Laid-write_at 6 (i16_bytes t) l3 refl (omega arith) in
      let l5 = Laid-write_at 8 (u16_bytes (length state % 2 ^ 16)) l4 refl (omega arith) in
      let l6 = Laid-write_at 10 state l5 refl (omega arith) in
      let size : length voxel_frame ≡ 10 + length state = omega arith in
      Laid-eq l6 ∙ ap (λ k. voxel_frame ++ drop k out) size

  parse-voxel_frame :
      (rest : Bytes)
      → IsI16 x
      → IsI16 y
      → IsI16 z
      → IsI16 t
      → length state < 2 ^ 16
      → parse_voxel_payload (voxel_frame ++ rest)
        ≡ value (record { x = x; y = y; z = z; voxel_type = t; state = state })
  unfolding parse_voxel_payload
  parse-voxel_frame rest hx hy hz ht hs =
      let f = voxel_frame ++ rest in
      let n : read_u16 (drop 8 f) ≡ length state =
        read_u16-bytes (length state % 2 ^ 16) (state ++ rest) (omega arith) ∙ mod-eq_of_lt hs in
      let g1 : ltb (length f) 10 ≡ false = le→ltb (length f) 10 (omega arith) in
      let g2 : ltb (length f) (10 + length state) ≡ false =
        le→ltb (length f) (10 + length state) (omega (arith, length-append state rest)) in
      rw (n, g1, g2)
        (λ i. value (record {
          x = read_i16-bytes x (drop 2 f) hx i;
          y = read_i16-bytes y (drop 4 f) hy i;
          z = read_i16-bytes z (drop 6 f) hz i;
          voxel_type = read_i16-bytes t (drop 8 f) ht i;
          state = take-append (length state) state rest refl i;
        }))

-- A voxel edit of 16-bit coordinates and type that the encoder accepts is read back from the buffer, whatever the buffer holds
-- behind it; the encoder returns the number of bytes written and keeps the bytes behind them.
pub parse-encode_voxel_payload :
    (x y z t : ℤ) (state out : Bytes) {total : ℕ}
    → IsI16 x
    → IsI16 y
    → IsI16 z
    → IsI16 t
    → (encode_voxel_payload x y z t state out).0 ≡ value total
    → (parse_voxel_payload (encode_voxel_payload x y z t state out).1
        ≡ value (record { x = x; y = y; z = z; voxel_type = t; state = state }))
      × (total ≡ 10 + length state)
      × (drop total (encode_voxel_payload x y z t state out).1 ≡ drop total out)
unfolding encode_voxel_payload
parse-encode_voxel_payload x y z t state out {total} hx hy hz ht e =
    let w = write_voxel x y z t state out in
    let n = 10 + length state in
    let done : Result ℕ × Bytes = (value n, w) in
    let r1 =
      if-error-value (ltb (length out) n) Errc.buffer_too_small out
        (if ltb 0xffff (length state) then (error Errc.invalid_argument, out) else done) e in
    let r2 = if-error-value (ltb 0xffff (length state)) Errc.invalid_argument out done r1.1 in
    let room = ltb_false→le r1.0 in
    let small : length state < 2 ^ 16 = omega (arith, ltb_false→le r2.0) in
    let size : n ≡ total = cc r2.1 in
    let front : length (voxel_frame x y z t state) ≡ n = omega arith in
    rw (r1.0, r2.0, write_voxel-frame x y z t state out room)
      (
        parse-voxel_frame x y z t state (drop n out) hx hy hz ht small,
        sym size,
        subst (λ k. drop k (voxel_frame x y z t state ++ drop n out) ≡ drop k out) size
            (drop-append n (voxel_frame x y z t state) (drop n out) (sym front)),
      )

-- An event that the encoder accepts, its type of 16 bits, is read back from the bytes that the
-- returned length counts: type and state come back.
pub parse-encode_event_payload :
    (event_type : ℕ) (state out : Bytes) {total : ℕ}
    → event_type < 2 ^ 16
    → (encode_event_payload event_type state out).0 ≡ value total
    → parse_event_payload (take total (encode_event_payload event_type state out).1)
      ≡ value (record { event_type = event_type; state = state })
unfolding encode_event_payload parse_event_payload write_u16
parse-encode_event_payload t state out {total} h e =
    let frame : Bytes = u16_bytes t ++ state in
    let n = 2 + length state in
    let w : Bytes = write_at (write_at out 0 (u16_bytes t)) 2 state in
    let done : Result ℕ × Bytes = (value n, w) in
    let r1 = if-error-value (ltb (length out) n) Errc.buffer_too_small out done e in
    let room = ltb_false→le r1.0 in
    let l1 = Laid-write_at 0 (u16_bytes t) (Laid-nil out) refl (omega arith) in
    let l2 = Laid-write_at 2 state l1 refl (omega arith) in
    let size : n ≡ total = cc r1.1 in
    let front : take total w ≡ frame = Laid-take total l2 (omega (arith, size)) in
    let g : ltb (length frame) 2 ≡ false = le→ltb (length frame) 2 (omega arith) in
    rw (r1.0, front, g)
      (λ i. value (record { event_type = read_u16-bytes t state h i; state = state }))

-- The parser accepts exactly the payloads that hold their fixed part and the state length they
-- announce, and the state it returns has that length.
pub parse_voxel_payload_iff :
    (b : Bytes)
    → ((w : VoxelPayloadView) × (parse_voxel_payload b ≡ value w)
        × (length w.state ≡ read_u16 (drop 8 b))
        × (10 + length w.state ≤ length b))
      ⊎ ((parse_voxel_payload b ≡ error Errc.malformed)
          × ((length b < 10) ⊎ (length b < 10 + read_u16 (drop 8 b))))
unfolding parse_voxel_payload
parse_voxel_payload_iff b =
    let n = read_u16 (drop 8 b) in
    elim (Bool-cases (ltb (length b) 10)) [
      | inl short ↦ inr (rw short, inl (ground (arith, short)))
      | inr fixed ↦ elim (Bool-cases (ltb (length b) (10 + n))) [
        | inl short ↦ inr (rw (fixed, short), inr (ground (arith, short)))
        | inr fits ↦
            let room = ltb_false→le fits in
            let size : length (slice b 10 n) ≡ n =
              omega (arith, length-take n (drop 10 b), length-drop 10 b) in
            inl (voxel_view_of b, rw (fixed, fits) refl, size, omega (arith, size))
      ]
    ]
