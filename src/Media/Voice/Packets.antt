-- ===== src/Media/Voice/Packets.antt =====
-- Voice packets round trip, and what the decoder refuses.
use crowdy_cpp.Base.{
  ℕ, ◌+◌, ◌*◌, ◌/◌, ◌%◌, ◌^◌, ◌≡◌, ◌≢◌, ◌≤◌, ◌<◌, ◌⊎◌, inl, inr, refl, sym, ◌∙◌, none, some, ◌++◌,
  length, drop, get_or, bit_or, bit_or-add, bit_or_comm, arith, le→ltb,
}
use crowdy_cpp.Core.Le.{Bytes}
use crowdy_cpp.Media.Voice.{
  VoiceHeader, encode_voice_header, encode_voice_packet, voice_header_of, decode_voice_packet,
}

-- The widths of the header's fields that have more than one byte.
pub record IsHeader (h : VoiceHeader) : Type 0 where
  pub version : h.version ≡ 1
  pub seq : h.seq < 2 ^ 16
  pub timestamp : h.timestamp < 2 ^ 32

-- `lo | hi << j` of a part of at most `j` digits.
or_shift : (j lo hi : ℕ) → lo < 2 ^ j → bit_or lo (hi * 2 ^ j) ≡ hi * 2 ^ j + lo
or_shift j lo hi h = bit_or_comm lo (hi * 2 ^ j) ∙ bit_or-add j hi lo h

or_seq : (v : ℕ) → v < 2 ^ 16 → bit_or (v % 256) (v / 2 ^ 8 % 256 * 2 ^ 8) % 2 ^ 16 ≡ v
or_seq v h = rw (or_shift 8 (v % 256) (v / 2 ^ 8 % 256) (omega arith)) (omega arith)

or_timestamp :
    (v : ℕ)
    → v < 2 ^ 32
    → bit_or
        (bit_or (bit_or (v / 2 ^ 0 % 256) (v / 2 ^ 8 % 256 * 2 ^ 8)) (v / 2 ^ 16 % 256 * 2 ^ 16))
        (v / 2 ^ 24 % 256 * 2 ^ 24)
      ≡ v
or_timestamp v h =
    let a = v / 2 ^ 0 % 256 in
    let b = v / 2 ^ 8 % 256 in
    let c = v / 2 ^ 16 % 256 in
    let d = v / 2 ^ 24 % 256 in
    rw (or_shift 8 a b (omega arith)) (
      rw (or_shift 16 (b * 2 ^ 8 + a) c (omega arith))
        (rw (or_shift 24 (c * 2 ^ 16 + (b * 2 ^ 8 + a)) d (omega arith)) (omega arith)))

-- The decoder accepts exactly the packets of at least ten bytes whose first is the version, 1; the
-- frame is what follows the ten bytes.
pub decode_voice_packet_iff :
    (p : Bytes)
    → ((decode_voice_packet p ≡ some (record { header = voice_header_of p; frame = drop 10 p }))
        × (10 ≤ length p)
        × (get_or p 0 0 ≡ 1))
      ⊎ ((decode_voice_packet p ≡ none) × ((length p < 10) ⊎ (get_or p 0 0 ≢ 1)))
unfolding decode_voice_packet
decode_voice_packet_iff p = ground arith

decode_accepts :
    (p : Bytes)
    → 10 ≤ length p
    → get_or p 0 0 ≡ 1
    → decode_voice_packet p ≡ some (record { header = voice_header_of p; frame = drop 10 p })
decode_accepts p size version = elim (decode_voice_packet_iff p) [
  | inl (ok, _, _) ↦ ok
  | inr (_, why) ↦ elim why [
    | inl short ↦ absurd (omega (arith, short))
    | inr other ↦ absurd (other version)
  ]
]

-- A packet of a version-1 header, its seq of 16 bits and its timestamp of 32, and of a frame of at
-- most 1113 bytes is decoded to that header and that frame.
pub decode-encode_voice_packet :
    (h : VoiceHeader) (frame : Bytes)
    → IsHeader h
    → length frame ≤ 1113
    → decode_voice_packet (encode_voice_packet h frame)
      ≡ some (record { header = h; frame = frame })
unfolding encode_voice_packet
decode-encode_voice_packet h frame v fit =
    rw (le→ltb 1113 (length frame) fit)
      (decode_accepts (encode_voice_header h ++ frame) (omega arith) refl)
    ∙ λ i. some (record {
      header = record {
        version = sym v.version i;
        codec = h.codec;
        seq = or_seq h.seq v.seq i;
        timestamp = or_timestamp h.timestamp v.timestamp i;
        frame_ms = h.frame_ms;
        flags = h.flags;
      };
      frame = frame;
    })
