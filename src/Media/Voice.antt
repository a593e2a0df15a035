-- ===== src/Media/Voice.antt =====
-- include/crowdy/media/voice_frames.hpp: the voice header, packets, and the packetizer.
pub mod Packets
pub mod Numbering
pub mod Stream
pub mod Pull
pub mod Jitter
use crowdy_cpp.Base.{
  ℕ, ◌+◌, ◌-◌, ◌*◌, ◌/◌, ◌%◌, ◌^◌, Bool, true, false, not, ◌||◌, Option, none, some, List, [], ◌∷◌,
  ◌++◌, length, drop, get_or, ltb, leb, ◌==◌, if◌then◌else◌, bit_or,
}
use crowdy_cpp.Base.Int.{ℤ, pos, negsuc}
use crowdy_cpp.Core.Le.{Bytes, u16_bytes, u32_bytes}

abbrev pub voice_header_bytes : ℕ
voice_header_bytes = 10

abbrev pub voice_header_version : ℕ
voice_header_version = 1

abbrev pub max_voice_frame_bytes : ℕ
max_voice_frame_bytes = 1113

abbrev pub voice_codec_opus : ℕ
voice_codec_opus = 1

abbrev pub voice_codec_mulaw : ℕ
voice_codec_mulaw = 2

abbrev pub spurt_start : ℕ
spurt_start = 0x01

abbrev pub spurt_end : ℕ
spurt_end = 0x02

pub record VoiceHeader : Type 0 where
  pub version : ℕ
  pub codec : ℕ
  pub seq : ℕ
  pub timestamp : ℕ
  pub frame_ms : ℕ
  pub flags : ℕ

pub record VoicePacket : Type 0 where
  pub header : VoiceHeader
  pub frame : Bytes

unfoldable pub voice_clock_rate : ℕ → ℕ
voice_clock_rate codec =
    if codec == voice_codec_opus then 48000 else if codec == voice_codec_mulaw then 8000 else 1000

unfoldable pub voice_samples_per_frame : ℕ → ℕ → ℕ
voice_samples_per_frame codec frame_ms = voice_clock_rate codec / 1000 * frame_ms

-- The distance from `b` to `a` on the wrapping 16-bit counter.
unfoldable pub voice_seq_diff : ℕ → ℕ → ℤ
voice_seq_diff a b =
    let d = (a + 2 ^ 16 - b) % 2 ^ 16 in if leb 0x8000 d then negsuc (0x10000 - d - 1) else pos d

abbrev pub encode_voice_header : VoiceHeader → Bytes
encode_voice_header h =
    (voice_header_version ∷ h.codec ∷ [])
    ++ (u16_bytes h.seq ++ (u32_bytes h.timestamp ++ (h.frame_ms ∷ h.flags ∷ [])))

pub encode_voice_packet : VoiceHeader → Bytes → Bytes
encode_voice_packet h frame =
    if ltb max_voice_frame_bytes (length frame) then [] else encode_voice_header h ++ frame

-- The ten bytes in front of the frame.
abbrev pub voice_header_of : Bytes → VoiceHeader
voice_header_of p = record {
  version = get_or p 0 0;
  codec = get_or p 1 0;
  seq = bit_or (get_or p 2 0) (get_or p 3 0 * 2 ^ 8) % 2 ^ 16;
  timestamp =
      bit_or (bit_or (bit_or (get_or p 4 0) (get_or p 5 0 * 2 ^ 8)) (get_or p 6 0 * 2 ^ 16))
        (get_or p 7 0 * 2 ^ 24);
  frame_ms = get_or p 8 0;
  flags = get_or p 9 0;
}

pub decode_voice_packet : Bytes → Option VoicePacket
decode_voice_packet p =
    if ltb (length p) voice_header_bytes || not (get_or p 0 0 == voice_header_version)
    then none
    else some (record { header = voice_header_of p; frame = drop voice_header_bytes p })

pub record VoicePacketizer : Type 0 where
  pub codec : ℕ
  pub frame_ms : ℕ
  pub seq : ℕ
  pub timestamp : ℕ
  pub spurt_start : Bool

-- The constructor, from the options' fields.
pub voice_packetizer : ℕ → ℕ → ℕ → ℕ → VoicePacketizer
voice_packetizer codec frame_ms seq timestamp = record {
  codec = codec;
  frame_ms = frame_ms;
  seq = seq;
  timestamp = timestamp;
  spurt_start = true;
}

-- The header of the next packet.
abbrev pub next_header : VoicePacketizer → Bool → VoiceHeader
next_header p last = record {
  version = voice_header_version;
  codec = p.codec;
  seq = p.seq;
  timestamp = p.timestamp;
  frame_ms = p.frame_ms;
  flags = bit_or (if p.spurt_start then spurt_start else 0) (if last then spurt_end else 0);
}

pub packetize : VoicePacketizer → Bytes → Bool → Bytes × VoicePacketizer
packetize p frame last =
    if (p.frame_ms == 0) || ltb max_voice_frame_bytes (length frame) then ([], p) else (
      encode_voice_packet (next_header p last) frame,
      record p {
        seq = (p.seq + 1) % 2 ^ 16;
        timestamp = (p.timestamp + voice_samples_per_frame p.codec p.frame_ms) % 2 ^ 32;
        spurt_start = last;
      },
    )

pub skip : VoicePacketizer → ℕ → VoicePacketizer
skip p frames = record p {
  timestamp = (p.timestamp + frames * voice_samples_per_frame p.codec p.frame_ms % 2 ^ 32) % 2 ^ 32;
  spurt_start = true;
}
