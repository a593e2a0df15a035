-- ===== src/Media/Voice/Numbering.antt =====
-- The packetizer over a run of frames.
use crowdy_cpp.Base.{
  ℕ, ◌+◌, ◌%◌, ◌^◌, ◌≡◌, ◌≤◌, ◌<◌, ◌⊎◌, refl, ◌∙◌, Bool, true, false, some, List, [], ◌∷◌, All,
  length, ◌==◌, bit_or, arith, le→ltb, if◌then◌else◌,
}
use crowdy_cpp.Core.Le.{Bytes}
use crowdy_cpp.Media.Voice.{
  VoicePacketizer, decode_voice_packet, encode_voice_packet, next_header, packetize,
  voice_samples_per_frame,
}
use crowdy_cpp.Media.Voice.Packets.{decode-encode_voice_packet}

-- The counters are in the range of their types.
pub record IsPacketizer (p : VoicePacketizer) : Type 0 where
  pub frame_ms : 1 ≤ p.frame_ms
  pub seq : p.seq < 2 ^ 16
  pub timestamp : p.timestamp < 2 ^ 32

-- A run of calls: the frames, each with its `last` flag, and the packets in order.
unfoldable pub packetize_all : VoicePacketizer → List (Bytes × Bool) → List Bytes × VoicePacketizer
packetize_all p [] = ([], p)
packetize_all p ((frame, last) ∷ frames) =
    let (packet, p') = packetize p frame last in
    let (packets, p'') = packetize_all p' frames in (packet ∷ packets, p'')

-- Each packet decodes to its frame, with seq and timestamp counted on from `seq` and `timestamp`
-- and the start flag exactly after a last packet.
abbrev pub IsNumbered :
    (codec frame_ms seq timestamp : ℕ) → Bool → List (Bytes × Bool) → List Bytes → Type 0
IsNumbered codec frame_ms seq timestamp start [] [] = Unit {0}
IsNumbered codec frame_ms seq timestamp start [] (packet ∷ packets) = ⊥
IsNumbered codec frame_ms seq timestamp start (frame ∷ frames) [] = ⊥
IsNumbered codec frame_ms seq timestamp start ((frame, last) ∷ frames) (packet ∷ packets) =
    (decode_voice_packet packet
      ≡ some (record {
        header = record {
          version = 1;
          codec = codec;
          seq = seq % 2 ^ 16;
          timestamp = timestamp % 2 ^ 32;
          frame_ms = frame_ms;
          flags = (if start then 1 else 0) + (if last then 2 else 0);
        };
        frame = frame;
      }))
    × IsNumbered codec frame_ms (seq + 1) (timestamp + voice_samples_per_frame codec frame_ms) last
        frames packets

flags_sum :
    (start last : Bool)
    → bit_or (if start then 1 else 0) (if last then 2 else 0)
      ≡ (if start then 1 else 0) + (if last then 2 else 0)
flags_sum true true = refl
flags_sum true false = refl
flags_sum false true = refl
flags_sum false false = refl

packetize_step :
    (p : VoicePacketizer) (frame : Bytes) (last : Bool)
    → 1 ≤ p.frame_ms
    → length frame ≤ 1113
    → packetize p frame last ≡ (
      encode_voice_packet (next_header p last) frame,
      record p {
        seq = (p.seq + 1) % 2 ^ 16;
        timestamp = (p.timestamp + voice_samples_per_frame p.codec p.frame_ms) % 2 ^ 32;
        spurt_start = last;
      },
    )
unfolding packetize
packetize_step p frame last ms fit =
    let g : (p.frame_ms == 0) ≡ false = ground arith in rw (g, le→ltb 1113 (length frame) fit)

numbered :
    (p : VoicePacketizer) (s t : ℕ) (frames : List (Bytes × Bool))
    → p.seq ≡ s % 2 ^ 16
    → p.timestamp ≡ t % 2 ^ 32
    → 1 ≤ p.frame_ms
    → All (λ f. length f.0 ≤ 1113) frames
    → IsNumbered p.codec p.frame_ms s t p.spurt_start frames (packetize_all p frames).0
unfolding packetize_all
numbered p s t [] es et ms fit = tt
numbered p s t ((frame, last) ∷ frames) es et ms fit =
    let spf = voice_samples_per_frame p.codec p.frame_ms in
    rw (packetize_step p frame last ms fit.0) (
      decode-encode_voice_packet (next_header p last) frame
            (record { version = refl; seq = omega (arith, es); timestamp = omega (arith, et) })
            fit.0
          ∙ (λ i. some (record {
            header = record {
              version = 1;
              codec = p.codec;
              seq = es i;
              timestamp = et i;
              frame_ms = p.frame_ms;
              flags = flags_sum p.spurt_start last i;
            };
            frame = frame;
          })),
      numbered
          (record p {
            seq = (p.seq + 1) % 2 ^ 16;
            timestamp = (p.timestamp + spf) % 2 ^ 32;
            spurt_start = last;
          })
          (s + 1) (t + spf) frames (omega (arith, es)) (omega (arith, et)) ms fit.1,
    )

-- A packetizer whose counters are in range and whose frame duration is not 0 numbers a run of
-- frames of at most 1113 bytes: the n-th packet decodes to the n-th frame, its seq and timestamp
-- counted on from the packetizer's by 1 and by the samples of a frame, modulo 2^16 and 2^32; it
-- starts a spurt exactly when the packet before was a last one (or, for the first, when the
-- packetizer was at a start), and ends one exactly when it is a last one itself.
pub packetize_all-IsNumbered :
    (p : VoicePacketizer) (frames : List (Bytes × Bool))
    → IsPacketizer p
    → All (λ f. length f.0 ≤ 1113) frames
    → IsNumbered p.codec p.frame_ms p.seq p.timestamp p.spurt_start frames
        (packetize_all p frames).0
packetize_all-IsNumbered p frames v fit =
    numbered p p.seq p.timestamp frames (omega (arith, v.seq)) (omega (arith, v.timestamp))
      v.frame_ms fit

-- A frame of more than 1113 bytes, or any frame while the frame duration is 0, gives no packet and
-- numbers nothing.
pub packetize_refuses :
    (p : VoicePacketizer) (frame : Bytes) (last : Bool)
    → (p.frame_ms ≡ 0) ⊎ (1113 < length frame)
    → packetize p frame last ≡ ([], p)
unfolding packetize
packetize_refuses p frame last h = ground arith
