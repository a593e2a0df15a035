-- ===== src/Media/Voice/Jitter.antt =====
-- VoiceJitterBuffer of include/crowdy/media/voice_frames.hpp. A sender's key is of any type with
-- decidable equality; times are the caller's milliseconds, without the bounds of `std::int64_t`.
pub mod Pulls
use crowdy_cpp.Base.{
  ℕ, zero, suc, ◌+◌, ◌-◌, ◌*◌, ◌%◌, ◌^◌, Bool, true, false, not, ◌&&◌, ◌||◌, Option, none, some,
  List, [], ◌∷◌, ◌++◌, length, ltb, leb, ◌==◌, if◌then◌else◌, bit_and, ℕ_discrete, map,
}
use crowdy_cpp.Base.Int.{ℤ, pos, negsuc, lebℤ, ltbℤ, ◌+ℤ◌, ◌-ℤ◌, scale, pos_part}
use crowdy_cpp.Base.Maps.{lookup, insert, erase}
use crowdy_cpp.Core.Le.{Bytes}
use crowdy_cpp.Media.Voice.{
  VoiceHeader, VoicePacket, decode_voice_packet, voice_seq_diff, voice_samples_per_frame,
  spurt_start, spurt_end,
}
use crowdy_cpp.Media.Voice.Stream.{
  Held, Stream, first_stream, keep_packet, slot_at_ms, starts_over, is_behind, has_frame,
}
use crowdy_cpp.Media.Voice.Pull.{VoicePlayout, pull_loop, count_gaps}

pub data VoicePushResult : Type 0 where
  buffered late duplicate malformed : VoicePushResult

pub record VoiceJitterBuffer (K : Type 0) : Type 0 where
  pub target_delay_ms : ℤ
  pub max_frames : ℕ
  pub reset_after_ms : ℤ
  pub streams : List (K × Stream)
  pub late : ℕ
  pub duplicates : ℕ
  pub malformed : ℕ
  pub discarded : ℕ
  pub gaps : ℕ

-- The constructor clamps its options.
pub voice_jitter_buffer : {K : Type 0} → ℤ → ℤ → ℤ → VoiceJitterBuffer K
voice_jitter_buffer target_delay_ms max_frames reset_after_ms =
    let target = if ltbℤ target_delay_ms (pos 0) then pos 0 else target_delay_ms in
    record {
      target_delay_ms = target;
      max_frames =
          if ltbℤ max_frames (pos 1)
          then 1
          else if ltbℤ (pos 4096) max_frames
          then 4096
          else pos_part max_frames;
      reset_after_ms = if ltbℤ target reset_after_ms then reset_after_ms else target +ℤ pos 1;
      streams = [];
      late = 0;
      duplicates = 0;
      malformed = 0;
      discarded = 0;
      gaps = 0;
    }

module _ {K : Type 0} (eq : Discrete K) where
  -- `push` from the new stream on.
  pub push_first : VoiceJitterBuffer K → K → VoicePacket → ℤ → VoicePushResult × VoiceJitterBuffer K
  push_first b key p now = (
    VoicePushResult.buffered,
    record b { streams = insert eq key (first_stream b.target_delay_ms p now) b.streams },
  )

  -- `push` from `ahead` on, for the sender's stream.
  pub push_onto :
      VoiceJitterBuffer K → K → Stream → VoicePacket → ℤ → VoicePushResult × VoiceJitterBuffer K
  push_onto b key st p now =
      let seq = p.header.seq in
      if is_behind b.max_frames st seq || ltbℤ (slot_at_ms st seq) now
      then (VoicePushResult.late, record b { late = (b.late + 1) % 2 ^ 64 })
      else if has_frame st seq
      then (VoicePushResult.duplicate, record b { duplicates = (b.duplicates + 1) % 2 ^ 64 })
      else (
        VoicePushResult.buffered,
        record b { streams = insert eq key (keep_packet st p now) b.streams },
      )

  pub push_parsed :
      VoiceJitterBuffer K → K → VoicePacket → ℤ → VoicePushResult × VoiceJitterBuffer K
  push_parsed b key p now = elim (lookup eq key b.streams) [
    | none ↦ push_first b key p now
    | some st ↦
        if starts_over b.reset_after_ms b.max_frames st p.header now
        then push_first
            (record b {
              discarded = (b.discarded + length st.frames) % 2 ^ 64;
              streams = erase eq key b.streams;
            })
            key p now
        else push_onto b key st p now
  ]

  pub push : VoiceJitterBuffer K → K → Bytes → ℤ → VoicePushResult × VoiceJitterBuffer K
  push b key packet now = elim (decode_voice_packet packet) [
    | none ↦ (VoicePushResult.malformed, record b { malformed = (b.malformed + 1) % 2 ^ 64 })
    | some p ↦
        if p.header.frame_ms == 0
        then (VoicePushResult.malformed, record b { malformed = (b.malformed + 1) % 2 ^ 64 })
        else push_parsed b key p now
  ]

  -- What `pull` does after its loop.
  pub pull_end :
      VoiceJitterBuffer K
      → K
      → ℤ
      → ℤ
      → List (VoicePlayout K) × Stream
      → List (VoicePlayout K) × VoiceJitterBuffer K
  pull_end b key now silent_at (slots, st) =
      let gaps = (b.gaps + count_gaps slots) % 2 ^ 64 in
      if lebℤ silent_at now
      then (
        slots,
        record b {
          gaps = gaps;
          discarded = (b.discarded + length st.frames) % 2 ^ 64;
          streams = erase eq key b.streams;
        },
      )
      else (slots, record b { gaps = gaps; streams = insert eq key st b.streams })

  -- A round moves the next slot on by a millisecond at least, so one for each that is due and one
  -- to see that none is left are enough.
  pub pull : VoiceJitterBuffer K → K → ℤ → Option (List (VoicePlayout K) × VoiceJitterBuffer K)
  pull b key now = elim (lookup eq key b.streams) [
    | none ↦ some ([], b)
    | some st ↦
        let silent_at = st.last_arrival_ms +ℤ b.reset_after_ms in
        let fuel = suc (suc (pos_part (now -ℤ st.next_at_ms))) in
        elim (pull_loop fuel key now silent_at st) [
          | none ↦ none
          | some r ↦ some (pull_end b key now silent_at r)
        ]
  ]

  -- The loop of `poll` over the keys.
  pub poll_loop :
      VoiceJitterBuffer K → List K → ℤ → Option (List (VoicePlayout K) × VoiceJitterBuffer K)
  poll_loop b [] now = some ([], b)
  poll_loop b (key ∷ keys) now = elim (pull b key now) [
    | none ↦ none
    | some (slots, b') ↦ elim (poll_loop b' keys now) [
      | none ↦ none
      | some (later, b'') ↦ some (slots ++ later, b'')
    ]
  ]

  pub poll : VoiceJitterBuffer K → ℤ → Option (List (VoicePlayout K) × VoiceJitterBuffer K)
  poll b now = poll_loop b (map (λ (entry : K × Stream). entry.0) b.streams) now

  -- `forget`
  pub forget_sender : VoiceJitterBuffer K → K → VoiceJitterBuffer K
  forget_sender b key = elim (lookup eq key b.streams) [
    | none ↦ b
    | some st ↦ record b {
      discarded = (b.discarded + length st.frames) % 2 ^ 64;
      streams = erase eq key b.streams;
    }
  ]
