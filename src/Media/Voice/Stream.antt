-- ===== src/Media/Voice/Stream.antt =====
-- One sender's stream in VoiceJitterBuffer of include/crowdy/media/voice_frames.hpp: how it takes a
-- packet, and when it starts over. Times are the caller's milliseconds, without the bounds of
-- `std::int64_t`.
use crowdy_cpp.Base.{
  ℕ, Bool, true, false, not, ◌&&◌, ◌||◌, Option, none, some, List, [], ◌∷◌, ◌==◌, if◌then◌else◌,
  bit_and, ℕ_discrete,
}
use crowdy_cpp.Base.Int.{ℤ, pos, lebℤ, ltbℤ, ◌+ℤ◌, ◌-ℤ◌, scale}
use crowdy_cpp.Base.Maps.{lookup, insert}
use crowdy_cpp.Core.Le.{Bytes}
use crowdy_cpp.Media.Voice.{VoiceHeader, VoicePacket, voice_seq_diff, spurt_start, spurt_end}

pub record Held : Type 0 where
  pub header : VoiceHeader
  pub frame : Bytes

pub record Stream : Type 0 where
  pub codec : ℕ
  pub frame_ms : ℕ
  pub next_seq : ℕ
  pub next_at_ms : ℤ
  pub next_timestamp : ℕ
  pub started : Bool
  pub highest_seq : ℕ
  pub end_seq : Option ℕ
  pub ended : Bool
  pub last_arrival_ms : ℤ
  pub frames : List (ℕ × Held)

-- `(header.flags & bit) != 0`
abbrev pub has_flag : VoiceHeader → ℕ → Bool
has_flag h bit = not (bit_and h.flags bit == 0)

-- `stream.endSeq && voiceSeqDiff(header.seq, *stream.endSeq) > 0`
abbrev pub after_end : Option ℕ → ℕ → Bool
after_end none seq = false
after_end (some last) seq = ltbℤ (pos 0) (voice_seq_diff seq last)

-- `stream.endSeq && *stream.endSeq == seq`
abbrev pub is_end : Option ℕ → ℕ → Bool
is_end none seq = false
is_end (some last) seq = last == seq

pub starts_over : ℤ → ℕ → Stream → VoiceHeader → ℤ → Bool
starts_over reset_after_ms max_frames st h now =
    if lebℤ reset_after_ms (now -ℤ st.last_arrival_ms)
    then true
    else if not (h.codec == st.codec) || not (h.frame_ms == st.frame_ms)
    then true
    else if has_flag h spurt_start && ltbℤ (pos 0) (voice_seq_diff h.seq st.highest_seq)
    then true
    else if after_end st.end_seq h.seq
    then true
    else lebℤ (pos max_frames) (voice_seq_diff h.seq st.next_seq)

-- The stream that a first packet makes.
abbrev pub first_stream : ℤ → VoicePacket → ℤ → Stream
first_stream target_delay_ms p now = record {
  codec = p.header.codec;
  frame_ms = p.header.frame_ms;
  next_seq = p.header.seq;
  next_at_ms = now +ℤ target_delay_ms;
  next_timestamp = p.header.timestamp;
  started = false;
  highest_seq = p.header.seq;
  end_seq = if has_flag p.header spurt_end then some p.header.seq else none;
  ended = false;
  last_arrival_ms = now;
  frames = (p.header.seq, record { header = p.header; frame = p.frame }) ∷ [];
}

-- When the slot of `seq` plays.
abbrev pub slot_at_ms : Stream → ℕ → ℤ
slot_at_ms st seq = st.next_at_ms +ℤ scale (voice_seq_diff seq st.next_seq) st.frame_ms

-- The packet's slot has been played, or cannot be fitted in front.
abbrev pub is_behind : ℕ → Stream → ℕ → Bool
is_behind max_frames st seq =
    ltbℤ (voice_seq_diff seq st.next_seq) (pos 0)
    && (st.started || lebℤ (pos max_frames) (voice_seq_diff st.highest_seq seq))

-- `stream.frames.count(seq) != 0`
abbrev pub has_frame : Stream → ℕ → Bool
has_frame st seq = elim (lookup ℕ_discrete seq st.frames) [ none ↦ false | some held ↦ true ]

-- The stream after an accepted packet.
unfoldable pub keep_packet : Stream → VoicePacket → ℤ → Stream
keep_packet st p now =
    let seq = p.header.seq in
    let front = ltbℤ (voice_seq_diff seq st.next_seq) (pos 0) in
    record st {
      next_seq = if front then seq else st.next_seq;
      next_at_ms = if front then slot_at_ms st seq else st.next_at_ms;
      next_timestamp = if front then p.header.timestamp else st.next_timestamp;
      frames = insert ℕ_discrete seq (record { header = p.header; frame = p.frame }) st.frames;
      last_arrival_ms = now;
      highest_seq =
          if ltbℤ (pos 0) (voice_seq_diff seq st.highest_seq) then seq else st.highest_seq;
      end_seq = elim st.end_seq [
        | some last ↦ some last
        | none ↦ if has_flag p.header spurt_end then some seq else none
      ];
    }
