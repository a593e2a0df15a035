-- ===== src/Media/Voice/Pull.antt =====
-- The loop of VoiceJitterBuffer::pull in include/crowdy/media/voice_frames.hpp, on one stream.
pub mod Playout
use crowdy_cpp.Base.{
  ℕ, zero, suc, ◌+◌, ◌-◌, ◌*◌, ◌%◌, ◌^◌, Bool, true, false, not, ◌&&◌, ◌||◌, Option, none, some,
  List, [], ◌∷◌, ◌++◌, length, ltb, leb, ◌==◌, if◌then◌else◌, bit_and, ℕ_discrete, map,
}
use crowdy_cpp.Base.Int.{ℤ, pos, negsuc, lebℤ, ltbℤ, ◌+ℤ◌, ◌-ℤ◌, scale, pos_part}
use crowdy_cpp.Base.Maps.{lookup, insert, erase}
use crowdy_cpp.Core.Le.{Bytes}
use crowdy_cpp.Media.Voice.{
  VoiceHeader, VoicePacket, decode_voice_packet, voice_seq_diff, voice_samples_per_frame,
  spurt_start, spurt_end,
}
use crowdy_cpp.Media.Voice.Stream.{Held, Stream, is_end}

pub record VoicePlayout (K : Type 0) : Type 0 where
  pub key : K
  pub seq : ℕ
  pub timestamp : ℕ
  pub codec : ℕ
  pub frame_ms : ℕ
  pub flags : ℕ
  pub gap : Bool
  pub frame : Bytes

-- One round of `pull`: the slot that plays, and the stream after it.
pub play : {K : Type 0} → K → Stream → VoicePlayout K × Stream
play key st =
    let seq = st.next_seq in
    let held = lookup ℕ_discrete seq st.frames in
    let at : ℕ = elim held [ none ↦ st.next_timestamp | some f ↦ f.header.timestamp ] in
    (
      record {
        key = key;
        seq = seq;
        timestamp = at;
        codec = elim held [ none ↦ st.codec | some f ↦ f.header.codec ];
        frame_ms = elim held [ none ↦ st.frame_ms | some f ↦ f.header.frame_ms ];
        flags = elim held [ none ↦ 0 | some f ↦ f.header.flags ];
        gap = elim held [ none ↦ true | some f ↦ false ];
        frame = elim held [ none ↦ [] | some f ↦ f.frame ];
      },
      record st {
        frames = erase ℕ_discrete seq st.frames;
        started = true;
        ended = st.ended || is_end st.end_seq seq;
        next_seq = (seq + 1) % 2 ^ 16;
        next_at_ms = st.next_at_ms +ℤ pos st.frame_ms;
        next_timestamp = (at + voice_samples_per_frame st.codec st.frame_ms) % 2 ^ 32;
      },
    )

-- The condition of the loop of `pull`.
abbrev pub is_due : ℤ → ℤ → Stream → Bool
is_due now silent_at st = not st.ended && (lebℤ st.next_at_ms now && ltbℤ st.next_at_ms silent_at)

-- A slot in front of the later ones.
abbrev pub cons_slot :
    {K : Type 0}
    → VoicePlayout K
    → Option (List (VoicePlayout K) × Stream)
    → Option (List (VoicePlayout K) × Stream)
cons_slot slot none = none
cons_slot slot (some (slots, st)) = some (slot ∷ slots, st)

-- The `while` loop of `pull`; `none` means that the fuel ran out.
pub pull_loop : {K : Type 0} → ℕ → K → ℤ → ℤ → Stream → Option (List (VoicePlayout K) × Stream)
pull_loop zero key now silent_at st = none
pull_loop (suc fuel) key now silent_at st =
    let (slot, st') = play key st in
    let rest = pull_loop fuel key now silent_at st' in
    if is_due now silent_at st then cons_slot slot rest else some ([], st)

-- The gaps among the slots, one `++gaps` each.
abbrev pub count_gaps : {K : Type 0} → List (VoicePlayout K) → ℕ
count_gaps [] = 0
count_gaps (slot ∷ slots) = (if slot.gap then 1 else 0) + count_gaps slots
