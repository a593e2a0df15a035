-- ===== src/Media/Examples/Voices.antt =====
-- Concrete voice packets: numbered by a packetizer, pushed out of order, and played.
use crowdy_cpp.Base.{
  ℕ, ◌≡◌, ◌≢◌, ◌≤◌, ◌<◌, ◌⊎◌, inl, refl, sym, ap, ◌∙◌, Bool, true, false, none, some, List, [], ◌∷◌,
  length, drop, get_or, arith, ℕ_discrete, subst, replicate,
}
use crowdy_cpp.Base.Int.{pos}
use crowdy_cpp.Base.Maps.{lookup}
use crowdy_cpp.Core.Le.{Bytes}
use crowdy_cpp.Media.Voice.{
  VoiceHeader, VoicePacketizer, encode_voice_packet, decode_voice_packet, voice_header_of,
  packetize,
}
use crowdy_cpp.Media.Voice.Packets.{decode-encode_voice_packet, decode_voice_packet_iff}
use crowdy_cpp.Media.Voice.Numbering.{
  IsPacketizer, IsNumbered, packetize_all, packetize_all-IsNumbered, packetize_refuses,
}
use crowdy_cpp.Media.Voice.Stream.{Stream}
use crowdy_cpp.Media.Voice.Pull.{VoicePlayout}
use crowdy_cpp.Media.Voice.Pull.Playout.{IsInOrder, Plays}
use crowdy_cpp.Media.Voice.Jitter.{poll, VoiceJitterBuffer, push, pull}
use crowdy_cpp.Media.Voice.Jitter.Pulls.{
  poll_total, IsBuffer, IsStream, pull_total, pull-IsInOrder, push-IsBuffer, pull-IsBuffer,
}

abbrev header : VoiceHeader
header = record {
  version = 1;
  codec = 1;
  seq = 65535;
  timestamp = 4294967000;
  frame_ms = 20;
  flags = 1;
}

abbrev tone : Bytes
tone = 9 ∷ 8 ∷ 7 ∷ []

tone_decoded :
    decode_voice_packet (encode_voice_packet header tone)
    ≡ some (record { header = header; frame = tone })
tone_decoded =
    decode-encode_voice_packet header tone
      (record { version = refl; seq = omega arith; timestamp = omega arith }) (omega arith)

abbrev noise : Bytes
noise = 2 ∷ replicate 12 0

noise_example :
    ((decode_voice_packet noise
        ≡ some (record { header = voice_header_of noise; frame = drop 10 noise }))
      × (10 ≤ length noise)
      × (get_or noise 0 0 ≡ 1))
    ⊎ ((decode_voice_packet noise ≡ none) × ((length noise < 10) ⊎ (get_or noise 0 0 ≢ 1)))
noise_example = decode_voice_packet_iff noise

abbrev speaker : VoicePacketizer
speaker = record {
  codec = 1;
  frame_ms = 20;
  seq = 65535;
  timestamp = 4294967000;
  spurt_start = true;
}

speaker-IsPacketizer : IsPacketizer speaker
speaker-IsPacketizer = record { frame_ms = omega arith; seq = omega arith; timestamp = omega arith }

abbrev speech : List (Bytes × Bool)
speech = (tone, false) ∷ (tone, true) ∷ (tone, false) ∷ []

speech-IsNumbered : IsNumbered 1 20 65535 4294967000 true speech (packetize_all speaker speech).0
speech-IsNumbered =
    packetize_all-IsNumbered speaker speech speaker-IsPacketizer
      (omega arith, (omega arith, (omega arith, tt)))

refused_example :
    packetize (record speaker { frame_ms = 0 }) tone true ≡ ([], record speaker { frame_ms = 0 })
refused_example = packetize_refuses (record speaker { frame_ms = 0 }) tone true (inl refl)

-- Sender 3 with one frame held, and its slot due at 100.
abbrev stream : Stream
stream = record {
  codec = 1;
  frame_ms = 20;
  next_seq = 65535;
  next_at_ms = pos 100;
  next_timestamp = 4294967000;
  started = false;
  highest_seq = 65535;
  end_seq = none;
  ended = false;
  last_arrival_ms = pos 40;
  frames = (65535, record { header = header; frame = tone }) ∷ [];
}

abbrev room : VoiceJitterBuffer ℕ
room = record {
  target_delay_ms = pos 60;
  max_frames = 64;
  reset_after_ms = pos 200;
  streams = (3, stream) ∷ [];
  late = 0;
  duplicates = 0;
  malformed = 0;
  discarded = 0;
  gaps = 0;
}

room_stream : lookup ℕ_discrete 3 room.streams ≡ some stream
unfolding lookup ℕ_discrete
room_stream = refl

room-IsBuffer : IsBuffer ℕ_discrete room
unfolding lookup
room-IsBuffer key st e = elim (ℕ_discrete 3 key) [
  | yes same ↦
      let one : stream ≡ st =
        cc (sym room_stream ∙ ap (λ (k : ℕ). lookup ℕ_discrete k room.streams) same ∙ e) in
      subst IsStream one (omega arith, omega arith)
  | no apart ↦
      let missing : lookup ℕ_discrete key room.streams ≡ none = ground (arith, apart) in
      absurd (cc (sym missing ∙ e))
]

room_pulled :
    (r : List (VoicePlayout ℕ) × VoiceJitterBuffer ℕ) × (pull ℕ_discrete room 3 (pos 125) ≡ some r)
room_pulled = pull_total ℕ_discrete room 3 (pos 125) room-IsBuffer

room-IsInOrder : IsInOrder 65535 (room_pulled.0).0 × Plays stream.frames (room_pulled.0).0
room-IsInOrder =
    pull-IsInOrder ℕ_discrete room 3 (pos 125) stream (room_pulled.0).0 (room_pulled.0).1
      room_stream (omega arith) room_pulled.1

push_keeps :
    IsBuffer ℕ_discrete (push ℕ_discrete room 3 (encode_voice_packet header tone) (pos 90)).1
push_keeps =
    push-IsBuffer ℕ_discrete room 3 (encode_voice_packet header tone) (pos 90) room-IsBuffer

pull_keeps : IsBuffer ℕ_discrete (room_pulled.0).1
pull_keeps =
    pull-IsBuffer ℕ_discrete room 3 (pos 125) (room_pulled.0).0 (room_pulled.0).1 room-IsBuffer
      room_pulled.1

room_polled :
    (r : List (VoicePlayout ℕ) × VoiceJitterBuffer ℕ) × (poll ℕ_discrete room (pos 125) ≡ some r)
room_polled = poll_total ℕ_discrete room (pos 125) room-IsBuffer
