-- ===== src/Media/Voice/Jitter/Pulls.antt =====
-- `push` and `pull` of the jitter buffer: the invariant on its streams, and what `pull` returns.
use crowdy_cpp.Base.{
  ◌++◌, ◌∷◌, suc, ◌^◌, ◌≡◌, ◌≤◌, ◌<◌, inl, inr, refl, sym, ap, ◌∙◌, ◌||◌, some, List, [],
  Bool-cases, Option-cases, arith, ◌==◌, subst,
}
use crowdy_cpp.Base.Int.{ℤ, lebℤ, ltbℤ, ◌+ℤ◌, ◌-ℤ◌, pos_part}
use crowdy_cpp.Base.Maps.{
  lookup, insert, erase, lookup-insert_self, lookup-insert_ne, lookup-erase_self, lookup-erase_ne,
}
use crowdy_cpp.Core.Le.{Bytes}
use crowdy_cpp.Media.Voice.{VoicePacket, voice_header_of}
use crowdy_cpp.Media.Voice.Packets.{decode_voice_packet_iff}
use crowdy_cpp.Media.Voice.Stream.{
  Stream, first_stream, keep_packet, slot_at_ms, starts_over, is_behind, has_frame,
}
use crowdy_cpp.Media.Voice.Pull.{VoicePlayout, pull_loop}
use crowdy_cpp.Media.Voice.Jitter.{
  poll, poll_loop, VoiceJitterBuffer, pull, pull_end, push, push_parsed, push_first, push_onto,
}
use crowdy_cpp.Media.Voice.Pull.Playout.{
  pull_loop_total, pull_loop_slots, pull_loop-keeps, IsInOrder, Plays,
}

-- A stream moves on with every slot, and its seq is a 16-bit one.
abbrev pub IsStream : Stream → Type 0
IsStream st = (1 ≤ st.frame_ms) × (st.next_seq < 2 ^ 16)

module _ {K : Type 0} (eq : Discrete K) where
  -- Every sender's stream is well formed.
  abbrev pub IsBuffer : VoiceJitterBuffer K → Type 0
  IsBuffer b = (key : K) (st : Stream) → lookup eq key b.streams ≡ some st → IsStream st

  -- On a buffer whose streams are well formed, `pull` returns: the fuel given is enough.
  pub pull_total :
      (b : VoiceJitterBuffer K) (key : K) (now : ℤ)
      → IsBuffer b
      → (r : List (VoicePlayout K) × VoiceJitterBuffer K) × (pull eq b key now ≡ some r)
  unfolding pull
  pull_total b key now v = elim (Option-cases (lookup eq key b.streams)) [
    | inl missing ↦ (([], b), rw (missing, pull) refl)
    | inr (st, found) ↦
        let silent_at = st.last_arrival_ms +ℤ b.reset_after_ms in
        let (r, run) =
          pull_loop_total key now silent_at (suc (pos_part (now -ℤ st.next_at_ms))) st
            (v key st found).0 (λ d. omega arith) in
        (pull_end eq b key now silent_at r, rw (found, pull, run) refl)
  ]

  pull_end_slots :
      (b : VoiceJitterBuffer K) (key : K) (now silent_at : ℤ) (r : List (VoicePlayout K) × Stream)
      → (pull_end eq b key now silent_at r).0 ≡ r.0
  unfolding pull_end
  pull_end_slots b key now silent_at r = elim (Bool-cases (lebℤ silent_at now)) [
    | inl silent ↦ rw silent refl
    | inr speaking ↦ rw speaking refl
  ]

  -- For a sender with a stream, the slots that `pull` returns carry consecutive seqs from the
  -- stream's next one on (on the wrapping counter), and each has the frame, timestamp
  -- and flags that are held under its seq, or is a gap when no frame is (any more): a frame plays in
  -- one slot only.
  pub pull-IsInOrder :
      (b : VoiceJitterBuffer K) (key : K) (now : ℤ) (st : Stream) (slots : List (VoicePlayout K))
      (b' : VoiceJitterBuffer K)
      → lookup eq key b.streams ≡ some st
      → st.next_seq < 2 ^ 16
      → pull eq b key now ≡ some (slots, b')
      → IsInOrder st.next_seq slots × Plays st.frames slots
  unfolding pull
  pull-IsInOrder b key now st slots b' found small e =
      let silent_at = st.last_arrival_ms +ℤ b.reset_after_ms in
      let fuel = suc (suc (pos_part (now -ℤ st.next_at_ms))) in
      elim (Option-cases (pull_loop fuel key now silent_at st)) [
        | inl out_of_fuel ↦ absurd (cc (rw (found, pull, out_of_fuel) at e))
        | inr (r, run) ↦
            let e' : some (pull_end eq b key now silent_at r) ≡ some (slots, b') =
              rw (found, pull, run) at e in
            let same : r.0 ≡ slots = sym (pull_end_slots b key now silent_at r) ∙ cc e' in
            subst (λ (l : List (VoicePlayout K)). IsInOrder st.next_seq l × Plays st.frames l) same
              (pull_loop_slots key now silent_at fuel st st.next_seq r.0 r.1 (omega (arith, small))
                run)
      ]

  insert-IsBuffer :
      (b : VoiceJitterBuffer K) (key : K) (st : Stream)
      → IsBuffer b
      → IsStream st
      → (k : K) (s : Stream) → lookup eq k (insert eq key st b.streams) ≡ some s
      → IsStream s
  insert-IsBuffer b key st v w k s e = elim (eq key k) [
    | yes same ↦
        let one : some st ≡ some s =
          sym (lookup-insert_self eq key st b.streams)
          ∙ ap (λ j. lookup eq j (insert eq key st b.streams)) same
          ∙ e in
        let st_s : st ≡ s = cc one in subst IsStream st_s w
    | no apart ↦ v k s (sym (lookup-insert_ne eq key k st b.streams apart) ∙ e)
  ]

  erase-IsBuffer :
      (b : VoiceJitterBuffer K) (key : K)
      → IsBuffer b
      → (k : K) (s : Stream) → lookup eq k (erase eq key b.streams) ≡ some s
      → IsStream s
  erase-IsBuffer b key v k s e = elim (eq key k) [
    | yes same ↦ absurd (
        cc (
          sym (lookup-erase_self eq key b.streams)
          ∙ ap (λ j. lookup eq j (erase eq key b.streams)) same
          ∙ e))
    | no apart ↦ v k s (sym (lookup-erase_ne eq key k b.streams apart) ∙ e)
  ]

  keep_packet-IsStream :
      (st : Stream) (p : VoicePacket) (now : ℤ)
      → IsStream st
      → p.header.seq < 2 ^ 16
      → IsStream (keep_packet st p now)
  unfolding keep_packet
  keep_packet-IsStream st p now v small = (v.0, ground (arith, v.1, small))

  push_onto-IsBuffer :
      (b : VoiceJitterBuffer K) (key : K) (st : Stream) (p : VoicePacket) (now : ℤ)
      → IsBuffer b
      → IsStream st
      → p.header.seq < 2 ^ 16
      → IsBuffer (push_onto eq b key st p now).1
  unfolding push_onto
  push_onto-IsBuffer b key st p now v w small =
      elim (Bool-cases
        (is_behind b.max_frames st p.header.seq || ltbℤ (slot_at_ms st p.header.seq) now)) [
          | inl late ↦ rw late v
          | inr early ↦ elim (Bool-cases (has_frame st p.header.seq)) [
            | inl held ↦ rw (early, held) v
            | inr fresh ↦
                rw (early, fresh)
                  (insert-IsBuffer b key (keep_packet st p now) v
                    (keep_packet-IsStream st p now w small))
          ]
        ]

  push_first-IsBuffer :
      (b : VoiceJitterBuffer K) (key : K) (p : VoicePacket) (now : ℤ)
      → IsBuffer b
      → 1 ≤ p.header.frame_ms
      → p.header.seq < 2 ^ 16
      → IsBuffer (push_first eq b key p now).1
  unfolding push_first
  push_first-IsBuffer b key p now v ms small =
      insert-IsBuffer b key (first_stream b.target_delay_ms p now) v (ms, small)

  push_parsed-IsBuffer :
      (b : VoiceJitterBuffer K) (key : K) (p : VoicePacket) (now : ℤ)
      → IsBuffer b
      → 1 ≤ p.header.frame_ms
      → p.header.seq < 2 ^ 16
      → IsBuffer (push_parsed eq b key p now).1
  unfolding push_parsed
  push_parsed-IsBuffer b key p now v ms small = elim (Option-cases (lookup eq key b.streams)) [
    | inl missing ↦ rw (missing, push_parsed) (push_first-IsBuffer b key p now v ms small)
    | inr (st, found) ↦
        elim (Bool-cases (starts_over b.reset_after_ms b.max_frames st p.header now)) [
          | inl over ↦
              rw (found, push_parsed, over)
                (push_first-IsBuffer _ key p now (erase-IsBuffer b key v) ms small)
          | inr on ↦
              rw (found, push_parsed, on)
                (push_onto-IsBuffer b key st p now v (v key st found) small)
        ]
  ]

  -- `push`, whatever the packet, keeps every stream well formed: its frame duration is not 0 and
  -- its next seq has 16 bits.
  pub push-IsBuffer :
      (b : VoiceJitterBuffer K) (key : K) (packet : Bytes) (now : ℤ)
      → IsBuffer b
      → IsBuffer (push eq b key packet now).1
  unfolding push
  push-IsBuffer b key packet now v = elim (decode_voice_packet_iff packet) [
    | inr (bad, _) ↦ rw (bad, push) v
    | inl (good, _, _) ↦ elim (Bool-cases ((voice_header_of packet).frame_ms == 0)) [
      | inl zero_ms ↦ rw (good, push, zero_ms) v
      | inr ms ↦
          rw (good, push, ms)
            (push_parsed-IsBuffer b key _ now v (ground (arith, ms)) (omega arith))
    ]
  ]

  pull_end-IsBuffer :
      (b : VoiceJitterBuffer K) (key : K) (now silent_at : ℤ) (r : List (VoicePlayout K) × Stream)
      → IsBuffer b
      → IsStream r.1
      → IsBuffer (pull_end eq b key now silent_at r).1
  unfolding pull_end
  pull_end-IsBuffer b key now silent_at r v w = elim (Bool-cases (lebℤ silent_at now)) [
    | inl silent ↦ rw silent (erase-IsBuffer b key v)
    | inr speaking ↦ rw speaking (insert-IsBuffer b key r.1 v w)
  ]

  -- `pull` keeps every stream well formed.
  pub pull-IsBuffer :
      (b : VoiceJitterBuffer K) (key : K) (now : ℤ) (slots : List (VoicePlayout K))
      (b' : VoiceJitterBuffer K)
      → IsBuffer b
      → pull eq b key now ≡ some (slots, b')
      → IsBuffer b'
  unfolding pull
  pull-IsBuffer b key now slots b' v e = elim (Option-cases (lookup eq key b.streams)) [
    | inl missing ↦
        let e' : some ([], b) ≡ some (slots, b') = rw (missing, pull) at e in
        let same : b ≡ b' = cc e' in subst IsBuffer same v
    | inr (st, found) ↦
        let silent_at = st.last_arrival_ms +ℤ b.reset_after_ms in
        let fuel = suc (suc (pos_part (now -ℤ st.next_at_ms))) in
        elim (Option-cases (pull_loop fuel key now silent_at st)) [
          | inl out_of_fuel ↦ absurd (cc (rw (found, pull, out_of_fuel) at e))
          | inr (r, run) ↦
              let e' : some (pull_end eq b key now silent_at r) ≡ some (slots, b') =
                rw (found, pull, run) at e in
              let same : (pull_end eq b key now silent_at r).1 ≡ b' = cc e' in
              subst IsBuffer same (
                pull_end-IsBuffer b key now silent_at r v
                  (pull_loop-keeps key now silent_at fuel st r.0 r.1 (v key st found) run))
        ]
  ]

  poll_loop_total :
      (b : VoiceJitterBuffer K) (keys : List K) (now : ℤ)
      → IsBuffer b
      → (r : List (VoicePlayout K) × VoiceJitterBuffer K) × (poll_loop eq b keys now ≡ some r)
  unfolding poll_loop
  poll_loop_total b [] now v = (([], b), refl)
  poll_loop_total b (key ∷ keys) now v =
      let (r, run) = pull_total b key now v in
      let (s, rest) = poll_loop_total r.1 keys now (pull-IsBuffer b key now r.0 r.1 v run) in
      ((r.0 ++ s.0, s.1), rw (run, poll_loop, rest) refl)

  -- On a buffer whose streams are well formed, `poll` returns.
  pub poll_total :
      (b : VoiceJitterBuffer K) (now : ℤ)
      → IsBuffer b
      → (r : List (VoicePlayout K) × VoiceJitterBuffer K) × (poll eq b now ≡ some r)
  unfolding poll
  poll_total b now v = poll_loop_total b _ now v
