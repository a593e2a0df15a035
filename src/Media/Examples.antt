-- ===== src/Media/Examples.antt =====
-- Concrete video frames: split, reassembled out of order, and delivered once.
mod Voices
use crowdy_cpp.Base.{
  ℕ, ◌+◌, ◌≡◌, ◌≢◌, Memᴰ, ◌≤◌, ◌<◌, inl, inr, refl, sym, subst, none, some, List, [], ◌∷◌, map,
  length, drop, get_or, arith, ℕ_discrete,
}
use crowdy_cpp.Base.Int.{ℤ, pos}
use crowdy_cpp.Base.Maps.{lookup, insert, erase}
use crowdy_cpp.Core.Le.{Bytes}
use crowdy_cpp.Core.Crypto.{concat}
use crowdy_cpp.Media.Video.{
  VideoFragmentHeader, parse_video_fragment_header, Pending, AssembledVideoFrame, Assembler,
  fragment_frame, ingest, admit_ingest, shape_ingest, finish_ingest, start_pending, store_part,
  header_of,
}
use crowdy_cpp.Media.Video.Fragments.{
  fragment_count, IsNumbered, fragment_frame_lem, fragment_frame_none,
}
use crowdy_cpp.Media.Video.Stream.{ingest_all, ingest_all-genuine}

abbrev frame : Bytes
frame = 10 ∷ 11 ∷ 12 ∷ 13 ∷ 14 ∷ []

frame_split :
    (length (fragment_frame frame 7 0 2) ≡ fragment_count (length frame) 2)
    × (1 ≤ fragment_count (length frame) 2)
    × IsNumbered 7 0 (fragment_count (length frame) 2) 0 (fragment_frame frame 7 0 2)
    × (concat (map (drop 6) (fragment_frame frame 7 0 2)) ≡ frame)
frame_split =
    fragment_frame_lem frame 7 0 2 (omega arith) (omega arith) (omega arith) (omega arith)
      (omega arith) (omega arith)

frame_refused : fragment_frame frame 7 0 0 ≡ []
frame_refused = fragment_frame_none frame 7 0 0 (inr (inl refl))

abbrev fresh : Assembler ℕ
fresh = record { timeout_ms = pos 500; pending = []; last_done = []; dropped = 0; abandoned = 0 }

-- The two fragments of a frame of sender 4, the later one first, and one of another sender.
abbrev early : Bytes
early = 1 ∷ 0 ∷ 0 ∷ 7 ∷ 0 ∷ 2 ∷ 40 ∷ 41 ∷ []

abbrev late : Bytes
late = 1 ∷ 0 ∷ 0 ∷ 7 ∷ 1 ∷ 2 ∷ 42 ∷ []

abbrev stranger : Bytes
stranger = 1 ∷ 1 ∷ 0 ∷ 7 ∷ 0 ∷ 3 ∷ 99 ∷ []

abbrev bodies : List Bytes
bodies = (40 ∷ 41 ∷ []) ∷ (42 ∷ []) ∷ []

abbrev calls : List (ℕ × Bytes × ℤ)
calls = (4, late, pos 1) ∷ (5, stranger, pos 2) ∷ (4, early, pos 3) ∷ []

abbrev delivered : AssembledVideoFrame ℕ
delivered = record {
  uuid = 4;
  frame_id = 7;
  codec = 0;
  bytes = 40 ∷ 41 ∷ 42 ∷ [];
  completed_at_ms = pos 3;
}

early_header : parse_video_fragment_header early ≡ some (header_of early)
unfolding parse_video_fragment_header
early_header = refl

late_header : parse_video_fragment_header late ≡ some (header_of late)
unfolding parse_video_fragment_header
late_header = refl

calls-delivered : ingest_all ℕ_discrete fresh calls ≡ delivered ∷ []
unfolding ingest_all ingest admit_ingest shape_ingest finish_ingest start_pending store_part
    parse_video_fragment_header lookup insert erase ℕ_discrete
calls-delivered = refl

same_header :
    (p : Bytes) {h g : VideoFragmentHeader}
    → parse_video_fragment_header p ≡ some g
    → parse_video_fragment_header p ≡ some h
    → g ≡ h
same_header p a b = cc

-- What a genuine fragment of the frame carries.
abbrev IsBody : Bytes → VideoFragmentHeader → Type 0
IsBody packet h =
    (h.codec ≡ 0)
    × (h.frag_count ≡ length bodies)
    × (h.frag_index < length bodies)
    × (drop 6 packet ≡ get_or bodies h.frag_index [])

late-IsBody : IsBody late (header_of late)
late-IsBody = (refl, refl, omega arith, refl)

early-IsBody : IsBody early (header_of early)
early-IsBody = (refl, refl, omega arith, refl)

no_entry : (p : Pending) → lookup ℕ_discrete 4 fresh.pending ≢ some p
unfolding lookup
no_entry p e = cc e

calls_genuine : (delivered.bytes ≡ concat bodies) × (delivered.codec ≡ 0)
calls_genuine =
    ingest_all-genuine ℕ_discrete 4 7 0 bodies fresh calls delivered (λ p e. absurd (no_entry p e))
      (
        (λ k h e i. subst (IsBody late) (same_header late late_header e) late-IsBody),
        (
          (λ k h e i. absurd (omega (arith, k))),
          ((λ k h e i. subst (IsBody early) (same_header early early_header e) early-IsBody), tt),
        ),
      )
      (subst (Memᴰ delivered) (sym calls-delivered) (Memᴰ.head refl)) refl refl

-- A frame of one fragment.
abbrev single : Bytes
single = 1 ∷ 0 ∷ 0 ∷ 7 ∷ 0 ∷ 1 ∷ 40 ∷ []

abbrev whole : AssembledVideoFrame ℕ
whole = record { uuid = 4; frame_id = 7; codec = 0; bytes = 40 ∷ []; completed_at_ms = pos 3 }

-- The frame again, and the same packet of another sender, whose frame is delivered.
abbrev later_calls : List (ℕ × Bytes × ℤ)
later_calls = (4, single, pos 9) ∷ (5, single, pos 10) ∷ (4, early, pos 11) ∷ []

abbrev another : AssembledVideoFrame ℕ
another = record { uuid = 5; frame_id = 7; codec = 0; bytes = 40 ∷ []; completed_at_ms = pos 10 }
