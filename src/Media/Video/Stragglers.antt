-- ===== src/Media/Video/Stragglers.antt =====
-- Late fragments in a stream of `VideoFrameAssembler::ingest` (include/crowdy/media/video_frames.hpp).
use crowdy_cpp.Base.{ℕ, ◌≡◌, ◌≢◌, false, Option, none, some}
use crowdy_cpp.Base.Int.{ℤ}
use crowdy_cpp.Base.Maps.{lookup}
use crowdy_cpp.Core.Le.{Bytes}
use crowdy_cpp.Media.Video.{
  VideoFragmentHeader, parse_video_fragment_header, AssembledVideoFrame, Assembler,
  is_newer_frame_id,
}

module _ {K : Type 0} (eq : Discrete K) where
  -- The calls of one sender leave what is known of the last frame of another.
  module _ (uuid other : K) (apart : uuid ≢ other) where
    abbrev SameLast : Assembler K → Assembler K → Type 0
    SameLast a a' = lookup eq other a'.last_done ≡ lookup eq other a.last_done

  module _ (uuid : K) (id : ℕ) where
    -- The sender's last frame is `id`, and none is in progress.
    abbrev IsClosed : Assembler K → Type 0
    IsClosed a = (lookup eq uuid a.pending ≡ none) × (lookup eq uuid a.last_done ≡ some id)

    -- A packet of another sender, or one that carries no fragment of a newer frame.
    abbrev pub IsLate : K × Bytes × ℤ → Type 0
    IsLate c =
        c.0 ≡ uuid
        → (h : VideoFragmentHeader) → parse_video_fragment_header c.1 ≡ some h
        → is_newer_frame_id h.frame_id id ≡ false

    -- Nothing of the sender is returned, and its last frame stays `id`.
    abbrev Refuses : Option (AssembledVideoFrame K) × Assembler K → Type 0
    Refuses r = ((out : AssembledVideoFrame K) → r.0 ≡ some out → out.uuid ≢ uuid) × IsClosed r.1
