-- ===== src/Media/Video.antt =====
-- include/crowdy/media/video_frames.hpp: the fragment header, the fragmenter, and the state of the
-- reassembler. Bodies and packets are lists of bytes; times are the caller's milliseconds.
pub mod Fragments
pub mod Assembly
pub mod Once
pub mod Stream
pub mod Stragglers
use crowdy_cpp.Base.{
  ℕ, zero, suc, ◌+◌, ◌-◌, ◌*◌, ◌/◌, ◌%◌, ◌^◌, Bool, true, false, not, ◌&&◌, ◌||◌, Option, none,
  some, List, [], ◌∷◌, ◌++◌, length, take, drop, get_or, set, replicate, ltb, leb, ◌==◌,
  if◌then◌else◌, bit_or, min,
}
use crowdy_cpp.Base.Int.{ℤ, pos, ltbℤ, ◌-ℤ◌}
use crowdy_cpp.Base.Buffers.{slice}
use crowdy_cpp.Base.Maps.{lookup, insert, erase}
use crowdy_cpp.Core.Le.{Bytes}
use crowdy_cpp.Core.Crypto.{concat}

abbrev pub fragment_header_bytes : ℕ
fragment_header_bytes = 6

abbrev pub max_fragment_body_bytes : ℕ
max_fragment_body_bytes = 1117

abbrev pub max_fragments : ℕ
max_fragments = 16

abbrev pub fragment_version : ℕ
fragment_version = 1

pub record VideoFragmentHeader : Type 0 where
  pub version : ℕ
  pub codec : ℕ
  pub frame_id : ℕ
  pub frag_index : ℕ
  pub frag_count : ℕ

-- The six bytes; the frame id is big-endian.
abbrev pub header_of : Bytes → VideoFragmentHeader
header_of p = record {
  version = get_or p 0 0;
  codec = get_or p 1 0;
  frame_id = bit_or (get_or p 2 0 * 2 ^ 8) (get_or p 3 0) % 2 ^ 16;
  frag_index = get_or p 4 0;
  frag_count = get_or p 5 0;
}

unfoldable pub parse_video_fragment_header : Bytes → Option VideoFragmentHeader
parse_video_fragment_header p =
    let h = header_of p in
    if ltb (length p) fragment_header_bytes
    then none
    else if not (h.version == fragment_version)
    then none
    else if not (h.codec == 0) && not (h.codec == 1)
    then none
    else if ltb h.frag_count 1 || ltb max_fragments h.frag_count
    then none
    else if leb h.frag_count h.frag_index
    then none
    else some h

-- On the wrapping 16-bit counter.
unfoldable pub is_newer_frame_id : ℕ → ℕ → Bool
is_newer_frame_id a b = let d = (a + 2 ^ 16 - b) % 2 ^ 16 in not (d == 0) && ltb d 0x8000

-- One fragment: `header || slice`.
abbrev pub fragment : Bytes → ℕ → ℕ → ℕ → ℕ → ℕ → Bytes
fragment frame frame_id codec max_body frag_count i =
    let begin = i * max_body in
    let len = min max_body (length frame - begin) in
    fragment_version
    ∷ codec
    ∷ (frame_id / 2 ^ 8 % 256)
    ∷ (frame_id % 256)
    ∷ (i % 256)
    ∷ (frag_count % 256)
    ∷ slice frame begin len

-- The `for` loop from `i` on, `n` rounds left.
pub fragment_loop : ℕ → Bytes → ℕ → ℕ → ℕ → ℕ → ℕ → List Bytes
fragment_loop zero frame frame_id codec max_body frag_count i = []
fragment_loop (suc n) frame frame_id codec max_body frag_count i =
    fragment frame frame_id codec max_body frag_count i
    ∷ fragment_loop n frame frame_id codec max_body frag_count (i + 1)

pub fragment_frame : Bytes → ℕ → ℕ → ℕ → List Bytes
fragment_frame frame frame_id codec max_body =
    let frag_count = (length frame + max_body - 1) / max_body in
    if length frame == 0 || ltb max_body 1 || ltb max_fragment_body_bytes max_body
    then []
    else if ltb max_fragments frag_count
    then []
    else fragment_loop frag_count frame frame_id codec max_body frag_count 0

-- A frame in progress.
pub record Pending : Type 0 where
  pub frame_id : ℕ
  pub codec : ℕ
  pub frag_count : ℕ
  pub received : ℕ
  pub last_at_ms : ℤ
  pub parts : List Bytes
  pub have : List Bool

pub record AssembledVideoFrame (K : Type 0) : Type 0 where
  pub uuid : K
  pub frame_id : ℕ
  pub codec : ℕ
  pub bytes : Bytes
  pub completed_at_ms : ℤ

pub record Assembler (K : Type 0) : Type 0 where
  pub timeout_ms : ℤ
  pub pending : List (K × Pending)
  pub last_done : List (K × ℕ)
  pub dropped : ℕ
  pub abandoned : ℕ

-- The parts of `ingest` that the sender's key does not enter.
-- A new frame in progress, of the header's shape.
unfoldable pub start_pending : VideoFragmentHeader → Pending
start_pending h = record {
  frame_id = h.frame_id;
  codec = h.codec;
  frag_count = h.frag_count;
  received = 0;
  last_at_ms = pos 0;
  parts = replicate h.frag_count [];
  have = replicate h.frag_count false;
}

-- The fragment's body goes to its place, unless it is there already.
unfoldable pub store_part : Pending → ℕ → Bytes → ℤ → Pending
store_part p i body now =
    if get_or p.have i false then record p { last_at_ms = now } else record p {
      received = p.received + 1;
      last_at_ms = now;
      parts = set p.parts i body;
      have = set p.have i true;
    }

-- The frame in progress has another shape than the fragment.
abbrev pub differs : Pending → VideoFragmentHeader → Bool
differs p h = not (p.frag_count == h.frag_count) || not (p.codec == h.codec)

module _ {K : Type 0} (eq : Discrete K) where
  -- From `Pending& frame = it->second` on: `p` is the entry for `uuid`.
  unfoldable pub finish_ingest :
      Assembler K
      → K
      → Pending
      → VideoFragmentHeader
      → Bytes
      → ℤ
      → Option (AssembledVideoFrame K) × Assembler K
  finish_ingest a uuid p h packet now =
      let frame = store_part p h.frag_index (drop fragment_header_bytes packet) now in
      if ltb frame.received frame.frag_count
      then (none, record a { pending = insert eq uuid frame a.pending })
      else (
        some (record {
          uuid = uuid;
          frame_id = frame.frame_id;
          codec = frame.codec;
          bytes = concat frame.parts;
          completed_at_ms = now;
        }),
        record a {
          last_done = insert eq uuid frame.frame_id a.last_done;
          pending = erase eq uuid a.pending;
        },
      )

  -- From the comparison of shapes on: `it` is `none` where the entry has been erased.
  unfoldable pub shape_ingest :
      Assembler K
      → K
      → Option Pending
      → VideoFragmentHeader
      → Bytes
      → ℤ
      → Option (AssembledVideoFrame K) × Assembler K
  shape_ingest a uuid none h packet now = finish_ingest a uuid (start_pending h) h packet now
  shape_ingest a uuid (some p) h packet now =
      if differs p h
      then finish_ingest
          (record a { abandoned = (a.abandoned + 1) % 2 ^ 64; pending = erase eq uuid a.pending })
          uuid (start_pending h) h packet now
      else finish_ingest a uuid p h packet now

  -- A straggler from a frame already completed or abandoned.
  abbrev pub is_straggler : Assembler K → K → VideoFragmentHeader → Bool
  is_straggler a uuid h = elim (lookup eq uuid a.last_done) [
    | none ↦ false
    | some done ↦ not (is_newer_frame_id h.frame_id done)
  ]

  -- The branches on the sender's frame in progress.
  unfoldable pub admit_ingest :
      Assembler K
      → K
      → Option Pending
      → VideoFragmentHeader
      → Bytes
      → ℤ
      → Option (AssembledVideoFrame K) × Assembler K
  admit_ingest a uuid none h packet now =
      if is_straggler a uuid h
      then (none, record a { dropped = (a.dropped + 1) % 2 ^ 64 })
      else shape_ingest a uuid none h packet now
  admit_ingest a uuid (some p) h packet now =
      if not (p.frame_id == h.frame_id)
      then (if is_newer_frame_id h.frame_id p.frame_id
          then shape_ingest
              (record a {
                abandoned = (a.abandoned + 1) % 2 ^ 64;
                last_done = insert eq uuid p.frame_id a.last_done;
                pending = erase eq uuid a.pending;
              })
              uuid none h packet now
          else (none, record a { dropped = (a.dropped + 1) % 2 ^ 64 }))
      else shape_ingest a uuid (some p) h packet now

  unfoldable pub ingest : Assembler K → K → Bytes → ℤ → Option (AssembledVideoFrame K) × Assembler K
  ingest a uuid packet now = elim (parse_video_fragment_header packet) [
    | none ↦ (none, record a { dropped = (a.dropped + 1) % 2 ^ 64 })
    | some h ↦ admit_ingest a uuid (lookup eq uuid a.pending) h packet now
  ]

  -- The loop of `prune` over what is left of `pending`; the entries kept, and the new state's rest.
  pub prune_loop :
      ℤ → ℤ → List (K × Pending) → List (K × ℕ) → ℕ → List (K × Pending) × List (K × ℕ) × ℕ
  prune_loop timeout now [] done n = ([], done, n)
  prune_loop timeout now ((k, p) ∷ rest) done n =
      let stale = ltbℤ timeout (now -ℤ p.last_at_ms) in
      let done' = if stale then insert eq k p.frame_id done else done in
      let (kept, done'', n') = prune_loop timeout now rest done' (if stale then n + 1 else n) in
      (if stale then kept else (k, p) ∷ kept, done'', n')

  pub prune : Assembler K → ℤ → ℕ × Assembler K
  prune a now =
      let (kept, done, n) = prune_loop a.timeout_ms now a.pending a.last_done 0 in
      (n, record a { pending = kept; last_done = done; abandoned = (a.abandoned + n) % 2 ^ 64 })

  pub forget : Assembler K → K → Assembler K
  forget a uuid = record a {
    abandoned = elim (lookup eq uuid a.pending) [
      | none ↦ a.abandoned
      | some p ↦ (a.abandoned + 1) % 2 ^ 64
    ];
    pending = erase eq uuid a.pending;
    last_done = erase eq uuid a.last_done;
  }
