-- ===== src/Media/Video/Fragments.antt =====
-- The fragmenter: each fragment parses, and together they carry the frame.
use crowdy_cpp.Base.{
  ℕ, zero, suc, ◌+◌, ◌-◌, ◌*◌, ◌/◌, ◌%◌, ◌^◌, ◌≡◌, ◌≤◌, ◌<◌, ◌⊎◌, refl, sym, ap, ap₂, ◌∙◌, false,
  some, List, [], ◌∷◌, ◌++◌, map, length, take, drop, length-take, length-drop, drop-drop, take-add,
  take-min, take_all, bit_or, bit_or-add, min, ltb, ◌==◌, ◌||◌, le→ltb, arith,
}
use crowdy_cpp.Base.Buffers.{slice}
use crowdy_cpp.Core.Le.{Bytes}
use crowdy_cpp.Core.Crypto.{concat}
use crowdy_cpp.Media.Video.{
  VideoFragmentHeader, parse_video_fragment_header, fragment, fragment_loop, fragment_frame,
}
use native.Mathlib.Nat.{div-add-mod', mod-lt}

-- Fragments needed for `size` bytes.
abbrev pub fragment_count : ℕ → ℕ → ℕ
fragment_count size max_body = (size + max_body - 1) / max_body

abbrev pub header_for : ℕ → ℕ → ℕ → ℕ → VideoFragmentHeader
header_for frame_id codec frag_count i = record {
  version = 1;
  codec = codec;
  frame_id = frame_id;
  frag_index = i;
  frag_count = frag_count;
}

pub parse-fragment :
    (frame : Bytes) (frame_id codec max_body n i : ℕ)
    → frame_id < 2 ^ 16
    → codec < 2
    → i < n
    → n ≤ 16
    → parse_video_fragment_header (fragment frame frame_id codec max_body n i)
      ≡ some (header_for frame_id codec n i)
unfolding parse_video_fragment_header
parse-fragment frame frame_id codec max_body n i hf hc hi hn =
    let id : bit_or (frame_id / 2 ^ 8 % 256 * 2 ^ 8) (frame_id % 256) % 2 ^ 16 ≡ frame_id =
      rw (bit_or-add 8 (frame_id / 2 ^ 8 % 256) (frame_id % 256) (omega arith)) (omega arith) in
    let a : i % 256 ≡ i = omega arith in
    let b : n % 256 ≡ n = omega arith in rw (id, a, b) (ground arith)

-- The loop writes one fragment after the other; their bodies are a piece of the frame.
fragment_loop-concat :
    (k : ℕ) (frame : Bytes) (frame_id codec max_body n i : ℕ)
    → concat (map (drop 6) (fragment_loop k frame frame_id codec max_body n i))
      ≡ slice frame (i * max_body) (k * max_body)
unfolding fragment_loop
fragment_loop-concat zero frame frame_id codec max_body n i =
    let e : 0 ≡ 0 * max_body = omega arith in ap (slice frame (i * max_body)) e
fragment_loop-concat (suc k) frame frame_id codec max_body n i =
    let begin = i * max_body in
    let ih = fragment_loop-concat k frame frame_id codec max_body n (i + 1) in
    let one : slice frame begin (min max_body (length frame - begin)) ≡ slice frame begin max_body =
      ap (λ l. slice frame begin (min max_body l)) (sym (length-drop begin frame))
      ∙ take-min max_body (drop begin frame) in
    let next : drop ((i + 1) * max_body) frame ≡ drop max_body (drop begin frame) =
      let e : (i + 1) * max_body ≡ begin + max_body = omega arith in
      ap (λ l. drop l frame) e ∙ sym (drop-drop max_body begin frame) in
    let total : max_body + k * max_body ≡ suc k * max_body = omega arith in
    ap₂ ◌++◌ one (ih ∙ ap (take (k * max_body)) next)
    ∙ sym (take-add max_body (k * max_body) (drop begin frame))
    ∙ ap (slice frame begin) total

-- The fragments of a frame from number `i` on: each parses to its own header and fits a datagram.
abbrev pub IsNumbered : ℕ → ℕ → ℕ → ℕ → List Bytes → Type 0
IsNumbered frame_id codec n i [] = Unit {0}
IsNumbered frame_id codec n i (p ∷ ps) =
    (parse_video_fragment_header p ≡ some (header_for frame_id codec n i))
    × (length p ≤ 1123)
    × IsNumbered frame_id codec n (i + 1) ps

fragment_loop-IsNumbered :
    (k : ℕ) (frame : Bytes) (frame_id codec max_body n i : ℕ)
    → frame_id < 2 ^ 16
    → codec < 2
    → max_body ≤ 1117
    → i + k ≤ n
    → n ≤ 16
    → IsNumbered frame_id codec n i (fragment_loop k frame frame_id codec max_body n i)
unfolding fragment_loop
fragment_loop-IsNumbered zero frame frame_id codec max_body n i hf hc hb hi hn = tt
fragment_loop-IsNumbered (suc k) frame frame_id codec max_body n i hf hc hb hi hn =
    let begin = i * max_body in
    let body = length-take (min max_body (length frame - begin)) (drop begin frame) in
    (
      parse-fragment frame frame_id codec max_body n i hf hc (omega arith) hn,
      omega (arith, body),
      fragment_loop-IsNumbered k frame frame_id codec max_body n (i + 1) hf hc hb (omega arith) hn,
    )

length-fragment_loop :
    (k : ℕ) (frame : Bytes) (frame_id codec max_body n i : ℕ)
    → length (fragment_loop k frame frame_id codec max_body n i) ≡ k
unfolding fragment_loop
length-fragment_loop zero frame frame_id codec max_body n i = refl
length-fragment_loop (suc k) frame frame_id codec max_body n i =
    ap suc (length-fragment_loop k frame frame_id codec max_body n (i + 1))

-- The number of fragments is the least that holds the frame.
ceil_bounds :
    (size body : ℕ)
    → 1 ≤ size
    → 1 ≤ body
    → (size ≤ (size + body - 1) / body * body) × (1 ≤ (size + body - 1) / body)
ceil_bounds size body hs hb =
    let e = div-add-mod' (size + body - 1) body in
    let r : (size + body - 1) % body < body = mod-lt (size + body - 1) hb in
    (omega (arith, e, r), grind (arith, e, r))

-- A frame that is not empty, has a 16-bit id and codec 0 or 1, and needs at most 16 fragments of a
-- body size in 1..1117 is split into that many fragments: they are numbered in order, each parses to its own header and fits a
-- payload of 1123 bytes, and their bodies in order are the frame.
pub fragment_frame_lem :
    (frame : Bytes) (frame_id codec max_body : ℕ)
    → frame_id < 2 ^ 16
    → codec < 2
    → 1 ≤ length frame
    → 1 ≤ max_body
    → max_body ≤ 1117
    → fragment_count (length frame) max_body ≤ 16
    → let n = fragment_count (length frame) max_body in
      let fs = fragment_frame frame frame_id codec max_body in
      (length fs ≡ n)
      × (1 ≤ n)
      × IsNumbered frame_id codec n 0 fs
      × (concat (map (drop 6) fs) ≡ frame)
unfolding fragment_frame
fragment_frame_lem frame frame_id codec max_body hf hc size low high few =
    let n = (length frame + max_body - 1) / max_body in
    let (cover, some_) = ceil_bounds (length frame) max_body size low in
    let none_before : 0 * max_body ≡ 0 = omega arith in
    let g : (length frame == 0 || ltb max_body 1 || ltb 1117 max_body) ≡ false = ground arith in
    rw (g, le→ltb 16 n few)
      (
        length-fragment_loop n frame frame_id codec max_body n 0,
        some_,
        fragment_loop-IsNumbered n frame frame_id codec max_body n 0 hf hc high (omega arith) few,
        fragment_loop-concat n frame frame_id codec max_body n 0
            ∙ ap (λ k. slice frame k (n * max_body)) none_before
            ∙ take_all (n * max_body) frame cover,
      )

-- Otherwise nothing is sent: a frame is never sent in part.
pub fragment_frame_none :
    (frame : Bytes) (frame_id codec max_body : ℕ)
    → (length frame ≡ 0)
      ⊎ ((max_body ≡ 0) ⊎ ((1117 < max_body) ⊎ (16 < fragment_count (length frame) max_body)))
    → fragment_frame frame frame_id codec max_body ≡ []
unfolding fragment_frame
fragment_frame_none frame frame_id codec max_body h = ground arith
