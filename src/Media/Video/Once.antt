-- ===== src/Media/Video/Once.antt =====
-- What a delivery leaves behind: the frame is not delivered a second time.
use crowdy_cpp.Base.{
  ℕ, ◌+◌, ◌%◌, ◌^◌, ◌≡◌, inl, inr, ◌∙◌, true, false, Option, none, some, drop, ltb, ◌==◌,
  Bool-cases, Option-cases, arith,
}
use crowdy_cpp.Base.Int.{ℤ}
use crowdy_cpp.Base.Maps.{lookup, lookup-insert_self, lookup-erase_self}
use crowdy_cpp.Core.Le.{Bytes}
use crowdy_cpp.Media.Video.{
  VideoFragmentHeader, parse_video_fragment_header, Pending, AssembledVideoFrame, Assembler,
  start_pending, store_part, differs, finish_ingest, shape_ingest, admit_ingest, is_straggler,
  ingest, is_newer_frame_id,
}

module _ {K : Type 0} (eq : Discrete K) where
  -- A delivery is the caller's, closes the frame in progress and records its id.
  abbrev pub Delivered : K → Option (AssembledVideoFrame K) × Assembler K → Type 0
  Delivered uuid r =
      (out : AssembledVideoFrame K)
      → r.0 ≡ some out
      → (out.uuid ≡ uuid)
        × (lookup eq uuid r.1.pending ≡ none)
        × (lookup eq uuid r.1.last_done ≡ some out.frame_id)

  finish-Delivered :
      (a : Assembler K) (uuid : K) (p : Pending) (h : VideoFragmentHeader) (packet : Bytes)
      (now : ℤ)
      → Delivered uuid (finish_ingest eq a uuid p h packet now)
  unfolding finish_ingest
  finish-Delivered a uuid p h packet now =
      let f = store_part p h.frag_index (drop 6 packet) now in
      elim (Bool-cases (ltb f.received f.frag_count)) [
        | inl more ↦ rw more (λ out e. absurd (cc e))
        | inr done ↦ rw done (λ out e. (
          ground (arith, e),
          lookup-erase_self eq uuid a.pending,
          lookup-insert_self eq uuid f.frame_id a.last_done ∙ ground (arith, e),
        ))
      ]

  shape-Delivered :
      (a : Assembler K) (uuid : K) (it : Option Pending) (h : VideoFragmentHeader) (packet : Bytes)
      (now : ℤ)
      → Delivered uuid (shape_ingest eq a uuid it h packet now)
  unfolding shape_ingest
  shape-Delivered a uuid none h packet now = finish-Delivered a uuid (start_pending h) h packet now
  shape-Delivered a uuid (some p) h packet now = elim (Bool-cases (differs p h)) [
    | inl new ↦ rw new (finish-Delivered _ uuid (start_pending h) h packet now)
    | inr same ↦ rw same (finish-Delivered a uuid p h packet now)
  ]

  admit-Delivered :
      (a : Assembler K) (uuid : K) (it : Option Pending) (h : VideoFragmentHeader) (packet : Bytes)
      (now : ℤ)
      → Delivered uuid (admit_ingest eq a uuid it h packet now)
  unfolding admit_ingest
  admit-Delivered a uuid none h packet now = elim (Bool-cases (is_straggler eq a uuid h)) [
    | inl old ↦ rw old (λ out e. absurd (cc e))
    | inr fresh ↦ rw fresh (shape-Delivered a uuid none h packet now)
  ]
  admit-Delivered a uuid (some p) h packet now = elim (Bool-cases (p.frame_id == h.frame_id)) [
    | inl same ↦ rw same (shape-Delivered a uuid (some p) h packet now)
    | inr another ↦ elim (Bool-cases (is_newer_frame_id h.frame_id p.frame_id)) [
      | inl newer ↦ rw (another, newer) (shape-Delivered _ uuid none h packet now)
      | inr older ↦ rw (another, older) (λ out e. absurd (cc e))
    ]
  ]

  pub ingest-Delivered :
      (a : Assembler K) (uuid : K) (packet : Bytes) (now : ℤ)
      → Delivered uuid (ingest eq a uuid packet now)
  unfolding ingest
  ingest-Delivered a uuid packet now = elim (Option-cases (parse_video_fragment_header packet)) [
    | inl bad ↦ rw (bad, ingest) (λ out e. absurd (cc e))
    | inr (h, good) ↦
        rw (good, ingest) (admit-Delivered a uuid (lookup eq uuid a.pending) h packet now)
  ]

  pub dropped_straggler :
      (a : Assembler K) (uuid : K) (packet : Bytes) (now : ℤ) (h : VideoFragmentHeader) (done : ℕ)
      → lookup eq uuid a.pending ≡ none
      → lookup eq uuid a.last_done ≡ some done
      → parse_video_fragment_header packet ≡ some h
      → is_newer_frame_id h.frame_id done ≡ false
      → ingest eq a uuid packet now ≡ (none, record a { dropped = (a.dropped + 1) % 2 ^ 64 })
  unfolding ingest admit_ingest
  dropped_straggler a uuid packet now h done closed last good old =
      let straggler : is_straggler eq a uuid h ≡ true = rw (last, is_straggler, old) in
      rw (good, ingest, closed, admit_ingest, straggler)
