-- ===== src/Media/Video/Stream.antt =====
-- Streams of fragments in any order: what the reassembler may deliver.
use crowdy_cpp.Base.{
  ℕ, ◌≡◌, ◌≢◌, ◌<◌, inl, inr, refl, sym, ap, ◌∙◌, Option, none, some, List, [], ◌∷◌, All, All-Memᴰ,
  Memᴰ, length, drop, get_or, ltb, ◌==◌, Bool-cases, Option-cases, subst, arith, ltb_false→le,
}
use crowdy_cpp.Base.Int.{ℤ}
use crowdy_cpp.Base.Maps.{
  lookup, lookup-insert_self, lookup-insert_ne, lookup-erase_self, lookup-erase_ne,
}
use crowdy_cpp.Core.Le.{Bytes}
use crowdy_cpp.Core.Crypto.{concat}
use crowdy_cpp.Media.Video.{
  VideoFragmentHeader, parse_video_fragment_header, Pending, AssembledVideoFrame, Assembler,
  start_pending, store_part, differs, finish_ingest, shape_ingest, admit_ingest, is_straggler,
  ingest, is_newer_frame_id,
}
use crowdy_cpp.Media.Video.Assembly.{
  InProgress, start_pending-InProgress, store_part-InProgress, Agrees-full,
}
use crowdy_cpp.Media.Video.Once.{ingest-Delivered}

some_inj {ℓ} : {A : Type ℓ} {a b : A} → some a ≡ some b → a ≡ b
some_inj e = cc

store_part-frame_id :
    (p : Pending) (i : ℕ) (body : Bytes) (now : ℤ) → (store_part p i body now).frame_id ≡ p.frame_id
unfolding store_part
store_part-frame_id p i body now = ground arith

module _ {K : Type 0} (eq : Discrete K) where
  -- A call for one sender leaves every other sender's frame in progress alone.
  module _ (uuid other : K) (apart : uuid ≢ other) where
    finish_other :
        (a : Assembler K) (p : Pending) (h : VideoFragmentHeader) (packet : Bytes) (now : ℤ)
        → lookup eq other (finish_ingest eq a uuid p h packet now).1.pending
          ≡ lookup eq other a.pending
    unfolding finish_ingest
    finish_other a p h packet now =
        let f = store_part p h.frag_index (drop 6 packet) now in
        elim (Bool-cases (ltb f.received f.frag_count)) [
          | inl more ↦ rw more (lookup-insert_ne eq uuid other f a.pending apart)
          | inr done ↦ rw done (lookup-erase_ne eq uuid other a.pending apart)
        ]

    shape_other :
        (a : Assembler K) (it : Option Pending) (h : VideoFragmentHeader) (packet : Bytes) (now : ℤ)
        → lookup eq other (shape_ingest eq a uuid it h packet now).1.pending
          ≡ lookup eq other a.pending
    unfolding shape_ingest
    shape_other a none h packet now = finish_other a (start_pending h) h packet now
    shape_other a (some p) h packet now = elim (Bool-cases (differs p h)) [
      | inl new ↦
          rw new (finish_other _ (start_pending h) h packet now)
          ∙ lookup-erase_ne eq uuid other a.pending apart
      | inr same ↦ rw same (finish_other a p h packet now)
    ]

    admit_other :
        (a : Assembler K) (it : Option Pending) (h : VideoFragmentHeader) (packet : Bytes) (now : ℤ)
        → lookup eq other (admit_ingest eq a uuid it h packet now).1.pending
          ≡ lookup eq other a.pending
    unfolding admit_ingest
    admit_other a none h packet now = elim (Bool-cases (is_straggler eq a uuid h)) [
      | inl old ↦ rw old refl
      | inr fresh ↦ rw fresh (shape_other a none h packet now)
    ]
    admit_other a (some p) h packet now = elim (Bool-cases (p.frame_id == h.frame_id)) [
      | inl same ↦ rw same (shape_other a (some p) h packet now)
      | inr another ↦ elim (Bool-cases (is_newer_frame_id h.frame_id p.frame_id)) [
        | inl newer ↦
            rw (another, newer) (shape_other _ none h packet now)
            ∙ lookup-erase_ne eq uuid other a.pending apart
        | inr older ↦ rw (another, older) refl
      ]
    ]

    pub ingest_other :
        (a : Assembler K) (packet : Bytes) (now : ℤ)
        → lookup eq other (ingest eq a uuid packet now).1.pending ≡ lookup eq other a.pending
    unfolding ingest
    ingest_other a packet now = elim (Option-cases (parse_video_fragment_header packet)) [
      | inl bad ↦ rw (bad, ingest) refl
      | inr (h, good) ↦ rw (good, ingest) (admit_other a (lookup eq uuid a.pending) h packet now)
    ]

  -- A delivered frame is the caller's.
  ingest-uuid :
      (a : Assembler K) (uuid : K) (packet : Bytes) (now : ℤ) (out : AssembledVideoFrame K)
      → (ingest eq a uuid packet now).0 ≡ some out
      → out.uuid ≡ uuid
  ingest-uuid a uuid packet now out e = (ingest-Delivered eq a uuid packet now out e).0

  module _ (uuid : K) (id codec : ℕ) (bs : List Bytes) where
    -- If the sender is at this frame, what is held of it agrees with its bodies.
    abbrev pub IsClean : Assembler K → Type 0
    IsClean a =
        (p : Pending) → lookup eq uuid a.pending ≡ some p → p.frame_id ≡ id → InProgress codec bs p

    -- A fragment of this frame is one of its bodies behind the frame's header.
    abbrev pub IsGenuine : VideoFragmentHeader → Bytes → Type 0
    IsGenuine h packet =
        h.frame_id ≡ id
        → (h.codec ≡ codec)
          × (h.frag_count ≡ length bs)
          × (h.frag_index < length bs)
          × (drop 6 packet ≡ get_or bs h.frag_index [])

    -- What a call leaves behind and returns.
    abbrev Good : Option (AssembledVideoFrame K) × Assembler K → Type 0
    Good r =
        IsClean r.1
        × ((out : AssembledVideoFrame K)
            → r.0 ≡ some out
            → out.frame_id ≡ id
            → (out.bytes ≡ concat bs) × (out.codec ≡ codec))

    start_frame_id : (h : VideoFragmentHeader) → (start_pending h).frame_id ≡ h.frame_id
    unfolding start_pending
    start_frame_id h = refl

    start-Good :
        (h : VideoFragmentHeader) (packet : Bytes)
        → IsGenuine h packet
        → (start_pending h).frame_id ≡ id
        → InProgress codec bs (start_pending h)
    start-Good h packet g e =
        let (c, n, _, _) = g (sym (start_frame_id h) ∙ e) in
        subst (λ c. InProgress c bs (start_pending h)) c (start_pending-InProgress bs h n)

    finish-Good :
        (a : Assembler K) (p : Pending) (h : VideoFragmentHeader) (packet : Bytes) (now : ℤ)
        → (p.frame_id ≡ id → InProgress codec bs p)
        → p.frame_id ≡ h.frame_id
        → IsGenuine h packet
        → Good (finish_ingest eq a uuid p h packet now)
    unfolding finish_ingest
    finish-Good a p h packet now v same g =
        let f = store_part p h.frag_index (drop 6 packet) now in
        let vf : f.frame_id ≡ id → InProgress codec bs f = λ e.
          let e' : p.frame_id ≡ id =
            sym (store_part-frame_id p h.frag_index (drop 6 packet) now) ∙ e in
          let (_, _, i, body) = g (sym same ∙ e') in
          store_part-InProgress codec bs p h.frag_index (drop 6 packet) now (v e') i body in
        elim (Bool-cases (ltb f.received f.frag_count)) [
          | inl more ↦ rw more (
            (λ q e.
                let q_eq : f ≡ q = some_inj (sym (lookup-insert_self eq uuid f a.pending) ∙ e) in
                subst (λ (q : Pending). q.frame_id ≡ id → InProgress codec bs q) q_eq vf),
            λ out e _. absurd (cc e),
          )
          | inr done ↦ rw done (
            (λ q e _. absurd (cc (lookup-erase_self eq uuid a.pending))),
            λ out e i.
                let o = some_inj e in
                let vf' = vf (ap (λ (o : AssembledVideoFrame K). o.frame_id) o ∙ i) in
                (
                  sym (ap (λ (o : AssembledVideoFrame K). o.bytes) o)
                      ∙ ap concat (
                          Agrees-full bs f.parts f.have vf'.agrees
                            (omega (arith, ltb_false→le done, vf'.received_eq, vf'.count_eq))),
                  sym (ap (λ (o : AssembledVideoFrame K). o.codec) o) ∙ vf'.codec_eq,
                ),
          )
        ]

    shape-Good :
        (a : Assembler K) (it : Option Pending) (h : VideoFragmentHeader) (packet : Bytes) (now : ℤ)
        → ((p : Pending)
            → it ≡ some p
            → (p.frame_id ≡ id → InProgress codec bs p) × (p.frame_id ≡ h.frame_id))
        → IsGenuine h packet
        → Good (shape_ingest eq a uuid it h packet now)
    unfolding shape_ingest
    shape-Good a none h packet now v g =
        finish-Good a (start_pending h) h packet now (start-Good h packet g) (start_frame_id h) g
    shape-Good a (some p) h packet now v g = elim (Bool-cases (differs p h)) [
      | inl new ↦ rw new (
          finish-Good _ (start_pending h) h packet now (start-Good h packet g) (start_frame_id h) g)
      | inr same ↦ rw same (finish-Good a p h packet now (v p refl).0 (v p refl).1 g)
    ]

    admit-Good :
        (a : Assembler K) (it : Option Pending) (h : VideoFragmentHeader) (packet : Bytes) (now : ℤ)
        → lookup eq uuid a.pending ≡ it
        → IsClean a
        → IsGenuine h packet
        → Good (admit_ingest eq a uuid it h packet now)
    unfolding admit_ingest
    admit-Good a none h packet now at v g = elim (Bool-cases (is_straggler eq a uuid h)) [
      | inl old ↦ rw old (v, λ out e _. absurd (cc e))
      | inr fresh ↦ rw fresh (shape-Good a none h packet now (λ p e. absurd (cc e)) g)
    ]
    admit-Good a (some p) h packet now at v g = elim (Bool-cases (p.frame_id == h.frame_id)) [
      | inl same ↦
          let one : p.frame_id ≡ h.frame_id = ground (arith, same) in
          rw same (
            shape-Good a (some p) h packet now
              (λ q e.
                subst
                  (λ (q : Pending).
                    (q.frame_id ≡ id → InProgress codec bs q) × (q.frame_id ≡ h.frame_id))
                  (some_inj e) (v p at, one))
              g)
      | inr another ↦ elim (Bool-cases (is_newer_frame_id h.frame_id p.frame_id)) [
        | inl newer ↦ rw (another, newer) (shape-Good _ none h packet now (λ p e. absurd (cc e)) g)
        | inr older ↦ rw (another, older) (v, λ out e _. absurd (cc e))
      ]
    ]

    pub ingest-Good :
        (a : Assembler K) (packet : Bytes) (now : ℤ)
        → IsClean a
        → ((h : VideoFragmentHeader)
            → parse_video_fragment_header packet ≡ some h
            → IsGenuine h packet)
        → Good (ingest eq a uuid packet now)
    unfolding ingest
    ingest-Good a packet now v g = elim (Option-cases (parse_video_fragment_header packet)) [
      | inl bad ↦ rw (bad, ingest) (v, λ out e _. absurd (cc e))
      | inr (h, good) ↦
          rw (good, ingest) (admit-Good a (lookup eq uuid a.pending) h packet now refl v (g h good))
    ]

  -- Deliveries of a run of calls, oldest first.
  abbrev pub collect :
      Option (AssembledVideoFrame K) → List (AssembledVideoFrame K) → List (AssembledVideoFrame K)
  collect none more = more
  collect (some out) more = out ∷ more

  unfoldable pub ingest_all : Assembler K → List (K × Bytes × ℤ) → List (AssembledVideoFrame K)
  ingest_all a [] = []
  ingest_all a ((uuid, packet, now) ∷ calls) =
      let r = ingest eq a uuid packet now in collect r.0 (ingest_all r.1 calls)

  All-collect :
      (P : AssembledVideoFrame K → Type 0) (o : Option (AssembledVideoFrame K))
      (more : List (AssembledVideoFrame K))
      → ((out : AssembledVideoFrame K) → o ≡ some out → P out)
      → All P more
      → All P (collect o more)
  All-collect P none more one rest = rest
  All-collect P (some out) more one rest = (one out refl, rest)

  ingest_all-All :
      (uuid : K) (id codec : ℕ) (bs : List Bytes) (a : Assembler K) (calls : List (K × Bytes × ℤ))
      → IsClean uuid id codec bs a
      → All
          (λ c.
            c.0 ≡ uuid
            → (h : VideoFragmentHeader) → parse_video_fragment_header c.1 ≡ some h
            → IsGenuine uuid id codec bs h c.1)
          calls
      → All
          (λ out.
            out.uuid ≡ uuid → out.frame_id ≡ id → (out.bytes ≡ concat bs) × (out.codec ≡ codec))
          (ingest_all a calls)
  unfolding ingest_all
  ingest_all-All uuid id codec bs a [] v g = tt
  ingest_all-All uuid id codec bs a ((k, packet, now) ∷ calls) v g = elim (eq k uuid) [
    | yes same ↦
        let r = ingest eq a k packet now in
        let good =
          subst (λ u. Good uuid id codec bs (ingest eq a u packet now)) (sym same)
            (ingest-Good uuid id codec bs a packet now v (g.0 same)) in
        All-collect _ r.0 (ingest_all r.1 calls) (λ out e _. good.1 out e)
          (ingest_all-All uuid id codec bs r.1 calls good.0 g.1)
    | no other ↦
        let r = ingest eq a k packet now in
        All-collect _ r.0 (ingest_all r.1 calls)
          (λ out e u. absurd (other (sym (ingest-uuid a k packet now out e) ∙ u)))
          (ingest_all-All uuid id codec bs r.1 calls
            (λ p e. v p (sym (ingest_other k uuid other a packet now) ∙ e)) g.1)
  ]

  -- Packets may be lost, repeated, reordered, malformed, and mixed with those of other senders and
  -- of other frames: if the sender's frame in progress agrees with the bodies `bs` wherever it is at
  -- this frame, and every packet of this sender that names this frame carries its codec, its number
  -- of fragments and one of its bodies at its place, then every frame delivered under this sender
  -- and id has exactly the bytes of `bs` and this codec.
  pub ingest_all-genuine :
      (uuid : K) (id codec : ℕ) (bs : List Bytes) (a : Assembler K) (calls : List (K × Bytes × ℤ))
      (out : AssembledVideoFrame K)
      → IsClean uuid id codec bs a
      → All
          (λ c.
            c.0 ≡ uuid
            → (h : VideoFragmentHeader) → parse_video_fragment_header c.1 ≡ some h
            → IsGenuine uuid id codec bs h c.1)
          calls
      → Memᴰ out (ingest_all a calls)
      → out.uuid ≡ uuid
      → out.frame_id ≡ id
      → (out.bytes ≡ concat bs) × (out.codec ≡ codec)
  ingest_all-genuine uuid id codec bs a calls out v g m =
      All-Memᴰ _ (ingest_all a calls) out (ingest_all-All uuid id codec bs a calls v g) m
