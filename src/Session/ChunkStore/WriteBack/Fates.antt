-- ===== src/Session/ChunkStore/WriteBack/Fates.antt =====
-- ChunkStore::pruneBeyond (include/crowdy/session/chunk_store.hpp): what becomes of each chunk.
use mathlib.Core.List.Memᴰ
use crowdy_cpp.Base.{
  ◌+◌, ◌≡◌, inl, inr, refl, sym, ap, ◌∙◌, subst, Bool, true, false, ◌&&◌, Option, none, some, List,
  [], ◌∷◌, All, Bool-cases, Option-cases, Memᴰ, ltb, arith,
}
use crowdy_cpp.Base.Int.{ℤ, ltbℤ}
use crowdy_cpp.Base.Maps.{lookup}
use crowdy_cpp.Core.Le.{Bytes}
use crowdy_cpp.Wire.Spatial.{ChunkCoord}
use crowdy_cpp.Session.Keys.{ChunkCoord_discrete, chebyshev, no_overflow}
use crowdy_cpp.Session.Chunk.{ChunkData}
use crowdy_cpp.Session.Outcome.{GraphQlOutcome, outcome_ok, write_back_retryable}
use crowdy_cpp.Session.ChunkStore.{ChunkStore, find}
use crowdy_cpp.Session.ChunkStore.WriteBack.{
  StoredChunk, made_at, settle, keep_persisted, keep_dropped, prune_written, prune_found,
  prune_chunk, prune_chunks, prune_beyond, distant_chunks, attempt_write_back,
}
use crowdy_cpp.Session.ChunkStore.WriteBack.Kept.{keep_retry-chunks}
use crowdy_cpp.Session.ChunkStore.WriteBack.Evictions.{
  evict_gone, evict_found_gone, prune_chunk-Others, prune_chunks-others, distant_chunks-far,
  distant_chunks-Memᴰ,
}
use crowdy_cpp.Session.ChunkStore.WriteBack.Fate.{
  IsLeft, has_source, FateOf, Fate, Passes, Passes-refl, Passes-has, Fate-Passes, Fate-again,
}

-- `Sent` says that a source was asked to write these bytes of a chunk, and what it answered.
module _ {S : Type 0} (write_chunk : S → ChunkCoord → Bytes → GraphQlOutcome × S)
    (chunks_around : S → ChunkCoord → ℤ → List StoredChunk × S)
    (Sent : S → ChunkCoord → Bytes → GraphQlOutcome → Type 0)
    (writes : (source : S) (k : ChunkCoord) (voxels : Bytes)
      → Sent (write_chunk source k voxels).1 k voxels (write_chunk source k voxels).0)
    (stays : (source : S) (k j : ChunkCoord) (voxels other : Bytes) (out : GraphQlOutcome)
      → Sent source j other out
      → Sent (write_chunk source k voxels).1 j other out) where
  -- The end of a round at a dirty chunk.
  written-FateOf :
      (s : ChunkStore) (coord : ChunkCoord) (c : ChunkData) (now : ℤ) (source : S)
      (out : GraphQlOutcome)
      → find s coord ≡ some c
      → Sent source c.coord c.voxels out
      → let r = prune_written write_chunk chunks_around coord (settle out s coord c now, source) in
        FateOf Sent true c r.1 (find r.2 coord) × (r.1 ≡ some source)
  unfolding settle
  written-FateOf s coord c now source out found sent = elim (Bool-cases (outcome_ok out)) [
    | inl ok ↦ rw ok (
      (
        source,
        refl,
        out,
        sent,
        subst (IsLeft out c) (sym (evict_found_gone (keep_persisted s coord c) coord)) tt,
      ),
      refl,
    )
    | inr bad ↦
        elim (Bool-cases
          (write_back_retryable out && ltb (made_at s c.coord + 1) s.write_back_attempts)) [
            | inl again ↦
                let kept = keep_retry-chunks s c (made_at s c.coord + 1) now in
                let clears : write_back_retryable out ≡ true = ground (arith, again) in
                rw (bad, again)
                  (
                    (
                      source,
                      refl,
                      out,
                      sent,
                      subst (IsLeft out c)
                          (sym (ap (lookup ChunkCoord_discrete coord) kept ∙ found))
                          (refl, bad, clears),
                    ),
                    refl,
                  )
            | inr given_up ↦
                rw (bad, given_up)
                  (
                    (
                      source,
                      refl,
                      out,
                      sent,
                      subst (IsLeft out c) (sym (evict_found_gone (keep_dropped s coord c _) coord))
                          tt,
                    ),
                    refl,
                  )
          ]
  ]

  found-FateOf :
      (source : Option S) (s : ChunkStore) (coord : ChunkCoord) (c : ChunkData) (dirty : Bool)
      → find s coord ≡ some c
      → let r = prune_found write_chunk chunks_around source s coord c dirty in
        FateOf Sent (has_source source && dirty) c r.1 (find r.2 coord) × Passes Sent source r.1
  unfolding attempt_write_back
  found-FateOf none s coord c dirty found = (evict_gone s coord c, refl)
  found-FateOf (some source) s coord c false found =
      (evict_gone s coord c, Passes-refl Sent (some source))
  found-FateOf (some source) s coord c true found =
      let (fate, same) =
        written-FateOf s coord c s.last_tick_ms (write_chunk source c.coord c.voxels).1
          (write_chunk source c.coord c.voxels).0 found (writes source c.coord c.voxels) in
      (
        fate,
        (
          (write_chunk source c.coord c.voxels).1,
          same,
          λ k voxels out sent. stays source c.coord k c.voxels voxels out sent,
        ),
      )

  chunk-Fate :
      (source : Option S) (s : ChunkStore) (coord : ChunkCoord)
      → let r = prune_chunk write_chunk chunks_around source s coord in
        Fate Sent (has_source source) (find s coord) r.1 (find r.2 coord) × Passes Sent source r.1
  unfolding prune_chunk
  chunk-Fate source s coord = elim (Option-cases (find s coord)) [
    | inl absent ↦ rw (prune_chunk, absent) (absent, Passes-refl Sent source)
    | inr (c, found) ↦ rw (prune_chunk, found) (found-FateOf source s coord c c.dirty found)
  ]

  -- The rounds over `coords` keep a fate, whichever they are.
  chunks_keep :
      (coords : List ChunkCoord) (source : Option S) (s : ChunkStore) (k : ChunkCoord) (has : Bool)
      (found : Option ChunkData)
      → has_source source ≡ has
      → Fate Sent has found source (find s k)
      → let r = prune_chunks write_chunk chunks_around source s coords in
        Fate Sent has found r.1 (find r.2 k)
  unfolding prune_chunks
  chunks_keep [] source s k has found e h = h
  chunks_keep (coord ∷ coords) source s k has found e h =
      let (evicted, source', s') = prune_chunk write_chunk chunks_around source s coord in
      let (fate, p) = chunk-Fate source s coord in
      chunks_keep coords source' s' k has found (Passes-has Sent source source' p ∙ e)
        (elim (ChunkCoord_discrete coord k) [
          | yes same ↦
              let fate' : Fate Sent has (find s k) source' (find s' k) =
                subst (λ j. Fate Sent has (find s j) source' (find s' j)) same
                  (subst (λ b. Fate Sent b (find s coord) source' (find s' coord)) e fate) in
              Fate-again Sent has found source source' (find s k) (find s' k) p h fate'
          | no apart ↦
              subst (Fate Sent has found source')
                (sym (prune_chunk-Others write_chunk chunks_around source s coord k apart))
                (Fate-Passes Sent has found source source' (find s k) p h)
        ])

  chunks-Fate :
      (coords : List ChunkCoord) (source : Option S) (s : ChunkStore) (k : ChunkCoord) (has : Bool)
      → has_source source ≡ has
      → Memᴰ k coords
      → let r = prune_chunks write_chunk chunks_around source s coords in
        Fate Sent has (find s k) r.1 (find r.2 k)
  unfolding prune_chunks
  chunks-Fate [] source s k has e m = absurd (Memᴰ.not-nil m)
  chunks-Fate (coord ∷ coords) source s k has e m =
      let (evicted, source', s') = prune_chunk write_chunk chunks_around source s coord in
      let (fate, p) = chunk-Fate source s coord in
      let e' = Passes-has Sent source source' p ∙ e in
      let r = prune_chunks write_chunk chunks_around source' s' coords in
      elim (ChunkCoord_discrete coord k) [
        | yes same ↦ chunks_keep coords source' s' k has (find s k) e' (
            subst (λ j. Fate Sent has (find s j) source' (find s' j)) same
              (subst (λ b. Fate Sent b (find s coord) source' (find s' coord)) e fate))
        | no apart ↦ elim (Memᴰ.cases_cons m) [
          | inl here ↦ absurd (apart (sym here))
          | inr later ↦
              subst (λ f. Fate Sent has f r.1 (find r.2 k))
                (prune_chunk-Others write_chunk chunks_around source s coord k apart)
                (chunks-Fate coords source' s' k has e' later)
        ]
      ]

  -- What pruning does to a place that is within the distance, or beyond it.
  abbrev pub IsPruned : Bool → Bool → Option ChunkData → Option S → Option ChunkData → Type 0
  IsPruned false has found source left = left ≡ found
  IsPruned true has found source left = Fate Sent has found source left

  pruned :
      (source : Option S) (s : ChunkStore) (center : ChunkCoord) (distance : ℤ) (k : ChunkCoord)
      (far : Bool)
      → ltbℤ distance (chebyshev k center) ≡ far
      → let r = prune_beyond write_chunk chunks_around source s center distance in
        IsPruned far (has_source source) (find s k) r.1 (find r.2 k)
  unfolding prune_beyond
  pruned source s center distance k false near =
      prune_chunks-others write_chunk chunks_around (distant_chunks center distance s.chunks) source
        s k (λ m. absurd (cc (near, distant_chunks-far center distance s.chunks k m)))
  pruned source s center distance k true far =
      let coords = distant_chunks center distance s.chunks in
      let r = prune_chunks write_chunk chunks_around source s coords in
      elim (Option-cases (find s k)) [
        | inl absent ↦
            subst (λ f. Fate Sent (has_source source) f r.1 (find r.2 k)) (sym absent)
              (chunks_keep coords source s k (has_source source) none refl absent)
        | inr (c, found) ↦
            chunks-Fate coords source s k (has_source source) refl
              (distant_chunks-Memᴰ center distance s.chunks k c found far)
      ]

  -- Pruning leaves every chunk within the distance as it was. Beyond it, a clean chunk is gone, and
  -- without a source every chunk is; with one, a dirty chunk has been sent to the source with its
  -- voxels first, and is still there only if that write failed in a way that can clear, unchanged.
  -- The source is any that remembers what it is sent; the chunks of the store are less than 2^63 from
  -- the center, so that their distances do not overflow.
  pub prune_beyond-IsPruned :
      (source : Option S) (s : ChunkStore) (center : ChunkCoord) (distance : ℤ) (k : ChunkCoord)
      → All (λ (entry : ChunkCoord × ChunkData). no_overflow entry.0 center ≡ true) s.chunks
      → let r = prune_beyond write_chunk chunks_around source s center distance in
        IsPruned
          (ltbℤ distance (chebyshev k center))
          (has_source source)
          (find s k)
          r.1
          (find r.2 k)
  prune_beyond-IsPruned source s center distance k in_reach =
      pruned source s center distance k (ltbℤ distance (chebyshev k center)) refl
