-- ===== src/Session/ChunkStore/WriteBack/Evictions.antt =====
-- ChunkStore::pruneBeyond (include/crowdy/session/chunk_store.hpp): which chunks it collects, and that a
-- round leaves every other chunk as it was.
use mathlib.Core.List.Memᴰ
use crowdy_cpp.Base.{
  ◌+◌, ◌≡◌, ◌≢◌, inl, inr, refl, sym, ap, ◌∙◌, Bool, true, false, Option, none, some, List, [], ◌∷◌,
  Bool-cases, Option-cases, Memᴰ,
}
use crowdy_cpp.Base.Int.{ℤ, ltbℤ}
use crowdy_cpp.Base.Maps.{lookup, lookup-erase_self, lookup-erase_ne, lookup_further}
use crowdy_cpp.Core.Le.{Bytes}
use crowdy_cpp.Wire.Spatial.{ChunkCoord}
use crowdy_cpp.Session.Keys.{ChunkCoord_discrete, chebyshev}
use crowdy_cpp.Session.Chunk.{ChunkData}
use crowdy_cpp.Session.Outcome.{GraphQlOutcome}
use crowdy_cpp.Session.ChunkStore.{ChunkWriteBackFailure, ChunkStore, find}
use crowdy_cpp.Session.ChunkStore.Counted.{Chunks}
use crowdy_cpp.Session.ChunkStore.WriteBack.{
  StoredChunk, WriteBack, made_at, evict, evict_found, settle, keep_persisted, keep_dropped,
  prune_written, prune_found, prune_chunk, prune_chunks, distant_chunks, attempt_write_back,
}
use crowdy_cpp.Session.ChunkStore.WriteBack.Attempt.{
  Settled, settle-Settled, keep_persisted-Cleans, keep_dropped-Cleans,
}
use crowdy_cpp.Session.ChunkStore.WriteBack.Kept.{evict-chunks, keep_retry-chunks}

-- A round at `coord` leaves every other chunk as it was.
abbrev pub Others : ChunkStore → ChunkStore → ChunkCoord → Type 0
Others s s' coord = (k : ChunkCoord) → coord ≢ k → find s' k ≡ find s k

pub evict_gone :
    (s : ChunkStore) (coord : ChunkCoord) (c : ChunkData) → find (evict s coord c) coord ≡ none
evict_gone s coord c =
    ap (lookup ChunkCoord_discrete coord) (evict-chunks s coord c)
    ∙ lookup-erase_self ChunkCoord_discrete coord s.chunks

evict-Others :
    (s : ChunkStore) (coord : ChunkCoord) (c : ChunkData) → Others s (evict s coord c) coord
evict-Others s coord c k apart =
    ap (lookup ChunkCoord_discrete k) (evict-chunks s coord c)
    ∙ lookup-erase_ne ChunkCoord_discrete coord k s.chunks apart

pub evict_found_gone :
    (s : ChunkStore) (coord : ChunkCoord) → find (evict_found s coord).1 coord ≡ none
evict_found_gone s coord = elim (Option-cases (find s coord)) [
  | inl absent ↦ rw (evict_found, absent) absent
  | inr (c, found) ↦ rw (evict_found, found) (evict_gone s coord c)
]

evict_found-Others :
    (s s' : ChunkStore) (coord : ChunkCoord)
    → Others s s' coord
    → Others s (evict_found s' coord).1 coord
evict_found-Others s s' coord others = elim (Option-cases (find s' coord)) [
  | inl absent ↦ rw (evict_found, absent) others
  | inr (c, found) ↦
      rw (evict_found, found) (λ k apart. evict-Others s' coord c k apart ∙ others k apart)
]

module _ {S : Type 0} (write_chunk : S → ChunkCoord → Bytes → GraphQlOutcome × S)
    (chunks_around : S → ChunkCoord → ℤ → List StoredChunk × S) where
  prune_written-Others :
      (s : ChunkStore) (coord : ChunkCoord) (c : ChunkData) (now : ℤ) (source : S)
      (r : WriteBack × List ChunkWriteBackFailure × ChunkStore)
      → Settled s coord c now r
      → Others s (prune_written write_chunk chunks_around coord (r, source)).2 coord
  prune_written-Others s coord c now source _ Settled.persists =
      evict_found-Others s (keep_persisted s coord c) coord (keep_persisted-Cleans s coord c).others
  prune_written-Others s coord c now source _ (Settled.retries less) = λ k apart.
      ap (lookup ChunkCoord_discrete k) (keep_retry-chunks s c (made_at s c.coord + 1) now)
  prune_written-Others s coord c now source _ (Settled.drops failure) =
      evict_found-Others s (keep_dropped s coord c failure) coord
        (keep_dropped-Cleans s coord c failure).others

  prune_found-Others :
      (source : Option S) (s : ChunkStore) (coord : ChunkCoord) (c : ChunkData) (dirty : Bool)
      → Others s (prune_found write_chunk chunks_around source s coord c dirty).2 coord
  unfolding attempt_write_back
  prune_found-Others none s coord c dirty = evict-Others s coord c
  prune_found-Others (some source) s coord c false = evict-Others s coord c
  prune_found-Others (some source) s coord c true =
      let out = (write_chunk source c.coord c.voxels).0 in
      prune_written-Others s coord c s.last_tick_ms (write_chunk source c.coord c.voxels).1
        (settle out s coord c s.last_tick_ms) (settle-Settled out s coord c s.last_tick_ms)

  pub prune_chunk-Others :
      (source : Option S) (s : ChunkStore) (coord : ChunkCoord)
      → Others s (prune_chunk write_chunk chunks_around source s coord).2 coord
  unfolding prune_chunk
  prune_chunk-Others source s coord = elim (Option-cases (find s coord)) [
    | inl absent ↦ rw (prune_chunk, absent) (λ k apart. refl)
    | inr (c, found) ↦ rw (prune_chunk, found) (prune_found-Others source s coord c c.dirty)
  ]

  -- What the rounds over `coords` leave.
  pub prune_chunks-others :
      (coords : List ChunkCoord) (source : Option S) (s : ChunkStore) (k : ChunkCoord)
      → (Memᴰ k coords → ⊥)
      → find (prune_chunks write_chunk chunks_around source s coords).2 k ≡ find s k
  unfolding prune_chunks
  prune_chunks-others [] source s k out = refl
  prune_chunks-others (coord ∷ coords) source s k out =
      let (evicted, source', s') = prune_chunk write_chunk chunks_around source s coord in
      prune_chunks-others coords source' s' k (λ m. out (Memᴰ.tail m))
      ∙ prune_chunk-Others source s coord k (λ same. out (Memᴰ.head (sym same)))

-- The chunks collected are those found farther than `distance`.
pub distant_chunks-far :
    (center : ChunkCoord) (distance : ℤ) (chunks : Chunks) (k : ChunkCoord)
    → Memᴰ k (distant_chunks center distance chunks)
    → ltbℤ distance (chebyshev k center) ≡ true
unfolding distant_chunks
distant_chunks-far center distance [] k m = absurd (Memᴰ.not-nil m)
distant_chunks-far center distance ((j, c) ∷ chunks) k m =
    elim (Bool-cases (ltbℤ distance (chebyshev j center))) [
      | inr near ↦ distant_chunks-far center distance chunks k (rw (distant_chunks, near) at m)
      | inl far ↦ elim (Memᴰ.cases_cons (rw (distant_chunks, far) at m)) [
        | inl here ↦ ap (λ x. ltbℤ distance (chebyshev x center)) here ∙ far
        | inr later ↦ distant_chunks-far center distance chunks k later
      ]
    ]

pub distant_chunks-Memᴰ :
    (center : ChunkCoord) (distance : ℤ) (chunks : Chunks) (k : ChunkCoord) (c : ChunkData)
    → lookup ChunkCoord_discrete k chunks ≡ some c
    → ltbℤ distance (chebyshev k center) ≡ true
    → Memᴰ k (distant_chunks center distance chunks)
unfolding distant_chunks lookup
distant_chunks-Memᴰ center distance [] k c found far = absurd (cc found)
distant_chunks-Memᴰ center distance ((j, d) ∷ chunks) k c found far =
    elim (ChunkCoord_discrete j k) [
      | yes same ↦
          rw (ap (λ x. ltbℤ distance (chebyshev x center)) same ∙ far) (Memᴰ.head (sym same))
      | no apart ↦
          let later =
            distant_chunks-Memᴰ center distance chunks k c
              (sym (lookup_further ChunkCoord_discrete k j d chunks apart) ∙ found) far in
          elim (Bool-cases (ltbℤ distance (chebyshev j center))) [
            | inl j_far ↦ rw j_far (Memᴰ.tail later)
            | inr j_near ↦ rw j_near later
          ]
    ]
