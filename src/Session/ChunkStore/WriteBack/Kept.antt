-- ===== src/Session/ChunkStore/WriteBack/Kept.antt =====
-- Write-backs, loads and evictions of ChunkStore (include/crowdy/session/chunk_store.hpp and
-- src/session/world_session.cpp) keep its chunks and counter right.
use crowdy_cpp.Base.{
  ℕ, ◌≡◌, inl, inr, refl, sym, ◌∙◌, subst, Bool, true, false, some, List, [], ◌∷◌, length, ◌==◌,
  if◌then◌else◌, Bool-cases, arith,
}
use crowdy_cpp.Base.Int.{ℤ}
use crowdy_cpp.Base.Maps.{insert, erase}
use crowdy_cpp.Wire.Spatial.{ChunkCoord}
use crowdy_cpp.Session.Keys.{ChunkCoord_discrete, fits_position}
use crowdy_cpp.Session.Chunk.{ChunkData, put_voxel}
use crowdy_cpp.Session.Chunk.View.{put_voxel-size, put_voxel-coord}
use crowdy_cpp.Session.Outcome.{GraphQlOutcome}
use crowdy_cpp.Session.ChunkStore.{
  ChunkWriteBackFailure, ChunkStore, find, or_empty, recount, touch,
}
use crowdy_cpp.Session.ChunkStore.WriteBack.{
  StoredVoxelState, StoredChunk, WriteBack, forget_write_back, keep_persisted, keep_retry,
  keep_dropped, settle, evict, put_stored, hydrate_chunk, hydrate_chunks,
}
use crowdy_cpp.Session.ChunkStore.WriteBack.Attempt.{Settled, settle-Settled}
use crowdy_cpp.Session.ChunkStore.Counted.{IsCounted, IsStore, erase-IsCounted, found-was_dirty}
use crowdy_cpp.Session.ChunkStore.Counted.Edited.{put_back, or_empty-size}

module _ (s : ChunkStore) (coord : ChunkCoord) (c : ChunkData) (h : IsStore s)
    (found : find s coord ≡ some c) where
  Settled-IsStore :
      (now : ℤ) (r : WriteBack × List ChunkWriteBackFailure × ChunkStore)
      → Settled s coord c now r
      → IsStore r.2
  unfolding keep_persisted keep_retry keep_dropped forget_write_back touch
  Settled-IsStore now _ Settled.persists =
      put_back s coord (record c { stored_on_server = true }) false h (h.coord coord c found)
        (h.size coord c found) (found-was_dirty s.chunks s.pending_write_backs h coord c found)
  Settled-IsStore now _ (Settled.retries less) = h
  Settled-IsStore now _ (Settled.drops failure) =
      put_back s coord c false h (h.coord coord c found) (h.size coord c found)
        (found-was_dirty s.chunks s.pending_write_backs h coord c found)

  -- An attempt to write a chunk back, whatever the source answers.
  pub settle-IsStore : (out : GraphQlOutcome) (now : ℤ) → IsStore (settle out s coord c now).2
  settle-IsStore out now =
      Settled-IsStore now (settle out s coord c now) (settle-Settled out s coord c now)

  pub evict-IsStore : IsStore (evict s coord c)
  unfolding evict forget_write_back
  evict-IsStore =
      let was = found-was_dirty s.chunks s.pending_write_backs h coord c found in
      let erased = erase-IsCounted s.chunks s.pending_write_backs h coord in
      let erased' : IsCounted (erase ChunkCoord_discrete coord s.chunks)
          (recount s.pending_write_backs c.dirty false) =
        subst
          (λ b.
            IsCounted (erase ChunkCoord_discrete coord s.chunks)
              (recount s.pending_write_backs b false))
          (sym was) erased in
      elim (Bool-cases c.dirty) [
        | inl dirty ↦ rw (evict, dirty) (rw dirty at erased')
        | inr clean ↦ rw (evict, clean) (rw clean at erased')
      ]

-- A chunk filled with stored entries keeps its coordinate, flag and size.
put_stored_lem :
    (c : ChunkData) (entries : List StoredVoxelState)
    → ((put_stored c entries).coord ≡ c.coord)
      × ((put_stored c entries).dirty ≡ c.dirty)
      × (length (put_stored c entries).voxels ≡ length c.voxels)
unfolding put_stored
put_stored_lem c [] = (refl, refl, refl)
put_stored_lem c (entry ∷ entries) = elim (Bool-cases (fits_position entry.position)) [
  | inl fits ↦
      let (coord, dirty, size) = put_stored_lem (put_voxel c entry.position entry.voxel) entries in
      let (coord', dirty') = put_voxel-coord c entry.position entry.voxel in
      rw fits (coord ∙ coord', dirty ∙ dirty', size ∙ put_voxel-size c entry.position entry.voxel)
  | inr far ↦ rw far (put_stored_lem c entries)
]

recount_same : (pending : ℕ) (b : Bool) → recount pending b b ≡ pending
recount_same pending true = refl
recount_same pending false = refl

-- A chunk is put back with its flag as it was.
put_kept :
    (s : ChunkStore) (coord : ChunkCoord) (c : ChunkData)
    → IsStore s
    → c.coord ≡ coord
    → length c.voxels ≡ 4096
    → c.dirty ≡ (or_empty (find s coord)).dirty
    → IsCounted (insert ChunkCoord_discrete coord c s.chunks) s.pending_write_backs
put_kept s coord c h at_coord size same =
    subst (IsCounted (insert ChunkCoord_discrete coord c s.chunks))
      (recount_same s.pending_write_backs c.dirty) (put_back s coord c c.dirty h at_coord size same)

pub hydrate_chunk-IsStore :
    (s : ChunkStore) (stored : StoredChunk) (now : ℤ)
    → IsStore s
    → IsStore (hydrate_chunk s stored now)
unfolding hydrate_chunk touch
hydrate_chunk-IsStore s stored now h =
    let old = or_empty (find s stored.coord) in
    let c : ChunkData = record old {
      coord = stored.coord;
      stored_on_server = true;
      hydrated_at_ms = now;
    } in
    let filled : ChunkData =
      if length stored.voxels == length c.voxels then record c { voxels = stored.voxels } else c in
    let (at_coord, same, size) = put_stored_lem filled stored.voxel_states in
    let old_size = or_empty-size s stored.coord h in
    let filled_lem : (filled.coord ≡ stored.coord)
        × (filled.dirty ≡ old.dirty)
        × (length filled.voxels ≡ length old.voxels) =
      ground (arith, old_size) in
    put_kept s stored.coord (put_stored filled stored.voxel_states) h (at_coord ∙ filled_lem.0)
      (size ∙ filled_lem.2 ∙ old_size) (same ∙ filled_lem.1)

pub hydrate_chunks-IsStore :
    (stored : List StoredChunk) (s : ChunkStore) (now : ℤ)
    → IsStore s
    → IsStore (hydrate_chunks s stored now)
unfolding hydrate_chunks
hydrate_chunks-IsStore [] s now h = h
hydrate_chunks-IsStore (c ∷ stored) s now h =
    hydrate_chunks-IsStore stored (hydrate_chunk s c now) now (hydrate_chunk-IsStore s c now h)

pub evict-chunks :
    (s : ChunkStore) (coord : ChunkCoord) (c : ChunkData)
    → (evict s coord c).chunks ≡ erase ChunkCoord_discrete coord s.chunks
unfolding evict forget_write_back
evict-chunks s coord c = elim (Bool-cases c.dirty) [
  | inl dirty ↦ rw (evict, dirty) refl
  | inr clean ↦ rw (evict, clean) refl
]

pub keep_retry-chunks :
    (s : ChunkStore) (c : ChunkData) (attempts : ℕ) (now : ℤ)
    → (keep_retry s c attempts now).chunks ≡ s.chunks
unfolding keep_retry
keep_retry-chunks s c attempts now = refl
