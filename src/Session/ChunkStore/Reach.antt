-- ===== src/Session/ChunkStore/Reach.antt =====
-- The states of ChunkStore (include/crowdy/session/chunk_store.hpp) that its public operations reach.
use crowdy_cpp.Base.{ℕ, ◌≡◌, refl, Bool, Option, some, List, length}
use crowdy_cpp.Base.Int.{ℤ}
use crowdy_cpp.Base.Maps.{lookup}
use crowdy_cpp.Core.Le.{Bytes}
use crowdy_cpp.Core.Result.{Result}
use crowdy_cpp.Wire.Spatial.{ChunkCoord}
use crowdy_cpp.Session.Keys.{Position}
use crowdy_cpp.Session.Chunk.{VoxelState}
use crowdy_cpp.Session.Outcome.{GraphQlOutcome}
use crowdy_cpp.Session.ChunkStore.{ChunkStore, chunk_store, mark_dirty, insert_generated}
use crowdy_cpp.Session.ChunkStore.Edits.{SpatialNotification, set_voxel, ingest}
use crowdy_cpp.Session.ChunkStore.Edits.Restored.{set_voxel-IsStore, ingest-IsStore}
use crowdy_cpp.Session.ChunkStore.WriteBack.{
  StoredChunk, Flushing, flush_from, tick, prune_beyond, ensure_around,
}
use crowdy_cpp.Session.ChunkStore.WriteBack.Passes.{
  flush_from-IsStore, tick-IsStore, prune_beyond-IsStore, ensure_around-IsStore,
}
use crowdy_cpp.Session.ChunkStore.Counted.{IsStore, dirty_count}
use crowdy_cpp.Session.ChunkStore.Counted.Edited.{mark_dirty-IsStore, insert_generated-IsStore}

module _ {S : Type 0} (write_chunk : S → ChunkCoord → Bytes → GraphQlOutcome × S)
    (chunks_around : S → ChunkCoord → ℤ → List StoredChunk × S) where
  -- One call of an operation, with any arguments, clock readings and answers.
  pub data Step : ChunkStore → ChunkStore → Type 0 where
    edits :
        {s : ChunkStore} (sent : Result ℕ) (coord : ChunkCoord) (p : Position) (v : VoxelState)
        (uuid : Bytes) (optimistic : Bool) (now : ℤ)
        → Step s (set_voxel s sent coord p v uuid optimistic now).1
    ingests :
        {s : ChunkStore} (n : SpatialNotification) (p : Position) (v : VoxelState) (now : ℤ)
        → Step s (ingest s n p v now).1
    marks : {s : ChunkStore} (coord : ChunkCoord) → Step s (mark_dirty s coord)
    generates :
        {s : ChunkStore} (coord : ChunkCoord) (voxels : Bytes)
        → length voxels ≡ 4096
        → Step s (insert_generated s coord voxels)
    flushes :
        {s : ChunkStore} (source : S) (f : Flushing S)
        → flush_from write_chunk chunks_around source s ≡ some f
        → Step s f.store
    ticks :
        {s : ChunkStore} (source : Option S) (now : ℤ)
        → Step s (tick write_chunk chunks_around source s now).1
    prunes :
        {s : ChunkStore} (source : Option S) (center : ChunkCoord) (distance : ℤ)
        → Step s (prune_beyond write_chunk chunks_around source s center distance).2
    loads :
        {s : ChunkStore} (source : Option S) (center : ChunkCoord) (distance now : ℤ)
        → Step s (ensure_around write_chunk chunks_around source s center distance now).2

  -- The states of a store from its construction on.
  pub data Reachable : ChunkStore → Type 0 where
    fresh :
        (interval_ms : ℤ) (send_distance attempts backoff_ms : ℕ)
        → Reachable (chunk_store interval_ms send_distance attempts backoff_ms)
    after : {s s' : ChunkStore} → Reachable s → Step s s' → Reachable s'

  Step-IsStore : (s s' : ChunkStore) → Step s s' → IsStore s → IsStore s'
  Step-IsStore s _ (Step.edits sent coord p v uuid optimistic now) h =
      set_voxel-IsStore s sent coord p v uuid optimistic now h
  Step-IsStore s _ (Step.ingests n p v now) h = ingest-IsStore s n p v now h
  Step-IsStore s _ (Step.marks coord) h = mark_dirty-IsStore s coord h
  Step-IsStore s _ (Step.generates coord voxels size) h =
      insert_generated-IsStore s coord voxels size h
  Step-IsStore s _ (Step.flushes source f ends) h =
      flush_from-IsStore write_chunk chunks_around source s f h ends
  Step-IsStore s _ (Step.ticks source now) h = tick-IsStore write_chunk chunks_around source s now h
  Step-IsStore s _ (Step.prunes source center distance) h =
      prune_beyond-IsStore write_chunk chunks_around source s center distance h
  Step-IsStore s _ (Step.loads source center distance now) h =
      ensure_around-IsStore write_chunk chunks_around source s center distance now h

  -- In every state that the store reaches from its construction by its public operations, whatever
  -- its source, the connection and the clock answer: no coordinate has two chunks, each chunk stands
  -- under its own coordinate with 4096 voxels, and the counter of pending write-backs is the number
  -- of dirty chunks modulo 2^64.
  pub Reachable-IsStore : (s : ChunkStore) → Reachable s → IsStore s
  unfolding chunk_store dirty_count lookup
  Reachable-IsStore _ (Reachable.fresh interval_ms send_distance attempts backoff_ms) = record {
    distinct = tt;
    coord = λ k c found. absurd (cc found);
    size = λ k c found. absurd (cc found);
    count = refl;
  }
  Reachable-IsStore _ (Reachable.after {s} {s'} before step) =
      Step-IsStore s s' step (Reachable-IsStore s before)
