-- ===== src/Session/ChunkStore/WriteBack.antt =====
-- How ChunkStore of include/crowdy/session/chunk_store.hpp and src/session/world_session.cpp loads
-- chunks from its source and writes dirty ones back. The source is a parameter: its state, and what
-- `writeChunk` and `chunksAround` answer in a state. A null source is `none`.
pub mod Attempt
pub mod Drained
pub mod Kept
pub mod Passes
pub mod Evictions
pub mod Fate
pub mod Fates
pub mod Loaded
use crowdy_cpp.Base.{
  ℕ, zero, suc, ◌+◌, ◌-◌, ◌*◌, ◌%◌, ◌^◌, Bool, true, false, not, ◌&&◌, Option, none, some, List, [],
  ◌∷◌, ◌++◌, length, ltb, ◌==◌, if◌then◌else◌,
}
use crowdy_cpp.Base.Int.{ℤ, pos, ltbℤ, lebℤ, ◌-ℤ◌, ◌+ℤ◌}
use crowdy_cpp.Base.Maps.{lookup, insert, erase}
use crowdy_cpp.Core.Le.{Bytes}
use crowdy_cpp.Wire.Spatial.{ChunkCoord}
use crowdy_cpp.Session.Keys.{Position, ChunkCoord_discrete, fits_position, chebyshev}
use crowdy_cpp.Session.Chunk.{VoxelState, ChunkData, put_voxel}
use crowdy_cpp.Session.Outcome.{GraphQlOutcome, outcome_ok, write_back_retryable}
use crowdy_cpp.Session.ChunkStore.{
  ChunkWriteBackDrop, ChunkWriteBackFailure, ChunkStore, find, or_empty, with_chunk, set_dirty,
  touch, writes_back,
}

pub record StoredVoxelState : Type 0 where
  pub position : Position
  pub voxel : VoxelState

pub record StoredChunk : Type 0 where
  pub coord : ChunkCoord
  pub voxels : Bytes
  pub voxel_states : List StoredVoxelState

pub data WriteBack : Type 0 where
  persisted retry dropped : WriteBack

-- The value of a counter that a map may lack.
abbrev pub count_of : Option ℕ → ℕ
count_of none = 0
count_of (some n) = n

-- Failed attempts so far, for the chunk at `coord`.
abbrev pub made_at : ChunkStore → ChunkCoord → ℕ
made_at s coord = count_of (lookup ChunkCoord_discrete coord s.attempts_made)

pub forget_write_back : ChunkStore → ChunkCoord → ChunkStore
forget_write_back s coord = record s {
  attempts_made = erase ChunkCoord_discrete coord s.attempts_made;
  due_at = erase ChunkCoord_discrete coord s.due_at;
}

-- `options_.writeBackBackoffMs << (attempts - 1)`
abbrev pub backoff : ChunkStore → ℕ → ℕ
backoff s attempts = s.write_back_backoff_ms * 2 ^ (attempts - 1)

-- A write that the source accepted: the chunk `c` at `coord` is clean and stored.
pub keep_persisted : ChunkStore → ChunkCoord → ChunkData → ChunkStore
keep_persisted s coord c =
    let (s', c') = set_dirty (forget_write_back s c.coord) c false in
    let c'' = record c' { stored_on_server = true } in touch (with_chunk s' coord c'') c''

-- A failed write that is to be tried again.
pub keep_retry : ChunkStore → ChunkData → ℕ → ℤ → ChunkStore
keep_retry s c attempts now = record s {
  attempts_made = insert ChunkCoord_discrete c.coord attempts s.attempts_made;
  due_at = insert ChunkCoord_discrete c.coord (now +ℤ pos (backoff s attempts)) s.due_at;
}

-- A failed write that is given up.
pub keep_dropped : ChunkStore → ChunkCoord → ChunkData → ChunkWriteBackFailure → ChunkStore
keep_dropped s coord c failure =
    let (s', c') = set_dirty (forget_write_back s c.coord) c false in
    let s'' = with_chunk s' coord c' in record s'' { failed = failure ∷ s''.failed }

-- `attemptWriteBack` from the source's answer on. The failures are those it copies to `dropped`.
pub settle :
    GraphQlOutcome
    → ChunkStore
    → ChunkCoord
    → ChunkData
    → ℤ
    → WriteBack × List ChunkWriteBackFailure × ChunkStore
settle out s coord c now =
    let attempts = made_at s c.coord + 1 in
    let retryable = write_back_retryable out in
    if outcome_ok out
    then (WriteBack.persisted, [], keep_persisted s coord c)
    else if retryable && ltb attempts s.write_back_attempts
    then (WriteBack.retry, [], keep_retry s c attempts now)
    else let failure : ChunkWriteBackFailure = record {
      coord = c.coord;
      reason = if retryable then ChunkWriteBackDrop.exhausted else ChunkWriteBackDrop.refused;
      attempts = attempts;
      error = out;
    } in
      (WriteBack.dropped, failure ∷ [], keep_dropped s coord c failure)

pub record ChunkFlushResult : Type 0 where
  pub persisted : ℕ
  pub dropped : List ChunkWriteBackFailure

-- `flush` between two attempts: the source, the store, the result so far, and the waits, newest
-- first.
pub record Flushing (S : Type 0) : Type 0 where
  pub source : S
  pub store : ChunkStore
  pub persisted : ℕ
  pub dropped : List ChunkWriteBackFailure
  pub waits : List ℕ

-- The dirty chunks, collected before the first write.
pub dirty_chunks : List (ChunkCoord × ChunkData) → List ChunkCoord
dirty_chunks [] = []
dirty_chunks ((coord, c) ∷ chunks) =
    let rest = dirty_chunks chunks in if c.dirty then coord ∷ rest else rest

-- Whether `tick` skips a chunk that waits out a backoff.
abbrev pub is_waiting : Option ℤ → ℤ → Bool
is_waiting none now = false
is_waiting (some due) now = ltbℤ now due

-- The first dirty chunk that is due.
pub first_due : ChunkStore → ℤ → List (ChunkCoord × ChunkData) → Option (ChunkCoord × ChunkData)
first_due s now [] = none
first_due s now ((coord, c) ∷ chunks) =
    let rest = first_due s now chunks in
    if not c.dirty
    then rest
    else if is_waiting (lookup ChunkCoord_discrete coord s.due_at) now
    then rest
    else some (coord, c)

-- The chunks farther than `distance` from `center`.
pub distant_chunks : ChunkCoord → ℤ → List (ChunkCoord × ChunkData) → List ChunkCoord
distant_chunks center distance [] = []
distant_chunks center distance ((coord, c) ∷ chunks) =
    let rest = distant_chunks center distance chunks in
    if ltbℤ distance (chebyshev coord center) then coord ∷ rest else rest

-- The eviction of the chunk `c` at `coord`.
pub evict : ChunkStore → ChunkCoord → ChunkData → ChunkStore
evict s coord c =
    let s' = if c.dirty then (set_dirty s c false).0 else s in
    let s'' = forget_write_back s' coord in
    record s'' {
      pending = erase ChunkCoord_discrete coord s''.pending;
      chunks = erase ChunkCoord_discrete coord s''.chunks;
      revision = (s''.revision + 1) % 2 ^ 64;
    }

-- The eviction after a write, which finds the chunk again.
abbrev pub evict_found : ChunkStore → ChunkCoord → Bool × ChunkStore
evict_found s coord = elim (find s coord) [ none ↦ (false, s) | some c ↦ (true, evict s coord c) ]

-- The stored entries of a chunk, applied in order; one outside 16 bits is skipped.
pub put_stored : ChunkData → List StoredVoxelState → ChunkData
put_stored c [] = c
put_stored c (entry ∷ entries) =
    if fits_position entry.position
    then put_stored (put_voxel c entry.position entry.voxel) entries
    else put_stored c entries

-- One stored chunk of `ensureAround`.
pub hydrate_chunk : ChunkStore → StoredChunk → ℤ → ChunkStore
hydrate_chunk s stored now =
    let c = record (or_empty (find s stored.coord)) {
      coord = stored.coord;
      stored_on_server = true;
      hydrated_at_ms = now;
    } in
    let filled =
      if length stored.voxels == length c.voxels then record c { voxels = stored.voxels } else c in
    let c' = put_stored filled stored.voxel_states in touch (with_chunk s stored.coord c') c'

pub hydrate_chunks : ChunkStore → List StoredChunk → ℤ → ChunkStore
hydrate_chunks s [] now = s
hydrate_chunks s (stored ∷ rest) now = hydrate_chunks (hydrate_chunk s stored now) rest now

-- The radius that the source is asked for.
pub clamp_distance : ℤ → ℤ
clamp_distance distance =
    if ltbℤ distance (pos 1) then pos 1 else if ltbℤ (pos 8) distance then pos 8 else distance

module _ {S : Type 0} (write_chunk : S → ChunkCoord → Bytes → GraphQlOutcome × S)
    (chunks_around : S → ChunkCoord → ℤ → List StoredChunk × S) where
  -- `attemptWriteBack` on the chunk `c` at `coord`.
  pub attempt_write_back :
      S
      → ChunkStore
      → ChunkCoord
      → ChunkData
      → ℤ
      → (WriteBack × List ChunkWriteBackFailure × ChunkStore) × S
  attempt_write_back source s coord c now =
      let (out, source') = write_chunk source c.coord c.voxels in
      (settle out s coord c now, source')

  -- The wait before another attempt.
  abbrev pub waits_for : ChunkStore → ChunkCoord → List ℕ
  waits_for s coord = let made = made_at s coord in if ltb 0 made then backoff s made ∷ [] else []

  -- `flush` after an attempt at `coord`.
  abbrev pub after_attempt :
      Flushing S → ChunkCoord → S → ChunkStore → List ChunkWriteBackFailure → Flushing S
  after_attempt f coord source s failures = record f {
    source = source;
    store = s;
    dropped = f.dropped ++ failures;
    waits = waits_for f.store coord ++ f.waits;
  }

  -- The end of a round: `again` is the loop's next round.
  abbrev pub end_round :
      (Flushing S → Option (Flushing S))
      → Flushing S
      → ChunkCoord
      → (WriteBack × List ChunkWriteBackFailure × ChunkStore) × S
      → Option (Flushing S)
  end_round again f coord ((WriteBack.persisted, failures, s), source) =
      some (record (after_attempt f coord source s failures) { persisted = f.persisted + 1 })
  end_round again f coord ((WriteBack.retry, failures, s), source) =
      again (after_attempt f coord source s failures)
  end_round again f coord ((WriteBack.dropped, failures, s), source) =
      some (after_attempt f coord source s failures)

  -- A round on the chunk `c` at `coord`, by its flag.
  abbrev pub dirty_round :
      (Flushing S → Option (Flushing S))
      → Flushing S
      → ChunkCoord
      → ChunkData
      → Bool
      → Option (Flushing S)
  dirty_round again f coord c false = some f
  dirty_round again f coord c true =
      end_round again f coord (attempt_write_back f.source f.store coord c f.store.last_tick_ms)

  abbrev pub found_round :
      (Flushing S → Option (Flushing S))
      → Flushing S
      → ChunkCoord
      → Option ChunkData
      → Option (Flushing S)
  found_round again f coord none = some f
  found_round again f coord (some c) = dirty_round again f coord c c.dirty

  -- The loop of `flush` over one chunk; `none` when its fuel ends.
  pub flush_chunk : ℕ → ChunkCoord → Flushing S → Option (Flushing S)
  flush_chunk zero coord f = none
  flush_chunk (suc fuel) coord f = found_round (flush_chunk fuel coord) f coord (find f.store coord)

  -- The loop of `flush` over the chunks that were dirty at its start.
  pub flush_chunks : List ChunkCoord → Flushing S → Option (Flushing S)
  flush_chunks [] f = some f
  flush_chunks (coord ∷ coords) f = elim (flush_chunk (f.store.write_back_attempts + 1) coord f) [
    | none ↦ none
    | some f' ↦ flush_chunks coords f'
  ]

  -- `flush` with a source.
  pub flush_from : S → ChunkStore → Option (Flushing S)
  flush_from source s =
      flush_chunks (dirty_chunks s.chunks)
        (record { source = source; store = s; persisted = 0; dropped = []; waits = [] })

  pub flush : Option S → ChunkStore → Option (ChunkFlushResult × Option S × ChunkStore)
  flush none s = some (record { persisted = 0; dropped = [] }, none, s)
  flush (some source) s = elim (flush_from source s) [
    | none ↦ none
    | some f ↦
        some (record { persisted = f.persisted; dropped = f.dropped }, some f.source, f.store)
  ]

  pub tick : Option S → ChunkStore → ℤ → Option S × ChunkStore
  tick none s now = (none, record s { last_tick_ms = now })
  tick (some source) s now =
      let s' = record s { last_tick_ms = now } in
      if not (writes_back s)
      then (some source, s')
      else if ltbℤ (now -ℤ s.last_write_back_ms) s.write_back_interval_ms
      then (some source, s')
      else elim (first_due s' now s'.chunks) [
        | none ↦ (some source, s')
        | some (coord, c) ↦
            let s'' = record s' { last_write_back_ms = now } in
            let ((_, _, s3), source') = attempt_write_back source s'' coord c now in
            (some source', s3)
      ]

  -- The end of a round of `pruneBeyond` that tried to write a dirty chunk.
  abbrev pub prune_written :
      ChunkCoord
      → (WriteBack × List ChunkWriteBackFailure × ChunkStore) × S
      → Bool × Option S × ChunkStore
  prune_written coord ((WriteBack.retry, failures, s), source) = (false, some source, s)
  prune_written coord ((WriteBack.persisted, failures, s), source) =
      let (evicted, s') = evict_found s coord in (evicted, some source, s')
  prune_written coord ((WriteBack.dropped, failures, s), source) =
      let (evicted, s') = evict_found s coord in (evicted, some source, s')

  -- A round on the chunk `c` at `coord`, by the source and the chunk's flag.
  abbrev pub prune_found :
      Option S → ChunkStore → ChunkCoord → ChunkData → Bool → Bool × Option S × ChunkStore
  prune_found none s coord c dirty = (true, none, evict s coord c)
  prune_found (some source) s coord c false = (true, some source, evict s coord c)
  prune_found (some source) s coord c true =
      prune_written coord (attempt_write_back source s coord c s.last_tick_ms)

  -- The round of `pruneBeyond` for one chunk; the flag says whether it was evicted.
  pub prune_chunk : Option S → ChunkStore → ChunkCoord → Bool × Option S × ChunkStore
  prune_chunk source s coord = elim (find s coord) [
    | none ↦ (false, source, s)
    | some c ↦ prune_found source s coord c c.dirty
  ]

  pub prune_chunks : Option S → ChunkStore → List ChunkCoord → ℕ × Option S × ChunkStore
  prune_chunks source s [] = (0, source, s)
  prune_chunks source s (coord ∷ coords) =
      let (evicted, source', s') = prune_chunk source s coord in
      let (count, source'', s'') = prune_chunks source' s' coords in
      (if evicted then count + 1 else count, source'', s'')

  pub prune_beyond : Option S → ChunkStore → ChunkCoord → ℤ → ℕ × Option S × ChunkStore
  prune_beyond source s center distance =
      prune_chunks source s (distant_chunks center distance s.chunks)

  -- `ensureAround`, with the count of the chunks loaded.
  pub ensure_around : Option S → ChunkStore → ChunkCoord → ℤ → ℤ → ℕ × Option S × ChunkStore
  ensure_around none s center distance now = (0, none, s)
  ensure_around (some source) s center distance now =
      let (stored, source') = chunks_around source center (clamp_distance distance) in
      (length stored, some source', hydrate_chunks s stored now)

  pub hydrate : Option S → ChunkStore → ChunkCoord → ℤ → ℕ × Option S × ChunkStore
  hydrate source s coord now = ensure_around source s coord (pos 0) now
