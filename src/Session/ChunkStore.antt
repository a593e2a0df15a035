-- ===== src/Session/ChunkStore.antt =====
-- ChunkStore of include/crowdy/session/chunk_store.hpp: its state, and the edits that change cached
-- chunks. The callbacks are the logs `changed` and `failed`, newest first, and do not call back into
-- the store; the clock's readings and the connection's answers are arguments.
pub mod Edits
pub mod WriteBack
pub mod Counted
pub mod Reach
mod Examples
use crowdy_cpp.Base.{
  map, ℕ, ◌+◌, ◌-◌, ◌%◌, ◌^◌, Bool, true, false, ◌&&◌, Option, none, some, List, [], ◌∷◌, length,
  replicate, if◌then◌else◌,
}
use crowdy_cpp.Base.Int.{ℤ, pos, ltbℤ}
use crowdy_cpp.Base.Maps.{lookup, insert, erase}
use crowdy_cpp.Core.Le.{Bytes}
use crowdy_cpp.Wire.Spatial.{ChunkCoord}
use crowdy_cpp.Session.Keys.{Position, ChunkCoord_discrete, chunk_volume}
use crowdy_cpp.Session.Chunk.{VoxelState, ChunkData, put_voxel, voxel_type_in, voxel_state_in}
use crowdy_cpp.Session.Outcome.{GraphQlOutcome}

pub record PendingEdit : Type 0 where
  pub uuid : Bytes
  pub sequence : ℕ
  pub sent_at_ms : ℤ
  pub stale : Bool

pub data ChunkWriteBackDrop : Type 0 where
  refused exhausted : ChunkWriteBackDrop

pub record ChunkWriteBackFailure : Type 0 where
  pub coord : ChunkCoord
  pub reason : ChunkWriteBackDrop
  pub attempts : ℕ
  pub error : GraphQlOutcome

pub record ChunkStore : Type 0 where
  pub write_back_interval_ms : ℤ
  pub voxel_send_distance : ℕ
  pub write_back_attempts : ℕ
  pub write_back_backoff_ms : ℕ
  pub chunks : List (ChunkCoord × ChunkData)
  pub attempts_made : List (ChunkCoord × ℕ)
  pub due_at : List (ChunkCoord × ℤ)
  pub last_write_back_ms : ℤ
  pub last_tick_ms : ℤ
  pub pending : List (ChunkCoord × List (ℕ × List PendingEdit))
  pub revision : ℕ
  pub pending_write_backs : ℕ
  pub changed : List ChunkData
  pub failed : List ChunkWriteBackFailure

-- The constructor, with its options.
pub chunk_store : ℤ → ℕ → ℕ → ℕ → ChunkStore
chunk_store interval_ms send_distance attempts backoff_ms = record {
  write_back_interval_ms = interval_ms;
  voxel_send_distance = send_distance;
  write_back_attempts = attempts;
  write_back_backoff_ms = backoff_ms;
  chunks = [];
  attempts_made = [];
  due_at = [];
  last_write_back_ms = pos 0;
  last_tick_ms = pos 0;
  pending = [];
  revision = 0;
  pending_write_backs = 0;
  changed = [];
  failed = [];
}

pub no_voxels : Bytes
no_voxels = replicate chunk_volume 0

-- A chunk as `chunks_[coord]` makes it.
abbrev pub empty_chunk : ChunkData
empty_chunk = record {
  coord = record { x = pos 0; y = pos 0; z = pos 0 };
  voxels = no_voxels;
  voxel_states = [];
  overlay = [];
  stored_on_server = false;
  dirty = false;
  hydrated_at_ms = pos 0;
}

-- `chunks_.find(coord)`
abbrev pub find : ChunkStore → ChunkCoord → Option ChunkData
find s coord = lookup ChunkCoord_discrete coord s.chunks

-- `chunks_[coord]`
abbrev pub or_empty : Option ChunkData → ChunkData
or_empty none = empty_chunk
or_empty (some c) = c

-- What is written through a reference to the chunk at `coord`.
abbrev pub with_chunk : ChunkStore → ChunkCoord → ChunkData → ChunkStore
with_chunk s coord c = record s { chunks = insert ChunkCoord_discrete coord c s.chunks }

-- The counter of dirty chunks, a word of 64 bits, when one chunk's flag goes from `old` to `new`.
abbrev pub recount : ℕ → Bool → Bool → ℕ
recount n true true = n
recount n false false = n
recount n false true = (n + 1) % 2 ^ 64
recount n true false = (n + 2 ^ 64 - 1) % 2 ^ 64

-- `setDirty` on the chunk `c`, which the caller writes back.
abbrev pub set_dirty : ChunkStore → ChunkData → Bool → ChunkStore × ChunkData
set_dirty s c dirty = (
  record s { pending_write_backs = recount s.pending_write_backs c.dirty dirty },
  record c { dirty = dirty },
)

pub touch : ChunkStore → ChunkData → ChunkStore
touch s c = record s { revision = (s.revision + 1) % 2 ^ 64; changed = c ∷ s.changed }

-- `options_.writeBackIntervalMs > 0`
abbrev pub writes_back : ChunkStore → Bool
writes_back s = ltbℤ (pos 0) s.write_back_interval_ms

pub voxel_type_at : ChunkStore → ChunkCoord → Position → ℤ
voxel_type_at s coord p = elim (find s coord) [ none ↦ pos 0 | some c ↦ voxel_type_in c p ]

pub voxel_state_at : ChunkStore → ChunkCoord → Position → Option VoxelState
voxel_state_at s coord p = elim (find s coord) [ none ↦ none | some c ↦ voxel_state_in c p ]

pub mark_dirty : ChunkStore → ChunkCoord → ChunkStore
mark_dirty s coord = elim (find s coord) [
  | none ↦ s
  | some c ↦
      if writes_back s && (if c.dirty then false else true)
      then (let (s', c') = set_dirty s c true in touch (with_chunk s' coord c') c')
      else s
]

pub insert_generated : ChunkStore → ChunkCoord → Bytes → ChunkStore
insert_generated s coord voxels =
    let c = record (or_empty (find s coord)) {
      coord = coord;
      voxels = voxels;
      stored_on_server = false;
    } in
    let (s', c') = set_dirty s c (writes_back s) in touch (with_chunk s' coord c') c'

pub seed : ChunkStore → ChunkCoord → Bytes → ChunkStore
seed s coord voxels = insert_generated s coord voxels

-- The cached chunks.
pub list : ChunkStore → List ChunkData
list s = map (λ entry. entry.1) s.chunks

pub apply_local : ChunkStore → ChunkCoord → Position → VoxelState → Bool → ChunkStore
apply_local s coord p v should_mark_dirty =
    let c = put_voxel (record (or_empty (find s coord)) { coord = coord }) p v in
    let (s', c') = set_dirty s c (if should_mark_dirty && writes_back s then true else c.dirty) in
    touch (with_chunk s' coord c') c'
