-- ===== src/Session/ChunkStore/Counted/Edited.antt =====
-- The edits of ChunkStore (include/crowdy/session/chunk_store.hpp) keep its chunks and counter right.
use crowdy_cpp.Base.{
  ℕ, ◌≡◌, inl, inr, refl, sym, ◌∙◌, subst, Bool, true, false, ◌&&◌, length, length-replicate,
  if◌then◌else◌, Bool-cases, Option-cases,
}
use crowdy_cpp.Base.Maps.{insert}
use crowdy_cpp.Core.Le.{Bytes}
use crowdy_cpp.Wire.Spatial.{ChunkCoord}
use crowdy_cpp.Session.Keys.{Position, ChunkCoord_discrete}
use crowdy_cpp.Session.Chunk.{VoxelState, ChunkData, put_voxel}
use crowdy_cpp.Session.Chunk.View.{put_voxel-size, put_voxel-coord}
use crowdy_cpp.Session.ChunkStore.{
  ChunkStore, find, or_empty, recount, touch, writes_back, mark_dirty, insert_generated,
  apply_local, no_voxels,
}
use crowdy_cpp.Session.ChunkStore.Counted.{IsCounted, IsStore, put-IsCounted, found-was_dirty}

pub no_voxels-size : length no_voxels ≡ 4096
unfolding no_voxels
no_voxels-size = length-replicate {A = ℕ} 4096 0

-- The chunk that `chunks_[coord]` gives has the full size.
pub or_empty-size :
    (s : ChunkStore) (coord : ChunkCoord)
    → IsStore s
    → length (or_empty (find s coord)).voxels ≡ 4096
or_empty-size s coord h = elim (Option-cases (find s coord)) [
  | inl absent ↦ rw absent no_voxels-size
  | inr (c, found) ↦ rw found (h.size coord c found)
]

-- The chunk `c` with its flag set to `b` is put back at `coord`, and the change is announced.
pub put_back :
    (s : ChunkStore) (coord : ChunkCoord) (c : ChunkData) (b : Bool)
    → IsStore s
    → c.coord ≡ coord
    → length c.voxels ≡ 4096
    → c.dirty ≡ (or_empty (find s coord)).dirty
    → IsCounted
        (insert ChunkCoord_discrete coord (record c { dirty = b }) s.chunks)
        (recount s.pending_write_backs c.dirty b)
put_back s coord c b h at_coord size same =
    subst
      (λ d.
        IsCounted (insert ChunkCoord_discrete coord (record c { dirty = b }) s.chunks)
          (recount s.pending_write_backs d b))
      (sym same)
      (put-IsCounted s.chunks s.pending_write_backs h coord (record c { dirty = b }) at_coord size)

pub apply_local-IsStore :
    (s : ChunkStore) (coord : ChunkCoord) (p : Position) (v : VoxelState) (mark : Bool)
    → IsStore s
    → IsStore (apply_local s coord p v mark)
unfolding apply_local touch
apply_local-IsStore s coord p v mark h =
    let c : ChunkData = record (or_empty (find s coord)) { coord = coord } in
    let (at_coord, same) = put_voxel-coord c p v in
    put_back s coord (put_voxel c p v) _ h at_coord (put_voxel-size c p v ∙ or_empty-size s coord h)
      same

pub insert_generated-IsStore :
    (s : ChunkStore) (coord : ChunkCoord) (voxels : Bytes)
    → length voxels ≡ 4096
    → IsStore s
    → IsStore (insert_generated s coord voxels)
unfolding insert_generated touch
insert_generated-IsStore s coord voxels size h =
    put_back s coord
      (record (or_empty (find s coord)) {
        coord = coord;
        voxels = voxels;
        stored_on_server = false;
      })
      (writes_back s) h refl size refl

pub mark_dirty-IsStore :
    (s : ChunkStore) (coord : ChunkCoord) → IsStore s → IsStore (mark_dirty s coord)
unfolding mark_dirty touch
mark_dirty-IsStore s coord h = elim (Option-cases (find s coord)) [
  | inl absent ↦ rw (mark_dirty, absent) h
  | inr (c, found) ↦ elim (Bool-cases (writes_back s && (if c.dirty then false else true))) [
    | inr skipped ↦ rw (mark_dirty, found, skipped) h
    | inl marked ↦
        rw (mark_dirty, found, marked)
          (put_back s coord c true h (h.coord coord c found) (h.size coord c found)
            (found-was_dirty s.chunks s.pending_write_backs h coord c found))
  ]
]
