-- ===== src/Session/Chunk.antt =====
-- One chunk of include/crowdy/session/chunk_store.hpp: the dense grid, the states beside it, and the
-- overlay for the voxels that the grid cannot hold.
pub mod Reads
pub mod View
use crowdy_cpp.Base.{
  ℕ, ◌%◌, ◌^◌, Bool, true, false, not, ◌||◌, Option, none, some, List, [], length, get_or, set,
  ◌==◌, if◌then◌else◌, ℕ_discrete,
}
use crowdy_cpp.Base.Int.{ℤ, pos, pos_part}
use crowdy_cpp.Base.Maps.{lookup, insert, erase}
use crowdy_cpp.Core.Le.{Bytes}
use crowdy_cpp.Wire.Spatial.{ChunkCoord}
use crowdy_cpp.Session.Keys.{
  Position, voxel_index, voxel_key, fits_position, in_grid, fits_dense_grid,
}

pub record VoxelState : Type 0 where
  pub voxel_type : ℤ
  pub state : Bytes

pub record OverlayVoxel : Type 0 where
  pub position : Position
  pub voxel : VoxelState

pub record ChunkData : Type 0 where
  pub coord : ChunkCoord
  pub voxels : Bytes
  pub voxel_states : List (ℕ × VoxelState)
  pub overlay : List (ℕ × OverlayVoxel)
  pub stored_on_server : Bool
  pub dirty : Bool
  pub hydrated_at_ms : ℤ

-- `bytes.empty()`
abbrev pub is_empty : Bytes → Bool
is_empty bytes = length bytes == 0

pub overlay_at : ChunkData → Position → Option OverlayVoxel
overlay_at c p =
    if (length c.overlay == 0) || not (fits_position p)
    then none
    else lookup ℕ_discrete (voxel_key p) c.overlay

-- `voxelTypeAt` on a cached chunk.
pub voxel_type_in : ChunkData → Position → ℤ
voxel_type_in c p = elim (overlay_at c p) [
  | some wide ↦ wide.voxel.voxel_type
  | none ↦ if not (in_grid p) then pos 0 else pos (get_or c.voxels (voxel_index p) 0)
]

-- `voxelStateAt` on a cached chunk.
pub voxel_state_in : ChunkData → Position → Option VoxelState
voxel_state_in c p = elim (overlay_at c p) [
  | some wide ↦ if is_empty wide.voxel.state then none else some wide.voxel
  | none ↦ if not (in_grid p) then none else lookup ℕ_discrete (voxel_index p) c.voxel_states
]

-- The branch of `putVoxel` that writes the dense grid.
pub put_dense : ChunkData → Position → VoxelState → ChunkData
put_dense c p v =
    let index = voxel_index p in
    record c {
      overlay = erase ℕ_discrete (voxel_key p) c.overlay;
      voxels = set c.voxels index (pos_part v.voxel_type % 2 ^ 8);
      voxel_states =
          if is_empty v.state
          then erase ℕ_discrete index c.voxel_states
          else insert ℕ_discrete index v c.voxel_states;
    }

-- What `putVoxel` clears in the grid before it writes the overlay.
pub clear_dense : ChunkData → Position → ChunkData
clear_dense c p =
    let index = voxel_index p in
    if in_grid p
    then record c {
      voxels = set c.voxels index 0;
      voxel_states = erase ℕ_discrete index c.voxel_states;
    }
    else c

-- The branch of `putVoxel` that writes the overlay.
pub put_overlay : ChunkData → Position → VoxelState → ChunkData
put_overlay c p v =
    let c' = clear_dense c p in
    record c' {
      overlay = insert ℕ_discrete (voxel_key p) (record { position = p; voxel = v }) c'.overlay;
    }

pub put_voxel : ChunkData → Position → VoxelState → ChunkData
put_voxel c p v = if fits_dense_grid p v.voxel_type then put_dense c p v else put_overlay c p v
