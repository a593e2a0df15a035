-- ===== src/Session/ChunkStore/WriteBack/Loaded.antt =====
-- ChunkStore::ensureAround (src/session/world_session.cpp): what a stored chunk's entries make of the
-- voxels.
use crowdy_cpp.Base.{◌≡◌, inl, inr, true, List, [], ◌∷◌, Bool-cases, if◌then◌else◌, arith}
use crowdy_cpp.Base.Int.{ℤ, pos, negsuc, lebℤ, IsI16}
use crowdy_cpp.Session.Keys.{Position, fits_position}
use crowdy_cpp.Session.Keys.Injective.{IsPosition}
use crowdy_cpp.Session.Chunk.{VoxelState, ChunkData, put_voxel}
use crowdy_cpp.Session.Chunk.View.{Shows, update, put_voxel-Shows}
use crowdy_cpp.Session.ChunkStore.WriteBack.{StoredVoxelState, put_stored}

-- The map with the entries of 16-bit positions put over it, the later over the earlier.
unfoldable pub overlaid : (Position → VoxelState) → List StoredVoxelState → Position → VoxelState
overlaid f [] = f
overlaid f (entry ∷ entries) =
    if fits_position entry.position
    then overlaid (update f entry.position entry.voxel) entries
    else overlaid f entries

fits_position-IsPosition : (p : Position) → fits_position p ≡ true → IsPosition p
fits_position-IsPosition p e = (
  side p.x (ground (arith, e)) (ground (arith, e)),
  (
    side p.y (ground (arith, e)) (ground (arith, e)),
    side p.z (ground (arith, e)) (ground (arith, e)),
  ),
)
  where
    side : (v : ℤ) → lebℤ (negsuc 32767) v ≡ true → lebℤ v (pos 32767) ≡ true → IsI16 v
    side (pos n) lo hi = ground (arith, hi)
    side (negsuc n) lo hi = ground (arith, lo)

-- Applying the entries of a stored chunk puts them over the map of voxels that the chunk shows, the
-- later over the earlier, and leaves every other voxel; entries outside 16 bits are skipped.
pub put_stored-Shows :
    (entries : List StoredVoxelState) (c : ChunkData) (f : Position → VoxelState)
    → Shows c f
    → Shows (put_stored c entries) (overlaid f entries)
unfolding put_stored overlaid
put_stored-Shows [] c f h = h
put_stored-Shows (entry ∷ entries) c f h = elim (Bool-cases (fits_position entry.position)) [
  | inl fits ↦ rw fits (
      put_stored-Shows entries (put_voxel c entry.position entry.voxel)
        (update f entry.position entry.voxel)
        (put_voxel-Shows c f entry.position entry.voxel
          (fits_position-IsPosition entry.position fits) h))
  | inr far ↦ rw far (put_stored-Shows entries c f h)
]
