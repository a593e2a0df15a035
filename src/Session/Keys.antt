-- ===== src/Session/Keys.antt =====
-- include/crowdy/session/keys.hpp, and the positions and keys of voxels in
-- include/crowdy/session/chunk_store.hpp.
pub mod Injective
use crowdy_cpp.Base.{ℕ, ◌+◌, ◌*◌, ◌^◌, Bool, ◌&&◌, bit_or, if◌then◌else◌, ℕ_discrete}
use crowdy_cpp.Base.Int.{ℤ, pos, negsuc, pos_part, lebℤ, ltbℤ, ◌-ℤ◌, word16}
use crowdy_cpp.Wire.Spatial.{ChunkCoord}

abbrev pub chunk_size : ℕ
chunk_size = 16

abbrev pub chunk_volume : ℕ
chunk_volume = chunk_size * chunk_size * chunk_size

pub ℤ_discrete : Discrete ℤ
ℤ_discrete = hlevel ℕ_discrete

pub ChunkCoord_discrete : Discrete ChunkCoord
ChunkCoord_discrete = hlevel ℤ_discrete

-- The three coordinates of a voxel in its chunk.
pub record Position : Type 0 where
  pub x : ℤ
  pub y : ℤ
  pub z : ℤ

pub Position_discrete : Discrete Position
Position_discrete = hlevel ℤ_discrete

-- On coordinates inside the grid.
abbrev pub voxel_index : Position → ℕ
voxel_index p = pos_part p.x + pos_part p.y * chunk_size + pos_part p.z * chunk_size * chunk_size

-- The three coordinates, as words of 16 bits, packed into 48 bits.
pub voxel_key : Position → ℕ
voxel_key p = bit_or (bit_or (word16 p.x * 2 ^ 32) (word16 p.y * 2 ^ 16)) (word16 p.z)

-- The difference as `std::int64_t` has it where it is below 2^63; beyond, the source's overflows.
abbrev pub abs_diff : ℤ → ℤ → ℤ
abs_diff a b = if ltbℤ b a then a -ℤ b else b -ℤ a

pub chebyshev : ChunkCoord → ChunkCoord → ℤ
chebyshev a b =
    let dx = abs_diff a.x b.x in
    let dy = abs_diff a.y b.y in
    let dz = abs_diff a.z b.z in
    if ltbℤ dy dx then (if ltbℤ dz dx then dx else dz) else (if ltbℤ dz dy then dy else dz)

-- The differences of the coordinates have 64 bits.
abbrev pub no_overflow : ChunkCoord → ChunkCoord → Bool
no_overflow a b =
    ltbℤ (abs_diff a.x b.x) (pos (2 ^ 63))
    && (ltbℤ (abs_diff a.y b.y) (pos (2 ^ 63)) && ltbℤ (abs_diff a.z b.z) (pos (2 ^ 63)))

abbrev pub fits_int16 : ℤ → Bool
fits_int16 v = lebℤ (negsuc 32767) v && lebℤ v (pos 32767)

-- All three coordinates have 16 bits.
abbrev pub fits_position : Position → Bool
fits_position p = fits_int16 p.x && (fits_int16 p.y && fits_int16 p.z)

abbrev pub in_side : ℤ → Bool
in_side v = lebℤ (pos 0) v && ltbℤ v (pos chunk_size)

abbrev pub in_grid : Position → Bool
in_grid p = in_side p.x && (in_side p.y && in_side p.z)

abbrev pub fits_dense_grid : Position → ℤ → Bool
fits_dense_grid p voxel_type = in_grid p && (lebℤ (pos 0) voxel_type && lebℤ voxel_type (pos 255))
