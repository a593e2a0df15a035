-- ===== src/Session/Chunk/View.antt =====
-- A chunk as a map from positions to voxels, and what a write does to it.
use crowdy_cpp.Base.{
  ◌%◌, ◌^◌, ◌≡◌, ◌≢◌, inl, inr, refl, sym, ap, ◌∙◌, subst, true, length, length-set,
  get_or-set_self, get_or-set_ne, Bool-cases, ℕ_discrete, arith,
}
use mathlib.Core.Logic.{ite}
use crowdy_cpp.Base.Int.{ℤ, pos, negsuc, pos_part, lebℤ}
use crowdy_cpp.Base.Maps.{lookup-erase_self, lookup-erase_ne, lookup-insert_self, lookup-insert_ne}
use crowdy_cpp.Session.Keys.{
  Position, Position_discrete, voxel_key, voxel_index, in_grid, fits_dense_grid,
}
use crowdy_cpp.Session.Keys.Injective.{IsPosition, voxel_key_inj, voxel_index_inj, voxel_index-lt}
use crowdy_cpp.Session.Chunk.{
  VoxelState, ChunkData, is_empty, put_voxel, put_dense, put_overlay, clear_dense,
}
use crowdy_cpp.Session.Chunk.Reads.{
  Reads, Agree, Agree-reads, voxel_type_in_lem, voxel_state_in_lem,
}

module _ (c : ChunkData) (p : Position) (v : VoxelState) (size : length c.voxels ≡ 4096)
    (hp : IsPosition p) where
  dense_in_grid : fits_dense_grid p v.voxel_type ≡ true → in_grid p ≡ true
  dense_in_grid e = ground (arith, e)

  dense_type :
      fits_dense_grid p v.voxel_type ≡ true → pos (pos_part v.voxel_type % 2 ^ 8) ≡ v.voxel_type
  dense_type e = narrow v.voxel_type (ground (arith, e)) (ground (arith, e))
    where
      narrow :
          (t : ℤ) → lebℤ (pos 0) t ≡ true → lebℤ t (pos 255) ≡ true → pos (pos_part t % 2 ^ 8) ≡ t
      narrow (pos n) lo hi = ap pos (ground (arith, hi))
      narrow (negsuc n) lo hi = absurd (ground (arith, lo))

  put_dense-Reads : fits_dense_grid p v.voxel_type ≡ true → Reads (put_dense c p v) p v
  unfolding put_dense
  put_dense-Reads e =
      let inside = dense_in_grid e in
      let gone = lookup-erase_self ℕ_discrete (voxel_key p) c.overlay in
      let index = voxel_index p in
      let written =
        get_or-set_self c.voxels index (pos_part v.voxel_type % 2 ^ 8) 0
          (omega (arith, voxel_index-lt p inside, size)) in
      (
        voxel_type_in_lem (put_dense c p v) p hp ∙ rw (gone, inside, written) (dense_type e),
        voxel_state_in_lem (put_dense c p v) p hp
            ∙ rw (gone, inside)
                (elim (Bool-cases (is_empty v.state)) [
                  | inl empty ↦ rw empty (lookup-erase_self ℕ_discrete index c.voxel_states)
                  | inr full ↦ rw full (lookup-insert_self ℕ_discrete index v c.voxel_states)
                ]),
      )

  put_overlay-Reads : Reads (put_overlay c p v) p v
  unfolding put_overlay
  put_overlay-Reads =
      let there =
        lookup-insert_self ℕ_discrete (voxel_key p) (record { position = p; voxel = v })
          (clear_dense c p).overlay in
      (
        voxel_type_in_lem (put_overlay c p v) p hp ∙ rw there refl,
        voxel_state_in_lem (put_overlay c p v) p hp ∙ rw there refl,
      )

  module _ (q : Position) (hq : IsPosition q) (apart : p ≢ q) where
    keys_apart : voxel_key p ≢ voxel_key q
    keys_apart e = apart (voxel_key_inj p q hp hq e)

    index_apart : in_grid p ≡ true → in_grid q ≡ true → voxel_index p ≢ voxel_index q
    index_apart a b e = apart (voxel_index_inj p q a b e)

    put_dense-Agree : fits_dense_grid p v.voxel_type ≡ true → Agree c (put_dense c p v) q
    unfolding put_dense
    put_dense-Agree e = record {
      overlay = lookup-erase_ne ℕ_discrete (voxel_key p) (voxel_key q) c.overlay keys_apart;
      voxel = λ inside.
          get_or-set_ne c.voxels (voxel_index p) (voxel_index q) (pos_part v.voxel_type % 2 ^ 8) 0
            (index_apart (dense_in_grid e) inside);
      state = λ inside. elim (Bool-cases (is_empty v.state)) [
        | inl empty ↦ rw empty (
            lookup-erase_ne ℕ_discrete (voxel_index p) (voxel_index q) c.voxel_states
              (index_apart (dense_in_grid e) inside))
        | inr full ↦ rw full (
            lookup-insert_ne ℕ_discrete (voxel_index p) (voxel_index q) v c.voxel_states
              (index_apart (dense_in_grid e) inside))
      ];
    }

    clear_dense-Agree : Agree c (clear_dense c p) q
    unfolding clear_dense
    clear_dense-Agree = elim (Bool-cases (in_grid p)) [
      | inr outside ↦ rw outside (record { overlay = refl; voxel = λ i. refl; state = λ i. refl })
      | inl at ↦ rw at (record {
        overlay = refl;
        voxel = λ inside.
            get_or-set_ne c.voxels (voxel_index p) (voxel_index q) 0 0 (index_apart at inside);
        state = λ inside.
            lookup-erase_ne ℕ_discrete (voxel_index p) (voxel_index q) c.voxel_states
              (index_apart at inside);
      })
    ]

    put_overlay-Agree : Agree c (put_overlay c p v) q
    unfolding put_overlay
    put_overlay-Agree =
        let a = clear_dense-Agree in
        record {
          overlay =
              lookup-insert_ne ℕ_discrete (voxel_key p) (voxel_key q)
                (record { position = p; voxel = v }) (clear_dense c p).overlay keys_apart
              ∙ a.overlay;
          voxel = a.voxel;
          state = a.state;
        }

-- A chunk of full size holds the voxels of `f`, a map from positions to voxels.
pub record Shows (c : ChunkData) (f : Position → VoxelState) : Type 0 where
  pub size : length c.voxels ≡ 4096
  pub reads : (p : Position) → IsPosition p → Reads c p (f p)

-- The map with one voxel replaced.
abbrev pub update : (Position → VoxelState) → Position → VoxelState → Position → VoxelState
update f p v q = ite (Position_discrete p q) v (f q)

update_self :
    (f : Position → VoxelState) (p : Position) (v : VoxelState) (q : Position)
    → p ≡ q
    → update f p v q ≡ v
update_self f p v q e = ground (arith, e)

update_other :
    (f : Position → VoxelState) (p : Position) (v : VoxelState) (q : Position)
    → p ≢ q
    → update f p v q ≡ f q
update_other f p v q e = ground (arith, e)

pub put_voxel-Reads :
    (c : ChunkData) (p : Position) (v : VoxelState)
    → length c.voxels ≡ 4096
    → IsPosition p
    → Reads (put_voxel c p v) p v
unfolding put_voxel
put_voxel-Reads c p v size hp = elim (Bool-cases (fits_dense_grid p v.voxel_type)) [
  | inl dense ↦ rw dense (put_dense-Reads c p v size hp dense)
  | inr wide ↦ rw wide (put_overlay-Reads c p v size hp)
]

put_voxel-Agree :
    (c : ChunkData) (p : Position) (v : VoxelState) (q : Position)
    → length c.voxels ≡ 4096
    → IsPosition p
    → IsPosition q
    → p ≢ q
    → Agree c (put_voxel c p v) q
unfolding put_voxel
put_voxel-Agree c p v q size hp hq apart = elim (Bool-cases (fits_dense_grid p v.voxel_type)) [
  | inl dense ↦ rw dense (put_dense-Agree c p v size hp q hq apart dense)
  | inr wide ↦ rw wide (put_overlay-Agree c p v size hp q hq apart)
]

pub put_voxel-size :
    (c : ChunkData) (p : Position) (v : VoxelState)
    → length (put_voxel c p v).voxels ≡ length c.voxels
unfolding put_voxel put_dense put_overlay clear_dense
put_voxel-size c p v = ground (
  arith,
  length-set {0} c.voxels (voxel_index p) (pos_part v.voxel_type % 2 ^ 8),
  length-set {0} c.voxels (voxel_index p) 0,
)

-- A write of a voxel touches neither the coordinate nor the flag.
pub put_voxel-coord :
    (c : ChunkData) (p : Position) (v : VoxelState)
    → ((put_voxel c p v).coord ≡ c.coord) × ((put_voxel c p v).dirty ≡ c.dirty)
unfolding put_voxel put_dense put_overlay clear_dense
put_voxel-coord c p v = ground arith

-- Writing a voxel of a 16-bit position, whether the grid or the overlay takes it, replaces exactly
-- that voxel in the map that reads show.
pub put_voxel-Shows :
    (c : ChunkData) (f : Position → VoxelState) (p : Position) (v : VoxelState)
    → IsPosition p
    → Shows c f
    → Shows (put_voxel c p v) (update f p v)
put_voxel-Shows c f p v hp s = record {
  size = put_voxel-size c p v ∙ s.size;
  reads = λ q hq. elim (Position_discrete p q) [
    | yes same ↦
        subst (Reads (put_voxel c p v) q) (sym (update_self f p v q same))
          (subst (λ r. Reads (put_voxel c p v) r v) same (put_voxel-Reads c p v s.size hp))
    | no apart ↦
        let (t, st) =
          Agree-reads c (put_voxel c p v) q hq (put_voxel-Agree c p v q s.size hp hq apart) in
        subst (Reads (put_voxel c p v) q) (sym (update_other f p v q apart))
          (t ∙ (s.reads q hq).0, st ∙ (s.reads q hq).1)
  ];
}
