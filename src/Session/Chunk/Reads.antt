-- ===== src/Session/Chunk/Reads.antt =====
-- What a read of a chunk goes through.
use crowdy_cpp.Base.{
  ℕ, ◌≡◌, inl, inr, refl, sym, ◌∙◌, Bool, true, false, not, Option, none, some, List, [], ◌∷◌,
  length, get_or, Bool-cases, Option-cases, ◌==◌, if◌then◌else◌, ℕ_discrete, arith,
}
use crowdy_cpp.Base.Int.{ℤ, pos, negsuc, IsI16, lebℤ}
use crowdy_cpp.Base.Maps.{lookup}
use crowdy_cpp.Session.Keys.{Position, voxel_key, voxel_index, in_grid, fits_position}
use crowdy_cpp.Session.Keys.Injective.{IsPosition}
use crowdy_cpp.Session.Chunk.{
  VoxelState, OverlayVoxel, ChunkData, is_empty, overlay_at, voxel_type_in, voxel_state_in,
}

-- What `voxelStateAt` shows of a voxel.
abbrev pub shown : VoxelState → Option VoxelState
shown v = if is_empty v.state then none else some v

lookup_nil :
    (k : ℕ) (m : List (ℕ × OverlayVoxel)) → (length m == 0) ≡ true → lookup ℕ_discrete k m ≡ none
unfolding lookup
lookup_nil k [] e = refl
lookup_nil k (x ∷ m) e = ground (arith, e)

pub fits_position_of : (p : Position) → IsPosition p → fits_position p ≡ true
fits_position_of p h = ground (arith, fits p.x h.0, fits p.y h.1.0, fits p.z h.1.1)
  where
    fits : (v : ℤ) → IsI16 v → (lebℤ (negsuc 32767) v ≡ true) × (lebℤ v (pos 32767) ≡ true)
    fits (pos n) k = ground arith
    fits (negsuc n) k = ground arith

-- Reading the overlay is looking the key up.
pub overlay_at_lem :
    (c : ChunkData) (p : Position)
    → IsPosition p
    → overlay_at c p ≡ lookup ℕ_discrete (voxel_key p) c.overlay
unfolding overlay_at
overlay_at_lem c p h = elim (Bool-cases (length c.overlay == 0)) [
  | inl empty ↦ rw empty (sym (lookup_nil (voxel_key p) c.overlay empty))
  | inr some_voxel ↦ rw (some_voxel, fits_position_of p h) refl
]

-- A read from its parts: the overlay's entry, whether the grid has the place, and what it holds.
abbrev pub type_of : Option OverlayVoxel → Bool → ℕ → ℤ
type_of (some wide) grid n = wide.voxel.voxel_type
type_of none grid n = if not grid then pos 0 else pos n

abbrev pub state_of : Option OverlayVoxel → Bool → Option VoxelState → Option VoxelState
state_of (some wide) grid dense = shown wide.voxel
state_of none grid dense = if not grid then none else dense

-- Outside the grid the dense parts are not read.
type_of_outside : (o : Option OverlayVoxel) (n m : ℕ) → type_of o false n ≡ type_of o false m
type_of_outside (some wide) n m = refl
type_of_outside none n m = refl

state_of_outside :
    (o : Option OverlayVoxel) (s r : Option VoxelState) → state_of o false s ≡ state_of o false r
state_of_outside (some wide) s r = refl
state_of_outside none s r = refl

pub voxel_type_in_lem :
    (c : ChunkData) (p : Position)
    → IsPosition p
    → voxel_type_in c p
      ≡ type_of
          (lookup ℕ_discrete (voxel_key p) c.overlay)
          (in_grid p)
          (get_or c.voxels (voxel_index p) 0)
unfolding voxel_type_in
voxel_type_in_lem c p h = elim (Option-cases (lookup ℕ_discrete (voxel_key p) c.overlay)) [
  | inl e ↦ rw (overlay_at_lem c p h ∙ e, voxel_type_in, e) refl
  | inr (w, e) ↦ rw (overlay_at_lem c p h ∙ e, voxel_type_in, e) refl
]

pub voxel_state_in_lem :
    (c : ChunkData) (p : Position)
    → IsPosition p
    → voxel_state_in c p
      ≡ state_of
          (lookup ℕ_discrete (voxel_key p) c.overlay)
          (in_grid p)
          (lookup ℕ_discrete (voxel_index p) c.voxel_states)
unfolding voxel_state_in
voxel_state_in_lem c p h = elim (Option-cases (lookup ℕ_discrete (voxel_key p) c.overlay)) [
  | inl e ↦ rw (overlay_at_lem c p h ∙ e, voxel_state_in, e) refl
  | inr (w, e) ↦ rw (overlay_at_lem c p h ∙ e, voxel_state_in, e) refl
]

-- What a read shows.
abbrev pub Reads : ChunkData → Position → VoxelState → Type 0
Reads c p v = (voxel_type_in c p ≡ v.voxel_type) × (voxel_state_in c p ≡ shown v)

-- Two chunks that agree in the parts a read goes through.
pub record Agree (c d : ChunkData) (q : Position) : Type 0 where
  pub overlay :
      lookup ℕ_discrete (voxel_key q) d.overlay ≡ lookup ℕ_discrete (voxel_key q) c.overlay
  pub voxel :
      in_grid q ≡ true → get_or d.voxels (voxel_index q) 0 ≡ get_or c.voxels (voxel_index q) 0
  pub state :
      in_grid q ≡ true
      → lookup ℕ_discrete (voxel_index q) d.voxel_states
        ≡ lookup ℕ_discrete (voxel_index q) c.voxel_states

pub Agree-reads :
    (c d : ChunkData) (q : Position)
    → IsPosition q
    → Agree c d q
    → (voxel_type_in d q ≡ voxel_type_in c q) × (voxel_state_in d q ≡ voxel_state_in c q)
Agree-reads c d q h a = elim (Bool-cases (in_grid q)) [
  | inl inside ↦ (
    voxel_type_in_lem d q h ∙ rw (a.overlay, a.voxel inside) refl ∙ sym (voxel_type_in_lem c q h),
    voxel_state_in_lem d q h ∙ rw (a.overlay, a.state inside) refl ∙ sym (voxel_state_in_lem c q h),
  )
  | inr outside ↦ (
    voxel_type_in_lem d q h
        ∙ rw (a.overlay, outside)
            (type_of_outside (lookup ℕ_discrete (voxel_key q) c.overlay)
              (get_or d.voxels (voxel_index q) 0) (get_or c.voxels (voxel_index q) 0))
        ∙ sym (rw outside at (voxel_type_in_lem c q h)),
    voxel_state_in_lem d q h
        ∙ rw (a.overlay, outside)
            (state_of_outside (lookup ℕ_discrete (voxel_key q) c.overlay)
              (lookup ℕ_discrete (voxel_index q) d.voxel_states)
              (lookup ℕ_discrete (voxel_index q) c.voxel_states))
        ∙ sym (rw outside at (voxel_state_in_lem c q h)),
  )
]

-- The dirty flag is not read.
pub Reads-dirty :
    (c : ChunkData) (p : Position) (v : VoxelState) (b : Bool)
    → Reads c p v
    → Reads (record c { dirty = b }) p v
unfolding voxel_type_in voxel_state_in overlay_at
Reads-dirty c p v b h = h
