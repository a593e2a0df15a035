-- ===== src/Session/Keys/Injective.antt =====
-- Keys and indices tell voxels apart.
use crowdy_cpp.Base.{◌+◌, ◌*◌, ◌^◌, ◌≡◌, ◌<◌, sym, ap, ◌∙◌, true, bit_or, bit_or-add, arith}
use crowdy_cpp.Base.Int.{
  ℤ, pos, negsuc, pos_part, IsI16, word16, word16-lt, signed16, signed16-word16,
}
use crowdy_cpp.Session.Keys.{Position, voxel_key, voxel_index, in_grid, in_side}

-- Coordinates of 16 bits.
abbrev pub IsPosition : Position → Type 0
IsPosition p = IsI16 p.x × (IsI16 p.y × IsI16 p.z)

pub voxel_key-sum :
    (p : Position) → voxel_key p ≡ word16 p.x * 2 ^ 32 + word16 p.y * 2 ^ 16 + word16 p.z
unfolding voxel_key
voxel_key-sum p =
    let hy = word16-lt p.y in
    let hz = word16-lt p.z in
    let e : word16 p.x * 2 ^ 32 + word16 p.y * 2 ^ 16
        ≡ (word16 p.x * 2 ^ 16 + word16 p.y) * 2 ^ 16 =
      omega arith in
    ap (λ k. bit_or k (word16 p.z))
      (bit_or-add 32 (word16 p.x) (word16 p.y * 2 ^ 16) (omega (arith, hy)) ∙ e)
    ∙ bit_or-add 16 (word16 p.x * 2 ^ 16 + word16 p.y) (word16 p.z) hz
    ∙ omega arith

word16_inj : (a b : ℤ) → IsI16 a → IsI16 b → word16 a ≡ word16 b → a ≡ b
word16_inj a b ha hb e = sym (signed16-word16 a ha) ∙ ap signed16 e ∙ signed16-word16 b hb

-- Two voxels of 16-bit coordinates with one key are one voxel.
pub voxel_key_inj :
    (p q : Position) → IsPosition p → IsPosition q → voxel_key p ≡ voxel_key q → p ≡ q
voxel_key_inj p q hp hq e =
    let sums = sym (voxel_key-sum p) ∙ e ∙ voxel_key-sum q in
    let px = word16-lt p.x in
    let py = word16-lt p.y in
    let pz = word16-lt p.z in
    let qx = word16-lt q.x in
    let qy = word16-lt q.y in
    let qz = word16-lt q.z in
    let ex : word16 p.x ≡ word16 q.x = omega (arith, sums, px, py, pz, qx, qy, qz) in
    let ey : word16 p.y ≡ word16 q.y = omega (arith, sums, ex, py, pz, qy, qz) in
    let ez : word16 p.z ≡ word16 q.z = omega (arith, sums, ex, ey) in
    let x = word16_inj p.x q.x hp.0 hq.0 ex in
    let y = word16_inj p.y q.y hp.1.0 hq.1.0 ey in
    let z = word16_inj p.z q.z hp.1.1 hq.1.1 ez in λ i. record { x = x i; y = y i; z = z i }

pub in_side_bounds : (v : ℤ) → in_side v ≡ true → (v ≡ pos (pos_part v)) × (pos_part v < 16)
in_side_bounds (pos n) h = ground arith
in_side_bounds (negsuc n) h = ground arith

pub in_grid_sides :
    (p : Position)
    → in_grid p ≡ true
    → (in_side p.x ≡ true) × ((in_side p.y ≡ true) × (in_side p.z ≡ true))
in_grid_sides p h = ground arith

pub voxel_index-lt : (p : Position) → in_grid p ≡ true → voxel_index p < 4096
voxel_index-lt p h =
    let (hx, (hy, hz)) = in_grid_sides p h in
    omega (arith, (in_side_bounds p.x hx).1, (in_side_bounds p.y hy).1, (in_side_bounds p.z hz).1)

pub voxel_index_inj :
    (p q : Position) → in_grid p ≡ true → in_grid q ≡ true → voxel_index p ≡ voxel_index q → p ≡ q
voxel_index_inj p q hp hq e =
    let (px, (py, pz)) = in_grid_sides p hp in
    let (qx, (qy, qz)) = in_grid_sides q hq in
    let ax = in_side_bounds p.x px in
    let ay = in_side_bounds p.y py in
    let az = in_side_bounds p.z pz in
    let bx = in_side_bounds q.x qx in
    let by = in_side_bounds q.y qy in
    let bz = in_side_bounds q.z qz in
    let ex : pos_part p.x ≡ pos_part q.x = omega (arith, e, ax.1, ay.1, az.1, bx.1, by.1, bz.1) in
    let ey : pos_part p.y ≡ pos_part q.y = omega (arith, e, ex, ay.1, az.1, by.1, bz.1) in
    let ez : pos_part p.z ≡ pos_part q.z = omega (arith, e, ex, ey) in
    λ i. record {
      x = (ax.0 ∙ ap pos ex ∙ sym bx.0) i;
      y = (ay.0 ∙ ap pos ey ∙ sym by.0) i;
      z = (az.0 ∙ ap pos ez ∙ sym bz.0) i;
    }
