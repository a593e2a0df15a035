-- ===== src/Session/ChunkStore/Counted.antt =====
-- The chunks of ChunkStore (include/crowdy/session/chunk_store.hpp) and its counter of dirty ones.
pub mod Edited
use mathlib.Core.Option.{some_inj}
use crowdy_cpp.Base.{
  ℕ, ◌+◌, ◌-◌, ◌%◌, ◌^◌, ◌≡◌, ◌≢◌, inl, inr, refl, sym, ap, ◌∙◌, subst, Bool, true, false, Option,
  none, some, List, [], ◌∷◌, length, Option-cases, arith,
}
use crowdy_cpp.Base.Maps.{
  lookup, insert, erase, IsDistinct, erase-IsDistinct, insert-IsDistinct, lookup-erase,
  lookup-insert_self, lookup-insert_ne, lookup-erase_self, lookup-erase_ne, lookup_here,
  lookup_further, erase_here, erase_further, found-insert, found-erase,
}
use crowdy_cpp.Wire.Spatial.{ChunkCoord}
use crowdy_cpp.Session.Keys.{ChunkCoord_discrete}
use crowdy_cpp.Session.Chunk.{ChunkData}
use crowdy_cpp.Session.ChunkStore.{ChunkStore, or_empty, recount}

abbrev pub Chunks : Type 0
Chunks = List (ChunkCoord × ChunkData)

abbrev pub bit : Bool → ℕ
bit true = 1
bit false = 0

abbrev pub bit_of : Option ChunkData → ℕ
bit_of none = 0
bit_of (some c) = bit c.dirty

unfoldable pub dirty_count : Chunks → ℕ
dirty_count [] = 0
dirty_count ((coord, c) ∷ chunks) = bit c.dirty + dirty_count chunks

-- The chunks stand under their own coordinates, have the full size, and `pending` counts the dirty
-- ones modulo 2^64.
pub record IsCounted (chunks : Chunks) (pending : ℕ) : Type 0 where
  pub distinct : IsDistinct ChunkCoord_discrete chunks
  pub coord :
      (k : ChunkCoord) (c : ChunkData) → lookup ChunkCoord_discrete k chunks ≡ some c → c.coord ≡ k
  pub size :
      (k : ChunkCoord) (c : ChunkData)
      → lookup ChunkCoord_discrete k chunks ≡ some c
      → length c.voxels ≡ 4096
  pub count : pending ≡ dirty_count chunks % 2 ^ 64

abbrev pub IsStore : ChunkStore → Type 0
IsStore s = IsCounted s.chunks s.pending_write_backs

-- When no chunk that is found is dirty, none is counted.
pub dirty_count_none :
    (chunks : Chunks)
    → IsDistinct ChunkCoord_discrete chunks
    → ((k : ChunkCoord) (c : ChunkData)
        → lookup ChunkCoord_discrete k chunks ≡ some c
        → c.dirty ≡ false)
    → dirty_count chunks ≡ 0
unfolding dirty_count
dirty_count_none [] h clean = refl
dirty_count_none ((j, c) ∷ chunks) (absent, rest) clean =
    let first = clean j c (lookup_here ChunkCoord_discrete j j c chunks refl) in
    let others = dirty_count_none chunks rest (λ k d found.
      clean k d (elim (ChunkCoord_discrete j k) [
        | yes same ↦
            absurd (cc (subst (λ x. lookup ChunkCoord_discrete x chunks ≡ none) same absent, found))
        | no apart ↦ lookup_further ChunkCoord_discrete k j c chunks apart ∙ found
      ])) in
    rw (bit, first, others) refl

dirty_count-erase :
    (k : ChunkCoord) (chunks : Chunks)
    → IsDistinct ChunkCoord_discrete chunks
    → dirty_count (erase ChunkCoord_discrete k chunks)
        + bit_of (lookup ChunkCoord_discrete k chunks)
      ≡ dirty_count chunks
unfolding dirty_count erase lookup
dirty_count-erase k [] h = refl
dirty_count-erase k ((j, c) ∷ chunks) (absent, rest) =
    let ih = dirty_count-erase k chunks rest in
    elim (ChunkCoord_discrete j k) [
      | yes same ↦
          let gone : lookup ChunkCoord_discrete k chunks ≡ none =
            subst (λ x. lookup ChunkCoord_discrete x chunks ≡ none) same absent in
          let ih' : dirty_count (erase ChunkCoord_discrete k chunks) + 0 ≡ dirty_count chunks =
            subst
              (λ o.
                dirty_count (erase ChunkCoord_discrete k chunks) + bit_of o ≡ dirty_count chunks)
              gone ih in
          rw
            (
              erase_here ChunkCoord_discrete k j c chunks same,
              lookup_here ChunkCoord_discrete k j c chunks same,
            )
            (omega (arith, ih'))
      | no apart ↦
          rw
            (
              erase_further ChunkCoord_discrete k j c chunks apart,
              lookup_further ChunkCoord_discrete k j c chunks apart,
            )
            (omega (arith, ih))
    ]

-- The counter follows one chunk's flag.
recount_lem :
    (pending : ℕ) (old new : Bool) (others : ℕ)
    → pending ≡ (others + bit old) % 2 ^ 64
    → recount pending old new ≡ (bit new + others) % 2 ^ 64
recount_lem pending true true others e = ground (arith, e)
recount_lem pending false false others e = ground (arith, e)
recount_lem pending false true others e = ground (arith, e)
recount_lem pending true false others e = ground (arith, e)

module _ (chunks : Chunks) (pending : ℕ) (h : IsCounted chunks pending) (coord : ChunkCoord) where
  -- The chunk at `coord`, or the new one that `chunks_[coord]` makes, was dirty or not.
  abbrev was_dirty : Bool
  was_dirty = (or_empty (lookup ChunkCoord_discrete coord chunks)).dirty

  others_count :
      pending ≡ (dirty_count (erase ChunkCoord_discrete coord chunks) + bit was_dirty) % 2 ^ 64
  others_count =
      let e = dirty_count-erase coord chunks h.distinct in
      elim (Option-cases (lookup ChunkCoord_discrete coord chunks)) [
        | inl absent ↦ rw (bit, absent) (h.count ∙ ap (λ n. n % 2 ^ 64) (sym (rw absent at e)))
        | inr (c, found) ↦ rw (bit, found) (h.count ∙ ap (λ n. n % 2 ^ 64) (sym (rw found at e)))
      ]

  -- A chunk is written at `coord`, and its flag counted.
  pub put-IsCounted :
      (c : ChunkData)
      → c.coord ≡ coord
      → length c.voxels ≡ 4096
      → IsCounted (insert ChunkCoord_discrete coord c chunks) (recount pending was_dirty c.dirty)
  unfolding dirty_count insert
  put-IsCounted c at_coord size = record {
    distinct = insert-IsDistinct ChunkCoord_discrete coord c chunks h.distinct;
    coord = λ k c' found. elim (found-insert ChunkCoord_discrete coord k c c' chunks found) [
      | inl (at, same) ↦ ap (λ x. x.coord) (sym same) ∙ at_coord ∙ at
      | inr before ↦ h.coord k c' before
    ];
    size = λ k c' found. elim (found-insert ChunkCoord_discrete coord k c c' chunks found) [
      | inl (at, same) ↦ ap (λ x. length x.voxels) (sym same) ∙ size
      | inr before ↦ h.size k c' before
    ];
    count =
        recount_lem pending was_dirty c.dirty (dirty_count (erase ChunkCoord_discrete coord chunks))
          others_count;
  }

  -- The chunk at `coord` is erased, and its flag counted as cleared.
  pub erase-IsCounted :
      IsCounted (erase ChunkCoord_discrete coord chunks) (recount pending was_dirty false)
  erase-IsCounted = record {
    distinct = erase-IsDistinct ChunkCoord_discrete coord chunks h.distinct;
    coord = λ k c found. h.coord k c (found-erase ChunkCoord_discrete coord k c chunks found);
    size = λ k c found. h.size k c (found-erase ChunkCoord_discrete coord k c chunks found);
    count = omega (
      arith,
      recount_lem pending was_dirty false (dirty_count (erase ChunkCoord_discrete coord chunks))
          others_count,
    );
  }

  -- A chunk that is found has its own coordinate, and is the one that `chunks_[coord]` gives.
  pub found-was_dirty :
      (c : ChunkData) → lookup ChunkCoord_discrete coord chunks ≡ some c → c.dirty ≡ was_dirty
  found-was_dirty c found = ap (λ o. (or_empty o).dirty) (sym found)
