-- ===== src/Session/ChunkStore/Edits/Pending.antt =====
-- The pending edits of one voxel in ChunkStore (include/crowdy/session/chunk_store.hpp): what dropping
-- the expired ones and storing a list leave at the voxel.
use crowdy_cpp.Base.{ℕ, ◌≡◌, inl, inr, refl, ap, ◌∙◌, List, [], ◌∷◌, ◌++◌, Option-cases, ℕ_discrete}
use crowdy_cpp.Base.Int.{ℤ}
use crowdy_cpp.Base.Maps.{lookup, insert, lookup-insert_self, lookup-erase_self}
use crowdy_cpp.Wire.Spatial.{ChunkCoord}
use crowdy_cpp.Session.Keys.{ChunkCoord_discrete}
use crowdy_cpp.Session.ChunkStore.{PendingEdit, ChunkStore}
use crowdy_cpp.Session.ChunkStore.Edits.{
  unexpired, keep_live, keep_chunk, live_pending, voxels_of, edits_of, edits_at, put_edits,
  remember_edit,
}

abbrev pub with_pending : ChunkStore → List (ChunkCoord × List (ℕ × List PendingEdit)) → ChunkStore
with_pending s pending = record s { pending = pending }

-- Two stores that differ in their pending edits alone.
abbrev pub OnlyPending : ChunkStore → ChunkStore → Type 0
OnlyPending s s' =
    (pending : List (ChunkCoord × List (ℕ × List PendingEdit))) × (s' ≡ with_pending s pending)

pub OnlyPending-trans :
    (s s' s'' : ChunkStore) → OnlyPending s s' → OnlyPending s' s'' → OnlyPending s s''
OnlyPending-trans s s' s'' (p, e) (q, e') = (q, e' ∙ ap (λ x. with_pending x q) e)

keep_chunk-OnlyPending :
    (s : ChunkStore) (coord : ChunkCoord) (voxels : List (ℕ × List PendingEdit))
    → OnlyPending s (keep_chunk s coord voxels)
keep_chunk-OnlyPending s coord [] = (_, refl)
keep_chunk-OnlyPending s coord (v ∷ voxels) = (_, refl)

pub live_pending-OnlyPending :
    (s : ChunkStore) (coord : ChunkCoord) (key : ℕ) (now : ℤ)
    → OnlyPending s (live_pending s coord key now).1
unfolding live_pending
live_pending-OnlyPending s coord key now =
    elim (Option-cases (lookup ChunkCoord_discrete coord s.pending)) [
      | inl absent ↦ (s.pending, rw (live_pending, absent) refl)
      | inr (voxels, found) ↦ elim (Option-cases (lookup ℕ_discrete key voxels)) [
        | inl absent ↦ (s.pending, rw (live_pending, found, absent) refl)
        | inr (edits, there) ↦
            rw (live_pending, found, there)
              (keep_chunk-OnlyPending s coord (keep_live voxels key (unexpired now edits)))
      ]
    ]

pub remember_edit-OnlyPending :
    (s : ChunkStore) (coord : ChunkCoord) (key : ℕ) (edit : PendingEdit) (now : ℤ)
    → OnlyPending s (remember_edit s coord key edit now)
unfolding remember_edit
remember_edit-OnlyPending s coord key edit now =
    OnlyPending-trans s (live_pending s coord key now).1 (remember_edit s coord key edit now)
      (live_pending-OnlyPending s coord key now) (_, refl)

pub edits_at-put_edits :
    (s : ChunkStore) (coord : ChunkCoord) (key : ℕ) (edits : List PendingEdit)
    → edits_at (put_edits s coord key edits) coord key ≡ edits
unfolding edits_at
edits_at-put_edits s coord key edits =
    let voxels = voxels_of (lookup ChunkCoord_discrete coord s.pending) in
    rw
      (
        lookup-insert_self ChunkCoord_discrete coord (insert ℕ_discrete key edits voxels) s.pending,
        lookup-insert_self ℕ_discrete key edits voxels,
      )
      refl

-- The edits of the voxel in a store, from the chunk's entry.
pub edits_at-keep_chunk :
    (s : ChunkStore) (coord : ChunkCoord) (key : ℕ) (voxels : List (ℕ × List PendingEdit))
    → edits_at (keep_chunk s coord voxels) coord key ≡ edits_of (lookup ℕ_discrete key voxels)
unfolding edits_at lookup
edits_at-keep_chunk s coord key [] = rw (lookup-erase_self ChunkCoord_discrete coord s.pending) refl
edits_at-keep_chunk s coord key (v ∷ voxels) =
    rw (lookup-insert_self ChunkCoord_discrete coord (v ∷ voxels) s.pending) refl

edits_of-keep_live :
    (voxels : List (ℕ × List PendingEdit)) (key : ℕ) (edits : List PendingEdit)
    → edits_of (lookup ℕ_discrete key (keep_live voxels key edits)) ≡ edits
edits_of-keep_live voxels key [] = rw (lookup-erase_self ℕ_discrete key voxels) refl
edits_of-keep_live voxels key (e ∷ edits) =
    rw (lookup-insert_self ℕ_discrete key (e ∷ edits) voxels) refl

-- What is live at a voxel, and what the store then holds there.
pub live_pending_lem :
    (s : ChunkStore) (coord : ChunkCoord) (key : ℕ) (now : ℤ)
    → ((live_pending s coord key now).0 ≡ unexpired now (edits_at s coord key))
      × (edits_at (live_pending s coord key now).1 coord key ≡ unexpired now (edits_at s coord key))
unfolding live_pending edits_at lookup
live_pending_lem s coord key now =
    elim (Option-cases (lookup ChunkCoord_discrete coord s.pending)) [
      | inl absent ↦ rw (live_pending, absent) (refl, rw absent refl)
      | inr (voxels, found) ↦ elim (Option-cases (lookup ℕ_discrete key voxels)) [
        | inl absent ↦ rw (live_pending, found, absent) (refl, rw (found, absent) refl)
        | inr (edits, there) ↦
            let live = unexpired now edits in
            rw (live_pending, found, there)
              (
                refl,
                edits_at-keep_chunk s coord key (keep_live voxels key live)
                    ∙ edits_of-keep_live voxels key live,
              )
      ]
    ]

pub edits_at-remember_edit :
    (s : ChunkStore) (coord : ChunkCoord) (key : ℕ) (edit : PendingEdit) (now : ℤ)
    → edits_at (remember_edit s coord key edit now) coord key
      ≡ unexpired now (edits_at s coord key) ++ (edit ∷ [])
unfolding remember_edit
edits_at-remember_edit s coord key edit now =
    edits_at-put_edits (live_pending s coord key now).1 coord key
      (edits_at (live_pending s coord key now).1 coord key ++ (edit ∷ []))
    ∙ ap (λ es. es ++ (edit ∷ [])) (live_pending_lem s coord key now).1
