-- ===== src/Session/ChunkStore/Edits/Restored.antt =====
-- ChunkStore::setVoxel (include/crowdy/session/chunk_store.hpp): its refusals, the edit it leaves waiting,
-- and the voxel after the edit, another client's edit, and the echo.
use crowdy_cpp.Base.{
  ℕ, ◌≡◌, ◌≤◌, ◌<◌, ◌⊎◌, inl, inr, refl, sym, ap, ◌∙◌, subst, Bool, true, false, ◌&&◌, [], ◌∷◌,
  ◌++◌, All, Bool-cases, length, ltb, if◌then◌else◌, arith,
}
use crowdy_cpp.Base.Int.{ℤ}
use crowdy_cpp.Base.Maps.{lookup-insert_self}
use crowdy_cpp.Core.Le.{Bytes}
use crowdy_cpp.Core.Result.{Errc, Result, value, error}
use crowdy_cpp.Wire.Spatial.{ChunkCoord}
use crowdy_cpp.Session.Keys.{Position, ChunkCoord_discrete, voxel_key, fits_position}
use crowdy_cpp.Session.Keys.Injective.{IsPosition}
use crowdy_cpp.Session.Chunk.{VoxelState, ChunkData, put_voxel}
use crowdy_cpp.Session.Chunk.Reads.{shown, Reads-dirty, fits_position_of}
use crowdy_cpp.Session.Chunk.View.{put_voxel-Reads}
use crowdy_cpp.Session.ChunkStore.{
  PendingEdit, ChunkStore, find, or_empty, apply_local, touch, writes_back, voxel_type_at,
  voxel_state_at,
}
use crowdy_cpp.Session.ChunkStore.Counted.{IsStore}
use crowdy_cpp.Session.ChunkStore.Counted.Edited.{or_empty-size, apply_local-IsStore}
use crowdy_cpp.Session.ChunkStore.Edits.{
  max_state_size, unexpired, edits_at, SpatialNotification, mark_stale, take_echo, ingest,
  remember_edit, finish_send, set_voxel,
}
use crowdy_cpp.Session.ChunkStore.Edits.Pending.{
  OnlyPending, edits_at-remember_edit, remember_edit-OnlyPending,
}
use crowdy_cpp.Session.ChunkStore.Edits.Echo.{IsLive, unexpired-All, take_echo_lem}
use crowdy_cpp.Session.ChunkStore.Edits.Histories.{
  IsOther, Waits, bytes_eq_refl, edits_at-apply_local, ingest-echo, ingest-other, ingest_stale,
  ingest_applied, ingest_ignored,
}

-- What a store shows of a voxel.
abbrev pub StoreReads : ChunkStore → ChunkCoord → Position → VoxelState → Type 0
StoreReads s coord p v =
    (voxel_type_at s coord p ≡ v.voxel_type) × (voxel_state_at s coord p ≡ shown v)

pub apply_local-StoreReads :
    (s : ChunkStore) (coord : ChunkCoord) (p : Position) (v : VoxelState) (mark : Bool)
    → IsStore s
    → IsPosition p
    → StoreReads (apply_local s coord p v mark) coord p v
unfolding apply_local touch voxel_type_at voxel_state_at
apply_local-StoreReads s coord p v mark h hp =
    let c : ChunkData = record (or_empty (find s coord)) { coord = coord } in
    let written = put_voxel-Reads c p v (or_empty-size s coord h) hp in
    let c' = put_voxel c p v in
    let flagged : ChunkData = record c' {
      dirty = if mark && writes_back s then true else c'.dirty;
    } in
    let (t, st) = Reads-dirty c' p v flagged.dirty written in
    let there = lookup-insert_self ChunkCoord_discrete coord flagged s.chunks in
    (rw (voxel_type_at, there) t, rw (voxel_state_at, there) st)

OnlyPending-IsStore : (s s' : ChunkStore) → OnlyPending s s' → IsStore s → IsStore s'
OnlyPending-IsStore s s' (q, e) h = subst IsStore (sym e) h

-- Whatever arrives, the store stays right.
pub ingest-IsStore :
    (s : ChunkStore) (n : SpatialNotification) (p : Position) (v : VoxelState) (now : ℤ)
    → IsStore s
    → IsStore (ingest s n p v now).1
ingest-IsStore s n p v now h =
    let s' = (take_echo s n p now).1 in
    let h' = OnlyPending-IsStore s s' (take_echo_lem s n p now).2 h in
    elim (Bool-cases (take_echo s n p now).0) [
      | inl applied ↦
          rw (ingest_applied s n p v now applied) (apply_local-IsStore s' n.chunk p v false h')
      | inr ignored ↦ rw (ingest_ignored s n p v now ignored) h'
    ]

edit_IsStore :
    (s : ChunkStore) (sent : Result ℕ) (coord : ChunkCoord) (p : Position) (uuid : Bytes)
    (stale : Bool) (now : ℤ)
    → IsStore s
    → IsStore (finish_send s sent coord p uuid stale now).1
edit_IsStore s (error code) coord p uuid stale now h = h
edit_IsStore s (value seq) coord p uuid stale now h =
    let edit : PendingEdit = record {
      uuid = uuid;
      sequence = seq;
      sent_at_ms = now;
      stale = stale;
    } in
    OnlyPending-IsStore s (remember_edit s coord (voxel_key p) edit now)
      (remember_edit-OnlyPending s coord (voxel_key p) edit now) h

-- Every call of `set_voxel`, refused or not.
pub set_voxel-IsStore :
    (s : ChunkStore) (sent : Result ℕ) (coord : ChunkCoord) (p : Position) (v : VoxelState)
    (uuid : Bytes) (optimistic : Bool) (now : ℤ)
    → IsStore s
    → IsStore (set_voxel s sent coord p v uuid optimistic now).1
unfolding set_voxel
set_voxel-IsStore s sent coord p v uuid optimistic now h = elim (Bool-cases (fits_position p)) [
  | inr far ↦ rw (set_voxel, far) h
  | inl near ↦ elim (Bool-cases (ltb max_state_size (length v.state))) [
    | inl long ↦ rw (set_voxel, near, long) h
    | inr short ↦
        rw (set_voxel, near, short)
          (elim (Bool-cases optimistic) [
            | inl applied ↦ rw applied (
                edit_IsStore (apply_local s coord p v true) sent coord p uuid false now
                  (apply_local-IsStore s coord p v true h))
            | inr waiting ↦ rw waiting (edit_IsStore s sent coord p uuid true now h)
          ])
  ]
]

-- The notification that carries the echo of an edit.
abbrev pub echo_of : ChunkCoord → Bytes → ℕ → SpatialNotification
echo_of coord uuid seq = record { chunk = coord; uuid = uuid; sequence = seq }

abbrev pub edit_of : Bytes → ℕ → ℤ → PendingEdit
edit_of uuid seq now = record { uuid = uuid; sequence = seq; sent_at_ms = now; stale = false }

module _ (s : ChunkStore) (coord : ChunkCoord) (p : Position) (v : VoxelState) (uuid : Bytes)
    (now : ℤ) where
  -- A position that does not fit in 16 bits or a state that is too long is refused, and changes
  -- nothing.
  pub set_voxel_refused :
      (sent : Result ℕ) (optimistic : Bool)
      → (fits_position p ≡ false) ⊎ (max_state_size < length v.state)
      → set_voxel s sent coord p v uuid optimistic now ≡ (error Errc.invalid_argument, s)
  unfolding set_voxel
  set_voxel_refused sent optimistic h = elim (Bool-cases (fits_position p)) [
    | inr far ↦ rw (set_voxel, far) refl
    | inl near ↦ elim h [
      | inl far ↦ absurd (cc (near, far))
      | inr long ↦
          let e : ltb max_state_size (length v.state) ≡ true = ground (arith, long) in
          rw (set_voxel, near, e) refl
    ]
  ]

  module _ (hp : IsPosition p) (short : length v.state ≤ max_state_size) where
    set_voxel_sent :
        (seq : ℕ)
        → set_voxel s (value seq) coord p v uuid true now ≡ (
          value seq,
          remember_edit
              (apply_local s coord p v true)
              coord
              (voxel_key p)
              (edit_of uuid seq now)
              now,
        )
    unfolding set_voxel
    set_voxel_sent seq =
        let fits = fits_position_of p hp in
        let e : ltb max_state_size (length v.state) ≡ false = ground (arith, short) in
        rw (set_voxel, fits, e) refl

    module _ (seq : ℕ)
        (fresh : All (IsOther (echo_of coord uuid seq)) (edits_at s coord (voxel_key p))) where
      -- The store after the edit was applied and sent.
      abbrev after_edit : ChunkStore
      after_edit = (set_voxel s (value seq) coord p v uuid true now).1

      pub edits_at-set_voxel :
          edits_at after_edit coord (voxel_key p)
          ≡ unexpired now (edits_at s coord (voxel_key p)) ++ (edit_of uuid seq now ∷ [])
      edits_at-set_voxel =
          let s' = apply_local s coord p v true in
          let key = voxel_key p in
          ap (λ r. edits_at r.1 coord key) (set_voxel_sent seq)
          ∙ edits_at-remember_edit s' coord key (edit_of uuid seq now) now
          ∙ ap (λ es. unexpired now es ++ (edit_of uuid seq now ∷ []))
              (edits_at-apply_local s coord p v true key)

      set_voxel-Waits : Waits after_edit (echo_of coord uuid seq) p (edit_of uuid seq now)
      set_voxel-Waits = record {
        before = unexpired now (edits_at s coord (voxel_key p));
        held = edits_at-set_voxel;
        others =
            unexpired-All (IsOther (echo_of coord uuid seq)) now (edits_at s coord (voxel_key p))
              fresh;
        echoed = ground (arith, bytes_eq_refl uuid);
      }

      after_edit-IsStore : IsStore s → IsStore after_edit
      after_edit-IsStore h =
          let s' = apply_local s coord p v true in
          subst IsStore (sym (ap (λ r. r.1) (set_voxel_sent seq))) (
            OnlyPending-IsStore s' (remember_edit s' coord (voxel_key p) (edit_of uuid seq now) now)
              (remember_edit-OnlyPending s' coord (voxel_key p) (edit_of uuid seq now) now)
              (apply_local-IsStore s coord p v true h))

      -- An optimistic edit, at a 16-bit position and with a state of at most 1024 bytes, is sent, with
      -- a sequence number that no waiting edit of the voxel by the same actor has. Its echo, when it
      -- arrives in time and before any other edit, is not applied: it changes nothing but the list of
      -- pending edits.
      pub set_voxel-echo :
          (w : VoxelState) (later : ℤ)
          → IsLive later (edit_of uuid seq now)
          → ((ingest after_edit (echo_of coord uuid seq) p w later).0 ≡ false)
            × OnlyPending after_edit (ingest after_edit (echo_of coord uuid seq) p w later).1
      set_voxel-echo w later live =
          ingest-echo after_edit (echo_of coord uuid seq) p w (edit_of uuid seq now) later
            set_voxel-Waits refl live

      -- In a store whose chunks and counter are right, an optimistic edit, at a 16-bit position and
      -- with a state of at most 1024 bytes, is sent, with a sequence number that no waiting edit of the
      -- voxel by the same actor has. Another client's edit of the voxel, which echoes none of the
      -- waiting ones and arrives in time, is then applied and shown; the echo of the own edit that
      -- arrives after it, in time, is applied too, and the voxel shows the own edit again.
      pub set_voxel-restored :
          (m : SpatialNotification) (w : VoxelState) (between later : ℤ)
          → IsStore s
          → m.chunk ≡ coord
          → All (IsOther m) (edits_at after_edit m.chunk (voxel_key p))
          → IsLive between (edit_of uuid seq now)
          → IsLive later (edit_of uuid seq now)
          → StoreReads (ingest after_edit m p w between).1 coord p w
            × ((ingest (ingest after_edit m p w between).1 (echo_of coord uuid seq) p v later).0
                ≡ true)
            × StoreReads
                (ingest (ingest after_edit m p w between).1 (echo_of coord uuid seq) p v later).1
                coord
                p
                v
      set_voxel-restored m w between later h same others live live' =
          let n = echo_of coord uuid seq in
          let mine = edit_of uuid seq now in
          let (verdict, applied, waits) =
            ingest-other after_edit n m p w mine between set_voxel-Waits same others live in
          let s2 = (ingest after_edit m p w between).1 in
          let h1 = after_edit-IsStore h in
          let taken = (take_echo after_edit m p between).1 in
          let shows2 =
            apply_local-StoreReads taken m.chunk p w false
              (OnlyPending-IsStore after_edit taken (take_echo_lem after_edit m p between).2 h1)
              hp in
          let echoed = ingest_stale s2 n p v (mark_stale mine) later waits refl live' in
          let taken' = (take_echo s2 n p later).1 in
          let h2 = ingest-IsStore after_edit m p w between h1 in
          let shows3 =
            apply_local-StoreReads taken' coord p v false
              (OnlyPending-IsStore s2 taken' (take_echo_lem s2 n p later).2 h2) hp in
          (
            subst (λ x. StoreReads x coord p w) (sym applied)
                (subst (λ c. StoreReads (apply_local taken m.chunk p w false) c p w) same shows2),
            ap (λ r. r.0) echoed,
            subst (λ r. StoreReads r.1 coord p v) (sym echoed) shows3,
          )
