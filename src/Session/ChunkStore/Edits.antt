-- ===== src/Session/ChunkStore/Edits.antt =====
-- Local edits of ChunkStore in include/crowdy/session/chunk_store.hpp that wait for the server's
-- echo, and the merge of the edits that arrive.
pub mod Echo
pub mod Pending
pub mod Histories
pub mod Judged
pub mod Restored
use crowdy_cpp.Base.{
  ℕ, Bool, true, false, not, ◌&&◌, Option, none, some, List, [], ◌∷◌, ◌++◌, map, length, ltb, ◌==◌,
  if◌then◌else◌, ℕ_discrete,
}
use crowdy_cpp.Base.Int.{ℤ, pos, ltbℤ, ◌-ℤ◌}
use crowdy_cpp.Base.Maps.{lookup, insert, erase}
use crowdy_cpp.Core.Le.{Bytes}
use crowdy_cpp.Core.Result.{Errc, Result, value, error}
use crowdy_cpp.Wire.Spatial.{ChunkCoord}
use crowdy_cpp.Session.Keys.{Position, ChunkCoord_discrete, voxel_key, fits_position}
use crowdy_cpp.Session.Chunk.{VoxelState}
use crowdy_cpp.Session.ChunkStore.{PendingEdit, ChunkStore, apply_local}

abbrev pub pending_edit_ttl_ms : ℕ
pending_edit_ttl_ms = 10000

abbrev pub max_state_size : ℕ
max_state_size = 1024

-- The edits that `remove_if` keeps.
abbrev pub unexpired : ℤ → List PendingEdit → List PendingEdit
unexpired now [] = []
unexpired now (e ∷ edits) =
    let rest = unexpired now edits in
    if ltbℤ e.sent_at_ms (now -ℤ pos pending_edit_ttl_ms) then rest else e ∷ rest

-- The chunk's pending edits after `edits` were found live at `key`.
abbrev pub keep_live :
    List (ℕ × List PendingEdit) → ℕ → List PendingEdit → List (ℕ × List PendingEdit)
keep_live voxels key [] = erase ℕ_discrete key voxels
keep_live voxels key (e ∷ edits) = insert ℕ_discrete key (e ∷ edits) voxels

-- An empty entry of a chunk is erased.
abbrev pub keep_chunk : ChunkStore → ChunkCoord → List (ℕ × List PendingEdit) → ChunkStore
keep_chunk s coord [] = record s { pending = erase ChunkCoord_discrete coord s.pending }
keep_chunk s coord (v ∷ voxels) = record s {
  pending = insert ChunkCoord_discrete coord (v ∷ voxels) s.pending;
}

-- The unexpired edits of one voxel, with the expired ones dropped from the store; an empty list where
-- the code returns null.
pub live_pending : ChunkStore → ChunkCoord → ℕ → ℤ → List PendingEdit × ChunkStore
live_pending s coord key now = elim (lookup ChunkCoord_discrete coord s.pending) [
  | none ↦ ([], s)
  | some voxels ↦ elim (lookup ℕ_discrete key voxels) [
    | none ↦ ([], s)
    | some edits ↦
        let live = unexpired now edits in (live, keep_chunk s coord (keep_live voxels key live))
  ]
]

-- `pending_[coord]`, and `[key]` of it.
abbrev pub voxels_of : Option (List (ℕ × List PendingEdit)) → List (ℕ × List PendingEdit)
voxels_of none = []
voxels_of (some voxels) = voxels

abbrev pub edits_of : Option (List PendingEdit) → List PendingEdit
edits_of none = []
edits_of (some edits) = edits

unfoldable pub edits_at : ChunkStore → ChunkCoord → ℕ → List PendingEdit
edits_at s coord key =
    edits_of (lookup ℕ_discrete key (voxels_of (lookup ChunkCoord_discrete coord s.pending)))

-- `pending_[coord][key] = edits`
abbrev pub put_edits : ChunkStore → ChunkCoord → ℕ → List PendingEdit → ChunkStore
put_edits s coord key edits =
    let voxels = voxels_of (lookup ChunkCoord_discrete coord s.pending) in
    record s {
      pending = insert ChunkCoord_discrete coord (insert ℕ_discrete key edits voxels) s.pending;
    }

pub remember_edit : ChunkStore → ChunkCoord → ℕ → PendingEdit → ℤ → ChunkStore
remember_edit s coord key edit now =
    let s' = (live_pending s coord key now).1 in
    put_edits s' coord key (edits_at s' coord key ++ (edit ∷ []))

-- The fields of a notification that the store reads.
pub record SpatialNotification : Type 0 where
  pub chunk : ChunkCoord
  pub uuid : Bytes
  pub sequence : ℕ

-- `e.uuid == sender`, byte by byte.
abbrev pub bytes_eq : Bytes → Bytes → Bool
bytes_eq [] [] = true
bytes_eq [] (b ∷ bs) = false
bytes_eq (a ∷ xs) [] = false
bytes_eq (a ∷ xs) (b ∷ bs) = (a == b) && bytes_eq xs bs

abbrev pub is_echo_of : SpatialNotification → PendingEdit → Bool
is_echo_of n e = (e.sequence == n.sequence) && bytes_eq e.uuid n.uuid

-- `find_if`: the edits in front of the first that is echoed, that one, and those behind it.
pub find_echo :
    SpatialNotification
    → List PendingEdit
    → Option (List PendingEdit × PendingEdit × List PendingEdit)
find_echo n [] = none
find_echo n (e ∷ edits) =
    let rest = find_echo n edits in
    if is_echo_of n e
    then some ([], e, edits)
    else elim rest [ none ↦ none | some (before, echoed, after) ↦ some (e ∷ before, echoed, after) ]

abbrev pub mark_stale : PendingEdit → PendingEdit
mark_stale e = record e { stale = true }

-- `takeEcho` from the search for the echoed edit on, for the live edits of the voxel.
pub match_echo : ChunkStore → SpatialNotification → ℕ → ℤ → List PendingEdit → Bool × ChunkStore
match_echo s n key now edits = elim (find_echo n edits) [
  | none ↦ (true, put_edits s n.chunk key (map mark_stale edits))
  | some (before, echoed, after) ↦
      let s' = put_edits s n.chunk key (before ++ after) in
      (echoed.stale && (length after == 0), (live_pending s' n.chunk key now).1)
]

-- `takeEcho` from the live edits of the voxel on.
abbrev pub decide_echo :
    ChunkStore → SpatialNotification → ℕ → ℤ → List PendingEdit → Bool × ChunkStore
decide_echo s n key now [] = (true, s)
decide_echo s n key now (e ∷ rest) = match_echo s n key now (e ∷ rest)

-- Whether an edit that arrives is to be applied.
pub take_echo : ChunkStore → SpatialNotification → Position → ℤ → Bool × ChunkStore
take_echo s n p now =
    let key = voxel_key p in
    let (edits, s') = live_pending s n.chunk key now in decide_echo s' n key now edits

pub ingest : ChunkStore → SpatialNotification → Position → VoxelState → ℤ → Bool × ChunkStore
ingest s n p v now =
    let (apply, s') = take_echo s n p now in
    if apply then (true, apply_local s' n.chunk p v false) else (false, s')

-- `setVoxel` from the answer of the connection on.
abbrev pub finish_send :
    ChunkStore → Result ℕ → ChunkCoord → Position → Bytes → Bool → ℤ → Result ℕ × ChunkStore
finish_send s (error code) coord p uuid stale now = (error code, s)
finish_send s (value seq) coord p uuid stale now = (
  value seq,
  remember_edit s coord (voxel_key p)
      (record { uuid = uuid; sequence = seq; sent_at_ms = now; stale = stale }) now,
)

-- `setVoxel` with the answer of the connection's `sendVoxelUpdate`, which is called once, for a call
-- that gets past the guards.
pub set_voxel :
    ChunkStore
    → Result ℕ
    → ChunkCoord
    → Position
    → VoxelState
    → Bytes
    → Bool
    → ℤ
    → Result ℕ × ChunkStore
set_voxel s sent coord p v uuid optimistic now =
    if not (fits_position p)
    then (error Errc.invalid_argument, s)
    else if ltb max_state_size (length v.state)
    then (error Errc.invalid_argument, s)
    else let s' = if optimistic then apply_local s coord p v true else s in
      finish_send s' sent coord p uuid (not optimistic) now
