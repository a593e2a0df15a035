-- ===== src/Session/ChunkStore/Examples.antt =====
-- Concrete runs of the chunk store (include/crowdy/session/chunk_store.hpp).
use crowdy_cpp.Base.{
  Bool, Memᴰ, ℕ, zero, suc, ◌+◌, ◌≡◌, inl, inr, refl, sym, ap, ◌∙◌, subst, true, false, Option,
  some, List, [], ◌∷◌, ◌++◌, All, get_or, replicate, arith, if◌then◌else◌, Bool-cases, ◌==◌,
}
use crowdy_cpp.Base.Int.{ℤ, pos, negsuc, ltbℤ}
use crowdy_cpp.Base.Maps.{lookup, insert, erase}
use crowdy_cpp.Core.Le.{Bytes}
use crowdy_cpp.Core.Result.{Errc, value, error}
use crowdy_cpp.Wire.Spatial.{ChunkCoord}
use crowdy_cpp.Session.Keys.{no_overflow, Position, in_grid, voxel_index, chebyshev, voxel_key}
use crowdy_cpp.Session.Keys.Injective.{IsPosition, voxel_key_inj}
use crowdy_cpp.Session.Chunk.{VoxelState, ChunkData, put_voxel}
use crowdy_cpp.Session.Chunk.Reads.{voxel_type_in_lem, voxel_state_in_lem}
use crowdy_cpp.Session.Chunk.View.{Shows, update, put_voxel-Shows}
use crowdy_cpp.Session.Outcome.{GraphQlErrorKind, GraphQlOutcome}
use crowdy_cpp.Session.ChunkStore.{
  ChunkStore, chunk_store, touch, find, empty_chunk, no_voxels, insert_generated,
}
use crowdy_cpp.Session.ChunkStore.Counted.{IsStore}
use crowdy_cpp.Session.ChunkStore.Counted.Edited.{no_voxels-size}
use crowdy_cpp.Session.ChunkStore.Edits.{
  SpatialNotification, edits_at, unexpired, take_echo, ingest, set_voxel,
}
use crowdy_cpp.Session.ChunkStore.Edits.Pending.{OnlyPending}
use crowdy_cpp.Session.ChunkStore.Edits.Judged.{IsJudged, take_echo-IsJudged}
use crowdy_cpp.Session.ChunkStore.Edits.Histories.{IsOther}
use crowdy_cpp.Session.ChunkStore.Edits.Restored.{
  StoreReads, echo_of, edit_of, edits_at-set_voxel, set_voxel_refused, set_voxel-echo,
  set_voxel-restored,
}
use crowdy_cpp.Session.ChunkStore.WriteBack.{
  StoredChunk, ChunkFlushResult, flush, tick, prune_beyond, put_stored,
}
use crowdy_cpp.Session.ChunkStore.WriteBack.Passes.{flush-pending_write_backs}
use crowdy_cpp.Session.ChunkStore.WriteBack.Fates.{IsPruned, prune_beyond-IsPruned}
use crowdy_cpp.Session.ChunkStore.WriteBack.Loaded.{overlaid, put_stored-Shows}
use crowdy_cpp.Session.ChunkStore.Reach.{Step, Reachable, Reachable-IsStore}

abbrev here : ChunkCoord
here = record { x = pos 2; y = negsuc 0; z = pos 7 }

abbrev away : ChunkCoord
away = record { x = pos 40; y = pos 0; z = pos 0 }

-- A voxel of the grid, and one outside it.
abbrev inside : Position
inside = record { x = pos 3; y = pos 0; z = pos 15 }

abbrev outside : Position
outside = record { x = negsuc 4; y = pos 300; z = pos 1 }

abbrev stone : VoxelState
stone = record { voxel_type = pos 7; state = 1 ∷ 2 ∷ [] }

abbrev wide : VoxelState
wide = record { voxel_type = pos 900; state = [] }

abbrev air : VoxelState
air = record { voxel_type = pos 0; state = [] }

inside-IsPosition : IsPosition inside
inside-IsPosition = omega arith

outside-IsPosition : IsPosition outside
outside-IsPosition = omega arith

get_or-replicate : (n i : ℕ) → get_or (replicate {A = ℕ} n 0) i 0 ≡ 0
get_or-replicate zero i = refl
get_or-replicate (suc n) zero = refl
get_or-replicate (suc n) (suc i) = get_or-replicate n i

no_voxels-get : (i : ℕ) → get_or no_voxels i 0 ≡ 0
unfolding no_voxels
no_voxels-get i = get_or-replicate 4096 i

-- A new chunk shows air everywhere.
empty_chunk-Shows : Shows empty_chunk (λ p. air)
unfolding lookup
empty_chunk-Shows = record {
  size = no_voxels-size;
  reads = λ p h. elim (Bool-cases (in_grid p)) [
    | inl inner ↦ (
      voxel_type_in_lem empty_chunk p h ∙ rw (inner, no_voxels-get (voxel_index p)) refl,
      voxel_state_in_lem empty_chunk p h ∙ rw inner refl,
    )
    | inr outer ↦ (
      voxel_type_in_lem empty_chunk p h ∙ rw outer refl,
      voxel_state_in_lem empty_chunk p h ∙ rw outer refl,
    )
  ];
}

inside_shown : Shows (put_voxel empty_chunk inside stone) (update (λ p. air) inside stone)
inside_shown =
    put_voxel-Shows empty_chunk (λ p. air) inside stone inside-IsPosition empty_chunk-Shows

entries_shown :
    Shows
      (put_stored empty_chunk (
        record { position = outside; voxel = wide }
        ∷ record { position = inside; voxel = stone }
        ∷ []))
      (overlaid
        (λ p. air)
        (record { position = outside; voxel = wide }
          ∷ record { position = inside; voxel = stone }
          ∷ []))
entries_shown =
    put_stored-Shows
      (record { position = outside; voxel = wide }
        ∷ record { position = inside; voxel = stone }
        ∷ [])
      empty_chunk (λ p. air) empty_chunk-Shows

same_place : outside ≡ outside
same_place = voxel_key_inj outside outside outside-IsPosition outside-IsPosition refl

abbrev new_store : ChunkStore
new_store = chunk_store (pos 700) 8 5 700

abbrev me : Bytes
me = 1 ∷ 1 ∷ 1 ∷ []

abbrev stranger : SpatialNotification
stranger = record { chunk = here; uuid = 2 ∷ []; sequence = 9 }

none_pending : (k : ℕ) → edits_at new_store here k ≡ []
unfolding chunk_store edits_at lookup
none_pending k = refl

none_others :
    (n : SpatialNotification) → All (IsOther n) (edits_at new_store here (voxel_key inside))
none_others n = subst (All (IsOther n)) (sym (none_pending (voxel_key inside))) tt

far_refused :
    set_voxel new_store (value 5) here (record inside { y = pos 40000 }) stone me true (pos 100)
    ≡ (error Errc.invalid_argument, new_store)
far_refused =
    set_voxel_refused new_store here (record inside { y = pos 40000 }) stone me (pos 100) (value 5)
      true (inl refl)

echo_ignored :
    ((ingest
        (set_voxel new_store (value 5) here inside stone me true (pos 100)).1
        (echo_of here me 5)
        inside
        stone
        (pos 180)).0
      ≡ false)
    × OnlyPending
        (set_voxel new_store (value 5) here inside stone me true (pos 100)).1
        (ingest
          (set_voxel new_store (value 5) here inside stone me true (pos 100)).1
          (echo_of here me 5)
          inside
          stone
          (pos 180)).1
echo_ignored =
    set_voxel-echo new_store here inside stone me (pos 100) inside-IsPosition (omega arith) 5
      (none_others (echo_of here me 5)) stone (pos 180) refl

-- A source that is busy once, and then takes every write.
abbrev busy : GraphQlOutcome
busy = record { status = Errc.ok; kind = GraphQlErrorKind.timeout; errors = []; http_status = 0 }

abbrev taken : GraphQlOutcome
taken = record {
  status = Errc.ok;
  kind = GraphQlErrorKind.no_error;
  errors = [];
  http_status = 200;
}

abbrev source_write : ℕ → ChunkCoord → Bytes → GraphQlOutcome × ℕ
source_write n coord voxels = (if n == 0 then busy else taken, n + 1)

abbrev source_chunks : ℕ → ChunkCoord → ℤ → List StoredChunk × ℕ
source_chunks n center distance = ([], n)

-- After the own edit only that edit waits.
one_pending :
    edits_at
      (set_voxel new_store (value 5) here inside stone me true (pos 100)).1
      here
      (voxel_key inside)
    ≡ edit_of me 5 (pos 100) ∷ []
one_pending =
    edits_at-set_voxel new_store here inside stone me (pos 100) inside-IsPosition (omega arith) 5
      (none_others (echo_of here me 5))
    ∙ ap (λ es. unexpired (pos 100) es ++ (edit_of me 5 (pos 100) ∷ []))
        (none_pending (voxel_key inside))

new_store-IsStore : IsStore new_store
new_store-IsStore =
    Reachable-IsStore source_write source_chunks new_store (Reachable.fresh (pos 700) 8 5 700)

edit_restored :
    StoreReads
      (ingest
        (set_voxel new_store (value 5) here inside stone me true (pos 100)).1
        stranger
        inside
        wide
        (pos 150)).1
      here
      inside
      wide
    × ((ingest
          (ingest
            (set_voxel new_store (value 5) here inside stone me true (pos 100)).1
            stranger
            inside
            wide
            (pos 150)).1
          (echo_of here me 5)
          inside
          stone
          (pos 180)).0
        ≡ true)
    × StoreReads
        (ingest
          (ingest
            (set_voxel new_store (value 5) here inside stone me true (pos 100)).1
            stranger
            inside
            wide
            (pos 150)).1
          (echo_of here me 5)
          inside
          stone
          (pos 180)).1
        here
        inside
        stone
edit_restored =
    set_voxel-restored new_store here inside stone me (pos 100) inside-IsPosition (omega arith) 5
      (none_others (echo_of here me 5)) stranger wide (pos 150) (pos 180) new_store-IsStore refl
      (subst (All (IsOther stranger)) (sym one_pending) (refl, tt)) refl refl

-- An own edit waits in the chunk, and its echo arrives.
abbrev waiting_store : ChunkStore
waiting_store = record new_store {
  pending = (here, (voxel_key inside, edit_of me 5 (pos 100) ∷ []) ∷ []) ∷ [];
}

abbrev echo_taken : Bool × ChunkStore
echo_taken = take_echo waiting_store (echo_of here me 5) inside (pos 150)

echo-IsJudged :
    IsJudged
      (echo_of here me 5)
      (unexpired (pos 150) (edits_at waiting_store here (voxel_key inside)))
      echo_taken.0
      (edits_at echo_taken.1 here (voxel_key inside))
    × (edits_at echo_taken.1 away 0 ≡ edits_at waiting_store away 0)
    × OnlyPending waiting_store echo_taken.1
echo-IsJudged =
    take_echo-IsJudged waiting_store (echo_of here me 5) inside (pos 150) away 0
      (inl (λ e. absurd (cc (ap (λ (k : ChunkCoord). k.y) e))))

-- A generated chunk, and a tick whose write fails for a reason that can clear.
ticked-IsStore :
    IsStore
      (tick source_write source_chunks
        (some 0)
        (insert_generated new_store here no_voxels)
        (pos 1000)).1
ticked-IsStore =
    Reachable-IsStore source_write source_chunks
      (tick source_write source_chunks (some 0) (insert_generated new_store here no_voxels)
        (pos 1000)).1
      (Reachable.after
        (Reachable.after (Reachable.fresh (pos 700) 8 5 700)
          (Step.generates here no_voxels no_voxels-size))
        (Step.ticks (some 0) (pos 1000)))

generated-IsStore : IsStore (insert_generated new_store here no_voxels)
generated-IsStore =
    Reachable-IsStore source_write source_chunks (insert_generated new_store here no_voxels) (
      Reachable.after (Reachable.fresh (pos 700) 8 5 700)
        (Step.generates here no_voxels no_voxels-size))

generated_flushed :
    (r : ChunkFlushResult) × (source : Option ℕ) × (s : ChunkStore) × (flush source_write
        source_chunks
        (some 0)
        (insert_generated new_store here no_voxels)
      ≡ some (r, source, s))
    × ((k : ChunkCoord) (c : ChunkData) → find s k ≡ some c → c.dirty ≡ false)
    × (s.pending_write_backs ≡ 0)
generated_flushed =
    flush-pending_write_backs source_write source_chunks 0
      (insert_generated new_store here no_voxels) generated-IsStore

-- A source that keeps a list of what it is sent, and is always busy.
abbrev Log : Type 0
Log = List (ChunkCoord × Bytes × GraphQlOutcome)

abbrev log_write : Log → ChunkCoord → Bytes → GraphQlOutcome × Log
log_write log k voxels = (busy, (k, voxels, busy) ∷ log)

abbrev log_chunks : Log → ChunkCoord → ℤ → List StoredChunk × Log
log_chunks log k distance = ([], log)

abbrev Logged : Log → ChunkCoord → Bytes → GraphQlOutcome → Type 0
Logged log k voxels out = Memᴰ (k, voxels, out) log

generated_in_reach :
    All
      (λ (entry : ChunkCoord × ChunkData). no_overflow entry.0 away ≡ true)
      (insert_generated new_store here no_voxels).chunks
unfolding insert_generated insert erase lookup touch chunk_store
generated_in_reach = (refl, tt)

generated-IsPruned :
    let s = insert_generated new_store here no_voxels in
    let r = prune_beyond log_write log_chunks (some []) s away (pos 8) in
    IsPruned log_write log_chunks Logged
      (λ log k voxels. Memᴰ.head refl)
      (λ log k j voxels other out sent. Memᴰ.tail sent)
      (ltbℤ (pos 8) (chebyshev here away))
      true
      (find s here)
      r.1
      (find r.2 here)
generated-IsPruned =
    prune_beyond-IsPruned log_write log_chunks Logged (λ log k voxels. Memᴰ.head refl)
      (λ log k j voxels other out sent. Memᴰ.tail sent) (some [])
      (insert_generated new_store here no_voxels) away (pos 8) here generated_in_reach
