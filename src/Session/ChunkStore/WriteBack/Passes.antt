-- ===== src/Session/ChunkStore/WriteBack/Passes.antt =====
-- The passes of ChunkStore over its chunks (src/session/world_session.cpp and
-- include/crowdy/session/chunk_store.hpp): flush, tick, pruneBeyond and ensureAround keep the chunks and
-- the counter of dirty ones right.
use mathlib.Core.Option.{some_inj}
use crowdy_cpp.Base.{
  ℕ, zero, suc, ◌+◌, ◌%◌, ◌^◌, ◌≡◌, ◌⊎◌, inl, inr, refl, sym, ap, ◌∙◌, subst, Bool, true, false,
  not, Option, none, some, List, [], ◌∷◌, Bool-cases, Option-cases,
}
use crowdy_cpp.Base.Int.{ℤ, ltbℤ, ◌-ℤ◌}
use crowdy_cpp.Base.Maps.{lookup, IsDistinct, lookup_here, lookup_further}
use crowdy_cpp.Core.Le.{Bytes}
use crowdy_cpp.Wire.Spatial.{ChunkCoord}
use crowdy_cpp.Session.Keys.{ChunkCoord_discrete}
use crowdy_cpp.Session.Chunk.{ChunkData}
use crowdy_cpp.Session.Outcome.{GraphQlOutcome}
use crowdy_cpp.Session.ChunkStore.{ChunkWriteBackFailure, ChunkStore, find, writes_back}
use crowdy_cpp.Session.ChunkStore.WriteBack.{
  StoredChunk, WriteBack, Flushing, first_due, is_waiting, attempt_write_back, after_attempt,
  end_round, settle, flush_chunk, flush_chunks, flush_from, ChunkFlushResult, flush, dirty_chunks,
  tick, evict_found, prune_written, prune_found, prune_chunk, prune_chunks, prune_beyond,
  distant_chunks, ensure_around, clamp_distance,
}
use crowdy_cpp.Session.ChunkStore.WriteBack.Drained.{
  next, round_absent, round_clean, round_dirty, flush_from-drains,
}
use crowdy_cpp.Session.ChunkStore.WriteBack.Kept.{
  settle-IsStore, evict-IsStore, hydrate_chunks-IsStore,
}
use crowdy_cpp.Session.ChunkStore.Counted.{Chunks, IsStore, dirty_count_none}

first_due_skips :
    (s : ChunkStore) (now : ℤ) (k : ChunkCoord) (c : ChunkData) (chunks : Chunks)
    → (first_due s now ((k, c) ∷ chunks) ≡ some (k, c))
      ⊎ (first_due s now ((k, c) ∷ chunks) ≡ first_due s now chunks)
unfolding first_due
first_due_skips s now k c chunks = elim (Bool-cases c.dirty) [
  | inr clean ↦ inr (rw clean refl)
  | inl dirty ↦ elim (Bool-cases (is_waiting (lookup ChunkCoord_discrete k s.due_at) now)) [
    | inl waiting ↦ inr (rw (dirty, waiting) refl)
    | inr due ↦ inl (rw (dirty, due) refl)
  ]
]

-- The chunk that `tick` picks is one of the store's.
first_due-found :
    (s : ChunkStore) (now : ℤ) (chunks : Chunks) (k : ChunkCoord) (c : ChunkData)
    → IsDistinct ChunkCoord_discrete chunks
    → first_due s now chunks ≡ some (k, c)
    → lookup ChunkCoord_discrete k chunks ≡ some c
unfolding first_due
first_due-found s now [] k c h e = absurd (cc e)
first_due-found s now ((j, d) ∷ chunks) k c (absent, rest) e =
    elim (first_due_skips s now j d chunks) [
      | inl picked ↦
          let same : (j, d) ≡ (k, c) = some_inj.0 (sym picked ∙ e) in
          lookup_here ChunkCoord_discrete k j d chunks (ap (λ x. x.0) same)
          ∙ ap some (ap (λ x. x.1) same)
      | inr skipped ↦
          let later = first_due-found s now chunks k c rest (sym skipped ∙ e) in
          elim (ChunkCoord_discrete j k) [
            | yes same ↦
                absurd
                  (cc (subst (λ x. lookup ChunkCoord_discrete x chunks ≡ none) same absent, later))
            | no apart ↦ lookup_further ChunkCoord_discrete k j d chunks apart ∙ later
          ]
    ]

module _ {S : Type 0} (write_chunk : S → ChunkCoord → Bytes → GraphQlOutcome × S)
    (chunks_around : S → ChunkCoord → ℤ → List StoredChunk × S) where
  -- A round of `flush` that ends, ends with a right store.
  KeepsStore : (Flushing S → Option (Flushing S)) → Type 0
  KeepsStore again = (f f' : Flushing S) → IsStore f.store → again f ≡ some f' → IsStore f'.store

  end_round-IsStore :
      (again : Flushing S → Option (Flushing S)) (f f' : Flushing S) (coord : ChunkCoord)
      (r : WriteBack × List ChunkWriteBackFailure × ChunkStore) (source : S)
      → KeepsStore again
      → IsStore r.2
      → end_round write_chunk chunks_around again f coord (r, source) ≡ some f'
      → IsStore f'.store
  unfolding KeepsStore
  end_round-IsStore again f f' coord (WriteBack.persisted, failures, s) source keeps h e =
      subst (λ x. IsStore x.store) (some_inj.0 e) h
  end_round-IsStore again f f' coord (WriteBack.retry, failures, s) source keeps h e =
      keeps (after_attempt write_chunk chunks_around f coord source s failures) f' h e
  end_round-IsStore again f f' coord (WriteBack.dropped, failures, s) source keeps h e =
      subst (λ x. IsStore x.store) (some_inj.0 e) h

  flush_chunk-IsStore :
      (fuel : ℕ) (coord : ChunkCoord)
      → KeepsStore (flush_chunk write_chunk chunks_around fuel coord)
  unfolding KeepsStore flush_chunk next
  flush_chunk-IsStore zero coord f f' h e = absurd (cc e)
  flush_chunk-IsStore (suc fuel) coord f f' h e = elim (Option-cases (find f.store coord)) [
    | inl absent ↦
        subst (λ x. IsStore x.store)
          (some_inj.0 (sym (round_absent write_chunk chunks_around fuel coord f absent) ∙ e)) h
    | inr (c, found) ↦ elim (Bool-cases c.dirty) [
      | inr clean ↦
          subst (λ x. IsStore x.store)
            (some_inj.0
              (sym (round_clean write_chunk chunks_around fuel coord f c found clean) ∙ e))
            h
      | inl dirty ↦
          let out = (write_chunk f.source c.coord c.voxels).0 in
          let now = f.store.last_tick_ms in
          end_round-IsStore (flush_chunk write_chunk chunks_around fuel coord) f f' coord
            (settle out f.store coord c now) (write_chunk f.source c.coord c.voxels).1
            (flush_chunk-IsStore fuel coord) (settle-IsStore f.store coord c h found out now)
            (sym (
                round_dirty write_chunk chunks_around fuel coord f c found dirty
                  (settle out f.store coord c now) refl)
              ∙ e)
    ]
  ]

  flush_chunks-IsStore :
      (coords : List ChunkCoord) (f f' : Flushing S)
      → IsStore f.store
      → flush_chunks write_chunk chunks_around coords f ≡ some f'
      → IsStore f'.store
  unfolding flush_chunks KeepsStore
  flush_chunks-IsStore [] f f' h e = subst (λ x. IsStore x.store) (some_inj.0 e) h
  flush_chunks-IsStore (coord ∷ coords) f f' h e =
      let round = flush_chunk write_chunk chunks_around (f.store.write_back_attempts + 1) coord f in
      elim (Option-cases round) [
        | inl out_of_fuel ↦ absurd (cc (rw (flush_chunks, out_of_fuel) at e))
        | inr (f1, ended) ↦
            flush_chunks-IsStore coords f1 f'
              (flush_chunk-IsStore (f.store.write_back_attempts + 1) coord f f1 h ended)
              (rw (flush_chunks, ended) at e)
      ]

  pub flush_from-IsStore :
      (source : S) (s : ChunkStore) (f : Flushing S)
      → IsStore s
      → flush_from write_chunk chunks_around source s ≡ some f
      → IsStore f.store
  unfolding flush_from
  flush_from-IsStore source s f h ends = flush_chunks-IsStore (dirty_chunks s.chunks) _ f h ends

  -- On a store whose chunks and counter are right, `flush` with a source always ends, whatever the
  -- source answers; then no chunk of the store is dirty, and its counter of pending write-backs is 0.
  pub flush-pending_write_backs :
      (source : S) (s : ChunkStore)
      → IsStore s
      → (r : ChunkFlushResult) × (source' : Option S) × (s' : ChunkStore) × (flush write_chunk
            chunks_around
            (some source)
            s
          ≡ some (r, source', s'))
        × ((k : ChunkCoord) (c : ChunkData) → find s' k ≡ some c → c.dirty ≡ false)
        × (s'.pending_write_backs ≡ 0)
  unfolding flush
  flush-pending_write_backs source s h =
      let (f, ends, clean) = flush_from-drains write_chunk chunks_around source s in
      let h' = flush_from-IsStore source s f h ends in
      let none_left = dirty_count_none f.store.chunks h'.distinct clean in
      (
        record { persisted = f.persisted; dropped = f.dropped },
        some f.source,
        f.store,
        rw (flush, ends) refl,
        clean,
        h'.count ∙ ap (λ n. n % 2 ^ 64) none_left,
      )

  pub tick-IsStore :
      (source : Option S) (s : ChunkStore) (now : ℤ)
      → IsStore s
      → IsStore (tick write_chunk chunks_around source s now).1
  unfolding tick attempt_write_back
  tick-IsStore none s now h = h
  tick-IsStore (some source) s now h =
      let s' : ChunkStore = record s { last_tick_ms = now } in
      elim (Bool-cases (not (writes_back s))) [
        | inl off ↦ rw (tick, off) h
        | inr on ↦ elim (Bool-cases (ltbℤ (now -ℤ s.last_write_back_ms) s.write_back_interval_ms)) [
          | inl early ↦ rw (tick, on, early) h
          | inr late ↦ elim (Option-cases (first_due s' now s'.chunks)) [
            | inl idle ↦ rw (tick, on, late, idle) h
            | inr ((coord, c), due) ↦
                let found = first_due-found s' now s'.chunks coord c h.distinct due in
                let s'' : ChunkStore = record s' { last_write_back_ms = now } in
                rw (tick, on, late, due)
                  (settle-IsStore s'' coord c h found (write_chunk source c.coord c.voxels).0 now)
          ]
        ]
      ]

  pub ensure_around-IsStore :
      (source : Option S) (s : ChunkStore) (center : ChunkCoord) (distance now : ℤ)
      → IsStore s
      → IsStore (ensure_around write_chunk chunks_around source s center distance now).2
  unfolding ensure_around
  ensure_around-IsStore none s center distance now h = h
  ensure_around-IsStore (some source) s center distance now h =
      hydrate_chunks-IsStore (chunks_around source center (clamp_distance distance)).0 s now h

  evict_found-IsStore :
      (s : ChunkStore) (coord : ChunkCoord) → IsStore s → IsStore (evict_found s coord).1
  evict_found-IsStore s coord h = elim (Option-cases (find s coord)) [
    | inl absent ↦ rw (evict_found, absent) h
    | inr (c, found) ↦ rw (evict_found, found) (evict-IsStore s coord c h found)
  ]

  prune_written-IsStore :
      (coord : ChunkCoord) (r : WriteBack × List ChunkWriteBackFailure × ChunkStore) (source : S)
      → IsStore r.2
      → IsStore (prune_written write_chunk chunks_around coord (r, source)).2
  prune_written-IsStore coord (WriteBack.retry, failures, s) source h = h
  prune_written-IsStore coord (WriteBack.persisted, failures, s) source h =
      evict_found-IsStore s coord h
  prune_written-IsStore coord (WriteBack.dropped, failures, s) source h =
      evict_found-IsStore s coord h

  prune_found-IsStore :
      (source : Option S) (s : ChunkStore) (coord : ChunkCoord) (c : ChunkData) (dirty : Bool)
      → IsStore s
      → find s coord ≡ some c
      → IsStore (prune_found write_chunk chunks_around source s coord c dirty).2
  unfolding attempt_write_back
  prune_found-IsStore none s coord c dirty h found = evict-IsStore s coord c h found
  prune_found-IsStore (some source) s coord c false h found = evict-IsStore s coord c h found
  prune_found-IsStore (some source) s coord c true h found =
      prune_written-IsStore coord
        (settle (write_chunk source c.coord c.voxels).0 s coord c s.last_tick_ms)
        (write_chunk source c.coord c.voxels).1
        (settle-IsStore s coord c h found (write_chunk source c.coord c.voxels).0 s.last_tick_ms)

  prune_chunk-IsStore :
      (source : Option S) (s : ChunkStore) (coord : ChunkCoord)
      → IsStore s
      → IsStore (prune_chunk write_chunk chunks_around source s coord).2
  unfolding prune_chunk
  prune_chunk-IsStore source s coord h = elim (Option-cases (find s coord)) [
    | inl absent ↦ rw (prune_chunk, absent) h
    | inr (c, found) ↦
        rw (prune_chunk, found) (prune_found-IsStore source s coord c c.dirty h found)
  ]

  prune_chunks-IsStore :
      (coords : List ChunkCoord) (source : Option S) (s : ChunkStore)
      → IsStore s
      → IsStore (prune_chunks write_chunk chunks_around source s coords).2
  unfolding prune_chunks
  prune_chunks-IsStore [] source s h = h
  prune_chunks-IsStore (coord ∷ coords) source s h =
      let (evicted, source', s') = prune_chunk write_chunk chunks_around source s coord in
      prune_chunks-IsStore coords source' s' (prune_chunk-IsStore source s coord h)

  pub prune_beyond-IsStore :
      (source : Option S) (s : ChunkStore) (center : ChunkCoord) (distance : ℤ)
      → IsStore s
      → IsStore (prune_beyond write_chunk chunks_around source s center distance).2
  unfolding prune_beyond
  prune_beyond-IsStore source s center distance h =
      prune_chunks-IsStore (distant_chunks center distance s.chunks) source s h
