-- ===== src/Session/ChunkStore/WriteBack/Drained.antt =====
-- ChunkStore::flush (src/session/world_session.cpp): its loops end, and leave no chunk dirty.
use mathlib.Core.List.Memᴰ
use mathlib.Core.Option.{some_inj}
use crowdy_cpp.Base.{
  ℕ, zero, suc, ◌+◌, ◌-◌, ◌≡◌, ◌≤◌, ◌<◌, inl, inr, refl, sym, ap, ◌∙◌, subst, true, false, Option,
  none, some, List, [], ◌∷◌, Bool-cases, Option-cases, arith, Memᴰ,
}
use crowdy_cpp.Base.Int.{ℤ}
use crowdy_cpp.Base.Maps.{lookup, lookup_here, lookup_further}
use crowdy_cpp.Core.Le.{Bytes}
use crowdy_cpp.Wire.Spatial.{ChunkCoord}
use crowdy_cpp.Session.Keys.{ChunkCoord_discrete}
use crowdy_cpp.Session.Chunk.{ChunkData}
use crowdy_cpp.Session.Outcome.{GraphQlOutcome}
use crowdy_cpp.Session.ChunkStore.{ChunkWriteBackFailure, ChunkStore, find}
use crowdy_cpp.Session.ChunkStore.WriteBack.{
  StoredChunk, WriteBack, Flushing, made_at, keep_retry, settle, dirty_chunks, after_attempt,
  end_round, dirty_round, found_round, attempt_write_back, flush_chunk, flush_chunks, flush_from,
}
use crowdy_cpp.Session.ChunkStore.WriteBack.Attempt.{
  Cleans, settle_cases, keep_persisted-Cleans, keep_dropped-Cleans, made_at-keep_retry,
}

-- A chunk that is absent or clean is left alone.
Cleans-refl :
    (s : ChunkStore) (coord : ChunkCoord)
    → ((c : ChunkData) → find s coord ≡ some c → c.dirty ≡ false)
    → Cleans s s coord
Cleans-refl s coord clean = record { clean = clean; others = λ k apart. refl; limit = refl }

dirty_chunks-Memᴰ :
    (chunks : List (ChunkCoord × ChunkData)) (k : ChunkCoord) (c : ChunkData)
    → lookup ChunkCoord_discrete k chunks ≡ some c
    → c.dirty ≡ true
    → Memᴰ k (dirty_chunks chunks)
unfolding dirty_chunks lookup
dirty_chunks-Memᴰ [] k c found dirty = absurd (cc found)
dirty_chunks-Memᴰ ((j, d) ∷ chunks) k c found dirty = elim (ChunkCoord_discrete j k) [
  | yes same ↦
      let eq : some d ≡ some c = sym (lookup_here ChunkCoord_discrete k j d chunks same) ∙ found in
      let d_dirty : d.dirty ≡ true = ap (λ x. x.dirty) (some_inj.0 eq) ∙ dirty in
      rw d_dirty (Memᴰ.head (sym same))
  | no apart ↦
      let later =
        dirty_chunks-Memᴰ chunks k c
          (sym (lookup_further ChunkCoord_discrete k j d chunks apart) ∙ found) dirty in
      elim (Bool-cases d.dirty) [
        | inl d_dirty ↦ rw d_dirty (Memᴰ.tail later)
        | inr clean ↦ rw clean later
      ]
]

module _ {S : Type 0} (write_chunk : S → ChunkCoord → Bytes → GraphQlOutcome × S)
    (chunks_around : S → ChunkCoord → ℤ → List StoredChunk × S) where
  -- The rounds left suffice for the attempts left.
  abbrev IsEnough : ℕ → ChunkCoord → Flushing S → Type 0
  IsEnough fuel coord f =
      (c : ChunkData)
      → find f.store coord ≡ some c
      → f.store.write_back_attempts ≤ fuel + made_at f.store c.coord

  module _ (fuel : ℕ) (coord : ChunkCoord) (f : Flushing S) where
    -- The rounds after this one.
    unfoldable pub next : Flushing S → Option (Flushing S)
    next = flush_chunk write_chunk chunks_around fuel coord

    pub round_absent :
        find f.store coord ≡ none
        → flush_chunk write_chunk chunks_around (suc fuel) coord f ≡ some f
    unfolding flush_chunk next
    round_absent absent = ap (found_round write_chunk chunks_around next f coord) absent

    module _ (c : ChunkData) (found : find f.store coord ≡ some c) where
      round_found :
          flush_chunk write_chunk chunks_around (suc fuel) coord f
          ≡ dirty_round write_chunk chunks_around next f coord c c.dirty
      unfolding flush_chunk next
      round_found = ap (found_round write_chunk chunks_around next f coord) found

      pub round_clean :
          c.dirty ≡ false → flush_chunk write_chunk chunks_around (suc fuel) coord f ≡ some f
      round_clean clean =
          round_found ∙ ap (dirty_round write_chunk chunks_around next f coord c) clean

      -- A round on a dirty chunk, by what its attempt comes to.
      pub round_dirty :
          c.dirty ≡ true
          → (r : WriteBack × List ChunkWriteBackFailure × ChunkStore)
          → settle (write_chunk f.source c.coord c.voxels).0 f.store coord c f.store.last_tick_ms
            ≡ r
          → flush_chunk write_chunk chunks_around (suc fuel) coord f
            ≡ end_round write_chunk chunks_around next f coord
                (r, (write_chunk f.source c.coord c.voxels).1)
      unfolding attempt_write_back
      round_dirty dirty r e =
          round_found
          ∙ ap (dirty_round write_chunk chunks_around next f coord c) dirty
          ∙ ap
              (λ r.
                end_round write_chunk chunks_around next f coord
                  (r, (write_chunk f.source c.coord c.voxels).1))
              e

  -- The loop ends, and cleans the chunk.
  abbrev Ends : ℕ → ChunkCoord → Flushing S → Type 0
  Ends fuel coord f =
      (f' : Flushing S) × (flush_chunk write_chunk chunks_around fuel coord f ≡ some f')
      × Cleans f.store f'.store coord

  -- The rounds after a retry end.
  abbrev Continues : ℕ → ChunkCoord → Type 0
  Continues fuel coord =
      (f : Flushing S) → 0 < fuel → IsEnough (fuel - 1) coord f → Ends fuel coord f

  retry-Ends :
      (fuel : ℕ) (coord : ChunkCoord) (f : Flushing S) (c : ChunkData)
      → find f.store coord ≡ some c
      → c.dirty ≡ true
      → made_at f.store c.coord + 1 < f.store.write_back_attempts
      → settle (write_chunk f.source c.coord c.voxels).0 f.store coord c f.store.last_tick_ms ≡ (
        WriteBack.retry,
        [],
        keep_retry f.store c (made_at f.store c.coord + 1) f.store.last_tick_ms,
      )
      → f.store.write_back_attempts ≤ fuel + made_at f.store c.coord
      → Continues fuel coord
      → Ends (suc fuel) coord f
  unfolding keep_retry flush_chunk next
  retry-Ends fuel coord f c found dirty less retried enough again =
      let made = made_at f.store c.coord in
      let kept = keep_retry f.store c (made + 1) f.store.last_tick_ms in
      let f1 =
        after_attempt write_chunk chunks_around f coord (write_chunk f.source c.coord c.voxels).1
          kept [] in
      let counted = made_at-keep_retry f.store c (made + 1) f.store.last_tick_ms in
      let still : IsEnough (fuel - 1) coord f1 = λ c' found'.
        let eq : c ≡ c' = some_inj.0 (sym found ∙ found') in
        subst (λ x. f.store.write_back_attempts ≤ fuel - 1 + made_at kept x.coord) eq
          (rw counted (omega (arith, less, enough))) in
      let (f', ends, cleans) = again f1 (omega (arith, less, enough)) still in
      (
        f',
        round_dirty fuel coord f c found dirty _ retried ∙ ends,
        record { clean = cleans.clean; others = cleans.others; limit = cleans.limit },
      )

  round-Ends :
      (fuel : ℕ) (coord : ChunkCoord) (f : Flushing S)
      → IsEnough fuel coord f
      → Continues fuel coord
      → Ends (suc fuel) coord f
  round-Ends fuel coord f enough again = elim (Option-cases (find f.store coord)) [
    | inl absent ↦ (
      f,
      round_absent fuel coord f absent,
      Cleans-refl f.store coord (λ c found. absurd (cc (absent, found))),
    )
    | inr (c, found) ↦ elim (Bool-cases c.dirty) [
      | inr clean ↦ (
        f,
        round_clean fuel coord f c found clean,
        Cleans-refl f.store coord (λ c' found'.
            let eq : c ≡ c' = some_inj.0 (sym found ∙ found') in
            ap (λ x. x.dirty) (sym eq) ∙ clean),
      )
      | inl dirty ↦
          elim (settle_cases (write_chunk f.source c.coord c.voxels).0 f.store coord c
            f.store.last_tick_ms) [
              | inl persisted ↦ (
                _,
                round_dirty fuel coord f c found dirty _ persisted,
                keep_persisted-Cleans f.store coord c,
              )
              | inr (inl (less, retried)) ↦
                  retry-Ends fuel coord f c found dirty less retried (enough c found) again
              | inr (inr (failure, dropped)) ↦ (
                _,
                round_dirty fuel coord f c found dirty _ dropped,
                keep_dropped-Cleans f.store coord c failure,
              )
            ]
    ]
  ]

  flush_chunk-Ends :
      (fuel : ℕ) (coord : ChunkCoord) (f : Flushing S)
      → IsEnough fuel coord f
      → Ends (suc fuel) coord f
  flush_chunk-Ends zero coord f enough =
      round-Ends zero coord f enough (λ f' positive. absurd (ground (arith, positive)))
  flush_chunk-Ends (suc fuel) coord f enough =
      round-Ends (suc fuel) coord f enough (λ f' positive enough'.
        flush_chunk-Ends fuel coord f' (λ c found. omega (arith, enough' c found)))

  -- The loop over the chunks ends, and every chunk that was dirty before is among those still to
  -- visit or clean.
  abbrev AllDirtyAre : ChunkStore → List ChunkCoord → Type 0
  AllDirtyAre s coords =
      (k : ChunkCoord) (c : ChunkData) → find s k ≡ some c → c.dirty ≡ true → Memᴰ k coords

  AllDirtyAre-next :
      (s s' : ChunkStore) (coord : ChunkCoord) (coords : List ChunkCoord)
      → AllDirtyAre s (coord ∷ coords)
      → Cleans s s' coord
      → AllDirtyAre s' coords
  AllDirtyAre-next s s' coord coords all cleans k c found dirty =
      elim (ChunkCoord_discrete coord k) [
        | yes same ↦ absurd (
            cc (
              subst (λ x. (c' : ChunkData) → find s' x ≡ some c' → c'.dirty ≡ false) same
                  cleans.clean c found,
              dirty,
            ))
        | no apart ↦ elim (Memᴰ.cases_cons (all k c (sym (cleans.others k apart) ∙ found) dirty)) [
          | inl e ↦ absurd (apart (sym e))
          | inr later ↦ later
        ]
      ]

  flush_chunks-drains :
      (coords : List ChunkCoord) (f : Flushing S)
      → AllDirtyAre f.store coords
      → (f' : Flushing S) × (flush_chunks write_chunk chunks_around coords f ≡ some f')
        × AllDirtyAre f'.store []
  unfolding flush_chunks
  flush_chunks-drains [] f all = (f, refl, all)
  flush_chunks-drains (coord ∷ coords) f all =
      let limit = f.store.write_back_attempts in
      let one_more : suc limit ≡ limit + 1 = omega arith in
      let ended : Ends (limit + 1) coord f =
        subst (λ n. Ends n coord f) one_more
          (flush_chunk-Ends limit coord f (λ c found. omega arith)) in
      let (f1, e, cleans) = ended in
      let (f', ends, drained) =
        flush_chunks-drains coords f1 (AllDirtyAre-next f.store f1.store coord coords all cleans) in
      (f', rw (flush_chunks, e) ends, drained)

  -- `flush` with a source always ends, whatever the source answers, and then no chunk of the store
  -- is dirty.
  pub flush_from-drains :
      (source : S) (s : ChunkStore)
      → (f : Flushing S) × (flush_from write_chunk chunks_around source s ≡ some f)
        × ((k : ChunkCoord) (c : ChunkData) → find f.store k ≡ some c → c.dirty ≡ false)
  unfolding flush_from
  flush_from-drains source s =
      let (f, ends, drained) =
        flush_chunks-drains (dirty_chunks s.chunks)
          (record { source = source; store = s; persisted = 0; dropped = []; waits = [] })
          (λ k c found dirty. dirty_chunks-Memᴰ s.chunks k c found dirty) in
      (
        f,
        ends,
        λ k c found. elim (Bool-cases c.dirty) [
          | inl dirty ↦ absurd (Memᴰ.not-nil (drained k c found dirty))
          | inr clean ↦ clean
        ],
      )
