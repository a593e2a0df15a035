-- ===== src/Session/ChunkStore/WriteBack/Attempt.antt =====
-- The outcomes of one write-back attempt of ChunkStore (src/session/world_session.cpp).
use crowdy_cpp.Base.{
  ℕ, ◌+◌, ◌≡◌, ◌≢◌, ◌<◌, ◌⊎◌, inl, inr, refl, sym, ap, ◌∙◌, true, false, ◌&&◌, some, List, [], ◌∷◌,
  ltb, Bool-cases, arith,
}
use crowdy_cpp.Base.Int.{ℤ}
use crowdy_cpp.Base.Maps.{lookup-insert_self, lookup-insert_ne}
use crowdy_cpp.Wire.Spatial.{ChunkCoord}
use crowdy_cpp.Session.Keys.{ChunkCoord_discrete}
use crowdy_cpp.Session.Chunk.{ChunkData}
use crowdy_cpp.Session.Outcome.{GraphQlOutcome, outcome_ok, write_back_retryable}
use crowdy_cpp.Session.ChunkStore.{ChunkWriteBackFailure, ChunkStore, find, with_chunk, touch}
use crowdy_cpp.Session.ChunkStore.WriteBack.{
  WriteBack, made_at, forget_write_back, keep_persisted, keep_retry, keep_dropped, settle,
}

-- After a step the chunk at `coord` is not dirty, and every other chunk is as it was.
pub record Cleans (s s' : ChunkStore) (coord : ChunkCoord) : Type 0 where
  pub clean : (c : ChunkData) → find s' coord ≡ some c → c.dirty ≡ false
  pub others : (k : ChunkCoord) → coord ≢ k → find s' k ≡ find s k
  pub limit : s'.write_back_attempts ≡ s.write_back_attempts

-- What an attempt comes to.
pub data Settled (s : ChunkStore) (coord : ChunkCoord) (c : ChunkData) (now : ℤ)
    : WriteBack × List ChunkWriteBackFailure × ChunkStore → Type 0 where
  persists : Settled s coord c now (WriteBack.persisted, [], keep_persisted s coord c)
  retries :
      made_at s c.coord + 1 < s.write_back_attempts
      → Settled s coord c now (WriteBack.retry, [], keep_retry s c (made_at s c.coord + 1) now)
  drops :
      (failure : ChunkWriteBackFailure)
      → Settled s coord c now (WriteBack.dropped, failure ∷ [], keep_dropped s coord c failure)

pub settle-Settled :
    (out : GraphQlOutcome) (s : ChunkStore) (coord : ChunkCoord) (c : ChunkData) (now : ℤ)
    → Settled s coord c now (settle out s coord c now)
unfolding settle
settle-Settled out s coord c now = elim (Bool-cases (outcome_ok out)) [
  | inl ok ↦ rw ok Settled.persists
  | inr failed ↦
      elim (Bool-cases
        (write_back_retryable out && ltb (made_at s c.coord + 1) s.write_back_attempts)) [
          | inl again ↦ rw (failed, again) (Settled.retries (ground (arith, again)))
          | inr given_up ↦ rw (failed, given_up) (Settled.drops _)
        ]
]

-- A chunk that is written back clean.
put_clean :
    (s : ChunkStore) (coord : ChunkCoord) (c : ChunkData)
    → c.dirty ≡ false
    → Cleans s (with_chunk s coord c) coord
put_clean s coord c clean = record {
  clean = λ c' found.
      let same : some c ≡ some c' =
        sym (lookup-insert_self ChunkCoord_discrete coord c s.chunks) ∙ found in
      let eq : c ≡ c' = cc same in ap (λ x. x.dirty) (sym eq) ∙ clean;
  others = λ k apart. lookup-insert_ne ChunkCoord_discrete coord k c s.chunks apart;
  limit = refl;
}

pub keep_persisted-Cleans :
    (s : ChunkStore) (coord : ChunkCoord) (c : ChunkData)
    → Cleans s (keep_persisted s coord c) coord
unfolding keep_persisted forget_write_back touch
keep_persisted-Cleans s coord c =
    let p = put_clean s coord (record c { dirty = false; stored_on_server = true }) refl in
    record { clean = p.clean; others = p.others; limit = refl }

pub keep_dropped-Cleans :
    (s : ChunkStore) (coord : ChunkCoord) (c : ChunkData) (failure : ChunkWriteBackFailure)
    → Cleans s (keep_dropped s coord c failure) coord
unfolding keep_dropped forget_write_back
keep_dropped-Cleans s coord c failure =
    let p = put_clean s coord (record c { dirty = false }) refl in
    record { clean = p.clean; others = p.others; limit = refl }

-- A write to be tried again has been tried once more.
pub made_at-keep_retry :
    (s : ChunkStore) (c : ChunkData) (attempts : ℕ) (now : ℤ)
    → made_at (keep_retry s c attempts now) c.coord ≡ attempts
unfolding keep_retry
made_at-keep_retry s c attempts now =
    rw (lookup-insert_self ChunkCoord_discrete c.coord attempts s.attempts_made) refl

-- The same as equations.
pub settle_cases :
    (out : GraphQlOutcome) (s : ChunkStore) (coord : ChunkCoord) (c : ChunkData) (now : ℤ)
    → (settle out s coord c now ≡ (WriteBack.persisted, [], keep_persisted s coord c))
      ⊎ (((made_at s c.coord + 1 < s.write_back_attempts)
            × (settle out s coord c now
                ≡ (WriteBack.retry, [], keep_retry s c (made_at s c.coord + 1) now)))
          ⊎ ((failure : ChunkWriteBackFailure) × (settle out s coord c now
                ≡ (WriteBack.dropped, failure ∷ [], keep_dropped s coord c failure))))
settle_cases out s coord c now = cases (settle out s coord c now) (settle-Settled out s coord c now)
  where
    cases :
        (r : WriteBack × List ChunkWriteBackFailure × ChunkStore)
        → Settled s coord c now r
        → (r ≡ (WriteBack.persisted, [], keep_persisted s coord c))
          ⊎ (((made_at s c.coord + 1 < s.write_back_attempts)
                × (r ≡ (WriteBack.retry, [], keep_retry s c (made_at s c.coord + 1) now)))
              ⊎ ((failure : ChunkWriteBackFailure) × (r
                    ≡ (WriteBack.dropped, failure ∷ [], keep_dropped s coord c failure))))
    cases _ Settled.persists = inl refl
    cases _ (Settled.retries less) = inr (inl (less, refl))
    cases _ (Settled.drops failure) = inr (inr (failure, refl))
