-- ===== src/Session/ChunkStore/WriteBack/Fate.antt =====
-- ChunkStore::pruneBeyond (include/crowdy/session/chunk_store.hpp): what may become of a chunk.
use crowdy_cpp.Base.{◌≡◌, refl, sym, ap, subst, Bool, true, false, ◌&&◌, Option, none, some}
use crowdy_cpp.Core.Le.{Bytes}
use crowdy_cpp.Wire.Spatial.{ChunkCoord}
use crowdy_cpp.Session.Chunk.{ChunkData}
use crowdy_cpp.Session.Outcome.{GraphQlOutcome, outcome_ok, write_back_retryable}

abbrev pub has_source : {S : Type 0} → Option S → Bool
has_source none = false
has_source (some source) = true

-- A chunk whose write had this outcome is gone, or is there unchanged when the write failed in a way
-- that can clear.
abbrev pub IsLeft : GraphQlOutcome → ChunkData → Option ChunkData → Type 0
IsLeft out c none = Unit {0}
IsLeft out c (some c') = (c' ≡ c) × (outcome_ok out ≡ false) × (write_back_retryable out ≡ true)

-- `Sent` says that a source was asked to write these bytes of a chunk, and what it answered.
module _ {S : Type 0} (Sent : S → ChunkCoord → Bytes → GraphQlOutcome → Type 0) where
  -- The fate of a chunk that is to be written, and of one that is not.
  abbrev pub FateOf : Bool → ChunkData → Option S → Option ChunkData → Type 0
  FateOf false c source left = left ≡ none
  FateOf true c source left =
      (after : S) × (source ≡ some after)
      × (out : GraphQlOutcome) × Sent after c.coord c.voxels out
      × IsLeft out c left

  -- What is left of what was found at a place, and the source after it.
  abbrev pub Fate : Bool → Option ChunkData → Option S → Option ChunkData → Type 0
  Fate has none source left = left ≡ none
  Fate has (some c) source left = FateOf (has && c.dirty) c source left

  -- A source that remembers what it was asked.
  abbrev pub Passes : Option S → Option S → Type 0
  Passes none source' = source' ≡ none
  Passes (some source) source' =
      (after : S) × (source' ≡ some after)
      × ((k : ChunkCoord) (voxels : Bytes) (out : GraphQlOutcome)
          → Sent source k voxels out
          → Sent after k voxels out)

  pub Passes-refl : (source : Option S) → Passes source source
  Passes-refl none = refl
  Passes-refl (some source) = (source, refl, λ k voxels out sent. sent)

  pub Passes-has : (a b : Option S) → Passes a b → has_source b ≡ has_source a
  Passes-has none b p = ap has_source p
  Passes-has (some x) b (y, e, f) = ap has_source e

  FateOf-Passes :
      (b : Bool) (c : ChunkData) (source source' : Option S) (left : Option ChunkData)
      → Passes source source'
      → FateOf b c source left
      → FateOf b c source' left
  FateOf-Passes false c source source' left p f = f
  FateOf-Passes true c source source' left p (after, e, out, sent, is) =
      let (after', e', g) = subst (λ o. Passes o source') e p in
      (after', e', out, g c.coord c.voxels out sent, is)

  pub Fate-Passes :
      (has : Bool) (found : Option ChunkData) (source source' : Option S) (left : Option ChunkData)
      → Passes source source'
      → Fate has found source left
      → Fate has found source' left
  Fate-Passes has none source source' left p f = f
  Fate-Passes has (some c) source source' left p f =
      FateOf-Passes (has && c.dirty) c source source' left p f

  FateOf-again :
      (has b : Bool) (c : ChunkData) (source source' : Option S) (left left' : Option ChunkData)
      → (has && c.dirty) ≡ b
      → Passes source source'
      → FateOf b c source left
      → Fate has left source' left'
      → FateOf b c source' left'
  FateOf-again has false c source source' left left' e p gone f =
      subst (λ l. Fate has l source' left') gone f
  FateOf-again has true c source source' none left' e p (after, e1, out, sent, is) f =
      let (after', e', g) = subst (λ o. Passes o source') e1 p in
      (after', e', out, g c.coord c.voxels out sent, subst (IsLeft out c) (sym f) tt)
  FateOf-again has true c source source' (some c') left' e p (after, e1, out, sent, is) f =
      subst (λ b. FateOf b c source' left') e
        (subst (λ d. FateOf (has && d.dirty) d source' left') is.0 f)

  -- A second round at the same place.
  pub Fate-again :
      (has : Bool) (found : Option ChunkData) (source source' : Option S)
      (left left' : Option ChunkData)
      → Passes source source'
      → Fate has found source left
      → Fate has left source' left'
      → Fate has found source' left'
  Fate-again has none source source' left left' p gone f =
      subst (λ l. Fate has l source' left') gone f
  Fate-again has (some c) source source' left left' p h f =
      FateOf-again has (has && c.dirty) c source source' left left' refl p h f
