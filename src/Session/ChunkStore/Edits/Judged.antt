-- ===== src/Session/ChunkStore/Edits/Judged.antt =====
-- ChunkStore::takeEcho (include/crowdy/session/chunk_store.hpp): which edits are applied, and what is
-- left of the edits that wait, at the voxel and elsewhere.
use crowdy_cpp.Base.{
  ℕ, ◌≡◌, ◌≢◌, ◌⊎◌, inl, inr, refl, sym, ap, ap₂, ◌∙◌, subst, Bool, true, false, ◌&&◌, Option, none,
  some, List, [], ◌∷◌, ◌++◌, map, length, All, Bool-cases, Option-cases, ◌==◌, ℕ_discrete, arith,
}
use crowdy_cpp.Base.Int.{ℤ}
use crowdy_cpp.Base.Maps.{lookup, lookup-insert_self, lookup-insert_ne, lookup-erase_ne, insert}
use crowdy_cpp.Core.Le.{Bytes}
use crowdy_cpp.Wire.Spatial.{ChunkCoord}
use crowdy_cpp.Session.Keys.{ChunkCoord_discrete, Position, voxel_key}
use crowdy_cpp.Session.ChunkStore.{PendingEdit, ChunkStore}
use crowdy_cpp.Session.ChunkStore.Edits.{
  unexpired, keep_live, keep_chunk, live_pending, voxels_of, edits_of, edits_at, put_edits,
  SpatialNotification, bytes_eq, is_echo_of, find_echo, mark_stale, match_echo, decide_echo,
  take_echo,
}
use crowdy_cpp.Session.ChunkStore.Edits.Pending.{OnlyPending, edits_at-keep_chunk}
use crowdy_cpp.Session.ChunkStore.Edits.Echo.{judge, take_echo_lem}

-- An edit that arrives is the echo of an own one that has its sequence and its sender.
abbrev pub IsEcho : SpatialNotification → PendingEdit → Type 0
IsEcho n e = (e.sequence ≡ n.sequence) × (e.uuid ≡ n.uuid)

-- The echo of `x` is applied when another client's edit came after `x` and no own one waits behind it.
abbrev pub IsVerdict : PendingEdit → List PendingEdit → Bool → Type 0
IsVerdict x [] applied = applied ≡ x.stale
IsVerdict x (y ∷ after) applied = applied ≡ false

-- The edits with their mark set.
abbrev pub marked : List PendingEdit → List PendingEdit
marked [] = []
marked (e ∷ edits) = record e { stale = true } ∷ marked edits

-- Another client's edit is applied and marks the waiting ones; the echo of an own edit, the first that
-- waits with this sequence and sender, takes that edit off the list.
abbrev pub IsJudged : SpatialNotification → List PendingEdit → Bool → List PendingEdit → Type 0
IsJudged n edits applied left =
    (All (λ e. IsEcho n e → ⊥) edits × (applied ≡ true) × (left ≡ marked edits))
    ⊎ ((before : List PendingEdit) × (x : PendingEdit) × (after : List PendingEdit) × (edits
          ≡ before ++ (x ∷ after))
        × All (λ e. IsEcho n e → ⊥) before
        × IsEcho n x
        × (left ≡ before ++ after)
        × IsVerdict x after applied)

bytes_eq_refl : (xs : Bytes) → bytes_eq xs xs ≡ true
bytes_eq_refl [] = refl
bytes_eq_refl (x ∷ xs) = ground (arith, bytes_eq_refl xs)

bytes_eq_sound : (xs ys : Bytes) → bytes_eq xs ys ≡ true → xs ≡ ys
bytes_eq_sound [] [] e = refl
bytes_eq_sound [] (y ∷ ys) e = absurd (cc e)
bytes_eq_sound (x ∷ xs) [] e = absurd (cc e)
bytes_eq_sound (x ∷ xs) (y ∷ ys) e =
    let h : (x ≡ y) × (bytes_eq xs ys ≡ true) = ground (arith, e) in
    ap₂ (λ b bs. b ∷ bs) h.0 (bytes_eq_sound xs ys h.1)

is_echo_of-IsEcho : (n : SpatialNotification) (e : PendingEdit) → is_echo_of n e ≡ true → IsEcho n e
is_echo_of-IsEcho n e h =
    let both : (e.sequence ≡ n.sequence) × (bytes_eq e.uuid n.uuid ≡ true) = ground (arith, h) in
    (both.0, bytes_eq_sound e.uuid n.uuid both.1)

IsEcho-is_echo_of : (n : SpatialNotification) (e : PendingEdit) → IsEcho n e → is_echo_of n e ≡ true
IsEcho-is_echo_of n e (s, u) =
    let same : bytes_eq e.uuid n.uuid ≡ true =
      ap (λ k. bytes_eq k n.uuid) u ∙ bytes_eq_refl n.uuid in
    ground (arith, s, same)

marked_lem : (edits : List PendingEdit) → map mark_stale edits ≡ marked edits
marked_lem [] = refl
marked_lem (e ∷ edits) = ap (λ es. record e { stale = true } ∷ es) (marked_lem edits)

verdict_lem :
    (x : PendingEdit) (after : List PendingEdit)
    → IsVerdict x after (x.stale && (length after == 0))
verdict_lem x [] = ground arith
verdict_lem x (y ∷ after) = ground arith

-- What the search finds, and what is in front of it.
abbrev IsFound :
    SpatialNotification
    → List PendingEdit
    → Option (List PendingEdit × PendingEdit × List PendingEdit)
    → Type 0
IsFound n edits none = All (λ e. IsEcho n e → ⊥) edits
IsFound n edits (some (before, x, after)) =
    (edits ≡ before ++ (x ∷ after)) × All (λ e. IsEcho n e → ⊥) before × IsEcho n x

further :
    (n : SpatialNotification) (e : PendingEdit) (edits : List PendingEdit)
    (found : Option (List PendingEdit × PendingEdit × List PendingEdit))
    → (IsEcho n e → ⊥)
    → IsFound n edits found
    → IsFound n
        (e ∷ edits)
        (elim found [ none ↦ none | some (before, x, after) ↦ some (e ∷ before, x, after) ])
further n e edits none miss h = (miss, h)
further n e edits (some (before, x, after)) miss (whole, front, hit) =
    (ap (λ es. e ∷ es) whole, (miss, front), hit)

find_echo-IsFound :
    (n : SpatialNotification) (edits : List PendingEdit) → IsFound n edits (find_echo n edits)
unfolding find_echo
find_echo-IsFound n [] = tt
find_echo-IsFound n (e ∷ edits) = elim (Bool-cases (is_echo_of n e)) [
  | inl hit ↦ rw hit (refl, tt, is_echo_of-IsEcho n e hit)
  | inr miss ↦ rw miss (
      further n e edits (find_echo n edits) (λ echo. absurd (cc (miss, IsEcho-is_echo_of n e echo)))
        (find_echo-IsFound n edits))
]

judge-IsJudged :
    (n : SpatialNotification) (edits : List PendingEdit)
    → IsJudged n edits (judge n edits).0 (judge n edits).1
unfolding judge
judge-IsJudged n edits = elim (Option-cases (find_echo n edits)) [
  | inl foreign ↦
      rw (judge, foreign)
        (inl (subst (IsFound n edits) foreign (find_echo-IsFound n edits), refl, marked_lem edits))
  | inr ((before, x, after), found) ↦
      let (whole, front, hit) = subst (IsFound n edits) found (find_echo-IsFound n edits) in
      rw (judge, found) (inr (before, x, after, whole, front, hit, refl, verdict_lem x after))
]

-- Another voxel: of another chunk, or with another key.
abbrev pub IsElsewhere : ChunkCoord → ℕ → ChunkCoord → ℕ → Type 0
IsElsewhere coord key c k = (coord ≢ c) ⊎ (key ≢ k)

put_edits-elsewhere :
    (s : ChunkStore) (coord : ChunkCoord) (key : ℕ) (edits : List PendingEdit) (c : ChunkCoord)
    (k : ℕ)
    → IsElsewhere coord key c k
    → edits_at (put_edits s coord key edits) c k ≡ edits_at s c k
unfolding edits_at
put_edits-elsewhere s coord key edits c k far =
    let voxels = voxels_of (lookup ChunkCoord_discrete coord s.pending) in
    let stored = insert ℕ_discrete key edits voxels in
    elim (ChunkCoord_discrete coord c) [
      | no apart ↦
          ap (λ o. edits_of (lookup ℕ_discrete k (voxels_of o)))
            (lookup-insert_ne ChunkCoord_discrete coord c stored s.pending apart)
      | yes same ↦ elim far [
        | inl apart ↦ absurd (apart same)
        | inr other ↦
            subst (λ j. edits_at (put_edits s coord key edits) j k ≡ edits_at s j k) same
              (ap (λ o. edits_of (lookup ℕ_discrete k (voxels_of o)))
                  (lookup-insert_self ChunkCoord_discrete coord stored s.pending)
                ∙ ap edits_of (lookup-insert_ne ℕ_discrete key k edits voxels other))
      ]
    ]

keep_chunk-elsewhere :
    (s : ChunkStore) (coord : ChunkCoord) (voxels : List (ℕ × List PendingEdit)) (c : ChunkCoord)
    (k : ℕ)
    → coord ≢ c
    → edits_at (keep_chunk s coord voxels) c k ≡ edits_at s c k
unfolding edits_at
keep_chunk-elsewhere s coord [] c k apart =
    ap (λ o. edits_of (lookup ℕ_discrete k (voxels_of o)))
      (lookup-erase_ne ChunkCoord_discrete coord c s.pending apart)
keep_chunk-elsewhere s coord (v ∷ voxels) c k apart =
    ap (λ o. edits_of (lookup ℕ_discrete k (voxels_of o)))
      (lookup-insert_ne ChunkCoord_discrete coord c (v ∷ voxels) s.pending apart)

keep_live-elsewhere :
    (voxels : List (ℕ × List PendingEdit)) (key k : ℕ) (edits : List PendingEdit)
    → key ≢ k
    → lookup ℕ_discrete k (keep_live voxels key edits) ≡ lookup ℕ_discrete k voxels
keep_live-elsewhere voxels key k [] apart = lookup-erase_ne ℕ_discrete key k voxels apart
keep_live-elsewhere voxels key k (e ∷ edits) apart =
    lookup-insert_ne ℕ_discrete key k (e ∷ edits) voxels apart

kept-elsewhere :
    (s : ChunkStore) (coord : ChunkCoord) (key : ℕ) (voxels : List (ℕ × List PendingEdit))
    (live : List PendingEdit) (c : ChunkCoord) (k : ℕ)
    → lookup ChunkCoord_discrete coord s.pending ≡ some voxels
    → IsElsewhere coord key c k
    → edits_at (keep_chunk s coord (keep_live voxels key live)) c k ≡ edits_at s c k
unfolding edits_at
kept-elsewhere s coord key voxels live c k found far = elim (ChunkCoord_discrete coord c) [
  | no apart ↦ keep_chunk-elsewhere s coord (keep_live voxels key live) c k apart
  | yes same ↦ elim far [
    | inl apart ↦ absurd (apart same)
    | inr other ↦
        subst (λ j. edits_at (keep_chunk s coord (keep_live voxels key live)) j k ≡ edits_at s j k)
          same
          (edits_at-keep_chunk s coord k (keep_live voxels key live)
            ∙ ap edits_of (keep_live-elsewhere voxels key k live other)
            ∙ sym (ap (λ o. edits_of (lookup ℕ_discrete k (voxels_of o))) found))
  ]
]

live_pending-elsewhere :
    (s : ChunkStore) (coord : ChunkCoord) (key : ℕ) (now : ℤ) (c : ChunkCoord) (k : ℕ)
    → IsElsewhere coord key c k
    → edits_at (live_pending s coord key now).1 c k ≡ edits_at s c k
unfolding live_pending
live_pending-elsewhere s coord key now c k far =
    elim (Option-cases (lookup ChunkCoord_discrete coord s.pending)) [
      | inl absent ↦ rw (live_pending, absent) refl
      | inr (voxels, found) ↦ elim (Option-cases (lookup ℕ_discrete key voxels)) [
        | inl absent ↦ rw (live_pending, found, absent) refl
        | inr (edits, there) ↦
            rw (live_pending, found, there)
              (kept-elsewhere s coord key voxels (unexpired now edits) c k found far)
      ]
    ]

match_echo-elsewhere :
    (s : ChunkStore) (n : SpatialNotification) (key : ℕ) (now : ℤ) (edits : List PendingEdit)
    (c : ChunkCoord) (k : ℕ)
    → IsElsewhere n.chunk key c k
    → edits_at (match_echo s n key now edits).1 c k ≡ edits_at s c k
unfolding match_echo
match_echo-elsewhere s n key now edits c k far = elim (Option-cases (find_echo n edits)) [
  | inl foreign ↦
      rw (match_echo, foreign) (put_edits-elsewhere s n.chunk key (map mark_stale edits) c k far)
  | inr ((before, x, after), found) ↦
      rw (match_echo, found)
        (live_pending-elsewhere (put_edits s n.chunk key (before ++ after)) n.chunk key now c k far
          ∙ put_edits-elsewhere s n.chunk key (before ++ after) c k far)
]

decide_echo-elsewhere :
    (s : ChunkStore) (n : SpatialNotification) (key : ℕ) (now : ℤ) (edits : List PendingEdit)
    (c : ChunkCoord) (k : ℕ)
    → IsElsewhere n.chunk key c k
    → edits_at (decide_echo s n key now edits).1 c k ≡ edits_at s c k
decide_echo-elsewhere s n key now [] c k far = refl
decide_echo-elsewhere s n key now (e ∷ edits) c k far =
    match_echo-elsewhere s n key now (e ∷ edits) c k far

-- Of the unexpired own edits that wait at its voxel, an edit that arrives is the echo of the first with
-- its sequence and sender, which goes off the list, or it is another client's, is applied, and marks
-- them all. An echo is applied only when its edit was marked and no own edit waits behind it. The
-- store then holds the edits that are left, in their order; the edits that wait at any other voxel,
-- and all else of the store, are as they were.
pub take_echo-IsJudged :
    (s : ChunkStore) (n : SpatialNotification) (p : Position) (now : ℤ) (c : ChunkCoord) (k : ℕ)
    → IsElsewhere n.chunk (voxel_key p) c k
    → let r = take_echo s n p now in
      IsJudged n
        (unexpired now (edits_at s n.chunk (voxel_key p)))
        r.0
        (edits_at r.1 n.chunk (voxel_key p))
      × (edits_at r.1 c k ≡ edits_at s c k)
      × OnlyPending s r.1
unfolding take_echo
take_echo-IsJudged s n p now c k far =
    let edits = unexpired now (edits_at s n.chunk (voxel_key p)) in
    let (verdict, left, only) = take_echo_lem s n p now in
    let (live, s') = live_pending s n.chunk (voxel_key p) now in
    (
      subst (λ v. IsJudged n edits v (edits_at (take_echo s n p now).1 n.chunk (voxel_key p)))
          (sym verdict)
          (subst (IsJudged n edits (judge n edits).0) (sym left) (judge-IsJudged n edits)),
      decide_echo-elsewhere s' n (voxel_key p) now live c k far
          ∙ live_pending-elsewhere s n.chunk (voxel_key p) now c k far,
      only,
    )
