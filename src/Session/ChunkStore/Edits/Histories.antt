-- ===== src/Session/ChunkStore/Edits/Histories.antt =====
-- Short histories of ChunkStore (include/crowdy/session/chunk_store.hpp): a local edit, the edits of
-- others, and the echo of the local edit.
use crowdy_cpp.Base.{
  ℕ, ◌≡◌, inl, inr, refl, ap, ◌∙◌, subst, Bool, true, false, none, some, List, [], ◌∷◌, ◌++◌, map,
  All, Bool-cases, arith,
}
use crowdy_cpp.Base.Int.{ℤ, ltbℤ, ◌-ℤ◌, pos}
use crowdy_cpp.Core.Le.{Bytes}
use crowdy_cpp.Wire.Spatial.{ChunkCoord}
use crowdy_cpp.Session.Keys.{Position, voxel_key}
use crowdy_cpp.Session.Chunk.{VoxelState}
use crowdy_cpp.Session.ChunkStore.{PendingEdit, ChunkStore, apply_local, touch}
use crowdy_cpp.Session.ChunkStore.Edits.{
  pending_edit_ttl_ms, unexpired, edits_at, SpatialNotification, bytes_eq, is_echo_of, find_echo,
  mark_stale, take_echo, ingest,
}
use crowdy_cpp.Session.ChunkStore.Edits.Pending.{OnlyPending}
use crowdy_cpp.Session.ChunkStore.Edits.Echo.{judge, IsLive, take_echo_lem, unexpired-All}

-- A pending edit that the notification does not echo.
abbrev pub IsOther : SpatialNotification → PendingEdit → Type 0
IsOther n e = is_echo_of n e ≡ false

pub bytes_eq_refl : (xs : Bytes) → bytes_eq xs xs ≡ true
bytes_eq_refl [] = refl
bytes_eq_refl (x ∷ xs) = ground (arith, bytes_eq_refl xs)

find_echo_at :
    (n : SpatialNotification) (before : List PendingEdit) (x : PendingEdit)
    (after : List PendingEdit)
    → All (IsOther n) before
    → is_echo_of n x ≡ true
    → find_echo n (before ++ (x ∷ after)) ≡ some (before, x, after)
unfolding find_echo
find_echo_at n [] x after others hit = rw hit refl
find_echo_at n (b ∷ before) x after others hit =
    rw (others.0, find_echo_at n before x after others.1 hit) refl

find_echo_misses :
    (n : SpatialNotification) (edits : List PendingEdit)
    → All (IsOther n) edits
    → find_echo n edits ≡ none
unfolding find_echo
find_echo_misses n [] others = refl
find_echo_misses n (e ∷ edits) others = rw (others.0, find_echo_misses n edits others.1) refl

unexpired-append :
    (now : ℤ) (xs ys : List PendingEdit)
    → unexpired now (xs ++ ys) ≡ unexpired now xs ++ unexpired now ys
unexpired-append now [] ys = refl
unexpired-append now (x ∷ xs) ys =
    elim (Bool-cases (ltbℤ x.sent_at_ms (now -ℤ pos pending_edit_ttl_ms))) [
      | inl old ↦ rw old (unexpired-append now xs ys)
      | inr live ↦ rw live (ap (λ es. x ∷ es) (unexpired-append now xs ys))
    ]

-- A live edit at the end of the list stays there.
unexpired_last :
    (now : ℤ) (xs : List PendingEdit) (x : PendingEdit)
    → IsLive now x
    → unexpired now (xs ++ (x ∷ [])) ≡ unexpired now xs ++ (x ∷ [])
unexpired_last now xs x live = unexpired-append now xs (x ∷ []) ∙ rw live refl

-- The echo of the newest edit, and of an older one.
judge_last :
    (n : SpatialNotification) (now : ℤ) (xs : List PendingEdit) (x : PendingEdit)
    → All (IsOther n) xs
    → is_echo_of n x ≡ true
    → IsLive now x
    → (judge n (unexpired now (xs ++ (x ∷ [])))).0 ≡ x.stale
unfolding judge
judge_last n now xs x others hit live =
    let found =
      find_echo_at n (unexpired now xs) x [] (unexpired-All (IsOther n) now xs others) hit in
    rw (judge, unexpired_last now xs x live, found) (ground arith)

judge_other :
    (n : SpatialNotification) (edits : List PendingEdit)
    → All (IsOther n) edits
    → judge n edits ≡ (true, map mark_stale edits)
unfolding judge
judge_other n edits others = rw (judge, find_echo_misses n edits others) refl

mark_stale_others :
    (n : SpatialNotification) (edits : List PendingEdit)
    → All (IsOther n) edits
    → All (IsOther n) (map mark_stale edits)
mark_stale_others n [] others = others
mark_stale_others n (e ∷ edits) others = (others.0, mark_stale_others n edits others.1)

map_last :
    (xs : List PendingEdit) (x : PendingEdit)
    → map mark_stale (xs ++ (x ∷ [])) ≡ map mark_stale xs ++ (mark_stale x ∷ [])
map_last [] x = refl
map_last (y ∷ xs) x = ap (λ es. mark_stale y ∷ es) (map_last xs x)

-- An edit that arrives is applied exactly when `judge` says so.
pub ingest_ignored :
    (s : ChunkStore) (n : SpatialNotification) (p : Position) (v : VoxelState) (now : ℤ)
    → (take_echo s n p now).0 ≡ false
    → ingest s n p v now ≡ (false, (take_echo s n p now).1)
unfolding ingest
ingest_ignored s n p v now e = rw (ingest, e) refl

pub ingest_applied :
    (s : ChunkStore) (n : SpatialNotification) (p : Position) (v : VoxelState) (now : ℤ)
    → (take_echo s n p now).0 ≡ true
    → ingest s n p v now ≡ (true, apply_local (take_echo s n p now).1 n.chunk p v false)
unfolding ingest
ingest_applied s n p v now e = rw (ingest, e) refl

pub edits_at-apply_local :
    (s : ChunkStore) (coord : ChunkCoord) (p : Position) (v : VoxelState) (mark : Bool) (k : ℕ)
    → edits_at (apply_local s coord p v mark) coord k ≡ edits_at s coord k
unfolding apply_local edits_at touch
edits_at-apply_local s coord p v mark k = refl

-- A store in which the newest pending edit of the voxel is `mine`, behind others.
pub record Waits (s : ChunkStore) (n : SpatialNotification) (p : Position) (mine : PendingEdit)
    : Type 0 where
  pub before : List PendingEdit
  pub held : edits_at s n.chunk (voxel_key p) ≡ before ++ (mine ∷ [])
  pub others : All (IsOther n) before
  pub echoed : is_echo_of n mine ≡ true

-- The echo of the newest local edit, which no edit of another client followed, is not applied: only
-- the list of pending edits changes.
pub ingest-echo :
    (s : ChunkStore) (n : SpatialNotification) (p : Position) (v : VoxelState) (mine : PendingEdit)
    (now : ℤ)
    → Waits s n p mine
    → mine.stale ≡ false
    → IsLive now mine
    → ((ingest s n p v now).0 ≡ false) × OnlyPending s (ingest s n p v now).1
ingest-echo s n p v mine now w fresh live =
    let (verdict, left, only) = take_echo_lem s n p now in
    let ignored : (take_echo s n p now).0 ≡ false =
      verdict
      ∙ ap (λ es. (judge n (unexpired now es)).0) w.held
      ∙ judge_last n now w.before mine w.others w.echoed live
      ∙ fresh in
    rw (ingest_ignored s n p v now ignored) (refl, only)

-- Another client's edit of the voxel is applied, and leaves the newest local edit waiting, stale.
pub ingest-other :
    (s : ChunkStore) (n m : SpatialNotification) (p : Position) (v : VoxelState)
    (mine : PendingEdit) (now : ℤ)
    → Waits s n p mine
    → m.chunk ≡ n.chunk
    → All (IsOther m) (edits_at s m.chunk (voxel_key p))
    → IsLive now mine
    → ((ingest s m p v now).0 ≡ true)
      × ((ingest s m p v now).1 ≡ apply_local (take_echo s m p now).1 m.chunk p v false)
      × Waits (ingest s m p v now).1 n p (mark_stale mine)
ingest-other s n m p v mine now w same others live =
    let key = voxel_key p in
    let (verdict, left, only) = take_echo_lem s m p now in
    let judged =
      judge_other m (unexpired now (edits_at s m.chunk key))
        (unexpired-All (IsOther m) now (edits_at s m.chunk key) others) in
    let applied = ingest_applied s m p v now (verdict ∙ ap (λ r. r.0) judged) in
    let s' = (take_echo s m p now).1 in
    let held : edits_at (apply_local s' m.chunk p v false) n.chunk key
        ≡ map mark_stale (unexpired now w.before) ++ (mark_stale mine ∷ []) =
      subst
        (λ c.
          edits_at (apply_local s' m.chunk p v false) c key
          ≡ map mark_stale (unexpired now w.before) ++ (mark_stale mine ∷ []))
        same
        (edits_at-apply_local s' m.chunk p v false key
          ∙ left
          ∙ ap (λ r. r.1) judged
          ∙ ap (λ c. map mark_stale (unexpired now (edits_at s c key))) same
          ∙ ap (λ es. map mark_stale (unexpired now es)) w.held
          ∙ ap (map mark_stale) (unexpired_last now w.before mine live)
          ∙ map_last (unexpired now w.before) mine) in
    rw applied (
      refl,
      refl,
      record {
        before = map mark_stale (unexpired now w.before);
        held = held;
        others =
            mark_stale_others n (unexpired now w.before)
              (unexpired-All (IsOther n) now w.before w.others);
        echoed = w.echoed;
      },
    )

-- The echo of a stale edit that is the newest is applied.
pub ingest_stale :
    (s : ChunkStore) (n : SpatialNotification) (p : Position) (v : VoxelState) (mine : PendingEdit)
    (now : ℤ)
    → Waits s n p mine
    → mine.stale ≡ true
    → IsLive now mine
    → ingest s n p v now ≡ (true, apply_local (take_echo s n p now).1 n.chunk p v false)
ingest_stale s n p v mine now w stale live =
    let (verdict, left, only) = take_echo_lem s n p now in
    ingest_applied s n p v now (
      verdict
      ∙ ap (λ es. (judge n (unexpired now es)).0) w.held
      ∙ judge_last n now w.before mine w.others w.echoed live
      ∙ stale)

-- The echo of a local edit behind which a newer one waits is not applied.
pub ingest-older :
    (s : ChunkStore) (n : SpatialNotification) (p : Position) (v : VoxelState) (now : ℤ)
    (before : List PendingEdit) (older newer : PendingEdit) (after : List PendingEdit)
    → unexpired now (edits_at s n.chunk (voxel_key p)) ≡ before ++ (older ∷ newer ∷ after)
    → All (IsOther n) before
    → is_echo_of n older ≡ true
    → ((ingest s n p v now).0 ≡ false) × OnlyPending s (ingest s n p v now).1
unfolding judge
ingest-older s n p v now before older newer after held others hit =
    let (verdict, left, only) = take_echo_lem s n p now in
    let found = find_echo_at n before older (newer ∷ after) others hit in
    let ignored : (take_echo s n p now).0 ≡ false =
      verdict ∙ ap (λ es. (judge n es).0) held ∙ rw (judge, found) (ground arith) in
    rw (ingest_ignored s n p v now ignored) (refl, only)
