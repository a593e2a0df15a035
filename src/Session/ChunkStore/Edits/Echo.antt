-- ===== src/Session/ChunkStore/Edits/Echo.antt =====
-- How ChunkStore (include/crowdy/session/chunk_store.hpp) treats an edit that arrives: the echo of an
-- own edit, and the edits of others.
use mathlib.Core.Option.{some_inj}
use crowdy_cpp.Base.{
  ℕ, ◌≡◌, inl, inr, refl, sym, ap, ◌∙◌, subst, Bool, true, false, ◌&&◌, Option, none, some, List,
  [], ◌∷◌, ◌++◌, map, All, Bool-cases, Option-cases, ◌==◌, length,
}
use crowdy_cpp.Base.Int.{ℤ, ltbℤ, ◌-ℤ◌, pos}
use crowdy_cpp.Session.Keys.{Position, voxel_key}
use crowdy_cpp.Session.ChunkStore.{PendingEdit, ChunkStore}
use crowdy_cpp.Session.ChunkStore.Edits.{
  pending_edit_ttl_ms, unexpired, live_pending, edits_at, put_edits, SpatialNotification,
  is_echo_of, find_echo, mark_stale, match_echo, decide_echo, take_echo,
}
use crowdy_cpp.Session.ChunkStore.Edits.Pending.{
  OnlyPending, OnlyPending-trans, live_pending-OnlyPending, live_pending_lem, edits_at-put_edits,
}

-- What the live edits of the voxel say of an edit that arrives: whether it is applied, and the edits
-- left. The echo of an own edit takes that edit off the list, and is applied only when another
-- client's edit came in between and no newer local edit waits behind it. Any other edit is applied,
-- and marks the waiting ones.
unfoldable pub judge : SpatialNotification → List PendingEdit → Bool × List PendingEdit
judge n edits = elim (find_echo n edits) [
  | none ↦ (true, map mark_stale edits)
  | some (before, echoed, after) ↦ (echoed.stale && (length after == 0), before ++ after)
]

-- An edit that is not expired.
abbrev pub IsLive : ℤ → PendingEdit → Type 0
IsLive now e = ltbℤ e.sent_at_ms (now -ℤ pos pending_edit_ttl_ms) ≡ false

pub unexpired_whole :
    (now : ℤ) (edits : List PendingEdit) → All (IsLive now) edits → unexpired now edits ≡ edits
unexpired_whole now [] h = refl
unexpired_whole now (e ∷ edits) h = rw (h.0, unexpired_whole now edits h.1) refl

pub unexpired-All :
    (P : PendingEdit → Type 0) (now : ℤ) (edits : List PendingEdit)
    → All P edits
    → All P (unexpired now edits)
unexpired-All P now [] h = h
unexpired-All P now (e ∷ edits) h =
    elim (Bool-cases (ltbℤ e.sent_at_ms (now -ℤ pos pending_edit_ttl_ms))) [
      | inl old ↦ rw old (unexpired-All P now edits h.1)
      | inr live ↦ rw live (h.0, unexpired-All P now edits h.1)
    ]

pub unexpired-IsLive : (now : ℤ) (edits : List PendingEdit) → All (IsLive now) (unexpired now edits)
unexpired-IsLive now [] = tt
unexpired-IsLive now (e ∷ edits) =
    elim (Bool-cases (ltbℤ e.sent_at_ms (now -ℤ pos pending_edit_ttl_ms))) [
      | inl old ↦ rw old (unexpired-IsLive now edits)
      | inr live ↦ rw live (live, unexpired-IsLive now edits)
    ]

-- The edits in front of the echoed one, that one, and those behind it.
abbrev Split : Type 0
Split = List PendingEdit × PendingEdit × List PendingEdit

abbrev join : Split → List PendingEdit
join (before, echoed, after) = before ++ (echoed ∷ after)

abbrev further : PendingEdit → Option Split → Option Split
further x none = none
further x (some (before, echoed, after)) = some (x ∷ before, echoed, after)

find_echo_hit :
    (n : SpatialNotification) (x : PendingEdit) (edits : List PendingEdit)
    → is_echo_of n x ≡ true
    → find_echo n (x ∷ edits) ≡ some ([], x, edits)
unfolding find_echo
find_echo_hit n x edits hit = rw hit refl

find_echo_miss :
    (n : SpatialNotification) (x : PendingEdit) (edits : List PendingEdit)
    → is_echo_of n x ≡ false
    → find_echo n (x ∷ edits) ≡ further x (find_echo n edits)
unfolding find_echo
find_echo_miss n x edits miss = elim (Option-cases (find_echo n edits)) [
  | inl none_found ↦ rw (miss, none_found) refl
  | inr (r, found) ↦ rw (miss, found) refl
]

-- The search takes the list apart.
pub find_echo-splits :
    (n : SpatialNotification) (edits : List PendingEdit) (r : Split)
    → find_echo n edits ≡ some r
    → edits ≡ join r
unfolding find_echo
find_echo-splits n [] r e = absurd (cc e)
find_echo-splits n (x ∷ edits) r e = elim (Bool-cases (is_echo_of n x)) [
  | inl hit ↦ ap join (some_inj.0 (sym (find_echo_hit n x edits hit) ∙ e))
  | inr miss ↦ elim (Option-cases (find_echo n edits)) [
    | inl none_found ↦
        let gone : none ≡ some r =
          sym (ap (further x) none_found) ∙ sym (find_echo_miss n x edits miss) ∙ e in
        absurd (cc gone)
    | inr (q, found) ↦
        let same : some (x ∷ q.0, q.1, q.2) ≡ some r =
          sym (ap (further x) found) ∙ sym (find_echo_miss n x edits miss) ∙ e in
        ap (λ es. x ∷ es) (find_echo-splits n edits q found) ∙ ap join (some_inj.0 same)
  ]
]

All-unsplit :
    (P : PendingEdit → Type 0) (before : List PendingEdit) (x : PendingEdit)
    (after : List PendingEdit)
    → All P (before ++ (x ∷ after))
    → All P (before ++ after)
All-unsplit P [] x after h = h.1
All-unsplit P (b ∷ before) x after h = (h.0, All-unsplit P before x after h.1)

-- An answer and a store that are as `v` says.
abbrev Judged :
    ChunkStore → SpatialNotification → ℕ → Bool × ChunkStore → Bool × List PendingEdit → Type 0
Judged s n key r v = (r.0 ≡ v.0) × (edits_at r.1 n.chunk key ≡ v.1) × OnlyPending s r.1

match_echo-Judged :
    (s : ChunkStore) (n : SpatialNotification) (key : ℕ) (now : ℤ) (edits : List PendingEdit)
    → All (IsLive now) edits
    → Judged s n key (match_echo s n key now edits) (judge n edits)
unfolding match_echo judge
match_echo-Judged s n key now edits live = elim (Option-cases (find_echo n edits)) [
  | inl foreign ↦
      rw (match_echo, judge, foreign)
        (refl, edits_at-put_edits s n.chunk key (map mark_stale edits), (_, refl))
  | inr ((before, echoed, after), found) ↦
      let left = put_edits s n.chunk key (before ++ after) in
      let whole = find_echo-splits n edits (before, echoed, after) found in
      let still =
        All-unsplit (IsLive now) before echoed after (subst (All (IsLive now)) whole live) in
      rw (match_echo, judge, found)
        (
          refl,
          (live_pending_lem left n.chunk key now).1
              ∙ ap (unexpired now) (edits_at-put_edits s n.chunk key (before ++ after))
              ∙ unexpired_whole now (before ++ after) still,
          OnlyPending-trans s left (live_pending left n.chunk key now).1 (_, refl)
              (live_pending-OnlyPending left n.chunk key now),
        )
]

decide_echo-Judged :
    (s : ChunkStore) (n : SpatialNotification) (key : ℕ) (now : ℤ) (edits : List PendingEdit)
    → edits_at s n.chunk key ≡ edits
    → All (IsLive now) edits
    → Judged s n key (decide_echo s n key now edits) (judge n edits)
unfolding judge find_echo
decide_echo-Judged s n key now [] held live = (refl, held, (_, refl))
decide_echo-Judged s n key now (e ∷ edits) held live =
    match_echo-Judged s n key now (e ∷ edits) live

-- An edit that arrives is applied as `judge` says, for the unexpired edits of its voxel; the store
-- then holds the edits that `judge` leaves, and nothing else of it has changed.
pub take_echo_lem :
    (s : ChunkStore) (n : SpatialNotification) (p : Position) (now : ℤ)
    → ((take_echo s n p now).0 ≡ (judge n (unexpired now (edits_at s n.chunk (voxel_key p)))).0)
      × (edits_at (take_echo s n p now).1 n.chunk (voxel_key p)
          ≡ (judge n (unexpired now (edits_at s n.chunk (voxel_key p)))).1)
      × OnlyPending s (take_echo s n p now).1
unfolding take_echo
take_echo_lem s n p now =
    let key = voxel_key p in
    let (live, held) = live_pending_lem s n.chunk key now in
    let s' = (live_pending s n.chunk key now).1 in
    let edits = unexpired now (edits_at s n.chunk key) in
    let (verdict, left, only) =
      decide_echo-Judged s' n key now edits held (unexpired-IsLive now (edits_at s n.chunk key)) in
    rw live (
      verdict,
      left,
      OnlyPending-trans s s' (decide_echo s' n key now edits).1
          (live_pending-OnlyPending s n.chunk key now) only,
    )
