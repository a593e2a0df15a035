-- ===== src/Session/Actors/Reaped.antt =====
-- Removal and reaping in RemoteActorLane of include/crowdy/session/stores.hpp: what they leave.
use crowdy_cpp.Base.{
  ◌≡◌, ◌≢◌, inl, inr, refl, sym, ap, ◌∙◌, subst, Option, none, some, List, [], ◌∷◌, if◌then◌else◌,
  Bool-cases, Option-cases, arith,
}
use mathlib.Core.Option.{some_inj}
use crowdy_cpp.Base.Int.{ℤ}
use crowdy_cpp.Base.Maps.{
  lookup, IsDistinct, lookup-erase_self, lookup-erase_ne, lookup_here, lookup_further,
  erase-IsDistinct,
}
use crowdy_cpp.Core.Le.{Bytes}
use crowdy_cpp.Session.Actors.Heard.{kept}
use crowdy_cpp.Session.Actors.{
  RemoteActor, RemoteActorLane, find, departed, is_stale, reap_from, reap, Bytes_discrete,
}

pub find-departed_self :
    (lane : RemoteActorLane) (uuid : Bytes)
    → find (departed lane uuid (find lane uuid)).1 uuid ≡ none
find-departed_self lane uuid = elim (Option-cases (find lane uuid)) [
  | inl e ↦ rw (e) e
  | inr (a, e) ↦ rw (e) (lookup-erase_self Bytes_discrete uuid lane.actors)
]

pub find-departed_ne :
    (lane : RemoteActorLane) (uuid u : Bytes) (found : Option RemoteActor)
    → uuid ≢ u
    → find (departed lane uuid found).1 u ≡ find lane u
find-departed_ne lane uuid u none apart = refl
find-departed_ne lane uuid u (some a) apart =
    lookup-erase_ne Bytes_discrete uuid u lane.actors apart

-- What the operations never change.
abbrev pub WithOptions : RemoteActorLane → RemoteActorLane → Type 0
WithOptions lane lane' =
    (lane'.filter ≡ lane.filter)
    × (lane'.stale_after_ms ≡ lane.stale_after_ms)
    × (lane'.history_size ≡ lane.history_size)

pub departed-WithOptions :
    (lane : RemoteActorLane) (uuid : Bytes) (found : Option RemoteActor)
    → WithOptions lane (departed lane uuid found).1
departed-WithOptions lane uuid none = (refl, refl, refl)
departed-WithOptions lane uuid (some a) = (refl, refl, refl)

pub departed-IsDistinct :
    (lane : RemoteActorLane) (uuid : Bytes) (found : Option RemoteActor)
    → IsDistinct Bytes_discrete lane.actors
    → IsDistinct Bytes_discrete (departed lane uuid found).1.actors
departed-IsDistinct lane uuid none h = h
departed-IsDistinct lane uuid (some a) h = erase-IsDistinct Bytes_discrete uuid lane.actors h

-- One round of the loop of `reap`.
abbrev pub reap_round : RemoteActorLane → ℤ → Bytes → RemoteActor → RemoteActorLane
reap_round lane now uuid a = if is_stale lane now a then (departed lane uuid (some a)).1 else lane

reap_round-WithOptions :
    (lane : RemoteActorLane) (now : ℤ) (uuid : Bytes) (a : RemoteActor)
    → WithOptions lane (reap_round lane now uuid a)
reap_round-WithOptions lane now uuid a = ground arith

reap_round-IsDistinct :
    (lane : RemoteActorLane) (now : ℤ) (uuid : Bytes) (a : RemoteActor)
    → IsDistinct Bytes_discrete lane.actors
    → IsDistinct Bytes_discrete (reap_round lane now uuid a).actors
reap_round-IsDistinct lane now uuid a h = elim (Bool-cases (is_stale lane now a)) [
  | inl e ↦ rw (e) (departed-IsDistinct lane uuid (some a) h)
  | inr e ↦ rw (e) h
]

pub reap_round_ne :
    (lane : RemoteActorLane) (now : ℤ) (uuid u : Bytes) (a : RemoteActor)
    → uuid ≢ u
    → find (reap_round lane now uuid a) u ≡ find lane u
reap_round_ne lane now uuid u a apart = elim (Bool-cases (is_stale lane now a)) [
  | inl e ↦ rw (e) (find-departed_ne lane uuid u (some a) apart)
  | inr e ↦ rw (e) refl
]

reap_round_self :
    (lane : RemoteActorLane) (now : ℤ) (uuid : Bytes) (a : RemoteActor)
    → find lane uuid ≡ some a
    → find (reap_round lane now uuid a) uuid ≡ kept lane.stale_after_ms now (some a)
reap_round_self lane now uuid a found = elim (Bool-cases (is_stale lane now a)) [
  | inl e ↦ rw (e) (lookup-erase_self Bytes_discrete uuid lane.actors)
  | inr e ↦ rw (e) found
]

pub reap_from-WithOptions :
    (entries : List (Bytes × RemoteActor)) (lane : RemoteActorLane) (now : ℤ)
    → WithOptions lane (reap_from entries lane now)
unfolding reap_from
reap_from-WithOptions [] lane now = (refl, refl, refl)
reap_from-WithOptions ((j, b) ∷ entries) lane now =
    let (f, s, h) = reap_from-WithOptions entries (reap_round lane now j b) now in
    let (f', s', h') = reap_round-WithOptions lane now j b in (f ∙ f', s ∙ s', h ∙ h')

pub reap_from-IsDistinct :
    (entries : List (Bytes × RemoteActor)) (lane : RemoteActorLane) (now : ℤ)
    → IsDistinct Bytes_discrete lane.actors
    → IsDistinct Bytes_discrete (reap_from entries lane now).actors
unfolding reap_from
reap_from-IsDistinct [] lane now h = h
reap_from-IsDistinct ((j, b) ∷ entries) lane now h =
    reap_from-IsDistinct entries (reap_round lane now j b) now
      (reap_round-IsDistinct lane now j b h)

find-reap_from-none :
    (entries : List (Bytes × RemoteActor)) (lane : RemoteActorLane) (now : ℤ) (u : Bytes)
    → lookup Bytes_discrete u entries ≡ none
    → find (reap_from entries lane now) u ≡ find lane u
unfolding reap_from
find-reap_from-none [] lane now u absent = refl
find-reap_from-none ((j, b) ∷ entries) lane now u absent = elim (Bytes_discrete j u) [
  | yes same ↦ absurd (cc (absent, lookup_here Bytes_discrete u j b entries same))
  | no apart ↦
      find-reap_from-none entries (reap_round lane now j b) now u
        (sym (lookup_further Bytes_discrete u j b entries apart) ∙ absent)
      ∙ reap_round_ne lane now j u b apart
]

find-reap_from :
    (entries : List (Bytes × RemoteActor)) (lane : RemoteActorLane) (now : ℤ) (u : Bytes)
    (a : RemoteActor)
    → IsDistinct Bytes_discrete entries
    → lookup Bytes_discrete u entries ≡ some a
    → find lane u ≡ some a
    → find (reap_from entries lane now) u ≡ kept lane.stale_after_ms now (some a)
unfolding reap_from lookup
find-reap_from [] lane now u a distinct there found = absurd (cc there)
find-reap_from ((j, b) ∷ entries) lane now u a (absent, distinct) there found =
    elim (Bytes_discrete j u) [
      | yes same ↦
          let b_is : b ≡ a =
            some_inj.0 (sym (lookup_here Bytes_discrete u j b entries same) ∙ there) in
          let none_left : lookup Bytes_discrete u entries ≡ none =
            subst (λ k. lookup Bytes_discrete k entries ≡ none) same absent in
          let here : find lane j ≡ some b = ap (find lane) same ∙ found ∙ ap some (sym b_is) in
          find-reap_from-none entries (reap_round lane now j b) now u none_left
          ∙ ap (find (reap_round lane now j b)) (sym same)
          ∙ reap_round_self lane now j b here
          ∙ ap (λ x. kept lane.stale_after_ms now (some x)) b_is
      | no apart ↦
          find-reap_from entries (reap_round lane now j b) now u a distinct
            (sym (lookup_further Bytes_discrete u j b entries apart) ∙ there)
            (reap_round_ne lane now j u b apart ∙ found)
          ∙ ap (λ x. kept x now (some a)) (reap_round-WithOptions lane now j b).1
    ]

pub find-reap :
    (lane : RemoteActorLane) (now : ℤ) (u : Bytes)
    → IsDistinct Bytes_discrete lane.actors
    → find (reap lane now) u ≡ kept lane.stale_after_ms now (find lane u)
unfolding reap
find-reap lane now u distinct = elim (Option-cases (find lane u)) [
  | inl e ↦
      find-reap_from-none lane.actors lane now u e ∙ e ∙ ap (kept lane.stale_after_ms now) (sym e)
  | inr (a, e) ↦
      find-reap_from lane.actors lane now u a distinct e e
      ∙ ap (kept lane.stale_after_ms now) (sym e)
]
