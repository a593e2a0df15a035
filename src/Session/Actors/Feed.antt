-- ===== src/Session/Actors/Feed.antt =====
-- RemoteActorLane of include/crowdy/session/stores.hpp: what its callbacks tell an observer.
use mathlib.Core.Logic.{ite}
use crowdy_cpp.Base.{
  ℕ, ◌≡◌, inl, inr, refl, sym, ap, ◌∙◌, Bool, Option, none, some, List, [], ◌∷◌, All, Bool-cases,
  Option-cases, ite_yes, ite_no,
}
use crowdy_cpp.Base.Int.{ℤ}
use crowdy_cpp.Base.Maps.{
  lookup, IsDistinct, lookup-insert_self, lookup-insert_ne, lookup-erase_self, lookup-erase_ne,
  lookup_here, lookup_further, insert-IsDistinct, erase-IsDistinct, found-insert, found-erase,
}
use crowdy_cpp.Core.Le.{Bytes}
use crowdy_cpp.Session.Actors.{
  ActorNotification, RemoteActor, LaneEvent, joined, left, updated, RemoteActorLane,
  remote_actor_lane, find, updated_actor, announce, accepted, apply, departed, remove, is_stale,
  reap_from, reap, Bytes_discrete,
}
use crowdy_cpp.Session.Actors.Heard.{
  LaneCall, call, run, apply_call, remove_call, reap_call, clear_call,
}
use crowdy_cpp.Session.Actors.Reaped.{reap_round, reap_round_ne}

-- The entry of an actor, as an observer of the callbacks has it.
abbrev pub replay : Bytes → List LaneEvent → Option RemoteActor
replay u [] = none
replay u (joined a ∷ log) = ite (Bytes_discrete a.uuid u) (some a) (replay u log)
replay u (updated a ∷ log) = ite (Bytes_discrete a.uuid u) (some a) (replay u log)
replay u (left a ∷ log) = ite (Bytes_discrete a.uuid u) none (replay u log)

-- A join is of an actor that the observer does not have, an update of one that it has, and a
-- departure is of one that it has, with the last entry it was told of.
abbrev pub IsOrdered : List LaneEvent → Type 0
IsOrdered [] = Unit {0}
IsOrdered (joined a ∷ log) = (replay a.uuid log ≡ none) × IsOrdered log
IsOrdered (updated a ∷ log) = ((b : RemoteActor) × (replay a.uuid log ≡ some b)) × IsOrdered log
IsOrdered (left a ∷ log) = (replay a.uuid log ≡ some a) × IsOrdered log

-- The observer has exactly the entries of the lane.
pub record IsFed (lane : RemoteActorLane) : Type 0 where
  pub distinct : IsDistinct Bytes_discrete lane.actors
  pub keyed : (u : Bytes) (a : RemoteActor) → find lane u ≡ some a → a.uuid ≡ u
  pub ordered : IsOrdered lane.events
  pub agrees : (u : Bytes) → replay u lane.events ≡ find lane u

-- `clear` calls nobody.
abbrev pub IsAnnounced : LaneCall → Type 0
IsAnnounced clear_call = ⊥
IsAnnounced _ = Unit {0}

IsFed-departed :
    (lane : RemoteActorLane) (uuid : Bytes) (a : RemoteActor)
    → find lane uuid ≡ some a
    → IsFed lane
    → IsFed (departed lane uuid (some a)).1
IsFed-departed lane uuid a there f =
    let key : a.uuid ≡ uuid = f.keyed uuid a there in
    record {
      distinct = erase-IsDistinct Bytes_discrete uuid lane.actors f.distinct;
      keyed = λ u b e. f.keyed u b (found-erase Bytes_discrete uuid u b lane.actors e);
      ordered = (f.agrees a.uuid ∙ ap (find lane) key ∙ there, f.ordered);
      agrees = λ u. elim (Bytes_discrete a.uuid u) [
        | yes same ↦
            ite_yes (Bytes_discrete a.uuid u) none (replay u lane.events) same
            ∙ sym (lookup-erase_self Bytes_discrete uuid lane.actors)
            ∙ ap (find (departed lane uuid (some a)).1) (sym key ∙ same)
        | no apart ↦
            ite_no (Bytes_discrete a.uuid u) none (replay u lane.events) apart
            ∙ f.agrees u
            ∙ sym (lookup-erase_ne Bytes_discrete uuid u lane.actors (λ e. apart (key ∙ e)))
      ];
    }

IsFed-remove : (lane : RemoteActorLane) (uuid : Bytes) → IsFed lane → IsFed (remove lane uuid).1
unfolding remove
IsFed-remove lane uuid f = elim (Option-cases (find lane uuid)) [
  | inl e ↦ rw (e) f
  | inr (a, e) ↦ rw (e) (IsFed-departed lane uuid a e f)
]

IsFed-reap_round :
    (lane : RemoteActorLane) (now : ℤ) (uuid : Bytes) (a : RemoteActor)
    → find lane uuid ≡ some a
    → IsFed lane
    → IsFed (reap_round lane now uuid a)
IsFed-reap_round lane now uuid a there f = elim (Bool-cases (is_stale lane now a)) [
  | inl e ↦ rw (e) (IsFed-departed lane uuid a there f)
  | inr e ↦ rw (e) f
]

IsFed-reap_from :
    (entries : List (Bytes × RemoteActor)) (lane : RemoteActorLane) (now : ℤ)
    → IsDistinct Bytes_discrete entries
    → ((u : Bytes) (a : RemoteActor)
        → lookup Bytes_discrete u entries ≡ some a
        → find lane u ≡ some a)
    → IsFed lane
    → IsFed (reap_from entries lane now)
unfolding reap_from
IsFed-reap_from [] lane now distinct there f = f
IsFed-reap_from ((j, b) ∷ entries) lane now (absent, distinct) there f =
    IsFed-reap_from entries (reap_round lane now j b) now distinct
      (λ u a e. elim (Bytes_discrete j u) [
        | yes same ↦ absurd (cc (ap (λ k. lookup Bytes_discrete k entries) same, absent, e))
        | no apart ↦
            reap_round_ne lane now j u b apart
            ∙ there u a (lookup_further Bytes_discrete u j b entries apart ∙ e)
      ])
      (IsFed-reap_round lane now j b (there j b (lookup_here Bytes_discrete j j b entries refl)) f)

-- The observer's entries after an announcement.
replay-announce :
    (found : Option RemoteActor) (a : RemoteActor) (log : List LaneEvent) (u : Bytes)
    → replay u (announce found a log) ≡ ite (Bytes_discrete a.uuid u) (some a) (replay u log)
replay-announce none a log u = elim (Bytes_discrete a.uuid u) [
  | yes same ↦
      ite_yes (Bytes_discrete a.uuid u) (some a) (replay u (joined a ∷ log)) same
      ∙ sym (ite_yes (Bytes_discrete a.uuid u) (some a) (replay u log) same)
  | no apart ↦ ite_no (Bytes_discrete a.uuid u) (some a) (replay u (joined a ∷ log)) apart
]
replay-announce (some _) a log u = refl

announce-IsOrdered :
    (found : Option RemoteActor) (a : RemoteActor) (log : List LaneEvent)
    → replay a.uuid log ≡ found
    → IsOrdered log
    → IsOrdered (announce found a log)
announce-IsOrdered none a log e h =
    ((a, ite_yes (Bytes_discrete a.uuid a.uuid) (some a) (replay a.uuid log) refl), (e, h))
announce-IsOrdered (some b) a log e h = ((b, e), h)

IsFed-accepted :
    (lane : RemoteActorLane) (n : ActorNotification) (now : ℤ)
    → IsFed lane
    → IsFed (accepted lane n now)
unfolding accepted updated_actor
IsFed-accepted lane n now f =
    let a : RemoteActor = updated_actor lane.history_size (find lane n.uuid) n now in
    record {
      distinct = insert-IsDistinct Bytes_discrete n.uuid a lane.actors f.distinct;
      keyed = λ u b e. elim (found-insert Bytes_discrete n.uuid u a b lane.actors e) [
        | inl (same, is) ↦ ap (λ x. x.uuid) (sym is) ∙ same
        | inr e' ↦ f.keyed u b e'
      ];
      ordered = announce-IsOrdered (find lane n.uuid) a lane.events (f.agrees n.uuid) f.ordered;
      agrees = λ u.
          replay-announce (find lane n.uuid) a lane.events u ∙ elim (Bytes_discrete n.uuid u) [
            | yes same ↦
                ite_yes (Bytes_discrete n.uuid u) (some a) (replay u lane.events) same
                ∙ sym (lookup-insert_self Bytes_discrete n.uuid a lane.actors)
                ∙ ap (find (accepted lane n now)) same
            | no apart ↦
                ite_no (Bytes_discrete n.uuid u) (some a) (replay u lane.events) apart
                ∙ f.agrees u
                ∙ sym (lookup-insert_ne Bytes_discrete n.uuid u a lane.actors apart)
          ];
    }

IsFed-apply :
    (lane : RemoteActorLane) (n : ActorNotification) (now : ℤ)
    → IsFed lane
    → IsFed (apply lane n now).1
unfolding apply
IsFed-apply lane n now f = elim (Bool-cases (lane.filter n)) [
  | inl e ↦ rw (e) (IsFed-accepted lane n now f)
  | inr e ↦ rw (e) f
]

IsFed-call :
    (c : LaneCall) (lane : RemoteActorLane) → IsAnnounced c → IsFed lane → IsFed (call c lane)
unfolding reap
IsFed-call (apply_call n now) lane h f = IsFed-apply lane n now f
IsFed-call (remove_call gone) lane h f = IsFed-remove lane gone f
IsFed-call (reap_call now) lane h f = IsFed-reap_from lane.actors lane now f.distinct (λ u a e. e) f
IsFed-call clear_call lane h f = absurd h

run-IsFed :
    (accepts : ActorNotification → Bool) (stale_after_ms : ℤ) (size : ℕ) (calls : List LaneCall)
    → All IsAnnounced calls
    → IsFed (run calls (remote_actor_lane accepts stale_after_ms size))
unfolding remote_actor_lane lookup
run-IsFed accepts stale_after_ms size [] h = record {
  distinct = tt;
  keyed = λ u a e. absurd (cc (e));
  ordered = tt;
  agrees = λ u. refl;
}
run-IsFed accepts stale_after_ms size (c ∷ calls) (h, hs) =
    IsFed-call c (run calls (remote_actor_lane accepts stale_after_ms size)) h
      (run-IsFed accepts stale_after_ms size calls hs)

-- After any calls of a new lane but `clear`, an observer that keeps the actor of each join and
-- update and drops that of each departure has exactly the lane's entries. It never hears of a join
-- of an actor that it has, nor of an update of one that it has not, and every departure is of an
-- actor that it has, with the entry it was last told of.
pub replay-run :
    (accepts : ActorNotification → Bool) (stale_after_ms : ℤ) (size : ℕ) (calls : List LaneCall)
    → All IsAnnounced calls
    → let lane = run calls (remote_actor_lane accepts stale_after_ms size) in
      IsOrdered lane.events × ((u : Bytes) → replay u lane.events ≡ find lane u)
replay-run accepts stale_after_ms size calls h =
    let fed : IsFed (run calls (remote_actor_lane accepts stale_after_ms size)) =
      run-IsFed accepts stale_after_ms size calls h in
    (fed.ordered, fed.agrees)
