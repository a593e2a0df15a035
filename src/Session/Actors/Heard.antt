-- ===== src/Session/Actors/Heard.antt =====
-- RemoteActorLane of include/crowdy/session/stores.hpp, call by call, against the updates that each
-- actor was heard with since it last left.
use crowdy_cpp.Base.{
  ℕ, suc, zero, ◌≡◌, inl, inr, refl, sym, ap, ◌∙◌, Bool, Option, none, some, List, [], ◌∷◌, take,
  take-cons-take, if◌then◌else◌, Bool-cases,
}
use mathlib.Core.Logic.{ite}
use crowdy_cpp.Base.Int.{ℤ, ltbℤ, ◌-ℤ◌}
use crowdy_cpp.Core.Le.{Bytes}
use crowdy_cpp.Session.Actors.{
  ActorNotification, ActorSample, RemoteActor, RemoteActorLane, sample_of, samples_of,
  updated_actor, apply, remove, reap, clear, Bytes_discrete,
}

-- A call of a lane's operations that change it.
pub data LaneCall : Type 0 where
  apply_call : ActorNotification → ℤ → LaneCall
  remove_call : Bytes → LaneCall
  reap_call : ℤ → LaneCall
  clear_call : LaneCall

abbrev pub call : LaneCall → RemoteActorLane → RemoteActorLane
call (apply_call n now) lane = (apply lane n now).1
call (remove_call uuid) lane = (remove lane uuid).1
call (reap_call now) lane = reap lane now
call clear_call lane = clear lane

-- The lane after the calls, the latest first.
abbrev pub run : List LaneCall → RemoteActorLane → RemoteActorLane
run [] lane = lane
run (c ∷ calls) lane = call c (run calls lane)

-- An accepted update and when it arrived.
abbrev pub Heard : Type 0
Heard = List (ActorNotification × ℤ)

-- What is left of an actor's updates when those not heard for `stale_after_ms` go.
abbrev pub unless_stale : ℤ → ℤ → Heard → Heard
unless_stale stale_after_ms now [] = []
unless_stale stale_after_ms now ((n, t) ∷ heard) =
    if ltbℤ stale_after_ms (now -ℤ t) then [] else (n, t) ∷ heard

module _ (accepts : ActorNotification → Bool) (stale_after_ms : ℤ) where
  -- One actor's accepted updates since it last left, the latest first: an update adds itself, a
  -- removal, a clearing and a reaping that finds it stale empty them.
  abbrev pub heard_step : Bytes → LaneCall → Heard → Heard
  heard_step uuid (apply_call n now) heard =
      ite (Bytes_discrete n.uuid uuid) (if accepts n then (n, now) ∷ heard else heard) heard
  heard_step uuid (remove_call gone) heard = ite (Bytes_discrete gone uuid) [] heard
  heard_step uuid (reap_call now) heard = unless_stale stale_after_ms now heard
  heard_step uuid clear_call heard = []

  abbrev pub heard_of : Bytes → List LaneCall → Heard
  heard_of uuid [] = []
  heard_of uuid (c ∷ calls) = heard_step uuid c (heard_of uuid calls)

abbrev pub samples_from : Heard → List ActorSample
samples_from [] = []
samples_from ((n, t) ∷ heard) = sample_of n t ∷ samples_from heard

-- The entry of an actor that was heard with these updates.
abbrev pub actor_of : ℕ → Heard → Option RemoteActor
actor_of size [] = none
actor_of size ((n, t) ∷ heard) = some (record {
  uuid = n.uuid;
  chunk = n.chunk;
  last_seen_ms = t;
  last_server_epoch_ms = n.epoch_millis;
  samples = take size (samples_from ((n, t) ∷ heard));
})

-- The entry that a reaping at `now` leaves of `found`, an actor of the map.
abbrev pub kept : ℤ → ℤ → Option RemoteActor → Option RemoteActor
kept stale_after_ms now none = none
kept stale_after_ms now (some a) =
    if ltbℤ stale_after_ms (now -ℤ a.last_seen_ms) then none else some a

take_none : (k : ℕ) → take k (let e : List ActorSample = [] in e) ≡ []
take_none zero = refl
take_none (suc k) = refl

samples_of-actor_of :
    (k : ℕ) (heard : Heard) → samples_of (actor_of k heard) ≡ take k (samples_from heard)
samples_of-actor_of k [] = sym (take_none k)
samples_of-actor_of k ((n, t) ∷ heard) = refl

pub updated_actor-actor_of :
    (k : ℕ) (heard : Heard) (n : ActorNotification) (now : ℤ)
    → some (updated_actor k (actor_of k heard) n now) ≡ actor_of k ((n, now) ∷ heard)
unfolding updated_actor
updated_actor-actor_of k heard n now =
    let e : take k (sample_of n now ∷ samples_of (actor_of k heard))
        ≡ take k (sample_of n now ∷ samples_from heard) =
      ap (λ xs. take k (sample_of n now ∷ xs)) (samples_of-actor_of k heard)
      ∙ take-cons-take k (sample_of n now) (samples_from heard) in
    ap
      (λ xs. some (
        let a : RemoteActor = record {
          uuid = n.uuid;
          chunk = n.chunk;
          last_seen_ms = now;
          last_server_epoch_ms = n.epoch_millis;
          samples = xs;
        } in
        a))
      e

pub kept-actor_of :
    (size : ℕ) (stale_after_ms now : ℤ) (heard : Heard)
    → kept stale_after_ms now (actor_of size heard)
      ≡ actor_of size (unless_stale stale_after_ms now heard)
kept-actor_of size stale_after_ms now [] = refl
kept-actor_of size stale_after_ms now ((n, t) ∷ heard) =
    elim (Bool-cases (ltbℤ stale_after_ms (now -ℤ t))) [ inl e ↦ rw (e) refl | inr e ↦ rw (e) refl ]
