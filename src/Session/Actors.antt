-- ===== src/Session/Actors.antt =====
-- RemoteActorLane and RemoteActorStore of include/crowdy/session/stores.hpp: the registry of the
-- other actors. The callbacks are the log `events`, newest first, and do not call back into the
-- store; a map's entries are in the order of the list; the clock's readings are arguments.
pub mod Heard
pub mod Reaped
pub mod Tracked
pub mod Registry
pub mod Feed
use crowdy_cpp.Base.{
  map, ℕ, ◌+◌, ◌%◌, ◌^◌, Bool, true, false, ◌||◌, Option, none, some, List, [], ◌∷◌, length, take,
  replicate, ltb, if◌then◌else◌, ℕ_discrete,
}
use crowdy_cpp.Base.Int.{ℤ, pos, ltbℤ, ◌-ℤ◌}
use crowdy_cpp.Base.Maps.{lookup, insert, erase}
use crowdy_cpp.Core.Le.{Bytes}
use crowdy_cpp.Wire.Spatial.{ChunkCoord}
use crowdy_cpp.Session.Keys.{ℤ_discrete}

abbrev pub max_state_bytes : ℕ
max_state_bytes = 256

pub Bytes_discrete : Discrete Bytes
Bytes_discrete = hlevel ℕ_discrete

-- What the stores read of a notification.
pub record ActorNotification : Type 0 where
  pub uuid : Bytes
  pub chunk : ChunkCoord
  pub payload : Bytes
  pub epoch_millis : ℤ
  pub sequence : ℕ

-- `StateBlob::assign`: the bytes that the blob holds.
pub assign : Bytes → Bytes
assign b = take max_state_bytes b

pub record ActorSample : Type 0 where
  pub state : Bytes
  pub server_epoch_ms : ℤ
  pub received_at_ms : ℤ

pub record RemoteActor : Type 0 where
  pub uuid : Bytes
  pub chunk : ChunkCoord
  pub last_seen_ms : ℤ
  pub last_server_epoch_ms : ℤ
  pub samples : List ActorSample

pub data LaneEvent : Type 0 where
  joined left updated : RemoteActor → LaneEvent

pub record RemoteActorLane : Type 0 where
  pub filter : ActorNotification → Bool
  pub stale_after_ms : ℤ
  pub history_size : ℕ
  pub actors : List (Bytes × RemoteActor)
  pub events : List LaneEvent
  pub revision : ℕ

-- `RemoteActorLane(options)`
pub remote_actor_lane : (ActorNotification → Bool) → ℤ → ℕ → RemoteActorLane
remote_actor_lane accepts stale_after_ms history_size = record {
  filter = accepts;
  stale_after_ms = stale_after_ms;
  history_size = history_size;
  actors = [];
  events = [];
  revision = 0;
}

-- `find`
abbrev pub find : RemoteActorLane → Bytes → Option RemoteActor
find lane uuid = lookup Bytes_discrete uuid lane.actors

pub sample_of : ActorNotification → ℤ → ActorSample
unfolding assign
sample_of n now = record {
  state = assign n.payload;
  server_epoch_ms = n.epoch_millis;
  received_at_ms = now;
}

-- The samples of the entry that `try_emplace` found or made.
abbrev pub samples_of : Option RemoteActor → List ActorSample
samples_of none = []
samples_of (some a) = a.samples

-- The entry after an update: the new sample in front, the oldest dropped.
pub updated_actor : ℕ → Option RemoteActor → ActorNotification → ℤ → RemoteActor
updated_actor history_size found n now = record {
  uuid = n.uuid;
  chunk = n.chunk;
  last_seen_ms = now;
  last_server_epoch_ms = n.epoch_millis;
  samples = take history_size (sample_of n now ∷ samples_of found);
}

-- `onJoin` if the entry is new, then `onUpdate`.
abbrev pub announce : Option RemoteActor → RemoteActor → List LaneEvent → List LaneEvent
announce none a log = updated a ∷ joined a ∷ log
announce (some _) a log = updated a ∷ log

-- An accepted update.
pub accepted : RemoteActorLane → ActorNotification → ℤ → RemoteActorLane
accepted lane n now =
    let a = updated_actor lane.history_size (find lane n.uuid) n now in
    record lane {
      actors = insert Bytes_discrete n.uuid a lane.actors;
      events = announce (find lane n.uuid) a lane.events;
      revision = (lane.revision + 1) % 2 ^ 64;
    }

pub apply : RemoteActorLane → ActorNotification → ℤ → Bool × RemoteActorLane
apply lane n now = if lane.filter n then (true, accepted lane n now) else (false, lane)

-- The departure of the actor that was found.
abbrev pub departed : RemoteActorLane → Bytes → Option RemoteActor → Bool × RemoteActorLane
departed lane uuid none = (false, lane)
departed lane uuid (some a) = (
  true,
  record lane {
    actors = erase Bytes_discrete uuid lane.actors;
    events = left a ∷ lane.events;
    revision = (lane.revision + 1) % 2 ^ 64;
  },
)

pub remove : RemoteActorLane → Bytes → Bool × RemoteActorLane
remove lane uuid = departed lane uuid (find lane uuid)

-- `nowMs - lastSeenMs > staleAfterMs`
abbrev pub is_stale : RemoteActorLane → ℤ → RemoteActor → Bool
is_stale lane now a = ltbℤ lane.stale_after_ms (now -ℤ a.last_seen_ms)

-- The loop of `reap` over the entries that are left, in the map's order.
pub reap_from : List (Bytes × RemoteActor) → RemoteActorLane → ℤ → RemoteActorLane
reap_from [] lane now = lane
reap_from ((uuid, a) ∷ entries) lane now =
    reap_from entries (if is_stale lane now a then (departed lane uuid (some a)).1 else lane) now

pub reap : RemoteActorLane → ℤ → RemoteActorLane
reap lane now = reap_from lane.actors lane now

abbrev pub list : RemoteActorLane → List RemoteActor
list lane = map (λ (uuid, a). a) lane.actors

pub clear : RemoteActorLane → RemoteActorLane
clear lane = record lane { actors = []; revision = (lane.revision + length lane.actors) % 2 ^ 64 }
