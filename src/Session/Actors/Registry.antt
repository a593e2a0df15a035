-- ===== src/Session/Actors/Registry.antt =====
-- RemoteActorStore of include/crowdy/session/stores.hpp: the default lane and the named lanes.
pub mod Lanes
pub mod Own
use mathlib.Core.Logic.{ite}
use crowdy_cpp.Base.{
  ℕ, ◌+◌, ◌%◌, ◌^◌, ◌≡◌, ◌≢◌, ◌⊎◌, inl, inr, refl, sym, ap, ◌∙◌, Bool, true, false, ◌||◌, Option,
  none, some, List, [], ◌∷◌, ◌++◌, append_assoc, ◌==◌, if◌then◌else◌, ite_yes, ite_no, ℕ_discrete,
  Option-cases,
}
use crowdy_cpp.Base.Int.{ℤ, pos}
use crowdy_cpp.Base.Maps.{
  lookup, insert, lookup-insert_self, lookup-insert_ne, lookup_here, lookup_further,
}
use crowdy_cpp.Core.Le.{Bytes}
use crowdy_cpp.Session.Keys.{ℤ_discrete}
use crowdy_cpp.Session.Actors.{
  ActorNotification, RemoteActor, RemoteActorLane, remote_actor_lane, find, apply, remove, reap,
  clear, Bytes_discrete,
}
use crowdy_cpp.Session.Actors.Heard.{
  LaneCall, call, run, apply_call, remove_call, reap_call, clear_call, heard_of, actor_of,
}
use crowdy_cpp.Session.Actors.Tracked.{find-run}

-- The options of a lane. The empty filter is the one that accepts everything.
pub record LaneOptions : Type 0 where
  pub filter : ActorNotification → Bool
  pub stale_after_ms : ℤ
  pub history_size : ℕ

pub record RemoteActorStore : Type 0 where
  pub self_uuid : Bytes
  pub stale_after_ms : ℤ
  pub history_size : ℕ
  pub default_lane : RemoteActorLane
  pub lanes : List (Bytes × RemoteActorLane)

pub remote_actor_store : Bytes → ℤ → ℕ → RemoteActorStore
remote_actor_store self_uuid stale_after_ms history_size = record {
  self_uuid = self_uuid;
  stale_after_ms = stale_after_ms;
  history_size = history_size;
  default_lane = remote_actor_lane (λ n. true) stale_after_ms history_size;
  lanes = [];
}

-- `if (options.staleAfterMs == 12000) options.staleAfterMs = options_.staleAfterMs`
pub lane_stale_after_ms : RemoteActorStore → LaneOptions → ℤ
lane_stale_after_ms s o =
    ite (ℤ_discrete o.stale_after_ms (pos 12000)) s.stale_after_ms o.stale_after_ms

-- `if (options.historySize == 2) options.historySize = options_.historySize`
pub lane_history_size : RemoteActorStore → LaneOptions → ℕ
lane_history_size s o = if o.history_size == 2 then s.history_size else o.history_size

pub new_lane : RemoteActorStore → LaneOptions → RemoteActorLane
unfolding lane_stale_after_ms lane_history_size
new_lane s o = remote_actor_lane o.filter (lane_stale_after_ms s o) (lane_history_size s o)

-- The store after the lookup of a lane by its name.
abbrev pub lane_found :
    RemoteActorStore
    → Bytes
    → LaneOptions
    → Option RemoteActorLane
    → RemoteActorLane × RemoteActorStore
lane_found s name o none =
    (new_lane s o, record s { lanes = insert Bytes_discrete name (new_lane s o) s.lanes })
lane_found s name o (some l) = (l, s)

pub lane : RemoteActorStore → Bytes → LaneOptions → RemoteActorLane × RemoteActorStore
lane s name o = lane_found s name o (lookup Bytes_discrete name s.lanes)

-- The loop over the named lanes.
abbrev pub each_lane :
    (RemoteActorLane → RemoteActorLane)
    → List (Bytes × RemoteActorLane)
    → List (Bytes × RemoteActorLane)
each_lane f [] = []
each_lane f ((name, l) ∷ lanes) = (name, f l) ∷ each_lane f lanes

-- What the operations do to the default lane and then to each named one.
abbrev pub in_lanes : (RemoteActorLane → RemoteActorLane) → RemoteActorStore → RemoteActorStore
in_lanes f s = record s { default_lane = f s.default_lane; lanes = each_lane f s.lanes }

pub ingest : RemoteActorStore → ActorNotification → ℤ → RemoteActorStore
ingest s n now = ite (Bytes_discrete n.uuid s.self_uuid) s (in_lanes (λ l. (apply l n now).1) s)

-- `any = lane.remove(uuid) || any`
pub remove_any : Bytes → List (Bytes × RemoteActorLane) → Bool → Bool
remove_any uuid [] any = any
remove_any uuid ((name, l) ∷ lanes) any = remove_any uuid lanes ((remove l uuid).0 || any)

pub remove_actor : RemoteActorStore → Bytes → Bool × RemoteActorStore
remove_actor s uuid =
    (remove_any uuid s.lanes (remove s.default_lane uuid).0, in_lanes (λ l. (remove l uuid).1) s)

pub reap_all : RemoteActorStore → ℤ → RemoteActorStore
reap_all s now = in_lanes (λ l. reap l now) s

pub clear_all : RemoteActorStore → RemoteActorStore
clear_all s = in_lanes clear s

-- The loop of `revision`.
abbrev add_revisions : List (Bytes × RemoteActorLane) → ℕ → ℕ
add_revisions [] total = total
add_revisions ((name, l) ∷ lanes) total = add_revisions lanes ((total + l.revision) % 2 ^ 64)

pub revision : RemoteActorStore → ℕ
revision s = add_revisions s.lanes s.default_lane.revision
