-- ===== src/Session/Examples.antt =====
-- Concrete runs of the stores of include/crowdy/session/stores.hpp.
use crowdy_cpp.Base.{ℕ, ◌≡◌, refl, false, Bool, none, some, List, [], ◌∷◌, get_or, ◌==◌, arith}
use crowdy_cpp.Base.Int.{ℤ, pos}
use crowdy_cpp.Core.Le.{Bytes}
use crowdy_cpp.Wire.Spatial.{ChunkCoord}
use crowdy_cpp.Session.Actors.{ActorNotification, remote_actor_lane, find}
use crowdy_cpp.Session.Actors.Heard
use crowdy_cpp.Session.Actors.Heard.{
  LaneCall, apply_call, remove_call, reap_call, clear_call, heard_of, actor_of,
}
use crowdy_cpp.Session.Actors.Tracked.{find-run}
use crowdy_cpp.Session.Actors.Feed.{IsOrdered, replay, replay-run}
use crowdy_cpp.Session.Actors.Registry.{RemoteActorStore, remote_actor_store}
use crowdy_cpp.Session.Actors.Registry.Lanes.{
  StoreCall, lane_call, ingest_call, reap_all_call, run_store, all_lane_calls, lane_of,
  lane_of-run_store,
}
use crowdy_cpp.Session.Actors.Registry.Own.{find_self}
use crowdy_cpp.Session.Errors.{ErrorCall, SendKind, IsAttributed, run-IsAttributed}
use crowdy_cpp.Session.Inbox.{InboxMessage, Inbox}
use crowdy_cpp.Session.Inbox.Fifo
use crowdy_cpp.Session.Inbox.Fifo.{
  InboxCall, push_call, drain_call, queue_run, Matches, run-queue_run,
}
use crowdy_cpp.Session.Events
use crowdy_cpp.Session.Events.{RouterCall, on_call, latest, deliveries, last_event, run-deliveries}

abbrev origin : ChunkCoord
origin = record { x = pos 0; y = pos 0; z = pos 0 }

abbrev player : Bytes
player = 1 ∷ []

abbrev stranger : Bytes
stranger = 2 ∷ []

abbrev update_of : Bytes → Bytes → ℤ → ActorNotification
update_of uuid payload epoch = record {
  uuid = uuid;
  chunk = origin;
  payload = payload;
  epoch_millis = epoch;
  sequence = 5;
}

-- A filter on the first byte of the payload.
abbrev is_mob : ActorNotification → Bool
is_mob n = get_or n.payload 0 0 == 9

-- Three updates of a stranger, one of which the filter refuses, a reaping and a departure of another.
abbrev lane_calls : List LaneCall
lane_calls =
    remove_call player
    ∷ reap_call (pos 500)
    ∷ apply_call (update_of stranger (9 ∷ 3 ∷ []) (pos 30)) (pos 300)
    ∷ apply_call (update_of stranger (8 ∷ []) (pos 20)) (pos 200)
    ∷ apply_call (update_of stranger (9 ∷ 1 ∷ []) (pos 10)) (pos 100)
    ∷ []

stranger_found :
    find (Heard.run lane_calls (remote_actor_lane is_mob (pos 12000) 2)) stranger
    ≡ actor_of 2 (heard_of is_mob (pos 12000) stranger lane_calls)
stranger_found = find-run is_mob (pos 12000) 2 lane_calls stranger

stranger_replayed :
    let l = Heard.run lane_calls (remote_actor_lane is_mob (pos 12000) 2) in
    IsOrdered l.events × ((u : Bytes) → replay u l.events ≡ find l u)
stranger_replayed = replay-run is_mob (pos 12000) 2 lane_calls (tt, (tt, (tt, (tt, (tt, tt)))))

abbrev mobs : Bytes
mobs = 109 ∷ []

abbrev store_calls : List StoreCall
store_calls =
    reap_all_call (pos 400)
    ∷ ingest_call (update_of stranger (9 ∷ []) (pos 20)) (pos 200)
    ∷ ingest_call (update_of player (9 ∷ []) (pos 10)) (pos 100)
    ∷ lane_call mobs (record { filter = is_mob; stale_after_ms = pos 500; history_size = 2 })
    ∷ []

abbrev others : RemoteActorStore
others = remote_actor_store player (pos 12000) 2

default_lane_run :
    lane_of none (run_store store_calls others)
    ≡ some (Heard.run (all_lane_calls others.self_uuid store_calls) others.default_lane)
default_lane_run = lane_of-run_store store_calls none others others.default_lane refl

player_unknown : find (run_store store_calls others).default_lane player ≡ none
player_unknown =
    find_self player (pos 12000) 2 store_calls none (run_store store_calls others).default_lane refl

abbrev error_calls : List ErrorCall
error_calls =
    ErrorCall.ingest_call (record { sequence = 7; code = 15 }) (pos 90)
    ∷ ErrorCall.record_send_call 7 SendKind.voxel_update none
    ∷ ErrorCall.clear_call
    ∷ ErrorCall.ingest_call (record { sequence = 200; code = 32 }) (pos 20)
    ∷ []

errors-IsAttributed : IsAttributed error_calls
errors-IsAttributed = run-IsAttributed error_calls (ground arith)

abbrev note : ℤ → InboxMessage
note id = record {
  channel_id = id;
  sender_uuid = player;
  payload = 4 ∷ [];
  server_epoch_ms = pos 1;
  received_at_ms = pos 2;
}

abbrev inbox_calls : List InboxCall
inbox_calls =
    push_call (note (pos 1))
    ∷ push_call (note (pos 2))
    ∷ push_call (note (pos 3))
    ∷ drain_call 1
    ∷ push_call (note (pos 4))
    ∷ drain_call 5
    ∷ []

-- Of three messages in an inbox for two, the first is dropped.
abbrev small : Inbox
small = record { max = 2; messages = []; channels = []; observed = [] }

inbox_queued : Matches 2 (Fifo.run inbox_calls small) (queue_run 2 inbox_calls [])
inbox_queued = run-queue_run inbox_calls small (ground arith) (ground arith)

abbrev router_calls : List (RouterCall ℕ)
router_calls =
    RouterCall.ingest_call (update_of stranger [] (pos 3))
      (record { event_type = 40; state = 1 ∷ [] }) false (pos 30)
    ∷ on_call 40 (some 77)
    ∷ []

router_delivered :
    ((i : ℕ) → last_event (Events.run router_calls) i ≡ latest i router_calls)
    × ((Events.run router_calls).handled ≡ deliveries router_calls)
router_delivered = run-deliveries router_calls
