-- ===== src/Session/Events.antt =====
-- EventRouter of include/crowdy/session/stores.hpp. A handler is a value of `H`, `none` where it is
-- empty; the calls of handlers are the log `handled`, newest first.
use mathlib.Core.Logic.{ite}
use crowdy_cpp.Base.{ℕ, ◌≡◌, refl, ap, ◌∙◌, Bool, Option, none, some, List, [], ◌∷◌, ℕ_discrete}
use crowdy_cpp.Base.Int.{ℤ}
use crowdy_cpp.Base.Maps.{lookup, insert, lookup-insert}
use crowdy_cpp.Core.Le.{Bytes}
use crowdy_cpp.Wire.Spatial.{ChunkCoord}
use crowdy_cpp.Wire.Payload.{EventPayloadView}
use crowdy_cpp.Session.Actors.{ActorNotification}

pub record Event : Type 0 where
  pub event_type : ℕ
  pub from_server : Bool
  pub sender_uuid : Bytes
  pub chunk : ChunkCoord
  pub state : Bytes
  pub server_epoch_ms : ℤ
  pub received_at_ms : ℤ

pub record EventRouter (H : Type 0) : Type 0 where
  pub handlers : List (ℕ × Option H)
  pub last : List (ℕ × Event)
  pub handled : List (H × Event)

pub event_of : ActorNotification → EventPayloadView → Bool → ℤ → Event
event_of n payload from_server now = record {
  event_type = payload.event_type;
  from_server = from_server;
  sender_uuid = n.uuid;
  chunk = n.chunk;
  state = payload.state;
  server_epoch_ms = n.epoch_millis;
  received_at_ms = now;
}

-- The event that a notification with this payload stands for.
abbrev event_for : ActorNotification → EventPayloadView → Bool → ℤ → Event
event_for n payload from_server now = record {
  event_type = payload.event_type;
  from_server = from_server;
  sender_uuid = n.uuid;
  chunk = n.chunk;
  state = payload.state;
  server_epoch_ms = n.epoch_millis;
  received_at_ms = now;
}

pub data RouterCall (H : Type 0) : Type 0 where
  on_call : ℕ → Option H → RouterCall H
  ingest_call : ActorNotification → EventPayloadView → Bool → ℤ → RouterCall H

module _ {H : Type 0} where
  pub event_router : EventRouter H
  event_router = record { handlers = []; last = []; handled = [] }

  pub on : EventRouter H → ℕ → Option H → EventRouter H
  on r event_type handler = record r { handlers = insert ℕ_discrete event_type handler r.handlers }

  pub last_event : EventRouter H → ℕ → Option Event
  last_event r event_type = lookup ℕ_discrete event_type r.last

  -- `if (it != handlers_.end() && it->second) it->second(stored)`
  abbrev pub handle : Option (Option H) → Event → List (H × Event) → List (H × Event)
  handle none e log = log
  handle (some none) e log = log
  handle (some (some h)) e log = (h, e) ∷ log

  pub ingest : EventRouter H → ActorNotification → EventPayloadView → Bool → ℤ → EventRouter H
  ingest r n payload from_server now =
      let e = event_of n payload from_server now in
      record r {
        last = insert ℕ_discrete e.event_type e r.last;
        handled = handle (lookup ℕ_discrete e.event_type r.handlers) e r.handled;
      }

  -- The router after the calls, the latest first.
  abbrev pub run : List (RouterCall H) → EventRouter H
  run [] = event_router
  run (on_call event_type handler ∷ calls) = on (run calls) event_type handler
  run (ingest_call n payload from_server now ∷ calls) = ingest (run calls) n payload from_server now

  -- The handler that was last registered for a type.
  abbrev pub registered : ℕ → List (RouterCall H) → Option (Option H)
  registered i [] = none
  registered i (on_call event_type handler ∷ calls) =
      ite (ℕ_discrete event_type i) (some handler) (registered i calls)
  registered i (ingest_call n payload from_server now ∷ calls) = registered i calls

  -- The latest event of a type.
  abbrev pub latest : ℕ → List (RouterCall H) → Option Event
  latest i [] = none
  latest i (on_call event_type handler ∷ calls) = latest i calls
  latest i (ingest_call n payload from_server now ∷ calls) =
      ite (ℕ_discrete payload.event_type i) (some (event_for n payload from_server now))
        (latest i calls)

  -- With a handler, one more call of it; the types without one, or with an empty one, call none.
  abbrev handed : Option (Option H) → Event → List (H × Event) → List (H × Event)
  handed (some (some h)) e log = (h, e) ∷ log
  handed (some none) e log = log
  handed none e log = log

  handle-handed :
      (f : Option (Option H)) (e : Event) (log : List (H × Event)) → handle f e log ≡ handed f e log
  handle-handed none e log = refl
  handle-handed (some none) e log = refl
  handle-handed (some (some h)) e log = refl

  -- Each event with the handler that was registered for its type when it arrived, newest first.
  abbrev pub deliveries : List (RouterCall H) → List (H × Event)
  deliveries [] = []
  deliveries (on_call event_type handler ∷ calls) = deliveries calls
  deliveries (ingest_call n payload from_server now ∷ calls) =
      handed (registered payload.event_type calls) (event_for n payload from_server now)
        (deliveries calls)

  handlers-run :
      (calls : List (RouterCall H)) (i : ℕ)
      → lookup ℕ_discrete i (run calls).handlers ≡ registered i calls
  unfolding event_router on ingest lookup
  handlers-run [] i = refl
  handlers-run (on_call event_type handler ∷ calls) i =
      lookup-insert ℕ_discrete event_type i handler (run calls).handlers
      ∙ ap (ite (ℕ_discrete event_type i) (some handler)) (handlers-run calls i)
  handlers-run (ingest_call n payload from_server now ∷ calls) i = handlers-run calls i

  last-run : (calls : List (RouterCall H)) (i : ℕ) → last_event (run calls) i ≡ latest i calls
  unfolding event_router on ingest last_event lookup event_of
  last-run [] i = refl
  last-run (on_call event_type handler ∷ calls) i = last-run calls i
  last-run (ingest_call n payload from_server now ∷ calls) i =
      let e = event_of n payload from_server now in
      lookup-insert ℕ_discrete e.event_type i e (run calls).last
      ∙ ap (ite (ℕ_discrete e.event_type i) (some e)) (last-run calls i)

  handled-run : (calls : List (RouterCall H)) → (run calls).handled ≡ deliveries calls
  unfolding event_router on ingest event_of
  handled-run [] = refl
  handled-run (on_call event_type handler ∷ calls) = handled-run calls
  handled-run (ingest_call n payload from_server now ∷ calls) =
      let e = event_of n payload from_server now in
      ap (λ f. handle f e (run calls).handled) (handlers-run calls e.event_type)
      ∙ handle-handed (registered e.event_type calls) e (run calls).handled
      ∙ ap (handed (registered e.event_type calls) e) (handled-run calls)

  -- After any calls of a new router: the last event of a type is the latest that arrived with it,
  -- handled or not, with the payload's type and state, the notification's sender, chunk and time, and
  -- where and when it came from; and each event went, in order, to the handler that was registered last for its
  -- type when it arrived, and to none if there was none or it was empty.
  pub run-deliveries :
      (calls : List (RouterCall H))
      → ((i : ℕ) → last_event (run calls) i ≡ latest i calls)
        × ((run calls).handled ≡ deliveries calls)
  run-deliveries calls = (last-run calls, handled-run calls)
