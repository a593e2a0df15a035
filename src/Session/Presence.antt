-- ===== src/Session/Presence.antt =====
-- LocalActorStore of include/crowdy/session/stores.hpp: the player's own actor. The calls of the
-- connection are the log `sends`, newest first; its answers and the clock's readings are arguments.
-- Times are integers without a width.
pub mod Current
pub mod Paced
pub mod Retry
mod Examples
use mathlib.Core.Logic.{ite}
use crowdy_cpp.Base.{
  ℕ, ◌/◌, Bool, true, false, not, ◌&&◌, ◌||◌, Option, none, some, List, [], ◌∷◌, replicate, set,
  get_or, if◌then◌else◌,
}
use crowdy_cpp.Base.Int.{ℤ, pos, pos_part, ltbℤ, lebℤ, ◌-ℤ◌}
use crowdy_cpp.Core.Le.{Bytes}
use crowdy_cpp.Core.Result.{Errc, Status, is_ok, Result, value, error}
use crowdy_cpp.Wire.Spatial.{ChunkCoord}
use crowdy_cpp.Wire.Control.{GenericErrorView}
use crowdy_cpp.Session.Keys.{ChunkCoord_discrete}
use crowdy_cpp.Session.Actors.{Bytes_discrete, assign}

pub data LocalActorSendReason : Type 0 where
  join_reason move_reason interval_reason keyframe_reason : LocalActorSendReason
  manual_reason refresh_reason : LocalActorSendReason

pub data LocalActorStatus : Type 0 where
  idle waiting acked failed : LocalActorStatus

pub record SentActorUpdate : Type 0 where
  pub state : Bytes
  pub chunk : ChunkCoord
  pub sequence : Option ℕ
  pub sent_at_ms : ℤ
  pub reason : LocalActorSendReason

pub record LocalActorSendError : Type 0 where
  pub status : Status
  pub server_code : Option ℕ
  pub sequence : Option ℕ
  pub received_at_ms : ℤ

pub record Ack : Type 0 where
  pub sequence : ℕ
  pub server_epoch_ms : ℤ
  pub received_at_ms : ℤ
  pub state : Bytes

-- A call of `sendActorUpdate` or `sendHeartbeat`, the time it is recorded with, and the answer. The
-- uuid, the distance and the decay of the call are those of the store.
pub data Sending : Type 0 where
  update_sent : ChunkCoord → Bytes → ℤ → Result ℕ → Sending
  heartbeat_sent : ChunkCoord → ℤ → Status → Sending

pub record LocalActorStore : Type 0 where
  pub uuid : Bytes
  pub send_hz : ℤ
  pub keyframe_interval_ms : ℤ
  pub heartbeat_interval_ms : ℤ
  pub distance : ℕ
  pub decay : ℕ
  pub chunk : ChunkCoord
  pub state : Bytes
  pub joined : Bool
  pub dirty : Bool
  pub resend_due : Bool
  pub last_send_ms : ℤ
  pub last_full_send_ms : ℤ
  pub last_heartbeat_ms : ℤ
  pub last_sequence : Option ℕ
  pub last_ack : Option Ack
  pub last_sent : Option SentActorUpdate
  pub last_error : Option LocalActorSendError
  pub in_flight : List Bool
  pub sends : List Sending

pub local_actor_store : Bytes → ℤ → ℤ → ℤ → ℕ → ℕ → LocalActorStore
local_actor_store uuid send_hz keyframe_interval_ms heartbeat_interval_ms distance decay = record {
  uuid = uuid;
  send_hz = send_hz;
  keyframe_interval_ms = keyframe_interval_ms;
  heartbeat_interval_ms = heartbeat_interval_ms;
  distance = distance;
  decay = decay;
  chunk = record { x = pos 0; y = pos 0; z = pos 0 };
  state = [];
  joined = false;
  dirty = false;
  resend_due = false;
  last_send_ms = pos 0;
  last_full_send_ms = pos 0;
  last_heartbeat_ms = pos 0;
  last_sequence = none;
  last_ack = none;
  last_sent = none;
  last_error = none;
  in_flight = replicate 256 false;
  sends = [];
}

-- `sendNow` once the connection has answered, with `lastSent_` and the call recorded.
abbrev pub answered : LocalActorStore → ℤ → Result ℕ → Status × LocalActorStore
answered s now (value sequence) = (
  Errc.ok,
  record s {
    resend_due = false;
    last_sequence = some sequence;
    in_flight = set s.in_flight sequence true;
    dirty = false;
    last_send_ms = now;
    last_full_send_ms = now;
  },
)
answered s now (error Errc.would_block) = (Errc.would_block, record s { resend_due = true })
answered s now (error code) = (
  code,
  record s {
    resend_due = true;
    last_error =
        some (record { status = code; server_code = none; sequence = none; received_at_ms = now });
  },
)

-- `seq.ok() ? std::optional(seq.value()) : std::nullopt`
abbrev pub sequence_of : Result ℕ → Option ℕ
sequence_of (value sequence) = some sequence
sequence_of (error _) = none

-- `lastSent_`, and the call of the connection.
abbrev pub with_sent : LocalActorStore → ℤ → LocalActorSendReason → Result ℕ → LocalActorStore
with_sent s now reason answer = record s {
  last_sent = some (record {
    state = s.state;
    chunk = s.chunk;
    sequence = sequence_of answer;
    sent_at_ms = now;
    reason = reason;
  });
  sends = update_sent s.chunk s.state now answer ∷ s.sends;
}

pub send_now : LocalActorStore → ℤ → LocalActorSendReason → Result ℕ → Status × LocalActorStore
send_now s now reason answer = answered (with_sent s now reason answer) now answer

pub join : LocalActorStore → ChunkCoord → Bytes → Result ℕ → Status × LocalActorStore
unfolding send_now
join s chunk initial_state answer =
    send_now (record s { chunk = chunk; state = assign initial_state; dirty = true; joined = true })
      (pos 0) LocalActorSendReason.join_reason answer

pub set_chunk : LocalActorStore → ChunkCoord → LocalActorStore
set_chunk s chunk =
    ite (ChunkCoord_discrete chunk s.chunk) s (record s { chunk = chunk; dirty = true })

pub move_to : LocalActorStore → ChunkCoord → Result ℕ → Status × LocalActorStore
unfolding set_chunk send_now
move_to s chunk answer =
    let s' = set_chunk s chunk in
    send_now s' s'.last_send_ms LocalActorSendReason.move_reason answer

pub refresh : LocalActorStore → Result ℕ → Status × LocalActorStore
unfolding send_now
refresh s answer = send_now s s.last_send_ms LocalActorSendReason.refresh_reason answer

pub set_state : LocalActorStore → Bytes → LocalActorStore
set_state s state =
    ite (Bytes_discrete s.state state) s (record s { state = assign state; dirty = true })

-- `lastError_ && lastError_->receivedAtMs >= sentAtMs`
abbrev pub failed_since : ℤ → Option LocalActorSendError → Bool
failed_since sent_at_ms none = false
failed_since sent_at_ms (some e) = lebℤ sent_at_ms e.received_at_ms

abbrev pub acked_since : ℤ → Option Ack → Bool
acked_since sent_at_ms none = false
acked_since sent_at_ms (some a) = lebℤ sent_at_ms a.received_at_ms

pub status : LocalActorStore → LocalActorStatus
status s = elim s.last_sent [
  | none ↦ LocalActorStatus.idle
  | some u ↦
      if failed_since u.sent_at_ms s.last_error
      then LocalActorStatus.failed
      else if acked_since u.sent_at_ms s.last_ack
      then LocalActorStatus.acked
      else LocalActorStatus.waiting
]

pub record_ack : LocalActorStore → ℕ → ℤ → Bytes → ℤ → LocalActorStore
record_ack s sequence server_epoch_ms state received_at_ms = record s {
  last_ack = some (record {
    sequence = sequence;
    server_epoch_ms = server_epoch_ms;
    received_at_ms = received_at_ms;
    state = assign state;
  });
  in_flight = set s.in_flight sequence false;
}

pub record_error : LocalActorStore → GenericErrorView → ℤ → LocalActorStore
record_error s e received_at_ms =
    if not (get_or s.in_flight e.sequence false) then s else record s {
      in_flight = set s.in_flight e.sequence false;
      last_error = some (record {
        status = Errc.rejected;
        server_code = some e.code;
        sequence = some e.sequence;
        received_at_ms = received_at_ms;
      });
    }

-- `1000 / (options_.sendHz > 0 ? options_.sendHz : 5)`
pub interval : ℤ → ℕ
interval send_hz = 1000 / (if ltbℤ (pos 0) send_hz then pos_part send_hz else 5)

-- `nowMs - lastSend < interval`
abbrev pub too_soon : LocalActorStore → ℤ → Bool
too_soon s now = ltbℤ (now -ℤ s.last_send_ms) (pos (interval s.send_hz))

-- `nowMs - lastFullSend >= options_.keyframeIntervalMs`
abbrev pub keyframe_due : LocalActorStore → ℤ → Bool
keyframe_due s now = lebℤ s.keyframe_interval_ms (now -ℤ s.last_full_send_ms)

abbrev pub heartbeat_due : LocalActorStore → ℤ → Bool
heartbeat_due s now =
    ltbℤ (pos 0) s.heartbeat_interval_ms
    && lebℤ s.heartbeat_interval_ms (now -ℤ s.last_heartbeat_ms)

-- A heartbeat counts only once it has gone out.
abbrev pub beat : LocalActorStore → ℤ → Status → Bool → LocalActorStore
beat s now answer true = record s { last_heartbeat_ms = now; last_send_ms = now }
beat s now answer false = s

pub send_heartbeat : LocalActorStore → ℤ → Status → LocalActorStore
send_heartbeat s now answer =
    beat (record s { sends = heartbeat_sent s.chunk now answer ∷ s.sends }) now answer
      (is_ok answer)

-- `answer` is that of `sendActorUpdate`, `pulse` that of `sendHeartbeat`, where the tick calls them.
pub tick : LocalActorStore → ℤ → Result ℕ → Status → LocalActorStore
unfolding send_now send_heartbeat
tick s now answer pulse =
    let due = s.dirty || s.resend_due in
    if not s.joined
    then s
    else if too_soon s now
    then s
    else if due || keyframe_due s now
    then (send_now s now
        (if due then LocalActorSendReason.interval_reason else LocalActorSendReason.keyframe_reason)
        answer).1
    else if heartbeat_due s now
    then send_heartbeat s now pulse
    else s
