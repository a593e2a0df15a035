-- ===== src/Session/Presence/Current.antt =====
-- LocalActorStore of include/crowdy/session/stores.hpp: a clean actor's last update that left holds
-- its current chunk and state.
use crowdy_cpp.Base.{
  ℕ, ◌≡◌, refl, sym, Bool, true, false, not, ◌||◌, Option, none, some, List, [], ◌∷◌, if◌then◌else◌,
  Bool-cases, inl, inr, subst, ite_yes, ite_no, get_or,
}
use crowdy_cpp.Base.Int.{ℤ, pos}
use crowdy_cpp.Core.Le.{Bytes}
use crowdy_cpp.Core.Result.{Errc, Status, is_ok, Result, value, error}
use crowdy_cpp.Wire.Spatial.{ChunkCoord}
use crowdy_cpp.Wire.Control.{GenericErrorView}
use crowdy_cpp.Session.Keys.{ChunkCoord_discrete}
use crowdy_cpp.Session.Actors.{Bytes_discrete, assign}
use crowdy_cpp.Session.Presence.{
  LocalActorSendReason, Sending, update_sent, heartbeat_sent, LocalActorStore, local_actor_store,
  send_now, join, set_chunk, move_to, refresh, set_state, record_ack, record_error, too_soon,
  keyframe_due, heartbeat_due, send_heartbeat, tick,
}

-- The latest update that left, with its chunk and its state.
abbrev pub delivered : List Sending → Option (ChunkCoord × Bytes)
delivered [] = none
delivered (update_sent chunk state at (value sequence) ∷ log) = some (chunk, state)
delivered (update_sent chunk state at (error code) ∷ log) = delivered log
delivered (heartbeat_sent chunk at answer ∷ log) = delivered log

abbrev pub IsCurrent : LocalActorStore → Type 0
IsCurrent s = s.joined ≡ true → s.dirty ≡ false → delivered s.sends ≡ some (s.chunk, s.state)

-- A call of a store's operations that change it, with the connection's answers.
pub data PresenceCall : Type 0 where
  join_call : ChunkCoord → Bytes → Result ℕ → PresenceCall
  set_chunk_call : ChunkCoord → PresenceCall
  move_to_call : ChunkCoord → Result ℕ → PresenceCall
  refresh_call : Result ℕ → PresenceCall
  set_state_call : Bytes → PresenceCall
  record_ack_call : ℕ → ℤ → Bytes → ℤ → PresenceCall
  record_error_call : GenericErrorView → ℤ → PresenceCall
  tick_call : ℤ → Result ℕ → Status → PresenceCall

abbrev pub call : PresenceCall → LocalActorStore → LocalActorStore
call (join_call chunk state answer) s = (join s chunk state answer).1
call (set_chunk_call chunk) s = set_chunk s chunk
call (move_to_call chunk answer) s = (move_to s chunk answer).1
call (refresh_call answer) s = (refresh s answer).1
call (set_state_call state) s = set_state s state
call (record_ack_call sequence epoch state now) s = record_ack s sequence epoch state now
call (record_error_call e now) s = record_error s e now
call (tick_call now answer pulse) s = tick s now answer pulse

-- The store after the calls, the latest first.
abbrev pub run : List PresenceCall → LocalActorStore → LocalActorStore
run [] s = s
run (c ∷ calls) s = call c (run calls s)

send_now-IsCurrent :
    (s : LocalActorStore) (now : ℤ) (reason : LocalActorSendReason) (answer : Result ℕ)
    → IsCurrent s
    → IsCurrent (send_now s now reason answer).1
unfolding send_now
send_now-IsCurrent s now reason (value sequence) h = λ j d. refl
send_now-IsCurrent s now reason (error Errc.would_block) h = h
send_now-IsCurrent s now reason (error c) h = h

set_chunk-IsCurrent :
    (s : LocalActorStore) (chunk : ChunkCoord) → IsCurrent s → IsCurrent (set_chunk s chunk)
unfolding set_chunk
set_chunk-IsCurrent s chunk h = elim (ChunkCoord_discrete chunk s.chunk) [
  | yes same ↦
      subst IsCurrent
        (sym (
          ite_yes (ChunkCoord_discrete chunk s.chunk) s (record s { chunk = chunk; dirty = true })
            same))
        h
  | no apart ↦
      subst IsCurrent
        (sym (
          ite_no (ChunkCoord_discrete chunk s.chunk) s (record s { chunk = chunk; dirty = true })
            apart))
        (λ j d. absurd (cc (d)))
]

set_state-IsCurrent :
    (s : LocalActorStore) (state : Bytes) → IsCurrent s → IsCurrent (set_state s state)
unfolding set_state
set_state-IsCurrent s state h = elim (Bytes_discrete s.state state) [
  | yes same ↦
      subst IsCurrent
        (sym (
          ite_yes (Bytes_discrete s.state state) s (record s { state = assign state; dirty = true })
            same))
        h
  | no apart ↦
      subst IsCurrent
        (sym (
          ite_no (Bytes_discrete s.state state) s (record s { state = assign state; dirty = true })
            apart))
        (λ j d. absurd (cc (d)))
]

record_error-IsCurrent :
    (s : LocalActorStore) (e : GenericErrorView) (now : ℤ)
    → IsCurrent s
    → IsCurrent (record_error s e now)
unfolding record_error
record_error-IsCurrent s e now h = elim (Bool-cases (get_or s.in_flight e.sequence false)) [
  | inl flying ↦ rw (flying) h
  | inr landed ↦ rw (landed) h
]

send_heartbeat-IsCurrent :
    (s : LocalActorStore) (now : ℤ) (pulse : Status)
    → IsCurrent s
    → IsCurrent (send_heartbeat s now pulse)
unfolding send_heartbeat
send_heartbeat-IsCurrent s now pulse h = elim (Bool-cases (is_ok pulse)) [
  | inl e ↦ rw (e) h
  | inr e ↦ rw (e) h
]

-- The branches of a tick.
tick_branches :
    (P : LocalActorStore → Type 0) (s sent beaten : LocalActorStore)
    (there early due pulse_due : Bool)
    → P s
    → (there ≡ true → early ≡ false → due ≡ true → P sent)
    → (there ≡ true → early ≡ false → P beaten)
    → P (
        if not there
        then s
        else if early
        then s
        else if due
        then sent
        else if pulse_due
        then beaten
        else s)
tick_branches P s sent beaten false early due pulse_due h sends beats = h
tick_branches P s sent beaten true true due pulse_due h sends beats = h
tick_branches P s sent beaten true false true pulse_due h sends beats = sends refl refl refl
tick_branches P s sent beaten true false false true h sends beats = beats refl refl
tick_branches P s sent beaten true false false false h sends beats = h

-- What holds of the store and of each thing that a tick may do holds after the tick.
pub tick-cases :
    (P : LocalActorStore → Type 0) (s : LocalActorStore) (now : ℤ) (answer : Result ℕ)
    (pulse : Status)
    → P s
    → ((reason : LocalActorSendReason)
        → s.joined ≡ true
        → too_soon s now ≡ false
        → P (send_now s now reason answer).1)
    → (s.joined ≡ true → too_soon s now ≡ false → P (send_heartbeat s now pulse))
    → P (tick s now answer pulse)
unfolding tick
tick-cases P s now answer pulse h sends beats =
    let due = s.dirty || s.resend_due in
    let reason =
      if due then LocalActorSendReason.interval_reason else LocalActorSendReason.keyframe_reason in
    tick_branches P s (send_now s now reason answer).1 (send_heartbeat s now pulse) s.joined
      (too_soon s now) (due || keyframe_due s now) (heartbeat_due s now) h
      (λ j e d. sends reason j e) beats

call-IsCurrent : (c : PresenceCall) (s : LocalActorStore) → IsCurrent s → IsCurrent (call c s)
unfolding join move_to refresh record_ack
call-IsCurrent (join_call chunk state answer) s h =
    send_now-IsCurrent
      (record s { chunk = chunk; state = assign state; dirty = true; joined = true }) (pos 0)
      LocalActorSendReason.join_reason answer (λ j d. absurd (cc (d)))
call-IsCurrent (set_chunk_call chunk) s h = set_chunk-IsCurrent s chunk h
call-IsCurrent (move_to_call chunk answer) s h =
    send_now-IsCurrent (set_chunk s chunk) (set_chunk s chunk).last_send_ms
      LocalActorSendReason.move_reason answer (set_chunk-IsCurrent s chunk h)
call-IsCurrent (refresh_call answer) s h =
    send_now-IsCurrent s s.last_send_ms LocalActorSendReason.refresh_reason answer h
call-IsCurrent (set_state_call state) s h = set_state-IsCurrent s state h
call-IsCurrent (record_ack_call sequence epoch state now) s h = h
call-IsCurrent (record_error_call e now) s h = record_error-IsCurrent s e now h
call-IsCurrent (tick_call now answer pulse) s h =
    tick-cases IsCurrent s now answer pulse h
      (λ reason j slot. send_now-IsCurrent s now reason answer h)
      (λ j slot. send_heartbeat-IsCurrent s now pulse h)

run-IsCurrent :
    (calls : List PresenceCall) (uuid : Bytes) (send_hz keyframe_ms heartbeat_ms : ℤ)
    (distance decay : ℕ)
    → IsCurrent (run calls (local_actor_store uuid send_hz keyframe_ms heartbeat_ms distance decay))
unfolding local_actor_store
run-IsCurrent [] uuid send_hz keyframe_ms heartbeat_ms distance decay = λ j d. absurd (cc (j))
run-IsCurrent (c ∷ calls) uuid send_hz keyframe_ms heartbeat_ms distance decay =
    call-IsCurrent c
      (run calls (local_actor_store uuid send_hz keyframe_ms heartbeat_ms distance decay))
      (run-IsCurrent calls uuid send_hz keyframe_ms heartbeat_ms distance decay)

-- Whatever the calls of a new store and the connection's answers: if the actor has joined and is not
-- dirty, the latest update that the connection took has its current chunk and state.
pub delivered-run :
    (calls : List PresenceCall) (uuid : Bytes) (send_hz keyframe_ms heartbeat_ms : ℤ)
    (distance decay : ℕ)
    → let s = run calls (local_actor_store uuid send_hz keyframe_ms heartbeat_ms distance decay) in
      s.joined ≡ true → s.dirty ≡ false → delivered s.sends ≡ some (s.chunk, s.state)
delivered-run calls uuid send_hz keyframe_ms heartbeat_ms distance decay =
    run-IsCurrent calls uuid send_hz keyframe_ms heartbeat_ms distance decay
