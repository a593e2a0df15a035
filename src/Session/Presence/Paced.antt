-- ===== src/Session/Presence/Paced.antt =====
-- LocalActorStore of include/crowdy/session/stores.hpp: how far apart the sends of its ticks are.
use crowdy_cpp.Base.{
  ℕ, zero, suc, ◌/◌, ◌≡◌, refl, sym, ap, ◌∙◌, Bool, true, false, List, [], ◌∷◌, All, if◌then◌else◌,
  Bool-cases, inl, inr, subst, ite_yes, ite_no, get_or, arith,
}
use crowdy_cpp.Base.Int.{ℤ, pos, negsuc, ltbℤ, ◌-ℤ◌}
use crowdy_cpp.Core.Le.{Bytes}
use crowdy_cpp.Core.Result.{Errc, Status, is_ok, Result, value, error}
use crowdy_cpp.Wire.Spatial.{ChunkCoord}
use crowdy_cpp.Session.Keys.{ChunkCoord_discrete}
use crowdy_cpp.Session.Actors.{Bytes_discrete, assign}
use crowdy_cpp.Session.Presence.{
  LocalActorSendReason, Sending, update_sent, heartbeat_sent, LocalActorStore, send_now, set_chunk,
  set_state, record_ack, record_error, interval, too_soon, send_heartbeat,
}
use crowdy_cpp.Session.Presence.Current.{
  PresenceCall, join_call, set_chunk_call, move_to_call, refresh_call, set_state_call,
  record_ack_call, record_error_call, tick_call, call, run, tick-cases,
}

-- The times of the sends that left, as the store counts them, the latest first.
abbrev pub departures : List Sending → List ℤ
departures [] = []
departures (update_sent chunk state at (value sequence) ∷ log) = at ∷ departures log
departures (update_sent chunk state at (error code) ∷ log) = departures log
departures (heartbeat_sent chunk at answer ∷ log) =
    let rest = departures log in if is_ok answer then at ∷ rest else rest

-- Each time is at least `gap` after the one before it.
abbrev pub IsSpaced : ℕ → List ℤ → Type 0
IsSpaced gap [] = Unit {0}
IsSpaced gap (t ∷ []) = Unit {0}
IsSpaced gap (t ∷ u ∷ times) = (ltbℤ (t -ℤ u) (pos gap) ≡ false) × IsSpaced gap (u ∷ times)

abbrev pub IsLatest : ℤ → List ℤ → Type 0
IsLatest last [] = Unit {0}
IsLatest last (t ∷ times) = t ≡ last

-- The milliseconds between the sends of a rate: of five a second where none is given.
abbrev pub gap_of : ℤ → ℕ
gap_of (pos zero) = 200
gap_of (pos (suc n)) = 1000 / suc n
gap_of (negsuc n) = 200

interval-gap_of : (send_hz : ℤ) → interval send_hz ≡ gap_of send_hz
unfolding interval
interval-gap_of (pos zero) = refl
interval-gap_of (pos (suc n)) = ground arith
interval-gap_of (negsuc n) = ground arith

pub record IsPaced (send_hz : ℤ) (s : LocalActorStore) : Type 0 where
  pub rate : s.send_hz ≡ send_hz
  pub spaced : IsSpaced (gap_of send_hz) (departures s.sends)
  pub latest : IsLatest s.last_send_ms (departures s.sends)

-- The calls but `join`, `moveTo` and `refresh`, which send at once.
abbrev pub IsTimed : PresenceCall → Type 0
IsTimed (join_call chunk state answer) = ⊥
IsTimed (move_to_call chunk answer) = ⊥
IsTimed (refresh_call answer) = ⊥
IsTimed _ = Unit {0}

IsSpaced-cons :
    (gap : ℕ) (now last : ℤ) (times : List ℤ)
    → ltbℤ (now -ℤ last) (pos gap) ≡ false
    → IsLatest last times
    → IsSpaced gap times
    → IsSpaced gap (now ∷ times)
IsSpaced-cons gap now last [] slot latest spaced = tt
IsSpaced-cons gap now last (t ∷ times) slot latest spaced =
    (ap (λ u. ltbℤ (now -ℤ u) (pos gap)) latest ∙ slot, spaced)

slot_of :
    (hz : ℤ) (s : LocalActorStore) (now : ℤ)
    → s.send_hz ≡ hz
    → too_soon s now ≡ false
    → ltbℤ (now -ℤ s.last_send_ms) (pos (gap_of hz)) ≡ false
slot_of hz s now rate slot =
    ap (λ z. ltbℤ (now -ℤ s.last_send_ms) (pos z)) (sym (interval-gap_of hz))
    ∙ ap (λ z. ltbℤ (now -ℤ s.last_send_ms) (pos (interval z))) (sym rate)
    ∙ slot

send_now-IsPaced :
    (hz : ℤ) (s : LocalActorStore) (now : ℤ) (reason : LocalActorSendReason) (answer : Result ℕ)
    → too_soon s now ≡ false
    → IsPaced hz s
    → IsPaced hz (send_now s now reason answer).1
unfolding send_now
send_now-IsPaced hz s now reason (value sequence) slot h = record {
  rate = h.rate;
  spaced =
      IsSpaced-cons (gap_of hz) now s.last_send_ms (departures s.sends)
        (slot_of hz s now h.rate slot) h.latest h.spaced;
  latest = refl;
}
send_now-IsPaced hz s now reason (error Errc.would_block) slot h = record {
  rate = h.rate;
  spaced = h.spaced;
  latest = h.latest;
}
send_now-IsPaced hz s now reason (error c) slot h = record {
  rate = h.rate;
  spaced = h.spaced;
  latest = h.latest;
}

send_heartbeat-IsPaced :
    (hz : ℤ) (s : LocalActorStore) (now : ℤ) (pulse : Status)
    → too_soon s now ≡ false
    → IsPaced hz s
    → IsPaced hz (send_heartbeat s now pulse)
unfolding send_heartbeat
send_heartbeat-IsPaced hz s now Errc.ok slot h = record {
  rate = h.rate;
  spaced =
      IsSpaced-cons (gap_of hz) now s.last_send_ms (departures s.sends)
        (slot_of hz s now h.rate slot) h.latest h.spaced;
  latest = refl;
}
send_heartbeat-IsPaced hz s now c slot h = record {
  rate = h.rate;
  spaced = h.spaced;
  latest = h.latest;
}

with_chunk_state-IsPaced :
    (hz : ℤ) (s : LocalActorStore) (chunk : ChunkCoord) (state : Bytes) (dirty : Bool)
    → IsPaced hz s
    → IsPaced hz (record s { chunk = chunk; state = state; dirty = dirty })
with_chunk_state-IsPaced hz s chunk state dirty h = record {
  rate = h.rate;
  spaced = h.spaced;
  latest = h.latest;
}

call-IsPaced :
    (hz : ℤ) (c : PresenceCall) (s : LocalActorStore)
    → IsTimed c
    → IsPaced hz s
    → IsPaced hz (call c s)
unfolding set_chunk set_state record_ack record_error
call-IsPaced hz (join_call chunk state answer) s timed h = absurd timed
call-IsPaced hz (move_to_call chunk answer) s timed h = absurd timed
call-IsPaced hz (refresh_call answer) s timed h = absurd timed
call-IsPaced hz (set_chunk_call chunk) s timed h = elim (ChunkCoord_discrete chunk s.chunk) [
  | yes same ↦
      subst (IsPaced hz)
        (sym (
          ite_yes (ChunkCoord_discrete chunk s.chunk) s (record s { chunk = chunk; dirty = true })
            same))
        h
  | no apart ↦
      subst (IsPaced hz)
        (sym (
          ite_no (ChunkCoord_discrete chunk s.chunk) s (record s { chunk = chunk; dirty = true })
            apart))
        (with_chunk_state-IsPaced hz s chunk s.state true h)
]
call-IsPaced hz (set_state_call state) s timed h = elim (Bytes_discrete s.state state) [
  | yes same ↦
      subst (IsPaced hz)
        (sym (
          ite_yes (Bytes_discrete s.state state) s (record s { state = assign state; dirty = true })
            same))
        h
  | no apart ↦
      subst (IsPaced hz)
        (sym (
          ite_no (Bytes_discrete s.state state) s (record s { state = assign state; dirty = true })
            apart))
        (with_chunk_state-IsPaced hz s s.chunk (assign state) true h)
]
call-IsPaced hz (record_ack_call sequence epoch state now) s timed h = record {
  rate = h.rate;
  spaced = h.spaced;
  latest = h.latest;
}
call-IsPaced hz (record_error_call e now) s timed h =
    elim (Bool-cases (get_or s.in_flight e.sequence false)) [
      | inl flying ↦ rw (flying) record { rate = h.rate; spaced = h.spaced; latest = h.latest }
      | inr landed ↦ rw (landed) h
    ]
call-IsPaced hz (tick_call now answer pulse) s timed h =
    tick-cases (IsPaced hz) s now answer pulse h
      (λ reason there slot. send_now-IsPaced hz s now reason answer slot h)
      (λ there slot. send_heartbeat-IsPaced hz s now pulse slot h)

-- From a store whose sends that left are an interval apart, the latest at its `lastSendMs`, any calls
-- but `join`, `moveTo` and `refresh` lead to such a store: whatever changes and however often it
-- ticks, two updates or heartbeats that leave are at least 1000 / sendHz milliseconds apart (200 when
-- sendHz is not positive), by the times of the ticks that sent them.
pub run-IsPaced :
    (send_hz : ℤ) (calls : List PresenceCall) (s : LocalActorStore)
    → All IsTimed calls
    → IsPaced send_hz s
    → IsPaced send_hz (run calls s)
run-IsPaced hz [] s timed h = h
run-IsPaced hz (c ∷ calls) s (t, ts) h =
    call-IsPaced hz c (run calls s) t (run-IsPaced hz calls s ts h)
