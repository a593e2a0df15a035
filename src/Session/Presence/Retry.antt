-- ===== src/Session/Presence/Retry.antt =====
-- LocalActorStore of include/crowdy/session/stores.hpp: a send that failed is tried again.
use crowdy_cpp.Base.{
  ℕ, ◌≡◌, refl, sym, ap, ap₂, ◌∙◌, Bool, true, false, not, ◌||◌, some, List, [], ◌∷◌, All,
  if◌then◌else◌, subst,
}
use crowdy_cpp.Base.Int.{ℤ, pos, ltbℤ, ◌-ℤ◌}
use crowdy_cpp.Core.Result.{Errc, Status, Result, value, error}
use crowdy_cpp.Session.Presence.{
  LocalActorSendReason, LocalActorStore, send_now, interval, too_soon, keyframe_due, heartbeat_due,
  send_heartbeat, tick,
}
use crowdy_cpp.Session.Presence.Current.{delivered, PresenceCall, tick_call, run}

due_branch :
    (s sent beaten : LocalActorStore) (there early due k pulse_due : Bool)
    → there ≡ true
    → early ≡ false
    → due ≡ true
    → (if not there
        then s
        else if early
        then s
        else if due || k
        then sent
        else if pulse_due
        then beaten
        else s)
      ≡ sent
due_branch s sent beaten true false true k pulse_due there slot d = refl
due_branch s sent beaten false early due k pulse_due there slot d = absurd (cc (there))
due_branch s sent beaten true true due k pulse_due there slot d = absurd (cc (slot))
due_branch s sent beaten true false false k pulse_due there slot d = absurd (cc (d))

-- A tick that is due sends the current state.
tick-due :
    (s : LocalActorStore) (now : ℤ) (answer : Result ℕ) (pulse : Status)
    → s.joined ≡ true
    → too_soon s now ≡ false
    → (s.dirty || s.resend_due) ≡ true
    → (reason : LocalActorSendReason) × (tick s now answer pulse ≡ (send_now s now reason answer).1)
unfolding tick
tick-due s now answer pulse there slot due =
    let reason =
      if s.dirty || s.resend_due
      then LocalActorSendReason.interval_reason
      else LocalActorSendReason.keyframe_reason in
    (
      reason,
      due_branch s (send_now s now reason answer).1 (send_heartbeat s now pulse) s.joined
          (too_soon s now) (s.dirty || s.resend_due) (keyframe_due s now) (heartbeat_due s now)
          there slot due,
    )

-- A store that still has to send what `s` had to send, in the same slot.
record IsDue (s s' : LocalActorStore) : Type 0 where
  joined : s'.joined ≡ true
  due : (s'.dirty || s'.resend_due) ≡ true
  last_send_ms : s'.last_send_ms ≡ s.last_send_ms
  send_hz : s'.send_hz ≡ s.send_hz
  chunk : s'.chunk ≡ s.chunk
  state : s'.state ≡ s.state

or_true : (b : Bool) → (b || true) ≡ true
or_true true = refl
or_true false = refl

send_now-IsDue :
    (s s' : LocalActorStore) (now : ℤ) (reason : LocalActorSendReason) (code : Errc)
    → IsDue s s'
    → IsDue s (send_now s' now reason (error code)).1
unfolding send_now
send_now-IsDue s s' now reason Errc.would_block h = record {
  joined = h.joined;
  due = or_true s'.dirty;
  last_send_ms = h.last_send_ms;
  send_hz = h.send_hz;
  chunk = h.chunk;
  state = h.state;
}
send_now-IsDue s s' now reason (c) h = record {
  joined = h.joined;
  due = or_true s'.dirty;
  last_send_ms = h.last_send_ms;
  send_hz = h.send_hz;
  chunk = h.chunk;
  state = h.state;
}

too_soon_same :
    (s s' : LocalActorStore) (now : ℤ)
    → IsDue s s'
    → too_soon s now ≡ false
    → too_soon s' now ≡ false
too_soon_same s s' now h slot =
    ap (λ l. ltbℤ (now -ℤ l) (pos (interval s'.send_hz))) h.last_send_ms
    ∙ ap (λ hz. ltbℤ (now -ℤ s.last_send_ms) (pos (interval hz))) h.send_hz
    ∙ slot

-- Ticks whose sends fail: when, and how.
abbrev pub failed_ticks : List (ℤ × Errc) → List PresenceCall
failed_ticks [] = []
failed_ticks ((now, code) ∷ tries) = tick_call now (error code) Errc.ok ∷ failed_ticks tries

failed_ticks-IsDue :
    (tries : List (ℤ × Errc)) (s : LocalActorStore)
    → IsDue s s
    → All (λ (now, code). too_soon s now ≡ false) tries
    → IsDue s (run (failed_ticks tries) s)
failed_ticks-IsDue [] s h slots = h
failed_ticks-IsDue ((now, code) ∷ tries) s h (slot, slots) =
    let s' : LocalActorStore = run (failed_ticks tries) s in
    let ih : IsDue s s' = failed_ticks-IsDue tries s h slots in
    let (reason, is) =
      tick-due s' now (error code) Errc.ok ih.joined (too_soon_same s s' now ih slot) ih.due in
    subst (IsDue s) (sym is) (send_now-IsDue s s' now reason code ih)

-- An actor that has joined, and has a change to send or a send that failed, keeps trying: after any
-- number of ticks in its send slot whose sends fail, with whatever errors, the first tick in the slot
-- whose send the connection takes sends the chunk and the state, and leaves nothing to send.
pub failed_ticks-retry :
    (s : LocalActorStore) (tries : List (ℤ × Errc)) (now : ℤ) (sequence : ℕ) (pulse : Status)
    → s.joined ≡ true
    → (s.dirty || s.resend_due) ≡ true
    → All (λ (t, code). too_soon s t ≡ false) tries
    → too_soon s now ≡ false
    → let s' = run (tick_call now (value sequence) pulse ∷ failed_ticks tries) s in
      (delivered s'.sends ≡ some (s.chunk, s.state))
      × (s'.last_sequence ≡ some sequence)
      × ((s'.dirty || s'.resend_due) ≡ false)
unfolding send_now
failed_ticks-retry s tries now sequence pulse there due slots slot =
    let here : IsDue s s = record {
      joined = there;
      due = due;
      last_send_ms = refl;
      send_hz = refl;
      chunk = refl;
      state = refl;
    } in
    let k : LocalActorStore = run (failed_ticks tries) s in
    let h : IsDue s k = failed_ticks-IsDue tries s here slots in
    let (reason, is) =
      tick-due k now (value sequence) pulse h.joined (too_soon_same s k now h slot) h.due in
    (
      ap (λ r. delivered r.sends) is ∙ ap₂ (λ c b. some (c, b)) h.chunk h.state,
      ap (λ r. r.last_sequence) is,
      ap (λ r. r.dirty || r.resend_due) is,
    )
