-- ===== src/Session/Presence/Examples.antt =====
-- Concrete runs of LocalActorStore (include/crowdy/session/stores.hpp).
use crowdy_cpp.Base.{◌≡◌, refl, false, some, List, [], ◌∷◌, ◌||◌}
use crowdy_cpp.Base.Int.{pos}
use crowdy_cpp.Core.Le.{Bytes}
use crowdy_cpp.Core.Result.{Errc, value, error}
use crowdy_cpp.Wire.Spatial.{ChunkCoord}
use crowdy_cpp.Session.Presence.{
  tick, send_heartbeat, LocalActorStore, local_actor_store, interval, join, send_now,
}
use crowdy_cpp.Session.Presence.Current
use crowdy_cpp.Session.Presence.Current.{
  PresenceCall, join_call, set_state_call, tick_call, delivered, delivered-run,
}
use crowdy_cpp.Session.Presence.Retry.{failed_ticks, failed_ticks-retry}
use crowdy_cpp.Session.Presence.Paced.{IsPaced, departures, run-IsPaced}

abbrev origin : ChunkCoord
origin = record { x = pos 0; y = pos 0; z = pos 0 }

abbrev player : Bytes
player = 1 ∷ []

abbrev self : LocalActorStore
self = local_actor_store player (pos 5) (pos 3000) (pos 2000) 8 1

-- A join that is deferred, and a tick whose send is taken.
abbrev presence_calls : List PresenceCall
presence_calls =
    tick_call (pos 250) (value 1) Errc.ok ∷ join_call origin (5 ∷ []) (error Errc.would_block) ∷ []

clean_is_current :
    let s = Current.run presence_calls self in delivered s.sends ≡ some (s.chunk, s.state)
unfolding local_actor_store join send_now tick interval
clean_is_current = delivered-run presence_calls player (pos 5) (pos 3000) (pos 2000) 8 1 refl refl

-- A join that was deferred, and a tick whose send fails.
abbrev deferred : LocalActorStore
deferred = (join self origin (5 ∷ []) (error Errc.would_block)).1

deferred_retried :
    let s' =
      Current.run
        (tick_call (pos 400) (value 3) Errc.ok ∷ failed_ticks ((pos 200, Errc.socket_error) ∷ []))
        deferred in
    (delivered s'.sends ≡ some (deferred.chunk, deferred.state))
    × (s'.last_sequence ≡ some 3)
    × ((s'.dirty || s'.resend_due) ≡ false)
unfolding join send_now local_actor_store interval
deferred_retried =
    failed_ticks-retry deferred ((pos 200, Errc.socket_error) ∷ []) (pos 400) 3 Errc.ok refl refl
      (refl, tt) refl

-- The player has joined, and the update has left.
abbrev present : LocalActorStore
present = (join self origin (5 ∷ []) (value 0)).1

-- A heartbeat, a tick that comes too soon, and two keyframes.
abbrev timed_calls : List PresenceCall
timed_calls =
    tick_call (pos 6000) (value 2) Errc.ok
    ∷ tick_call (pos 3000) (value 1) Errc.ok
    ∷ tick_call (pos 2100) (value 1) Errc.ok
    ∷ tick_call (pos 2000) (value 1) Errc.ok
    ∷ []

ticks-IsPaced : IsPaced (pos 5) (Current.run timed_calls present)
unfolding local_actor_store join send_now
ticks-IsPaced =
    run-IsPaced (pos 5) timed_calls present (tt, (tt, (tt, (tt, tt))))
      (record { rate = refl; spaced = tt; latest = refl })

-- Four sends have left by then.
ticks-departures :
    departures (Current.run timed_calls present).sends ≡ pos 6000 ∷ pos 3000 ∷ pos 2000 ∷ pos 0 ∷ []
unfolding local_actor_store join send_now tick send_heartbeat interval
ticks-departures = refl
