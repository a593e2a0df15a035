-- ===== src/Replication/Lifecycle.antt =====
-- The state machine of src/replication/connection.cpp: connect, disconnect and the housekeeping of
-- each pass. The world is a parameter: what the session provider and the socket answer, and when a
-- send leaves. The clocks' readings are arguments; log lines and the thread are left out.
pub mod Changes
pub mod Settled
pub mod Runs
pub mod Served
mod Examples
use mathlib.Core.Logic.{ite}
use crowdy_cpp.Base.{
  ℕ, ◌+◌, ◌%◌, ◌^◌, ◌≡◌, Bool, true, false, not, ◌&&◌, ◌||◌, Option, none, some, List, [], ◌∷◌,
  length, ◌==◌, if◌then◌else◌,
}
use crowdy_cpp.Base.Int.{ℤ, pos, ltbℤ, lebℤ, ◌+ℤ◌, ◌-ℤ◌}
use crowdy_cpp.Core.Le.{Bytes}
use crowdy_cpp.Core.Result.{Errc, Status, Result, value, error}
use crowdy_cpp.Wire.Protocol.{token_octets}
use crowdy_cpp.Replication.Receiver.{
  ConnState, idle, connecting, connected, reconnecting, failed, closed,
}

pub ConnState_discrete : Discrete ConnState
ConnState_discrete = hlevel

pub record TokenInfo : Type 0 where
  pub token : Bytes
  pub game_token_id : ℤ
  pub expires_at_epoch_ms : ℤ
  pub authorized_on_current_server : Bool

pub record Assignment : Type 0 where
  pub ip4 : Bytes
  pub ip6 : Bytes
  pub client_port : ℤ

-- The options that the state machine reads.
pub record Config : Type 0 where
  pub prefer_ipv6 : Bool
  pub session_ready_wait_ms : ℤ
  pub refresh_lead_ms : ℤ
  pub advertise_capabilities : Bool
  pub advertise_interval_ms : ℤ
  pub watchdog_silence_ms : ℤ

-- `changes` are the status events, newest first, those too that the ring has no room for.
pub record Lifecycle (W : Type 0) : Type 0 where
  pub config : Config
  pub state : ConnState
  pub session_epoch : ℕ
  pub changes : List ConnState
  pub token : TokenInfo
  pub assignment : Assignment
  pub ready_at_ms : ℤ
  pub last_recv_ms : ℤ
  pub last_send_ms : ℤ
  pub last_caps_ms : ℤ
  pub reconnect_requested : Bool
  pub reconnects : ℕ
  pub world : W

-- What the provider and the socket do: `assignServer`, `refreshToken`, `open` and `close` of the socket, and the sends
-- of `sendCapabilities` and `flushSends`, which answer the new `lastSendMs_` if a datagram left.
pub record IWorld (W : Type 0) : Type 0 where
  pub assign_server : W → Result Assignment × W
  pub refresh_token : W → Assignment → Result TokenInfo × W
  pub open_socket : W → Bytes → ℤ → Status × W
  pub close : W → W
  pub send_capabilities : W → Option ℤ × W
  pub flush_sends : W → Option ℤ × W

-- The session epoch when the state becomes `next`.
abbrev pub epoch_in : ConnState → ℕ → ℕ
epoch_in connecting n = (n + 1) % 2 ^ 64
epoch_in _ n = n

-- `host` of an assignment.
pub host_of : Config → Assignment → Bytes
host_of config a = if config.prefer_ipv6 && not (length a.ip6 == 0) then a.ip6 else a.ip4

module _ {W : Type 0} where
  pub lifecycle : Config → TokenInfo → W → Lifecycle W
  lifecycle config token world = record {
    config = config;
    state = idle;
    session_epoch = 0;
    changes = [];
    token = token;
    assignment = record { ip4 = []; ip6 = []; client_port = pos 0 };
    ready_at_ms = pos 0;
    last_recv_ms = pos 0;
    last_send_ms = pos 0;
    last_caps_ms = pos 0;
    reconnect_requested = false;
    reconnects = 0;
    world = world;
  }

  pub set_state : Lifecycle W → ConnState → Lifecycle W
  set_state c next = ite (ConnState_discrete c.state next) c (record c {
    state = next;
    session_epoch = epoch_in next c.session_epoch;
    changes = next ∷ c.changes;
  })

  pub request_reassignment : Lifecycle W → Lifecycle W
  request_reassignment c = record c { reconnect_requested = true }

  pub set_token : Lifecycle W → TokenInfo → Lifecycle W
  set_token c token = record c { token = token }

  -- A send of the connection.
  abbrev pub sent : Lifecycle W → Option ℤ × W → Lifecycle W
  sent c (none, world) = record c { world = world }
  sent c (some at, world) = record c { last_send_ms = at; world = world }

  -- `doAssign` once the socket has answered.
  abbrev pub opened : Lifecycle W → Assignment → ℤ → Status × W → Status × Lifecycle W
  opened c a now (Errc.ok, world) = (
    Errc.ok,
    record c {
      assignment = a;
      ready_at_ms = now +ℤ c.config.session_ready_wait_ms;
      last_recv_ms = pos 0;
      last_send_ms = pos 0;
      last_caps_ms = pos 0;
      world = world;
    },
  )
  opened c a now (code, world) = (code, record c { world = world })

module _ {W : Type 0} (w : IWorld W) where
  -- `doAssign` once the provider has answered.
  abbrev pub assigned : Lifecycle W → ℤ → Result Assignment × W → Status × Lifecycle W
  assigned c now (error code, world) = (code, record c { world = world })
  assigned c now (value a, world) =
      if (length (host_of c.config a) == 0) || lebℤ a.client_port (pos 0)
      then (Errc.rejected, record c { world = world })
      else opened c a now (w.open_socket world (host_of c.config a) a.client_port)

  pub do_assign : Lifecycle W → ℤ → Status × Lifecycle W
  unfolding host_of
  do_assign c now = assigned c now (w.assign_server c.world)

  -- The state after an assignment: `ok` in `connect` leaves it, in the housekeeping makes it `next`.
  abbrev pub after_assign : Status × Lifecycle W → ConnState → Lifecycle W
  after_assign (Errc.ok, c) next = set_state c next
  after_assign (code, c) next = set_state c failed

  pub connect : Lifecycle W → ℤ → Status × Lifecycle W
  unfolding set_state do_assign
  connect c now =
      let r = do_assign (set_state c connecting) now in
      if not (length c.token.token == token_octets)
      then (Errc.invalid_argument, c)
      else ite (ConnState_discrete c.state connected) (Errc.ok, c)
          (ite (ConnState_discrete c.state connecting) (Errc.ok, c)
            (r.0, after_assign r connecting))

  pub disconnect : Lifecycle W → Lifecycle W
  unfolding set_state
  disconnect c =
      let c' = sent c (w.flush_sends c.world) in
      set_state (record c' { world = w.close c'.world }) closed

  -- The parts of `housekeeping`, in order.
  pub become_ready : Lifecycle W → ℤ → Lifecycle W
  unfolding set_state
  become_ready c now =
      ite (ConnState_discrete c.state connecting)
        (if lebℤ c.ready_at_ms now then set_state c connected else c) c

  -- `lastCapsMs_ == 0 || nowMono - lastCapsMs_ >= advertiseIntervalMs`
  abbrev pub advertise_due : Lifecycle W → ℤ → Bool
  advertise_due c now =
      (lebℤ c.last_caps_ms (pos 0) && lebℤ (pos 0) c.last_caps_ms)
      || lebℤ c.config.advertise_interval_ms (now -ℤ c.last_caps_ms)

  pub advertise : Lifecycle W → ℤ → Lifecycle W
  advertise c now =
      ite (ConnState_discrete c.state connected)
        (if c.config.advertise_capabilities && advertise_due c now
          then sent (record c { last_caps_ms = now }) (w.send_capabilities c.world)
          else c)
        c

  -- A token that the current server was not told about needs a new assignment; a refresh that failed
  -- is tried again in 30 seconds.
  abbrev pub refreshed : Lifecycle W → Result TokenInfo × W → Lifecycle W
  refreshed c (value t, world) = record c {
    token = t;
    reconnect_requested = if t.authorized_on_current_server then c.reconnect_requested else true;
    world = world;
  }
  refreshed c (error code, world) = record c {
    token = record c.token { expires_at_epoch_ms = c.token.expires_at_epoch_ms +ℤ pos 30000 };
    world = world;
  }

  -- `epochMillis() >= expiresAt - refreshLeadMs`, where both are positive.
  abbrev pub refresh_due : Lifecycle W → ℤ → Bool
  refresh_due c epoch_now =
      ltbℤ (pos 0) c.config.refresh_lead_ms
      && (ltbℤ (pos 0) c.token.expires_at_epoch_ms
          && lebℤ (c.token.expires_at_epoch_ms -ℤ c.config.refresh_lead_ms) epoch_now)

  pub refresh_if_due : Lifecycle W → ℤ → Lifecycle W
  refresh_if_due c epoch_now =
      if refresh_due c epoch_now then refreshed c (w.refresh_token c.world c.assignment) else c

  abbrev pub is_silent : Lifecycle W → ℤ → Bool
  is_silent c now =
      ltbℤ (pos 0) c.config.watchdog_silence_ms
      && (ltbℤ (pos 0) c.last_recv_ms
          && (ltbℤ c.last_recv_ms c.last_send_ms
              && ltbℤ c.config.watchdog_silence_ms (now -ℤ c.last_recv_ms)))

  pub watch : Lifecycle W → ℤ → Lifecycle W
  watch c now =
      ite (ConnState_discrete c.state connected)
        (if is_silent c now then record c { reconnect_requested = true } else c) c

  pub reassign : Lifecycle W → ℤ → Lifecycle W
  unfolding set_state do_assign
  reassign c now =
      let c1 = set_state (record c { reconnect_requested = false }) reconnecting in
      let c2 = record c1 { reconnects = (c1.reconnects + 1) % 2 ^ 64 } in
      let c3 = sent c2 (w.flush_sends c2.world) in
      after_assign (do_assign (record c3 { world = w.close c3.world }) now) connecting

  abbrev pub if_requested : Lifecycle W → ℤ → Bool → Lifecycle W
  if_requested c now true = reassign c now
  if_requested c now false = c

  -- `now` is the monotonic clock's reading, `epoch_now` the wall clock's, and `assign_now` the
  -- monotonic one after an assignment.
  pub housekeeping : Lifecycle W → ℤ → ℤ → ℤ → Lifecycle W
  unfolding become_ready advertise refresh_if_due watch reassign
  housekeeping c now epoch_now assign_now =
      let c1 = watch (refresh_if_due (advertise (become_ready c now) now) epoch_now) now in
      if_requested c1 assign_now c1.reconnect_requested
