-- ===== src/Replication/Lifecycle/Runs.antt =====
-- The state machine of src/replication/connection.cpp through any calls.
use crowdy_cpp.Base.{◌≡◌, inl, inr, refl, Bool, true, false, List, [], ◌∷◌}
use crowdy_cpp.Base.Int.{ℤ}
use crowdy_cpp.Replication.Lifecycle.{
  TokenInfo, Config, Lifecycle, IWorld, lifecycle, request_reassignment, set_token, connect,
  disconnect, become_ready, advertise, refresh_if_due, watch, reassign, if_requested, housekeeping,
}
use crowdy_cpp.Replication.Lifecycle.Settled.{
  IsSettled, connect-IsSettled, disconnect-IsSettled, become_ready-IsSettled, Continues-IsSettled,
  advertise-Continues, refresh_if_due-Continues, watch-Continues, reassign-IsDecided,
  IsDecided-IsSettled,
}

-- A call of the connection that changes its state machine: `requestReassignment` stands also for a
-- reconnect command and an expired token, and a datagram for its arrival.
pub data LifecycleCall : Type 0 where
  connect_call : ℤ → LifecycleCall
  disconnect_call : LifecycleCall
  request_call : LifecycleCall
  set_token_call : TokenInfo → LifecycleCall
  receive_call : ℤ → LifecycleCall
  housekeeping_call : ℤ → ℤ → ℤ → LifecycleCall

module _ {W : Type 0} (w : IWorld W) where
  pub before_reassign-IsSettled :
      (c : Lifecycle W) (now epoch_now : ℤ)
      → IsSettled w c
      → IsSettled w
          (watch w (refresh_if_due w (advertise w (become_ready w c now) now) epoch_now) now)
  before_reassign-IsSettled c now epoch_now h =
      let c1 = become_ready w c now in
      let c2 = advertise w c1 now in
      let c3 = refresh_if_due w c2 epoch_now in
      Continues-IsSettled w c3 (watch w c3 now) (watch-Continues w c3 now) (
        Continues-IsSettled w c2 c3 (refresh_if_due-Continues w c2 epoch_now) (
          Continues-IsSettled w c1 c2 (advertise-Continues w c1 now)
            (become_ready-IsSettled w c now h)))

  if_requested-IsSettled :
      (c : Lifecycle W) (now : ℤ) (asked : Bool)
      → c.reconnect_requested ≡ asked
      → IsSettled w c
      → IsSettled w (if_requested w c now asked)
        × ((if_requested w c now asked).reconnect_requested ≡ false)
  if_requested-IsSettled c now false a h = (h, a)
  if_requested-IsSettled c now true a h = elim (reassign-IsDecided w c now h) [
    | inl (r, is, served) ↦
        (IsDecided-IsSettled w false (reassign w c now) (inl (r, is, served)), served)
    | inr (r, is, served) ↦
        (IsDecided-IsSettled w false (reassign w c now) (inr (r, is, served)), served)
  ]

  -- A pass of the housekeeping on a settled run, with any readings of the clocks and any answers of
  -- the provider and the socket, leaves a settled run without a request for a new assignment.
  pub housekeeping-IsSettled :
      (c : Lifecycle W) (now epoch_now assign_now : ℤ)
      → IsSettled w c
      → IsSettled w (housekeeping w c now epoch_now assign_now)
        × ((housekeeping w c now epoch_now assign_now).reconnect_requested ≡ false)
  unfolding housekeeping
  housekeeping-IsSettled c now epoch_now assign_now h =
      let c1 : Lifecycle W =
        watch w (refresh_if_due w (advertise w (become_ready w c now) now) epoch_now) now in
      if_requested-IsSettled c1 assign_now c1.reconnect_requested refl
        (before_reassign-IsSettled c now epoch_now h)

  abbrev pub call : LifecycleCall → Lifecycle W → Lifecycle W
  call (connect_call now) c = (connect w c now).1
  call disconnect_call c = disconnect w c
  call request_call c = request_reassignment c
  call (set_token_call token) c = set_token c token
  call (receive_call now) c = record c { last_recv_ms = now }
  call (housekeeping_call now epoch_now assign_now) c = housekeeping w c now epoch_now assign_now

  -- The state after the calls, the latest first.
  abbrev pub run : List LifecycleCall → Lifecycle W → Lifecycle W
  run [] c = c
  run (k ∷ calls) c = call k (run calls c)

  call-IsSettled : (k : LifecycleCall) (c : Lifecycle W) → IsSettled w c → IsSettled w (call k c)
  unfolding request_reassignment set_token
  call-IsSettled (connect_call now) c h = connect-IsSettled w c now h
  call-IsSettled disconnect_call c h = disconnect-IsSettled w c h
  call-IsSettled request_call c h =
      Continues-IsSettled w c (request_reassignment c) (refl, refl, refl) h
  call-IsSettled (set_token_call token) c h =
      Continues-IsSettled w c (set_token c token) (refl, refl, refl) h
  call-IsSettled (receive_call now) c h =
      Continues-IsSettled w c (record c { last_recv_ms = now }) (refl, refl, refl) h
  call-IsSettled (housekeeping_call now epoch_now assign_now) c h =
      (housekeeping-IsSettled c now epoch_now assign_now h).0

  -- Whatever the calls of a new connection, and whatever its provider, its socket and the clocks
  -- answer: its state is the last of its changes, each of which is allowed; its session epoch is the
  -- number of changes to `Connecting`, modulo 2^64; and after a call it is never `Reconnecting`.
  pub run-IsSettled :
      (calls : List LifecycleCall) (config : Config) (token : TokenInfo) (world : W)
      → IsSettled w (run calls (lifecycle config token world))
  unfolding lifecycle
  run-IsSettled [] config token world =
      (record { path = tt; state = refl; epoch = refl }, λ e. absurd (cc (e)))
  run-IsSettled (k ∷ calls) config token world =
      call-IsSettled k (run calls (lifecycle config token world))
        (run-IsSettled calls config token world)
