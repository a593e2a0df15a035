-- ===== src/Replication/Lifecycle/Served.antt =====
-- The state machine of src/replication/connection.cpp serves a request for a new assignment.
use crowdy_cpp.Base.{
  ℕ, ◌+◌, ◌%◌, ◌^◌, ◌≡◌, ◌≢◌, ◌⊎◌, inl, inr, refl, sym, ap, subst, ◌∙◌, Bool, true, false, ◌&&◌,
  List, ◌∷◌, if◌then◌else◌, if_both, ite_no,
}
use crowdy_cpp.Base.Int.{ℤ, lebℤ}
use crowdy_cpp.Core.Result.{Errc, Status, Result, value, error}
use crowdy_cpp.Replication.Receiver.{ConnState, connecting, connected, reconnecting, failed}
use crowdy_cpp.Replication.Lifecycle.{
  ConnState_discrete, TokenInfo, Lifecycle, IWorld, set_state, sent, become_ready, advertise_due,
  advertise, refreshed, refresh_due, refresh_if_due, is_silent, watch, if_requested, housekeeping,
  epoch_in, after_assign, do_assign, reassign,
}
use crowdy_cpp.Replication.Lifecycle.Changes.{Agrees, sent-Agrees, assigned-Agrees, IsDecided}
use crowdy_cpp.Replication.Lifecycle.Settled.{
  IsSettled, ite_both, reassign-IsDecided, advertise-Continues, refresh_if_due-Continues,
  watch-Continues,
}
use crowdy_cpp.Replication.Lifecycle.Runs.{before_reassign-IsSettled}

module _ {W : Type 0} (w : IWorld W) where
  abbrev Asks : Lifecycle W → Type 0
  Asks c = c.reconnect_requested ≡ true

  become_ready-Asks : (c : Lifecycle W) (now : ℤ) → Asks c → Asks (become_ready w c now)
  unfolding become_ready set_state
  become_ready-Asks c now a =
      let changed : Lifecycle W = record c {
        state = connected;
        session_epoch = c.session_epoch;
        changes = connected ∷ c.changes;
      } in
      let next : Lifecycle W = set_state c connected in
      ite_both w Asks (ConnState_discrete c.state connecting)
        (if lebℤ c.ready_at_ms now then next else c) c
        (if_both Asks (lebℤ c.ready_at_ms now) next c
          (ite_both w Asks (ConnState_discrete c.state connected) c changed a a) a)
        a

  advertise-Asks : (c : Lifecycle W) (now : ℤ) → Asks c → Asks (advertise w c now)
  unfolding advertise
  advertise-Asks c now a =
      let c' : Lifecycle W = record c { last_caps_ms = now } in
      let told : Lifecycle W = sent c' (w.send_capabilities c.world) in
      let (_, _, _, same) = sent-Agrees c' (w.send_capabilities c.world) in
      let due = c.config.advertise_capabilities && advertise_due w c now in
      ite_both w Asks (ConnState_discrete c.state connected) (if due then told else c) c
        (if_both Asks due told c (same ∙ a) a) a

  refreshed-Asks : (c : Lifecycle W) (r : Result TokenInfo × W) → Asks c → Asks (refreshed w c r)
  refreshed-Asks c (value t, world) a =
      if_both (λ b. b ≡ true) t.authorized_on_current_server c.reconnect_requested true a refl
  refreshed-Asks c (error code, world) a = a

  refresh_if_due-Asks : (c : Lifecycle W) (now : ℤ) → Asks c → Asks (refresh_if_due w c now)
  unfolding refresh_if_due
  refresh_if_due-Asks c now a =
      let r = w.refresh_token c.world c.assignment in
      if_both Asks (refresh_due w c now) (refreshed w c r) c (refreshed-Asks c r a) a

  watch-Asks : (c : Lifecycle W) (now : ℤ) → Asks c → Asks (watch w c now)
  unfolding watch
  watch-Asks c now a =
      let alarmed : Lifecycle W = record c { reconnect_requested = true } in
      ite_both w Asks (ConnState_discrete c.state connected)
        (if is_silent w c now then alarmed else c) c
        (if_both Asks (is_silent w c now) alarmed c refl a) a

  -- After a new assignment: a new session has begun, or the assignment has failed; `earlier` are the
  -- changes of state before it.
  abbrev Begins : ℕ → List ConnState → Lifecycle W → Type 0
  Begins epoch earlier c' =
      (((c'.state ≡ connecting) × (c'.session_epoch ≡ (epoch + 1) % 2 ^ 64))
        ⊎ ((c'.state ≡ failed) × (c'.session_epoch ≡ epoch)))
      × (c'.changes ≡ c'.state ∷ reconnecting ∷ earlier)

  -- In the middle of a new assignment.
  abbrev Leaves : ℕ → List ConnState → Lifecycle W → Type 0
  Leaves epoch earlier c' =
      (c'.state ≡ reconnecting) × (c'.session_epoch ≡ epoch) × (c'.changes ≡ reconnecting ∷ earlier)

  set_state-changes :
      (c : Lifecycle W) (next : ConnState)
      → c.state ≢ next
      → set_state c next ≡ record c {
        state = next;
        session_epoch = epoch_in next c.session_epoch;
        changes = next ∷ c.changes;
      }
  unfolding set_state
  set_state-changes c next apart =
      ite_no (ConnState_discrete c.state next) c
        (record c {
          state = next;
          session_epoch = epoch_in next c.session_epoch;
          changes = next ∷ c.changes;
        })
        apart

  fails :
      (epoch : ℕ) (earlier : List ConnState) (c : Lifecycle W)
      → Leaves epoch earlier c
      → Begins epoch earlier (set_state c failed)
  fails epoch earlier c (s, e, l) =
      subst (Begins epoch earlier) (sym (set_state-changes c failed (λ k. absurd (cc (s, k)))))
        (inr (refl, e), ap (λ k. failed ∷ k) l)

  after_assign-Begins :
      (epoch : ℕ) (earlier : List ConnState) (r : Status × Lifecycle W)
      → Leaves epoch earlier r.1
      → Begins epoch earlier (after_assign w r connecting)
  after_assign-Begins epoch earlier (Errc.ok, c) (s, e, l) =
      subst (Begins epoch earlier) (sym (set_state-changes c connecting (λ k. absurd (cc (s, k)))))
        (inl (refl, ap (λ n. (n + 1) % 2 ^ 64) e), ap (λ k. connecting ∷ k) l)
  after_assign-Begins epoch earlier (code, c) h = fails epoch earlier c h

  Agrees-Leaves :
      (epoch : ℕ) (earlier : List ConnState) (c c' : Lifecycle W)
      → Agrees c c'
      → Leaves epoch earlier c
      → Leaves epoch earlier c'
  Agrees-Leaves epoch earlier c c' (s, l, e, a) (s', e', l') = (s ∙ s', e ∙ e', l ∙ l')

  reassign-Begins :
      (c : Lifecycle W) (now : ℤ)
      → c.state ≢ reconnecting
      → Begins c.session_epoch c.changes (reassign w c now)
  unfolding reassign do_assign
  reassign-Begins c now calm =
      let c0 : Lifecycle W = record c { reconnect_requested = false } in
      let c1 : Lifecycle W = set_state c0 reconnecting in
      let c2 : Lifecycle W = record c1 { reconnects = (c1.reconnects + 1) % 2 ^ 64 } in
      let c3 : Lifecycle W = sent c2 (w.flush_sends c2.world) in
      let c4 : Lifecycle W = record c3 { world = w.close c3.world } in
      let left1 : Leaves c.session_epoch c.changes c1 =
        subst (Leaves c.session_epoch c.changes) (sym (set_state-changes c0 reconnecting calm))
          (refl, refl, refl) in
      let left4 : Leaves c.session_epoch c.changes c4 =
        Agrees-Leaves c.session_epoch c.changes c1 c4 (sent-Agrees c2 (w.flush_sends c2.world))
          left1 in
      after_assign-Begins c.session_epoch c.changes (do_assign w c4 now) (
        Agrees-Leaves c.session_epoch c.changes c4 (do_assign w c4 now).1
          (assigned-Agrees w c4 now (w.assign_server c4.world)) left4)

  -- The changes since `c`: none, or it has become connected.
  abbrev pub IsSince : Lifecycle W → List ConnState → Type 0
  IsSince c earlier = (earlier ≡ c.changes) ⊎ (earlier ≡ connected ∷ c.changes)

  abbrev Ready : Lifecycle W → Lifecycle W → Type 0
  Ready c c' = (c'.session_epoch ≡ c.session_epoch) × IsSince c c'.changes

  become_ready-Ready : (c : Lifecycle W) (now : ℤ) → Ready c (become_ready w c now)
  unfolding become_ready set_state
  become_ready-Ready c now =
      let changed : Lifecycle W = record c {
        state = connected;
        session_epoch = c.session_epoch;
        changes = connected ∷ c.changes;
      } in
      let next : Lifecycle W = set_state c connected in
      ite_both w (Ready c) (ConnState_discrete c.state connecting)
        (if lebℤ c.ready_at_ms now then next else c) c
        (if_both (Ready c) (lebℤ c.ready_at_ms now) next c
          (ite_both w (Ready c) (ConnState_discrete c.state connected) c changed (refl, inl refl)
            (refl, inr refl))
          (refl, inl refl))
        (refl, inl refl)

  -- A new assignment since `c`.
  abbrev pub IsServed : Lifecycle W → Lifecycle W → Type 0
  IsServed c c' =
      (((c'.state ≡ connecting) × (c'.session_epoch ≡ (c.session_epoch + 1) % 2 ^ 64))
        ⊎ ((c'.state ≡ failed) × (c'.session_epoch ≡ c.session_epoch)))
      × ((earlier : List ConnState) × IsSince c earlier
          × (c'.changes ≡ c'.state ∷ reconnecting ∷ earlier))

  if_requested-true :
      (c : Lifecycle W) (now : ℤ) (asked : Bool)
      → asked ≡ true
      → IsSettled w c
      → IsDecided false (if_requested w c now asked)
        × Begins c.session_epoch c.changes (if_requested w c now asked)
  if_requested-true c now true a h = (reassign-IsDecided w c now h, reassign-Begins c now h.1)
  if_requested-true c now false a h = absurd (cc (a))

  -- On a settled run, a request for a new assignment is served by the next pass of the housekeeping,
  -- with any readings of the clocks and any answers of the provider and the socket: the connection
  -- goes through `Reconnecting`, and is then connecting, with the session epoch one higher (modulo
  -- 2^64), or has failed, with the same epoch; the request is gone.
  pub housekeeping-IsServed :
      (c : Lifecycle W) (now epoch_now assign_now : ℤ)
      → IsSettled w c
      → c.reconnect_requested ≡ true
      → IsDecided false (housekeeping w c now epoch_now assign_now)
        × IsServed c (housekeeping w c now epoch_now assign_now)
  unfolding housekeeping
  housekeeping-IsServed c now epoch_now assign_now h a =
      let c1 : Lifecycle W = become_ready w c now in
      let c2 : Lifecycle W = advertise w c1 now in
      let c3 : Lifecycle W = refresh_if_due w c2 epoch_now in
      let c4 : Lifecycle W = watch w c3 now in
      let (epoch1, since1) = become_ready-Ready c now in
      let (_, l2, e2) = advertise-Continues w c1 now in
      let (_, l3, e3) = refresh_if_due-Continues w c2 epoch_now in
      let (_, l4, e4) = watch-Continues w c3 now in
      let same_epoch : c4.session_epoch ≡ c.session_epoch = e4 ∙ e3 ∙ e2 ∙ epoch1 in
      let since : IsSince c c4.changes = subst (IsSince c) (sym (l4 ∙ l3 ∙ l2)) since1 in
      let (decided, (outcome, changes)) =
        if_requested-true c4 assign_now c4.reconnect_requested
          (watch-Asks c3 now
            (refresh_if_due-Asks c2 epoch_now (advertise-Asks c1 now (become_ready-Asks c now a))))
          (before_reassign-IsSettled w c now epoch_now h) in
      (
        decided,
        (
          elim outcome [
            | inl (st, e) ↦ inl (st, e ∙ ap (λ n. (n + 1) % 2 ^ 64) same_epoch)
            | inr (st, e) ↦ inr (st, e ∙ same_epoch)
          ],
          (c4.changes, since, changes),
        ),
      )
