-- ===== src/Replication/Lifecycle/Settled.antt =====
-- The calls of the state machine of src/replication/connection.cpp, each on a run that is not in the
-- middle of a new assignment.
use crowdy_cpp.Base.{
  ◌+◌, ◌%◌, ◌^◌, ◌≡◌, ◌≢◌, inl, inr, refl, sym, ◌∙◌, subst, Bool, true, false, not, ◌&&◌, length,
  ◌==◌, if◌then◌else◌, if_both, ite_yes, ite_no,
}
use mathlib.Core.Logic.{ite}
use crowdy_cpp.Base.Int.{ℤ, lebℤ}
use crowdy_cpp.Core.Result.{Errc, Status, Result, value, error}
use crowdy_cpp.Wire.Protocol.{token_octets}
use crowdy_cpp.Replication.Receiver.{
  ConnState, idle, connecting, connected, reconnecting, failed, closed,
}
use crowdy_cpp.Replication.Lifecycle.{
  ConnState_discrete, TokenInfo, Lifecycle, IWorld, set_state, sent, do_assign, after_assign,
  connect, disconnect, become_ready, advertise_due, advertise, refreshed, refresh_due,
  refresh_if_due, is_silent, watch, reassign,
}
use crowdy_cpp.Replication.Lifecycle.Changes.{
  IsAllowed, IsRun, At, set_state-At, Agrees-IsRun, Agrees-At, sent-Agrees, assigned-Agrees,
  IsDecided, after_assign-IsDecided,
}

module _ {W : Type 0} (w : IWorld W) where
  do_assign-At :
      (st : ConnState) (asked : Bool) (c : Lifecycle W) (now : ℤ)
      → At st asked c
      → At st asked (do_assign w c now).1
  unfolding do_assign
  do_assign-At st asked c now h =
      Agrees-At st asked c (do_assign w c now).1 (assigned-Agrees w c now (w.assign_server c.world))
        h

  -- A run that is not left in the middle of a new assignment.
  abbrev pub IsSettled : Lifecycle W → Type 0
  IsSettled c = IsRun c × (c.state ≢ reconnecting)

  pub IsDecided-IsSettled : (asked : Bool) (c : Lifecycle W) → IsDecided asked c → IsSettled c
  IsDecided-IsSettled asked c (inl (h, is, a)) = (h, λ e. absurd (cc (is, e)))
  IsDecided-IsSettled asked c (inr (h, is, a)) = (h, λ e. absurd (cc (is, e)))

  -- A connection may begin unless it is one already.
  begins : (st : ConnState) → st ≢ connected → st ≢ connecting → IsAllowed st connecting
  begins connected h k = h refl
  begins connecting h k = k refl
  begins idle h k = tt
  begins reconnecting h k = tt
  begins failed h k = tt
  begins closed h k = tt

  pub connect-IsSettled : (c : Lifecycle W) (now : ℤ) → IsSettled c → IsSettled (connect w c now).1
  unfolding connect
  connect-IsSettled c now (h, calm) =
      let r : Status × Lifecycle W = do_assign w (set_state c connecting) now in
      let done : Status × Lifecycle W = (r.0, after_assign w r connecting) in
      let inner : Status × Lifecycle W =
        ite (ConnState_discrete c.state connecting) (Errc.ok, c) done in
      let P : Status × Lifecycle W → Type 0 = λ k. IsSettled k.1 in
      if_both P (not (length c.token.token == token_octets)) (Errc.invalid_argument, c)
        (ite (ConnState_discrete c.state connected) (Errc.ok, c) inner) (h, calm)
        (elim (ConnState_discrete c.state connected) [
          | yes on ↦
              subst P (sym (ite_yes (ConnState_discrete c.state connected) (Errc.ok, c) inner on))
                (h, calm)
          | no off ↦
              subst P (sym (ite_no (ConnState_discrete c.state connected) (Errc.ok, c) inner off))
                (elim (ConnState_discrete c.state connecting) [
                  | yes busy ↦
                      subst P
                        (sym
                          (ite_yes (ConnState_discrete c.state connecting) (Errc.ok, c) done busy))
                        (h, calm)
                  | no free ↦
                      subst P
                        (sym
                          (ite_no (ConnState_discrete c.state connecting) (Errc.ok, c) done free))
                        (IsDecided-IsSettled c.reconnect_requested (after_assign w r connecting) (
                          after_assign-IsDecided w connecting c.reconnect_requested r
                            (do_assign-At connecting c.reconnect_requested (set_state c connecting)
                              now
                              (set_state-At c connecting c.reconnect_requested h refl
                                (λ e. begins c.state off free)))
                            (λ e. absurd (e refl)) tt))
                ])
        ])

  closes : (st : ConnState) → st ≢ closed → IsAllowed st closed
  closes closed h = h refl
  closes connected h = tt
  closes connecting h = tt
  closes idle h = tt
  closes reconnecting h = tt
  closes failed h = tt

  pub disconnect-IsSettled : (c : Lifecycle W) → IsSettled c → IsSettled (disconnect w c)
  unfolding disconnect
  disconnect-IsSettled c (h, calm) =
      let c' : Lifecycle W = sent c (w.flush_sends c.world) in
      let c'' : Lifecycle W = record c' { world = w.close c'.world } in
      let (s, l, e, a) = sent-Agrees c (w.flush_sends c.world) in
      let (h', is, _) =
        set_state-At c'' closed c''.reconnect_requested (Agrees-IsRun c c'' s l e h) refl
          (closes c''.state) in
      (h', λ k. absurd (cc (is, k)))

  -- A part of the housekeeping that keeps a settled run settled, state `reconnecting` aside.
  pub become_ready-IsSettled :
      (c : Lifecycle W) (now : ℤ) → IsSettled c → IsSettled (become_ready w c now)
  unfolding become_ready
  become_ready-IsSettled c now (h, calm) = elim (ConnState_discrete c.state connecting) [
    | no apart ↦
        subst IsSettled
          (sym (
            ite_no (ConnState_discrete c.state connecting)
              (if lebℤ c.ready_at_ms now then set_state c connected else c) c apart))
          (h, calm)
    | yes busy ↦
        let (h', is, _) =
          set_state-At c connected c.reconnect_requested h refl
            (λ e. subst (λ k. IsAllowed k connected) (sym busy) tt) in
        subst IsSettled
          (sym (
            ite_yes (ConnState_discrete c.state connecting)
              (if lebℤ c.ready_at_ms now then set_state c connected else c) c busy))
          (if_both IsSettled (lebℤ c.ready_at_ms now) (set_state c connected) c
            (h', λ k. absurd (cc (is, k))) (h, calm))
  ]

  -- What changes neither the state nor its history.
  abbrev pub Continues : Lifecycle W → Lifecycle W → Type 0
  Continues c c' =
      (c'.state ≡ c.state) × (c'.changes ≡ c.changes) × (c'.session_epoch ≡ c.session_epoch)

  pub Continues-IsSettled : (c c' : Lifecycle W) → Continues c c' → IsSettled c → IsSettled c'
  Continues-IsSettled c c' (s, l, e) (h, calm) = (Agrees-IsRun c c' s l e h, λ k. calm (sym s ∙ k))

  pub ite_both :
      {P : Type 0} (Q : Lifecycle W → Type 0) (d : Dec P) (x y : Lifecycle W)
      → Q x
      → Q y
      → Q (ite d x y)
  ite_both Q (yes _) x y p q = p
  ite_both Q (no _) x y p q = q

  pub advertise-Continues : (c : Lifecycle W) (now : ℤ) → Continues c (advertise w c now)
  unfolding advertise
  advertise-Continues c now =
      let c' : Lifecycle W = record c { last_caps_ms = now } in
      let told : Lifecycle W = sent c' (w.send_capabilities c.world) in
      let (s, l, e, a) = sent-Agrees c' (w.send_capabilities c.world) in
      let due = c.config.advertise_capabilities && advertise_due w c now in
      ite_both (Continues c) (ConnState_discrete c.state connected) (if due then told else c) c
        (if_both (Continues c) due told c (s, l, e) (refl, refl, refl)) (refl, refl, refl)

  refreshed-Continues : (c : Lifecycle W) (r : Result TokenInfo × W) → Continues c (refreshed w c r)
  refreshed-Continues c (value t, world) = (refl, refl, refl)
  refreshed-Continues c (error code, world) = (refl, refl, refl)

  pub refresh_if_due-Continues : (c : Lifecycle W) (now : ℤ) → Continues c (refresh_if_due w c now)
  unfolding refresh_if_due
  refresh_if_due-Continues c now =
      let r = w.refresh_token c.world c.assignment in
      if_both (Continues c) (refresh_due w c now) (refreshed w c r) c (refreshed-Continues c r)
        (refl, refl, refl)

  pub watch-Continues : (c : Lifecycle W) (now : ℤ) → Continues c (watch w c now)
  unfolding watch
  watch-Continues c now =
      let alarmed : Lifecycle W = record c { reconnect_requested = true } in
      ite_both (Continues c) (ConnState_discrete c.state connected)
        (if is_silent w c now then alarmed else c) c
        (if_both (Continues c) (is_silent w c now) alarmed c (refl, refl, refl) (refl, refl, refl))
        (refl, refl, refl)

  reconnects_from : (st : ConnState) → st ≢ reconnecting → IsAllowed st reconnecting
  reconnects_from reconnecting h = h refl
  reconnects_from connected h = tt
  reconnects_from connecting h = tt
  reconnects_from idle h = tt
  reconnects_from failed h = tt
  reconnects_from closed h = tt

  pub reassign-IsDecided :
      (c : Lifecycle W) (now : ℤ) → IsSettled c → IsDecided false (reassign w c now)
  unfolding reassign
  reassign-IsDecided c now (h, calm) =
      let c0 : Lifecycle W = record c { reconnect_requested = false } in
      let c1 : Lifecycle W = set_state c0 reconnecting in
      let c2 : Lifecycle W = record c1 { reconnects = (c1.reconnects + 1) % 2 ^ 64 } in
      let c3 : Lifecycle W = sent c2 (w.flush_sends c2.world) in
      let c4 : Lifecycle W = record c3 { world = w.close c3.world } in
      let at1 : At reconnecting false c1 =
        set_state-At c0 reconnecting false (Agrees-IsRun c c0 refl refl refl h) refl
          (reconnects_from c.state) in
      let at4 : At reconnecting false c4 =
        Agrees-At reconnecting false c1 c4 (sent-Agrees c2 (w.flush_sends c2.world)) at1 in
      after_assign-IsDecided w reconnecting false (do_assign w c4 now)
        (do_assign-At reconnecting false c4 now at4) (λ e. tt) tt
