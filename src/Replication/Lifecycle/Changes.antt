-- ===== src/Replication/Lifecycle/Changes.antt =====
-- The state machine of src/replication/connection.cpp: the changes of state that its calls make.
use crowdy_cpp.Base.{
  ℕ, suc, ◌%◌, ◌^◌, ◌≡◌, ◌≢◌, ◌⊎◌, inl, inr, refl, sym, ap, ◌∙◌, subst, Bool, ◌||◌, Option, none,
  some, List, [], ◌∷◌, length, ◌==◌, if_both, ite_yes, ite_no, arith,
}
use crowdy_cpp.Base.Int.{ℤ, pos, lebℤ}
use crowdy_cpp.Core.Result.{Errc, Status, Result, value, error}
use crowdy_cpp.Replication.Receiver.{
  ConnState, idle, connecting, connected, reconnecting, failed, closed,
}
use crowdy_cpp.Replication.Lifecycle.{
  ConnState_discrete, Assignment, Lifecycle, IWorld, epoch_in, set_state, sent, host_of, opened,
  assigned, after_assign,
}

-- The state after the changes, the latest first.
abbrev pub latest : List ConnState → ConnState
latest [] = idle
latest (st ∷ changes) = st

-- A connection starts to connect when it is neither connected nor connecting, is connected only after
-- it was connecting, and fails only while it connects or reconnects.
abbrev pub IsAllowed : ConnState → ConnState → Type 0
IsAllowed connected connecting = ⊥
IsAllowed connecting connecting = ⊥
IsAllowed _ connecting = Unit {0}
IsAllowed connecting connected = Unit {0}
IsAllowed _ connected = ⊥
IsAllowed connecting failed = Unit {0}
IsAllowed reconnecting failed = Unit {0}
IsAllowed _ failed = ⊥
IsAllowed reconnecting reconnecting = ⊥
IsAllowed _ reconnecting = Unit {0}
IsAllowed closed closed = ⊥
IsAllowed _ closed = Unit {0}
IsAllowed _ idle = ⊥

abbrev pub IsPath : List ConnState → Type 0
IsPath [] = Unit {0}
IsPath (st ∷ changes) = IsAllowed (latest changes) st × IsPath changes

-- The number of sessions that were begun.
abbrev pub sessions : List ConnState → ℕ
sessions [] = 0
sessions (connecting ∷ changes) = suc (sessions changes)
sessions (_ ∷ changes) = sessions changes

pub record IsRun {W : Type 0} (c : Lifecycle W) : Type 0 where
  pub path : IsPath c.changes
  pub state : c.state ≡ latest c.changes
  pub epoch : c.session_epoch ≡ sessions c.changes % 2 ^ 64

-- A run that is in the state `st`, with a request for a new assignment or not.
abbrev pub At : {W : Type 0} → ConnState → Bool → Lifecycle W → Type 0
At st asked c = IsRun c × (c.state ≡ st) × (c.reconnect_requested ≡ asked)

epoch-sessions :
    (st : ConnState) (n : ℕ) (changes : List ConnState)
    → n ≡ sessions changes % 2 ^ 64
    → epoch_in st n ≡ sessions (st ∷ changes) % 2 ^ 64
epoch-sessions connecting n changes e = omega (arith, e)
epoch-sessions idle n changes e = e
epoch-sessions connected n changes e = e
epoch-sessions reconnecting n changes e = e
epoch-sessions failed n changes e = e
epoch-sessions closed n changes e = e

module _ {W : Type 0} where
  pub set_state-At :
      (c : Lifecycle W) (next : ConnState) (asked : Bool)
      → IsRun c
      → c.reconnect_requested ≡ asked
      → (c.state ≢ next → IsAllowed c.state next)
      → At next asked (set_state c next)
  unfolding set_state
  set_state-At c next asked h a allowed =
      let changed : Lifecycle W = record c {
        state = next;
        session_epoch = epoch_in next c.session_epoch;
        changes = next ∷ c.changes;
      } in
      elim (ConnState_discrete c.state next) [
        | yes same ↦
            subst (At next asked) (sym (ite_yes (ConnState_discrete c.state next) c changed same))
              (h, same, a)
        | no apart ↦
            subst (At next asked) (sym (ite_no (ConnState_discrete c.state next) c changed apart)) (
              record {
                path = (subst (λ st. IsAllowed st next) h.state (allowed apart), h.path);
                state = refl;
                epoch = epoch-sessions next c.session_epoch c.changes h.epoch;
              },
              refl,
              a,
            )
      ]

  -- What leaves the state, its history and the request as they are.
  abbrev pub Agrees : Lifecycle W → Lifecycle W → Type 0
  Agrees c c' =
      (c'.state ≡ c.state)
      × (c'.changes ≡ c.changes)
      × (c'.session_epoch ≡ c.session_epoch)
      × (c'.reconnect_requested ≡ c.reconnect_requested)

  pub Agrees-IsRun :
      (c c' : Lifecycle W)
      → (c'.state ≡ c.state)
      → (c'.changes ≡ c.changes)
      → (c'.session_epoch ≡ c.session_epoch)
      → IsRun c
      → IsRun c'
  Agrees-IsRun c c' s l e h = record {
    path = subst IsPath (sym l) h.path;
    state = s ∙ h.state ∙ ap latest (sym l);
    epoch = e ∙ h.epoch ∙ ap (λ k. sessions k % 2 ^ 64) (sym l);
  }

  pub Agrees-At :
      (st : ConnState) (asked : Bool) (c c' : Lifecycle W)
      → Agrees c c'
      → At st asked c
      → At st asked c'
  Agrees-At st asked c c' (s, l, e, a) (h, is, asks) = (Agrees-IsRun c c' s l e h, s ∙ is, a ∙ asks)

  pub sent-Agrees : (c : Lifecycle W) (r : Option ℤ × W) → Agrees c (sent c r)
  sent-Agrees c (none, world) = (refl, refl, refl, refl)
  sent-Agrees c (some at, world) = (refl, refl, refl, refl)

  opened-Agrees :
      (c : Lifecycle W) (a : Assignment) (now : ℤ) (r : Status × W) → Agrees c (opened c a now r).1
  opened-Agrees c a now (Errc.ok, world) = (refl, refl, refl, refl)
  opened-Agrees c a now (code, world) = (refl, refl, refl, refl)

  -- The two outcomes of an assignment.
  abbrev pub IsDecided : Bool → Lifecycle W → Type 0
  IsDecided asked c = (At connecting asked c) ⊎ (At failed asked c)

  module _ (w : IWorld W) where
    pub assigned-Agrees :
        (c : Lifecycle W) (now : ℤ) (r : Result Assignment × W) → Agrees c (assigned w c now r).1
    assigned-Agrees c now (error code, world) = (refl, refl, refl, refl)
    assigned-Agrees c now (value a, world) =
        if_both (λ k. Agrees c k.1)
          ((length (host_of c.config a) == 0) || lebℤ a.client_port (pos 0))
          (Errc.rejected, record c { world = world })
          (opened c a now (w.open_socket world (host_of c.config a) a.client_port))
          (refl, refl, refl, refl)
          (opened-Agrees c a now (w.open_socket world (host_of c.config a) a.client_port))

    pub after_assign-IsDecided :
        (st : ConnState) (asked : Bool) (r : Status × Lifecycle W)
        → At st asked r.1
        → (st ≢ connecting → IsAllowed st connecting)
        → IsAllowed st failed
        → IsDecided asked (after_assign w r connecting)
    after_assign-IsDecided st asked (Errc.ok, c) (h, is, a) begins fails = inl (
        set_state-At c connecting asked h a
          (λ apart. subst (λ k. IsAllowed k connecting) (sym is) (begins (λ e. apart (is ∙ e)))))
    after_assign-IsDecided st asked (code, c) (h, is, a) begins fails =
        inr (
          set_state-At c failed asked h a (λ apart. subst (λ k. IsAllowed k failed) (sym is) fails))
