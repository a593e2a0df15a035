-- ===== src/Session/Actors/Registry/Own.antt =====
-- RemoteActorStore of include/crowdy/session/stores.hpp never tracks the player's own actor.
use mathlib.Core.Logic.{ite}
use crowdy_cpp.Base.{
  ℕ, ◌≡◌, inl, inr, refl, sym, ap, ◌∙◌, Bool, true, Option, none, some, List, [], ◌∷◌, ◌++◌,
  ite_yes, ite_no, Option-cases,
}
use mathlib.Core.Option.{some_inj}
use crowdy_cpp.Base.Int.{ℤ}
use crowdy_cpp.Base.Maps.{
  lookup, insert, lookup-insert_self, lookup-insert_ne, lookup_here, lookup_further,
}
use crowdy_cpp.Core.Le.{Bytes}
use crowdy_cpp.Session.Actors.{
  ActorNotification, RemoteActorLane, remote_actor_lane, find, apply, remove, reap, clear,
  Bytes_discrete,
}
use crowdy_cpp.Session.Actors.Heard.{run, apply_call, heard_of, actor_of, Heard, unless_stale}
use crowdy_cpp.Session.Actors.Tracked.{find-run}
use crowdy_cpp.Session.Actors.Registry.{
  lane_stale_after_ms, lane_history_size, RemoteActorStore, remote_actor_store, new_lane,
  lane_found, lane, each_lane, in_lanes, ingest, remove_actor, reap_all, clear_all,
}
use crowdy_cpp.Session.Actors.Registry.Lanes.{
  run-append, StoreCall, lane_call, ingest_call, remove_actor_call, reap_all_call, clear_all_call,
  store_call, run_store, lane_calls, all_lane_calls, lane_of, lane_of-store_call,
  self_uuid-run_store,
}

-- The player's own actor is never heard of in a lane.
heard_of_self :
    (accepts : ActorNotification → Bool) (stale_after_ms : ℤ) (self : Bytes)
    (calls : List StoreCall)
    → heard_of accepts stale_after_ms self (all_lane_calls self calls) ≡ []
heard_of_self accepts stale_after_ms self [] = refl
heard_of_self accepts stale_after_ms self (lane_call name o ∷ calls) =
    heard_of_self accepts stale_after_ms self calls
heard_of_self accepts stale_after_ms self (ingest_call n now ∷ calls) =
    elim (Bytes_discrete n.uuid self) [
      | yes own ↦
          ap (λ cs. heard_of accepts stale_after_ms self (cs ++ all_lane_calls self calls))
            (ite_yes (Bytes_discrete n.uuid self) [] (apply_call n now ∷ []) own)
          ∙ heard_of_self accepts stale_after_ms self calls
      | no apart ↦
          ap (λ cs. heard_of accepts stale_after_ms self (cs ++ all_lane_calls self calls))
            (ite_no (Bytes_discrete n.uuid self) [] (apply_call n now ∷ []) apart)
          ∙ ite_no (Bytes_discrete n.uuid self) _ _ apart
          ∙ heard_of_self accepts stale_after_ms self calls
    ]
heard_of_self accepts stale_after_ms self (remove_actor_call uuid ∷ calls) =
    ap (λ h. ite (Bytes_discrete uuid self) [] h) (heard_of_self accepts stale_after_ms self calls)
    ∙ ite_same (Bytes_discrete uuid self)
  where
    ite_same : (d : Dec (uuid ≡ self)) → ite d (let e : Heard = [] in e) [] ≡ []
    ite_same (yes _) = refl
    ite_same (no _) = refl
heard_of_self accepts stale_after_ms self (reap_all_call now ∷ calls) =
    ap (unless_stale stale_after_ms now) (heard_of_self accepts stale_after_ms self calls)
heard_of_self accepts stale_after_ms self (clear_all_call ∷ calls) = refl

lookup-each_lane-none :
    (f : RemoteActorLane → RemoteActorLane) (name : Bytes) (lanes : List (Bytes × RemoteActorLane))
    → lookup Bytes_discrete name lanes ≡ none
    → lookup Bytes_discrete name (each_lane f lanes) ≡ none
unfolding lookup
lookup-each_lane-none f name [] e = refl
lookup-each_lane-none f name ((j, k) ∷ lanes) e = elim (Bytes_discrete j name) [
  | yes same ↦ absurd (cc (e, lookup_here Bytes_discrete name j k lanes same))
  | no apart ↦
      lookup_further Bytes_discrete name j (f k) (each_lane f lanes) apart
      ∙ lookup-each_lane-none f name lanes
          (sym (lookup_further Bytes_discrete name j k lanes apart) ∙ e)
]

-- A lane as `lane` makes it.
abbrev IsNew : RemoteActorLane → Type 0
IsNew l =
    (accepts : ActorNotification → Bool) × (stale_after_ms : ℤ) × (size : ℕ) × (l
      ≡ remote_actor_lane accepts stale_after_ms size)

no_new_lane :
    (f : RemoteActorLane → RemoteActorLane) (name : Bytes) (s : RemoteActorStore)
    (l : RemoteActorLane)
    → lookup Bytes_discrete name s.lanes ≡ none
    → lane_of (some name) (in_lanes f s) ≡ some l
    → ⊥
no_new_lane f name s l absent e = cc (lookup-each_lane-none f name s.lanes absent, e)

-- A lane that a call brings into the store is new.
lane_of-IsNew :
    (c : StoreCall) (name : Bytes) (s : RemoteActorStore) (l : RemoteActorLane)
    → lookup Bytes_discrete name s.lanes ≡ none
    → lane_of (some name) (store_call c s) ≡ some l
    → IsNew l
unfolding lane ingest remove_actor reap_all clear_all new_lane
lane_of-IsNew (lane_call new o) name s l absent e =
    elim (Option-cases (lookup Bytes_discrete new s.lanes)) [
      | inr (k, there) ↦
          absurd
            (cc (absent, sym (ap (λ r. lane_of (some name) (lane_found s new o r).1) there) ∙ e))
      | inl gone ↦ elim (Bytes_discrete new name) [
        | yes same ↦ (
          o.filter,
          lane_stale_after_ms s o,
          lane_history_size s o,
          some_inj.0 (
              sym e
              ∙ ap (λ r. lane_of (some name) (lane_found s new o r).1) gone
              ∙ ap (λ n. lookup Bytes_discrete n (insert Bytes_discrete new (new_lane s o) s.lanes))
                  (sym same)
              ∙ lookup-insert_self Bytes_discrete new (new_lane s o) s.lanes),
        )
        | no apart ↦ absurd (
            cc (
              absent,
              lookup-insert_ne Bytes_discrete new name (new_lane s o) s.lanes apart,
              sym (ap (λ r. lane_of (some name) (lane_found s new o r).1) gone) ∙ e,
            ))
      ]
    ]
lane_of-IsNew (ingest_call n now) name s l absent e = elim (Bytes_discrete n.uuid s.self_uuid) [
  | yes own ↦ absurd (
      cc (
        absent,
        sym (
              ap (lane_of (some name)) (
                ite_yes (Bytes_discrete n.uuid s.self_uuid) s (in_lanes (λ k. (apply k n now).1) s)
                  own))
            ∙ e,
      ))
  | no apart ↦ absurd (
      no_new_lane (λ k. (apply k n now).1) name s l absent
        (sym (
            ap (lane_of (some name)) (
              ite_no (Bytes_discrete n.uuid s.self_uuid) s (in_lanes (λ k. (apply k n now).1) s)
                apart))
          ∙ e))
]
lane_of-IsNew (remove_actor_call uuid) name s l absent e =
    absurd (no_new_lane (λ k. (remove k uuid).1) name s l absent e)
lane_of-IsNew (reap_all_call now) name s l absent e =
    absurd (no_new_lane (λ k. reap k now) name s l absent e)
lane_of-IsNew clear_all_call name s l absent e = absurd (no_new_lane clear name s l absent e)

-- A lane that was new and has had the lane's part of some of the store's calls.
abbrev HasHistory : Bytes → RemoteActorLane → Type 0
HasHistory self l =
    (accepts : ActorNotification → Bool) × (stale_after_ms : ℤ) × (size : ℕ) × (calls : List
      StoreCall)
    × (l ≡ run (all_lane_calls self calls) (remote_actor_lane accepts stale_after_ms size))

after_call-HasHistory :
    (self : Bytes) (c : StoreCall) (k l : RemoteActorLane)
    → HasHistory self k
    → run (lane_calls self c) k ≡ l
    → HasHistory self l
after_call-HasHistory self c k l (accepts, stale_after_ms, size, calls, e) after = (
  accepts,
  stale_after_ms,
  size,
  c ∷ calls,
  sym after
      ∙ ap (run (lane_calls self c)) e
      ∙ sym (
          run-append (lane_calls self c) (all_lane_calls self calls)
            (remote_actor_lane accepts stale_after_ms size)),
)

lane_of-HasHistory :
    (self : Bytes) (stale_after_ms : ℤ) (size : ℕ) (calls : List StoreCall) (which : Option Bytes)
    (l : RemoteActorLane)
    → lane_of which (run_store calls (remote_actor_store self stale_after_ms size)) ≡ some l
    → HasHistory self l
unfolding remote_actor_store lookup
lane_of-HasHistory self stale_after_ms size [] none l e =
    ((λ n. true), stale_after_ms, size, [], sym (some_inj.0 e))
lane_of-HasHistory self stale_after_ms size [] (some name) l e = absurd (cc (e))
lane_of-HasHistory self stale_after_ms size (c ∷ calls) which l e =
    let s : RemoteActorStore = run_store calls (remote_actor_store self stale_after_ms size) in
    let own : s.self_uuid ≡ self =
      self_uuid-run_store calls (remote_actor_store self stale_after_ms size) in
    elim (Option-cases (lane_of which s)) [
      | inr (k, there) ↦
          after_call-HasHistory self c k l
            (lane_of-HasHistory self stale_after_ms size calls which k there)
            (ap (λ u. run (lane_calls u c) k) (sym own)
              ∙ some_inj.0 (sym (lane_of-store_call c which s k there) ∙ e))
      | inl absent ↦ created which absent e
    ]
  where
    created :
        (which : Option Bytes)
        → lane_of which (run_store calls (remote_actor_store self stale_after_ms size)) ≡ none
        → lane_of which
            (store_call c (run_store calls (remote_actor_store self stale_after_ms size)))
          ≡ some l
        → HasHistory self l
    created none absent e = absurd (cc (absent))
    created (some name) absent e =
        let (accepts, stale, k, is) =
          lane_of-IsNew c name (run_store calls (remote_actor_store self stale_after_ms size)) l
            absent e in
        (accepts, stale, k, [], is)

-- In a store that was new, no lane ever has an entry for the player's own actor: neither the default
-- lane nor one made by `lane`, whatever its options, and whatever calls come before and after.
pub find_self :
    (self : Bytes) (stale_after_ms : ℤ) (size : ℕ) (calls : List StoreCall) (which : Option Bytes)
    (l : RemoteActorLane)
    → lane_of which (run_store calls (remote_actor_store self stale_after_ms size)) ≡ some l
    → find l self ≡ none
find_self self stale_after_ms size calls which l e =
    let (accepts, stale, k, cs, is) = lane_of-HasHistory self stale_after_ms size calls which l e in
    ap (λ r. find r self) is
    ∙ find-run accepts stale k (all_lane_calls self cs) self
    ∙ ap (actor_of k) (heard_of_self accepts stale self cs)
