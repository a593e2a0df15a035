-- ===== src/Session/Actors/Registry/Lanes.antt =====
-- RemoteActorStore of include/crowdy/session/stores.hpp: every lane of a store is a lane of its own
-- that is given the store's calls.
use mathlib.Core.Logic.{ite}
use crowdy_cpp.Base.{
  ◌≡◌, inl, inr, refl, sym, ap, ◌∙◌, Option, none, some, List, [], ◌∷◌, ◌++◌, ite_yes, ite_no,
  Option-cases,
}
use mathlib.Core.Option.{some_inj}
use crowdy_cpp.Base.Int.{ℤ}
use crowdy_cpp.Base.Maps.{lookup, lookup-insert_ne, lookup_here, lookup_further}
use crowdy_cpp.Core.Le.{Bytes}
use crowdy_cpp.Session.Actors.{
  ActorNotification, RemoteActorLane, apply, remove, reap, clear, Bytes_discrete,
}
use crowdy_cpp.Session.Actors.Heard.{
  LaneCall, call, run, apply_call, remove_call, reap_call, clear_call,
}
use crowdy_cpp.Session.Actors.Registry.{
  LaneOptions, RemoteActorStore, new_lane, lane_found, lane, each_lane, in_lanes, ingest,
  remove_actor, reap_all, clear_all,
}

pub data StoreCall : Type 0 where
  lane_call : Bytes → LaneOptions → StoreCall
  ingest_call : ActorNotification → ℤ → StoreCall
  remove_actor_call : Bytes → StoreCall
  reap_all_call : ℤ → StoreCall
  clear_all_call : StoreCall

abbrev pub store_call : StoreCall → RemoteActorStore → RemoteActorStore
store_call (lane_call name o) s = (lane s name o).1
store_call (ingest_call n now) s = ingest s n now
store_call (remove_actor_call uuid) s = (remove_actor s uuid).1
store_call (reap_all_call now) s = reap_all s now
store_call clear_all_call s = clear_all s

-- The store after the calls, the latest first.
abbrev pub run_store : List StoreCall → RemoteActorStore → RemoteActorStore
run_store [] s = s
run_store (c ∷ calls) s = store_call c (run_store calls s)

-- What a call of the store is for each lane that it has: updates of the player's own actor are
-- nothing, and neither is the creation of a lane.
abbrev pub lane_calls : Bytes → StoreCall → List LaneCall
lane_calls self (lane_call name o) = []
lane_calls self (ingest_call n now) = ite (Bytes_discrete n.uuid self) [] (apply_call n now ∷ [])
lane_calls self (remove_actor_call uuid) = remove_call uuid ∷ []
lane_calls self (reap_all_call now) = reap_call now ∷ []
lane_calls self clear_all_call = clear_call ∷ []

abbrev pub all_lane_calls : Bytes → List StoreCall → List LaneCall
all_lane_calls self [] = []
all_lane_calls self (c ∷ calls) = lane_calls self c ++ all_lane_calls self calls

pub run-append :
    (xs ys : List LaneCall) (l : RemoteActorLane) → run (xs ++ ys) l ≡ run xs (run ys l)
run-append [] ys l = refl
run-append (x ∷ xs) ys l = ap (call x) (run-append xs ys l)

lookup-each_lane :
    (f : RemoteActorLane → RemoteActorLane) (name : Bytes) (lanes : List (Bytes × RemoteActorLane))
    (l : RemoteActorLane)
    → lookup Bytes_discrete name lanes ≡ some l
    → lookup Bytes_discrete name (each_lane f lanes) ≡ some (f l)
unfolding lookup
lookup-each_lane f name [] l e = absurd (cc (e))
lookup-each_lane f name ((j, k) ∷ lanes) l e = elim (Bytes_discrete j name) [
  | yes same ↦
      lookup_here Bytes_discrete name j (f k) (each_lane f lanes) same
      ∙ ap (λ o. map_some f o) (sym (lookup_here Bytes_discrete name j k lanes same) ∙ e)
  | no apart ↦
      lookup_further Bytes_discrete name j (f k) (each_lane f lanes) apart
      ∙ lookup-each_lane f name lanes l
          (sym (lookup_further Bytes_discrete name j k lanes apart) ∙ e)
]
  where
    map_some : (RemoteActorLane → RemoteActorLane) → Option RemoteActorLane → Option RemoteActorLane
    map_some f none = none
    map_some f (some x) = some (f x)

-- A lane of the store: the default one or one with this name.
abbrev pub lane_of : Option Bytes → RemoteActorStore → Option RemoteActorLane
lane_of none s = some s.default_lane
lane_of (some name) s = lookup Bytes_discrete name s.lanes

lane_of-in_lanes :
    (f : RemoteActorLane → RemoteActorLane) (which : Option Bytes) (s : RemoteActorStore)
    (l : RemoteActorLane)
    → lane_of which s ≡ some l
    → lane_of which (in_lanes f s) ≡ some (f l)
lane_of-in_lanes f none s l e = ap some (ap f (some_inj.0 e))
lane_of-in_lanes f (some name) s l e = lookup-each_lane f name s.lanes l e

lane_of-added :
    (which : Option Bytes) (s : RemoteActorStore) (l : RemoteActorLane) (new : Bytes)
    (o : LaneOptions)
    → lookup Bytes_discrete new s.lanes ≡ none
    → lane_of which s ≡ some l
    → lane_of which (lane_found s new o none).1 ≡ some l
lane_of-added none s l new o absent e = e
lane_of-added (some name) s l new o absent e = elim (Bytes_discrete new name) [
  | yes same ↦ absurd (cc (ap (λ k. lookup Bytes_discrete k s.lanes) same, absent, e))
  | no apart ↦ lookup-insert_ne Bytes_discrete new name (new_lane s o) s.lanes apart ∙ e
]

lane_of-lane :
    (which : Option Bytes) (s : RemoteActorStore) (l : RemoteActorLane) (new : Bytes)
    (o : LaneOptions)
    → lane_of which s ≡ some l
    → lane_of which (lane s new o).1 ≡ some l
unfolding lane
lane_of-lane which s l new o e = elim (Option-cases (lookup Bytes_discrete new s.lanes)) [
  | inr (k, there) ↦ ap (λ r. lane_of which (lane_found s new o r).1) there ∙ e
  | inl absent ↦
      ap (λ r. lane_of which (lane_found s new o r).1) absent
      ∙ lane_of-added which s l new o absent e
]

lane_of-ingest :
    (which : Option Bytes) (s : RemoteActorStore) (l : RemoteActorLane) (n : ActorNotification)
    (now : ℤ)
    → lane_of which s ≡ some l
    → lane_of which (ingest s n now) ≡ some (run (lane_calls s.self_uuid (ingest_call n now)) l)
unfolding ingest
lane_of-ingest which s l n now e = elim (Bytes_discrete n.uuid s.self_uuid) [
  | yes own ↦
      ap (lane_of which)
        (ite_yes (Bytes_discrete n.uuid s.self_uuid) s (in_lanes (λ k. (apply k n now).1) s) own)
      ∙ e
      ∙ ap (λ calls. some (run calls l))
          (sym (ite_yes (Bytes_discrete n.uuid s.self_uuid) [] (apply_call n now ∷ []) own))
  | no apart ↦
      ap (lane_of which)
        (ite_no (Bytes_discrete n.uuid s.self_uuid) s (in_lanes (λ k. (apply k n now).1) s) apart)
      ∙ lane_of-in_lanes (λ k. (apply k n now).1) which s l e
      ∙ ap (λ calls. some (run calls l))
          (sym (ite_no (Bytes_discrete n.uuid s.self_uuid) [] (apply_call n now ∷ []) apart))
]

pub lane_of-store_call :
    (c : StoreCall) (which : Option Bytes) (s : RemoteActorStore) (l : RemoteActorLane)
    → lane_of which s ≡ some l
    → lane_of which (store_call c s) ≡ some (run (lane_calls s.self_uuid c) l)
unfolding remove_actor reap_all clear_all
lane_of-store_call (lane_call name o) which s l e = lane_of-lane which s l name o e
lane_of-store_call (ingest_call n now) which s l e = lane_of-ingest which s l n now e
lane_of-store_call (remove_actor_call uuid) which s l e =
    lane_of-in_lanes (λ k. (remove k uuid).1) which s l e
lane_of-store_call (reap_all_call now) which s l e = lane_of-in_lanes (λ k. reap k now) which s l e
lane_of-store_call clear_all_call which s l e = lane_of-in_lanes clear which s l e

self_uuid-store_call :
    (c : StoreCall) (s : RemoteActorStore) → (store_call c s).self_uuid ≡ s.self_uuid
unfolding lane ingest remove_actor reap_all clear_all
self_uuid-store_call (lane_call name o) s =
    elim (Option-cases (lookup Bytes_discrete name s.lanes)) [
      | inl e ↦ ap (λ r. (lane_found s name o r).1.self_uuid) e
      | inr (l, e) ↦ ap (λ r. (lane_found s name o r).1.self_uuid) e
    ]
self_uuid-store_call (ingest_call n now) s = elim (Bytes_discrete n.uuid s.self_uuid) [
  | yes own ↦
      ap (λ r. r.self_uuid)
        (ite_yes (Bytes_discrete n.uuid s.self_uuid) s (in_lanes (λ k. (apply k n now).1) s) own)
  | no apart ↦
      ap (λ r. r.self_uuid)
        (ite_no (Bytes_discrete n.uuid s.self_uuid) s (in_lanes (λ k. (apply k n now).1) s) apart)
]
self_uuid-store_call (remove_actor_call uuid) s = refl
self_uuid-store_call (reap_all_call now) s = refl
self_uuid-store_call clear_all_call s = refl

pub self_uuid-run_store :
    (calls : List StoreCall) (s : RemoteActorStore) → (run_store calls s).self_uuid ≡ s.self_uuid
self_uuid-run_store [] s = refl
self_uuid-run_store (c ∷ calls) s =
    self_uuid-store_call c (run_store calls s) ∙ self_uuid-run_store calls s

-- Each lane of a store, the default one and the named ones, stays in it through any calls, and is
-- then the lane that it was with each update of another actor, each removal, each reaping and each
-- clearing since applied to it, in order; updates of the player's own actor are not.
pub lane_of-run_store :
    (calls : List StoreCall) (which : Option Bytes) (s : RemoteActorStore) (l : RemoteActorLane)
    → lane_of which s ≡ some l
    → lane_of which (run_store calls s) ≡ some (run (all_lane_calls s.self_uuid calls) l)
lane_of-run_store [] which s l e = e
lane_of-run_store (c ∷ calls) which s l e =
    lane_of-store_call c which (run_store calls s) (run (all_lane_calls s.self_uuid calls) l)
      (lane_of-run_store calls which s l e)
    ∙ ap (λ u. some (run (lane_calls u c) (run (all_lane_calls s.self_uuid calls) l)))
        (self_uuid-run_store calls s)
    ∙ ap some (sym (run-append (lane_calls s.self_uuid c) (all_lane_calls s.self_uuid calls) l))
