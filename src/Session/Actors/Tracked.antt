-- ===== src/Session/Actors/Tracked.antt =====
-- RemoteActorLane of include/crowdy/session/stores.hpp: every call keeps the entries those that the
-- accepted updates determine.
use crowdy_cpp.Base.{
  ℕ, ◌≡◌, inl, inr, refl, sym, ap, ◌∙◌, subst, Bool, true, false, none, some, List, [], ◌∷◌,
  if◌then◌else◌, Bool-cases, ite_yes, ite_no,
}
use crowdy_cpp.Base.Int.{ℤ}
use crowdy_cpp.Base.Maps.{
  lookup, IsDistinct, lookup-insert_self, lookup-insert_ne, insert-IsDistinct,
}
use crowdy_cpp.Core.Le.{Bytes}
use crowdy_cpp.Session.Actors.Heard.{
  kept, LaneCall, call, run, apply_call, remove_call, reap_call, clear_call, Heard, heard_step,
  heard_of, actor_of, updated_actor-actor_of, kept-actor_of,
}
use crowdy_cpp.Session.Actors.Reaped.{
  find-departed_self, find-departed_ne, departed-WithOptions, departed-IsDistinct,
  reap_from-WithOptions, reap_from-IsDistinct, find-reap,
}
use crowdy_cpp.Session.Actors.{
  ActorNotification, RemoteActorLane, remote_actor_lane, find, updated_actor, accepted, apply,
  departed, remove, reap, clear, Bytes_discrete,
}

-- A lane with these options in which the actors are those heard by `h`.
pub record Tracks (accepts : ActorNotification → Bool) (stale_after_ms : ℤ) (size : ℕ)
    (h : Bytes → Heard) (lane : RemoteActorLane) : Type 0 where
  pub filter : lane.filter ≡ accepts
  pub stale_after : lane.stale_after_ms ≡ stale_after_ms
  pub history_size : lane.history_size ≡ size
  pub distinct : IsDistinct Bytes_discrete lane.actors
  pub found : (uuid : Bytes) → find lane uuid ≡ actor_of size (h uuid)

module _ (accepts : ActorNotification → Bool) (stale_after_ms : ℤ) (size : ℕ) where
  -- The updates that an actor was heard with once the call is made.
  abbrev next : LaneCall → (Bytes → Heard) → Bytes → Heard
  next c h uuid = heard_step accepts stale_after_ms uuid c (h uuid)

  next_self :
      (h : Bytes → Heard) (n : ActorNotification) (now : ℤ) (uuid : Bytes)
      → accepts n ≡ true
      → n.uuid ≡ uuid
      → next (apply_call n now) h uuid ≡ (n, now) ∷ h uuid
  next_self h n now uuid taken same =
      ite_yes (Bytes_discrete n.uuid uuid) (if accepts n then (n, now) ∷ h uuid else h uuid)
        (h uuid) same
      ∙ ap (λ b. if b then (n, now) ∷ h uuid else h uuid) taken

  next_refused :
      (h : Bytes → Heard) (n : ActorNotification) (now : ℤ) (uuid : Bytes)
      → accepts n ≡ false
      → next (apply_call n now) h uuid ≡ h uuid
  next_refused h n now uuid refused = elim (Bytes_discrete n.uuid uuid) [
    | yes same ↦
        ite_yes (Bytes_discrete n.uuid uuid) (if accepts n then (n, now) ∷ h uuid else h uuid)
          (h uuid) same
        ∙ ap (λ b. if b then (n, now) ∷ h uuid else h uuid) refused
    | no apart ↦
        ite_no (Bytes_discrete n.uuid uuid) (if accepts n then (n, now) ∷ h uuid else h uuid)
          (h uuid) apart
  ]

  -- The updated entry is that of the actor heard once more.
  find-accepted_self :
      (lane : RemoteActorLane) (h : Bytes → Heard) (n : ActorNotification) (now : ℤ)
      → Tracks accepts stale_after_ms size h lane
      → find (accepted lane n now) n.uuid ≡ actor_of size ((n, now) ∷ h n.uuid)
  unfolding accepted
  find-accepted_self lane h n now t =
      lookup-insert_self Bytes_discrete n.uuid
        (updated_actor lane.history_size (find lane n.uuid) n now) lane.actors
      ∙ ap (λ k. some (updated_actor k (find lane n.uuid) n now)) t.history_size
      ∙ ap (λ f. some (updated_actor size f n now)) (t.found n.uuid)
      ∙ updated_actor-actor_of size (h n.uuid) n now

  Tracks-accepted :
      (lane : RemoteActorLane) (h : Bytes → Heard) (n : ActorNotification) (now : ℤ)
      → Tracks accepts stale_after_ms size h lane
      → accepts n ≡ true
      → Tracks accepts stale_after_ms size (next (apply_call n now) h) (accepted lane n now)
  unfolding accepted
  Tracks-accepted lane h n now t taken = record {
    filter = t.filter;
    stale_after = t.stale_after;
    history_size = t.history_size;
    distinct =
        insert-IsDistinct Bytes_discrete n.uuid
          (updated_actor lane.history_size (find lane n.uuid) n now) lane.actors t.distinct;
    found = λ uuid. elim (Bytes_discrete n.uuid uuid) [
      | yes same ↦
          subst (λ u. find (accepted lane n now) u ≡ actor_of size ((n, now) ∷ h u)) same
            (find-accepted_self lane h n now t)
          ∙ ap (actor_of size) (sym (next_self h n now uuid taken same))
      | no apart ↦
          lookup-insert_ne Bytes_discrete n.uuid uuid
            (updated_actor lane.history_size (find lane n.uuid) n now) lane.actors apart
          ∙ t.found uuid
          ∙ ap (actor_of size) (
              sym (
                ite_no (Bytes_discrete n.uuid uuid)
                  (if accepts n then (n, now) ∷ h uuid else h uuid) (h uuid) apart))
    ];
  }

  Tracks-apply :
      (lane : RemoteActorLane) (h : Bytes → Heard) (n : ActorNotification) (now : ℤ)
      → Tracks accepts stale_after_ms size h lane
      → Tracks accepts stale_after_ms size (next (apply_call n now) h) (apply lane n now).1
  unfolding apply
  Tracks-apply lane h n now t = elim (Bool-cases (accepts n)) [
    | inl taken ↦
        let e : lane.filter n ≡ true = ap (λ f. f n) t.filter ∙ taken in
        rw (e) (Tracks-accepted lane h n now t taken)
    | inr refused ↦
        let e : lane.filter n ≡ false = ap (λ f. f n) t.filter ∙ refused in
        rw (e) record {
          filter = t.filter;
          stale_after = t.stale_after;
          history_size = t.history_size;
          distinct = t.distinct;
          found =
              λ uuid. t.found uuid ∙ ap (actor_of size) (sym (next_refused h n now uuid refused));
        }
  ]

  Tracks-remove :
      (lane : RemoteActorLane) (h : Bytes → Heard) (gone : Bytes)
      → Tracks accepts stale_after_ms size h lane
      → Tracks accepts stale_after_ms size (next (remove_call gone) h) (remove lane gone).1
  unfolding remove
  Tracks-remove lane h gone t =
      let (f, s, k) = departed-WithOptions lane gone (find lane gone) in
      record {
        filter = f ∙ t.filter;
        stale_after = s ∙ t.stale_after;
        history_size = k ∙ t.history_size;
        distinct = departed-IsDistinct lane gone (find lane gone) t.distinct;
        found = λ uuid. elim (Bytes_discrete gone uuid) [
          | yes same ↦
              subst (λ u. find (departed lane gone (find lane gone)).1 u ≡ none) same
                (find-departed_self lane gone)
              ∙ ap (actor_of size) (sym (ite_yes (Bytes_discrete gone uuid) [] (h uuid) same))
          | no apart ↦
              find-departed_ne lane gone uuid (find lane gone) apart
              ∙ t.found uuid
              ∙ ap (actor_of size) (sym (ite_no (Bytes_discrete gone uuid) [] (h uuid) apart))
        ];
      }

  Tracks-reap :
      (lane : RemoteActorLane) (h : Bytes → Heard) (now : ℤ)
      → Tracks accepts stale_after_ms size h lane
      → Tracks accepts stale_after_ms size (next (reap_call now) h) (reap lane now)
  unfolding reap
  Tracks-reap lane h now t =
      let (f, s, k) = reap_from-WithOptions lane.actors lane now in
      record {
        filter = f ∙ t.filter;
        stale_after = s ∙ t.stale_after;
        history_size = k ∙ t.history_size;
        distinct = reap_from-IsDistinct lane.actors lane now t.distinct;
        found = λ uuid.
            find-reap lane now uuid t.distinct
            ∙ ap (λ x. kept x now (find lane uuid)) t.stale_after
            ∙ ap (kept stale_after_ms now) (t.found uuid)
            ∙ kept-actor_of size stale_after_ms now (h uuid);
      }

  Tracks-clear :
      (lane : RemoteActorLane) (h : Bytes → Heard)
      → Tracks accepts stale_after_ms size h lane
      → Tracks accepts stale_after_ms size (next clear_call h) (clear lane)
  unfolding clear lookup
  Tracks-clear lane h t = record {
    filter = t.filter;
    stale_after = t.stale_after;
    history_size = t.history_size;
    distinct = tt;
    found = λ uuid. refl;
  }

  Tracks-call :
      (c : LaneCall) (lane : RemoteActorLane) (h : Bytes → Heard)
      → Tracks accepts stale_after_ms size h lane
      → Tracks accepts stale_after_ms size (next c h) (call c lane)
  Tracks-call (apply_call n now) lane h t = Tracks-apply lane h n now t
  Tracks-call (remove_call gone) lane h t = Tracks-remove lane h gone t
  Tracks-call (reap_call now) lane h t = Tracks-reap lane h now t
  Tracks-call clear_call lane h t = Tracks-clear lane h t

  pub Tracks-run :
      (calls : List LaneCall)
      → Tracks accepts stale_after_ms size
          (λ uuid. heard_of accepts stale_after_ms uuid calls)
          (run calls (remote_actor_lane accepts stale_after_ms size))
  unfolding remote_actor_lane lookup
  Tracks-run [] = record {
    filter = refl;
    stale_after = refl;
    history_size = refl;
    distinct = tt;
    found = λ uuid. refl;
  }
  Tracks-run (c ∷ calls) =
      Tracks-call c (run calls (remote_actor_lane accepts stale_after_ms size))
        (λ uuid. heard_of accepts stale_after_ms uuid calls) (Tracks-run calls)

  -- After any calls of a new lane, the entry of an actor is determined by the updates of it that the
  -- filter accepted since it was last removed, cleared or found stale by a reaping: there is none if
  -- there are no such updates; else the chunk and the times are those of the latest, and the samples
  -- are the latest `size` of them, newest first, each with its payload cut to 256 bytes.
  pub find-run :
      (calls : List LaneCall) (uuid : Bytes)
      → find (run calls (remote_actor_lane accepts stale_after_ms size)) uuid
        ≡ actor_of size (heard_of accepts stale_after_ms uuid calls)
  find-run calls uuid = (Tracks-run calls).found uuid
