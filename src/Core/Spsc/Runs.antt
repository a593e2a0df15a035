-- ===== src/Core/Spsc/Runs.antt =====
-- SpscRing (include/crowdy/core/spsc.hpp): its constructor, and every interleaving of the two threads.
use native.Mathlib.Nat.{pow-suc, pow-le-pow_right}
use crowdy_cpp.Base.{
  ℕ, zero, suc, ◌+◌, ◌-◌, ◌*◌, ◌%◌, ◌^◌, ◌≡◌, ◌≤◌, ◌<◌, inl, inr, refl, subst, false, some, List,
  [], ◌∷◌, ◌++◌, length, ltb, Bool-cases, dec_le, arith,
}
use crowdy_cpp.Core.Spsc.{
  round_up, spsc_ring, try_push, try_pop, is_full, is_drained, front, Producer, Consumer,
  size_approx, System, Step, Reachable,
}
use crowdy_cpp.Core.Spsc.Masks.{capacity-lt}
use crowdy_cpp.Core.Spsc.Fifo.{
  ProducerIs, ConsumerIs, IsFifo, full_lem, drained_lem, used_lem, front-queue, place-IsFifo,
  publish-IsFifo, release-IsFifo,
}

-- The doubling ends at a power of two.
round_up_lem :
    (fuel j capacity : ℕ)
    → fuel + j ≡ 65
    → j < 64
    → capacity ≤ 2 ^ 63
    → (k : ℕ) × (k < 64) × (capacity ≤ 2 ^ k) × (round_up fuel (2 ^ j) capacity ≡ some (2 ^ k))
unfolding round_up
round_up_lem zero j capacity e less bound = absurd (omega (arith, e, less))
round_up_lem (suc fuel) j capacity e less bound = elim (Bool-cases (ltb (2 ^ j) capacity)) [
  | inr enough ↦ (j, less, ground (arith, enough), rw enough refl)
  | inl short ↦
      let below : 2 ^ j < capacity = ground (arith, short) in
      let more : suc j < 64 = elim (dec_le 63 j) [
        | yes top ↦
            let positive : 0 < 2 = omega arith in
            let big : 2 ^ 63 ≤ 2 ^ j = pow-le-pow_right positive top in
            absurd (omega (arith, big, below, bound))
        | no under ↦ omega (arith, under)
      ] in
      let doubled : 2 ^ j * 2 % 2 ^ 64 ≡ 2 ^ suc j =
        omega (arith, pow-suc 2 j, (capacity-lt (suc j) more).1) in
      let (k, k_less, fits, ends) =
        round_up_lem fuel (suc j) capacity (omega (arith, e)) more bound in
      (k, k_less, fits, rw (short, doubled) ends)
]

-- For a capacity of at most 2^63 the constructor returns, with a power of two of places, at least as
-- many as asked for.
pub spsc_ring_total :
    {T : Type 0} (initial : T) (capacity : ℕ)
    → capacity ≤ 2 ^ 63
    → (k : ℕ) × (k < 64)
      × (capacity ≤ 2 ^ k)
      × (spsc_ring initial capacity
          ≡ some (record { slots = λ i. initial; mask = 2 ^ k - 1; head = 0; tail = 0 }))
unfolding spsc_ring
spsc_ring_total initial capacity bound =
    let (k, less, fits, ends) = round_up_lem 65 0 capacity refl (omega arith) bound in
    (k, less, fits, rw (spsc_ring, ends) refl)

module _ {T : Type 0} (k : ℕ) (small : k < 64) where
  Step-IsFifo : (s s' : System T) → Step s s' → IsFifo k small s → IsFifo k small s'
  Step-IsFifo s _ (Step.admits item rests room) h = record {
    queue = h.queue;
    whole = h.whole;
    room = h.room;
    mask = h.mask;
    head = h.head;
    tail = h.tail;
    stored = h.stored;
    producer = full_lem k small s h room;
    consumer = h.consumer;
  }
  Step-IsFifo s _ (Step.places item before) h =
      place-IsFifo k small s h item
        (subst (λ p. ProducerIs k small p s.ring.slots (length s.pushed) h.queue) before h.producer)
  Step-IsFifo s _ (Step.publishes item before) h =
      let (less, there) =
        subst (λ p. ProducerIs k small p s.ring.slots (length s.pushed) h.queue) before
          h.producer in
      publish-IsFifo k small s h item less there
  Step-IsFifo s _ (Step.sees before some_item) h = record {
    queue = h.queue;
    whole = h.whole;
    room = h.room;
    mask = h.mask;
    head = h.head;
    tail = h.tail;
    stored = h.stored;
    producer = h.producer;
    consumer = drained_lem k small s h some_item;
  }
  Step-IsFifo s _ (Step.takes before) h = record {
    queue = h.queue;
    whole = h.whole;
    room = h.room;
    mask = h.mask;
    head = h.head;
    tail = h.tail;
    stored = h.stored;
    producer = h.producer;
    consumer =
        front-queue k small s h (subst (λ c. ConsumerIs k small c h.queue) before h.consumer);
  }
  Step-IsFifo s _ (Step.releases item before) h =
      let (rest, e) = subst (λ c. ConsumerIs k small c h.queue) before h.consumer in
      release-IsFifo k small s h item rest e

  Reachable-IsFifo :
      (initial : T) (s : System T) → Reachable initial (2 ^ k - 1) s → IsFifo k small s
  Reachable-IsFifo initial _ Reachable.fresh = record {
    queue = [];
    whole = refl;
    room = omega arith;
    mask = refl;
    head = refl;
    tail = refl;
    stored = tt;
    producer = tt;
    consumer = tt;
  }
  Reachable-IsFifo initial _ (Reachable.after {s} {s'} before step) =
      Step-IsFifo s s' step (Reachable-IsFifo initial s before)

  -- A ring of 2^k places, k below 64, is a bounded queue: whatever the interleaving of the two
  -- threads' steps, the items popped are, in order, the first of the items pushed; those not yet
  -- popped are at most 2^k, and sizeApprox counts them.
  pub Reachable_lem :
      (initial : T) (s : System T)
      → Reachable initial (2 ^ k - 1) s
      → (queue : List T) × (s.pushed ≡ s.popped ++ queue)
        × (length queue ≤ 2 ^ k)
        × (size_approx s.ring ≡ length queue)
  unfolding size_approx
  Reachable_lem initial s r =
      let h = Reachable-IsFifo initial s r in (h.queue, h.whole, h.room, used_lem k small s h)

  -- A call of tryPush or tryPop that no other call interrupts is such a run of steps.
  try_push_runs :
      (initial item : T) (mask : ℕ) (s : System T)
      → Reachable initial mask s
      → s.producer ≡ Producer.resting
      → is_full s.ring ≡ false
      → Reachable initial mask (record s {
        ring = (try_push s.ring item).1;
        producer = Producer.resting;
        pushed = s.pushed ++ (item ∷ []);
      })
  unfolding try_push
  try_push_runs initial item mask s r rests room =
      let ran =
        Reachable.after
          (Reachable.after (Reachable.after r (Step.admits item rests room))
            (Step.places item refl))
          (Step.publishes item refl) in
      rw room ran

  try_pop_runs :
      (initial : T) (mask : ℕ) (s : System T)
      → Reachable initial mask s
      → s.consumer ≡ Consumer.waiting
      → is_drained s.ring ≡ false
      → Reachable initial mask (record s {
        ring = (try_pop s.ring).1;
        consumer = Consumer.waiting;
        popped = s.popped ++ (front s.ring ∷ []);
      })
  unfolding try_pop
  try_pop_runs initial mask s r waits some_item =
      let ran =
        Reachable.after
          (Reachable.after (Reachable.after r (Step.sees waits some_item)) (Step.takes refl))
          (Step.releases (front s.ring) refl) in
      rw some_item ran
