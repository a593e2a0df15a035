-- ===== src/Core/Spsc/Examples.antt =====
-- Concrete runs of SpscRing (include/crowdy/core/spsc.hpp).
use crowdy_cpp.Base.{ℕ, ◌-◌, ◌^◌, ◌≡◌, ◌≤◌, ◌<◌, refl, some, List, [], ◌∷◌, ◌++◌, length, arith}
use crowdy_cpp.Core.Spsc.{
  SpscRing, spsc_ring, size_approx, is_full, place, publish, is_drained, Producer, Consumer, System,
  Step, Reachable,
}
use crowdy_cpp.Core.Spsc.Runs.{spsc_ring_total, Reachable_lem}

three_slots :
    (k : ℕ) × (k < 64)
    × (3 ≤ 2 ^ k)
    × (spsc_ring {T = ℕ} 0 3
        ≡ some (record { slots = λ i. 0; mask = 2 ^ k - 1; head = 0; tail = 0 }))
three_slots = spsc_ring_total 0 3 (omega arith)

abbrev new_ring : SpscRing ℕ
new_ring = record { slots = λ i. 0; mask = 2 ^ 1 - 1; head = 0; tail = 0 }

abbrev one_in : System ℕ
one_in = record {
  ring = publish (place new_ring 7);
  producer = Producer.resting;
  consumer = Consumer.waiting;
  pushed = 7 ∷ [];
  popped = [];
}

abbrev both_busy : System ℕ
both_busy = record one_in { producer = Producer.admitted 8; consumer = Consumer.seen }

one_in-Reachable : Reachable 0 (2 ^ 1 - 1) one_in
unfolding is_full
one_in-Reachable =
    Reachable.after
      (Reachable.after (Reachable.after Reachable.fresh (Step.admits 7 refl refl))
        (Step.places 7 refl))
      (Step.publishes 7 refl)

both_busy-Reachable : Reachable 0 (2 ^ 1 - 1) both_busy
unfolding is_full is_drained publish place
both_busy-Reachable =
    Reachable.after (Reachable.after one_in-Reachable (Step.admits 8 refl refl))
      (Step.sees refl refl)

both_busy_queue :
    (queue : List ℕ) × (both_busy.pushed ≡ both_busy.popped ++ queue)
    × (length queue ≤ 2 ^ 1)
    × (size_approx both_busy.ring ≡ length queue)
both_busy_queue = Reachable_lem 1 (omega arith) 0 both_busy both_busy-Reachable
