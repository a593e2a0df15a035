-- ===== src/Core/Spsc.antt =====
-- SpscRing of include/crowdy/core/spsc.hpp: the ring that the network thread and the game thread share.
-- A call is a sequence of atomic steps, so that calls of the two threads can interleave; a load reads
-- the last value stored. The slots are a function of their index.
pub mod Masks
pub mod Fifo
pub mod Runs
mod Examples
use crowdy_cpp.Base.{
  ℕ, zero, suc, ◌+◌, ◌-◌, ◌*◌, ◌%◌, ◌^◌, ◌≡◌, Bool, true, false, Option, none, some, List, [], ◌∷◌,
  ◌++◌, bit_and, ltb, ◌==◌, if◌then◌else◌,
}

pub record SpscRing (T : Type 0) : Type 0 where
  pub slots : ℕ → T
  pub mask : ℕ
  pub head : ℕ
  pub tail : ℕ

-- The loop of the constructor; `none` when its fuel ends.
pub round_up : ℕ → ℕ → ℕ → Option ℕ
round_up zero cap capacity = none
round_up (suc fuel) cap capacity =
    let rest = round_up fuel (cap * 2 % 2 ^ 64) capacity in
    if ltb cap capacity then rest else some cap

module _ {T : Type 0} where
  -- The constructor, on slots that hold `initial`.
  pub spsc_ring : T → ℕ → Option (SpscRing T)
  spsc_ring initial capacity = elim (round_up 65 1 capacity) [
    | none ↦ none
    | some cap ↦ some (record { slots = λ i. initial; mask = cap - 1; head = 0; tail = 0 })
  ]

  -- `head - tail`, on words of 64 bits.
  abbrev pub used : SpscRing T → ℕ
  used r = (r.head + 2 ^ 64 - r.tail) % 2 ^ 64

  pub is_full : SpscRing T → Bool
  is_full r = ltb r.mask (used r)

  abbrev pub write : (ℕ → T) → ℕ → T → ℕ → T
  write slots i item j = if i == j then item else slots j

  -- The steps of `tryPush` after its guard, and of `tryPop`.
  pub place : SpscRing T → T → SpscRing T
  place r item = record r { slots = write r.slots (bit_and r.head r.mask) item }

  pub publish : SpscRing T → SpscRing T
  publish r = record r { head = (r.head + 1) % 2 ^ 64 }

  pub is_drained : SpscRing T → Bool
  is_drained r = r.tail == r.head

  pub front : SpscRing T → T
  front r = r.slots (bit_and r.tail r.mask)

  pub release : SpscRing T → SpscRing T
  release r = record r { tail = (r.tail + 1) % 2 ^ 64 }

  -- The calls, when no other call interleaves.
  pub try_push : SpscRing T → T → Bool × SpscRing T
  try_push r item = if is_full r then (false, r) else (true, publish (place r item))

  pub try_pop : SpscRing T → Option T × SpscRing T
  try_pop r = if is_drained r then (none, r) else (some (front r), release r)

  -- Both counters at one moment; the source loads one after the other.
  pub size_approx : SpscRing T → ℕ
  size_approx r = used r

-- How far the producer's call has come, and the consumer's.
pub data Producer (T : Type 0) : Type 0 where
  resting : Producer T
  admitted placed : T → Producer T

pub data Consumer (T : Type 0) : Type 0 where
  waiting seen : Consumer T
  held : T → Consumer T

-- The two threads, and the items of the calls that have returned, oldest first.
pub record System (T : Type 0) : Type 0 where
  pub ring : SpscRing T
  pub producer : Producer T
  pub consumer : Consumer T
  pub pushed : List T
  pub popped : List T

-- A step of either thread.
pub data Step {T : Type 0} : System T → System T → Type 0 where
  admits :
      {s : System T} (item : T)
      → s.producer ≡ Producer.resting
      → is_full s.ring ≡ false
      → Step s (record s { producer = Producer.admitted item })
  places :
      {s : System T} (item : T)
      → s.producer ≡ Producer.admitted item
      → Step s (record s { ring = place s.ring item; producer = Producer.placed item })
  publishes :
      {s : System T} (item : T)
      → s.producer ≡ Producer.placed item
      → Step s (record s {
        ring = publish s.ring;
        producer = Producer.resting;
        pushed = s.pushed ++ (item ∷ []);
      })
  sees :
      {s : System T}
      → s.consumer ≡ Consumer.waiting
      → is_drained s.ring ≡ false
      → Step s (record s { consumer = Consumer.seen })
  takes :
      {s : System T}
      → s.consumer ≡ Consumer.seen
      → Step s (record s { consumer = Consumer.held (front s.ring) })
  releases :
      {s : System T} (item : T)
      → s.consumer ≡ Consumer.held item
      → Step s (record s {
        ring = release s.ring;
        consumer = Consumer.waiting;
        popped = s.popped ++ (item ∷ []);
      })

-- The states reached from a ring with no item, by any interleaving.
pub data Reachable {T : Type 0} (initial : T) (mask : ℕ) : System T → Type 0 where
  fresh : Reachable initial mask (record {
    ring = record { slots = λ i. initial; mask = mask; head = 0; tail = 0 };
    producer = Producer.resting;
    consumer = Consumer.waiting;
    pushed = [];
    popped = [];
  })
  after : {s s' : System T} → Reachable initial mask s → Step s s' → Reachable initial mask s'
