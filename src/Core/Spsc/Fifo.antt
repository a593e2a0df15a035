-- ===== src/Core/Spsc/Fifo.antt =====
-- SpscRing (include/crowdy/core/spsc.hpp) is a bounded queue: whatever the interleaving, items come out
-- in the order they went in.
use crowdy_cpp.Base.{
  ℕ, suc, ◌+◌, ◌-◌, ◌%◌, ◌^◌, ◌≡◌, ◌≤◌, ◌<◌, sym, ap, ap₂, ◌∙◌, subst, false, List, [], ◌∷◌, ◌++◌,
  length, length-append, append_assoc, bit_and, arith,
}
use crowdy_cpp.Core.Spsc.{
  used, is_full, write, place, publish, is_drained, front, release, Producer, Consumer, System,
}
use crowdy_cpp.Core.Spsc.Masks.{place_of, capacity-lt, mod_apart}

module _ {T : Type 0} (k : ℕ) (small : k < 64) where
  -- The places from count `c` on hold the items of `queue`.
  abbrev Stored : (ℕ → T) → ℕ → List T → Type 0
  Stored slots c [] = Unit {0}
  Stored slots c (item ∷ queue) = (slots (c % 2 ^ k) ≡ item) × Stored slots (c + 1) queue

  abbrev pub ProducerIs : Producer T → (ℕ → T) → ℕ → List T → Type 0
  ProducerIs Producer.resting slots n queue = Unit {0}
  ProducerIs (Producer.admitted item) slots n queue = length queue < 2 ^ k
  ProducerIs (Producer.placed item) slots n queue =
      (length queue < 2 ^ k) × (slots (n % 2 ^ k) ≡ item)

  abbrev pub ConsumerIs : Consumer T → List T → Type 0
  ConsumerIs Consumer.waiting queue = Unit {0}
  ConsumerIs Consumer.seen queue = 0 < length queue
  ConsumerIs (Consumer.held item) queue = (rest : List T) × (queue ≡ item ∷ rest)

  -- The items that have gone in and not come out are `queue`, oldest first, at most as many as the
  -- ring has places.
  pub record IsFifo (s : System T) : Type 0 where
    pub queue : List T
    pub whole : s.pushed ≡ s.popped ++ queue
    pub room : length queue ≤ 2 ^ k
    pub mask : s.ring.mask ≡ 2 ^ k - 1
    pub head : s.ring.head ≡ length s.pushed % 2 ^ 64
    pub tail : s.ring.tail ≡ length s.popped % 2 ^ 64
    pub stored : Stored s.ring.slots (length s.popped) queue
    pub producer : ProducerIs s.producer s.ring.slots (length s.pushed) queue
    pub consumer : ConsumerIs s.consumer queue

  -- A new item at the end.
  Stored-snoc :
      (slots : ℕ → T) (c : ℕ) (queue : List T) (item : T)
      → Stored slots c queue
      → slots ((c + length queue) % 2 ^ k) ≡ item
      → Stored slots c (queue ++ (item ∷ []))
  Stored-snoc slots c [] item h e = (ap (λ (n : ℕ). slots (n % 2 ^ k)) (omega arith) ∙ e, tt)
  Stored-snoc slots c (x ∷ queue) item (here, rest) e = (
    here,
    Stored-snoc slots (c + 1) queue item rest (ap (λ (n : ℕ). slots (n % 2 ^ k)) (omega arith) ∙ e),
  )

  write_apart : (slots : ℕ → T) (i j : ℕ) (item : T) → (j ≡ i → ⊥) → write slots i item j ≡ slots j
  write_apart slots i j item apart = ground (arith, apart)

  -- A write behind the queue leaves the queue.
  Stored-write :
      (slots : ℕ → T) (c : ℕ) (queue : List T) (n d : ℕ) (item : T)
      → n ≡ c + (length queue + d)
      → length queue + d < 2 ^ k
      → Stored slots c queue
      → Stored (write slots (n % 2 ^ k) item) c queue
  Stored-write slots c [] n d item at less h = h
  Stored-write slots c (x ∷ queue) n d item at less (here, rest) = (
    write_apart slots (n % 2 ^ k) (c % 2 ^ k) item (λ same.
          mod_apart (2 ^ k) c (suc (length queue) + d) (omega arith) less
            (same ∙ ap (λ (m : ℕ). m % 2 ^ k) at))
        ∙ here,
    Stored-write slots (c + 1) queue n d item (omega (arith, at)) (omega (arith, less)) rest,
  )

  -- What the guards read off the two words.
  module _ (s : System T) (h : IsFifo s) where
    lengths : length s.pushed ≡ length s.popped + length h.queue
    lengths = ap (λ (xs : List T). length xs) h.whole ∙ length-append s.popped h.queue

    pub used_lem : used s.ring ≡ length h.queue
    used_lem = omega (arith, h.head, h.tail, lengths, h.room, capacity-lt k small)

    pub full_lem : is_full s.ring ≡ false → length h.queue < 2 ^ k
    unfolding is_full
    full_lem e = ground (arith, e, used_lem, h.mask, capacity-lt k small)

    pub drained_lem : is_drained s.ring ≡ false → 0 < length h.queue
    unfolding is_drained
    drained_lem e = ground (arith, e, h.head, h.tail, lengths)

    head_place : bit_and s.ring.head s.ring.mask ≡ length s.pushed % 2 ^ k
    head_place = ap₂ (λ (a b : ℕ). bit_and a b) h.head h.mask ∙ place_of k (length s.pushed) small

    tail_place : bit_and s.ring.tail s.ring.mask ≡ length s.popped % 2 ^ k
    tail_place = ap₂ (λ (a b : ℕ). bit_and a b) h.tail h.mask ∙ place_of k (length s.popped) small

    -- The front of the ring is the head of the queue.
    pub front-queue : 0 < length h.queue → (rest : List T) × (h.queue ≡ front s.ring ∷ rest)
    unfolding front
    front-queue some_item = first h.queue h.stored some_item
      where
        first :
            (queue : List T)
            → Stored s.ring.slots (length s.popped) queue
            → 0 < length queue
            → (rest : List T) × (queue ≡ s.ring.slots (bit_and s.ring.tail s.ring.mask) ∷ rest)
        first [] stored positive = absurd (omega (arith, positive))
        first (x ∷ queue) stored positive =
            (queue, ap (λ y. y ∷ queue) (sym (ap s.ring.slots tail_place ∙ stored.0)))

    pub place-IsFifo :
        (item : T)
        → length h.queue < 2 ^ k
        → IsFifo (record s { ring = place s.ring item; producer = Producer.placed item })
    unfolding place
    place-IsFifo item less =
        let i = bit_and s.ring.head s.ring.mask in
        record {
          queue = h.queue;
          whole = h.whole;
          room = h.room;
          mask = h.mask;
          head = h.head;
          tail = h.tail;
          stored =
              subst (λ (j : ℕ). Stored (write s.ring.slots j item) (length s.popped) h.queue)
                (sym head_place)
                (Stored-write s.ring.slots (length s.popped) h.queue (length s.pushed) 0 item
                  (omega (arith, lengths)) (omega (arith, less)) h.stored);
          producer = (less, ground (arith, head_place));
          consumer = h.consumer;
        }

    pub publish-IsFifo :
        (item : T)
        → length h.queue < 2 ^ k
        → s.ring.slots (length s.pushed % 2 ^ k) ≡ item
        → IsFifo (record s {
          ring = publish s.ring;
          producer = Producer.resting;
          pushed = s.pushed ++ (item ∷ []);
        })
    unfolding publish
    publish-IsFifo item less there = record {
      queue = h.queue ++ (item ∷ []);
      whole =
          ap (λ (xs : List T). xs ++ (item ∷ [])) h.whole
          ∙ append_assoc s.popped h.queue (item ∷ []);
      room = omega (arith, length-append h.queue (item ∷ []), less);
      mask = h.mask;
      head = omega (arith, h.head, length-append s.pushed (item ∷ []));
      tail = h.tail;
      stored =
          Stored-snoc s.ring.slots (length s.popped) h.queue item h.stored
            (ap (λ (n : ℕ). s.ring.slots (n % 2 ^ k)) (sym lengths) ∙ there);
      producer = tt;
      consumer = grown s.consumer h.queue h.consumer;
    }
      where
        grown :
            (c : Consumer T) (queue : List T)
            → ConsumerIs c queue
            → ConsumerIs c (queue ++ (item ∷ []))
        grown Consumer.waiting queue c = tt
        grown Consumer.seen queue c = omega (arith, length-append queue (item ∷ []), c)
        grown (Consumer.held y) queue (rest, e) =
            (rest ++ (item ∷ []), ap (λ (xs : List T). xs ++ (item ∷ [])) e)

    pub release-IsFifo :
        (item : T) (rest : List T)
        → h.queue ≡ item ∷ rest
        → IsFifo (record s {
          ring = release s.ring;
          consumer = Consumer.waiting;
          popped = s.popped ++ (item ∷ []);
        })
    unfolding release
    release-IsFifo item rest e =
        let size : length h.queue ≡ suc (length rest) = ap (λ (xs : List T). length xs) e in
        let count = length-append s.popped (item ∷ []) in
        let one_more : length s.popped + 1 ≡ length (s.popped ++ (item ∷ [])) =
          omega (arith, count) in
        record {
          queue = rest;
          whole =
              h.whole
              ∙ ap (λ (xs : List T). s.popped ++ xs) e
              ∙ sym (append_assoc s.popped (item ∷ []) rest);
          room = omega (arith, h.room, size);
          mask = h.mask;
          head = h.head;
          tail = omega (arith, h.tail, count);
          stored =
              subst (λ (c : ℕ). Stored s.ring.slots c rest) one_more
                (subst (Stored s.ring.slots (length s.popped)) e h.stored).1;
          producer = shrunk s.producer h.producer;
          consumer = tt;
        }
      where
        shrunk :
            (p : Producer T)
            → ProducerIs p s.ring.slots (length s.pushed) h.queue
            → ProducerIs p s.ring.slots (length s.pushed) rest
        shrunk Producer.resting q = tt
        shrunk (Producer.admitted x) q =
            let size : length h.queue ≡ suc (length rest) = ap (λ (xs : List T). length xs) e in
            omega (arith, q, size)
        shrunk (Producer.placed x) (q, there) =
            let size : length h.queue ≡ suc (length rest) = ap (λ (xs : List T). length xs) e in
            (omega (arith, q, size), there)
