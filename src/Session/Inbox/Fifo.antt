-- ===== src/Session/Inbox/Fifo.antt =====
-- Inbox of include/crowdy/session/stores.hpp as a bounded queue.
use crowdy_cpp.Base.{
  ℕ, zero, suc, ◌+◌, ◌-◌, ◌≡◌, ◌≤◌, ◌<◌, inl, inr, refl, sym, ap, ◌∙◌, Option, none, some, List, [],
  ◌∷◌, ◌++◌, append_assoc, append-nil, length, take, drop, length-append, length-drop, drop-drop,
  ltb, if◌then◌else◌, Bool-cases, ltb→lt, ltb_false→le, arith,
}
use crowdy_cpp.Session.Inbox.{
  InboxMessage, Inbox, back, insert_channel, announced, push, drain_loop, drain, clear,
}

-- The pushes in order.
abbrev pub push_all : List InboxMessage → Inbox → Option Inbox
push_all [] ib = some ib
push_all (m ∷ ms) ib = elim (push ib m) [ none ↦ none | some ib' ↦ push_all ms ib' ]

-- The last `k` of a list.
abbrev pub keep_last : ℕ → List InboxMessage → List InboxMessage
keep_last k ms = drop (length ms - k) ms

abbrev pub rev_onto : List InboxMessage → List InboxMessage → List InboxMessage
rev_onto [] log = log
rev_onto (m ∷ ms) log = rev_onto ms (m ∷ log)

-- The deque holds at most `max` messages.
abbrev pub IsBounded : Inbox → Type 0
IsBounded ib = length ib.messages ≤ ib.max

back-append : (ms : List InboxMessage) (m : InboxMessage) → back (ms ++ m ∷ []) ≡ some m
back-append [] m = refl
back-append (x ∷ []) m = refl
back-append (x ∷ y ∷ ms) m = back-append (y ∷ ms) m

-- The inbox after a push that succeeds.
abbrev pub pushed : Inbox → InboxMessage → Inbox
pushed ib m = record ib {
  messages = keep_last ib.max (ib.messages ++ m ∷ []);
  channels = insert_channel m.channel_id ib.channels;
  observed = m ∷ ib.observed;
}

announced_kept :
    (ib : Inbox) (m : InboxMessage) (front kept : List InboxMessage)
    → kept ≡ front ++ m ∷ []
    → kept ≡ keep_last ib.max (ib.messages ++ m ∷ [])
    → announced ib kept (back kept) ≡ some (pushed ib m)
announced_kept ib m front kept is is_last =
    ap (announced ib kept) (ap back is ∙ back-append front m)
    ∙ ap
        (λ ms. some (
          let r : Inbox = record ib {
            messages = ms;
            channels = insert_channel m.channel_id ib.channels;
            observed = m ∷ ib.observed;
          } in
          r))
        is_last

dropped_front :
    (m : InboxMessage) (ms : List InboxMessage)
    → 0 < length ms
    → (front : List InboxMessage) × (drop 1 (ms ++ m ∷ []) ≡ front ++ m ∷ [])
dropped_front m [] h = absurd (omega (arith, h))
dropped_front m (x ∷ ms) h = (ms, refl)

push-pushed :
    (ib : Inbox) (m : InboxMessage) → 0 < ib.max → IsBounded ib → push ib m ≡ some (pushed ib m)
unfolding push
push-pushed ib m room bound =
    let ms : List InboxMessage = ib.messages ++ m ∷ [] in
    let size : length ms ≡ length ib.messages + 1 = length-append ib.messages (m ∷ []) in
    elim (Bool-cases (ltb ib.max (length ms))) [
      | inl full ↦
          let over = ltb→lt ib.max (length ms) full in
          let (front, is) = dropped_front m ib.messages (omega (arith, over, size, room)) in
          let one : 1 ≡ length ms - ib.max = omega (arith, over, size, bound) in
          ap (λ b. let kept = if b then drop 1 ms else ms in announced ib kept (back kept)) full
          ∙ announced_kept ib m front (drop 1 ms) is (ap (λ k. drop k ms) one)
      | inr fits ↦
          let zero_over : 0 ≡ length ms - ib.max = omega (arith, ltb_false→le fits) in
          ap (λ b. let kept = if b then drop 1 ms else ms in announced ib kept (back kept)) fits
          ∙ announced_kept ib m ib.messages ms refl (ap (λ k. drop k ms) zero_over)
    ]

length-keep_last : (k : ℕ) (ms : List InboxMessage) → length (keep_last k ms) ≤ k
length-keep_last k ms = omega (arith, length-drop (length ms - k) ms)

pushed-IsBounded : (ib : Inbox) (m : InboxMessage) → IsBounded (pushed ib m)
pushed-IsBounded ib m = length-keep_last ib.max (ib.messages ++ m ∷ [])

-- Dropping fewer than there are commutes with an append.
drop-append_le :
    (k : ℕ) (xs ys : List InboxMessage) → k ≤ length xs → drop k (xs ++ ys) ≡ drop k xs ++ ys
drop-append_le zero xs ys h = refl
drop-append_le (suc k) [] ys h = absurd (omega (arith, h))
drop-append_le (suc k) (x ∷ xs) ys h = drop-append_le k xs ys (omega (arith, h))

-- The last of what is appended to the last.
keep_last-append :
    (k : ℕ) (xs ys : List InboxMessage)
    → keep_last k (keep_last k xs ++ ys) ≡ keep_last k (xs ++ ys)
keep_last-append k xs ys =
    let d : ℕ = length xs - k in
    let size = length-append xs ys in
    let left = length-append (drop d xs) ys in
    let cut = length-drop d xs in
    ap (λ ms. drop (length (drop d xs ++ ys) - k) ms) (sym (drop-append_le d xs ys (omega arith)))
    ∙ drop-drop (length (drop d xs ++ ys) - k) d (xs ++ ys)
    ∙ ap (λ n. drop n (xs ++ ys)) (omega (arith, size, left, cut))

-- Pushes to an inbox that holds at most `max` messages, with `max` at least 1, all succeed, and leave
-- in it the last `max` of its messages and the pushed ones, oldest first; each pushed message is
-- observed, in order, also one that is dropped later.
pub push_all-keep_last :
    (ms : List InboxMessage) (ib : Inbox)
    → 0 < ib.max
    → IsBounded ib
    → (ib' : Inbox) × (push_all ms ib ≡ some ib')
      × (ib'.messages ≡ keep_last ib.max (ib.messages ++ ms))
      × (ib'.observed ≡ rev_onto ms ib.observed)
      × (ib'.max ≡ ib.max)
push_all-keep_last [] ib room bound = (
  ib,
  refl,
  ap (λ k. drop k ib.messages) (let e : 0 ≡ length ib.messages - ib.max = omega (arith, bound) in e)
      ∙ ap (keep_last ib.max) (sym (append-nil ib.messages)),
  refl,
  refl,
)
push_all-keep_last (m ∷ ms) ib room bound =
    let (ib', ran, is, seen, size) =
      push_all-keep_last ms (pushed ib m) room (pushed-IsBounded ib m) in
    (
      ib',
      ap (λ r. elim r [ none ↦ none | some x ↦ push_all ms x ]) (push-pushed ib m room bound) ∙ ran,
      is
          ∙ keep_last-append ib.max (ib.messages ++ m ∷ []) ms
          ∙ ap (keep_last ib.max) (append_assoc ib.messages (m ∷ []) ms),
      seen,
      size,
    )

drain_loop-take-drop : (n : ℕ) (ms : List InboxMessage) → drain_loop n ms ≡ (take n ms, drop n ms)
drain_loop-take-drop zero ms = refl
drain_loop-take-drop (suc n) [] = refl
drain_loop-take-drop (suc n) (m ∷ ms) =
    ap (λ (out, left). (m ∷ out, left)) (drain_loop-take-drop n ms)

pub data InboxCall : Type 0 where
  push_call : InboxMessage → InboxCall
  drain_call : ℕ → InboxCall
  clear_call : InboxCall

-- What the calls, in order, return from their drains, and the inbox they leave; `none` where a push
-- fails.
abbrev pub run : List InboxCall → Inbox → Option (List InboxMessage × Inbox)
run [] ib = some ([], ib)
run (push_call m ∷ calls) ib = elim (push ib m) [ none ↦ none | some ib' ↦ run calls ib' ]
run (drain_call n ∷ calls) ib =
    let (out, ib') = drain ib n in
    elim (run calls ib') [ none ↦ none | some (outs, last) ↦ some (out ++ outs, last) ]
run (clear_call ∷ calls) ib = run calls (clear ib)

-- A bounded queue: what the same calls give on the list of what it holds.
abbrev pub queue_run :
    ℕ → List InboxCall → List InboxMessage → List InboxMessage × List InboxMessage
queue_run max [] q = ([], q)
queue_run max (push_call m ∷ calls) q = queue_run max calls (keep_last max (q ++ m ∷ []))
queue_run max (drain_call n ∷ calls) q =
    let (outs, last) = queue_run max calls (drop n q) in (take n q ++ outs, last)
queue_run max (clear_call ∷ calls) q = queue_run max calls []

-- What a run gives, against the queue's.
abbrev pub Matches :
    ℕ → Option (List InboxMessage × Inbox) → List InboxMessage × List InboxMessage → Type 0
Matches max r q =
    (ib : Inbox) × (r ≡ some (q.0, ib)) × (ib.messages ≡ q.1) × IsBounded ib × (ib.max ≡ max)

drain-take :
    (ib : Inbox) (n : ℕ)
    → drain ib n ≡ (take n ib.messages, record ib { messages = drop n ib.messages })
unfolding drain
drain-take ib n =
    ap
      (λ (out, left). let r : List InboxMessage × Inbox = (out, record ib { messages = left }) in r)
      (drain_loop-take-drop n ib.messages)

-- An inbox with room for a message is a bounded first-in first-out queue: from a state within its
-- bound, any pushes, drains and clears succeed, its drains return what the drains of the queue
-- return, it ends with the messages of the queue, and it is within its bound.
pub run-queue_run :
    (calls : List InboxCall) (ib : Inbox)
    → 0 < ib.max
    → IsBounded ib
    → Matches ib.max (run calls ib) (queue_run ib.max calls ib.messages)
unfolding clear
run-queue_run [] ib room bound = (ib, refl, refl, bound, refl)
run-queue_run (push_call m ∷ calls) ib room bound =
    let (ib', ran, is, within, size) =
      run-queue_run calls (pushed ib m) room (pushed-IsBounded ib m) in
    (
      ib',
      ap (λ r. elim r [ none ↦ none | some x ↦ run calls x ]) (push-pushed ib m room bound) ∙ ran,
      is,
      within,
      size,
    )
run-queue_run (drain_call n ∷ calls) ib room bound =
    let left : Inbox = record ib { messages = drop n ib.messages } in
    let (ib', ran, is, within, size) =
      run-queue_run calls left room (omega (arith, length-drop n ib.messages, bound)) in
    (
      ib',
      ap
            (λ (out, k). elim (run calls k) [
              | none ↦ none
              | some (outs, last) ↦ some (out ++ outs, last)
            ])
            (drain-take ib n)
          ∙ ap
              (λ r. elim r [
                | none ↦ none
                | some (outs, last) ↦ some (take n ib.messages ++ outs, last)
              ])
              ran,
      is,
      within,
      size,
    )
run-queue_run (clear_call ∷ calls) ib room bound =
    let (ib', ran, is, within, size) =
      run-queue_run calls (record ib { messages = [] }) room (omega arith) in
    (ib', ran, is, within, size)
