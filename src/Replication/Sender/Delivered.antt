-- ===== src/Replication/Sender/Delivered.antt =====
-- The send path of src/replication/connection.cpp, call by call: what the receiver of the datagrams
-- reads.
use crowdy_cpp.Base.{
  ◌%◌, ◌^◌, ◌≡◌, ◌≢◌, ◌≤◌, inl, inr, refl, sym, ap, ◌∙◌, subst, true, false, not, ◌&&◌, Option,
  none, some, List, [], ◌∷◌, ◌++◌, All, All-append, length, get_or, if◌then◌else◌, Bool-cases,
  arith,
}
use crowdy_cpp.Base.Int.{ℤ}
use crowdy_cpp.Core.Le.{Bytes}
use crowdy_cpp.Core.Result.{Errc, Status, is_ok}
use crowdy_cpp.Wire.Bundle.{Delivery, for_each_message, bundle_writer}
use crowdy_cpp.Wire.Bundle.Writer.{IsPlain, for_each_message-sent, reset-Holds}
use crowdy_cpp.Replication.Sender.{
  max_bundle_member_size, Sender, sender, is_empty, bundle_expired, transmit, flush_bundle,
  flush_expired_bundle, flush_sends,
}
use crowdy_cpp.Replication.Sender.Flow.{
  Group, messages_in, datagrams_of, lost_in, IsGroup, Accounts, taken_by, flush_bundle-Accounts,
  transmit-Sends,
}

-- A call of the send path, with the clock's reading.
pub data SendCall : Type 0 where
  transmit_call : ℤ → Bytes → SendCall
  flush_expired_call : ℤ → SendCall
  flush_call : SendCall

module _ {S : Type 0} (socket_send : S → Bytes → (Status × ℤ) × S) where
  abbrev pub call : SendCall → Sender S × List Bytes → Sender S × List Bytes
  call (transmit_call now m) (s, taken) =
      let (st, s') = transmit socket_send s now m in (s', taken_by taken m st)
  call (flush_expired_call now) (s, taken) = (flush_expired_bundle socket_send s now, taken)
  call flush_call (s, taken) = ((flush_sends socket_send s).1, taken)

  -- The sender after the calls, the latest first, and the messages of the sends that answered `ok`,
  -- in order.
  abbrev pub run : List SendCall → Sender S → Sender S × List Bytes
  run [] s = (s, [])
  run (c ∷ calls) s = call c (run calls s)

  -- A message may travel in a bundle, and is not taken for a bundle when it travels alone.
  abbrev pub IsSendable : SendCall → Type 0
  IsSendable (transmit_call now m) =
      (length m ≤ max_bundle_member_size) × (get_or m 0 0 ≢ 2) × (get_or m 0 0 ≢ 30)
  IsSendable _ = Unit {0}

  flush_expired-Accounts :
      (s : Sender S) (now : ℤ) (taken : List Bytes)
      → Accounts s taken
      → Accounts (flush_expired_bundle socket_send s now) taken
  unfolding flush_expired_bundle
  flush_expired-Accounts s now taken h =
      elim (Bool-cases (s.bundle_sends && (not (is_empty s) && bundle_expired s now))) [
        | inl flushes ↦ rw (flushes) (flush_bundle-Accounts socket_send s taken h)
        | inr waits ↦ rw (waits) h
      ]

  flush_sends-Accounts :
      (s : Sender S) (taken : List Bytes)
      → Accounts s taken
      → Accounts (flush_sends socket_send s).1 taken
  unfolding flush_sends
  flush_sends-Accounts s taken h =
      subst (λ b. Accounts (if not b then (Errc.ok, s) else flush_bundle socket_send s).1 taken)
        (sym h.bundling) (flush_bundle-Accounts socket_send s taken h)

  call-Accounts :
      (c : SendCall) (s : Sender S) (taken : List Bytes)
      → IsSendable c
      → Accounts s taken
      → Accounts (call c (s, taken)).0 (call c (s, taken)).1
  call-Accounts (transmit_call now m) s taken (small, _, _) h =
      transmit-Sends socket_send s now taken m small h
  call-Accounts (flush_expired_call now) s taken sendable h = flush_expired-Accounts s now taken h
  call-Accounts flush_call s taken sendable h = flush_sends-Accounts s taken h

  sender-Accounts :
      (window_ms : ℤ) (buffer : Bytes) (socket : S)
      → length buffer ≡ 1232
      → Accounts (sender true window_ms buffer socket) []
  unfolding sender bundle_writer
  sender-Accounts window_ms buffer socket size = record {
    groups = [];
    pending = [];
    out = buffer;
    size = size;
    holds = reset-Holds (record { buf = buffer; offset = 1; count = 0 }) (omega (arith, size));
    bundling = refl;
    in_order = refl;
    on_wire = refl;
    dropped = refl;
    whole = tt;
  }

  run-Accounts :
      (calls : List SendCall) (s : Sender S)
      → All IsSendable calls
      → Accounts s []
      → Accounts (run calls s).0 (run calls s).1
  run-Accounts [] s sendable h = h
  run-Accounts (c ∷ calls) s (one, others) h =
      call-Accounts c (run calls s).0 (run calls s).1 one (run-Accounts calls s others h)

-- What a receiver reads of the datagrams, one after the other.
abbrev pub read_of : Option Delivery → List Bytes
read_of none = []
read_of (some (ms, st)) = ms

abbrev pub received : List Bytes → List Bytes
received [] = []
received (d ∷ wire) = read_of (for_each_message d) ++ received wire

-- The messages that the socket took.
abbrev pub kept_in : List Group → List Bytes
kept_in [] = []
kept_in ((true, ms) ∷ groups) = ms ++ kept_in groups
kept_in ((false, ms) ∷ groups) = kept_in groups

-- The first byte of a message is not that of a bundle.
abbrev IsUnframed : Bytes → Type 0
IsUnframed m = (get_or m 0 0 ≢ 2) × (get_or m 0 0 ≢ 30)

All-append_parts :
    (P : Bytes → Type 0) (xs ys : List Bytes) → All P (xs ++ ys) → All P xs × All P ys
All-append_parts P [] ys h = (tt, h)
All-append_parts P (x ∷ xs) ys (one, others) =
    let (a, b) = All-append_parts P xs ys others in ((one, a), b)

IsPlain-of : (ms : List Bytes) → length ms ≢ 0 → All IsUnframed ms → IsPlain ms
IsPlain-of [] h u = h refl
IsPlain-of (m ∷ []) h u = u.0
IsPlain-of (m ∷ n ∷ ms) h u = tt

received-datagrams_of :
    (groups : List Group)
    → All IsGroup groups
    → All IsUnframed (messages_in groups)
    → received (datagrams_of groups) ≡ kept_in groups
received-datagrams_of [] h u = refl
received-datagrams_of ((true, ms) ∷ groups) ((fitting, some_message), hs) u =
    let (here, later) = All-append_parts IsUnframed ms (messages_in groups) u in
    ap (λ r. read_of r ++ received (datagrams_of groups))
      (for_each_message-sent ms fitting (IsPlain-of ms some_message here))
    ∙ ap (λ r. ms ++ r) (received-datagrams_of groups hs later)
received-datagrams_of ((false, ms) ∷ groups) (h, hs) u =
    received-datagrams_of groups hs (All-append_parts IsUnframed ms (messages_in groups) u).1

module _ {S : Type 0} (socket_send : S → Bytes → (Status × ℤ) × S) where
  run-IsUnframed :
      (calls : List SendCall) (s : Sender S)
      → All (IsSendable socket_send) calls
      → All IsUnframed (run socket_send calls s).1
  run-IsUnframed [] s h = tt
  run-IsUnframed (transmit_call now m ∷ calls) s ((small, a, b), hs) =
      let (k, taken) = run socket_send calls s in
      let ih : All IsUnframed taken = run-IsUnframed calls s hs in
      elim (Bool-cases (is_ok (transmit socket_send k now m).0)) [
        | inl e ↦ rw (e) (All-append IsUnframed taken (m ∷ []) ih ((a, b), tt))
        | inr e ↦ rw (e) ih
      ]
  run-IsUnframed (flush_expired_call now ∷ calls) s (h, hs) = run-IsUnframed calls s hs
  run-IsUnframed (flush_call ∷ calls) s (h, hs) = run-IsUnframed calls s hs

  -- Where each message is that a send took: in a datagram that the socket took, in one that it lost,
  -- or in the pending bundle.
  abbrev pub IsConserved : Sender S → List Bytes → Type 0
  IsConserved s taken =
      (groups : List Group) × (pending : List Bytes) × (taken ≡ messages_in groups ++ pending)
      × (received s.wire ≡ kept_in groups)
      × (s.messages_dropped ≡ lost_in groups % 2 ^ 64)
      × (s.bundle.count ≡ length pending)

  -- A connection that bundles, through any sends of messages of at most 1229 bytes that do not start
  -- with the type byte of a bundle, and any flushes, whatever the socket answers: the messages of the
  -- sends that answered `ok` are, in order and each once, those of successive datagrams and then those
  -- still pending. Of these datagrams some left, and a receiver that walks them reads exactly their
  -- messages, in order; the messages of the others are counted as dropped, modulo 2^64; and the
  -- pending ones are as many as the bundle counts.
  pub run-IsConserved :
      (calls : List SendCall) (window_ms : ℤ) (buffer : Bytes) (socket : S)
      → length buffer ≡ 1232
      → All (IsSendable socket_send) calls
      → IsConserved
          (run socket_send calls (sender true window_ms buffer socket)).0
          (run socket_send calls (sender true window_ms buffer socket)).1
  run-IsConserved calls window_ms buffer socket size sendable =
      let start : Sender S = sender true window_ms buffer socket in
      let h =
        run-Accounts socket_send calls start sendable
          (sender-Accounts socket_send window_ms buffer socket size) in
      let u =
        All-append_parts IsUnframed (messages_in h.groups) h.pending
          (subst (All IsUnframed) h.in_order (run-IsUnframed calls start sendable)) in
      (
        h.groups,
        h.pending,
        h.in_order,
        ap received h.on_wire ∙ received-datagrams_of h.groups h.whole u.0,
        h.dropped,
        h.holds.count,
      )
