-- ===== src/Replication/Sender/Flow.antt =====
-- The send path of src/replication/connection.cpp: where each message that a send took has gone.
use crowdy_cpp.Base.{
  ℕ, ◌+◌, ◌%◌, ◌^◌, ◌≡◌, ◌≢◌, ◌≤◌, inl, inr, refl, sym, ap, ◌∙◌, subst, Bool, true, false, not,
  ◌&&◌, ◌||◌, List, [], ◌∷◌, ◌++◌, append_assoc, append-nil, All, All-append, length, ltb, ◌==◌,
  if◌then◌else◌, Bool-cases, le→ltb, arith,
}
use crowdy_cpp.Base.Int.{ℤ, pos, ltbℤ}
use crowdy_cpp.Core.Le.{Bytes}
use crowdy_cpp.Core.Result.{Errc, Status, is_ok}
use crowdy_cpp.Wire.Bundle.{BundleWriter, fits, append, datagram}
use crowdy_cpp.Wire.Bundle.Writer.{IsMember, Holds, reset-Holds, append-Holds, sent, datagram-Holds}
use crowdy_cpp.Replication.Sender.{
  max_bundle_member_size, Sender, sent_at, count_message_sent, is_empty, bundle_expired, flushed,
  sent_alone, joined, opened, join_bundle, after_flush, send_datagram, flush_bundle, transmit,
}

-- The messages of one datagram, and whether the socket took it or lost it.
abbrev pub Group : Type 0
Group = Bool × List Bytes

abbrev pub messages_in : List Group → List Bytes
messages_in [] = []
messages_in ((took, ms) ∷ groups) = ms ++ messages_in groups

abbrev pub datagrams_of : List Group → List Bytes
datagrams_of [] = []
datagrams_of ((true, ms) ∷ groups) = sent ms ∷ datagrams_of groups
datagrams_of ((false, ms) ∷ groups) = datagrams_of groups

abbrev pub lost_in : List Group → ℕ
lost_in [] = 0
lost_in ((true, ms) ∷ groups) = lost_in groups
lost_in ((false, ms) ∷ groups) = length ms + lost_in groups

-- A datagram's messages fit in a bundle, and there is one at least.
abbrev pub IsGroup : Group → Type 0
IsGroup (took, ms) = All IsMember ms × (length ms ≢ 0)

-- The messages taken after a send that answers with this status.
abbrev pub taken_by : List Bytes → Bytes → Status → List Bytes
taken_by taken m st = if is_ok st then taken ++ (m ∷ []) else taken

-- The messages `taken` are, in order, those of the datagrams that left or were lost, and those in the
-- pending bundle.
pub record Accounts {S : Type 0} (s : Sender S) (taken : List Bytes) : Type 0 where
  pub groups : List Group
  pub pending : List Bytes
  pub out : Bytes
  pub size : length out ≡ 1232
  pub holds : Holds out s.bundle pending
  pub bundling : s.bundle_sends ≡ true
  pub in_order : taken ≡ messages_in groups ++ pending
  pub on_wire : s.wire ≡ datagrams_of groups
  pub dropped : s.messages_dropped ≡ lost_in groups % 2 ^ 64
  pub whole : All IsGroup groups

messages_in-append :
    (xs ys : List Group) → messages_in (xs ++ ys) ≡ messages_in xs ++ messages_in ys
messages_in-append [] ys = refl
messages_in-append ((took, ms) ∷ xs) ys =
    ap (λ r. ms ++ r) (messages_in-append xs ys)
    ∙ sym (append_assoc ms (messages_in xs) (messages_in ys))

datagrams_of-append :
    (xs ys : List Group) → datagrams_of (xs ++ ys) ≡ datagrams_of xs ++ datagrams_of ys
datagrams_of-append [] ys = refl
datagrams_of-append ((true, ms) ∷ xs) ys = ap (λ r. sent ms ∷ r) (datagrams_of-append xs ys)
datagrams_of-append ((false, ms) ∷ xs) ys = datagrams_of-append xs ys

lost_in-append : (xs ys : List Group) → lost_in (xs ++ ys) ≡ lost_in xs + lost_in ys
lost_in-append [] ys = omega arith
lost_in-append ((true, ms) ∷ xs) ys = lost_in-append xs ys
lost_in-append ((false, ms) ∷ xs) ys = omega (arith, lost_in-append xs ys)

-- One more datagram: its messages are no longer pending.
moved :
    (groups : List Group) (took : Bool) (pending taken : List Bytes)
    → taken ≡ messages_in groups ++ pending
    → taken ≡ messages_in (groups ++ (took, pending) ∷ []) ++ []
moved groups took pending taken e =
    e
    ∙ ap (λ r. messages_in groups ++ r) (sym (append-nil pending))
    ∙ sym (messages_in-append groups ((took, pending) ∷ []))
    ∙ sym (append-nil (messages_in (groups ++ (took, pending) ∷ [])))

buffer_size :
    {out : Bytes} {w : BundleWriter} {ms : List Bytes}
    → Holds out w ms
    → length out ≡ 1232
    → length w.buf ≡ 1232
buffer_size h size = h.laid.same_length ∙ size

module _ {S : Type 0} where
  -- A flush that the socket has answered.
  flushed-Accounts :
      (s : Sender S) (taken : List Bytes) (at : ℤ) (st : Status) (h : Accounts s taken)
      → s.bundle.count ≢ 0
      → Accounts (flushed s.bundle.count (sent_at s (datagram s.bundle) at st)).1 taken
  flushed-Accounts s taken at Errc.ok h some_pending = record {
    groups = h.groups ++ (true, h.pending) ∷ [];
    pending = [];
    out = s.bundle.buf;
    size = buffer_size h.holds h.size;
    holds = reset-Holds s.bundle (omega (arith, buffer_size h.holds h.size));
    bundling = h.bundling;
    in_order = moved h.groups true h.pending taken h.in_order;
    on_wire =
        ap (λ r. r ++ (datagram s.bundle ∷ [])) h.on_wire
        ∙ ap (λ d. datagrams_of h.groups ++ (d ∷ []))
            (datagram-Holds h.out s.bundle h.pending h.holds)
        ∙ sym (datagrams_of-append h.groups ((true, h.pending) ∷ []));
    dropped =
        h.dropped
        ∙ ap (λ n. n % 2 ^ 64) (omega (arith, lost_in-append h.groups ((true, h.pending) ∷ [])));
    whole =
        All-append IsGroup h.groups ((true, h.pending) ∷ []) h.whole
          ((h.holds.messages, omega (arith, some_pending, h.holds.count)), tt);
  }
  flushed-Accounts s taken at Errc.would_block h some_pending = record {
    groups = h.groups;
    pending = h.pending;
    out = h.out;
    size = h.size;
    holds = h.holds;
    bundling = h.bundling;
    in_order = h.in_order;
    on_wire = h.on_wire;
    dropped = h.dropped;
    whole = h.whole;
  }
  flushed-Accounts s taken at c h some_pending = record {
    groups = h.groups ++ (false, h.pending) ∷ [];
    pending = [];
    out = s.bundle.buf;
    size = buffer_size h.holds h.size;
    holds = reset-Holds s.bundle (omega (arith, buffer_size h.holds h.size));
    bundling = h.bundling;
    in_order = moved h.groups false h.pending taken h.in_order;
    on_wire =
        h.on_wire
        ∙ sym (append-nil (datagrams_of h.groups))
        ∙ sym (datagrams_of-append h.groups ((false, h.pending) ∷ []));
    dropped =
        omega (arith, h.dropped, h.holds.count, lost_in-append h.groups ((false, h.pending) ∷ []));
    whole =
        All-append IsGroup h.groups ((false, h.pending) ∷ []) h.whole
          ((h.holds.messages, omega (arith, some_pending, h.holds.count)), tt);
  }

  -- What a send leaves is accounted for.
  abbrev pub Sends : List Bytes → Bytes → Status × Sender S → Type 0
  Sends taken m (st, s) = Accounts s (taken_by taken m st)

  opened-Accounts :
      (s : Sender S) (now : ℤ) (taken : List Bytes)
      → Accounts s taken
      → (h : Accounts (opened s now) taken) × ((opened s now).bundle ≡ s.bundle)
  opened-Accounts s now taken h = elim (Bool-cases (is_empty s)) [
    | inr full ↦ rw (full) (h, refl)
    | inl first ↦ rw (first) (
      record {
        groups = h.groups;
        pending = h.pending;
        out = h.out;
        size = h.size;
        holds = h.holds;
        bundling = h.bundling;
        in_order = h.in_order;
        on_wire = h.on_wire;
        dropped = h.dropped;
        whole = h.whole;
      },
      refl,
    )
  ]

  joined-Sends :
      (s : Sender S) (taken : List Bytes) (m : Bytes) (r : Bool × BundleWriter)
      → r ≡ append s.bundle m
      → Accounts s taken
      → Sends taken m (joined s m r)
  unfolding count_message_sent
  joined-Sends s taken m (false, w) e h = h
  joined-Sends s taken m (true, w) e h = elim (append-Holds h.out s.bundle h.pending m h.holds) [
    | inr (refused, _) ↦ absurd (cc (ap (λ r. r.0) e, refused))
    | inl (_, holds) ↦ record {
      groups = h.groups;
      pending = h.pending ++ (m ∷ []);
      out = h.out;
      size = h.size;
      holds = subst (λ v. Holds h.out v (h.pending ++ (m ∷ []))) (ap (λ r. r.1) (sym e)) holds;
      bundling = h.bundling;
      in_order =
          ap (λ r. r ++ (m ∷ [])) h.in_order
          ∙ append_assoc (messages_in h.groups) h.pending (m ∷ []);
      on_wire = h.on_wire;
      dropped = h.dropped;
      whole = h.whole;
    }
  ]

  join_bundle-Sends :
      (s : Sender S) (now : ℤ) (taken : List Bytes) (m : Bytes)
      → Accounts s taken
      → Sends taken m (join_bundle s now m)
  unfolding join_bundle
  join_bundle-Sends s now taken m h =
      let (h', same) = opened-Accounts s now taken h in
      joined-Sends (opened s now) taken m (append s.bundle m) (ap (λ w. append w m) (sym same)) h'

  after_flush-Sends :
      (now : ℤ) (taken : List Bytes) (m : Bytes) (r : Status × Sender S)
      → Accounts r.1 taken
      → Sends taken m (after_flush now m r)
  after_flush-Sends now taken m (st, s) h = elim (Bool-cases (is_ok st)) [
    | inl fine ↦ rw (fine) (join_bundle-Sends s now taken m h)
    | inr failed ↦ elim (Bool-cases (fits s.bundle (length m))) [
      | inl room ↦ rw (failed, room) (join_bundle-Sends s now taken m h)
      | inr stuck ↦ rw (failed, stuck) (rw (failed) h)
    ]
  ]

module _ {S : Type 0} (socket_send : S → Bytes → (Status × ℤ) × S) where
  with_socket-Accounts :
      (s : Sender S) (socket : S) (taken : List Bytes)
      → Accounts s taken
      → Accounts (record s { socket = socket }) taken
  with_socket-Accounts s socket taken h = record {
    groups = h.groups;
    pending = h.pending;
    out = h.out;
    size = h.size;
    holds = h.holds;
    bundling = h.bundling;
    in_order = h.in_order;
    on_wire = h.on_wire;
    dropped = h.dropped;
    whole = h.whole;
  }

  pub flush_bundle-Accounts :
      (s : Sender S) (taken : List Bytes)
      → Accounts s taken
      → Accounts (flush_bundle socket_send s).1 taken
  unfolding flush_bundle send_datagram
  flush_bundle-Accounts s taken h = elim (Bool-cases (is_empty s)) [
    | inl nothing ↦ rw (nothing) h
    | inr some_pending ↦
        let ((st, at), socket) = socket_send s.socket (datagram s.bundle) in
        rw (some_pending) (
          flushed-Accounts (record s { socket = socket }) taken at st
            (with_socket-Accounts s socket taken h) (nonzero s.bundle.count some_pending))
  ]
    where
      nonzero : (n : ℕ) → (n == 0) ≡ false → n ≢ 0
      nonzero n e = ground (arith, e)

-- The branches of a send that bundles.
transmit_branches :
    {R : Type 0} (P : R → Type 0) (refused alone oversize flushes joins : R)
    (nothing bundling big due : Bool)
    → bundling ≡ true
    → big ≡ false
    → P refused
    → P flushes
    → P joins
    → P (
        if nothing
        then refused
        else if not bundling
        then alone
        else if big
        then oversize
        else if due
        then flushes
        else joins)
transmit_branches P refused alone oversize flushes joins true bundling big due on small p q r = p
transmit_branches P refused alone oversize flushes joins false true false true on small p q r = q
transmit_branches P refused alone oversize flushes joins false true false false on small p q r = r
transmit_branches P refused alone oversize flushes joins false false big due on small p q r =
    absurd (cc (on))
transmit_branches P refused alone oversize flushes joins false true true due on small p q r =
    absurd (cc (small))

module _ {S : Type 0} (socket_send : S → Bytes → (Status × ℤ) × S) where
  -- A message that may travel in a bundle.
  pub transmit-Sends :
      (s : Sender S) (now : ℤ) (taken : List Bytes) (m : Bytes)
      → length m ≤ max_bundle_member_size
      → Accounts s taken
      → Sends taken m (transmit socket_send s now m)
  unfolding transmit
  transmit-Sends s now taken m small h =
      let expired = ltbℤ (pos 0) s.bundle_window_ms && bundle_expired s now in
      transmit_branches (Sends taken m) (Errc.invalid_argument, s)
        (sent_alone m (send_datagram socket_send s m))
        (sent_alone m
          (send_datagram socket_send (if is_empty s then s else (flush_bundle socket_send s).1) m))
        (after_flush now m (flush_bundle socket_send s)) (join_bundle s now m) (length m == 0)
        s.bundle_sends (ltb max_bundle_member_size (length m))
        (not (is_empty s) && (expired || not (fits s.bundle (length m)))) h.bundling
        (le→ltb max_bundle_member_size (length m) small) h
        (after_flush-Sends now taken m (flush_bundle socket_send s)
          (flush_bundle-Accounts socket_send s taken h))
        (join_bundle-Sends s now taken m h)
