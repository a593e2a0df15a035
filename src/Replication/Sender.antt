-- ===== src/Replication/Sender.antt =====
-- The send path of src/replication/connection.cpp: a message joins the pending bundle, or leaves in
-- a datagram of its own. The socket is a parameter: `socket_send` answers a datagram with a status
-- and the clock's reading after it. The locks and the wake-up of the network thread are left out.
pub mod Flow
pub mod Delivered
use crowdy_cpp.Base.{
  ℕ, ◌+◌, ◌-◌, ◌%◌, ◌^◌, Bool, true, false, not, ◌&&◌, ◌||◌, List, [], ◌∷◌, ◌++◌, length, set,
  get_or, replicate, ltb, ◌==◌, if◌then◌else◌,
}
use crowdy_cpp.Base.Int.{ℤ, pos, ltbℤ, lebℤ, ◌+ℤ◌, ◌-ℤ◌}
use crowdy_cpp.Core.Le.{Bytes}
use crowdy_cpp.Core.Result.{Errc, Status, is_ok}
use crowdy_cpp.Wire.Protocol.{max_datagram_size}
use crowdy_cpp.Wire.Bundle.{
  bundle_header_size, bundle_length_prefix, BundleWriter, reset, bundle_writer, fits, append,
  datagram,
}

abbrev pub max_bundle_member_size : ℕ
max_bundle_member_size = max_datagram_size - bundle_header_size - bundle_length_prefix

-- The fields of the connection that its send path uses, those of `Stats` included. `wire` are the
-- datagrams that the socket took, in order.
pub record Sender (S : Type 0) : Type 0 where
  pub bundle_sends : Bool
  pub bundle_window_ms : ℤ
  pub bundle : BundleWriter
  pub bundle_opened_ms : ℤ
  pub last_send_ms : ℤ
  pub datagrams_sent : ℕ
  pub bytes_sent : ℕ
  pub bundles_sent : ℕ
  pub sends_deferred : ℕ
  pub sends_failed : ℕ
  pub messages_sent : ℕ
  pub messages_dropped : ℕ
  pub messages_sent_by_type : List ℕ
  pub socket : S
  pub wire : List Bytes

-- A counter of 64 bits after `n` more.
abbrev pub count_by : ℕ → ℕ → ℕ
count_by counter n = (counter + n) % 2 ^ 64

module _ {S : Type 0} where
  -- A connection that has sent nothing, with its buffer for bundles.
  pub sender : Bool → ℤ → Bytes → S → Sender S
  sender bundle_sends bundle_window_ms buffer socket = record {
    bundle_sends = bundle_sends;
    bundle_window_ms = bundle_window_ms;
    bundle = bundle_writer buffer;
    bundle_opened_ms = pos 0;
    last_send_ms = pos 0;
    datagrams_sent = 0;
    bytes_sent = 0;
    bundles_sent = 0;
    sends_deferred = 0;
    sends_failed = 0;
    messages_sent = 0;
    messages_dropped = 0;
    messages_sent_by_type = replicate 256 0;
    socket = socket;
    wire = [];
  }

  -- `sendDatagram` once the socket has answered at the time `at`.
  abbrev pub sent_at : Sender S → Bytes → ℤ → Status → Status × Sender S
  sent_at s d at Errc.ok = (
    Errc.ok,
    record s {
      last_send_ms = at;
      datagrams_sent = count_by s.datagrams_sent 1;
      bytes_sent = count_by s.bytes_sent (length d);
      wire = s.wire ++ (d ∷ []);
    },
  )
  sent_at s d at Errc.would_block =
      (Errc.would_block, record s { sends_deferred = count_by s.sends_deferred 1 })
  sent_at s d at code = (code, record s { sends_failed = count_by s.sends_failed 1 })

  pub count_message_sent : Sender S → ℕ → Sender S
  count_message_sent s type = record s {
    messages_sent = count_by s.messages_sent 1;
    messages_sent_by_type =
        set s.messages_sent_by_type type (count_by (get_or s.messages_sent_by_type type 0) 1);
  }

  -- `bundle_.empty()`
  abbrev pub is_empty : Sender S → Bool
  is_empty s = s.bundle.count == 0

  -- `nowMono - bundleOpenedMs_ >= bundleWindowMs`
  pub bundle_expired : Sender S → ℤ → Bool
  bundle_expired s now = lebℤ s.bundle_window_ms (now -ℤ s.bundle_opened_ms)

  -- `flushBundleLocked` once the datagram of `n` messages is sent: a bundle that was deferred stays.
  abbrev pub flushed : ℕ → Status × Sender S → Status × Sender S
  flushed n (Errc.ok, s) = (
    Errc.ok,
    record s {
      bundles_sent = if ltb 1 n then count_by s.bundles_sent 1 else s.bundles_sent;
      bundle = reset s.bundle;
    },
  )
  flushed n (Errc.would_block, s) = (Errc.would_block, s)
  flushed n (code, s) =
      (code, record s { messages_dropped = count_by s.messages_dropped n; bundle = reset s.bundle })

  -- A message that leaves in a datagram of its own counts once it is sent.
  abbrev pub sent_alone : Bytes → Status × Sender S → Status × Sender S
  sent_alone m (st, s) = (st, if is_ok st then count_message_sent s (get_or m 0 0) else s)

  -- The message joins the bundle, which opens if it was empty.
  abbrev pub joined : Sender S → Bytes → Bool × BundleWriter → Status × Sender S
  joined s m (true, w) = (Errc.ok, count_message_sent (record s { bundle = w }) (get_or m 0 0))
  joined s m (false, w) = (Errc.invalid_argument, s)

  abbrev pub opened : Sender S → ℤ → Sender S
  opened s now = if is_empty s then record s { bundle_opened_ms = now } else s

  pub join_bundle : Sender S → ℤ → Bytes → Status × Sender S
  join_bundle s now m = joined (opened s now) m (append s.bundle m)

  -- After the flush that made room, or did not.
  abbrev pub after_flush : ℤ → Bytes → Status × Sender S → Status × Sender S
  after_flush now m (st, s) =
      if not (is_ok st) && not (fits s.bundle (length m)) then (st, s) else join_bundle s now m

module _ {S : Type 0} (socket_send : S → Bytes → (Status × ℤ) × S) where
  pub send_datagram : Sender S → Bytes → Status × Sender S
  send_datagram s d =
      let ((st, at), socket') = socket_send s.socket d in
      sent_at (record s { socket = socket' }) d at st

  pub flush_bundle : Sender S → Status × Sender S
  unfolding send_datagram
  flush_bundle s =
      if is_empty s
      then (Errc.ok, s)
      else flushed s.bundle.count (send_datagram s (datagram s.bundle))

  pub transmit : Sender S → ℤ → Bytes → Status × Sender S
  unfolding send_datagram flush_bundle join_bundle bundle_expired
  transmit s now m =
      let expired = ltbℤ (pos 0) s.bundle_window_ms && bundle_expired s now in
      if length m == 0
      then (Errc.invalid_argument, s)
      else if not s.bundle_sends
      then sent_alone m (send_datagram s m)
      else if ltb max_bundle_member_size (length m)
      then sent_alone m (send_datagram (if is_empty s then s else (flush_bundle s).1) m)
      else if not (is_empty s) && (expired || not (fits s.bundle (length m)))
      then after_flush now m (flush_bundle s)
      else join_bundle s now m

  pub flush_expired_bundle : Sender S → ℤ → Sender S
  unfolding flush_bundle bundle_expired
  flush_expired_bundle s now =
      if s.bundle_sends && (not (is_empty s) && bundle_expired s now) then (flush_bundle s).1 else s

  pub flush_sends : Sender S → Status × Sender S
  unfolding flush_bundle
  flush_sends s = if not s.bundle_sends then (Errc.ok, s) else flush_bundle s

-- How long the network thread may wait for a datagram.
pub receive_wait_ms : {S : Type 0} → Sender S → Bool → ℤ → ℤ → ℤ
receive_wait_ms s can_wake now max_wait_ms =
    let window = if ltbℤ (pos 0) s.bundle_window_ms then s.bundle_window_ms else pos 1 in
    let remaining = (s.bundle_opened_ms +ℤ s.bundle_window_ms) -ℤ now in
    if not s.bundle_sends
    then max_wait_ms
    else if is_empty s
    then (if can_wake then max_wait_ms else if ltbℤ window max_wait_ms then window else max_wait_ms)
    else if lebℤ remaining (pos 0)
    then pos 0
    else if ltbℤ remaining max_wait_ms
    then remaining
    else max_wait_ms
