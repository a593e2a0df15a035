-- ===== src/Replication/Receiver.antt =====
-- The receive path of src/replication/connection.cpp: datagrams become events in the ring. The crypto
-- provider is a parameter; the clock's readings are arguments.
pub mod Genuine
pub mod Verified
use crowdy_cpp.Base.{
  ℕ, ◌+◌, ◌%◌, ◌^◌, Bool, true, false, not, ◌&&◌, ◌||◌, Option, none, some, List, [], ◌∷◌, length,
  get_or, set, replicate, ltb, ◌==◌, if◌then◌else◌,
}
use crowdy_cpp.Base.Int.{ℤ, pos}
use crowdy_cpp.Core.Le.{Bytes}
use crowdy_cpp.Core.Result.{Status, is_ok, Result, value, error}
use crowdy_cpp.Core.Crypto.{ICrypto, IMac}
use crowdy_cpp.Core.Spsc.{SpscRing, try_push}
use crowdy_cpp.Wire.MessageType
use crowdy_cpp.Wire.Protocol.{max_datagram_size, is_long_spatial_layout}
use crowdy_cpp.Wire.Hmac.{Token64}
use crowdy_cpp.Wire.Spatial.{LongSpatialView, parse_long_spatial, verify_long_spatial}
use crowdy_cpp.Wire.Channel.{parse_channel_notification}
use crowdy_cpp.Wire.Control.{parse_generic_error, verify_command_reconnect, verify_signed_bundle}
use crowdy_cpp.Wire.Bundle.{Delivery, for_each_message}

pub data ConnState : Type 0 where
  idle connecting connected reconnecting failed closed : ConnState

-- An event of the ring, with the bytes of its message.
pub data Event : Type 0 where
  spatial_event channel_event error_event : Bytes → Event
  status_event : ConnState → Event

-- The fields of the connection that its receive path uses, those of `Stats` included. `queued` are
-- the events that the ring took, newest first, and `signals` counts the calls of `onEventsReady`.
pub record Receiver : Type 0 where
  pub verify_notifications : Bool
  pub token : Token64
  pub mac : Option IMac
  pub ring : SpscRing Event
  pub has_ready_callback : Bool
  pub events_signalled : Bool
  pub signals : ℕ
  pub reconnect_requested : Bool
  pub last_recv_ms : ℤ
  pub datagrams_received : ℕ
  pub bytes_received : ℕ
  pub messages_received : ℕ
  pub hmac_failures : ℕ
  pub signed_bundles_received : ℕ
  pub malformed : ℕ
  pub ring_dropped : ℕ
  pub last_server_epoch_ms : ℤ
  pub messages_received_by_type : List ℕ
  pub queued : List Event

-- A counter of 64 bits after `n` more.
abbrev pub count_by : ℕ → ℕ → ℕ
count_by counter n = (counter + n) % 2 ^ 64

-- What the callback of `forEachMessage` makes of a message, before the check of its size.
pub data Verdict : Type 0 where
  ignored broken forged : Verdict
  accepted : Event → Verdict
  notified : Event → ℤ → Verdict

abbrev pub error_verdict : Bytes → Bool → Verdict
error_verdict m true = accepted (error_event m)
error_verdict m false = broken

abbrev pub channel_verdict : Bytes → Bool → Verdict
channel_verdict m true = accepted (channel_event m)
channel_verdict m false = broken

abbrev pub parses {ℓ} : {A : Type ℓ} → Result A → Bool
parses (value _) = true
parses (error _) = false

module _ (crypto : ICrypto) where
  -- Once `parseLongSpatial` has answered.
  abbrev pub spatial_parsed : Receiver → Bytes → Result LongSpatialView → Verdict
  spatial_parsed r m (error _) = broken
  spatial_parsed r m (value v) =
      if r.verify_notifications && not (is_ok (verify_long_spatial crypto m r.token r.mac))
      then forged
      else notified (spatial_event m) v.epoch_millis_or_token_id

  pub classify : Receiver → Bytes → Verdict
  classify r [] = ignored
  classify r (type ∷ rest) =
      let m = type ∷ rest in
      if type == MessageType.generic_error
      then error_verdict m (parses (parse_generic_error m))
      else if type == MessageType.channel_message_notification
          || type == MessageType.channel_audio_notification
      then channel_verdict m (parses (parse_channel_notification m))
      else if type == MessageType.client_capabilities
      then ignored
      else if is_long_spatial_layout type
      then spatial_parsed r m (parse_long_spatial m)
      else ignored

-- The push of an event, with whether one was queued so far.
abbrev pub pushed : Receiver → Event → Bool → Bool × SpscRing Event → Receiver × Bool
pushed r e was_queued (true, ring) = (record r { ring = ring; queued = e ∷ r.queued }, true)
pushed r e was_queued (false, ring) =
    (record r { ring = ring; ring_dropped = count_by r.ring_dropped 1 }, was_queued)

-- The message counts as received.
abbrev pub with_received : Receiver → Bytes → Receiver
with_received r m = record r {
  messages_received = count_by r.messages_received 1;
  messages_received_by_type =
      set r.messages_received_by_type (get_or m 0 0)
        (count_by (get_or r.messages_received_by_type (get_or m 0 0) 0) 1);
}

pub enqueue : Receiver → Bytes → Event → Bool → Receiver × Bool
enqueue r m e was_queued =
    if ltb max_datagram_size (length m)
    then (record r { malformed = count_by r.malformed 1 }, was_queued)
    else pushed (with_received r m) e was_queued (try_push r.ring e)

-- The callback of `forEachMessage`.
abbrev pub handle_verdict : Receiver → Bytes → Bool → Verdict → Receiver × Bool
handle_verdict r m was_queued ignored = (r, was_queued)
handle_verdict r m was_queued broken = (record r { malformed = count_by r.malformed 1 }, was_queued)
handle_verdict r m was_queued forged =
    (record r { hmac_failures = count_by r.hmac_failures 1 }, was_queued)
handle_verdict r m was_queued (accepted e) = enqueue r m e was_queued
handle_verdict r m was_queued (notified e epoch) =
    enqueue (record r { last_server_epoch_ms = epoch }) m e was_queued

pub signal_events : Receiver → Receiver
signal_events r =
    if not r.has_ready_callback
    then r
    else if r.events_signalled
    then r
    else record r { events_signalled = true; signals = r.signals + 1 }

module _ (crypto : ICrypto) where
  pub handle_messages : List Bytes → Receiver × Bool → Receiver × Bool
  unfolding classify enqueue
  handle_messages [] rq = rq
  handle_messages (m ∷ ms) (r, was_queued) =
      handle_messages ms (handle_verdict r m was_queued (classify crypto r m))

  -- What follows the walk.
  abbrev pub finish : Receiver × Bool → Status → Receiver
  finish (r, was_queued) st =
      let r' = if is_ok st then r else record r { malformed = count_by r.malformed 1 } in
      if was_queued then signal_events r' else r'

  -- The messages of a datagram that is no reconnect command; `none` where the walk has no result.
  abbrev pub handle_walk : Receiver → Option Delivery → Option Receiver
  handle_walk r none = none
  handle_walk r (some (ms, st)) = some (finish (handle_messages ms (r, false)) st)

  abbrev pub with_datagram : Receiver → Bytes → ℤ → Receiver
  with_datagram r d now = record r {
    datagrams_received = count_by r.datagrams_received 1;
    bytes_received = count_by r.bytes_received (length d);
    last_recv_ms = now;
  }

  -- A `COMMAND_RECONNECT`.
  pub handle_reconnect : Receiver → Bytes → Receiver
  handle_reconnect r d =
      if is_ok (verify_command_reconnect crypto d r.token)
      then record r { reconnect_requested = true }
      else record r { hmac_failures = count_by r.hmac_failures 1 }

  pub handle_signed : Receiver → Bytes → Option Receiver
  unfolding handle_messages signal_events
  handle_signed r d =
      let r' = record r { signed_bundles_received = count_by r.signed_bundles_received 1 } in
      if not (is_ok (verify_signed_bundle crypto d r.token r.mac))
      then some (record r' { hmac_failures = count_by r'.hmac_failures 1 })
      else handle_walk r' (for_each_message d)

  pub handle_datagram : Receiver → Bytes → ℤ → Option Receiver
  unfolding handle_reconnect handle_signed handle_messages signal_events
  handle_datagram r0 [] now = handle_walk (with_datagram r0 [] now) (for_each_message [])
  handle_datagram r0 (type ∷ rest) now =
      let d = type ∷ rest in
      let r = with_datagram r0 d now in
      if type == MessageType.command_reconnect
      then some (handle_reconnect r d)
      else if type == MessageType.message_bundle_signed
      then handle_signed r d
      else handle_walk r (for_each_message d)
