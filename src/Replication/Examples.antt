-- ===== src/Replication/Examples.antt =====
-- Concrete runs of the send and the receive path of src/replication/connection.cpp.
use crowdy_cpp.Base.{
  some, ◌≡◌, ◌⊎◌, ℕ, zero, suc, refl, true, false, none, [], ◌∷◌, List, length-replicate, replicate,
  arith,
}
use crowdy_cpp.Base.Int.{ℤ, pos}
use crowdy_cpp.Core.Le.{Bytes}
use crowdy_cpp.Core.Result.{Errc, Status}
use crowdy_cpp.Core.Crypto.{unavailable_crypto}
use crowdy_cpp.Replication.Sender.{sender}
use crowdy_cpp.Replication.Sender.Delivered
use crowdy_cpp.Replication.Sender.Delivered.{
  SendCall, transmit_call, flush_expired_call, flush_call, IsConserved, run-IsConserved,
}
use crowdy_cpp.Replication.Receiver.{idle, status_event, Receiver, handle_datagram}
use crowdy_cpp.Replication.Receiver.Verified.{
  Keeps, asked_by, is_forged, refused, handle_datagram-IsSound,
}

-- A socket that defers its first datagram, and takes the others.
abbrev busy_once : ℕ → Bytes → (Status × ℤ) × ℕ
busy_once zero d = ((Errc.would_block, pos 0), 1)
busy_once (suc n) d = ((Errc.ok, pos 9), 2)

abbrev send_calls : List SendCall
send_calls =
    flush_call
    ∷ transmit_call (pos 3) (130 ∷ 4 ∷ [])
    ∷ flush_expired_call (pos 2)
    ∷ transmit_call (pos 1) (128 ∷ 1 ∷ [])
    ∷ []

sends-IsConserved :
    IsConserved busy_once
      (Delivered.run busy_once send_calls (sender true (pos 1) (replicate 1232 0) 0)).0
      (Delivered.run busy_once send_calls (sender true (pos 1) (replicate 1232 0) 0)).1
sends-IsConserved =
    run-IsConserved busy_once send_calls (pos 1) (replicate 1232 0) 0
      (length-replicate {A = ℕ} 1232 0) (ground arith)

abbrev listening : Receiver
listening = record {
  verify_notifications = true;
  token = replicate 64 7;
  mac = none;
  ring = record { slots = λ i. status_event idle; mask = 3; head = 0; tail = 0 };
  has_ready_callback = true;
  events_signalled = false;
  signals = 0;
  reconnect_requested = false;
  last_recv_ms = pos 0;
  datagrams_received = 0;
  bytes_received = 0;
  messages_received = 0;
  hmac_failures = 0;
  signed_bundles_received = 0;
  malformed = 0;
  ring_dropped = 0;
  last_server_epoch_ms = pos 0;
  messages_received_by_type = replicate 256 0;
  queued = [];
}

-- A signed bundle with a message, of 35 bytes, which cannot verify without a provider.
abbrev forged_bundle : Bytes
forged_bundle = 30 ∷ 1 ∷ 0 ∷ replicate 32 0

forged_handled :
    Keeps unavailable_crypto true
      (replicate 64 7)
      none
      (asked_by unavailable_crypto true (replicate 64 7) none false forged_bundle)
      (handle_datagram unavailable_crypto listening forged_bundle (pos 40))
    × ((is_forged unavailable_crypto true (replicate 64 7) none forged_bundle ≡ false)
        ⊎ (handle_datagram unavailable_crypto listening forged_bundle (pos 40)
            ≡ some (
                refused unavailable_crypto true
                  (replicate 64 7)
                  none
                  listening
                  forged_bundle
                  (pos 40))))
forged_handled =
    handle_datagram-IsSound unavailable_crypto true (replicate 64 7) none false listening
      forged_bundle (pos 40)
      (record {
        verifying = refl;
        keyed = refl;
        mac_is = refl;
        genuine = tt;
        counted = refl;
        requested = refl;
      })
