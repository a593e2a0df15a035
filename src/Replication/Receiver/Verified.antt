-- ===== src/Replication/Receiver/Verified.antt =====
-- The receive path of src/replication/connection.cpp: what the events of the ring are known to be.
use crowdy_cpp.Base.{
  ℕ, ◌⊎◌, inl, inr, Bool-cases, ◌&&◌, arith, length, ◌==◌, if◌then◌else◌, ◌+◌, ◌≡◌, refl, sym, ap,
  subst, Bool, true, false, not, Option, some, List, [], ◌∷◌, if_both, ◌%◌, ◌^◌, ◌∙◌,
}
use crowdy_cpp.Base.Int.{ℤ}
use crowdy_cpp.Core.Le.{Bytes}
use crowdy_cpp.Core.Result.{Status, is_ok}
use crowdy_cpp.Core.Crypto.{ICrypto, IMac}
use crowdy_cpp.Wire.MessageType
use crowdy_cpp.Wire.Hmac.{Token64}
use crowdy_cpp.Wire.Control.{verify_command_reconnect, verify_signed_bundle}
use crowdy_cpp.Wire.Bundle.{for_each_message}
use crowdy_cpp.Wire.Bundle.Delivery.{for_each_message_total}
use crowdy_cpp.Replication.Receiver.{
  Receiver, count_by, Verdict, ignored, broken, forged, accepted, notified, classify,
  handle_verdict, signal_events, handle_messages, finish, handle_walk, with_datagram,
  handle_reconnect, handle_signed, handle_datagram,
}
use crowdy_cpp.Replication.Receiver.Genuine.{
  IsSound, IsJust, Agrees-IsSound, enqueue-IsSound, classify-IsJust,
}

module _ (crypto : ICrypto) (verifies : Bool) (token : Token64) (mac : Option IMac) where
  handle_verdict-IsSound :
      {asked : Bool} (r : Receiver) (m : Bytes) (q : Bool) (v : Verdict)
      → IsJust crypto verifies token mac v
      → IsSound crypto verifies token mac asked r
      → IsSound crypto verifies token mac asked (handle_verdict r m q v).0
  handle_verdict-IsSound r m q ignored j h = h
  handle_verdict-IsSound r m q broken j h =
      Agrees-IsSound crypto verifies token mac r (record r { malformed = count_by r.malformed 1 })
        (refl, refl, refl, refl, refl, refl, refl) h
  handle_verdict-IsSound r m q forged j h =
      Agrees-IsSound crypto verifies token mac r
        (record r { hmac_failures = count_by r.hmac_failures 1 })
        (refl, refl, refl, refl, refl, refl, refl) h
  handle_verdict-IsSound r m q (accepted e) (is, g) h =
      enqueue-IsSound crypto verifies token mac r m e q is g h
  handle_verdict-IsSound r m q (notified e epoch) (is, g) h =
      let r' : Receiver = record r { last_server_epoch_ms = epoch } in
      enqueue-IsSound crypto verifies token mac r' m e q is g
        (Agrees-IsSound crypto verifies token mac r r' (refl, refl, refl, refl, refl, refl, refl) h)

  handle_messages-IsSound :
      {asked : Bool} (ms : List Bytes) (rq : Receiver × Bool)
      → IsSound crypto verifies token mac asked rq.0
      → IsSound crypto verifies token mac asked (handle_messages crypto ms rq).0
  unfolding handle_messages
  handle_messages-IsSound [] rq h = h
  handle_messages-IsSound (m ∷ ms) (r, q) h =
      handle_messages-IsSound ms (handle_verdict r m q (classify crypto r m)) (
        handle_verdict-IsSound r m q (classify crypto r m)
          (classify-IsJust crypto verifies token mac r m h) h)

  signal_events-IsSound :
      (asked : Bool) (r : Receiver)
      → IsSound crypto verifies token mac asked r
      → IsSound crypto verifies token mac asked (signal_events r)
  unfolding signal_events
  signal_events-IsSound asked r h =
      let told : Receiver = record r { events_signalled = true; signals = r.signals + 1 } in
      if_both (IsSound crypto verifies token mac asked) (not r.has_ready_callback) r
        (if r.events_signalled then r else told) h
        (if_both (IsSound crypto verifies token mac asked) r.events_signalled r told h (
          Agrees-IsSound crypto verifies token mac r told (refl, refl, refl, refl, refl, refl, refl)
            h))

  finish-IsSound :
      (asked : Bool) (rq : Receiver × Bool) (st : Status)
      → IsSound crypto verifies token mac asked rq.0
      → IsSound crypto verifies token mac asked (finish crypto rq st)
  finish-IsSound asked (r, q) st h =
      let bad : Receiver = record r { malformed = count_by r.malformed 1 } in
      let r' : Receiver = if is_ok st then r else bad in
      let h' : IsSound crypto verifies token mac asked r' =
        if_both (IsSound crypto verifies token mac asked) (is_ok st) r bad h (
          Agrees-IsSound crypto verifies token mac r bad (refl, refl, refl, refl, refl, refl, refl)
            h) in
      if_both (IsSound crypto verifies token mac asked) q (signal_events r') r'
        (signal_events-IsSound asked r' h') h'

  -- A call that returns, and keeps the receiver sound.
  abbrev pub Keeps : Bool → Option Receiver → Type 0
  Keeps asked o = (r : Receiver) × (o ≡ some r) × IsSound crypto verifies token mac asked r

  handle_walk-Keeps :
      (asked : Bool) (r : Receiver) (d : Bytes)
      → IsSound crypto verifies token mac asked r
      → Keeps asked (handle_walk crypto r (for_each_message d))
  handle_walk-Keeps asked r d h =
      let ((ms, st), walked) = for_each_message_total d in
      (
        finish crypto (handle_messages crypto ms (r, false)) st,
        ap (handle_walk crypto r) walked,
        finish-IsSound asked (handle_messages crypto ms (r, false)) st
            (handle_messages-IsSound ms (r, false) h),
      )

  handle_signed-Keeps :
      (asked : Bool) (r : Receiver) (d : Bytes)
      → IsSound crypto verifies token mac asked r
      → Keeps asked (handle_signed crypto r d)
  unfolding handle_signed
  handle_signed-Keeps asked r d h =
      let r' : Receiver = record r {
        signed_bundles_received = count_by r.signed_bundles_received 1;
      } in
      let bad : Receiver = record r' { hmac_failures = count_by r'.hmac_failures 1 } in
      if_both (Keeps asked) (not (is_ok (verify_signed_bundle crypto d r.token r.mac))) (some bad)
        (handle_walk crypto r' (for_each_message d))
        (
          bad,
          refl,
          Agrees-IsSound crypto verifies token mac r bad (refl, refl, refl, refl, refl, refl, refl)
              h,
        )
        (handle_walk-Keeps asked r' d (
          Agrees-IsSound crypto verifies token mac r r' (refl, refl, refl, refl, refl, refl, refl)
            h))

  -- Whether a new assignment is asked for once the datagram `d` is handled: a reconnect command asks
  -- when its HMAC is that of the token, and no other datagram does.
  abbrev pub asked_by : Bool → Bytes → Bool
  asked_by asked [] = asked
  asked_by asked (type ∷ rest) =
      if type == MessageType.command_reconnect
      then (if is_ok (verify_command_reconnect crypto (type ∷ rest) token) then true else asked)
      else asked

  handle_reconnect-IsSound :
      (asked : Bool) (r : Receiver) (d : Bytes)
      → IsSound crypto verifies token mac asked r
      → IsSound crypto verifies token mac
          (if is_ok (verify_command_reconnect crypto d token) then true else asked)
          (handle_reconnect crypto r d)
  unfolding handle_reconnect
  handle_reconnect-IsSound asked r d h =
      let good : Receiver = record r { reconnect_requested = true } in
      let bad : Receiver = record r { hmac_failures = count_by r.hmac_failures 1 } in
      subst
        (λ k.
          IsSound crypto verifies token mac
            (if is_ok (verify_command_reconnect crypto d token) then true else asked)
            (if is_ok (verify_command_reconnect crypto d k) then good else bad))
        (sym h.keyed)
        (both (is_ok (verify_command_reconnect crypto d token)) good bad
          (record {
            verifying = h.verifying;
            keyed = h.keyed;
            mac_is = h.mac_is;
            genuine = h.genuine;
            counted = h.counted;
            requested = refl;
          })
          (Agrees-IsSound crypto verifies token mac r bad (refl, refl, refl, refl, refl, refl, refl)
            h))
    where
      both :
          (b : Bool) (x y : Receiver)
          → IsSound crypto verifies token mac true x
          → IsSound crypto verifies token mac asked y
          → IsSound crypto verifies token mac (if b then true else asked) (if b then x else y)
      both true x y p q = p
      both false x y p q = q

  handle_datagram-Keeps :
      (asked : Bool) (r : Receiver) (d : Bytes) (now : ℤ)
      → IsSound crypto verifies token mac asked r
      → Keeps (asked_by asked d) (handle_datagram crypto r d now)
  unfolding handle_datagram
  handle_datagram-Keeps asked r [] now h =
      handle_walk-Keeps asked (with_datagram crypto r [] now) [] (
        Agrees-IsSound crypto verifies token mac r (with_datagram crypto r [] now)
          (refl, refl, refl, refl, refl, refl, refl) h)
  handle_datagram-Keeps asked r (type ∷ rest) now h =
      let d : Bytes = type ∷ rest in
      let r' : Receiver = with_datagram crypto r d now in
      let h' : IsSound crypto verifies token mac asked r' =
        Agrees-IsSound crypto verifies token mac r r' (refl, refl, refl, refl, refl, refl, refl)
          h in
      branches (type == MessageType.command_reconnect) (type == MessageType.message_bundle_signed)
        (is_ok (verify_command_reconnect crypto d token)) (handle_reconnect crypto r' d)
        (handle_signed crypto r' d) (handle_walk crypto r' (for_each_message d))
        (handle_reconnect-IsSound asked r' d h') (handle_signed-Keeps asked r' d h')
        (handle_walk-Keeps asked r' d h')
    where
      branches :
          (command signed good : Bool) (x : Receiver) (y z : Option Receiver)
          → IsSound crypto verifies token mac (if good then true else asked) x
          → Keeps asked y
          → Keeps asked z
          → Keeps
              (if command then (if good then true else asked) else asked)
              (if command then some x else if signed then y else z)
      branches true signed good x y z p q k = (x, refl, p)
      branches false true good x y z p q k = q
      branches false false good x y z p q k = k

  -- A signed bundle whose tag is not that of the token over its bytes.
  abbrev pub is_forged : Bytes → Bool
  is_forged [] = false
  is_forged (type ∷ rest) =
      (type == MessageType.message_bundle_signed)
      && not (is_ok (verify_signed_bundle crypto (type ∷ rest) token mac))

  -- The receiver after a forged bundle: the datagram, the bundle and the failure are counted.
  abbrev pub refused : Receiver → Bytes → ℤ → Receiver
  refused r d now = record r {
    datagrams_received = (r.datagrams_received + 1) % 2 ^ 64;
    bytes_received = (r.bytes_received + length d) % 2 ^ 64;
    last_recv_ms = now;
    signed_bundles_received = (r.signed_bundles_received + 1) % 2 ^ 64;
    hmac_failures = (r.hmac_failures + 1) % 2 ^ 64;
  }

  handle_signed-refused :
      (asked : Bool) (r : Receiver) (d : Bytes)
      → IsSound crypto verifies token mac asked r
      → is_ok (verify_signed_bundle crypto d token mac) ≡ false
      → let r' = record r {
        signed_bundles_received = (r.signed_bundles_received + 1) % 2 ^ 64;
        hmac_failures = (r.hmac_failures + 1) % 2 ^ 64;
      } in
        handle_signed crypto r d ≡ some r'
  unfolding handle_signed
  handle_signed-refused asked r d h bad_tag =
      let same : verify_signed_bundle crypto d r.token r.mac
          ≡ verify_signed_bundle crypto d token mac =
        ap (λ k. verify_signed_bundle crypto d k r.mac) h.keyed
        ∙ ap (λ k. verify_signed_bundle crypto d token k) h.mac_is in
      let counted : Receiver = record r {
        signed_bundles_received = (r.signed_bundles_received + 1) % 2 ^ 64;
      } in
      ap
        (λ b.
          if not b
          then some (record counted { hmac_failures = (r.hmac_failures + 1) % 2 ^ 64 })
          else handle_walk crypto counted (for_each_message d))
        (ap is_ok same ∙ bad_tag)

  is_bundle :
      (type : ℕ) (good : Bool)
      → ((type == MessageType.message_bundle_signed) && not good) ≡ true
      → (type ≡ MessageType.message_bundle_signed) × (good ≡ false)
  is_bundle type good e = ground (arith, e)

  handle_datagram-refused :
      (asked : Bool) (r : Receiver) (d : Bytes) (now : ℤ)
      → IsSound crypto verifies token mac asked r
      → is_forged d ≡ true
      → handle_datagram crypto r d now ≡ some (refused r d now)
  unfolding handle_datagram
  handle_datagram-refused asked r [] now h e = absurd (cc e)
  handle_datagram-refused asked r (type ∷ rest) now h e =
      let d : Bytes = type ∷ rest in
      let r' : Receiver = with_datagram crypto r d now in
      ap
        (λ t.
          if t == MessageType.command_reconnect
          then some (handle_reconnect crypto r' d)
          else if t == MessageType.message_bundle_signed
          then handle_signed crypto r' d
          else handle_walk crypto r' (for_each_message d))
        (is_bundle type (is_ok (verify_signed_bundle crypto d token mac)) e).0
      ∙ handle_signed-refused asked r' d
          (Agrees-IsSound crypto verifies token mac r r' (refl, refl, refl, refl, refl, refl, refl)
            h)
          (is_bundle type (is_ok (verify_signed_bundle crypto d token mac)) e).1

  -- Any datagram is handled to its end, with any clock reading, and keeps what is known of the
  -- events that the ring took: each parses as its kind; each spatial one, if notifications are
  -- verified, is one that verifyLongSpatial accepts, which checks the HMAC of a message that carries
  -- one; and the messages received are those that the ring took or that it had no room for, modulo
  -- 2^64. A new assignment is then asked for if it was before, or if the datagram is a reconnect
  -- command with the HMAC of the token; no other datagram asks for one. Of a signed bundle that does
  -- not verify under the token no message is handled, and only its counters, a failure among them,
  -- and the time of the last datagram change.
  pub handle_datagram-IsSound :
      (asked : Bool) (r : Receiver) (d : Bytes) (now : ℤ)
      → IsSound crypto verifies token mac asked r
      → Keeps (asked_by asked d) (handle_datagram crypto r d now)
        × ((is_forged d ≡ false) ⊎ (handle_datagram crypto r d now ≡ some (refused r d now)))
  handle_datagram-IsSound asked r d now h = (
    handle_datagram-Keeps asked r d now h,
    elim (Bool-cases (is_forged d)) [
      | inl bad_tag ↦ inr (handle_datagram-refused asked r d now h bad_tag)
      | inr other ↦ inl other
    ],
  )
