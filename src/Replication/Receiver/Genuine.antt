-- ===== src/Replication/Receiver/Genuine.antt =====
-- The callback of handleDatagram in src/replication/connection.cpp: what it queues of a message is
-- what the message's kind says.
use crowdy_cpp.Base.{
  ◌⊎◌, ℕ, suc, ◌+◌, ◌%◌, ◌^◌, ◌≡◌, inl, inr, refl, sym, ap, ◌∙◌, subst, Bool, true, false, not,
  ◌&&◌, ◌||◌, Option, List, [], ◌∷◌, All, length, ltb, ◌==◌, if◌then◌else◌, Bool-cases, arith,
}
use crowdy_cpp.Core.Le.{Bytes}
use crowdy_cpp.Core.Result.{Errc, Status, is_ok, Result, value, error}
use crowdy_cpp.Core.Crypto.{ICrypto, IMac}
use crowdy_cpp.Core.Spsc.{SpscRing, try_push}
use crowdy_cpp.Wire.MessageType
use crowdy_cpp.Wire.Protocol.{max_datagram_size, is_long_spatial_layout}
use crowdy_cpp.Wire.Hmac.{Token64}
use crowdy_cpp.Wire.Spatial.{LongSpatialView, parse_long_spatial, verify_long_spatial}
use crowdy_cpp.Wire.Channel.{ChannelNotificationView, parse_channel_notification}
use crowdy_cpp.Wire.Control.{GenericErrorView, parse_generic_error}
use crowdy_cpp.Replication.Receiver.{
  Event, spatial_event, channel_event, error_event, status_event, Receiver, count_by, Verdict,
  ignored, forged, accepted, notified, error_verdict, channel_verdict, parses, spatial_parsed,
  classify, pushed, with_received, enqueue,
}

-- The number of events that stand for messages.
abbrev pub message_count : List Event → ℕ
message_count [] = 0
message_count (status_event _ ∷ es) = message_count es
message_count (_ ∷ es) = suc (message_count es)

abbrev IsMessage : Event → Type 0
IsMessage (status_event _) = ⊥
IsMessage _ = Unit {0}

message_count-IsMessage :
    (e : Event) (es : List Event) → IsMessage e → message_count (e ∷ es) ≡ suc (message_count es)
message_count-IsMessage (status_event st) es h = absurd h
message_count-IsMessage (spatial_event m) es h = refl
message_count-IsMessage (channel_event m) es h = refl
message_count-IsMessage (error_event m) es h = refl

module _ (crypto : ICrypto) (verifies : Bool) (token : Token64) (mac : Option IMac) where
  -- The message of an event parses as its kind; a spatial one, when notifications are verified, has
  -- passed the check of its HMAC.
  abbrev pub IsGenuine : Event → Type 0
  IsGenuine (spatial_event m) =
      (v : LongSpatialView) × (parse_long_spatial m ≡ value v)
      × ((verifies ≡ false) ⊎ (verify_long_spatial crypto m token mac ≡ Errc.ok))
  IsGenuine (channel_event m) =
      (v : ChannelNotificationView) × (parse_channel_notification m ≡ value v)
  IsGenuine (error_event m) = (v : GenericErrorView) × (parse_generic_error m ≡ value v)
  IsGenuine (status_event st) = Unit {0}

  -- A receiver with this configuration whose events are genuine, whose messages are counted and that
  -- has `asked` for a new assignment or not.
  pub record IsSound (asked : Bool) (r : Receiver) : Type 0 where
    pub verifying : r.verify_notifications ≡ verifies
    pub keyed : r.token ≡ token
    pub mac_is : r.mac ≡ mac
    pub genuine : All IsGenuine r.queued
    pub counted : r.messages_received ≡ (message_count r.queued + r.ring_dropped) % 2 ^ 64
    pub requested : r.reconnect_requested ≡ asked

  -- A change of other fields.
  abbrev pub Agrees : Receiver → Receiver → Type 0
  Agrees r r' =
      (r'.verify_notifications ≡ r.verify_notifications)
      × (r'.token ≡ r.token)
      × (r'.mac ≡ r.mac)
      × (r'.queued ≡ r.queued)
      × (r'.messages_received ≡ r.messages_received)
      × (r'.ring_dropped ≡ r.ring_dropped)
      × (r'.reconnect_requested ≡ r.reconnect_requested)

  pub Agrees-IsSound :
      {asked : Bool} (r r' : Receiver) → Agrees r r' → IsSound asked r → IsSound asked r'
  Agrees-IsSound r r' (a, b, c, d, e, f, g) h = record {
    verifying = a ∙ h.verifying;
    keyed = b ∙ h.keyed;
    mac_is = c ∙ h.mac_is;
    genuine = subst (All IsGenuine) (sym d) h.genuine;
    counted =
        e
        ∙ h.counted
        ∙ ap (λ es. (message_count es + r.ring_dropped) % 2 ^ 64) (sym d)
        ∙ ap (λ n. (message_count r'.queued + n) % 2 ^ 64) (sym f);
    requested = g ∙ h.requested;
  }

  pushed-IsSound :
      {asked : Bool} (r : Receiver) (m : Bytes) (e : Event) (q : Bool) (res : Bool × SpscRing Event)
      → IsMessage e
      → IsGenuine e
      → IsSound asked r
      → IsSound asked (pushed (with_received r m) e q res).0
  pushed-IsSound r m e q (true, ring) is g h = record {
    verifying = h.verifying;
    keyed = h.keyed;
    mac_is = h.mac_is;
    genuine = (g, h.genuine);
    counted = omega (arith, h.counted, message_count-IsMessage e r.queued is);
    requested = h.requested;
  }
  pushed-IsSound r m e q (false, ring) is g h = record {
    verifying = h.verifying;
    keyed = h.keyed;
    mac_is = h.mac_is;
    genuine = h.genuine;
    counted = omega (arith, h.counted);
    requested = h.requested;
  }

  pub enqueue-IsSound :
      {asked : Bool} (r : Receiver) (m : Bytes) (e : Event) (q : Bool)
      → IsMessage e
      → IsGenuine e
      → IsSound asked r
      → IsSound asked (enqueue r m e q).0
  unfolding enqueue
  enqueue-IsSound r m e q is g h = elim (Bool-cases (ltb max_datagram_size (length m))) [
    | inl big ↦ rw (big) (
        Agrees-IsSound r (record r { malformed = count_by r.malformed 1 })
          (refl, refl, refl, refl, refl, refl, refl) h)
    | inr fitting ↦ rw (fitting) (pushed-IsSound r m e q (try_push r.ring e) is g h)
  ]

  -- What is queued of a message is genuine.
  abbrev pub IsJust : Verdict → Type 0
  IsJust (accepted e) = IsMessage e × IsGenuine e
  IsJust (notified e epoch) = IsMessage e × IsGenuine e
  IsJust _ = Unit {0}

  error_verdict-IsJust :
      (m : Bytes) (p : Result GenericErrorView)
      → parse_generic_error m ≡ p
      → IsJust (error_verdict m (parses p))
  error_verdict-IsJust m (value v) e = (tt, (v, e))
  error_verdict-IsJust m (error c) e = tt

  channel_verdict-IsJust :
      (m : Bytes) (p : Result ChannelNotificationView)
      → parse_channel_notification m ≡ p
      → IsJust (channel_verdict m (parses p))
  channel_verdict-IsJust m (value v) e = (tt, (v, e))
  channel_verdict-IsJust m (error c) e = tt

  checked : (b : Bool) (st : Status) → (b && not (is_ok st)) ≡ false → (b ≡ false) ⊎ (st ≡ Errc.ok)
  checked true Errc.ok e = inr refl
  checked true st e = absurd (cc (e))
  checked false st e = inl refl

  spatial_parsed-IsJust :
      {asked : Bool} (r : Receiver) (m : Bytes) (p : Result LongSpatialView)
      → parse_long_spatial m ≡ p
      → IsSound asked r
      → IsJust (spatial_parsed crypto r m p)
  spatial_parsed-IsJust r m (error c) e h = tt
  spatial_parsed-IsJust r m (value v) e h =
      let st : Status = verify_long_spatial crypto m r.token r.mac in
      let same : st ≡ verify_long_spatial crypto m token mac =
        ap (λ k. verify_long_spatial crypto m k r.mac) h.keyed
        ∙ ap (λ k. verify_long_spatial crypto m token k) h.mac_is in
      verdict (r.verify_notifications && not (is_ok st)) (λ passed. (
        tt,
        (
          v,
          e,
          elim (checked r.verify_notifications st passed) [
            | inl off ↦ inl (sym h.verifying ∙ off)
            | inr good ↦ inr (sym same ∙ good)
          ],
        ),
      ))
    where
      verdict :
          (b : Bool)
          → (b ≡ false → IsJust (notified (spatial_event m) v.epoch_millis_or_token_id))
          → IsJust (if b then forged else notified (spatial_event m) v.epoch_millis_or_token_id)
      verdict true k = tt
      verdict false k = k refl

  -- The branches of the callback.
  verdict_branches :
      (P : Verdict → Type 0) (e c s : Verdict)
      (is_error is_channel is_capabilities is_spatial : Bool)
      → P ignored
      → P e
      → P c
      → P s
      → P (
          if is_error
          then e
          else if is_channel
          then c
          else if is_capabilities
          then ignored
          else if is_spatial
          then s
          else ignored)
  verdict_branches P e c s true is_channel is_capabilities is_spatial i pe pc ps = pe
  verdict_branches P e c s false true is_capabilities is_spatial i pe pc ps = pc
  verdict_branches P e c s false false true is_spatial i pe pc ps = i
  verdict_branches P e c s false false false true i pe pc ps = ps
  verdict_branches P e c s false false false false i pe pc ps = i

  pub classify-IsJust :
      {asked : Bool} (r : Receiver) (m : Bytes) → IsSound asked r → IsJust (classify crypto r m)
  unfolding classify
  classify-IsJust r [] h = tt
  classify-IsJust r (type ∷ rest) h =
      let m : Bytes = type ∷ rest in
      verdict_branches IsJust (error_verdict m (parses (parse_generic_error m)))
        (channel_verdict m (parses (parse_channel_notification m)))
        (spatial_parsed crypto r m (parse_long_spatial m)) (type == MessageType.generic_error)
        (type == MessageType.channel_message_notification
          || type == MessageType.channel_audio_notification)
        (type == MessageType.client_capabilities) (is_long_spatial_layout type) tt
        (error_verdict-IsJust m (parse_generic_error m) refl)
        (channel_verdict-IsJust m (parse_channel_notification m) refl)
        (spatial_parsed-IsJust r m (parse_long_spatial m) refl h)
