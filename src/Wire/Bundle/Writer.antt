-- ===== src/Wire/Bundle/Writer.antt =====
-- What a bundle writer holds, and that the walk gives it back.
use crowdy_cpp.Base.{
  ℕ, ◌+◌, ◌%◌, ◌^◌, ◌≡◌, ◌≢◌, ◌≤◌, ◌<◌, ◌⊎◌, inl, inr, refl, sym, ap, ◌∙◌, true, false, some, List,
  [], ◌∷◌, ◌++◌, All, All-append, length, take, drop, get_or, length-append, append_assoc,
  append-nil, take-append, subst, if◌then◌else◌, ◌==◌, lt→ltb, arith,
}
use crowdy_cpp.Base.Buffers.{slice, write_at, Laid, Laid-nil, Laid-write_at, Laid-take, Laid-eq}
use crowdy_cpp.Core.Result.{Errc}
use crowdy_cpp.Core.Le.{Bytes, u16_bytes, write_u16, read_u16, read_u16-bytes}
use crowdy_cpp.Wire.Bundle.{
  BundleWriter, bundle_writer, reset, fits, append, datagram, for_each_message,
}
use crowdy_cpp.Wire.Bundle.Frames.{members, members-append, IsShort}
use crowdy_cpp.Wire.Bundle.Delivery.{for_each_message-members, for_each_message-plain}
use native.Mathlib.Nat.{mod-eq_of_lt}

-- A message that a bundle may hold: not empty, and its length fits the prefix.
abbrev pub IsMember : Bytes → Type 0
IsMember m = (1 ≤ length m) × (length m < 2 ^ 16)

-- The writer's buffer, once `out`, is the frame of `ms` followed by what `out` held behind it.
pub record Holds (out : Bytes) (w : BundleWriter) (ms : List Bytes) : Type 0 where
  pub laid : Laid out w.buf (2 ∷ members ms)
  pub offset : w.offset ≡ length (2 ∷ members ms)
  pub count : w.count ≡ length ms
  pub capped : length ms ≤ 32
  pub bounded : w.offset ≤ length out
  pub messages : All IsMember ms

-- A new writer, and one that is reset, holds nothing, whatever the buffer held.
pub reset-Holds : (w : BundleWriter) → 1 ≤ length w.buf → Holds w.buf (reset w) []
unfolding reset
reset-Holds w h = record {
  laid =
      rw (lt→ltb 0 (length w.buf) h) (Laid-write_at 0 (2 ∷ []) (Laid-nil w.buf) refl (omega arith));
  offset = refl;
  count = refl;
  capped = omega arith;
  bounded = h;
  messages = tt;
}

-- `append` accepts a message exactly when it is not empty, its length fits the prefix, fewer than
-- 32 members are held and the buffer has room.
pub fits_iff :
    (w : BundleWriter) (len : ℕ)
    → ((fits w len ≡ true)
        × ((1 ≤ len) × (len < 2 ^ 16) × (w.count < 32) × (w.offset + 2 + len ≤ length w.buf)))
      ⊎ ((fits w len ≡ false)
          × ((len ≡ 0) ⊎ ((2 ^ 16 ≤ len) ⊎ ((32 ≤ w.count) ⊎ (length w.buf < w.offset + 2 + len)))))
unfolding fits
fits_iff w len = ground arith

-- The state after an accepted message.
abbrev pub pushed : BundleWriter → Bytes → BundleWriter
pushed w m = record {
  buf = write_at (write_u16 w.buf w.offset (length m % 2 ^ 16)) (w.offset + 2) m;
  offset = w.offset + (2 + length m);
  count = w.count + 1;
}

pushed-Holds :
    (out : Bytes) (w : BundleWriter) (ms : List Bytes) (m : Bytes)
    → Holds out w ms
    → IsMember m
    → w.count < 32
    → w.offset + 2 + length m ≤ length w.buf
    → Holds out (pushed w m) (ms ++ (m ∷ []))
unfolding write_u16
pushed-Holds out w ms m v im few room =
    let size = u16_bytes (length m % 2 ^ 16) in
    let whole = v.laid.same_length in
    let l1 = Laid-write_at w.offset size v.laid v.offset (omega (arith, v.offset)) in
    let l2 =
      Laid-write_at (w.offset + 2) m l1 (omega (arith, v.offset, length-append (members ms) size))
        (omega (arith, v.offset, length-append (members ms) size)) in
    let same : ((2 ∷ members ms) ++ size) ++ m ≡ 2 ∷ members (ms ++ (m ∷ [])) =
      ap (◌∷◌ 2) (append_assoc (members ms) size m ∙ simp (members-append, append-nil)) in
    let grown : length (2 ∷ members (ms ++ (m ∷ []))) ≡ length (2 ∷ members ms) + (2 + length m) =
      omega (
        arith,
        ap length same,
        length-append (members ms) size,
        length-append (members ms ++ size) m,
      ) in
    let count = length-append ms (m ∷ []) in
    record {
      laid = subst (Laid out (pushed w m).buf) same l2;
      offset = omega (arith, v.offset, grown);
      count = omega (arith, v.count, count);
      capped = omega (arith, v.count, count);
      bounded = omega arith;
      messages = All-append IsMember ms (m ∷ []) v.messages (im, tt);
    }

-- An accepted message joins the members at the end; a refused one changes nothing.
pub append-Holds :
    (out : Bytes) (w : BundleWriter) (ms : List Bytes) (m : Bytes)
    → Holds out w ms
    → ((append w m).0 ≡ true) × Holds out (append w m).1 (ms ++ (m ∷ []))
      ⊎ ((append w m).0 ≡ false) × ((append w m).1 ≡ w)
unfolding append
append-Holds out w ms m v = elim (fits_iff w (length m)) [
  | inr (no_room, _) ↦ inr (rw no_room refl, rw no_room refl)
  | inl (room, (some_byte, short, few, space)) ↦
      inl (rw room refl, rw room (pushed-Holds out w ms m v (some_byte, short) few space))
]

-- What goes on the wire: nothing, the lone member as it is, or the frame.
abbrev pub sent : List Bytes → Bytes
sent [] = []
sent (m ∷ []) = m
sent (m ∷ n ∷ ms) = 2 ∷ members (m ∷ n ∷ ms)

-- What goes on the wire is, for a writer that holds the messages `ms`: nothing when there are none,
-- the message itself when there is one, and else the bundle of all of them in order.
pub datagram-Holds :
    (out : Bytes) (w : BundleWriter) (ms : List Bytes) → Holds out w ms → datagram w ≡ sent ms
unfolding datagram
datagram-Holds out w [] v = rw v.count
datagram-Holds out w (m ∷ []) v =
    let rest = drop (length (2 ∷ members (m ∷ []))) out in
    let n : read_u16 (u16_bytes (length m % 2 ^ 16) ++ ((m ++ []) ++ rest)) ≡ length m =
      read_u16-bytes (length m % 2 ^ 16) ((m ++ []) ++ rest) (omega arith)
      ∙ mod-eq_of_lt v.messages.0.1 in
    let one : datagram w ≡ slice w.buf 3 (read_u16 (drop 1 w.buf)) = rw v.count in
    one
    ∙ ap (λ b. slice b 3 (read_u16 (drop 1 b))) (Laid-eq v.laid)
    ∙ ap (λ k. take k ((m ++ []) ++ rest)) n
    ∙ take-append (length m) (m ++ []) rest (ap length (sym (append-nil m)))
    ∙ append-nil m
datagram-Holds out w (m ∷ n ∷ ms) v =
    let g0 : (w.count == 0) ≡ false = ground (arith, v.count) in
    let g1 : (w.count == 1) ≡ false = ground (arith, v.count) in
    rw (g0, g1) (Laid-take w.offset v.laid v.offset)

-- A client's run of calls: the messages that `append` accepted, and the writer in the end.
unfoldable pub append_each : BundleWriter → List Bytes → List Bytes × BundleWriter
append_each w [] = ([], w)
append_each w (m ∷ ms) =
    let (accepted, w') = append w m in
    let (rest, last) = append_each w' ms in (if accepted then m ∷ rest else rest, last)

pub append_each-Holds :
    (out : Bytes) (w : BundleWriter) (held ms : List Bytes)
    → Holds out w held
    → Holds out (append_each w ms).1 (held ++ (append_each w ms).0)
unfolding append_each
append_each-Holds out w held [] v = rw append-nil v
append_each-Holds out w held (m ∷ ms) v = elim (append-Holds out w held m v) [
  | inl (joined, v') ↦
      let ih = append_each-Holds out (append w m).1 (held ++ (m ∷ [])) ms v' in
      rw joined (rw append_assoc at ih)
  | inr (refused, same) ↦ rw refused (append_each-Holds out (append w m).1 held ms (rw same v))
]

IsMember→IsShort : (ms : List Bytes) → All IsMember ms → All IsShort ms
IsMember→IsShort [] h = tt
IsMember→IsShort (m ∷ ms) h = (h.0.1, IsMember→IsShort ms h.1)

-- A lone message whose first byte does not name a bundle: it travels unwrapped.
abbrev pub IsPlain : List Bytes → Type 0
IsPlain [] = ⊥
IsPlain (m ∷ []) = (get_or m 0 0 ≢ 2) × (get_or m 0 0 ≢ 30)
IsPlain (m ∷ n ∷ ms) = Unit {0}

pub for_each_message-sent :
    (ms : List Bytes)
    → All IsMember ms
    → IsPlain ms
    → for_each_message (sent ms) ≡ some (ms, Errc.ok)
for_each_message-sent [] h p = absurd p
for_each_message-sent (m ∷ []) h p = for_each_message-plain m h.0.0 p.0 p.1
for_each_message-sent (m ∷ n ∷ ms) h p =
    for_each_message-members (m ∷ n ∷ ms) (IsMember→IsShort (m ∷ n ∷ ms) h)

-- Whatever a client appends to a new writer on a buffer that is not empty, if some message was
-- accepted, and a lone one is not itself of a bundle type, then the receiver's walk over the
-- datagram delivers exactly the messages that were accepted, in order.
pub for_each_message-append_each :
    (out : Bytes) (ms : List Bytes)
    → 1 ≤ length out
    → IsPlain (append_each (bundle_writer out) ms).0
    → for_each_message (datagram (append_each (bundle_writer out) ms).1)
      ≡ some ((append_each (bundle_writer out) ms).0, Errc.ok)
unfolding bundle_writer
for_each_message-append_each out ms h p =
    let start : BundleWriter = record { buf = out; offset = 1; count = 0 } in
    let v = append_each-Holds out (reset start) [] ms (reset-Holds start h) in
    ap for_each_message (datagram-Holds out _ _ v) ∙ for_each_message-sent _ v.messages p
