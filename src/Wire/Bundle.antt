-- ===== src/Wire/Bundle.antt =====
-- Bundle framing of include/crowdy/wire/codec.hpp: the writer and the walk over a datagram.
pub mod Frames
pub mod Walk
pub mod Delivery
pub mod Writer
use crowdy_cpp.Base.{
  ℕ, zero, suc, ◌+◌, ◌-◌, ◌%◌, ◌^◌, Bool, true, false, ◌||◌, Option, none, some, List, [], ◌∷◌,
  length, take, drop, get_or, ltb, leb, ◌==◌, if◌then◌else◌,
}
use crowdy_cpp.Base.Buffers.{write_at, slice}
use crowdy_cpp.Core.Result.{Errc, Status}
use crowdy_cpp.Core.Le.{Bytes, write_u16, read_u16}
use crowdy_cpp.Wire.MessageType
use crowdy_cpp.Wire.Protocol.{hmac_tag_size, max_datagram_size}

abbrev pub bundle_header_size : ℕ
bundle_header_size = 1

abbrev pub bundle_length_prefix : ℕ
bundle_length_prefix = 2

abbrev pub max_bundle_members : ℕ
max_bundle_members = 32

pub record BundleWriter : Type 0 where
  pub buf : Bytes
  pub offset : ℕ
  pub count : ℕ

-- `buf_.data()[0] = MessageBundle`, where there is a byte to write.
unfoldable pub reset : BundleWriter → BundleWriter
reset w = record {
  buf = if ltb 0 (length w.buf) then write_at w.buf 0 (MessageType.message_bundle ∷ []) else w.buf;
  offset = bundle_header_size;
  count = 0;
}

unfoldable pub bundle_writer : Bytes → BundleWriter
unfolding reset
bundle_writer buffer = reset (record { buf = buffer; offset = bundle_header_size; count = 0 })

unfoldable pub fits : BundleWriter → ℕ → Bool
fits w len =
    if len == 0 || ltb 0xFFFF len || leb max_bundle_members w.count
    then false
    else leb (w.offset + bundle_length_prefix + len) (length w.buf)

unfoldable pub append : BundleWriter → Bytes → Bool × BundleWriter
append w message =
    if fits w (length message)
    then (
      true,
      record {
        buf =
            write_at (write_u16 w.buf w.offset (length message % 2 ^ 16))
              (w.offset + bundle_length_prefix) message;
        offset = w.offset + (bundle_length_prefix + length message);
        count = w.count + 1;
      },
    )
    else (false, w)

pub datagram : BundleWriter → Bytes
datagram w =
    if w.count == 0
    then []
    else if w.count == 1
    then slice w.buf (bundle_header_size + bundle_length_prefix)
        (read_u16 (drop bundle_header_size w.buf))
    else take w.offset w.buf

pub first_type : BundleWriter → ℕ
first_type w =
    if w.count == 0 then 0 else get_or w.buf (bundle_header_size + bundle_length_prefix) 0

-- The messages that `fn` was called on, in order, and the status returned.
abbrev pub Delivery : Type 0
Delivery = List Bytes × Status

-- One more call of `fn`, in front of the later ones.
abbrev pub deliver : Bytes → Option Delivery → Option Delivery
deliver m none = none
deliver m (some (ms, st)) = some (m ∷ ms, st)

-- The `while` loop from `offset` on; `none` means that the fuel ran out.
unfoldable pub walk : ℕ → Bytes → ℕ → Option Delivery
walk zero d offset = none
walk (suc fuel) d offset =
    let msg_len = read_u16 (drop offset d) in
    let rest = walk fuel d (offset + 2 + msg_len) in
    if ltb offset (length d)
    then (if ltb (length d) (offset + 2)
        then some ([], Errc.malformed)
        else if ltb (length d) (offset + 2 + msg_len)
        then some ([], Errc.malformed)
        else deliver (slice d (offset + 2) msg_len) rest)
    else some ([], Errc.ok)

-- Each round moves the offset on by two bytes at least, so one round for each byte is enough.
unfoldable pub for_each_message : Bytes → Option Delivery
for_each_message d =
    let body = take (length d - hmac_tag_size) d in
    if length d == 0
    then some ([], Errc.malformed)
    else if get_or d 0 0 == MessageType.message_bundle_signed
    then (if leb (length d) (hmac_tag_size + 1)
        then some ([], Errc.malformed)
        else walk (length body) body 1)
    else if get_or d 0 0 == MessageType.message_bundle
    then walk (length d) d 1
    else some (d ∷ [], Errc.ok)
