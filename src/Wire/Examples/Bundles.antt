-- ===== src/Wire/Examples/Bundles.antt =====
-- Concrete bundles: written, walked, signed, and cut short.
use crowdy_cpp.Base.{
  ℕ, ◌+◌, ◌≡◌, ◌≤◌, ◌<◌, ◌^◌, ◌↔◌, ◌⊎◌, refl, true, false, none, some, List, [], ◌∷◌, ◌++◌, length,
  replicate, arith,
}
use crowdy_cpp.Base.Buffers.{write_at}
use crowdy_cpp.Core.Result.{Errc, value}
use crowdy_cpp.Core.Le.{Bytes, read_u16, write_u16}
use crowdy_cpp.Wire.Hmac.{spatial_hmac}
use crowdy_cpp.Wire.Bundle.{
  BundleWriter, Delivery, reset, append, fits, datagram, bundle_writer, for_each_message, walk,
}
use crowdy_cpp.Wire.Bundle.Frames.{members}
use crowdy_cpp.Wire.Bundle.Walk.{Explains}
use crowdy_cpp.Wire.Bundle.Delivery.{
  for_each_message_total, for_each_message-members, for_each_message_signed, for_each_message_sound,
  for_each_message-plain,
}
use crowdy_cpp.Wire.Bundle.Writer.{
  Holds, append_each, fits_iff, append-Holds, datagram-Holds, reset-Holds,
  for_each_message-append_each,
}
use crowdy_cpp.Wire.Control.{
  GenericErrorView, parse_generic_error, parse_generic_error_iff, verify_signed_bundle,
  verify_signed_bundle-members, verify_command_reconnect, verify_command_reconnect_iff,
}
use crowdy_cpp.Wire.Examples.{toy, toy_tag, toy-IsProvider, token}

abbrev first : Bytes
first = 128 ∷ 5 ∷ 6 ∷ []

abbrev second : Bytes
second = 134 ∷ []

-- The empty message is refused, the two others are sent.
abbrev offered : List Bytes
offered = first ∷ [] ∷ second ∷ []

abbrev scratch : Bytes
scratch = replicate 12 255

offered_sent :
    for_each_message (datagram (append_each (bundle_writer scratch) offered).1)
    ≡ some ((append_each (bundle_writer scratch) offered).0, Errc.ok)
unfolding append_each bundle_writer append fits write_at write_u16
offered_sent = for_each_message-append_each scratch offered (omega arith) tt

abbrev two : List Bytes
two = first ∷ second ∷ []

two-members : for_each_message (2 ∷ members two) ≡ some (two, Errc.ok)
two-members = for_each_message-members two (omega arith, (omega arith, tt))

two_signed : for_each_message ((30 ∷ members two) ++ replicate 32 9) ≡ some (two, Errc.ok)
two_signed =
    for_each_message_signed first (second ∷ []) (replicate 32 9) (omega arith, (omega arith, tt))
      refl

two_verified :
    (verify_signed_bundle toy
        ((30 ∷ members two) ++ toy_tag token ((30 ∷ members two) ++ token))
        token
        none
      ≡ Errc.ok)
    × (for_each_message ((30 ∷ members two) ++ toy_tag token ((30 ∷ members two) ++ token))
        ≡ some (two, Errc.ok))
unfolding spatial_hmac
two_verified =
    verify_signed_bundle-members toy token none first (second ∷ [])
      (toy_tag token ((30 ∷ members two) ++ token)) toy-IsProvider tt refl
      (omega arith, (omega arith, tt)) refl

-- A whole member, then a length with no message behind it.
abbrev cut : Bytes
cut = 1 ∷ 0 ∷ 134 ∷ 4 ∷ 0 ∷ []

cut_walked : for_each_message (2 ∷ cut) ≡ some (second ∷ [], Errc.malformed)
unfolding for_each_message walk read_u16
cut_walked = refl

cut_explained : Explains cut (second ∷ [], Errc.malformed)
cut_explained =
    for_each_message_sound cut (second ∷ [], Errc.malformed)
      (omega arith, (omega arith, (omega arith, (omega arith, (omega arith, tt))))) cut_walked

cut_total : (r : Delivery) × (for_each_message (2 ∷ cut) ≡ some r)
cut_total = for_each_message_total (2 ∷ cut)

plain_example : for_each_message first ≡ some (first ∷ [], Errc.ok)
plain_example = for_each_message-plain first (omega arith) (λ e. cc e) (λ e. cc e)

abbrev blank : BundleWriter
blank = record { buf = scratch; offset = 1; count = 0 }

blank-Holds : Holds scratch (reset blank) []
blank-Holds = reset-Holds blank (omega arith)

append_example :
    ((append (reset blank) first).0 ≡ true)
      × Holds scratch (append (reset blank) first).1 (first ∷ [])
    ⊎ ((append (reset blank) first).0 ≡ false) × ((append (reset blank) first).1 ≡ reset blank)
append_example = append-Holds scratch (reset blank) [] first blank-Holds

datagram_example : datagram (reset blank) ≡ []
datagram_example = datagram-Holds scratch (reset blank) [] blank-Holds

abbrev size : ℕ
size = 9

fits_example :
    ((fits blank size ≡ true)
      × ((1 ≤ size)
          × (size < 2 ^ 16)
          × (blank.count < 32)
          × (blank.offset + 2 + size ≤ length blank.buf)))
    ⊎ ((fits blank size ≡ false)
        × ((size ≡ 0)
            ⊎ ((2 ^ 16 ≤ size)
                ⊎ ((32 ≤ blank.count) ⊎ (length blank.buf < blank.offset + 2 + size)))))
fits_example = fits_iff blank size

abbrev refusal : GenericErrorView
refusal = record { sequence = 17; code = 4 }

error_example :
    (parse_generic_error (3 ∷ 17 ∷ 4 ∷ 0 ∷ []) ≡ value refusal)
    ↔ ((rest : Bytes) × ((3 ∷ 17 ∷ 4 ∷ 0 ∷ []) ≡ 3 ∷ refusal.sequence ∷ refusal.code ∷ rest))
error_example = parse_generic_error_iff (3 ∷ 17 ∷ 4 ∷ 0 ∷ []) refusal

abbrev reconnect_tag : Bytes
reconnect_tag = toy_tag token (22 ∷ token)

reconnect_example :
    (verify_command_reconnect toy (22 ∷ reconnect_tag) token ≡ Errc.ok)
    ↔ ((22 ∷ reconnect_tag) ≡ 22 ∷ reconnect_tag)
reconnect_example =
    verify_command_reconnect_iff toy (22 ∷ reconnect_tag) token reconnect_tag toy-IsProvider refl
      refl
