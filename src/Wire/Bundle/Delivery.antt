-- ===== src/Wire/Bundle/Delivery.antt =====
-- What `for_each_message` delivers.
use crowdy_cpp.Base.{
  suc, ◌-◌, ◌≡◌, ◌≢◌, ◌≤◌, inl, inr, refl, sym, ◌∙◌, false, some, List, [], ◌∷◌, ◌++◌, All, length,
  take, get_or, length-take, take-append, Bool-cases, leb, ◌==◌, length-append, arith,
}
use crowdy_cpp.Core.Result.{Errc}
use crowdy_cpp.Core.Le.{Bytes, IsByte}
use crowdy_cpp.Wire.Bundle.{Delivery, walk, for_each_message}
use crowdy_cpp.Wire.Bundle.Frames.{members, length-members, IsShort}
use crowdy_cpp.Wire.Bundle.Walk.{Explains, walk_total, walk-members, walk_sound}

-- Walking any datagram ends: the fuel given is enough.
pub for_each_message_total : (d : Bytes) → (r : Delivery) × (for_each_message d ≡ some r)
unfolding for_each_message
for_each_message_total d =
    let body = take (length d - 32) d in
    elim (Bool-cases (length d == 0)) [
      | inl empty ↦ (([], Errc.malformed), rw empty)
      | inr some_byte ↦ elim (Bool-cases (get_or d 0 0 == 30)) [
        | inl signed ↦ elim (Bool-cases (leb (length d) 33)) [
          | inl short ↦ (([], Errc.malformed), rw (some_byte, signed, short))
          | inr long ↦
              let (r, e) =
                walk_total (length body) body 1 (ground (arith, length-take (length d - 32) d)) in
              (r, rw (some_byte, signed, long) e)
        ]
        | inr other ↦ elim (Bool-cases (get_or d 0 0 == 2)) [
          | inl bundle ↦
              let (r, e) = walk_total (length d) d 1 (ground arith) in
              (r, rw (some_byte, other, bundle) e)
          | inr single ↦ ((d ∷ [], Errc.ok), rw (some_byte, other, single))
        ]
      ]
    ]

for_each_bundle :
    (rest : Bytes) → for_each_message (2 ∷ rest) ≡ walk (suc (length rest)) (2 ∷ rest) 1
unfolding for_each_message
for_each_bundle rest = let g : (suc (length rest) == 0) ≡ false = ground arith in rw g

for_each_signed :
    (rest tag : Bytes)
    → length tag ≡ 32
    → 1 ≤ length rest
    → for_each_message ((30 ∷ rest) ++ tag) ≡ walk (suc (length rest)) (30 ∷ rest) 1
unfolding for_each_message
for_each_signed rest tag ht h =
    let size = length-append rest tag in
    let g : (suc (length (rest ++ tag)) == 0) ≡ false = ground arith in
    let long : leb (suc (length (rest ++ tag))) 33 ≡ false = ground (arith, size) in
    let body : take (suc (length (rest ++ tag)) - 32) ((30 ∷ rest) ++ tag) ≡ 30 ∷ rest =
      take-append (suc (length (rest ++ tag)) - 32) (30 ∷ rest) tag (omega (arith, size)) in
    rw (g, long, body)

-- A bundle of members, each of at most 65535 bytes, delivers exactly these, in order.
pub for_each_message-members :
    (ms : List Bytes) → All IsShort ms → for_each_message (2 ∷ members ms) ≡ some (ms, Errc.ok)
for_each_message-members ms h =
    for_each_bundle (members ms)
    ∙ walk-members ms (2 ∷ []) (2 ∷ members ms) (suc (length (members ms))) 1 h refl refl
        (omega (arith, length-members ms))

-- A signed bundle of at least one member, each of at most 65535 bytes, with a tag of 32 bytes
-- delivers its members, and nothing of the tag.
pub for_each_message_signed :
    (m : Bytes) (ms : List Bytes) (tag : Bytes)
    → All IsShort (m ∷ ms)
    → length tag ≡ 32
    → for_each_message ((30 ∷ members (m ∷ ms)) ++ tag) ≡ some (m ∷ ms, Errc.ok)
for_each_message_signed m ms tag h ht =
    let rest = members (m ∷ ms) in
    for_each_signed rest tag ht (omega arith)
    ∙ walk-members (m ∷ ms) (30 ∷ []) (30 ∷ rest) (suc (length rest)) 1 h refl refl
        (omega (arith, length-members (m ∷ ms)))

-- Conversely, on a bundle of bytes, what was delivered stands at the front of the datagram, member
-- by member; the status is `ok` exactly when nothing is left over, and otherwise `malformed`, and
-- what is left over is a cut member.
pub for_each_message_sound :
    (rest : Bytes) (r : Delivery)
    → All IsByte rest
    → for_each_message (2 ∷ rest) ≡ some r
    → Explains rest r
for_each_message_sound rest r h e =
    walk_sound (suc (length rest)) (2 ∷ rest) 1 r (omega arith, h) (sym (for_each_bundle rest) ∙ e)

-- A datagram of any other type is delivered whole.
pub for_each_message-plain :
    (m : Bytes)
    → 1 ≤ length m
    → get_or m 0 0 ≢ 2
    → get_or m 0 0 ≢ 30
    → for_each_message m ≡ some (m ∷ [], Errc.ok)
unfolding for_each_message
for_each_message-plain m h a b =
    let g : (length m == 0) ≡ false = ground arith in
    let g30 : (get_or m 0 0 == 30) ≡ false = ground arith in
    let g2 : (get_or m 0 0 == 2) ≡ false = ground arith in rw (g, g30, g2)
