-- ===== src/Wire/Bundle/Frames.antt =====
-- The bytes of a bundle: each member behind its length.
use crowdy_cpp.Base.{
  ◌+◌, ◌%◌, ◌^◌, ◌≡◌, ◌≤◌, ◌<◌, refl, ap, ◌∙◌, List, [], ◌∷◌, ◌++◌, length, length-append,
  append_assoc, arith,
}
use crowdy_cpp.Core.Le.{Bytes, u16_bytes}

-- `[2B len LE][msg]`
abbrev pub member : Bytes → Bytes
member m = u16_bytes (length m % 2 ^ 16) ++ m

abbrev pub members : List Bytes → Bytes
members [] = []
members (m ∷ ms) = member m ++ members ms

-- A length that the prefix can hold.
abbrev pub IsShort : Bytes → Type 0
IsShort m = length m < 2 ^ 16

pub members-append : (ms ns : List Bytes) → members (ms ++ ns) ≡ members ms ++ members ns
members-append [] ns = refl
members-append (m ∷ ms) ns = ap (λ r. member m ++ r) (members-append ms ns) ∙ simp append_assoc

pub length-members : (ms : List Bytes) → length ms + length ms ≤ length (members ms)
length-members [] = omega arith
length-members (m ∷ ms) = omega (arith, length-members ms, length-append m (members ms))
