-- ===== src/Base/Int.antt =====
-- Signed integers over the native numbers, and their two's complement words.
use Prim.Native.Nat.{◌*◌, ℕ, suc, ◌+◌, ◌-◌, ◌%◌, ◌^◌, ◌≤◌, ◌<◌}
use mathlib.Core.Path.{◌≡◌}
use mathlib.Core.Bool.{Bool}
use native.Mathlib.Omega.{arith}
use crowdy_cpp.Base.Tests.{ltb, leb, if◌then◌else◌}

-- `negsuc n` is -(n + 1).
pub data ℤ : Type 0 where
  pos : ℕ → ℤ
  negsuc : ℕ → ℤ

abbrev pub pos_part : ℤ → ℕ
pos_part (pos n) = n
pos_part (negsuc n) = 0

abbrev pub neg_part : ℤ → ℕ
neg_part (pos n) = 0
neg_part (negsuc n) = suc n

-- a - b, as an integer.
abbrev pub sub_ℕ : ℕ → ℕ → ℤ
sub_ℕ a b = if leb b a then pos (a - b) else negsuc (b - a - 1)

infixl 65 ◌+ℤ◌ ◌-ℤ◌
abbrev pub ◌+ℤ◌ : ℤ → ℤ → ℤ
a +ℤ b = sub_ℕ (pos_part a + pos_part b) (neg_part a + neg_part b)

abbrev pub ◌-ℤ◌ : ℤ → ℤ → ℤ
a -ℤ b = sub_ℕ (pos_part a + neg_part b) (neg_part a + pos_part b)

abbrev pub lebℤ : ℤ → ℤ → Bool
lebℤ a b = leb (pos_part a + neg_part b) (pos_part b + neg_part a)

abbrev pub ltbℤ : ℤ → ℤ → Bool
ltbℤ a b = ltb (pos_part a + neg_part b) (pos_part b + neg_part a)

infix 50 ◌≤ℤ◌ ◌<ℤ◌
abbrev pub ◌≤ℤ◌ : ℤ → ℤ → Type 0
a ≤ℤ b = pos_part a + neg_part b ≤ pos_part b + neg_part a

abbrev pub ◌<ℤ◌ : ℤ → ℤ → Type 0
a <ℤ b = pos_part a + neg_part b < pos_part b + neg_part a

-- The integers of `std::int64_t` and `std::int16_t`: -2^(w-1) to 2^(w-1) - 1.
abbrev pub IsI64 : ℤ → Type 0
IsI64 z = (pos_part z < 2 ^ 63) × (neg_part z ≤ 2 ^ 63)

abbrev pub IsI16 : ℤ → Type 0
IsI16 z = (pos_part z < 2 ^ 15) × (neg_part z ≤ 2 ^ 15)

-- The unsigned word that a cast of a signed integer gives, and the cast back.
pub word64 : ℤ → ℕ
word64 (pos n) = n % 2 ^ 64
word64 (negsuc n) = 2 ^ 64 - 1 - n % 2 ^ 64

pub signed64 : ℕ → ℤ
signed64 w = if ltb w (2 ^ 63) then pos w else negsuc (2 ^ 64 - 1 - w)

pub word16 : ℤ → ℕ
word16 (pos n) = n % 2 ^ 16
word16 (negsuc n) = 2 ^ 16 - 1 - n % 2 ^ 16

pub signed16 : ℕ → ℤ
signed16 w = if ltb w (2 ^ 15) then pos w else negsuc (2 ^ 16 - 1 - w)

pub word64-lt : (z : ℤ) → word64 z < 2 ^ 64
unfolding word64
word64-lt (pos n) = omega arith
word64-lt (negsuc n) = omega arith

pub word16-lt : (z : ℤ) → word16 z < 2 ^ 16
unfolding word16
word16-lt (pos n) = omega arith
word16-lt (negsuc n) = omega arith

pub signed64-word64 : (z : ℤ) → IsI64 z → signed64 (word64 z) ≡ z
unfolding word64 signed64
signed64-word64 (pos n) h = ground arith
signed64-word64 (negsuc n) h = ground arith

pub signed16-word16 : (z : ℤ) → IsI16 z → signed16 (word16 z) ≡ z
unfolding word16 signed16
signed16-word16 (pos n) h = ground arith
signed16-word16 (negsuc n) h = ground arith

pub word64-signed64 : (w : ℕ) → w < 2 ^ 64 → word64 (signed64 w) ≡ w
unfolding word64 signed64
word64-signed64 w h = ground arith

pub signed64-IsI64 : (w : ℕ) → w < 2 ^ 64 → IsI64 (signed64 w)
unfolding signed64
signed64-IsI64 w h = ground arith

pub signed16-IsI16 : (w : ℕ) → w < 2 ^ 16 → IsI16 (signed16 w)
unfolding signed16
signed16-IsI16 w h = ground arith

-- z * n
abbrev pub scale : ℤ → ℕ → ℤ
scale z n = sub_ℕ (pos_part z * n) (neg_part z * n)
