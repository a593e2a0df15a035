-- ===== src/Core/Le.antt =====
-- include/crowdy/core/bytes.hpp: little-endian integers. A byte sequence is a list of numbers;
-- a pointer into it is the list from that place on.
use crowdy_cpp.Base.{
  ℕ, zero, suc, ◌+◌, ◌*◌, ◌/◌, ◌%◌, ◌^◌, ◌≤◌, ◌<◌, ◌≡◌, refl, ap, ap₂, ◌∙◌, arith, List, [], ◌∷◌,
  ◌++◌, get_or, take, drop, All, bit_or, bit_or-add, bit_or_comm,
}
use crowdy_cpp.Base.Int.{ℤ, IsI64, IsI16, word64, signed64, word16, signed16}
use crowdy_cpp.Base.Int.{word64-lt, word16-lt, signed64-word64, signed16-word16}
use crowdy_cpp.Base.Buffers.{write_at}
use native.Mathlib.Nat.{pow-suc, mod-eq_of_lt}

abbrev pub Bytes : Type 0
Bytes = List ℕ

abbrev pub IsByte : ℕ → Type 0
IsByte b = b < 256

-- `dst[0] = v & 0xff; dst[1] = (v >> 8) & 0xff`
abbrev pub u16_bytes : ℕ → Bytes
u16_bytes v = (v % 256) ∷ (v / 2 ^ 8 % 256) ∷ []

-- `for (i ...) dst[i] = (v >> (8 * i)) & 0xff`, from `i` on, `n` rounds.
abbrev pub le_bytes : ℕ → ℕ → ℕ → Bytes
le_bytes zero i v = []
le_bytes (suc n) i v = (v / 2 ^ (8 * i) % 256) ∷ le_bytes n (i + 1) v

abbrev pub u32_bytes : ℕ → Bytes
u32_bytes v = le_bytes 4 0 v

abbrev pub u64_bytes : ℕ → Bytes
u64_bytes v = le_bytes 8 0 v

abbrev pub i16_bytes : ℤ → Bytes
i16_bytes z = u16_bytes (word16 z)

abbrev pub i64_bytes : ℤ → Bytes
i64_bytes z = u64_bytes (word64 z)

unfoldable pub write_u16 : Bytes → ℕ → ℕ → Bytes
write_u16 b off v = write_at b off (u16_bytes v)

unfoldable pub write_u32 : Bytes → ℕ → ℕ → Bytes
write_u32 b off v = write_at b off (u32_bytes v)

unfoldable pub write_u64 : Bytes → ℕ → ℕ → Bytes
write_u64 b off v = write_at b off (u64_bytes v)

unfoldable pub write_i16 : Bytes → ℕ → ℤ → Bytes
unfolding write_u16
write_i16 b off z = write_u16 b off (word16 z)

unfoldable pub write_i64 : Bytes → ℕ → ℤ → Bytes
unfolding write_u64
write_i64 b off z = write_u64 b off (word64 z)

-- `static_cast<uint16_t>(src[0] | (src[1] << 8))`
unfoldable pub read_u16 : Bytes → ℕ
read_u16 src = bit_or (get_or src 0 0) (get_or src 1 0 * 2 ^ 8) % 2 ^ 16

-- `for (i = n - 1; i >= 0; --i) v = (v << 8) | src[i]` on a word of `w` bits.
read_loop : ℕ → ℕ → Bytes → ℕ → ℕ
read_loop w zero src v = v
read_loop w (suc i) src v = read_loop w i src (bit_or (v * 2 ^ 8 % 2 ^ w) (get_or src i 0))

unfoldable pub read_u32 : Bytes → ℕ
unfolding read_loop
read_u32 src = read_loop 32 4 src 0

unfoldable pub read_u64 : Bytes → ℕ
unfolding read_loop
read_u64 src = read_loop 64 8 src 0

unfoldable pub read_i16 : Bytes → ℤ
read_i16 src = signed16 (read_u16 src)

unfoldable pub read_i64 : Bytes → ℤ
read_i64 src = signed64 (read_u64 src)

get_or-take : (m i : ℕ) (src : Bytes) → i < m → get_or (take m src) i 0 ≡ get_or src i 0
get_or-take zero i src h = absurd (omega arith)
get_or-take (suc m) i [] h = refl
get_or-take (suc m) zero (x ∷ src) h = refl
get_or-take (suc m) (suc i) (x ∷ src) h = get_or-take m i src (omega arith)

read_loop-take :
    (w n m : ℕ) (src : Bytes) (v : ℕ) → n ≤ m → read_loop w n (take m src) v ≡ read_loop w n src v
unfolding read_loop
read_loop-take w zero m src v h = refl
read_loop-take w (suc i) m src v h =
    read_loop-take w i m src _ (omega arith)
    ∙ ap (λ d. read_loop w i src (bit_or (v * 2 ^ 8 % 2 ^ w) d)) (get_or-take m i src (omega arith))

-- Eight bytes are read.
pub read_i64-take : (src : Bytes) → read_i64 (take 8 src) ≡ read_i64 src
unfolding read_i64 read_u64
read_i64-take src = ap signed64 (read_loop-take 64 8 8 src 0 (omega arith))

-- The number that bytes stand for, lowest first.
abbrev pub le_value : Bytes → ℕ
le_value [] = 0
le_value (b ∷ bs) = b + 256 * le_value bs

le_value-take-suc :
    (i : ℕ) (src : Bytes)
    → le_value (take (suc i) src) ≡ le_value (take i src) + get_or src i 0 * 256 ^ i
le_value-take-suc zero [] = omega arith
le_value-take-suc zero (x ∷ xs) = omega arith
le_value-take-suc (suc i) [] = omega arith
le_value-take-suc (suc i) (x ∷ xs) =
    omega (arith, le_value-take-suc i xs, ap (λ (t : ℕ). get_or xs i 0 * t) (pow-suc 256 i))

get_or-IsByte : (src : Bytes) (i : ℕ) → All IsByte src → get_or src i 0 < 256
get_or-IsByte [] i h = omega arith
get_or-IsByte (x ∷ xs) zero h = h.0
get_or-IsByte (x ∷ xs) (suc i) h = get_or-IsByte xs i h.1

pow-pos : (i : ℕ) → 1 ≤ 256 ^ i
pow-pos zero = omega arith
pow-pos (suc i) = omega (arith, pow-suc 256 i, pow-pos i)

read_loop_lem :
    (w n : ℕ) (src : Bytes) (v : ℕ)
    → All IsByte src
    → v * 256 ^ n + le_value (take n src) < 2 ^ w
    → read_loop w n src v ≡ v * 256 ^ n + le_value (take n src)
unfolding read_loop
read_loop_lem w zero src v hb h = omega arith
read_loop_lem w (suc i) src v hb h =
    let s = get_or src i 0 in
    let hs = get_or-IsByte src i hb in
    let total : v * 256 ^ suc i + s * 256 ^ i ≡ (v * 256 + s) * 256 ^ i =
      omega (arith, ap (λ (t : ℕ). v * t) (pow-suc 256 i)) in
    let fits : v * 256 < 2 ^ w = grind (arith, pow-pos i, total, le_value-take-suc i src) in
    let or_lem : bit_or (v * 2 ^ 8 % 2 ^ w) s ≡ v * 256 + s =
      rw (mod-eq_of_lt fits) (bit_or-add 8 v s hs) in
    rw or_lem (
      read_loop_lem w i src (v * 256 + s) hb (omega (arith, total, le_value-take-suc i src))
      ∙ omega (arith, total, le_value-take-suc i src))

pub read_u16-bytes : (v : ℕ) (rest : Bytes) → v < 2 ^ 16 → read_u16 (u16_bytes v ++ rest) ≡ v
unfolding read_u16
read_u16-bytes v rest h =
    rw
      (
        bit_or_comm (v % 256) (v / 2 ^ 8 % 256 * 2 ^ 8),
        bit_or-add 8 (v / 2 ^ 8 % 256) (v % 256) (omega arith),
      )
      (omega arith)

pub le_value-u32 : (v : ℕ) → v < 2 ^ 32 → le_value (u32_bytes v) ≡ v
le_value-u32 v h = omega arith

pub le_value-u64 : (v : ℕ) → v < 2 ^ 64 → le_value (u64_bytes v) ≡ v
le_value-u64 v h = omega arith

pub le_bytes-IsByte : (n i v : ℕ) → All IsByte (le_bytes n i v)
le_bytes-IsByte zero i v = tt
le_bytes-IsByte (suc n) i v = (omega arith, le_bytes-IsByte n (i + 1) v)

-- What is written is read back, whatever follows it.
pub read_u32-bytes : (v : ℕ) (rest : Bytes) → v < 2 ^ 32 → read_u32 (u32_bytes v ++ rest) ≡ v
unfolding read_u32
read_u32-bytes v rest h =
    read_loop_lem 32 4 (u32_bytes v) 0 (le_bytes-IsByte 4 0 v) (omega (arith, le_value-u32 v h))
    ∙ omega (arith, le_value-u32 v h)

pub read_u64-bytes : (v : ℕ) (rest : Bytes) → v < 2 ^ 64 → read_u64 (u64_bytes v ++ rest) ≡ v
unfolding read_u64
read_u64-bytes v rest h =
    read_loop_lem 64 8 (u64_bytes v) 0 (le_bytes-IsByte 8 0 v) (omega (arith, le_value-u64 v h))
    ∙ omega (arith, le_value-u64 v h)

-- A signed 64-bit integer is read back from the eight bytes that its store writes, whatever follows
-- them.
pub read_i64-bytes : (z : ℤ) (rest : Bytes) → IsI64 z → read_i64 (i64_bytes z ++ rest) ≡ z
unfolding read_i64
read_i64-bytes z rest h = rw (read_u64-bytes (word64 z) rest (word64-lt z)) (signed64-word64 z h)

pub read_i16-bytes : (z : ℤ) (rest : Bytes) → IsI16 z → read_i16 (i16_bytes z ++ rest) ≡ z
unfolding read_i16
read_i16-bytes z rest h = rw (read_u16-bytes (word16 z) rest (word16-lt z)) (signed16-word16 z h)

pub read_u16-lt : (src : Bytes) → read_u16 src < 2 ^ 16
unfolding read_u16
read_u16-lt src = omega arith

-- Two bytes are the encoding of the number that they are read as.
pub u16_bytes-read_u16 :
    (a b : ℕ) (rest : Bytes) → a < 256 → b < 256 → u16_bytes (read_u16 (a ∷ b ∷ rest)) ≡ a ∷ b ∷ []
unfolding read_u16
u16_bytes-read_u16 a b rest ha hb =
    let e : bit_or a (b * 2 ^ 8) % 2 ^ 16 ≡ a + b * 256 =
      rw (bit_or_comm a (b * 2 ^ 8), bit_or-add 8 b a ha) (omega arith) in
    let lo : (a + b * 256) % 256 ≡ a = omega arith in
    let hi : (a + b * 256) / 2 ^ 8 % 256 ≡ b = omega arith in rw e (ap₂ (λ x y. x ∷ y ∷ []) lo hi)

pub All-IsByte-drop : (n : ℕ) (xs : Bytes) → All IsByte xs → All IsByte (drop n xs)
All-IsByte-drop zero xs h = h
All-IsByte-drop (suc n) [] h = tt
All-IsByte-drop (suc n) (x ∷ xs) h = All-IsByte-drop n xs h.1
