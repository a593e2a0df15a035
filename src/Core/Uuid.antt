-- ===== src/Core/Uuid.antt =====
-- include/crowdy/core/uuid.hpp and src/core/uuid.cpp: actor uuids, 32 characters each. Random bytes
-- come from the crypto provider.
use crowdy_cpp.Base.{
  ℕ, zero, suc, ◌+◌, ◌/◌, ◌%◌, ◌≡◌, ◌≢◌, ◌≤◌, ◌<◌, ◌⊎◌, inl, inr, refl, Bool, true, false, not,
  none, some, [], ◌∷◌, All, length, get_or, replicate, ◌==◌, if◌then◌else◌, Bool-cases,
  Option-cases, arith,
}
use crowdy_cpp.Core.Result.{Errc, is_ok, Result, value, error}
use crowdy_cpp.Core.Le.{Bytes, IsByte}
use crowdy_cpp.Core.Crypto.{ICrypto}

-- "0123456789abcdef"
abbrev hex_digits : Bytes
hex_digits = 48 ∷ 49 ∷ 50 ∷ 51 ∷ 52 ∷ 53 ∷ 54 ∷ 55 ∷ 56 ∷ 57 ∷ 97 ∷ 98 ∷ 99 ∷ 100 ∷ 101 ∷ 102 ∷ []

-- `out[2 i] = kHex[raw[i] >> 4]; out[2 i + 1] = kHex[raw[i] & 0x0f]`
hex_pairs : Bytes → Bytes
hex_pairs [] = []
hex_pairs (b ∷ raw) = get_or hex_digits (b / 16) 0 ∷ get_or hex_digits (b % 16) 0 ∷ hex_pairs raw

pub try_generate_actor_uuid : ICrypto → Result Bytes
try_generate_actor_uuid crypto =
    if not (is_ok crypto.availability)
    then error crypto.availability
    else elim (crypto.random_bytes 16) [
      | none ↦ error Errc.crypto_unavailable
      | some raw ↦ value (hex_pairs raw)
    ]

pub generate_actor_uuid : ICrypto → Bytes
generate_actor_uuid crypto = elim (try_generate_actor_uuid crypto) [
  | value uuid ↦ uuid
  | error code ↦ replicate 32 0
]

-- Whether the string was taken, and `out` after the call.
pub actor_uuid_from_string : Bytes → Bytes → Bool × Bytes
actor_uuid_from_string s out = if not (length s == length out) then (false, out) else (true, s)

-- What crypto.hpp documents of `randomBytes`: it fills the buffer with bytes.
abbrev pub IsRandom : ICrypto → Type 0
IsRandom crypto =
    (len : ℕ) (raw : Bytes)
    → crypto.random_bytes len ≡ some raw
    → (length raw ≡ len) × All IsByte raw

-- A lowercase hexadecimal character.
abbrev pub IsHex : ℕ → Type 0
IsHex c = ((48 ≤ c) × (c ≤ 57)) ⊎ ((97 ≤ c) × (c ≤ 102))

get_or-All : (P : ℕ → Type 0) (xs : Bytes) (i : ℕ) → All P xs → i < length xs → P (get_or xs i 0)
get_or-All P [] i h k = absurd (omega (arith, k))
get_or-All P (x ∷ xs) zero h k = h.0
get_or-All P (x ∷ xs) (suc i) h k = get_or-All P xs i h.1 (omega (arith, k))

digit-IsHex : (d : ℕ) → d < 16 → IsHex (get_or hex_digits d 0)
digit-IsHex d h = get_or-All IsHex hex_digits d (ground arith) h

hex_pairs-IsHex : (raw : Bytes) → All IsByte raw → All IsHex (hex_pairs raw)
unfolding hex_pairs
hex_pairs-IsHex [] h = tt
hex_pairs-IsHex (b ∷ raw) h = (
  digit-IsHex (b / 16) (omega (arith, h.0)),
  (digit-IsHex (b % 16) (omega arith), hex_pairs-IsHex raw h.1),
)

length-hex_pairs : (raw : Bytes) → length (hex_pairs raw) ≡ length raw + length raw
unfolding hex_pairs
length-hex_pairs [] = refl
length-hex_pairs (b ∷ raw) = omega (arith, length-hex_pairs raw)

-- With a provider whose random bytes are bytes, as many as asked for, generating an actor uuid
-- answers the provider's status when it is not available, `crypto_unavailable` when it gives no
-- random bytes, and otherwise 32 lowercase hexadecimal characters.
pub try_generate_actor_uuid_lem :
    (crypto : ICrypto)
    → IsRandom crypto
    → ((crypto.availability ≢ Errc.ok)
        × (try_generate_actor_uuid crypto ≡ error crypto.availability))
      ⊎ (((crypto.random_bytes 16 ≡ none)
            × (try_generate_actor_uuid crypto ≡ error Errc.crypto_unavailable))
          ⊎ ((uuid : Bytes) × (try_generate_actor_uuid crypto ≡ value uuid)
              × (length uuid ≡ 32)
              × All IsHex uuid))
unfolding try_generate_actor_uuid
try_generate_actor_uuid_lem crypto random = elim (Bool-cases (not (is_ok crypto.availability))) [
  | inl away ↦ inl ((λ e. absurd (cc (rw e at away))), rw away refl)
  | inr here ↦ elim (Option-cases (crypto.random_bytes 16)) [
    | inl dry ↦ inr (inl (dry, rw (here, dry) refl))
    | inr (raw, filled) ↦
        let (size, bytes) = random 16 raw filled in
        inr (
          inr (
            hex_pairs raw,
            rw (here, filled) refl,
            omega (arith, length-hex_pairs raw, size),
            hex_pairs-IsHex raw bytes,
          ))
  ]
]
