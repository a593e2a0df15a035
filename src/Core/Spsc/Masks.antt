-- ===== src/Core/Spsc/Masks.antt =====
-- Indices of SpscRing (include/crowdy/core/spsc.hpp): the mask of a power of two, and places of nearby
-- counts.
use Prim.Native.Nat.{◌∣◌, digits, bit_and-bitwise}
use native.Mathlib.Nat.{
  pow-suc, mod-eq_of_lt, mod-eq-sub-mod, add-mul-mod_self_right, mod-add-div', mod-lt, one-le-pow,
  mod-add-mod, zero-mod, dvd_refl, dvd-mul_right_of_dvd, mod-mod_of_dvd, pow-le-pow_right,
}
use crowdy_cpp.Base.{
  ℕ, zero, suc, ◌+◌, ◌-◌, ◌*◌, ◌/◌, ◌%◌, ◌^◌, ◌≡◌, ◌≤◌, ◌<◌, sym, ap, ◌∙◌, subst, bit_and, min,
  arith, dec_le,
}

-- The remainder by 2^(k+1) from the lowest digit and the remainder of the rest.
mod_pow_step : (k a : ℕ) → a % 2 ^ suc k ≡ a / 2 % 2 ^ k * 2 + a % 2
mod_pow_step k a =
    let m = 2 ^ k in
    let r = a / 2 % m in
    let positive : 1 ≤ m = one-le-pow k 2 (omega arith) in
    let less : r < m = mod-lt (a / 2) (omega (arith, positive)) in
    let double : 2 ^ suc k ≡ m * 2 = pow-suc 2 k in
    let whole : r + a / 2 / m * m ≡ a / 2 = mod-add-div' (a / 2) m in
    let split : a ≡ (r * 2 + a % 2) + a / 2 / m * (m * 2) = ground (arith, whole) in
    let small : r * 2 + a % 2 < m * 2 = omega (arith, less) in
    ap (λ n. a % n) double
    ∙ ap (λ n. n % (m * 2)) split
    ∙ add-mul-mod_self_right (r * 2 + a % 2) (a / 2 / m) (m * 2)
    ∙ mod-eq_of_lt small

-- The digits of a number under a mask of `k` ones.
masked : (fuel k a : ℕ) → a ≤ fuel → digits (λ b. 0) min fuel a (2 ^ k - 1) ≡ a % 2 ^ k
masked zero k zero h = sym (zero-mod (2 ^ k))
masked zero k (suc a) h = absurd (omega arith)
masked (suc fuel) k zero h = sym (zero-mod (2 ^ k))
masked (suc fuel) zero (suc a) h = omega (arith, masked fuel zero (suc a / 2) (omega arith))
masked (suc fuel) (suc k) (suc a) h =
    let positive : 1 ≤ 2 ^ k = one-le-pow k 2 (omega arith) in
    let double : 2 ^ suc k ≡ 2 ^ k * 2 = pow-suc 2 k in
    let half : (2 ^ suc k - 1) / 2 ≡ 2 ^ k - 1 = omega (arith, positive, double) in
    let odd : (2 ^ suc k - 1) % 2 ≡ 1 = omega (arith, positive, double) in
    rw (half, odd, masked fuel k (suc a / 2) (omega arith)) (omega (arith, mod_pow_step k (suc a)))

-- The mask of 2^k takes the remainder.
pub bit_and-mask : (k a : ℕ) → bit_and a (2 ^ k - 1) ≡ a % 2 ^ k
bit_and-mask k a = bit_and-bitwise a (2 ^ k - 1) ∙ masked a k a (omega arith)

-- Counts less than `m` apart stand at different places.
pub mod_apart : (m c d : ℕ) → 0 < d → d < m → (c % m ≡ (c + d) % m) → ⊥
mod_apart m c d positive less e =
    let r = c % m in
    let r_less : r < m = mod-lt c (omega (arith, less)) in
    let shifted : (r + d) % m ≡ r = mod-add-mod c m d ∙ sym e in
    elim (dec_le m (r + d)) [
      | yes over ↦
          let back : (r + d - m) % m ≡ r = sym (mod-eq-sub-mod over) ∙ shifted in
          let plain : (r + d - m) % m ≡ r + d - m = mod-eq_of_lt (omega (arith, r_less, less)) in
          omega (arith, back, plain, over, less)
      | no under ↦
          let below : r + d < m = omega (arith, under) in
          omega (arith, shifted, mod-eq_of_lt below, positive)
    ]

pow_divides : (d k : ℕ) → 2 ^ k ∣ 2 ^ (d + k)
pow_divides zero k =
    let same : k ≡ 0 + k = omega arith in subst (λ (n : ℕ). 2 ^ k ∣ 2 ^ n) same (dvd_refl (2 ^ k))
pow_divides (suc d) k =
    let same : suc (d + k) ≡ suc d + k = omega arith in
    subst (λ (n : ℕ). 2 ^ k ∣ 2 ^ n) same
      (subst (λ (m : ℕ). 2 ^ k ∣ m) (sym (pow-suc 2 (d + k)))
        (dvd-mul_right_of_dvd (2 ^ k) (pow_divides d k) 2))

-- The place of a count, from its word of 64 bits.
pub place_of : (k n : ℕ) → k < 64 → bit_and (n % 2 ^ 64) (2 ^ k - 1) ≡ n % 2 ^ k
place_of k n small =
    let top : 64 - k + k ≡ 64 = omega (arith, small) in
    let divides : 2 ^ k ∣ 2 ^ 64 = subst (λ (m : ℕ). 2 ^ k ∣ 2 ^ m) top (pow_divides (64 - k) k) in
    bit_and-mask k (n % 2 ^ 64) ∙ mod-mod_of_dvd (2 ^ k) n divides

pub capacity-lt : (k : ℕ) → k < 64 → (1 ≤ 2 ^ k) × (2 ^ k < 2 ^ 64)
capacity-lt k small =
    let below : k ≤ 63 = omega (arith, small) in
    let positive : 0 < 2 = omega arith in
    let bound : 2 ^ k ≤ 2 ^ 63 = pow-le-pow_right positive below in
    (one-le-pow k 2 positive, omega (arith, bound))
