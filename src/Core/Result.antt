-- ===== src/Core/Result.antt =====
-- include/crowdy/core/result.hpp: the error codes and the exception-free result.
use crowdy_cpp.Base.{◌≡◌, refl, Bool, true, false, not, Option, none, some, if◌then◌else◌, arith}

pub data Errc : Type 0 where
  ok invalid_argument buffer_too_small malformed hmac_mismatch : Errc
  not_connected socket_error timeout token_expired rejected closed : Errc
  crypto_unavailable would_block cancelled : Errc

-- `Status` is its code.
abbrev pub Status : Type 0
Status = Errc

abbrev pub is_ok : Status → Bool
is_ok Errc.ok = true
is_ok _ = false

pub data Result {ℓ} (A : Type ℓ) : Type ℓ where
  value : A → Result A
  error : Errc → Result A

module _ {ℓ κ} {A : Type ℓ} {S : Type κ} where
  -- A call that gets past an early return did not take it.
  pub if-error-value :
      (b : Bool) (c : Errc) (s : S) (k : Result A × S) {t : A}
      → (if b then (error c, s) else k).0 ≡ value t
      → (b ≡ false) × (k.0 ≡ value t)
  if-error-value true c s k e = cc
  if-error-value false c s k e = (refl, e)

  -- A call that gets past a failure of its provider has the provider's answer.
  pub option-error-value {μ} :
      {T : Type μ} (o : Option T) (c : Errc) (s : S) (n : A) (f : T → S) {t : A}
      → (let r : Result A × S = elim o [ none ↦ (error c, s) | some a ↦ (value n, f a) ] in r).0
        ≡ value t
      → (a : T) × (o ≡ some a) × (n ≡ t)
  option-error-value none c s n f e = cc
  option-error-value (some a) c s n f e = (a, refl, cc)

pub is_ok→eq : (c : Status) → not (is_ok c) ≡ false → c ≡ Errc.ok
is_ok→eq c e = ground arith
