-- ===== src/Core/Crypto.antt =====
-- include/crowdy/core/crypto.hpp: the pluggable crypto provider, whose primitives are a
-- parameter of the model, and the provider of src/core/crypto_unavailable.cpp.
use crowdy_cpp.Base.{
  ℕ, ◌≡◌, ◌↔◌, Bool, true, false, Option, none, some, List, [], ◌∷◌, ◌++◌, length,
}
use crowdy_cpp.Core.Result.{Errc, Status}
use crowdy_cpp.Core.Le.{Bytes}

-- The bytes of several parts, one after the other.
abbrev pub concat : List Bytes → Bytes
concat [] = []
concat (p ∷ ps) = p ++ concat ps

-- A MAC bound to one key. `none` is a `false` result.
pub record IMac : Type 0 where
  pub compute : List Bytes → Option Bytes

-- `none` is a `false` result, `some` what the provider wrote to `out`.
pub record ICrypto : Type 0 where
  pub availability : Status
  pub hmac_sha256 : Bytes → Bytes → Option Bytes
  pub constant_time_equals : Bytes → Bytes → Bool
  pub random_bytes : ℕ → Option Bytes

-- What crypto.hpp documents of a provider: tags have 32 bytes, and the comparison of two tags
-- is equality.
pub record IsProvider (c : ICrypto) : Type 0 where
  pub tag_size : (key message tag : Bytes) → c.hmac_sha256 key message ≡ some tag → length tag ≡ 32
  pub tags_equal :
      (a b : Bytes) → length a ≡ 32 → length b ≡ 32 → (c.constant_time_equals a b ≡ true) ↔ (a ≡ b)

-- A pre-keyed MAC answers as the one-shot call does on the parts joined.
abbrev pub IsMacFor : ICrypto → Bytes → IMac → Type 0
IsMacFor c key mac = (parts : List Bytes) → mac.compute parts ≡ c.hmac_sha256 key (concat parts)

-- `UnavailableCrypto`: every primitive fails.
abbrev pub unavailable_crypto : ICrypto
unavailable_crypto = record {
  availability = Errc.crypto_unavailable;
  hmac_sha256 = λ key message. none;
  constant_time_equals = λ a b. false;
  random_bytes = λ len. none;
}
