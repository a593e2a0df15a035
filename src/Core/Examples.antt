-- ===== src/Core/Examples.antt =====
-- Concrete runs of the core helpers.
use crowdy_cpp.Base.{
  ℕ, ◌≡◌, ◌≢◌, ◌⊎◌, refl, ap, false, none, some, [], ◌∷◌, ◌++◌, All, zero, suc, length, replicate,
  arith, subst,
}
use crowdy_cpp.Base.Int.{negsuc}
use crowdy_cpp.Core.Result.{Errc, value, error}
use crowdy_cpp.Core.Le.{Bytes, IsByte, i64_bytes, read_i64, read_i64-bytes}
use crowdy_cpp.Core.Crypto.{ICrypto}
use crowdy_cpp.Core.Base64.{base64_encode, base64_url_encode, base64_decode}
use crowdy_cpp.Core.Base64.RoundTrip.{base64_decode-encode, base64_decode-url_encode}
use crowdy_cpp.Core.Uuid.{try_generate_actor_uuid, IsRandom, IsHex, try_generate_actor_uuid_lem}

abbrev dull_bytes : ℕ → Bytes
dull_bytes len = replicate len 171

-- A provider whose random bytes are all 171.
abbrev dull : ICrypto
dull = record {
  availability = Errc.ok;
  hmac_sha256 = λ key message. none;
  constant_time_equals = λ a b. false;
  random_bytes = λ len. some (dull_bytes len);
}

length-dull_bytes : (len : ℕ) → (length (dull_bytes len) ≡ len) × All IsByte (dull_bytes len)
length-dull_bytes zero = (refl, tt)
length-dull_bytes (suc len) =
    let (size, bytes) = length-dull_bytes len in (ap suc size, (omega arith, bytes))

dull-IsRandom : IsRandom dull
dull-IsRandom len raw e =
    let same : replicate len 171 ≡ raw = cc e in
    subst (λ (r : Bytes). (length r ≡ len) × All IsByte r) same (length-dull_bytes len)

uuid_example :
    ((dull.availability ≢ Errc.ok) × (try_generate_actor_uuid dull ≡ error dull.availability))
    ⊎ (((dull.random_bytes 16 ≡ none)
          × (try_generate_actor_uuid dull ≡ error Errc.crypto_unavailable))
        ⊎ ((uuid : Bytes) × (try_generate_actor_uuid dull ≡ value uuid)
            × (length uuid ≡ 32)
            × All IsHex uuid))
uuid_example = try_generate_actor_uuid_lem dull dull-IsRandom

negative_example : read_i64 (i64_bytes (negsuc 41) ++ (7 ∷ [])) ≡ negsuc 41
negative_example = read_i64-bytes (negsuc 41) (7 ∷ []) (ground arith)

abbrev octets : Bytes
octets = 0 ∷ 255 ∷ 62 ∷ 7 ∷ []

octets-IsByte : All IsByte octets
octets-IsByte = (omega arith, (omega arith, (omega arith, (omega arith, tt))))

octets_decoded : base64_decode (base64_encode octets) ≡ some octets
octets_decoded = base64_decode-encode octets octets-IsByte

octets_url_decoded : base64_decode (base64_url_encode octets) ≡ some octets
octets_url_decoded = base64_decode-url_encode octets octets-IsByte
