-- ===== src/Wire/Spatial/Verify.antt =====
-- `verify_long_spatial` against the tag that the provider computes.
use crowdy_cpp.Base.{
  ℕ, ◌-◌, ◌≡◌, ◌≢◌, ◌≤◌, ◌↔◌, refl, sym, ◌∙◌, ap, false, Option, some, [], ◌∷◌, ◌++◌, length, take,
  drop, length-append, length-take, length-drop, take-append, drop-append, append_assoc, get_or,
  arith, ltb, ◌==◌, le→ltb, Bool-cases, inl, inr, ◌⊎◌,
}
use crowdy_cpp.Base.Buffers.{slice}
use crowdy_cpp.Core.Result.{Errc, value}
use crowdy_cpp.Core.Le.{Bytes, i64_bytes}
use crowdy_cpp.Core.Crypto.{ICrypto, IMac, IsProvider}
use crowdy_cpp.Wire.Hmac.{
  Token64, spatial_hmac, spatial_hmac-size, spatial_hmac_unique, IsMacOption,
}
use crowdy_cpp.Wire.Spatial.{LongSpatialParams, encode_long_spatial, verify_long_spatial, check_tag}
use crowdy_cpp.Wire.Spatial.Encode.{
  signed_part, long_spatial_frame, length-long_spatial_frame, encode_long_spatial-ok,
}

module _ (crypto : ICrypto) (c : IsProvider crypto) where
  -- `constantTimeEquals` on two tags is the test of their equality.
  pub check_tag_iff :
      (tag found : Bytes)
      → length tag ≡ 32
      → length found ≡ 32
      → (check_tag crypto (some tag) found ≡ Errc.ok) ↔ (found ≡ tag)
  unfolding check_tag
  check_tag_iff tag found ht hf =
      let iff = c.tags_equal tag found ht hf in
      elim (Bool-cases (crypto.constant_time_equals tag found)) [
        | inl same ↦ ((λ e. sym (iff.0 same)), λ e. rw same)
        | inr other ↦ ((λ e. ground (arith, other)), λ e. ground (arith, other, iff.1 (sym e)))
      ]

check_tag_cases :
    (crypto : ICrypto) (tag found : Bytes)
    → (check_tag crypto (some tag) found ≡ Errc.ok)
      ⊎ (check_tag crypto (some tag) found ≡ Errc.hmac_mismatch)
unfolding check_tag
check_tag_cases crypto tag found = ground arith

verify_step :
    (crypto : ICrypto) (b : Bytes) (token : Token64) (mac : Option IMac) (tag : Bytes)
    → crypto.availability ≡ Errc.ok
    → get_or b 35 0 ≢ 0
    → 109 ≤ length b
    → spatial_hmac crypto (take (length b - 41) b) token mac ≡ some tag
    → verify_long_spatial crypto b token mac
      ≡ check_tag crypto (some tag) (slice b (length b - 41) 32)
unfolding verify_long_spatial
verify_step crypto b token mac tag avail signed size h =
    let g1 : ltb (length b) 77 ≡ false = le→ltb (length b) 77 (omega arith) in
    let g2 : ltb (length b) 109 ≡ false = le→ltb (length b) 109 size in
    let g3 : (get_or b 35 0 == 0) ≡ false = ground arith in rw (g1, g2, g3, h) (rw avail)

-- On a signed datagram of full size, with a provider that is available and computes `tag` for
-- the bytes in front of the HMAC field, verification answers `ok` exactly when that field holds
-- `tag`, and `hmac_mismatch` otherwise.
pub verify_long_spatial_iff :
    (crypto : ICrypto) (b : Bytes) (token : Token64) (mac : Option IMac) (tag : Bytes)
    → IsProvider crypto
    → IsMacOption crypto token mac
    → crypto.availability ≡ Errc.ok
    → get_or b 35 0 ≢ 0
    → 109 ≤ length b
    → spatial_hmac crypto (take (length b - 41) b) token mac ≡ some tag
    → ((verify_long_spatial crypto b token mac ≡ Errc.ok) ↔ (slice b (length b - 41) 32 ≡ tag))
      × ((verify_long_spatial crypto b token mac ≡ Errc.ok)
          ⊎ (verify_long_spatial crypto b token mac ≡ Errc.hmac_mismatch))
verify_long_spatial_iff crypto b token mac tag c m avail signed size h =
    let found = slice b (length b - 41) 32 in
    let ht = (spatial_hmac-size crypto (take (length b - 41) b) token mac c m h).0 in
    let hf : length found ≡ 32 =
      omega (arith, length-take 32 (drop (length b - 41) b), length-drop (length b - 41) b) in
    rw (verify_step crypto b token mac tag avail signed size h)
      (check_tag_iff crypto c tag found ht hf, check_tag_cases crypto tag found)

verify-frame :
    (crypto : ICrypto) (p : LongSpatialParams) (token : Token64) (mac : Option IMac) (tag : Bytes)
    → IsProvider crypto
    → length p.uuid ≡ 32
    → length tag ≡ 32
    → crypto.availability ≡ Errc.ok
    → spatial_hmac crypto (signed_part p) token mac ≡ some tag
    → verify_long_spatial crypto (long_spatial_frame p tag) token mac ≡ Errc.ok
verify-frame crypto p token mac tag c uuid ht avail h =
    let f = long_spatial_frame p tag in
    let rest = i64_bytes p.game_token_id ++ (p.sequence ∷ []) in
    let size = length-long_spatial_frame p tag uuid ht in
    let split : f ≡ signed_part p ++ (tag ++ rest) = simp append_assoc in
    let n : length f - 41 ≡ length (signed_part p) =
      omega (arith, size, uuid, length-append p.uuid p.payload) in
    let front : take (length f - 41) f ≡ signed_part p =
      ap (take (length f - 41)) split
      ∙ take-append (length f - 41) (signed_part p) (tag ++ rest) n in
    let found : slice f (length f - 41) 32 ≡ tag =
      ap (λ g. slice g (length f - 41) 32) split
      ∙ ap (take 32) (drop-append (length f - 41) (signed_part p) (tag ++ rest) n)
      ∙ take-append 32 tag rest (sym ht) in
    let mac_ok : spatial_hmac crypto (take (length f - 41) f) token mac ≡ some tag =
      ap (λ s. spatial_hmac crypto s token mac) front ∙ h in
    verify_step crypto f token mac tag avail (omega arith) (omega (arith, size)) mac_ok
    ∙ ap (check_tag crypto (some tag)) found
    ∙ (check_tag_iff crypto c tag tag ht ht).1 refl

-- With a provider as documented, pre-keyed MACs of this token or none, and a uuid of 32 bytes: what
-- the encoder signed, the receiver with the same token accepts.
pub verify-encode_long_spatial :
    (crypto : ICrypto) (p : LongSpatialParams) (token : Token64) (out : Bytes)
    (mac mac' : Option IMac) {total : ℕ}
    → IsProvider crypto
    → IsMacOption crypto token mac
    → IsMacOption crypto token mac'
    → length p.uuid ≡ 32
    → (encode_long_spatial crypto p token out mac).0 ≡ value total
    → verify_long_spatial crypto
        (take total (encode_long_spatial crypto p token out mac).1)
        token
        mac'
      ≡ Errc.ok
verify-encode_long_spatial crypto p token out mac mac' {total} c m m' uuid e =
    let (tag, signed, ht, ty, avail, len, front) =
      encode_long_spatial-ok crypto p token out mac e c m uuid in
    let same = spatial_hmac_unique crypto (signed_part p) token mac mac' c m m' signed in
    rw front (verify-frame crypto p token mac' tag c uuid ht avail same)
