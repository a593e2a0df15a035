-- ===== src/Wire/Control.antt =====
-- Control frames of include/crowdy/wire/codec.hpp: errors, reconnect commands, signed bundles.
use crowdy_cpp.Base.{
  ℕ, ◌+◌, ◌-◌, ◌≡◌, ◌≢◌, ◌≤◌, ◌↔◌, ◌⊎◌, inl, inr, refl, sym, ap, ◌∙◌, true, false, not, ◌||◌,
  Option, some, List, [], ◌∷◌, ◌++◌, length, take, drop, length-append, length-drop, take-append,
  drop-append, get_or, ltb, leb, ◌==◌, if◌then◌else◌, arith, ap₂, suc, All, ℕ_discrete, le→leb,
}
use crowdy_cpp.Core.Result.{Errc, Status, is_ok, Result, value, error}
use crowdy_cpp.Core.Le.{Bytes}
use crowdy_cpp.Core.Crypto.{ICrypto, IMac, IsProvider}
use crowdy_cpp.Wire.MessageType
use crowdy_cpp.Wire.Protocol.{hmac_tag_size, generic_error_size, command_reconnect_size}
use crowdy_cpp.Wire.Hmac.{Token64, spatial_hmac, spatial_hmac-size, IsMacOption}
use crowdy_cpp.Wire.Spatial.{check_tag}
use crowdy_cpp.Wire.Spatial.Verify.{check_tag_iff}
use crowdy_cpp.Wire.Bundle.{for_each_message}
use crowdy_cpp.Wire.Bundle.Frames.{members, IsShort}
use crowdy_cpp.Wire.Bundle.Delivery.{for_each_message_signed}

pub record GenericErrorView : Type 0 where
  pub sequence : ℕ
  pub code : ℕ

pub parse_generic_error : Bytes → Result GenericErrorView
parse_generic_error b =
    if ltb (length b) generic_error_size || not (get_or b 0 0 == MessageType.generic_error)
    then error Errc.malformed
    else value (record { sequence = get_or b 1 0; code = get_or b 2 0 })

pub verify_command_reconnect : ICrypto → Bytes → Token64 → Status
verify_command_reconnect crypto b token =
    if not (length b == command_reconnect_size)
      || not (get_or b 0 0 == MessageType.command_reconnect)
    then Errc.malformed
    else if not (is_ok crypto.availability)
    then crypto.availability
    else check_tag crypto (crypto.hmac_sha256 token (get_or b 0 0 ∷ token)) (drop 1 b)

pub verify_signed_bundle : ICrypto → Bytes → Token64 → Option IMac → Status
verify_signed_bundle crypto b token mac =
    let body_len = length b - hmac_tag_size in
    if leb (length b) (hmac_tag_size + 1) || not (get_or b 0 0 == MessageType.message_bundle_signed)
    then Errc.malformed
    else if not (is_ok crypto.availability)
    then crypto.availability
    else check_tag crypto (spatial_hmac crypto (take body_len b) token mac) (drop body_len b)

-- An error frame yields its second and third byte, and nothing else parses.
pub parse_generic_error_iff :
    (b : Bytes) (v : GenericErrorView)
    → (parse_generic_error b ≡ value v) ↔ ((rest : Bytes) × (b ≡ 3 ∷ v.sequence ∷ v.code ∷ rest))
unfolding parse_generic_error
parse_generic_error_iff [] v = (λ e. absurd (cc e), λ p. absurd (cc p.1))
parse_generic_error_iff (a ∷ []) v = (λ e. absurd (cc e), λ p. absurd (cc p.1))
parse_generic_error_iff (a ∷ s ∷ []) v = (λ e. absurd (cc e), λ p. absurd (cc p.1))
parse_generic_error_iff (a ∷ s ∷ c ∷ rest) v =
    (λ e. (rest, ground (arith, e)), λ p. ground (arith, p.1))

verify_command_reconnect_step :
    (crypto : ICrypto) (b token tag : Bytes)
    → crypto.availability ≡ Errc.ok
    → crypto.hmac_sha256 token (22 ∷ token) ≡ some tag
    → length b ≡ 33
    → get_or b 0 0 ≡ 22
    → verify_command_reconnect crypto b token ≡ check_tag crypto (some tag) (drop 1 b)
unfolding verify_command_reconnect
verify_command_reconnect_step crypto b token tag avail h size ty =
    let g : (length b == 33) ≡ true = ground arith in
    let t : (get_or b 0 0 == 22) ≡ true = ground arith in rw (g, t, ty, h) (rw avail)

verify_command_reconnect_other :
    (crypto : ICrypto) (b token : Bytes)
    → (length b ≢ 33) ⊎ (get_or b 0 0 ≢ 22)
    → verify_command_reconnect crypto b token ≡ Errc.malformed
unfolding verify_command_reconnect
verify_command_reconnect_other crypto b token h = ground arith

head_tail : (b : Bytes) → 1 ≤ length b → b ≡ get_or b 0 0 ∷ drop 1 b
head_tail [] h = absurd (omega arith)
head_tail (x ∷ xs) h = refl

-- With an available provider that answers `tag` for the type byte and the token, a reconnect
-- command is accepted exactly when it is the type byte 22 followed by that tag.
pub verify_command_reconnect_iff :
    (crypto : ICrypto) (b : Bytes) (token : Token64) (tag : Bytes)
    → IsProvider crypto
    → crypto.availability ≡ Errc.ok
    → crypto.hmac_sha256 token (22 ∷ token) ≡ some tag
    → (verify_command_reconnect crypto b token ≡ Errc.ok) ↔ (b ≡ 22 ∷ tag)
verify_command_reconnect_iff crypto b token tag c avail h =
    let ht = c.tag_size token (22 ∷ token) tag h in
    let other : (length b ≢ 33) ⊎ (get_or b 0 0 ≢ 22)
        → (verify_command_reconnect crypto b token ≡ Errc.ok) ↔ (b ≡ 22 ∷ tag) =
      λ n.
        let bad = verify_command_reconnect_other crypto b token n in
        (
          (λ e. absurd (cc bad)),
          λ e. absurd (elim n [
            | inl size ↦ size (ap length e ∙ ap suc ht)
            | inr ty ↦ ty (ap (λ d. get_or d 0 0) e)
          ]),
        ) in
    elim (ℕ_discrete (length b) 33) [
      | no size ↦ other (inl size)
      | yes size ↦ elim (ℕ_discrete (get_or b 0 0) 22) [
        | no ty ↦ other (inr ty)
        | yes ty ↦
            let step = verify_command_reconnect_step crypto b token tag avail h size ty in
            let split = head_tail b (omega arith) in
            let iff = check_tag_iff crypto c tag (drop 1 b) ht (omega (arith, length-drop 1 b)) in
            ((λ e. split ∙ ap₂ ◌∷◌ ty (iff.0 (sym step ∙ e))), λ e. step ∙ iff.1 (ap (drop 1) e))
      ]
    ]

-- A bundle of any members that ends in the tag of this client's token over all bytes before it
-- verifies; walking it then delivers exactly its members.
pub verify_signed_bundle-members :
    (crypto : ICrypto) (token : Token64) (mac : Option IMac) (m : Bytes) (ms : List Bytes)
    (tag : Bytes)
    → IsProvider crypto
    → IsMacOption crypto token mac
    → crypto.availability ≡ Errc.ok
    → All IsShort (m ∷ ms)
    → spatial_hmac crypto (30 ∷ members (m ∷ ms)) token mac ≡ some tag
    → (verify_signed_bundle crypto ((30 ∷ members (m ∷ ms)) ++ tag) token mac ≡ Errc.ok)
      × (for_each_message ((30 ∷ members (m ∷ ms)) ++ tag) ≡ some (m ∷ ms, Errc.ok))
unfolding verify_signed_bundle
verify_signed_bundle-members crypto token mac m ms tag c mo avail short h =
    let body = 30 ∷ members (m ∷ ms) in
    let d = body ++ tag in
    let ht = (spatial_hmac-size crypto body token mac c mo h).0 in
    let size = length-append body tag in
    let n : length d - 32 ≡ length body = omega (arith, size) in
    let long : leb (length d) 33 ≡ false = le→leb (length d) 33 (omega (arith, size)) in
    let front : take (length d - 32) d ≡ body = take-append (length d - 32) body tag n in
    let back : drop (length d - 32) d ≡ tag = drop-append (length d - 32) body tag n in
    let same = check_tag_iff crypto c tag tag ht ht in
    (rw (long, front, back, h, same.1 refl) (rw avail), for_each_message_signed m ms tag short ht)
