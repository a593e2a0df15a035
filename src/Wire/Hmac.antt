-- ===== src/Wire/Hmac.antt =====
-- The client HMAC of include/crowdy/wire/codec.hpp: HMAC-SHA256(token, prefix || token).
use crowdy_cpp.Base.{
  ◌≡◌, sym, ◌∙◌, Option, none, some, [], ◌∷◌, ◌++◌, length, ◌==◌, ltb, ◌≤◌, if◌then◌else◌, arith,
  append-nil, le→ltb, Bool-cases, inl, inr,
}
use crowdy_cpp.Core.Le.{Bytes}
use crowdy_cpp.Core.Crypto.{ICrypto, IMac, IsProvider, IsMacFor}
use crowdy_cpp.Wire.Protocol.{token_octets, max_datagram_size}

-- `Token64` is its 64 octets; `fromString` refuses any other length.
abbrev pub Token64 : Type 0
Token64 = Bytes

pub from_string : Bytes → Option Token64
from_string s = if length s == token_octets then some s else none

unfoldable pub spatial_hmac : ICrypto → Bytes → Token64 → Option IMac → Option Bytes
spatial_hmac crypto pref token mac =
    if ltb max_datagram_size (length pref) then none else elim mac [
      | some m ↦ m.compute (pref ∷ token ∷ [])
      | none ↦ crypto.hmac_sha256 token (pref ++ token)
    ]

-- A pre-keyed MAC that the provider made for this token, or none.
abbrev pub IsMacOption : ICrypto → Token64 → Option IMac → Type 0
IsMacOption crypto token none = Unit {0}
IsMacOption crypto token (some m) = IsMacFor crypto token m

-- With either signing path the tag is that of the provider on prefix || token.
pub spatial_hmac_lem :
    (crypto : ICrypto) (pref : Bytes) (token : Token64) (mac : Option IMac)
    → IsMacOption crypto token mac
    → length pref ≤ max_datagram_size
    → spatial_hmac crypto pref token mac ≡ crypto.hmac_sha256 token (pref ++ token)
unfolding spatial_hmac
spatial_hmac_lem crypto pref token none h k = rw (le→ltb max_datagram_size (length pref) k)
spatial_hmac_lem crypto pref token (some m) h k =
    rw (le→ltb max_datagram_size (length pref) k) (rw (append-nil) at (h (pref ∷ token ∷ [])))

pub spatial_hmac-size :
    (crypto : ICrypto) (pref : Bytes) (token : Token64) (mac : Option IMac) {tag : Bytes}
    → IsProvider crypto
    → IsMacOption crypto token mac
    → spatial_hmac crypto pref token mac ≡ some tag
    → (length tag ≡ 32) × (length pref ≤ max_datagram_size)
unfolding spatial_hmac
spatial_hmac-size crypto pref token mac {tag} c h e =
    elim (Bool-cases (ltb max_datagram_size (length pref))) [
      | inl big ↦ ground (arith, big)
      | inr small ↦
          let k : length pref ≤ max_datagram_size = ground arith in
          let m = spatial_hmac_lem crypto pref token mac h k in
          (c.tag_size token (pref ++ token) tag (sym m ∙ e), k)
    ]

-- Both signing paths give one tag.
pub spatial_hmac_unique :
    (crypto : ICrypto) (pref : Bytes) (token : Token64) (mac mac' : Option IMac) {tag : Bytes}
    → IsProvider crypto
    → IsMacOption crypto token mac
    → IsMacOption crypto token mac'
    → spatial_hmac crypto pref token mac ≡ some tag
    → spatial_hmac crypto pref token mac' ≡ some tag
spatial_hmac_unique crypto pref token mac mac' c m m' e =
    let fits = (spatial_hmac-size crypto pref token mac c m e).1 in
    spatial_hmac_lem crypto pref token mac' m' fits
    ∙ sym (spatial_hmac_lem crypto pref token mac m fits)
    ∙ e
