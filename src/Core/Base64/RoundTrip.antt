-- ===== src/Core/Base64/RoundTrip.antt =====
-- The decoder reads back what either encoder writes.
use crowdy_cpp.Base.{
  ℕ, zero, suc, ◌+◌, ◌-◌, ◌*◌, ◌/◌, ◌%◌, ◌^◌, ◌≡◌, ◌<◌, inl, inr, refl, sym, ap, ap₂, ◌∙◌, Bool,
  true, false, not, ◌&&◌, none, some, Option-cases, Bool-cases, bit_or, bit_or-add, [], ◌∷◌, All,
  length, get_or, leb, ◌==◌, if◌then◌else◌, arith,
}
use crowdy_cpp.Core.Le.{Bytes, IsByte}
use crowdy_cpp.Core.Base64.{
  std_alphabet, url_alphabet, encode_with, decode_char, decode_loop, cons_byte, is_skipped,
  base64_encode, base64_url_encode, base64_decode,
}

-- The value of a character that the decoder does not skip.
abbrev is_code : ℕ → ℕ → Bool
is_code c v = not (is_skipped c) && elim (decode_char c) [ none ↦ false | some w ↦ w == v ]

table_ok : ℕ → Bytes → Bool
table_ok v [] = true
table_ok v (c ∷ cs) = is_code c v && table_ok (v + 1) cs

table_ok-is_code :
    (v : ℕ) (cs : Bytes) (i : ℕ)
    → table_ok v cs ≡ true
    → i < length cs
    → is_code (get_or cs i 0) (v + i) ≡ true
unfolding table_ok
table_ok-is_code v [] i h k = absurd (omega (arith, k))
table_ok-is_code v (c ∷ cs) zero h k = ground (arith, h)
table_ok-is_code v (c ∷ cs) (suc i) h k =
    let ih = table_ok-is_code (v + 1) cs i (ground (arith, h)) (omega (arith, k)) in
    let e : v + 1 + i ≡ v + suc i = omega arith in ap (λ w. is_code (get_or cs i 0) w) (sym e) ∙ ih

std_ok : table_ok 0 std_alphabet ≡ true
unfolding table_ok decode_char
std_ok = refl

url_ok : table_ok 0 url_alphabet ≡ true
unfolding table_ok decode_char
url_ok = refl

is_code-some : (c v : ℕ) → is_code c v ≡ true → (is_skipped c ≡ false) × (decode_char c ≡ some v)
is_code-some c v h = elim (Bool-cases (is_skipped c)) [
  | inl skip ↦ absurd (cc (rw skip at h))
  | inr code ↦ elim (Option-cases (decode_char c)) [
    | inl missing ↦ absurd (cc (rw (code, missing) at h))
    | inr (w, found) ↦ (code, found ∙ ap some (ground (arith, rw (code, found) at h)))
  ]
]

decoded_nil : (acc bits : ℕ) → decode_loop [] acc bits ≡ some []
unfolding decode_loop
decoded_nil acc bits = refl

-- Padding is skipped.
decoded_pad :
    (pad : Bool) (text : Bytes) (acc bits : ℕ)
    → decode_loop text acc bits ≡ some []
    → decode_loop (if pad then 61 ∷ text else []) acc bits ≡ some []
unfolding decode_loop
decoded_pad true text acc bits h = h
decoded_pad false text acc bits h = refl

or_two : (a b : ℕ) → b < 256 → bit_or (a * 2 ^ 16) (b * 2 ^ 8) ≡ a * 2 ^ 16 + b * 2 ^ 8
or_two a b h = bit_or-add 16 a (b * 2 ^ 8) (omega (arith, h))

or_three :
    (a b c : ℕ)
    → b < 256
    → c < 256
    → bit_or (bit_or (a * 2 ^ 16) (b * 2 ^ 8)) c ≡ a * 2 ^ 16 + b * 2 ^ 8 + c
or_three a b c hb hc =
    let k : a * 2 ^ 16 + b * 2 ^ 8 ≡ (a * 2 ^ 8 + b) * 2 ^ 8 = omega arith in
    ap (λ x. bit_or x c) (or_two a b hb ∙ k) ∙ bit_or-add 8 (a * 2 ^ 8 + b) c hc ∙ omega arith

module _ (alphabet : Bytes) (ok : table_ok 0 alphabet ≡ true) (size : length alphabet ≡ 64) where
  -- One character of a value below 64.
  push_code :
      (v : ℕ) (text : Bytes) (acc bits left : ℕ)
      → v < 64
      → left ≡ (if leb 8 (bits + 6) then bits + 6 - 8 else bits + 6)
      → decode_loop (get_or alphabet v 0 ∷ text) acc bits ≡ (
          if leb 8 (bits + 6)
          then cons_byte
              ((acc * 64 + v) % 2 ^ 32 / 2 ^ left % 256)
              (decode_loop text ((acc * 64 + v) % 2 ^ 32) left)
          else decode_loop text ((acc * 64 + v) % 2 ^ 32) left)
  unfolding decode_loop
  push_code v text acc bits left h e =
      let zero_v : v ≡ 0 + v = omega arith in
      let (code, found) = is_code-some (get_or alphabet v 0) v (
        ap (λ w. is_code (get_or alphabet v 0) w) zero_v
        ∙ table_ok-is_code 0 alphabet v ok (omega (arith, size, h))) in
      let k : acc * 2 ^ 6 % 2 ^ 32 ≡ acc % 2 ^ 26 * 2 ^ 6 = omega arith in
      let sum : bit_or (acc * 2 ^ 6 % 2 ^ 32) v ≡ (acc * 64 + v) % 2 ^ 32 =
        ap (λ x. bit_or x v) k ∙ bit_or-add 6 (acc % 2 ^ 26) v h ∙ omega (arith, h) in
      rw (code, decode_loop, found, sum, sym e) refl

  group :
      (a b c acc : ℕ) (text : Bytes)
      → a < 256
      → b < 256
      → c < 256
      → let n = a * 2 ^ 16 + b * 2 ^ 8 + c in
        (acc' : ℕ) × (decode_loop
            (get_or alphabet (n / 2 ^ 18 % 64) 0
              ∷ get_or alphabet (n / 2 ^ 12 % 64) 0
              ∷ get_or alphabet (n / 2 ^ 6 % 64) 0
              ∷ get_or alphabet (n / 2 ^ 0 % 64) 0
              ∷ text)
            acc
            0
          ≡ cons_byte a (cons_byte b (cons_byte c (decode_loop text acc' 0))))
  group a b c acc text ha hb hc =
      let n = a * 2 ^ 16 + b * 2 ^ 8 + c in
      let v1 = n / 2 ^ 18 % 64 in
      let v2 = n / 2 ^ 12 % 64 in
      let v3 = n / 2 ^ 6 % 64 in
      let v4 = n / 2 ^ 0 % 64 in
      let acc1 = (acc * 64 + v1) % 2 ^ 32 in
      let acc2 = (acc1 * 64 + v2) % 2 ^ 32 in
      let acc3 = (acc2 * 64 + v3) % 2 ^ 32 in
      let acc4 = (acc3 * 64 + v4) % 2 ^ 32 in
      let e1 : acc2 / 2 ^ 4 % 256 ≡ a = omega (arith, ha, hb, hc) in
      let e2 : acc3 / 2 ^ 2 % 256 ≡ b = omega (arith, ha, hb, hc) in
      let e3 : acc4 / 2 ^ 0 % 256 ≡ c = omega (arith, ha, hb, hc) in
      (
        acc4,
        push_code v1 _ acc 0 6 (omega arith) refl
            ∙ push_code v2 _ acc1 6 4 (omega arith) refl
            ∙ ap₂ cons_byte e1 (
                push_code v3 _ acc2 4 2 (omega arith) refl
                ∙ ap₂ cons_byte e2 (
                    push_code v4 text acc3 2 0 (omega arith) refl
                    ∙ ap (λ x. cons_byte x (decode_loop text acc4 0)) e3)),
      )

  last_two :
      (a b acc : ℕ) (text : Bytes)
      → a < 256
      → b < 256
      → let n = a * 2 ^ 16 + b * 2 ^ 8 in
        (acc' : ℕ) × (decode_loop
            (get_or alphabet (n / 2 ^ 18 % 64) 0
              ∷ get_or alphabet (n / 2 ^ 12 % 64) 0
              ∷ get_or alphabet (n / 2 ^ 6 % 64) 0
              ∷ text)
            acc
            0
          ≡ cons_byte a (cons_byte b (decode_loop text acc' 2)))
  last_two a b acc text ha hb =
      let n = a * 2 ^ 16 + b * 2 ^ 8 in
      let v1 = n / 2 ^ 18 % 64 in
      let v2 = n / 2 ^ 12 % 64 in
      let v3 = n / 2 ^ 6 % 64 in
      let acc1 = (acc * 64 + v1) % 2 ^ 32 in
      let acc2 = (acc1 * 64 + v2) % 2 ^ 32 in
      let acc3 = (acc2 * 64 + v3) % 2 ^ 32 in
      let e1 : acc2 / 2 ^ 4 % 256 ≡ a = omega (arith, ha, hb) in
      let e2 : acc3 / 2 ^ 2 % 256 ≡ b = omega (arith, ha, hb) in
      (
        acc3,
        push_code v1 _ acc 0 6 (omega arith) refl
            ∙ push_code v2 _ acc1 6 4 (omega arith) refl
            ∙ ap₂ cons_byte e1 (
                push_code v3 text acc2 4 2 (omega arith) refl
                ∙ ap (λ x. cons_byte x (decode_loop text acc3 2)) e2),
      )

  last_one :
      (a acc : ℕ) (text : Bytes)
      → a < 256
      → let n = a * 2 ^ 16 in
        (acc' : ℕ) × (decode_loop
            (get_or alphabet (n / 2 ^ 18 % 64) 0 ∷ get_or alphabet (n / 2 ^ 12 % 64) 0 ∷ text)
            acc
            0
          ≡ cons_byte a (decode_loop text acc' 4))
  last_one a acc text ha =
      let n = a * 2 ^ 16 in
      let v1 = n / 2 ^ 18 % 64 in
      let v2 = n / 2 ^ 12 % 64 in
      let acc1 = (acc * 64 + v1) % 2 ^ 32 in
      let acc2 = (acc1 * 64 + v2) % 2 ^ 32 in
      let e1 : acc2 / 2 ^ 4 % 256 ≡ a = omega (arith, ha) in
      (
        acc2,
        push_code v1 _ acc 0 6 (omega arith) refl
            ∙ push_code v2 text acc1 6 4 (omega arith) refl
            ∙ ap (λ x. cons_byte x (decode_loop text acc2 4)) e1,
      )

  decode-encode_with :
      (pad : Bool) (bytes : Bytes) (acc : ℕ)
      → All IsByte bytes
      → decode_loop (encode_with alphabet pad bytes) acc 0 ≡ some bytes
  unfolding encode_with
  decode-encode_with pad [] acc h = decoded_nil acc 0
  decode-encode_with pad (a ∷ []) acc h =
      let (acc', run) = last_one a acc (if pad then 61 ∷ 61 ∷ [] else []) h.0 in
      run
      ∙ ap (cons_byte a)
          (decoded_pad pad (61 ∷ []) acc' 4 (decoded_pad true [] acc' 4 (decoded_nil acc' 4)))
  decode-encode_with pad (a ∷ b ∷ []) acc h =
      let (acc', run) = last_two a b acc (if pad then 61 ∷ [] else []) h.0 h.1.0 in
      rw (or_two a b h.1.0) (
        run
        ∙ ap (λ r. cons_byte a (cons_byte b r)) (decoded_pad pad [] acc' 2 (decoded_nil acc' 2)))
  decode-encode_with pad (a ∷ b ∷ c ∷ rest) acc h =
      let (acc', run) = group a b c acc (encode_with alphabet pad rest) h.0 h.1.0 h.1.1.0 in
      rw (or_three a b c h.1.0 h.1.1.0) (
        run
        ∙ ap (λ r. cons_byte a (cons_byte b (cons_byte c r)))
            (decode-encode_with pad rest acc' h.1.1.1))

-- Any list of bytes that is encoded with the standard alphabet and padding is decoded to itself.
pub base64_decode-encode :
    (bytes : Bytes) → All IsByte bytes → base64_decode (base64_encode bytes) ≡ some bytes
unfolding base64_decode base64_encode
base64_decode-encode bytes h = decode-encode_with std_alphabet std_ok refl true bytes 0 h

-- Any list of bytes that is encoded with the URL alphabet, without padding, is decoded to itself.
pub base64_decode-url_encode :
    (bytes : Bytes) → All IsByte bytes → base64_decode (base64_url_encode bytes) ≡ some bytes
unfolding base64_decode base64_url_encode
base64_decode-url_encode bytes h = decode-encode_with url_alphabet url_ok refl false bytes 0 h
