-- ===== src/Core/Base64.antt =====
-- src/core/base64.cpp: base64 and its URL form. Text is the list of its characters' codes.
pub mod RoundTrip
use crowdy_cpp.Base.{
  ℕ, zero, suc, ◌+◌, ◌-◌, ◌*◌, ◌/◌, ◌%◌, ◌^◌, ◌≡◌, ◌≢◌, ◌≤◌, ◌<◌, ◌⊎◌, inl, inr, refl, sym, ap, ap₂,
  ◌∙◌, Bool, true, false, not, ◌&&◌, ◌||◌, Option, none, some, Option-cases, Bool-cases, bit_or,
  bit_or-add, bit_or_comm, List, [], ◌∷◌, ◌++◌, All, length, get_or, ltb, leb, ◌==◌, if◌then◌else◌,
  arith,
}
use crowdy_cpp.Core.Le.{Bytes, IsByte}

-- The characters of `kStd`, and of `kUrl`.
abbrev pub std_alphabet : Bytes
std_alphabet =
    65 ∷ 66 ∷ 67 ∷ 68 ∷ 69 ∷ 70 ∷ 71 ∷ 72 ∷ 73 ∷ 74 ∷ 75 ∷ 76 ∷ 77 ∷ 78 ∷ 79 ∷ 80 ∷ 81 ∷ 82 ∷ 83
    ∷ 84 ∷ 85 ∷ 86 ∷ 87 ∷ 88 ∷ 89 ∷ 90 ∷ 97 ∷ 98 ∷ 99 ∷ 100 ∷ 101 ∷ 102 ∷ 103 ∷ 104 ∷ 105 ∷ 106
    ∷ 107 ∷ 108 ∷ 109 ∷ 110 ∷ 111 ∷ 112 ∷ 113 ∷ 114 ∷ 115 ∷ 116 ∷ 117 ∷ 118 ∷ 119 ∷ 120 ∷ 121 ∷ 122
    ∷ 48 ∷ 49 ∷ 50 ∷ 51 ∷ 52 ∷ 53 ∷ 54 ∷ 55 ∷ 56 ∷ 57 ∷ 43 ∷ 47 ∷ []

abbrev pub url_alphabet : Bytes
url_alphabet =
    65 ∷ 66 ∷ 67 ∷ 68 ∷ 69 ∷ 70 ∷ 71 ∷ 72 ∷ 73 ∷ 74 ∷ 75 ∷ 76 ∷ 77 ∷ 78 ∷ 79 ∷ 80 ∷ 81 ∷ 82 ∷ 83
    ∷ 84 ∷ 85 ∷ 86 ∷ 87 ∷ 88 ∷ 89 ∷ 90 ∷ 97 ∷ 98 ∷ 99 ∷ 100 ∷ 101 ∷ 102 ∷ 103 ∷ 104 ∷ 105 ∷ 106
    ∷ 107 ∷ 108 ∷ 109 ∷ 110 ∷ 111 ∷ 112 ∷ 113 ∷ 114 ∷ 115 ∷ 116 ∷ 117 ∷ 118 ∷ 119 ∷ 120 ∷ 121 ∷ 122
    ∷ 48 ∷ 49 ∷ 50 ∷ 51 ∷ 52 ∷ 53 ∷ 54 ∷ 55 ∷ 56 ∷ 57 ∷ 45 ∷ 95 ∷ []

-- `alphabet[(n >> shift) & 63]`
abbrev sextet : Bytes → ℕ → ℕ → ℕ
sextet alphabet n shift = get_or alphabet (n / 2 ^ shift % 64) 0

-- Groups of three bytes, then a rest of two, one or none.
pub encode_with : Bytes → Bool → Bytes → Bytes
encode_with alphabet pad [] = []
encode_with alphabet pad (a ∷ []) =
    let n = a * 2 ^ 16 in
    sextet alphabet n 18 ∷ sextet alphabet n 12 ∷ (if pad then 61 ∷ 61 ∷ [] else [])
encode_with alphabet pad (a ∷ b ∷ []) =
    let n = bit_or (a * 2 ^ 16) (b * 2 ^ 8) in
    sextet alphabet n 18
    ∷ sextet alphabet n 12
    ∷ sextet alphabet n 6
    ∷ (if pad then 61 ∷ [] else [])
encode_with alphabet pad (a ∷ b ∷ c ∷ rest) =
    let n = bit_or (bit_or (a * 2 ^ 16) (b * 2 ^ 8)) c in
    sextet alphabet n 18
    ∷ sextet alphabet n 12
    ∷ sextet alphabet n 6
    ∷ sextet alphabet n 0
    ∷ encode_with alphabet pad rest

-- `none` is a result of -1.
pub decode_char : ℕ → Option ℕ
decode_char c =
    if leb 65 c && leb c 90
    then some (c - 65)
    else if leb 97 c && leb c 122
    then some (c - 97 + 26)
    else if leb 48 c && leb c 57
    then some (c - 48 + 52)
    else if (c == 43) || (c == 45)
    then some 62
    else if (c == 47) || (c == 95)
    then some 63
    else none

pub base64_encode : Bytes → Bytes
base64_encode bytes = encode_with std_alphabet true bytes

pub base64_url_encode : Bytes → Bytes
base64_url_encode bytes = encode_with url_alphabet false bytes

-- One byte in front of the rest of the result.
abbrev pub cons_byte : ℕ → Option Bytes → Option Bytes
cons_byte b none = none
cons_byte b (some bs) = some (b ∷ bs)

-- `c == '=' || c == '\n' || c == '\r'`
abbrev pub is_skipped : ℕ → Bool
is_skipped c = (c == 61) || (c == 10) || (c == 13)

-- The loop over the text: the accumulator, a word of 32 bits, and the bits it has to give.
pub decode_loop : Bytes → ℕ → ℕ → Option Bytes
decode_loop [] acc bits = some []
decode_loop (c ∷ text) acc bits = elim (is_skipped c) [
  | true ↦ decode_loop text acc bits
  | false ↦ elim (decode_char c) [
    | none ↦ none
    | some v ↦
        let acc' = bit_or (acc * 2 ^ 6 % 2 ^ 32) v in
        let bits' = bits + 6 in
        let left = if leb 8 bits' then bits' - 8 else bits' in
        let rest = decode_loop text acc' left in
        if leb 8 bits' then cons_byte (acc' / 2 ^ left % 256) rest else rest
  ]
]

pub base64_decode : Bytes → Option Bytes
base64_decode text = decode_loop text 0 0
