-- ===== src/Wire/Spatial/Sections.antt =====
-- The sections of a long spatial message (include/crowdy/wire/codec.hpp), and those of a datagram.
use crowdy_cpp.Base.{
  ℕ, zero, suc, ◌+◌, ◌-◌, ◌≡◌, ◌≤◌, ◌<◌, refl, sym, ap, ◌∙◌, Bool, true, false, not, ◌==◌, [], ◌∷◌,
  ◌++◌, length, drop, length-take, length-drop, drop-drop, take-append-drop, drop_all, get_or,
  arith,
}
use crowdy_cpp.Base.Buffers.{slice}
use crowdy_cpp.Core.Le.{Bytes, read_i64, read_i64-take}
use crowdy_cpp.Wire.Protocol.{is_long_spatial_layout}
use crowdy_cpp.Wire.Spatial.{LongSpatialView, view_of, auth_of, tail_size}

-- The sections of a long spatial message.
pub record Sections : Type 0 where
  pub type : ℕ
  pub app_id : Bytes
  pub x : Bytes
  pub y : Bytes
  pub z : Bytes
  pub distance : ℕ
  pub decay : ℕ
  pub auth : ℕ
  pub uuid : Bytes
  pub payload : Bytes
  pub tag : Bytes
  pub epoch : Bytes
  pub sequence : ℕ

-- A message with an auth byte of 0 has no tag.
abbrev pub tag_octets : ℕ → ℕ
tag_octets zero = 0
tag_octets (suc n) = 32

abbrev pub carries_tag : ℕ → Bool
carries_tag zero = false
carries_tag (suc n) = true

pub record IsSections (s : Sections) : Type 0 where
  pub type : is_long_spatial_layout s.type ≡ true
  pub app_id : length s.app_id ≡ 8
  pub x : length s.x ≡ 8
  pub y : length s.y ≡ 8
  pub z : length s.z ≡ 8
  pub uuid : length s.uuid ≡ 32
  pub tag : length s.tag ≡ tag_octets s.auth
  pub epoch : length s.epoch ≡ 8

abbrev pub behind_payload : Sections → Bytes
behind_payload s = s.tag ++ (s.epoch ++ (s.sequence ∷ []))

abbrev pub behind_chunk : Sections → Bytes
behind_chunk s = s.distance ∷ s.decay ∷ s.auth ∷ (s.uuid ++ (s.payload ++ behind_payload s))

-- The message that the sections make, one behind the other.
abbrev pub joined : Sections → Bytes
joined s = s.type ∷ (s.app_id ++ (s.x ++ (s.y ++ (s.z ++ behind_chunk s))))

-- What the receiver sees of them.
abbrev pub seen : Sections → LongSpatialView
seen s = record {
  type = s.type;
  app_id = read_i64 s.app_id;
  chunk = record { x = read_i64 s.x; y = read_i64 s.y; z = read_i64 s.z };
  distance = s.distance;
  decay = s.decay;
  contains_auth = carries_tag s.auth;
  uuid = s.uuid;
  payload = s.payload;
  epoch_millis_or_token_id = read_i64 s.epoch;
  sequence = s.sequence;
}

abbrev pub IsMessage : Bytes → LongSpatialView → Type 0
IsMessage b w = (s : Sections) × IsSections s × (b ≡ joined s) × (w ≡ seen s)

pub tail_octets : (auth : ℕ) → tail_size (not (auth == 0)) ≡ tag_octets auth + 9
tail_octets zero = refl
tail_octets (suc n) = ground arith

carries : (auth : ℕ) → not (auth == 0) ≡ carries_tag auth
carries zero = refl
carries (suc n) = ground arith

-- A section of a buffer, with what is behind it.
cut : (n k : ℕ) (b : Bytes) → drop k b ≡ slice b k n ++ drop (k + n) b
cut n k b = sym (take-append-drop n (drop k b)) ∙ ap (λ r. slice b k n ++ r) (drop-drop n k b)

cut_one : (k : ℕ) (b : Bytes) → k < length b → drop k b ≡ get_or b k 0 ∷ drop (k + 1) b
cut_one zero [] h = absurd (omega arith)
cut_one zero (x ∷ b) h = refl
cut_one (suc k) [] h = absurd (omega arith)
cut_one (suc k) (x ∷ b) h =
    let e : suc (k + 1) ≡ suc k + 1 = omega arith in
    cut_one k b (omega arith) ∙ ap (λ m. get_or b k 0 ∷ drop m (x ∷ b)) e

length-slice : (n k : ℕ) (b : Bytes) → k + n ≤ length b → length (slice b k n) ≡ n
length-slice n k b h = omega (arith, length-take n (drop k b), length-drop k b)

-- The sections of a datagram with `n` bytes of payload.
abbrev pub sections_of : Bytes → ℕ → Sections
sections_of b n =
    let k = 68 + n + tag_octets (get_or b 35 0) in
    record {
      type = get_or b 0 0;
      app_id = slice b 1 8;
      x = slice b 9 8;
      y = slice b 17 8;
      z = slice b 25 8;
      distance = get_or b 33 0;
      decay = get_or b 34 0;
      auth = get_or b 35 0;
      uuid = slice b 36 32;
      payload = slice b 68 n;
      tag = slice b (68 + n) (tag_octets (get_or b 35 0));
      epoch = slice b k 8;
      sequence = get_or b (k + 8) 0;
    }

module _ (b : Bytes) (n : ℕ) (whole : 68 + n + tag_octets (get_or b 35 0) + 9 ≡ length b) where
  pub sections_of-joined : b ≡ joined (sections_of b n)
  sections_of-joined =
      let s = sections_of b n in
      let k = 68 + n + tag_octets (get_or b 35 0) in
      let last : drop (k + 8) b ≡ s.sequence ∷ [] =
        cut_one (k + 8) b (omega arith)
        ∙ ap (λ r. s.sequence ∷ r) (drop_all (k + 8 + 1) b (omega arith)) in
      let tail : drop (68 + n) b ≡ behind_payload s =
        cut (tag_octets (get_or b 35 0)) (68 + n) b
        ∙ ap (λ r. s.tag ++ r) (cut 8 k b ∙ ap (λ r. s.epoch ++ r) last) in
      let body : drop 36 b ≡ s.uuid ++ (s.payload ++ behind_payload s) =
        cut 32 36 b ∙ ap (λ r. s.uuid ++ r) (cut n 68 b ∙ ap (λ r. s.payload ++ r) tail) in
      let flags : drop 33 b ≡ behind_chunk s =
        cut_one 33 b (omega arith)
        ∙ ap (λ r. s.distance ∷ r)
            (cut_one 34 b (omega arith)
              ∙ ap (λ r. s.decay ∷ r) (cut_one 35 b (omega arith) ∙ ap (λ r. s.auth ∷ r) body)) in
      cut_one 0 b (omega arith)
      ∙ ap (λ r. s.type ∷ r)
          (cut 8 1 b
            ∙ ap (λ r. s.app_id ++ r)
                (cut 8 9 b
                  ∙ ap (λ r. s.x ++ r)
                      (cut 8 17 b ∙ ap (λ r. s.y ++ r) (cut 8 25 b ∙ ap (λ r. s.z ++ r) flags))))

  pub sections_of-IsSections :
      is_long_spatial_layout (get_or b 0 0) ≡ true → IsSections (sections_of b n)
  sections_of-IsSections ty = record {
    type = ty;
    app_id = length-slice 8 1 b (omega arith);
    x = length-slice 8 9 b (omega arith);
    y = length-slice 8 17 b (omega arith);
    z = length-slice 8 25 b (omega arith);
    uuid = length-slice 32 36 b (omega arith);
    tag = length-slice (tag_octets (get_or b 35 0)) (68 + n) b (omega arith);
    epoch = length-slice 8 (68 + n + tag_octets (get_or b 35 0)) b (omega arith);
  }

  pub view_of-seen : view_of b (length b) (auth_of b) ≡ seen (sections_of b n)
  unfolding view_of
  view_of-seen =
      let k = 68 + n + tag_octets (get_or b 35 0) in
      let t = tail_octets (get_or b 35 0) in
      let pay : length b - 68 - tail_size (auth_of b) ≡ n = omega (arith, t, whole) in
      let at : length b - 9 ≡ k = omega (arith, whole) in
      let last : length b - 1 ≡ k + 8 = omega (arith, whole) in
      λ i. record {
        type = get_or b 0 0;
        app_id = sym (read_i64-take (drop 1 b)) i;
        chunk = record {
          x = sym (read_i64-take (drop 9 b)) i;
          y = sym (read_i64-take (drop 17 b)) i;
          z = sym (read_i64-take (drop 25 b)) i;
        };
        distance = get_or b 33 0;
        decay = get_or b 34 0;
        contains_auth = carries (get_or b 35 0) i;
        uuid = slice b 36 32;
        payload = slice b 68 (pay i);
        epoch_millis_or_token_id =
            (ap (λ j. read_i64 (drop j b)) at ∙ sym (read_i64-take (drop k b))) i;
        sequence = get_or b (last i) 0;
      }
