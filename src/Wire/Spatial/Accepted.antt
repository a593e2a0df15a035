-- ===== src/Wire/Spatial/Accepted.antt =====
-- Which datagrams `parseLongSpatial` of include/crowdy/wire/codec.hpp accepts, and what it sees.
use crowdy_cpp.Base.{
  ℕ, ◌+◌, ◌-◌, ◌≡◌, ◌≤◌, ◌↔◌, refl, sym, ap, ◌∙◌, true, [], ◌∷◌, ◌++◌, length, take, drop,
  length-append, drop-drop, take-append, drop-append, get_or, get_or-drop, arith,
}
use crowdy_cpp.Base.Buffers.{slice}
use crowdy_cpp.Core.Result.{value}
use crowdy_cpp.Core.Le.{Bytes}
use crowdy_cpp.Wire.Protocol.{is_long_spatial_layout}
use crowdy_cpp.Wire.Spatial.{LongSpatialView, view_of, parse_long_spatial, auth_of, tail_size}
use crowdy_cpp.Wire.Spatial.Sections.{
  Sections, tag_octets, IsSections, behind_payload, behind_chunk, joined, seen, IsMessage,
  tail_octets, sections_of, sections_of-joined, sections_of-IsSections, view_of-seen,
}

-- The parser's three tests, as one.
parse_long_spatial-value :
    (b : Bytes) (w : LongSpatialView)
    → parse_long_spatial b ≡ value w
    → (is_long_spatial_layout (get_or b 0 0) ≡ true)
      × (68 + tail_size (auth_of b) ≤ length b)
      × (w ≡ view_of b (length b) (auth_of b))
unfolding parse_long_spatial
parse_long_spatial-value b w e = ground (arith, e)

parse_long_spatial-accepts :
    (b : Bytes)
    → is_long_spatial_layout (get_or b 0 0) ≡ true
    → 68 + tail_size (auth_of b) ≤ length b
    → parse_long_spatial b ≡ value (view_of b (length b) (auth_of b))
unfolding parse_long_spatial
parse_long_spatial-accepts b ty fits = ground (arith, ty, fits)

parsed-IsMessage :
    (b : Bytes) (w : LongSpatialView) → parse_long_spatial b ≡ value w → IsMessage b w
parsed-IsMessage b w e =
    let (ty, fits, same) = parse_long_spatial-value b w e in
    let n = length b - 68 - tail_size (auth_of b) in
    let whole : 68 + n + tag_octets (get_or b 35 0) + 9 ≡ length b =
      omega (arith, tail_octets (get_or b 35 0), fits) in
    (
      sections_of b n,
      sections_of-IsSections b n whole ty,
      sections_of-joined b n whole,
      same ∙ view_of-seen b n whole,
    )

slice-append :
    (n k : ℕ) (b xs rest : Bytes) → drop k b ≡ xs ++ rest → length xs ≡ n → slice b k n ≡ xs
slice-append n k b xs rest e h = ap (take n) e ∙ take-append n xs rest (sym h)

drop-past :
    (n k : ℕ) (b xs rest : Bytes) → drop k b ≡ xs ++ rest → length xs ≡ n → drop (k + n) b ≡ rest
drop-past n k b xs rest e h = sym (drop-drop n k b) ∙ ap (drop n) e ∙ drop-append n xs rest (sym h)

head_at : (k : ℕ) (b rest : Bytes) (x : ℕ) → drop k b ≡ x ∷ rest → get_or b k 0 ≡ x
head_at k b rest x e =
    let z : k + 0 ≡ k = omega arith in
    ap (λ j. get_or b j 0) (sym z) ∙ sym (get_or-drop k 0 b 0) ∙ ap (λ r. get_or r 0 0) e

-- The sections of a message that is joined from sections are those.
module _ (s : Sections) (v : IsSections s) where
  joined-length : length (joined s) ≡ 68 + length s.payload + tag_octets s.auth + 9
  joined-length = omega (
    arith,
    v.app_id,
    v.x,
    v.y,
    v.z,
    v.uuid,
    v.tag,
    v.epoch,
    length-append s.app_id (s.x ++ (s.y ++ (s.z ++ behind_chunk s))),
    length-append s.x (s.y ++ (s.z ++ behind_chunk s)),
    length-append s.y (s.z ++ behind_chunk s),
    length-append s.z (behind_chunk s),
    length-append s.uuid (s.payload ++ behind_payload s),
    length-append s.payload (behind_payload s),
    length-append s.tag (s.epoch ++ (s.sequence ∷ [])),
    length-append s.epoch (s.sequence ∷ []),
  )

  sections_of-same : sections_of (joined s) (length s.payload) ≡ s
  sections_of-same =
      let b = joined s in
      let n = length s.payload in
      let t = tag_octets s.auth in
      let d1 : drop 1 b ≡ s.app_id ++ (s.x ++ (s.y ++ (s.z ++ behind_chunk s))) = refl in
      let d9 = drop-past 8 1 b s.app_id (s.x ++ (s.y ++ (s.z ++ behind_chunk s))) d1 v.app_id in
      let d17 = drop-past 8 9 b s.x (s.y ++ (s.z ++ behind_chunk s)) d9 v.x in
      let d25 = drop-past 8 17 b s.y (s.z ++ behind_chunk s) d17 v.y in
      let d33 = drop-past 8 25 b s.z (behind_chunk s) d25 v.z in
      let d34 : drop 34 b ≡ drop 1 (behind_chunk s) = sym (drop-drop 1 33 b) ∙ ap (drop 1) d33 in
      let d35 : drop 35 b ≡ drop 2 (behind_chunk s) = sym (drop-drop 2 33 b) ∙ ap (drop 2) d33 in
      let d36 : drop 36 b ≡ drop 3 (behind_chunk s) = sym (drop-drop 3 33 b) ∙ ap (drop 3) d33 in
      let d68 = drop-past 32 36 b s.uuid (s.payload ++ behind_payload s) d36 v.uuid in
      let d_tag = drop-past n 68 b s.payload (behind_payload s) d68 refl in
      let d_epoch = drop-past t (68 + n) b s.tag (s.epoch ++ (s.sequence ∷ [])) d_tag v.tag in
      let d_last = drop-past 8 (68 + n + t) b s.epoch (s.sequence ∷ []) d_epoch v.epoch in
      let auth : get_or b 35 0 ≡ s.auth = head_at 35 b _ s.auth d35 in
      let octets : tag_octets (get_or b 35 0) ≡ t = ap tag_octets auth in
      λ i. record {
        type = s.type;
        app_id = slice-append 8 1 b s.app_id _ d1 v.app_id i;
        x = slice-append 8 9 b s.x _ d9 v.x i;
        y = slice-append 8 17 b s.y _ d17 v.y i;
        z = slice-append 8 25 b s.z _ d25 v.z i;
        distance = head_at 33 b _ s.distance d33 i;
        decay = head_at 34 b _ s.decay d34 i;
        auth = auth i;
        uuid = slice-append 32 36 b s.uuid _ d36 v.uuid i;
        payload = slice-append n 68 b s.payload _ d68 refl i;
        tag =
            (ap (λ m. slice b (68 + n) m) octets ∙ slice-append t (68 + n) b s.tag _ d_tag v.tag) i;
        epoch =
            (ap (λ m. slice b (68 + n + m) 8) octets
                ∙ slice-append 8 (68 + n + t) b s.epoch _ d_epoch v.epoch)
              i;
        sequence =
            (ap (λ m. get_or b (68 + n + m + 8) 0) octets
                ∙ head_at (68 + n + t + 8) b [] s.sequence d_last)
              i;
      }

  joined-parses : parse_long_spatial (joined s) ≡ value (seen s)
  joined-parses =
      let b = joined s in
      let n = length s.payload in
      let auth : get_or b 35 0 ≡ s.auth = ap (λ (q : Sections). q.auth) sections_of-same in
      let whole : 68 + n + tag_octets (get_or b 35 0) + 9 ≡ length b =
        ap (λ m. 68 + n + m + 9) (ap tag_octets auth) ∙ sym joined-length in
      parse_long_spatial-accepts b v.type (omega (arith, tail_octets (get_or b 35 0), whole))
      ∙ ap value (view_of-seen b n whole ∙ ap seen sections_of-same)

-- The parser returns a view of a datagram exactly when the datagram is a message of a long-spatial
-- type, made of its sections one behind the other in the order of the wire, with a tag exactly when
-- the auth byte is not 0, and the view shows these sections: every field is read from its own bytes.
pub parse_long_spatial-IsMessage :
    (b : Bytes) (w : LongSpatialView) → (parse_long_spatial b ≡ value w) ↔ IsMessage b w
parse_long_spatial-IsMessage b w = (
  parsed-IsMessage b w,
  λ m.
      let (s, v, made, view) = m in
      ap parse_long_spatial made ∙ joined-parses s v ∙ ap value (sym view),
)
