-- ===== src/Wire/Bundle/Walk.antt =====
-- What the walk delivers.
use crowdy_cpp.Base.{
  ℕ, zero, suc, ◌+◌, ◌-◌, ◌%◌, ◌^◌, ◌≡◌, ◌≤◌, ◌<◌, ◌⊎◌, inl, inr, refl, sym, ap, ◌∙◌, Option, none,
  some, List, [], ◌∷◌, ◌++◌, All, length, take, drop, length-drop, length-take, append_assoc,
  append-nil, take-append, drop-append, drop-drop, take-append-drop, Bool-cases, ltb, subst,
  drop_all, length-append, le→ltb, lt→ltb, ap₂, dec_lt, arith,
}
use crowdy_cpp.Base.Buffers.{slice}
use crowdy_cpp.Core.Result.{Errc}
use crowdy_cpp.Core.Le.{
  Bytes, IsByte, u16_bytes, read_u16, read_u16-bytes, read_u16-lt, u16_bytes-read_u16,
  All-IsByte-drop,
}
use crowdy_cpp.Wire.Bundle.{Delivery, deliver, walk}
use crowdy_cpp.Wire.Bundle.Frames.{member, members, IsShort}
use native.Mathlib.Nat.{mod-eq_of_lt}

abbrev len_at : Bytes → ℕ → ℕ
len_at d offset = read_u16 (drop offset d)

-- One round of the loop: at the end, at a cut member, and at a whole one.
walk_end :
    (fuel : ℕ) (d : Bytes) (offset : ℕ)
    → length d ≤ offset
    → walk (suc fuel) d offset ≡ some ([], Errc.ok)
unfolding walk
walk_end fuel d offset h = rw (le→ltb offset (length d) h)

walk_cut :
    (fuel : ℕ) (d : Bytes) (offset : ℕ)
    → offset < length d
    → length d < offset + 2 + len_at d offset
    → walk (suc fuel) d offset ≡ some ([], Errc.malformed)
unfolding walk
walk_cut fuel d offset h k =
    let n = len_at d offset in
    let a = lt→ltb offset (length d) h in
    elim (Bool-cases (ltb (length d) (offset + 2))) [
      | inl short ↦ rw (a, short)
      | inr two ↦ rw (a, two, lt→ltb (length d) (offset + 2 + n) k)
    ]

walk_step :
    (fuel : ℕ) (d : Bytes) (offset : ℕ)
    → offset + 2 + len_at d offset ≤ length d
    → walk (suc fuel) d offset
      ≡ deliver
          (slice d (offset + 2) (len_at d offset))
          (walk fuel d (offset + 2 + len_at d offset))
unfolding walk
walk_step fuel d offset h =
    let n = len_at d offset in
    rw (
      lt→ltb offset (length d) (omega arith),
      le→ltb (length d) (offset + 2) (omega arith),
      le→ltb (length d) (offset + 2 + n) h,
    )

-- The walk ends on every datagram.
pub walk_total :
    (fuel : ℕ) (d : Bytes) (offset : ℕ)
    → length d - offset < fuel
    → (r : Delivery) × (walk fuel d offset ≡ some r)
walk_total zero d offset h = absurd (omega arith)
walk_total (suc fuel) d offset h =
    let n = len_at d offset in
    elim (dec_lt offset (length d)) [
      | no done ↦ (([], Errc.ok), walk_end fuel d offset (omega arith))
      | yes more ↦ elim (dec_lt (length d) (offset + 2 + n)) [
        | yes cut ↦ (([], Errc.malformed), walk_cut fuel d offset more cut)
        | no whole ↦
            let (r, e) = walk_total fuel d (offset + 2 + n) (omega arith) in
            (
              (slice d (offset + 2) n ∷ r.0, r.1),
              walk_step fuel d offset (omega arith) ∙ ap (deliver (slice d (offset + 2) n)) e,
            )
      ]
    ]

-- The loop on members laid out behind `pre` delivers them all.
pub walk-members :
    (ms : List Bytes) (pre d : Bytes) (fuel offset : ℕ)
    → All IsShort ms
    → d ≡ pre ++ members ms
    → offset ≡ length pre
    → length ms < fuel
    → walk fuel d offset ≡ some (ms, Errc.ok)
walk-members ms pre d zero offset h s e k = absurd (omega arith)
walk-members [] pre d (suc fuel) offset h s e k =
    walk_end fuel d offset (omega (arith, ap length s, ap length (append-nil pre)))
walk-members (m ∷ ms) pre d (suc fuel) offset h s e k =
    let at : drop offset d ≡ member m ++ members ms =
      ap (drop offset) s ∙ drop-append offset pre (member m ++ members ms) e in
    let n : len_at d offset ≡ length m =
      ap read_u16 at
      ∙ read_u16-bytes (length m % 2 ^ 16) (m ++ members ms) (omega arith)
      ∙ mod-eq_of_lt h.0 in
    let size : length d ≡ offset + 2 + length m + length (members ms) = omega (
      arith,
      ap length s,
      length-append pre (member m ++ members ms),
      length-append m (members ms),
    ) in
    let body : slice d (offset + 2) (length m) ≡ m =
      ap (take (length m)) (sym (drop-drop 2 offset d) ∙ ap (drop 2) at)
      ∙ take-append (length m) m (members ms) refl in
    let split : d ≡ (pre ++ member m) ++ members ms =
      s ∙ sym (append_assoc pre (member m) (members ms)) in
    let rest =
      walk-members ms (pre ++ member m) d fuel (offset + 2 + length m) h.1 split
        (omega (arith, length-append pre (member m), e)) (omega arith) in
    walk_step fuel d offset (omega (arith, n, size))
    ∙ ap (λ j. deliver (slice d (offset + 2) j) (walk fuel d (offset + 2 + j))) n
    ∙ ap₂ deliver body rest

-- A place where no whole member stands: fewer bytes than the length in front of them says.
abbrev pub IsCut : Bytes → Type 0
IsCut rest = (0 < length rest) × (length rest < 2 + read_u16 rest)

-- What a walk's result says of the bytes: the members delivered, and what stopped it.
abbrev pub Explains : Bytes → Delivery → Type 0
Explains bytes (ms, st) =
    All IsShort ms
    × ((rest : Bytes) × (bytes ≡ members ms ++ rest)
        × (((st ≡ Errc.ok) × (rest ≡ [])) ⊎ ((st ≡ Errc.malformed) × IsCut rest)))

member_at :
    (bytes : Bytes)
    → All IsByte bytes
    → 2 + read_u16 bytes ≤ length bytes
    → bytes ≡ member (slice bytes 2 (read_u16 bytes)) ++ drop (2 + read_u16 bytes) bytes
member_at [] h k = absurd (omega arith)
member_at (a ∷ []) h k = absurd (omega arith)
member_at (a ∷ b ∷ xs) h k =
    let n = read_u16 (a ∷ b ∷ xs) in
    let size : length (take n xs) % 2 ^ 16 ≡ n =
      omega (arith, length-take n xs, read_u16-lt (a ∷ b ∷ xs)) in
    let two : u16_bytes (length (take n xs) % 2 ^ 16) ≡ a ∷ b ∷ [] =
      ap u16_bytes size ∙ u16_bytes-read_u16 a b xs h.0 h.1.0 in
    let tail : drop (2 + n) (a ∷ b ∷ xs) ≡ drop n xs = sym (drop-drop n 2 (a ∷ b ∷ xs)) in
    sym (ap₂ (λ p t. (p ++ take n xs) ++ t) two tail ∙ ap (λ r. a ∷ b ∷ r) (take-append-drop n xs))

Explains-deliver :
    (m bytes rest : Bytes) (r : Delivery)
    → IsShort m
    → bytes ≡ member m ++ rest
    → Explains rest r
    → Explains bytes (m ∷ r.0, r.1)
Explains-deliver m bytes rest r short e (shorts, (more, e', end)) = (
  (short, shorts),
  (more, e ∙ ap (◌++◌ (member m)) e' ∙ sym (append_assoc (member m) (members r.0) more), end),
)

deliver-some :
    (m : Bytes) (o : Option Delivery) (r : Delivery)
    → deliver m o ≡ some r
    → (q : Delivery) × (o ≡ some q) × (r ≡ (m ∷ q.0, q.1))
deliver-some m none r e = cc
deliver-some m (some q) r e = (q, refl, cc)

walk_zero : (d : Bytes) (offset : ℕ) → walk 0 d offset ≡ none
unfolding walk
walk_zero d offset = refl

pub walk_sound :
    (fuel : ℕ) (d : Bytes) (offset : ℕ) (r : Delivery)
    → All IsByte d
    → walk fuel d offset ≡ some r
    → Explains (drop offset d) r
walk_sound zero d offset r h e = absurd (cc (walk_zero d offset))
walk_sound (suc fuel) d offset r h e =
    let n = len_at d offset in
    let size = length-drop offset d in
    elim (dec_lt offset (length d)) [
      | no done ↦
          let p : ([], Errc.ok) ≡ r = cc (walk_end fuel d offset (omega arith)) in
          subst (Explains (drop offset d)) p
            (tt, ([], drop_all offset d (omega arith), inl (refl, refl)))
      | yes more ↦ elim (dec_lt (length d) (offset + 2 + n)) [
        | yes cut ↦
            let p : ([], Errc.malformed) ≡ r = cc (walk_cut fuel d offset more cut) in
            subst (Explains (drop offset d)) p
              (tt, (drop offset d, refl, inr (refl, (omega (arith, size), omega (arith, size)))))
        | no whole ↦
            let m = slice d (offset + 2) n in
            let step = walk_step fuel d offset (omega arith) in
            let (q, eq, er) = deliver-some m (walk fuel d (offset + 2 + n)) r (sym step ∙ e) in
            let ih = walk_sound fuel d (offset + 2 + n) q h eq in
            let short : IsShort m =
              omega (arith, length-take n (drop (offset + 2) d), read_u16-lt (drop offset d)) in
            let here =
              member_at (drop offset d) (All-IsByte-drop offset d h) (omega (arith, size)) in
            let a : slice (drop offset d) 2 n ≡ m = ap (take n) (drop-drop 2 offset d) in
            let k : offset + (2 + n) ≡ offset + 2 + n = omega arith in
            let b : drop (2 + n) (drop offset d) ≡ drop (offset + 2 + n) d =
              drop-drop (2 + n) offset d ∙ ap (λ j. drop j d) k in
            subst (Explains (drop offset d)) (sym er) (
              Explains-deliver m (drop offset d) (drop (offset + 2 + n) d) q short
                (here ∙ ap₂ (λ x y. member x ++ y) a b) ih)
      ]
    ]
