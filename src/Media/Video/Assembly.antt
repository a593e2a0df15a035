-- ===== src/Media/Video/Assembly.antt =====
-- The reassembler: what a frame in progress holds, and what a delivered frame is.
use crowdy_cpp.Base.{
  ℕ, zero, suc, ◌≡◌, ◌≤◌, ◌<◌, inl, inr, refl, sym, ap, ap₂, Bool, true, false, List, [], ◌∷◌,
  length, get_or, set, replicate, Bool-cases, arith,
}
use crowdy_cpp.Base.Int.{ℤ}
use crowdy_cpp.Core.Le.{Bytes}
use crowdy_cpp.Media.Video.{VideoFragmentHeader, Pending, start_pending, store_part}

-- The fragments present.
pub count_true : List Bool → ℕ
count_true [] = 0
count_true (true ∷ hs) = suc (count_true hs)
count_true (false ∷ hs) = count_true hs

-- Every part present is the body with its number; the three lists have one length.
abbrev pub Agrees : List Bytes → List Bytes → List Bool → Type 0
Agrees [] [] [] = Unit {0}
Agrees (b ∷ bs) (p ∷ ps) (h ∷ hs) = (h ≡ true → p ≡ b) × Agrees bs ps hs
Agrees _ _ _ = ⊥

Agrees-set :
    (bs ps : List Bytes) (hs : List Bool) (i : ℕ)
    → Agrees bs ps hs
    → Agrees bs (set ps i (get_or bs i [])) (set hs i true)
Agrees-set [] [] [] i a = tt
Agrees-set (b ∷ bs) (p ∷ ps) (h ∷ hs) zero a = ((λ e. refl), a.1)
Agrees-set (b ∷ bs) (p ∷ ps) (h ∷ hs) (suc i) a = (a.0, Agrees-set bs ps hs i a.1)
Agrees-set _ _ _ i a = absurd a

Agrees-replicate :
    (bs : List Bytes) → Agrees bs (replicate (length bs) []) (replicate (length bs) false)
Agrees-replicate [] = tt
Agrees-replicate (b ∷ bs) = ((λ e. cc), Agrees-replicate bs)

count_true-le : (bs ps : List Bytes) (hs : List Bool) → Agrees bs ps hs → count_true hs ≤ length bs
unfolding count_true
count_true-le [] [] [] a = omega arith
count_true-le (b ∷ bs) (p ∷ ps) (true ∷ hs) a = omega (arith, count_true-le bs ps hs a.1)
count_true-le (b ∷ bs) (p ∷ ps) (false ∷ hs) a = omega (arith, count_true-le bs ps hs a.1)
count_true-le _ _ _ a = absurd a

-- With all present, the parts are the bodies.
pub Agrees-full :
    (bs ps : List Bytes) (hs : List Bool) → Agrees bs ps hs → length bs ≤ count_true hs → ps ≡ bs
unfolding count_true
Agrees-full [] [] [] a h = refl
Agrees-full (b ∷ bs) (p ∷ ps) (true ∷ hs) a h =
    ap₂ ◌∷◌ (a.0 refl) (Agrees-full bs ps hs a.1 (omega arith))
Agrees-full (b ∷ bs) (p ∷ ps) (false ∷ hs) a h = absurd (omega (arith, count_true-le bs ps hs a.1))
Agrees-full _ _ _ a h = absurd a

count_true-set :
    (hs : List Bool) (i : ℕ)
    → i < length hs
    → get_or hs i false ≡ false
    → count_true (set hs i true) ≡ suc (count_true hs)
unfolding count_true
count_true-set [] i h e = absurd (omega arith)
count_true-set (true ∷ hs) zero h e = cc
count_true-set (false ∷ hs) zero h e = refl
count_true-set (true ∷ hs) (suc i) h e = ap suc (count_true-set hs i (omega arith) e)
count_true-set (false ∷ hs) (suc i) h e = count_true-set hs i (omega arith) e

count_true-replicate : (n : ℕ) → count_true (replicate n false) ≡ 0
unfolding count_true
count_true-replicate zero = refl
count_true-replicate (suc n) = count_true-replicate n

length-Agrees : (bs ps : List Bytes) (hs : List Bool) → Agrees bs ps hs → length hs ≡ length bs
length-Agrees [] [] [] a = refl
length-Agrees (b ∷ bs) (p ∷ ps) (h ∷ hs) a = ap suc (length-Agrees bs ps hs a.1)
length-Agrees _ _ _ a = absurd a

-- `p` is the frame with these bodies, in progress.
pub record InProgress (codec : ℕ) (bs : List Bytes) (p : Pending) : Type 0 where
  pub codec_eq : p.codec ≡ codec
  pub count_eq : p.frag_count ≡ length bs
  pub agrees : Agrees bs p.parts p.have
  pub received_eq : p.received ≡ count_true p.have

pub start_pending-InProgress :
    (bs : List Bytes) (h : VideoFragmentHeader)
    → h.frag_count ≡ length bs
    → InProgress h.codec bs (start_pending h)
unfolding start_pending
start_pending-InProgress bs h e = record {
  codec_eq = refl;
  count_eq = e;
  agrees = rw e (Agrees-replicate bs);
  received_eq = sym (count_true-replicate h.frag_count);
}

pub store_part-InProgress :
    (codec : ℕ) (bs : List Bytes) (p : Pending) (i : ℕ) (body : Bytes) (now : ℤ)
    → InProgress codec bs p
    → i < length bs
    → body ≡ get_or bs i []
    → InProgress codec bs (store_part p i body now)
unfolding store_part
store_part-InProgress codec bs p i body now v hi e = elim (Bool-cases (get_or p.have i false)) [
  | inl there ↦ rw there (record {
    codec_eq = v.codec_eq;
    count_eq = v.count_eq;
    agrees = v.agrees;
    received_eq = v.received_eq;
  })
  | inr new ↦
      let size = length-Agrees bs p.parts p.have v.agrees in
      let count = count_true-set p.have i (omega (arith, size)) new in
      rw (new, e)
        (record {
          codec_eq = v.codec_eq;
          count_eq = v.count_eq;
          agrees = Agrees-set bs p.parts p.have i v.agrees;
          received_eq = omega (arith, count, v.received_eq);
        })
]
