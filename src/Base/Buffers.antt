-- ===== src/Base/Buffers.antt =====
-- `memcpy` into a caller's buffer, and the state of a buffer that is filled from the front.
use Prim.Native.Nat.{ℕ, zero, suc, ◌+◌, ◌≤◌}
use mathlib.Core.Path.{◌≡◌, refl, ap, ◌∙◌, subst}
use mathlib.Core.List.{List, [], ◌∷◌, ◌++◌}
use native.Mathlib.Omega.{arith}
use crowdy_cpp.Base.Lists.{length, take, drop, length-append, take-append-drop}

module _ {ℓ} {A : Type ℓ} where
  -- `memcpy(dst + off, src, size)`; what does not fit is dropped (the callers check the size).
  unfoldable pub write_at : List A → ℕ → List A → List A
  write_at [] off src = []
  write_at (y ∷ dst) (suc off) src = y ∷ write_at dst off src
  write_at (y ∷ dst) zero [] = y ∷ dst
  write_at (y ∷ dst) zero (x ∷ src) = x ∷ write_at dst zero src

  -- The bytes from `off` on, `len` of them.
  abbrev pub slice : List A → ℕ → ℕ → List A
  slice xs off len = take len (drop off xs)

  pub length-write_at :
      (dst : List A) (off : ℕ) (src : List A) → length (write_at dst off src) ≡ length dst
  unfolding write_at
  length-write_at [] off src = refl
  length-write_at (y ∷ dst) (suc off) src = ap suc (length-write_at dst off src)
  length-write_at (y ∷ dst) zero [] = refl
  length-write_at (y ∷ dst) zero (x ∷ src) = ap suc (length-write_at dst zero src)

  pub take-write_at :
      (dst : List A) (off : ℕ) (src : List A) (n : ℕ)
      → n ≡ off + length src
      → n ≤ length dst
      → take n (write_at dst off src) ≡ take off dst ++ src
  unfolding write_at
  take-write_at [] zero [] zero e h = refl
  take-write_at [] zero (x ∷ src) n e h = absurd (omega arith)
  take-write_at [] zero [] (suc n) e h = absurd (omega arith)
  take-write_at [] (suc off) src n e h = absurd (omega arith)
  take-write_at (y ∷ dst) (suc off) src zero e h = absurd (omega arith)
  take-write_at (y ∷ dst) (suc off) src (suc n) e h =
      ap (◌∷◌ y) (take-write_at dst off src n (omega arith) (omega arith))
  take-write_at (y ∷ dst) zero [] zero e h = refl
  take-write_at (y ∷ dst) zero [] (suc n) e h = absurd (omega arith)
  take-write_at (y ∷ dst) zero (x ∷ src) zero e h = absurd (omega arith)
  take-write_at (y ∷ dst) zero (x ∷ src) (suc n) e h =
      ap (◌∷◌ x) (take-write_at dst zero src n (omega arith) (omega arith))

  pub drop-write_at :
      (dst : List A) (off : ℕ) (src : List A) (n : ℕ)
      → off + length src ≤ n
      → drop n (write_at dst off src) ≡ drop n dst
  unfolding write_at
  drop-write_at [] off src n h = refl
  drop-write_at (y ∷ dst) (suc off) src zero h = absurd (omega arith)
  drop-write_at (y ∷ dst) (suc off) src (suc n) h = drop-write_at dst off src n (omega arith)
  drop-write_at (y ∷ dst) zero [] n h = refl
  drop-write_at (y ∷ dst) zero (x ∷ src) zero h = absurd (omega arith)
  drop-write_at (y ∷ dst) zero (x ∷ src) (suc n) h = drop-write_at dst zero src n (omega arith)

  -- `b` is `out` with its front overwritten by `pre`, and unchanged behind it.
  pub record Laid (out b pre : List A) : Type ℓ where
    pub filled : take (length pre) b ≡ pre
    pub same_length : length b ≡ length out
    pub behind : (n : ℕ) → length pre ≤ n → drop n b ≡ drop n out

  pub Laid-nil : (out : List A) → Laid out out []
  Laid-nil out = record { filled = refl; same_length = refl; behind = λ n h. refl }

  -- One more write, at the place where the front ends.
  pub Laid-write_at :
      {out b pre : List A} (off : ℕ) (src : List A)
      → Laid out b pre
      → off ≡ length pre
      → length pre + length src ≤ length out
      → Laid out (write_at b off src) (pre ++ src)
  Laid-write_at {out} {b} {pre} off src l e h = record {
    filled =
        take-write_at b off src (length (pre ++ src)) (rw (length-append pre src, e))
          (rw (length-append pre src, l.same_length) h)
        ∙ ap (λ t. t ++ src) (rw e l.filled);
    same_length = length-write_at b off src ∙ l.same_length;
    behind = λ n k.
        drop-write_at b off src n (rw e (rw (length-append pre src) at k))
        ∙ l.behind n (omega (arith, length-append pre src));
  }

  pub Laid-take : {out b pre : List A} (n : ℕ) → Laid out b pre → n ≡ length pre → take n b ≡ pre
  Laid-take n l e = rw e l.filled

  -- In all, the buffer is the frame with the old bytes behind it.
  pub Laid-eq : {out b pre : List A} → Laid out b pre → b ≡ pre ++ drop (length pre) out
  Laid-eq {out} {b} {pre} l =
      rw (← l.behind (length pre) (omega arith))
        (subst (λ t. b ≡ t ++ drop (length pre) b) l.filled (rw take-append-drop))
