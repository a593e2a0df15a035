-- ===== src/Base/Maps.antt =====
-- Hash maps as association lists over keys with decidable equality.
use mathlib.Core.Path.{◌≡◌, sym, ap, ◌∙◌, subst}
use mathlib.Core.Logic.{◌≢◌, ite, ◌⊎◌, inl, inr}
use mathlib.Core.List.{List, [], ◌∷◌}
use mathlib.Core.Option.{Option, none, some, some_inj}
use native.Mathlib.Omega.{arith}

module _ {ℓ} {K V : Type ℓ} (eq : Discrete K) where
  -- `find`
  unfoldable pub lookup : K → List (K × V) → Option V
  lookup k [] = none
  lookup k ((j, v) ∷ m) = ite (eq j k) (some v) (lookup k m)

  -- `erase`
  unfoldable pub erase : K → List (K × V) → List (K × V)
  erase k [] = []
  erase k ((j, v) ∷ m) = let rest = erase k m in ite (eq j k) rest ((j, v) ∷ rest)

  -- `m[k] = v`
  unfoldable pub insert : K → V → List (K × V) → List (K × V)
  unfolding erase
  insert k v m = (k, v) ∷ erase k m

  pub lookup-erase :
      (k j : K) (m : List (K × V)) → lookup j (erase k m) ≡ ite (eq k j) none (lookup j m)
  unfolding lookup erase
  lookup-erase k j [] = ground arith
  lookup-erase k j ((i, v) ∷ m) = ground (arith, lookup-erase k j m)

  pub lookup-insert :
      (k j : K) (v : V) (m : List (K × V))
      → lookup j (insert k v m) ≡ ite (eq k j) (some v) (lookup j m)
  unfolding lookup insert
  lookup-insert k j v m = ground (arith, lookup-erase k j m)

  pub lookup-erase_self : (k : K) (m : List (K × V)) → lookup k (erase k m) ≡ none
  lookup-erase_self k m = ground (arith, lookup-erase k k m)

  pub lookup-erase_ne : (k j : K) (m : List (K × V)) → k ≢ j → lookup j (erase k m) ≡ lookup j m
  lookup-erase_ne k j m h = ground (arith, lookup-erase k j m)

  pub lookup-insert_self : (k : K) (v : V) (m : List (K × V)) → lookup k (insert k v m) ≡ some v
  lookup-insert_self k v m = ground (arith, lookup-insert k k v m)

  pub lookup-insert_ne :
      (k j : K) (v : V) (m : List (K × V)) → k ≢ j → lookup j (insert k v m) ≡ lookup j m
  lookup-insert_ne k j v m h = ground (arith, lookup-insert k j v m)

  pub lookup_here : (k j : K) (v : V) (m : List (K × V)) → j ≡ k → lookup k ((j, v) ∷ m) ≡ some v
  unfolding lookup
  lookup_here k j v m same = ground (arith, same)

  pub lookup_further :
      (k j : K) (v : V) (m : List (K × V)) → j ≢ k → lookup k ((j, v) ∷ m) ≡ lookup k m
  unfolding lookup
  lookup_further k j v m apart = ground (arith, apart)

  -- No key has two entries.
  abbrev pub IsDistinct : List (K × V) → Type ℓ
  IsDistinct [] = Unit {ℓ}
  IsDistinct ((k, v) ∷ m) = (lookup k m ≡ none) × IsDistinct m

  pub erase_here : (k j : K) (v : V) (m : List (K × V)) → j ≡ k → erase k ((j, v) ∷ m) ≡ erase k m
  unfolding erase
  erase_here k j v m same = ground (arith, same)

  pub erase_further :
      (k j : K) (v : V) (m : List (K × V)) → j ≢ k → erase k ((j, v) ∷ m) ≡ (j, v) ∷ erase k m
  unfolding erase
  erase_further k j v m apart = ground (arith, apart)

  pub erase-IsDistinct : (k : K) (m : List (K × V)) → IsDistinct m → IsDistinct (erase k m)
  unfolding erase
  erase-IsDistinct k [] h = h
  erase-IsDistinct k ((j, v) ∷ m) (absent, rest) = elim (eq j k) [
    | yes same ↦ subst IsDistinct (sym (erase_here k j v m same)) (erase-IsDistinct k m rest)
    | no apart ↦
        subst IsDistinct (sym (erase_further k j v m apart))
          (ground (arith, lookup-erase k j m, absent), erase-IsDistinct k m rest)
  ]

  pub insert-IsDistinct :
      (k : K) (v : V) (m : List (K × V)) → IsDistinct m → IsDistinct (insert k v m)
  unfolding insert
  insert-IsDistinct k v m h = (lookup-erase_self k m, erase-IsDistinct k m h)

  -- An entry after a write is the one written, or was there before.
  pub found-insert :
      (k j : K) (v w : V) (m : List (K × V))
      → lookup j (insert k v m) ≡ some w
      → ((k ≡ j) × (v ≡ w)) ⊎ (lookup j m ≡ some w)
  found-insert k j v w m found = elim (eq k j) [
    | yes same ↦ inl (
      same,
      some_inj.0 (sym (lookup-insert_self k v m) ∙ ap (λ i. lookup i (insert k v m)) same ∙ found),
    )
    | no apart ↦ inr (sym (lookup-insert_ne k j v m apart) ∙ found)
  ]

  pub found-erase :
      (k j : K) (w : V) (m : List (K × V)) → lookup j (erase k m) ≡ some w → lookup j m ≡ some w
  found-erase k j w m found = elim (eq k j) [
    | yes same ↦
        absurd (cc (sym (ap (λ i. lookup i (erase k m)) same) ∙ lookup-erase_self k m, found))
    | no apart ↦ sym (lookup-erase_ne k j m apart) ∙ found
  ]
