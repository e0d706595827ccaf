-- ===== src/Prelude/Sublists.antt =====
-- Lists that arise from others by leaving elements out, and what they inherit.
use mathlib.Core.Bool.{Bool}
use mathlib.Core.List.{List, [], ◌∷◌, ◌++◌}
use mathlib.Core.Logic.{inl, inr}
use iddo_harness.Prelude.Tests.{Bool-cases}
use iddo_harness.Prelude.Lists.{All, filter, All-append}

pub data Sub {ℓ} {A : Type ℓ} : List A → List A → Type ℓ where
  stop : Sub [] []
  keep : (x : A) {xs ys : List A} → Sub xs ys → Sub (x ∷ xs) (x ∷ ys)
  skip : (x : A) {xs ys : List A} → Sub xs ys → Sub xs (x ∷ ys)

module _ {ℓ} {A : Type ℓ} where
  pub Sub-refl : (xs : List A) → Sub xs xs
  Sub-refl [] = stop
  Sub-refl (x ∷ xs) = keep x (Sub-refl xs)

  pub Sub-trans : {ys zs : List A} → Sub ys zs → {xs : List A} → Sub xs ys → Sub xs zs
  Sub-trans stop s = s
  Sub-trans (keep _ t) (keep x s) = keep x (Sub-trans t s)
  Sub-trans (keep x t) (skip _ s) = skip x (Sub-trans t s)
  Sub-trans (skip x t) s = skip x (Sub-trans t s)

  pub filter-Sub : (p : A → Bool) (xs : List A) → Sub (filter p xs) xs
  filter-Sub p [] = stop
  filter-Sub p (x ∷ xs) = elim (Bool-cases (p x)) [
    | inl e ↦ rw e (keep x (filter-Sub p xs))
    | inr e ↦ rw e (skip x (filter-Sub p xs))
  ]

  pub All-Sub {κ} : (P : A → Type κ) {xs ys : List A} → Sub xs ys → All P ys → All P xs
  All-Sub P stop h = tt
  All-Sub P (keep x s) h = (h.0, All-Sub P s h.1)
  All-Sub P (skip x s) h = All-Sub P s h.1

  -- Every two elements are related, the earlier one first.
  abbrev pub Pairs {κ} : (A → A → Type κ) → List A → Type κ
  Pairs R [] = Unit
  Pairs R (x ∷ xs) = All (R x) xs × Pairs R xs

  pub Pairs-Sub {κ} : (R : A → A → Type κ) {xs ys : List A} → Sub xs ys → Pairs R ys → Pairs R xs
  Pairs-Sub R stop h = tt
  Pairs-Sub R (keep x s) h = (All-Sub (R x) s h.0, Pairs-Sub R s h.1)
  Pairs-Sub R (skip x s) h = Pairs-Sub R s h.1

  pub Pairs-snoc {κ} :
      (R : A → A → Type κ) (xs : List A) (y : A)
      → Pairs R xs
      → All (λ x. R x y) xs
      → Pairs R (xs ++ y ∷ [])
  Pairs-snoc R [] y h k = (tt, tt)
  Pairs-snoc R (x ∷ xs) y h k =
      (All-append (R x) xs (y ∷ []) h.0 (k.0, tt), Pairs-snoc R xs y h.1 k.1)
