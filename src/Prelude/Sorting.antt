-- ===== src/Prelude/Sorting.antt =====
-- Python's `sorted` for a Boolean order: a stable insertion sort. What it keeps is stated by `All`.
use mathlib.Core.Path.{◌≡◌, subst}
use mathlib.Core.Bool.{Bool, true, false}
use mathlib.Core.Option.{some}
use mathlib.Core.List.{List, [], ◌∷◌}
use mathlib.Core.Logic.{◌⊎◌, inl, inr}
use iddo_harness.Prelude.Tests.{if◌then◌else◌, Bool-cases}
use iddo_harness.Prelude.Lists.{All, Has, find, All-map}

module _ {ℓ} {A : Type ℓ} (le : A → A → Bool) where
  unfoldable pub insert : A → List A → List A
  insert x [] = x ∷ []
  insert x (y ∷ ys) = if le x y then x ∷ y ∷ ys else y ∷ insert x ys

  unfoldable pub sorted : List A → List A
  unfolding insert
  sorted [] = []
  sorted (x ∷ xs) = insert x (sorted xs)

  abbrev pub IsSorted : List A → Type ℓ
  IsSorted [] = Unit
  IsSorted (x ∷ xs) = All (λ y. le x y ≡ true) xs × IsSorted xs

module _ {ℓ κ} {A : Type ℓ} (le : A → A → Bool) (P : A → Type κ) where
  All-insert : (x : A) (xs : List A) → P x → All P xs → All P (insert le x xs)
  unfolding insert
  All-insert x [] p h = (p, tt)
  All-insert x (y ∷ ys) p h = elim (Bool-cases (le x y)) [
    | inl e ↦ rw e (p, h)
    | inr e ↦ rw e (h.0, All-insert x ys p h.1)
  ]

  insert-All : (x : A) (xs : List A) → All P (insert le x xs) → P x × All P xs
  unfolding insert
  insert-All x [] h = (h.0, tt)
  insert-All x (y ∷ ys) h = elim (Bool-cases (le x y)) [
    | inl e ↦ rw e at h
    | inr e ↦
        let k : All P (y ∷ insert le x ys) = rw e at h in
        let (p, rest) = insert-All x ys k.1 in (p, (k.0, rest))
  ]

  -- What holds of every element holds of every element of the sorted list, and the other way.
  pub All-sorted : (xs : List A) → All P xs → All P (sorted le xs)
  unfolding sorted
  All-sorted [] h = tt
  All-sorted (x ∷ xs) h = All-insert x (sorted le xs) h.0 (All-sorted xs h.1)

  pub sorted-All : (xs : List A) → All P (sorted le xs) → All P xs
  unfolding sorted
  sorted-All [] h = tt
  sorted-All (x ∷ xs) h = let (p, rest) = insert-All x (sorted le xs) h in (p, sorted-All xs rest)

module _ {A : Type 0} (le : A → A → Bool) where
  insert-Has : (x y : A) (xs : List A) → Has y (insert le x xs) → (y ≡ x) ⊎ Has y xs
  unfolding insert
  insert-Has x y [] h = h
  insert-Has x y (z ∷ zs) h = elim (Bool-cases (le x z)) [
    | inl e ↦ rw e at h
    | inr e ↦
        let k : (y ≡ z) ⊎ Has y (insert le x zs) = rw e at h in
        elim k [
          | inl p ↦ inr (inl p)
          | inr m ↦ elim (insert-Has x y zs m) [ inl p ↦ inl p | inr n ↦ inr (inr n) ]
        ]
  ]

  pub sorted-Has : (y : A) (xs : List A) → Has y (sorted le xs) → Has y xs
  unfolding sorted
  sorted-Has y [] h = h
  sorted-Has y (x ∷ xs) h = elim (insert-Has x y (sorted le xs) h) [
    | inl p ↦ inl p
    | inr m ↦ inr (sorted-Has y xs m)
  ]

module _ {A : Type 0} (le : A → A → Bool) (total : (a b : A) → le a b ≡ false → le b a ≡ true)
    (trans : (a b c : A) → le a b ≡ true → le b c ≡ true → le a c ≡ true) where
  insert-IsSorted : (x : A) (xs : List A) → IsSorted le xs → IsSorted le (insert le x xs)
  unfolding insert
  insert-IsSorted x [] h = (tt, tt)
  insert-IsSorted x (y ∷ ys) h = elim (Bool-cases (le x y)) [
    | inl e ↦ rw e ((e, All-map _ _ (λ z k. trans x y z e k) ys h.0), h)
    | inr e ↦ rw e (All-insert le _ x ys (total x y e) h.0, insert-IsSorted x ys h.1)
  ]

  pub sorted-IsSorted : (xs : List A) → IsSorted le (sorted le xs)
  unfolding sorted
  sorted-IsSorted [] = tt
  sorted-IsSorted (x ∷ xs) = insert-IsSorted x (sorted le xs) (sorted-IsSorted xs)

  find-IsSorted :
      (p : A → Bool) (xs : List A) {x : A}
      → IsSorted le xs
      → find p xs ≡ some x
      → All (λ y. p y ≡ true → le x y ≡ true) xs
  find-IsSorted p [] s h = tt
  find-IsSorted p (y ∷ ys) {x} s h = elim (Bool-cases (p y)) [
    | inl e ↦
        let k : some y ≡ some x = rw e at h in
        let same : y ≡ x = cc in
        subst (λ w. All (λ z. p z ≡ true → le w z ≡ true) (y ∷ ys)) same
          ((λ _. refl_of_total y), All-map _ _ (λ z k' _. k') ys s.0)
    | inr e ↦ ((λ t. cc), find-IsSorted p ys s.1 (rw e at h))
  ]
    where
      refl_of_total : (a : A) → le a a ≡ true
      refl_of_total a = elim (Bool-cases (le a a)) [ inl t ↦ t | inr f ↦ total a a f ]

  -- The first element of a sorted list that passes a test is least among those that pass it.
  pub find-sorted_least :
      (p : A → Bool) (xs : List A) {x : A}
      → find p (sorted le xs) ≡ some x
      → All (λ y. p y ≡ true → le x y ≡ true) xs
  find-sorted_least p xs h =
      sorted-All le _ xs (find-IsSorted p (sorted le xs) (sorted-IsSorted xs) h)
