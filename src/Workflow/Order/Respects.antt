-- ===== src/Workflow/Order/Respects.antt =====
-- What it means that an order respects the dependencies, and what a round makes of the dictionary.
use iddo_harness.Prelude.{
  String, ◌==◌, eq_iff, ◌≡◌, refl, true, false, ◌||◌, none, some, List, [], ◌∷◌, ◌++◌, arith, All,
  Bool-cases, inl, inr, is_some, if◌then◌else◌, All-map,
}
use iddo_harness.Prelude.Dict.{Dict, lookup, remove, lookup-remove}
use iddo_harness.Prelude.Ids.{contains}
use iddo_harness.Workflow.Order.{pop_all, without_ids, difference_update}

pub contains-append :
    (j : String) (xs ys : List String) → contains (xs ++ ys) j ≡ (contains xs j || contains ys j)
unfolding contains
contains-append j [] ys = refl
contains-append j (x ∷ xs) ys = ground (arith, contains-append j xs ys)

pub lookup-difference_update :
    (ready : List String) (j : String) (m : Dict (List String)) {left : List String}
    → lookup j (difference_update ready m) ≡ some left
    → (old : List String) × (lookup j m ≡ some old) × (left ≡ without_ids ready old)
unfolding lookup difference_update
lookup-difference_update ready j [] h = cc
lookup-difference_update ready j ((i, deps) ∷ m) h = elim (Bool-cases (i == j)) [
  | inl e ↦ (deps, rw e refl, (let k : some (without_ids ready deps) ≡ some _ = rw e at h in cc))
  | inr e ↦ rw e (lookup-difference_update ready j m (rw e at h))
]

pub is_some-difference_update :
    (ready : List String) (j : String) (m : Dict (List String))
    → is_some (lookup j (difference_update ready m)) ≡ is_some (lookup j m)
unfolding lookup difference_update
is_some-difference_update ready j [] = refl
is_some-difference_update ready j ((i, deps) ∷ m) =
    ground (arith, is_some-difference_update ready j m)

pub lookup-pop_all :
    (ids : List String) (j : String) (m : Dict (List String))
    → lookup j (pop_all ids m) ≡ (if contains ids j then none else lookup j m)
unfolding pop_all contains
lookup-pop_all [] j m = refl
lookup-pop_all (id ∷ ids) j m =
    ground (arith, lookup-pop_all ids j (remove id m), lookup-remove id j m, eq_iff id j)

-- The dependencies of an id are all in a list.
abbrev pub Met : Dict (List String) → List String → String → Type 0
Met m seen id =
    (deps : List String) → lookup id m ≡ some deps → All (λ d. contains seen d ≡ true) deps

-- Each id of a list comes after its dependencies, which may also be among those seen before.
abbrev pub Ordered : Dict (List String) → List String → List String → Type 0
Ordered m seen [] = Unit
Ordered m seen (id ∷ ids) = Met m seen id × Ordered m (id ∷ seen) ids

Met-cons :
    (m : Dict (List String)) (seen : List String) (x id : String)
    → Met m seen id
    → Met m (x ∷ seen) id
unfolding contains
Met-cons m seen x id h deps e =
    All-map (λ d. contains seen d ≡ true) (λ d. contains (x ∷ seen) d ≡ true) (λ d k. ground arith)
      deps (h deps e)

Ordered-Met :
    (m : Dict (List String)) (seen ids : List String) → All (Met m seen) ids → Ordered m seen ids
Ordered-Met m seen [] h = tt
Ordered-Met m seen (id ∷ ids) h = (
  h.0,
  Ordered-Met m (id ∷ seen) ids
      (All-map (Met m seen) (Met m (id ∷ seen)) (Met-cons m seen id) ids h.1),
)

-- What the ids of a round see: the order so far, and those before.
pub Ordered-append :
    (m : Dict (List String)) (seen xs ys : List String)
    → Ordered m seen xs
    → All
        (λ id.
          (deps : List String)
          → lookup id m ≡ some deps
          → All (λ d. (contains seen d || contains xs d) ≡ true) deps)
        ys
    → Ordered m seen (xs ++ ys)
unfolding contains
Ordered-append m seen [] ys h k = Ordered-Met m seen ys (
    All-map _ (Met m seen)
      (λ id f deps e.
        All-map (λ d. (contains seen d || false) ≡ true) (λ d. contains seen d ≡ true)
          (λ d t. ground arith) deps (f deps e))
      ys k)
Ordered-append m seen (x ∷ xs) ys h k = (
  h.0,
  Ordered-append m (x ∷ seen) xs ys h.1 (
      All-map _ _
        (λ id f deps e.
          All-map (λ d. (contains seen d || contains (x ∷ xs) d) ≡ true)
            (λ d. (contains (x ∷ seen) d || contains xs d) ≡ true) (λ d t. ground arith) deps
            (f deps e))
        ys k),
)
