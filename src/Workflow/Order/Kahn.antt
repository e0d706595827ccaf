-- ===== src/Workflow/Order/Kahn.antt =====
-- The order of the nodes of a workflow: every node is in it, after its dependencies.
use iddo_harness.Prelude.{
  inl, inr, ℕ, zero, suc, String, eq_iff, ◌≡◌, refl, eq_refl, true, false, ◌&&◌, ◌||◌, not, Option,
  none, some, List, [], ◌∷◌, ◌++◌, arith, length, All, Bool-cases, inl, inr, is_some, is_empty,
  All-map, subst,
}
use iddo_harness.Prelude.Dict.{Dict, lookup}
use iddo_harness.Prelude.Ids.{contains}
use iddo_harness.Prelude.Result.{ok}
use iddo_harness.Workflow.{Node}
use iddo_harness.Workflow.Order.{
  dependencies, free, ready_ids, pop_all, without_ids, difference_update, rounds, topological_order,
  repeats,
}
use iddo_harness.Workflow.Order.Rounds.{ready_ids-Free}
use iddo_harness.Workflow.Order.Respects.{
  contains-append, lookup-difference_update, is_some-difference_update, lookup-pop_all, Ordered,
  Ordered-append,
}

pub contains-without_ids :
    (ready deps : List String) (d : String)
    → contains (without_ids ready deps) d ≡ (contains deps d && not (contains ready d))
unfolding contains
contains-without_ids ready [] d = refl
contains-without_ids ready (x ∷ deps) d =
    ground (arith, contains-without_ids ready deps d, eq_iff x d)

-- What the loop keeps: a dependency of a node that is left is still waited for or is in the order.
abbrev Waited : Dict (List String) → Dict (List String) → List String → Type 0
Waited m remaining order =
    (j : String) (deps left : List String)
    → lookup j m ≡ some deps
    → lookup j remaining ≡ some left
    → All (λ d. (contains left d || contains order d) ≡ true) deps

abbrev pub Placed : Dict (List String) → Dict (List String) → List String → Type 0
Placed m remaining order =
    (j : String)
    → is_some (lookup j m) ≡ true
    → (is_some (lookup j remaining) || contains order j) ≡ true

next-Waited :
    (m remaining : Dict (List String)) (order ready : List String)
    → Waited m remaining order
    → Waited m (difference_update ready (pop_all ready remaining)) (order ++ ready)
next-Waited m remaining order ready h j deps left e f =
    let (old, g, same) = lookup-difference_update ready j (pop_all ready remaining) f in
    let found : lookup j remaining ≡ some old = ground (arith, lookup-pop_all ready j remaining) in
    All-map (λ d. (contains old d || contains order d) ≡ true)
      (λ d. (contains left d || contains (order ++ ready) d) ≡ true)
      (λ d t.
        rw (same, contains-without_ids ready old d, contains-append d order ready) (ground arith))
      deps (h j deps old e found)

pub next-Placed :
    (m remaining : Dict (List String)) (order ready : List String)
    → Placed m remaining order
    → Placed m (difference_update ready (pop_all ready remaining)) (order ++ ready)
next-Placed m remaining order ready h j e =
    rw
      (
        is_some-difference_update ready j (pop_all ready remaining),
        contains-append j order ready,
        lookup-pop_all ready j remaining,
      )
      (ground (arith, h j e))

is_empty-eq : (xs : List String) → is_empty xs ≡ true → xs ≡ []
is_empty-eq [] h = refl
is_empty-eq (x ∷ xs) h = cc

free-eq : (o : Option (List String)) → free o ≡ true → o ≡ some []
free-eq none h = cc
free-eq (some []) h = refl
free-eq (some (x ∷ xs)) h = cc

ready_met :
    (m remaining : Dict (List String)) (order : List String)
    → Waited m remaining order
    → (id : String) → free (lookup id remaining) ≡ true
    → (deps : List String) → lookup id m ≡ some deps
    → All (λ d. (contains [] d || contains order d) ≡ true) deps
ready_met m remaining order h id f deps e = h id deps [] e (free-eq (lookup id remaining) f)

-- An order that respects the dependencies and leaves out no node.
abbrev pub Good : Dict (List String) → List String → Type 0
Good m order =
    Ordered m [] order × ((j : String) → is_some (lookup j m) ≡ true → contains order j ≡ true)

Placed-contains :
    (m remaining : Dict (List String)) (order : List String)
    → is_empty remaining ≡ true
    → Placed m remaining order
    → (j : String) → is_some (lookup j m) ≡ true
    → contains order j ≡ true
unfolding lookup
Placed-contains m [] order e h j k = h j k
Placed-contains m (x ∷ remaining) order e h j k = cc

rounds-Good :
    (fuel : ℕ) (nodes : List Node) (m remaining : Dict (List String)) (order : List String)
    → Waited m remaining order
    → Placed m remaining order
    → Ordered m [] order
    → {result : List String} → rounds fuel nodes remaining order ≡ some (ok result)
    → Good m result
unfolding rounds
rounds-Good zero nodes m remaining order w p o e = cc
rounds-Good (suc fuel) nodes m remaining order w p o {result} e =
    let ready = ready_ids nodes remaining in
    elim (Bool-cases (is_empty remaining)) [
      | inl over ↦
          let same : order ≡ result = cc (rw (rounds, over) at e) in
          subst (Good m) same (o, Placed-contains m remaining order over p)
      | inr more ↦ elim (Bool-cases (is_empty ready)) [
        | inl stuck ↦ cc (rw (rounds, more, stuck) at e)
        | inr go ↦ elim (Bool-cases (repeats ready)) [
          | inl twice ↦ cc (rw (rounds, more, go, twice) at e)
          | inr once ↦
              rounds-Good fuel nodes m (difference_update ready (pop_all ready remaining))
                (order ++ ready) (next-Waited m remaining order ready w)
                (next-Placed m remaining order ready p)
                (Ordered-append m [] order ready o (
                  All-map _ _ (ready_met m remaining order w) ready
                    (ready_ids-Free nodes remaining)))
                (rw (rounds, more, go, once) at e)
        ]
      ]
    ]

every_member : (deps : List String) → All (λ d. (contains deps d || false) ≡ true) deps
unfolding contains
every_member [] = tt
every_member (d ∷ deps) =
    (rw (eq_refl d) refl, All-map _ _ (λ x t. ground arith) deps (every_member deps))

pub topological_order-Good :
    (nodes : List Node) (order : List String)
    → topological_order nodes ≡ some (ok order)
    → Good (dependencies nodes) order
unfolding topological_order contains
topological_order-Good nodes order e =
    let m = dependencies nodes in
    rounds-Good (suc (length nodes)) nodes m m []
      (λ j deps left f g. let same : deps ≡ left = cc in rw (← same) (every_member deps))
      (λ j h. ground arith) tt e
