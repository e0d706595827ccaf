-- ===== src/Workflow/Order/Stuck.antt =====
-- What the nodes have in common that topological_order names in its error.
use iddo_harness.Prelude.{
  Option-cases, inl, inr, ◌⊎◌, ℕ, zero, suc, String, ◌==◌, eq_iff, ◌≡◌, refl, eq_refl, true, false,
  ◌&&◌, ◌||◌, not, some, List, [], ◌∷◌, ◌++◌, arith, length, Bool-cases, is_some, is_empty, subst,
}
use iddo_harness.Prelude.Dict.{Dict, lookup, put, lookup-put, keys}
use iddo_harness.Prelude.Ids.{contains}
use iddo_harness.Prelude.Result.{ok, err}
use iddo_harness.Workflow.{Node}
use iddo_harness.Workflow.Order.{
  dependencies, dependencies_from, free, ready_ids, pop_all, difference_update, rounds,
  topological_order, repeats, OrderError, cycle, key_error,
}
use iddo_harness.Workflow.Order.Rounds.{topological_order-ends}
use iddo_harness.Workflow.Order.Respects.{contains-append, lookup-difference_update, lookup-pop_all}
use iddo_harness.Workflow.Order.Kahn.{
  Good, topological_order-Good, Placed, next-Placed, contains-without_ids,
}

abbrev pub ids_of : List Node → List String
ids_of [] = []
ids_of (n ∷ nodes) = n.id ∷ ids_of nodes

ready_ids-contains :
    (nodes : List Node) (m : Dict (List String)) (x : String)
    → contains (ready_ids nodes m) x ≡ true
    → contains (ids_of nodes) x ≡ true
unfolding ready_ids contains
ready_ids-contains [] m x h = h
ready_ids-contains (n ∷ nodes) m x h = ground (arith, h, ready_ids-contains nodes m x)

repeats-ready_ids :
    (nodes : List Node) (m : Dict (List String))
    → repeats (ready_ids nodes m) ≡ true
    → repeats (ids_of nodes) ≡ true
unfolding ready_ids repeats
repeats-ready_ids [] m h = h
repeats-ready_ids (n ∷ nodes) m h =
    ground (arith, h, repeats-ready_ids nodes m, ready_ids-contains nodes m n.id)

-- No node that is left is free, when none is ready.
none_free :
    (nodes : List Node) (m : Dict (List String)) (x : String)
    → is_empty (ready_ids nodes m) ≡ true
    → contains (ids_of nodes) x ≡ true
    → free (lookup x m) ≡ false
unfolding ready_ids contains
none_free [] m x e h = cc
none_free (n ∷ nodes) m x e h = elim (Bool-cases (free (lookup n.id m))) [
  | inl go ↦ cc (rw (go, ready_ids) at e)
  | inr halt ↦ elim (Bool-cases (n.id == x)) [
    | inl same ↦ let k : n.id ≡ x = ground (arith, eq_iff n.id x) in rw (← k) halt
    | inr other ↦ none_free nodes m x (rw (halt, ready_ids) at e) (rw other at h)
  ]
]

dependencies_from-contains :
    (nodes : List Node) (m : Dict (List String)) (x : String)
    → is_some (lookup x (dependencies_from nodes m)) ≡ true
    → (contains (ids_of nodes) x || is_some (lookup x m)) ≡ true
unfolding dependencies_from contains
dependencies_from-contains [] m x h = h
dependencies_from-contains (n ∷ nodes) m x h = ground (
  arith,
  dependencies_from-contains nodes (put n.id n.depends_on m) x h,
  lookup-put n.id x n.depends_on m,
)

-- A node that is left waits for dependencies of its own that are not in the order.
abbrev Open : Dict (List String) → Dict (List String) → List String → Type 0
Open m remaining order =
    (j : String) (left : List String)
    → lookup j remaining ≡ some left
    → (deps : List String) × (lookup j m ≡ some deps)
      × ((d : String)
          → contains left d ≡ true
          → (contains deps d ≡ true) × (contains order d ≡ false))

next-Open :
    (m remaining : Dict (List String)) (order ready : List String)
    → Open m remaining order
    → Open m (difference_update ready (pop_all ready remaining)) (order ++ ready)
next-Open m remaining order ready h j left e =
    let (old, g, same) = lookup-difference_update ready j (pop_all ready remaining) e in
    let found : lookup j remaining ≡ some old = ground (arith, lookup-pop_all ready j remaining) in
    let (deps, known, waits) = h j old found in
    (
      deps,
      known,
      (λ d k.
          let both : (contains old d && not (contains ready d)) ≡ true =
            rw (same, contains-without_ids ready old d) at k in
          let (mine, unplaced) = waits d (ground arith) in
          (mine, rw (contains-append d order ready) (ground arith))),
    )

-- Each id is a node that depends on an id which is stuck too, or on one that is no node.
abbrev pub IsStuck : Dict (List String) → List String → Type 0
IsStuck m stuck =
    (is_empty stuck ≡ false)
    × ((j : String)
        → contains stuck j ≡ true
        → (deps : List String) × (d : String) × (lookup j m ≡ some deps)
          × (contains deps d ≡ true)
          × ((contains stuck d || not (is_some (lookup d m))) ≡ true))

contains-keys : (m : Dict (List String)) (j : String) → contains (keys m) j ≡ is_some (lookup j m)
unfolding contains lookup
contains-keys [] j = refl
contains-keys ((k, v) ∷ m) j = ground (arith, contains-keys m j)

is_empty-keys : (m : Dict (List String)) → is_empty (keys m) ≡ is_empty m
is_empty-keys [] = refl
is_empty-keys ((k, v) ∷ m) = refl

waits_for : (left : List String) → is_empty left ≡ false → (d : String) × (contains left d ≡ true)
unfolding contains
waits_for [] h = cc
waits_for (d ∷ left) h = (d, ground (arith, eq_refl d))

module _ (nodes : List Node) where
  m : Dict (List String)
  m = dependencies nodes

  left-IsStuck :
      (remaining : Dict (List String)) (order : List String)
      → Open m remaining order
      → Placed m remaining order
      → is_empty remaining ≡ false
      → is_empty (ready_ids nodes remaining) ≡ true
      → IsStuck m (keys remaining)
  unfolding m lookup
  left-IsStuck remaining order open_ placed more halt = (
    rw (is_empty-keys remaining) more,
    (λ j k. elim (Option-cases (lookup j remaining)) [
      | inl gone ↦ cc (rw (contains-keys remaining j, gone) at k)
      | inr (left, there) ↦
          let (deps, known, waits) = open_ j left there in
          let node : contains (ids_of nodes) j ≡ true =
            ground (arith, dependencies_from-contains nodes [] j (rw known refl)) in
          let busy = rw there at (none_free nodes remaining j halt node) in
          let (d, waited) = waits_for left busy in
          let (mine, unplaced) = waits d waited in
          (
            deps,
            d,
            known,
            mine,
            rw (contains-keys remaining d) (ground (arith, placed d, unplaced)),
          )
    ]),
  )

  -- What an error of the rounds says.
  abbrev Says : OrderError → Type 0
  Says (cycle stuck) = IsStuck (dependencies nodes) stuck
  Says key_error = repeats (ids_of nodes) ≡ true

  rounds-Says :
      (fuel : ℕ) (remaining : Dict (List String)) (order : List String)
      → Open m remaining order
      → Placed m remaining order
      → {e : OrderError} → rounds fuel nodes remaining order ≡ some (err e)
      → Says e
  unfolding rounds m
  rounds-Says zero remaining order o p h = cc
  rounds-Says (suc fuel) remaining order o p {e} h =
      let ready = ready_ids nodes remaining in
      elim (Bool-cases (is_empty remaining)) [
        | inl over ↦ cc (rw (rounds, over) at h)
        | inr more ↦ elim (Bool-cases (is_empty ready)) [
          | inl halt ↦
              let same : cycle (keys remaining) ≡ e = cc (rw (rounds, more, halt) at h) in
              subst Says same (left-IsStuck remaining order o p more halt)
          | inr go ↦ elim (Bool-cases (repeats ready)) [
            | inl twice ↦
                let same : key_error ≡ e = cc (rw (rounds, more, go, twice) at h) in
                subst Says same (repeats-ready_ids nodes remaining twice)
            | inr once ↦
                rounds-Says fuel (difference_update ready (pop_all ready remaining))
                  (order ++ ready) (next-Open m remaining order ready o)
                  (next-Placed m remaining order ready p) (rw (rounds, more, go, once) at h)
          ]
        ]
      ]

-- topological_order ends for every list of nodes, in one of three ways. It returns an order: every node
-- is in it, and each node comes after all its dependencies. Or it names nodes that are stuck, at least
-- one, each of which depends on a node that is stuck too or on an id that is no node. Or it raises a
-- KeyError, and then two nodes have the same id.
pub topological_order-total :
    (nodes : List Node)
    → ((order : List String) × (topological_order nodes ≡ some (ok order))
        × Good (dependencies nodes) order)
      ⊎ ((stuck : List String) × (topological_order nodes ≡ some (err (cycle stuck)))
          × IsStuck (dependencies nodes) stuck)
      ⊎ ((topological_order nodes ≡ some (err key_error)) × (repeats (ids_of nodes) ≡ true))
unfolding topological_order m contains
topological_order-total nodes =
    let start : Open (dependencies nodes) (dependencies nodes) [] =
      λ j left e. (left, e, (λ d k. (k, refl))) in
    let placed : Placed (dependencies nodes) (dependencies nodes) [] = λ j h. ground arith in
    elim (Option-cases (topological_order nodes)) [
      | inl e ↦ let k = topological_order-ends nodes in cc (rw e at k)
      | inr (ok order, e) ↦ inl (order, e, topological_order-Good nodes order e)
      | inr (err (cycle stuck), e) ↦ inr (
          inl (
            stuck,
            e,
            rounds-Says nodes (suc (length nodes)) (dependencies nodes) [] start placed e,
          ))
      | inr (err key_error, e) ↦
          inr
            (inr (e, rounds-Says nodes (suc (length nodes)) (dependencies nodes) [] start placed e))
    ]
