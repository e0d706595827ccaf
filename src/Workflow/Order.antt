-- ===== src/Workflow/Order.antt =====
-- agent/workflow.py, `topological_order`: Kahn's algorithm in rounds. A set of dependencies is a list
-- that is only asked for membership.
pub mod Rounds
pub mod Respects
pub mod Kahn
pub mod Stuck
use iddo_harness.Prelude.{
  ℕ, zero, suc, String, Bool, true, false, ◌||◌, not, Option, none, some, List, [], ◌∷◌, ◌++◌,
  length, map, filter, is_empty,
}
use iddo_harness.Prelude.Dict.{Dict, lookup, put, remove, keys}
use iddo_harness.Prelude.Ids.{contains}
use iddo_harness.Prelude.Result.{Result, ok, err}
use iddo_harness.Workflow.{Node}

-- {n.id: set(n.depends_on) for n in nodes}
unfoldable pub dependencies_from : List Node → Dict (List String) → Dict (List String)
dependencies_from [] m = m
dependencies_from (n ∷ nodes) m = dependencies_from nodes (put n.id n.depends_on m)

abbrev pub dependencies : List Node → Dict (List String)
dependencies nodes = dependencies_from nodes []

abbrev pub free : Option (List String) → Bool
free none = false
free (some deps) = is_empty deps

-- [n.id for n in nodes if n.id in remaining and not remaining[n.id]]
unfoldable pub ready_ids : List Node → Dict (List String) → List String
ready_ids [] remaining = []
ready_ids (n ∷ nodes) remaining =
    let rest = ready_ids nodes remaining in
    elim (free (lookup n.id remaining)) [ true ↦ n.id ∷ rest | false ↦ rest ]

unfoldable pub pop_all : List String → Dict (List String) → Dict (List String)
pop_all [] remaining = remaining
pop_all (id ∷ ids) remaining = pop_all ids (remove id remaining)

abbrev pub without_ids : List String → List String → List String
without_ids ready deps = filter (λ d. not (contains ready d)) deps

-- for deps in remaining.values(): deps.difference_update(ready)
unfoldable pub difference_update : List String → Dict (List String) → Dict (List String)
difference_update ready [] = []
difference_update ready ((id, deps) ∷ m) = (id, without_ids ready deps) ∷ difference_update ready m

-- A WorkflowError with the nodes that are left, or the KeyError of the second `remaining.pop` of an id
-- that two nodes have.
pub data OrderError : Type 0 where
  cycle : List String → OrderError
  key_error : OrderError

-- An id stands twice among the ids that a round pops.
unfoldable pub repeats : List String → Bool
repeats [] = false
repeats (id ∷ ids) = contains ids id || repeats ids

-- The rounds of the loop; `none` where the fuel does not suffice.
unfoldable pub rounds :
    ℕ → List Node → Dict (List String) → List String → Option (Result OrderError (List String))
unfolding ready_ids pop_all difference_update repeats
rounds zero nodes remaining order = none
rounds (suc fuel) nodes remaining order = elim (is_empty remaining) [
  | true ↦ some (ok order)
  | false ↦
      let ready = ready_ids nodes remaining in
      elim (is_empty ready) [
        | true ↦ some (err (cycle (keys remaining)))
        | false ↦ elim (repeats ready) [
          | true ↦ some (err key_error)
          | false ↦
              rounds fuel nodes (difference_update ready (pop_all ready remaining)) (order ++ ready)
        ]
      ]
]

-- Each round takes a node out.
unfoldable pub topological_order : List Node → Option (Result OrderError (List String))
unfolding rounds dependencies_from
topological_order nodes = rounds (suc (length nodes)) nodes (dependencies nodes) []
