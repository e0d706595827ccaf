-- ===== src/Workflow/Order/Rounds.antt =====
-- The rounds of topological_order: each takes a node out, and so they end.
use iddo_harness.Prelude.{
  ℕ, zero, suc, ◌+◌, ◌≤◌, ◌<◌, String, ◌==◌, ◌≡◌, refl, true, false, Option, none, some, List, [],
  ◌∷◌, ◌++◌, arith, length, All, Bool-cases, inl, inr, is_some, is_empty,
}
use iddo_harness.Prelude.Dict.{Dict, lookup, put, remove}
use iddo_harness.Workflow.{Node}
use iddo_harness.Workflow.Order.{
  dependencies_from, dependencies, free, ready_ids, pop_all, difference_update, rounds,
  topological_order, repeats,
}

length-remove_le : (k : String) (m : Dict (List String)) → length (remove k m) ≤ length m
unfolding remove
length-remove_le k [] = omega arith
length-remove_le k ((j, v) ∷ m) = ground (arith, length-remove_le k m)

length-remove :
    (k : String) (m : Dict (List String))
    → is_some (lookup k m) ≡ true
    → length (remove k m) < length m
unfolding remove lookup
length-remove k [] h = cc
length-remove k ((j, v) ∷ m) h = elim (Bool-cases (j == k)) [
  | inl e ↦ rw e (omega (arith, length-remove_le k m))
  | inr e ↦ rw e (omega (arith, length-remove k m (rw e at h)))
]

length-put :
    (k : String) (v : List String) (m : Dict (List String)) → length (put k v m) ≤ suc (length m)
unfolding put
length-put k v [] = omega arith
length-put k v ((j, w) ∷ m) = ground (arith, length-put k v m)

length-dependencies_from :
    (nodes : List Node) (m : Dict (List String))
    → length (dependencies_from nodes m) ≤ length nodes + length m
unfolding dependencies_from
length-dependencies_from [] m = omega arith
length-dependencies_from (n ∷ nodes) m = omega (
  arith,
  length-dependencies_from nodes (put n.id n.depends_on m),
  length-put n.id n.depends_on m,
)

length-pop_all_le : (ids : List String) (m : Dict (List String)) → length (pop_all ids m) ≤ length m
unfolding pop_all
length-pop_all_le [] m = omega arith
length-pop_all_le (id ∷ ids) m =
    omega (arith, length-pop_all_le ids (remove id m), length-remove_le id m)

length-difference_update :
    (ready : List String) (m : Dict (List String)) → length (difference_update ready m) ≡ length m
unfolding difference_update
length-difference_update ready [] = omega arith
length-difference_update ready ((id, deps) ∷ m) = omega (arith, length-difference_update ready m)

pub ready_ids-Free :
    (nodes : List Node) (m : Dict (List String))
    → All (λ id. free (lookup id m) ≡ true) (ready_ids nodes m)
unfolding ready_ids
ready_ids-Free [] m = tt
ready_ids-Free (n ∷ nodes) m = elim (Bool-cases (free (lookup n.id m))) [
  | inl e ↦ rw (ready_ids, e) (e, ready_ids-Free nodes m)
  | inr e ↦ rw (ready_ids, e) (ready_ids-Free nodes m)
]

free-is_some : (o : Option (List String)) → free o ≡ true → is_some o ≡ true
free-is_some none h = cc
free-is_some (some deps) h = refl

length-pop_all :
    (ids : List String) (m : Dict (List String))
    → is_empty ids ≡ false
    → All (λ id. free (lookup id m) ≡ true) ids
    → length (pop_all ids m) < length m
unfolding pop_all
length-pop_all [] m e h = cc
length-pop_all (id ∷ ids) m e h = omega (
  arith,
  length-pop_all_le ids (remove id m),
  length-remove id m (free-is_some (lookup id m) h.0),
)

no_room : {n : ℕ} → n < 0 → ⊥
no_room h = omega arith

rounds-end :
    (fuel : ℕ) (nodes : List Node) (m : Dict (List String)) (order : List String)
    → length m < fuel
    → is_some (rounds fuel nodes m order) ≡ true
unfolding rounds
rounds-end zero nodes m order enough = absurd (no_room enough)
rounds-end (suc fuel) nodes m order enough = elim (Bool-cases (is_empty m)) [
  | inl e ↦ rw (rounds, e) refl
  | inr e ↦
      rw (rounds, e)
        (elim (Bool-cases (is_empty (ready_ids nodes m))) [
          | inl none_ready ↦ rw none_ready refl
          | inr some_ready ↦
              let ready = ready_ids nodes m in
              elim (Bool-cases (repeats ready)) [
                | inl twice ↦ rw (some_ready, twice) refl
                | inr once ↦
                    rw (some_ready, once)
                      (rounds-end fuel nodes (difference_update ready (pop_all ready m))
                        (order ++ ready)
                        (omega (
                          arith,
                          length-difference_update ready (pop_all ready m),
                          length-pop_all ready m some_ready (ready_ids-Free nodes m),
                        )))
              ]
        ])
]

-- The rounds of topological_order end, for every list of nodes: with an order or an error.
pub topological_order-ends : (nodes : List Node) → is_some (topological_order nodes) ≡ true
unfolding topological_order
topological_order-ends nodes =
    rounds-end (suc (length nodes)) nodes (dependencies nodes) []
      (omega (arith, length-dependencies_from nodes []))
