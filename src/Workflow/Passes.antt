-- ===== src/Workflow/Passes.antt =====
-- What a pass of the workflow runner keeps, and how it ends.
use iddo_harness.Prelude.{
  ℕ, zero, suc, ◌+◌, ◌-◌, ◌≤◌, String, ◌≡◌, refl, eq_refl, Bool, true, false, ◌&&◌, not, Option,
  none, some, List, [], ◌∷◌, arith, length, length-append, all, take, All, Bool-cases, inl, inr,
  is_some, is_none,
}
use iddo_harness.Prelude.Dict.{Dict, lookup, put, lookup-put}
use iddo_harness.Workflow.{
  Node, NodeOutcome, skipped, cancelled, Spec, Plan, ready_nodes, ready_listed, why_not,
  skip_reason, visit, visit_all, launch, resolve_each, resolve_rest,
}

length-take : (n : ℕ) (xs : List Node) → length (take n xs) ≤ n
length-take zero xs = omega arith
length-take (suc n) [] = omega arith
length-take (suc n) (x ∷ xs) = omega (arith, length-take n xs)

visit-in_flight :
    (node : Node) (p : Plan) → length (visit node p).in_flight ≤ length p.in_flight + 1
unfolding visit
visit-in_flight node p = ground (arith, length-append p.in_flight (node ∷ []))

visit_all-in_flight :
    (nodes : List Node) (p : Plan)
    → length (visit_all nodes p).in_flight ≤ length p.in_flight + length nodes
unfolding visit_all
visit_all-in_flight [] p = omega arith
visit_all-in_flight (node ∷ nodes) p =
    omega (arith, visit_all-in_flight nodes (visit node p), visit-in_flight node p)

-- A launch never leaves more nodes in flight than `max_parallel`, from at most that many.
pub launch-bounded :
    (spec : Spec) (is_cancelled : Bool) (p : Plan)
    → length p.in_flight ≤ spec.max_parallel
    → length (launch spec is_cancelled p).in_flight ≤ spec.max_parallel
unfolding launch ready_nodes
launch-bounded spec is_cancelled p h =
    let slots = spec.max_parallel - length p.in_flight in
    elim (Bool-cases (not p.stop_launching && not is_cancelled)) [
      | inl go ↦ rw go (
          omega (
            arith,
            visit_all-in_flight (ready_nodes spec p) p,
            length-take slots (ready_listed p spec.nodes),
          ))
      | inr halt ↦ rw halt h
    ]

is_some-put :
    (k j : String) (v : NodeOutcome) (m : Dict NodeOutcome)
    → is_some (lookup j m) ≡ true
    → is_some (lookup j (put k v m)) ≡ true
is_some-put k j v m h = rw (lookup-put k j v m) (ground arith)

resolve_each-keeps :
    (is_cancelled : Bool) (nodes : List Node) (j : String) (m : Dict NodeOutcome)
    → is_some (lookup j m) ≡ true
    → is_some (lookup j (resolve_each is_cancelled nodes m)) ≡ true
unfolding resolve_each
resolve_each-keeps is_cancelled [] j m h = h
resolve_each-keeps is_cancelled (node ∷ nodes) j m h =
    resolve_each-keeps is_cancelled nodes j _ (is_some-put node.id j _ m h)

resolve_each-All :
    (is_cancelled : Bool) (nodes : List Node) (m : Dict NodeOutcome)
    → All (λ n. is_some (lookup n.id (resolve_each is_cancelled nodes m)) ≡ true) nodes
unfolding resolve_each
resolve_each-All is_cancelled [] m = tt
resolve_each-All is_cancelled (node ∷ nodes) m = (
  resolve_each-keeps is_cancelled nodes node.id _
      (rw (lookup-put node.id node.id _ m, eq_refl node.id)),
  resolve_each-All is_cancelled nodes _,
)

-- When the runner gives up on the rest of the plan, every node that was pending gets an outcome, and
-- no outcome that was there is lost.
pub resolve_rest-All :
    (is_cancelled : Bool) (p : Plan) (j : String)
    → is_some (lookup j p.outcomes) ≡ true
    → All (λ n. is_some (lookup n.id (resolve_rest is_cancelled p).outcomes) ≡ true) p.pending
      × (is_some (lookup j (resolve_rest is_cancelled p).outcomes) ≡ true)
unfolding resolve_rest
resolve_rest-All is_cancelled p j h = (
  resolve_each-All is_cancelled p.pending p.outcomes,
  resolve_each-keeps is_cancelled p.pending j p.outcomes h,
)

abbrev pub sound : Option NodeOutcome → Bool
sound none = true
sound (some outcome) = elim outcome.state [ skipped ↦ false | cancelled ↦ false | _ ↦ outcome.ok ]

-- `_skip_reason` finds nothing against a node exactly when each of its dependencies that has an
-- outcome succeeded: one that failed, was skipped or was cancelled stops it, also where
-- `continue_on_error` is set.
pub skip_reason-eq :
    (deps : List String) (outcomes : Dict NodeOutcome)
    → is_none (skip_reason deps outcomes) ≡ all (λ dep. sound (lookup dep outcomes)) deps
unfolding skip_reason why_not
skip_reason-eq [] outcomes = refl
skip_reason-eq (dep ∷ deps) outcomes = ground (arith, skip_reason-eq deps outcomes)
