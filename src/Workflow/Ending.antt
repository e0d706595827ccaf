-- ===== src/Workflow/Ending.antt =====
-- The loop of the workflow runner: it ends, and every node of the plan has an outcome then.
use iddo_harness.Prelude.{
  ℕ, zero, suc, ◌<◌, String, eq_iff, ◌≡◌, refl, eq_refl, Bool, true, false, ◌&&◌, ◌||◌, not, Option,
  some, List, [], ◌∷◌, arith, length, All, Bool-cases, Option-cases, inl, inr, is_some, is_empty,
  All-map,
}
use iddo_harness.Prelude.Dict.{Dict, lookup, lookup-put}
use iddo_harness.Workflow.{
  Node, NodeOutcome, Spec, Plan, has_id, start, launch, ready_nodes, skip_reason, visit, visit_all,
  settle, resolve_rest, resolve_each,
}
use iddo_harness.Workflow.Run.{
  Finished, Turn, settle_each, after_launch, one_pass, passes, run_loop,
}
use iddo_harness.Workflow.Shrinking.{Unique, Honest, size, pass-size, has_id-without, has_id-append}

-- A node has an outcome, or it is still to come.
abbrev pub has_outcome : String → Plan → Bool
has_outcome j p = is_some (lookup j p.outcomes)

abbrev Known : String → Plan → Type 0
Known j p = (has_outcome j p || (has_id j p.pending || has_id j p.in_flight)) ≡ true

visit-Known : (j : String) (node : Node) (p : Plan) → Known j p → Known j (visit node p)
unfolding visit
visit-Known j node p h = elim (Option-cases (skip_reason node.depends_on p.outcomes)) [
  | inl e ↦
      rw (visit, e, has_id-without node.id j p.pending, has_id-append j p.in_flight (node ∷ []))
        (ground (arith, eq_iff node.id j))
  | inr (why, e) ↦
      rw (visit, e, has_id-without node.id j p.pending, lookup-put node.id j _ p.outcomes)
        (ground (arith, eq_iff node.id j))
]

visit_all-Known :
    (j : String) (nodes : List Node) (p : Plan) → Known j p → Known j (visit_all nodes p)
unfolding visit_all
visit_all-Known j [] p h = h
visit_all-Known j (node ∷ nodes) p h =
    visit_all-Known j nodes (visit node p) (visit-Known j node p h)

launch-Known :
    (j : String) (spec : Spec) (is_cancelled : Bool) (p : Plan)
    → Known j p
    → Known j (launch spec is_cancelled p)
unfolding launch
launch-Known j spec is_cancelled p h =
    elim (Bool-cases (not p.stop_launching && not is_cancelled)) [
      | inl go ↦ rw go (visit_all-Known j (ready_nodes spec p) p h)
      | inr halt ↦ rw halt h
    ]

settle-Known :
    (j : String) (spec : Spec) (node : Node) (ok : Bool) (p : Plan)
    → Known j p
    → Known j (settle spec node ok p)
unfolding settle
settle-Known j spec node ok p h =
    rw (lookup-put node.id j _ p.outcomes, has_id-without node.id j p.in_flight)
      (ground (arith, eq_iff node.id j))

settle_each-Known :
    (j : String) (spec : Spec) (done : List Finished) (p : Plan)
    → Known j p
    → Known j (settle_each spec done p)
unfolding settle_each
settle_each-Known j spec [] p h = h
settle_each-Known j spec ((node, ok) ∷ done) p h =
    settle_each-Known j spec done (settle spec node ok p) (settle-Known j spec node ok p h)

resolve_each-outcome :
    (j : String) (c : Bool) (nodes : List Node) (m : Dict NodeOutcome)
    → (is_some (lookup j m) || has_id j nodes) ≡ true
    → is_some (lookup j (resolve_each c nodes m)) ≡ true
unfolding resolve_each
resolve_each-outcome j c [] m h = ground arith
resolve_each-outcome j c (node ∷ nodes) m h =
    resolve_each-outcome j c nodes _
      (rw (lookup-put node.id j _ m) (ground (arith, eq_iff node.id j)))

no_ids : (j : String) (nodes : List Node) → is_empty nodes ≡ true → has_id j nodes ≡ false
no_ids j [] h = refl
no_ids j (n ∷ nodes) h = cc

resolve_rest-outcome :
    (j : String) (c : Bool) (p : Plan)
    → is_empty p.in_flight ≡ true
    → Known j p
    → has_outcome j (resolve_rest c p) ≡ true
unfolding resolve_rest
resolve_rest-outcome j c p e h =
    resolve_each-outcome j c p.pending p.outcomes (ground (arith, no_ids j p.in_flight e))

-- What holds at the end of the loop: there is a plan, and each of these nodes has an outcome in it.
abbrev pub Finishes : (nodes : List Node) → Option Plan → Type 0
Finishes nodes result = (p : Plan) × (result ≡ some p) × All (λ n. has_outcome n.id p ≡ true) nodes

no_room : {n : ℕ} → n < 0 → ⊥
no_room h = omega arith

passes-Finishes :
    (fuel : ℕ) (spec : Spec) (world : ℕ → Turn) (n : ℕ) (p : Plan) (nodes : List Node)
    → Unique spec.nodes
    → ((i : ℕ) → Honest (world i))
    → size p < fuel
    → All (λ m. Known m.id p) nodes
    → Finishes nodes (passes fuel spec world n p)
unfolding passes one_pass after_launch
passes-Finishes zero spec world n p nodes u honest enough known = absurd (no_room enough)
passes-Finishes (suc fuel) spec world n p nodes u honest enough known =
    let turn = world n in
    let q = launch spec turn.cancelled_before p in
    let still =
      All-map (λ m. Known m.id p) (λ m. Known m.id q)
        (λ m h. launch-Known m.id spec turn.cancelled_before p h) nodes known in
    elim (Bool-cases (is_empty p.pending && is_empty p.in_flight)) [
      | inl e ↦
          rw (passes, e)
            (
              p,
              refl,
              All-map (λ m. Known m.id p) (λ m. has_outcome m.id p ≡ true)
                  (λ m h. ground (arith, no_ids m.id p.pending, no_ids m.id p.in_flight)) nodes
                  known,
            )
      | inr e ↦
          rw (passes, e)
            (elim (Bool-cases (is_empty q.in_flight)) [
              | inl idle ↦
                  rw (one_pass, after_launch, idle)
                    (
                      resolve_rest turn.cancelled_after q,
                      refl,
                      All-map (λ m. Known m.id q)
                          (λ m. has_outcome m.id (resolve_rest turn.cancelled_after q) ≡ true)
                          (λ m h. resolve_rest-outcome m.id turn.cancelled_after q idle h) nodes
                          still,
                    )
              | inr busy ↦
                  rw (one_pass, after_launch, busy)
                    (let done = turn.wait q.in_flight in
                      passes-Finishes fuel spec world (suc n) (settle_each spec done q) nodes u
                        honest (omega (arith, pass-size spec turn p u (honest n) busy))
                        (All-map (λ m. Known m.id q) (λ m. Known m.id (settle_each spec done q))
                          (λ m h. settle_each-Known m.id spec done q h) nodes still))
            ])
    ]

has_id-All : (nodes : List Node) → All (λ n. has_id n.id nodes ≡ true) nodes
has_id-All [] = tt
has_id-All (n ∷ nodes) = (
  rw (eq_refl n.id) refl,
  All-map (λ m. has_id m.id nodes ≡ true) (λ m. has_id m.id (n ∷ nodes) ≡ true)
      (λ m h. ground arith) nodes (has_id-All nodes),
)

-- The loop of `run` ends after at most one pass for each node and one more, whatever the executor
-- answers and whenever the workflow is cancelled, and every node of the plan has an outcome then.
-- The ids of the nodes are different, and `wait` returns at least one of the futures it is given.
pub run_loop-Finishes :
    (spec : Spec) (world : ℕ → Turn)
    → Unique spec.nodes
    → ((i : ℕ) → Honest (world i))
    → Finishes spec.nodes (run_loop spec world)
unfolding run_loop start
run_loop-Finishes spec world u honest =
    passes-Finishes (suc (length spec.nodes)) spec world 0 (start spec) spec.nodes u honest
      (omega arith)
      (All-map (λ n. has_id n.id spec.nodes ≡ true) (λ n. Known n.id (start spec))
        (λ n h. ground arith) spec.nodes (has_id-All spec.nodes))
