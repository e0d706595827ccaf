-- ===== src/Workflow/Valid.antt =====
-- What parse_workflow guarantees of the plan that it returns, and that such a plan runs to its end.
use iddo_harness.Prelude.{
  ℕ, zero, suc, ◌≤◌, String, ◌==◌, eq_iff, ◌≡◌, refl, true, false, not, ◌&&◌, some, List, [], ◌∷◌,
  arith, length, leb, All, Option-cases, inl, inr, is_some, nonempty,
}
use iddo_harness.Prelude.Ids.{contains}
use iddo_harness.Prelude.Result.{ok, err, bind-ok, guard-ok, then-ok}
use iddo_harness.Json.{
  Value, null, boolean, number, text, array, object, Fields, ℤ, pos, negsuc, Python, get,
}
use iddo_harness.Workflow.{Node, Spec, has_id}
use iddo_harness.Workflow.Run.{Turn, run_loop}
use iddo_harness.Workflow.Shrinking.{Unique, Honest}
use iddo_harness.Workflow.Ending.{Finishes, run_loop-Finishes}
use iddo_harness.Workflow.Order.{topological_order, cycle, key_error}
use iddo_harness.Workflow.Order.Rounds.{topological_order-ends}
use iddo_harness.Workflow.Parsing.{
  references_fields, ids_of, check_dependencies, check_references, check_order, check_nodes,
  checked, at_least_one, max_parallel_of, id_of, kind_of, payload_of, depends_of, timeout_of,
  node_with_id, parse_node, parse_nodes, raw_nodes, spec_of, parse_workflow, max_nodes,
  referenceable_fields,
}

check_dependencies-All :
    (ids : List String) (node : Node) (deps : List String)
    → check_dependencies ids node deps ≡ ok tt
    → All (λ d. (contains ids d && not (d == node.id)) ≡ true) deps
unfolding check_dependencies
check_dependencies-All ids node [] h = tt
check_dependencies-All ids node (d ∷ deps) h =
    let (known, h1) = guard-ok (contains ids d) _ _ h in
    let (other, h2) = guard-ok (not (d == node.id)) _ (check_dependencies ids node deps) h1 in
    (ground arith, check_dependencies-All ids node deps h2)

-- A reference of a node names a node that it depends on, and a field that can be referenced.
abbrev pub Declared : Node → (String × String) → Type 0
Declared node r = (contains referenceable_fields r.1 && contains node.depends_on r.0) ≡ true

check_references-All :
    (ids : List String) (node : Node) (refs : List (String × String))
    → check_references ids node refs ≡ ok tt
    → All (Declared node) refs
unfolding check_references
check_references-All ids node [] h = tt
check_references-All ids node ((id, name) ∷ refs) h =
    let (known, h1) = guard-ok (contains ids id) _ _ h in
    let (field_known, h2) = guard-ok (contains referenceable_fields name) _ _ h1 in
    let (declared, h3) =
      guard-ok (contains node.depends_on id) _ (check_references ids node refs) h2 in
    (ground arith, check_references-All ids node refs h3)

check_order-ok :
    (nodes : List Node)
    → check_order nodes ≡ ok tt
    → (order : List String) × (topological_order nodes ≡ some (ok order))
unfolding check_order
check_order-ok nodes h = elim (Option-cases (topological_order nodes)) [
  | inl e ↦
      let k : is_some (topological_order nodes) ≡ true = topological_order-ends nodes in
      cc (rw e at k)
  | inr (ok order, e) ↦ (order, e)
  | inr (err (cycle stuck), e) ↦ cc (rw (check_order, e) at h)
  | inr (err key_error, e) ↦ cc (rw (check_order, e) at h)
]

module _ (py : Python) where
  node_with_id-id :
      (id : String) (raw : Fields) (n : Node) → node_with_id py id raw ≡ ok n → n.id ≡ id
  unfolding node_with_id
  node_with_id-id id raw n h =
      let (kind, _, h1) = bind-ok (kind_of py id raw) _ h in
      let (payload, _, h2) = bind-ok (payload_of id raw) _ h1 in
      let (deps, _, h3) = bind-ok (depends_of py id raw) _ h2 in
      let (timeout, _, h4) = bind-ok (timeout_of py raw) _ h3 in cc

  parse_node-new :
      (index : ℕ) (seen : List String) (v : Value) (n : Node)
      → parse_node py index seen v ≡ ok n
      → contains seen n.id ≡ false
  unfolding parse_node
  parse_node-new index seen (object raw) n h =
      let id = id_of py index raw in
      let (_, h1) = guard-ok (nonempty id) _ _ h in
      let (new, h2) = guard-ok (not (contains seen id)) _ (node_with_id py id raw) h1 in
      rw (node_with_id-id id raw n h2) (ground arith)
  parse_node-new index seen null n h = cc
  parse_node-new index seen (boolean b) n h = cc
  parse_node-new index seen (number z) n h = cc
  parse_node-new index seen (text s) n h = cc
  parse_node-new index seen (array vs) n h = cc

  unseen_ids :
      (id : String) (seen : List String) (nodes : List Node)
      → All (λ n. contains (id ∷ seen) n.id ≡ false) nodes
      → (has_id id nodes ≡ false) × All (λ n. contains seen n.id ≡ false) nodes
  unfolding contains
  unseen_ids id seen [] h = (refl, tt)
  unseen_ids id seen (n ∷ nodes) h =
      let (rest, unseen) = unseen_ids id seen nodes h.1 in
      (ground (arith, eq_iff n.id id, eq_iff id n.id), (ground arith, unseen))

  parse_nodes-Unique :
      (index : ℕ) (seen : List String) (vs : List Value) (nodes : List Node)
      → parse_nodes py index seen vs ≡ ok nodes
      → Unique nodes × All (λ n. contains seen n.id ≡ false) nodes
  unfolding parse_nodes
  parse_nodes-Unique index seen [] nodes h = let e : [] ≡ nodes = cc in rw (← e) (tt, tt)
  parse_nodes-Unique index seen (v ∷ vs) nodes h =
      let (node, h1, h2) = bind-ok (parse_node py index seen v) _ h in
      let (rest, h3, h4) = bind-ok (parse_nodes py (suc index) (node.id ∷ seen) vs) _ h2 in
      let e : node ∷ rest ≡ nodes = cc in
      let (unique, unseen) = parse_nodes-Unique (suc index) (node.id ∷ seen) vs rest h3 in
      let (other, old) = unseen_ids node.id seen rest unseen in
      rw (← e) ((other, unique), (parse_node-new index seen v node h1, old))

  at_least_one-positive : (z : ℤ) (n : ℕ) → at_least_one z ≡ ok n → 1 ≤ n
  unfolding at_least_one
  at_least_one-positive (pos zero) n h = cc
  at_least_one-positive (pos (suc k)) n h = let e : suc k ≡ n = cc in omega arith
  at_least_one-positive (negsuc k) n h = cc

  max_parallel_of-positive : (fs : Fields) (n : ℕ) → max_parallel_of py fs ≡ ok n → 1 ≤ n
  unfolding max_parallel_of
  max_parallel_of-positive fs n h = elim (Option-cases (get "max_parallel" fs)) [
    | inl e ↦ let k : 3 ≡ n = cc (rw (max_parallel_of, e) at h) in omega arith
    | inr (v, e) ↦ elim (Option-cases (py.to_int v)) [
      | inl f ↦ cc (rw (max_parallel_of, e, f) at h)
      | inr (z, f) ↦ at_least_one-positive z n (rw (max_parallel_of, e, f) at h)
    ]
  ]

  module _ (findall : String → List (String × String)) where
    -- What is right with a node, given the ids of the plan.
    abbrev pub Sound : List String → Node → Type 0
    Sound ids n =
        All (λ d. (contains ids d && not (d == n.id)) ≡ true) n.depends_on
        × All (Declared n) (references_fields findall n.payload)

    check_nodes-All :
        (ids : List String) (nodes : List Node)
        → check_nodes py findall ids nodes ≡ ok tt
        → All (Sound ids) nodes
    unfolding check_nodes
    check_nodes-All ids [] h = tt
    check_nodes-All ids (n ∷ nodes) h =
        let (a, h1) = then-ok (check_dependencies ids n n.depends_on) _ h in
        let (b, h2) =
          then-ok (check_references ids n (references_fields findall n.payload))
            (check_nodes py findall ids nodes) h1 in
        (
          (check_dependencies-All ids n n.depends_on a, check_references-All ids n _ b),
          check_nodes-All ids nodes h2,
        )

    -- A plan that can be run.
    abbrev pub Valid : Spec → Type 0
    Valid spec =
        Unique spec.nodes
        × All (Sound (ids_of spec.nodes)) spec.nodes
        × ((order : List String) × (topological_order spec.nodes ≡ some (ok order)))
        × (1 ≤ spec.max_parallel)

    spec_of-Valid :
        (fs : Fields) (nodes : List Node) (spec : Spec)
        → Unique nodes
        → spec_of py findall fs nodes ≡ ok spec
        → Valid spec
    unfolding spec_of checked
    spec_of-Valid fs nodes spec unique h =
        let (c, h1) = then-ok (checked py findall nodes) _ h in
        let (slots, h2, h3) = bind-ok (max_parallel_of py fs) _ h1 in
        let (sound, acyclic) =
          then-ok (check_nodes py findall (ids_of nodes) nodes) (check_order nodes) c in
        let same : nodes ≡ spec.nodes = cc in
        let slots_same : slots ≡ spec.max_parallel = cc in
        rw (← same, ← slots_same)
          (
            unique,
            check_nodes-All (ids_of nodes) nodes sound,
            check_order-ok nodes acyclic,
            max_parallel_of-positive fs slots h2,
          )

    -- A plan that parse_workflow accepts has nodes with different ids; each node depends on other nodes
    -- of the plan only, and refers only to nodes that it depends on and to fields that can be
    -- referenced; the nodes have an order; and at least one node may run at a time.
    pub parse_workflow-Valid :
        (payload : Value) (spec : Spec) → parse_workflow py findall payload ≡ ok spec → Valid spec
    unfolding parse_workflow
    parse_workflow-Valid (object fs) spec h =
        let (raw, _, h1) = bind-ok (raw_nodes py fs) _ h in
        let (_, h2) = guard-ok (leb (length raw) max_nodes) _ _ h1 in
        let (nodes, h3, h4) = bind-ok (parse_nodes py 0 [] raw) _ h2 in
        spec_of-Valid fs nodes spec (parse_nodes-Unique 0 [] raw nodes h3).0 h4
    parse_workflow-Valid null spec h = cc
    parse_workflow-Valid (boolean b) spec h = cc
    parse_workflow-Valid (number z) spec h = cc
    parse_workflow-Valid (text s) spec h = cc
    parse_workflow-Valid (array vs) spec h = cc

    -- A plan that parse_workflow accepts runs to its end, whatever the executor answers and whenever
    -- the workflow is cancelled, and every node has an outcome then, where `wait` returns at least one
    -- of the futures it is given.
    pub parse_workflow-Finishes :
        (payload : Value) (spec : Spec) (world : ℕ → Turn)
        → parse_workflow py findall payload ≡ ok spec
        → ((i : ℕ) → Honest (world i))
        → Finishes spec.nodes (run_loop spec world)
    parse_workflow-Finishes payload spec world h honest =
        run_loop-Finishes spec world (parse_workflow-Valid payload spec h).0 honest
