-- ===== src/Workflow/Parsing.antt =====
-- agent/workflow.py, `parse_workflow` and `_references`. An error is a value that names what is wrong
-- and where; `not_convertible` stands for what `int()` and `float()` raise. `findall` is that of the
-- compiled pattern for references, which returns the node and the field of each.
use iddo_harness.Prelude.{
  ℕ, zero, suc, String, ◌==◌, Bool, true, false, not, Option, none, some, List, [], ◌∷◌, ◌++◌, leb,
  length, map, is_empty, if◌then◌else◌, nonempty,
}
use iddo_harness.Prelude.Ids.{contains}
use iddo_harness.Prelude.Result.{Result, ok, err, guard, ◌>>=◌, ◌>>◌}
use iddo_harness.Prelude.Text.{strip, concat}
use iddo_harness.Json.{
  Value, null, boolean, number, text, array, object, Items, nil, cons, Fields, end, field, ℤ, pos,
  negsuc, to_list, get, or_null, truthy, Python, str,
}
use iddo_harness.Workflow.{Node, Spec}
use iddo_harness.Workflow.Order as Order
use iddo_harness.Workflow.Order.{topological_order}

pub data Problem : Type 0 where
  not_an_object no_nodes too_many_nodes below_one not_convertible : Problem
  node_not_an_object empty_id : ℕ → Problem
  duplicate_id no_kind payload_not_an_object depends_not_a_list : String → Problem
  unknown_dependency depends_on_itself : String → String → Problem
  unknown_reference unsupported_field undeclared_reference : String → String → Problem
  cycle : List String → Problem
  -- The KeyError of topological_order, which is no WorkflowError.
  pop_key_error : Problem

abbrev pub max_nodes : ℕ
max_nodes = 100

abbrev pub default_max_parallel : ℕ
default_max_parallel = 3

abbrev pub default_node_timeout : ℕ
default_node_timeout = 600

abbrev pub referenceable_fields : List String
referenceable_fields = "stdout" ∷ "stderr" ∷ "exit_code" ∷ "ok" ∷ "error" ∷ "decision" ∷ []

abbrev pub node_keys : List String
node_keys = "id" ∷ "kind" ∷ "payload" ∷ "depends_on" ∷ "continue_on_error" ∷ "timeout_sec" ∷ []

-- {k: v for k, v in raw.items() if k not in {...}}
unfoldable pub other_fields : Fields → Fields
unfolding contains
other_fields end = end
other_fields (field k v fs) =
    let rest = other_fields fs in if contains node_keys k then rest else field k v rest

unfoldable pub payload_of : String → Fields → Result Problem Fields
unfolding other_fields
payload_of id raw = elim (or_null (get "payload" raw)) [
  | null ↦ ok (other_fields raw)
  | object fs ↦ ok fs
  | _ ↦ err (payload_not_an_object id)
]

abbrev pub ids_of : List Node → List String
ids_of [] = []
ids_of (n ∷ nodes) = n.id ∷ ids_of nodes

module _ (findall : String → List (String × String)) where
  unfoldable mutual
    pub references : Value → List (String × String)
    references (text s) = findall s
    references (array vs) = references_items vs
    references (object fs) = references_fields fs
    references null = []
    references (boolean b) = []
    references (number n) = []

    pub references_items : Items → List (String × String)
    references_items nil = []
    references_items (cons v vs) = references v ++ references_items vs

    pub references_fields : Fields → List (String × String)
    references_fields end = []
    references_fields (field k v fs) = references v ++ references_fields fs

unfoldable pub check_dependencies : List String → Node → List String → Result Problem (Unit {0})
check_dependencies ids node [] = ok tt
check_dependencies ids node (dep ∷ deps) =
    guard (contains ids dep) (unknown_dependency node.id dep)
    >> (guard (not (dep == node.id)) (depends_on_itself node.id dep)
        >> check_dependencies ids node deps)

unfoldable pub check_references :
    List String → Node → List (String × String) → Result Problem (Unit {0})
check_references ids node [] = ok tt
check_references ids node ((id, name) ∷ refs) =
    guard (contains ids id) (unknown_reference node.id id)
    >> (guard (contains referenceable_fields name) (unsupported_field node.id name)
        >> (guard (contains node.depends_on id) (undeclared_reference node.id id)
            >> check_references ids node refs))

unfoldable pub check_order : List Node → Result Problem (Unit {0})
check_order nodes = elim (topological_order nodes) [
  | some (err (Order.cycle stuck)) ↦ err (cycle stuck)
  | some (err Order.key_error) ↦ err pop_key_error
  | _ ↦ ok tt
]

unfoldable pub at_least_one : ℤ → Result Problem ℕ
at_least_one (pos (suc n)) = ok (suc n)
at_least_one (pos zero) = err below_one
at_least_one (negsuc n) = err below_one

abbrev number_or_raise : Option ℤ → Result Problem ℤ
number_or_raise none = err not_convertible
number_or_raise (some n) = ok n

-- bool(payload.get("fail_fast", True))
abbrev fail_fast_of : Option Value → Bool
fail_fast_of none = true
fail_fast_of (some v) = truthy v

module _ (py : Python) where
  -- str(raw.get("id") or f"node-{index}").strip()
  unfoldable pub id_of : ℕ → Fields → String
  id_of index raw =
      let id = or_null (get "id" raw) in
      strip (if truthy id then str py id else concat "node-" (str py (number (pos index))))

  unfoldable pub kind_of : String → Fields → Result Problem String
  kind_of id raw =
      let kind = or_null (get "kind" raw) in
      let stripped = strip (if truthy kind then str py kind else "") in
      if nonempty stripped then ok stripped else err (no_kind id)

  unfoldable pub depends_of : String → Fields → Result Problem (List String)
  depends_of id raw =
      let deps = or_null (get "depends_on" raw) in
      elim (truthy deps) [
        | false ↦ ok []
        | true ↦ elim deps [
          | text s ↦ ok (s ∷ [])
          | array vs ↦ ok (map (str py) (to_list vs))
          | _ ↦ err (depends_not_a_list id)
        ]
      ]

  unfoldable pub timeout_of : Fields → Result Problem ℕ
  timeout_of raw = elim (get "timeout_sec" raw) [
    | none ↦ ok default_node_timeout
    | some v ↦ elim (py.to_float v) [ none ↦ err not_convertible | some t ↦ ok t ]
  ]

  -- A node whose id is known to be a new one.
  unfoldable pub node_with_id : String → Fields → Result Problem Node
  unfolding kind_of payload_of depends_of timeout_of
  node_with_id id raw = do
    kind ← kind_of id raw
    payload ← payload_of id raw
    depends ← depends_of id raw
    timeout ← timeout_of raw
    ok (record {
      id = id;
      kind = kind;
      payload = payload;
      depends_on = depends;
      continue_on_error = truthy (or_null (get "continue_on_error" raw));
      timeout_sec = timeout;
    })

  -- The first loop of parse_workflow; `seen` are the ids so far.
  unfoldable pub parse_node : ℕ → List String → Value → Result Problem Node
  unfolding id_of node_with_id
  parse_node index seen (object raw) =
      let id = id_of index raw in
      guard (nonempty id) (empty_id index)
      >> (guard (not (contains seen id)) (duplicate_id id) >> node_with_id id raw)
  parse_node index seen v = err (node_not_an_object index)

  unfoldable pub parse_nodes : ℕ → List String → List Value → Result Problem (List Node)
  unfolding parse_node
  parse_nodes index seen [] = ok []
  parse_nodes index seen (v ∷ vs) = parse_node index seen v >>= λ node.
      parse_nodes (suc index) (node.id ∷ seen) vs >>= λ rest. ok (node ∷ rest)

  -- payload.get("nodes") or payload.get("steps")
  unfoldable pub raw_nodes : Fields → Result Problem (List Value)
  raw_nodes fs =
      let nodes = or_null (get "nodes" fs) in
      elim (if truthy nodes then nodes else or_null (get "steps" fs)) [
        | array vs ↦ if is_empty (to_list vs) then err no_nodes else ok (to_list vs)
        | _ ↦ err no_nodes
      ]

  unfoldable pub max_parallel_of : Fields → Result Problem ℕ
  unfolding at_least_one
  max_parallel_of fs = elim (get "max_parallel" fs) [
    | none ↦ ok default_max_parallel
    | some v ↦ number_or_raise (py.to_int v) >>= at_least_one
  ]

  module _ (findall : String → List (String × String)) where
    -- The second loop of parse_workflow.
    unfoldable pub check_nodes : List String → List Node → Result Problem (Unit {0})
    unfolding check_dependencies check_references references
    check_nodes ids [] = ok tt
    check_nodes ids (n ∷ nodes) =
        check_dependencies ids n n.depends_on
        >> (check_references ids n (references_fields findall n.payload) >> check_nodes ids nodes)

    unfoldable pub checked : List Node → Result Problem (Unit {0})
    unfolding check_nodes check_order
    checked nodes = check_nodes (ids_of nodes) nodes >> check_order nodes

    unfoldable pub spec_of : Fields → List Node → Result Problem Spec
    unfolding checked max_parallel_of
    spec_of fs nodes =
        checked nodes
        >> (max_parallel_of fs >>= λ slots. ok (record {
          nodes = nodes;
          max_parallel = slots;
          fail_fast = fail_fast_of (get "fail_fast" fs);
        }))

    unfoldable pub parse_workflow : Value → Result Problem Spec
    unfolding raw_nodes parse_nodes spec_of
    parse_workflow (object fs) = raw_nodes fs >>= λ raw.
        guard (leb (length raw) max_nodes) too_many_nodes
        >> (parse_nodes 0 [] raw >>= λ nodes. spec_of fs nodes)
    parse_workflow v = err not_an_object
