-- ===== src/Examples/Plans.antt =====
-- A plan of agent/workflow.py that is parsed and run: a node, and one that depends on it.
use iddo_harness.Prelude.{
  ◌⊎◌, ℕ, ◌+◌, String, ◌≡◌, refl, eq_refl, true, false, none, some, List, [], ◌∷◌,
}
use iddo_harness.Prelude.Dict.{lookup, put, remove}
use iddo_harness.Prelude.Ids.{contains}
use iddo_harness.Prelude.Text.{strip, is_space}
use iddo_harness.Prelude.Result.{ok, err}
use iddo_harness.Json.{Value, text, array, object, nil, cons, end, field, get, truthy, str}
use iddo_harness.Workflow.{
  Node, NodeOutcome, succeeded, Spec, Plan, start, ready_listed, ready_nodes, why_not, skip_reason,
  visit, visit_all, launch, resolve_each, resolve_rest, settle,
}
use iddo_harness.Workflow.Run.{
  Finished, Turn, settle_each, after_launch, one_pass, passes, run_loop, counts,
}
use iddo_harness.Workflow.Shrinking.{Honest}
use iddo_harness.Workflow.Ending.{Finishes}
use iddo_harness.Workflow.Summary.{counts-partition}
use iddo_harness.Workflow.Order.{
  dependencies_from, dependencies, ready_ids, pop_all, difference_update, rounds, topological_order,
  repeats, cycle, key_error,
}
use iddo_harness.Workflow.Order.Kahn.{Good}
use iddo_harness.Workflow.Order.Stuck.{topological_order-total, IsStuck, ids_of}
use iddo_harness.Workflow.Parsing.{
  references, check_dependencies, check_references, check_order, check_nodes, checked, other_fields,
  at_least_one, max_parallel_of, id_of, kind_of, payload_of, depends_of, timeout_of, node_with_id,
  parse_node, parse_nodes, raw_nodes, spec_of, parse_workflow,
}
use iddo_harness.Workflow.Valid.{Valid, parse_workflow-Valid, parse_workflow-Finishes}
use iddo_harness.Examples.Queue.{python}

abbrev findall : String → List (String × String)
findall s = []

abbrev build : Node
build = record {
  id = "a";
  kind = "shell";
  payload = end;
  depends_on = [];
  continue_on_error = false;
  timeout_sec = 600;
}

abbrev report : Node
report = record {
  id = "b";
  kind = "shell";
  payload = end;
  depends_on = "a" ∷ [];
  continue_on_error = false;
  timeout_sec = 600;
}

abbrev plan : Spec
plan = record { nodes = report ∷ build ∷ []; max_parallel = 3; fail_fast = true }

abbrev written : Value
written = object (
    field "nodes"
      (array (
        cons
          (object (
            field "id" (text "b")
              (field "kind" (text "shell") (field "depends_on" (text "a") end))))
          (cons (object (field "id" (text "a") (field "kind" (text "shell") end))) nil)))
      end)

written_parses : parse_workflow python findall written ≡ ok plan
unfolding parse_workflow raw_nodes parse_nodes parse_node id_of kind_of payload_of depends_of
    timeout_of node_with_id other_fields spec_of checked check_nodes check_dependencies
    check_references check_order max_parallel_of at_least_one references topological_order rounds
    dependencies_from ready_ids pop_all difference_update get truthy str strip is_space lookup put
    remove contains
written_parses = refl

abbrev first_done : List Node → List Finished
first_done [] = []
first_done (n ∷ nodes) = (n, true) ∷ []

abbrev world : ℕ → Turn
world n = record { cancelled_before = false; cancelled_after = false; wait = first_done }

world-Honest : (n : ℕ) → Honest (world n)
world-Honest n [] h = cc
world-Honest n (m ∷ nodes) h = (refl, (rw (eq_refl m.id) refl, tt))

parse_workflow-Valid_example : Valid python findall plan
parse_workflow-Valid_example = parse_workflow-Valid python findall written plan written_parses

parse_workflow-Finishes_example : Finishes plan.nodes (run_loop plan world)
parse_workflow-Finishes_example =
    parse_workflow-Finishes python findall written plan world written_parses world-Honest

abbrev done_by : Node → NodeOutcome
done_by n = record { id = n.id; state = succeeded; ok = true; skipped_because = none }

abbrev over : Plan
over = record {
  outcomes = ("a", done_by build) ∷ ("b", done_by report) ∷ [];
  pending = [];
  in_flight = [];
  stop_launching = false;
}

plan_runs : run_loop plan world ≡ some over
unfolding run_loop passes one_pass after_launch settle_each start launch ready_nodes ready_listed
    visit_all visit skip_reason why_not resolve_rest resolve_each settle lookup put
plan_runs = refl

counts-partition_example :
    let c = counts plan over.outcomes in
    c.total ≡ c.succeeded_count + c.failed_count + c.skipped_count + c.cancelled_count
counts-partition_example =
    counts-partition plan world over (refl, (refl, tt)) world-Honest plan_runs

topological_order-total_example :
    ((order : List String) × (topological_order plan.nodes ≡ some (ok order))
      × Good (dependencies plan.nodes) order)
    ⊎ ((stuck : List String) × (topological_order plan.nodes ≡ some (err (cycle stuck)))
        × IsStuck (dependencies plan.nodes) stuck)
    ⊎ ((topological_order plan.nodes ≡ some (err key_error)) × (repeats (ids_of plan.nodes) ≡ true))
topological_order-total_example = topological_order-total plan.nodes
