-- ===== src/Examples/Workflow.antt =====
-- A plan of agent/workflow.py with one slot: a failed node, one that depends on it, and one that
-- depends on nothing.
use iddo_harness.Prelude.{◌≡◌, refl, true, false, none, some, [], ◌∷◌, is_some}
use iddo_harness.Prelude.Dict.{lookup, put}
use iddo_harness.Json.{end}
use iddo_harness.Workflow.{
  Node, NodeOutcome, failed, skipped, upstream_failure, Spec, Plan, unrun, ready_listed,
  ready_nodes, why_not, skip_reason, visit, visit_all, launch, resolve_each, resolve_rest,
}

abbrev first : Node
first = record {
  id = "a";
  kind = "shell";
  payload = end;
  depends_on = [];
  continue_on_error = true;
  timeout_sec = 600;
}

abbrev second : Node
second = record {
  id = "b";
  kind = "shell";
  payload = end;
  depends_on = "a" ∷ [];
  continue_on_error = false;
  timeout_sec = 600;
}

abbrev third : Node
third = record {
  id = "c";
  kind = "shell";
  payload = end;
  depends_on = [];
  continue_on_error = false;
  timeout_sec = 600;
}

abbrev spec : Spec
spec = record { nodes = first ∷ second ∷ third ∷ []; max_parallel = 1; fail_fast = true }

abbrev a_failed : NodeOutcome
a_failed = record { id = "a"; state = failed; ok = false; skipped_because = none }

abbrev plan : Plan
plan = record {
  outcomes = ("a", a_failed) ∷ [];
  pending = second ∷ third ∷ [];
  in_flight = [];
  stop_launching = false;
}

-- The only slot goes to the node that is skipped. Nothing is in flight then, and so the node that
-- depends on nothing is skipped too.
independent_node_skipped :
    lookup "c" (resolve_rest false (launch spec false plan)).outcomes
    ≡ some (unrun third skipped upstream_failure)
unfolding launch ready_nodes ready_listed visit_all visit skip_reason why_not resolve_rest
    resolve_each lookup put
independent_node_skipped = refl

a_known : is_some (lookup "a" plan.outcomes) ≡ true
unfolding lookup
a_known = refl
