-- ===== src/Workflow.antt =====
-- agent/workflow.py, `WorkflowRunner`: one pass of `run` after the other. Whether the workflow has
-- been cancelled when the loop asks, and which nodes have finished and how, comes from other threads
-- and from the executor: arguments. A node's outcome is what later nodes and the summary read.
pub mod Passes
pub mod Run
pub mod Shrinking
pub mod Ending
pub mod Order
pub mod Summary
pub mod Parsing
pub mod Valid
use iddo_harness.Prelude.{
  ℕ, ◌-◌, String, ◌==◌, Bool, true, false, ◌&&◌, not, Option, none, some, List, [], ◌∷◌, ◌++◌,
  length, filter, all, any, take, if◌then◌else◌, is_some, is_empty,
}
use iddo_harness.Prelude.Dict.{Dict, lookup, put}
use iddo_harness.Json.{Fields}

pub record Node : Type 0 where
  pub id : String
  pub kind : String
  pub payload : Fields
  pub depends_on : List String
  pub continue_on_error : Bool
  pub timeout_sec : ℕ

pub data State : Type 0 where
  succeeded failed skipped cancelled : State

-- Why a node is not run: a dependency that was skipped, cancelled or has failed; or, at the end, an
-- upstream failure or the cancellation of the workflow.
pub data Why : Type 0 where
  dependency_skipped dependency_cancelled dependency_failed : String → Why
  upstream_failure workflow_cancelled : Why

pub record NodeOutcome : Type 0 where
  pub id : String
  pub state : State
  pub ok : Bool
  pub skipped_because : Option Why

pub record Spec : Type 0 where
  pub nodes : List Node
  pub max_parallel : ℕ
  pub fail_fast : Bool

-- The local variables of `run`.
pub record Plan : Type 0 where
  pub outcomes : Dict NodeOutcome
  pub pending : List Node
  pub in_flight : List Node
  pub stop_launching : Bool

unfoldable pub start : Spec → Plan
start spec = record { outcomes = []; pending = spec.nodes; in_flight = []; stop_launching = false }

abbrev pub without : String → List Node → List Node
without id nodes = filter (λ (n : Node). not (n.id == id)) nodes

abbrev pub has_id : String → List Node → Bool
has_id id nodes = any (λ (n : Node). n.id == id) nodes

-- Pending nodes whose dependencies all have an outcome.
unfoldable pub ready_listed : Plan → List Node → List Node
ready_listed p nodes =
    filter (λ n. has_id n.id p.pending && all (λ dep. is_some (lookup dep p.outcomes)) n.depends_on)
      nodes

unfoldable pub ready_nodes : Spec → Plan → List Node
unfolding ready_listed
ready_nodes spec p = take (spec.max_parallel - length p.in_flight) (ready_listed p spec.nodes)

-- What `_skip_reason` says of one dependency.
unfoldable pub why_not : String → NodeOutcome → Option Why
why_not dep outcome = elim outcome.state [
  | skipped ↦ some (dependency_skipped dep)
  | cancelled ↦ some (dependency_cancelled dep)
  | _ ↦ if outcome.ok then none else some (dependency_failed dep)
]

reason_of : String → Option NodeOutcome → Option Why
unfolding why_not
reason_of dep none = none
reason_of dep (some outcome) = why_not dep outcome

-- The loop of `_skip_reason` over the dependencies.
unfoldable pub skip_reason : List String → Dict NodeOutcome → Option Why
unfolding reason_of
skip_reason [] outcomes = none
skip_reason (dep ∷ deps) outcomes =
    let rest = skip_reason deps outcomes in
    elim (reason_of dep (lookup dep outcomes)) [ some why ↦ some why | none ↦ rest ]

abbrev pub unrun : Node → State → Why → NodeOutcome
unrun node state why = record {
  id = node.id;
  state = state;
  ok = false;
  skipped_because = some why;
}

-- One ready node: it is skipped, or it is submitted to the thread pool.
unfoldable pub visit : Node → Plan → Plan
unfolding skip_reason
visit node p = elim (skip_reason node.depends_on p.outcomes) [
  | some why ↦ record p {
    outcomes = put node.id (unrun node skipped why) p.outcomes;
    pending = without node.id p.pending;
  }
  | none ↦ record p { pending = without node.id p.pending; in_flight = p.in_flight ++ node ∷ [] }
]

unfoldable pub visit_all : List Node → Plan → Plan
unfolding visit
visit_all [] p = p
visit_all (node ∷ nodes) p = visit_all nodes (visit node p)

-- The first half of a pass.
unfoldable pub launch : Spec → Bool → Plan → Plan
unfolding visit_all ready_nodes
launch spec is_cancelled p =
    if not p.stop_launching && not is_cancelled then visit_all (ready_nodes spec p) p else p

abbrev or_upstream : Option Why → Why
or_upstream none = upstream_failure
or_upstream (some why) = why

-- The outcome of a node that can never start.
abbrev leftover : Bool → Node → Dict NodeOutcome → NodeOutcome
leftover is_cancelled node outcomes =
    if is_cancelled
    then unrun node cancelled workflow_cancelled
    else unrun node skipped (or_upstream (skip_reason node.depends_on outcomes))

unfoldable pub resolve_each : Bool → List Node → Dict NodeOutcome → Dict NodeOutcome
unfolding skip_reason
resolve_each is_cancelled [] outcomes = outcomes
resolve_each is_cancelled (node ∷ nodes) outcomes =
    resolve_each is_cancelled nodes (put node.id (leftover is_cancelled node outcomes) outcomes)

-- What `run` does when nothing is in flight after a launch: it ends.
unfoldable pub resolve_rest : Bool → Plan → Plan
unfolding resolve_each
resolve_rest is_cancelled p = record p {
  outcomes = resolve_each is_cancelled p.pending p.outcomes;
  pending = [];
}

-- A node whose future is done: `ok` is what `_run_node` found.
unfoldable pub settle : Spec → Node → Bool → Plan → Plan
settle spec node ok p = record p {
  outcomes =
      put node.id
        (record {
          id = node.id;
          state = if ok then succeeded else failed;
          ok = ok;
          skipped_because = none;
        })
        p.outcomes;
  in_flight = without node.id p.in_flight;
  stop_launching =
      if not ok && (not node.continue_on_error && spec.fail_fast) then true else p.stop_launching;
}
