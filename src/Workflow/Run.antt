-- ===== src/Workflow/Run.antt =====
-- agent/workflow.py, `WorkflowRunner.run`: the loop over the passes, and the counts of its summary.
-- What happens outside the loop between two passes is a Turn: whether the workflow is found cancelled
-- at each of the two places where the loop asks, and which of the futures that it waits for are done,
-- with what `_run_node` found.
use iddo_harness.Prelude.{
  ℕ, zero, suc, Bool, true, false, ◌&&◌, Option, none, some, List, [], ◌∷◌, length, filter,
  is_empty, if◌then◌else◌,
}
use iddo_harness.Prelude.Dict.{Dict, lookup}
use iddo_harness.Workflow.{
  Node, NodeOutcome, State, succeeded, failed, skipped, cancelled, Spec, Plan, start, launch,
  resolve_rest, settle,
}

abbrev pub Finished : Type 0
Finished = Node × Bool

pub record Turn : Type 0 where
  pub cancelled_before : Bool
  pub cancelled_after : Bool
  -- concurrent.futures.wait(in_flight, return_when="FIRST_COMPLETED")
  pub wait : List Node → List Finished

-- The `for future in done` of a pass.
unfoldable pub settle_each : Spec → List Finished → Plan → Plan
unfolding settle
settle_each spec [] p = p
settle_each spec ((node, ok) ∷ done) p = settle_each spec done (settle spec node ok p)

-- A pass that breaks out of the loop, or one that goes on.
pub data Pass : Type 0 where
  ended going_on : Plan → Pass

unfoldable pub after_launch : Spec → Turn → Plan → Pass
unfolding settle_each resolve_rest
after_launch spec turn p =
    if is_empty p.in_flight
    then ended (resolve_rest turn.cancelled_after p)
    else going_on (settle_each spec (turn.wait p.in_flight) p)

unfoldable pub one_pass : Spec → Turn → Plan → Pass
unfolding after_launch launch
one_pass spec turn p = after_launch spec turn (launch spec turn.cancelled_before p)

-- `while pending or in_flight`, from the n-th pass on; `none` where the fuel does not suffice.
unfoldable pub passes : ℕ → Spec → (ℕ → Turn) → ℕ → Plan → Option Plan
unfolding one_pass
passes zero spec world n p = none
passes (suc fuel) spec world n p = elim (is_empty p.pending && is_empty p.in_flight) [
  | true ↦ some p
  | false ↦ elim (one_pass spec (world n) p) [
    | ended q ↦ some q
    | going_on q ↦ passes fuel spec world (suc n) q
  ]
]

-- Each pass that goes on finishes a node.
unfoldable pub run_loop : Spec → (ℕ → Turn) → Option Plan
unfolding passes start
run_loop spec world = passes (suc (length spec.nodes)) spec world 0 (start spec)

add_outcome : Option NodeOutcome → List NodeOutcome → List NodeOutcome
add_outcome none rest = rest
add_outcome (some o) rest = o ∷ rest

-- [outcomes[n.id] for n in spec.nodes if n.id in outcomes]
unfoldable pub ordered : List Node → Dict NodeOutcome → List NodeOutcome
unfolding add_outcome
ordered [] outcomes = []
ordered (n ∷ nodes) outcomes = add_outcome (lookup n.id outcomes) (ordered nodes outcomes)

abbrev pub in_state : State → State → Bool
in_state succeeded s = elim s [ succeeded ↦ true | _ ↦ false ]
in_state failed s = elim s [ failed ↦ true | _ ↦ false ]
in_state skipped s = elim s [ skipped ↦ true | _ ↦ false ]
in_state cancelled s = elim s [ cancelled ↦ true | _ ↦ false ]

-- One of the counts of the summary.
abbrev pub count : State → List NodeOutcome → ℕ
count s outcomes = length (filter (λ (o : NodeOutcome). in_state s o.state) outcomes)

pub record Counts : Type 0 where
  pub total : ℕ
  pub succeeded_count : ℕ
  pub failed_count : ℕ
  pub skipped_count : ℕ
  pub cancelled_count : ℕ

unfoldable pub counts : Spec → Dict NodeOutcome → Counts
unfolding ordered
counts spec outcomes =
    let listed = ordered spec.nodes outcomes in
    record {
      total = length spec.nodes;
      succeeded_count = count succeeded listed;
      failed_count = count failed listed;
      skipped_count = count skipped listed;
      cancelled_count = count cancelled listed;
    }
