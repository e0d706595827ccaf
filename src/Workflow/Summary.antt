-- ===== src/Workflow/Summary.antt =====
-- The summary of a workflow: its counts add up.
use iddo_harness.Prelude.{ℕ, ◌+◌, ◌≡◌, true, some, List, [], ◌∷◌, arith, length, All, is_some}
use iddo_harness.Prelude.Dict.{Dict, lookup}
use iddo_harness.Workflow.{Node, NodeOutcome, succeeded, failed, skipped, cancelled, Spec, Plan}
use iddo_harness.Workflow.Run.{Turn, ordered, count, counts, run_loop}
use iddo_harness.Workflow.Shrinking.{Unique, Honest}
use iddo_harness.Workflow.Ending.{run_loop-Finishes}

length-ordered :
    (nodes : List Node) (m : Dict NodeOutcome)
    → All (λ n. is_some (lookup n.id m) ≡ true) nodes
    → length (ordered nodes m) ≡ length nodes
unfolding ordered
length-ordered [] m h = omega arith
length-ordered (n ∷ nodes) m h = ground (arith, length-ordered nodes m h.1, h.0)

count-partition :
    (os : List NodeOutcome)
    → length os ≡ count succeeded os + count failed os + count skipped os + count cancelled os
count-partition [] = omega arith
count-partition (o ∷ os) = ground (arith, count-partition os)

-- When the loop is over, the numbers of the nodes that succeeded, failed, were skipped and were
-- cancelled add up to the total. The ids of the nodes are different, and `wait` returns at least one
-- of the futures it is given.
pub counts-partition :
    (spec : Spec) (world : ℕ → Turn) (p : Plan)
    → Unique spec.nodes
    → ((i : ℕ) → Honest (world i))
    → run_loop spec world ≡ some p
    → let c = counts spec p.outcomes in
      c.total ≡ c.succeeded_count + c.failed_count + c.skipped_count + c.cancelled_count
unfolding counts
counts-partition spec world p u honest e =
    let (q, same, finished) = run_loop-Finishes spec world u honest in
    let here : q ≡ p = cc in
    omega (
      arith,
      count-partition (ordered spec.nodes p.outcomes),
      length-ordered spec.nodes p.outcomes (rw (← here) finished),
    )
