-- ===== src/Examples/Pool.antt =====
-- One submission and one start in the worker pool of agent/runner.py, then a cancellation.
use iddo_harness.Prelude.{ℕ, ◌≤◌, ◌≡◌, refl, ◌==◌, true, false, List, [], All, length, max}
use iddo_harness.Prelude.Ids.{contains}
use iddo_harness.Prelude.Sublists.{Pairs}
use iddo_harness.Taskqueue.Queue.Invariant.{IsValid}
use iddo_harness.Runner.Pool.{Pool, init, submit, launch, cancel, pump}
use iddo_harness.Runner.{Event}
use iddo_harness.Runner.Pool.Slots.{Reach, here, next, submits, launches, Fits, reached-Fits}
use iddo_harness.Runner.Pool.Exclusive.{Distinct, reached-Distinct}
use iddo_harness.Runner.Pool.Cancel.{cancel_takes_effect}
use iddo_harness.Examples.Queue.{python, defaults, task, unseen, two, two-IsValid}

abbrev submitted : Pool
submitted = (submit python defaults unseen (task "a") (init 1)).2

abbrev launched : Pool
launched = (launch unseen 50 50 submitted.slots submitted).1

steps : Reach (init 1) launched
steps = next (next here (submits python defaults unseen (task "a"))) (launches unseen 50 50)

reached-Fits_example : Fits (max 1 1) launched × (length launched.threads ≤ max 1 1)
reached-Fits_example = reached-Fits 1 launched steps

reached-Distinct_example : Pairs Distinct launched.threads × IsValid launched.queue
reached-Distinct_example = reached-Distinct 1 launched steps

abbrev holding : Pool
holding = record {
  queue = two;
  slots = 2;
  workers = [];
  in_flight = 0;
  peak = 0;
  cancelled = [];
  dequeued = [];
  threads = [];
}

cancel_takes_effect_example :
    (contains (cancel unseen "b" holding).1.cancelled "b" ≡ true)
    × All (λ e. ("b" == e.task.id) ≡ false) (cancel unseen "b" holding).1.queue.entries
cancel_takes_effect_example = cancel_takes_effect unseen "b" holding two-IsValid refl

abbrev pumped : List Event × ℕ × Pool
pumped = pump unseen 50 (λ r. (50, 50)) 2 holding
