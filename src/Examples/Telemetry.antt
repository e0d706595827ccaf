-- ===== src/Examples/Telemetry.antt =====
-- The collector of agent/metrics.py over the life of one task.
use iddo_harness.Prelude.{
  ℕ, ◌≡◌, ◌≤◌, String, true, Option, none, some, List, [], ◌∷◌, ◌++◌, refl, arith,
}
use iddo_harness.Prelude.Dict.{values}
use iddo_harness.Json.{ℤ, pos}
use iddo_harness.Metrics.{fresh, count_of}
use iddo_harness.Metrics.Totals.{
  Event, observed, started, completed, pushed, retried, run, task_total, completion, tally, sum,
  run-totals,
}
use iddo_harness.Metrics.Latencies.{samples, waited, ran}

abbrev life : List Event
life =
    observed "a" 10
    ∷ started "a" (some "shell") 12
    ∷ retried "a"
    ∷ pushed 40
    ∷ completed "a" "ok" (some "shell") 20
    ∷ completed "b" "blocked" none 21
    ∷ []

run-totals_example :
    let after = run life (fresh true) in
    (count_of "tasks_total" after.counters ≡ tally task_total 0 life)
    × (sum (values after.by_status) ≡ tally completion 0 life)
run-totals_example = run-totals life

-- The task waited for 2 and ran for 8.
times : samples waited [] [] life ++ samples ran [] [] life ≡ 2 ∷ 8 ∷ []
times = refl

abbrev middle : ℕ → ℕ
middle n = 1

abbrev top : ℕ → ℕ
top n = 9

below : (n : ℕ) → middle n ≤ top n
below n = omega arith

abbrev provided : String → Option ℤ
provided name = some (pos 3)
