-- ===== src/Examples/Attempts.antt =====
-- A task that fails once and then succeeds, under `run_task` of agent/runner.py.
use iddo_harness.Prelude.{
  ℕ, zero, suc, ◌<◌, ◌≡◌, refl, Bool, true, false, some, [], ◌∷◌, arith, inl, ltb, if◌then◌else◌,
}
use iddo_harness.Taskqueue.Schedule.{RetryPolicy}
use iddo_harness.Runner.{Result, should_retry}
use iddo_harness.Runner.Retry.{Run, returns, World, run_task}
use iddo_harness.Runner.Retry.Attempts.{again, filed, count_up, run_task_settles}

abbrev shell_result : Bool → Result
shell_result ok = record {
  task_id = "a";
  ok = ok;
  decision = "auto";
  stdout = "";
  error = "";
  cancelled = false;
  final_chunk = false;
}

abbrev flaky : ℕ → Run
flaky (suc zero) = returns (some (shell_result false))
flaky n = returns (some (shell_result true))

abbrev world : World
world = record {
  execute = flaky;
  cancelled_in_pause = λ n. false;
  cancelled_after = λ n. false;
  cancelled_at_end = false;
}

abbrev policy : RetryPolicy
policy = record { max_attempts = 3; backoff_seconds = 30 ∷ 120 ∷ [] }

first_fails : (n : ℕ) → 0 < n → n < 2 → again world policy "a" n ≡ true
unfolding should_retry
first_fails zero low high = absurd (omega arith)
first_fails (suc zero) low high = refl
first_fails (suc (suc n)) low high = absurd (omega arith)

second_passes : again world policy "a" 2 ≡ false
unfolding should_retry
second_passes = refl

run_task_settles_example :
    ((run_task world policy "a").attempts ≡ 2)
    × ((run_task world policy "a").result ≡ some (shell_result true))
    × (filed (run_task world policy "a").events ≡ (if ltb 1 2 then count_up 1 2 else []))
run_task_settles_example =
    run_task_settles world policy "a" 2 (omega arith) (omega arith) first_fails (inl second_passes)
      (λ n. refl)
