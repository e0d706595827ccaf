-- ===== src/Runner/Retry.antt =====
-- agent/runner.py, `run_task`: the attempts at one task. The executor and the cancellations that
-- other threads make are outside the method: they are parameters, one answer for each time that the
-- method asks.
pub mod Attempts
use iddo_harness.Prelude.{
  ℕ, zero, suc, ◌+◌, ◌-◌, String, Bool, true, false, ◌&&◌, ◌||◌, not, Option, none, some, List, [],
  ◌∷◌, ◌++◌, leb, ltb, eqb, if◌then◌else◌,
}
use iddo_harness.Taskqueue.Schedule.{RetryPolicy, delay_before}
use iddo_harness.Runner.{
  Result, Status, status, is_ok, Event, attempt_filed, slept, started, retried, completed,
  should_retry, report,
}

-- What one call of the executor does: it returns a result, or nothing, or it raises.
pub data Run : Type 0 where
  returns : Option Result → Run
  raises : String → Run

-- The outside world during one `run_task`: what attempt n does; whether the task has been cancelled
-- when the method asks after the pause that follows attempt n, when it decides about a retry of
-- attempt n, and at the end.
pub record World : Type 0 where
  pub execute : ℕ → Run
  pub cancelled_in_pause : ℕ → Bool
  pub cancelled_after : ℕ → Bool
  pub cancelled_at_end : Bool

-- `_error_result`
abbrev pub error_result : String → String → Result
error_result task_id message = record {
  task_id = task_id;
  ok = false;
  decision = "error";
  stdout = "";
  error = message;
  cancelled = false;
  final_chunk = false;
}

abbrev pub result_of : String → Run → Option Result
result_of task_id (returns result) = result
result_of task_id (raises message) = some (error_result task_id message)

-- What the loop of `run_task` leaves: the attempts made, the last result, and the events.
pub record Tries : Type 0 where
  pub attempts : ℕ
  pub result : Option Result
  pub events : List Event

abbrev pub after : List Event → Tries → Tries
after es t = record t { events = es ++ t.events }

module _ (world : World) (policy : RetryPolicy) (task_id : String) where
  -- The pause before attempt n + 1.
  pause : ℕ → List Event
  pause attempt =
      let delay = delay_before policy (attempt + 1) in if eqb delay 0 then [] else slept delay ∷ []

  -- Attempt n: the last one, or one that is filed and followed by `more`.
  settle : ℕ → ℕ → Tries → Tries
  settle left n more =
      let got = result_of task_id (world.execute n) in
      if not (should_retry (world.cancelled_after n) got) || leb left 0
      then record { attempts = n; result = got; events = started task_id ∷ [] }
      else after (started task_id ∷ attempt_filed task_id got n ∷ []) more

  -- The loop from `attempt` attempts on, with `left` still allowed: their sum is `max_attempts`.
  unfoldable pub tries : ℕ → ℕ → Option Result → Tries
  unfolding pause settle
  tries zero attempt result = record { attempts = attempt; result = result; events = [] }
  tries (suc left) attempt result =
      let n = attempt + 1 in
      let more = tries left n (result_of task_id (world.execute n)) in
      if eqb attempt 0
      then settle left n more
      else if world.cancelled_in_pause attempt
      then record { attempts = attempt; result = result; events = pause attempt }
      else after (pause attempt ++ retried task_id ∷ []) (settle left n more)

abbrev flagged : Option Result → Bool
flagged none = false
flagged (some r) = r.cancelled

-- `Outcome`, with the events of the whole method.
pub record Outcome : Type 0 where
  pub result : Option Result
  pub attempts : ℕ
  pub cancelled : Bool
  pub events : List Event

-- What `run_task` tells the queue afterwards is `mark_completed task_id (is_ok (status_of …))`.
abbrev pub status_of : Outcome → Status
status_of o = status o.cancelled o.result

-- What follows the loop: the file of a settling attempt that was not the first, then the report.
unfoldable pub closing : String → Bool → Tries → List Event
closing task_id is_cancelled t =
    (if ltb 1 t.attempts then attempt_filed task_id t.result t.attempts ∷ [] else [])
    ++ (report task_id t.result ++ completed task_id (status is_cancelled t.result) ∷ [])

unfoldable pub run_task : World → RetryPolicy → String → Outcome
run_task world policy task_id =
    let t = tries world policy task_id policy.max_attempts 0 none in
    let is_cancelled = world.cancelled_at_end || flagged t.result in
    record {
      result = t.result;
      attempts = t.attempts;
      cancelled = is_cancelled;
      events = t.events ++ closing task_id is_cancelled t;
    }
