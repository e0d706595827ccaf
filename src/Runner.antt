-- ===== src/Runner.antt =====
-- agent/runner.py: what the runner reads of a result, and what it does that others can see.
pub mod Retry
pub mod Pool
use iddo_harness.Prelude.{
  ℕ, String, ◌==◌, Bool, true, false, ◌&&◌, ◌||◌, Option, none, some, List, [], ◌∷◌, any,
  if◌then◌else◌,
}
use iddo_harness.Taskqueue.Schedule.{Task}

-- `Result` of agent/executor.py. Of its metadata, the two flags that the runner reads.
pub record Result : Type 0 where
  pub task_id : String
  pub ok : Bool
  pub decision : String
  pub stdout : String
  pub error : String
  pub cancelled : Bool
  pub final_chunk : Bool

pub data Status : Type 0 where
  cancelled blocked confirm_required ok error : Status

-- `Outcome.status`
unfoldable pub status : Bool → Option Result → Status
status true result = cancelled
status false none = error
status false (some r) =
    if (r.decision == "block") || (r.decision == "blocked")
    then blocked
    else if r.decision == "confirm_required"
    then confirm_required
    else if r.ok
    then ok
    else error

abbrev pub is_ok : Status → Bool
is_ok ok = true
is_ok _ = false

-- What the runner sends to its reporter, to its metrics and to `sleep`, in order.
pub data Event : Type 0 where
  sent : String → Result → Event
  attempt_filed : String → Option Result → ℕ → Event
  cancelled_chunk : String → String → Event
  deadline_chunk : String → Event
  slept : ℕ → Event
  observed started retried : String → Event
  completed : String → Status → Event
  expired_completed : String → Event

-- NON_RETRYABLE_DECISIONS
abbrev pub non_retryable : String → Bool
non_retryable decision =
    (decision == "block")
    || (decision == "blocked")
    || (decision == "confirm_required")
    || (decision == "cancelled")

-- `_should_retry`, with the answer of `is_cancelled`
unfoldable pub should_retry : Bool → Option Result → Bool
should_retry is_cancelled none = false
should_retry is_cancelled (some r) =
    if r.ok
    then false
    else if is_cancelled
    then false
    else if non_retryable r.decision
    then false
    else if r.cancelled
    then false
    else true

-- `_report`
unfoldable pub report : String → Option Result → List Event
report task_id none = []
report task_id (some r) = if r.final_chunk then [] else sent task_id r ∷ []
