-- ===== src/Runner/Pool.antt =====
-- agent/runner.py, `TaskRunner`: submission, cancellation and the worker pool. Each step is what one
-- thread does between two points where another may act: a call under a lock, or a method that
-- shares nothing in between. `threads` are the worker threads that have not ended; it stands for
-- the operating system's view, and no operation reads it.
pub mod Slots
pub mod Exclusive
pub mod Cancel
use iddo_harness.Prelude.{
  ℕ, zero, suc, ◌+◌, ◌-◌, String, ◌==◌, Bool, true, false, ◌&&◌, ◌||◌, not, Option, none, some,
  List, [], ◌∷◌, ◌++◌, ltb, if◌then◌else◌, is_some, nonempty, max,
}
use iddo_harness.Prelude.Ids
use iddo_harness.Prelude.Ids.{contains}
use iddo_harness.Prelude.Dict
use iddo_harness.Prelude.Dict.{Dict}
use iddo_harness.Prelude.Text.{strip}
use iddo_harness.Json.{Value, Python, str, truthy, or_null, get}
use iddo_harness.Taskqueue.Schedule.{Task, Defaults}
use iddo_harness.Taskqueue.Queue
use iddo_harness.Taskqueue.Queue.{Entry, Queue, Added}
use iddo_harness.Runner.{
  Result, Status, Event, sent, cancelled_chunk, deadline_chunk, observed, completed,
  expired_completed, report,
}
use iddo_harness.Runner

-- A worker thread, and whether it has already told the queue that its task is over.
pub record Thread : Type 0 where
  pub id : String
  pub settled : Bool

pub record Pool : Type 0 where
  pub queue : Queue
  pub slots : ℕ
  pub workers : List String
  pub in_flight : ℕ
  pub peak : ℕ
  pub cancelled : List String
  pub dequeued : Dict Task
  pub threads : List Thread

unfoldable pub init : ℕ → Pool
unfolding Queue.empty
init max_concurrent = record {
  queue = Queue.empty;
  slots = max 1 max_concurrent;
  workers = [];
  in_flight = 0;
  peak = 0;
  cancelled = [];
  dequeued = [];
  threads = [];
}

-- What `cancel` found.
pub data Found : Type 0 where
  queued running unknown : Found

-- `stop` is the executor's: does it hold a process of the task, which it then signals?
unfoldable pub cancel : (String → Bool) → String → Pool → Found × Pool
cancel stop target p =
    let was_running = contains p.workers target in
    let (removed, rest) = Queue.remove target p.queue in
    let p' : Pool = record p { queue = rest; cancelled = Ids.add target p.cancelled } in
    elim removed [
      | none ↦ (if was_running || stop target then running else unknown, p')
      | some task ↦
          if was_running
          then (running, p')
          else (queued, record p' { dequeued = Dict.put target task p'.dequeued })
    ]

abbrev pub is_unknown : Found → Bool
is_unknown unknown = true
is_unknown _ = false

-- `_report_cancelled_target`; the events name the target and the task that cancelled it.
unfoldable pub report_cancelled_target : String → String → Pool → List Event × Pool
report_cancelled_target cancelled_by target p = (
  cancelled_chunk target cancelled_by ∷ completed target Status.cancelled ∷ [],
  record p { dequeued = Dict.remove target p.dequeued },
)

abbrev outcome_text : Found → String
outcome_text queued = "queued"
outcome_text running = "running"
outcome_text unknown = "unknown"

-- The result of a `cancel` task; `stdout` is shown without the target's name before it.
abbrev pub cancel_result : String → Found → Result
cancel_result task_id found = record {
  task_id = task_id;
  ok = not (is_unknown found);
  decision = "auto";
  stdout = outcome_text found;
  error = if is_unknown found then "no such task" else "";
  cancelled = false;
  final_chunk = false;
}

abbrev no_target : String → Result
no_target task_id = record {
  task_id = task_id;
  ok = false;
  decision = "error";
  stdout = "";
  error = "cancel requires payload.task_id";
  cancelled = false;
  final_chunk = false;
}

-- str(payload.get("task_id") or "").strip()
unfoldable pub target_of : Python → Task → String
target_of py task =
    let raw = or_null (get "task_id" task.payload) in strip (if truthy raw then str py raw else "")

abbrev of_found : Found → Status
of_found unknown = Status.error
of_found _ = Status.ok

-- A target that was still queued gets its own report.
tell_target : Found → String → String → Pool → List Event × Pool
unfolding report_cancelled_target
tell_target queued cancelled_by target p = report_cancelled_target cancelled_by target p
tell_target _ cancelled_by target p = ([], p)

unfoldable pub handle_cancel : Python → (String → Bool) → Task → Pool → List Event × Pool
unfolding report tell_target cancel target_of
handle_cancel py stop task p =
    let target = target_of py task in
    if target == ""
    then (report task.id (some (no_target task.id)), p)
    else let (found, p') = cancel stop target p in
      let (told, p'') = tell_target found task.id target p' in
      (
        told
            ++ (report task.id (some (cancel_result task.id found))
                ++ completed task.id (of_found found) ∷ []),
        p'',
      )

taken : Added → Option Bool
taken (Added.queued e) = some true
taken Added.duplicate = some false
taken Added.raised = none

-- `submit`: what it sent, and whether it took the task; `none` where reading the schedule raises.
unfoldable pub submit :
    Python → Defaults → (String → Bool) → Task → Pool → List Event × Option Bool × Pool
unfolding handle_cancel taken
submit py defaults stop task p =
    if task.kind == "cancel"
    then (let (events, p') = handle_cancel py stop task p in (events, some true, p'))
    else let (added, rest) = Queue.add py defaults task p.queue in
      let p' : Pool = record p { queue = rest } in (observed task.id ∷ [], taken added, p')

abbrev pub deadline_events : List Entry → List Event
deadline_events [] = []
deadline_events (e ∷ es) =
    deadline_chunk e.task.id ∷ expired_completed e.task.id ∷ deadline_events es

unfoldable pub report_expired : ℕ → Pool → List Event × Pool
report_expired now p =
    let (expired, rest) = Queue.drain_expired now p.queue in
    (deadline_events expired, record p { queue = rest })

-- `_spawn`, up to the start of the thread.
unfoldable pub spawn : Task → Pool → Pool
spawn task p = record p {
  workers = Ids.add task.id p.workers;
  in_flight = p.in_flight + 1;
  peak = max p.peak (p.in_flight + 1);
  threads = record { id = task.id; settled = false } ∷ p.threads;
}

-- One round of the loop of `pump`: a slot is taken, and given back if no task may run.
unfoldable pub launch : (String → Bool) → ℕ → ℕ → ℕ → Pool → Bool × Pool
unfolding spawn
launch probe drained now zero p = (false, p)
launch probe drained now (suc left) p =
    let (chosen, rest) = Queue.next_task probe drained now p.queue in
    elim chosen [
      | none ↦ (false, record p { queue = rest })
      | some task ↦ (true, spawn task (record p { queue = rest; slots = left }))
    ]

-- The loop of `pump`; a round that starts a task uses up a slot, so `rounds` of them are enough
-- when it is at least the number of slots. The count is of the tasks started.
unfoldable pub start_more : (String → Bool) → (ℕ → ℕ × ℕ) → ℕ → Pool → ℕ × Pool
unfolding launch
start_more probe clock zero p = (0, p)
start_more probe clock (suc rounds) p =
    let (started, p') = launch probe (clock rounds).0 (clock rounds).1 p.slots p in
    let more = start_more probe clock rounds p' in if started then (suc more.0, more.1) else (0, p')

-- `pump` at an instant: what it sends, how many tasks it starts, and the pool it leaves.
unfoldable pub pump : (String → Bool) → ℕ → (ℕ → ℕ × ℕ) → ℕ → Pool → List Event × ℕ × Pool
pump probe now clock rounds p =
    let (events, p') = report_expired now p in
    let (started, p'') = start_more probe clock rounds p' in (events, started, p'')

-- `mark_completed` at the end of `run_task`; the thread stays inside until `on_finished` is done.
abbrev settle_first : String → List Thread → List Thread
settle_first task_id [] = []
settle_first task_id (t ∷ ts) =
    if (t.id == task_id) && not t.settled
    then record t { settled = true } ∷ ts
    else t ∷ settle_first task_id ts

unfoldable pub settle : String → Bool → Pool → Pool
settle task_id ok p = record p {
  queue = Queue.mark_completed task_id ok p.queue;
  threads = settle_first task_id p.threads;
}

-- The step after that, under the runner's lock: the cancellation is forgotten.
unfoldable pub forget_cancel : String → Pool → Pool
forget_cancel task_id p = record p { cancelled = Ids.discard task_id p.cancelled }

-- The `finally` of `_spawn`'s thread, which gives the slot back right after the lock, here in the same
-- step.
abbrev end_first : String → List Thread → List Thread
end_first task_id [] = []
end_first task_id (t ∷ ts) = if (t.id == task_id) && t.settled then ts else t ∷ end_first task_id ts

unfoldable pub finish : String → Pool → Pool
finish task_id p = record p {
  workers = Ids.discard task_id p.workers;
  in_flight = p.in_flight - 1;
  slots = p.slots + 1;
  threads = end_first task_id p.threads;
}

-- The same where `run_task` raised before it told the queue.
abbrev crash_first : String → List Thread → List Thread
crash_first task_id [] = []
crash_first task_id (t ∷ ts) =
    if (t.id == task_id) && not t.settled then ts else t ∷ crash_first task_id ts

unfoldable pub crash : String → Pool → Pool
crash task_id p = record p {
  workers = Ids.discard task_id p.workers;
  in_flight = p.in_flight - 1;
  slots = p.slots + 1;
  threads = crash_first task_id p.threads;
}
