-- ===== src/Lib.antt =====
-- Verification library for the iddo-harness agent.
--
-- The agent takes task packets from a producer, decides by policy whether each may run, queues and
-- runs them in a bounded pool of worker threads with retries, and reports what happened. The modules
-- model these parts; paths are from the root of the repository.
--
--   Taskqueue   agent/taskqueue.py: parse_schedule and what it calls, QueueEntry, TaskQueue. The
--               state is the record Queue; each method is a function from queue to queue, named as
--               the method. A method holds the queue's lock, so it is one step.
--   Runner      agent/runner.py, and Result of agent/executor.py. Runner.Retry is run_task with the
--               executor and the cancellations of other threads as parameters, one answer for each
--               time that the method asks; Runner.Pool is submit, cancel, handle_cancel, pump,
--               _report_expired and _spawn with the state Pool. The interleavings of the threads are
--               the sequences of steps of Runner.Pool.Slots.Step, which start from init.
--   Audit       agent/audit.py: record, _maybe_rotate, _last_hmac, tail, verify_chain.
--   Subtasks    agent/subtasks.py: SubtaskManager. Records are shared objects, so they live in a
--               store and the dictionary and the jobs name their places.
--   Memory      agent/memory.py: MemoryStore, with the SQLite table as the list of its rows.
--   Policy      agent/policy.py: PolicyEngine.decide, _path_matches, and what audit appends.
--   Scheduler   agent/scheduler.py: Scheduler.Cron is the built-in cron parser and next_cron_time, which
--               asks croniter where that is installed; Scheduler is the registry: add, remove, set_enabled,
--               due, mark_fired, run_due; Scheduler.Parsing is parse_schedule.
--   Workflow    agent/workflow.py: Workflow.Parsing is parse_workflow, Workflow.Order is
--               topological_order, Workflow the passes of WorkflowRunner.run with _ready_nodes and
--               _skip_reason, Workflow.Run its loop and the counts of its summary. What finishes when
--               is an argument, a Turn for each pass.
--   Confirm     agent/confirm.py: ConfirmManager, with a directory as what its files say, and
--               scan_pending of agent/poller.py.
--   Approval    agent/approval.py: ApprovalManager on top of that, with wait_for_response. A Tick is
--               what happens around a poll.
--   Executor    agent/executor.py: run, resume_after_confirm and the handlers of the first kinds; and
--               the loop of agent/main.py over the answered requests. What the machine does is a
--               Machine, what the executors of the later kinds do is an argument.
--   Metrics     agent/metrics.py: percentile, and Metrics with its snapshot.
--   Llm         agent/llm_router.py: parse_llm_backends, check_all_once and route of LlmRouter;
--               agent/llm_loop.py: LlmDrivenLoop.run. The model is an argument.
--   Fabric      agent/executor_v2.py: record and drain of FileWatch, _next_seq and _emit,
--               _exec_read_chunked; Fabric.Dispatch is the cancel table, run and
--               the gates of the kinds.
--   Handshake   agent/handshake.py: negotiate, with _protocol_key.
--   Json        the JSON values of a packet, and Python's conversions of them.
--   Prelude     lists, dictionaries, sets of ids, sorting, and Python's methods on text.
--   Examples    runs at concrete inputs.
--
-- The queue calls Json for the payload of a task; the pool calls the queue; a finished run_task tells
-- the queue by mark_completed; the policy engine writes to the audit log. The executor asks the policy
-- engine, and parks in the queue of Confirm what it wants to be confirmed.
--
-- Instants and delays are natural numbers of one small unit, counted from a common start. Numbers
-- in a payload are integers. `str.lower` maps ASCII letters only. The loops of the source are
-- structural recursion, with these exceptions: the loop of run_task runs on the attempts that are
-- left, which max_attempts bounds; the loop of pump runs on rounds, each of which takes a slot, so
-- that as many rounds as there are slots are enough; next_cron_time runs on the 2108161 minutes of
-- its search limit; the loop of a workflow runs on its nodes and one more, since each pass that
-- goes on finishes a node; topological_order runs likewise, since each round takes a node out;
-- wait_for_response runs on the units of its timeout and one more, since a poll takes a unit at
-- least.
--
-- Parameters stand for what the source takes from elsewhere: `probe` for dependency_check and the
-- files that ResultIndex reads, Python for str, int, float and datetime.fromisoformat, `mac` for
-- HMAC-SHA256, `canonical` and Codec for json, Host for fnmatch and os.path, `findall` for the
-- compiled pattern of references, Machine for processes, files, the vault and the sandbox, and `mask`
-- for mask_text of agent/secrets_vault.py. The clock is an argument.
--
-- Not modelled: log lines, sockets, HTTP and the processes themselves; the sessions, the searches and
-- the streams of agent/executor_v2.py; agent/executor_v3.py, which hands its tasks to parts that are
-- modelled; the vault and the signing of packets, which call a cryptographic library; the clients of
-- model APIs; configuration, command line, installer and tests.
pub mod Prelude
pub mod Json
pub mod Taskqueue
pub mod Runner
pub mod Audit
pub mod Subtasks
pub mod Memory
pub mod Policy
pub mod Scheduler
pub mod Workflow
pub mod Confirm
pub mod Approval
pub mod Executor
pub mod Metrics
pub mod Llm
pub mod Fabric
pub mod Handshake
pub mod Examples
