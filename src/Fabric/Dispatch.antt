-- ===== src/Fabric/Dispatch.antt =====
-- agent/executor_v2.py, `ExecutorV2`: the table of running tasks and of cancellations, and the gates of
-- the kinds. What a handler does behind its gate is an argument, `err` for an exception, and so is the
-- default shell. A handle is what stop() has to take down; whether a process dies of a terminate is
-- part of it.
pub mod Stopping
use Prim.Native.String.{◌++◌ as append}
use iddo_harness.Prelude.{
  ℕ, String, ◌==◌, eqb, Bool, true, false, ◌&&◌, not, Option, none, some, List, [], ◌∷◌, ◌++◌,
  filter, if◌then◌else◌, nonempty,
}
use iddo_harness.Prelude.Dict.{Dict, lookup, put, remove}
use iddo_harness.Prelude.Ids.{contains, add, discard}
use iddo_harness.Prelude.Result.{Result, ok, err}
use iddo_harness.Prelude.Text.{strip}
use iddo_harness.Json.{Value, null, text, Fields, get, or_null, truthy, Python, str}
use iddo_harness.Policy.{Config, Host, Decision, auto, confirm, block, decide, decision_value}
use iddo_harness.Confirm.{Task, create}
use iddo_harness.Executor.{Report, World, v2_kinds, text_or_empty, paths_of, refused}

pub data Handle : Type 0 where
  session watch : ℕ → Handle
  process : ℕ → (obeys : Bool) → Handle

-- What stop() did to a handle.
pub data Signal : Type 0 where
  closed stopped terminated killed : ℕ → Signal

pub record Table : Type 0 where
  pub running : Dict Handle
  pub cancelled : List String
  pub signals : List Signal

unfoldable pub register_running : String → Handle → Table → Table
register_running id handle t = record t { running = put id handle t.running }

unfoldable pub unregister_running : String → Table → Table
unregister_running id t = record t { running = remove id t.running }

abbrev same_handle : Handle → Handle → Bool
same_handle (session a) (session b) = eqb a b
same_handle (watch a) (watch b) = eqb a b
same_handle (process a x) (process b y) = eqb a b
same_handle a b = false

unfoldable pub forget_handle : Handle → Table → Table
forget_handle handle t = record t {
  running = filter (λ (e : String × Handle). not (same_handle e.1 handle)) t.running;
}

unfoldable pub cancel_requested : String → Table → Bool
cancel_requested id t = contains t.cancelled id

unfoldable pub clear_cancel : String → Table → Table
clear_cancel id t = record t { cancelled = discard id t.cancelled }

abbrev pub signals_for : Handle → List Signal
signals_for (session n) = closed n ∷ []
signals_for (watch n) = stopped n ∷ []
signals_for (process n true) = terminated n ∷ []
signals_for (process n false) = terminated n ∷ killed n ∷ []

unfoldable pub stop : String → Table → Bool × Table
stop id t =
    let flagged = record t { cancelled = add id t.cancelled } in
    elim (lookup id t.running) [
      | none ↦ (false, flagged)
      | some handle ↦ (true, record flagged { signals = t.signals ++ signals_for handle })
    ]

-- How a kind is gated: by all decisions, by blocks only, or not at all.
pub data Gate : Type 0 where
  full : String → List String → Gate
  block_only : (line label : String) → List String → Gate
  open_gate : Gate

-- `expanduser` is str(Path(p).expanduser()).
module _ (py : Python) (expanduser upper : String → String) (default_shell : String) where
  abbrev path_at : String → Task → String
  path_at d task = expanduser (elim (get "path" task.payload) [ none ↦ d | some v ↦ str py v ])

  abbrev on_path : String → String → Gate
  on_path verb path = full (append verb path) (path ∷ [])

  session_command : Task → String
  session_command task =
      let command = text_or_empty (get "command" task.payload) in
      if nonempty command then command else default_shell

  http_command : Task → String
  http_command task =
      let method = text_or_empty (get "method" task.payload) in
      append "http_local " (
        append (upper (if nonempty method then method else "GET"))
          (append " " (text_or_empty (get "url" task.payload))))

  pub session_gate : Task → List String → Gate
  session_gate task paths =
      let line = strip (text_or_empty (get "input" task.payload)) in
      block_only line (append "session_write " (py.repr (text line))) paths

  -- What the entry of `_gated_handlers` asks the policy about.
  unfoldable pub gate_of : Task → Gate
  unfolding session_command http_command session_gate
  gate_of task =
      let kind = task.kind in
      let paths = paths_of (get "paths" task.payload) in
      if kind == "shell_stream"
      then full (text_or_empty (get "command" task.payload)) paths
      else if kind == "shell_session_open"
      then full (session_command task) paths
      else if kind == "shell_session_write"
      then session_gate task paths
      else if kind == "grep"
      then on_path "grep " (path_at "." task)
      else if kind == "glob"
      then on_path "glob " (path_at "." task)
      else if kind == "patch_file"
      then on_path "patch " (path_at "" task)
      else if kind == "watch_start"
      then on_path "watch_start " (path_at "." task)
      else if kind == "process_list"
      then full "process_list" []
      else if kind == "process_kill"
      then full (append "process_kill " (str py (or_null (get "pid" task.payload)))) []
      else if kind == "http_local"
      then full (http_command task) []
      else if kind == "read_file_chunked"
      then on_path "read_chunk " (path_at "" task)
      else open_gate

module _ (py : Python) (expanduser upper : String → String) (default_shell : String)
    (exec : Task → String → World → Result String Report × World) (host : Host) (cfg : Config)
    (mirrored : Bool) (now : ℕ) where
  audit : Task → String → Decision × String → World → World
  audit task command (decision, reason) w = record w {
    audited =
        w.audited
        ++ (record { task_id = task.id; command = command; decision = decision; reason = reason })
          ∷ [];
  }

  -- `_gate`, and what its caller does.
  unfoldable pub gated : Task → Decision × String → World → Result String Report × World
  gated task (block, reason) w = (ok (refused task.id "block" reason), w)
  gated task (confirm, reason) w = (
    ok (refused task.id "confirm_required" reason),
    record w { queue = create mirrored task reason now w.queue },
  )
  gated task (auto, reason) w = exec task "auto" w

  unfoldable pub unless_blocked : Task → Decision × String → World → Result String Report × World
  unless_blocked task (block, reason) w = (ok (refused task.id "block" reason), w)
  unless_blocked task (decision, reason) w = exec task "auto" w

  unfoldable pub handle : Task → Gate → World → Result String Report × World
  unfolding gated unless_blocked audit
  handle task (full command paths) w =
      let decided = decide host cfg command paths in
      gated task decided (audit task command decided w)
  handle task (block_only line label paths) w =
      let decided = decide host cfg line paths in
      unless_blocked task decided (audit task label decided w)
  handle task open_gate w = exec task "auto" w

  unfoldable pub caught : Task → String → Result String Report → Report
  caught task decision (ok report) = report
  caught task decision (err error) = refused task.id decision error

  unfoldable pub run : Task → Table → World → Report × Table × World
  unfolding cancel_requested clear_cancel handle caught
  run task t w =
      if cancel_requested task.id t
      then (refused task.id "cancelled" "cancelled before execution", clear_cancel task.id t, w)
      else if contains v2_kinds task.kind
      then (let (result, v) = handle task (gate_of py expanduser upper default_shell task) w in
          (caught task "error" result, t, v))
      else (refused task.id "unknown_kind" (append "unknown kind: " task.kind), t, w)

  unfoldable pub resume_after_confirm : Task → Bool → World → Report × World
  unfolding caught
  resume_after_confirm task false w = (refused task.id "denied" "confirmation denied by user", w)
  resume_after_confirm task true w =
      if contains v2_kinds task.kind
      then (let (result, v) = exec task "approved" w in (caught task "approved" result, v))
      else (refused task.id "unknown_kind" (append "unknown kind: " task.kind), w)
