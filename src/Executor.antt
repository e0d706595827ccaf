-- ===== src/Executor.antt =====
-- agent/executor.py, `Executor`: which tasks run, which wait for a confirmation, which are refused;
-- and the loop of agent/main.py over the answered requests. A text of a payload that is not a text
-- there is outside the model, and so is the metadata of a result. What the machine does with a command
-- or a file is a Machine, with the vault and the sandbox of the agent; what the other two executors do
-- is an argument.
pub mod Gates
pub mod Parking
pub mod Resuming
use Prim.Native.String.{◌++◌ as append}
use iddo_harness.Prelude.{
  ℕ, zero, suc, ◌-◌, String, ◌==◌, Bool, true, false, ◌||◌, Option, none, some, List, [], ◌∷◌, ◌++◌,
  eqb, if◌then◌else◌,
}
use iddo_harness.Prelude.Ids.{contains}
use iddo_harness.Prelude.Result.{Result, ok, err}
use iddo_harness.Prelude.Text.{char_count, drop_chars, take_chars}
use iddo_harness.Json.{Value, text, array, Fields, get, or_null, to_list, ℤ, pos}
use iddo_harness.Policy.{Config, Host, Decision, auto, confirm, block, decide, decision_value}
use iddo_harness.Confirm.{Task, Queue, create, scan_pending}
use iddo_harness.Approval.{Manager, sweep_timeouts}

pub record Report : Type 0 where
  pub task_id : String
  pub ok : Bool
  pub decision : String
  pub stdout : String
  pub stderr : String
  pub exit_code : Option ℤ
  pub error : String

-- What was done to the machine.
pub data Effect : Type 0 where
  ran : String → Effect
  wrote : String → String → Effect
  read listed : String → Effect

pub data Shelled : Type 0 where
  finished : ℤ → String → String → Shelled
  timed_out : Shelled
  broke : String → Shelled

-- `resolve_with` and `redact` are those of agent/secrets_vault.py; `wrap` puts a command into the
-- sandbox that agent/sandbox.py finds for the task. An error is the text of the exception.
pub record Machine : Type 0 where
  pub resolve_with : String → Result String (String × List String)
  pub redact : String → List String → String
  pub wrap : Task → String → String
  pub run_command : Task → String → Shelled
  pub expanduser : String → String
  pub read_text : String → Result String String
  pub write_text : String → String → Result String (Unit {0})
  pub list_names : String → Result String (List String)

-- An entry that `policy.audit` is called with.
pub record Audited : Type 0 where
  pub task_id : String
  pub command : String
  pub decision : Decision
  pub reason : String

pub record World : Type 0 where
  pub queue : Queue
  pub audited : List Audited
  pub effects : List Effect

abbrev pub text_or_empty : Option Value → String
text_or_empty (some (text s)) = s
text_or_empty v = ""

abbrev texts : List Value → List String
texts [] = []
texts (text s ∷ vs) = s ∷ texts vs
texts (v ∷ vs) = texts vs

abbrev pub paths_of : Option Value → List String
paths_of (some (array vs)) = texts (to_list vs)
paths_of v = []

abbrev pub refused : String → String → String → Report
refused id decision error = record {
  task_id = id;
  ok = false;
  decision = decision;
  stdout = "";
  stderr = "";
  exit_code = none;
  error = error;
}

abbrev pub done : String → Effect → World → World
done id e w = record w { effects = w.effects ++ e ∷ [] }

-- s[-n:]
abbrev pub tail_chars : ℕ → String → String
tail_chars n s = drop_chars (char_count s - n) s

-- "\n".join(lines)
joined : List String → String
joined [] = ""
joined (line ∷ []) = line
joined (line ∷ (next ∷ lines)) = append line (append "\n" (joined (next ∷ lines)))

abbrev pub v2_kinds : List String
v2_kinds =
    "shell_stream" ∷ "shell_session_open" ∷ "shell_session_write" ∷ "shell_session_close" ∷ "grep"
    ∷ "glob" ∷ "patch_file" ∷ "watch_start" ∷ "watch_poll" ∷ "watch_stop" ∷ "process_list"
    ∷ "process_kill" ∷ "http_local" ∷ "read_file_chunked" ∷ []

abbrev pub v3_kinds : List String
v3_kinds =
    "spawn_task" ∷ "await_tasks" ∷ "workflow" ∷ "memory_set" ∷ "memory_get" ∷ "memory_list"
    ∷ "memory_delete" ∷ "schedule_task" ∷ "schedule_list" ∷ "schedule_cancel" ∷ "llm_task"
    ∷ "handshake" ∷ "run_template" ∷ "template_list" ∷ []

-- The executors of the later kinds.
pub record Others : Type 0 where
  pub run_v2 : Task → World → Report × World
  pub run_v3 : Task → World → Report × World
  pub resume_v2 : Task → Bool → World → Report × World
  pub resume_v3 : Task → Bool → World → Report × World

abbrev unknown_kind : Task → Report
unknown_kind task = refused task.id "unknown_kind" (append "unknown kind: " task.kind)

abbrev is_zero : ℤ → Bool
is_zero (pos n) = eqb n 0
is_zero n = false

abbrev pub path_of : Machine → Task → String
path_of machine task = machine.expanduser (text_or_empty (get "path" task.payload))

module _ (machine : Machine) where
  shell_report : Task → List String → Shelled → Report
  shell_report task secrets (finished code out errors) = record {
    task_id = task.id;
    ok = is_zero code;
    decision = "auto";
    stdout = tail_chars 16000 (machine.redact out secrets);
    stderr = tail_chars 4000 (machine.redact errors secrets);
    exit_code = some code;
    error = "";
  }
  shell_report task secrets timed_out = refused task.id "auto" "timeout"
  shell_report task secrets (broke error) = refused task.id "auto" error

  -- `_exec_shell`
  unfoldable pub exec_shell : Task → World → Report × World
  unfolding shell_report
  exec_shell task w = elim (machine.resolve_with (text_or_empty (get "command" task.payload))) [
    | err error ↦ (refused task.id "auto" error, w)
    | ok (command, secrets) ↦
        let wrapped = machine.wrap task command in
        (shell_report task secrets (machine.run_command task wrapped), done task.id (ran wrapped) w)
  ]

  succeeded : Task → String → String → Report
  succeeded task decision stdout = record {
    task_id = task.id;
    ok = true;
    decision = decision;
    stdout = stdout;
    stderr = "";
    exit_code = none;
    error = "";
  }

  -- `_exec_write_file`
  unfoldable pub exec_write_file : Task → World → Report × World
  unfolding succeeded
  exec_write_file task w =
      let path = path_of machine task in
      let content = text_or_empty (get "content" task.payload) in
      (
        (elim (machine.write_text path content) [
          | ok _ ↦ succeeded task "auto" ""
          | err error ↦ refused task.id "auto" error
        ]),
        done task.id (wrote path content) w,
      )

  -- The part of `_read_file` and of `_list_dir` behind the block test.
  unfoldable pub exec_read_file : Task → Decision → World → Report × World
  unfolding succeeded
  exec_read_file task decision w =
      let path = path_of machine task in
      (
        (elim (machine.read_text path) [
          | ok content ↦ succeeded task (decision_value decision) (take_chars 200000 content)
          | err error ↦ refused task.id (decision_value decision) error
        ]),
        done task.id (read path) w,
      )

  unfoldable pub exec_list_dir : Task → Decision → World → Report × World
  unfolding succeeded joined
  exec_list_dir task decision w =
      let path = path_of machine task in
      (
        (elim (machine.list_names path) [
          | ok names ↦ succeeded task (decision_value decision) (joined names)
          | err error ↦ refused task.id (decision_value decision) error
        ]),
        done task.id (listed path) w,
      )

  module _ (host : Host) (cfg : Config) (mirrored : Bool) (now : ℕ) where
    audit : Task → String → Decision → String → World → World
    audit task command decision reason w = record w {
      audited =
          w.audited
          ++ (record { task_id = task.id; command = command; decision = decision; reason = reason })
            ∷ [];
    }

    park : Task → String → World → Report × World
    park task reason w = (
      refused task.id "confirm_required" reason,
      record w { queue = create mirrored task reason now w.queue },
    )

    -- What a decision makes of a task that a human can be asked about.
    unfoldable pub gated :
        Task → Decision × String → (World → Report × World) → World → Report × World
    unfolding park
    gated task (block, reason) exec w = (refused task.id "block" reason, w)
    gated task (confirm, reason) exec w = park task reason w
    gated task (auto, reason) exec w = exec w

    -- What it makes of one that only reads: only a block stops it.
    unfoldable pub unless_blocked :
        Task → Decision × String → (Decision → World → Report × World) → World → Report × World
    unless_blocked task (block, reason) exec w = (refused task.id "block" reason, w)
    unless_blocked task (decision, reason) exec w = exec decision w

    unfoldable pub run_shell : Task → World → Report × World
    unfolding gated exec_shell audit
    run_shell task w =
        let command = text_or_empty (get "command" task.payload) in
        let decided = decide host cfg command (paths_of (get "paths" task.payload)) in
        gated task decided (exec_shell task) (audit task command decided.0 decided.1 w)

    unfoldable pub write_file : Task → World → Report × World
    unfolding gated exec_write_file audit
    write_file task w =
        let path = path_of machine task in
        let decided = decide host cfg (append "write " path) (path ∷ []) in
        gated task decided (exec_write_file task)
          (audit task (append "write " path) decided.0 decided.1 w)

    unfoldable pub read_file : Task → World → Report × World
    unfolding unless_blocked exec_read_file audit
    read_file task w =
        let path = path_of machine task in
        let decided = decide host cfg (append "cat " path) (path ∷ []) in
        unless_blocked task decided (exec_read_file task)
          (audit task (append "read " path) decided.0 decided.1 w)

    unfoldable pub list_dir : Task → World → Report × World
    unfolding unless_blocked exec_list_dir audit
    list_dir task w =
        let path = path_of machine task in
        let decided = decide host cfg (append "ls " path) (path ∷ []) in
        unless_blocked task decided (exec_list_dir task)
          (audit task (append "list " path) decided.0 decided.1 w)

    module _ (others : Others) where
      unfoldable pub run : Task → World → Report × World
      unfolding run_shell read_file write_file list_dir
      run task w =
          if contains v3_kinds task.kind
          then others.run_v3 task w
          else if contains v2_kinds task.kind
          then others.run_v2 task w
          else if task.kind == "shell"
          then run_shell task w
          else if task.kind == "read_file"
          then read_file task w
          else if task.kind == "write_file"
          then write_file task w
          else if task.kind == "list_dir"
          then list_dir task w
          else (unknown_kind task, w)

      unfoldable pub resume_after_confirm : Task → Bool → World → Report × World
      unfolding exec_shell exec_write_file read_file list_dir
      resume_after_confirm task false w =
          (refused task.id "denied" "confirmation denied by user", w)
      resume_after_confirm task true w =
          if contains v3_kinds task.kind
          then others.resume_v3 task true w
          else if contains v2_kinds task.kind
          then others.resume_v2 task true w
          else if task.kind == "shell"
          then exec_shell task w
          else if task.kind == "write_file"
          then exec_write_file task w
          else if task.kind == "read_file"
          then read_file task w
          else if task.kind == "list_dir"
          then list_dir task w
          else (unknown_kind task, w)

      -- The loop of agent/main.py over what scan_pending returns.
      unfoldable pub resume_all : List (Task × Bool) → World → List Report × World
      unfolding resume_after_confirm
      resume_all [] w = ([], w)
      resume_all ((task, approved) ∷ resolved) w =
          let (report, v) = resume_after_confirm task approved w in
          let (reports, u) = resume_all resolved v in (report ∷ reports, u)

      -- The first step of a turn of the main loop.
      -- `scan_pending` with the manager that agent/main.py passes, and that loop. The queue of the
      -- manager is the one of the world.
      unfoldable pub resume_answered :
          (String → String) → Manager → World → List Report × World × Manager
      unfolding resume_all
      resume_answered mask m w =
          let (swept, _) = sweep_timeouts mask mirrored now (record m { queue = w.queue }) in
          let (queue, resolved) = scan_pending swept.queue in
          let (reports, after) = resume_all resolved (record w { queue = queue }) in
          (reports, after, record swept { queue = after.queue })
