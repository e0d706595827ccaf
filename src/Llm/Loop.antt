-- ===== src/Llm/Loop.antt =====
-- agent/llm_loop.py, `LlmDrivenLoop.run`. What the model answers to a list of messages is an argument,
-- and so is `tool_call_to_task` of agent/llm_tools.py, which raises for a call that it does not know.
-- The executor is any function of a task and of what it works on. The callback and the log are not
-- modelled.
pub mod Dialogue
pub mod Ending
use iddo_harness.Prelude.{
  ℕ, zero, suc, ◌+◌, String, ◌==◌, Bool, true, false, Option, none, some, List, [], ◌∷◌, ◌++◌,
  length, if◌then◌else◌, nonempty,
}
use iddo_harness.Prelude.Result.{Result, ok, err}
use iddo_harness.Confirm.{Task}
use iddo_harness.Executor.{Report, World}

abbrev pub default_max_iterations : ℕ
default_max_iterations = 25

pub record Call : Type 0 where
  pub id : String
  pub name : String
  pub arguments : String

-- What a tool message carries: a report of the executor, or why there was no task.
pub data Answer : Type 0 where
  report_of : Report → Answer
  not_a_task : String → Answer

pub data Message : Type 0 where
  system user : String → Message
  assistant : Option String → List Call → Message
  tool : String → Answer → Message

pub record Reply : Type 0 where
  pub content : Option String
  pub tool_calls : List Call

-- The entries of the audit log of a run, each with its iteration.
pub data Entry : Type 0 where
  llm_response : ℕ → Reply → Entry
  tool_result : ℕ → Report → Entry

-- The variables of `run`.
pub record Session : Type 0 where
  pub messages : List Message
  pub audit_log : List Entry
  pub world : World

pub record Pending : Type 0 where
  pub call : Call
  pub reason : String
  pub task : Task

pub record LoopResult : Type 0 where
  pub done : Bool
  pub paused : Bool
  pub iterations : ℕ
  pub final_message : Option String
  pub pending : Option Pending

abbrev say : Message → Session → Session
say m s = record s { messages = s.messages ++ m ∷ [] }

abbrev log : Entry → Session → Session
log e s = record s { audit_log = s.audit_log ++ e ∷ [] }

abbrev reason_of : Report → String
reason_of report =
    if nonempty report.error then report.error else "policy requires human confirmation"

-- What the loop over the calls of one message ends with.
pub data Turn : Type 0 where
  answered : Session → Turn
  waiting : Pending → Session → Turn

module _ (tool_call_to_task : Call → Result String Task)
    (execute : Task → World → Report × World) where
  -- One call that is a task, once the executor has run it.
  unfoldable pub after_call : ℕ → Call → Task → Report × World → Session → Turn
  after_call iteration call task (report, world) s =
      let seen = log (tool_result iteration report) (record s { world = world }) in
      if report.decision == "confirm_required"
      then waiting (record { call = call; reason = reason_of report; task = task }) seen
      else answered (say (tool call.id (report_of report)) seen)

  unfoldable pub one_call : ℕ → Call → Session → Turn
  unfolding after_call
  one_call iteration call s = elim (tool_call_to_task call) [
    | err error ↦ answered (say (tool call.id (not_a_task error)) s)
    | ok task ↦ after_call iteration call task (execute task s.world) s
  ]

  unfoldable pub all_calls : ℕ → List Call → Session → Turn
  unfolding one_call
  all_calls iteration [] s = answered s
  all_calls iteration (call ∷ calls) s = elim (one_call iteration call s) [
    | waiting pending t ↦ waiting pending t
    | answered t ↦ all_calls iteration calls t
  ]

  module _ (chat_completion : List Message → Reply) where
    -- The message of the model, as one iteration appends it.
    unfoldable pub respond : ℕ → Session → Session
    respond iteration s =
        let reply = chat_completion s.messages in
        log (llm_response iteration reply) (say (assistant reply.content reply.tool_calls) s)

    -- The iterations that are left, from the given one on.
    unfoldable pub iterate : ℕ → ℕ → Session → LoopResult × Session
    unfolding respond all_calls
    iterate zero iteration s = (
      record {
        done = false;
        paused = false;
        iterations = iteration;
        final_message = none;
        pending = none;
      },
      s,
    )
    iterate (suc left) iteration s =
        let n = suc iteration in
        let t = respond n s in
        elim (chat_completion s.messages).tool_calls [
          | [] ↦ (
            record {
              done = true;
              paused = false;
              iterations = n;
              final_message = (chat_completion s.messages).content;
              pending = none;
            },
            t,
          )
          | call ∷ calls ↦ elim (all_calls n (call ∷ calls) t) [
            | waiting pending u ↦ (
              record {
                done = false;
                paused = true;
                iterations = n;
                final_message = none;
                pending = some pending;
              },
              u,
            )
            | answered u ↦ iterate left n u
          ]
        ]

    unfoldable pub run : ℕ → String → List Message → String → World → LoopResult × Session
    unfolding iterate
    run max_iterations system_prompt extra_messages prompt world =
        iterate max_iterations 0 (record {
          messages = system system_prompt ∷ (extra_messages ++ user prompt ∷ []);
          audit_log = [];
          world = world;
        })
