-- ===== src/Examples/Approvals.antt =====
-- Requests of agent/confirm.py and agent/approval.py: one that is late, one that is fresh, and one
-- whose id was approved once before.
use iddo_harness.Prelude.{
  ℕ, ◌+◌, String, ◌≡◌, ◌≢◌, refl, true, false, ◌||◌, none, some, [], ◌∷◌, arith,
}
use iddo_harness.Prelude.Dict.{lookup, put, remove}
use iddo_harness.Prelude.Ids.{contains, add}
use iddo_harness.Prelude.Sorting.{sorted, insert}
use iddo_harness.Prelude.Result.{ok}
use iddo_harness.Prelude.Text.{strip, lower, is_space}
use iddo_harness.Json.{end, field, text, get, pos}
use iddo_harness.Policy.{
  decide, block_step, confirm_step, write_step, auto_step, read_step, word, slashes,
  without_slashes, confirm, verb_of, first_hit, path_matches,
}
use iddo_harness.Confirm.{
  Pending, Queue, Task, request, create, answer, respond, has_response, response_in, check_response,
  pending_ids, is_late, overdue, sweep_each, sweep, sweep_timeouts, unlink, scan_each, scan_pending,
  read_pending,
}
use iddo_harness.Approval as Approval
use iddo_harness.Approval.{Manager, Tick, sleep_for, wait_for_response, respond as answer_request}
use iddo_harness.Approval.Waiting.{sweep_timeouts-denies, Ends, Steady, wait_for_response-Ends}
use iddo_harness.Executor.{Machine, World, Others, finished, run, resume_answered, refused}
use iddo_harness.Executor.Gates.{run-refuses, is_later, decision_on}
use iddo_harness.Executor.Parking.{run-parks}
use iddo_harness.Executor.Resuming.{swept, resume_answered-denied}
use iddo_harness.Examples.Policy.{host, config}

abbrev pub list_home : Task
list_home = record { id = "a"; kind = "shell"; payload = field "command" (text "make") end }

abbrev asked : ℕ → Pending
asked now = record {
  task_id = "a";
  command = text "make";
  reason = "why";
  created_ts = now;
  kind = "shell";
  payload = field "command" (text "make") end;
}

abbrev fresh : Queue
fresh = record {
  local_dir = record { pending = ("a", some (asked 50)) ∷ []; approved = []; denied = [] };
  bridge_dir = none;
}

-- A human approves a request that has been denied for its age: from then on it counts as approved.
late_approval_revives :
    check_response (respond true "a" true (sweep_timeouts true 30 5000 fresh).0) "a" ≡ some true
unfolding check_response response_in respond answer sweep_timeouts sweep sweep_each overdue is_late
    has_response pending_ids sorted insert contains add lookup
late_approval_revives = refl

-- A task that was approved, resumed, and is asked for again is approved without a new answer.
old_approval_stands :
    (scan_pending (create true list_home "why" 50 (respond true "a" true fresh))).1
    ≡ (list_home, true) ∷ []
unfolding scan_pending scan_each check_response response_in respond answer sweep_timeouts sweep
    sweep_each overdue is_late has_response pending_ids sorted insert contains add lookup put remove
    create request unlink
old_approval_stands = refl

abbrev manager : Manager
manager = record {
  queue = fresh;
  mode = "local";
  timeout_seconds = 3;
  has_audit_log = true;
  trail = [];
}

abbrev mask : String → String
mask s = s

sweep_timeouts-denies_example :
    let (after, denied) = Approval.sweep_timeouts mask true 60 manager in
    (has_response after.queue.local_dir "a"
      ≡ (has_response fresh.local_dir "a" || overdue 60 3 fresh.local_dir "a"))
    × (contains denied "a" ≡ overdue 60 3 fresh.local_dir "a")
sweep_timeouts-denies_example = sweep_timeouts-denies mask true 60 manager "a"

-- The clock goes on by one unit with each poll, and nobody answers.
abbrev ticks : ℕ → Tick
ticks n = record { others = λ q. q; asked_at = 50 + n; slept_from = 50 + n }

ticks-Steady : Steady mask ticks 1 53
unfolding sleep_for
ticks-Steady n = ground arith

wait_for_response-Ends_example :
    Ends mask ticks true "a" 53 manager (wait_for_response mask ticks true "a" none 50 manager)
wait_for_response-Ends_example =
    wait_for_response-Ends mask ticks true "a" none 50 1 manager (omega arith) ticks-Steady
      (omega arith)

abbrev pub machine : Machine
machine = record {
  resolve_with = λ s. ok (s, []);
  redact = λ s values. s;
  wrap = λ task s. s;
  run_command = λ task s. finished (pos 0) "done" "";
  expanduser = λ s. s;
  read_text = λ path. ok "text";
  write_text = λ path content. ok tt;
  list_names = λ path. ok ("a" ∷ []);
}

abbrev pub world : World
world = record { queue = fresh; audited = []; effects = [] }

abbrev pub others : Others
others = record {
  run_v2 = λ task w. (refused task.id "block" "", w);
  run_v3 = λ task w. (refused task.id "block" "", w);
  resume_v2 = λ task b w. (refused task.id "block" "", w);
  resume_v3 = λ task b w. (refused task.id "block" "", w);
}

not_later : is_later list_home ≡ false
unfolding contains
not_later = refl

to_confirm : decision_on machine host config list_home ≡ confirm
unfolding decide block_step confirm_step write_step auto_step read_step word slashes without_slashes
    get first_hit verb_of strip is_space lower contains path_matches
to_confirm = refl

run-parks_example :
    let (report, after) = run machine host config true 60 others list_home world in
    (after.effects ≡ [])
    × (report.decision ≡ "confirm_required")
    × ((reason : String) × (read_pending after.queue.local_dir "a"
          ≡ some (request list_home reason 60)))
run-parks_example =
    run-parks machine host config true 60 others list_home world not_later refl to_confirm

run-refuses_example :
    ((run machine host config true 60 others list_home world).1.effects ≡ [])
    × ((run machine host config true 60 others list_home world).0.ok ≡ false)
run-refuses_example =
    run-refuses machine host config true 60 others list_home world not_later (rw to_confirm refl)

none_approved :
    (id : String) (p : Pending)
    → read_pending (swept machine host config true 5000 others (λ s. s) manager world).local_dir id
      ≡ some p
    → check_response (swept machine host config true 5000 others (λ s. s) manager world) id
      ≢ some true
unfolding check_response response_in Approval.sweep_timeouts sweep sweep_each overdue is_late
    has_response pending_ids sorted insert contains add lookup respond answer
none_approved id p there h = ground arith

resume_answered-denied_example :
    (resume_answered machine host config true 5000 others (λ s. s) manager world).1.effects ≡ []
resume_answered-denied_example =
    resume_answered-denied machine host config true 5000 others (λ s. s) manager world none_approved
