-- ===== src/Examples/Dispatch.antt =====
-- A command of agent/executor_v2.py that is to be streamed, cancelled before it runs or refused by its gate.
use iddo_harness.Prelude.{String, ◌==◌, ◌≡◌, true, false, ◌&&◌, not, is_some, [], ◌∷◌}
use iddo_harness.Prelude.Dict.{lookup}
use iddo_harness.Prelude.Result.{Result, ok}
use iddo_harness.Json.{end, field, text}
use iddo_harness.Confirm.{Task}
use iddo_harness.Executor.{Report, World, ran, done, refused}
use iddo_harness.Fabric.Dispatch.{Gate, Table, process, gate_of, stop, run, cancel_requested}
use iddo_harness.Fabric.Dispatch.Stopping.{stop-run}
use iddo_harness.Examples.Queue.{python}
use iddo_harness.Examples.Policy.{host, config}
use iddo_harness.Examples.Approvals.{world}

abbrev build : Task
build = record { id = "a"; kind = "shell_stream"; payload = field "command" (text "make") end }

abbrev table : Table
table = record { running = ("a", process 7 false) ∷ []; cancelled = []; signals = [] }

abbrev same : String → String
same s = s

abbrev gate : Task → Gate
gate task = gate_of python same same "/bin/sh" task

abbrev streamed : Task → String → World → Result String Report × World
streamed task decision w = (ok (refused task.id decision "timed out"), done task.id (ran "make") w)

stop-run_example :
    let (found, flagged) = stop "a" table in
    let (report, after, v) =
      run python same same "/bin/sh" streamed host config true 60 build flagged world in
    (found ≡ is_some (lookup "a" table.running))
    × (report.decision ≡ "cancelled")
    × (v ≡ world)
    × (cancel_requested "b" after ≡ (cancel_requested "b" table && not ("a" == "b")))
stop-run_example =
    stop-run python same same "/bin/sh" streamed host config true 60 build table world "b"
