-- ===== src/Fabric/Dispatch/Stopping.antt =====
-- Cancelling a task before it runs, and what the gates let through.
use iddo_harness.Prelude.{
  ℕ, ◌≡◌, refl, String, ◌==◌, eq_refl, Bool, true, false, ◌&&◌, not, arith, is_some, Option-cases,
  List, [], ◌∷◌, any, inl, inr,
}
use iddo_harness.Prelude.Dict.{lookup}
use iddo_harness.Prelude.Ids.{contains, add, contains-add, contains-discard}
use iddo_harness.Prelude.Result.{Result, ok, err}
use iddo_harness.Json.{Python}
use iddo_harness.Policy.{Config, Host, auto, block, decide}
use iddo_harness.Confirm.{Task}
use iddo_harness.Executor.{Report, World}
use iddo_harness.Fabric.Dispatch.{
  Table, stop, cancel_requested, clear_cancel, Gate, full, block_only, open_gate, run, gate_of,
}

-- The kinds that a decision of the policy stands before.
abbrev pub policed : List String
policed =
    "shell_stream" ∷ "shell_session_open" ∷ "shell_session_write" ∷ "grep" ∷ "glob" ∷ "patch_file"
    ∷ "watch_start" ∷ "process_list" ∷ "process_kill" ∷ "http_local" ∷ "read_file_chunked" ∷ []

abbrev pub is_policed : String → Bool
is_policed kind = any (λ k. kind == k) policed

abbrev pub is_open : Gate → Bool
is_open open_gate = true
is_open gate = false

module _ (py : Python) (expanduser upper : String → String) (default_shell : String)
    (exec : Task → String → World → Result String Report × World) (host : Host) (cfg : Config)
    (mirrored : Bool) (now : ℕ) where
  -- When stop() is called for a task that is not running yet, the next run of that task does nothing but
  -- report that it was cancelled, and takes the flag back; the flags of other tasks stay. stop() returns
  -- whether the task had a handle.
  pub stop-run :
      (task : Task) (t : Table) (w : World) (other : String)
      → let (found, flagged) = stop task.id t in
        let (report, after, v) =
          run py expanduser upper default_shell exec host cfg mirrored now task flagged w in
        (found ≡ is_some (lookup task.id t.running))
        × (report.decision ≡ "cancelled")
        × (v ≡ w)
        × (cancel_requested other after ≡ (cancel_requested other t && not (task.id == other)))
  unfolding stop run cancel_requested clear_cancel
  stop-run task t w other =
      let flag = contains-add task.id task.id t.cancelled in
      let flagged : contains (add task.id t.cancelled) task.id ≡ true =
        ground (arith, flag, eq_refl task.id) in
      let left = contains-discard task.id other (add task.id t.cancelled) in
      let others = contains-add task.id other t.cancelled in
      elim (Option-cases (lookup task.id t.running)) [
        | inl e ↦
            rw (stop, e, run, cancel_requested, flagged)
              (refl, refl, refl, ground (arith, left, others))
        | inr (h, e) ↦
            rw (stop, e, run, cancel_requested, flagged)
              (refl, refl, refl, ground (arith, left, others))
      ]

  -- What the policy has to decide for a handler to be called.
  abbrev pub lets_through : Gate → Bool
  lets_through (full command paths) = elim (decide host cfg command paths).0 [
    | auto ↦ true
    | _ ↦ false
  ]
  lets_through (block_only line label paths) = elim (decide host cfg line paths).0 [
    | block ↦ false
    | _ ↦ true
  ]
  lets_through open_gate = true

  abbrev Untouched : World → Result String Report × World → Type 0
  Untouched w (ok report, v) = (v.effects ≡ w.effects) × (report.ok ≡ false)
  Untouched w (err error, v) = v.effects ≡ w.effects

  abbrev pub gate_for : Task → Gate
  gate_for task = gate_of py expanduser upper default_shell task
