-- ===== src/Executor/Parking.antt =====
-- What the executor does with a task that the policy wants to be confirmed.
use Prim.Native.String.{◌++◌ as append}
use iddo_harness.Prelude.{
  ℕ, String, ◌==◌, eq_refl, ◌≡◌, refl, Bool, true, false, ◌||◌, Option, some, [], ◌∷◌, arith,
  Bool-cases, inl, inr,
}
use iddo_harness.Prelude.Dict.{Dict, lookup, put, lookup-put}
use iddo_harness.Prelude.Ids.{contains}
use iddo_harness.Json.{get}
use iddo_harness.Policy.{Config, Host, Decision, auto, confirm, block, decide}
use iddo_harness.Confirm.{Dir, Task, Pending, create, request, read_pending}
use iddo_harness.Executor.{
  Report, Machine, World, Others, text_or_empty, paths_of, path_of, v2_kinds, v3_kinds, gated,
  run_shell, write_file, run, exec_shell, exec_write_file,
}
use iddo_harness.Executor.Gates.{is_later, decision_on, same_text}

module _ (machine : Machine) (host : Host) (cfg : Config) (mirrored : Bool) (now : ℕ)
    (others : Others) where
  abbrev Parked : Task → World → Report × World → Type 0
  Parked task w (report, after) =
      (after.effects ≡ w.effects)
      × (report.decision ≡ "confirm_required")
      × ((reason : String) × (read_pending after.queue.local_dir task.id
            ≡ some (request task reason now)))

  read_put :
      (d : Dir) (id : String) (file : Option Pending) (m : Dict (Option Pending))
      → d.pending ≡ put id file m
      → read_pending d id ≡ file
  read_put d id file m e =
      let found : lookup id d.pending ≡ some file =
        rw e (rw (lookup-put id id file m, eq_refl id) refl) in
      rw (read_pending, found) refl

  abbrev asked : Task → String → Dir → Dir
  asked task reason d = record d {
    pending = put task.id (some (request task reason now)) d.pending;
  }

  gated-Parked :
      (task : Task) (d : Decision × String) (exec : World → Report × World) (w : World)
      → d.0 ≡ confirm
      → Parked task w (gated machine host cfg mirrored now task d exec w)
  unfolding gated create
  gated-Parked task (auto, reason) exec w h = cc
  gated-Parked task (block, reason) exec w h = cc
  gated-Parked task (confirm, reason) exec w h = (
    refl,
    refl,
    (
      reason,
      read_put (asked task reason w.queue.local_dir) task.id (some (request task reason now))
          w.queue.local_dir.pending refl,
    ),
  )

  run_shell-Parked :
      (task : Task) (w : World)
      → (decide host cfg
          (text_or_empty (get "command" task.payload))
          (paths_of (get "paths" task.payload))).0
        ≡ confirm
      → Parked task w (run_shell machine host cfg mirrored now task w)
  unfolding run_shell
  run_shell-Parked task w h = gated-Parked task _ (exec_shell machine task) _ h

  write_file-Parked :
      (task : Task) (w : World)
      → (decide host cfg (append "write " (path_of machine task)) (path_of machine task ∷ [])).0
        ≡ confirm
      → Parked task w (write_file machine host cfg mirrored now task w)
  unfolding write_file
  write_file-Parked task w h = gated-Parked task _ (exec_write_file machine task) _ h

  -- A shell command or a write that the policy wants to be confirmed is not run: the task waits in the
  -- queue as a request, and its report says so.
  pub run-parks :
      (task : Task) (w : World)
      → is_later task ≡ false
      → ((task.kind == "shell") || (task.kind == "write_file")) ≡ true
      → decision_on machine host cfg task ≡ confirm
      → let (report, after) = run machine host cfg mirrored now others task w in
        (after.effects ≡ w.effects)
        × (report.decision ≡ "confirm_required")
        × ((reason : String) × (read_pending after.queue.local_dir task.id
              ≡ some (request task reason now)))
  unfolding run
  run-parks task w early kinds h =
      let is_v3 : contains v3_kinds task.kind ≡ false = ground arith in
      let is_v2 : contains v2_kinds task.kind ≡ false = ground arith in
      rw (run, is_v3, is_v2)
        (elim (Bool-cases (task.kind == "shell")) [
          | inl e ↦ rw e (run_shell-Parked task w (rw e at h))
          | inr not_shell ↦
              let is_write : task.kind == "write_file" ≡ true = ground arith in
              let not_read : task.kind == "read_file" ≡ false =
                rw (same_text task.kind "write_file" is_write) refl in
              rw (not_shell, not_read, is_write)
                (write_file-Parked task w (rw (not_shell, not_read, is_write) at h))
        ])
