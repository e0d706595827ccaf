-- ===== src/Executor/Gates.antt =====
-- What a decision of the policy lets the executor do.
use Prim.Native.String.{◌++◌ as append}
use iddo_harness.Prelude.{
  ℕ, String, ◌==◌, eq_iff, ◌≡◌, refl, Bool, true, false, ◌||◌, [], ◌∷◌, arith, if◌then◌else◌,
  Bool-cases, inl, inr,
}
use iddo_harness.Prelude.Ids.{contains}
use iddo_harness.Json.{get}
use iddo_harness.Policy.{Config, Host, Decision, auto, confirm, block, decide}
use iddo_harness.Confirm.{Task}
use iddo_harness.Executor.{
  Report, Machine, World, Others, text_or_empty, paths_of, path_of, v2_kinds, v3_kinds, gated,
  unless_blocked, run_shell, write_file, read_file, list_dir, run, exec_shell, exec_write_file,
  exec_read_file, exec_list_dir,
}

-- A task of a kind that one of the other executors takes.
abbrev pub is_later : Task → Bool
is_later task = contains v3_kinds task.kind || contains v2_kinds task.kind

abbrev pub is_read : Task → Bool
is_read task = (task.kind == "read_file") || (task.kind == "list_dir")

-- What each decision permits: everything, nothing, or reading.
abbrev pub may_act : Task → Decision → Bool
may_act task auto = true
may_act task confirm = is_read task
may_act task block = false

abbrev Refused : World → Report × World → Type 0
Refused w result = (result.1.effects ≡ w.effects) × (result.0.ok ≡ false)

abbrev acts : Decision → Bool
acts auto = true
acts d = false

abbrev reads : Decision → Bool
reads block = false
reads d = true

may_act-acts :
    (task : Task) (d : Decision) → is_read task ≡ false → may_act task d ≡ false → acts d ≡ false
may_act-acts task auto k h = h
may_act-acts task confirm k h = refl
may_act-acts task block k h = refl

may_act-reads :
    (task : Task) (d : Decision) → is_read task ≡ true → may_act task d ≡ false → reads d ≡ false
may_act-reads task auto k h = h
may_act-reads task confirm k h = ground arith
may_act-reads task block k h = refl

-- `==` on texts that are the same.
pub same_text : (s t : String) → s == t ≡ true → s ≡ t
same_text s t h = ground (arith, eq_iff s t)

module _ (machine : Machine) (host : Host) (cfg : Config) where
  -- What the policy decides on a task of the first version.
  abbrev pub decision_on : Task → Decision
  decision_on task =
      let path = path_of machine task in
      if task.kind == "shell"
      then (decide host cfg (text_or_empty (get "command" task.payload))
          (paths_of (get "paths" task.payload))).0
      else if task.kind == "read_file"
      then (decide host cfg (append "cat " path) (path ∷ [])).0
      else if task.kind == "write_file"
      then (decide host cfg (append "write " path) (path ∷ [])).0
      else (decide host cfg (append "ls " path) (path ∷ [])).0

  module _ (mirrored : Bool) (now : ℕ) (others : Others) where
    gated-Refused :
        (task : Task) (d : Decision × String) (exec : World → Report × World) (w : World)
        → acts d.0 ≡ false
        → Refused w (gated machine host cfg mirrored now task d exec w)
    unfolding gated
    gated-Refused task (auto, reason) exec w h = cc
    gated-Refused task (confirm, reason) exec w h = (refl, refl)
    gated-Refused task (block, reason) exec w h = (refl, refl)

    unless_blocked-Refused :
        (task : Task) (d : Decision × String) (exec : Decision → World → Report × World) (w : World)
        → reads d.0 ≡ false
        → Refused w (unless_blocked machine host cfg mirrored now task d exec w)
    unfolding unless_blocked
    unless_blocked-Refused task (auto, reason) exec w h = cc
    unless_blocked-Refused task (confirm, reason) exec w h = cc
    unless_blocked-Refused task (block, reason) exec w h = (refl, refl)

    run_shell-Refused :
        (task : Task) (w : World)
        → acts
            (decide host cfg
              (text_or_empty (get "command" task.payload))
              (paths_of (get "paths" task.payload))).0
          ≡ false
        → Refused w (run_shell machine host cfg mirrored now task w)
    unfolding run_shell
    run_shell-Refused task w h = gated-Refused task _ (exec_shell machine task) _ h

    write_file-Refused :
        (task : Task) (w : World)
        → acts
            (decide host cfg (append "write " (path_of machine task)) (path_of machine task ∷ [])).0
          ≡ false
        → Refused w (write_file machine host cfg mirrored now task w)
    unfolding write_file
    write_file-Refused task w h = gated-Refused task _ (exec_write_file machine task) _ h

    read_file-Refused :
        (task : Task) (w : World)
        → reads
            (decide host cfg (append "cat " (path_of machine task)) (path_of machine task ∷ [])).0
          ≡ false
        → Refused w (read_file machine host cfg mirrored now task w)
    unfolding read_file
    read_file-Refused task w h = unless_blocked-Refused task _ (exec_read_file machine task) _ h

    list_dir-Refused :
        (task : Task) (w : World)
        → reads
            (decide host cfg (append "ls " (path_of machine task)) (path_of machine task ∷ [])).0
          ≡ false
        → Refused w (list_dir machine host cfg mirrored now task w)
    unfolding list_dir
    list_dir-Refused task w h = unless_blocked-Refused task _ (exec_list_dir machine task) _ h

    -- Nothing is run, written, read or listed for a task that the policy blocks, nor for a shell
    -- command or a write that it wants to be confirmed; and such a task does not succeed. Other
    -- executors take the later kinds.
    pub run-refuses :
        (task : Task) (w : World)
        → is_later task ≡ false
        → may_act task (decision_on task) ≡ false
        → ((run machine host cfg mirrored now others task w).1.effects ≡ w.effects)
          × ((run machine host cfg mirrored now others task w).0.ok ≡ false)
    unfolding run
    run-refuses task w early refuse =
        let kind = task.kind in
        let is_v3 : contains v3_kinds kind ≡ false = ground arith in
        let is_v2 : contains v2_kinds kind ≡ false = ground arith in
        rw (run, is_v3, is_v2)
          (elim (Bool-cases (kind == "shell")) [
            | inl e ↦
                let k : is_read task ≡ false = rw (same_text kind "shell" e) refl in
                rw e (run_shell-Refused task w (may_act-acts task _ k (rw e at refuse)))
            | inr not_shell ↦ rw not_shell (elim (Bool-cases (kind == "read_file")) [
              | inl e ↦ rw e (
                  read_file-Refused task w
                    (may_act-reads task _ (ground arith) (rw (not_shell, e) at refuse)))
              | inr not_read ↦ rw not_read (elim (Bool-cases (kind == "write_file")) [
                | inl e ↦
                    let k : is_read task ≡ false = rw (same_text kind "write_file" e) refl in
                    rw e (
                      write_file-Refused task w
                        (may_act-acts task _ k (rw (not_shell, not_read, e) at refuse)))
                | inr not_write ↦ rw not_write (elim (Bool-cases (kind == "list_dir")) [
                  | inl e ↦ rw e (
                      list_dir-Refused task w (
                        may_act-reads task _ (ground arith)
                          (rw (not_shell, not_read, not_write) at refuse)))
                  | inr e ↦ rw e (refl, refl)
                ])
              ])
            ])
          ])
