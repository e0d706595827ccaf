-- ===== src/Taskqueue/Queue/Later.antt =====
-- A task that was handed out, over any sequence of later operations on the queue.
use iddo_harness.Prelude.{
  ℕ, String, ◌≡◌, ◌==◌, Bool, true, false, some, List, [], ◌∷◌, All, nonempty,
}
use iddo_harness.Json.{Python}
use iddo_harness.Taskqueue.Schedule.{Task, Defaults}
use iddo_harness.Taskqueue.Queue.{
  Entry, Queue, duplicate, add, remove, mark_completed, drain_expired, next_entry,
}
use iddo_harness.Taskqueue.Queue.Invariant.{IsValid}
use iddo_harness.Taskqueue.Queue.Expiry.{drain_expired-IsValid}
use iddo_harness.Taskqueue.Queue.Keeps.{
  add-IsValid, mark_completed-IsValid, remove-IsValid, next_entry-IsValid,
}
use iddo_harness.Taskqueue.Queue.Held.{
  Holds, add-Holds, mark_completed-Holds, drain_expired-Holds, remove-Holds, next_entry-Holds,
  next_entry_chosen-Holds,
}

-- What may happen to a queue.
pub data Op : Type 0 where
  added : Python → Defaults → Task → Op
  completed_as : String → Bool → Op
  drained_at : ℕ → Op
  removed : String → Op
  taken : (String → Bool) → ℕ → ℕ → Op

abbrev pub apply : Op → Queue → Queue
apply (added py defaults task) q = (add py defaults task q).1
apply (completed_as id ok) q = mark_completed id ok q
apply (drained_at now) q = (drain_expired now q).1
apply (removed id) q = (remove id q).1
apply (taken probe drained now) q = (next_entry probe drained now q).1

abbrev pub apply_all : List Op → Queue → Queue
apply_all [] q = q
apply_all (op ∷ ops) q = apply_all ops (apply op q)

-- An operation marks neither the id as completed nor one that is queued.
abbrev pub Spares : String → Op → Queue → Type 0
Spares x (completed_as id ok) q =
    ((id == x) ≡ false) × All (λ e. nonempty e.task.id ≡ true → (id == e.task.id) ≡ false) q.entries
Spares x op q = Unit {0}

abbrev pub SparesAll : String → List Op → Queue → Type 0
SparesAll x [] q = Unit {0}
SparesAll x (op ∷ ops) q = Spares x op q × SparesAll x ops (apply op q)

apply-IsValid :
    (x : String) (op : Op) (q : Queue) → IsValid q → Spares x op q → IsValid (apply op q)
apply-IsValid x (added py defaults task) q v s = add-IsValid py defaults task q v
apply-IsValid x (completed_as id ok) q v s = mark_completed-IsValid id ok q v s.1
apply-IsValid x (drained_at now) q v s = drain_expired-IsValid now q v
apply-IsValid x (removed id) q v s = remove-IsValid id q v
apply-IsValid x (taken probe drained now) q v s = next_entry-IsValid probe drained now q v

apply-Holds :
    (x : String) (op : Op) (q : Queue)
    → nonempty x ≡ true
    → IsValid q
    → Holds x q
    → Spares x op q
    → Holds x (apply op q)
apply-Holds x (added py defaults task) q named v h s = add-Holds x named q h py defaults task
apply-Holds x (completed_as id ok) q named v h s = mark_completed-Holds x named q h id ok s.0
apply-Holds x (drained_at now) q named v h s = drain_expired-Holds x named q h now v
apply-Holds x (removed id) q named v h s = remove-Holds x named q h id v
apply-Holds x (taken probe drained now) q named v h s =
    next_entry-Holds x named q h probe drained now v

apply_all-Holds :
    (x : String) (ops : List Op) (q : Queue)
    → nonempty x ≡ true
    → IsValid q
    → Holds x q
    → SparesAll x ops q
    → Holds x (apply_all ops q)
apply_all-Holds x [] q named v h s = h
apply_all-Holds x (op ∷ ops) q named v h s =
    apply_all-Holds x ops (apply op q) named (apply-IsValid x op q v s.0)
      (apply-Holds x op q named v h s.0) s.1

-- A task with an id that was handed out by a valid queue stays out of the queue, and adding it again is
-- refused as a duplicate, after any sequence of operations that marks neither its id as completed nor
-- the id of a task that is queued at that time.
pub handed_out_not_requeued :
    (probe : String → Bool) (drained now : ℕ) (q : Queue) {e : Entry} (ops : List Op) (py : Python)
    (defaults : Defaults) (task : Task)
    → IsValid q
    → (next_entry probe drained now q).0 ≡ some e
    → nonempty e.task.id ≡ true
    → SparesAll e.task.id ops (next_entry probe drained now q).1
    → task.id ≡ e.task.id
    → let later = apply_all ops (next_entry probe drained now q).1 in
      All (λ x. (e.task.id == x.task.id) ≡ false) later.entries
      × (add py defaults task later ≡ (duplicate, later))
unfolding add
handed_out_not_requeued probe drained now q {e} ops py defaults task v chosen named spares same =
    let held =
      apply_all-Holds e.task.id ops (next_entry probe drained now q).1 named
        (next_entry-IsValid probe drained now q v)
        (next_entry_chosen-Holds probe drained now q v chosen named) spares in
    (held.absent, rw (same, named, held.known))
