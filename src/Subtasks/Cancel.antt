-- ===== src/Subtasks/Cancel.antt =====
-- What becomes of a child that is cancelled before it starts.
use iddo_harness.Prelude.{
  ℕ, zero, suc, String, ◌≡◌, refl, sym, ap, ◌∙◌, ◌==◌, eq_iff, eq_refl, Bool, true, false, not,
  some, List, [], ◌∷◌, arith, Has, Bool-cases, Option-cases, inl, inr, get_elem?, set,
}
use iddo_harness.Prelude.Ids
use iddo_harness.Prelude.Ids.{contains, contains-add, contains-discard}
use iddo_harness.Prelude.Dict.{Dict, lookup}
use iddo_harness.Subtasks.{
  Child, Manager, Job, State, SubTask, is_active, begin, cancel, update, finished_ids, forget,
  forget_finished, spawn, complete,
}

begin-eq-not_cancelled :
    (job : Job) (now : ℕ) (m : Manager)
    → (begin job now m).0 ≡ not (contains m.cancelled job.task.id)
unfolding begin
begin-eq-not_cancelled job now m = ground arith

cancelled-cancel :
    (id : String) (now : ℕ) (m : Manager) → (cancel id now m).1.cancelled ≡ Ids.add id m.cancelled
unfolding cancel
cancelled-cancel id now m = ground arith

contains-cancelled :
    (id : String) (now : ℕ) (m : Manager) → contains (cancel id now m).1.cancelled id ≡ true
contains-cancelled id now m =
    rw cancelled-cancel (ground (arith, contains-add id id m.cancelled, eq_refl id))

-- A job of an id that has been cancelled does not reach the executor, as long as nothing else
-- happens in between, whatever `cancel` answered.
pub begin-after_cancel :
    (job : Job) (now later : ℕ) (m : Manager)
    → (begin job later (cancel job.task.id now m).1).0 ≡ false
begin-after_cancel job now later m =
    begin-eq-not_cancelled job later (cancel job.task.id now m).1
    ∙ ap not (contains-cancelled job.task.id now m)

contains-forget :
    (ids : List String) (id : String) (m : Manager)
    → contains m.cancelled id ≡ false
    → contains (forget ids m).cancelled id ≡ false
unfolding forget
contains-forget [] id m h = h
contains-forget (x ∷ ids) id m h =
    contains-forget ids id _ (ground (arith, contains-discard x id m.cancelled))

forget-drops :
    (ids : List String) (id : String) (m : Manager)
    → Has id ids
    → contains (forget ids m).cancelled id ≡ false
unfolding forget
forget-drops [] id m h = absurd h
forget-drops (x ∷ ids) id m (inl same) =
    contains-forget ids id _ (ground (arith, contains-discard x id m.cancelled, eq_iff x id))
forget-drops (x ∷ ids) id m (inr h) = forget-drops ids id _ h

finished_ids-Has :
    (store : List Child) (id : String) (ref : ℕ) (records : Dict ℕ)
    → lookup id records ≡ some ref
    → is_active store ref ≡ false
    → Has id (finished_ids store records)
unfolding lookup finished_ids
finished_ids-Has store id ref [] h idle = cc
finished_ids-Has store id ref ((j, r) ∷ rest) h idle = elim (Bool-cases (j == id)) [
  | inl same ↦
      let k : some r ≡ some ref = rw same at h in
      let e : r ≡ ref = cc in let e' : j ≡ id = (eq_iff j id).0 same in rw (e, idle) (inl (sym e'))
  | inr other ↦
      let k : lookup id rest ≡ some ref = rw other at h in
      let m = finished_ids-Has store id ref rest k idle in
      elim (Bool-cases (is_active store r)) [ inl live ↦ rw live m | inr done ↦ rw done (inr m) ]
]

get_elem?-set_self :
    (xs : List Child) (i : ℕ) (c d : Child)
    → get_elem? xs i ≡ some c
    → get_elem? (set xs i d) i ≡ some d
get_elem?-set_self [] i c d h = cc
get_elem?-set_self (x ∷ xs) zero c d h = refl
get_elem?-set_self (x ∷ xs) (suc i) c d h = get_elem?-set_self xs i c d h

-- A child that `cancel` takes out of the queue is finished afterwards, under the same id.
cancel-finished :
    (id : String) (now : ℕ) (m : Manager)
    → (cancel id now m).0 ≡ true
    → (ref : ℕ) × (lookup id (cancel id now m).1.records ≡ some ref)
      × (is_active (cancel id now m).1.store ref ≡ false)
unfolding cancel update is_active
cancel-finished id now m h = elim (Option-cases (lookup id m.records)) [
  | inl unknown ↦ cc (rw (unknown, cancel) at h)
  | inr (ref, known) ↦ elim (Option-cases (get_elem? m.store ref)) [
    | inl lost ↦ cc (rw (known, lost, cancel) at h)
    | inr (c, found) ↦
        let c' : Child = record c { state = State.cancelled; finished_at = some now } in
        (ref, ground (arith, h), ground (arith, h, get_elem?-set_self m.store ref c c' found))
  ]
]

-- A queued child that was cancelled is executed after all, if `forget_finished` runs before its job
-- leaves the thread pool's queue: forgetting the record forgets the cancellation too.
pub begin-after_forget :
    (job : Job) (now later : ℕ) (m : Manager)
    → (cancel job.task.id now m).0 ≡ true
    → (begin job later (forget_finished (cancel job.task.id now m).1).1).0 ≡ true
unfolding forget_finished
begin-after_forget job now later m h =
    let m' = (cancel job.task.id now m).1 in
    let (ref, known, idle) = cancel-finished job.task.id now m h in
    begin-eq-not_cancelled job later (forget (finished_ids m'.store m'.records) m')
    ∙ ap not (
        forget-drops (finished_ids m'.store m'.records) job.task.id m'
          (finished_ids-Has m'.store job.task.id ref m'.records known idle))

-- What may happen to the manager, other than that records are forgotten.
pub data Op : Type 0 where
  spawned : SubTask → ℕ → Op
  cancelled_at : String → ℕ → Op
  begun : Job → ℕ → Op
  completed : Job → Bool → ℕ → Op

abbrev pub apply : Op → Manager → Manager
apply (spawned task now) m = (spawn task now m).1
apply (cancelled_at id now) m = (cancel id now m).1
apply (begun job now) m = (begin job now m).1
apply (completed job succeeds now) m = complete job succeeds now m

abbrev pub apply_all : List Op → Manager → Manager
apply_all [] m = m
apply_all (op ∷ ops) m = apply_all ops (apply op m)

apply-cancelled :
    (op : Op) (id : String) (m : Manager)
    → contains m.cancelled id ≡ true
    → contains (apply op m).cancelled id ≡ true
unfolding spawn begin complete
apply-cancelled (spawned task now) id m h = ground arith
apply-cancelled (cancelled_at other now) id m h =
    rw (cancelled-cancel other now m) (ground (arith, h, contains-add other id m.cancelled))
apply-cancelled (begun job now) id m h = ground arith
apply-cancelled (completed job succeeds now) id m h = h

apply_all-cancelled :
    (ops : List Op) (id : String) (m : Manager)
    → contains m.cancelled id ≡ true
    → contains (apply_all ops m).cancelled id ≡ true
apply_all-cancelled [] id m h = h
apply_all-cancelled (op ∷ ops) id m h =
    apply_all-cancelled ops id (apply op m) (apply-cancelled op id m h)

-- Once an id was cancelled, no job of it reaches the executor, whatever children are spawned, also
-- under that id, cancelled, begun and completed in between, while no records are forgotten.
pub begin-after_respawn :
    (job : Job) (ops : List Op) (now later : ℕ) (m : Manager)
    → (begin job later (apply_all ops (cancel job.task.id now m).1)).0 ≡ false
begin-after_respawn job ops now later m =
    let m' = (cancel job.task.id now m).1 in
    begin-eq-not_cancelled job later (apply_all ops m')
    ∙ rw (apply_all-cancelled ops job.task.id m' (contains-cancelled job.task.id now m))
