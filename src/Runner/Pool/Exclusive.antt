-- ===== src/Runner/Pool/Exclusive.antt =====
-- No two workers run the same task id at once, up to the point where they tell the queue.
use iddo_harness.Prelude.{
  ℕ, zero, suc, String, ◌≡◌, refl, ◌==◌, eq_iff, Bool, true, false, ◌&&◌, not, List, [], ◌∷◌, arith,
  All, All-map, All-of, All-zip, All-Has, Has, any, Option-cases, Bool-cases, inl, inr, nonempty,
  subst,
}
use iddo_harness.Prelude.Sublists.{Pairs, Sub, Sub-refl, Pairs-Sub, All-Sub}
use iddo_harness.Json.{Python}
use iddo_harness.Taskqueue.Schedule.{Task, Defaults}
use iddo_harness.Taskqueue.Queue
use iddo_harness.Taskqueue.Queue.{Queue, Entry, task_of}
use iddo_harness.Taskqueue.Queue.Invariant.{IsValid, empty-IsValid}
use iddo_harness.Taskqueue.Queue.Expiry.{drain_expired-IsValid}
use iddo_harness.Taskqueue.Queue.Keeps.{
  add-IsValid, remove-IsValid, mark_completed-IsValid, next_entry-IsValid, next_task_parts,
}
use iddo_harness.Taskqueue.Queue.Held.{
  Holds, add-Holds, remove-Holds, mark_completed-Holds, drain_expired-Holds, next_entry-Holds,
  next_entry_chosen-Holds, next_entry_was_queued,
}
use iddo_harness.Runner.Pool.{
  Thread, Pool, init, cancel, handle_cancel, submit, report_expired, launch, settle, finish,
  settle_first, end_first, crash, crash_first, forget_cancel, Found, target_of, tell_target,
}
use iddo_harness.Runner.Pool.Slots.{
  working, Step, submits, expires, launches, settles, finishes, forgets, crashes, Reach, here, next,
}

-- A thread that has not told the queue that its task is over holds the task's id.
abbrev Guarded : Queue → Thread → Type 0
Guarded q t = t.settled ≡ false → nonempty t.id ≡ true → Holds t.id q

-- Two such threads have different ids, unless these are empty.
abbrev pub Distinct : Thread → Thread → Type 0
Distinct a b = a.settled ≡ false → b.settled ≡ false → nonempty a.id ≡ true → (a.id == b.id) ≡ false

pub record IsExclusive (p : Pool) : Type 0 where
  pub valid : IsValid p.queue
  pub guarded : All (Guarded p.queue) p.threads
  pub distinct : Pairs Distinct p.threads

-- A step that changes only the queue, and keeps what its threads hold.
new_queue :
    (p : Pool) (q : Queue) (p' : Pool)
    → IsExclusive p
    → p'.queue ≡ q
    → p'.threads ≡ p.threads
    → IsValid q
    → ((x : String) → nonempty x ≡ true → Holds x p.queue → Holds x q)
    → IsExclusive p'
new_queue p q p' inv eq et v keeps = record {
  valid = rw eq v;
  guarded =
      rw (eq, et)
        (All-map _ _ (λ t g open_ named. keeps t.id named (g open_ named)) p.threads inv.guarded);
  distinct = rw et inv.distinct;
}

cancel_parts :
    (stop : String → Bool) (target : String) (p : Pool)
    → ((cancel stop target p).1.queue ≡ (Queue.remove target p.queue).1)
      × ((cancel stop target p).1.threads ≡ p.threads)
unfolding cancel
cancel_parts stop target p = ground arith

cancel-IsExclusive :
    (stop : String → Bool) (target : String) (p : Pool)
    → IsExclusive p
    → IsExclusive (cancel stop target p).1
cancel-IsExclusive stop target p inv =
    new_queue p _ _ inv (cancel_parts stop target p).0 (cancel_parts stop target p).1
      (remove-IsValid target p.queue inv.valid)
      (λ x named h. remove-Holds x named p.queue h target inv.valid)

tell_target_parts :
    (found : Found) (by target : String) (p : Pool)
    → ((tell_target found by target p).1.queue ≡ p.queue)
      × ((tell_target found by target p).1.threads ≡ p.threads)
unfolding tell_target
tell_target_parts found by target p = ground arith

handle_cancel-IsExclusive :
    (py : Python) (stop : String → Bool) (task : Task) (p : Pool)
    → IsExclusive p
    → IsExclusive (handle_cancel py stop task p).1
unfolding handle_cancel
handle_cancel-IsExclusive py stop task p inv = elim (Bool-cases (target_of py task == "")) [
  | inl missing ↦ rw missing inv
  | inr given ↦
      let (found, p') = cancel stop (target_of py task) p in
      let inv' = cancel-IsExclusive stop (target_of py task) p inv in
      let parts = tell_target_parts found task.id (target_of py task) p' in
      rw given (new_queue p' p'.queue _ inv' parts.0 parts.1 inv'.valid (λ x named h. h))
]

submit-IsExclusive :
    (py : Python) (defaults : Defaults) (stop : String → Bool) (task : Task) (p : Pool)
    → IsExclusive p
    → IsExclusive (submit py defaults stop task p).2
unfolding submit
submit-IsExclusive py defaults stop task p inv = elim (Bool-cases (task.kind == "cancel")) [
  | inl yes_ ↦ rw yes_ (handle_cancel-IsExclusive py stop task p inv)
  | inr no_ ↦ rw no_ (
      new_queue p (Queue.add py defaults task p.queue).1 _ inv refl refl
        (add-IsValid py defaults task p.queue inv.valid)
        (λ x named h. add-Holds x named p.queue h py defaults task))
]

-- A queued task has an id that no such thread holds.
chosen_Distinct :
    (q : Queue) (e : Entry) (ts : List Thread)
    → Has e q.entries
    → All (Guarded q) ts
    → All (Distinct (record { id = e.task.id; settled = false })) ts
chosen_Distinct q e [] m g = tt
chosen_Distinct q e (t ∷ ts) m g = (
  (λ _ open_ named. ground (
    arith,
    eq_iff e.task.id t.id,
    eq_iff t.id e.task.id,
    λ (n : nonempty t.id ≡ true). All-Has _ q.entries (g.0 open_ n).absent m,
  )),
  chosen_Distinct q e ts m g.1,
)

launch-IsExclusive :
    (probe : String → Bool) (drained now left : ℕ) (p : Pool)
    → IsExclusive p
    → IsExclusive (launch probe drained now left p).1
unfolding launch
launch-IsExclusive probe drained now zero p inv = inv
launch-IsExclusive probe drained now (suc left) p inv =
    let q = (Queue.next_entry probe drained now p.queue).1 in
    let v : IsValid q = next_entry-IsValid probe drained now p.queue inv.valid in
    let keeps = λ (x : String) (named : nonempty x ≡ true) (h : Holds x p.queue).
      next_entry-Holds x named p.queue h probe drained now inv.valid in
    let (same, idle, busy) = next_task_parts probe drained now p.queue in
    elim (Option-cases (Queue.next_entry probe drained now p.queue).0) [
      | inl nothing ↦ rw (idle nothing, launch) (new_queue p q _ inv same refl v keeps)
      | inr (e, found) ↦
          rw (busy e found, same, launch)
            (record {
              valid = v;
              guarded = (
                (λ _ named.
                    next_entry_chosen-Holds probe drained now p.queue inv.valid found named),
                All-map _ _ (λ t g open_ named. keeps t.id named (g open_ named)) p.threads
                    inv.guarded,
              );
              distinct = (
                chosen_Distinct p.queue e p.threads
                    (next_entry_was_queued probe drained now p.queue inv.valid found) inv.guarded,
                inv.distinct,
              );
            })
    ]

abbrev closed : Thread → Thread
closed t = record t { settled = true }

settle_first-All :
    (P : Thread → Type 0)
    → ((t : Thread) → P t → P (closed t))
    → (task_id : String) (ts : List Thread) → All P ts
    → All P (settle_first task_id ts)
settle_first-All P close task_id [] h = tt
settle_first-All P close task_id (t ∷ ts) h =
    elim (Bool-cases ((t.id == task_id) && not t.settled)) [
      | inl hit ↦ rw hit (close t h.0, h.1)
      | inr miss ↦ rw miss (h.0, settle_first-All P close task_id ts h.1)
    ]

settle_first-Distinct :
    (task_id : String) (ts : List Thread)
    → Pairs Distinct ts
    → Pairs Distinct (settle_first task_id ts)
settle_first-Distinct task_id [] d = tt
settle_first-Distinct task_id (t ∷ ts) d = elim (Bool-cases ((t.id == task_id) && not t.settled)) [
  | inl hit ↦ rw hit (All-map _ _ (λ x f open_. cc) ts d.0, d.1)
  | inr miss ↦ rw miss (
    settle_first-All (Distinct t) (λ x f _ open_. cc) task_id ts d.0,
    settle_first-Distinct task_id ts d.1,
  )
]

-- Once the first thread of a task has settled, no other that has not has its id.
settle_first-others :
    (task_id : String) (ts : List Thread)
    → Pairs Distinct ts
    → nonempty task_id ≡ true
    → All (λ t. t.settled ≡ false → (task_id == t.id) ≡ false) (settle_first task_id ts)
settle_first-others task_id [] d named = tt
settle_first-others task_id (t ∷ ts) d named =
    elim (Bool-cases ((t.id == task_id) && not t.settled)) [
      | inl hit ↦
          let same : t.id ≡ task_id = ground (arith, eq_iff t.id task_id) in
          let open_ : t.settled ≡ false = ground arith in
          rw hit (
            (λ e. cc),
            All-map (Distinct t) _
                (λ x f open_x. rw same at (f open_ open_x (rw (← same) at named))) ts d.0,
          )
      | inr miss ↦ rw miss (
        (λ open_. ground (arith, miss, eq_iff t.id task_id, eq_iff task_id t.id)),
        settle_first-others task_id ts d.1 named,
      )
    ]

working-Holds :
    (q : Queue) (task_id : String) (ts : List Thread)
    → All (Guarded q) ts
    → any (λ t. (t.id == task_id) && not t.settled) ts ≡ true
    → nonempty task_id ≡ true
    → Holds task_id q
working-Holds q task_id [] g h named = cc
working-Holds q task_id (t ∷ ts) g h named =
    elim (Bool-cases ((t.id == task_id) && not t.settled)) [
      | inl hit ↦
          let same : t.id ≡ task_id = ground (arith, eq_iff t.id task_id) in
          let open_ : t.settled ≡ false = ground arith in
          subst (λ x. Holds x q) same (g.0 open_ (rw (← same) at named))
      | inr miss ↦ working-Holds q task_id ts g.1 (rw miss at h) named
    ]

-- The empty text is no id that is not empty.
nameless : (x y : String) → nonempty x ≡ false → nonempty y ≡ true → (x == y) ≡ false
nameless x y a b = ground (arith, eq_iff x y, eq_iff x "", eq_iff y "")

module _ (task_id : String) (ok : Bool) (p : Pool) (w : working task_id p ≡ true)
    (inv : IsExclusive p) where
  not_queued : All (λ e. nonempty e.task.id ≡ true → (task_id == e.task.id) ≡ false) p.queue.entries
  not_queued = elim (Bool-cases (nonempty task_id)) [
    | inl named ↦
        All-map _ _ (λ e f _. f) p.queue.entries
          (working-Holds p.queue task_id p.threads inv.guarded w named).absent
    | inr empty ↦ All-of _ (λ e. nameless task_id e.task.id empty) p.queue.entries
  ]

  others_differ :
      All
        (λ t. t.settled ≡ false → nonempty t.id ≡ true → (task_id == t.id) ≡ false)
        (settle_first task_id p.threads)
  others_differ = elim (Bool-cases (nonempty task_id)) [
    | inl named ↦
        All-map _ _ (λ t f open_ _. f open_) _
          (settle_first-others task_id p.threads inv.distinct named)
    | inr empty ↦ All-of _ (λ t _. nameless task_id t.id empty) _
  ]

  settle-IsExclusive : IsExclusive (settle task_id ok p)
  unfolding settle
  settle-IsExclusive = record {
    valid = mark_completed-IsValid task_id ok p.queue inv.valid not_queued;
    guarded =
        All-zip (Guarded p.queue) _ (Guarded (Queue.mark_completed task_id ok p.queue))
          (λ t g differ open_ named.
            mark_completed-Holds t.id named p.queue (g open_ named) task_id ok (differ open_ named))
          (settle_first task_id p.threads)
          (settle_first-All (Guarded p.queue) (λ t g open_. cc) task_id p.threads inv.guarded)
          others_differ;
    distinct = settle_first-Distinct task_id p.threads inv.distinct;
  }

end_first-Sub : (task_id : String) (ts : List Thread) → Sub (end_first task_id ts) ts
end_first-Sub task_id [] = Sub.stop
end_first-Sub task_id (t ∷ ts) = elim (Bool-cases ((t.id == task_id) && t.settled)) [
  | inl hit ↦ rw hit (Sub.skip t (Sub-refl ts))
  | inr miss ↦ rw miss (Sub.keep t (end_first-Sub task_id ts))
]

crash_first-Sub : (task_id : String) (ts : List Thread) → Sub (crash_first task_id ts) ts
crash_first-Sub task_id [] = Sub.stop
crash_first-Sub task_id (t ∷ ts) = elim (Bool-cases ((t.id == task_id) && not t.settled)) [
  | inl hit ↦ rw hit (Sub.skip t (Sub-refl ts))
  | inr miss ↦ rw miss (Sub.keep t (crash_first-Sub task_id ts))
]

Step-IsExclusive : {p q : Pool} → Step p q → IsExclusive p → IsExclusive q
unfolding finish crash forget_cancel report_expired
Step-IsExclusive {p} (submits py defaults stop task) inv =
    submit-IsExclusive py defaults stop task p inv
Step-IsExclusive {p} (expires now) inv =
    new_queue p (Queue.drain_expired now p.queue).1 _ inv refl refl
      (drain_expired-IsValid now p.queue inv.valid)
      (λ x named h. drain_expired-Holds x named p.queue h now inv.valid)
Step-IsExclusive {p} (launches probe drained now) inv =
    launch-IsExclusive probe drained now p.slots p inv
Step-IsExclusive {p} (settles task_id ok w) inv = settle-IsExclusive task_id ok p w inv
Step-IsExclusive {p} (forgets task_id w) inv = record {
  valid = inv.valid;
  guarded = inv.guarded;
  distinct = inv.distinct;
}
Step-IsExclusive {p} (crashes task_id w) inv = record {
  valid = inv.valid;
  guarded = All-Sub (Guarded p.queue) (crash_first-Sub task_id p.threads) inv.guarded;
  distinct = Pairs-Sub Distinct (crash_first-Sub task_id p.threads) inv.distinct;
}
Step-IsExclusive {p} (finishes task_id w) inv = record {
  valid = inv.valid;
  guarded = All-Sub (Guarded p.queue) (end_first-Sub task_id p.threads) inv.guarded;
  distinct = Pairs-Sub Distinct (end_first-Sub task_id p.threads) inv.distinct;
}

IsExclusive-init : (n : ℕ) → IsExclusive (init n)
unfolding init
IsExclusive-init n = record { valid = empty-IsValid; guarded = tt; distinct = tt }

Reach-IsExclusive : {p q : Pool} → Reach p q → IsExclusive p → IsExclusive q
Reach-IsExclusive here inv = inv
Reach-IsExclusive (next r s) inv = Step-IsExclusive s (Reach-IsExclusive r inv)

-- In every pool that the steps reach from the start, two worker threads neither of which has yet told
-- the queue by `mark_completed` that its task is over have different task ids, unless an id is empty;
-- and the queue is valid: rising arrival numbers, no id queued twice, every queued id known.
pub reached-Distinct :
    (n : ℕ) (p : Pool) → Reach (init n) p → Pairs Distinct p.threads × IsValid p.queue
reached-Distinct n p r =
    let inv = Reach-IsExclusive r (IsExclusive-init n) in (inv.distinct, inv.valid)
