-- ===== src/Runner/Pool/Slots.antt =====
-- The steps of the pool in any order, and the bound on concurrency.
use iddo_harness.Prelude.{
  ℕ, zero, suc, ◌+◌, ◌≤◌, String, ◌≡◌, refl, ◌==◌, Bool, true, ◌&&◌, not, List, [], ◌∷◌, arith, any,
  length, max, Option-cases, inl, inr, ◌∙◌, sym,
}
use iddo_harness.Json.{Python}
use iddo_harness.Taskqueue.Schedule.{Task, Defaults}
use iddo_harness.Taskqueue.Queue
use iddo_harness.Runner.Pool.{
  Thread, Pool, init, cancel, submit, report_expired, launch, settle, finish, settle_first,
  end_first, crash, crash_first, forget_cancel, target_of,
}

-- A thread of the task has not told the queue yet that it is over; a thread of it has.
abbrev pub working : String → Pool → Bool
working task_id p = any (λ t. (t.id == task_id) && not t.settled) p.threads

abbrev pub leaving : String → Pool → Bool
leaving task_id p = any (λ t. (t.id == task_id) && t.settled) p.threads

pub data Step (p : Pool) : Pool → Type 0 where
  submits :
      (py : Python) (defaults : Defaults) (stop : String → Bool) (task : Task)
      → Step p (submit py defaults stop task p).2
  expires : (now : ℕ) → Step p (report_expired now p).1
  launches :
      (probe : String → Bool) (drained now : ℕ) → Step p (launch probe drained now p.slots p).1
  settles : (task_id : String) (ok : Bool) → working task_id p ≡ true → Step p (settle task_id ok p)
  forgets : (task_id : String) → leaving task_id p ≡ true → Step p (forget_cancel task_id p)
  crashes : (task_id : String) → working task_id p ≡ true → Step p (crash task_id p)
  finishes : (task_id : String) → leaving task_id p ≡ true → Step p (finish task_id p)

pub data Reach (p : Pool) : Pool → Type 0 where
  here : Reach p p
  next : {q r : Pool} → Reach p q → Step q r → Reach p r

pub record Fits (limit : ℕ) (p : Pool) : Type 0 where
  pub shared : p.slots + p.in_flight ≡ limit
  pub counted : p.in_flight ≡ length p.threads
  pub below_peak : p.in_flight ≤ p.peak
  pub peak_below : p.peak ≤ limit

-- The parts of the pool that `Fits` speaks of.
abbrev SameSlots : Pool → Pool → Type 0
SameSlots p q =
    (q.slots ≡ p.slots) × (q.in_flight ≡ p.in_flight) × (q.peak ≡ p.peak) × (q.threads ≡ p.threads)

SameSlots-Fits : (limit : ℕ) (p q : Pool) → SameSlots p q → Fits limit p → Fits limit q
SameSlots-Fits limit p q (a, b, c, d) f = record {
  shared = rw (a, b) f.shared;
  counted = rw (b, d) f.counted;
  below_peak = rw (b, c) f.below_peak;
  peak_below = rw c f.peak_below;
}

cancel-SameSlots :
    (stop : String → Bool) (target : String) (p : Pool) → SameSlots p (cancel stop target p).1
unfolding cancel
cancel-SameSlots stop target p = ground arith

submit-SameSlots :
    (py : Python) (defaults : Defaults) (stop : String → Bool) (task : Task) (p : Pool)
    → SameSlots p (submit py defaults stop task p).2
unfolding submit
submit-SameSlots py defaults stop task p =
    ground (arith, cancel-SameSlots stop (target_of py task) p)

length-settle_first :
    (task_id : String) (ts : List Thread) → length (settle_first task_id ts) ≡ length ts
length-settle_first task_id [] = refl
length-settle_first task_id (t ∷ ts) = ground (arith, length-settle_first task_id ts)

length-end_first :
    (task_id : String) (ts : List Thread)
    → any (λ t. (t.id == task_id) && t.settled) ts ≡ true
    → suc (length (end_first task_id ts)) ≡ length ts
length-end_first task_id [] h = cc
length-end_first task_id (t ∷ ts) h = ground (arith, length-end_first task_id ts)

length-crash_first :
    (task_id : String) (ts : List Thread)
    → any (λ t. (t.id == task_id) && not t.settled) ts ≡ true
    → suc (length (crash_first task_id ts)) ≡ length ts
length-crash_first task_id [] h = cc
length-crash_first task_id (t ∷ ts) h = ground (arith, length-crash_first task_id ts)

launch-Fits :
    (limit left drained now : ℕ) (probe : String → Bool) (p : Pool)
    → p.slots ≡ left
    → Fits limit p
    → Fits limit (launch probe drained now left p).1
unfolding launch
launch-Fits limit zero drained now probe p e f = f
launch-Fits limit (suc left) drained now probe p e f =
    elim (Option-cases (Queue.next_task probe drained now p.queue).0) [
      | inl idle ↦ rw (idle, launch) (SameSlots-Fits limit p _ (refl, refl, refl, refl) f)
      | inr (task, found) ↦
          rw (found, launch)
            (record {
              shared = omega (arith, f.shared);
              counted = omega (arith, f.counted);
              below_peak = omega arith;
              peak_below = omega (arith, f.peak_below, f.shared);
            })
    ]

pub Step-Fits : (limit : ℕ) {p q : Pool} → Step p q → Fits limit p → Fits limit q
unfolding settle finish crash forget_cancel report_expired
Step-Fits limit {p} (submits py defaults stop task) f =
    SameSlots-Fits limit p _ (submit-SameSlots py defaults stop task p) f
Step-Fits limit {p} (expires now) f = SameSlots-Fits limit p _ (refl, refl, refl, refl) f
Step-Fits limit {p} (launches probe drained now) f =
    launch-Fits limit p.slots drained now probe p refl f
Step-Fits limit {p} (settles task_id ok h) f = record {
  shared = f.shared;
  counted = f.counted ∙ sym (length-settle_first task_id p.threads);
  below_peak = f.below_peak;
  peak_below = f.peak_below;
}
Step-Fits limit {p} (forgets task_id h) f = SameSlots-Fits limit p _ (refl, refl, refl, refl) f
Step-Fits limit {p} (crashes task_id h) f =
    let one = length-crash_first task_id p.threads h in
    record {
      shared = omega (arith, f.shared, f.counted);
      counted = omega (arith, f.counted);
      below_peak = omega (arith, f.below_peak);
      peak_below = f.peak_below;
    }
Step-Fits limit {p} (finishes task_id h) f =
    let one = length-end_first task_id p.threads h in
    record {
      shared = omega (arith, f.shared, f.counted);
      counted = omega (arith, f.counted);
      below_peak = omega (arith, f.below_peak);
      peak_below = f.peak_below;
    }

Fits-init : (n : ℕ) → Fits (max 1 n) (init n)
unfolding init
Fits-init n = record {
  shared = omega arith;
  counted = refl;
  below_peak = omega arith;
  peak_below = omega arith;
}

Reach-Fits : (limit : ℕ) {p q : Pool} → Reach p q → Fits limit p → Fits limit q
Reach-Fits limit here f = f
Reach-Fits limit (next r s) f = Step-Fits limit s (Reach-Fits limit r f)

-- In every pool that the steps reach from the start, at most `max_concurrent_tasks` worker threads
-- are alive (1 if the setting is 0), `in_flight` is their number, `peak_concurrency` is at most the
-- limit too, and each of the limit's slots is either free or held by one of the threads.
pub reached-Fits :
    (n : ℕ) (p : Pool) → Reach (init n) p → Fits (max 1 n) p × (length p.threads ≤ max 1 n)
reached-Fits n p r =
    let f = Reach-Fits (max 1 n) r (Fits-init n) in (f, omega (arith, f.shared, f.counted))
