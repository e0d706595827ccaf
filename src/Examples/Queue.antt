-- ===== src/Examples/Queue.antt =====
-- Two tasks in a queue of agent/taskqueue.py: the one that came first waits for the other.
use iddo_harness.Prelude.{
  ℕ, String, ◌==◌, ◌≡◌, ◌↔◌, refl, Bool, true, false, Option, none, some, List, [], ◌∷◌, filter,
  All, Has, arith,
}
use iddo_harness.Prelude.Ids.{contains}
use iddo_harness.Prelude.Sorting.{sorted}
use iddo_harness.Json.{Python, pos, end}
use iddo_harness.Taskqueue.Schedule.{Priority, high, normal, rank, Schedule, Task, Defaults}
use iddo_harness.Taskqueue.Queue.{
  Entry, key_le, Queue, duplicate, add, is_expired, drain_expired, next_entry, dependencies_met,
  blocked_reason, discard_each, scan, drop_entry,
}
use iddo_harness.Taskqueue.Queue.Selection.{
  fresh, may_run, ComesBefore, next_entry_takes_best, next_entry-none_iff,
}
use iddo_harness.Taskqueue.Queue.Invariant.{IsValid}
use iddo_harness.Taskqueue.Queue.Later.{
  Op, added, drained_at, completed_as, apply_all, SparesAll, handed_out_not_requeued,
}

abbrev pub python : Python
python = record {
  repr = λ v. "";
  to_int = λ v. some (pos 2);
  to_float = λ v. some 5;
  from_iso_format = λ s. none;
}

abbrev pub defaults : Defaults
defaults = record { max_attempts = 3; backoff_seconds = 30 ∷ 120 ∷ [] }

abbrev pub task : String → Task
task id = record { id = id; kind = "shell"; payload = end; priority = none }

abbrev schedule : Priority → Option ℕ → List String → Schedule
schedule priority deadline depends_on = record {
  priority = priority;
  not_before = none;
  deadline = deadline;
  depends_on = depends_on;
  retry = record { max_attempts = 3; backoff_seconds = 30 ∷ 120 ∷ [] };
}

abbrev waiting : Entry
waiting = record { task = task "b"; schedule = schedule high none ("a" ∷ []); seq = 0 }

abbrev ready_now : Entry
ready_now = record { task = task "a"; schedule = schedule normal (some 90) []; seq = 1 }

abbrev pub two : Queue
two = record {
  entries = waiting ∷ ready_now ∷ [];
  next_seq = 2;
  known_ids = "a" ∷ "b" ∷ [];
  completed = [];
}

abbrev pub unseen : String → Bool
unseen id = false

pub two-IsValid : IsValid two
unfolding contains
two-IsValid = record {
  ascending = ((omega arith, tt), (tt, tt));
  bounded = (omega arith, (omega arith, tt));
  apart = (((λ h. refl), tt), (tt, tt));
  known = ((λ h. refl), ((λ h. refl), tt));
}

-- The high-priority task waits for the other, which therefore runs first.
pub ready_first : (next_entry unseen 50 50 two).0 ≡ some ready_now
unfolding next_entry drain_expired discard_each is_expired scan blocked_reason dependencies_met
    key_le rank sorted contains
ready_first = refl

next_entry_takes_best_example :
    Has ready_now (filter (fresh 50) two.entries)
    × (may_run unseen 50 two ready_now ≡ true)
    × All (ComesBefore ready_now) (filter (may_run unseen 50 two) (filter (fresh 50) two.entries))
next_entry_takes_best_example = next_entry_takes_best unseen 50 50 two two-IsValid ready_first

-- Once both tasks are gone, nothing may run.
abbrev one : Queue
one = record { entries = waiting ∷ []; next_seq = 2; known_ids = "b" ∷ []; completed = [] }

one-IsValid : IsValid one
unfolding contains
one-IsValid = record {
  ascending = (tt, tt);
  bounded = (omega arith, tt);
  apart = (tt, tt);
  known = ((λ h. refl), tt);
}

next_entry-none_iff_example :
    ((next_entry unseen 50 50 one).0 ≡ none)
    ↔ All (λ x. may_run unseen 50 one x ≡ false) (filter (fresh 50) one.entries)
next_entry-none_iff_example = next_entry-none_iff unseen 50 50 one one-IsValid

abbrev meanwhile : List Op
meanwhile = added python defaults (task "a") ∷ drained_at 60 ∷ completed_as "x" true ∷ []

spared : SparesAll "a" meanwhile (next_entry unseen 50 50 two).1
unfolding next_entry drain_expired discard_each is_expired scan blocked_reason dependencies_met
    key_le rank sorted contains add drop_entry
spared = (tt, (tt, ((refl, ((λ h. refl), tt)), tt)))

handed_out_not_requeued_example :
    let later = apply_all meanwhile (next_entry unseen 50 50 two).1 in
    All (λ x. ("a" == x.task.id) ≡ false) later.entries
    × (add python defaults (task "a") later ≡ (duplicate, later))
handed_out_not_requeued_example =
    handed_out_not_requeued unseen 50 50 two meanwhile python defaults (task "a") two-IsValid
      ready_first refl spared refl
