-- ===== src/Taskqueue/Queue.antt =====
-- agent/taskqueue.py, `QueueEntry` and `TaskQueue`. A method takes the queue and returns the new
-- one; every method runs under the queue's lock, so a call is one step. `probe` stands for the two
-- outside questions of `dependencies_met`: `dependency_check`, then `ResultIndex.succeeded`.
pub mod Dependencies
pub mod Selection
pub mod Invariant
pub mod Expiry
pub mod Keeps
pub mod Held
pub mod Later
use iddo_harness.Prelude.{
  ℕ, suc, ◌+◌, String, ◌==◌, Bool, true, false, ◌&&◌, ◌||◌, not, Option, none, some, List, [], ◌∷◌,
  ◌++◌, ltb, leb, eqb, length, filter, nonempty, if◌then◌else◌,
}
use iddo_harness.Prelude.Ids
use iddo_harness.Prelude.Ids.{contains}
use iddo_harness.Prelude.Sorting.{sorted}
use iddo_harness.Json.{Python}
use iddo_harness.Taskqueue.Schedule.{
  Priority, high, normal, low, rank, Schedule, Task, Defaults, parse_schedule,
}

pub record Entry : Type 0 where
  pub task : Task
  pub schedule : Schedule
  pub seq : ℕ

-- `sort_key` compared as Python compares tuples: by rank, then by arrival.
unfoldable pub key_le : Entry → Entry → Bool
unfolding rank
key_le a b =
    let r : ℕ = rank a.schedule.priority in
    let s : ℕ = rank b.schedule.priority in ltb r s || (eqb r s && leb a.seq b.seq)

pub record Queue : Type 0 where
  pub entries : List Entry
  pub next_seq : ℕ
  pub known_ids : List String
  pub completed : List String

unfoldable pub empty : Queue
empty = record { entries = []; next_seq = 0; known_ids = []; completed = [] }

-- What `add` does: nothing for an id that is known, an exception where the schedule does not parse.
pub data Added : Type 0 where
  queued : Entry → Added
  duplicate raised : Added

unfoldable pub add : Python → Defaults → Task → Queue → Added × Queue
add py defaults task q =
    if nonempty task.id && contains q.known_ids task.id
    then (duplicate, q)
    else elim (parse_schedule py defaults task) [
      | none ↦ (raised, q)
      | some schedule ↦
          let entry : Entry = record { task = task; schedule = schedule; seq = q.next_seq } in
          (
            queued entry,
            record q {
              entries = q.entries ++ entry ∷ [];
              next_seq = q.next_seq + 1;
              known_ids = if nonempty task.id then Ids.add task.id q.known_ids else q.known_ids;
            },
          )
    ]

-- The first entry with an id, and the list without it.
unfoldable pub pull : String → List Entry → Option (Entry × List Entry)
pull task_id [] = none
pull task_id (e ∷ es) =
    if e.task.id == task_id
    then some (e, es)
    else elim (pull task_id es) [ none ↦ none | some (found, rest) ↦ some (found, e ∷ rest) ]

unfoldable pub remove : String → Queue → Option Task × Queue
unfolding pull
remove task_id q = elim (pull task_id q.entries) [
  | none ↦ (none, q)
  | some (found, rest) ↦
      (some found.task, record q { entries = rest; known_ids = Ids.discard task_id q.known_ids })
]

unfoldable pub mark_completed : String → Bool → Queue → Queue
mark_completed task_id ok q = record q {
  known_ids = Ids.discard task_id q.known_ids;
  completed = if ok then Ids.add task_id q.completed else q.completed;
}

abbrev pub depth : Queue → ℕ
depth q = length q.entries

unfoldable pub snapshot : Queue → List Entry
snapshot q = sorted key_le q.entries

-- The loop of `dependencies_met`, which also records the dependencies that it found completed.
unfoldable pub dependencies_met : (String → Bool) → List String → List String → Bool × List String
dependencies_met probe [] completed = (true, completed)
dependencies_met probe (dep ∷ deps) completed =
    let again = dependencies_met probe deps completed in
    let found = dependencies_met probe deps (Ids.add dep completed) in
    if contains completed dep then again else if probe dep then found else (false, completed)

unfoldable pub is_expired : ℕ → Schedule → Bool
is_expired now schedule = elim schedule.deadline [
  | none ↦ false
  | some deadline ↦ elim schedule.priority [ high ↦ false | _ ↦ ltb deadline now ]
]

pub data Reason : Type 0 where
  not_before : ℕ → Reason
  awaiting : List String → Reason

abbrev too_early : ℕ → Schedule → Bool
too_early now schedule = elim schedule.not_before [ none ↦ false | some start ↦ ltb now start ]

start_of : Schedule → ℕ
start_of schedule = elim schedule.not_before [ none ↦ 0 | some start ↦ start ]

-- The reason, and the completed ids that the check has recorded.
unfoldable pub blocked_reason :
    (String → Bool) → ℕ → Entry → List String → Option Reason × List String
unfolding start_of
blocked_reason probe now e completed =
    if too_early now e.schedule
    then (some (not_before (start_of e.schedule)), completed)
    else let (met, completed') = dependencies_met probe e.schedule.depends_on completed in
      if met then (none, completed') else (
        some (awaiting (filter (λ d. not (contains completed' d)) e.schedule.depends_on)),
        completed',
      )

-- `self._entries.remove(entry)`: the arrival number tells the entries of a queue apart.
unfoldable pub drop_entry : Entry → List Entry → List Entry
drop_entry e [] = []
drop_entry e (x ∷ xs) = if eqb x.seq e.seq then xs else x ∷ drop_entry e xs

-- One round of the loop of `drain_expired`.
unfoldable pub discard_each : List Entry → Queue → Queue
discard_each [] q = q
discard_each (e ∷ es) q =
    discard_each es
      (record q { entries = drop_entry e q.entries; known_ids = Ids.discard e.task.id q.known_ids })

unfoldable pub drain_expired : ℕ → Queue → List Entry × Queue
unfolding discard_each
drain_expired now q =
    let expired = filter (λ e. is_expired now e.schedule) q.entries in
    (expired, discard_each expired q)

-- The scan of `next_entry` and `next_task` over the sorted entries.
unfoldable pub scan : (String → Bool) → ℕ → List Entry → List String → Option Entry × List String
scan probe now [] completed = (none, completed)
scan probe now (e ∷ es) completed =
    let (reason, completed') = blocked_reason probe now e completed in
    let rest = scan probe now es completed' in
    elim reason [ none ↦ (some e, completed') | some why ↦ rest ]

-- Without an explicit `now` the two halves read the clock twice: `drained`, then `now`.
unfoldable pub next_entry : (String → Bool) → ℕ → ℕ → Queue → Option Entry × Queue
unfolding scan
next_entry probe drained now q =
    let live = (drain_expired drained q).1 in
    let (chosen, completed') = scan probe now (sorted key_le live.entries) live.completed in
    elim chosen [
      | none ↦ (none, record live { completed = completed' })
      | some e ↦
          (some e, record live { entries = drop_entry e live.entries; completed = completed' })
    ]

abbrev pub task_of : Option Entry × Queue → Option Task × Queue
task_of (none, q) = (none, q)
task_of (some e, q) = (some e.task, q)

-- `next_task` repeats the body of `next_entry` and returns the entry's task.
unfoldable pub next_task : (String → Bool) → ℕ → ℕ → Queue → Option Task × Queue
next_task probe drained now q = task_of (next_entry probe drained now q)
