-- ===== src/Subtasks.antt =====
-- agent/subtasks.py, `SubtaskManager`. A record is an object that the manager's dictionary and the
-- job in the thread pool share, so records live in a store and are named by their place in it. Each
-- function is what one thread does under the manager's lock; times are given. A child's result is
-- what the executor says of it: succeeded, failed, or an exception.
pub mod Spawn
pub mod Cancel
pub mod Await
use iddo_harness.Prelude.{
  ℕ, zero, suc, ◌+◌, String, ◌==◌, Bool, true, false, ◌&&◌, ◌||◌, not, Option, none, some, List, [],
  ◌∷◌, ◌++◌, ltb, leb, length, get_elem?, set, eqb, filter, if◌then◌else◌, any, all, is_none,
  is_some, is_empty, ◌>>=◌,
}
use iddo_harness.Prelude.Ids
use iddo_harness.Prelude.Ids.{contains}
use iddo_harness.Prelude.Dict
use iddo_harness.Prelude.Dict.{Dict, lookup, put, values}
use iddo_harness.Prelude.Result.{Result, ok, err}

pub data State : Type 0 where
  queued running succeeded failed cancelled : State

-- FINISHED_STATES
abbrev pub is_finished : State → Bool
is_finished queued = false
is_finished running = false
is_finished succeeded = true
is_finished failed = true
is_finished cancelled = true

-- The fields of `SubTask` that scheduling reads.
pub record SubTask : Type 0 where
  pub id : String
  pub kind : String
  pub parent_id : Option String
  pub depth : ℕ

pub record Child : Type 0 where
  pub id : String
  pub kind : String
  pub parent_id : Option String
  pub depth : ℕ
  pub state : State
  pub created_at : ℕ
  pub started_at : Option ℕ
  pub finished_at : Option ℕ

-- A task that waits in the thread pool, with the place of its record.
pub record Job : Type 0 where
  pub task : SubTask
  pub ref : ℕ

pub record Manager : Type 0 where
  pub max_active : ℕ
  pub max_depth : ℕ
  pub store : List Child
  pub records : Dict ℕ
  pub events : Dict Bool
  pub cancelled : List String
  pub jobs : List Job

-- Is the record at a place of the store unfinished? A place outside of it holds nothing.
unfoldable pub is_active : List Child → ℕ → Bool
is_active store ref = elim (get_elem? store ref) [
  | none ↦ false
  | some c ↦ not (is_finished c.state)
]

abbrev pub count_active : List Child → List ℕ → ℕ
count_active store [] = 0
count_active store (ref ∷ refs) =
    let rest = count_active store refs in if is_active store ref then suc rest else rest

unfoldable pub active_count : Manager → ℕ
active_count m = count_active m.store (values m.records)

pub data Refusal : Type 0 where
  too_deep already_in_flight too_many : Refusal

pub data Spawned : Type 0 where
  started : Child → Spawned
  refused : Refusal → Spawned

abbrev pub active_at : List Child → Option ℕ → Bool
active_at store none = false
active_at store (some ref) = is_active store ref

-- The id names a record that is not finished.
unfoldable pub in_flight : String → Manager → Bool
in_flight id m = active_at m.store (lookup id m.records)

abbrev pub new_child : SubTask → ℕ → Child
new_child task now = record {
  id = task.id;
  kind = task.kind;
  parent_id = task.parent_id;
  depth = task.depth;
  state = queued;
  created_at = now;
  started_at = none;
  finished_at = none;
}

unfoldable pub spawn : SubTask → ℕ → Manager → Spawned × Manager
spawn task now m =
    if ltb m.max_depth task.depth
    then (refused too_deep, m)
    else if in_flight task.id m
    then (refused already_in_flight, m)
    else if leb m.max_active (active_count m)
    then (refused too_many, m)
    else (
      started (new_child task now),
      record m {
        store = m.store ++ new_child task now ∷ [];
        records = put task.id (length m.store) m.records;
        events = put task.id false m.events;
        jobs = m.jobs ++ record { task = task; ref = length m.store } ∷ [];
      },
    )

abbrev pub with_first : Child → Result Refusal (List Child) → Result Refusal (List Child)
with_first c (ok cs) = ok (c ∷ cs)
with_first c (err why) = err why

-- `spawn_many`: the records of the tasks, or the first refusal, which is raised; the tasks before it
-- stay started. The lock is taken for each task by itself: `others` is what other threads do before
-- the spawn with so many tasks left, `clock` the instant of that spawn.
unfoldable pub spawn_many :
    (ℕ → Manager → Manager)
    → (ℕ → ℕ)
    → List SubTask
    → Manager
    → Result Refusal (List Child) × Manager
unfolding spawn
spawn_many others clock [] m = (ok [], m)
spawn_many others clock (task ∷ tasks) m =
    let (answer, m') = spawn task (clock (length tasks)) (others (length tasks) m) in
    let (rest, m'') = spawn_many others clock tasks m' in
    elim answer [ refused why ↦ (err why, m') | started c ↦ (with_first c rest, m'') ]

update : ℕ → (Child → Child) → List Child → List Child
update ref f store = elim (get_elem? store ref) [ none ↦ store | some c ↦ set store ref (f c) ]

abbrev without_job : ℕ → List Job → List Job
without_job ref jobs = filter (λ (j : Job). not (eqb j.ref ref)) jobs

-- `self._events[id].set()`, which raises for an id that has no event any more.
signal : String → Dict Bool → Dict Bool
signal id events = if is_some (lookup id events) then put id true events else events

-- The first part of `_run`: does the job go on to the executor?
unfoldable pub begin : Job → ℕ → Manager → Bool × Manager
unfolding update signal
begin job now m =
    let m' : Manager = record m { jobs = without_job job.ref m.jobs } in
    if contains m.cancelled job.task.id
    then (
      false,
      record m' {
        store =
            update job.ref (λ c. record c { state = cancelled; finished_at = some now }) m.store;
        events = signal job.task.id m.events;
      },
    )
    else (
      true,
      record m' {
        store = update job.ref (λ c. record c { state = running; started_at = some now }) m.store;
      },
    )

-- The rest of `_run`, once the executor has returned or raised.
unfoldable pub complete : Job → Bool → ℕ → Manager → Manager
unfolding update signal
complete job succeeds now m = record m {
  store =
      update job.ref
        (λ c. record c { state = if succeeds then succeeded else failed; finished_at = some now })
        m.store;
  events = signal job.task.id m.events;
}

-- `cancel`
unfoldable pub cancel : String → ℕ → Manager → Bool × Manager
unfolding update
cancel id now m =
    let m' : Manager = record m { cancelled = Ids.add id m.cancelled } in
    elim (lookup id m.records) [
      | none ↦ (false, m')
      | some ref ↦ elim (get_elem? m.store ref) [
        | none ↦ (false, m')
        | some c ↦ elim c.state [
          | queued ↦ (
            true,
            record m' {
              store =
                  update ref (λ x. record x { state = cancelled; finished_at = some now }) m.store;
              events = put id true m.events;
            },
          )
          | _ ↦ (false, m')
        ]
      ]
    ]

-- The ids of the finished records.
unfoldable pub finished_ids : List Child → Dict ℕ → List String
finished_ids store [] = []
finished_ids store ((id, ref) ∷ rest) =
    let more = finished_ids store rest in if is_active store ref then more else id ∷ more

forget : List String → Manager → Manager
forget [] m = m
forget (id ∷ ids) m = forget ids (record m {
  records = Dict.remove id m.records;
  events = Dict.remove id m.events;
  cancelled = Ids.discard id m.cancelled;
})

unfoldable pub forget_finished : Manager → ℕ × Manager
unfolding forget finished_ids
forget_finished m = let done = finished_ids m.store m.records in (length done, forget done m)

unfoldable pub status : String → Manager → Option Child
status id m = elim (lookup id m.records) [ none ↦ none | some ref ↦ get_elem? m.store ref ]

pub record Awaited : Type 0 where
  pub ok : Bool
  pub completed : List Child
  pub pending : List Child
  pub unknown : List String
  pub timed_out : Bool

abbrev pub is_known : Manager → String → Bool
is_known m id = is_some (lookup id m.records)

-- `self._records[t]` for each id; `none` where one is no longer there, which raises.
unfoldable pub read_all : Manager → List String → Option (List Child)
unfolding status
read_all m [] = some []
read_all m (id ∷ ids) = do c ← status id m; cs ← read_all m ids; some (c ∷ cs)

-- The loop of `await_tasks` over the events: for each, whether some child had finished when the loop
-- asked, and whether the event was set in the time that was left. The result is `timed_out`.
unfoldable pub wait_each : Bool → List (Bool × Bool) → Bool → Bool
wait_each require_all [] timed_out = timed_out
wait_each require_all ((some_finished, in_time) ∷ rest) timed_out =
    let on = wait_each require_all rest timed_out in
    let late = wait_each require_all rest true in
    if not require_all && some_finished
    then timed_out
    else if in_time
    then on
    else if require_all
    then true
    else late

abbrev pub child_finished : Child → Bool
child_finished c = is_finished c.state

abbrev pub child_succeeded : Child → Bool
child_succeeded c = elim c.state [ succeeded ↦ true | _ ↦ false ]

unfoldable pub answer : List String → List Child → Bool → Awaited
answer unknown records timed_out =
    let completed = filter child_finished records in
    let pending = filter (λ c. not (child_finished c)) records in
    record {
      ok = is_empty unknown && (is_empty pending && all child_succeeded completed);
      completed = completed;
      pending = pending;
      unknown = unknown;
      timed_out = timed_out;
    }

-- `await_tasks`: `before` is the manager when the call starts and `later` when it reads the records.
unfoldable pub await_tasks :
    List String → Bool → List (Bool × Bool) → Manager → Manager → Option Awaited
unfolding read_all wait_each
await_tasks [] require_all waits before later = some (answer [] [] false)
await_tasks (id ∷ ids) require_all waits before later = do
  let asked : List String = id ∷ ids
  records ← read_all later (filter (is_known before) asked)
  some (
      answer (filter (λ t. not (is_known before t)) asked) records
        (wait_each require_all waits false))
