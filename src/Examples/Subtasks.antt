-- ===== src/Examples/Subtasks.antt =====
-- One child of agent/subtasks.py: started, cancelled, spawned again, awaited.
use iddo_harness.Prelude.{
  ℕ, ◌≤◌, String, ◌⊎◌, ◌≡◌, refl, true, false, none, some, List, [], ◌∷◌, length, arith,
}
use iddo_harness.Prelude.Dict.{lookup}
use iddo_harness.Subtasks.{
  Refusal, SubTask, Child, State, queued, succeeded, Job, Manager, started, refused, too_deep,
  in_flight, active_count, is_active, new_child, spawn, spawn_many, begin, cancel, status, Awaited,
  answer, read_all, wait_each, await_tasks,
}
use iddo_harness.Prelude.Result.{ok, err}
use iddo_harness.Subtasks.Spawn.{IsValid, spawn_many-IsBounded, IsBounded}
use iddo_harness.Subtasks.Cancel.{Op, spawned, begun, apply_all, begin-after_respawn}

abbrev child : String → ℕ → SubTask
child id depth = record { id = id; kind = "shell"; parent_id = none; depth = depth }

abbrev record_of : String → State → Child
record_of id state = record {
  id = id;
  kind = "shell";
  parent_id = none;
  depth = 1;
  state = state;
  created_at = 5;
  started_at = none;
  finished_at = none;
}

abbrev job : Job
job = record { task = child "a" 1; ref = 0 }

abbrev holding : State → Manager
holding state = record {
  max_active = 2;
  max_depth = 3;
  store = record_of "a" state ∷ [];
  records = ("a", 0) ∷ [];
  events = ("a", false) ∷ [];
  cancelled = [];
  jobs = job ∷ [];
}

holding-IsValid : IsValid (holding queued)
holding-IsValid = record { stored = (omega arith, tt) }

too_deep_child : (spawn (child "b" 4) 6 (holding queued)).0 ≡ refused too_deep
unfolding spawn
too_deep_child = refl

second_child : (spawn (child "b" 1) 6 (holding queued)).0 ≡ started (new_child (child "b" 1) 6)
unfolding spawn in_flight active_count is_active lookup
second_child = refl

abbrev children : List SubTask
children = child "b" 1 ∷ child "c" 1 ∷ []

one_active : active_count (holding queued) ≤ 2
unfolding active_count is_active
one_active = omega arith

spawn_many-IsBounded_example :
    IsBounded (spawn_many (λ n m. m) (λ n. 6) children (holding queued)).1
    × (((why : Refusal) × ((spawn_many (λ n m. m) (λ n. 6) children (holding queued)).0 ≡ err why))
        ⊎ ((cs : List Child) × ((spawn_many (λ n m. m) (λ n. 6) children (holding queued)).0
              ≡ ok cs)
            × (length cs ≡ 2)))
spawn_many-IsBounded_example =
    spawn_many-IsBounded (λ n m. m) (λ n. 6) children (holding queued) (λ n m h. h)
      (holding-IsValid, one_active)

queued_is_cancelled : (cancel "a" 7 (holding queued)).0 ≡ true
unfolding cancel lookup
queued_is_cancelled = refl

abbrev meanwhile : List Op
meanwhile = spawned (child "a" 1) 8 ∷ begun job 8 ∷ []

begin-after_respawn_example :
    (begin job 9 (apply_all meanwhile (cancel "a" 7 (holding queued)).1)).0 ≡ false
begin-after_respawn_example = begin-after_respawn job meanwhile 7 9 (holding queued)

abbrev asked : List String
asked = "a" ∷ "z" ∷ []

abbrev found : Awaited
found = answer ("z" ∷ []) (record_of "a" succeeded ∷ []) false

awaited :
    await_tasks asked true ((false, true) ∷ []) (holding queued) (holding succeeded) ≡ some found
unfolding await_tasks read_all wait_each status lookup
awaited = refl
