-- ===== src/Examples/Scheduler.antt =====
-- A schedule of agent/scheduler.py that fires every half hour, in a calendar with days of one hour.
use iddo_harness.Prelude.{
  ℕ, ◌+◌, ◌*◌, ◌/◌, ◌%◌, ◌≤◌, ◌<◌, ◌≡◌, refl, true, false, none, some, [], ◌∷◌, All,
}
use iddo_harness.Prelude.Text.{strip, lower, is_space}
use iddo_harness.Prelude.Commas.{split}
use iddo_harness.Prelude.Dict.{Dict}
use iddo_harness.Scheduler.Cron.{
  Calendar, next_minute, next_cron_time, cron_matches, all_digits, number_from, range,
}
use iddo_harness.Scheduler.{Schedule, is_due, mark_fired}
use iddo_harness.Json.{Value, object, text, number, pos, field, end, get, truthy, str}
use iddo_harness.Scheduler.{compute_next_run, exhausted}
use iddo_harness.Prelude.Result.{ok}
use iddo_harness.Scheduler.Parsing.{parse_schedule}
use iddo_harness.Examples.Queue.{python}
use iddo_harness.Scheduler.Firing.{minutes_from, next_cron_time-first, mark_fired-not_due}

abbrev calendar : Calendar
calendar = record {
  minute = λ t. (t / 60) % 60;
  hour = λ t. 0;
  day = λ t. 1;
  month = λ t. 1;
  weekday = λ t. 3;
  croniter = none;
}

half_hour : next_cron_time calendar "*/30 * * * *" 1700 ≡ ok 1800
unfolding next_cron_time is_space split lower strip all_digits number_from range
half_hour = refl

next_cron_time-first_example :
    (1700 < 1800)
    × (cron_matches calendar "*/30 * * * *" 1800 ≡ ok true)
    × ((k : ℕ) × (k ≤ 2108160)
        × (1800 ≡ next_minute 1700 + 60 * k)
        × All
            (λ m. cron_matches calendar "*/30 * * * *" m ≡ ok false)
            (minutes_from (next_minute 1700) k))
next_cron_time-first_example = next_cron_time-first calendar "*/30 * * * *" 1700 1800 refl half_hour

abbrev half_hourly : Schedule
half_hourly = record {
  id = "a";
  cron = some "*/30 * * * *";
  interval_seconds = none;
  at = none;
  enabled = true;
  max_runs = some 5;
  run_count = 0;
  last_run_at = none;
  next_run_at = some 1800;
  last_error = "";
}

abbrev registry : Dict Schedule
registry = ("a", half_hourly) ∷ []

ends : (mark_fired calendar (λ s. none) 1810 "" half_hourly).0 ≡ true
unfolding mark_fired compute_next_run exhausted next_cron_time is_space split lower strip all_digits
    number_from range
ends = refl

mark_fired-not_due_example :
    is_due 1810 (mark_fired calendar (λ s. none) 1810 "" half_hourly).1 ≡ false
mark_fired-not_due_example =
    mark_fired-not_due calendar (λ s. none) 1810 "" half_hourly (λ next h. cc) ends

-- An error of croniter leaves mark_fired, and the schedule stays due.
abbrev failing : Calendar
failing = record calendar { croniter = some (λ expression after. none) }

stays_due :
    let (ended, s) = mark_fired failing (λ s. none) 1810 "" half_hourly in
    (ended ≡ false) × (is_due 1810 s ≡ true)
unfolding mark_fired compute_next_run exhausted next_cron_time
stays_due = (refl, refl)

abbrev payload : Value
payload = object (
    field "task" (object (field "kind" (text "shell") end))
      (field "interval_seconds" (number (pos 5)) end))

abbrev every_five : Schedule
every_five = record {
  id = "sched-1";
  cron = none;
  interval_seconds = some 5;
  at = none;
  enabled = true;
  max_runs = none;
  run_count = 0;
  last_run_at = none;
  next_run_at = some 1705;
  last_error = "";
}

parsed : parse_schedule python calendar (λ s. none) "sched-1" 1700 payload ≡ some every_five
unfolding parse_schedule compute_next_run get truthy str strip is_space
parsed = refl
