-- ===== src/Scheduler.antt =====
-- agent/scheduler.py: cron expressions in Cron, and here the schedules and their registry. Instants
-- are whole seconds. Schedules are shared objects in the source; here the registry holds the only
-- copy, so a `dispatch` that changes the registry is outside the model. Saving is left out.
pub mod Cron
pub mod Firing
pub mod Parsing
use iddo_harness.Prelude.{
  ℕ, ◌+◌, String, ◌==◌, Bool, true, false, ◌&&◌, ◌||◌, not, Option, none, some, List, [], ◌∷◌, leb,
  eqb, length, filter, if◌then◌else◌, nonempty, is_some, is_none,
}
use iddo_harness.Prelude.Dict
use iddo_harness.Prelude.Dict.{Dict, lookup, put, values}
use iddo_harness.Prelude.Sorting.{sorted}
use iddo_harness.Prelude.Result.{Result, ok, err}
use Cron.{Calendar, next_cron_time, Failure, schedule_error, other_error, or_raise}

-- The fields of `Schedule` that decide when it fires; `at` is the text of a timestamp.
pub record Schedule : Type 0 where
  pub id : String
  pub cron : Option String
  pub interval_seconds : Option ℕ
  pub at : Option String
  pub enabled : Bool
  pub max_runs : Option ℕ
  pub run_count : ℕ
  pub last_run_at : Option ℕ
  pub next_run_at : Option ℕ
  pub last_error : String

abbrev pub reached : ℕ → Option ℕ → Bool
reached count none = false
reached count (some limit) = leb limit count

-- `Schedule.exhausted`
unfoldable pub exhausted : Schedule → Bool
exhausted s = if is_some s.at && leb 1 s.run_count then true else reached s.run_count s.max_runs

abbrev pub given : Option String → Bool
given none = false
given (some text) = nonempty text

abbrev pub text_of : Option String → String
text_of none = ""
text_of (some text) = text

abbrev pub seconds_of : Option ℕ → ℕ
seconds_of none = 0
seconds_of (some n) = n

-- `s.enabled and not s.exhausted and s.next_run_at is not None and s.next_run_at <= moment`
abbrev pub is_due : ℕ → Schedule → Bool
is_due now s = s.enabled && (not (exhausted s) && reached now s.next_run_at)

-- The order of `due`: by the next run, 0 if there is none.
abbrev pub sooner : Schedule → Schedule → Bool
sooner a b = leb (seconds_of a.next_run_at) (seconds_of b.next_run_at)

unfoldable pub due : ℕ → Dict Schedule → List Schedule
unfolding exhausted
due now registry = sorted sooner (filter (is_due now) (values registry))

unfoldable pub add : Schedule → Dict Schedule → Option (Dict Schedule)
add s registry =
    if not (is_some (lookup s.id registry)) && leb 200 (length registry)
    then none
    else some (put s.id s registry)

unfoldable pub remove : String → Dict Schedule → Bool × Dict Schedule
remove schedule_id registry =
    (is_some (lookup schedule_id registry), Dict.remove schedule_id registry)

-- `parse_timestamp` of the text of `at`: `none` where it raises.
module _ (calendar : Calendar) (parse_timestamp : String → Option ℕ) where
  unfoldable pub compute_next_run : Schedule → ℕ → Result Failure ℕ
  compute_next_run s moment =
      if given s.cron
      then next_cron_time calendar (text_of s.cron) moment
      else if not (eqb (seconds_of s.interval_seconds) 0)
      then ok (moment + seconds_of s.interval_seconds)
      else if given s.at
      then or_raise schedule_error (parse_timestamp (text_of s.at))
      else err schedule_error

  -- Where `compute_next_run` raises a ScheduleError, the source stores its message as the error. An
  -- exception of another class leaves `mark_fired`; then the answer is false, and what was changed of
  -- the schedule before stays changed.
  unfoldable pub mark_fired : ℕ → String → Schedule → Bool × Schedule
  unfolding compute_next_run exhausted
  mark_fired now error s =
      let ran : Schedule = record s {
        run_count = s.run_count + 1;
        last_run_at = some now;
        last_error = error;
      } in
      if exhausted ran
      then (true, record ran { next_run_at = none; enabled = false })
      else elim (compute_next_run ran now) [
        | ok next_run ↦ (true, record ran { next_run_at = some next_run })
        | err schedule_error ↦ (
          true,
          record ran { next_run_at = none; enabled = false; last_error = "schedule error" },
        )
        | err other_error ↦ (false, ran)
      ]

  -- `none` in the answer where there is no such schedule, or where `compute_next_run` raises.
  unfoldable pub set_enabled : String → Bool → ℕ → Dict Schedule → Option (Dict Schedule)
  set_enabled schedule_id enabled now registry = elim (lookup schedule_id registry) [
    | none ↦ none
    | some s ↦
        let s' : Schedule = record s { enabled = enabled } in
        if enabled && is_none s.next_run_at
        then elim (compute_next_run s' now) [
          | err failure ↦ none
          | ok next_run ↦
              some (put schedule_id (record s' { next_run_at = some next_run }) registry)
        ]
        else some (put schedule_id s' registry)
  ]

  -- The loop of `run_due`: `dispatch` tells the error that a schedule's dispatch raises, "" for none.
  -- The answer is false where an exception leaves `mark_fired`, which ends the loop.
  unfoldable pub fire_each :
      (Schedule → String) → ℕ → List Schedule → Dict Schedule → Bool × Dict Schedule
  unfolding mark_fired
  fire_each dispatch now [] registry = (true, registry)
  fire_each dispatch now (s ∷ rest) registry =
      let (ended, fired) = mark_fired now (dispatch s) s in
      let after = put s.id fired registry in
      let others = fire_each dispatch now rest after in if ended then others else (false, after)

  -- The schedules that `run_due` returns, if it does not raise.
  unfoldable pub run_due :
      (Schedule → String) → ℕ → Dict Schedule → Option (List Schedule) × Dict Schedule
  unfolding fire_each due
  run_due dispatch now registry =
      let ready = due now registry in
      let (ended, after) = fire_each dispatch now ready registry in
      (if ended then some ready else none, after)
