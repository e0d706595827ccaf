-- ===== src/Scheduler/Parsing.antt =====
-- agent/scheduler.py, `parse_schedule`. `none` is a ScheduleError, or the exception of `int()`. The
-- texts of `cron` and `at` are kept as given; the source stores them normalised.
pub mod Fresh
use iddo_harness.Prelude.{
  ℕ, zero, suc, String, ◌==◌, Bool, true, false, ◌&&◌, not, Option, none, some, List, [], ◌∷◌, leb,
  eqb, length, filter, if◌then◌else◌, nonempty, ◌>>=◌,
}
use iddo_harness.Prelude.Text.{strip}
use iddo_harness.Json.{
  Value, null, text, object, Fields, ℤ, pos, negsuc, get, or_null, truthy, Python, str,
}
use iddo_harness.Scheduler.{Schedule, compute_next_run}
use iddo_harness.Scheduler.Cron.{Calendar, validate_cron, value_of}

-- `t not in (None, "")`
abbrev is_set : Value → Bool
is_set null = false
is_set (text s) = nonempty s
is_set v = true

abbrev has_kind : Python → Option Value → Bool
has_kind py (some (object task)) =
    let kind = or_null (get "kind" task) in
    nonempty (strip (if truthy kind then str py kind else ""))
has_kind py v = false

-- `bool(payload.get("enabled", True))`
abbrev enabled_of : Option Value → Bool
enabled_of none = true
enabled_of (some v) = truthy v

abbrev at_least_one : ℤ → Option ℕ
at_least_one (pos zero) = none
at_least_one (pos (suc n)) = some (suc n)
at_least_one (negsuc n) = none

abbrev positive : ℕ → Option (Option ℕ)
positive zero = none
positive (suc n) = some (some (suc n))

abbrev some_some : ℕ → Option (Option ℕ)
some_some n = some (some n)

module _ (py : Python) (calendar : Calendar) (parse_timestamp : String → Option ℕ) where
  -- Exactly one trigger, and a task with a kind.
  well_formed : Fields → Bool
  well_formed fs =
      has_kind py (get "task" fs)
      && eqb
          (length (
            filter is_set (
              or_null (get "cron" fs)
              ∷ or_null (get "interval_seconds" fs)
              ∷ or_null (get "at" fs)
              ∷ [])))
          1

  cron_of : Value → Option (Option String)
  cron_of v = if truthy v then (do cron ← validate_cron (str py v); some (some cron)) else some none

  interval_of : Value → Option (Option ℕ)
  interval_of v = if is_set v then py.to_float v >>= positive else some none

  at_of : Value → Option (Option String)
  at_of v =
      if truthy v then (do t ← parse_timestamp (str py v); some (some (str py v))) else some none

  max_runs_of : Value → Option (Option ℕ)
  max_runs_of null = some none
  max_runs_of v = do i ← py.to_int v; n ← at_least_one i; some_some n

  new_id : String → Value → String
  new_id fresh v = if truthy v then str py v else fresh

  -- The schedule before its first run is computed.
  unscheduled : String → Fields → Option String → Option ℕ → Option String → Option ℕ → Schedule
  unfolding new_id
  unscheduled fresh fs cron interval at_ max_runs = record {
    id = new_id fresh (or_null (get "id" fs));
    cron = cron;
    interval_seconds = interval;
    at = at_;
    enabled = enabled_of (get "enabled" fs);
    max_runs = max_runs;
    run_count = 0;
    last_run_at = none;
    next_run_at = none;
    last_error = "";
  }

  first_run : ℕ → Schedule → Option Schedule
  first_run now s = do
    next_run ← value_of (compute_next_run calendar parse_timestamp s now)
    some (record s { next_run_at = some next_run })

  from_fields : String → ℕ → Fields → Option Schedule
  unfolding cron_of interval_of at_of max_runs_of unscheduled first_run
  from_fields fresh now fs = do
    cron ← cron_of (or_null (get "cron" fs))
    interval ← interval_of (or_null (get "interval_seconds" fs))
    at_ ← at_of (or_null (get "at" fs))
    max_runs ← max_runs_of (or_null (get "max_runs" fs))
    first_run now (unscheduled fresh fs cron interval at_ max_runs)

  -- `fresh` is the id that the source makes from a new UUID.
  unfoldable pub parse_schedule : String → ℕ → Value → Option Schedule
  unfolding well_formed from_fields
  parse_schedule fresh now (object fs) = if well_formed fs then from_fields fresh now fs else none
  parse_schedule fresh now v = none
