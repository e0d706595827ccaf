-- ===== src/Scheduler/Parsing/Fresh.antt =====
-- What a schedule is like when it has just been parsed.
use iddo_harness.Prelude.{
  ℕ, zero, suc, String, ◌≡◌, refl, true, false, Option, none, some, arith, is_some, ◌>>=◌,
  Bool-cases, Option-cases, inl, inr,
}
use iddo_harness.Json.{
  Value, null, boolean, number, text, array, object, Fields, get, or_null, Python, ℤ, pos, negsuc,
}
use iddo_harness.Scheduler.{Schedule, exhausted, compute_next_run, reached}
use iddo_harness.Scheduler.Cron.{Calendar, value_of}
use iddo_harness.Scheduler.Parsing.{
  parse_schedule, well_formed, from_fields, cron_of, interval_of, at_of, max_runs_of, unscheduled,
  first_run, at_least_one, some_some,
}

-- A schedule that has not run is not exhausted, if the number of its runs is unlimited or positive.
fresh_schedule :
    (x s : Schedule)
    → some x ≡ some s
    → x.run_count ≡ 0
    → reached 0 x.max_runs ≡ false
    → is_some x.next_run_at ≡ true
    → (exhausted s ≡ false) × (is_some s.next_run_at ≡ true)
unfolding exhausted
fresh_schedule x s h zero_ runs next_run =
    let same : x ≡ s = cc in rw (← same) (ground arith, next_run)

module _ (py : Python) (calendar : Calendar) (parse_timestamp : String → Option ℕ) where
  limit_positive :
      (i : Option ℤ) (r : Option ℕ)
      → (do j ← i; n ← at_least_one j; some_some n) ≡ some r
      → reached 0 r ≡ false
  limit_positive none r h = cc
  limit_positive (some (pos zero)) r h = cc
  limit_positive (some (pos (suc n))) none h = cc
  limit_positive (some (pos (suc n))) (some k) h =
      let same : suc n ≡ k = cc in rw (← same) (ground arith)
  limit_positive (some (negsuc n)) r h = cc

  max_runs_of-reached :
      (v : Value) (r : Option ℕ)
      → max_runs_of py calendar parse_timestamp v ≡ some r
      → reached 0 r ≡ false
  unfolding max_runs_of
  max_runs_of-reached null none h = refl
  max_runs_of-reached null (some n) h = cc
  max_runs_of-reached (boolean b) r h = limit_positive (py.to_int (boolean b)) r h
  max_runs_of-reached (number n) r h = limit_positive (py.to_int (number n)) r h
  max_runs_of-reached (text s) r h = limit_positive (py.to_int (text s)) r h
  max_runs_of-reached (array vs) r h = limit_positive (py.to_int (array vs)) r h
  max_runs_of-reached (object fs) r h = limit_positive (py.to_int (object fs)) r h

  first_run-fresh :
      (now : ℕ) (x s : Schedule)
      → first_run py calendar parse_timestamp now x ≡ some s
      → x.run_count ≡ 0
      → reached 0 x.max_runs ≡ false
      → (exhausted s ≡ false) × (is_some s.next_run_at ≡ true)
  unfolding first_run
  first_run-fresh now x s h zero_ runs =
      elim (Option-cases (value_of (compute_next_run calendar parse_timestamp x now))) [
        | inl never ↦ cc (rw (never, first_run) at h)
        | inr (t, found) ↦
            fresh_schedule (record x { next_run_at = some t }) s (rw (found, first_run) at h) zero_
              runs refl
      ]

  from_fields-fresh :
      (fresh : String) (now : ℕ) (fs : Fields) (s : Schedule)
      → from_fields py calendar parse_timestamp fresh now fs ≡ some s
      → (exhausted s ≡ false) × (is_some s.next_run_at ≡ true)
  unfolding from_fields unscheduled
  from_fields-fresh fresh now fs s h =
      elim (Option-cases (cron_of py calendar parse_timestamp (or_null (get "cron" fs)))) [
        | inl bad ↦ cc (rw (bad, from_fields) at h)
        | inr (cron, e) ↦
            elim (Option-cases
              (interval_of py calendar parse_timestamp (or_null (get "interval_seconds" fs)))) [
                | inl bad ↦ cc (rw (e, bad, from_fields) at h)
                | inr (interval, f) ↦
                    elim (Option-cases
                      (at_of py calendar parse_timestamp (or_null (get "at" fs)))) [
                        | inl bad ↦ cc (rw (e, f, bad, from_fields) at h)
                        | inr (at_, g) ↦
                            elim (Option-cases (
                              max_runs_of py calendar parse_timestamp
                                (or_null (get "max_runs" fs)))) [
                                  | inl bad ↦ cc (rw (e, f, g, bad, from_fields) at h)
                                  | inr (runs, good) ↦
                                      first_run-fresh now
                                        (unscheduled py calendar parse_timestamp fresh fs cron
                                          interval at_ runs)
                                        s (rw (e, f, g, good, from_fields) at h) refl
                                        (max_runs_of-reached _ runs good)
                                ]
                      ]
              ]
      ]

  -- A schedule that `parse_schedule` returns has a next run and is not exhausted: it can fire.
  pub parse_schedule-fresh :
      (fresh : String) (now : ℕ) (payload : Value) (s : Schedule)
      → parse_schedule py calendar parse_timestamp fresh now payload ≡ some s
      → (exhausted s ≡ false) × (is_some s.next_run_at ≡ true)
  unfolding parse_schedule
  parse_schedule-fresh fresh now (object fs) s h =
      elim (Bool-cases (well_formed py calendar parse_timestamp fs)) [
        | inl good ↦ from_fields-fresh fresh now fs s (rw good at h)
        | inr bad ↦ cc (rw bad at h)
      ]
  parse_schedule-fresh fresh now null s h = cc
  parse_schedule-fresh fresh now (boolean b) s h = cc
  parse_schedule-fresh fresh now (number n) s h = cc
  parse_schedule-fresh fresh now (text t) s h = cc
  parse_schedule-fresh fresh now (array vs) s h = cc
