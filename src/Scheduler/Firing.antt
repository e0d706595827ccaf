-- ===== src/Scheduler/Firing.antt =====
-- When schedules fire: the search for the next minute, and the bookkeeping after a run.
use iddo_harness.Prelude.{
  ℕ, zero, suc, ◌⊎◌, ◌+◌, ◌*◌, ◌≤◌, ◌<◌, String, ◌≡◌, refl, ◌∙◌, eq_refl, Bool, true, false, ◌&&◌,
  not, Option, none, some, List, [], ◌∷◌, arith, All, length, filter, Option-cases, Bool-cases, inl,
  inr, if◌then◌else◌, is_some, leb, eqb,
}
use iddo_harness.Prelude.Dict.{Dict, lookup, put, values, lookup-put}
use iddo_harness.Prelude.Sorting.{IsSorted, All-sorted, sorted-IsSorted}
use iddo_harness.Prelude.Result.{Result, ok, Result-cases}
use iddo_harness.Scheduler.Cron.{
  Failure, schedule_error, other_error, Calendar, search, next_minute, next_cron_time, cron_matches,
}
use iddo_harness.Scheduler.{
  Schedule, exhausted, given, text_of, seconds_of, is_due, sooner, due, add, compute_next_run,
  mark_fired,
}

-- n minutes, one after the other
abbrev pub minutes_from : ℕ → ℕ → List ℕ
minutes_from start zero = []
minutes_from start (suc n) = start ∷ minutes_from (start + 60) n

search-found :
    (matches : ℕ → Result Failure Bool) (left moment t : ℕ)
    → search matches left moment ≡ ok t
    → (k : ℕ) × (k < left)
      × (t ≡ moment + 60 * k)
      × (matches t ≡ ok true)
      × All (λ m. matches m ≡ ok false) (minutes_from moment k)
unfolding search
search-found matches zero moment t h = cc
search-found matches (suc left) moment t h = elim (Result-cases (matches moment)) [
  | inr (failure, bad) ↦ cc (rw (bad, search) at h)
  | inl (true, hit) ↦
      let e : ◌≡◌ {A = Result Failure ℕ} (ok moment) (ok t) = rw (hit, search) at h in
      let same : moment ≡ t = cc in (0, omega arith, omega arith, rw (← same) hit, tt)
  | inl (false, miss) ↦
      let (k, less, at_, here, before) =
        search-found matches left (moment + 60) t (rw (miss, search) at h) in
      (suc k, omega arith, omega arith, here, (miss, before))
]

-- Without croniter, the time that `next_cron_time` finds matches the expression, is later than the
-- given instant, and is a whole number of minutes after the first whole minute that follows it; and
-- none of the minutes in between matches. It lies within the search limit.
pub next_cron_time-first :
    (calendar : Calendar) (expression : String) (after t : ℕ)
    → calendar.croniter ≡ none
    → next_cron_time calendar expression after ≡ ok t
    → (after < t)
      × (cron_matches calendar expression t ≡ ok true)
      × ((k : ℕ) × (k ≤ 2108160)
          × (t ≡ next_minute after + 60 * k)
          × All
              (λ m. cron_matches calendar expression m ≡ ok false)
              (minutes_from (next_minute after) k))
unfolding next_cron_time
next_cron_time-first calendar expression after t built_in h =
    let (k, less, at_, here, before) =
      search-found (cron_matches calendar expression) 2108161 (next_minute after) t
        (rw (built_in, next_cron_time) at h) in
    (omega arith, here, (k, omega arith, at_, before))

-- The next time that croniter tells is later than the given instant.
abbrev pub IsLater : Calendar → Type 0
IsLater calendar =
    (next : String → ℕ → Option ℕ)
    → calendar.croniter ≡ some next
    → (expression : String) (after t : ℕ) → next expression after ≡ some t
    → after < t

next_cron_time-later :
    (calendar : Calendar) (expression : String) (after t : ℕ)
    → IsLater calendar
    → next_cron_time calendar expression after ≡ ok t
    → after < t
unfolding next_cron_time
next_cron_time-later calendar expression after t later h = elim (Option-cases calendar.croniter) [
  | inl built_in ↦ (next_cron_time-first calendar expression after t built_in h).0
  | inr (next, there) ↦ elim (Option-cases (next expression after)) [
    | inl bad ↦ cc (rw (there, bad, next_cron_time) at h)
    | inr (u, found) ↦
        let e : ◌≡◌ {A = Result Failure ℕ} (ok u) (ok t) = rw (there, found, next_cron_time) at h in
        let same : u ≡ t = cc in rw (← same) (later next there expression after u found)
  ]
]

module _ (calendar : Calendar) (parse_timestamp : String → Option ℕ) where
  -- A schedule with no `at` runs next after the given instant.
  compute_next_run-later :
      (s : Schedule) (now t : ℕ)
      → IsLater calendar
      → s.at ≡ none
      → compute_next_run calendar parse_timestamp s now ≡ ok t
      → now < t
  unfolding compute_next_run
  compute_next_run-later s now t later once h = elim (Bool-cases (given s.cron)) [
    | inl cron ↦ next_cron_time-later calendar (text_of s.cron) now t later (rw cron at h)
    | inr other ↦ elim (Bool-cases (eqb (seconds_of s.interval_seconds) 0)) [
      | inl never ↦ cc (rw (other, never, once) at h)
      | inr every ↦
          let k : ◌≡◌ {A = Result Failure ℕ} (ok (now + seconds_of s.interval_seconds)) (ok t) =
            rw (other, every) at h in
          let same : now + seconds_of s.interval_seconds ≡ t = cc in rw (← same) (ground arith)
    ]
  ]

abbrev ran : ℕ → String → Schedule → Schedule
ran now error s = record s {
  run_count = s.run_count + 1;
  last_run_at = some now;
  last_error = error;
}

-- After a run, a schedule that is not exhausted has no `at`.
ran-recurs :
    (now : ℕ) (error : String) (s : Schedule) → exhausted (ran now error s) ≡ false → s.at ≡ none
unfolding exhausted
ran-recurs now error s h = elim (Option-cases s.at) [
  | inl once ↦ once
  | inr (text, there) ↦
      let run : leb 1 (s.run_count + 1) ≡ true = ground arith in cc (rw (there, run) at h)
]

-- A schedule for which `mark_fired` ends is not due again at that instant, whichever trigger it has,
-- and whether the run failed or not, if the next time that croniter tells is later than the instant.
pub mark_fired-not_due :
    (calendar : Calendar) (parse_timestamp : String → Option ℕ) (now : ℕ) (error : String)
    (s : Schedule)
    → IsLater calendar
    → (mark_fired calendar parse_timestamp now error s).0 ≡ true
    → is_due now (mark_fired calendar parse_timestamp now error s).1 ≡ false
unfolding mark_fired
mark_fired-not_due calendar parse_timestamp now error s later ended =
    elim (Bool-cases (exhausted (ran now error s))) [
      | inl over ↦ rw (over, mark_fired)
      | inr more ↦
          elim (Result-cases (compute_next_run calendar parse_timestamp (ran now error s) now)) [
            | inr (schedule_error, broken) ↦ rw (more, broken, mark_fired)
            | inr (other_error, broken) ↦ cc (rw (more, broken, mark_fired) at ended)
            | inl (t, found) ↦
                let after : now < t =
                  compute_next_run-later calendar parse_timestamp (ran now error s) now t later
                    (ran-recurs now error s more) found in
                rw (more, found, mark_fired) (ground arith)
          ]
    ]

filter-holds : (p : Schedule → Bool) (xs : List Schedule) → All (λ s. p s ≡ true) (filter p xs)
filter-holds p [] = tt
filter-holds p (x ∷ xs) = elim (Bool-cases (p x)) [
  | inl in_ ↦ rw in_ (in_, filter-holds p xs)
  | inr out ↦ rw out (filter-holds p xs)
]

sooner_total : (a b : Schedule) → sooner a b ≡ false → sooner b a ≡ true
sooner_total a b h = ground arith

sooner_trans : (a b c : Schedule) → sooner a b ≡ true → sooner b c ≡ true → sooner a c ≡ true
sooner_trans a b c h k = ground arith

-- Every schedule that `due` returns is enabled, not exhausted, and its next run has come; and they
-- stand in the order of their next runs.
pub due-IsSorted :
    (now : ℕ) (registry : Dict Schedule)
    → All (λ s. is_due now s ≡ true) (due now registry) × IsSorted sooner (due now registry)
unfolding due
due-IsSorted now registry = (
  All-sorted sooner (λ s. is_due now s ≡ true) _ (filter-holds (is_due now) (values registry)),
  sorted-IsSorted sooner sooner_total sooner_trans (filter (is_due now) (values registry)),
)

length-put :
    (k : String) (v : Schedule) (m : Dict Schedule)
    → length (put k v m) ≡ (if is_some (lookup k m) then length m else suc (length m))
unfolding put lookup
length-put k v [] = refl
length-put k v ((j, w) ∷ m) = ground (arith, length-put k v m)

-- `add` never makes more than 200 schedules of at most 200, and the schedule that it was given is
-- registered under its id; it refuses only a new id when 200 are there.
pub add-bounded :
    (s : Schedule) (registry : Dict Schedule)
    → length registry ≤ 200
    → ((reg : Dict Schedule) × (add s registry ≡ some reg)
        × (length reg ≤ 200)
        × (lookup s.id reg ≡ some s))
      ⊎ ((add s registry ≡ none) × (lookup s.id registry ≡ none) × (length registry ≡ 200))
unfolding add
add-bounded s registry h =
    elim (Bool-cases (not (is_some (lookup s.id registry)) && leb 200 (length registry))) [
      | inl full ↦ rw full (inr (refl, ground arith, ground arith))
      | inr room ↦ rw room (
          inl (
            put s.id s registry,
            refl,
            ground (arith, length-put s.id s registry),
            lookup-put s.id s.id s registry ∙ rw (eq_refl s.id),
          ))
    ]
