-- ===== src/Metrics/Latencies.antt =====
-- The windows of the collector over a sequence of events, against what the events themselves say.
use iddo_harness.Prelude.{
  ℕ, ◌-◌, ◌≡◌, String, ◌==◌, true, Option, none, some, List, [], ◌∷◌, ◌++◌, if◌then◌else◌,
}
use iddo_harness.Prelude.Dict.{lookup}
use iddo_harness.Metrics.{Metrics, Timer}
use iddo_harness.Metrics.Windows.{push_all}
use iddo_harness.Metrics.Totals.{Event, observed, started, completed, wiped}

-- When a task was seen first, by the events before, the newest first: when it was observed last, or
-- started without having been observed; not before its last completion or a reset.
abbrev pub observed_since : String → List Event → Option ℕ
observed_since id [] = none
observed_since id (wiped ∷ past) = none
observed_since id (observed j now ∷ past) =
    let before = observed_since id past in if j == id then some now else before
observed_since id (completed j status kind now ∷ past) =
    let before = observed_since id past in if j == id then none else before
observed_since id (started j kind now ∷ past) =
    let before = observed_since id past in
    if j == id then elim before [ none ↦ some now | some t ↦ some t ] else before
observed_since id (e ∷ past) = observed_since id past

-- When a task was started last, since it was observed or completed, or the collector reset.
abbrev pub started_since : String → List Event → Option ℕ
started_since id [] = none
started_since id (wiped ∷ past) = none
started_since id (observed j now ∷ past) =
    let before = started_since id past in if j == id then none else before
started_since id (completed j status kind now ∷ past) =
    let before = started_since id past in if j == id then none else before
started_since id (started j kind now ∷ past) =
    let before = started_since id past in if j == id then some now else before
started_since id (e ∷ past) = started_since id past

-- The time from an instant, if there is one, to now.
abbrev pub elapsed : ℕ → Option ℕ → List ℕ
elapsed now none = []
elapsed now (some since) = (now - since) ∷ []

-- How long a task waited, where the event is its start: no time if it is new.
abbrev pub waited : Event → List Event → List ℕ
waited (started id kind now) past = elim (observed_since id past) [
  | none ↦ (now - now) ∷ []
  | some since ↦ (now - since) ∷ []
]
waited e past = []

-- How long a task ran, where the event is its completion and it was started.
abbrev pub ran : Event → List Event → List ℕ
ran (completed id status kind now) past = elapsed now (started_since id past)
ran e past = []

-- All these times since the last reset, in the order of the events.
abbrev pub samples : (Event → List Event → List ℕ) → List ℕ → List Event → List Event → List ℕ
samples f times past [] = times
samples f times past (wiped ∷ es) = samples f [] (wiped ∷ past) es
samples f times past (e ∷ es) = samples f (times ++ f e past) (e ∷ past) es

abbrev timer_at : Option ℕ → Option ℕ → Option Timer
timer_at none since = none
timer_at (some t) since = some (record { observed_at = t; started_at = since })

-- What the collector holds after the events of the past.
record Holds (past : List Event) (waits runs : List ℕ) (m : Metrics) : Type 0 where
  on : m.enabled ≡ true
  timers :
      (id : String) → lookup id m.timers ≡ timer_at (observed_since id past) (started_since id past)
  -- A task that was started was seen.
  seen : (id : String) → observed_since id past ≡ none → started_since id past ≡ none
  waits_kept : m.poll_to_start ≡ push_all [] waits
  runs_kept : m.start_to_complete ≡ push_all [] runs

abbrev Kept : List Event → List ℕ → List ℕ → List Event → Metrics → Type 0
Kept past waits runs es m =
    (m.poll_to_start ≡ push_all [] (samples waited waits past es))
    × (m.start_to_complete ≡ push_all [] (samples ran runs past es))
