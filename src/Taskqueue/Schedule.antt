-- ===== src/Taskqueue/Schedule.antt =====
-- agent/taskqueue.py, the scheduling metadata of a task: `normalise_priority`, `parse_timestamp`,
-- `RetryPolicy.delay_before`, `_as_id_list` and `parse_schedule`. Instants and delays are natural
-- numbers of one small unit. Log lines are left out.
use iddo_harness.Prelude.{
  ℕ, ◌-◌, String, ◌||◌, Option, none, some, List, [], ◌∷◌, ◌==◌, leb, length, get_or, min, max,
  if◌then◌else◌, map, filter, ◌>>=◌,
}
use iddo_harness.Prelude.Text.{strip, lower, ends_with_z, drop_last, nonempty}
use iddo_harness.Json.{
  Value, null, text, array, object, Fields, end, ℤ, pos, negsuc, get, or_null, truthy, Python, str,
  Moment, aware, naive, to_list,
}
use Prim.Native.String.{◌++◌ as append}

pub data Priority : Type 0 where
  high normal low : Priority

-- PRIORITY_RANK
unfoldable pub rank : Priority → ℕ
rank high = 0
rank normal = 1
rank low = 2

pub record RetryPolicy : Type 0 where
  pub max_attempts : ℕ
  pub backoff_seconds : List ℕ

-- Python's `backoff[index]` for an index in range; the result is 0 for an empty list.
unfoldable pub delay_before : RetryPolicy → ℕ → ℕ
delay_before policy attempt =
    if leb attempt 1 || leb (length policy.backoff_seconds) 0
    then 0
    else get_or policy.backoff_seconds (min (attempt - 2) (length policy.backoff_seconds - 1)) 0

pub record Schedule : Type 0 where
  pub priority : Priority
  pub not_before : Option ℕ
  pub deadline : Option ℕ
  pub depends_on : List String
  pub retry : RetryPolicy

-- A task as the poller builds it; the fields that scheduling does not read are left out.
pub record Task : Type 0 where
  pub id : String
  pub kind : String
  pub payload : Fields
  pub priority : Option String

-- The arguments that the queue and the runner pass on.
pub record Defaults : Type 0 where
  pub max_attempts : ℕ
  pub backoff_seconds : List ℕ

abbrev in_utc : Moment → ℕ
in_utc (aware instant) = instant
in_utc (naive wall) = wall

abbrev or_empty : Option String → Value
or_empty none = null
or_empty (some s) = text s

-- `a or b`
abbrev or_else : Value → Value → Value
or_else a b = if truthy a then a else b

abbrev object_fields : Option Value → Fields
object_fields (some (object fs)) = fs
object_fields v = end

-- max(1, n)
abbrev at_least_one : ℤ → ℕ
at_least_one (pos n) = max 1 n
at_least_one (negsuc n) = 1

-- `[f(x) for x in xs]` for an `f` that may raise.
traverse : {A : Type 0} → (Value → Option A) → List Value → Option (List A)
traverse f [] = some []
traverse f (x ∷ xs) = do y ← f x; ys ← traverse f xs; some (y ∷ ys)

module _ (py : Python) where
  from_text : String → Option ℕ
  from_text raw =
      let s = strip raw in
      let iso = if ends_with_z s then append (drop_last s) "+00:00" else s in
      elim (py.from_iso_format iso) [ none ↦ none | some parsed ↦ some (in_utc parsed) ]

  unfoldable pub parse_timestamp : Value → Option ℕ
  unfolding from_text
  parse_timestamp null = none
  parse_timestamp (text s) = if s == "" then none else from_text s
  parse_timestamp raw = from_text (py.repr raw)

  unfoldable pub normalise_priority : Value → Priority
  normalise_priority raw =
      let s = lower (strip (if truthy raw then str py raw else "")) in
      if s == "high"
      then high
      else if s == "normal"
      then normal
      else if s == "low"
      then low
      else if (s == "urgent") || (s == "critical") || (s == "p0")
      then high
      else if (s == "background") || (s == "batch") || (s == "p3")
      then low
      else normal

  unfoldable pub as_id_list : Value → List String
  as_id_list null = []
  as_id_list (text s) = if nonempty (strip s) then s ∷ [] else []
  as_id_list (array items) = filter nonempty (map (λ item. strip (str py item)) (to_list items))
  as_id_list raw = []

  -- `pick` of `parse_schedule`
  pick : Fields → Fields → String → Value
  pick payload nested key = elim (get key payload) [ none ↦ or_null (get key nested) | some v ↦ v ]

  backoff : Defaults → Fields → Option (List ℕ)
  unfolding traverse
  backoff defaults retry = elim (get "backoff_seconds" retry) [
    | none ↦ some defaults.backoff_seconds
    | some v ↦ elim v [
      | array items ↦ traverse py.to_float (to_list items)
      | _ ↦ some defaults.backoff_seconds
    ]
  ]

  attempts : Defaults → Fields → ℕ
  attempts defaults retry = elim (get "max_attempts" retry) [
    | none ↦ max 1 defaults.max_attempts
    | some v ↦ elim (py.to_int v) [ none ↦ max 1 defaults.max_attempts | some n ↦ at_least_one n ]
  ]

  -- `none` where `float()` raises on an entry of `backoff_seconds`; that exception is not caught.
  unfoldable pub parse_schedule : Defaults → Task → Option Schedule
  unfolding pick backoff attempts
  parse_schedule defaults task = do
    let nested = object_fields (get "schedule" task.payload)
    let retry = object_fields (some (pick task.payload nested "retry"))
    delays ← backoff defaults retry
    some (record {
      priority =
          normalise_priority
            (or_else (or_empty task.priority) (pick task.payload nested "priority"));
      not_before = parse_timestamp (pick task.payload nested "not_before");
      deadline = parse_timestamp (pick task.payload nested "deadline");
      depends_on = as_id_list (pick task.payload nested "depends_on");
      retry = record { max_attempts = attempts defaults retry; backoff_seconds = delays };
    })
