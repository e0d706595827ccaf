-- ===== src/Scheduler/Cron.antt =====
-- agent/scheduler.py: the built-in cron parser and next_cron_time. In the parser `none` is a
-- ScheduleError. Digits are the ASCII ones.
use Prim.Native.Char.{code}
use iddo_harness.Prelude.{
  ℕ, zero, suc, ◌+◌, ◌-◌, ◌*◌, ◌/◌, ◌%◌, String, ◌==◌, Bool, true, false, ◌&&◌, ◌||◌, not, Option,
  none, some, List, [], ◌∷◌, ◌++◌, leb, eqb, any, filter, if◌then◌else◌, nonempty, is_empty,
  is_some, ◌>>=◌,
}
use iddo_harness.Prelude.Text.{strip, lower, is_space}
use iddo_harness.Prelude.Commas.{split, join}
use iddo_harness.Prelude.Result.{Result, ok, err}
use iddo_harness.Prelude.Dict.{Dict, lookup}

-- The fields of an instant in UTC as Python's datetime tells them; Monday is weekday 0. And, where the
-- optional package croniter is installed, its next time of an expression after an instant, `none` where
-- it raises.
pub record Calendar : Type 0 where
  pub minute : ℕ → ℕ
  pub hour : ℕ → ℕ
  pub day : ℕ → ℕ
  pub month : ℕ → ℕ
  pub weekday : ℕ → ℕ
  pub croniter : Option (String → ℕ → Option ℕ)

-- A ScheduleError, or an exception of another class.
pub data Failure : Type 0 where
  schedule_error other_error : Failure

abbrev pub or_raise {ℓ} : {A : Type ℓ} → Failure → Option A → Result Failure A
or_raise failure none = err failure
or_raise failure (some a) = ok a

abbrev pub value_of {ℓ} : {A : Type ℓ} → Result Failure A → Option A
value_of (ok a) = some a
value_of (err failure) = none

abbrev pub months : Dict ℕ
months =
    ("jan", 1)
    ∷ ("feb", 2)
    ∷ ("mar", 3)
    ∷ ("apr", 4)
    ∷ ("may", 5)
    ∷ ("jun", 6)
    ∷ ("jul", 7)
    ∷ ("aug", 8)
    ∷ ("sep", 9)
    ∷ ("oct", 10)
    ∷ ("nov", 11)
    ∷ ("dec", 12)
    ∷ []

abbrev pub dows : Dict ℕ
dows = ("sun", 0) ∷ ("mon", 1) ∷ ("tue", 2) ∷ ("wed", 3) ∷ ("thu", 4) ∷ ("fri", 5) ∷ ("sat", 6) ∷ []

unfoldable pub all_digits : String → Bool
all_digits String.[] = true
all_digits (String.◌∷◌ c s) = leb 48 (code c) && leb (code c) 57 && all_digits s

-- s.isdigit()
abbrev pub is_digit : String → Bool
is_digit s = nonempty s && all_digits s

unfoldable pub number_from : ℕ → String → ℕ
number_from n String.[] = n
number_from n (String.◌∷◌ c s) = number_from (n * 10 + (code c - 48)) s

-- s.partition(sep): what stands before and after the first separator; `none` if there is none.
partition : ℕ → String → Option (String × String)
partition sep String.[] = none
partition sep (String.◌∷◌ c s) =
    let rest = partition sep s in
    if eqb (code c) sep
    then some (String.[], s)
    else elim rest [ none ↦ none | some (before, after) ↦ some (String.◌∷◌ c before, after) ]

-- s[:3]
first_three : String → String
first_three (String.◌∷◌ a (String.◌∷◌ b (String.◌∷◌ c s))) =
    String.◌∷◌ a (String.◌∷◌ b (String.◌∷◌ c String.[]))
first_three s = s

-- `names` is empty where the source passes None.
unfoldable pub cron_number : String → Dict ℕ → Option ℕ
unfolding all_digits number_from first_three
cron_number raw names =
    let text = lower (strip raw) in
    elim (lookup (first_three text) names) [
      | some n ↦ some n
      | none ↦ if is_digit text then some (number_from 0 text) else none
    ]

-- start, start + step, …
abbrev pub arithmetic : ℕ → ℕ → ℕ → List ℕ
arithmetic start step zero = []
arithmetic start step (suc n) = start ∷ arithmetic (start + step) step n

-- range(start, end + 1, step), for start ≤ end and step ≥ 1
unfoldable pub range : ℕ → ℕ → ℕ → List ℕ
range start end step = arithmetic start step (((end - start) / step) + 1)

-- The part without its step, and the step.
step_of : String → Option (String × ℕ)
unfolding partition
step_of part = elim (partition 47 part) [
  | none ↦ some (part, 1)
  | some (body, step_text) ↦
      if not (is_digit step_text) || not (leb 1 (number_from 0 step_text))
      then none
      else some (if nonempty body then body else "*", number_from 0 step_text)
]

after_first : String → String
after_first String.[] = String.[]
after_first (String.◌∷◌ c s) = s

bounds_of : ℕ → ℕ → Dict ℕ → String → Option (ℕ × ℕ)
unfolding partition after_first
bounds_of low high names part =
    if part == "*"
    then some (low, high)
    else if is_some (partition 45 (after_first part))
    then elim (partition 45 part) [
      | none ↦ none
      | some (start_text, end_text) ↦ do
        start ← cron_number start_text names
        end ← cron_number end_text names
        some (start, end)
    ]
    else (do n ← cron_number part names; some (n, n))

-- The values of one part: no inverted range, and nothing out of range.
unfoldable pub parse_part : ℕ → ℕ → Dict ℕ → String → Option (List ℕ)
unfolding step_of bounds_of
parse_part low high names raw =
    let part = lower (strip raw) in
    if not (nonempty part) then none else (do
      (body, step) ← step_of part
      (start, end) ← bounds_of low high names body
      if leb start end && (leb low start && leb end high)
          then some (range start end step)
          else none)

parse_parts : ℕ → ℕ → Dict ℕ → List String → Option (List ℕ)
unfolding parse_part
parse_parts low high names [] = some []
parse_parts low high names (part ∷ parts) = do
  vs ← parse_part low high names part
  ws ← parse_parts low high names parts
  some (vs ++ ws)

-- `_parse_cron_field`; the set of values is a list here, with repetitions.
unfoldable pub parse_cron_field : String → ℕ → ℕ → Dict ℕ → Option (List ℕ)
unfolding parse_parts
parse_cron_field text low high names = do
  vs ← parse_parts low high names (split text)
  if is_empty vs then none else some vs

-- s.split()
pieces : String → List String
pieces String.[] = String.[] ∷ []
pieces (String.◌∷◌ c s) =
    let rest = pieces s in
    if is_space (code c)
    then String.[] ∷ rest
    else elim rest [ [] ↦ [] | w ∷ ws ↦ String.◌∷◌ c w ∷ ws ]

words : String → List String
unfolding pieces
words s = filter nonempty (pieces s)

abbrev member : ℕ → List ℕ → Bool
member n ns = any (eqb n) ns

-- Cron's rule for the two day fields.
abbrev pub day_matches : Bool → Bool → Bool → Bool → Bool
day_matches dom_restricted dow_restricted in_dom in_dow =
    if dom_restricted && dow_restricted
    then in_dom || in_dow
    else if dom_restricted
    then in_dom
    else if dow_restricted
    then in_dow
    else true

-- One test of `_cron_matches`: a field is parsed, and what follows counts if the value is in it.
abbrev in_field : Option (List ℕ) → ℕ → Option Bool → Option Bool
in_field none n rest = none
in_field (some ns) n rest = if member n ns then rest else some false

-- The tests of the two day fields.
on_day : Calendar → ℕ → String → String → Option Bool
unfolding parse_cron_field
on_day calendar moment dom dow = do
  dom_set ← parse_cron_field dom 1 31 []
  dow_set ← parse_cron_field dow 0 6 dows
  some (
      day_matches (not (strip dom == "*")) (not (strip dow == "*"))
        (member (calendar.day moment) dom_set) (member ((calendar.weekday moment + 1) % 7) dow_set))

-- `_cron_matches` on the five fields; the order of the tests decides which error is met.
fields_match : Calendar → ℕ → String → String → String → String → String → Option Bool
unfolding on_day
fields_match calendar moment minute hour dom month dow =
    in_field (parse_cron_field minute 0 59 []) (calendar.minute moment) (
      in_field (parse_cron_field hour 0 23 []) (calendar.hour moment) (
        in_field (parse_cron_field month 1 12 months) (calendar.month moment)
          (on_day calendar moment dom dow)))

-- expression.split(" ")
spaced : String → List String
spaced String.[] = String.[] ∷ []
spaced (String.◌∷◌ c s) =
    let rest = spaced s in
    if eqb (code c) 32
    then String.[] ∷ rest
    else elim rest [ [] ↦ [] | w ∷ ws ↦ String.◌∷◌ c w ∷ ws ]

-- Unpacking another number of pieces than five raises a ValueError.
unfoldable pub cron_matches : Calendar → String → ℕ → Result Failure Bool
unfolding fields_match spaced
cron_matches calendar expression moment = elim (spaced expression) [
  | minute ∷ hour ∷ dom ∷ month ∷ dow ∷ [] ↦
      or_raise schedule_error (fields_match calendar moment minute hour dom month dow)
  | _ ↦ err other_error
]

-- `validate_cron`; `none` is a ScheduleError.
unfoldable pub validate_cron : String → Option String
unfolding words
validate_cron expression = elim (words expression) [
  | minute ∷ hour ∷ dom ∷ month ∷ dow ∷ [] ↦
      if is_some (parse_cron_field minute 0 59 [])
        && (is_some (parse_cron_field hour 0 23 [])
            && (is_some (parse_cron_field dom 1 31 [])
                && (is_some (parse_cron_field month 1 12 months)
                    && is_some (parse_cron_field dow 0 6 dows))))
      then some (join " " (words expression))
      else none
  | _ ↦ none
]

-- The loop of `next_cron_time`, minute by minute.
unfoldable pub search : (ℕ → Result Failure Bool) → ℕ → ℕ → Result Failure ℕ
search matches zero moment = err schedule_error
search matches (suc left) moment = elim (matches moment) [
  | err failure ↦ err failure
  | ok true ↦ ok moment
  | ok false ↦ search matches left (moment + 60)
]

-- The first whole minute after an instant.
abbrev pub next_minute : ℕ → ℕ
next_minute after = (after - (after % 60)) + 60

-- The limit of the built-in search is 366 · 4 days after the first minute, and it is tried too.
unfoldable pub next_cron_time : Calendar → String → ℕ → Result Failure ℕ
unfolding search cron_matches
next_cron_time calendar expression after = elim calendar.croniter [
  | some next ↦ or_raise other_error (next expression after)
  | none ↦ search (cron_matches calendar expression) 2108161 (next_minute after)
]
