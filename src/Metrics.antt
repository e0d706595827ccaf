-- ===== src/Metrics.antt =====
-- agent/metrics.py: `percentile` and the collector `Metrics`. Every method holds the lock while it
-- changes the state, so each is a step. The clock is an argument; a latency is a natural number. The
-- rounding of `fraction * (n - 1)` is an argument of `percentile`, and so are the values that the gauge
-- providers return, `none` where one raises. The Prometheus text and the HTTP server are not modelled.
pub mod Windows
pub mod Totals
pub mod Latencies
pub mod Reported
use iddo_harness.Prelude.{
  ℕ, zero, suc, ◌+◌, ◌-◌, min, max, String, Bool, true, false, not, Option, none, some, List, [],
  ◌∷◌, ◌++◌, leb, ltb, length, drop, get_or, is_none, if◌then◌else◌, nonempty,
}
use iddo_harness.Prelude.Dict.{Dict, lookup, put, remove}
use iddo_harness.Prelude.Ids.{contains}
use iddo_harness.Prelude.Sorting.{sorted}
use iddo_harness.Json.{ℤ, pos, negsuc}

abbrev pub latency_window : ℕ
latency_window = 1024

abbrev pub named_counters : List String
named_counters = "tasks_total" ∷ "shell_bytes_streamed" ∷ "chunks_pushed" ∷ "retries_total" ∷ []

-- `round_rank n` is int(round(fraction * (n - 1))).
unfoldable pub percentile : (ℕ → ℕ) → List ℕ → ℕ
percentile round_rank samples =
    let ordered = sorted leb samples in
    get_or ordered (min (length ordered - 1) (round_rank (length ordered))) 0

pub record Timer : Type 0 where
  pub observed_at : ℕ
  pub started_at : Option ℕ

pub record Metrics : Type 0 where
  pub enabled : Bool
  pub counters : Dict ℕ
  pub by_kind : Dict ℕ
  pub by_status : Dict ℕ
  pub poll_to_start : List ℕ
  pub start_to_complete : List ℕ
  pub timers : Dict Timer
  pub gauges : List String
  pub static_gauges : Dict ℤ

unfoldable pub fresh : Bool → Metrics
fresh enabled = record {
  enabled = enabled;
  counters = [];
  by_kind = [];
  by_status = [];
  poll_to_start = [];
  start_to_complete = [];
  timers = [];
  gauges = [];
  static_gauges = [];
}

-- A `deque(maxlen=LATENCY_WINDOW)`: a sample that is appended to a full window pushes the oldest out.
unfoldable pub push : ℕ → List ℕ → List ℕ
push sample window =
    let longer = window ++ sample ∷ [] in
    if ltb latency_window (length longer) then drop 1 longer else longer

abbrev pub count_of : String → Dict ℕ → ℕ
count_of name d = elim (lookup name d) [ none ↦ 0 | some n ↦ n ]

-- A `defaultdict(int)`: d[name] += amount
unfoldable pub bump : String → ℕ → Dict ℕ → Dict ℕ
bump name amount d = put name (count_of name d + amount) d

abbrev pub bump_kind : Option String → Dict ℕ → Dict ℕ
bump_kind none d = d
bump_kind (some kind) d = if nonempty kind then bump kind 1 d else d

unfoldable pub task_observed : String → ℕ → Metrics → Metrics
task_observed id now m =
    if m.enabled
    then record m { timers = put id (record { observed_at = now; started_at = none }) m.timers }
    else m

abbrev timer_or : ℕ → Option Timer → Timer
timer_or now none = record { observed_at = now; started_at = none }
timer_or now (some timer) = timer

unfoldable pub start_timer : String → Option String → ℕ → Timer → Metrics → Metrics
unfolding push bump
start_timer id kind now timer m = record m {
  timers = put id (record timer { started_at = some now }) m.timers;
  poll_to_start = push (now - timer.observed_at) m.poll_to_start;
  by_kind = bump_kind kind m.by_kind;
}

unfoldable pub task_started : String → Option String → ℕ → Metrics → Metrics
unfolding start_timer
task_started id kind now m =
    if m.enabled then start_timer id kind now (timer_or now (lookup id m.timers)) m else m

abbrev pub push_run : ℕ → Option Timer → List ℕ → List ℕ
push_run now none window = window
push_run now (some timer) window = elim timer.started_at [
  | none ↦ window
  | some started ↦ push (now - started) window
]

unfoldable pub complete : String → String → Option String → ℕ → Option Timer → Metrics → Metrics
unfolding push bump
complete id status kind now timer m = record m {
  timers = remove id m.timers;
  start_to_complete = push_run now timer m.start_to_complete;
  counters = bump "tasks_total" 1 m.counters;
  by_status = bump status 1 m.by_status;
  by_kind = if is_none timer then bump_kind kind m.by_kind else m.by_kind;
}

unfoldable pub task_completed : String → String → Option String → ℕ → Metrics → Metrics
unfolding complete
task_completed id status kind now m =
    if m.enabled then complete id status kind now (lookup id m.timers) m else m

unfoldable pub incr : String → ℕ → Metrics → Metrics
unfolding bump
incr name amount m = if m.enabled then record m { counters = bump name amount m.counters } else m

unfoldable pub chunk_pushed : ℕ → Metrics → Metrics
unfolding bump
chunk_pushed byte_count m =
    let counted = bump "chunks_pushed" 1 m.counters in
    if m.enabled
    then record m {
      counters = elim byte_count [
        | zero ↦ counted
        | suc n ↦ bump "shell_bytes_streamed" (suc n) counted
      ];
    }
    else m

unfoldable pub retry_attempted : String → Metrics → Metrics
unfolding incr
retry_attempted id m = incr "retries_total" 1 m

unfoldable pub register_gauge : String → Metrics → Metrics
register_gauge name m = record m {
  gauges = if contains m.gauges name then m.gauges else m.gauges ++ name ∷ [];
}

unfoldable pub set_gauge : String → ℤ → Metrics → Metrics
set_gauge name value m =
    if m.enabled then record m { static_gauges = put name value m.static_gauges } else m

unfoldable pub reset : Metrics → Metrics
reset m = record m {
  counters = [];
  by_kind = [];
  by_status = [];
  static_gauges = [];
  timers = [];
  poll_to_start = [];
  start_to_complete = [];
}

pub record Latency : Type 0 where
  pub count : ℕ
  pub p50 : ℕ
  pub p95 : ℕ
  pub p99 : ℕ

-- What an entry of the snapshot holds.
pub data Entry : Type 0 where
  flag : Bool → Entry
  amount : ℤ → Entry
  table : Dict ℕ → Entry
  latency : Latency → Entry

abbrev int_or_failed : Option ℤ → ℤ
int_or_failed none = negsuc 0
int_or_failed (some n) = n

-- gauges[name] = int(provider()), and -1 where that raises
unfoldable pub read_gauges : (String → Option ℤ) → List String → Dict ℤ → Dict ℤ
read_gauges provided [] gauges = gauges
read_gauges provided (name ∷ names) gauges =
    read_gauges provided names (put name (int_or_failed (provided name)) gauges)

-- The counters that were registered ad hoc.
unfoldable pub add_counters : Dict ℕ → Dict Entry → Dict Entry
add_counters [] doc = doc
add_counters ((name, n) ∷ counters) doc =
    add_counters counters
      (if contains named_counters name then doc else put name (amount (pos n)) doc)

abbrev pub core_gauges : List String
core_gauges = "queue_depth" ∷ "active_sessions" ∷ "active_watches" ∷ "active_tasks" ∷ []

abbrev gauge_of : String → Dict ℤ → ℤ
gauge_of name gauges = elim (lookup name gauges) [ none ↦ pos 0 | some n ↦ n ]

unfoldable pub add_core : List String → Dict ℤ → Dict Entry → Dict Entry
add_core [] gauges doc = doc
add_core (name ∷ names) gauges doc =
    add_core names gauges (put name (amount (gauge_of name gauges)) doc)

-- doc.setdefault(name, value)
unfoldable pub add_missing : Dict ℤ → Dict Entry → Dict Entry
add_missing [] doc = doc
add_missing ((name, n) ∷ gauges) doc =
    add_missing gauges (if is_none (lookup name doc) then put name (amount n) doc else doc)

unfoldable pub latency_of : (ℕ → ℕ) → (ℕ → ℕ) → (ℕ → ℕ) → List ℕ → Entry
unfolding percentile
latency_of r50 r95 r99 samples = latency (record {
  count = length samples;
  p50 = percentile r50 samples;
  p95 = percentile r95 samples;
  p99 = percentile r99 samples;
})

-- The entries that a snapshot starts with.
unfoldable pub base_doc : Metrics → Dict Entry
base_doc m =
    ("enabled", flag m.enabled)
    ∷ ("tasks_total", amount (pos (count_of "tasks_total" m.counters)))
    ∷ ("tasks_by_kind", table m.by_kind)
    ∷ ("tasks_by_status", table m.by_status)
    ∷ ("shell_bytes_streamed", amount (pos (count_of "shell_bytes_streamed" m.counters)))
    ∷ ("chunks_pushed", amount (pos (count_of "chunks_pushed" m.counters)))
    ∷ ("retries_total", amount (pos (count_of "retries_total" m.counters)))
    ∷ []

unfoldable pub snapshot : (String → Option ℤ) → (ℕ → ℕ) → (ℕ → ℕ) → (ℕ → ℕ) → Metrics → Dict Entry
unfolding read_gauges add_counters add_core add_missing latency_of base_doc
snapshot provided r50 r95 r99 m =
    let gauges = read_gauges provided m.gauges m.static_gauges in
    let doc =
      add_missing gauges (add_core core_gauges gauges (add_counters m.counters (base_doc m))) in
    put "latency_start_to_complete" (latency_of r50 r95 r99 m.start_to_complete)
      (put "latency_poll_to_start" (latency_of r50 r95 r99 m.poll_to_start) doc)
