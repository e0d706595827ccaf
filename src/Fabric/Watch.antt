-- ===== src/Fabric/Watch.antt =====
-- agent/executor_v2.py, `FileWatch`: the bounded buffer of events. `fnmatch` of a file name against a
-- pattern, and the name of a path, are arguments. The threads that watch a directory are not modelled:
-- each call of `record` and `drain` holds the lock.
pub mod Accounting
use iddo_harness.Prelude.{
  ℕ, zero, suc, ◌+◌, min, String, Bool, true, false, Option, List, [], ◌∷◌, ◌++◌, eqb, ltb, length,
  take, drop, any, is_empty, if◌then◌else◌,
}
use iddo_harness.Json.{ℤ, pos, negsuc}

pub record FileEvent : Type 0 where
  pub ts : ℕ
  pub event_type : String
  pub path : String
  pub dest_path : Option String

pub record Watch : Type 0 where
  pub patterns : List String
  pub maxlen : ℕ
  pub events : List FileEvent
  pub dropped : ℕ

-- No patterns are as the pattern of all names.
unfoldable pub new_watch : List String → ℕ → Watch
new_watch patterns max_buffer = record {
  patterns = if is_empty patterns then "*" ∷ [] else patterns;
  maxlen = max_buffer;
  events = [];
  dropped = 0;
}

-- `append` on a deque with a maximal length
unfoldable pub append_bounded : ℕ → List FileEvent → FileEvent → List FileEvent
append_bounded maxlen events e =
    let longer = events ++ e ∷ [] in if ltb maxlen (length longer) then drop 1 longer else longer

module _ (fnmatch : String → String → Bool) (basename : String → String) where
  unfoldable pub matches : String → Watch → Bool
  matches path w = any (fnmatch (basename path)) w.patterns

  unfoldable pub record_event : FileEvent → Watch → Watch
  unfolding matches append_bounded
  record_event e w =
      if matches e.path w
      then record w {
        dropped = if eqb (length w.events) w.maxlen then suc w.dropped else w.dropped;
        events = append_bounded w.maxlen w.events e;
      }
      else w

-- `range(n)` is empty for a negative n.
abbrev pub at_most : ℤ → ℕ
at_most (pos n) = n
at_most (negsuc n) = 0

-- The events, the drop counter, and the watch afterwards.
unfoldable pub drain : ℤ → Watch → List FileEvent × ℕ × Watch
drain max_events w =
    let n = min (at_most max_events) (length w.events) in
    (take n w.events, w.dropped, record w { events = drop n w.events; dropped = 0 })
