-- ===== src/Audit.antt =====
-- agent/audit.py: the hash-chained log. The keyed hash is a parameter, `mac prev text` under the
-- log's key (SHA-256 with HMAC in Python's library), and so are the JSON text of a record's hashed
-- fields, `canonical`, and `mask_text` of agent/secrets_vault.py, `mask`, which is applied to each
-- text that is logged; of a record's `meta` the model has its masked text. Blank lines, which every
-- reader skips, are left out. A line that was written whole reads as the record that was written.
pub mod Chain
use iddo_harness.Prelude.{
  ℕ, suc, ◌+◌, String, ◌==◌, Bool, true, false, ◌&&◌, ◌||◌, not, Option, none, some, List, [], ◌∷◌,
  ◌++◌, ltb, if◌then◌else◌, last, is_empty,
}

pub record Body : Type 0 where
  pub ts : String
  pub actor : String
  pub action : String
  pub resource : String
  pub outcome : String
  pub meta : String

-- A record as it is written; a field that is missing from the JSON object reads as "".
pub record Entry : Type 0 where
  pub body : Body
  pub prev : String
  pub hmac : String

-- A line of the file that is not blank: a JSON object, or something that does not parse.
pub data Line : Type 0 where
  entry : Entry → Line
  junk : Line

-- The file, if it is there, with the day of its last write; and the rotated files, newest first.
pub record Log : Type 0 where
  pub file : Option (List Line)
  pub written : ℕ
  pub rotate_daily : Bool
  pub rotated : List (List Line)
  -- The last line has no line break, since writing it was broken off.
  pub unended : Bool

-- What becomes of the line that is written: all of it, nothing, or a part that does not parse.
pub data Write : Type 0 where
  whole nothing torn : Write

pub data Reason : Type 0 where
  not_json unchained altered : Reason

-- The answer of `verify_chain`, with the number of the first bad line.
pub data Verdict : Type 0 where
  intact : Verdict
  broken : ℕ → Reason → Verdict

-- `_last_hmac`
unfoldable pub last_hmac : List Line → String
last_hmac [] = ""
last_hmac (entry r ∷ []) = r.hmac
last_hmac (junk ∷ []) = ""
last_hmac (l ∷ m ∷ ls) = last_hmac (m ∷ ls)

abbrev pub lines_of : Option (List Line) → List Line
lines_of none = []
lines_of (some ls) = ls

-- `_maybe_rotate`; `moves` tells whether compressing and unlinking the file succeed.
unfoldable pub maybe_rotate : ℕ → Bool → Log → Log
maybe_rotate today moves log = elim log.file [
  | none ↦ log
  | some ls ↦
      if log.rotate_daily && ltb log.written today && moves
      then record log { file = none; rotated = ls ∷ log.rotated }
      else log
]

abbrev valid_outcome : String → Bool
valid_outcome outcome = (outcome == "ok") || (outcome == "deny") || (outcome == "error")

module _ (mac : String → String → String) (canonical : Body → String → String)
    (mask : String → String) where
  masked : Body → Body
  masked b = record {
    ts = b.ts;
    actor = mask b.actor;
    action = mask b.action;
    resource = mask b.resource;
    outcome = if valid_outcome b.outcome then b.outcome else "error";
    meta = mask b.meta;
  }

  -- The record that is chained onto the lines of the file.
  unfoldable pub chained : Body → List Line → Entry
  unfolding last_hmac masked
  chained b ls =
      let prev = last_hmac ls in
      record { body = masked b; prev = prev; hmac = mac prev (canonical (masked b) prev) }

  -- `AuditLog.record`; an error in writing is logged and swallowed. What follows a line that was broken
  -- off stands on that line, which then does not parse either.
  unfoldable pub record_event : ℕ → Bool → Write → Body → Log → Log
  unfolding chained maybe_rotate
  record_event today moves write b log =
      let rolled = maybe_rotate today moves log in
      let ls = lines_of rolled.file in
      let glued = rolled.unended && not (is_empty ls) in
      elim write [
        | nothing ↦ rolled
        | whole ↦ record rolled {
          file = some (if glued then ls else ls ++ entry (chained b ls) ∷ []);
          written = today;
          unended = false;
        }
        | torn ↦ record rolled {
          file = some (if glued then ls else ls ++ junk ∷ []);
          written = today;
          unended = true;
        }
      ]

  -- The loop of `verify_chain` from a line on.
  unfoldable pub verify_from : String → ℕ → List Line → Verdict
  verify_from prev i [] = intact
  verify_from prev i (junk ∷ ls) = broken i not_json
  verify_from prev i (entry r ∷ ls) =
      let rest = verify_from r.hmac (i + 1) ls in
      if not (r.prev == prev)
      then broken i unchained
      else if not (mac prev (canonical r.body r.prev) == r.hmac)
      then broken i altered
      else rest

  unfoldable pub verify_chain : Option (List Line) → Verdict
  verify_chain none = intact
  verify_chain (some ls) = verify_from "" 1 ls

-- `tail(n)`: the last n lines, those that do not parse left out.
entries : List Line → List Entry
entries [] = []
entries (entry r ∷ ls) = r ∷ entries ls
entries (junk ∷ ls) = entries ls

unfoldable pub tail : ℕ → Option (List Line) → List Entry
unfolding entries
tail n file = entries (last n (lines_of file))
