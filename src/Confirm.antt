-- ===== src/Confirm.antt =====
-- agent/confirm.py, `ConfirmManager`, and the part of agent/poller.py that picks the answers up. A
-- directory of the queue is what its file names and contents say: the pending-confirm-<id>.json files,
-- `none` where one cannot be read as a request, and the ids of its approved- and denied-<id>.json
-- files. The commit and the push of the mirrored directory, and the notification text, are not
-- modelled; whether a write to the mirror succeeds is an argument.
pub mod Sweeping
pub mod Scanning
use Prim.Native.String.{compare}
use Prim.Native.Nat.{Ordering}
use iddo_harness.Prelude.{
  ℕ, ◌+◌, ◌*◌, String, Bool, true, false, ◌||◌, not, Option, none, some, List, [], ◌∷◌, ◌++◌, leb,
  if◌then◌else◌, is_some,
}
use iddo_harness.Prelude.Dict.{Dict, lookup, put, remove, keys}
use iddo_harness.Prelude.Ids.{contains, add}
use iddo_harness.Prelude.Sorting.{sorted}
use iddo_harness.Prelude.Text.{concat}
use iddo_harness.Json.{Value, text, Fields, get, or_null, truthy}

pub record Pending : Type 0 where
  pub task_id : String
  pub command : Value
  pub reason : String
  pub created_ts : ℕ
  pub kind : String
  pub payload : Fields

pub record Dir : Type 0 where
  pub pending : Dict (Option Pending)
  pub approved : List String
  pub denied : List String

pub record Queue : Type 0 where
  pub local_dir : Dir
  pub bridge_dir : Option Dir

-- The part of a task that a request is made of.
pub record Task : Type 0 where
  pub id : String
  pub kind : String
  pub payload : Fields

-- task.payload.get("command") or task.payload.get("path", "")
abbrev pub command_of : Fields → Value
command_of payload =
    let command = or_null (get "command" payload) in
    if truthy command
    then command
    else (elim (get "path" payload) [ none ↦ text "" | some path ↦ path ])

abbrev pub on_bridge : Bool → (Dir → Dir) → Option Dir → Option Dir
on_bridge mirrored f none = none
on_bridge mirrored f (some d) = some (if mirrored then f d else d)

abbrev pub write_both : Bool → (Dir → Dir) → Queue → Queue
write_both mirrored f q = record {
  local_dir = f q.local_dir;
  bridge_dir = on_bridge mirrored f q.bridge_dir;
}

unfoldable pub request : Task → String → ℕ → Pending
request task reason now = record {
  task_id = task.id;
  command = command_of task.payload;
  reason = reason;
  created_ts = now;
  kind = task.kind;
  payload = task.payload;
}

unfoldable pub create : Bool → Task → String → ℕ → Queue → Queue
unfolding request
create mirrored task reason now q =
    write_both mirrored
      (λ d. record d { pending = put task.id (some (request task reason now)) d.pending }) q

unfoldable pub answer : String → Bool → Dir → Dir
answer id true d = record d { approved = add id d.approved }
answer id false d = record d { denied = add id d.denied }

unfoldable pub respond : Bool → String → Bool → Queue → Queue
unfolding answer
respond mirrored id approve q = write_both mirrored (answer id approve) q

unfoldable pub has_response : Dir → String → Bool
has_response d id = contains d.approved id || contains d.denied id

-- What one directory says: `some true` for approved, `some false` for denied.
unfoldable pub response_in : Dir → String → Option Bool
response_in d id =
    if contains d.approved id
    then some true
    else (if contains d.denied id then some false else none)

unfoldable pub check_response : Queue → String → Option Bool
unfolding response_in
check_response q id = elim (response_in q.local_dir id) [
  | some status ↦ some status
  | none ↦ elim q.bridge_dir [ none ↦ none | some d ↦ response_in d id ]
]

abbrev pub file_name : String → String
file_name id = concat "pending-confirm-" (concat id ".json")

abbrev before : String → String → Bool
before i j = elim (compare (file_name i) (file_name j)) [ Ordering.gt ↦ false | _ ↦ true ]

-- sorted(self.local_dir.glob("pending-confirm-*.json"))
unfoldable pub pending_ids : Dir → List String
pending_ids d = sorted before (keys d.pending)

abbrev pub read_pending : Dir → String → Option Pending
read_pending d id = elim (lookup id d.pending) [ none ↦ none | some file ↦ file ]

add_open : Dir → String → List Pending → List Pending
add_open d id rest =
    if has_response d id
    then rest
    else (elim (read_pending d id) [ none ↦ rest | some p ↦ p ∷ rest ])

list_each : Dir → List String → List Pending
unfolding add_open
list_each d [] = []
list_each d (id ∷ ids) = add_open d id (list_each d ids)

unfoldable pub list_pending : Queue → List Pending
unfolding list_each pending_ids
list_pending q = list_each q.local_dir (pending_ids q.local_dir)

-- now - created_ts >= timeout
unfoldable pub is_late : ℕ → ℕ → Option Pending → Bool
is_late now timeout none = false
is_late now timeout (some p) = leb (p.created_ts + timeout) now

-- A request without an answer that has waited for too long.
unfoldable pub overdue : ℕ → ℕ → Dir → String → Bool
unfolding is_late has_response
overdue now timeout d id =
    if has_response d id then false else is_late now timeout (read_pending d id)

-- The loop of `sweep_timeouts` over the files, `S` being what holds the queue and `deny` what is done
-- for each request that is late. The result lists the requests that were denied.
module _ {ℓ} {S : Type ℓ} (queue_of : S → Queue) (deny : String → S → S) (now timeout : ℕ) where
  unfoldable pub sweep_each : List String → S → S × List String
  unfolding overdue
  sweep_each [] s = (s, [])
  sweep_each (id ∷ ids) s = elim (overdue now timeout (queue_of s).local_dir id) [
    | false ↦ sweep_each ids s
    | true ↦ let (t, denied) = sweep_each ids (deny id s) in (t, id ∷ denied)
  ]

  unfoldable pub sweep : S → S × List String
  unfolding sweep_each pending_ids
  sweep s = sweep_each (pending_ids (queue_of s).local_dir) s

-- `sweep_timeouts` of the ConfirmManager.
unfoldable pub sweep_timeouts : Bool → ℕ → ℕ → Queue → Queue × List String
unfolding sweep respond
sweep_timeouts mirrored timeout_minutes now q =
    sweep (λ r. r) (λ id. respond mirrored id false) now (timeout_minutes * 60) q

unfoldable pub unlink : String → Queue → Queue
unlink id q = record q {
  local_dir = record q.local_dir { pending = remove id q.local_dir.pending };
}

abbrev pub task_of : Pending → Task
task_of p = record { id = p.task_id; kind = p.kind; payload = p.payload }

-- The loop of `scan_pending`: the requests that have an answer, each with whether it was approved.
unfoldable pub scan_each : List String → Queue → Queue × List (Task × Bool)
unfolding check_response unlink
scan_each [] q = (q, [])
scan_each (id ∷ ids) q = elim (check_response q id) [
  | none ↦ scan_each ids q
  | some approved ↦ elim (read_pending q.local_dir id) [
    | none ↦ scan_each ids q
    | some p ↦
        let (r, resolved) = scan_each ids (unlink id q) in (r, (task_of p, approved) ∷ resolved)
  ]
]

-- `scan_pending` after its call of `sweep_timeouts`, which is the manager's, on the queue as that
-- leaves it.
unfoldable pub scan_pending : Queue → Queue × List (Task × Bool)
unfolding scan_each pending_ids
scan_pending swept = scan_each (pending_ids swept.local_dir) swept
