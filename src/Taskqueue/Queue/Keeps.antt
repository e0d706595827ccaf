-- ===== src/Taskqueue/Queue/Keeps.antt =====
-- Every method keeps the queue valid.
use iddo_harness.Prelude.{
  ℕ, ◌+◌, ◌<◌, String, ◌≡◌, refl, ap, ◌==◌, eq_iff, eq_refl, Bool, true, false, ◌&&◌, Option, none,
  some, List, [], ◌∷◌, ◌++◌, arith, All, Has, All-map, All-append, Bool-cases, Option-cases, inl,
  inr, if◌then◌else◌, nonempty,
}
use iddo_harness.Prelude.Ids
use iddo_harness.Prelude.Ids.{contains, contains-add, contains-discard}
use iddo_harness.Prelude.Sorting.{sorted}
use iddo_harness.Prelude.Sublists.{Sub, keep, skip, Sub-refl, All-Sub, Pairs, Pairs-snoc}
use iddo_harness.Json.{Python}
use iddo_harness.Taskqueue.Schedule.{Task, Schedule, Defaults, parse_schedule}
use iddo_harness.Taskqueue.Queue.{
  Entry, Queue, add, pull, remove, mark_completed, key_le, scan, next_entry, next_task, task_of,
}
use iddo_harness.Taskqueue.Queue.Selection.{live}
use iddo_harness.Taskqueue.Queue.Invariant.{
  Earlier, Apart, Known, IsValid, drop_entry-Sub, fewer-IsValid, Known-discard,
}
use iddo_harness.Taskqueue.Queue.Expiry.{Apart-Differs, drain_expired-IsValid}

-- Entries with known ids differ from one with an id that is not known.
unknown-Apart :
    (ids : List String) (x : Entry) (es : List Entry)
    → (nonempty x.task.id && contains ids x.task.id) ≡ false
    → All (Known ids) es
    → All (λ e. Apart e x) es
unknown-Apart ids x [] new k = tt
unknown-Apart ids x (e ∷ es) new k = (
  (λ named. ground (arith, k.0 named, eq_iff e.task.id x.task.id)),
  unknown-Apart ids x es new k.1,
)

Known-add : (ids : List String) (x e : Entry) → Known ids e → Known (Ids.add x.task.id ids) e
Known-add ids x e k named = ground (arith, k named, contains-add x.task.id e.task.id ids)

-- The queue that `add` leaves when it takes the task.
abbrev pub with_entry : Task → Schedule → Queue → Queue
with_entry task schedule q =
    let entry : Entry = record { task = task; schedule = schedule; seq = q.next_seq } in
    record q {
      entries = q.entries ++ entry ∷ [];
      next_seq = q.next_seq + 1;
      known_ids = if nonempty task.id then Ids.add task.id q.known_ids else q.known_ids;
    }

with_entry-Known :
    (task : Task) (schedule : Schedule) (q : Queue)
    → IsValid q
    → All (Known (with_entry task schedule q).known_ids) (with_entry task schedule q).entries
with_entry-Known task schedule q v = elim (Bool-cases (nonempty task.id)) [
  | inl named ↦ rw named (
      All-append _ q.entries _ (All-map _ _ (λ e. Known-add q.known_ids x e) q.entries v.known)
        ((λ _. ground (arith, contains-add task.id task.id q.known_ids, eq_refl task.id)), tt))
  | inr nameless ↦
      rw nameless (All-append _ q.entries _ v.known ((λ named. cc (named, nameless)), tt))
]
  where
    x : Entry
    x = record { task = task; schedule = schedule; seq = q.next_seq }

with_entry-IsValid :
    (task : Task) (schedule : Schedule) (q : Queue)
    → IsValid q
    → (nonempty task.id && contains q.known_ids task.id) ≡ false
    → IsValid (with_entry task schedule q)
with_entry-IsValid task schedule q v new = record {
  ascending = Pairs-snoc Earlier q.entries _ v.ascending v.bounded;
  bounded =
      All-append _ q.entries _
        (All-map (λ e. e.seq < q.next_seq) _ (λ e h. omega arith) q.entries v.bounded)
        (omega arith, tt);
  apart = Pairs-snoc Apart q.entries _ v.apart (
      unknown-Apart q.known_ids (record { task = task; schedule = schedule; seq = q.next_seq })
        q.entries new v.known);
  known = with_entry-Known task schedule q v;
}

-- `add` keeps the queue valid, whether it queues the task, finds it a duplicate or raises.
pub add-IsValid :
    (py : Python) (defaults : Defaults) (task : Task) (q : Queue)
    → IsValid q
    → IsValid (add py defaults task q).1
unfolding add
add-IsValid py defaults task q v =
    elim (Bool-cases (nonempty task.id && contains q.known_ids task.id)) [
      | inl old ↦ rw old v
      | inr new ↦ elim (Option-cases (parse_schedule py defaults task)) [
        | inl bad ↦ rw (new, bad) v
        | inr (schedule, good) ↦ rw (new, good) (with_entry-IsValid task schedule q v new)
      ]
    ]

-- What `pull` takes out has the id, and nothing that it leaves has it too.
abbrev pub Pulled : String → List Entry → Option (Entry × List Entry) → Type 0
Pulled task_id es none = Unit
Pulled task_id es (some (found, rest)) =
    Sub rest es
    × (found.task.id ≡ task_id)
    × Has found es
    × All (λ e. nonempty e.task.id ≡ true → (task_id == e.task.id) ≡ false) rest

pub pull-Pulled :
    (task_id : String) (es : List Entry) → Pairs Apart es → Pulled task_id es (pull task_id es)
unfolding pull
pull-Pulled task_id [] a = tt
pull-Pulled task_id (e ∷ es) a = elim (Bool-cases (e.task.id == task_id)) [
  | inl same ↦
      let id : e.task.id ≡ task_id = (eq_iff e.task.id task_id).0 same in
      rw same (
        skip e (Sub-refl es),
        id,
        inl refl,
        rw (← id) (All-map _ _ (λ x. Apart-Differs e x) es a.0),
      )
  | inr other ↦ elim (Option-cases (pull task_id es)) [
    | inl absent ↦ rw (other, absent) tt
    | inr ((found, rest), there) ↦
        let (s, id, listed, apart) = rw there at (pull-Pulled task_id es a.1) in
        rw (other, there)
          (
            keep e s,
            id,
            inr listed,
            (
              (λ named. ground (arith, other, eq_iff e.task.id task_id, eq_iff task_id e.task.id)),
              apart,
            ),
          )
  ]
]

-- `remove` keeps the queue valid, whether it finds the id or not.
pub remove-IsValid : (task_id : String) (q : Queue) → IsValid q → IsValid (remove task_id q).1
unfolding remove
remove-IsValid task_id q v = elim (Option-cases (pull task_id q.entries)) [
  | inl absent ↦ rw (absent, remove) v
  | inr ((found, rest), there) ↦
      let (s, id, listed, apart) = rw there at (pull-Pulled task_id q.entries v.apart) in
      rw (there, remove)
        (fewer-IsValid q _ v s refl
          (Known-discard task_id q.known_ids rest apart (All-Sub (Known q.known_ids) s v.known)))
]

-- `mark_completed` keeps the queue valid if the id is empty or no queued task has it.
pub mark_completed-IsValid :
    (task_id : String) (ok : Bool) (q : Queue)
    → IsValid q
    → All (λ e. nonempty e.task.id ≡ true → (task_id == e.task.id) ≡ false) q.entries
    → IsValid (mark_completed task_id ok q)
unfolding mark_completed
mark_completed-IsValid task_id ok q v other =
    fewer-IsValid q (mark_completed task_id ok q) v (Sub-refl q.entries) refl
      (Known-discard task_id q.known_ids q.entries other v.known)

-- `next_entry` keeps the queue valid, whether it finds an entry or not.
pub next_entry-IsValid :
    (probe : String → Bool) (drained now : ℕ) (q : Queue)
    → IsValid q
    → IsValid (next_entry probe drained now q).1
unfolding next_entry
next_entry-IsValid probe drained now q v =
    let q' = live drained q in
    let v' : IsValid q' = drain_expired-IsValid drained q v in
    elim (Option-cases (scan probe now (sorted key_le q'.entries) q'.completed).0) [
      | inl nothing ↦
          rw (nothing, next_entry) (fewer-IsValid q' _ v' (Sub-refl q'.entries) refl v'.known)
      | inr (e, found) ↦
          rw (found, next_entry)
            (fewer-IsValid q' _ v' (drop_entry-Sub e q'.entries) refl
              (All-Sub (Known q'.known_ids) (drop_entry-Sub e q'.entries) v'.known))
    ]

-- `next_task` is `next_entry` with the schedule left out.
task_of_parts :
    (r : Option Entry × Queue)
    → ((task_of r).1 ≡ r.1)
      × (r.0 ≡ none → (task_of r).0 ≡ none)
      × ((e : Entry) → r.0 ≡ some e → (task_of r).0 ≡ some e.task)
task_of_parts (none, q) = (refl, (λ h. refl), (λ e h. cc))
task_of_parts (some x, q) =
    (refl, (λ h. cc), (λ e h. let same : x ≡ e = cc in ap (λ (y : Entry). some y.task) same))

pub next_task_parts :
    (probe : String → Bool) (drained now : ℕ) (q : Queue)
    → ((next_task probe drained now q).1 ≡ (next_entry probe drained now q).1)
      × ((next_entry probe drained now q).0 ≡ none → (next_task probe drained now q).0 ≡ none)
      × ((e : Entry)
          → (next_entry probe drained now q).0 ≡ some e
          → (next_task probe drained now q).0 ≡ some e.task)
unfolding next_task
next_task_parts probe drained now q = task_of_parts (next_entry probe drained now q)

different :
    (task_id : String) (e : Entry)
    → nonempty task_id ≡ true
    → (nonempty e.task.id ≡ true → (task_id == e.task.id) ≡ false)
    → (task_id == e.task.id) ≡ false
different task_id e named f = elim (Bool-cases (nonempty e.task.id)) [
  | inl yes_ ↦ f yes_
  | inr no_ ↦ ground (arith, eq_iff task_id e.task.id, eq_iff e.task.id "", eq_iff task_id "")
]

pull-none :
    (task_id : String) (es : List Entry)
    → pull task_id es ≡ none
    → All (λ e. (task_id == e.task.id) ≡ false) es
unfolding pull
pull-none task_id [] h = tt
pull-none task_id (e ∷ es) h = elim (Bool-cases (e.task.id == task_id)) [
  | inl same ↦ cc (rw same at h)
  | inr other ↦ elim (Option-cases (pull task_id es)) [
    | inl missing ↦ (
      ground (arith, other, eq_iff e.task.id task_id, eq_iff task_id e.task.id),
      pull-none task_id es missing,
    )
    | inr ((found, rest), there) ↦ cc (rw (other, there) at h)
  ]
]

-- After `remove` no queued task has the id.
pub remove-absent :
    (task_id : String) (q : Queue)
    → IsValid q
    → nonempty task_id ≡ true
    → All (λ e. (task_id == e.task.id) ≡ false) (remove task_id q).1.entries
unfolding remove
remove-absent task_id q v named = elim (Option-cases (pull task_id q.entries)) [
  | inl absent ↦ rw (absent, remove) (pull-none task_id q.entries absent)
  | inr ((found, rest), there) ↦
      let (s, id, listed, apart) = rw there at (pull-Pulled task_id q.entries v.apart) in
      rw (there, remove) (All-map _ _ (λ e f. different task_id e named f) rest apart)
]
