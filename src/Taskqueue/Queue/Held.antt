-- ===== src/Taskqueue/Queue/Held.antt =====
-- An id that the queue knows and does not queue: that of a task which was handed out and has not
-- been marked as completed.
use iddo_harness.Prelude.{
  ℕ, ◌<◌, String, ◌≡◌, ap, subst, ◌⊎◌, ◌∙◌, ◌==◌, eq_iff, Bool, true, false, ◌&&◌, not, some, List,
  [], ◌∷◌, arith, All, All-map, All-append, All-Has, Has, Bool-cases, Option-cases, inl, inr,
  nonempty, eqb, filter,
}
use iddo_harness.Prelude.Ids.{contains, contains-add, contains-discard}
use iddo_harness.Prelude.Sorting.{sorted}
use iddo_harness.Prelude.Sublists.{All-Sub, Pairs, filter-Sub}
use iddo_harness.Json.{Python}
use iddo_harness.Taskqueue.Schedule.{Task, Defaults, parse_schedule}
use iddo_harness.Taskqueue.Queue.{
  Entry, Queue, add, pull, remove, mark_completed, drop_entry, is_expired, drain_expired, scan,
  key_le, next_entry,
}
use iddo_harness.Taskqueue.Queue.Selection.{live, next_entry_best_live}
use iddo_harness.Taskqueue.Queue.Invariant.{Earlier, Apart, IsValid, drop_entry-Sub}
use iddo_harness.Taskqueue.Queue.Expiry.{
  discard_each_parts, eqb_refl, drop_each-filter, contains-discard_ids, drain_expired-IsValid,
  drain_expired_lem, Apart-Differs,
}
use iddo_harness.Taskqueue.Queue.Keeps.{pull-Pulled}

pub record Holds (x : String) (q : Queue) : Type 0 where
  pub known : contains q.known_ids x ≡ true
  pub absent : All (λ e. (x == e.task.id) ≡ false) q.entries

flipped : (x : String) (e : Entry) → (x == e.task.id) ≡ false → (e.task.id == x) ≡ false
flipped x e h = ground (arith, eq_iff x e.task.id, eq_iff e.task.id x)

flipped' : (a b : Entry) → (a.task.id == b.task.id) ≡ false → (b.task.id == a.task.id) ≡ false
flipped' a b h = ground (arith, eq_iff a.task.id b.task.id, eq_iff b.task.id a.task.id)

module _ (x : String) (named : nonempty x ≡ true) (q : Queue) (h : Holds x q) where
  pub add-Holds :
      (py : Python) (defaults : Defaults) (task : Task) → Holds x (add py defaults task q).1
  unfolding add
  add-Holds py defaults task =
      elim (Bool-cases (nonempty task.id && contains q.known_ids task.id)) [
        | inl old ↦ rw old h
        | inr new ↦ elim (Option-cases (parse_schedule py defaults task)) [
          | inl bad ↦ rw (new, bad) h
          | inr (schedule, good) ↦
              rw (new, good)
                (record {
                  known = ground (arith, h.known, contains-add task.id x q.known_ids);
                  absent =
                      All-append _ q.entries _ h.absent
                        (ground (arith, h.known, eq_iff x task.id), tt);
                })
        ]
      ]

  pub mark_completed-Holds :
      (task_id : String) (ok : Bool)
      → (task_id == x) ≡ false
      → Holds x (mark_completed task_id ok q)
  unfolding mark_completed
  mark_completed-Holds task_id ok other = record {
    known = ground (arith, h.known, contains-discard task_id x q.known_ids);
    absent = h.absent;
  }

  pub drain_expired-Holds : (now : ℕ) → IsValid q → Holds x (drain_expired now q).1
  unfolding drain_expired
  drain_expired-Holds now v =
      let expired = λ (e : Entry). is_expired now e.schedule in
      let parts = discard_each_parts (filter expired q.entries) q in
      let left = drop_each-filter expired q.entries v.ascending in
      record {
        known =
            ap (λ (ids : List String). contains ids x) parts.1
            ∙ contains-discard_ids (filter expired q.entries) q.known_ids x (
                All-map _ _ (λ e differ. flipped x e differ) _
                  (All-Sub (λ e. (x == e.task.id) ≡ false) (filter-Sub expired q.entries) h.absent))
            ∙ h.known;
        absent =
            rw (parts.0, left)
              (All-Sub (λ e. (x == e.task.id) ≡ false) (filter-Sub (λ e. not (expired e)) q.entries)
                h.absent);
      }

  pub remove-Holds : (task_id : String) → IsValid q → Holds x (remove task_id q).1
  unfolding remove
  remove-Holds task_id v = elim (Option-cases (pull task_id q.entries)) [
    | inl missing ↦ rw (missing, remove) h
    | inr ((found, rest), there) ↦
        let (s, id, listed, apart) = rw there at (pull-Pulled task_id q.entries v.apart) in
        let other : (x == found.task.id) ≡ false = All-Has _ q.entries h.absent listed in
        rw (there, remove)
          (record {
            known = ground (
              arith,
              h.known,
              other,
              id,
              contains-discard task_id x q.known_ids,
              eq_iff x found.task.id,
              eq_iff task_id x,
            );
            absent = All-Sub (λ e. (x == e.task.id) ≡ false) s h.absent;
          })
  ]

  pub next_entry-Holds :
      (probe : String → Bool) (drained now : ℕ)
      → IsValid q
      → Holds x (next_entry probe drained now q).1
  unfolding next_entry
  next_entry-Holds probe drained now v =
      let q' = live drained q in
      let h' : Holds x q' = drain_expired-Holds drained v in
      elim (Option-cases (scan probe now (sorted key_le q'.entries) q'.completed).0) [
        | inl nothing ↦ rw (nothing, next_entry) (record { known = h'.known; absent = h'.absent })
        | inr (e, found) ↦
            rw (found, next_entry)
              (record {
                known = h'.known;
                absent =
                    All-Sub (λ e'. (x == e'.task.id) ≡ false) (drop_entry-Sub e q'.entries)
                      h'.absent;
              })
      ]

-- Taking an entry out leaves no other with its id.
drop_entry-absent :
    (e : Entry) (es : List Entry)
    → nonempty e.task.id ≡ true
    → Has e es
    → Pairs Earlier es
    → Pairs Apart es
    → All (λ y. (e.task.id == y.task.id) ≡ false) (drop_entry e es)
unfolding drop_entry
drop_entry-absent e [] named m a b = absurd m
drop_entry-absent e (y ∷ es) named (inl same) a b =
    rw (← same, eqb_refl e.seq, drop_entry)
      (All-map (Apart e) _ (λ z f. f named) es (rw (← same) at b.0))
drop_entry-absent e (y ∷ es) named (inr m) a b =
    let before : y.seq < e.seq = All-Has _ es a.0 m in
    let other : eqb y.seq e.seq ≡ false = ground arith in
    rw other (
      flipped' y e (Apart-Differs y e (All-Has (Apart y) es b.0 m) named),
      drop_entry-absent e es named m a.1 b.1,
    )

filter-Has : (p : Entry → Bool) (es : List Entry) (e : Entry) → Has e (filter p es) → Has e es
filter-Has p [] e m = m
filter-Has p (x ∷ es) e m = elim (Bool-cases (p x)) [
  | inl t ↦
      let k : (e ≡ x) ⊎ Has e (filter p es) = rw t at m in
      elim k [ inl same ↦ inl same | inr n ↦ inr (filter-Has p es e n) ]
  | inr f ↦ inr (filter-Has p es e (rw f at m))
]

-- What `next_entry` hands out was in the queue.
pub next_entry_was_queued :
    (probe : String → Bool) (drained now : ℕ) (q : Queue)
    → IsValid q
    → {e : Entry} → (next_entry probe drained now q).0 ≡ some e
    → Has e q.entries
next_entry_was_queued probe drained now q v {e} chosen =
    let listed = (next_entry_best_live probe drained now q chosen).0 in
    filter-Has (λ x. not (is_expired drained x.schedule)) q.entries e
      (subst (Has e) (drain_expired_lem drained q v).1 listed)

module _ (probe : String → Bool) (drained now : ℕ) (q : Queue) (v : IsValid q) {e : Entry}
    (chosen : (next_entry probe drained now q).0 ≡ some e) (named : nonempty e.task.id ≡ true) where
  -- The id of an entry that was handed out is known, and no entry that is left has it.
  pub next_entry_chosen-Holds : Holds e.task.id (next_entry probe drained now q).1
  unfolding next_entry
  next_entry_chosen-Holds =
      let q' = live drained q in
      let v' : IsValid q' = drain_expired-IsValid drained q v in
      let listed = (next_entry_best_live probe drained now q chosen).0 in
      elim (Option-cases (scan probe now (sorted key_le q'.entries) q'.completed).0) [
        | inl nothing ↦ absurd (cc (rw (nothing, next_entry) at chosen))
        | inr (e', found) ↦
            let k : some e' ≡ some e = rw (found, next_entry) at chosen in
            let same : e' ≡ e = cc in
            rw (found, same, next_entry)
              (record {
                known = All-Has _ q'.entries v'.known listed named;
                absent = drop_entry-absent e q'.entries named listed v'.ascending v'.apart;
              })
      ]
