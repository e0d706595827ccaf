-- ===== src/Confirm/Scanning.antt =====
-- What the poller makes of the answers: no request is resumed without one.
use iddo_harness.Prelude.{
  String, ◌≡◌, refl, Bool, some, List, [], ◌∷◌, arith, Option-cases, inl, inr, All, All-map,
}
use iddo_harness.Prelude.Dict.{lookup-remove}
use iddo_harness.Confirm.{
  Pending, Queue, Task, task_of, check_response, pending_ids, read_pending, unlink, scan_each,
  scan_pending,
}

-- A task was asked for by a request of the queue, and its answer stands there.
abbrev pub Answered : Queue → Task × Bool → Type 0
Answered q resolved =
    (id : String) × (p : Pending) × (read_pending q.local_dir id ≡ some p)
    × (check_response q id ≡ some resolved.1)
    × (task_of p ≡ resolved.0)

unlink-Answered :
    (id : String) (q : Queue) (r : Task × Bool) → Answered (unlink id q) r → Answered q r
unfolding unlink check_response
unlink-Answered id q r (j, p, readable, answer, same) =
    (j, p, ground (arith, lookup-remove id j q.local_dir.pending), answer, same)

scan_each-Answered : (ids : List String) (q : Queue) → All (Answered q) (scan_each ids q).1
unfolding scan_each
scan_each-Answered [] q = tt
scan_each-Answered (id ∷ ids) q = elim (Option-cases (check_response q id)) [
  | inl e ↦ rw (scan_each, e) (scan_each-Answered ids q)
  | inr (approved, e) ↦ elim (Option-cases (read_pending q.local_dir id)) [
    | inl f ↦ rw (scan_each, e, f) (scan_each-Answered ids q)
    | inr (p, f) ↦
        rw (scan_each, e, f)
          (
            (id, p, f, e, refl),
            All-map (Answered (unlink id q)) (Answered q) (unlink-Answered id q) _
                (scan_each-Answered ids (unlink id q)),
          )
  ]
]

-- Every task that scan_pending hands out was asked for by a request of the queue, and is handed out
-- as approved or denied as check_response finds the request.
pub scan_pending-Answered : (swept : Queue) → All (Answered swept) (scan_pending swept).1
unfolding scan_pending
scan_pending-Answered swept = scan_each-Answered (pending_ids swept.local_dir) swept
