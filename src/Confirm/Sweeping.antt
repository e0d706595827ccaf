-- ===== src/Confirm/Sweeping.antt =====
-- The sweep of the confirmation queue denies the requests that are late, and no others; and what the
-- poller makes of the answers.
use iddo_harness.Prelude.{
  ℕ, ◌*◌, String, ◌==◌, eq_iff, ◌≡◌, refl, Bool, true, false, ◌&&◌, ◌||◌, not, List, [], ◌∷◌, arith,
  Bool-cases, Option-cases, inl, inr, is_some,
}
use iddo_harness.Prelude.Dict.{Dict, lookup, keys}
use iddo_harness.Prelude.Ids.{contains, contains-add}
use iddo_harness.Prelude.Sorting.{insert, sorted}
use iddo_harness.Confirm.{
  Dir, Queue, answer, respond, has_response, before, pending_ids, is_late, overdue, sweep_each,
  sweep, sweep_timeouts,
}

contains-insert :
    (le : String → String → Bool) (x j : String) (xs : List String)
    → contains (insert le x xs) j ≡ contains (x ∷ xs) j
unfolding contains insert
contains-insert le x j [] = refl
contains-insert le x j (y ∷ ys) = ground (arith, contains-insert le x j ys)

contains-sorted :
    (le : String → String → Bool) (j : String) (xs : List String)
    → contains (sorted le xs) j ≡ contains xs j
unfolding contains sorted
contains-sorted le j [] = refl
contains-sorted le j (x ∷ xs) =
    rw (contains-insert le x j (sorted le xs)) (ground (arith, contains-sorted le j xs))

contains-keys {ℓ} :
    {V : Type ℓ} (j : String) (m : Dict V) → contains (keys m) j ≡ is_some (lookup j m)
unfolding contains lookup
contains-keys j [] = refl
contains-keys j ((i, v) ∷ m) = ground (arith, contains-keys j m)

answer-has_response :
    (id j : String) (d : Dir) → has_response (answer id false d) j ≡ (has_response d j || (id == j))
unfolding has_response answer
answer-has_response id j d = ground (arith, contains-add id j d.denied)

answer-overdue :
    (now timeout : ℕ) (id j : String) (d : Dir)
    → overdue now timeout (answer id false d) j ≡ (overdue now timeout d j && not (id == j))
unfolding overdue answer
answer-overdue now timeout id j d = rw (answer-has_response id j d) (ground arith)

overdue-pending :
    (now timeout : ℕ) (j : String) (d : Dir)
    → overdue now timeout d j ≡ true
    → contains (pending_ids d) j ≡ true
unfolding overdue is_late pending_ids
overdue-pending now timeout j d h =
    rw (contains-sorted before j (keys d.pending), contains-keys j d.pending)
      (elim (Option-cases (lookup j d.pending)) [ inl e ↦ ground arith | inr (f, e) ↦ rw e refl ])

module _ {ℓ} {S : Type ℓ} (queue_of : S → Queue) (deny : String → S → S)
    (denies : (id : String) (s : S)
      → (queue_of (deny id s)).local_dir ≡ answer id false (queue_of s).local_dir)
    (now timeout : ℕ) where
  -- After the loop a request has an answer if it had one before, or if it is one of those that the
  -- loop is about and was late; and the latter are those that the loop lists.
  abbrev Swept : List String → S → S × List String → String → Type 0
  Swept ids s result j =
      let d = (queue_of s).local_dir in
      (has_response (queue_of result.0).local_dir j
        ≡ (has_response d j || (contains ids j && overdue now timeout d j)))
      × (contains result.1 j ≡ (contains ids j && overdue now timeout d j))

  sweep_each-Swept :
      (ids : List String) (s : S) (j : String)
      → Swept ids s (sweep_each queue_of deny now timeout ids s) j
  unfolding sweep_each contains
  sweep_each-Swept [] s j = (ground arith, refl)
  sweep_each-Swept (id ∷ ids) s j =
      elim (Bool-cases (overdue now timeout (queue_of s).local_dir id)) [
        | inl e ↦
            let (answers, listed) = sweep_each-Swept ids (deny id s) j in
            let d = (queue_of s).local_dir in
            let denied = denies id s in
            let answers' = rw denied at answers in
            let listed' = rw denied at listed in
            rw (sweep_each, e)
              (
                ground (
                  arith,
                  answers',
                  answer-has_response id j d,
                  answer-overdue now timeout id j d,
                  eq_iff id j,
                ),
                ground (arith, listed', answer-overdue now timeout id j d, eq_iff id j),
              )
        | inr e ↦
            let (answers, listed) = sweep_each-Swept ids s j in
            rw (sweep_each, e) (ground (arith, eq_iff id j), ground (arith, eq_iff id j))
      ]

  pub sweep-answers :
      (s : S) (j : String)
      → let d = (queue_of s).local_dir in
        let result = sweep queue_of deny now timeout s in
        (has_response (queue_of result.0).local_dir j
          ≡ (has_response d j || overdue now timeout d j))
        × (contains result.1 j ≡ overdue now timeout d j)
  unfolding sweep
  sweep-answers s j =
      let d = (queue_of s).local_dir in
      let (answers, listed) = sweep_each-Swept (pending_ids d) s j in
      let known = overdue-pending now timeout j d in
      (ground (arith, answers, known), ground (arith, listed, known))

-- After sweep_timeouts a request has an answer exactly if it had one before or was late, that is, had
-- waited for the given number of minutes without an answer; and the ids that are returned are those of
-- the late ones.
pub sweep_timeouts-answers :
    (mirrored : Bool) (minutes now : ℕ) (q : Queue) (j : String)
    → let (r, denied) = sweep_timeouts mirrored minutes now q in
      (has_response r.local_dir j
        ≡ (has_response q.local_dir j || overdue now (minutes * 60) q.local_dir j))
      × (contains denied j ≡ overdue now (minutes * 60) q.local_dir j)
unfolding sweep_timeouts respond
sweep_timeouts-answers mirrored minutes now q j =
    sweep-answers (λ r. r) (λ id. respond mirrored id false) (λ id s. refl) now (minutes * 60) q j
