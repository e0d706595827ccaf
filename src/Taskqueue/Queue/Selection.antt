-- ===== src/Taskqueue/Queue/Selection.antt =====
-- Which entry `next_entry` takes.
use iddo_harness.Prelude.{
  ◌<◌, ◌≤◌, ◌⊎◌, All-map, filter, ◌∙◌, fun_ext, inl, inr, ℕ, String, ◌≡◌, refl, Bool, true, false,
  none, some, List, [], ◌∷◌, arith, find, find-Has, find-none, none-find, All, Has, ◌↔◌, sym,
  Bool-cases, ap, leb, not, subst,
}
use iddo_harness.Prelude.Sorting.{sorted, sorted-Has, sorted-All, All-sorted, find-sorted_least}
use iddo_harness.Taskqueue.Schedule.{rank, high}
use iddo_harness.Taskqueue.Queue.Invariant.{IsValid}
use iddo_harness.Taskqueue.Queue.Expiry.{drain_expired_lem}
use iddo_harness.Taskqueue.Queue.{
  Entry, Queue, key_le, blocked_reason, scan, drain_expired, next_entry, is_expired,
}
use iddo_harness.Taskqueue.Queue.Dependencies.{
  done, ready, blocked_reason-eq-ready, done-blocked_reason,
}

-- The stateful scan picks what a plain search with the initial knowledge picks.
scan-eq-find :
    (probe known : String → Bool) (now : ℕ) (es : List Entry) (completed : List String)
    → done probe completed ≡ known
    → (scan probe now es completed).0 ≡ find (ready known now) es
unfolding scan
scan-eq-find probe known now [] completed h = refl
scan-eq-find probe known now (e ∷ es) completed h = ground (
  arith,
  blocked_reason-eq-ready probe now e completed,
  scan-eq-find probe known now es (blocked_reason probe now e completed).1
      (fun_ext (λ d. done-blocked_reason probe now e completed d) ∙ h),
)

key_le_total : (a b : Entry) → key_le a b ≡ false → key_le b a ≡ true
unfolding key_le
key_le_total a b h = ground arith

key_le_trans : (a b c : Entry) → key_le a b ≡ true → key_le b c ≡ true → key_le a c ≡ true
unfolding key_le
key_le_trans a b c h k = ground arith

-- The one has a higher priority, or the same one and came no later.
abbrev pub ComesBefore : Entry → Entry → Type 0
ComesBefore a b =
    (rank a.schedule.priority < rank b.schedule.priority)
    ⊎ (rank a.schedule.priority ≡ rank b.schedule.priority) × (a.seq ≤ b.seq)

key_le-ComesBefore : (a b : Entry) → key_le a b ≡ true → ComesBefore a b
unfolding key_le
key_le-ComesBefore a b h = ground arith

All-filter :
    (P : Entry → Type 0) (p : Entry → Bool) (es : List Entry)
    → All (λ x. p x ≡ true → P x) es
    → All P (filter p es)
All-filter P p [] h = tt
All-filter P p (e ∷ es) h = elim (Bool-cases (p e)) [
  | inl in_ ↦ rw in_ (h.0 in_, All-filter P p es h.1)
  | inr out ↦ rw out (All-filter P p es h.1)
]

-- What is left of the queue after the expired entries are drained, before the scan.
abbrev pub live : ℕ → Queue → Queue
live drained q = (drain_expired drained q).1

module _ (probe : String → Bool) (drained now : ℕ) (q : Queue) where
  abbrev pub eligible : Entry → Bool
  eligible = ready (done probe (live drained q).completed) now

  -- `next_entry` picks the first eligible entry in the order of the sort key.
  next_entry-eq-find :
      (next_entry probe drained now q).0 ≡ find eligible (sorted key_le (live drained q).entries)
  unfolding next_entry
  next_entry-eq-find = ground (
    arith,
    scan-eq-find probe (done probe (live drained q).completed) now
        (sorted key_le (live drained q).entries) (live drained q).completed refl,
  )

  pub next_entry_best_live :
      {e : Entry}
      → (next_entry probe drained now q).0 ≡ some e
      → Has e (live drained q).entries
        × (eligible e ≡ true)
        × All (ComesBefore e) (filter eligible (live drained q).entries)
  next_entry_best_live {e} h =
      let found = sym next_entry-eq-find ∙ h in
      let (listed, may_run) = find-Has eligible (sorted key_le (live drained q).entries) found in
      (
        sorted-Has key_le e (live drained q).entries listed,
        may_run,
        All-map _ _ (key_le-ComesBefore e) (filter eligible (live drained q).entries) (
            All-filter (λ x. key_le e x ≡ true) eligible (live drained q).entries
              (find-sorted_least key_le key_le_total key_le_trans eligible (live drained q).entries
                found)),
      )

  no_eligible_iff :
      ((next_entry probe drained now q).0 ≡ none)
      ↔ All (λ x. eligible x ≡ false) (live drained q).entries
  no_eligible_iff = (
    (λ h.
        sorted-All key_le (λ x. eligible x ≡ false) (live drained q).entries
          (find-none eligible _ (sym next_entry-eq-find ∙ h))),
    (λ h.
        next_entry-eq-find
        ∙ none-find eligible _
            (All-sorted key_le (λ x. eligible x ≡ false) (live drained q).entries h)),
  )

-- An entry has no deadline, a high priority, or a deadline that has not passed.
abbrev pub fresh : ℕ → Entry → Bool
fresh now e = elim e.schedule.deadline [
  | none ↦ true
  | some deadline ↦ elim e.schedule.priority [ high ↦ true | _ ↦ leb now deadline ]
]

fresh-eq : (now : ℕ) (e : Entry) → not (is_expired now e.schedule) ≡ fresh now e
unfolding is_expired
fresh-eq now e = ground arith

-- Nothing else in the queue decides: its start has come, and each dependency is recorded or confirmed.
abbrev pub may_run : (String → Bool) → ℕ → Queue → Entry → Bool
may_run probe now q = ready (done probe q.completed) now

module _ (probe : String → Bool) (drained now : ℕ) (q : Queue) (v : IsValid q) where
  live_entries : (live drained q).entries ≡ filter (fresh drained) q.entries
  live_entries =
      (drain_expired_lem drained q v).1
      ∙ ap (λ (p : Entry → Bool). filter p q.entries) (fun_ext (fresh-eq drained))

  live_eligible : eligible probe drained now q ≡ may_run probe now q
  live_eligible =
      ap (λ (c : List String). ready (done probe c) now) (drain_expired_lem drained q v).2

  -- An entry that `next_entry` takes from a valid queue was in it, and its deadline had not passed at
  -- the instant of the draining or its priority is high; it may run now (its start has come and all
  -- of its dependencies are done), and comes first by rank and then by arrival among the entries of
  -- which all this holds.
  pub next_entry_takes_best :
      {e : Entry}
      → (next_entry probe drained now q).0 ≡ some e
      → Has e (filter (fresh drained) q.entries)
        × (may_run probe now q e ≡ true)
        × All (ComesBefore e) (filter (may_run probe now q) (filter (fresh drained) q.entries))
  next_entry_takes_best {e} h =
      subst
        (λ (es : List Entry).
          Has e es
          × (may_run probe now q e ≡ true)
          × All (ComesBefore e) (filter (may_run probe now q) es))
        live_entries
        (subst
          (λ (p : Entry → Bool).
            Has e (live drained q).entries
            × (p e ≡ true)
            × All (ComesBefore e) (filter p (live drained q).entries))
          live_eligible (next_entry_best_live probe drained now q h))

  -- `next_entry` takes nothing from a valid queue exactly when no entry whose deadline has not passed,
  -- or whose priority is high, may run now.
  pub next_entry-none_iff :
      ((next_entry probe drained now q).0 ≡ none)
      ↔ All (λ x. may_run probe now q x ≡ false) (filter (fresh drained) q.entries)
  next_entry-none_iff =
      subst
        (λ (es : List Entry).
          ((next_entry probe drained now q).0 ≡ none) ↔ All (λ x. may_run probe now q x ≡ false) es)
        live_entries
        (subst
          (λ (p : Entry → Bool).
            ((next_entry probe drained now q).0 ≡ none)
            ↔ All (λ x. p x ≡ false) (live drained q).entries)
          live_eligible (no_eligible_iff probe drained now q))
