-- ===== src/Subtasks/Await.antt =====
-- What the answer of `await_tasks` says of the ids that it was asked about.
use iddo_harness.Prelude.{
  suc, ◌+◌, String, ◌≡◌, refl, ap, ap₂, ◌∙◌, Bool, false, ◌&&◌, not, Option, none, some, List, [],
  ◌∷◌, arith, all, filter, length, Option-cases, inl, inr, is_empty,
}
use iddo_harness.Subtasks.{
  Child, Manager, status, Awaited, is_known, read_all, wait_each, child_finished, child_succeeded,
  answer, await_tasks,
}

length-filter-not {ℓ} :
    {A : Type ℓ} (p : A → Bool) (xs : List A)
    → length (filter p xs) + length (filter (λ x. not (p x)) xs) ≡ length xs
length-filter-not p [] = omega arith
length-filter-not p (x ∷ xs) = ground (arith, length-filter-not p xs)

length-read_all :
    (m : Manager) (ids : List String) (cs : List Child)
    → read_all m ids ≡ some cs
    → length cs ≡ length ids
unfolding read_all
length-read_all m [] cs h = ground arith
length-read_all m (id ∷ ids) cs h = elim (Option-cases (status id m)) [
  | inl gone ↦ cc (rw (gone, read_all) at h)
  | inr (c, here) ↦ elim (Option-cases (read_all m ids)) [
    | inl bad ↦ cc (rw (here, bad, read_all) at h)
    | inr (rest, good) ↦
        let k : some (c ∷ rest) ≡ some cs = rw (here, good, read_all) at h in
        let e : c ∷ rest ≡ cs = cc in rw (← e) (ap suc (length-read_all m ids rest good))
  ]
]

-- The records that the answer is made of.
await_tasks_inv :
    (ids : List String) (require_all : Bool) (waits : List (Bool × Bool)) (before later : Manager)
    (a : Awaited)
    → await_tasks ids require_all waits before later ≡ some a
    → (cs : List Child) × (timed_out : Bool) × (read_all later (filter (is_known before) ids)
        ≡ some cs)
      × (a ≡ answer (filter (λ t. not (is_known before t)) ids) cs timed_out)
unfolding await_tasks
await_tasks_inv [] require_all waits before later a h = ([], false, refl, cc)
await_tasks_inv (id ∷ ids) require_all waits before later a h =
    let asked : List String = id ∷ ids in
    elim (Option-cases (read_all later (filter (is_known before) asked))) [
      | inl bad ↦ cc (rw (bad, await_tasks) at h)
      | inr (cs, good) ↦
          let found =
            answer (filter (λ t. not (is_known before t)) asked) cs
              (wait_each require_all waits false) in
          let k : some found ≡ some a = rw (good, await_tasks) at h in
          (cs, wait_each require_all waits false, good, cc)
    ]

-- Every id that is asked about is counted once: as completed, as pending or as unknown.
pub await_tasks-counts :
    (ids : List String) (require_all : Bool) (waits : List (Bool × Bool)) (before later : Manager)
    (a : Awaited)
    → await_tasks ids require_all waits before later ≡ some a
    → length a.completed + length a.pending + length a.unknown ≡ length ids
unfolding answer
await_tasks-counts ids require_all waits before later a h =
    let (cs, timed_out, good, e) = await_tasks_inv ids require_all waits before later a h in
    rw e (
      omega (
        arith,
        length-filter-not {0} child_finished cs,
        length-filter-not {0} (is_known before) ids,
        length-read_all later (filter (is_known before) ids) cs good,
      ))

is_empty-filter-not :
    (p : String → Bool) (xs : List String) → is_empty (filter (λ x. not (p x)) xs) ≡ all p xs
is_empty-filter-not p [] = refl
is_empty-filter-not p (x ∷ xs) = ground (arith, is_empty-filter-not p xs)

finished_and_succeeded :
    (cs : List Child)
    → (is_empty (filter (λ c. not (child_finished c)) cs)
        && all child_succeeded (filter child_finished cs))
      ≡ all child_succeeded cs
finished_and_succeeded [] = refl
finished_and_succeeded (c ∷ cs) = ground (arith, finished_and_succeeded cs)

abbrev succeeded_in : Option Child → Bool
succeeded_in none = false
succeeded_in (some c) = child_succeeded c

-- The child of an id, if there is one, has succeeded.
abbrev pub has_succeeded : Manager → String → Bool
has_succeeded m id = succeeded_in (status id m)

all-read_all :
    (m : Manager) (ids : List String) (cs : List Child)
    → read_all m ids ≡ some cs
    → all child_succeeded cs ≡ all (has_succeeded m) ids
unfolding read_all
all-read_all m [] cs h = ground arith
all-read_all m (id ∷ ids) cs h = elim (Option-cases (status id m)) [
  | inl gone ↦ cc (rw (gone, read_all) at h)
  | inr (c, here) ↦ elim (Option-cases (read_all m ids)) [
    | inl bad ↦ cc (rw (here, bad, read_all) at h)
    | inr (rest, good) ↦
        let k : some (c ∷ rest) ≡ some cs = rw (here, good, read_all) at h in
        let e : c ∷ rest ≡ cs = cc in
        rw (← e, here) (ap (λ b. child_succeeded c && b) (all-read_all m ids rest good))
  ]
]

all-filter :
    (p q : String → Bool) (xs : List String)
    → (all p xs && all q (filter p xs)) ≡ all (λ x. p x && q x) xs
all-filter p q [] = refl
all-filter p q (x ∷ xs) = ground (arith, all-filter p q xs)

-- The answer is `ok` exactly when every id that was asked about was known at the start, and its
-- child has succeeded by the time the records are read.
pub await_tasks-ok :
    (ids : List String) (require_all : Bool) (waits : List (Bool × Bool)) (before later : Manager)
    (a : Awaited)
    → await_tasks ids require_all waits before later ≡ some a
    → a.ok ≡ all (λ id. is_known before id && has_succeeded later id) ids
unfolding answer
await_tasks-ok ids require_all waits before later a h =
    let (cs, timed_out, good, e) = await_tasks_inv ids require_all waits before later a h in
    let known = filter (is_known before) ids in
    rw e (
      ap₂ (λ x y. x && y) (is_empty-filter-not (is_known before) ids)
        (finished_and_succeeded cs ∙ all-read_all later known cs good)
      ∙ all-filter (is_known before) (has_succeeded later) ids)
