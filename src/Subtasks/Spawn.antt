-- ===== src/Subtasks/Spawn.antt =====
-- Which children `spawn` and `spawn_many` start.
use iddo_harness.Prelude.{
  ℕ, zero, suc, ◌≤◌, ◌<◌, String, ◌≡◌, refl, ap, ◌∙◌, ◌==◌, true, false, some, List, [], ◌∷◌, ◌++◌,
  arith, length, length-append, get_elem?, All, All-map, Bool-cases, ◌⊎◌, inl, inr, ltb, leb,
}
use iddo_harness.Prelude.Dict.{Dict, lookup, put, values}
use iddo_harness.Subtasks.{
  Child, Manager, SubTask, is_active, count_active, active_count, Spawned, started, refused,
  Refusal, too_deep, already_in_flight, too_many, in_flight, active_at, new_child, spawn,
  spawn_many,
}
use iddo_harness.Prelude.Result.{ok, err}

-- Every record that the dictionary names is in the store.
pub record IsValid (m : Manager) : Type 0 where
  pub stored : All (λ ref. ref < length m.store) (values m.records)

get_elem?-append :
    (xs : List Child) (c : Child) (i : ℕ)
    → i < length xs
    → get_elem? (xs ++ c ∷ []) i ≡ get_elem? xs i
get_elem?-append [] c i h = absurd (omega arith)
get_elem?-append (x ∷ xs) c zero h = refl
get_elem?-append (x ∷ xs) c (suc i) h = get_elem?-append xs c i (omega arith)

get_elem?-append_end : (xs : List Child) (c : Child) → get_elem? (xs ++ c ∷ []) (length xs) ≡ some c
get_elem?-append_end [] c = refl
get_elem?-append_end (x ∷ xs) c = get_elem?-append_end xs c

count_active-append :
    (store : List Child) (c : Child) (refs : List ℕ)
    → All (λ ref. ref < length store) refs
    → count_active (store ++ c ∷ []) refs ≡ count_active store refs
unfolding is_active
count_active-append store c [] h = refl
count_active-append store c (ref ∷ refs) h =
    ground (arith, get_elem?-append store c ref h.0, count_active-append store c refs h.1)

-- A new active record under an id that is not in flight adds one.
count_active-put :
    (store : List Child) (id : String) (ref : ℕ) (records : Dict ℕ)
    → is_active store ref ≡ true
    → active_at store (lookup id records) ≡ false
    → count_active store (values (put id ref records)) ≡ suc (count_active store (values records))
unfolding lookup put
count_active-put store id ref [] new idle = rw new
count_active-put store id ref ((j, old) ∷ rest) new idle = elim (Bool-cases (j == id)) [
  | inl same ↦ ground arith
  | inr other ↦ ground (arith, count_active-put store id ref rest new)
]

put-All :
    (P : ℕ → Type 0) (id : String) (ref : ℕ) (records : Dict ℕ)
    → P ref
    → All P (values records)
    → All P (values (put id ref records))
unfolding put
put-All P id ref [] p h = (p, tt)
put-All P id ref ((j, old) ∷ rest) p h = elim (Bool-cases (j == id)) [
  | inl same ↦ rw same (p, h.1)
  | inr other ↦ rw other (h.0, put-All P id ref rest p h.1)
]

is_active-new :
    (store : List Child) (task : SubTask) (now : ℕ)
    → is_active (store ++ new_child task now ∷ []) (length store) ≡ true
unfolding is_active
is_active-new store task now = rw (get_elem?-append_end store (new_child task now), is_active)

active_at-append :
    (store : List Child) (c : Child) (id : String) (records : Dict ℕ)
    → All (λ ref. ref < length store) (values records)
    → active_at (store ++ c ∷ []) (lookup id records) ≡ active_at store (lookup id records)
unfolding lookup is_active
active_at-append store c id [] h = refl
active_at-append store c id ((j, ref) ∷ rest) h =
    ground (arith, get_elem?-append store c ref h.0, active_at-append store c id rest h.1)

module _ (task : SubTask) (now : ℕ) (m : Manager) (v : IsValid m) where
  -- What `spawn` leaves when it starts the task.
  abbrev with_child : Manager
  with_child = record m {
    store = m.store ++ new_child task now ∷ [];
    records = put task.id (length m.store) m.records;
    events = put task.id false m.events;
    jobs = m.jobs ++ record { task = task; ref = length m.store } ∷ [];
  }

  with_child-active : in_flight task.id m ≡ false → active_count with_child ≡ suc (active_count m)
  unfolding active_count in_flight
  with_child-active idle =
      let store' = m.store ++ new_child task now ∷ [] in
      count_active-put store' task.id (length m.store) m.records (is_active-new m.store task now)
        (active_at-append m.store (new_child task now) task.id m.records v.stored ∙ idle)
      ∙ ap suc (count_active-append m.store (new_child task now) (values m.records) v.stored)

  with_child-IsValid : IsValid with_child
  with_child-IsValid =
      let longer = length-append {0} m.store (new_child task now ∷ []) in
      record {
        stored =
            put-All (λ ref. ref < length with_child.store) task.id (length m.store) m.records
              (omega arith)
              (All-map (λ ref. ref < length m.store) _ (λ ref h. omega (arith, longer, h))
                (values m.records) v.stored);
      }

module _ (task : SubTask) (now : ℕ) (m : Manager) where
  -- `spawn` refuses a task that is too deep, then one whose id is in flight, then one too many; and
  -- a refusal changes nothing.
  pub spawn-refused :
      (why : Refusal)
      → (spawn task now m).0 ≡ refused why
      → ((spawn task now m).1 ≡ m)
        × ((why ≡ too_deep) × (m.max_depth < task.depth)
            ⊎ (why ≡ already_in_flight) × (in_flight task.id m ≡ true)
            ⊎ (why ≡ too_many) × (m.max_active ≤ active_count m))
  unfolding spawn
  spawn-refused why h = ground arith

  -- A task that `spawn` starts is not too deep, and there was room for it; afterwards one more child
  -- is active, and still at most `max_active`; its id is in flight.
  pub spawn-started :
      IsValid m
      → (c : Child) → (spawn task now m).0 ≡ started c
      → (task.depth ≤ m.max_depth)
        × (in_flight task.id m ≡ false)
        × (active_count (spawn task now m).1 ≡ suc (active_count m))
        × (active_count (spawn task now m).1 ≤ m.max_active)
        × IsValid (spawn task now m).1
  unfolding spawn
  spawn-started v c h = elim (Bool-cases (ltb m.max_depth task.depth)) [
    | inl deep ↦ cc (rw deep at h)
    | inr fits ↦ elim (Bool-cases (in_flight task.id m)) [
      | inl busy ↦ cc (rw (fits, busy) at h)
      | inr idle ↦ elim (Bool-cases (leb m.max_active (active_count m))) [
        | inl full ↦ cc (rw (fits, idle, full) at h)
        | inr room ↦
            rw (fits, idle, room)
              (
                ground arith,
                refl,
                with_child-active task now m v idle,
                ground (arith, with_child-active task now m v idle),
                with_child-IsValid task now m v,
              )
      ]
    ]
  ]

Spawned-cases :
    (s : Spawned) → ((why : Refusal) × (s ≡ refused why)) ⊎ ((c : Child) × (s ≡ started c))
Spawned-cases (refused why) = inl (why, refl)
Spawned-cases (started c) = inr (c, refl)

spawn-max_active :
    (task : SubTask) (now : ℕ) (m : Manager) → (spawn task now m).1.max_active ≡ m.max_active
unfolding spawn
spawn-max_active task now m = ground arith

-- At most `max_active` children are active.
abbrev pub IsBounded : Manager → Type 0
IsBounded m = IsValid m × (active_count m ≤ m.max_active)

spawn-IsBounded :
    (task : SubTask) (now : ℕ) (m : Manager) → IsBounded m → IsBounded (spawn task now m).1
spawn-IsBounded task now m (v, h) = elim (Spawned-cases (spawn task now m).0) [
  | inl (why, no_) ↦ rw (spawn-refused task now m why no_).0 (v, h)
  | inr (c, yes_) ↦
      let (shallow, idle, more, room, v') = spawn-started task now m v c yes_ in
      let limit = spawn-max_active task now m in (v', omega (arith, room, limit))
]

-- What other threads do.
module _ (others : ℕ → Manager → Manager) (clock : ℕ → ℕ) where
  -- `spawn_many`, with any steps of other threads in between that keep at most `max_active` children
  -- active, keeps at most `max_active` active too, whether it ends or raises; and when it ends it
  -- returns one record for each task.
  pub spawn_many-IsBounded :
      (tasks : List SubTask) (m : Manager)
      → ((n : ℕ) (m' : Manager) → IsBounded m' → IsBounded (others n m'))
      → IsBounded m
      → IsBounded (spawn_many others clock tasks m).1
        × (((why : Refusal) × ((spawn_many others clock tasks m).0 ≡ err why))
            ⊎ ((cs : List Child) × ((spawn_many others clock tasks m).0 ≡ ok cs)
                × (length cs ≡ length tasks)))
  unfolding spawn_many
  spawn_many-IsBounded [] m keeps h = (h, inr ([], refl, refl))
  spawn_many-IsBounded (task ∷ tasks) m keeps h =
      let left = length tasks in
      let before = others left m in
      let after = (spawn task (clock left) before).1 in
      let step : IsBounded after = spawn-IsBounded task (clock left) before (keeps left m h) in
      let (rest, answer) = spawn_many-IsBounded tasks after keeps step in
      elim (Spawned-cases (spawn task (clock left) before).0) [
        | inl (why, no_) ↦ rw (no_, spawn_many) (step, inl (why, refl))
        | inr (c, yes_) ↦ elim answer [
          | inl (why, halt) ↦ rw (yes_, halt, spawn_many) (rest, inl (why, refl))
          | inr (cs, all, same) ↦
              rw (yes_, all, spawn_many) (rest, inr (c ∷ cs, refl, omega (arith, same)))
        ]
      ]
