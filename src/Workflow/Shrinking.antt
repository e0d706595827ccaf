-- ===== src/Workflow/Shrinking.antt =====
-- Each pass of the workflow runner that goes on leaves less to do.
use iddo_harness.Prelude.{
  ℕ, zero, suc, ◌+◌, ◌-◌, ◌≤◌, ◌<◌, String, ◌==◌, eq_iff, ◌≡◌, refl, Bool, true, false, ◌&&◌, ◌||◌,
  not, List, [], ◌∷◌, ◌++◌, arith, length, length-append, all, filter, take, All, Bool-cases, inl,
  inr, is_some, is_empty,
}
use iddo_harness.Prelude.Dict.{lookup}
use iddo_harness.Workflow.{
  Node, Spec, Plan, without, has_id, launch, ready_nodes, ready_listed, visit, visit_all, settle,
}
use iddo_harness.Workflow.Run.{Finished, Turn, settle_each}

pub has_id-without :
    (i j : String) (nodes : List Node)
    → has_id j (without i nodes) ≡ (not (i == j) && has_id j nodes)
has_id-without i j [] = ground arith
has_id-without i j (n ∷ nodes) =
    ground (arith, has_id-without i j nodes, eq_iff n.id i, eq_iff n.id j, eq_iff i j)

pub has_id-append :
    (j : String) (xs ys : List Node) → has_id j (xs ++ ys) ≡ (has_id j xs || has_id j ys)
has_id-append j [] ys = refl
has_id-append j (x ∷ xs) ys = ground (arith, has_id-append j xs ys)

length-without_le : (i : String) (nodes : List Node) → length (without i nodes) ≤ length nodes
length-without_le i [] = omega arith
length-without_le i (n ∷ nodes) = ground (arith, length-without_le i nodes)

length-without :
    (i : String) (nodes : List Node)
    → has_id i nodes ≡ true
    → length (without i nodes) < length nodes
length-without i [] h = cc
length-without i (n ∷ nodes) h = elim (Bool-cases (n.id == i)) [
  | inl e ↦ rw e (omega (arith, length-without_le i nodes))
  | inr e ↦ rw e (omega (arith, length-without i nodes (rw e at h)))
]

-- No two nodes have the same id.
abbrev pub Unique : List Node → Type 0
Unique [] = Unit
Unique (n ∷ nodes) = (has_id n.id nodes ≡ false) × Unique nodes

has_id-filter :
    (p : Node → Bool) (j : String) (nodes : List Node)
    → has_id j nodes ≡ false
    → has_id j (filter p nodes) ≡ false
has_id-filter p j [] h = refl
has_id-filter p j (n ∷ nodes) h = ground (arith, has_id-filter p j nodes)

filter-Unique : (p : Node → Bool) (nodes : List Node) → Unique nodes → Unique (filter p nodes)
filter-Unique p [] h = tt
filter-Unique p (n ∷ nodes) h = elim (Bool-cases (p n)) [
  | inl e ↦ rw e (has_id-filter p n.id nodes h.0, filter-Unique p nodes h.1)
  | inr e ↦ rw e (filter-Unique p nodes h.1)
]

has_id-take :
    (k : ℕ) (j : String) (nodes : List Node)
    → has_id j nodes ≡ false
    → has_id j (take k nodes) ≡ false
has_id-take zero j nodes h = refl
has_id-take (suc k) j [] h = refl
has_id-take (suc k) j (n ∷ nodes) h = ground (arith, has_id-take k j nodes)

take-Unique : (k : ℕ) (nodes : List Node) → Unique nodes → Unique (take k nodes)
take-Unique zero nodes h = tt
take-Unique (suc k) [] h = tt
take-Unique (suc k) (n ∷ nodes) h = (has_id-take k n.id nodes h.0, take-Unique k nodes h.1)

abbrev Waiting : List Node → Node → Type 0
Waiting pending n = has_id n.id pending ≡ true

All-take {κ} : (P : Node → Type κ) (k : ℕ) (nodes : List Node) → All P nodes → All P (take k nodes)
All-take P zero nodes h = tt
All-take P (suc k) [] h = tt
All-take P (suc k) (n ∷ nodes) h = (h.0, All-take P k nodes h.1)

ready_listed-Waiting :
    (p : Plan) (nodes : List Node) → All (Waiting p.pending) (ready_listed p nodes)
unfolding ready_listed
ready_listed-Waiting p [] = tt
ready_listed-Waiting p (n ∷ nodes) =
    elim (Bool-cases
      (has_id n.id p.pending && all (λ dep. is_some (lookup dep p.outcomes)) n.depends_on)) [
        | inl e ↦ rw e (ground arith, ready_listed-Waiting p nodes)
        | inr e ↦ rw e (ready_listed-Waiting p nodes)
      ]

abbrev pub size : Plan → ℕ
size p = length p.pending + length p.in_flight

visit-size : (node : Node) (p : Plan) → Waiting p.pending node → size (visit node p) ≤ size p
unfolding visit
visit-size node p h =
    ground (arith, length-append p.in_flight (node ∷ []), length-without node.id p.pending h)

visit-pending : (node : Node) (p : Plan) → (visit node p).pending ≡ without node.id p.pending
unfolding visit
visit-pending node p = ground arith

still_Waiting :
    (i : String) (pending nodes : List Node)
    → has_id i nodes ≡ false
    → All (Waiting pending) nodes
    → All (Waiting (without i pending)) nodes
still_Waiting i pending [] u h = tt
still_Waiting i pending (n ∷ nodes) u h = (
  rw (has_id-without i n.id pending) (ground (arith, h.0, eq_iff i n.id, eq_iff n.id i)),
  still_Waiting i pending nodes (ground arith) h.1,
)

visit_all-size :
    (nodes : List Node) (p : Plan)
    → Unique nodes
    → All (Waiting p.pending) nodes
    → size (visit_all nodes p) ≤ size p
unfolding visit_all
visit_all-size [] p u h = omega arith
visit_all-size (node ∷ nodes) p u h =
    let rest : All (Waiting (visit node p).pending) nodes =
      rw (visit-pending node p) (still_Waiting node.id p.pending nodes u.0 h.1) in
    omega (arith, visit_all-size nodes (visit node p) u.1 rest, visit-size node p h.0)

ready_listed-Unique : (p : Plan) (nodes : List Node) → Unique nodes → Unique (ready_listed p nodes)
unfolding ready_listed
ready_listed-Unique p nodes u = filter-Unique _ nodes u

pub launch-size :
    (spec : Spec) (is_cancelled : Bool) (p : Plan)
    → Unique spec.nodes
    → size (launch spec is_cancelled p) ≤ size p
unfolding launch ready_nodes
launch-size spec is_cancelled p u =
    let listed = ready_listed p spec.nodes in
    let slots = spec.max_parallel - length p.in_flight in
    elim (Bool-cases (not p.stop_launching && not is_cancelled)) [
      | inl go ↦ rw go (
          visit_all-size (take slots listed) p
            (take-Unique slots listed (ready_listed-Unique p spec.nodes u))
            (All-take (Waiting p.pending) slots listed (ready_listed-Waiting p spec.nodes)))
      | inr halt ↦ rw halt (omega arith)
    ]

settle-size :
    (spec : Spec) (node : Node) (ok : Bool) (p : Plan) → size (settle spec node ok p) ≤ size p
unfolding settle
settle-size spec node ok p = omega (arith, length-without_le node.id p.in_flight)

settle_each-size :
    (spec : Spec) (done : List Finished) (p : Plan) → size (settle_each spec done p) ≤ size p
unfolding settle_each
settle_each-size spec [] p = omega arith
settle_each-size spec ((node, ok) ∷ done) p =
    omega (arith, settle_each-size spec done (settle spec node ok p), settle-size spec node ok p)

-- `wait` returns at least one of the futures that it is given, and no other.
abbrev pub Honest : Turn → Type 0
Honest turn =
    (nodes : List Node)
    → is_empty nodes ≡ false
    → (is_empty (turn.wait nodes) ≡ false)
      × All (λ (d : Finished). has_id d.0.id nodes ≡ true) (turn.wait nodes)

settle_some-size :
    (spec : Spec) (done : List Finished) (p : Plan)
    → is_empty done ≡ false
    → All (λ (d : Finished). has_id d.0.id p.in_flight ≡ true) done
    → size (settle_each spec done p) < size p
unfolding settle_each settle
settle_some-size spec [] p e h = cc
settle_some-size spec ((node, ok) ∷ done) p e h = omega (
  arith,
  settle_each-size spec done (settle spec node ok p),
  length-without node.id p.in_flight h.0,
)

pub pass-size :
    (spec : Spec) (turn : Turn) (p : Plan)
    → Unique spec.nodes
    → Honest turn
    → is_empty (launch spec turn.cancelled_before p).in_flight ≡ false
    → let q = launch spec turn.cancelled_before p in
      size (settle_each spec (turn.wait q.in_flight) q) < size p
pass-size spec turn p u honest busy =
    let q = launch spec turn.cancelled_before p in
    let (some_done, known) = honest q.in_flight busy in
    omega (
      arith,
      settle_some-size spec (turn.wait q.in_flight) q some_done known,
      launch-size spec turn.cancelled_before p u,
    )
