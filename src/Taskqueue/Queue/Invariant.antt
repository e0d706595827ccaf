-- ===== src/Taskqueue/Queue/Invariant.antt =====
-- What every queue that the program builds satisfies: arrival numbers rise, an id is queued at most
-- once, and every queued id is known.
use iddo_harness.Prelude.{
  ◌<◌, String, ◌≡◌, ◌==◌, true, false, List, [], ◌∷◌, arith, All, Bool-cases, inl, inr, eqb,
  nonempty,
}
use iddo_harness.Prelude.Ids
use iddo_harness.Prelude.Ids.{contains, contains-add, contains-discard}
use iddo_harness.Prelude.Sublists.{Sub, stop, keep, skip, Sub-refl, All-Sub, Pairs, Pairs-Sub}
use iddo_harness.Taskqueue.Queue.{Entry, Queue, empty, drop_entry}

abbrev pub Earlier : Entry → Entry → Type 0
Earlier a b = a.seq < b.seq

-- Two entries do not share an id, unless it is empty.
abbrev pub Apart : Entry → Entry → Type 0
Apart a b = nonempty a.task.id ≡ true → (a.task.id == b.task.id) ≡ false

abbrev pub Known : List String → Entry → Type 0
Known ids e = nonempty e.task.id ≡ true → contains ids e.task.id ≡ true

pub record IsValid (q : Queue) : Type 0 where
  pub ascending : Pairs Earlier q.entries
  pub bounded : All (λ e. e.seq < q.next_seq) q.entries
  pub apart : Pairs Apart q.entries
  pub known : All (Known q.known_ids) q.entries

pub empty-IsValid : IsValid empty
unfolding empty
empty-IsValid = record { ascending = tt; bounded = tt; apart = tt; known = tt }

pub drop_entry-Sub : (e : Entry) (es : List Entry) → Sub (drop_entry e es) es
unfolding drop_entry
drop_entry-Sub e [] = stop
drop_entry-Sub e (x ∷ xs) = elim (Bool-cases (eqb x.seq e.seq)) [
  | inl same ↦ rw same (skip x (Sub-refl xs))
  | inr other ↦ rw other (keep x (drop_entry-Sub e xs))
]

-- An invariant passes to a queue with fewer entries that knows the ids of those left.
pub fewer-IsValid :
    (q r : Queue)
    → IsValid q
    → Sub r.entries q.entries
    → r.next_seq ≡ q.next_seq
    → All (Known r.known_ids) r.entries
    → IsValid r
fewer-IsValid q r v s same known = record {
  ascending = Pairs-Sub Earlier s v.ascending;
  bounded = rw same (All-Sub (λ e. e.seq < q.next_seq) s v.bounded);
  apart = Pairs-Sub Apart s v.apart;
  known = known;
}

-- Discarding an id keeps the ids known that differ from it.
pub Known-discard :
    (x : String) (ids : List String) (es : List Entry)
    → All (λ e. nonempty e.task.id ≡ true → (x == e.task.id) ≡ false) es
    → All (Known ids) es
    → All (Known (Ids.discard x ids)) es
Known-discard x ids [] a k = tt
Known-discard x ids (e ∷ es) a k = (
  (λ named. ground (arith, a.0 named, k.0 named, contains-discard x e.task.id ids)),
  Known-discard x ids es a.1 k.1,
)
