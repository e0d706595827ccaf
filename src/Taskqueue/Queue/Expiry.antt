-- ===== src/Taskqueue/Queue/Expiry.antt =====
-- `drain_expired`: the loop that removes the expired entries one by one, against a filter.
use iddo_harness.Prelude.{
  ℕ, ◌<◌, String, ◌≡◌, refl, ap, ◌∙◌, ◌==◌, eq_iff, Bool, true, false, not, List, [], ◌∷◌, arith,
  All, All-map, Bool-cases, inl, inr, eqb, nonempty, filter,
}
use iddo_harness.Prelude.Ids
use iddo_harness.Prelude.Ids.{contains, contains-discard}
use iddo_harness.Prelude.Sublists.{Pairs, All-Sub, filter-Sub}
use iddo_harness.Taskqueue.Queue.{Entry, Queue, drop_entry, discard_each, is_expired, drain_expired}
use iddo_harness.Taskqueue.Queue.Invariant.{Earlier, Apart, Known, IsValid, fewer-IsValid}

pub drop_each : List Entry → List Entry → List Entry
drop_each [] es = es
drop_each (d ∷ ds) es = drop_each ds (drop_entry d es)

pub discard_ids : List Entry → List String → List String
discard_ids [] ids = ids
discard_ids (d ∷ ds) ids = discard_ids ds (Ids.discard d.task.id ids)

pub discard_each_parts :
    (ds : List Entry) (q : Queue)
    → ((discard_each ds q).entries ≡ drop_each ds q.entries)
      × ((discard_each ds q).known_ids ≡ discard_ids ds q.known_ids)
      × ((discard_each ds q).next_seq ≡ q.next_seq)
      × ((discard_each ds q).completed ≡ q.completed)
unfolding discard_each drop_each discard_ids
discard_each_parts [] q = (refl, refl, refl, refl)
discard_each_parts (d ∷ ds) q = discard_each_parts ds _

drop_each-cons :
    (ds : List Entry) (x : Entry) (es : List Entry)
    → All (λ d. x.seq < d.seq) ds
    → drop_each ds (x ∷ es) ≡ x ∷ drop_each ds es
unfolding drop_each drop_entry
drop_each-cons [] x es h = refl
drop_each-cons (d ∷ ds) x es h =
    let other : eqb x.seq d.seq ≡ false = ground (arith, h.0) in
    rw other (drop_each-cons ds x (drop_entry d es) h.1)

pub eqb_refl : (n : ℕ) → eqb n n ≡ true
eqb_refl n = ground arith

-- Removing the elements that pass a test one by one leaves those that do not.
pub drop_each-filter :
    (p : Entry → Bool) (xs : List Entry)
    → Pairs Earlier xs
    → drop_each (filter p xs) xs ≡ filter (λ e. not (p e)) xs
unfolding drop_each drop_entry
drop_each-filter p [] h = refl
drop_each-filter p (x ∷ xs) h = elim (Bool-cases (p x)) [
  | inl e ↦ rw (e, eqb_refl x.seq, drop_each) ((drop_each-filter p xs h.1))
  | inr e ↦ rw e (
      drop_each-cons (filter p xs) x xs (All-Sub (λ d. x.seq < d.seq) (filter-Sub p xs) h.0)
      ∙ ap (λ (l : List Entry). x ∷ l) (drop_each-filter p xs h.1))
]

abbrev pub Differs : Entry → Entry → Type 0
Differs d e = nonempty e.task.id ≡ true → (d.task.id == e.task.id) ≡ false

pub Apart-Differs : (a b : Entry) → Apart a b → Differs a b
Apart-Differs a b h named =
    ground (arith, h, eq_iff a.task.id b.task.id, eq_iff a.task.id "", eq_iff b.task.id "")

Apart-flip : (a b : Entry) → Apart a b → Differs b a
Apart-flip a b h named =
    ground (arith, h named, eq_iff a.task.id b.task.id, eq_iff b.task.id a.task.id)

pub contains-discard_ids :
    (ds : List Entry) (ids : List String) (x : String)
    → All (λ d. (d.task.id == x) ≡ false) ds
    → contains (discard_ids ds ids) x ≡ contains ids x
unfolding discard_ids
contains-discard_ids [] ids x h = refl
contains-discard_ids (d ∷ ds) ids x h = ground (
  arith,
  contains-discard_ids ds (Ids.discard d.task.id ids) x h.1,
  contains-discard d.task.id x ids,
)

split_Differs :
    (p : Entry → Bool) (xs : List Entry)
    → Pairs Apart xs
    → All (λ e. All (λ d. Differs d e) (filter p xs)) (filter (λ e. not (p e)) xs)
split_Differs p [] h = tt
split_Differs p (x ∷ xs) h = elim (Bool-cases (p x)) [
  | inl e ↦ rw e (
      pair_up (filter (λ e'. not (p e')) xs)
        (All-Sub (Apart x) (filter-Sub (λ e'. not (p e')) xs) h.0) (split_Differs p xs h.1))
  | inr e ↦ rw e (
    All-map _ _ (λ d. Apart-flip x d) (filter p xs) (All-Sub (Apart x) (filter-Sub p xs) h.0),
    split_Differs p xs h.1,
  )
]
  where
    pair_up :
        (es : List Entry)
        → All (Apart x) es
        → All (λ e. All (λ d. Differs d e) (filter p xs)) es
        → All (λ e. Differs x e × All (λ d. Differs d e) (filter p xs)) es
    pair_up [] a b = tt
    pair_up (e ∷ es) a b = ((Apart-Differs x e a.0, b.0), pair_up es a.1 b.1)

Known-discard_ids :
    (ds : List Entry) (ids : List String) (es : List Entry)
    → All (λ e. All (λ d. Differs d e) ds) es
    → All (Known ids) es
    → All (Known (discard_ids ds ids)) es
Known-discard_ids ds ids [] h k = tt
Known-discard_ids ds ids (e ∷ es) h k = (
  (λ named.
      contains-discard_ids ds ids e.task.id (All-map _ _ (λ d f. f named) ds h.0) ∙ k.0 named),
  Known-discard_ids ds ids es h.1 k.1,
)

module _ (now : ℕ) (q : Queue) (v : IsValid q) where
  -- `drain_expired` returns the entries whose deadline has passed and whose priority is not high,
  -- and leaves the others in their order; the completed ids stay.
  pub drain_expired_lem :
      ((drain_expired now q).0 ≡ filter (λ e. is_expired now e.schedule) q.entries)
      × ((drain_expired now q).1.entries ≡ filter (λ e. not (is_expired now e.schedule)) q.entries)
      × ((drain_expired now q).1.completed ≡ q.completed)
  unfolding drain_expired
  drain_expired_lem =
      let expired = λ (e : Entry). is_expired now e.schedule in
      let parts = discard_each_parts (filter expired q.entries) q in
      (refl, parts.0 ∙ drop_each-filter expired q.entries v.ascending, parts.3)

  -- Draining keeps the queue valid.
  pub drain_expired-IsValid : IsValid (drain_expired now q).1
  unfolding drain_expired
  drain_expired-IsValid =
      let expired = λ (e : Entry). is_expired now e.schedule in
      let parts = discard_each_parts (filter expired q.entries) q in
      let left = drop_each-filter expired q.entries v.ascending in
      let sub = filter-Sub (λ e. not (expired e)) q.entries in
      fewer-IsValid q (discard_each (filter expired q.entries) q) v (rw (parts.0, left) sub) parts.2
        (rw (parts.1, parts.0, left)
          (Known-discard_ids (filter expired q.entries) q.known_ids
            (filter (λ e. not (expired e)) q.entries) (split_Differs expired q.entries v.apart)
            (All-Sub (Known q.known_ids) sub v.known)))
