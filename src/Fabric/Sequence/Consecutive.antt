-- ===== src/Fabric/Sequence/Consecutive.antt =====
-- The chunks of a task are numbered 0, 1, 2 and so on, whatever other tasks send in between.
use iddo_harness.Prelude.{
  ℕ, zero, suc, ◌+◌, ◌≡◌, refl, String, ◌==◌, eq_iff, Bool, List, [], ◌∷◌, ◌++◌, arith,
  if◌then◌else◌, Bool-cases, inl, inr, append_nil, append_assoc, sym,
}
use iddo_harness.Prelude.Dict.{lookup, lookup-put}
use iddo_harness.Fabric.Sequence.{Chunk, Emitter, seq_or_zero, next_seq, emit}

-- The calls of `emit`, one after the other.
abbrev pub emit_all : List (String × Bool) → Emitter → Emitter
emit_all [] e = e
emit_all ((task_id, is_final) ∷ calls) e = emit_all calls (emit task_id is_final e)

abbrev pub silent : Emitter
silent = record { seqs = []; sent = [] }

-- The numbers of the chunks of one task.
abbrev pub numbers : String → List Chunk → List ℕ
numbers id [] = []
numbers id (c ∷ chunks) =
    let rest = numbers id chunks in if c.task_id == id then c.seq ∷ rest else rest

-- n, n + 1, ... up to the given length.
abbrev pub from : ℕ → ℕ → List ℕ
from n zero = []
from n (suc k) = n ∷ from (n + 1) k

-- How many of the calls are about a task.
abbrev pub calls_for : String → List (String × Bool) → ℕ
calls_for id [] = 0
calls_for id ((task_id, is_final) ∷ calls) =
    let rest = calls_for id calls in if task_id == id then suc rest else rest

numbers-append :
    (id : String) (xs ys : List Chunk) → numbers id (xs ++ ys) ≡ numbers id xs ++ numbers id ys
numbers-append id [] ys = refl
numbers-append id (c ∷ xs) ys = elim (Bool-cases (c.task_id == id)) [
  | inl e ↦ rw (e, numbers-append id xs ys) refl
  | inr e ↦ rw (e, numbers-append id xs ys) refl
]

emit_all-numbers :
    (id : String) (calls : List (String × Bool)) (e : Emitter)
    → numbers id (emit_all calls e).sent
      ≡ numbers id e.sent ++ from (seq_or_zero (lookup id e.seqs)) (calls_for id calls)
unfolding emit next_seq
emit_all-numbers id [] e = sym (append_nil (numbers id e.sent))
emit_all-numbers id ((task_id, is_final) ∷ calls) e = elim (Bool-cases (task_id == id)) [
  | inl same ↦
      let here = seq_or_zero (lookup task_id e.seqs) in
      let alike : task_id ≡ id = ground (arith, eq_iff task_id id) in
      rw
        (
          emit_all-numbers id calls (emit task_id is_final e),
          numbers-append id e.sent
              ((record { task_id = task_id; seq = here; is_final = is_final }) ∷ []),
          lookup-put task_id id (here + 1) e.seqs,
          same,
          append_assoc (numbers id e.sent) (here ∷ []) (from (here + 1) (calls_for id calls)),
          alike,
        )
        refl
  | inr other ↦
      let here = seq_or_zero (lookup task_id e.seqs) in
      rw
        (
          emit_all-numbers id calls (emit task_id is_final e),
          numbers-append id e.sent
              ((record { task_id = task_id; seq = here; is_final = is_final }) ∷ []),
          lookup-put task_id id (here + 1) e.seqs,
          other,
          append_nil (numbers id e.sent),
        )
        refl
]

-- However the calls of `emit` for different tasks interleave, the chunks of each task carry the numbers
-- 0, 1, 2 and so on, one for each of its calls.
pub silent-numbers :
    (id : String) (calls : List (String × Bool))
    → numbers id (emit_all calls silent).sent ≡ from 0 (calls_for id calls)
unfolding lookup
silent-numbers id calls = emit_all-numbers id calls silent
