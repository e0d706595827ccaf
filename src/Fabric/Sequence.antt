-- ===== src/Fabric/Sequence.antt =====
-- agent/executor_v2.py, `_next_seq` and `_emit`: the numbers of the chunks of a task. A chunk is sent
-- to the sink with its number; a sink that fails does not stop the command, and is not modelled.
pub mod Consecutive
use iddo_harness.Prelude.{ℕ, ◌+◌, String, Bool, Option, none, some, List, [], ◌∷◌, ◌++◌}
use iddo_harness.Prelude.Dict.{Dict, lookup, put}

pub record Chunk : Type 0 where
  pub task_id : String
  pub seq : ℕ
  pub is_final : Bool

-- The counters of the executor, and the chunks that went out.
pub record Emitter : Type 0 where
  pub seqs : Dict ℕ
  pub sent : List Chunk

abbrev pub seq_or_zero : Option ℕ → ℕ
seq_or_zero none = 0
seq_or_zero (some n) = n

-- The number, and the counters afterwards.
unfoldable pub next_seq : String → Dict ℕ → ℕ × Dict ℕ
next_seq task_id seqs =
    let seq = seq_or_zero (lookup task_id seqs) in (seq, put task_id (seq + 1) seqs)

unfoldable pub emit : String → Bool → Emitter → Emitter
unfolding next_seq
emit task_id is_final e =
    let (seq, seqs) = next_seq task_id e.seqs in
    record {
      seqs = seqs;
      sent = e.sent ++ (record { task_id = task_id; seq = seq; is_final = is_final }) ∷ [];
    }
