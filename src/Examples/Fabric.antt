-- ===== src/Examples/Fabric.antt =====
-- A watch, two interleaved tasks, and a file that is read by pages, as in
-- agent/executor_v2.py.
use iddo_harness.Prelude.{
  ℕ, suc, ◌≡◌, refl, String, Bool, true, false, none, some, List, [], ◌∷◌, length, ap,
}
use iddo_harness.Json.{pos}
use iddo_harness.Fabric.Watch.{FileEvent}
use iddo_harness.Fabric.Watch.Accounting.{
  Step, recorded, polled, history, start, Accounted, start-Accounted,
}
use iddo_harness.Fabric.Sequence.Consecutive.{
  emit_all, silent, numbers, from, calls_for, silent-numbers,
}
use iddo_harness.Fabric.Paging.Reassembly.{collect, IsSingleByte, collect-whole}
use iddo_harness.Prelude.Text.{concat}

abbrev changed : String → FileEvent
changed path = record { ts = 5; event_type = "modified"; path = path; dest_path = none }

abbrev steps : List Step
steps =
    recorded (changed "a")
    ∷ recorded (changed "b")
    ∷ recorded (changed "c")
    ∷ polled (pos 1)
    ∷ recorded (changed "d")
    ∷ []

abbrev any_name : String → String → Bool
any_name name glob = true

abbrev whole : String → String
whole path = path

start-Accounted_example : Accounted (history any_name whole steps (start ("*" ∷ []) 2))
start-Accounted_example = start-Accounted any_name whole ("*" ∷ []) 2 steps

abbrev calls : List (String × Bool)
calls = ("a", false) ∷ ("b", false) ∷ ("a", true) ∷ []

silent-numbers_example : numbers "a" (emit_all calls silent).sent ≡ from 0 (calls_for "a" calls)
silent-numbers_example = silent-numbers "a" calls

abbrev bytes : List ℕ
bytes = 7 ∷ 8 ∷ 9 ∷ []

-- Every byte is an "x".
abbrev decode : List ℕ → String
decode [] = ""
decode (b ∷ bs) = concat "x" (decode bs)

decode-IsSingleByte : IsSingleByte decode
decode-IsSingleByte [] ys = refl
decode-IsSingleByte (x ∷ xs) ys = ap (λ s. concat "x" s) (decode-IsSingleByte xs ys)

collect-whole_example : collect decode (suc (length bytes)) (pos 0) (pos 2) bytes ≡ some "xxx"
collect-whole_example = collect-whole decode decode-IsSingleByte (pos 2) bytes
