-- ===== src/Llm/Loop/Dialogue.antt =====
-- The loop keeps to the protocol of tool calls: a model's message with calls is followed by one answer
-- for each of them, in their order.
use iddo_harness.Prelude.{
  append_assoc, append_nil, ℕ, ◌≡◌, refl, sym, ◌∙◌, ap, String, ◌==◌, Option, List, [], ◌∷◌, ◌++◌,
  inl, inr, Bool-cases,
}
use iddo_harness.Prelude.Result.{Result, Result-cases}
use iddo_harness.Confirm.{Task}
use iddo_harness.Executor.{Report, World}
use iddo_harness.Llm.Loop.{
  Call, Answer, report_of, not_a_task, Message, assistant, tool, Session, Pending, Turn, answered,
  waiting, after_call, one_call, all_calls,
}

-- The tool messages that answer calls.
abbrev pub replies : List (Call × Answer) → List Message
replies [] = []
replies ((call, answer) ∷ rest) = tool call.id answer ∷ replies rest

abbrev pub calls_of : List (Call × Answer) → List Call
calls_of [] = []
calls_of ((call, answer) ∷ rest) = call ∷ calls_of rest

-- What a conversation is made of: after the opening, rounds of a message with calls and of the answers
-- to them.
pub data Conversation (opening : List Message) : List Message → Type 0 where
  begin : Conversation opening opening
  round :
      {ms : List Message}
      → Conversation opening ms
      → (content : Option String) (answers : List (Call × Answer))
      → Conversation opening (ms ++ (assistant content (calls_of answers) ∷ replies answers))

replies-append : (xs ys : List (Call × Answer)) → replies (xs ++ ys) ≡ replies xs ++ replies ys
replies-append [] ys = refl
replies-append ((call, answer) ∷ xs) ys = rw (replies-append xs ys) refl

calls_of-append : (xs ys : List (Call × Answer)) → calls_of (xs ++ ys) ≡ calls_of xs ++ calls_of ys
calls_of-append [] ys = refl
calls_of-append ((call, answer) ∷ xs) ys = rw (calls_of-append xs ys) refl

module _ (tool_call_to_task : Call → Result String Task)
    (execute : Task → World → Report × World) where
  -- How the calls of one message are answered: all of them, or those before the one that waits.
  abbrev pub Answers : List Call → Session → Turn → Type 0
  Answers calls s (answered t) =
      (given : List (Call × Answer)) × (calls_of given ≡ calls)
      × (t.messages ≡ s.messages ++ replies given)
  Answers calls s (waiting pending t) =
      (given : List (Call × Answer)) × (later : List Call) × (calls
        ≡ calls_of given ++ (pending.call ∷ later))
      × (t.messages ≡ s.messages ++ replies given)

  after_call-Answers :
      (n : ℕ) (call : Call) (task : Task) (r : Report × World) (s : Session)
      → Answers (call ∷ []) s (after_call tool_call_to_task execute n call task r s)
  unfolding after_call
  after_call-Answers n call task (report, world) s =
      elim (Bool-cases (report.decision == "confirm_required")) [
        | inl e ↦ rw (after_call, e) ([], [], refl, sym (append_nil s.messages))
        | inr e ↦ rw (after_call, e) ((call, report_of report) ∷ [], refl, refl)
      ]

  one_call-Answers :
      (n : ℕ) (call : Call) (s : Session)
      → Answers (call ∷ []) s (one_call tool_call_to_task execute n call s)
  unfolding one_call
  one_call-Answers n call s = elim (Result-cases (tool_call_to_task call)) [
    | inr (error, e) ↦ rw (one_call, e) ((call, not_a_task error) ∷ [], refl, refl)
    | inl (task, e) ↦ rw (one_call, e) (after_call-Answers n call task (execute task s.world) s)
  ]

  extend :
      (first : List Call) (calls : List Call) (s t : Session) (turn : Turn)
      → Answers first s (answered t)
      → Answers calls t turn
      → Answers (first ++ calls) s turn
  extend first calls s t (answered u) (given, same, said) (more, same', said') = (
    given ++ more,
    rw (calls_of-append given more, same, same') refl,
    rw
        (
          said',
          said,
          replies-append given more,
          append_assoc s.messages (replies given) (replies more),
        )
        refl,
  )
  extend first calls s t (waiting pending u) (given, same, said) (more, later, same', said') = (
    given ++ more,
    later,
    rw
        (
          calls_of-append given more,
          same,
          same',
          append_assoc first (calls_of more) (pending.call ∷ later),
        )
        refl,
    rw
        (
          said',
          said,
          replies-append given more,
          append_assoc s.messages (replies given) (replies more),
        )
        refl,
  )

  put_off :
      (call : Call) (calls : List Call) (s t : Session) (pending : Pending)
      → Answers (call ∷ []) s (waiting pending t)
      → Answers (call ∷ calls) s (waiting pending t)
  put_off call calls s t pending (given, later, same, said) = (
    given,
    later ++ calls,
    ap (λ cs. cs ++ calls) same ∙ append_assoc (calls_of given) (pending.call ∷ later) calls,
    said,
  )

  pub all_calls-Answers :
      (n : ℕ) (calls : List Call) (s : Session)
      → Answers calls s (all_calls tool_call_to_task execute n calls s)
  unfolding all_calls
  all_calls-Answers n [] s = ([], refl, sym (append_nil s.messages))
  all_calls-Answers n (call ∷ calls) s =
      next (λ t. all_calls-Answers n calls t) (one_call tool_call_to_task execute n call s) refl
    where
      next :
          ((t : Session) → Answers calls t (all_calls tool_call_to_task execute n calls t))
          → (turn : Turn) → one_call tool_call_to_task execute n call s ≡ turn
          → Answers (call ∷ calls) s (all_calls tool_call_to_task execute n (call ∷ calls) s)
      next ih (answered t) e =
          let first : Answers (call ∷ []) s (answered t) = rw e at (one_call-Answers n call s) in
          rw (all_calls, e)
            (extend (call ∷ []) calls s t (all_calls tool_call_to_task execute n calls t) first
              (ih t))
      next ih (waiting pending t) e =
          let first : Answers (call ∷ []) s (waiting pending t) =
            rw e at (one_call-Answers n call s) in
          rw (all_calls, e) (put_off call calls s t pending first)
