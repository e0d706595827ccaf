-- ===== src/Llm/Loop/Ending.antt =====
-- How a run of the loop ends: done, waiting for a confirmation, or out of iterations.
use iddo_harness.Prelude.{
  append_assoc, ℕ, zero, suc, ◌+◌, ◌≤◌, ◌≡◌, refl, String, true, false, Option, some, List, [], ◌∷◌,
  ◌++◌, arith, subst, sym, ap, ◌∙◌, ◌⊎◌, inl, inr,
}
use iddo_harness.Prelude.Result.{Result}
use iddo_harness.Confirm.{Task}
use iddo_harness.Executor.{Report, World}
use iddo_harness.Llm.Loop.{
  Call, Answer, Message, system, user, assistant, Reply, Session, Pending, LoopResult, Turn,
  answered, waiting, all_calls, respond, iterate, run,
}
use iddo_harness.Llm.Loop.Dialogue.{
  Conversation, begin, round, calls_of, replies, all_calls-Answers,
}

-- The messages at the end of a run, for each way to end.
pub data Ends (opening : List Message) (result : LoopResult) : List Message → Type 0 where
  finished :
      {ms : List Message}
      → Conversation opening ms
      → result.done ≡ true
      → Ends opening result (ms ++ assistant result.final_message [] ∷ [])
  paused_at :
      {ms : List Message}
      → Conversation opening ms
      → (content : Option String) (given : List (Call × Answer)) (later : List Call)
        (pending : Pending)
      → result.done ≡ false
      → result.pending ≡ some pending
      → Ends opening result
          (ms ++ (assistant content (calls_of given ++ (pending.call ∷ later)) ∷ replies given))
  exhausted :
      {ms : List Message}
      → Conversation opening ms
      → result.done ≡ false
      → result.paused ≡ false
      → Ends opening result ms

List-cases : (calls : List Call) → (calls ≡ []) ⊎ ((c : Call) × (cs : List Call) × (calls ≡ c ∷ cs))
List-cases [] = inl refl
List-cases (c ∷ cs) = inr (c, cs, refl)

Turn-cases :
    (turn : Turn)
    → ((s : Session) × (turn ≡ answered s)) ⊎ ((p : Pending) × (s : Session) × (turn ≡ waiting p s))
Turn-cases (answered s) = inl (s, refl)
Turn-cases (waiting p s) = inr (p, s, refl)

-- A message with calls and the answers to the calls, said after other messages.
said_after :
    (ms us : List Message) (content : Option String) (calls calls' : List Call)
    (given : List (Call × Answer))
    → calls ≡ calls'
    → us ≡ (ms ++ assistant content calls ∷ []) ++ replies given
    → us ≡ ms ++ (assistant content calls' ∷ replies given)
said_after ms us content calls calls' given same said =
    said
    ∙ (append_assoc ms (assistant content calls ∷ []) (replies given)
        ∙ ap (λ cs. ms ++ (assistant content cs ∷ replies given)) same)

module _ (tool_call_to_task : Call → Result String Task) (execute : Task → World → Report × World)
    (chat_completion : List Message → Reply) where
  iterate-Ends :
      (opening : List Message) (left iteration : ℕ) (s : Session)
      → Conversation opening s.messages
      → let (result, t) = iterate tool_call_to_task execute chat_completion left iteration s in
        Ends opening result t.messages × (result.iterations ≤ iteration + left)
  unfolding iterate respond
  iterate-Ends opening zero iteration s c = (exhausted c refl refl, omega arith)
  iterate-Ends opening (suc left) iteration s c =
      let n = suc iteration in
      let reply = chat_completion s.messages in
      let t = respond tool_call_to_task execute chat_completion n s in
      elim (List-cases reply.tool_calls) [
        | inl e ↦
            let said : s.messages ++ assistant reply.content [] ∷ [] ≡ t.messages =
              ap (λ cs. s.messages ++ assistant reply.content cs ∷ []) (sym e) in
            rw (iterate, e) (subst (Ends opening _) said (finished c refl), omega arith)
        | inr (call, calls, e) ↦
            let turn = all_calls tool_call_to_task execute n (call ∷ calls) t in
            let answers = all_calls-Answers tool_call_to_task execute n (call ∷ calls) t in
            elim (Turn-cases turn) [
              | inl (u, f) ↦
                  let (given, same, said) = rw f at answers in
                  let now =
                    said_after s.messages u.messages reply.content reply.tool_calls (calls_of given)
                      given (e ∙ sym same) said in
                  let (ends, bound) =
                    iterate-Ends opening left n u
                      (subst (Conversation opening) (sym now) (round c reply.content given)) in
                  rw (iterate, e, f) (ends, omega (arith, bound))
              | inr (pending, u, f) ↦
                  let (given, later, same, said) = rw f at answers in
                  let now =
                    said_after s.messages u.messages reply.content reply.tool_calls _ given
                      (e ∙ same) said in
                  rw (iterate, e, f, now)
                    (paused_at c reply.content given later pending refl refl, omega arith)
            ]
      ]

  -- A run takes at most `max_iterations` turns of the model. Its messages are a conversation in which
  -- every message with calls is followed by the answers to all its calls, in their order; after it comes
  -- the model's final message if the run is done, or a message of which only the first calls have been
  -- answered, up to the pending one, if a call waits for a confirmation; and nothing if the turns are
  -- used up.
  pub run-Ends :
      (max_iterations : ℕ) (system_prompt : String) (extra_messages : List Message)
      (prompt : String) (world : World)
      → let (result, t) =
          run tool_call_to_task execute chat_completion max_iterations system_prompt extra_messages
            prompt world in
        Ends (system system_prompt ∷ (extra_messages ++ user prompt ∷ [])) result t.messages
        × (result.iterations ≤ max_iterations)
  unfolding run
  run-Ends max_iterations system_prompt extra_messages prompt world =
      let opening = system system_prompt ∷ (extra_messages ++ user prompt ∷ []) in
      let s : Session = record { messages = opening; audit_log = []; world = world } in
      let (ends, bound) = iterate-Ends opening max_iterations 0 s begin in
      (ends, omega (arith, bound))
