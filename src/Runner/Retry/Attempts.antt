-- ===== src/Runner/Retry/Attempts.antt =====
-- How often `run_task` tries, which attempt decides, and what is filed and reported.
use iddo_harness.Prelude.{
  ℕ, zero, suc, ◌+◌, ◌-◌, ◌≤◌, ◌<◌, String, ◌≡◌, refl, ap, ap₂, subst, ◌∙◌, Bool, true, false, ◌||◌,
  not, Option, none, some, List, [], ◌∷◌, ◌++◌, arith, leb, ltb, eqb, if◌then◌else◌, Bool-cases,
  inl, inr, ◌⊎◌,
}
use native.Mathlib.Decide.{dec_lt}
use iddo_harness.Taskqueue.Schedule.{RetryPolicy}
use iddo_harness.Runner.{
  Result, Event, attempt_filed, sent, retried, completed, should_retry, report, status,
}
use iddo_harness.Runner.Retry.{
  World, Tries, result_of, after, pause, settle, tries, run_task, closing, flagged,
}

-- The numbers under which attempts are filed, and how many results are sent.
abbrev pub filed : List Event → List ℕ
filed [] = []
filed (attempt_filed task_id result n ∷ es) = n ∷ filed es
filed (e ∷ es) = filed es

abbrev pub count_sent : List Event → ℕ
count_sent [] = 0
count_sent (sent task_id result ∷ es) = suc (count_sent es)
count_sent (e ∷ es) = count_sent es

-- start, start + 1, … : n numbers
abbrev pub count_up : ℕ → ℕ → List ℕ
count_up start zero = []
count_up start (suc n) = start ∷ count_up (start + 1) n

filed-append : (xs ys : List Event) → filed (xs ++ ys) ≡ filed xs ++ filed ys
filed-append [] ys = refl
filed-append (attempt_filed t r n ∷ xs) ys = ap (λ (l : List ℕ). n ∷ l) (filed-append xs ys)
filed-append (e ∷ xs) ys = filed-append xs ys

count_sent-append : (xs ys : List Event) → count_sent (xs ++ ys) ≡ count_sent xs + count_sent ys
count_sent-append [] ys = omega arith
count_sent-append (sent t r ∷ xs) ys = omega (arith, count_sent-append xs ys)
count_sent-append (e ∷ xs) ys = count_sent-append xs ys

filed-report : (task_id : String) (result : Option Result) → filed (report task_id result) ≡ []
unfolding report
filed-report task_id none = refl
filed-report task_id (some r) = ground arith

filed-closing :
    (task_id : String) (is_cancelled : Bool) (t : Tries)
    → filed (closing task_id is_cancelled t) ≡ (if ltb 1 t.attempts then t.attempts ∷ [] else [])
unfolding closing
filed-closing task_id is_cancelled t = ground (
  arith,
  filed-report task_id t.result,
  filed-append (report task_id t.result) (completed task_id (status is_cancelled t.result) ∷ []),
)

count_sent-closing :
    (task_id : String) (is_cancelled : Bool) (t : Tries)
    → count_sent (closing task_id is_cancelled t) ≡ count_sent (report task_id t.result)
unfolding closing
count_sent-closing task_id is_cancelled t = ground (
  arith,
  count_sent-append (report task_id t.result)
      (completed task_id (status is_cancelled t.result) ∷ []),
)

count_up-snoc : (start n : ℕ) → count_up start n ++ (start + n) ∷ [] ≡ count_up start (suc n)
count_up-snoc start zero = ap (λ (m : ℕ). m ∷ []) (omega arith)
count_up-snoc start (suc n) =
    let shift : start + suc n ≡ start + 1 + n = omega arith in
    rw shift (ap (λ (l : List ℕ). start ∷ l) (count_up-snoc (start + 1) n))

filed_total :
    (k : ℕ)
    → 0 < k
    → (attempts : ℕ) → attempts ≡ k
    → count_up 1 (k - 0 - 1) ++ (if ltb 1 attempts then attempts ∷ [] else [])
      ≡ (if ltb 1 k then count_up 1 k else [])
filed_total zero pos attempts e = absurd (omega arith)
filed_total (suc zero) pos attempts e = rw e
filed_total (suc (suc k)) pos attempts e =
    let sum : suc (suc k) ≡ 1 + suc k = omega arith in
    let less : suc (suc k) - 0 - 1 ≡ suc k = omega arith in
    let more : ltb 1 (suc (suc k)) ≡ true = ground arith in
    rw (less, e, more) (ap (λ (m : ℕ). count_up 1 (suc k) ++ m ∷ []) sum ∙ count_up-snoc 1 (suc k))

none_left : (n : ℕ) → n + 1 - n - 1 ≡ 0
none_left n = omega arith

count_up-step :
    (start k attempt : ℕ)
    → attempt + 1 < k
    → start ∷ count_up (start + 1) (k - (attempt + 1) - 1) ≡ count_up start (k - attempt - 1)
count_up-step start k attempt h =
    let e : k - attempt - 1 ≡ suc (k - (attempt + 1) - 1) = omega arith in rw e

module _ (world : World) (policy : RetryPolicy) (task_id : String) where
  abbrev got : ℕ → Option Result
  got n = result_of task_id (world.execute n)

  -- Attempt n fails in a way that is worth another attempt.
  abbrev pub again : ℕ → Bool
  again n = should_retry (world.cancelled_after n) (got n)

  pub tries_bounds :
      (left attempt : ℕ) (result : Option Result)
      → (attempt ≤ (tries world policy task_id left attempt result).attempts)
        × ((tries world policy task_id left attempt result).attempts ≤ attempt + left)
  unfolding tries
  tries_bounds zero attempt result = omega arith
  tries_bounds (suc left) attempt result =
      ground (arith, tries_bounds left (attempt + 1) (got (attempt + 1)))

  filed-pause : (attempt : ℕ) → filed (pause world policy task_id attempt) ≡ []
  unfolding pause
  filed-pause attempt = ground arith

  filed-after_pause :
      (attempt : ℕ) (es : List Event)
      → filed ((pause world policy task_id attempt ++ retried task_id ∷ []) ++ es) ≡ filed es
  filed-after_pause attempt es =
      filed-append (pause world policy task_id attempt ++ retried task_id ∷ []) es
      ∙ ap (λ (l : List ℕ). l ++ filed es)
          (filed-append (pause world policy task_id attempt) (retried task_id ∷ [])
            ∙ ap (λ (l : List ℕ). l ++ []) (filed-pause attempt))

  -- What is known of a loop that stops at attempt k, when `attempt` attempts were made before it.
  abbrev Stops : ℕ → ℕ → Tries → Type 0
  Stops k attempt t =
      (t.attempts ≡ k)
      × (t.result ≡ got k)
      × (filed t.events ≡ count_up (attempt + 1) (k - attempt - 1))

  Stops-pause :
      (k attempt : ℕ) (t : Tries)
      → Stops k attempt t
      → Stops k attempt (after (pause world policy task_id attempt ++ retried task_id ∷ []) t)
  Stops-pause k attempt t (a, r, f) = (a, r, filed-after_pause attempt t.events ∙ f)

  tries-calm :
      (k left attempt : ℕ) (result : Option Result)
      → world.cancelled_in_pause attempt ≡ false
      → Stops k attempt (
          settle world policy task_id left
            (attempt + 1)
            (tries world policy task_id left (attempt + 1) (got (attempt + 1))))
      → Stops k attempt (tries world policy task_id (suc left) attempt result)
  unfolding tries
  tries-calm k left attempt result calm h = elim (Bool-cases (eqb attempt 0)) [
    | inl first ↦ rw first h
    | inr later ↦ rw (later, calm) (Stops-pause k attempt _ h)
  ]

  settle-last :
      (left attempt : ℕ) (more : Tries)
      → (not (again (attempt + 1)) || leb left 0) ≡ true
      → Stops (attempt + 1) attempt (settle world policy task_id left (attempt + 1) more)
  unfolding settle
  settle-last left attempt more h = rw h (refl, refl, rw (none_left attempt))

  settle-more :
      (k left attempt : ℕ) (more : Tries)
      → (not (again (attempt + 1)) || leb left 0) ≡ false
      → attempt + 1 < k
      → Stops k (attempt + 1) more
      → Stops k attempt (settle world policy task_id left (attempt + 1) more)
  unfolding settle
  settle-more k left attempt more h lo (a, r, f) =
      rw h
        (a, r, ap (λ (l : List ℕ). (attempt + 1) ∷ l) f ∙ count_up-step (attempt + 1) k attempt lo)

  not_last-lt :
      (k left attempt : ℕ)
      → attempt < k
      → (not (again (attempt + 1)) || leb left 0) ≡ false
      → (again k ≡ false) ⊎ (k ≡ attempt + suc left)
      → attempt + 1 < k
  not_last-lt k left attempt lo h at = elim (dec_lt (attempt + 1) k) [
    | yes lt ↦ lt
    | no stuck ↦ let here : attempt + 1 ≡ k = omega arith in absurd (ground (arith, ap again here))
  ]

  -- From `attempt` on, the loop stops at k: every attempt before k fails in a way worth another,
  -- and attempt k does not, or is the last one allowed.
  tries_settle :
      (k left attempt : ℕ) (result : Option Result)
      → attempt < k
      → k ≤ attempt + left
      → ((n : ℕ) → attempt < n → n < k → again n ≡ true)
      → (again k ≡ false) ⊎ (k ≡ attempt + left)
      → ((n : ℕ) → world.cancelled_in_pause n ≡ false)
      → ((tries world policy task_id left attempt result).attempts ≡ k)
        × ((tries world policy task_id left attempt result).result ≡ got k)
        × (filed (tries world policy task_id left attempt result).events
            ≡ count_up (attempt + 1) (k - attempt - 1))
  unfolding tries
  tries_settle k zero attempt result lo hi before at calm = absurd (omega arith)
  tries_settle k (suc left) attempt result lo hi before at calm =
      let more = tries world policy task_id left (attempt + 1) (got (attempt + 1)) in
      tries-calm k left attempt result (calm attempt)
        (elim (Bool-cases (not (again (attempt + 1)) || leb left 0)) [
          | inl last ↦
              let here : attempt + 1 ≡ k = ground (arith, before (attempt + 1)) in
              subst (λ m. Stops m attempt (settle world policy task_id left (attempt + 1) more))
                here (settle-last left attempt more last)
          | inr not_last ↦
              let later : attempt + 1 < k = not_last-lt k left attempt lo not_last at in
              settle-more k left attempt more not_last later (
                tries_settle k left (attempt + 1) (got (attempt + 1)) later (omega arith)
                  (λ n p. before n (omega arith)) (ground arith) calm)
        ])

  count_sent-pause : (attempt : ℕ) → count_sent (pause world policy task_id attempt) ≡ 0
  unfolding pause
  count_sent-pause attempt = ground arith

  count_sent-settle :
      (left n : ℕ) (more : Tries)
      → count_sent more.events ≡ 0
      → count_sent (settle world policy task_id left n more).events ≡ 0
  unfolding settle
  count_sent-settle left n more h = ground arith

  count_sent-tries :
      (left attempt : ℕ) (result : Option Result)
      → count_sent (tries world policy task_id left attempt result).events ≡ 0
  unfolding tries
  count_sent-tries zero attempt result = refl
  count_sent-tries (suc left) attempt result =
      let more = tries world policy task_id left (attempt + 1) (got (attempt + 1)) in
      let inner =
        count_sent-settle left (attempt + 1) more
          (count_sent-tries left (attempt + 1) (got (attempt + 1))) in
      ground (
        arith,
        count_sent-pause attempt,
        count_sent-append (pause world policy task_id attempt) (retried task_id ∷ []),
        count_sent-append (pause world policy task_id attempt ++ retried task_id ∷ [])
            (settle world policy task_id left (attempt + 1) more).events,
      )

  -- With no cancellation during a pause, `run_task` stops at attempt k when every earlier attempt
  -- fails in a way worth another and attempt k does not, or is the last that the policy allows. Then
  -- the outcome has attempt k's result, k attempts were made, and they are filed under 1 to k in
  -- order, unless there was only one, which is not filed.
  pub run_task_settles :
      (k : ℕ)
      → 0 < k
      → k ≤ policy.max_attempts
      → ((n : ℕ) → 0 < n → n < k → again n ≡ true)
      → (again k ≡ false) ⊎ (k ≡ policy.max_attempts)
      → ((n : ℕ) → world.cancelled_in_pause n ≡ false)
      → ((run_task world policy task_id).attempts ≡ k)
        × ((run_task world policy task_id).result ≡ got k)
        × (filed (run_task world policy task_id).events ≡ (if ltb 1 k then count_up 1 k else []))
  unfolding run_task
  run_task_settles k pos hi before at calm =
      let t = tries world policy task_id policy.max_attempts 0 none in
      let (a, r, f) =
        tries_settle k policy.max_attempts 0 none pos (omega arith) before
          (elim at [ inl e ↦ inl e | inr e ↦ inr (omega arith) ]) calm in
      (
        a,
        r,
        filed-append t.events (closing task_id _ t)
            ∙ ap₂ (λ (x y : List ℕ). x ++ y) f (filed-closing task_id _ t)
            ∙ filed_total k pos t.attempts a,
      )

  -- However many attempts there are, as many results are sent as `_report` sends for the last one:
  -- one, or none if there is no result or its stream has already been closed.
  pub count_sent-run_task :
      count_sent (run_task world policy task_id).events
      ≡ count_sent (report task_id (run_task world policy task_id).result)
  unfolding run_task
  count_sent-run_task =
      let t = tries world policy task_id policy.max_attempts 0 none in
      omega (
        arith,
        count_sent-append t.events (closing task_id (world.cancelled_at_end || flagged t.result) t),
        count_sent-tries policy.max_attempts 0 none,
        count_sent-closing task_id (world.cancelled_at_end || flagged t.result) t,
      )
