-- ===== src/Approval/Waiting.antt =====
-- Waiting for an answer ends, and the broker's sweep denies what is late.
use iddo_harness.Prelude.{
  ℕ, zero, suc, ◌+◌, ◌≤◌, ◌<◌, String, eq_refl, ◌≡◌, refl, Bool, false, ◌||◌, Option, none, some,
  leb, arith, Bool-cases, Option-cases, inl, inr, ◌⊎◌, ltb, subst, ap, true,
}
use iddo_harness.Prelude.Ids.{contains, contains-add}
use iddo_harness.Confirm.{Queue, answer, check_response, response_in, has_response, overdue}
use iddo_harness.Confirm as Confirm
use iddo_harness.Confirm.Sweeping.{sweep-answers}
use iddo_harness.Approval.{
  Manager, Tick, audit, respond, time_out, sweep_timeouts, sleep_for, wait_of, poll,
  wait_for_response,
}

sleep_for-positive :
    (poll_interval deadline now : ℕ) → 1 ≤ poll_interval → 1 ≤ sleep_for poll_interval deadline now
unfolding sleep_for
sleep_for-positive poll_interval deadline now pos = ground arith

module _ (mask : String → String) where
  audit-queue :
      (actor action resource outcome : String) (m : Manager)
      → (audit mask actor action resource outcome m).queue ≡ m.queue
  unfolding audit
  audit-queue actor action resource outcome m = ground arith

  time_out-queue :
      (mirrored : Bool) (id : String) (m : Manager)
      → (time_out mask mirrored id m).queue ≡ Confirm.respond mirrored id false m.queue
  unfolding time_out respond
  time_out-queue mirrored id m =
      rw (audit-queue "timeout" "approval_timeout" id "deny" _, audit-queue "timeout" _ id _ _) refl

  time_out-denies :
      (mirrored : Bool) (id : String) (m : Manager)
      → (time_out mask mirrored id m).queue.local_dir ≡ answer id false m.queue.local_dir
  unfolding Confirm.respond
  time_out-denies mirrored id m = rw (time_out-queue mirrored id m) refl

  -- After the broker's sweep a request has an answer exactly if it had one before or was late, that is,
  -- had waited for `timeout_seconds` without an answer; and the ids returned are those of the late ones.
  pub sweep_timeouts-denies :
      (mirrored : Bool) (now : ℕ) (m : Manager) (j : String)
      → let (after, denied) = sweep_timeouts mask mirrored now m in
        let d = m.queue.local_dir in
        (has_response after.queue.local_dir j
          ≡ (has_response d j || overdue now m.timeout_seconds d j))
        × (contains denied j ≡ overdue now m.timeout_seconds d j)
  unfolding sweep_timeouts
  sweep_timeouts-denies mirrored now m j =
      sweep-answers (λ (n : Manager). n.queue) (time_out mask mirrored) (time_out-denies mirrored)
        now m.timeout_seconds m j

  -- The clock does not go back, and a sleep takes its time.
  abbrev pub Steady : (ℕ → Tick) → ℕ → ℕ → Type 0
  Steady ticks poll_interval deadline =
      (n : ℕ)
      → ((ticks n).asked_at ≤ (ticks n).slept_from)
        × ((ticks n).slept_from + sleep_for poll_interval deadline (ticks n).slept_from
            ≤ (ticks (suc n)).asked_at)

  -- The manager as the n-th poll finds it.
  abbrev pub seen_at : (ℕ → Tick) → ℕ → Manager → Manager
  seen_at ticks zero m = record m { queue = (ticks 0).others m.queue }
  seen_at ticks (suc n) m =
      let before = seen_at ticks n m in
      record before { queue = (ticks (suc n)).others before.queue }

  -- The n-th poll finds no answer, and the deadline has not come.
  abbrev pub Waits : (ℕ → Tick) → String → ℕ → Manager → ℕ → Type 0
  Waits ticks id deadline m n =
      (check_response (seen_at ticks n m).queue id ≡ none) × ((ticks n).asked_at < deadline)

  -- What a wait ends with at the k-th poll: the answer that is there, with nothing changed, or, where
  -- there is none and the deadline has come, a denial that is written and audited.
  abbrev pub EndsAt :
      (ℕ → Tick) → Bool → String → ℕ → Manager → ℕ → Option (Bool × Manager) → Type 0
  EndsAt ticks mirrored id deadline m k result =
      let seen = seen_at ticks k m in
      ((status : Bool) × (check_response seen.queue id ≡ some status)
        × (result ≡ some (status, seen)))
      ⊎ ((check_response seen.queue id ≡ none)
          × (deadline ≤ (ticks k).asked_at)
          × (result ≡ some (false, time_out mask mirrored id seen))
          × (check_response (time_out mask mirrored id seen).queue id ≡ some false))

  abbrev pub Ends : (ℕ → Tick) → Bool → String → ℕ → Manager → Option (Bool × Manager) → Type 0
  Ends ticks mirrored id deadline m result =
      (k : ℕ) × ((n : ℕ) → n < k → Waits ticks id deadline m n)
      × EndsAt ticks mirrored id deadline m k result

  denied_shows :
      (mirrored : Bool) (id : String) (q : Queue)
      → check_response q id ≡ none
      → check_response (Confirm.respond mirrored id false q) id ≡ some false
  unfolding check_response response_in Confirm.respond answer
  denied_shows mirrored id q h = ground (arith, contains-add id id q.local_dir.denied, eq_refl id)

  -- The manager before the n-th poll.
  abbrev before_poll : (ℕ → Tick) → ℕ → Manager → Manager
  before_poll ticks zero m = m
  before_poll ticks (suc n) m = seen_at ticks n m

  seen_at-eq :
      (ticks : ℕ → Tick) (n : ℕ) (m : Manager)
      → record (before_poll ticks n m) { queue = (ticks n).others (before_poll ticks n m).queue }
        ≡ seen_at ticks n m
  seen_at-eq ticks zero m = refl
  seen_at-eq ticks (suc n) m = refl

  and_this :
      (ticks : ℕ → Tick) (id : String) (deadline n : ℕ) (m : Manager)
      → ((i : ℕ) → i < n → Waits ticks id deadline m i)
      → Waits ticks id deadline m n
      → (i : ℕ) → i < suc n
      → Waits ticks id deadline m i
  and_this ticks id deadline n m h this i less = elim (Bool-cases (ltb i n)) [
    | inl earlier ↦ h i (ground arith)
    | inr last ↦ let same : n ≡ i = ground arith in subst (Waits ticks id deadline m) same this
  ]

  -- What a poll makes of what it finds.
  abbrev after_look : ℕ → (ℕ → Tick) → Bool → String → ℕ → ℕ → Manager → Option (Bool × Manager)
  after_look fuel ticks mirrored id deadline n seen = elim (check_response seen.queue id) [
    | some status ↦ some (status, seen)
    | none ↦ elim (leb deadline (ticks n).asked_at) [
      | true ↦ some (false, time_out mask mirrored id seen)
      | false ↦ poll mask fuel ticks mirrored id deadline (suc n) seen
    ]
  ]

  poll-after_look :
      (fuel : ℕ) (ticks : ℕ → Tick) (mirrored : Bool) (id : String) (deadline n : ℕ) (m : Manager)
      → poll mask (suc fuel) ticks mirrored id deadline n (before_poll ticks n m)
        ≡ after_look fuel ticks mirrored id deadline n (seen_at ticks n m)
  unfolding poll
  poll-after_look fuel ticks mirrored id deadline n m =
      ap (after_look fuel ticks mirrored id deadline n) (seen_at-eq ticks n m)

  poll-Ends :
      (fuel : ℕ) (ticks : ℕ → Tick) (mirrored : Bool) (id : String) (deadline poll_interval n : ℕ)
      (m : Manager)
      → 1 ≤ poll_interval
      → Steady ticks poll_interval deadline
      → 1 ≤ fuel
      → deadline < (ticks n).asked_at + fuel
      → ((i : ℕ) → i < n → Waits ticks id deadline m i)
      → Ends ticks mirrored id deadline m
          (poll mask fuel ticks mirrored id deadline n (before_poll ticks n m))
  unfolding poll
  poll-Ends zero ticks mirrored id deadline poll_interval n m pos steady some_fuel enough h =
      absurd (omega arith)
  poll-Ends (suc fuel) ticks mirrored id deadline poll_interval n m pos steady some_fuel enough h =
      let seen = seen_at ticks n m in
      elim (Option-cases (check_response seen.queue id)) [
        | inr (status, e) ↦
            rw (poll-after_look fuel ticks mirrored id deadline n m, after_look, e)
              (n, h, inl (status, e, refl))
        | inl open_still ↦ elim (Bool-cases (leb deadline (ticks n).asked_at)) [
          | inl late ↦
              rw (poll-after_look fuel ticks mirrored id deadline n m, after_look, open_still, late)
                (
                  n,
                  h,
                  inr (
                    open_still,
                    ground arith,
                    refl,
                    rw (time_out-queue mirrored id seen)
                        (denied_shows mirrored id seen.queue open_still),
                  ),
                )
          | inr early ↦
              rw
                (poll-after_look fuel ticks mirrored id deadline n m, after_look, open_still, early)
                (let step = steady n in
                  let slept = sleep_for-positive poll_interval deadline (ticks n).slept_from pos in
                  let in_time : (ticks n).asked_at < deadline = ground arith in
                  poll-Ends fuel ticks mirrored id deadline poll_interval (suc n) m pos steady
                    (omega arith) (omega (arith, step.0, step.1))
                    (and_this ticks id deadline n m h (open_still, in_time)))
        ]
      ]

  -- A wait for an answer ends: at the first poll that finds an answer, with that answer and nothing
  -- changed; or at the first poll at the deadline or later, if no poll up to it has found an answer,
  -- with a denial, which the queue shows then. The clock does not go back, a sleep takes its time, and
  -- the polling interval is positive.
  pub wait_for_response-Ends :
      (ticks : ℕ → Tick) (mirrored : Bool) (id : String) (timeout : Option ℕ)
      (started_at poll_interval : ℕ) (m : Manager)
      → 1 ≤ poll_interval
      → Steady ticks poll_interval (started_at + wait_of timeout m)
      → started_at ≤ (ticks 0).asked_at
      → Ends ticks mirrored id
          (started_at + wait_of timeout m)
          m
          (wait_for_response mask ticks mirrored id timeout started_at m)
  unfolding wait_for_response
  wait_for_response-Ends ticks mirrored id timeout started_at poll_interval m pos steady started =
      poll-Ends (suc (wait_of timeout m)) ticks mirrored id (started_at + wait_of timeout m)
        poll_interval 0 m pos steady (omega arith) (omega arith) (λ i less. absurd (omega arith))
