-- ===== src/Runner/Pool/Cancel.antt =====
-- `cancel` and `pump`.
use iddo_harness.Prelude.{
  ℕ, zero, suc, ◌+◌, String, ◌≡◌, ◌↔◌, refl, ◌==◌, eq_refl, Bool, true, false, none, arith, All,
  Option-cases, inl, inr, ◌⊎◌, nonempty,
}
use iddo_harness.Prelude.Ids.{contains, contains-add}
use iddo_harness.Taskqueue.Queue
use iddo_harness.Taskqueue.Queue.{Queue, Entry, pull}
use iddo_harness.Taskqueue.Queue.Invariant.{IsValid}
use iddo_harness.Taskqueue.Queue.Keeps.{remove-absent}
use iddo_harness.Runner.Pool.{
  Pool, cancel, unknown, launch, start_more, pump, deadline_events, report_expired,
}

module _ (stops : String → Bool) (target : String) (p : Pool) where
  cancel-entries : (cancel stops target p).1.queue ≡ (Queue.remove target p.queue).1
  unfolding cancel
  cancel-entries = ground arith

  cancel-recorded : contains (cancel stops target p).1.cancelled target ≡ true
  unfolding cancel
  cancel-recorded = ground (arith, contains-add target target p.cancelled, eq_refl target)

  -- Whatever `cancel` finds in a pool whose queue is valid, afterwards the target, which is not empty,
  -- is recorded as cancelled, and no task that is in the queue then has its id.
  pub cancel_takes_effect :
      IsValid p.queue
      → nonempty target ≡ true
      → (contains (cancel stops target p).1.cancelled target ≡ true)
        × All (λ e. (target == e.task.id) ≡ false) (cancel stops target p).1.queue.entries
  cancel_takes_effect v named =
      (cancel-recorded, rw cancel-entries (remove-absent target p.queue v named))

  -- `cancel` answers `unknown` exactly when the target is not queued, has no worker, and the
  -- executor has nothing of it to stop.
  pub cancel-unknown_iff :
      ((cancel stops target p).0 ≡ unknown)
      ↔ ((Queue.remove target p.queue).0 ≡ none)
        × (contains p.workers target ≡ false)
        × (stops target ≡ false)
  unfolding cancel
  cancel-unknown_iff = ((λ h. ground arith), (λ h. ground arith))

launch_parts :
    (probe : String → Bool) (drained now left : ℕ) (p : Pool)
    → p.slots ≡ left
    → (((launch probe drained now left p).0 ≡ true)
        × ((launch probe drained now left p).1.slots + 1 ≡ p.slots)
        × ((launch probe drained now left p).1.in_flight ≡ p.in_flight + 1))
      ⊎ (((launch probe drained now left p).0 ≡ false)
          × ((launch probe drained now left p).1.slots ≡ p.slots)
          × ((launch probe drained now left p).1.in_flight ≡ p.in_flight))
unfolding launch
launch_parts probe drained now zero p e = inr (refl, refl, refl)
launch_parts probe drained now (suc left) p e =
    elim (Option-cases (Queue.next_task probe drained now p.queue).0) [
      | inl idle ↦ rw (idle, launch) (inr (refl, refl, refl))
      | inr (task, found) ↦ rw (found, launch) (inl (refl, omega arith, refl))
    ]

start_more_accounts :
    (probe : String → Bool) (clock : ℕ → ℕ × ℕ) (rounds : ℕ) (p : Pool)
    → ((start_more probe clock rounds p).1.slots + (start_more probe clock rounds p).0 ≡ p.slots)
      × ((start_more probe clock rounds p).1.in_flight
          ≡ p.in_flight + (start_more probe clock rounds p).0)
unfolding start_more
start_more_accounts probe clock zero p = omega arith
start_more_accounts probe clock (suc rounds) p =
    let p' = (launch probe (clock rounds).0 (clock rounds).1 p.slots p).1 in
    let (a, b) = start_more_accounts probe clock rounds p' in
    elim (launch_parts probe (clock rounds).0 (clock rounds).1 p.slots p refl) [
      | inl (go, one, two) ↦ rw go (omega (arith, a, one), omega (arith, b, two))
      | inr (halt, one, two) ↦ rw halt (omega (arith, one), omega (arith, two))
    ]

-- The number that `pump` returns is how many slots it took and how many workers it added, and what
-- it sends is the report of each task that has expired.
pub pump_accounts :
    (probe : String → Bool) (now : ℕ) (clock : ℕ → ℕ × ℕ) (rounds : ℕ) (p : Pool)
    → ((pump probe now clock rounds p).2.slots + (pump probe now clock rounds p).1 ≡ p.slots)
      × ((pump probe now clock rounds p).2.in_flight
          ≡ p.in_flight + (pump probe now clock rounds p).1)
      × ((pump probe now clock rounds p).0 ≡ deadline_events (Queue.drain_expired now p.queue).0)
unfolding pump report_expired
pump_accounts probe now clock rounds p =
    let (taken, added) = start_more_accounts probe clock rounds (report_expired now p).1 in
    (taken, added, refl)
