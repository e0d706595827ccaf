-- ===== src/Executor/Resuming.antt =====
-- What the executor does with the requests that have an answer.
use iddo_harness.Prelude.{
  ℕ, String, ◌≡◌, ◌≢◌, refl, Bool, true, false, some, List, [], ◌∷◌, ◌∙◌, All, All-map,
}
use iddo_harness.Policy.{Config, Host}
use iddo_harness.Confirm.{Task, Queue, Pending, check_response, scan_pending, read_pending}
use iddo_harness.Approval.{Manager, sweep_timeouts}
use iddo_harness.Confirm.Scanning.{Answered, scan_pending-Answered}
use iddo_harness.Executor.{
  Machine, World, Others, resume_after_confirm, resume_all, resume_answered,
}

module _ (machine : Machine) (host : Host) (cfg : Config) (mirrored : Bool) (now : ℕ)
    (others : Others) where
  resume_all-denied :
      (resolved : List (Task × Bool)) (w : World)
      → All (λ (r : Task × Bool). r.1 ≡ false) resolved
      → (resume_all machine host cfg mirrored now others resolved w).1.effects ≡ w.effects
  unfolding resume_all resume_after_confirm
  resume_all-denied [] w h = refl
  resume_all-denied ((task, false) ∷ resolved) w h = resume_all-denied resolved w h.1
  resume_all-denied ((task, true) ∷ resolved) w h = cc h.0

  -- The queue as the manager's sweep leaves it.
  abbrev pub swept : (String → String) → Manager → World → Queue
  swept mask m w = (sweep_timeouts mask mirrored now (record m { queue = w.queue })).0.queue

  -- A turn of the main loop does nothing to the machine for the requests in the queue, if none of those
  -- that are pending and can be read after the sweep of timeouts is found approved then.
  pub resume_answered-denied :
      (mask : String → String) (m : Manager) (w : World)
      → ((id : String) (p : Pending)
          → read_pending (swept mask m w).local_dir id ≡ some p
          → check_response (swept mask m w) id ≢ some true)
      → (resume_answered machine host cfg mirrored now others mask m w).1.effects ≡ w.effects
  unfolding resume_answered
  resume_answered-denied mask m w none_approved =
      let (queue, resolved) = scan_pending (swept mask m w) in
      resume_all-denied resolved (record w { queue = queue })
        (All-map (Answered (swept mask m w)) (λ r. r.1 ≡ false)
          (λ r (id, p, there, answer, _).
            not_approved r.1 (λ e. none_approved id p there (answer ∙ e)))
          resolved (scan_pending-Answered (swept mask m w)))
    where
      not_approved : (b : Bool) → (some b ≢ some true) → b ≡ false
      not_approved true h = absurd (h refl)
      not_approved false h = refl
