-- ===== src/Approval.antt =====
-- agent/approval.py, `ApprovalManager`: the confirmation queue with its own deadline and an audit
-- trail. The desktop notification and the message over the bridge are not modelled. `mask` is
-- mask_text of agent/secrets_vault.py; `mirrored` says whether writes to the mirrored queue succeed.
pub mod Waiting
use iddo_harness.Prelude.{
  ℕ, zero, suc, ◌+◌, ◌-◌, min, String, ◌==◌, Bool, true, false, Option, none, some, List, [], ◌∷◌,
  ◌++◌, leb, eqb, if◌then◌else◌, nonempty,
}
use iddo_harness.Prelude.Ids.{contains}
use iddo_harness.Prelude.Text.{strip, lower}
use iddo_harness.Json.{Value, text, Python, str, truthy}
use iddo_harness.Confirm as Confirm
use iddo_harness.Confirm.{Task, Queue, check_response, sweep, command_of}

abbrev pub mode_local : String
mode_local = "local"

abbrev pub valid_modes : List String
valid_modes = "local" ∷ "notification" ∷ "remote" ∷ []

-- What an audit entry of the broker says.
pub record Event : Type 0 where
  pub actor : String
  pub action : String
  pub resource : String
  pub outcome : String

pub record Manager : Type 0 where
  pub queue : Queue
  pub mode : String
  pub timeout_seconds : ℕ
  pub has_audit_log : Bool
  pub trail : List Event

module _ (py : Python) where
  unfoldable pub normalise_mode : Value → String
  normalise_mode mode =
      let name = lower (strip (if truthy mode then str py mode else mode_local)) in
      if contains valid_modes name then name else mode_local

-- `self.timeout_seconds if timeout is None else timeout`
abbrev pub wait_of : Option ℕ → Manager → ℕ
wait_of none m = m.timeout_seconds
wait_of (some t) m = t

-- What happens around the n-th poll: what others write to the queue before it, the clock when the
-- deadline is compared, and the clock when the sleep is computed.
pub record Tick : Type 0 where
  pub others : Queue → Queue
  pub asked_at : ℕ
  pub slept_from : ℕ

-- min(poll_interval, max(0.0, deadline - now)) or poll_interval
unfoldable pub sleep_for : ℕ → ℕ → ℕ → ℕ
sleep_for poll_interval deadline now =
    let short = min poll_interval (deadline - now) in if eqb short 0 then poll_interval else short

module _ (mask : String → String) where
  unfoldable pub audit : String → String → String → String → Manager → Manager
  audit actor action resource outcome m =
      if m.has_audit_log
      then record m {
        trail =
            m.trail
            ++ (record {
              actor = actor;
              action = action;
              resource = mask resource;
              outcome = outcome;
            })
              ∷ [];
      }
      else m

  module _ (py : Python) where
    unfoldable pub create : Bool → Task → String → ℕ → Manager → Manager
    unfolding audit
    create mirrored task reason now m =
        let command = command_of task.payload in
        audit task.id "approval_requested" (if truthy command then str py command else task.id) "ok"
          (record m { queue = Confirm.create mirrored task reason now m.queue })

  unfoldable pub respond : Bool → String → Bool → String → Manager → Manager
  unfolding audit
  respond mirrored id approve actor m =
      audit actor (if approve then "approval_granted" else "approval_denied") id
        (if approve then "ok" else "deny")
        (record m { queue = Confirm.respond mirrored id approve m.queue })

  unfoldable pub time_out : Bool → String → Manager → Manager
  unfolding respond audit
  time_out mirrored id m =
      audit "timeout" "approval_timeout" id "deny" (respond mirrored id false "timeout" m)

  unfoldable pub sweep_timeouts : Bool → ℕ → Manager → Manager × List String
  unfolding time_out
  sweep_timeouts mirrored now m =
      sweep (λ (n : Manager). n.queue) (time_out mirrored) now m.timeout_seconds m

  -- The loop from the n-th poll on, with the status and the manager afterwards; `none` where the fuel
  -- does not suffice.
  unfoldable pub poll : ℕ → (ℕ → Tick) → Bool → String → ℕ → ℕ → Manager → Option (Bool × Manager)
  unfolding time_out
  poll zero ticks mirrored id deadline n m = none
  poll (suc fuel) ticks mirrored id deadline n m =
      let seen = record m { queue = (ticks n).others m.queue } in
      elim (check_response seen.queue id) [
        | some status ↦ some (status, seen)
        | none ↦ elim (leb deadline (ticks n).asked_at) [
          | true ↦ some (false, time_out mirrored id seen)
          | false ↦ poll fuel ticks mirrored id deadline (suc n) seen
        ]
      ]

  -- One unit of time passes with each poll at least.
  unfoldable pub wait_for_response :
      (ℕ → Tick) → Bool → String → Option ℕ → ℕ → Manager → Option (Bool × Manager)
  unfolding poll
  wait_for_response ticks mirrored id timeout started_at m =
      let wait = wait_of timeout m in poll (suc wait) ticks mirrored id (started_at + wait) 0 m
