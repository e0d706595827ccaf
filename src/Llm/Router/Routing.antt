-- ===== src/Llm/Router/Routing.antt =====
-- Where a request goes after a health check.
use iddo_harness.Prelude.{
  ℕ, ◌≡◌, refl, String, ◌==◌, Bool, none, some, [], ◌∷◌, if◌then◌else◌, Option-cases, inl, inr,
  Bool-cases,
}
use iddo_harness.Prelude.Dict.{Dict, lookup}
use iddo_harness.Prelude.Result.{Result, ok, err}
use iddo_harness.Llm.Router.{
  Failure, no_healthy_backend, BackendSpec, RoleConfig, HealthState, Router, primary_states,
  secondary_states, checked, check_all_once, route,
}

primary_states-lookup :
    (f : BackendSpec → HealthState) (role : String) (roles : Dict RoleConfig) (config : RoleConfig)
    → lookup role roles ≡ some config
    → lookup role (primary_states f roles) ≡ some (f config.primary)
unfolding lookup primary_states
primary_states-lookup f role [] config h = cc
primary_states-lookup f role ((r, c) ∷ roles) config h = elim (Bool-cases (r == role)) [
  | inl e ↦
      let found : some c ≡ some config = rw e at h in
      let same : c ≡ config = cc in rw (e, same) refl
  | inr e ↦ rw e (primary_states-lookup f role roles config (rw e at h))
]

secondary_states-lookup :
    (f : BackendSpec → HealthState) (role : String) (roles : Dict RoleConfig) (config : RoleConfig)
    (backend : BackendSpec)
    → lookup role roles ≡ some config
    → config.secondary ≡ some backend
    → lookup role (secondary_states f roles) ≡ some (f backend)
unfolding lookup secondary_states
secondary_states-lookup f role [] config backend h k = cc
secondary_states-lookup f role ((r, c) ∷ roles) config backend h k = elim (Bool-cases (r == role)) [
  | inl e ↦
      let found : some c ≡ some config = rw e at h in
      let same : c ≡ config = cc in
      let second : c.secondary ≡ some backend = rw same k in rw (secondary_states, second, e) refl
  | inr e ↦
      let rest = secondary_states-lookup f role roles config backend (rw e at h) k in
      elim (Option-cases c.secondary) [
        | inl g ↦ rw (secondary_states, g) rest
        | inr (b, g) ↦ rw (secondary_states, g, e) rest
      ]
]

-- Where a request should go: to the first backend of its role that answers the probe.
abbrev pub first_alive : (BackendSpec → Bool) → String → RoleConfig → Result Failure BackendSpec
first_alive probe role config =
    if probe config.primary then ok config.primary else elim config.secondary [
      | none ↦ err (no_healthy_backend role)
      | some backend ↦ if probe backend then ok backend else err (no_healthy_backend role)
    ]

-- Right after a health check, `route` returns the primary backend of a configured role if it answered
-- the check, else the secondary one if there is one and it answered, and otherwise it fails.
pub route-first_alive :
    (probe : BackendSpec → Bool) (now : ℕ) (role : String) (router : Router) (config : RoleConfig)
    → lookup role router.roles ≡ some config
    → route role (check_all_once probe now router) ≡ first_alive probe role config
unfolding route check_all_once
route-first_alive probe now role router config h =
    let first = primary_states-lookup (checked probe now) role router.roles config h in
    elim (Option-cases config.secondary) [
      | inl g ↦ rw (route, h, first, g) refl
      | inr (backend, g) ↦
          rw
            (
              route,
              h,
              first,
              g,
              secondary_states-lookup (checked probe now) role router.roles config backend h g,
            )
            refl
    ]
