-- ===== src/Llm/Router.antt =====
-- agent/llm_router.py: `parse_llm_backends` and `LlmRouter`. A client is what it is made of, a
-- backend; the dictionaries with the keys (role, slot) are two, one for each slot. `probe` is
-- `health_check` of a client. The thread that repeats `check_all_once` is not modelled.
pub mod Routing
use iddo_harness.Prelude.{
  ℕ, String, Bool, true, false, Option, none, some, List, [], ◌∷◌, if◌then◌else◌,
}
use iddo_harness.Prelude.Dict.{Dict, lookup, put}
use iddo_harness.Prelude.Result.{Result, ok, err, ◌>>=◌}
use iddo_harness.Json.{Value, number, text, object, Fields, end, field, get, or_null, truthy, pos}

pub data Failure : Type 0 where
  missing_primary unknown_role no_healthy_backend : String → Failure
  missing_key : String → Failure
  not_a_mapping : Failure

pub record BackendSpec : Type 0 where
  pub name : String
  pub base_url : String
  pub model : String
  pub api_key : String

pub record RoleConfig : Type 0 where
  pub role : String
  pub primary : BackendSpec
  pub secondary : Option BackendSpec
  pub health_check_interval : Value

pub record HealthState : Type 0 where
  pub healthy : Bool
  pub last_checked : ℕ
  pub last_error : String

pub record Router : Type 0 where
  pub roles : Dict RoleConfig
  pub primary_health : Dict HealthState
  pub secondary_health : Dict HealthState

-- d[key], for a text
abbrev required : String → Fields → Result Failure String
required key fs = elim (get key fs) [ some (text s) ↦ ok s | _ ↦ err (missing_key key) ]

abbrev text_or : String → Option Value → String
text_or d (some (text s)) = s
text_or d v = d

abbrev interval_or : Option Value → Value
interval_or none = number (pos 60)
interval_or (some v) = v

unfoldable pub backend_spec_from_dict : String → Value → Result Failure BackendSpec
backend_spec_from_dict name (object fs) = do
  base_url ← required "base_url" fs
  model ← required "model" fs
  ok (record {
    name = name;
    base_url = base_url;
    model = model;
    api_key = text_or "" (get "api_key" fs);
  })
backend_spec_from_dict name v = err not_a_mapping

unfoldable pub secondary_of : Fields → Result Failure (Option BackendSpec)
unfolding backend_spec_from_dict
secondary_of fs =
    let v = or_null (get "secondary" fs) in
    elim (truthy v) [
      | false ↦ ok none
      | true ↦ backend_spec_from_dict "secondary" v >>= λ spec. ok (some spec)
    ]

unfoldable pub parse_role : String → Value → Result Failure RoleConfig
unfolding secondary_of
parse_role role (object fs) = elim (get "primary" fs) [
  | none ↦ err (missing_primary role)
  | some v ↦ backend_spec_from_dict "primary" v >>= λ primary. secondary_of fs >>= λ secondary.
      ok (record {
        role = role;
        primary = primary;
        secondary = secondary;
        health_check_interval = interval_or (get "health_check_interval" fs);
      })
]
parse_role role v = err (missing_primary role)

unfoldable pub parse_llm_backends : Fields → Dict RoleConfig → Result Failure (Dict RoleConfig)
unfolding parse_role
parse_llm_backends end roles = ok roles
parse_llm_backends (field role v fs) roles =
    parse_role role v >>= λ config. parse_llm_backends fs (put role config roles)

-- The default until the first check: optimistic.
abbrev pub unchecked : HealthState
unchecked = record { healthy = true; last_checked = 0; last_error = "" }

unfoldable pub primary_states : (BackendSpec → HealthState) → Dict RoleConfig → Dict HealthState
primary_states f [] = []
primary_states f ((role, config) ∷ roles) = (role, f config.primary) ∷ primary_states f roles

unfoldable pub secondary_states : (BackendSpec → HealthState) → Dict RoleConfig → Dict HealthState
secondary_states f [] = []
secondary_states f ((role, config) ∷ roles) =
    let rest = secondary_states f roles in
    elim config.secondary [ none ↦ rest | some backend ↦ (role, f backend) ∷ rest ]

unfoldable pub new_router : Dict RoleConfig → Router
unfolding primary_states secondary_states
new_router roles = record {
  roles = roles;
  primary_health = primary_states (λ b. unchecked) roles;
  secondary_health = secondary_states (λ b. unchecked) roles;
}

abbrev pub checked : (BackendSpec → Bool) → ℕ → BackendSpec → HealthState
checked probe now backend = record {
  healthy = probe backend;
  last_checked = now;
  last_error = if probe backend then "" else "GET /v1/models failed or timed out";
}

unfoldable pub check_all_once : (BackendSpec → Bool) → ℕ → Router → Router
unfolding primary_states secondary_states
check_all_once probe now router = record router {
  primary_health = primary_states (checked probe now) router.roles;
  secondary_health = secondary_states (checked probe now) router.roles;
}

-- `state is None or state.healthy`
abbrev pub usable : Option HealthState → Bool
usable none = true
usable (some state) = state.healthy

fall_back : Router → String → Option BackendSpec → Result Failure BackendSpec
fall_back router role none = err (no_healthy_backend role)
fall_back router role (some backend) =
    if usable (lookup role router.secondary_health)
    then ok backend
    else err (no_healthy_backend role)

unfoldable pub route : String → Router → Result Failure BackendSpec
unfolding fall_back
route role router = elim (lookup role router.roles) [
  | none ↦ err (unknown_role role)
  | some config ↦
      if usable (lookup role router.primary_health)
      then ok config.primary
      else fall_back router role config.secondary
]
