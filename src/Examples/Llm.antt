-- ===== src/Examples/Llm.antt =====
-- A router of agent/llm_router.py with two backends, and a run of agent/llm_loop.py in which the model
-- makes one call that the policy wants to be confirmed.
use iddo_harness.Prelude.{◌≡◌, ◌≤◌, refl, String, ◌==◌, Bool, true, none, some, List, [], ◌∷◌}
use iddo_harness.Prelude.Dict.{lookup}
use iddo_harness.Prelude.Result.{Result, ok}
use iddo_harness.Json.{number, pos}
use iddo_harness.Confirm.{Task}
use iddo_harness.Executor as Executor
use iddo_harness.Llm.Router.{BackendSpec, RoleConfig, Router, new_router, check_all_once, route}
use iddo_harness.Llm.Router.Routing.{first_alive, route-first_alive}
use iddo_harness.Llm.Loop.{Call, Message, system, user, Reply, run}
use iddo_harness.Llm.Loop.Ending.{Ends, run-Ends}
use iddo_harness.Examples.Policy.{host, config}
use iddo_harness.Examples.Approvals.{machine, others, world, list_home}

abbrev near : BackendSpec
near = record { name = "primary"; base_url = "http://near"; model = "m"; api_key = "" }

abbrev far : BackendSpec
far = record { name = "secondary"; base_url = "http://far"; model = "m"; api_key = "" }

abbrev coder : RoleConfig
coder = record {
  role = "coder";
  primary = near;
  secondary = some far;
  health_check_interval = number (pos 60);
}

-- Only the far backend answers.
abbrev probe : BackendSpec → Bool
probe backend = backend.base_url == "http://far"

abbrev router : Router
router = new_router (("coder", coder) ∷ [])

coder_known : lookup "coder" router.roles ≡ some coder
unfolding new_router lookup
coder_known = refl

route-first_alive_example :
    route "coder" (check_all_once probe 5 router) ≡ first_alive probe "coder" coder
route-first_alive_example = route-first_alive probe 5 "coder" router coder coder_known

abbrev ask : Call
ask = record { id = "call-1"; name = "shell"; arguments = "make" }

abbrev model : List Message → Reply
model messages = record { content = none; tool_calls = ask ∷ [] }

abbrev convert : Call → Result String Task
convert call = ok list_home

abbrev execute : Task → Executor.World → Executor.Report × Executor.World
execute = Executor.run machine host config true 60 others

run-Ends_example :
    let (result, t) = run convert execute model 3 "help" [] "build it" world in
    Ends (system "help" ∷ user "build it" ∷ []) result t.messages × (result.iterations ≤ 3)
run-Ends_example = run-Ends convert execute model 3 "help" [] "build it" world
