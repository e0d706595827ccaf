-- ===== src/Examples/Policy.antt =====
-- Decisions of agent/policy.py on one command, with patterns that match only themselves.
use iddo_harness.Prelude.{◌≡◌, ◌⊎◌, ◌==◌, [], ◌∷◌, if◌then◌else◌}
use iddo_harness.Policy.{Config, Host, auto, confirm, block, decide}
use iddo_harness.Policy.Order.{
  is_blocked, is_guarded, is_allowed, with_blocks, decide-eq, decide-with_blocks,
}

abbrev pub host : Host
host = record {
  fnmatch = λ name glob. name == glob;
  expanduser = λ s. s;
  expandvars = λ s. s;
  mask_text = λ s. s;
}

abbrev pub config : Config
config = record {
  block_commands = "rm -rf /" ∷ [];
  no_touch = "/etc/shadow" ∷ [];
  confirm_commands = [];
  confirm_write = "/srv/**" ∷ [];
  auto_commands = "ls" ∷ [];
  auto_read = "/srv/**" ∷ [];
}

decide-eq_example : (decide host config "cat /srv" ("/srv/" ∷ [])).0 ≡ (
    if is_blocked host config "cat /srv" ("/srv/" ∷ [])
    then block
    else if is_guarded host config "cat /srv" ("/srv/" ∷ [])
    then confirm
    else if is_allowed host config "cat /srv" ("/srv/" ∷ [])
    then auto
    else confirm)
decide-eq_example = decide-eq host config "cat /srv" ("/srv/" ∷ [])

decide-with_blocks_example :
    ((decide host (with_blocks ("ls" ∷ []) [] config) "ls" []).0 ≡ block)
    ⊎ ((decide host (with_blocks ("ls" ∷ []) [] config) "ls" []).0 ≡ (decide host config "ls" []).0)
decide-with_blocks_example = decide-with_blocks host config ("ls" ∷ []) [] "ls" []
