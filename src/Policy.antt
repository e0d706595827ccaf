-- ===== src/Policy.antt =====
-- agent/policy.py: `_path_matches`, `PolicyEngine.decide` and `PolicyEngine.audit`. Python's
-- `fnmatch.fnmatchcase` and `os.path` are parameters, and so is `mask_text` of
-- agent/secrets_vault.py.
pub mod Order
use Prim.Native.Char.{Char, code, char}
use Prim.Native.String.{◌++◌ as append}
use iddo_harness.Prelude.{
  ℕ, String, ◌==◌, Bool, true, false, ◌&&◌, ◌||◌, not, Option, none, some, List, [], ◌∷◌, eqb, find,
  any, all, if◌then◌else◌, nonempty, is_empty,
}
use iddo_harness.Prelude.Ids.{contains}
use iddo_harness.Prelude.Text.{strip, lower, is_space}
use iddo_harness.Audit.{Body, Log, record_event}

abbrev read_verbs : List String
read_verbs =
    "cat" ∷ "type" ∷ "head" ∷ "tail" ∷ "read" ∷ "read_chunk" ∷ "list" ∷ "ls" ∷ "dir" ∷ "grep"
    ∷ "glob" ∷ "watch_start" ∷ "watch_poll" ∷ []

abbrev write_verbs : List String
write_verbs = "write" ∷ "patch" ∷ "rm" ∷ "del" ∷ "mv" ∷ "move" ∷ "cp" ∷ "copy" ∷ []

pub data Decision : Type 0 where
  auto confirm block : Decision

-- The lists of policy.yaml that `decide` reads; a list that is missing there is empty here.
pub record Config : Type 0 where
  pub block_commands : List String
  pub no_touch : List String
  pub confirm_commands : List String
  pub confirm_write : List String
  pub auto_commands : List String
  pub auto_read : List String

-- What Python's library and the vault do: `fnmatchcase(name, pattern)`, `expanduser`, `expandvars`
-- and `mask_text`.
pub record Host : Type 0 where
  pub fnmatch : String → String → Bool
  pub expanduser : String → String
  pub expandvars : String → String
  pub mask_text : String → String

-- s.replace("\\", "/")
unfoldable pub slashes : String → String
slashes String.[] = String.[]
slashes (String.◌∷◌ c s) = String.◌∷◌ (if eqb (code c) 92 then char 47 tt else c) (slashes s)

-- s.rstrip("/")
unfoldable pub without_slashes : String → String
without_slashes String.[] = String.[]
without_slashes (String.◌∷◌ c s) =
    let rest = without_slashes s in
    if (rest == "") && eqb (code c) 47 then String.[] else String.◌∷◌ c rest

-- What comes before the first white space of a text.
unfoldable pub word : String → String
word String.[] = String.[]
word (String.◌∷◌ c s) =
    let rest = word s in if is_space (code c) then String.[] else String.◌∷◌ c rest

-- The verb: `cmd.split(maxsplit=1)[0].lower()`, and "" for an empty command.
unfoldable pub verb_of : String → String
unfolding word
verb_of cmd = lower (word (strip cmd))

-- The first pattern that a path hits, path by path.
unfoldable pub first_hit : (String → String → Bool) → List String → List String → Option String
first_hit test [] patterns = none
first_hit test (path ∷ paths) patterns =
    let rest = first_hit test paths patterns in
    elim (find (test path) patterns) [ some pattern_ ↦ some pattern_ | none ↦ rest ]

module _ (host : Host) where
  -- The second test is: the pattern ends in `/**`, and the path is what stands before that.
  unfoldable pub path_matches : String → String → Bool
  unfolding slashes without_slashes
  path_matches path glob =
      let norm_pat = lower (slashes (host.expandvars (host.expanduser glob))) in
      let norm_path = lower (without_slashes (slashes (host.expanduser path))) in
      host.fnmatch norm_path norm_pat || (append norm_path "/**" == norm_pat)

  module _ (cfg : Config) where
    -- The last steps of `decide`: a read verb inside the read roots, and the default.
    unfoldable pub read_step : String → List String → Decision × String
    unfolding path_matches
    read_step verb paths =
        if contains read_verbs verb
          && (not (is_empty paths) && not (is_empty cfg.auto_read))
          && all (λ p. any (path_matches p) cfg.auto_read) paths
        then (auto, "auto-allowed: read path")
        else (confirm, "no matching rule (defaulting to confirmation)")

    unfoldable pub auto_step : String → List String → Decision × String
    unfolding read_step
    auto_step cmd paths = elim (find (host.fnmatch cmd) cfg.auto_commands) [
      | some pat ↦ (auto, append "auto-allowed: " pat)
      | none ↦ read_step (verb_of cmd) paths
    ]

    unfoldable pub write_step : String → List String → Decision × String
    unfolding auto_step
    write_step cmd paths =
        let hit =
          if contains write_verbs (verb_of cmd)
          then first_hit path_matches paths cfg.confirm_write
          else none in
        elim hit [
          | some pat ↦ (confirm, append "write requires confirmation: " pat)
          | none ↦ auto_step cmd paths
        ]

    unfoldable pub confirm_step : String → List String → Decision × String
    unfolding write_step
    confirm_step cmd paths = elim (find (host.fnmatch cmd) cfg.confirm_commands) [
      | some pat ↦ (confirm, append "requires confirmation: " pat)
      | none ↦ write_step cmd paths
    ]

    unfoldable pub block_step : String → List String → Decision × String
    unfolding confirm_step first_hit
    block_step cmd paths = elim (find (host.fnmatch cmd) cfg.block_commands) [
      | some pat ↦ (block, append "blocked by pattern: " pat)
      | none ↦ elim (first_hit host.fnmatch paths cfg.no_touch) [
        | some pat ↦ (block, append "path blocked: " pat)
        | none ↦ confirm_step cmd paths
      ]
    ]

    -- No target paths and an empty list of them are the same to `decide`.
    unfoldable pub decide : String → List String → Decision × String
    unfolding block_step
    decide command paths = block_step (host.mask_text (strip command)) paths

-- `Decision.value`
abbrev pub decision_value : Decision → String
decision_value auto = "auto"
decision_value confirm = "confirm"
decision_value block = "block"

abbrev audit_outcome : Decision → String
audit_outcome block = "deny"
audit_outcome _ = "ok"

-- What `audit` appends to the log; `meta` is the JSON text of the rule and the decision.
unfoldable pub audit_body : Host → String → String → Decision → String → String → Body
audit_body host ts task_id decision command meta = record {
  ts = ts;
  actor = task_id;
  action = append "policy_decision:" (decision_value decision);
  resource = host.mask_text command;
  outcome = audit_outcome decision;
  meta = meta;
}
