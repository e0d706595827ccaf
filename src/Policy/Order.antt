-- ===== src/Policy/Order.antt =====
-- The order of the rules: what `decide` returns, said without the steps it takes.
use iddo_harness.Prelude.{
  String, ◌≡◌, ◌⊎◌, refl, ◌∙◌, Bool, false, ◌&&◌, ◌||◌, not, List, [], ◌∷◌, ◌++◌, arith, find, any,
  all, is_some, is_empty, if◌then◌else◌, Bool-cases, inl, inr,
}
use iddo_harness.Prelude.Ids.{contains}
use iddo_harness.Prelude.Text.{strip}
use iddo_harness.Policy.{
  Config, Host, auto, confirm, block, read_verbs, write_verbs, verb_of, first_hit, path_matches,
  decide,
}

is_some-find : (p : String → Bool) (xs : List String) → is_some (find p xs) ≡ any p xs
is_some-find p [] = refl
is_some-find p (x ∷ xs) = ground (arith, is_some-find p xs)

is_some-first_hit :
    (test : String → String → Bool) (paths patterns : List String)
    → is_some (first_hit test paths patterns) ≡ any (λ path. any (test path) patterns) paths
unfolding first_hit
is_some-first_hit test [] patterns = refl
is_some-first_hit test (path ∷ paths) patterns =
    ground (arith, is_some-first_hit test paths patterns, is_some-find (test path) patterns)

any-append : (p : String → Bool) (xs ys : List String) → any p (xs ++ ys) ≡ (any p xs || any p ys)
any-append p [] ys = refl
any-append p (x ∷ xs) ys = ground (arith, any-append p xs ys)

module _ (host : Host) (cfg : Config) (command : String) (paths : List String) where
  abbrev cmd : String
  cmd = host.mask_text (strip command)

  -- A block pattern matches the masked command, or a no-touch pattern matches a path.
  abbrev pub is_blocked : Bool
  is_blocked =
      any (host.fnmatch cmd) cfg.block_commands
      || any (λ path. any (host.fnmatch path) cfg.no_touch) paths

  -- A pattern asks for confirmation of the command, or the command writes to a guarded path.
  abbrev pub is_guarded : Bool
  is_guarded =
      any (host.fnmatch cmd) cfg.confirm_commands
      || contains write_verbs (verb_of cmd)
        && any (λ path. any (path_matches host path) cfg.confirm_write) paths

  -- A pattern allows the command, or the command reads and every one of its paths is in a read root.
  abbrev pub is_allowed : Bool
  is_allowed =
      any (host.fnmatch cmd) cfg.auto_commands
      || contains read_verbs (verb_of cmd)
        && (not (is_empty paths) && not (is_empty cfg.auto_read))
        && all (λ p. any (path_matches host p) cfg.auto_read) paths

  -- `decide` blocks what is blocked, whatever else holds; of the rest it asks for confirmation of
  -- what is guarded; of the rest it allows what is allowed, and asks for confirmation of all else.
  pub decide-eq : (decide host cfg command paths).0 ≡ (
      if is_blocked
      then block
      else if is_guarded
      then confirm
      else if is_allowed
      then auto
      else confirm)
  unfolding decide
  decide-eq = ground (
    arith,
    is_some-find (host.fnmatch cmd) cfg.block_commands,
    is_some-first_hit host.fnmatch paths cfg.no_touch,
    is_some-find (host.fnmatch cmd) cfg.confirm_commands,
    is_some-first_hit (path_matches host) paths cfg.confirm_write,
    is_some-find (host.fnmatch cmd) cfg.auto_commands,
  )

any-any-append :
    (test : String → String → Bool) (more patterns paths : List String)
    → any (λ path. any (test path) (more ++ patterns)) paths ≡ false
    → any (λ path. any (test path) patterns) paths ≡ false
any-any-append test more patterns [] h = refl
any-any-append test more patterns (path ∷ paths) h =
    ground (arith, any-append (test path) more patterns, any-any-append test more patterns paths)

abbrev pub with_blocks : List String → List String → Config → Config
with_blocks commands untouched cfg = record cfg {
  block_commands = commands ++ cfg.block_commands;
  no_touch = untouched ++ cfg.no_touch;
}

module _ (host : Host) (cfg : Config) (commands untouched : List String) (command : String)
    (paths : List String) where
  still_not_blocked :
      is_blocked host (with_blocks commands untouched cfg) command paths ≡ false
      → is_blocked host cfg command paths ≡ false
  still_not_blocked h = ground (
    arith,
    any-append (host.fnmatch (host.mask_text (strip command))) commands cfg.block_commands,
    any-any-append host.fnmatch untouched cfg.no_touch paths,
  )

  -- More block patterns, for commands or for paths, turn a decision into `block` or leave it as it
  -- was.
  pub decide-with_blocks :
      ((decide host (with_blocks commands untouched cfg) command paths).0 ≡ block)
      ⊎ ((decide host (with_blocks commands untouched cfg) command paths).0
          ≡ (decide host cfg command paths).0)
  decide-with_blocks =
      elim (Bool-cases (is_blocked host (with_blocks commands untouched cfg) command paths)) [
        | inl hit ↦ inl (decide-eq host (with_blocks commands untouched cfg) command paths ∙ rw hit)
        | inr miss ↦ inr (
            decide-eq host (with_blocks commands untouched cfg) command paths
            ∙ rw (miss, decide-eq host cfg command paths, still_not_blocked miss))
      ]
