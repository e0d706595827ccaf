-- ===== src/Examples/Audit.antt =====
-- A log of two records of agent/audit.py, under a keyed hash that only joins its inputs.
use iddo_harness.Prelude.{◌+◌, String, ◌≡◌, refl, true, false, some, [], ◌∷◌, ◌++◌, length}
use Prim.Native.String.{◌++◌ as append}
use iddo_harness.Audit.{
  Body, Entry, Line, entry, Log, altered, unchained, intact, broken, verify_chain, verify_from,
}
use iddo_harness.Audit.Chain.{altered_content_found, missing_line_found}

abbrev mac : String → String → String
mac prev text = append prev text

abbrev canonical : Body → String → String
canonical b prev = append b.action ";"

abbrev mask : String → String
mask s = s

abbrev body : String → Body
body action = record {
  ts = "2026-01-01T00:00:00+00:00";
  actor = "agent";
  action = action;
  resource = "";
  outcome = "ok";
  meta = "{}";
}

abbrev first : Entry
first = record { body = body "run"; prev = ""; hmac = "run;" }

abbrev second : Entry
second = record { body = body "stop"; prev = "run;"; hmac = "run;stop;" }

abbrev log : Log
log = record {
  file = some (entry first ∷ entry second ∷ []);
  written = 7;
  rotate_daily = true;
  rotated = [];
  unended = false;
}

verifies : verify_chain mac canonical mask log.file ≡ intact
unfolding verify_chain verify_from
verifies = refl

altered_content_found_example :
    verify_chain mac canonical mask
      (some ([] ++ entry (record first { body = body "halt" }) ∷ entry second ∷ []))
    ≡ broken (1 + length {A = Line} []) altered
altered_content_found_example =
    altered_content_found mac canonical mask [] (entry second ∷ []) first (body "halt") verifies
      (λ h. cc)

missing_line_found_example :
    verify_chain mac canonical mask (some ([] ++ entry second ∷ []))
    ≡ broken (1 + length {A = Line} []) unchained
missing_line_found_example =
    missing_line_found mac canonical mask [] [] first second verifies (λ h. cc)
