-- ===== src/Handshake.antt =====
-- agent/handshake.py: what a producer is told about this harness. The fields of a HandshakeReport that
-- `negotiate` only copies into its answer are outside the model, and so are lists of a request that are
-- neither lists nor falsy.
pub mod Newest
pub mod Compatible
use Prim.Native.Char.{code}
use iddo_harness.Prelude.{
  ℕ, String, Bool, true, false, ◌&&◌, ◌||◌, not, Option, none, some, List, [], ◌∷◌, ◌++◌, map,
  filter, ltb, eqb, any, if◌then◌else◌, nonempty, is_empty, is_some,
}
use iddo_harness.Prelude.Ids.{contains}
use iddo_harness.Json.{Value, null, text, array, to_list, Fields, get, or_null, truthy, Python, str}
use iddo_harness.Scheduler.Cron.{is_digit, number_from}

abbrev pub supported_protocols : List String
supported_protocols = "1.0" ∷ "2.0" ∷ "3.0" ∷ []

pub record Capability : Type 0 where
  pub name : String
  pub available : Bool
  pub detail : String

pub record HandshakeReport : Type 0 where
  pub protocols : List String
  pub kinds : List (String × List String)
  pub capabilities : List Capability

-- The kinds of all groups, of which `negotiate` only asks whether they have a name.
unfoldable pub all_kinds : List (String × List String) → List String
all_kinds [] = []
all_kinds ((generation, group) ∷ kinds) = group ++ all_kinds kinds

-- version.split(".")
unfoldable pub chunks : String → List String
chunks String.[] = String.[] ∷ []
chunks (String.◌∷◌ c s) =
    let rest = chunks s in
    if eqb (code c) 46 then String.[] ∷ rest else (elim rest [
      | [] ↦ String.◌∷◌ c String.[] ∷ []
      | chunk ∷ others ↦ String.◌∷◌ c chunk ∷ others
    ])

unfoldable pub protocol_key : String → List ℕ
unfolding chunks
protocol_key version =
    map (λ chunk. if is_digit chunk then number_from 0 chunk else 0) (chunks version)

-- Python's order of tuples.
unfoldable pub tuple_le : List ℕ → List ℕ → Bool
tuple_le [] ls = true
tuple_le (a ∷ ks) [] = false
tuple_le (a ∷ ks) (b ∷ ls) = ltb a b || (eqb a b && tuple_le ks ls)

-- max(shared, key=_protocol_key), the first of the greatest, from the best one so far.
unfoldable pub newest_from : String → List String → String
newest_from best [] = best
newest_from best (p ∷ ps) =
    newest_from (if tuple_le (protocol_key p) (protocol_key best) then best else p) ps

unfoldable pub newest : List String → Option String
unfolding newest_from
newest [] = none
newest (p ∷ ps) = some (newest_from p ps)

pub record Negotiation : Type 0 where
  pub requested_kinds : List String
  pub unsupported_kinds : List String
  pub requested_capabilities : List String
  pub missing_capabilities : List String
  pub requested_protocols : List String
  pub negotiated_protocol : Option String
  pub compatible : Bool
  pub client : Option String

module _ (py : Python) where
  -- [str(v) for v in (value or [])]
  abbrev pub texts_of : Option Value → List String
  texts_of (some (array vs)) = map (str py) (to_list vs)
  texts_of v = []

  unfoldable pub requested_in : Fields → List String
  requested_in request = elim (or_null (get "protocols" request)) [
    | null ↦
        let one = or_null (get "protocol" request) in if truthy one then str py one ∷ [] else []
    | v ↦ texts_of (some v)
  ]

  abbrev pub shared_with : List String → List String → List String
  shared_with requested protocols =
      if is_empty requested then protocols else filter (contains requested) protocols

  abbrev pub live : List Capability → List String
  live [] = []
  live (c ∷ cs) = let rest = live cs in if c.available then c.name ∷ rest else rest

  unfoldable pub negotiate : HandshakeReport → Fields → Negotiation
  unfolding requested_in newest all_kinds
  negotiate report request =
      let required = texts_of (get "required_kinds" request) in
      let missing = filter (λ k. not (contains (all_kinds report.kinds) k)) required in
      let requested = requested_in request in
      let negotiated = newest (shared_with requested report.protocols) in
      let required_caps = texts_of (get "required_capabilities" request) in
      let missing_caps = filter (λ c. not (contains (live report.capabilities) c)) required_caps in
      let client = or_null (get "client" request) in
      record {
        requested_kinds = required;
        unsupported_kinds = missing;
        requested_capabilities = required_caps;
        missing_capabilities = missing_caps;
        requested_protocols = requested;
        negotiated_protocol = negotiated;
        compatible = is_empty missing && is_empty missing_caps && is_some negotiated;
        client = if truthy client then some (str py client) else none;
      }
