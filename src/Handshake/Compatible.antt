-- ===== src/Handshake/Compatible.antt =====
-- When a negotiation finds a request compatible.
use iddo_harness.Prelude.{
  String, ◌==◌, ◌≡◌, refl, Bool, ◌&&◌, ◌||◌, not, List, [], ◌∷◌, ◌++◌, arith, any, filter, is_empty,
  is_some, ap, ap₂, ◌∙◌,
}
use iddo_harness.Prelude.Ids.{contains}
use iddo_harness.Json.{Fields, get, Python}
use iddo_harness.Handshake.{
  Capability, HandshakeReport, negotiate, newest, shared_with, requested_in, texts_of, all_kinds,
  live,
}

filter-is_empty :
    {A : Type 0} (bad : A → Bool) (xs : List A) → is_empty (filter bad xs) ≡ not (any bad xs)
filter-is_empty bad [] = refl
filter-is_empty bad (x ∷ xs) = ground (arith, filter-is_empty bad xs)

any-ext : {A : Type 0} (p q : A → Bool) (xs : List A) → ((x : A) → p x ≡ q x) → any p xs ≡ any q xs
any-ext p q [] h = refl
any-ext p q (x ∷ xs) h = ground (arith, h x, any-ext p q xs h)

contains-append :
    (x : String) (xs ys : List String) → contains (xs ++ ys) x ≡ (contains xs x || contains ys x)
unfolding contains
contains-append x [] ys = refl
contains-append x (y ∷ xs) ys = ground (arith, contains-append x xs ys)

none_missing :
    {A : Type 0} (has holds : A → Bool)
    → ((x : A) → has x ≡ holds x)
    → (xs : List A) → is_empty (filter (λ x. not (has x)) xs) ≡ not (any (λ x. not (holds x)) xs)
none_missing has holds h xs =
    filter-is_empty (λ x. not (has x)) xs ∙ ap not (any-ext _ _ xs (λ x. ap not (h x)))

-- Whether a group of the report has the kind, and whether the capability is there and available.
abbrev pub handles_kind : HandshakeReport → String → Bool
handles_kind report kind =
    any (λ (group : String × List String). contains group.1 kind) report.kinds

abbrev pub offers : HandshakeReport → String → Bool
offers report name = any (λ (c : Capability). c.available && (c.name == name)) report.capabilities

all_kinds-contains :
    (kind : String) (kinds : List (String × List String))
    → contains (all_kinds kinds) kind
      ≡ any (λ (group : String × List String). contains group.1 kind) kinds
unfolding all_kinds contains
all_kinds-contains kind [] = refl
all_kinds-contains kind ((generation, group) ∷ kinds) =
    ground (arith, contains-append kind group (all_kinds kinds), all_kinds-contains kind kinds)

live-contains :
    (py : Python) (name : String) (cs : List Capability)
    → contains (live py cs) name ≡ any (λ (c : Capability). c.available && (c.name == name)) cs
unfolding contains
live-contains py name [] = refl
live-contains py name (c ∷ cs) = ground (arith, live-contains py name cs)

newest-is_some : (ps : List String) → is_some (newest ps) ≡ not (is_empty ps)
unfolding newest
newest-is_some [] = refl
newest-is_some (p ∷ ps) = refl

newest-shared :
    (py : Python) (requested protocols : List String)
    → is_some (newest (shared_with py requested protocols))
      ≡ any (λ p. is_empty requested || contains requested p) protocols
unfolding newest
newest-shared py [] [] = refl
newest-shared py [] (p ∷ ps) = refl
newest-shared py (r ∷ rs) ps =
    ground (
      arith,
      newest-is_some (filter (contains (r ∷ rs)) ps),
      filter-is_empty (contains (r ∷ rs)) ps,
    )

-- A negotiation finds a request compatible when every kind it requires is in a group of the report, every
-- capability it requires is there and available, and the report has a protocol that it names; a request
-- that names no protocol takes any.
pub negotiate-compatible :
    (py : Python) (report : HandshakeReport) (request : Fields)
    → (negotiate py report request).compatible ≡ (
        not (
          any (λ kind. not (handles_kind report kind)) (texts_of py (get "required_kinds" request)))
        && not (
            any
              (λ name. not (offers report name))
              (texts_of py (get "required_capabilities" request)))
        && any
            (λ p. is_empty (requested_in py request) || contains (requested_in py request) p)
            report.protocols)
unfolding negotiate
negotiate-compatible py report request =
    let kinds =
      none_missing (contains (all_kinds report.kinds)) (handles_kind report)
        (λ k. all_kinds-contains k report.kinds) (texts_of py (get "required_kinds" request)) in
    let caps =
      none_missing (contains (live py report.capabilities)) (offers report)
        (λ c. live-contains py c report.capabilities)
        (texts_of py (get "required_capabilities" request)) in
    ap₂ (λ x y. x && y) (ap₂ (λ x y. x && y) kinds caps)
      (newest-shared py (requested_in py request) report.protocols)
