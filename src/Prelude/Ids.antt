-- ===== src/Prelude/Ids.antt =====
-- Python's `set` of strings. The program never iterates over one, so the order is not modelled.
use mathlib.Core.Path.{◌≡◌}
use mathlib.Core.Bool.{Bool, false, not, ◌&&◌, ◌||◌}
use mathlib.Core.List.{List, [], ◌∷◌}
use Prim.Native.String.{String}
use native.Mathlib.Omega.{arith}
use text.Mathlib.Text.{◌==◌}
use text.Mathlib.TextEquality.{eq_iff}
use iddo_harness.Prelude.Tests.{if◌then◌else◌}

-- x in s
unfoldable pub contains : List String → String → Bool
contains [] x = false
contains (y ∷ ys) x = y == x || contains ys x

-- s.add(x)
unfoldable pub add : String → List String → List String
add x s = if contains s x then s else x ∷ s

-- s.discard(x)
pub discard : String → List String → List String
discard x [] = []
discard x (y ∷ ys) = let rest = discard x ys in if y == x then rest else y ∷ rest

pub contains-add :
    (x y : String) (s : List String) → contains (add x s) y ≡ ((x == y) || contains s y)
unfolding contains add
contains-add x y s = ground (arith, eq_iff x y)

pub contains-discard :
    (x y : String) (s : List String) → contains (discard x s) y ≡ (not (x == y) && contains s y)
unfolding contains discard
contains-discard x y [] = ground arith
contains-discard x y (z ∷ s) =
    ground (arith, contains-discard x y s, eq_iff x y, eq_iff z x, eq_iff z y)

pub ruleset id_laws = (contains-add, contains-discard)
