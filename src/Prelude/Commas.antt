-- ===== src/Prelude/Commas.antt =====
-- Python's `",".join(words)` and `s.split(",")`, and the way back from the one to the other.
use Prim.Native.Char.{Char, code}
use Prim.Native.String.{String}
use mathlib.Core.Path.{◌≡◌, refl, ap, ◌∙◌}
use mathlib.Core.Bool.{Bool, true, false}
use mathlib.Core.Logic.{inl, inr}
use mathlib.Core.List.{List, [], ◌∷◌}
use native.Mathlib.Omega.{arith}
use iddo_harness.Prelude.Tests.{eqb, if◌then◌else◌, Bool-cases}
use iddo_harness.Prelude.Lists.{All}

abbrev pub is_comma : Char → Bool
is_comma c = eqb (code c) 44

abbrev prepend : Char → List String → List String
prepend c [] = String.◌∷◌ c String.[] ∷ []
prepend c (w ∷ ws) = String.◌∷◌ c w ∷ ws

-- s.split(",")
unfoldable pub split : String → List String
split String.[] = String.[] ∷ []
split (String.◌∷◌ c s) =
    let rest = split s in if is_comma c then String.[] ∷ rest else prepend c rest

-- A word, a comma, and a text.
followed : Char → String → String → String
followed sep String.[] t = String.◌∷◌ sep t
followed sep (String.◌∷◌ c s) t = String.◌∷◌ c (followed sep s t)

-- sep.join(words), for a separator of one character
unfoldable pub join : Char → List String → String
unfolding followed
join sep [] = String.[]
join sep (w ∷ []) = w
join sep (w ∷ v ∷ ws) = followed sep w (join sep (v ∷ ws))

abbrev pub NoComma : String → Type 0
NoComma String.[] = Unit
NoComma (String.◌∷◌ c s) = (is_comma c ≡ false) × NoComma s

split-word : (w : String) → NoComma w → split w ≡ w ∷ []
unfolding split
split-word String.[] h = refl
split-word (String.◌∷◌ c s) h = rw (h.0, split-word s h.1)

split-followed :
    (sep : Char) (w t : String)
    → is_comma sep ≡ true
    → NoComma w
    → split (followed sep w t) ≡ w ∷ split t
unfolding split followed
split-followed sep String.[] t k h = rw k
split-followed sep (String.◌∷◌ c s) t k h = rw (h.0, split-followed sep s t k h.1)

-- Splitting what was joined from one word or more gives the words back, if none has a comma.
pub split-join :
    (sep : Char) (w : String) (ws : List String)
    → code sep ≡ 44
    → All NoComma (w ∷ ws)
    → split (join sep (w ∷ ws)) ≡ w ∷ ws
unfolding join
split-join sep w [] k h = split-word w h.0
split-join sep w (v ∷ ws) k h =
    split-followed sep w (join sep (v ∷ ws)) (ground arith) h.0
    ∙ ap (λ (l : List String). w ∷ l) (split-join sep v ws k h.1)

prepend-NoComma :
    (c : Char) (ws : List String) → is_comma c ≡ false → All NoComma ws → All NoComma (prepend c ws)
prepend-NoComma c [] h k = ((h, tt), tt)
prepend-NoComma c (w ∷ ws) h k = ((h, k.0), k.1)

-- The pieces of a split have no comma.
pub split-NoComma : (s : String) → All NoComma (split s)
unfolding split
split-NoComma String.[] = (tt, tt)
split-NoComma (String.◌∷◌ c s) = elim (Bool-cases (is_comma c)) [
  | inl e ↦ rw e (tt, split-NoComma s)
  | inr e ↦ rw e (prepend-NoComma c (split s) e (split-NoComma s))
]
