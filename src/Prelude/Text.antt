-- ===== src/Prelude/Text.antt =====
-- Python's `str.strip`, `str.lower` and the truth of a text, on native strings. `strip` knows
-- every character that Python counts as white space; `lower` maps the ASCII letters and leaves
-- all other characters as they are.
use Prim.Native.Char.{Char, code}
use Prim.Native.String.{String, [], ◌∷◌}
use Prim.Native.Nat.{ℕ, zero, suc}
use mathlib.Core.Bool.{Bool, false, not, ◌&&◌, ◌||◌}
use text.Mathlib.Text.{◌==◌}
use mathlib.Core.Logic.{inl, inr}
use iddo_harness.Prelude.Tests.{leb, eqb, if◌then◌else◌, Bool-cases}
use iddo_harness.Prelude.Commas.{NoComma}

abbrev between : ℕ → ℕ → ℕ → Bool
between low high n = leb low n && leb n high

unfoldable pub is_space : ℕ → Bool
is_space n =
    between 9 13 n
    || between 28 32 n
    || eqb n 133
    || eqb n 160
    || eqb n 5760
    || between 8192 8202 n
    || eqb n 8232
    || eqb n 8233
    || eqb n 8239
    || eqb n 8287
    || eqb n 12288

lstrip : String → String
unfolding is_space
lstrip [] = []
lstrip (c ∷ s) = let rest = lstrip s in if is_space (code c) then rest else c ∷ s

rstrip : String → String
unfolding is_space
rstrip [] = []
rstrip (c ∷ s) = let rest = rstrip s in if (rest == "") && is_space (code c) then [] else c ∷ rest

-- s.strip()
unfoldable pub strip : String → String
unfolding lstrip rstrip
strip s = rstrip (lstrip s)

translate : String → String → Char → Char
translate [] _ c = c
translate (u ∷ us) [] c = c
translate (u ∷ us) (l ∷ ls) c =
    let rest = translate us ls c in if eqb (code u) (code c) then l else rest

-- s.lower()
unfoldable pub lower : String → String
unfolding translate
lower [] = []
lower (c ∷ s) = translate "ABCDEFGHIJKLMNOPQRSTUVWXYZ" "abcdefghijklmnopqrstuvwxyz" c ∷ lower s

-- `bool(s)`
abbrev pub nonempty : String → Bool
nonempty s = not (s == "")

abbrev is_z : String → Bool
is_z (c ∷ []) = eqb (code c) b'Z' || eqb (code c) b'z'
is_z s = false

-- s.endswith(("Z", "z"))
unfoldable pub ends_with_z : String → Bool
ends_with_z [] = false
ends_with_z (c ∷ s) = is_z (c ∷ s) || ends_with_z s

-- s + t, by clauses: the native `++` computes on literals only.
abbrev pub concat : String → String → String
concat [] t = t
concat (c ∷ s) t = c ∷ concat s t

-- s[:-1]
unfoldable pub drop_last : String → String
drop_last [] = []
drop_last (c ∷ s) = let rest = drop_last s in if s == "" then [] else c ∷ rest

-- len(s)
unfoldable pub char_count : String → ℕ
char_count [] = 0
char_count (c ∷ s) = suc (char_count s)

-- s[n:]
unfoldable pub drop_chars : ℕ → String → String
drop_chars zero s = s
drop_chars (suc n) [] = []
drop_chars (suc n) (c ∷ s) = drop_chars n s

-- s[:n]
unfoldable pub take_chars : ℕ → String → String
take_chars zero s = []
take_chars (suc n) [] = []
take_chars (suc n) (c ∷ s) = c ∷ take_chars n s

lstrip-NoComma : (s : String) → NoComma s → NoComma (lstrip s)
unfolding lstrip
lstrip-NoComma [] h = tt
lstrip-NoComma (c ∷ s) h = elim (Bool-cases (is_space (code c))) [
  | inl e ↦ rw e (lstrip-NoComma s h.1)
  | inr e ↦ rw e h
]

rstrip-NoComma : (s : String) → NoComma s → NoComma (rstrip s)
unfolding rstrip
rstrip-NoComma [] h = tt
rstrip-NoComma (c ∷ s) h = elim (Bool-cases ((rstrip s == "") && is_space (code c))) [
  | inl e ↦ rw e tt
  | inr e ↦ rw e (h.0, rstrip-NoComma s h.1)
]

-- Stripping brings no comma in.
pub strip-NoComma : (s : String) → NoComma s → NoComma (strip s)
unfolding strip
strip-NoComma s h = rstrip-NoComma (lstrip s) (lstrip-NoComma s h)
