-- ===== src/Fabric/Paging/Reassembly.antt =====
-- A reader that follows `next_offset` gets the whole file.
use iddo_harness.Prelude.Text.{concat}
use iddo_harness.Prelude.{
  ℕ, String, zero, suc, ◌+◌, ◌≤◌, ◌<◌, min, max, ◌≡◌, refl, Option, none, some, List, [], ◌∷◌, ◌++◌,
  arith, leb, length, length-drop, take, drop, take-drop, Bool-cases, inl, inr, ◌∙◌, ap, sym,
}
use iddo_harness.Json.{ℤ, pos, negsuc}
use iddo_harness.Fabric.Paging.{at_least, page_at, read_chunked}

abbrev prepend : String → Option String → Option String
prepend s none = none
prepend s (some t) = some (concat s t)

-- The text that a reader collects from an offset on; `none` where the fuel does not suffice.
unfoldable pub collect : (List ℕ → String) → ℕ → ℤ → ℤ → List ℕ → Option String
collect decode zero offset limit_bytes file = none
collect decode (suc fuel) offset limit_bytes file =
    let page = read_chunked decode offset limit_bytes file in
    elim page.next_offset [
      | none ↦ some page.content
      | some next ↦ prepend page.content (collect decode fuel (pos next) limit_bytes file)
    ]

abbrev nothing : List ℕ
nothing = []

nothing_left : (k : ℕ) → drop k nothing ≡ nothing
nothing_left zero = refl
nothing_left (suc k) = refl

drop-drop : (m n : ℕ) (xs : List ℕ) → drop n (drop m xs) ≡ drop (m + n) xs
drop-drop zero n xs = let e : n ≡ 0 + n = omega arith in ap (λ k. drop k xs) e
drop-drop (suc m) n [] = nothing_left n ∙ sym (nothing_left (suc m + n))
drop-drop (suc m) n (x ∷ xs) =
    let e : suc (m + n) ≡ suc m + n = omega arith in drop-drop m n xs ∙ ap (λ k. drop k (x ∷ xs)) e

length-take : (n : ℕ) (xs : List ℕ) → length (take n xs) ≡ min n (length xs)
length-take zero xs = omega arith
length-take (suc n) [] = omega arith
length-take (suc n) (x ∷ xs) = omega (arith, length-take n xs)

take_all : (n : ℕ) (xs : List ℕ) → length xs ≤ n → take n xs ≡ xs
take_all zero [] h = refl
take_all zero (x ∷ xs) h = absurd (omega arith)
take_all (suc n) [] h = refl
take_all (suc n) (x ∷ xs) h = ap (λ ys. x ∷ ys) (take_all n xs (omega arith))

at_least-positive : (z : ℤ) → 1 ≤ at_least 1 z
at_least-positive (pos n) = omega arith
at_least-positive (negsuc n) = omega arith

-- The encoding decodes bytes one by one, as ASCII and Latin-1 do.
abbrev pub IsSingleByte : (List ℕ → String) → Type 0
IsSingleByte decode = (xs ys : List ℕ) → decode (xs ++ ys) ≡ concat (decode xs) (decode ys)

module _ (decode : List ℕ → String) (single : IsSingleByte decode) where
  read_chunked-page_at :
      (o : ℕ) (limit_bytes : ℤ) (file : List ℕ)
      → read_chunked decode (pos o) limit_bytes file
        ≡ page_at decode o (at_least 1 limit_bytes) file
  unfolding read_chunked
  read_chunked-page_at o limit_bytes file =
      let same : max 0 o ≡ o = omega arith in rw (read_chunked, same) refl

  collect-from :
      (fuel o : ℕ) (limit_bytes : ℤ) (file : List ℕ)
      → length file < o + fuel
      → 1 ≤ fuel
      → collect decode fuel (pos o) limit_bytes file ≡ some (decode (drop o file))
  unfolding collect page_at
  collect-from zero o limit_bytes file enough some_fuel = absurd (omega arith)
  collect-from (suc fuel) o limit_bytes file enough some_fuel =
      let limit = at_least 1 limit_bytes in
      let rest = drop o file in
      let read = read_chunked-page_at o limit_bytes file in
      let taken = length-take limit rest in
      let left = length-drop o file in
      let positive = at_least-positive limit_bytes in
      elim (Bool-cases (leb (length file) (o + length (take limit rest)))) [
        | inl over ↦
            let fits : length rest ≤ limit = ground (arith, taken, left) in
            rw (collect, read, page_at, over, read, page_at)
              (ap (λ xs. some (decode xs)) (take_all limit rest fits))
        | inr more ↦
            let whole_page : length (take limit rest) ≡ limit = ground (arith, taken, left) in
            let later =
              collect-from fuel (o + length (take limit rest)) limit_bytes file
                (omega (arith, whole_page, positive))
                (ground (arith, whole_page, positive, left)) in
            let joined : take limit rest ++ drop (o + length (take limit rest)) file ≡ rest =
              rw (whole_page, ← drop-drop o limit file) (take-drop limit rest) in
            rw (collect, read, page_at, more, read, page_at, later)
              (ap some (
                sym (single (take limit rest) (drop (o + length (take limit rest)) file))
                ∙ ap decode joined))
      ]

  -- A reader that starts at offset 0 and follows `next_offset` gets the text of the whole file, in at
  -- most one page for each byte and one more, whatever `limit_bytes` it asks for, if the encoding
  -- decodes bytes one by one.
  pub collect-whole :
      (limit_bytes : ℤ) (file : List ℕ)
      → collect decode (suc (length file)) (pos 0) limit_bytes file ≡ some (decode file)
  collect-whole limit_bytes file =
      collect-from (suc (length file)) 0 limit_bytes file (omega arith) (omega arith)
