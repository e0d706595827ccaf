-- ===== src/Memory/Tags.antt =====
-- The tags of a memory, on their way through the table's comma-separated column.
use Prim.Native.Char.{Char, code}
use iddo_harness.Prelude.{
  String, ◌≡◌, refl, ◌∙◌, ap, true, ◌&&◌, not, List, [], ◌∷◌, ◌++◌, arith, All, All-append, All-map,
  filter, Bool-cases, inl, inr, nonempty,
}
use iddo_harness.Prelude.Ids.{contains}
use iddo_harness.Prelude.Text.{strip, strip-NoComma}
use iddo_harness.Prelude.Commas.{split, join, NoComma, split-join, split-NoComma}
use iddo_harness.Memory.{TagArg, absent, separated, listed, distinct_tags, normalise_tags}

-- A tag that is not empty and has no comma.
abbrev pub IsPlain : String → Type 0
IsPlain t = (nonempty t ≡ true) × NoComma t

distinct_tags-IsPlain :
    (seen tags : List String)
    → All IsPlain seen
    → All NoComma tags
    → All IsPlain (distinct_tags seen tags)
unfolding distinct_tags
distinct_tags-IsPlain seen [] s h = s
distinct_tags-IsPlain seen (tag ∷ rest) s h =
    elim (Bool-cases (nonempty (strip tag) && not (contains seen (strip tag)))) [
      | inl new ↦ rw new (
          distinct_tags-IsPlain (seen ++ strip tag ∷ []) rest
            (All-append IsPlain seen _ s ((ground arith, strip-NoComma tag h.0), tt)) h.1)
      | inr old ↦ rw old (distinct_tags-IsPlain seen rest s h.1)
    ]

filter-nonempty : (ts : List String) → All IsPlain ts → filter nonempty ts ≡ ts
filter-nonempty [] h = refl
filter-nonempty (t ∷ ts) h = rw h.0.0 (ap (λ (l : List String). t ∷ l) (filter-nonempty ts h.1))

-- Reading the column of plain tags gives them back.
pub read_back :
    (comma : Char) (ts : List String)
    → code comma ≡ 44
    → All IsPlain ts
    → filter nonempty (split (join comma ts)) ≡ ts
unfolding split join
read_back comma [] k h = refl
read_back comma (t ∷ ts) k h =
    ap (filter nonempty) (split-join comma t ts k (All-map _ _ (λ x p. p.1) (t ∷ ts) h))
    ∙ filter-nonempty (t ∷ ts) h

-- No tag of a list has a comma.
abbrev pub Commaless : TagArg → Type 0
Commaless (listed tags) = All NoComma tags
Commaless tags = Unit {0}

pub normalise_tags-IsPlain : (tags : TagArg) → Commaless tags → All IsPlain (normalise_tags tags)
unfolding normalise_tags
normalise_tags-IsPlain absent h = tt
normalise_tags-IsPlain (separated s) h = distinct_tags-IsPlain [] (split s) tt (split-NoComma s)
normalise_tags-IsPlain (listed tags) h = distinct_tags-IsPlain [] tags tt h
